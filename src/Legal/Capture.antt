-- ===== src/Legal/Capture.antt =====
-- `wouldCapture` and the capturing loop of `simulatePosition` in src/game/core/moveChecker.cpp: the
-- stones captured are those of the enemy groups next to the move that it leaves with no liberty.
use go_game.Prelude.{
  ℕ, ◌≡◌, refl, ◌∙◌, ◌↔◌, ◌⊎◌, inl, inr, true, false, ◌==◌, Option, none, some, ◌>>=◌, arith, List,
  [], ◌∷◌, ◌∈◌, Bool-cases, zero_or_pos, ==→≡, Option-cases, if◌then◌else◌,
}
use go_game.Model.{Coord, Player, to_stone, Board}
use go_game.Model.Grid.{Inside, IsValid, at, get_lem, same_coord→≡}
use go_game.Rules.{Marks, no_marks, mark, directions, neighbour, group_analysis}
use go_game.Rules.Region.{
  Adjacent, friend_iff, Reach, here, IsLiberty, IsDirection, neighbour-Adjacent, Adjacent-neighbour,
  Reach-trans, Reach-sym, IsLiberty-Reach,
}
use go_game.Rules.Group.{Analysis, group_analysis-Analysis, no-IsLiberty, some-IsLiberty}
use go_game.Legal.{is_skipped, mark_all, capture_from}

-- The group of `q` has no liberty but the point of the move.
abbrev pub Doomed : Board → Player → Coord → Coord → Type 0
Doomed b enemy move q = (r : Coord) → ¬ IsLiberty b enemy none (some move) q r

-- `root` is an enemy stone next to the move whose group has no other liberty.
pub record IsCapturing (b : Board) (enemy : Player) (move root : Coord) : Type 0 where
  pub near : Adjacent move root
  pub inside : Inside b.size root
  pub stone : at b root ≡ to_stone enemy
  pub doomed : Doomed b enemy move root

pub record IsCaptured (b : Board) (enemy : Player) (move q : Coord) : Type 0 where
  pub root : Coord
  pub capturing : IsCapturing b enemy move root
  pub reached : Reach b enemy none root q

pub mark_all_iff :
    (cs : List Coord) (m : Marks) (q : Coord) → (mark_all cs m q ≡ true) ↔ ((q ∈ cs) ⊎ (m q ≡ true))
mark_all_iff [] m q = (λ h. inr h, λ h. ground arith)
mark_all_iff (c ∷ cs) m q = (
  λ h. elim ((mark_all_iff cs (mark m c) q).0 h) [
    | inl i ↦ inl (inr i)
    | inr i ↦ ground (arith, same_coord→≡ c q)
  ],
  λ h. (mark_all_iff cs (mark m c) q).1 (ground arith),
)

module _ (b : Board) (valid : IsValid b) (move : Coord) (inside : Inside b.size move)
    (enemy : Player) where
  -- Of a group seen through one of its stones.
  pub Doomed-Reach :
      (p q : Coord) → Reach b enemy none p q → Doomed b enemy move p → Doomed b enemy move q
  Doomed-Reach p q h d r l = d r (IsLiberty-Reach h l)

  pub analyse :
      (n : Coord)
      → Inside b.size n
      → at b n ≡ to_stone enemy
      → Analysis b enemy none (some move) n (group_analysis b n enemy none (some move))
  analyse n hn e =
      group_analysis-Analysis b valid enemy none (some move) n hn ((friend_iff b enemy n).1 e)

  -- A direction that is skipped leads to no enemy stone, or to one that is marked.
  pub skipped :
      (visited : Marks) (n : Coord)
      → is_skipped (at b n) enemy visited n ≡ true
      → at b n ≡ to_stone enemy
      → visited n ≡ true
  skipped visited n h e = ground arith

  pub entered :
      (visited : Marks) (n : Coord)
      → is_skipped (at b n) enemy visited n ≡ false
      → at b n ≡ to_stone enemy
  entered visited n h = ground arith

  module _ (n : Coord) (hn : Inside b.size n) (e : at b n ≡ to_stone enemy)
      {r : Option (ℕ × List Coord)} (a : Analysis b enemy none (some move) n r) where
    pub back : (q : Coord) → q ∈ a.group → Reach b enemy none q n
    back q m = Reach-sym hn ((friend_iff b enemy n).1 e) ((a.members q).0 m)

    pub Doomed-iff : (a.liberties ≡ 0) ↔ Doomed b enemy move n
    Doomed-iff = (
      no-IsLiberty a,
      λ d. elim (zero_or_pos a.liberties) [
        | inl z ↦ z
        | inr p ↦ let (q, l) = some-IsLiberty a p in absurd (d q l)
      ],
    )

    pub root : Doomed b enemy move n → Adjacent move n → IsCapturing b enemy move n
    root d near = record { near = near; inside = hn; stone = e; doomed = d }

  -- What the marks of `simulatePosition` mean between two directions.
  record IsMarked (visited captured : Marks) : Type 0 where
    sound : (q : Coord) → captured q ≡ true → IsCaptured b enemy move q
    closed : (p q : Coord) → captured p ≡ true → Reach b enemy none p q → captured q ≡ true
    passed : (q : Coord) → visited q ≡ true → Doomed b enemy move q → captured q ≡ true

  record Captures (ds : List (ℕ × ℕ)) (captured : Marks) (r : Option Marks) : Type 0 where
    out : Marks
    returns : r ≡ some out
    sound : (q : Coord) → out q ≡ true → IsCaptured b enemy move q
    closed : (p q : Coord) → out p ≡ true → Reach b enemy none p q → out q ≡ true
    kept : (q : Coord) → captured q ≡ true → out q ≡ true
    handled :
        (d : ℕ × ℕ) (n : Coord)
        → d ∈ ds
        → neighbour b.size move d ≡ some n
        → at b n ≡ to_stone enemy
        → Doomed b enemy move n
        → out n ≡ true

  -- The marks after the group of `n` was analysed.
  module _ (visited captured : Marks) (i : IsMarked visited captured) (n : Coord)
      (hn : Inside b.size n) (near : Adjacent move n) (e : at b n ≡ to_stone enemy)
      {r : Option (ℕ × List Coord)} (a : Analysis b enemy none (some move) n r) where
    abbrev captured' : Marks
    captured' = if a.liberties == 0 then mark_all a.group captured else captured

    captured'-cases :
        (q : Coord) → captured' q ≡ true → (captured q ≡ true) ⊎ ((a.liberties ≡ 0) × (q ∈ a.group))
    captured'-cases q h = elim (Bool-cases (a.liberties == 0)) [
      | inl z ↦ elim ((mark_all_iff a.group captured q).0 (ground arith)) [
        | inl m ↦ inr (==→≡ _ _ z, m)
        | inr m ↦ inl m
      ]
      | inr p ↦ inl (ground arith)
    ]

    captured'-old : (q : Coord) → captured q ≡ true → captured' q ≡ true
    captured'-old q h = ground (arith, (mark_all_iff a.group captured q).1 (inr h))

    captured'-new : (q : Coord) → a.liberties ≡ 0 → q ∈ a.group → captured' q ≡ true
    captured'-new q z m = ground (arith, (mark_all_iff a.group captured q).1 (inl m))

    IsMarked-group : IsMarked (mark_all a.group visited) captured'
    IsMarked-group = record {
      sound = λ q h. elim (captured'-cases q h) [
        | inl old ↦ i.sound q old
        | inr (z, m) ↦ record {
          root = n;
          capturing = root n hn e a ((Doomed-iff n hn e a).0 z) near;
          reached = (a.members q).0 m;
        }
      ];
      closed = λ p q h k. elim (captured'-cases p h) [
        | inl old ↦ captured'-old q (i.closed p q old k)
        | inr (z, m) ↦ captured'-new q z ((a.members q).1 (Reach-trans ((a.members p).0 m) k))
      ];
      passed = λ q h d. elim ((mark_all_iff a.group visited q).0 h) [
        | inl m ↦
            captured'-new q ((Doomed-iff n hn e a).1 (Doomed-Reach q n (back n hn e a q m) d)) m
        | inr old ↦ captured'-old q (i.passed q old d)
      ];
    }

  module _ (d : ℕ × ℕ) (ds : List (ℕ × ℕ)) (visited captured : Marks) where
    capture_from-off :
        neighbour b.size move d ≡ none
        → capture_from b move enemy (d ∷ ds) visited captured
          ≡ capture_from b move enemy ds visited captured
    unfolding capture_from
    capture_from-off off = ground arith

    module _ (n : Coord) (on : neighbour b.size move d ≡ some n) (hn : Inside b.size n) where
      capture_from-skip :
          is_skipped (at b n) enemy visited n ≡ true
          → capture_from b move enemy (d ∷ ds) visited captured
            ≡ capture_from b move enemy ds visited captured
      unfolding capture_from
      capture_from-skip skip = rw (on, capture_from, get_lem b valid n hn, ◌>>=◌, skip)

      capture_from-enter :
          (liberties : ℕ) (group : List Coord)
          → is_skipped (at b n) enemy visited n ≡ false
          → group_analysis b n enemy none (some move) ≡ some (liberties, group)
          → capture_from b move enemy (d ∷ ds) visited captured
            ≡ capture_from b move enemy ds
                (mark_all group visited)
                (if liberties == 0 then mark_all group captured else captured)
      unfolding capture_from
      capture_from-enter liberties group enter run =
          rw (on, capture_from, get_lem b valid n hn, ◌>>=◌, enter, run)

    -- From the other directions to all of them.
    Captures-cons :
        (captured' : Marks) {r s : Option Marks}
        → Captures ds captured' r
        → ((q : Coord) → captured q ≡ true → captured' q ≡ true)
        → ((n : Coord)
            → neighbour b.size move d ≡ some n
            → at b n ≡ to_stone enemy
            → Doomed b enemy move n
            → captured' n ≡ true)
        → s ≡ r
        → Captures (d ∷ ds) captured s
    Captures-cons captured' rest old new e = record {
      out = rest.out;
      returns = e ∙ rest.returns;
      sound = rest.sound;
      closed = rest.closed;
      kept = λ q h. rest.kept q (old q h);
      handled = λ f n m found stone dm. elim m [
        | inl is ↦ rest.kept n (new n (cc) stone dm)
        | inr m' ↦ rest.handled f n m' found stone dm
      ];
    }

  capture_from-Captures :
      (ds : List (ℕ × ℕ)) (visited captured : Marks)
      → ((d : ℕ × ℕ) → d ∈ ds → IsDirection d)
      → IsMarked visited captured
      → Captures ds captured (capture_from b move enemy ds visited captured)
  capture_from-Captures [] visited captured are i = record {
    out = captured;
    returns = unfold capture_from in refl;
    sound = i.sound;
    closed = i.closed;
    kept = λ q h. h;
    handled = λ d n m. absurd m;
  }
  capture_from-Captures (d ∷ ds) visited captured are i =
      let are' = λ (f : ℕ × ℕ) (m : f ∈ ds). are f (inr m) in
      elim (Option-cases (neighbour b.size move d)) [
        | inl off ↦
            Captures-cons d ds visited captured captured
              (capture_from-Captures ds visited captured are' i) (λ q h. h) (λ n on. cc)
              (capture_from-off d ds visited captured off)
        | inr (n, on) ↦
            let (near, hn) = neighbour-Adjacent b.size move n d inside (are d (inl refl)) on in
            elim (Bool-cases (is_skipped (at b n) enemy visited n)) [
              | inl skip ↦
                  Captures-cons d ds visited captured captured
                    (capture_from-Captures ds visited captured are' i) (λ q h. h)
                    (λ n' on' e dm.
                      let same : n' ≡ n = cc in
                      let vis : visited n' ≡ true =
                        rw same (skipped visited n skip (rw same at e)) in
                      i.passed n' vis dm)
                    (capture_from-skip d ds visited captured n on hn skip)
              | inr enter ↦
                  let e = entered visited n enter in
                  let a = analyse n hn e in
                  let next = captured' visited captured i n hn near e a in
                  Captures-cons d ds visited captured next
                    (capture_from-Captures ds (mark_all a.group visited) next are'
                      (IsMarked-group visited captured i n hn near e a))
                    (captured'-old visited captured i n hn near e a)
                    (λ n' on' e' dm.
                      let same : n ≡ n' = cc in
                      rw (← same) (
                        captured'-new visited captured i n hn near e a n
                          ((Doomed-iff n hn e a).1 (rw (same) dm)) ((a.members n).1 here)))
                    (capture_from-enter d ds visited captured n on hn a.liberties a.group enter
                      a.returns)
            ]
      ]

  no_marks-IsMarked : IsMarked no_marks no_marks
  no_marks-IsMarked = record {
    sound = λ q h. absurd (ground arith);
    closed = λ p q h k. absurd (ground arith);
    passed = λ q h d. absurd (ground arith);
  }

  are_directions : (d : ℕ × ℕ) → d ∈ directions → IsDirection d
  are_directions d m = ground arith

  -- Every enemy stone next to the move was looked at.
  all_handled :
      (captured : Marks)
      → ((d : ℕ × ℕ) (n : Coord)
          → d ∈ directions
          → neighbour b.size move d ≡ some n
          → at b n ≡ to_stone enemy
          → Doomed b enemy move n
          → captured n ≡ true)
      → (n : Coord) → IsCapturing b enemy move n
      → captured n ≡ true
  all_handled captured h n c = elim (Adjacent-neighbour b.size move n c.near c.inside) [
    | inl e ↦ h (2, 1) n (inl refl) e c.stone c.doomed
    | inr (inl e) ↦ h (0, 1) n (inr (inl refl)) e c.stone c.doomed
    | inr (inr (inl e)) ↦ h (1, 2) n (inr (inr (inl refl))) e c.stone c.doomed
    | inr (inr (inr e)) ↦ h (1, 0) n (inr (inr (inr (inl refl)))) e c.stone c.doomed
  ]

  -- On a valid board and for a point of it, the loop over the directions returns, and marks exactly
  -- the captured stones: those connected to an enemy stone next to the move whose group has no liberty
  -- but the point of the move.
  pub capture_from_lem :
      (captured : Marks) × (capture_from b move enemy directions no_marks no_marks ≡ some captured)
      × ((q : Coord) → (captured q ≡ true) ↔ IsCaptured b enemy move q)
  capture_from_lem =
      let run =
        capture_from-Captures directions no_marks no_marks are_directions no_marks-IsMarked in
      (
        run.out,
        run.returns,
        λ q. (
          run.sound q,
          λ (c : IsCaptured b enemy move q).
              run.closed c.root q (all_handled run.out run.handled c.root c.capturing) c.reached,
        ),
      )
