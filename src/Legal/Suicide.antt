-- ===== src/Legal/Suicide.antt =====
-- `computeGroupLiberties`, `wouldCapture`, `isSuicide` and `isValidMove` of
-- src/game/core/moveChecker.cpp: the answers are those of the rules.
use go_game.Prelude.{
  ℕ, ◌≡◌, ◌≢◌, refl, ◌∙◌, ◌↔◌, inl, inr, Bool, true, false, ◌==◌, Option, none, some, ◌>>=◌, arith,
  List, [], ◌∷◌, ◌∈◌, Bool-cases, Option-cases, ==→≡, ==→≢, if◌then◌else◌,
}
use go_game.Model.{Coord, Player, to_stone, Board}
use go_game.Model.Grid.{Inside, IsValid, at, get_lem}
use go_game.Rules.{Marks, no_marks, directions, neighbour, group_analysis}
use go_game.Rules.Region.{IsDirection, neighbour-Adjacent, Adjacent-neighbour}
use go_game.Rules.Group.{Analysis}
use go_game.Legal.{is_skipped, mark_all, would_capture_from}
use go_game.Legal.Capture.{
  Doomed, IsCapturing, mark_all_iff, Doomed-Reach, analyse, skipped, entered, back, Doomed-iff,
  root,
}

module _ (b : Board) (valid : IsValid b) (move : Coord) (inside : Inside b.size move)
    (enemy : Player) where
  record Answers (ds : List (ℕ × ℕ)) (r : Option Bool) : Type 0 where
    out : Bool
    returns : r ≡ some out
    found : out ≡ true → (n : Coord) × IsCapturing b enemy move n
    all_alive :
        out ≡ false
        → (d : ℕ × ℕ) (n : Coord) → d ∈ ds
        → neighbour b.size move d ≡ some n
        → at b n ≡ to_stone enemy
        → ¬ Doomed b enemy move n

  -- The marked groups have a liberty.
  abbrev AllAlive : Marks → Type 0
  AllAlive visited = (q : Coord) → visited q ≡ true → ¬ Doomed b enemy move q

  module _ (d : ℕ × ℕ) (ds : List (ℕ × ℕ)) (visited : Marks) where
    would_capture_from-off :
        neighbour b.size move d ≡ none
        → would_capture_from b move enemy (d ∷ ds) visited
          ≡ would_capture_from b move enemy ds visited
    unfolding would_capture_from
    would_capture_from-off off = ground arith

    module _ (n : Coord) (on : neighbour b.size move d ≡ some n) (hn : Inside b.size n) where
      would_capture_from-skip :
          is_skipped (at b n) enemy visited n ≡ true
          → would_capture_from b move enemy (d ∷ ds) visited
            ≡ would_capture_from b move enemy ds visited
      unfolding would_capture_from
      would_capture_from-skip skip = rw (on, would_capture_from, get_lem b valid n hn, ◌>>=◌, skip)

      would_capture_from-enter :
          (liberties : ℕ) (group : List Coord)
          → is_skipped (at b n) enemy visited n ≡ false
          → group_analysis b n enemy none (some move) ≡ some (liberties, group)
          → would_capture_from b move enemy (d ∷ ds) visited ≡ (
              if liberties == 0
              then some true
              else would_capture_from b move enemy ds (mark_all group visited))
      unfolding would_capture_from
      would_capture_from-enter liberties group enter run =
          rw (on, would_capture_from, get_lem b valid n hn, ◌>>=◌, enter, run)

    Answers-cons :
        {r s : Option Bool}
        → Answers ds r
        → ((n : Coord)
            → neighbour b.size move d ≡ some n
            → at b n ≡ to_stone enemy
            → ¬ Doomed b enemy move n)
        → s ≡ r
        → Answers (d ∷ ds) s
    Answers-cons rest new e = record {
      out = rest.out;
      returns = e ∙ rest.returns;
      found = rest.found;
      all_alive = λ no_one f n m on stone. elim m [
        | inl is ↦ new n (cc) stone
        | inr m' ↦ rest.all_alive no_one f n m' on stone
      ];
    }

  module _ (visited : Marks) (alive : AllAlive visited) (n : Coord) (hn : Inside b.size n)
      (e : at b n ≡ to_stone enemy) {r : Option (ℕ × List Coord)}
      (a : Analysis b enemy none (some move) n r) (some_left : a.liberties ≢ 0) where
    group-AllAlive : AllAlive (mark_all a.group visited)
    group-AllAlive q h d = elim ((mark_all_iff a.group visited q).0 h) [
      | inl m ↦ some_left (
          (Doomed-iff b valid move inside enemy n hn e a).1 (
            Doomed-Reach b valid move inside enemy q n (back b valid move inside enemy n hn e a q m)
              d))
      | inr old ↦ alive q old d
    ]

  would_capture_from-Answers :
      (ds : List (ℕ × ℕ)) (visited : Marks)
      → ((d : ℕ × ℕ) → d ∈ ds → IsDirection d)
      → AllAlive visited
      → Answers ds (would_capture_from b move enemy ds visited)
  would_capture_from-Answers [] visited are alive = record {
    out = false;
    returns = unfold would_capture_from in refl;
    found = λ h. absurd (ground arith);
    all_alive = λ h d n m. absurd m;
  }
  would_capture_from-Answers (d ∷ ds) visited are alive =
      let are' = λ (f : ℕ × ℕ) (m : f ∈ ds). are f (inr m) in
      elim (Option-cases (neighbour b.size move d)) [
        | inl off ↦
            Answers-cons d ds visited (would_capture_from-Answers ds visited are' alive)
              (λ n on. cc) (would_capture_from-off d ds visited off)
        | inr (n, on) ↦
            let (near, hn) = neighbour-Adjacent b.size move n d inside (are d (inl refl)) on in
            elim (Bool-cases (is_skipped (at b n) enemy visited n)) [
              | inl skip ↦
                  Answers-cons d ds visited (would_capture_from-Answers ds visited are' alive)
                    (λ n' on' e.
                      let same : n' ≡ n = cc in
                      let vis : visited n' ≡ true =
                        rw same (skipped b valid move inside enemy visited n skip (rw same at e)) in
                      alive n' vis)
                    (would_capture_from-skip d ds visited n on hn skip)
              | inr enter ↦
                  let e = entered b valid move inside enemy visited n enter in
                  let a = analyse b valid move inside enemy n hn e in
                  let run =
                    would_capture_from-enter d ds visited n on hn a.liberties a.group enter
                      a.returns in
                  elim (Bool-cases (a.liberties == 0)) [
                    | inl z ↦ record {
                      out = true;
                      returns = run ∙ rw z;
                      found = λ _. (
                        n,
                        root b valid move inside enemy n hn e a
                            ((Doomed-iff b valid move inside enemy n hn e a).0 (==→≡ _ _ z)) near,
                      );
                      all_alive = λ h. absurd (ground arith);
                    }
                    | inr p ↦
                        let left : a.liberties ≢ 0 = ==→≢ _ _ p in
                        Answers-cons d ds visited
                          (would_capture_from-Answers ds (mark_all a.group visited) are'
                            (group-AllAlive visited alive n hn e a left))
                          (λ n' on' e' dm.
                            let same : n ≡ n' = cc in
                            left ((Doomed-iff b valid move inside enemy n hn e a).1 (rw same dm)))
                          (run ∙ rw p)
                  ]
            ]
      ]

  no_marks-AllAlive : AllAlive no_marks
  no_marks-AllAlive q h = absurd (ground arith)

  are_directions : (d : ℕ × ℕ) → d ∈ directions → IsDirection d
  are_directions d m = ground arith

  none_capturing :
      ((d : ℕ × ℕ) (n : Coord)
        → d ∈ directions
        → neighbour b.size move d ≡ some n
        → at b n ≡ to_stone enemy
        → ¬ Doomed b enemy move n)
      → (n : Coord) → ¬ IsCapturing b enemy move n
  none_capturing h n c = elim (Adjacent-neighbour b.size move n c.near c.inside) [
    | inl e ↦ h (2, 1) n (inl refl) e c.stone c.doomed
    | inr (inl e) ↦ h (0, 1) n (inr (inl refl)) e c.stone c.doomed
    | inr (inr (inl e)) ↦ h (1, 2) n (inr (inr (inl refl))) e c.stone c.doomed
    | inr (inr (inr e)) ↦ h (1, 0) n (inr (inr (inr (inl refl)))) e c.stone c.doomed
  ]

  -- On a valid board and for a point of it, the loop over the directions answers, and the answer is
  -- true exactly when an enemy group next to the move has no liberty but the point of the move.
  pub would_capture_from_lem :
      (r : Bool) × (would_capture_from b move enemy directions no_marks ≡ some r)
      × ((r ≡ true) ↔ ((n : Coord) × IsCapturing b enemy move n))
  would_capture_from_lem =
      let run = would_capture_from-Answers directions no_marks are_directions no_marks-AllAlive in
      (
        run.out,
        run.returns,
        (
          run.found,
          λ (n, c). elim (Bool-cases run.out) [
            | inl h ↦ h
            | inr h ↦ absurd (none_capturing (run.all_alive h) n c)
          ],
        ),
      )
