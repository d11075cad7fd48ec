-- ===== src/Rules/Loop.antt =====
-- The loop of `groupAnalysis` in src/game/core/moveChecker.cpp: its invariant, and that its fuel
-- is enough.
use go_game.Prelude.{
  ℕ, ◌+◌, ◌≤◌, ◌≡◌, refl, ◌∙◌, ◌⊎◌, inl, inr, Bool, true, false, ◌&&◌, not, Option, some, arith,
  List, [], ◌∷◌, length, ◌∈◌, Bool-cases, Option-cases, ap,
}
use go_game.Model.{Coord, Player, empty, same_stone, Board}
use go_game.Model.Grid.{Inside, IsValid, at, get_lem}
use go_game.Rules.{
  neighbour, is_at, Marks, mark, Search, is_player_stone, push_stone, count_liberty,
  visit_neighbour, visit_directions,
}
use go_game.Rules.Count.{count, count-mark}
use go_game.Rules.Region.{Adjacent, friend, Reach, step, IsLiberty, IsDirection, neighbour-Adjacent}

pub mark_self : (m : Marks) (c : Coord) → mark m c c ≡ true
mark_self m c = ground arith

pub mark_mono : (m : Marks) (c d : Coord) → m d ≡ true → mark m c d ≡ true
mark_mono m c d h = ground arith

pub mark-cases : (m : Marks) (c d : Coord) → mark m c d ≡ true → (c ≡ d) ⊎ (m d ≡ true)
mark-cases m c d h = ground arith

module _ (b : Board) (valid : IsValid b) (player : Player) (pretend blocked : Option Coord) where
  pub is_player_stone_lem :
      (c : Coord)
      → Inside b.size c
      → is_player_stone b player pretend blocked c ≡ some (friend b player pretend c)
  unfolding is_player_stone friend
  is_player_stone_lem c inside = ground (arith, get_lem b valid c inside)

  abbrev is_new_liberty : Search → Coord → Bool
  is_new_liberty s q =
      same_stone (at b q) empty && not (is_at blocked q) && not (s.liberty_visited q)

  new_liberty :
      (s : Search) (q : Coord)
      → is_new_liberty s q ≡ true
      → (at b q ≡ empty) × (is_at blocked q ≡ false) × (s.liberty_visited q ≡ false)
  new_liberty s q e = ground arith

  liberty_seen :
      (s : Search) (q : Coord)
      → is_new_liberty s q ≡ false
      → at b q ≡ empty
      → is_at blocked q ≡ false
      → s.liberty_visited q ≡ true
  liberty_seen s q e free open' = ground arith

  module _ (start : Coord) where
    -- What the search has collected belongs to the group and its liberties.
    pub record Sound (s : Search) : Type 0 where
      pub waiting : (q : Coord) → q ∈ s.stack → Inside b.size q × Reach b player pretend start q
      pub grouped : (q : Coord) → q ∈ s.group → Inside b.size q × Reach b player pretend start q
      pub held : (q : Coord) → q ∈ s.stack → q ∈ s.group
      pub kept : (q : Coord) → s.visited q ≡ true → q ∈ s.group
      pub freed :
          (q : Coord) → s.liberty_visited q ≡ true → IsLiberty b player pretend blocked start q
      pub counted : s.liberties ≡ count s.liberty_visited b.size

    -- The search has seen to the point `q`.
    pub record Handled (s : Search) (q : Coord) : Type 0 where
      pub friendly : friend b player pretend q ≡ true → (s.visited q ≡ true) ⊎ (q ∈ s.stack)
      pub liberal :
          friend b player pretend q ≡ false
          → at b q ≡ empty
          → is_at blocked q ≡ false
          → s.liberty_visited q ≡ true

    -- `r` is a search that continues `s`, with at most `n` more points to visit.
    pub record Advances (s : Search) (n : ℕ) (H : Search → Type 0) (r : Option Search)
        : Type 0 where
      pub out : Search
      pub returns : r ≡ some out
      pub sound : Sound out
      pub same : out.visited ≡ s.visited
      pub stacked : (q : Coord) → q ∈ s.stack → q ∈ out.stack
      pub freed : (q : Coord) → s.liberty_visited q ≡ true → out.liberty_visited q ≡ true
      pub grown : length out.stack ≤ length s.stack + n
      pub handled : H out

    pub Handled-mono :
        (s t : Search) (q : Coord)
        → t.visited ≡ s.visited
        → (q ∈ s.stack → q ∈ t.stack)
        → (s.liberty_visited q ≡ true → t.liberty_visited q ≡ true)
        → Handled s q
        → Handled t q
    Handled-mono s t q e f g h = record {
      friendly = λ fr. elim (h.friendly fr) [
        | inl old ↦ inl (ap (λ (m : Marks). m q) e ∙ old)
        | inr on ↦ inr (f on)
      ];
      liberal = λ a b' c. g (h.liberal a b' c);
    }

    module _ (p q : Coord) (reached : Reach b player pretend start p) (near : Adjacent p q)
        (inside : Inside b.size q) (s : Search) (sound : Sound s) where
      push-Advances :
          friend b player pretend q ≡ true
          → Advances s 1 (λ t. Handled t q) (some (push_stone b player pretend blocked q s))
      push-Advances fr = elim (Bool-cases (s.visited q)) [
        | inl old ↦ record {
          out = s;
          returns = rw old;
          sound = sound;
          same = refl;
          stacked = λ r m. m;
          freed = λ r m. m;
          grown = omega arith;
          handled = record { friendly = λ _. inl old; liberal = λ not_fr. ground arith };
        }
        | inr new ↦ record {
          out = record s { stack = q ∷ s.stack; group = q ∷ s.group };
          returns = rw new;
          sound = record {
            waiting = λ r. elim [
              | inl e ↦ rw e (inside, step reached near inside fr)
              | inr m ↦ sound.waiting r m
            ];
            grouped = λ r. elim [
              | inl e ↦ rw e (inside, step reached near inside fr)
              | inr m ↦ sound.grouped r m
            ];
            held = λ r. elim [ inl e ↦ inl e | inr m ↦ inr (sound.held r m) ];
            kept = λ r m. inr (sound.kept r m);
            freed = sound.freed;
            counted = sound.counted;
          };
          same = refl;
          stacked = λ r m. inr m;
          freed = λ r m. m;
          grown = omega arith;
          handled = record { friendly = λ _. inr (inl refl); liberal = λ not_fr. ground arith };
        }
      ]

      liberty-Advances :
          friend b player pretend q ≡ false
          → Advances s 1
              (λ t. Handled t q)
              (some (count_liberty b player pretend blocked q (at b q) s))
      liberty-Advances fr = elim (Bool-cases (is_new_liberty s q)) [
        | inr old ↦ record {
          out = s;
          returns = rw old;
          sound = sound;
          same = refl;
          stacked = λ r m. m;
          freed = λ r m. m;
          grown = omega arith;
          handled = record {
            friendly = λ fr'. ground arith;
            liberal = λ _ free open'. liberty_seen s q old free open';
          };
        }
        | inl new ↦
            let (free, open', fresh) = new_liberty s q new in
            record {
              out = record s {
                liberty_visited = mark s.liberty_visited q;
                liberties = s.liberties + 1;
              };
              returns = rw new;
              sound = record {
                waiting = sound.waiting;
                grouped = sound.grouped;
                held = sound.held;
                kept = sound.kept;
                freed = λ r m. elim (mark-cases s.liberty_visited q r m) [
                  | inl e ↦ rw (← e) (record {
                    inside = inside;
                    foreign = fr;
                    free = free;
                    unblocked = open';
                    stone = p;
                    reached = reached;
                    near = near;
                  })
                  | inr m' ↦ sound.freed r m'
                ];
                counted =
                    omega
                      (arith, sound.counted, count-mark s.liberty_visited q b.size inside fresh);
              };
              same = refl;
              stacked = λ r m. m;
              freed = λ r m. mark_mono s.liberty_visited q r m;
              grown = omega arith;
              handled = record {
                friendly = λ fr'. ground arith;
                liberal = λ _ _ _. mark_self s.liberty_visited q;
              };
            }
      ]

      visit_neighbour-Advances :
          Advances s 1 (λ t. Handled t q) (visit_neighbour b player pretend blocked q s)
      unfolding visit_neighbour
      visit_neighbour-Advances = elim (Bool-cases (friend b player pretend q)) [
        | inl fr ↦ rw (is_player_stone_lem q inside, fr) (push-Advances fr)
        | inr fr ↦
            rw (is_player_stone_lem q inside, fr, get_lem b valid q inside) (liberty-Advances fr)
      ]

    unfoldable pub Handles : Coord → List (ℕ × ℕ) → Search → Type 0
    Handles p ds s =
        (d : ℕ × ℕ) → d ∈ ds → (q : Coord) → neighbour b.size p d ≡ some q → Handled s q

    pub visit_directions-Advances :
        (p : Coord) (ds : List (ℕ × ℕ))
        → ((d : ℕ × ℕ) → d ∈ ds → IsDirection d)
        → Inside b.size p
        → Reach b player pretend start p
        → (s : Search) → Sound s
        → Advances s (length ds) (Handles p ds) (visit_directions b player pretend blocked p ds s)
    unfolding visit_directions Handles
    visit_directions-Advances p [] are inside reached s sound = record {
      out = s;
      returns = refl;
      sound = sound;
      same = refl;
      stacked = λ r m. m;
      freed = λ r m. m;
      grown = omega arith;
      handled = λ d m. absurd m;
    }
    visit_directions-Advances p (d ∷ ds) are inside reached s sound =
        elim (Option-cases (neighbour b.size p d)) [
          | inl off ↦
              let rest =
                visit_directions-Advances p ds (λ e m. are e (inr m)) inside reached s sound in
              record {
                out = rest.out;
                returns = rw (off, visit_directions) rest.returns;
                sound = rest.sound;
                same = rest.same;
                stacked = rest.stacked;
                freed = rest.freed;
                grown = omega (arith, rest.grown);
                handled = λ e. elim [ inl is ↦ (λ q found. cc) | inr m ↦ rest.handled e m ];
              }
          | inr (n, on) ↦
              let (near, n_inside) = neighbour-Adjacent b.size p n d inside (are d (inl refl)) on in
              let one = visit_neighbour-Advances p n reached near n_inside s sound in
              let rest =
                visit_directions-Advances p ds (λ e m. are e (inr m)) inside reached one.out
                  one.sound in
              record {
                out = rest.out;
                returns = rw (on, visit_directions, one.returns) rest.returns;
                sound = rest.sound;
                same = rest.same ∙ one.same;
                stacked = λ r m. rest.stacked r (one.stacked r m);
                freed = λ r m. rest.freed r (one.freed r m);
                grown = omega (arith, rest.grown, one.grown);
                handled = λ e. elim [
                  | inl is ↦ λ q found.
                      let n-eq : n ≡ q = cc in
                      Handled-mono one.out rest.out q rest.same (rest.stacked q) (rest.freed q)
                        (rw n-eq at one.handled)
                  | inr m ↦ rest.handled e m
                ];
              }
        ]
