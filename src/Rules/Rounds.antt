-- ===== src/Rules/Rounds.antt =====
-- The rounds of the loop of `groupAnalysis` in src/game/core/moveChecker.cpp: no point of the group
-- is forgotten, and the fuel is enough.
use go_game.Prelude.{
  ℕ, zero, suc, ◌+◌, ◌-◌, ◌*◌, ◌≤◌, ◌<◌, ◌≡◌, refl, sym, ◌∙◌, ◌⊎◌, inl, inr, true, false, Option,
  some, arith, List, [], ◌∷◌, length, ◌∈◌, Bool-cases, List-cases, ap,
}
use go_game.Model.{Coord, Player, Board}
use go_game.Model.Grid.{Inside, IsValid}
use go_game.Rules.{directions, Marks, mark, Search, visit_directions, search_loop}
use go_game.Rules.Count.{count, count-mark, count-le}
use go_game.Rules.Region.{Adjacent, IsDirection, Adjacent-neighbour}
use go_game.Rules.Loop
use go_game.Rules.Loop.{mark_self, mark_mono, mark-cases}

module _ (b : Board) (valid : IsValid b) (player : Player) (pretend blocked : Option Coord)
    (start : Coord) where
  abbrev Sound : Search → Type 0
  Sound = Loop.Sound b valid player pretend blocked start

  abbrev Handled : Search → Coord → Type 0
  Handled = Loop.Handled b valid player pretend blocked start

  -- Every point next to a visited one is seen to.
  unfoldable pub Closed : Search → Type 0
  Closed s = (p q : Coord) → s.visited p ≡ true → Adjacent p q → Inside b.size q → Handled s q

  abbrev pub IsSeen : Search → Coord → Type 0
  IsSeen s q = (s.visited q ≡ true) ⊎ (q ∈ s.stack)

  pub record Ends (r : Option Search) : Type 0 where
    pub out : Search
    pub returns : r ≡ some out
    pub sound : Sound out
    pub closed : Closed out
    pub begun : IsSeen out start
    pub emptied : out.stack ≡ []

  are_directions : (d : ℕ × ℕ) → d ∈ directions → IsDirection d
  are_directions d m = ground arith

  -- The `continue` branch: a point that was visited is taken off the stack.
  skip-Sound :
      (s : Search) (c : Coord) (rest : List Coord)
      → s.stack ≡ c ∷ rest
      → Sound s
      → Sound (record s { stack = rest })
  skip-Sound s c rest e i = record {
    waiting = λ q m. i.waiting q (rw e (inr m));
    grouped = i.grouped;
    held = λ q m. i.held q (rw e (inr m));
    kept = i.kept;
    freed = i.freed;
    counted = i.counted;
  }

  visit-Sound :
      (s : Search) (c : Coord) (rest : List Coord)
      → s.stack ≡ c ∷ rest
      → Sound s
      → Sound (record s { stack = rest; visited = mark s.visited c })
  visit-Sound s c rest e i = record {
    waiting = λ q m. i.waiting q (rw e (inr m));
    grouped = i.grouped;
    held = λ q m. i.held q (rw e (inr m));
    kept = λ q m. elim (mark-cases s.visited c q m) [
      | inl same ↦ i.held q (rw e (inl (sym same)))
      | inr old ↦ i.kept q old
    ];
    freed = i.freed;
    counted = i.counted;
  }

  module _ (s : Search) (c : Coord) (rest : List Coord) (e : s.stack ≡ c ∷ rest) where
    unstack : (q : Coord) → q ∈ s.stack → (c ≡ q) ⊎ (q ∈ rest)
    unstack q m =
        let m' : q ∈ c ∷ rest = rw e at m in elim m' [ inl same ↦ inl (sym same) | inr on ↦ inr on ]

    module _ (old : s.visited c ≡ true) where
      skip-IsSeen : (q : Coord) → IsSeen s q → IsSeen (record s { stack = rest }) q
      skip-IsSeen q (inl v) = inl v
      skip-IsSeen q (inr m) = elim (unstack q m) [
        | inl same ↦ inl (rw (← same) old)
        | inr on ↦ inr on
      ]

      skip-Closed : Closed s → Closed (record s { stack = rest })
      unfolding Closed
      skip-Closed cl p q vp near inside =
          let h = cl p q vp near inside in
          record { friendly = λ fr. skip-IsSeen q (h.friendly fr); liberal = h.liberal }

    module _ (t : Search) (same : t.visited ≡ mark s.visited c)
        (stacked : (q : Coord) → q ∈ rest → q ∈ t.stack) where
      visit-IsSeen : (q : Coord) → IsSeen s q → IsSeen t q
      visit-IsSeen q (inl v) = inl (ap (λ (m : Marks). m q) same ∙ mark_mono s.visited c q v)
      visit-IsSeen q (inr m) = elim (unstack q m) [
        | inl is ↦ inl (ap (λ (m : Marks). m q) same ∙ rw (← is) (mark_self s.visited c))
        | inr on ↦ inr (stacked q on)
      ]

      visit-Closed :
          ((q : Coord) → s.liberty_visited q ≡ true → t.liberty_visited q ≡ true)
          → ((q : Coord) → Adjacent c q → Inside b.size q → Handled t q)
          → Closed s
          → Closed t
      unfolding Closed
      visit-Closed freed here cl p q vp near inside =
          elim (mark-cases s.visited c p (sym (ap (λ (m : Marks). m p) same) ∙ vp)) [
            | inl is ↦ here q (rw is near) inside
            | inr old ↦
                let h = cl p q old near inside in
                record {
                  friendly = λ fr. visit-IsSeen q (h.friendly fr);
                  liberal = λ fr free open'. freed q (h.liberal fr free open');
                }
          ]

  module _ (fuel : ℕ) (s : Search) where
    search_loop-done : s.stack ≡ [] → search_loop b player pretend blocked (suc fuel) s ≡ some s
    unfolding search_loop
    search_loop-done e = ground arith

    module _ (c : Coord) (rest : List Coord) (e : s.stack ≡ c ∷ rest) where
      search_loop-skip :
          s.visited c ≡ true
          → search_loop b player pretend blocked (suc fuel) s
            ≡ search_loop b player pretend blocked fuel (record s { stack = rest })
      unfolding search_loop
      search_loop-skip old = ground arith

      search_loop-visit :
          (t : Search)
          → s.visited c ≡ false
          → visit_directions b player pretend blocked c directions
              (record s { stack = rest; visited = mark s.visited c })
            ≡ some t
          → search_loop b player pretend blocked (suc fuel) s
            ≡ search_loop b player pretend blocked fuel t
      unfolding search_loop
      search_loop-visit t new run = ground arith

  fewer :
      {fuel : ℕ} (s : Search) (c : Coord) (rest : List Coord)
      → s.stack ≡ c ∷ rest
      → s.visited c ≡ false
      → Inside b.size c
      → (t : Search) → t.visited ≡ mark s.visited c
      → length t.stack ≤ length rest + 4
      → 4 * (b.size * b.size - count s.visited b.size) + length s.stack < suc fuel
      → 4 * (b.size * b.size - count t.visited b.size) + length t.stack < fuel
  fewer s c rest e new inside t same grown enough = omega (
    arith,
    ap (λ (m : Marks). count m b.size) same,
    count-mark s.visited c b.size inside new,
    count-le t.visited b.size,
    ap length e,
  )

  found_direction :
      (p q : Coord) (t : Search)
      → Loop.Handles b valid player pretend blocked start p directions t
      → Adjacent p q
      → Inside b.size q
      → Handled t q
  unfolding Loop.Handles
  found_direction p q t h near inside = elim (Adjacent-neighbour b.size p q near inside) [
    | inl e ↦ h (2, 1) (inl refl) q e
    | inr (inl e) ↦ h (0, 1) (inr (inl refl)) q e
    | inr (inr (inl e)) ↦ h (1, 2) (inr (inr (inl refl))) q e
    | inr (inr (inr e)) ↦ h (1, 0) (inr (inr (inr (inl refl)))) q e
  ]

  -- With more fuel than four rounds for each cell that is not visited and one for each entry of
  -- the stack, the loop ends.
  pub search_loop-Ends :
      (fuel : ℕ) (s : Search)
      → Sound s
      → Closed s
      → IsSeen s start
      → 4 * (b.size * b.size - count s.visited b.size) + length s.stack < fuel
      → Ends (search_loop b player pretend blocked fuel s)
  search_loop-Ends zero s i cl seen enough = elim enough [ ]
  search_loop-Ends (suc fuel) s i cl seen enough = elim (List-cases s.stack) [
    | inl e ↦ record {
      out = s;
      returns = search_loop-done fuel s e;
      sound = i;
      closed = cl;
      begun = seen;
      emptied = e;
    }
    | inr (c, rest, e) ↦ elim (Bool-cases (s.visited c)) [
      | inl old ↦ rw (search_loop-skip fuel s c rest e old) (
          search_loop-Ends fuel (record s { stack = rest }) (skip-Sound s c rest e i)
            (skip-Closed s c rest e old cl) (skip-IsSeen s c rest e old start seen)
            (omega (arith, ap length e)))
      | inr new ↦
          let at_c = i.waiting c (rw e (inl refl)) in
          let go =
            Loop.visit_directions-Advances b valid player pretend blocked start c directions
              are_directions at_c.0 at_c.1 (record s { stack = rest; visited = mark s.visited c })
              (visit-Sound s c rest e i) in
          rw (search_loop-visit fuel s c rest e go.out new go.returns) (
            search_loop-Ends fuel go.out go.sound
              (visit-Closed s c rest e go.out go.same go.stacked go.freed
                (λ q near inside. found_direction c q go.out go.handled near inside) cl)
              (visit-IsSeen s c rest e go.out go.same go.stacked start seen)
              (fewer s c rest e new at_c.0 go.out go.same go.grown enough))
    ]
  ]
