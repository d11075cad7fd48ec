-- ===== src/Legal/Alive.antt =====
-- The legal moves of src/game/core/moveChecker.cpp keep every group on the board alive.
use go_game.Prelude.{
  ℕ, ◌≡◌, ◌≢◌, refl, sym, ◌∙◌, ◌⊎◌, inl, inr, true, false, Option, none, some, arith, List,
  Bool-cases, zero_or_pos,
}
use go_game.Model.{Coord, Player, opponent, empty, to_stone, same_coord, Board, new_board}
use go_game.Model.Grid.{
  Inside, IsValid, at, same_coord→≡, same_coord→≢, same_coord_refl, same_stone→≡, at-new_board,
}
use go_game.Position.{ZobristHash, GamePosition}
use go_game.Rules.Region.{
  Adjacent, Adjacent-sym, friend, friend_iff, friend-pretend, Reach, here, step, Reach-trans,
  Reach-sym, Reach-Inside, Reach-friend, IsLiberty, IsLiberty-Reach,
}
use go_game.Rules.Group.{no-IsLiberty, some-IsLiberty}
use go_game.Legal.{simulate_position}
use go_game.Legal.Capture.{IsCaptured, analyse}
use go_game.Legal.Simulate.{
  Simulated, IsCaptured-stone, to_stone-ne-empty, simulate_position-Simulated,
}
use go_game.Legal.Valid.{IsLegal, Lives, by_liberty, by_capture}

-- Every stone on the board belongs to a group with a liberty.
abbrev pub IsAlive : Board → Type 0
IsAlive b =
    (player : Player) (c : Coord)
    → Inside b.size c
    → at b c ≡ to_stone player
    → (q : Coord) × IsLiberty b player none none c q

pub new_board-IsAlive : (n : ℕ) → IsAlive (new_board n)
new_board-IsAlive n player c h e = absurd (to_stone-ne-empty player (sym e ∙ at-new_board n c))

module _ (start : GamePosition) (move : Coord) (player : Player) (hasher : ZobristHash)
    (valid : IsValid start.board) (legal : IsLegal start.board player move)
    {r : Option (GamePosition × List Coord)} (s : Simulated start move player hasher r)
    (alive : IsAlive start.board) where
  abbrev b : Board
  b = start.board

  abbrev b' : Board
  b' = s.next.board

  abbrev enemy : Player
  enemy = opponent player

  uncaptured : (q : Coord) → ¬ IsCaptured b enemy move q → s.captured q ≡ false
  uncaptured q no_way = elim (Bool-cases (s.captured q)) [
    | inl e ↦ absurd (no_way ((s.captured_iff q).0 e))
    | inr e ↦ e
  ]

  not_captured : (q : Coord) → at b q ≢ to_stone enemy → s.captured q ≡ false
  not_captured q ne = elim (Bool-cases (s.captured q)) [
    | inl e ↦ absurd (ne (IsCaptured-stone ((s.captured_iff q).0 e)).1)
    | inr e ↦ e
  ]

  at-move : at b' move ≡ to_stone player
  at-move = ground (arith, s.stones move legal.inside, same_coord_refl move)

  -- A stone of the player stays.
  own_stays : (q : Coord) → Inside b.size q → at b q ≡ to_stone player → at b' q ≡ to_stone player
  own_stays q h e = ground (arith, s.stones q h, not_captured q (λ e'. ground arith))

  -- A free point stays free, but for the point of the move.
  free_stays : (q : Coord) → Inside b.size q → at b q ≡ empty → move ≢ q → at b' q ≡ empty
  free_stays q h e ne = ground (
    arith,
    s.stones q h,
    not_captured q (λ e'. to_stone-ne-empty enemy (sym e' ∙ e)),
    same_coord→≡ move q,
  )

  captured_free : (q : Coord) → IsCaptured b enemy move q → at b' q ≡ empty
  captured_free q c =
      let (h, stone) = IsCaptured-stone c in
      let ne : move ≢ q = λ e. to_stone-ne-empty enemy (sym stone ∙ rw (← e) legal.free) in
      ground (arith, s.stones q h, (s.captured_iff q).1 c, same_coord→≡ move q)

  foreign_empty : (p : Player) (q : Coord) → at b' q ≡ empty → friend b' p none q ≡ false
  foreign_empty p q e = elim (Bool-cases (friend b' p none q)) [
    | inl f ↦ absurd (to_stone-ne-empty p (sym ((friend_iff b' p q).0 f) ∙ e))
    | inr f ↦ f
  ]

  -- A free point next to a group of the new board is its liberty.
  liberty' :
      (p : Player) (c q stone : Coord)
      → Reach b' p none c stone
      → Adjacent stone q
      → Inside b.size q
      → at b' q ≡ empty
      → IsLiberty b' p none none c q
  liberty' p c q stone reached near h e = record {
    inside = rw s.same_size h;
    foreign = foreign_empty p q e;
    free = e;
    unblocked = refl;
    stone = stone;
    reached = reached;
    near = near;
  }

  -- Groups of the player, with the new stone pretended or not, stay connected.
  friend_stays :
      (pretend : Option Coord) (q : Coord)
      → (pretend ≡ none) ⊎ (pretend ≡ some move)
      → Inside b.size q
      → friend b player pretend q ≡ true
      → friend b' player none q ≡ true
  friend_stays pretend q which h f = elim (Bool-cases (same_coord move q)) [
    | inl e ↦ (friend_iff b' player q).1 (rw (← same_coord→≡ move q e) at-move)
    | inr e ↦ (friend_iff b' player q).1 (own_stays q h (stone which f e))
  ]
    where
      stone :
          (pretend ≡ none) ⊎ (pretend ≡ some move)
          → friend b player pretend q ≡ true
          → same_coord move q ≡ false
          → at b q ≡ to_stone player
      stone (inl is) f' e = (friend_iff b player q).0 (rw is at f')
      stone (inr is) f' e = unfold friend in ground (arith, same_stone→≡ (at b q) (to_stone player))

  own_Reach :
      {pretend : Option Coord} {p q : Coord}
      → (pretend ≡ none) ⊎ (pretend ≡ some move)
      → Reach b player pretend p q
      → Reach b' player none p q
  own_Reach which here = here
  own_Reach which (step {q} h near inside f) =
      step (own_Reach which h) near (rw s.same_size inside) (friend_stays _ q which inside f)

  -- A group of the enemy that is not captured stays connected.
  enemy-Reach :
      {p q : Coord}
      → Inside b.size p
      → at b p ≡ to_stone enemy
      → ¬ IsCaptured b enemy move p
      → Reach b enemy none p q
      → Reach b' enemy none p q
  enemy-Reach hp ep free here = here
  enemy-Reach {p} hp ep free (step {q} h near inside f) =
      step (enemy-Reach hp ep free h) near (rw s.same_size inside) ((friend_iff b' enemy q).1 kept)
    where
      stone : at b q ≡ to_stone enemy
      stone = (friend_iff b enemy q).0 f

      left : ¬ IsCaptured b enemy move q
      left c = free (record {
        root = c.root;
        capturing = c.capturing;
        reached =
            Reach-trans c.reached
              (Reach-sym hp ((friend_iff b enemy p).1 ep) (step h near inside f));
      })

      elsewhere : move ≢ q
      elsewhere e = to_stone-ne-empty enemy (sym stone ∙ rw (← e) legal.free)

      kept : at b' q ≡ to_stone enemy
      kept =
          ground
            (arith, s.stones q inside, same_coord→≡ move q, elsewhere, uncaptured q left, stone)

  -- The new stone has a liberty: the one that the code counted, or a point that it captured.
  move-IsLiberty : Lives b player move → (q : Coord) × IsLiberty b' player none none move q
  move-IsLiberty (by_liberty q l) = (
    q,
    liberty' player move q l.stone (own_Reach (inr refl) l.reached) l.near l.inside
        (free_stays q l.inside l.free (λ e. cc (friend-pretend b player move, l.foreign))),
  )
  move-IsLiberty (by_capture n c) = (
    n,
    liberty' player move n move here c.near c.inside
        (captured_free n (record { root = n; capturing = c; reached = here })),
  )

  own_alive :
      (c : Coord)
      → Inside b.size c
      → at b c ≡ to_stone player
      → (q : Coord) × IsLiberty b' player none none c q
  own_alive c h e =
      let (q, l) = alive player c h e in
      let path = own_Reach (inl refl) l.reached in
      elim (Bool-cases (same_coord move q)) [
        | inr other ↦ (
          q,
          liberty' player c q l.stone path l.near l.inside
              (free_stays q l.inside l.free (same_coord→≢ move q other)),
        )
        | inl is ↦
            let same = same_coord→≡ move q is in
            let (q', l') = move-IsLiberty legal.lives in
            (
              q',
              IsLiberty-Reach
                  (step path (rw same l.near) (rw s.same_size legal.inside)
                    ((friend_iff b' player move).1 at-move))
                  l',
            )
      ]

  -- An enemy group whose liberty is the point of the move has another, or it is captured.
  enemy_elsewhere :
      (c : Coord)
      → Inside b.size c
      → at b c ≡ to_stone enemy
      → ¬ IsCaptured b enemy move c
      → (q : Coord) → IsLiberty b enemy none none c q
      → move ≡ q
      → (q' : Coord) × IsLiberty b' enemy none none c q'
  enemy_elsewhere c h e free q l same =
      let own = (friend_iff b enemy c).1 e in
      let root_stone = (friend_iff b enemy l.stone).0 (Reach-friend own l.reached) in
      let root_inside = Reach-Inside h l.reached in
      let a = analyse b valid move legal.inside enemy l.stone root_inside root_stone in
      elim (zero_or_pos a.liberties) [
        | inl z ↦ absurd (
            free (record {
              root = l.stone;
              capturing = record {
                near = Adjacent-sym l.stone move (rw same l.near);
                inside = root_inside;
                stone = root_stone;
                doomed = no-IsLiberty a z;
              };
              reached = Reach-sym h own l.reached;
            }))
        | inr p ↦
            let (q', l') = some-IsLiberty a p in
            (
              q',
              liberty' enemy c q' l'.stone (enemy-Reach h e free (Reach-trans l.reached l'.reached))
                  l'.near l'.inside
                  (free_stays q' l'.inside l'.free (same_coord→≢ move q' l'.unblocked)),
            )
      ]

  enemy_alive :
      (c : Coord)
      → Inside b.size c
      → at b c ≡ to_stone enemy
      → ¬ IsCaptured b enemy move c
      → (q : Coord) × IsLiberty b' enemy none none c q
  enemy_alive c h e free =
      let (q, l) = alive enemy c h e in
      elim (Bool-cases (same_coord move q)) [
        | inr other ↦ (
          q,
          liberty' enemy c q l.stone (enemy-Reach h e free l.reached) l.near l.inside
              (free_stays q l.inside l.free (same_coord→≢ move q other)),
        )
        | inl is ↦ enemy_elsewhere c h e free q l (same_coord→≡ move q is)
      ]

  old_stone :
      (p : Player) (c : Coord)
      → Inside b.size c
      → at b' c ≡ to_stone p
      → same_coord move c ≡ false
      → (at b c ≡ to_stone p) × ¬ IsCaptured b enemy move c
  old_stone p c h e other = (
    ground (arith, s.stones c h, to_stone-ne-empty p),
    λ cap. to_stone-ne-empty p (sym e ∙ captured_free c cap),
  )

  either : (p : Player) → (p ≡ player) ⊎ (p ≡ enemy)
  either p = ground arith

  -- The board of a simulated move keeps a liberty for every group.
  pub Simulated-IsAlive : IsAlive b'
  Simulated-IsAlive p c h' e =
      let h : Inside b.size c = rw s.same_size at h' in
      elim (Bool-cases (same_coord move c)) [
        | inl is ↦
            let same = same_coord→≡ move c is in
            let mine : p ≡ player = ground (arith, at-move) in
            rw (← same, mine) (move-IsLiberty legal.lives)
        | inr other ↦
            let (old, left) = old_stone p c h e other in
            elim (either p) [
              | inl mine ↦ rw mine (own_alive c h (rw mine at old))
              | inr theirs ↦ rw theirs (enemy_alive c h (rw theirs at old) left)
            ]
      ]

-- On a valid board where every group has a liberty, `simulatePosition` of a legal move gives the position
-- that the rules describe: the new stone stands, the captured stones are gone, every other point, the
-- turn, the move number and the list of captures are as stated for it. Every group of its board has a
-- liberty again.
pub simulate_position-IsAlive :
    (start : GamePosition) (move : Coord) (player : Player) (hasher : ZobristHash)
    → IsValid start.board
    → IsLegal start.board player move
    → IsAlive start.board
    → (s : Simulated start move player hasher (simulate_position start move player hasher))
      × IsAlive s.next.board
simulate_position-IsAlive start move player hasher valid legal alive =
    let s = simulate_position-Simulated start move player hasher valid legal.inside legal.free in
    (s, Simulated-IsAlive start move player hasher valid legal s alive)
