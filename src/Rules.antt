-- ===== src/Rules.antt =====
-- src/game/core/moveChecker.cpp: groups and liberties, suicide, legal moves. A grid of marks
-- (`std::vector<std::vector<bool>>`) is a function of the coordinate: each index that the source
-- uses was compared with the board's size before. `none` is an assertion that fails or a loop that
-- outruns its fuel.
pub mod Count
pub mod Region
pub mod Loop
pub mod Rounds
pub mod Group
use package.go_game.Prelude.{
  ℕ, zero, suc, ◌+◌, ◌-◌, ◌*◌, Bool, true, false, not, ◌&&◌, ◌||◌, ltb, leb, ◌==◌, if◌then◌else◌,
  Option, none, some, ◌>>=◌, List, [], ◌∷◌,
}
use package.go_game.Model.{
  Coord, coord, same_coord, Player, opponent, Stone, empty, same_stone, to_stone, Board, in_bounds,
  get,
}

abbrev pub Marks : Type 0
Marks = Coord → Bool

abbrev pub no_marks : Marks
no_marks c = false

abbrev pub mark : Marks → Coord → Marks
mark m c d = same_coord c d || m d

-- `kDx` and `kDy` with 1 added, so that they are natural numbers.
abbrev pub directions : List (ℕ × ℕ)
directions = (2, 1) ∷ (0, 1) ∷ (1, 2) ∷ (1, 0) ∷ []

-- The neighbour in a direction, if `nx` and `ny` are in range. Both are computed with 1 added.
unfoldable pub neighbour : ℕ → Coord → ℕ × ℕ → Option Coord
neighbour n c (dx, dy) =
    if ltb (c.x + dx) 1 || ltb (c.y + dy) 1 || leb (n + 1) (c.x + dx) || leb (n + 1) (c.y + dy)
    then none
    else some (coord (c.x + dx - 1) (c.y + dy - 1))

-- The variables of the loop. The head of a list is the back of the vector.
pub record Search : Type 0 where
  pub visited : Marks
  pub liberty_visited : Marks
  pub stack : List Coord
  pub group : List Coord
  pub liberties : ℕ

-- The variables before the loop, with the start on the stack and in the group.
abbrev pub search_from : Coord → Search
search_from start = record {
  visited = no_marks;
  liberty_visited = no_marks;
  stack = start ∷ [];
  group = start ∷ [];
  liberties = 0;
}

abbrev pub is_at : Option Coord → Coord → Bool
is_at none c = false
is_at (some d) c = same_coord d c

module _ (b : Board) (player : Player) (pretend_stone blocked_liberty : Option Coord) where
  unfoldable pub is_player_stone : Coord → Option Bool
  is_player_stone c = do
    let stone = get b c
    if is_at pretend_stone c
        then some true
        else (stone >>= λ s. some (same_stone s (to_stone player)))

  abbrev pub push_stone : Coord → Search → Search
  push_stone c s = if s.visited c then s else record s { stack = c ∷ s.stack; group = c ∷ s.group }

  abbrev pub count_liberty : Coord → Stone → Search → Search
  count_liberty c stone s =
      if same_stone stone empty && not (is_at blocked_liberty c) && not (s.liberty_visited c)
      then record s { liberty_visited = mark s.liberty_visited c; liberties = s.liberties + 1 }
      else s

  -- The body of the loop over the directions, behind its test of the range.
  unfoldable pub visit_neighbour : Coord → Search → Option Search
  visit_neighbour c s = do
    friend ← is_player_stone c
    if friend then some (push_stone c s) else (get b c >>= λ stone. some (count_liberty c stone s))

  unfoldable pub visit_directions : Coord → List (ℕ × ℕ) → Search → Option Search
  visit_directions c [] s = some s
  visit_directions c (d ∷ ds) s = elim (neighbour b.size c d) [
    | none ↦ visit_directions c ds s
    | some n ↦ visit_neighbour n s >>= visit_directions c ds
  ]

  unfoldable pub search_loop : ℕ → Search → Option Search
  search_loop zero s = none
  search_loop (suc fuel) s = elim s.stack [
    | [] ↦ some s
    | c ∷ rest ↦ elim (s.visited c) [
      | true ↦ search_loop fuel (record s { stack = rest })
      | false ↦
          visit_directions c directions (record s { stack = rest; visited = mark s.visited c })
          >>= search_loop fuel
    ]
  ]

-- The liberties and the group of a start. Each round takes one entry off the stack, and at most
-- four are put on for each cell, so the fuel is enough.
unfoldable pub group_analysis :
    Board → Coord → Player → Option Coord → Option Coord → Option (ℕ × List Coord)
group_analysis b start player pretend_stone blocked_liberty = do
  friend ← is_player_stone b player pretend_stone blocked_liberty start
  if friend
      then (search_loop b player pretend_stone blocked_liberty (4 * (b.size * b.size) + 2)
            (search_from start)
          >>= λ s. some (s.liberties, s.group))
      else some (0, [])
