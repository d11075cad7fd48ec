-- ===== src/Legal.antt =====
-- src/game/core/moveChecker.cpp: suicide, captures, the simulated next position and its legality.
-- `none` is an assertion that fails, or the fuel of `group_analysis`.
pub mod Capture
pub mod Suicide
pub mod Valid
pub mod Coords
pub mod Copy
pub mod Simulate
pub mod Alive
pub mod Next
pub mod Fold
pub mod Hash
pub mod Tests
use package.go_game.Prelude.{
  ℕ, zero, suc, ◌+◌, Bool, true, false, not, ◌&&◌, ◌||◌, ltb, ◌==◌, if◌then◌else◌, Option, none,
  some, ◌>>=◌, ◌>>◌, assert, List, [], ◌∷◌, ◌++◌, bit_xor,
}
use package.go_game.Model.{
  Coord, coord, same_coord, Player, opponent, Stone, empty, same_stone, to_stone, Board, new_board,
  in_bounds, get, is_empty, place,
}
use package.go_game.Position.{ZobristHash, GamePosition, increment}
use package.go_game.Rules.{Marks, no_marks, mark, directions, neighbour, group_analysis}

unfoldable pub compute_group_liberties : Board → Coord → Player → Option ℕ
compute_group_liberties b start player =
    if in_bounds b start
    then (group_analysis b start player (some start) none >>= λ (liberties, group). some liberties)
    else some 0

-- `for (const auto stone: group) marks[stone.x][stone.y] = true;`
abbrev pub mark_all : List Coord → Marks → Marks
mark_all [] m = m
mark_all (c ∷ cs) m = mark_all cs (mark m c)

-- The condition to `continue` with the next direction.
abbrev pub is_skipped : Stone → Player → Marks → Coord → Bool
is_skipped stone enemy visited n = not (same_stone stone (to_stone enemy)) || visited n

module _ (b : Board) (move : Coord) (enemy : Player) where
  unfoldable pub would_capture_from : List (ℕ × ℕ) → Marks → Option Bool
  would_capture_from [] visited = some false
  would_capture_from (d ∷ ds) visited = elim (neighbour b.size move d) [
    | none ↦ would_capture_from ds visited
    | some n ↦ get b n >>= λ stone. elim (is_skipped stone enemy visited n) [
      | true ↦ would_capture_from ds visited
      | false ↦ group_analysis b n enemy none (some move) >>= λ (liberties, group).
          let rest = would_capture_from ds (mark_all group visited) in
          if liberties == 0 then some true else rest
    ]
  ]

  -- The marks `visited` and `captured` after the loop over the directions.
  unfoldable pub capture_from : List (ℕ × ℕ) → Marks → Marks → Option Marks
  capture_from [] visited captured = some captured
  capture_from (d ∷ ds) visited captured = elim (neighbour b.size move d) [
    | none ↦ capture_from ds visited captured
    | some n ↦ get b n >>= λ stone. elim (is_skipped stone enemy visited n) [
      | true ↦ capture_from ds visited captured
      | false ↦ group_analysis b n enemy none (some move) >>= λ (liberties, group).
          capture_from ds (mark_all group visited)
            (if liberties == 0 then mark_all group captured else captured)
    ]
  ]

unfoldable pub would_capture : Board → Coord → Player → Option Bool
would_capture b c player = would_capture_from b c (opponent player) directions no_marks

unfoldable pub is_suicide : Board → Player → Coord → Option Bool
is_suicide b player c = do
  liberties ← compute_group_liberties b c player
  if ltb 0 liberties
      then some false
      else (would_capture b c player >>= λ captures. some (not captures))

-- The coordinates of a board in the order of the loops over `x` and `y`.
abbrev pub column : ℕ → ℕ → ℕ → List Coord
column x y zero = []
column x y (suc left) = coord x y ∷ column x (y + 1) left

abbrev pub columns : ℕ → ℕ → ℕ → List Coord
columns n x zero = []
columns n x (suc left) = column x 0 n ++ columns n (x + 1) left

unfoldable pub coords : ℕ → List Coord
coords n = columns n 0 n

-- The stones that stay are placed on the new board. The result of `place` is not used.
unfoldable pub copy_stones : Board → Coord → Marks → List Coord → Board → Option Board
copy_stones b move captured [] next = some next
copy_stones b move captured (pos ∷ rest) next = elim (captured pos || same_coord pos move) [
  | true ↦ copy_stones b move captured rest next
  | false ↦ get b pos >>= λ value. elim (same_stone value empty) [
    | true ↦ copy_stones b move captured rest next
    | false ↦ place next pos value >>= λ (next', _). copy_stones b move captured rest next'
  ]
]

unfoldable pub collect : Marks → List Coord → List Coord
collect captured [] = []
collect captured (c ∷ cs) = if captured c then c ∷ collect captured cs else collect captured cs

unfoldable pub hash_captures : ZobristHash → Player → List Coord → ℕ → ℕ
hash_captures hasher enemy [] h = h
hash_captures hasher enemy (c ∷ cs) h =
    hash_captures hasher enemy cs (bit_xor h (hasher.stone c enemy))

-- The position after the move and the captured stones.
unfoldable pub simulate_position :
    GamePosition → Coord → Player → ZobristHash → Option (GamePosition × List Coord)
simulate_position start move player hasher = do
  free ← is_empty start.board move
  assert free
  let enemy = opponent player
  let n = start.board.size
  captured ← capture_from start.board move enemy directions no_marks no_marks
  next_board ← copy_stones start.board move captured (coords n) (new_board n)
  (placed, _) ← place next_board move (to_stone player)
  let captures = collect captured (coords n)
  let with_stone = bit_xor start.hash (hasher.stone move player)
  some (
    record {
      board = placed;
      current_player = enemy;
      hash = bit_xor (hash_captures hasher enemy captures with_stone) hasher.toggle_player;
      move_id = increment start.move_id;
    },
    captures,
  )

unfoldable pub is_valid_move : Board → Player → Coord → Option Bool
is_valid_move b player c =
    if in_bounds b c
    then (get b c >>= λ stone.
        if same_stone stone empty
        then (is_suicide b player c >>= λ suicide. some (not suicide))
        else some false)
    else some false

-- `history` is the set of the hashes seen. The answer is the next position and its captures, or
-- `none` for an illegal move.
unfoldable pub is_next_position_legal :
    GamePosition
    → Player
    → Coord
    → ZobristHash
    → (ℕ → Bool)
    → Option (Option (GamePosition × List Coord))
is_next_position_legal current player c hasher history = do
  valid ← is_valid_move current.board player c
  if valid
      then (simulate_position current c player hasher >>= λ (simulated, captures).
          if history simulated.hash then some none else some (some (simulated, captures)))
      else some none
