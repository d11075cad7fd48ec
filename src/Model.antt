-- ===== src/Model.antt =====
-- src/game/model: coordinates, players, stones and the board. The row-major vector of the board
-- is a list; `none` is an assertion that fails. The sizes in use are 9, 13 and 19, so no index
-- overflows.
pub mod Grid
use package.go_game.Prelude.{
  ℕ, ◌+◌, ◌*◌, Bool, true, false, ◌&&◌, ltb, ◌==◌, if◌then◌else◌, Option, none, some, ◌>>=◌, ◌>>◌,
  assert, List, get_elem?, set, replicate, not,
}

pub record Coord : Type 0 where
  pub x : ℕ
  pub y : ℕ

abbrev pub coord : ℕ → ℕ → Coord
coord a b = record { x = a; y = b }

-- The comparison of both members that the source writes out.
abbrev pub same_coord : Coord → Coord → Bool
same_coord c d = c.x == d.x && c.y == d.y

pub data Player : Type 0 where
  black white : Player

abbrev pub same_player : Player → Player → Bool
same_player black black = true
same_player black white = false
same_player white black = false
same_player white white = true

abbrev pub opponent : Player → Player
opponent black = white
opponent white = black

pub data Stone : Type 0 where
  empty : Stone
  black_stone white_stone : Stone

abbrev pub same_stone : Stone → Stone → Bool
same_stone empty empty = true
same_stone black_stone black_stone = true
same_stone white_stone white_stone = true
same_stone _ _ = false

abbrev pub to_stone : Player → Stone
to_stone black = black_stone
to_stone white = white_stone

pub record Board : Type 0 where
  pub size : ℕ
  pub cells : List Stone

-- The constructor `Board(std::size_t size)`.
unfoldable pub new_board : ℕ → Board
new_board n = record { size = n; cells = replicate (n * n) empty }

abbrev pub index : ℕ → Coord → ℕ
index n c = c.y * n + c.x

abbrev pub in_bounds : Board → Coord → Bool
in_bounds b c = ltb c.x b.size && ltb c.y b.size

unfoldable pub get : Board → Coord → Option Stone
get b c = do assert (in_bounds b c); get_elem? b.cells (index b.size c)

unfoldable pub is_empty : Board → Coord → Option Bool
is_empty b c = do assert (in_bounds b c); s ← get b c; some (same_stone s empty)

-- `m_board[c.y * m_size + c.x] = value`.
abbrev pub write : Board → Coord → Stone → Board
write b c value = record b { cells = set b.cells (index b.size c) value }

-- The board after the call and the result.
unfoldable pub place : Board → Coord → Stone → Option (Board × Bool)
place b c value = do
  assert (in_bounds b c)
  assert (not (same_stone value empty))
  free ← is_empty b c
  if free then some (write b c value, true) else some (b, false)

unfoldable pub remove : Board → Coord → Option (Board × Bool)
remove b c = do
  assert (in_bounds b c)
  free ← is_empty b c
  if free then some (b, false) else some (write b c empty, true)
