-- ===== src/Position.antt =====
-- src/game/core/position.cpp and IZobristHash.hpp: the position of a game and its hash. The table
-- of random numbers behind the hash is a parameter.
use package.go_game.Prelude.{ℕ, ◌+◌, ◌%◌, ◌^◌, Option, some, ◌>>=◌, bit_xor}
use package.go_game.Model.{Coord, Player, black, opponent, to_stone, Board, new_board, place}

-- `IZobristHash`: what a stone and the player to move put into the hash.
pub record ZobristHash : Type 0 where
  pub stone : Coord → Player → ℕ
  pub toggle_player : ℕ

pub record GamePosition : Type 0 where
  pub board : Board
  pub current_player : Player
  pub hash : ℕ
  pub move_id : ℕ

-- `unsigned` and its increment.
abbrev pub u32_mod : ℕ
u32_mod = 2 ^ 32

abbrev pub increment : ℕ → ℕ
increment n = (n + 1) % u32_mod

unfoldable pub new_position : ℕ → GamePosition
new_position n = record { board = new_board n; current_player = black; hash = 0; move_id = 0 }

-- `putStone` does not look at the result of `place`.
unfoldable pub put_stone : GamePosition → Coord → ZobristHash → Option GamePosition
put_stone p c hasher = do
  (board, _) ← place p.board c (to_stone p.current_player)
  some (record {
    board = board;
    current_player = opponent p.current_player;
    hash = bit_xor (bit_xor p.hash (hasher.stone c p.current_player)) hasher.toggle_player;
    move_id = increment p.move_id;
  })

unfoldable pub pass : GamePosition → ZobristHash → GamePosition
pass p hasher = record p {
  current_player = opponent p.current_player;
  hash = bit_xor p.hash hasher.toggle_player;
  move_id = increment p.move_id;
}
