-- ===== src/Client.antt =====
-- src/apps/runtime/position.cpp: the position that a client keeps. `none` is an assertion of the
-- board that fails.
pub mod Removal
pub mod Mirror
pub mod Follow
pub mod Tests
use package.go_game.Prelude.{
  ℕ, ◌+◌, Bool, true, false, not, ◌&&◌, ltb, if◌then◌else◌, Option, none, some, ◌>>=◌, List, [],
  ◌∷◌,
}
use package.go_game.Model.{
  Coord, Player, black, white, Stone, black_stone, white_stone, Board, new_board, place, remove,
}
use package.go_game.Position.{increment}
use package.go_game.Net.{
  Seat, is_player, same_seat, seat_black, ServerAction, act_place, act_pass, act_resign, act_count,
  ServerDelta, ServerGameConfig, NetStatus, net_active, net_black_win, net_white_win, net_draw,
  net_count,
}

pub data GameStatus : Type 0 where
  status_idle status_ready status_active status_done : GameStatus

abbrev pub is_active : GameStatus → Bool
is_active status_active = true
is_active _ = false

pub record ClientPosition : Type 0 where
  pub move_id : ℕ
  pub status : GameStatus
  pub player : Player
  pub board : Board

unfoldable pub reset : ℕ → ClientPosition
reset board_size = record {
  move_id = 0;
  status = status_idle;
  player = black;
  board = new_board board_size;
}

unfoldable pub init : ClientPosition → ServerGameConfig → ClientPosition × Bool
init p event = if is_active p.status then (p, false) else (
  record {
    move_id = 0;
    status = status_active;
    player = black;
    board = new_board event.board_size;
  },
  true,
)

abbrev pub set_status : ClientPosition → GameStatus → ClientPosition
set_status p s = record p { status = s }

-- The delta is for a running game and for the next move, and its seats are players.
unfoldable pub is_delta_applicable : ClientPosition → ServerDelta → Bool
is_delta_applicable p d =
    is_active p.status
    && ltb p.move_id d.turn
    && not (ltb (increment p.move_id) d.turn)
    && is_player d.seat
    && is_player d.next

abbrev pub status_after : NetStatus → GameStatus
status_after net_active = status_active
status_after net_black_win = status_done
status_after net_white_win = status_done
status_after net_draw = status_done
status_after net_count = status_done

abbrev pub player_of : Seat → Player
player_of s = if same_seat s seat_black then black else white

abbrev pub stone_of : Seat → Stone
stone_of s = if same_seat s seat_black then black_stone else white_stone

unfoldable pub remove_all : List Coord → Board → Option Board
remove_all [] b = some b
remove_all (c ∷ cs) b = remove b c >>= λ (b', _). remove_all cs b'

-- The results of `place` and `remove` are not used. A place without a coordinate is logged.
unfoldable pub place_on : Board → Seat → Option Coord → List Coord → Option Board
place_on b seat none captures = some b
place_on b seat (some c) captures = place b c (stone_of seat) >>= λ (b', _). remove_all captures b'

abbrev pub board_after : ServerAction → Board → Seat → Option Coord → List Coord → Option Board
board_after act_place b seat coord captures = place_on b seat coord captures
board_after act_pass b seat coord captures = some b
board_after act_resign b seat coord captures = some b
board_after act_count b seat coord captures = some b

unfoldable pub apply_delta : ClientPosition → ServerDelta → Option (ClientPosition × Bool)
apply_delta p d =
    if is_delta_applicable p d
    then (board_after d.action p.board d.seat d.coord d.captures >>= λ board. some (
      record {
        move_id = d.turn;
        status = status_after d.status;
        player = player_of d.next;
        board = board;
      },
      true,
    ))
    else some (p, false)
