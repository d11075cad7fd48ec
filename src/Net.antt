-- ===== src/Net.antt =====
-- src/net/network/include/network/types.hpp and nwEvents.hpp: the types of the messages.
use package.go_game.Prelude.{ℕ, Bool, true, false, Option, List}
use package.go_game.Model.{Coord, Player}

-- `Count` marks the end of an enumeration, as in the source.
pub data ServerAction : Type 0 where
  act_place act_pass act_resign act_count : ServerAction

pub data NetStatus : Type 0 where
  net_active net_black_win net_white_win net_draw net_count : NetStatus

pub data Seat : Type 0 where
  seat_none seat_black seat_white seat_observer : Seat

abbrev pub is_player : Seat → Bool
is_player seat_none = false
is_player seat_black = true
is_player seat_white = true
is_player seat_observer = false

abbrev pub same_seat : Seat → Seat → Bool
same_seat seat_none seat_none = true
same_seat seat_black seat_black = true
same_seat seat_white seat_white = true
same_seat seat_observer seat_observer = true
same_seat _ _ = false

-- The komi, a `double`, is its 64 bits.
pub record ServerGameConfig : Type 0 where
  pub board_size : ℕ
  pub komi : ℕ
  pub time_seconds : ℕ

pub record ServerDelta : Type 0 where
  pub turn : ℕ
  pub seat : Seat
  pub action : ServerAction
  pub coord : Option Coord
  pub captures : List Coord
  pub next : Seat
  pub status : NetStatus

-- A string is its characters.
abbrev pub Text : Type 0
Text = List ℕ

pub record ServerChat : Type 0 where
  pub player : Player
  pub message_id : ℕ
  pub message : Text

pub data ClientEvent : Type 0 where
  client_put_stone : Coord → ClientEvent
  client_pass client_resign : ClientEvent
  client_chat : Text → ClientEvent

pub data ServerEvent : Type 0 where
  server_session_assign : ℕ → ServerEvent
  server_game_config : ServerGameConfig → ServerEvent
  server_delta : ServerDelta → ServerEvent
  server_chat : ServerChat → ServerEvent
