-- ===== src/Codec/Sendable.antt =====
-- The events that the messages of src/net/network/nwEvents.cpp can carry.
use go_game.Prelude.{ℕ, ◌<◌, ◌≡◌, ◌≢◌, ◌⊎◌, ◌&&◌, true, none, some, List, [], ◌∷◌}
use go_game.Model.{Coord}
use go_game.Position.{u32_mod}
use go_game.Net.{
  ServerAction, act_place, act_pass, act_resign, NetStatus, net_count, Seat, is_player, ServerDelta,
  ClientEvent, client_put_stone, client_pass, client_resign, client_chat, ServerEvent,
  server_session_assign, server_game_config, server_delta, server_chat,
}
use go_game.Json.{Json, is_finite}

-- The coordinates fit in 32 bits.
abbrev pub Fits : Coord → Type 0
Fits c = (c.x < u32_mod) × (c.y < u32_mod)

abbrev pub AllFit : List Coord → Type 0
AllFit [] = Unit
AllFit (c ∷ cs) = Fits c × AllFit cs

-- The deltas that the protocol can carry: the seats are players, and a place has its coordinate, which
-- the other actions do not have.
pub data IsCarried : ServerDelta → Type 0 where
  placing :
      {turn : ℕ} {seat next : Seat} {status : NetStatus} (c : Coord) (captures : List Coord)
      → turn < u32_mod
      → is_player seat && is_player next ≡ true
      → status ≢ net_count
      → Fits c
      → AllFit captures
      → IsCarried (record {
        turn = turn;
        seat = seat;
        action = act_place;
        coord = some c;
        captures = captures;
        next = next;
        status = status;
      })
  plain_move :
      {turn : ℕ} {seat next : Seat} {action : ServerAction} {status : NetStatus}
      → turn < u32_mod
      → is_player seat && is_player next ≡ true
      → (action ≡ act_pass) ⊎ (action ≡ act_resign)
      → status ≢ net_count
      → IsCarried (record {
        turn = turn;
        seat = seat;
        action = action;
        coord = none;
        captures = [];
        next = next;
        status = status;
      })

module _ (J : Json) where
  -- The events of the server that can be sent.
  abbrev pub ServerSendable : ServerEvent → Type 0
  ServerSendable (server_session_assign id) = id < u32_mod
  ServerSendable (server_game_config e) =
      (e.board_size < u32_mod) × (is_finite e.komi ≡ true) × (e.time_seconds < u32_mod)
  ServerSendable (server_delta d) = IsCarried d
  ServerSendable (server_chat e) = (e.message_id < u32_mod) × J.IsUtf8 e.message

  -- The events of a client that can be sent.
  abbrev pub ClientSendable : ClientEvent → Type 0
  ClientSendable (client_put_stone c) = Fits c
  ClientSendable client_pass = Unit
  ClientSendable client_resign = Unit
  ClientSendable (client_chat message) = J.IsUtf8 message
