-- ===== src/Session.antt =====
-- src/apps/runtime/sessionManager.cpp: the state of the application and its handlers. A handler
-- returns the state and the calls that it makes, in their order: of the network client, of the local
-- server, and of the listeners. `none` is an assertion that fails, or the fuel of `drain`.
pub mod Pending
pub mod Drain
pub mod Chat
pub mod Order
pub mod Update
pub mod Tests
use package.go_game.Prelude.{
  ℕ, zero, suc, ◌+◌, Bool, true, false, not, ◌==◌, ltb, leb, if◌then◌else◌, Option, none, some,
  ◌>>=◌, List, [], ◌∷◌, ◌++◌, length,
}
use package.go_game.Model.{Coord, Player}
use package.go_game.Position.{increment}
use package.go_game.Net.{
  ServerAction, act_place, act_pass, act_resign, act_count, ServerGameConfig, ServerDelta, Text,
  ServerChat, ClientEvent, client_put_stone, client_pass, client_resign, client_chat,
}
use package.go_game.Client.{
  GameStatus, status_idle, status_ready, status_active, status_done, ClientPosition, reset, init,
  set_status, apply_delta,
}

pub record ChatEntry : Type 0 where
  pub player : Player
  pub message_id : ℕ
  pub message : Text

pub data AppSignal : Type 0 where
  app_board_change app_player_change app_state_change app_new_chat : AppSignal

pub data Call : Type 0 where
  connects : Text → Call
  disconnects : Call
  sends : ClientEvent → Call
  starts_server : ℕ → Call
  stops_server destroys_server : Call
  tells : AppSignal → Call

-- Of the local server, only whether there is one.
pub record SessionManager : Type 0 where
  pub position : ClientPosition
  pub expected_message_id : ℕ
  pub chat_history : List ChatEntry
  pub pending_chat : List (ℕ × ChatEntry)
  pub has_server : Bool

-- `find`, `emplace` and `erase` of `std::unordered_map`.
abbrev pub find : ℕ → List (ℕ × ChatEntry) → Option ChatEntry
find k [] = none
find k ((k', e) ∷ rest) = if k' == k then some e else find k rest

abbrev pub emplace : ℕ → ChatEntry → List (ℕ × ChatEntry) → List (ℕ × ChatEntry)
emplace k e m = elim (find k m) [ none ↦ (k, e) ∷ m | some old ↦ m ]

abbrev pub erase : ℕ → List (ℕ × ChatEntry) → List (ℕ × ChatEntry)
erase k [] = []
erase k ((k', e) ∷ rest) = if k' == k then erase k rest else (k', e) ∷ erase k rest

abbrev pub tell_all : List Call
tell_all = tells app_board_change ∷ tells app_player_change ∷ tells app_state_change ∷ []

-- The position of a size, and no chat.
abbrev pub cleared : SessionManager → ClientPosition → SessionManager
cleared m p = record m {
  position = p;
  expected_message_id = 1;
  chat_history = [];
  pending_chat = [];
}

abbrev pub drop_server : Bool → List Call
drop_server true = destroys_server ∷ []
drop_server false = []

abbrev pub stop_server : Bool → List Call
stop_server true = stops_server ∷ destroys_server ∷ []
stop_server false = []

unfoldable pub connect : SessionManager → Text → SessionManager × List Call
connect m host_ip = (
  record (cleared m (set_status (reset 9) status_ready)) { has_server = false },
  drop_server m.has_server ++ connects host_ip ∷ tell_all,
)

unfoldable pub disconnect : SessionManager → SessionManager × List Call
disconnect m = (
  record (cleared m (reset 9)) { has_server = false },
  disconnects ∷ (stop_server m.has_server ++ tell_all),
)

-- "127.0.0.1"
abbrev pub local_host : Text
local_host = 49 ∷ 50 ∷ 55 ∷ 46 ∷ 48 ∷ 46 ∷ 48 ∷ 46 ∷ 49 ∷ []

unfoldable pub host : SessionManager → ℕ → SessionManager × List Call
host m board_size =
    let (m', calls) = disconnect m in
    (
      record (cleared m' (set_status (reset board_size) status_ready)) { has_server = true },
      calls ++ starts_server board_size ∷ connects local_host ∷ tell_all,
    )

unfoldable pub shutdown : SessionManager → SessionManager × List Call
shutdown m = (
  record (cleared m (reset 9)) { has_server = false },
  stop_server m.has_server ++ disconnects ∷ [],
)

abbrev pub try_place : SessionManager → ℕ → ℕ → SessionManager × List Call
try_place m x y = (m, sends (client_put_stone (record { x = x; y = y })) ∷ [])

abbrev pub try_resign : SessionManager → SessionManager × List Call
try_resign m = (m, sends client_resign ∷ [])

abbrev pub try_pass : SessionManager → SessionManager × List Call
try_pass m = (m, sends client_pass ∷ [])

abbrev pub chat : SessionManager → Text → SessionManager × List Call
chat m message = (m, sends (client_chat message) ∷ [])

-- `std::upper_bound`: the entries from the first one that is later than the message.
abbrev pub upper_bound : ℕ → List ChatEntry → List ChatEntry
upper_bound id [] = []
upper_bound id (e ∷ es) = if ltb id e.message_id then e ∷ es else upper_bound id es

unfoldable pub get_chat_since : SessionManager → ℕ → List ChatEntry
get_chat_since m id = upper_bound id m.chat_history

abbrev pub same_status : GameStatus → GameStatus → Bool
same_status status_idle status_idle = true
same_status status_ready status_ready = true
same_status status_active status_active = true
same_status status_done status_done = true
same_status _ _ = false

abbrev pub tell_action : ServerAction → Option (List Call)
tell_action act_place = some (tells app_board_change ∷ tells app_player_change ∷ [])
tell_action act_pass = some (tells app_player_change ∷ [])
tell_action act_resign = some []
tell_action act_count = none

unfoldable pub on_game_update : SessionManager → ServerDelta → Option (SessionManager × List Call)
on_game_update m event = do
  (position, applied) ← apply_delta m.position event
  let m' = record m { position = position }
  if not applied
      then some (m', [])
      else (tell_action event.action >>= λ calls. some (
        m',
        calls
            ++ (if same_status m.position.status position.status
                then []
                else tells app_state_change ∷ []),
      ))

unfoldable pub on_game_config : SessionManager → ServerGameConfig → SessionManager × List Call
on_game_config m event =
    let (position, initialized) = init m.position event in
    let m' = record m { position = position } in if initialized then (m', tell_all) else (m', [])

-- The entry of the history that is expected next.
abbrev pub append : SessionManager → ChatEntry → SessionManager
append m e = record m {
  chat_history = m.chat_history ++ e ∷ [];
  expected_message_id = increment m.expected_message_id;
}

-- The loop over the messages that wait. Each round takes one of them away.
unfoldable pub drain : ℕ → SessionManager → Bool → Option (SessionManager × Bool)
drain zero m appended = none
drain (suc fuel) m appended = elim (find m.expected_message_id m.pending_chat) [
  | none ↦ some (m, appended)
  | some e ↦
      let taken = record m { pending_chat = erase m.expected_message_id m.pending_chat } in
      drain fuel (append taken e) true
]

abbrev pub entry_of : ServerChat → ChatEntry
entry_of event = record {
  player = event.player;
  message_id = event.message_id;
  message = event.message;
}

-- What is done with the message itself: it is dropped, appended, or it waits.
unfoldable pub take_message : SessionManager → ServerChat → SessionManager × Bool
take_message m event =
    if ltb event.message_id m.expected_message_id
    then (m, false)
    else if event.message_id == m.expected_message_id
    then (append m (entry_of event), true)
    else (
      record m { pending_chat = emplace event.message_id (entry_of event) m.pending_chat },
      false,
    )

unfoldable pub on_chat_message : SessionManager → ServerChat → Option (SessionManager × List Call)
on_chat_message m event = do
  let (m', first) = take_message m event
  (m'', appended) ← drain (length m'.pending_chat + 1) m' first
  some (m'', if appended then tells app_new_chat ∷ [] else [])

unfoldable pub on_disconnected : SessionManager → SessionManager × List Call
on_disconnected m = (cleared m (reset 9), tell_all)
