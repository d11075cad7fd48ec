-- ===== src/Server.antt =====
-- src/net/network/server.cpp: the handlers of the server's events. The text of messages and the
-- sockets are parameters: `to_message` (`none` for an empty text), `from_client_message`, and
-- `sent`, which tells if a text went out to a connection.
pub mod Seats
pub mod Loop
pub mod Tests
use package.go_game.Prelude.{
  ℕ, zero, suc, ◌==◌, Bool, true, false, not, ◌&&◌, ◌||◌, if◌then◌else◌, Option, none, some, ◌>>=◌,
  List, [], ◌∷◌, ◌++◌,
}
use package.go_game.Net.{
  Seat, seat_none, seat_black, seat_white, seat_observer, is_player, same_seat, Text, ClientEvent,
  ServerEvent, server_session_assign,
}
use package.go_game.Sessions.{
  SessionContext, SessionManager, add, get_session_id, get_connection_id, get_connection_id_by_seat,
  get_seat, set_seat, set_disconnected,
}
use package.go_game.SafeQueue.{SafeQueue, Popped, waits, throws, takes_entry, push, pop, release}

pub data ServerQueueEvent : Type 0 where
  client_connected : ℕ → ServerQueueEvent
  client_message : ℕ → Text → ServerQueueEvent
  client_disconnected : ℕ → ServerQueueEvent
  shutdown_server : ServerQueueEvent

-- What the server does: a text to a connection, or a call of its handler.
pub data Output : Type 0 where
  sends_text : ℕ → Text → Output
  handler_connected : ℕ → Seat → Output
  handler_event : ℕ → ClientEvent → Output
  handler_disconnected : ℕ → Output

pub record Server : Type 0 where
  pub is_running : Bool
  pub session_manager : SessionManager
  pub has_handler : Bool

pub record Transport : Type 0 where
  pub to_message : ServerEvent → Option Text
  pub from_client_message : Text → Option ClientEvent
  pub sent : ℕ → Text → Bool

unfoldable pub register_handler : Server → Server × Bool
register_handler s = if s.has_handler then (s, false) else (record s { has_handler = true }, true)

unfoldable pub free_seat : SessionManager → Option Seat
free_seat m = do
  black ← get_connection_id_by_seat m seat_black
  white ← get_connection_id_by_seat m seat_white
  some (if black == 0 then seat_black else if white == 0 then seat_white else seat_observer)

-- The server with its queue.
pub record ServerProcess : Type 0 where
  pub server : Server
  pub event_queue : SafeQueue ServerQueueEvent

abbrev pub push_event : ServerProcess → ServerQueueEvent → ServerProcess
push_event p e = record p { event_queue = push p.event_queue e }

-- The callbacks of the TCP server only queue events.
unfoldable pub on_client_connected : ServerProcess → ℕ → ServerProcess
on_client_connected p connection = push_event p (client_connected connection)

unfoldable pub on_client_message : ServerProcess → ℕ → Text → ServerProcess
on_client_message p connection payload = push_event p (client_message connection payload)

unfoldable pub on_client_disconnected : ServerProcess → ℕ → ServerProcess
on_client_disconnected p connection = push_event p (client_disconnected connection)

-- `stop` up to the wait for the loop's thread: `m_isRunning` is cleared before the event is queued. The
-- network is stopped in between.
unfoldable pub stop : ServerProcess → ServerProcess
stop p =
    let ended = record p { server = record p.server { is_running = false } } in
    let woken = if p.server.is_running then push_event ended shutdown_server else ended in
    record woken { event_queue = release woken.event_queue }

-- How the loop stands: it has ended, or it waits for an event.
pub data LoopState : Type 0 where
  loop_ended loop_waits : LoopState

module _ (t : Transport) where
  unfoldable pub send : Server → ℕ → ServerEvent → List Output × Bool
  send s session event =
      let connection = get_connection_id s.session_manager session in
      if connection == 0 then ([], false) else (elim (t.to_message event) [
        | none ↦ ([], false)
        | some text ↦ (sends_text connection text ∷ [], t.sent connection text)
      ])

  -- The visit of each session.
  unfoldable pub broadcast_to : Text → List (ℕ × SessionContext) → List Output × Bool
  broadcast_to text [] = ([], false)
  broadcast_to text ((k, c) ∷ rest) =
      let (outputs, any_sent) = broadcast_to text rest in
      if not c.is_active || same_seat c.seat seat_none
      then (outputs, any_sent)
      else (sends_text c.connection_id text ∷ outputs, t.sent c.connection_id text || any_sent)

  unfoldable pub broadcast : Server → ServerEvent → List Output × Bool
  broadcast s event = elim (t.to_message event) [
    | none ↦ ([], false)
    | some text ↦ broadcast_to text s.session_manager.sessions
  ]

  unfoldable pub process_client_connect : Server → ℕ → Option (Server × List Output)
  process_client_connect s connection = do
    (added, session) ← add s.session_manager connection
    seat ← free_seat added
    let s' = record s { session_manager = set_seat added session seat }
    let (outputs, ok) = send s' session (server_session_assign session)
    some (s', outputs ++ (if s.has_handler then handler_connected session seat ∷ [] else []))

  unfoldable pub process_client_message : Server → ℕ → Text → List Output
  process_client_message s connection payload =
      let session = get_session_id s.session_manager connection in
      if session == 0
      then []
      else if not (is_player (get_seat s.session_manager session))
      then []
      else (elim (t.from_client_message payload) [
        | none ↦ []
        | some event ↦ if s.has_handler then handler_event session event ∷ [] else []
      ])

  unfoldable pub process_client_disconnect : Server → ℕ → Server × List Output
  process_client_disconnect s connection =
      let session = get_session_id s.session_manager connection in
      let seat = get_seat s.session_manager session in
      if session == 0 then (s, []) else (
        record s { session_manager = set_disconnected s.session_manager session },
        if s.has_handler && is_player seat then handler_disconnected session ∷ [] else [],
      )

  abbrev pub process_shutdown : Server → Server
  process_shutdown s = record s { is_running = false }

  unfoldable pub process_event : Server → ServerQueueEvent → Option (Server × List Output)
  process_event s (client_connected connection) = process_client_connect s connection
  process_event s (client_message connection payload) =
      some (s, process_client_message s connection payload)
  process_event s (client_disconnected connection) = some (process_client_disconnect s connection)
  process_event s shutdown_server = some (process_shutdown s, [])

  -- The loop, which can always go on: `none` is the end of the fuel, or an assertion that fails. The
  -- exception of `Pop` is caught, and the loop ends if the server was stopped.
  unfoldable pub server_loop : ℕ → ServerProcess → Option (ServerProcess × List Output × LoopState)
  server_loop zero p = none
  server_loop (suc fuel) p = elim p.server.is_running [
    | false ↦ some (p, [], loop_ended)
    | true ↦ elim (pop p.event_queue) [
      | waits ↦ some (p, [], loop_waits)
      | throws ↦ server_loop fuel p
      | takes_entry event queue ↦ process_event p.server event >>= λ (server, outputs).
          server_loop fuel (record { server = server; event_queue = queue })
          >>= λ (last, more, state). some (last, outputs ++ more, state)
    ]
  ]
