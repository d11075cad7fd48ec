-- ===== src/TcpServer.antt =====
-- src/net/core/tcpServer.cpp: the connections that the server holds, by their numbers. An operation
-- returns the state and the calls of `Callbacks`. The mutex makes each operation one step. A handler of a
-- connection that ends it is two: the connection stops, and later its callback takes the mutex and lets
-- the connection go.
pub mod Held
pub mod Live
pub mod Tests
use package.go_game.Prelude.{
  ℕ, Bool, true, false, not, ◌==◌, if◌then◌else◌, Option, none, some, List, [], ◌∷◌, ◌++◌,
}
use package.go_game.Net.{Text}
use package.go_game.Position.{increment}
use package.go_game.Wire.{Endian}
use package.go_game.Connection
use package.go_game.Connection.{
  Callback, on_connect, on_message, on_disconnect, Connection, new_connection, run_task, write_done,
  header_done, payload_done,
}

pub data NetCall : Type 0 where
  net_connect : ℕ → NetCall
  net_message : ℕ → Text → NetCall
  net_disconnect : ℕ → NetCall

-- `closing` are the connections that have stopped and whose callback `onDisconnect` is still to take the
-- mutex. `accepting` says that an asynchronous accept is under way, `io_thread` that the thread can be joined.
pub record TcpServer : Type 0 where
  pub acceptor_ready : Bool
  pub running : Bool
  pub accepting : Bool
  pub io_thread : Bool
  pub connections : List (ℕ × Connection)
  pub closing : List ℕ
  pub connection_id : ℕ

-- What the setup of the acceptor (asio) came to is an argument, and so is the counter `CONN_ID`, which
-- the servers of a program share.
abbrev pub new_tcp_server : Bool → ℕ → TcpServer
new_tcp_server ready next_id = record {
  acceptor_ready = ready;
  running = false;
  accepting = false;
  io_thread = false;
  connections = [];
  closing = [];
  connection_id = next_id;
}

-- `at`, an assignment to an entry, and `erase` of the map.
abbrev pub connection_at : ℕ → List (ℕ × Connection) → Option Connection
connection_at k [] = none
connection_at k ((k', c) ∷ rest) = if k' == k then some c else connection_at k rest

abbrev pub with_connection : ℕ → Connection → List (ℕ × Connection) → List (ℕ × Connection)
with_connection k c [] = []
with_connection k c ((k', c') ∷ rest) = (k', if k' == k then c else c') ∷ with_connection k c rest

abbrev pub without_connection : ℕ → List (ℕ × Connection) → List (ℕ × Connection)
without_connection k [] = []
without_connection k ((k', c) ∷ rest) =
    let rest' = without_connection k rest in if k' == k then rest' else (k', c) ∷ rest'

unfoldable pub start : TcpServer → TcpServer
start s =
    if s.running
    then s
    else if not s.acceptor_ready
    then record s { running = false }
    else record s { running = true; accepting = true; io_thread = true }

-- The connections are stopped and let go.
unfoldable pub stop : TcpServer → TcpServer
stop s =
    if not s.running
    then s
    else record s { running = false; accepting = false; io_thread = false; connections = [] }

unfoldable pub send : TcpServer → ℕ → Text → Bool × TcpServer
send s id message = elim (connection_at id s.connections) [
  | none ↦ (false, s)
  | some c ↦ (
    true,
    record s { connections = with_connection id (Connection.send c message) s.connections },
  )
]

unfoldable pub reject : TcpServer → ℕ → TcpServer
reject s id = elim (connection_at id s.connections) [
  | none ↦ s
  | some c ↦ record s { connections = without_connection id s.connections }
]

-- The callbacks of a connection, as `createConnection` makes them; `onDisconnect` comes later.
abbrev pub routed : TcpServer → ℕ → List Callback → TcpServer × List NetCall
routed s id [] = (s, [])
routed s id (on_connect ∷ rest) = let (s', calls) = routed s id rest in (s', net_connect id ∷ calls)
routed s id (on_message message ∷ rest) =
    let (s', calls) = routed s id rest in (s', net_message id message ∷ calls)
routed s id (on_disconnect ∷ rest) = routed (record s { closing = id ∷ s.closing }) id rest

-- One call of `onDisconnect` is no longer to come.
abbrev pub closed : ℕ → List ℕ → List ℕ
closed id [] = []
closed id (k ∷ ks) = if k == id then ks else k ∷ closed id ks

-- The callback `onDisconnect` of a connection, from the mutex on.
unfoldable pub on_disconnected : TcpServer → ℕ → TcpServer × List NetCall
on_disconnected s id = (
  record s { connections = without_connection id s.connections; closing = closed id s.closing },
  net_disconnect id ∷ [],
)

-- What a connection leaves when an operation on it is done.
abbrev pub after_step : TcpServer → ℕ → Connection × List Callback → TcpServer × List NetCall
after_step s id (c, callbacks) =
    routed (record s { connections = with_connection id c s.connections }) id callbacks

unfoldable pub create_connection : TcpServer → ℕ → Bool × TcpServer
create_connection s id = elim (connection_at id s.connections) [
  | some c ↦ (false, s)
  | none ↦ (true, record s { connections = (id, new_connection) ∷ s.connections })
]

-- The connection that was accepted is started.
abbrev pub start_created : ℕ → Bool × TcpServer → TcpServer × List NetCall
start_created id (false, s) = (s, [])
start_created id (true, s) = after_step s id (Connection.start new_connection)

abbrev pub accept_socket : TcpServer → TcpServer × List NetCall
accept_socket s =
    start_created s.connection_id
      (create_connection (record s { connection_id = increment s.connection_id }) s.connection_id)

-- The handler of an accept, with a socket or an error.
unfoldable pub accepted : TcpServer → Bool → TcpServer × List NetCall
accepted s ok =
    let (s', calls) = accept_socket s in
    if not s.running
    then (record s { accepting = false }, [])
    else if ok
    then (record s' { accepting = true }, calls)
    else (record s { accepting = true }, [])

-- The handlers of a connection: the end of a write, of a read of a header or of a payload, or a task.
pub data Handler : Type 0 where
  write_handler : Bool → Handler
  header_handler payload_handler : Option Text → Handler
  task_handler : Handler

abbrev pub handler_result : Endian → Handler → Connection → Connection × List Callback
handler_result endian (write_handler ok) c = write_done endian c ok
handler_result endian (header_handler r) c = header_done endian c r
handler_result endian (payload_handler r) c = payload_done c r
handler_result endian task_handler c = (run_task endian c, [])

-- A handler of a connection that is not held any more finds it stopped and tells nothing.
unfoldable pub run_handler : Endian → TcpServer → ℕ → Handler → TcpServer × List NetCall
run_handler endian s id h = elim (connection_at id s.connections) [
  | none ↦ (s, [])
  | some c ↦ after_step s id (handler_result endian h c)
]
