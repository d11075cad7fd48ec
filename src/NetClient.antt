-- ===== src/NetClient.antt =====
-- src/net/network/client.cpp: the client of the protocol, with its read thread. An operation returns
-- the state and the calls of the handler that the read thread makes, in their order.
pub mod Stop
pub mod Threads
pub mod Stream
pub mod Delivery
pub mod Tests
use package.go_game.Prelude.{
  ℕ, zero, suc, ◌+◌, ◌-◌, Bool, true, false, not, ◌&&◌, if◌then◌else◌, Option, none, some, List, [],
  ◌∷◌, ◌++◌,
}
use package.go_game.Net.{
  Text, ServerGameConfig, ServerDelta, ServerChat, ClientEvent, ServerEvent, server_session_assign,
  server_game_config, server_delta, server_chat,
}
use package.go_game.Json.{Json}
use package.go_game.Codec.{to_client_message, from_server_message}
use package.go_game.Wire.{Endian}
use package.go_game.Socket.{Socket}
use package.go_game.TcpClient
use package.go_game.TcpClient.{TcpClient}

-- The calls of `IClientHandler`.
pub data HandlerCall : Type 0 where
  on_game_config : ServerGameConfig → HandlerCall
  on_game_update : ServerDelta → HandlerCall
  on_chat_message : ServerChat → HandlerCall
  on_disconnected : HandlerCall

-- `m_readThread`: a thread that can be joined, which may have ended, or no thread.
pub data ReadThread : Type 0 where
  no_thread thread_looping thread_ended : ReadThread

-- A call of the handler, if there is one.
abbrev pub call : Option ℕ → HandlerCall → List HandlerCall
call none h = []
call (some handler) h = h ∷ []

module _ (J : Json) (S : Socket) (endian : Endian) where
  -- `detached` counts the threads that were detached and are still in the loop.
  pub record NetClient : Type 0 where
    pub client : TcpClient S
    pub running : Bool
    pub read_thread : ReadThread
    pub detached : ℕ
    pub handler : Option ℕ
    pub session_id : ℕ

  abbrev pub new_client : S.Handle → NetClient
  new_client socket = record {
    client = record { socket = socket; is_connected = false };
    running = false;
    read_thread = no_thread;
    detached = 0;
    handler = none;
    session_id = 0;
  }

  unfoldable pub register_handler : NetClient → ℕ → Bool × NetClient
  register_handler c handler = elim c.handler [
    | some old ↦ (false, c)
    | none ↦ (true, record c { handler = some handler })
  ]

  -- A thread is put in the place of the old one, which must not be joinable: `none` is `std::terminate`.
  abbrev pub start_thread : NetClient → Option NetClient
  start_thread c = elim c.read_thread [
    | no_thread ↦ some (record c { running = true; read_thread = thread_looping })
    | thread_looping ↦ none
    | thread_ended ↦ none
  ]

  unfoldable pub start_read_loop : NetClient → Option NetClient
  start_read_loop c = if c.running then some c else start_thread c

  abbrev pub connected : Bool → NetClient → Option (Bool × NetClient)
  connected true c = elim (start_read_loop c) [ none ↦ none | some c' ↦ some (true, c') ]
  connected false c = some (false, c)

  unfoldable pub connect : NetClient → Text → ℕ → Option (Bool × NetClient)
  connect c host port =
      let (ok, client) = TcpClient.connect S c.client host port in
      let result = connected ok (record c { client = client }) in
      if c.client.is_connected then some (false, c) else result

  -- The bytes of `toMessage`. Where it throws, nothing is sent: `none`.
  unfoldable pub send : NetClient → ClientEvent → Option (Bool × NetClient)
  send c event = elim (to_client_message J event) [
    | none ↦ none
    | some message ↦
        let (ok, client) = TcpClient.send S endian c.client message in
        some (ok, record c { client = client })
  ]

  unfoldable pub handle_network_event : NetClient → ServerEvent → NetClient × List HandlerCall
  handle_network_event c (server_session_assign id) = (record c { session_id = id }, [])
  handle_network_event c (server_game_config e) = (c, call c.handler (on_game_config e))
  handle_network_event c (server_delta e) = (c, call c.handler (on_game_update e))
  handle_network_event c (server_chat e) = (c, call c.handler (on_chat_message e))

  abbrev pub visit : NetClient → Option ServerEvent → NetClient × List HandlerCall
  visit c none = (c, [])
  visit c (some event) = handle_network_event c event

  -- What the loop does with a message, from `read` on, which catches its own exceptions.
  unfoldable pub read_message : NetClient → NetClient × List HandlerCall
  read_message c =
      let (message, client) = TcpClient.read S endian c.client in
      visit (record c { client = client }) (from_server_message J message)

  abbrev pub end_loop : NetClient → NetClient × List HandlerCall
  end_loop c = (record c { read_thread = thread_ended }, call c.handler on_disconnected)

  -- The calls of a round, and those of the rounds after it.
  abbrev pub go_on :
      List HandlerCall
      → Option (NetClient × List HandlerCall)
      → Option (NetClient × List HandlerCall)
  go_on calls none = none
  go_on calls (some (last, more)) = some (last, calls ++ more)

  -- The loop, which can always go on: `none` is the end of the fuel.
  unfoldable pub read_loop : ℕ → NetClient → Option (NetClient × List HandlerCall)
  read_loop zero c = none
  read_loop (suc fuel) c =
      let (c', calls) = read_message c in
      let rest = read_loop fuel c' in
      if c.running && c.client.is_connected then go_on calls rest else some (end_loop c)

  -- A round of a detached thread, which is the last one when the loop is stopped or the client is not
  -- connected. A new `connect` sets `m_running` again for this thread too.
  unfoldable pub detached_round : NetClient → NetClient × List HandlerCall
  detached_round c =
      let round = read_message c in
      if c.running && c.client.is_connected
      then round
      else (record c { detached = c.detached - 1 }, call c.handler on_disconnected)

  -- `join` by another thread: the loop is waiting in `read`, and ends after it.
  abbrev pub join : NetClient → NetClient × List HandlerCall
  join c = elim c.read_thread [
    | no_thread ↦ (c, [])
    | thread_ended ↦ (record c { read_thread = no_thread }, [])
    | thread_looping ↦
        let (read, calls) = read_message c in
        let (last, more) = end_loop read in (record last { read_thread = no_thread }, calls ++ more)
  ]

  -- What `stopReadLoop` does, by the old value of `m_running`. `own` says that the read thread itself
  -- stops the loop: it is detached, and goes on with it.
  abbrev pub stop_if : Bool → Bool → NetClient → NetClient × List HandlerCall
  stop_if false own c = (c, [])
  stop_if true true c =
      (record c { running = false; read_thread = no_thread; detached = c.detached + 1 }, [])
  stop_if true false c = join (record c { running = false })

  unfoldable pub stop_read_loop : Bool → NetClient → NetClient × List HandlerCall
  stop_read_loop own c = stop_if c.running own c

  unfoldable pub disconnect : Bool → NetClient → NetClient × List HandlerCall
  disconnect own c = stop_read_loop own (record c { client = TcpClient.disconnect S c.client })
