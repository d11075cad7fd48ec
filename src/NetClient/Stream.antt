-- ===== src/NetClient/Stream.antt =====
-- From the server's messages to the handler's calls: the read loop of src/net/network/client.cpp on a
-- stream of the frames of src/net/core/connection.cpp.
use go_game.Prelude.{
  ℕ, zero, suc, ◌+◌, ◌≤◌, ◌≡◌, refl, sym, ◌∙◌, ap, Bool, true, false, ◌&&◌, Option, none, some,
  List, [], ◌∷◌, ◌++◌, length, arith,
}
use mathlib.Core.List.{append_assoc}
use mathlib.Core.Option.{some-injective}
use go_game.Net.{
  Text, ServerEvent, server_session_assign, server_game_config, server_delta, server_chat,
}
use go_game.Json.{Json, IsLawful}
use go_game.Codec.{to_server_message, from_server_message}
use go_game.Codec.Sendable.{ServerSendable}
use go_game.Codec.RoundTrip.{server_message-Carries}
use go_game.Wire.{Endian, frame, max_payload_bytes}
use go_game.Socket.{Socket, IsStream}
use go_game.TcpClient.{TcpClient}
use go_game.TcpClient.Reads.{frames, read-ReadsMessage, read-ended}
use go_game.NetClient.{
  HandlerCall, on_game_config, on_game_update, on_chat_message, on_disconnected, NetClient,
  thread_ended, ReadThread, call, handle_network_event, read_message, read_loop, end_loop,
}

-- What a handler is told of events: all but the numbers of sessions, in their order.
abbrev pub told : Option ℕ → List ServerEvent → List HandlerCall
told handler [] = []
told none (e ∷ es) = []
told (some handler) (server_session_assign id ∷ es) = told (some handler) es
told (some handler) (server_game_config e ∷ es) = on_game_config e ∷ told (some handler) es
told (some handler) (server_delta e ∷ es) = on_game_update e ∷ told (some handler) es
told (some handler) (server_chat e ∷ es) = on_chat_message e ∷ told (some handler) es

-- The last number of a session.
abbrev pub session_of : ℕ → List ServerEvent → ℕ
session_of id [] = id
session_of id (server_session_assign new ∷ es) = session_of new es
session_of id (server_game_config e ∷ es) = session_of id es
session_of id (server_delta e ∷ es) = session_of id es
session_of id (server_chat e ∷ es) = session_of id es

told-nobody : (es : List ServerEvent) → told none es ≡ []
told-nobody [] = refl
told-nobody (e ∷ es) = refl

told-cons :
    (handler : Option ℕ) (e : ServerEvent) (es : List ServerEvent)
    → told handler (e ∷ []) ++ told handler es ≡ told handler (e ∷ es)
told-cons none e es = told-nobody es
told-cons (some handler) (server_session_assign id) es = refl
told-cons (some handler) (server_game_config x) es = refl
told-cons (some handler) (server_delta x) es = refl
told-cons (some handler) (server_chat x) es = refl

session_of-cons :
    (id : ℕ) (e : ServerEvent) (es : List ServerEvent)
    → session_of (session_of id (e ∷ [])) es ≡ session_of id (e ∷ es)
session_of-cons id e es = ground arith

module _ (J : Json) where
  -- The messages of events that can be sent.
  pub data AreSent : List ServerEvent → List Text → Type 0 where
    no_events : AreSent [] []
    one_more :
        {e : ServerEvent} {m : Text} {es : List ServerEvent} {ms : List Text}
        → ServerSendable J e
        → to_server_message J e ≡ some m
        → length m ≤ max_payload_bytes
        → AreSent es ms
        → AreSent (e ∷ es) (m ∷ ms)

  -- A message is read as its event.
  message-event :
      (l : IsLawful J) (e : ServerEvent) (m : Text)
      → ServerSendable J e
      → to_server_message J e ≡ some m
      → from_server_message J m ≡ some e
  message-event l e m h made =
      let r = server_message-Carries J l e h in
      let same : r.text ≡ m = some-injective _ _ (sym r.writes ∙ made) in rw (← same) r.answers

  from_server_message-empty : IsLawful J → from_server_message J [] ≡ none
  unfolding from_server_message
  from_server_message-empty l = rw l.parse-empty refl

both_true : (a b : Bool) → a ≡ true → b ≡ true → a && b ≡ true
both_true a b ea eb = ground arith

both_false : (a b : Bool) → b ≡ false → a && b ≡ false
both_false a b eb = ground arith

module _ (J : Json) (S : Socket) (endian : Endian) where
  -- The handler's calls for one event.
  abbrev call_of : NetClient J S endian → ServerEvent → List HandlerCall
  call_of c e = told c.handler (e ∷ [])

  -- The end of the loop: the connection is closed, and the thread has ended with a last call.
  pub record Delivered (c : NetClient J S endian) (es : List ServerEvent)
      (r : Option (NetClient J S endian × List HandlerCall)) : Type 0 where
    pub last : NetClient J S endian
    pub returns : r ≡ some (last, told c.handler es ++ call c.handler on_disconnected)
    pub closed : last.client.is_connected ≡ false
    pub ended : last.read_thread ≡ thread_ended
    pub session : last.session_id ≡ session_of c.session_id es
    pub kept : last.running ≡ true
    pub listens : last.handler ≡ c.handler

  handled :
      (client : TcpClient S) (running : Bool) (read_thread : ReadThread) (detached : ℕ)
      (handler : Option ℕ) (id : ℕ) (e : ServerEvent)
      → handle_network_event J S endian
          (record {
            client = client;
            running = running;
            read_thread = read_thread;
            detached = detached;
            handler = handler;
            session_id = id;
          })
          e
        ≡ (
          record {
            client = client;
            running = running;
            read_thread = read_thread;
            detached = detached;
            handler = handler;
            session_id = session_of id (e ∷ []);
          },
          told handler (e ∷ []),
        )
  unfolding handle_network_event
  handled client running read_thread detached none id (server_session_assign new) = refl
  handled client running read_thread detached none id (server_game_config x) = refl
  handled client running read_thread detached none id (server_delta x) = refl
  handled client running read_thread detached none id (server_chat x) = refl
  handled client running read_thread detached (some handler) id (server_session_assign new) = refl
  handled client running read_thread detached (some handler) id (server_game_config x) = refl
  handled client running read_thread detached (some handler) id (server_delta x) = refl
  handled client running read_thread detached (some handler) id (server_chat x) = refl

  handle_network_event_lem :
      (c : NetClient J S endian) (e : ServerEvent)
      → handle_network_event J S endian c e
        ≡ (record c { session_id = session_of c.session_id (e ∷ []) }, call_of c e)
  handle_network_event_lem c e =
      handled c.client c.running c.read_thread c.detached c.handler c.session_id e

module _ (J : Json) (l : IsLawful J) (S : Socket) (ls : IsStream S) (sender endian : Endian) where
  -- The state after a message was read and handled.
  record Took (c : NetClient J S endian) (e : ServerEvent) (rest : Text) : Type 0 where
    after : TcpClient S
    incoming : S.Incoming after.socket rest
    connected : after.is_connected ≡ c.client.is_connected
    result : read_message J S endian c ≡ (
      record c { client = after; session_id = session_of c.session_id (e ∷ []) },
      call_of J S endian c e,
    )

  read_message-Took :
      (c : NetClient J S endian) (e : ServerEvent) (m rest : Text)
      → from_server_message J m ≡ some e
      → length m ≤ max_payload_bytes
      → S.Incoming c.client.socket (frame sender m ++ rest)
      → Took c e rest
  unfolding read_message
  read_message-Took c e m rest event short incoming =
      let r = read-ReadsMessage S ls sender endian c.client m rest short incoming in
      record {
        after = r.after;
        incoming = r.incoming;
        connected = r.connected;
        result =
            rw (r.result, event)
              (handle_network_event_lem J S endian (record c { client = r.after }) e);
      }

  -- One round of the loop, and its end.
  read_loop-round :
      (c c' last : NetClient J S endian) (calls more : List HandlerCall) (fuel : ℕ)
      → c.running && c.client.is_connected ≡ true
      → read_message J S endian c ≡ (c', calls)
      → read_loop J S endian fuel c' ≡ some (last, more)
      → read_loop J S endian (suc fuel) c ≡ some (last, calls ++ more)
  unfolding read_loop
  read_loop-round c c' last calls more fuel on read rest =
      let next = ap (λ (r : NetClient J S endian × List HandlerCall). r.0) read in
      let made = ap (λ (r : NetClient J S endian × List HandlerCall). r.1) read in
      rw (on, next, rest, made) refl

  read_loop-end :
      (c : NetClient J S endian) (fuel : ℕ)
      → c.running && c.client.is_connected ≡ false
      → read_loop J S endian (suc fuel) c ≡ some (end_loop J S endian c)
  unfolding read_loop
  read_loop-end c fuel off = rw off refl

  -- The last round: nothing arrives any more.
  record Closes (c : NetClient J S endian) : Type 0 where
    after : TcpClient S
    connected : after.is_connected ≡ false
    result : read_message J S endian c ≡ (record c { client = after }, [])

  read_message-Closes : (c : NetClient J S endian) → S.Incoming c.client.socket [] → Closes c
  unfolding read_message
  read_message-Closes c incoming =
      let (after, read, closed, still) = read-ended S ls endian c.client incoming in
      record {
        after = after;
        connected = closed;
        result = rw (read, from_server_message-empty J l) refl;
      }

  -- Messages that arrive in their frames before the end of the stream are handled in their order: the
  -- running loop returns, with fuel for one round more than there are messages and for the last test,
  -- after it has told the handler each event but the numbers of sessions, and then that the connection
  -- is closed. The client keeps the last session number.
  pub read_loop-Delivered :
      (c : NetClient J S endian) (es : List ServerEvent) (ms : List Text) (fuel : ℕ)
      → AreSent J es ms
      → S.Incoming c.client.socket (frames sender ms)
      → c.running ≡ true
      → c.client.is_connected ≡ true
      → length es + 2 ≤ fuel
      → Delivered J S endian c es (read_loop J S endian fuel c)
  read_loop-Delivered c es ms zero sent incoming running connected enough = absurd (omega arith)
  read_loop-Delivered c es ms (suc zero) sent incoming running connected enough =
      absurd (omega arith)
  read_loop-Delivered c [] [] (suc (suc fuel)) no_events incoming running connected enough =
      let t = read_message-Closes c incoming in
      let next : NetClient J S endian = record c { client = t.after } in
      let off : next.running && next.client.is_connected ≡ false =
        both_false c.running t.after.is_connected t.connected in
      let calls = call c.handler on_disconnected in
      let last : NetClient J S endian = record next { read_thread = thread_ended } in
      let on : c.running && c.client.is_connected ≡ true =
        both_true c.running c.client.is_connected running connected in
      let round =
        read_loop-round c next last [] calls (suc fuel) on t.result (read_loop-end next fuel off) in
      record {
        last = last;
        returns = round;
        closed = t.connected;
        ended = refl;
        session = refl;
        kept = running;
        listens = refl;
      }
  read_loop-Delivered c (e ∷ es) (m ∷ ms) (suc (suc fuel)) (one_more h made short sent) incoming
        running connected enough =
      let t =
        read_message-Took c e m (frames sender ms) (message-event J l e m h made) short incoming in
      let next : NetClient J S endian = record c {
        client = t.after;
        session_id = session_of c.session_id (e ∷ []);
      } in
      let d =
        read_loop-Delivered next es ms (suc fuel) sent t.incoming running (t.connected ∙ connected)
          (omega arith) in
      let on : c.running && c.client.is_connected ≡ true =
        both_true c.running c.client.is_connected running connected in
      let calls = told c.handler (e ∷ []) in
      let round = read_loop-round c next d.last calls _ (suc fuel) on t.result d.returns in
      let end' = call c.handler on_disconnected in
      let joined : calls ++ (told c.handler es ++ end') ≡ told c.handler (e ∷ es) ++ end' =
        sym (append_assoc calls (told c.handler es) end')
        ∙ ap (λ (told' : List HandlerCall). told' ++ end') (told-cons c.handler e es) in
      record {
        last = d.last;
        returns = round ∙ ap (λ (calls' : List HandlerCall). some (d.last, calls')) joined;
        closed = d.closed;
        ended = d.ended;
        session = d.session ∙ session_of-cons c.session_id e es;
        kept = d.kept;
        listens = d.listens;
      }
  read_loop-Delivered c [] (m ∷ ms) (suc (suc fuel)) sent incoming running connected enough =
      elim sent [ ]
  read_loop-Delivered c (e ∷ es) [] (suc (suc fuel)) sent incoming running connected enough =
      elim sent [ ]
