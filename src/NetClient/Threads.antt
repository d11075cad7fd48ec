-- ===== src/NetClient/Threads.antt =====
-- The read thread of src/net/network/client.cpp: a thread is never put in the place of one that can be
-- joined, and when a loop runs after `connect`.
use go_game.Prelude.{
  ℕ, zero, suc, ◌≡◌, ◌≢◌, refl, sym, ◌∙◌, ap, Bool, true, false, ◌&&◌, Option, none, some, List,
  arith, if◌then◌else◌, Bool-cases, Option-cases, inl, inr, ◌+◌, ◌<◌, if-either,
}
use mathlib.Core.Path.{subst}
use mathlib.Core.Option.{some-injective}
use go_game.Net.{Text, ClientEvent}
use go_game.Json.{Json}
use go_game.Codec.{to_client_message}
use go_game.Wire.{Endian}
use go_game.Socket.{Socket}
use go_game.TcpClient
use go_game.TcpClient.{TcpClient}
use go_game.NetClient.{
  HandlerCall, ReadThread, no_thread, thread_looping, thread_ended, NetClient, new_client,
  register_handler, detached_round, start_read_loop, connected, connect, send, read_message,
  end_loop, read_loop, disconnect,
}
use go_game.NetClient.Stop.{
  running-read_message, last-go_on, running-read_loop, read_thread-disconnect, detached-disconnect,
}

if_true {ℓ} : {A : Type ℓ} {b : Bool} (x y : A) → b ≡ true → (if b then x else y) ≡ x
if_true x y e = rw e refl

if_false {ℓ} : {A : Type ℓ} {b : Bool} (x y : A) → b ≡ false → (if b then x else y) ≡ y
if_false x y e = rw e refl

module _ (J : Json) (S : Socket) (endian : Endian) where
  -- The states of a client, whatever is called on it, between the rounds of its loop and of the loops of
  -- detached threads.
  pub data Reaches : NetClient J S endian → Type 0 where
    created : (socket : S.Handle) → Reaches (new_client J S endian socket)
    registered :
        {c : NetClient J S endian} (handler : ℕ)
        → Reaches c
        → Reaches (register_handler J S endian c handler).1
    connects :
        {c c' : NetClient J S endian} {ok : Bool} (host : Text) (port : ℕ)
        → Reaches c
        → connect J S endian c host port ≡ some (ok, c')
        → Reaches c'
    sends :
        {c c' : NetClient J S endian} {ok : Bool} (e : ClientEvent)
        → Reaches c
        → send J S endian c e ≡ some (ok, c')
        → Reaches c'
    rounds :
        {c : NetClient J S endian}
        → Reaches c
        → c.read_thread ≡ thread_looping
        → c.running && c.client.is_connected ≡ true
        → Reaches (read_message J S endian c).0
    ends :
        {c : NetClient J S endian}
        → Reaches c
        → c.read_thread ≡ thread_looping
        → c.running && c.client.is_connected ≡ false
        → Reaches (end_loop J S endian c).0
    detached_rounds :
        {c : NetClient J S endian}
        → Reaches c
        → 0 < c.detached
        → Reaches (detached_round J S endian c).0
    disconnects : {c : NetClient J S endian} → Reaches c → Reaches (disconnect J S endian false c).0
    disconnects_itself :
        {c : NetClient J S endian}
        → Reaches c
        → c.read_thread ≡ thread_looping
        → Reaches (disconnect J S endian true c).0

  -- A thread that can be joined is there only while `m_running` is set.
  abbrev pub IsJoined : NetClient J S endian → Type 0
  IsJoined c = c.running ≡ false → c.read_thread ≡ no_thread

  -- The answer of a step that cannot fail.
  record Answers (r : Option (Bool × NetClient J S endian)) : Type 0 where
    ok : Bool
    next : NetClient J S endian
    result : r ≡ some (ok, next)
    joined : IsJoined next

  start_read_loop-running :
      (c : NetClient J S endian)
      → IsJoined c
      → (c' : NetClient J S endian) × (start_read_loop J S endian c ≡ some c') × (c'.running ≡ true)
  unfolding start_read_loop
  start_read_loop-running c joined = elim (Bool-cases c.running) [
    | inl on ↦ (c, rw on refl, on)
    | inr off ↦
        (record c { running = true; read_thread = thread_looping }, rw (off, joined off) refl, refl)
  ]

  connected-Answers :
      (ok : Bool) (c : NetClient J S endian) → IsJoined c → Answers (connected J S endian ok c)
  connected-Answers true c joined =
      let (c', started, on) = start_read_loop-running c joined in
      record {
        ok = true;
        next = c';
        result = rw (connected, started) refl;
        joined = λ off. absurd (cc (on, off));
      }
  connected-Answers false c joined = record { ok = false; next = c; result = refl; joined = joined }

  connect-Answers :
      (c : NetClient J S endian) (host : Text) (port : ℕ)
      → IsJoined c
      → Answers (connect J S endian c host port)
  unfolding connect
  connect-Answers c host port joined = elim (Bool-cases c.client.is_connected) [
    | inl on ↦ record { ok = false; next = c; result = if_true _ _ on; joined = joined }
    | inr off ↦
        let (ok, client) = TcpClient.connect S c.client host port in
        let a = connected-Answers ok (record c { client = client }) joined in
        record { ok = a.ok; next = a.next; result = if_false _ _ off ∙ a.result; joined = a.joined }
  ]

  register_handler-IsJoined :
      (c : NetClient J S endian) (handler : ℕ)
      → IsJoined c
      → IsJoined (register_handler J S endian c handler).1
  unfolding register_handler
  register_handler-IsJoined c handler joined =
      elim c.handler
        as (λ old. IsJoined (register_handler J S endian (record c { handler = old }) handler).1) [
          | none ↦ joined
          | some old ↦ joined
        ]

  connect-IsJoined :
      (c c' : NetClient J S endian) (ok : Bool) (host : Text) (port : ℕ)
      → IsJoined c
      → connect J S endian c host port ≡ some (ok, c')
      → IsJoined c'
  connect-IsJoined c c' ok host port joined e =
      let a = connect-Answers c host port joined in
      let same = some-injective _ _ (sym a.result ∙ e) in
      subst IsJoined (ap (λ (r : Bool × NetClient J S endian). r.1) same) a.joined

  send-IsJoined :
      (c c' : NetClient J S endian) (ok : Bool) (e : ClientEvent)
      → IsJoined c
      → send J S endian c e ≡ some (ok, c')
      → IsJoined c'
  unfolding send
  send-IsJoined c c' ok e joined made = elim (Option-cases (to_client_message J e)) [
    | inl missing ↦ absurd (cc (rw (send, missing) at made))
    | inr (m, found) ↦
        let same = some-injective _ _ (rw (send, found) at made) in
        subst IsJoined (ap (λ (r : Bool × NetClient J S endian). r.1) same) joined
  ]

  detached_round-IsJoined :
      (c : NetClient J S endian) → IsJoined c → IsJoined (detached_round J S endian c).0
  unfolding detached_round
  detached_round-IsJoined c joined =
      if-either (λ (r : NetClient J S endian × List HandlerCall). IsJoined r.0)
        (c.running && c.client.is_connected)
        (λ on off.
          let was_off : c.running ≡ false = sym (running-read_message J S endian c) ∙ off in
          let was_on : c.running ≡ true = ground arith in absurd (cc (was_on, was_off)))
        (λ off. joined)

  Reaches-IsJoined : (c : NetClient J S endian) → Reaches c → IsJoined c
  Reaches-IsJoined c (created socket) off = refl
  Reaches-IsJoined c (registered handler r) off =
      register_handler-IsJoined _ handler (Reaches-IsJoined _ r) off
  Reaches-IsJoined c (connects host port r e) off =
      connect-IsJoined _ c _ host port (Reaches-IsJoined _ r) e off
  Reaches-IsJoined c (sends e r made) off = send-IsJoined _ c _ e (Reaches-IsJoined _ r) made off
  Reaches-IsJoined c (rounds {c = d} r looping on) off =
      let was_off : d.running ≡ false = sym (running-read_message J S endian d) ∙ off in
      absurd (cc (looping, Reaches-IsJoined _ r was_off))
  Reaches-IsJoined c (ends r looping done') off = absurd (cc (looping, Reaches-IsJoined _ r off))
  Reaches-IsJoined c (detached_rounds {c = d} r some') off =
      detached_round-IsJoined d (Reaches-IsJoined d r) off
  Reaches-IsJoined c (disconnects r) off =
      read_thread-disconnect J S endian false _ (Reaches-IsJoined _ r)
  Reaches-IsJoined c (disconnects_itself r looping) off =
      read_thread-disconnect J S endian true _ (Reaches-IsJoined _ r)

  -- In each state that a client can reach, also between two rounds of its loop, `connect` starts no thread
  -- in the place of one that can be joined, which would end the program, and after `disconnect` there is no
  -- thread that can be joined. When another thread disconnects, no thread is left in the loop that was not
  -- detached before; when the read thread disconnects while the loop runs, it is left there, detached.
  pub threads-Safe :
      (c : NetClient J S endian) (host : Text) (port : ℕ) (own : Bool)
      → Reaches c
      → (connect J S endian c host port ≢ none)
        × ((disconnect J S endian own c).0.read_thread ≡ no_thread)
        × ((disconnect J S endian own c).0.detached
            ≡ c.detached + (if own && c.running then 1 else 0))
  threads-Safe c host port own r =
      let a = connect-Answers c host port (Reaches-IsJoined c r) in
      (
        λ e. cc (a.result, e),
        read_thread-disconnect J S endian own c (Reaches-IsJoined c r),
        detached-disconnect J S endian own c,
      )

  connect-ended :
      (c : NetClient J S endian) (host : Text) (port : ℕ) (socket : S.Handle)
      → c.running ≡ true
      → c.read_thread ≡ thread_ended
      → c.client.is_connected ≡ false
      → S.connect host port c.client.socket ≡ (true, socket)
      → connect J S endian c host port
        ≡ some (
          true,
          record c {
            client = record { socket = socket; is_connected = true };
            read_thread = thread_ended;
          },
        )
  unfolding connect TcpClient.connect start_read_loop
  connect-ended c host port socket running ended closed found =
      let open' : TcpClient S = record { socket = socket; is_connected = true } in
      let opened : TcpClient.connect S c.client host port ≡ (true, open') =
        if_false _ _ closed ∙ rw found refl in
      let on : start_read_loop J S endian (record c { client = open' })
          ≡ some (record c { client = open' }) =
        if_true _ _ running in
      if_false _ _ closed
      ∙ ap (λ (r : Bool × TcpClient S). connected J S endian r.0 (record c { client = r.1 })) opened
      ∙ rw (connected, on) refl
      ∙ ap (λ (t : ReadThread). some (true, record c { client = open'; read_thread = t })) ended

  read_loop-ends :
      (fuel : ℕ) (c c' : NetClient J S endian) (calls : List HandlerCall)
      → read_loop J S endian fuel c ≡ some (c', calls)
      → (c'.read_thread ≡ thread_ended) × (c'.running && c'.client.is_connected ≡ false)
  unfolding read_loop
  read_loop-ends zero c c' calls e = absurd (cc e)
  read_loop-ends (suc fuel) c c' calls e = elim (Bool-cases (c.running && c.client.is_connected)) [
    | inl on ↦
        let next = (read_message J S endian c).0 in
        let (more, rest) =
          last-go_on J S endian (read_loop J S endian fuel next) _ calls c' (rw on at e) in
        read_loop-ends fuel next c' more rest
    | inr off ↦
        let same : end_loop J S endian c ≡ (c', calls) = some-injective _ _ (rw off at e) in
        let last = ap (λ (r : NetClient J S endian × List HandlerCall). r.0) same in
        rw (← last) (refl, off)
  ]

  -- When the loop of a running client has returned, as it does when the server closes the connection,
  -- a `connect` that finds the server again answers `true` and is connected, but the thread has ended:
  -- no loop reads from the new connection.
  pub connect-no_loop :
      (c last : NetClient J S endian) (calls : List HandlerCall) (fuel port : ℕ) (host : Text)
      (socket : S.Handle)
      → c.running ≡ true
      → read_loop J S endian fuel c ≡ some (last, calls)
      → S.connect host port last.client.socket ≡ (true, socket)
      → connect J S endian last host port
        ≡ some (
          true,
          record last {
            client = record { socket = socket; is_connected = true };
            read_thread = thread_ended;
          },
        )
  connect-no_loop c last calls fuel port host socket running returns found =
      let on = running-read_loop J S endian fuel c last calls returns ∙ running in
      let (ended, off) = read_loop-ends fuel c last calls returns in
      let closed : last.client.is_connected ≡ false = ground arith in
      connect-ended last host port socket on ended closed found
