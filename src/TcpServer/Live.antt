-- ===== src/TcpServer/Live.antt =====
-- The connections that src/net/core/tcpServer.cpp holds run, or their callback is still to come.
use go_game.Prelude.{
  ℕ, ◌≤◌, ◌≡◌, refl, ◌∙◌, ap, ◌⊎◌, ◌∈◌, Bool, true, false, not, ◌==◌, if-either, some, List, [],
  ◌∷◌, ◌++◌, length, ltb, arith, Option-cases, Bool-cases, inl, inr,
}
use go_game.Net.{Text}
use go_game.Wire.{Endian, max_payload_bytes}
use go_game.Connection
use go_game.Connection.{
  Connection, Callback, on_connect, on_message, on_disconnect, new_connection, reads_nothing, takes,
  header_done, payload_done,
}
use go_game.Connection.Callbacks.{
  Tells, nothing, heard, breaks, write_done-Tells, header_of_read-Tells, payload_of_read-Tells,
  running-run_task, running-send,
}
use go_game.TcpServer.{
  TcpServer, NetCall, new_tcp_server, connection_at, on_disconnected, start, stop, send, reject,
  after_step, create_connection, accept_socket, accepted, Handler, write_handler, header_handler,
  payload_handler, task_handler, handler_result, run_handler,
}
use go_game.TcpServer.Held.{
  IsHeld, AllLive, AllLive-cons, with_connection-AllLive, without_connection-AllLive,
  closed-AllLive, connection_at-IsHeld, connection_at-with_connection,
}

-- The server with its connections as they must be.
abbrev IsLive : TcpServer → Type 0
IsLive s = AllLive s.closing s.connections

-- A step of a connection that is held.
after_step-IsLive :
    (s : TcpServer) (id : ℕ) (running : Bool) (r : Connection × List Callback)
    → IsLive s
    → (running ≡ true) ⊎ (id ∈ s.closing)
    → Tells running r
    → IsLive (after_step s id r).0
after_step-IsLive s id running (c, calls) h held (nothing same none') =
    let held' : IsHeld s.closing id c = elim held [
      | inl on ↦ inl (same ∙ on)
      | inr waits ↦ inr waits
    ] in
    rw none' (with_connection-AllLive s.closing id c s.connections held' h)
after_step-IsLive s id running (c, calls) h held (heard m was still says) =
    rw says (with_connection-AllLive s.closing id c s.connections (inl still) h)
after_step-IsLive s id running (c, calls) h held (breaks was off says) = rw says (
    with_connection-AllLive (id ∷ s.closing) id c s.connections (inr (inl refl))
      (AllLive-cons id s.closing s.connections h))

accept_socket-IsLive : (s : TcpServer) → IsLive s → IsLive (accept_socket s).0
unfolding create_connection Connection.start
accept_socket-IsLive s h = elim (Option-cases (connection_at s.connection_id s.connections)) [
  | inl free ↦
      let same : (s.connection_id == s.connection_id) ≡ true = ground arith in
      let started : Connection = (Connection.start new_connection).0 in
      rw (create_connection, free, same)
        (
          inl refl,
          with_connection-AllLive s.closing s.connection_id started s.connections (inl refl) h,
        )
  | inr (c, held) ↦ rw (create_connection, held) h
]

accepted-IsLive : (s : TcpServer) (ok : Bool) → IsLive s → IsLive (accepted s ok).0
unfolding accepted
accepted-IsLive s ok h =
    let Live = λ (r : TcpServer × List NetCall). IsLive r.0 in
    if-either Live (not s.running) (λ off. h)
      (λ on. if-either Live ok (λ ok'. accept_socket-IsLive s h) (λ failed. h))

handler_result-Tells :
    (endian : Endian) (h : Handler) (c : Connection) → Tells c.running (handler_result endian h c)
unfolding header_done payload_done
handler_result-Tells endian (write_handler ok) c = write_done-Tells endian c ok
handler_result-Tells endian (header_handler r) c =
    header_of_read-Tells endian (record c { reading = reads_nothing }) r
handler_result-Tells endian (payload_handler r) c =
    payload_of_read-Tells (record c { reading = reads_nothing }) r
handler_result-Tells endian task_handler c = nothing (running-run_task endian c) refl

run_handler-IsLive :
    (endian : Endian) (s : TcpServer) (id : ℕ) (h : Handler)
    → IsLive s
    → IsLive (run_handler endian s id h).0
unfolding run_handler
run_handler-IsLive endian s id h live = elim (Option-cases (connection_at id s.connections)) [
  | inl gone ↦ rw (run_handler, gone) live
  | inr (c, held) ↦
      rw (run_handler, held)
        (after_step-IsLive s id c.running (handler_result endian h c) live
          (connection_at-IsHeld s.closing id s.connections c live held)
          (handler_result-Tells endian h c))
]

reject-IsLive : (s : TcpServer) (id : ℕ) → IsLive s → IsLive (reject s id)
unfolding reject
reject-IsLive s id live = elim (Option-cases (connection_at id s.connections)) [
  | inl gone ↦ rw (reject, gone) live
  | inr (c, held) ↦ rw (reject, held) (without_connection-AllLive s.closing id s.connections live)
]

send-IsLive : (s : TcpServer) (id : ℕ) (message : Text) → IsLive s → IsLive (send s id message).1
unfolding send
send-IsLive s id message live = elim (Option-cases (connection_at id s.connections)) [
  | inl gone ↦ rw (send, gone) live
  | inr (c, held) ↦
      let held' : IsHeld s.closing id (Connection.send c message) =
        elim (connection_at-IsHeld s.closing id s.connections c live held) [
          | inl on ↦ inl (running-send c message ∙ on)
          | inr waits ↦ inr waits
        ] in
      rw (send, held)
        (with_connection-AllLive s.closing id (Connection.send c message) s.connections held' live)
]

-- The states of the server, in any order of its operations and of the handlers.
pub data Reaches (endian : Endian) : TcpServer → Type 0 where
  created : (ready : Bool) (next_id : ℕ) → Reaches endian (new_tcp_server ready next_id)
  starts : {s : TcpServer} → Reaches endian s → Reaches endian (start s)
  stops : {s : TcpServer} → Reaches endian s → Reaches endian (stop s)
  sends :
      {s : TcpServer} (id : ℕ) (message : Text)
      → Reaches endian s
      → Reaches endian (send s id message).1
  rejects : {s : TcpServer} (id : ℕ) → Reaches endian s → Reaches endian (reject s id)
  accepts :
      {s : TcpServer} (ok : Bool)
      → s.accepting ≡ true
      → Reaches endian s
      → Reaches endian (accepted s ok).0
  handles :
      {s : TcpServer} (id : ℕ) (h : Handler)
      → Reaches endian s
      → Reaches endian (run_handler endian s id h).0
  disconnects :
      {s : TcpServer} (id : ℕ)
      → id ∈ s.closing
      → Reaches endian s
      → Reaches endian (on_disconnected s id).0

Reaches-IsLive : (endian : Endian) (s : TcpServer) → Reaches endian s → IsLive s
unfolding start stop on_disconnected
Reaches-IsLive endian s (created ready next_id) = tt
Reaches-IsLive endian s (starts {s = before} r) =
    let h = Reaches-IsLive endian before r in
    let Live = λ (s' : TcpServer). IsLive s' in
    if-either Live before.running (λ on. h)
      (λ off. if-either Live (not before.acceptor_ready) (λ failed. h) (λ ready. h))
Reaches-IsLive endian s (stops {s = before} r) =
    if-either (λ (s' : TcpServer). IsLive s') (not before.running)
      (λ off. Reaches-IsLive endian before r) (λ on. tt)
Reaches-IsLive endian s (sends {s = before} id message r) =
    send-IsLive before id message (Reaches-IsLive endian before r)
Reaches-IsLive endian s (rejects {s = before} id r) =
    reject-IsLive before id (Reaches-IsLive endian before r)
Reaches-IsLive endian s (accepts {s = before} ok accepting r) =
    accepted-IsLive before ok (Reaches-IsLive endian before r)
Reaches-IsLive endian s (handles {s = before} id h r) =
    run_handler-IsLive endian before id h (Reaches-IsLive endian before r)
Reaches-IsLive endian s (disconnects {s = before} id due r) =
    closed-AllLive before.closing id before.connections (Reaches-IsLive endian before r)

taken-send :
    (c : Connection) (message : Text)
    → c.running ≡ true
    → length message ≤ max_payload_bytes
    → Connection.send c message ≡ record c { posted = c.posted ++ message ∷ [] }
unfolding Connection.send
taken-send c message on short =
    let fits : ltb max_payload_bytes (length message) ≡ false = ground arith in
    let take : takes c message ≡ true = ground arith in
    let waiting : Connection = record c { posted = c.posted ++ message ∷ [] } in
    if-either (λ (d : Connection). d ≡ waiting) (takes c message) (λ yes'. refl)
      (λ refused. absurd (cc (take, refused)))

dropped-send : (c : Connection) (message : Text) → c.running ≡ false → Connection.send c message ≡ c
unfolding Connection.send
dropped-send c message off =
    let refuse : takes c message ≡ false = ground arith in
    if-either (λ (d : Connection). d ≡ c) (takes c message) (λ took. absurd (cc (took, refuse)))
      (λ refused. refl)

-- Whenever the server holds a connection, `send` of a message of at most 4096 bytes to its number answers
-- `true`. If the connection runs, the message waits behind those that were sent before. If it does not,
-- it has stopped and its callback is still to let it go; then the connection is as it was, so that the
-- message is dropped although the answer is `true`.
pub send-Takes :
    (endian : Endian) (s : TcpServer) (id : ℕ) (c : Connection) (message : Text)
    → Reaches endian s
    → connection_at id s.connections ≡ some c
    → length message ≤ max_payload_bytes
    → ((send s id message).0 ≡ true)
      × (((c.running ≡ true)
            × (connection_at id (send s id message).1.connections
                ≡ some (record c { posted = c.posted ++ message ∷ [] })))
          ⊎ ((c.running ≡ false)
              × (id ∈ s.closing)
              × (connection_at id (send s id message).1.connections ≡ some c)))
unfolding send Connection.send
send-Takes endian s id c message r held short =
    let sent = connection_at-with_connection id (Connection.send c message) s.connections c held in
    (
      rw (send, held) refl,
      elim (Bool-cases c.running) [
        | inl on ↦ inl (on, rw (send, held) (sent ∙ ap some (taken-send c message on short)))
        | inr off ↦
            elim (connection_at-IsHeld s.closing id s.connections c (Reaches-IsLive endian s r)
              held) [
                | inl on ↦ absurd (cc (on, off))
                | inr due ↦
                    inr (off, due, rw (send, held) (sent ∙ ap some (dropped-send c message off)))
              ]
      ],
    )
