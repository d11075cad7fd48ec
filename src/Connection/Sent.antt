-- ===== src/Connection/Sent.antt =====
-- What src/net/core/connection.cpp writes: the frames of the messages that it took, in their order.
use go_game.Prelude.{
  ◌≡◌, refl, sym, ◌∙◌, ap, Bool, true, false, not, ◌&&◌, Option, none, some, List, [], ◌∷◌, ◌++◌,
  arith, if-either, not-false, Bool-cases, inl, inr,
}
use mathlib.Core.List.{append_assoc, append-nil}
use mathlib.Core.Path.{subst}
use go_game.Net.{Text}
use go_game.Wire.{Endian, frame}
use go_game.TcpClient.Reads.{frames}
use go_game.Connection.{
  Connection, Callback, reads_nothing, start, do_disconnect, takes, send, is_empty, start_write,
  start_write_of, task, run_posted, run_task, pop_front, next_write, flight, write_done,
  header_done, payload_done,
}
use go_game.Connection.Reach.{
  Reaches, started, sends, runs, writes, reads_a_header, reads_a_payload, stops, taken,
}
use go_game.Connection.Writes.{
  Writes, rests, flies, over, Leaves, reading-Writes, stop-Writes, header_of_read-Writes,
  payload_of_read-Writes,
}

frames-append :
    (endian : Endian) (ms ns : List Text)
    → frames endian (ms ++ ns) ≡ frames endian ms ++ frames endian ns
frames-append endian [] ns = refl
frames-append endian (m ∷ ms) ns =
    ap (λ (t : Text). frame endian m ++ t) (frames-append endian ms ns)
    ∙ sym (append_assoc (frame endian m) (frames endian ms) (frames endian ns))

module _ (endian : Endian) where
  -- The frame of one more message at the end.
  frames-snoc :
      (written : Text) (waiting all : List Text) (message : Text)
      → written ++ frames endian waiting ≡ frames endian all
      → written ++ frames endian (waiting ++ message ∷ []) ≡ frames endian (all ++ message ∷ [])
  frames-snoc written waiting all message done =
      let last = frames endian (message ∷ []) in
      ap (λ (t : Text). written ++ t) (frames-append endian waiting (message ∷ []))
      ∙ sym (append_assoc written (frames endian waiting) last)
      ∙ ap (λ (t : Text). t ++ last) done
      ∙ sym (frames-append endian all (message ∷ []))

  posted-Writes :
      (c : Connection) (all : List Text) (message : Text)
      → c.running ≡ true
      → Writes endian c all
      → Writes endian (record c { posted = c.posted ++ message ∷ [] }) (all ++ message ∷ [])
  posted-Writes c all message running (rests on queue progress none' done) =
      rests on queue progress none' (frames-snoc c.written c.posted all message done)
  posted-Writes c all message running (flies m ms queue progress some' done) =
      flies m ms queue progress some' (
        ap (λ (waiting : List Text). c.written ++ (frame endian m ++ frames endian waiting))
          (sym (append_assoc ms c.posted (message ∷ [])))
        ∙ frames-snoc c.written (m ∷ (ms ++ c.posted)) all message done)
  posted-Writes c all message running (over rest off none' done) = absurd (cc (running, off))

  send-Writes :
      (c : Connection) (all : List Text) (message : Text)
      → Writes endian c all
      → Writes endian (send c message) (all ++ taken c message)
  unfolding send
  send-Writes c all message w = elim (Bool-cases (takes c message)) [
    | inl on ↦
        let running : c.running ≡ true = ground arith in
        rw on (posted-Writes c all message running w)
    | inr off ↦ rw off (subst (Writes endian c) (sym (append-nil all)) w)
  ]

  -- The first message of the queue is given to the socket.
  start_write-Writes :
      (c : Connection) (all : List Text) (m : Text) (ms : List Text)
      → c.running ≡ true
      → c.write_queue ≡ m ∷ ms
      → c.written ++ (frame endian m ++ frames endian (ms ++ c.posted)) ≡ frames endian all
      → Writes endian (start_write endian c) all
  unfolding start_write
  start_write-Writes c all m ms running queue done =
      if-either (λ c'. Writes endian c' all) c.running
        (λ on.
          subst (λ (q : List Text). Writes endian (start_write_of endian c q) all) (sym queue)
            (flies m ms queue refl refl done))
        (λ off. absurd (cc (running, off)))

  stays_over :
      (c : Connection) (all : List Text) (rest : Text)
      → c.running ≡ false
      → c.in_flight ≡ none
      → c.written ++ rest ≡ frames endian all
      → Writes endian (start_write endian c) all
  unfolding start_write
  stays_over c all rest off none' done =
      if-either (λ c'. Writes endian c' all) c.running (λ on. absurd (cc (on, off)))
        (λ off'. over rest off none' done)

  task-Writes :
      (c : Connection) (all : List Text) (m : Text) (ms : List Text)
      → c.posted ≡ m ∷ ms
      → Writes endian c all
      → Writes endian (task endian (record c { posted = ms }) m) all
  task-Writes c all m ms posted (rests on queue progress none' done) =
      if-either (λ c'. Writes endian c' all) (is_empty c.write_queue && not c.write_in_progress)
        (λ idle.
          start_write-Writes _ all m [] on (ap (λ (q : List Text). q ++ m ∷ []) queue)
            (ap (λ (waiting : List Text). c.written ++ frames endian waiting) (sym posted) ∙ done))
        (λ busy. absurd (cc (rw (queue, progress) at busy)))
  task-Writes c all m ms posted (flies first others queue progress some' done) =
      if-either (λ c'. Writes endian c' all) (is_empty c.write_queue && not c.write_in_progress)
        (λ idle. absurd (cc (rw queue at idle)))
        (λ busy.
          flies first (others ++ m ∷ []) (ap (λ (q : List Text). q ++ m ∷ []) queue) progress some'
            (ap
                (λ (waiting : List Text).
                  c.written ++ (frame endian first ++ frames endian waiting))
                (append_assoc others (m ∷ []) ms ∙ ap (λ (q : List Text). others ++ q) (sym posted))
              ∙ done))
  task-Writes c all m ms posted (over rest off none' done) =
      if-either (λ c'. Writes endian c' all) (is_empty c.write_queue && not c.write_in_progress)
        (λ idle.
          stays_over (record c { posted = ms; write_queue = c.write_queue ++ m ∷ [] }) all rest off
            none' done)
        (λ busy. over rest off none' done)

  run_task-Writes :
      (c : Connection) (all : List Text)
      → Writes endian c all
      → Writes endian (run_task endian c) all
  unfolding run_task
  run_task-Writes c all w = posted_tasks c.posted refl
    where
      posted_tasks : (ms : List Text) → c.posted ≡ ms → Writes endian (run_posted endian c ms) all
      posted_tasks [] e = w
      posted_tasks (m ∷ ms) e = task-Writes c all m ms e w

  next_write-Writes :
      (c : Connection) (all ms : List Text)
      → c.write_queue ≡ ms
      → c.running ≡ true
      → c.in_flight ≡ none
      → c.written ++ frames endian (ms ++ c.posted) ≡ frames endian all
      → Writes endian (next_write endian c) all
  next_write-Writes c all [] queue running none' done =
      if-either (λ c'. Writes endian c' all) (not (is_empty c.write_queue))
        (λ more. absurd (cc (rw queue at more))) (λ empty. rests running queue refl none' done)
  next_write-Writes c all (m ∷ ms) queue running none' done =
      if-either (λ c'. Writes endian c' all) (not (is_empty c.write_queue))
        (λ more. start_write-Writes c all m ms running queue done)
        (λ empty. absurd (cc (rw queue at empty)))

  lost-Writes :
      (c : Connection) (all : List Text) (rest : Text)
      → c.in_flight ≡ none
      → c.written ++ rest ≡ frames endian all
      → Leaves endian all (do_disconnect c)
  unfolding do_disconnect
  lost-Writes c all rest none' done =
      if-either (Leaves endian all) c.running (λ on. over rest refl none' done)
        (λ off. over rest off none' done)

  write_done-Writes :
      (c : Connection) (all : List Text) (bytes : Text) (ok : Bool)
      → c.in_flight ≡ some bytes
      → Writes endian c all
      → Leaves endian all (write_done endian c ok)
  unfolding write_done
  write_done-Writes c all bytes ok some' (rests on queue progress none' done) =
      absurd (cc (some', none'))
  write_done-Writes c all bytes ok some' (over rest off none' done) = absurd (cc (some', none'))
  write_done-Writes c all bytes false some' (flies m ms queue progress now done) =
      lost-Writes (record c { in_flight = none }) all _ refl done
  write_done-Writes c all bytes true some' (flies m ms queue progress now done) =
      let rest = frames endian (ms ++ c.posted) in
      let landed : (c.written ++ flight c.in_flight) ++ rest ≡ frames endian all =
        append_assoc c.written (flight c.in_flight) rest
        ∙ ap (λ (o : Option Text). c.written ++ (flight o ++ rest)) now
        ∙ done in
      if-either (Leaves endian all) (not c.running)
        (λ off.
          lost-Writes (record c { in_flight = none; written = c.written ++ flight c.in_flight }) all
            rest refl landed)
        (λ on. next_write-Writes _ all ms (ap pop_front queue) (not-false on) refl landed)

  Reaches-Writes :
      (c : Connection) (all : List Text) (calls : List Callback)
      → Reaches endian c all calls
      → Writes endian c all
  unfolding start header_done payload_done
  Reaches-Writes c all calls started = rests refl refl refl refl refl
  Reaches-Writes c all calls (sends message r) = send-Writes _ _ message (Reaches-Writes _ _ _ r)
  Reaches-Writes c all calls (runs r) = run_task-Writes _ all (Reaches-Writes _ _ _ r)
  Reaches-Writes c all calls (writes bytes ok some' r) =
      write_done-Writes _ all bytes ok some' (Reaches-Writes _ _ _ r)
  Reaches-Writes c all calls (reads_a_header {c = d} r reading reach) =
      header_of_read-Writes endian _ all r
        (reading-Writes endian d all reads_nothing (Reaches-Writes _ _ _ reach))
  Reaches-Writes c all calls (reads_a_payload {c = d} size r reading reach) =
      payload_of_read-Writes endian _ all r
        (reading-Writes endian d all reads_nothing (Reaches-Writes _ _ _ reach))
  Reaches-Writes c all calls (stops r) = stop-Writes endian _ all (Reaches-Writes _ _ _ r)

  -- In every reachable state the bytes that were written are the frames of the messages that `send`
  -- took, in their order, up to some point.
  pub written-InOrder :
      (c : Connection) (all : List Text) (calls : List Callback)
      → Reaches endian c all calls
      → (rest : Text) × (c.written ++ rest ≡ frames endian all)
  written-InOrder c all calls r = rest_of (Reaches-Writes c all calls r)
    where
      rest_of : Writes endian c all → (rest : Text) × (c.written ++ rest ≡ frames endian all)
      rest_of (rests on queue progress none' done) = (frames endian c.posted, done)
      rest_of (flies m ms queue progress some' done) =
          (frame endian m ++ frames endian (ms ++ c.posted), done)
      rest_of (over rest off none' done) = (rest, done)

  -- When a connection runs and neither a task nor a write is under way, no message is left behind.
  pub written-all :
      (c : Connection) (all : List Text) (calls : List Callback)
      → Reaches endian c all calls
      → c.running ≡ true
      → c.posted ≡ []
      → c.in_flight ≡ none
      → c.written ≡ frames endian all
  written-all c all calls r running posted idle = all_of (Reaches-Writes c all calls r)
    where
      all_of : Writes endian c all → c.written ≡ frames endian all
      all_of (rests on queue progress none' done) =
          sym (append-nil c.written)
          ∙ ap (λ (waiting : List Text). c.written ++ frames endian waiting) (sym posted)
          ∙ done
      all_of (flies m ms queue progress some' done) = absurd (cc (some', idle))
      all_of (over rest off none' done) = absurd (cc (running, off))
