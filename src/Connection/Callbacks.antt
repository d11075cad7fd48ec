-- ===== src/Connection/Callbacks.antt =====
-- The order of the callbacks of src/net/core/connection.cpp, on which the server relies.
use go_game.Prelude.{
  ℕ, ◌≡◌, refl, sym, ◌∙◌, ap, Bool, true, false, not, ◌&&◌, ◌||◌, ◌==◌, ltb, if-either, Option,
  none, some, List, [], ◌∷◌, ◌++◌, map, not-false,
}
use mathlib.Core.List.{append-nil}
use mathlib.Core.Path.{subst}
use go_game.Net.{Text}
use go_game.Wire.{Endian, payload_size, max_payload_bytes}
use go_game.Connection.{
  Connection, Callback, on_connect, on_message, on_disconnect, reads_nothing, start, stop,
  do_disconnect, takes, send, is_empty, start_write, start_write_of, task, run_posted, run_task,
  next_write, write_done, sized, header_of_read, header_done, payload_of_read, payload_done,
}
use go_game.Connection.Reach.{
  Reaches, started, sends, runs, writes, reads_a_header, reads_a_payload, stops,
}

-- The callbacks of a connection that runs, or that is over: `on_connect`, a message at a time, and at
-- most one `on_disconnect`, after which there is no other.
pub data Protocol (running : Bool) (calls : List Callback) : Type 0 where
  talks :
      (ms : List Text)
      → running ≡ true
      → calls ≡ on_connect ∷ map on_message ms
      → Protocol running calls
  stopped :
      (ms : List Text)
      → running ≡ false
      → calls ≡ on_connect ∷ map on_message ms
      → Protocol running calls
  lost :
      (ms : List Text)
      → running ≡ false
      → calls ≡ on_connect ∷ (map on_message ms ++ on_disconnect ∷ [])
      → Protocol running calls

-- What an operation may tell.
pub data Tells (running : Bool) (r : Connection × List Callback) : Type 0 where
  nothing : r.0.running ≡ running → r.1 ≡ [] → Tells running r
  heard :
      (m : Text) → running ≡ true → r.0.running ≡ true → r.1 ≡ on_message m ∷ [] → Tells running r
  breaks : running ≡ true → r.0.running ≡ false → r.1 ≡ on_disconnect ∷ [] → Tells running r

map-snoc :
    (ms : List Text) (m : Text)
    → map on_message ms ++ on_message m ∷ [] ≡ map on_message (ms ++ m ∷ [])
map-snoc [] m = refl
map-snoc (n ∷ ms) m = ap (λ (cs : List Callback). on_message n ∷ cs) (map-snoc ms m)

Tells-Protocol :
    (running : Bool) (calls : List Callback) (r : Connection × List Callback)
    → Protocol running calls
    → Tells running r
    → Protocol r.0.running (calls ++ r.1)
Tells-Protocol running calls r p (nothing same none') =
    subst (λ (b : Bool). Protocol b (calls ++ r.1)) (sym same)
      (subst (Protocol running)
        (sym (ap (λ (cs : List Callback). calls ++ cs) none' ∙ append-nil calls)) p)
Tells-Protocol running calls r (talks ms on shape) (heard m was still says) =
    talks (ms ++ m ∷ []) still
      (rw (shape, says) (ap (λ (cs : List Callback). on_connect ∷ cs) (map-snoc ms m)))
Tells-Protocol running calls r (talks ms on shape) (breaks was off says) =
    lost ms off (rw (shape, says) refl)
Tells-Protocol running calls r (stopped ms off shape) (heard m was still says) =
    absurd (cc (off, was))
Tells-Protocol running calls r (stopped ms off shape) (breaks was gone says) =
    absurd (cc (off, was))
Tells-Protocol running calls r (lost ms off shape) (heard m was still says) = absurd (cc (off, was))
Tells-Protocol running calls r (lost ms off shape) (breaks was gone says) = absurd (cc (off, was))

do_disconnect-Tells : (c : Connection) → Tells c.running (do_disconnect c)
unfolding do_disconnect
do_disconnect-Tells c =
    if-either (Tells c.running) c.running (λ on. breaks on refl refl) (λ off. nothing refl refl)

sized-Tells : (c : Connection) (size : ℕ) → c.running ≡ true → Tells c.running (sized c size)
sized-Tells c size on =
    if-either (Tells c.running) (ltb max_payload_bytes size) (λ large. do_disconnect-Tells c)
      (λ small.
        if-either (Tells c.running) (size == 0) (λ empty. heard [] on on refl)
          (λ more. nothing refl refl))

pub header_of_read-Tells :
    (endian : Endian) (c : Connection) (r : Option Text)
    → Tells c.running (header_of_read endian c r)
header_of_read-Tells endian c none = do_disconnect-Tells c
header_of_read-Tells endian c (some header) =
    if-either (Tells c.running) (not c.running) (λ off. do_disconnect-Tells c)
      (λ on. sized-Tells c (payload_size endian header) (not-false on))

pub payload_of_read-Tells :
    (c : Connection) (r : Option Text) → Tells c.running (payload_of_read c r)
payload_of_read-Tells c none = do_disconnect-Tells c
payload_of_read-Tells c (some payload) =
    if-either (Tells c.running) (not c.running) (λ off. do_disconnect-Tells c)
      (λ on. let still = not-false on in heard payload still still refl)

running-start_write :
    (endian : Endian) (c : Connection) → (start_write endian c).running ≡ c.running
unfolding start_write
running-start_write endian c =
    if-either (λ (c' : Connection). c'.running ≡ c.running) c.running (λ on. of_queue c.write_queue)
      (λ off. refl)
  where
    of_queue : (q : List Text) → (start_write_of endian c q).running ≡ c.running
    of_queue [] = refl
    of_queue (m ∷ ms) = refl

running-next_write : (endian : Endian) (c : Connection) → (next_write endian c).running ≡ c.running
running-next_write endian c =
    if-either (λ (c' : Connection). c'.running ≡ c.running) (not (is_empty c.write_queue))
      (λ more. running-start_write endian c) (λ empty. refl)

pub write_done-Tells :
    (endian : Endian) (c : Connection) (ok : Bool) → Tells c.running (write_done endian c ok)
unfolding write_done
write_done-Tells endian c ok =
    if-either (Tells c.running) (not ok || not c.running) (λ stop'. do_disconnect-Tells _)
      (λ go. nothing (running-next_write endian _) refl)

running-task : (endian : Endian) (c : Connection) (m : Text) → (task endian c m).running ≡ c.running
running-task endian c m =
    if-either (λ (c' : Connection). c'.running ≡ c.running)
      (is_empty c.write_queue && not c.write_in_progress) (λ idle. running-start_write endian _)
      (λ busy. refl)

pub running-run_task : (endian : Endian) (c : Connection) → (run_task endian c).running ≡ c.running
unfolding run_task
running-run_task endian c = of_posted c.posted
  where
    of_posted : (ms : List Text) → (run_posted endian c ms).running ≡ c.running
    of_posted [] = refl
    of_posted (m ∷ ms) = running-task endian (record c { posted = ms }) m

pub running-send : (c : Connection) (m : Text) → (send c m).running ≡ c.running
unfolding send
running-send c m =
    if-either (λ (c' : Connection). c'.running ≡ c.running) (takes c m) (λ on. refl) (λ off. refl)

stop-Protocol :
    (c : Connection) (calls : List Callback)
    → Protocol c.running calls
    → Protocol (stop c).running calls
unfolding stop
stop-Protocol c calls p =
    if-either (λ (c' : Connection). Protocol c'.running calls) c.running (λ on. silenced on p)
      (λ off. p)
  where
    silenced : c.running ≡ true → Protocol c.running calls → Protocol false calls
    silenced on (talks ms on' shape) = stopped ms refl shape
    silenced on (stopped ms off shape) = absurd (cc (on, off))
    silenced on (lost ms off shape) = absurd (cc (on, off))

-- The callbacks of a connection are `on_connect`, then one for each message that was read, then at most
-- one `on_disconnect`; while the connection runs there was no `on_disconnect`.
pub Reaches-Protocol :
    (endian : Endian) (c : Connection) (all : List Text) (calls : List Callback)
    → Reaches endian c all calls
    → Protocol c.running calls
unfolding start header_done payload_done
Reaches-Protocol endian c all calls started = talks [] refl refl
Reaches-Protocol endian c all calls (sends {c = d} m r) =
    subst (λ (b : Bool). Protocol b calls) (sym (running-send d m))
      (Reaches-Protocol endian _ _ _ r)
Reaches-Protocol endian c all calls (runs {c = d} r) =
    subst (λ (b : Bool). Protocol b calls) (sym (running-run_task endian d))
      (Reaches-Protocol endian _ _ _ r)
Reaches-Protocol endian c all calls (writes {c = d} bytes ok some' r) =
    Tells-Protocol _ _ _ (Reaches-Protocol endian _ _ _ r) (write_done-Tells endian d ok)
Reaches-Protocol endian c all calls (reads_a_header {c = d} r reading reach) =
    Tells-Protocol _ _ _ (Reaches-Protocol endian _ _ _ reach)
      (header_of_read-Tells endian (record d { reading = reads_nothing }) r)
Reaches-Protocol endian c all calls (reads_a_payload {c = d} size r reading reach) =
    Tells-Protocol _ _ _ (Reaches-Protocol endian _ _ _ reach)
      (payload_of_read-Tells (record d { reading = reads_nothing }) r)
Reaches-Protocol endian c all calls (stops {c = d} r) =
    stop-Protocol d calls (Reaches-Protocol endian _ _ _ r)
