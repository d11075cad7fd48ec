-- ===== src/Connection.antt =====
-- src/net/core/connection.cpp: the server's end of a connection. The strand runs one handler at a time:
-- a task that `send` posted, or the end of an asynchronous read or write of the socket (asio). An
-- operation returns the state and the callbacks that it makes.
pub mod Reach
pub mod Writes
pub mod Sent
pub mod Callbacks
pub mod Tests
use package.go_game.Prelude.{
  ℕ, Bool, true, false, not, ◌&&◌, ◌||◌, ◌==◌, ltb, if◌then◌else◌, Option, none, some, List, [],
  ◌∷◌, ◌++◌, length,
}
use package.go_game.Net.{Text}
use package.go_game.Wire.{Endian, frame, payload_size, max_payload_bytes}

-- The calls of `Callbacks`.
pub data Callback : Type 0 where
  on_connect : Callback
  on_message : Text → Callback
  on_disconnect : Callback

-- The read that the socket works on, if there is one.
pub data Reading : Type 0 where
  reads_nothing reads_header : Reading
  reads_payload : ℕ → Reading

-- `posted` are the messages of the tasks that wait in the strand, `in_flight` is what the socket was
-- given to write, and `written` are the bytes of the writes that are done.
pub record Connection : Type 0 where
  pub running : Bool
  pub write_queue : List Text
  pub write_in_progress : Bool
  pub posted : List Text
  pub in_flight : Option Text
  pub written : Text
  pub reading : Reading

abbrev pub new_connection : Connection
new_connection = record {
  running = false;
  write_queue = [];
  write_in_progress = false;
  posted = [];
  in_flight = none;
  written = [];
  reading = reads_nothing;
}

unfoldable pub start : Connection → Connection × List Callback
start c =
    if c.running
    then (c, [])
    else (record c { running = true; reading = reads_header }, on_connect ∷ [])

unfoldable pub stop : Connection → Connection
stop c = if c.running then record c { running = false } else c

unfoldable pub do_disconnect : Connection → Connection × List Callback
do_disconnect c = if c.running then (record c { running = false }, on_disconnect ∷ []) else (c, [])

-- `send` takes the messages that it posts.
abbrev pub takes : Connection → Text → Bool
takes c message = c.running && not (ltb max_payload_bytes (length message))

unfoldable pub send : Connection → Text → Connection
send c message = if takes c message then record c { posted = c.posted ++ message ∷ [] } else c

abbrev pub is_empty : List Text → Bool
is_empty [] = true
is_empty (m ∷ ms) = false

abbrev pub start_write_of : Endian → Connection → List Text → Connection
start_write_of endian c [] = record c { write_in_progress = false }
start_write_of endian c (m ∷ ms) = record c {
  write_in_progress = true;
  in_flight = some (frame endian m);
}

unfoldable pub start_write : Endian → Connection → Connection
start_write endian c =
    if c.running
    then start_write_of endian c c.write_queue
    else record c { write_in_progress = false }

-- The first task of the strand.
abbrev pub task : Endian → Connection → Text → Connection
task endian c message =
    let queued : Connection = record c { write_queue = c.write_queue ++ message ∷ [] } in
    if is_empty c.write_queue && not c.write_in_progress then start_write endian queued else queued

abbrev pub run_posted : Endian → Connection → List Text → Connection
run_posted endian c [] = c
run_posted endian c (m ∷ ms) = task endian (record c { posted = ms }) m

unfoldable pub run_task : Endian → Connection → Connection
run_task endian c = run_posted endian c c.posted

abbrev pub pop_front : List Text → List Text
pop_front [] = []
pop_front (m ∷ ms) = ms

abbrev pub next_write : Endian → Connection → Connection
next_write endian c =
    if not (is_empty c.write_queue)
    then start_write endian c
    else record c { write_in_progress = false }

abbrev pub flight : Option Text → Text
flight none = []
flight (some bytes) = bytes

-- The end of a write.
unfoldable pub write_done : Endian → Connection → Bool → Connection × List Callback
write_done endian c ok =
    let landed : Connection = record c {
      in_flight = none;
      written = if ok then c.written ++ flight c.in_flight else c.written;
    } in
    if not ok || not c.running
    then do_disconnect landed
    else (next_write endian (record landed { write_queue = pop_front c.write_queue }), [])

-- The end of a read; `none` is an error code.
abbrev pub sized : Connection → ℕ → Connection × List Callback
sized c size =
    if ltb max_payload_bytes size
    then do_disconnect c
    else if size == 0
    then (record c { reading = reads_header }, on_message [] ∷ [])
    else (record c { reading = reads_payload size }, [])

abbrev pub header_of_read : Endian → Connection → Option Text → Connection × List Callback
header_of_read endian c none = do_disconnect c
header_of_read endian c (some header) =
    if not c.running then do_disconnect c else sized c (payload_size endian header)

unfoldable pub header_done : Endian → Connection → Option Text → Connection × List Callback
header_done endian c r = header_of_read endian (record c { reading = reads_nothing }) r

abbrev pub payload_of_read : Connection → Option Text → Connection × List Callback
payload_of_read c none = do_disconnect c
payload_of_read c (some payload) =
    if not c.running
    then do_disconnect c
    else (record c { reading = reads_header }, on_message payload ∷ [])

unfoldable pub payload_done : Connection → Option Text → Connection × List Callback
payload_done c r = payload_of_read (record c { reading = reads_nothing }) r
