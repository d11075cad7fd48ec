-- ===== src/Connection/Reach.antt =====
-- The states that a connection of src/net/core/connection.cpp can reach.
use go_game.Prelude.{ℕ, ◌≡◌, Bool, if◌then◌else◌, Option, some, List, [], ◌∷◌, ◌++◌}
use go_game.Net.{Text}
use go_game.Wire.{Endian}
use go_game.Connection.{
  Connection, Callback, reads_header, reads_payload, new_connection, start, stop, takes, send,
  run_task, write_done, header_done, payload_done,
}

-- The messages that a call of `send` adds.
abbrev pub taken : Connection → Text → List Text
taken c message = if takes c message then message ∷ [] else []

-- The states of a connection after it has taken messages, with the callbacks that it made: whatever the
-- order in which the strand runs its tasks and the socket ends its reads and writes.
pub data Reaches (endian : Endian) : Connection → List Text → List Callback → Type 0 where
  started : Reaches endian (start new_connection).0 [] (start new_connection).1
  sends :
      {c : Connection} {all : List Text} {calls : List Callback} (message : Text)
      → Reaches endian c all calls
      → Reaches endian (send c message) (all ++ taken c message) calls
  runs :
      {c : Connection} {all : List Text} {calls : List Callback}
      → Reaches endian c all calls
      → Reaches endian (run_task endian c) all calls
  writes :
      {c : Connection} {all : List Text} {calls : List Callback} (bytes : Text) (ok : Bool)
      → c.in_flight ≡ some bytes
      → Reaches endian c all calls
      → Reaches endian (write_done endian c ok).0 all (calls ++ (write_done endian c ok).1)
  reads_a_header :
      {c : Connection} {all : List Text} {calls : List Callback} (r : Option Text)
      → c.reading ≡ reads_header
      → Reaches endian c all calls
      → Reaches endian (header_done endian c r).0 all (calls ++ (header_done endian c r).1)
  reads_a_payload :
      {c : Connection} {all : List Text} {calls : List Callback} (size : ℕ) (r : Option Text)
      → c.reading ≡ reads_payload size
      → Reaches endian c all calls
      → Reaches endian (payload_done c r).0 all (calls ++ (payload_done c r).1)
  stops :
      {c : Connection} {all : List Text} {calls : List Callback}
      → Reaches endian c all calls
      → Reaches endian (stop c) all calls
