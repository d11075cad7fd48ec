-- ===== src/Server/Loop.antt =====
-- The loop of src/net/network/server.cpp over the queue of events.
use go_game.Prelude.{true, Option, some, ◌>>=◌, List, [], ◌∷◌, ◌++◌}
use go_game.Server.{
  ServerQueueEvent, client_connected, client_message, client_disconnected, shutdown_server, Output,
  Server, Transport, process_event, ServerProcess, LoopState, loop_waits,
}

-- Events of clients, none of which is the end of the server.
abbrev pub OfClients : List ServerQueueEvent → Type 0
OfClients [] = Unit
OfClients (client_connected connection ∷ es) = OfClients es
OfClients (client_message connection payload ∷ es) = OfClients es
OfClients (client_disconnected connection ∷ es) = OfClients es
OfClients (shutdown_server ∷ es) = ⊥

module _ (t : Transport) where
  -- The events of a list, one after the other.
  abbrev pub process_all : Server → List ServerQueueEvent → Option (Server × List Output)
  process_all s [] = some (s, [])
  process_all s (e ∷ es) = process_event t s e >>= λ (s1, outputs).
      process_all s1 es >>= λ (s2, more). some (s2, outputs ++ more)

  -- The server that waits for the next event.
  abbrev waiting : Server → ServerProcess
  waiting s = record { server = s; event_queue = record { queue = []; block_threads = true } }

  abbrev serving : Server → List ServerQueueEvent → ServerProcess
  serving s es = record { server = s; event_queue = record { queue = es; block_threads = true } }

  abbrev waits_after :
      List Output → Option (Server × List Output) → Option (ServerProcess × List Output × LoopState)
  waits_after first r = r >>= λ (s, outputs). some (waiting s, first ++ outputs, loop_waits)
