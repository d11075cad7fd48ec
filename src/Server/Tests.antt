-- ===== src/Server/Tests.antt =====
-- The first connection of a server, and its loop.
use go_game.Prelude.{ℕ, ◌≢◌, true, none, List, [], ◌∷◌, arith}
use go_game.Server.{
  Server, Transport, process_client_connect, ServerQueueEvent, client_message, client_disconnected,
}
use go_game.SafeQueue.{SafeQueue}
use go_game.Server.Seats.{IsSeated, Connected, process_client_connect-Connected}
use go_game.Sessions.Tests.{nobody, nobody-IsLinked}

-- A transport that knows no message.
abbrev silent : Transport
silent = record {
  to_message = λ event. none;
  from_client_message = λ text. none;
  sent = λ connection text. true;
}

abbrev server : Server
server = record { is_running = true; session_manager = nobody; has_handler = true }

nobody-IsSeated : IsSeated nobody
nobody-IsSeated = record { linked = nobody-IsLinked; connected = tt; single = λ x p. omega arith }

abbrev seventy : ℕ
seventy = 70

seventy-ne-zero : seventy ≢ 0
seventy-ne-zero e = omega (arith, e)

process_client_connect-Connected_example : Connected (process_client_connect silent server seventy)
process_client_connect-Connected_example =
    process_client_connect-Connected silent server seventy nobody-IsSeated seventy-ne-zero
      (omega arith)

abbrev queued : List ServerQueueEvent
queued = client_message 5 (120 ∷ []) ∷ client_disconnected 5 ∷ []

abbrev queue_of : List ServerQueueEvent → SafeQueue ServerQueueEvent
queue_of es = record { queue = es; block_threads = true }
