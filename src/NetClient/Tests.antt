-- ===== src/NetClient/Tests.antt =====
-- A server that sends two events, and the client that reads them: what the theorems on
-- src/net/network/client.cpp, src/net/core/connection.cpp and src/net/core/tcpClient.cpp say of them.
use go_game.Prelude.{
  ◌≡◌, ◌≢◌, ◌≤◌, refl, arith, true, false, none, some, List, [], ◌∷◌, length, ◌+◌, ◌&&◌,
  if◌then◌else◌,
}
use go_game.Net.{Text, ServerEvent, server_session_assign, server_chat}
use go_game.Model.{black}
use go_game.Json.Packed.{packed, packed-IsLawful}
use go_game.Codec.{codes, to_server_message, from_server_message, server_value, type_member}
use go_game.Wire.{big, little, byteswap_u32, max_payload_bytes}
use go_game.Socket.Stream.{bytes, bytes-IsStream}
use go_game.TcpClient.{TcpClient}
use go_game.TcpClient
use go_game.TcpClient.Reads.{length-read}
use go_game.Connection.{Connection, new_connection, start, send, run_task, write_done, start_write}
use go_game.Connection.Reach.{Reaches, started, sends, runs, writes}
use go_game.Connection.Callbacks.{Protocol, Reaches-Protocol}
use go_game.NetClient.{
  NetClient, no_thread, thread_looping, thread_ended, connect, start_read_loop, read_loop,
  read_message, disconnect,
}
use go_game.NetClient.Stream.{AreSent, no_events, one_more, Delivered}
use go_game.NetClient.Delivery.{connection-Delivered}
use go_game.NetClient.Threads.{
  Reaches as ClientReaches, created, connects, rounds, threads-Safe, connect-no_loop,
}

abbrev events : List ServerEvent
events =
    server_session_assign 7
    ∷ server_chat (record { player = black; message_id = 1; message = 104 ∷ 105 ∷ [] })
    ∷ []

abbrev session_text : Text
session_text =
    9
    ∷ packed.object
        (type_member packed "session" ∷ (codes "sessionId", packed.from_unsigned 7) ∷ [])

abbrev chat_text : Text
chat_text =
    9
    ∷ packed.object (
        type_member packed "chat"
        ∷ (codes "player", packed.from_unsigned 1)
        ∷ (codes "messageId", packed.from_unsigned 1)
        ∷ (codes "message", packed.from_string (104 ∷ 105 ∷ []))
        ∷ [])

events-AreSent : AreSent packed events (session_text ∷ chat_text ∷ [])
unfolding to_server_message server_value
events-AreSent =
    one_more (omega arith) refl (omega arith)
      (one_more (omega arith, tt) refl (omega arith) no_events)

-- The connection of a machine of little byte order: both messages are posted before the first task runs.
unfoldable both_posted : Connection
both_posted = send (send (start new_connection).0 session_text) chat_text

unfoldable both_written : Connection
both_written =
    (write_done little (write_done little (run_task little (run_task little both_posted)) true).0
      true).0

both_written-Reaches :
    Reaches little both_written (session_text ∷ chat_text ∷ []) (start new_connection).1
unfolding both_written both_posted start send run_task write_done start_write byteswap_u32
both_written-Reaches =
    writes _ true refl
      (writes _ true refl (runs (runs (sends chat_text (sends session_text started)))))

Protocol_example : Protocol both_written.running (start new_connection).1
Protocol_example = Reaches-Protocol little both_written _ _ both_written-Reaches

-- A client of big byte order, whose loop runs.
abbrev reader : NetClient packed bytes big
reader = record {
  client = record { socket = both_written.written; is_connected = true };
  running = true;
  read_thread = thread_looping;
  detached = 0;
  handler = some 1;
  session_id = 0;
}

connection_example : Delivered packed bytes big reader events (read_loop packed bytes big 4 reader)
unfolding both_written both_posted start send run_task write_done start_write
connection_example =
    connection-Delivered packed packed-IsLawful bytes bytes-IsStream little big both_written _
      reader events _ 4 both_written-Reaches refl refl refl events-AreSent refl refl refl
      (omega arith)

length-read_example : length (TcpClient.read bytes big reader.client).0 ≤ max_payload_bytes
length-read_example = length-read bytes bytes-IsStream big reader.client

-- A client that connected to a server that sends nothing.
abbrev connected_client : NetClient packed bytes big
connected_client = record {
  client = record { socket = []; is_connected = true };
  running = true;
  read_thread = thread_looping;
  detached = 0;
  handler = none;
  session_id = 0;
}

connected_client-Reaches : ClientReaches packed bytes big connected_client
unfolding connect TcpClient.connect start_read_loop
connected_client-Reaches = connects {ok = true} [] 0 (created []) refl

unfoldable after_round : NetClient packed bytes big
after_round = (read_message packed bytes big connected_client).0

after_round-Reaches : ClientReaches packed bytes big after_round
unfolding after_round
after_round-Reaches = rounds connected_client-Reaches refl refl

-- The client reads a round, and then its read thread disconnects it.
threads_example :
    (connect packed bytes big after_round [] 0 ≢ none)
    × ((disconnect packed bytes big true after_round).0.read_thread ≡ no_thread)
    × ((disconnect packed bytes big true after_round).0.detached
        ≡ after_round.detached + (if true && after_round.running then 1 else 0))
threads_example = threads-Safe packed bytes big after_round [] 0 true after_round-Reaches

-- The client when its loop has ended.
abbrev left_client : NetClient packed bytes big
left_client = record connected_client {
  client = record { socket = []; is_connected = false };
  read_thread = thread_ended;
}

left_client_lem : read_loop packed bytes big 2 connected_client ≡ some (left_client, [])
unfolding read_loop read_message from_server_message TcpClient.read TcpClient.read_header
left_client_lem = refl

no_loop_example :
    connect packed bytes big left_client [] 0
    ≡ some (
      true,
      record left_client {
        client = record { socket = []; is_connected = true };
        read_thread = thread_ended;
      },
    )
no_loop_example =
    connect-no_loop packed bytes big connected_client left_client [] 2 0 [] [] refl left_client_lem
      refl
