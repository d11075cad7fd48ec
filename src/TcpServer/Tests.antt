-- ===== src/TcpServer/Tests.antt =====
-- A server that accepts two connections and loses one, and what the theorem on
-- src/net/core/tcpServer.cpp says of it.
use go_game.Prelude.{◌≡◌, refl, true, false, some, none, [], ◌∷◌, arith, ◌⊎◌, ◌∈◌}
use go_game.Wire.{little}
use go_game.Connection
use go_game.Connection.{Connection, new_connection, reads_nothing, header_done, do_disconnect}
use go_game.TcpServer.{
  TcpServer, new_tcp_server, connection_at, start, send, create_connection, accepted,
  header_handler, run_handler,
}
use go_game.TcpServer.Live.{Reaches, created, starts, accepts, handles, send-Takes}

abbrev open_connection : Connection
open_connection = (Connection.start new_connection).0

-- The read of the first connection failed, and its callback is still to come.
unfoldable one_broken : TcpServer
one_broken =
    (run_handler little (accepted (accepted (start (new_tcp_server true 1)) true).0 true).0 1
      (header_handler none)).0

one_broken-Reaches : Reaches little one_broken
unfolding one_broken start accepted create_connection Connection.start
one_broken-Reaches =
    handles 1 (header_handler none)
      (accepts true refl (accepts true refl (starts (created true 1))))

abbrev broken_connection : Connection
broken_connection = record open_connection { running = false; reading = reads_nothing }

send-Takes_example :
    ((send one_broken 1 (104 ∷ [])).0 ≡ true)
    × (((broken_connection.running ≡ true)
          × (connection_at 1 (send one_broken 1 (104 ∷ [])).1.connections
              ≡ some (record broken_connection { posted = (104 ∷ []) ∷ [] })))
        ⊎ ((broken_connection.running ≡ false)
            × (1 ∈ one_broken.closing)
            × (connection_at 1 (send one_broken 1 (104 ∷ [])).1.connections
                ≡ some broken_connection)))
unfolding one_broken start accepted create_connection Connection.start run_handler header_done
    do_disconnect
send-Takes_example =
    send-Takes little one_broken 1 broken_connection (104 ∷ []) one_broken-Reaches refl
      (omega arith)
