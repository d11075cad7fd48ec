-- ===== src/Connection/Tests.antt =====
-- Two messages on a connection, and what the theorems on src/net/core/connection.cpp say of them.
use go_game.Prelude.{◌≡◌, refl, true, [], ◌∷◌, ◌++◌}
use go_game.Net.{Text}
use go_game.Wire.{big}
use go_game.TcpClient.Reads.{frames}
use go_game.Connection.{Connection, new_connection, start, send, run_task, start_write, write_done}
use go_game.Connection.Reach.{Reaches, started, sends, runs, writes}
use go_game.Connection.Sent.{written-InOrder}

abbrev hello : Text
hello = 104 ∷ 105 ∷ []

abbrev world : Text
world = 119 ∷ []

-- The first message is written, and the second is in flight.
unfoldable halfway : Connection
halfway =
    (write_done big (run_task big (run_task big (send (send (start new_connection).0 hello) world)))
      true).0

halfway-Reaches : Reaches big halfway (hello ∷ world ∷ []) (start new_connection).1
unfolding halfway start send run_task start_write write_done
halfway-Reaches = writes _ true refl (runs (runs (sends world (sends hello started))))

written_example : (rest : Text) × (halfway.written ++ rest ≡ frames big (hello ∷ world ∷ []))
written_example = written-InOrder big halfway (hello ∷ world ∷ []) _ halfway-Reaches
