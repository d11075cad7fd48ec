-- ===== src/NetClient/Delivery.antt =====
-- From the server to the handler: src/net/core/connection.cpp writes, src/net/network/client.cpp reads.
use go_game.Prelude.{ℕ, ◌+◌, ◌≤◌, ◌≡◌, true, none, List, [], length}
use mathlib.Core.Path.{subst}
use go_game.Net.{Text, ServerEvent}
use go_game.Json.{Json, IsLawful}
use go_game.Wire.{Endian}
use go_game.Socket.{Socket, IsStream}
use go_game.Connection.{Connection, Callback}
use go_game.Connection.Reach.{Reaches}
use go_game.Connection.Sent.{written-all}
use go_game.NetClient.{NetClient, read_loop}
use go_game.NetClient.Stream.{AreSent, Delivered, read_loop-Delivered}

module _ (J : Json) (l : IsLawful J) (S : Socket) (ls : IsStream S) (sender receiver : Endian) where
  -- Let the server's end of a connection take the messages of events that can be sent, of at most 4096
  -- bytes each, in any interleaving of its tasks, writes and reads, and run until nothing is under way.
  -- If the bytes that it wrote arrive at a client whose loop runs, then the loop returns after it has
  -- told the handler exactly these events, in their order and but for the numbers of sessions, and then
  -- that the connection is closed. The byte orders of the two machines may differ. The fuel is one round
  -- for each message, one for the end and one test.
  pub connection-Delivered :
      (conn : Connection) (calls : List Callback) (c : NetClient J S receiver)
      (es : List ServerEvent) (ms : List Text) (fuel : ℕ)
      → Reaches sender conn ms calls
      → conn.running ≡ true
      → conn.posted ≡ []
      → conn.in_flight ≡ none
      → AreSent J es ms
      → S.Incoming c.client.socket conn.written
      → c.running ≡ true
      → c.client.is_connected ≡ true
      → length es + 2 ≤ fuel
      → Delivered J S receiver c es (read_loop J S receiver fuel c)
  connection-Delivered conn calls c es ms fuel reach runs posted idle sent incoming =
      let arrives =
        subst (S.Incoming c.client.socket) (written-all sender conn ms calls reach runs posted idle)
          incoming in
      read_loop-Delivered J l S ls sender receiver c es ms fuel sent arrives
