-- ===== src/Lib.antt =====
-- Verification of Tengen, a program to play Go over a network.
--
-- The server owns a game (src/game): a loop takes the events of the players from a queue, checks a
-- move against the rules, moves the position on, and tells its listeners by signals and deltas. The
-- application server (src/apps/runtime/gameServer.cpp) is such a listener and broadcasts each delta.
-- A client (src/apps/runtime/position.cpp) applies the deltas to the position that it shows.
--
-- Files:
--   Prelude      what all files share: tests of numbers, lists, exclusive or
--   Model        src/game/model: Coord, Player, Board with place, remove, get, isEmpty
--   Position     src/game/core/position.cpp: GamePosition with putStone and pass, IZobristHash
--   Rules        src/game/core/moveChecker.cpp, groupAnalysis; below it the proof that its loop finds
--                the group (Region states the rules, Loop and Rounds the invariants, Group the result)
--   Legal        the rest of src/game/core/moveChecker.cpp: computeGroupLiberties, wouldCapture,
--                isSuicide, simulatePosition, isValidMove, isNextPositionLegal; below it a file for
--                each of these and for what a move keeps (Alive, Hash)
--   Hub          src/game/core/eventHub.cpp and gameEvent.hpp
--   Game         src/game/core/game.cpp: the four handlers, run and the queue; below it the invariant,
--                superko and passes
--   Net          src/net/network/include/network/types.hpp and nwEvents.hpp: the messages' types
--   GameServer   src/apps/runtime/gameServer.cpp: the handlers of connections, of the events of clients
--                and of deltas; below it what a client may do (Laws) and the way of a chat message (Chat)
--   Client       src/apps/runtime/position.cpp; below it the proof that a client follows the game
--   Session      src/apps/runtime/sessionManager.cpp: the position and the chat of the application, with
--                the calls that it makes as values; below it the chat (Pending, Drain, Chat, Order) and what
--                the listeners learn (Update)
--   Sessions     src/net/network/sessionManager.cpp: the sessions of the server and their numbers
--   SafeQueue    src/net/network/SafeQueue.hpp and src/game/core/include/core/SafeQueue.hpp; below it the
--                order of the entries
--   Server       src/net/network/server.cpp: the handlers of the events of the queue and the loop over it,
--                with the text of the messages and the sockets as a parameter; below it the seats that it
--                gives (Seats) and the loop (Loop)
--   Json         the JSON library that the messages use, as a parameter: what it offers and its laws;
--                below it a small library that has them
--   Codec        src/net/network/nwEvents.cpp: the messages of both directions; below it their round trip
--                (RoundTrip) and what the readers let through (Checks)
--   Wire         src/net/core/include/network/core/protocol.hpp: the header of a message and its byte order
--   Socket       the sockets of asio that the client uses, as a parameter: what they offer and their laws;
--                below it sockets that are lists of bytes
--   TcpClient    src/net/core/tcpClient.cpp: the blocking end of a connection, and what it reads
--   Connection   src/net/core/connection.cpp: the server's end of a connection, as the handlers that the
--                strand runs; below it the states that it reaches (Reach), what it writes (Writes, Sent)
--                and what it tells (Callbacks)
--   TcpServer    src/net/core/tcpServer.cpp: the connections that the server holds; below it which of them
--                run (Held, Live)
--   NetClient    src/net/network/client.cpp: the client with its read thread; below it the thread
--                (Stop, Threads), the read loop on a stream (Stream) and the way from the server to the handler
--                (Delivery)
--   GameWidget   src/apps/tengen/GameWidget.cpp: the texts of the window; below it the chat that it shows
--   BoardRenderer src/apps/tengen/boardRenderer.cpp: where the board is drawn; below it that it is inside
--
-- A function of the program is the definition of its name in snake case. A member function takes the
-- object and returns the changed one with its result. An assertion that fails is `none`. `unsigned`
-- wraps around by `increment`; the sizes of a board are 9, 13 and 19, so its indices do not overflow.
-- A grid of marks is a function of the coordinate. The loop of groupAnalysis runs on a fuel of
-- 4 * size * size + 2 rounds: a round takes one entry off the stack, and only the visit of a new cell
-- puts up to four on. The loop of run takes the events that are in the queue, in their order. The loop
-- over the chat that waits runs on one round more than there are messages that wait, and the search
-- for the number of a session on one more than there are sessions; both find an end before that. The
-- read loop of a client runs on two rounds more than there are messages before the end of the stream.
--
-- An asynchronous read or write is two steps: its start, and the handler of its end with its result.
-- The states of a connection are all those that some order of such steps reaches. A connection of the
-- server that ends is two steps as well: it stops, and later its callback lets it go. The read loop of a
-- client is a step for each round, also that of a thread that was detached. The end of the stream
-- is the end of what a socket has to read. JSON values and sockets are parameters, records of operations
-- with a record of laws each, and both have an instance, so that the theorems on them apply.
--
-- A game is sound when its board has its cells, every group on it has a liberty, and its hash is that
-- of the position and is remembered. A client mirrors a game when it is running and has its board,
-- turn and move number. A chat is in order when its history has the messages 1, 2, 3, ... and what waits
-- is kept under its own number. The maps of the sessions are linked when they are inverse to each other.
--
-- Not modelled: the threads that run the loops of the game and of the servers, and locks, whose
-- operations are single steps here; the table of random numbers of zobristHash.hpp, which is a parameter
-- of the game; logging; the layout, the dialogs and the painting of the graphical client, and the
-- terminal; and the vision library, which is floating point arithmetic over OpenCV.
pub mod Prelude
pub mod Model
pub mod Position
pub mod Rules
pub mod Legal
pub mod Hub
pub mod Game
pub mod Net
pub mod GameServer
pub mod Client
pub mod Session
pub mod Sessions
pub mod SafeQueue
pub mod Server
pub mod Json
pub mod Codec
pub mod Wire
pub mod Socket
pub mod TcpClient
pub mod NetClient
pub mod GameWidget
pub mod BoardRenderer
pub mod Connection
pub mod TcpServer
