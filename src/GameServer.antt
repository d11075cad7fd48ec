-- ===== src/GameServer.antt =====
-- src/apps/runtime/gameServer.cpp: the server's side of a game. A handler returns the state and what
-- it broadcasts. `get_seat`, a parameter, is the question that it asks the network server; the thread
-- of the game is running or not.
pub mod Laws
pub mod Chat
pub mod Tests
use package.go_game.Prelude.{
  ℕ, ◌+◌, ◌%◌, Bool, true, false, not, ◌&&◌, ◌||◌, ◌==◌, if◌then◌else◌, Option, none, some, ◌>>=◌,
  List, [], ◌∷◌, ◌++◌, length,
}
use package.go_game.Model.{Player, black, white, same_player}
use package.go_game.Position.{ZobristHash, u32_mod}
use package.go_game.Hub.{
  GameEvent, put_stone_event, pass_event, resign_event, GameAction, place_action, pass_action,
  resign_action, GameDelta,
}
use package.go_game.Game.{Game, new_game, push_event}
use package.go_game.Net.{
  Seat, seat_black, seat_white, is_player, same_seat, ServerAction, act_place, act_pass, act_resign,
  NetStatus, net_active, net_draw, ServerDelta, Text, ClientEvent, client_put_stone, client_pass,
  client_resign, client_chat, ServerEvent, server_game_config, server_chat,
}

abbrev pub seat_of : Player → Seat
seat_of black = seat_black
seat_of white = seat_white

abbrev pub server_action : GameAction → ServerAction
server_action place_action = act_place
server_action pass_action = act_pass
server_action resign_action = act_resign

-- The event that `onGameDelta` broadcasts.
unfoldable pub on_game_delta : GameDelta → ServerDelta
on_game_delta d = record {
  turn = d.move_id;
  seat = seat_of d.player;
  action = server_action d.action;
  coord = d.coord;
  captures = d.captures;
  next = seat_of d.next_player;
  status = if d.game_active then net_active else net_draw;
}

pub record GameServer : Type 0 where
  pub game : Game
  pub has_thread : Bool
  -- The players and their sessions.
  pub players : List (Player × ℕ)
  pub chat_history : List (Player × Text)

unfoldable pub new_server : (ℕ → ZobristHash) → ℕ → Option GameServer
new_server zobrist board_size = new_game zobrist board_size >>= λ g.
    some (record { game = g; has_thread = false; players = []; chat_history = [] })

abbrev pub has_player : Player → List (Player × ℕ) → Bool
has_player p [] = false
has_player p ((p', s) ∷ rest) = same_player p' p || has_player p rest

-- The first entry with the session is erased.
abbrev pub erase_session : ℕ → List (Player × ℕ) → List (Player × ℕ)
erase_session s [] = []
erase_session s ((p, s') ∷ rest) = if s' == s then rest else (p, s') ∷ erase_session s rest

abbrev pub player_of_seat : Seat → Player
player_of_seat seat = if same_seat seat seat_black then black else white

-- The bits of 6.5.
abbrev pub default_komi : ℕ
default_komi = 0x401a_0000_0000_0000

-- The second player starts the thread.
unfoldable pub add_player : GameServer → Player → ℕ → GameServer × List ServerEvent
add_player s player session =
    let players = (player, session) ∷ s.players in
    let joined = record s { players = players } in
    if (length players == 2) && not s.has_thread
    then (
      record joined { has_thread = true },
      server_game_config (record {
        board_size = s.game.position.board.size % u32_mod;
        komi = default_komi;
        time_seconds = 0;
      })
          ∷ [],
    )
    else (joined, [])

unfoldable pub on_client_connected : GameServer → ℕ → Seat → GameServer × List ServerEvent
on_client_connected s session seat =
    let player = player_of_seat seat in
    if not (is_player seat)
    then (s, [])
    else if s.game.game_active
    then (s, [])
    else if has_player player s.players
    then (s, [])
    else add_player s player session

unfoldable pub on_client_disconnected : GameServer → ℕ → GameServer
on_client_disconnected s session = record s { players = erase_session session s.players }

-- An event for the game, which is rejected when the game is not active.
abbrev pub push_active : GameServer → GameEvent → GameServer × List ServerEvent
push_active s e =
    if not s.game.game_active then (s, []) else (record s { game = push_event s.game e }, [])

unfoldable pub handle_network_event :
    GameServer → Player → ClientEvent → GameServer × List ServerEvent
handle_network_event s player (client_put_stone c) = push_active s (put_stone_event player c)
handle_network_event s player client_pass = push_active s (pass_event player)
handle_network_event s player client_resign = push_active s resign_event
handle_network_event s player (client_chat message) =
    let history = s.chat_history ++ (player, message) ∷ [] in
    (
      record s { chat_history = history },
      server_chat
            (record { player = player; message_id = length history % u32_mod; message = message })
          ∷ [],
    )

unfoldable pub on_network_event :
    (ℕ → Seat) → GameServer → ℕ → ClientEvent → GameServer × List ServerEvent
on_network_event get_seat s session event =
    let seat = get_seat session in
    if not (is_player seat) then (s, []) else handle_network_event s (player_of_seat seat) event
