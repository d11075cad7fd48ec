-- ===== src/GameServer/Tests.antt =====
-- A server with one player, and the words of two.
use go_game.Prelude.{
  ℕ, ◌≡◌, refl, ap, inl, inr, true, false, arith, List, [], ◌∷◌, ◌∈◌, if◌then◌else◌, ◌==◌,
}
use go_game.Model.{Player, black, white, coord}
use go_game.Game.Tests.{small}
use go_game.Net.{
  Seat, seat_black, seat_white, seat_observer, Text, client_put_stone, server_chat, ServerChat,
}
use go_game.GameServer.{GameServer, on_client_connected, handle_network_event, on_network_event}
use go_game.GameServer.Laws.{Pushed, on_network_event-Pushed, Joined, on_client_connected-Joined}
use go_game.GameServer.Chat.{broadcasts, Told, chat-Arrived}
use go_game.Session.{connect}
use go_game.Session.Order.{receive_chat}
use go_game.Session.Tests.{waiting}

abbrev server : GameServer
server = record {
  game = record small { game_active = false };
  has_thread = false;
  players = (black, 1) ∷ [];
  chat_history = [];
}

abbrev running : GameServer
running = record server { game = small; has_thread = true }

abbrev seats : ℕ → Seat
seats session = if session == 1 then seat_black else seat_observer

on_network_event-Pushed_example :
    Pushed running (on_network_event seats running 1 (client_put_stone (coord 0 0))).0 seat_black
on_network_event-Pushed_example =
    on_network_event-Pushed seats running 1 (client_put_stone (coord 0 0))

on_client_connected-Joined_example :
    Joined server 2 seat_white (on_client_connected server 2 seat_white)
on_client_connected-Joined_example = on_client_connected-Joined server 2 seat_white

-- "hi" of black and "ok" of white.
abbrev words : List (Player × Text)
words = (black, 104 ∷ 105 ∷ []) ∷ (white, 111 ∷ 107 ∷ []) ∷ []

abbrev arrivals : List ServerChat
arrivals =
    record { player = white; message_id = 2; message = 111 ∷ 107 ∷ [] }
    ∷ record { player = black; message_id = 1; message = 104 ∷ 105 ∷ [] }
    ∷ []

server_chat-injective : {c d : ServerChat} → server_chat c ≡ server_chat d → c ≡ d
server_chat-injective {d} e = cc e

arrivals-all : (c : ServerChat) → server_chat c ∈ broadcasts server words → c ∈ arrivals
unfolding handle_network_event
arrivals-all c (inl e) = inr (inl (server_chat-injective e))
arrivals-all c (inr (inl e)) = inl (server_chat-injective e)
arrivals-all c (inr (inr none')) = elim none' [ ]

arrivals-only : (c : ServerChat) → c ∈ arrivals → server_chat c ∈ broadcasts server words
unfolding handle_network_event
arrivals-only c (inl e) = inr (inl (ap server_chat e))
arrivals-only c (inr (inl e)) = inl (ap server_chat e)
arrivals-only c (inr (inr none')) = elim none' [ ]

chat-Arrived_example : Told words (receive_chat arrivals (connect waiting []).0)
chat-Arrived_example =
    chat-Arrived server words waiting [] arrivals refl (omega arith) (omega arith) arrivals-all
      arrivals-only
