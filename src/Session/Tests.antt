-- ===== src/Session/Tests.antt =====
-- A chat whose third message comes first, and an update of a running game.
use go_game.Prelude.{
  ℕ, zero, suc, ◌≤◌, ◌<◌, ◌≡◌, refl, inl, inr, false, none, arith, List, [], ◌∷◌, ◌∈◌,
}
use go_game.Model.{black, white, new_board}
use go_game.Net.{ServerChat, ServerDelta, seat_black, seat_white, act_pass, net_active}
use go_game.Client.{ClientPosition, status_active}
use go_game.Session.{ChatEntry, SessionManager, connect, on_chat_message}
use go_game.Session.Drain.{IsOrdered}
use go_game.Session.Chat.{Received, on_chat_message-Received}
use go_game.Session.Order.{Arrived, receive_chat, receive_chat-Arrived}

abbrev entry : ℕ → ChatEntry
entry k = record { player = black; message_id = k; message = 104 ∷ 105 ∷ [] }

abbrev message : ℕ → ServerChat
message k = record { player = black; message_id = k; message = 104 ∷ 105 ∷ [] }

abbrev playing : ClientPosition
playing = record { move_id = 4; status = status_active; player = black; board = new_board 9 }

-- Message 1 was received, and 3 waits for 2.
abbrev pub waiting : SessionManager
waiting = record {
  position = playing;
  expected_message_id = 2;
  chat_history = entry 1 ∷ [];
  pending_chat = (3, entry 3) ∷ [];
  has_server = false;
}

waiting-IsOrdered : IsOrdered waiting
waiting-IsOrdered = record {
  in_order = refl;
  next_id = refl;
  keyed = λ k e h. ground arith;
  ahead = λ k e h. ground arith;
}

on_chat_message-Received_example :
    Received waiting (message 2) (on_chat_message waiting (message 2))
on_chat_message-Received_example =
    on_chat_message-Received waiting (message 2) waiting-IsOrdered refl (omega arith)

abbrev shuffled : List ServerChat
shuffled = message 3 ∷ message 1 ∷ message 3 ∷ message 2 ∷ []

shuffled-all : (k : ℕ) → 0 < k → k ≤ 3 → (c : ServerChat) × (c ∈ shuffled) × (c.message_id ≡ k)
shuffled-all zero p le = absurd (omega arith)
shuffled-all (suc zero) p le = (message 1, inr (inl refl), refl)
shuffled-all (suc (suc zero)) p le = (message 2, inr (inr (inr (inl refl))), refl)
shuffled-all (suc (suc (suc zero))) p le = (message 3, inl refl, refl)
shuffled-all (suc (suc (suc (suc k)))) p le = absurd (omega arith)

receive_chat-Arrived_example : Arrived shuffled 3 (receive_chat shuffled (connect waiting []).0)
receive_chat-Arrived_example = receive_chat-Arrived waiting [] shuffled 3 (omega arith) shuffled-all

abbrev pass_update : ServerDelta
pass_update = record {
  turn = 5;
  seat = seat_black;
  action = act_pass;
  coord = none;
  captures = [];
  next = seat_white;
  status = net_active;
}

abbrev updated : SessionManager
updated = record waiting {
  position = record { move_id = 5; status = status_active; player = white; board = new_board 9 };
}
