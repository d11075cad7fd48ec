-- ===== src/GameWidget/Tests.antt =====
-- A window that shows one of two messages, and one that shows nothing of a new game, as the theorems on
-- src/apps/tengen/GameWidget.cpp say.
use go_game.Prelude.{ℕ, ◌≡◌, refl, some, arith, [], ◌∷◌, map}
use go_game.Model.{black}
use go_game.Net.{ServerChat}
use go_game.Session.{ChatEntry, SessionManager, connect, on_chat_message, take_message, drain}
use go_game.Session.Drain.{IsOrdered}
use go_game.Session.Order.{receive_chat}
use go_game.Session.Tests.{waiting}
use go_game.GameWidget.{GameWidget, line_of, append_chat_messages}
use go_game.GameWidget.Chat.{
  ShowsPart, with_chat, append_chat_messages-all, append_chat_messages-hidden,
}

abbrev note : ℕ → ChatEntry
note k = record { player = black; message_id = k; message = 104 ∷ [] }

-- Two messages were received.
abbrev talked : SessionManager
talked = record waiting {
  expected_message_id = 3;
  chat_history = note 1 ∷ note 2 ∷ [];
  pending_chat = [];
}

talked-IsOrdered : IsOrdered talked
talked-IsOrdered = record {
  in_order = refl;
  next_id = refl;
  keyed = λ k e h. absurd (cc h);
  ahead = λ k e h. absurd (cc h);
}

-- The first of them is shown.
abbrev window : GameWidget
window = record {
  status_label = [];
  curr_player_label = [];
  chat_list = line_of (note 1) ∷ [];
  chat_input = [];
  last_chat_message_id = 1;
}

window-ShowsPart : ShowsPart window talked
window-ShowsPart = record {
  shown = note 1 ∷ [];
  rest = note 2 ∷ [];
  parts = refl;
  lines = refl;
  last_shown = refl;
}

append_chat_messages-all_example :
    append_chat_messages window talked ≡ with_chat window (map line_of talked.chat_history) 2
append_chat_messages-all_example =
    append_chat_messages-all window talked talked-IsOrdered window-ShowsPart

abbrev first_message : ServerChat
first_message = record { player = black; message_id = 1; message = 104 ∷ [] }

-- The session after a new connection and its first message.
abbrev renewed : SessionManager
renewed = record (connect talked []).0 { expected_message_id = 2; chat_history = note 1 ∷ [] }

renewed_lem : receive_chat (first_message ∷ []) (connect talked []).0 ≡ some renewed
unfolding connect on_chat_message take_message drain
renewed_lem = refl

append_chat_messages-hidden_example : append_chat_messages window renewed ≡ window
append_chat_messages-hidden_example =
    append_chat_messages-hidden window talked renewed [] (first_message ∷ []) (omega arith)
      renewed_lem (omega arith)
