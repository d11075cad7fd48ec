-- ===== src/GameWidget.antt =====
-- src/apps/tengen/GameWidget.cpp: what the window shows of the game and of the chat. The widgets of Qt
-- are their texts, and a call that Qt queues for the thread of the window is a value that is run later.
pub mod Chat
pub mod Tests
use package.go_game.Prelude.{
  ℕ, Bool, true, false, if◌then◌else◌, Option, none, some, List, [], ◌∷◌, ◌++◌,
}
use package.go_game.Model.{Player, black, white}
use package.go_game.Net.{Text}
use package.go_game.Codec.{codes}
use package.go_game.Client.{GameStatus, status_idle, status_ready, status_active, status_done}
use package.go_game.Session.{
  ChatEntry, Call, AppSignal, app_board_change, app_player_change, app_state_change, app_new_chat,
  SessionManager, get_chat_since, try_pass, try_resign, chat,
}

pub record GameWidget : Type 0 where
  pub status_label : Text
  pub curr_player_label : Text
  pub chat_list : List Text
  pub chat_input : Text
  pub last_chat_message_id : ℕ

-- The calls that are queued.
pub data Queued : Type 0 where
  queued_player_text queued_state_text queued_chat : Queued

abbrev pub on_app_event : AppSignal → List Queued
on_app_event app_player_change = queued_player_text ∷ []
on_app_event app_state_change = queued_state_text ∷ []
on_app_event app_new_chat = queued_chat ∷ []
on_app_event app_board_change = []

abbrev pub player_text : Player → Text
player_text black = codes "Black"
player_text white = codes "White"

abbrev pub set_current_player_text : GameWidget → SessionManager → GameWidget
set_current_player_text w m = record w {
  curr_player_label = codes "Current Player: " ++ player_text m.position.player;
}

abbrev pub state_text : GameStatus → Text
state_text status_idle = codes "Idle"
state_text status_ready = codes "Waiting for Player"
state_text status_active = codes "Active"
state_text status_done = codes "Game Finished"

abbrev pub set_game_state_text : GameWidget → SessionManager → GameWidget
set_game_state_text w m = record w { status_label = state_text m.position.status }

abbrev pub line_of : ChatEntry → Text
line_of entry = player_text entry.player ++ (codes ": " ++ entry.message)

-- The loop over the entries.
abbrev pub append_entries : GameWidget → List ChatEntry → GameWidget
append_entries w [] = w
append_entries w (entry ∷ rest) =
    append_entries
      (record w {
        last_chat_message_id = entry.message_id;
        chat_list = w.chat_list ++ line_of entry ∷ [];
      })
      rest

unfoldable pub append_chat_messages : GameWidget → SessionManager → GameWidget
append_chat_messages w m = append_entries w (get_chat_since m w.last_chat_message_id)

abbrev pub run_queued : GameWidget → SessionManager → Queued → GameWidget
run_queued w m queued_player_text = set_current_player_text w m
run_queued w m queued_state_text = set_game_state_text w m
run_queued w m queued_chat = append_chat_messages w m

abbrev pub on_pass_clicked : SessionManager → SessionManager × List Call
on_pass_clicked m = try_pass m

abbrev pub on_resign_clicked : SessionManager → SessionManager × List Call
on_resign_clicked m = try_resign m

abbrev pub sent_text : GameWidget → SessionManager → Text → GameWidget × SessionManager × List Call
sent_text w m [] = (w, m, [])
sent_text w m (c ∷ text) =
    let (m', calls) = chat m (c ∷ text) in (record w { chat_input = [] }, m', calls)

-- `QString::trimmed` is a parameter.
unfoldable pub on_send_chat :
    (Text → Text) → GameWidget → SessionManager → GameWidget × SessionManager × List Call
on_send_chat trimmed w m = sent_text w m (trimmed w.chat_input)
