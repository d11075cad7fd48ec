-- ===== src/Hub/Tests.antt =====
-- Three subscriptions, and what the theorems on src/game/core/eventHub.cpp say of them.
use go_game.Prelude.{◌≡◌, [], ◌∷◌, ◌++◌}
use go_game.Hub.{board_change, EventHub, subscribe_signals, signal}
use go_game.Hub.Laws.{signal-subscribe_signals}

-- Listener 7 wants each signal, and 8 the end of the game.
abbrev two : EventHub
two = record {
  signal_listeners =
      record { listener = 7; signal_mask = 7 } ∷ record { listener = 8; signal_mask = 4 } ∷ [];
  state_listeners = 7 ∷ [];
}

signal-subscribe_signals_example :
    signal (subscribe_signals two 9 5) board_change ≡ signal two board_change ++ 9 ∷ []
signal-subscribe_signals_example = signal-subscribe_signals two 9 5 board_change
