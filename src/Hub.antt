-- ===== src/Hub.antt =====
-- src/game/core/eventHub.cpp and gameEvent.hpp: events, signals, deltas and who is told of them.
-- Listeners are numbers, and a delivery is the list of the calls made, in their order.
pub mod Laws
pub mod Tests
use package.go_game.Prelude.{
  ℕ, ◌+◌, ◌≡◌, Bool, true, false, not, ◌==◌, if◌then◌else◌, Option, List, [], ◌∷◌, ◌++◌, bit_and,
  map,
}
use package.go_game.Model.{Coord, Player}

pub data GameEvent : Type 0 where
  put_stone_event : Player → Coord → GameEvent
  pass_event : Player → GameEvent
  resign_event : GameEvent
  shutdown_event : GameEvent

pub data GameSignal : Type 0 where
  board_change player_change state_change : GameSignal

-- The bit of a signal.
abbrev pub signal_bit : GameSignal → ℕ
signal_bit board_change = 1
signal_bit player_change = 2
signal_bit state_change = 4

pub data GameAction : Type 0 where
  place_action pass_action resign_action : GameAction

pub record GameDelta : Type 0 where
  pub move_id : ℕ
  pub action : GameAction
  pub player : Player
  pub coord : Option Coord
  pub captures : List Coord
  pub next_player : Player
  pub game_active : Bool

pub record SignalListenerEntry : Type 0 where
  pub listener : ℕ
  pub signal_mask : ℕ

pub record EventHub : Type 0 where
  pub signal_listeners : List SignalListenerEntry
  pub state_listeners : List ℕ

unfoldable pub subscribe_signals : EventHub → ℕ → ℕ → EventHub
subscribe_signals h listener mask = record h {
  signal_listeners = h.signal_listeners ++ record { listener = listener; signal_mask = mask } ∷ [];
}

-- `remove_if` by a test, and `erase` of what it moved to the end.
unfoldable pub erase_if {ℓ} : {A : Type ℓ} → (A → Bool) → List A → List A
erase_if p [] = []
erase_if p (x ∷ xs) = if p x then erase_if p xs else x ∷ erase_if p xs

unfoldable pub unsubscribe_signals : EventHub → ℕ → EventHub
unsubscribe_signals h listener = record h {
  signal_listeners = erase_if (λ e. e.listener == listener) h.signal_listeners;
}

unfoldable pub subscribe_state : EventHub → ℕ → EventHub
subscribe_state h listener = record h { state_listeners = h.state_listeners ++ listener ∷ [] }

unfoldable pub unsubscribe_state : EventHub → ℕ → EventHub
unsubscribe_state h listener = record h {
  state_listeners = erase_if (λ l. l == listener) h.state_listeners;
}

-- The listeners whose `onGameEvent` is called.
unfoldable pub signalled : ℕ → List SignalListenerEntry → List ℕ
signalled bit [] = []
signalled bit (e ∷ es) =
    if bit_and e.signal_mask bit == 0 then signalled bit es else e.listener ∷ signalled bit es

unfoldable pub signal : EventHub → GameSignal → List ℕ
signal h s = signalled (signal_bit s) h.signal_listeners

-- The listeners whose `onGameDelta` is called.
unfoldable pub signal_delta : EventHub → GameDelta → List (ℕ × GameDelta)
signal_delta h delta = map (λ listener. (listener, delta)) h.state_listeners
