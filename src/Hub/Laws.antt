-- ===== src/Hub/Laws.antt =====
-- Who src/game/core/eventHub.cpp tells of a signal or a delta after a subscription and after an
-- unsubscription.
use go_game.Prelude.{
  ℕ, ◌≡◌, refl, inl, inr, ◌==◌, List, [], ◌∷◌, ◌++◌, if◌then◌else◌, bit_and, Bool-cases,
}
use go_game.Hub.{
  GameSignal, signal_bit, SignalListenerEntry, EventHub, subscribe_signals, erase_if,
  unsubscribe_signals, signalled, signal,
}

signalled-++ :
    (bit : ℕ) (es fs : List SignalListenerEntry)
    → signalled bit (es ++ fs) ≡ signalled bit es ++ signalled bit fs
unfolding signalled
signalled-++ bit [] fs = refl
signalled-++ bit (e ∷ es) fs = elim (Bool-cases (bit_and e.signal_mask bit == 0)) [
  | inl z ↦ rw (z, signalled-++ bit es fs) refl
  | inr z ↦ rw (z, signalled-++ bit es fs) refl
]

signalled-erase_if :
    (l bit : ℕ) (es : List SignalListenerEntry)
    → signalled bit (erase_if (λ e. e.listener == l) es) ≡ erase_if (λ x. x == l) (signalled bit es)
unfolding signalled erase_if
signalled-erase_if l bit [] = refl
signalled-erase_if l bit (e ∷ es) =
    let rest = signalled-erase_if l bit es in
    elim (Bool-cases (e.listener == l)) [
      | inl is ↦ elim (Bool-cases (bit_and e.signal_mask bit == 0)) [
        | inl z ↦ rw (is, z, rest) refl
        | inr z ↦ rw (is, z, is, rest) refl
      ]
      | inr other ↦ elim (Bool-cases (bit_and e.signal_mask bit == 0)) [
        | inl z ↦ rw (other, z, rest) refl
        | inr z ↦ rw (other, z, other, rest) refl
      ]
    ]

-- After a subscription a signal is told to the listeners that it was told to before, and last of all
-- to the new one, once, when its mask has the signal's bit.
pub signal-subscribe_signals :
    (h : EventHub) (l mask : ℕ) (s : GameSignal)
    → signal (subscribe_signals h l mask) s
      ≡ signal h s ++ (if bit_and mask (signal_bit s) == 0 then [] else l ∷ [])
unfolding signal subscribe_signals signalled
signal-subscribe_signals h l mask s = signalled-++ (signal_bit s) h.signal_listeners _

-- After an unsubscription a signal is told to the same listeners in the same order, less every
-- entry of the one that unsubscribed.
pub signal-unsubscribe_signals :
    (h : EventHub) (l : ℕ) (s : GameSignal)
    → signal (unsubscribe_signals h l) s ≡ erase_if (λ x. x == l) (signal h s)
unfolding signal unsubscribe_signals
signal-unsubscribe_signals h l s = signalled-erase_if l (signal_bit s) h.signal_listeners
