-- ===== src/Session/Order.antt =====
-- All the chat of src/apps/runtime/sessionManager.cpp, from a new connection on.
use go_game.Prelude.{
  ℕ, zero, suc, ◌+◌, ◌-◌, Bool-cases, ◌≤◌, ◌<◌, ◌≡◌, ◌≢◌, refl, ◌∙◌, ap, subst, inl, inr, ◌⊎◌, ltb,
  Option, none, some, ◌>>=◌, arith, List, [], ◌∷◌, ◌∈◌, length,
}
use mathlib.Core.List.{head-eq_of_cons-eq, tail-eq_of_cons-eq}
use go_game.Position.{u32_mod}
use go_game.Net.{ServerChat, Text}
use go_game.Session.{
  ChatEntry, SessionManager, find, connect, upper_bound, get_chat_since, on_chat_message,
}
use go_game.Session.Pending.{ids, ids_from}
use go_game.Session.Drain.{IsOrdered, Known, Holds}
use go_game.Session.Chat.{written, Received, on_chat_message-Received}

-- The messages in the order in which they arrive.
abbrev pub receive_chat : List ServerChat → SessionManager → Option SessionManager
receive_chat [] m = some m
receive_chat (c ∷ cs) m = on_chat_message m c >>= λ (m', _). receive_chat cs m'

-- Each entry of the history is a message that arrived, with its player and its words.
pub record Arrived (arrivals : List ServerChat) (n : ℕ) (r : Option SessionManager) : Type 0 where
  pub next : SessionManager
  pub returns : r ≡ some next
  pub ordered : IsOrdered next
  pub words :
      (e : ChatEntry) → e ∈ next.chat_history → (c : ServerChat) × (c ∈ arrivals) × (e ≡ written c)
  pub complete : n ≤ length next.chat_history

receive_chat-step :
    (c : ServerChat) (cs : List ServerChat) (m : SessionManager)
    (d : Received m c (on_chat_message m c))
    → receive_chat (c ∷ cs) m ≡ receive_chat cs d.next
receive_chat-step c cs m d = rw d.returns refl

-- If nothing that is expected next waits, and the first `n` messages are known, the history has them.
complete_of :
    (m : SessionManager) (n : ℕ)
    → IsOrdered m
    → find m.expected_message_id m.pending_chat ≡ none
    → ((k : ℕ) → 0 < k → k ≤ n → Known m k)
    → n ≤ length m.chat_history
complete_of m zero i settled known = omega arith
complete_of m (suc n) i settled known =
    let before = complete_of m n i settled (λ k p le. known k p (omega arith)) in
    elim (known (suc n) (omega arith) (omega arith)) [
      | inl lt ↦ omega (arith, i.next_id)
      | inr (e, there) ↦
          let ne : m.expected_message_id ≢ suc n = λ is. cc (settled, there, is) in
          absurd (ne (omega (arith, i.next_id, i.ahead (suc n) e there, before)))
    ]

-- The numbers that are known or still to come, after one message.
after_one :
    (c : ServerChat) (cs : List ServerChat) (m : SessionManager)
    (d : Received m c (on_chat_message m c)) (k : ℕ)
    → Known m k ⊎ ((c' : ServerChat) × (c' ∈ c ∷ cs) × (c'.message_id ≡ k))
    → Known d.next k ⊎ ((c' : ServerChat) × (c' ∈ cs) × (c'.message_id ≡ k))
after_one c cs m d k (inl known) = inl (d.kept k known)
after_one c cs m d k (inr (c', inl is, id)) =
    let same : c.message_id ≡ k = cc (is, id) in inl (subst (Known d.next) same d.known)
after_one c cs m d k (inr (c', inr there, id)) = inr (c', there, id)

-- All that is held comes from messages that arrived.
abbrev OfArrivals : List ServerChat → SessionManager → Type 0
OfArrivals all m = (e : ChatEntry) → Holds m e → (c : ServerChat) × (c ∈ all) × (e ≡ written c)

after_one-OfArrivals :
    (all : List ServerChat) (c : ServerChat) (m : SessionManager)
    (d : Received m c (on_chat_message m c))
    → c ∈ all
    → OfArrivals all m
    → OfArrivals all d.next
after_one-OfArrivals all c m d there from e h = elim (d.held e h) [
  | inl before ↦ from e before
  | inr is ↦ (c, there, is)
]

receive_chat-Arrived_of :
    (all cs : List ServerChat) (m : SessionManager) (n : ℕ)
    → ((c : ServerChat) → c ∈ cs → c ∈ all)
    → OfArrivals all m
    → IsOrdered m
    → find m.expected_message_id m.pending_chat ≡ none
    → m.expected_message_id + length m.pending_chat + length cs < u32_mod
    → ((k : ℕ) → 0 < k → k ≤ n → Known m k ⊎ ((c : ServerChat) × (c ∈ cs) × (c.message_id ≡ k)))
    → Arrived all n (receive_chat cs m)
receive_chat-Arrived_of all [] m n within from i settled fits known = record {
  next = m;
  returns = refl;
  ordered = i;
  words = λ e h. from e (inl h);
  complete =
      complete_of m n i settled
        (λ k p le. elim (known k p le) [ inl here ↦ here | inr (c, there, is) ↦ absurd there ]);
}
receive_chat-Arrived_of all (c ∷ cs) m n within from i settled fits known =
    let d = on_chat_message-Received m c i settled (omega arith) in
    let rest =
      receive_chat-Arrived_of all cs d.next n (λ c' h. within c' (inr h))
        (after_one-OfArrivals all c m d (within c (inl refl)) from) d.ordered d.settled
        (omega (arith, d.bounded)) (λ k p le. after_one c cs m d k (known k p le)) in
    record {
      next = rest.next;
      returns = receive_chat-step c cs m d ∙ rest.returns;
      ordered = rest.ordered;
      words = rest.words;
      complete = rest.complete;
    }

-- From a new connection on, let messages arrive in any order, the same one more than once or not, as
-- long as the first `n` are among them and their numbers do not wrap around. Then each is handled, and
-- the history has the messages 1, 2, 3, ... without a gap, at least the first `n`, and each of its entries
-- has the player, the number and the words of a message that arrived.
pub receive_chat-Arrived :
    (m : SessionManager) (host_ip : Text) (cs : List ServerChat) (n : ℕ)
    → length cs + 1 < u32_mod
    → ((k : ℕ) → 0 < k → k ≤ n → (c : ServerChat) × (c ∈ cs) × (c.message_id ≡ k))
    → Arrived cs n (receive_chat cs (connect m host_ip).0)
unfolding connect
receive_chat-Arrived m host_ip cs n fits all =
    receive_chat-Arrived_of cs cs (connect m host_ip).0 n (λ c h. h)
      (λ e h. elim h [ inl there ↦ absurd there | inr waits ↦ absurd (cc waits) ])
      (record {
        in_order = refl;
        next_id = refl;
        keyed = λ k e h. absurd (cc h);
        ahead = λ k e h. absurd (cc h);
      })
      refl (omega arith) (λ k p le. inr (all k p le))

-- The numbers of the entries from one on, of a history in order.
upper_bound-ids :
    (es : List ChatEntry) (j k n : ℕ)
    → ids es ≡ ids_from (j + 1) (length es)
    → j ≤ k
    → k + n ≡ j + length es
    → ids (upper_bound k es) ≡ ids_from (k + 1) n
upper_bound-ids [] j k n e lo sum = let same : 0 ≡ n = omega arith in ap (ids_from (k + 1)) same
upper_bound-ids (d ∷ es) j k n e lo sum =
    let first : d.message_id ≡ j + 1 = head-eq_of_cons-eq e in
    elim (Bool-cases (ltb k d.message_id)) [
      | inl later ↦
          let is : j ≡ k = ground (arith, first) in
          let count : suc (length es) ≡ n = omega arith in rw (later, ← is, ← count) e
      | inr sooner ↦ rw sooner (
          upper_bound-ids es (j + 1) k n (tail-eq_of_cons-eq e) (ground (arith, first))
            (omega arith))
    ]

-- When the chat is in order, `getChatSince` of a number that the history has, or of 0, gives exactly the
-- entries with the later numbers, in their order.
pub get_chat_since-ids :
    (m : SessionManager) (k : ℕ)
    → IsOrdered m
    → k ≤ length m.chat_history
    → ids (get_chat_since m k) ≡ ids_from (k + 1) (length m.chat_history - k)
unfolding get_chat_since
get_chat_since-ids m k i hi =
    upper_bound-ids m.chat_history 0 k _ i.in_order (omega arith) (omega arith)
