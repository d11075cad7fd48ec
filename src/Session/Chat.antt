-- ===== src/Session/Chat.antt =====
-- A message of the chat in src/apps/runtime/sessionManager.cpp: it is dropped, appended, or it waits.
use go_game.Prelude.{
  ℕ, ◌+◌, ◌≤◌, ◌<◌, ◌≡◌, refl, sym, ◌∙◌, ap, inl, inr, Bool, true, false, ◌==◌, ltb, Option, none,
  some, arith, List, [], ◌∷◌, ◌++◌, length, if◌then◌else◌, Bool-cases, ==→≡, length-append,
  ∈-append, ∈-last, ∈-snoc, ◌⊎◌, Option-cases,
}
use mathlib.Core.List.{append-nil, append_assoc}
use go_game.Position.{u32_mod}
use go_game.Net.{ServerChat}
use go_game.Session.{
  ChatEntry, Call, tells, app_new_chat, SessionManager, find, emplace, append, entry_of,
  take_message, on_chat_message,
}
use go_game.Session.Pending.{
  length-snoc, find-emplace, find-emplace_self, find-emplaced, find-emplace_new, length-emplace_le,
}
use go_game.Session.Drain.{IsOrdered, Known, Holds, append-IsOrdered, drain-Drained}

-- The entry with the player, the number and the words of a message.
abbrev pub written : ServerChat → ChatEntry
written event = record {
  player = event.player;
  message_id = event.message_id;
  message = event.message;
}

-- A message is known by its number already, or it is held with its player and its words.
abbrev pub Lands : SessionManager → ServerChat → SessionManager → Type 0
Lands m event next =
    (event.message_id < m.expected_message_id)
    ⊎ ((d : ChatEntry) × (find event.message_id m.pending_chat ≡ some d))
    ⊎ Holds next (written event)

-- What the handler makes of a message: the entries that it appends, and what it tells.
pub record Received (m : SessionManager) (event : ServerChat)
    (r : Option (SessionManager × List Call)) : Type 0 where
  pub next : SessionManager
  pub calls : List Call
  pub returns : r ≡ some (next, calls)
  pub ordered : IsOrdered next
  pub settled : find next.expected_message_id next.pending_chat ≡ none
  pub known : Known next event.message_id
  pub kept : (k : ℕ) → Known m k → Known next k
  pub lands : Lands m event next
  pub holds : (e : ChatEntry) → Holds m e → Holds next e
  pub held : (e : ChatEntry) → Holds next e → Holds m e ⊎ (e ≡ written event)
  pub more : List ChatEntry
  pub grown : next.chat_history ≡ m.chat_history ++ more
  pub bounded :
      next.expected_message_id + length next.pending_chat
      ≤ m.expected_message_id + length m.pending_chat + 1
  pub told : calls ≡ (
      if ltb (length m.chat_history) (length next.chat_history)
      then tells app_new_chat ∷ []
      else [])

-- The state after `take_message`, which the loop starts from.
record Begun (m : SessionManager) (event : ServerChat) (m' : SessionManager) (first : Bool)
    : Type 0 where
  ordered : IsOrdered m'
  known : Known m' event.message_id
  kept : (k : ℕ) → Known m k → Known m' k
  lands : Lands m event m'
  holds : (e : ChatEntry) → Holds m e → Holds m' e
  held : (e : ChatEntry) → Holds m' e → Holds m e ⊎ (e ≡ written event)
  more : List ChatEntry
  grown : m'.chat_history ≡ m.chat_history ++ more
  told : first ≡ ltb (length m.chat_history) (length m'.chat_history)
  fits : m'.expected_message_id + length m'.pending_chat < u32_mod
  bounded :
      m'.expected_message_id + length m'.pending_chat
      ≤ m.expected_message_id + length m.pending_chat + 1

module _ (m : SessionManager) (event : ServerChat) (i : IsOrdered m)
    (settled : find m.expected_message_id m.pending_chat ≡ none)
    (fits : m.expected_message_id + length m.pending_chat + 1 < u32_mod) where
  -- A message that was seen before.
  old-Begun : event.message_id < m.expected_message_id → Begun m event m false
  old-Begun old = record {
    ordered = i;
    known = inl old;
    kept = λ k h. h;
    lands = inl old;
    holds = λ e h. h;
    held = λ e h. inl h;
    more = [];
    grown = sym (append-nil m.chat_history);
    told = ground arith;
    fits = omega arith;
    bounded = omega arith;
  }

  abbrev appended : SessionManager
  appended = append m (entry_of event)

  next-Begun : event.message_id ≡ m.expected_message_id → Begun m event appended true
  next-Begun is = record {
    ordered = append-IsOrdered m (entry_of event) i (omega arith) is settled;
    known = inl (omega arith);
    kept = λ k h. elim h [ inl lt ↦ inl (omega arith) | inr there ↦ inr there ];
    lands = inr (inr (inl (∈-last (written event) m.chat_history)));
    holds = λ e h. elim h [
      | inl there ↦ inl (∈-append e m.chat_history (entry_of event ∷ []) there)
      | inr waits ↦ inr waits
    ];
    held = λ e h. elim h [
      | inl there ↦ elim (∈-snoc e (entry_of event) m.chat_history there) [
        | inl before ↦ inl (inl before)
        | inr same ↦ inr same
      ]
      | inr waits ↦ inl (inr waits)
    ];
    more = entry_of event ∷ [];
    grown = refl;
    told = ground (arith, length-snoc m.chat_history (entry_of event));
    fits = omega arith;
    bounded = omega arith;
  }

  abbrev waiting : SessionManager
  waiting = record m { pending_chat = emplace event.message_id (entry_of event) m.pending_chat }

  early-Lands : Lands m event waiting
  early-Lands = elim (Option-cases (find event.message_id m.pending_chat)) [
    | inr (d, there) ↦ inr (inl (d, there))
    | inl new ↦
        inr (inr (inr (find-emplace_new event.message_id (entry_of event) m.pending_chat new)))
  ]

  early-Begun : m.expected_message_id < event.message_id → Begun m event waiting false
  early-Begun early =
      let emplaced = find-emplaced event.message_id in
      record {
        ordered = record {
          in_order = i.in_order;
          next_id = i.next_id;
          keyed = λ k d h. elim (emplaced k (entry_of event) m.pending_chat d h) [
            | inl old ↦ i.keyed k d old
            | inr (is, same) ↦ rw (← same, ← is) refl
          ];
          ahead = λ k d h. elim (emplaced k (entry_of event) m.pending_chat d h) [
            | inl old ↦ i.ahead k d old
            | inr (is, same) ↦ omega arith
          ];
        };
        known = inr (find-emplace_self event.message_id (entry_of event) m.pending_chat);
        kept = λ k h. elim h [
          | inl lt ↦ inl lt
          | inr (d, there) ↦
              inr (d, find-emplace event.message_id k (entry_of event) m.pending_chat d there)
        ];
        lands = early-Lands;
        holds = λ d h. elim h [
          | inl there ↦ inl there
          | inr waits ↦
              inr
                (find-emplace event.message_id d.message_id (entry_of event) m.pending_chat d waits)
        ];
        held = λ d h. elim h [
          | inl there ↦ inl (inl there)
          | inr waits ↦ elim (emplaced d.message_id (entry_of event) m.pending_chat d waits) [
            | inl old ↦ inl (inr old)
            | inr (is, same) ↦ inr (sym same)
          ]
        ];
        more = [];
        grown = sym (append-nil m.chat_history);
        told = ground arith;
        fits = omega (arith, length-emplace_le event.message_id (entry_of event) m.pending_chat);
        bounded = omega (arith, length-emplace_le event.message_id (entry_of event) m.pending_chat);
      }

  take_message-Begun : Begun m event (take_message m event).0 (take_message m event).1
  unfolding take_message
  take_message-Begun = elim (Bool-cases (ltb event.message_id m.expected_message_id)) [
    | inl old ↦ rw old (old-Begun (ground arith))
    | inr not_old ↦ elim (Bool-cases (event.message_id == m.expected_message_id)) [
      | inl is ↦ rw (not_old, is) (next-Begun (==→≡ _ _ is))
      | inr other ↦ rw (not_old, other) (early-Begun (ground arith))
    ]
  ]

  -- Let the chat be in order, with nothing waiting that is expected next, and numbers that do not wrap
  -- around. A message of any number is handled: the chat is in order again, with nothing left waiting
  -- that is expected next, and the history only grows at its end. A message whose number is neither before
  -- the expected one nor that of a message that waits is in the history or waits, with its player and its
  -- words. Each message that was in the history or waited still does one of the two, and no message but
  -- the new one is added. The listeners are told once if the history grew, and not otherwise.
  pub on_chat_message-Received : Received m event (on_chat_message m event)
  unfolding on_chat_message
  on_chat_message-Received =
      let b = take_message-Begun in
      let m' = (take_message m event).0 in
      let first = (take_message m event).1 in
      let d = drain-Drained (length m'.pending_chat + 1) m' first b.ordered b.fits (omega arith) in
      record {
        next = d.next;
        calls = if d.appended then tells app_new_chat ∷ [] else [];
        returns = rw d.returns refl;
        ordered = d.ordered;
        settled = d.settled;
        known = d.kept event.message_id b.known;
        kept = λ k h. d.kept k (b.kept k h);
        lands = elim b.lands [
          | inl old ↦ inl old
          | inr (inl twice) ↦ inr (inl twice)
          | inr (inr here) ↦ inr (inr (d.holds (written event) here))
        ];
        holds = λ e h. d.holds e (b.holds e h);
        held = λ e h. b.held e (d.held e h);
        more = b.more ++ d.more;
        grown =
            d.grown
            ∙ ap (λ (h : List ChatEntry). h ++ d.more) b.grown
            ∙ append_assoc m.chat_history b.more d.more;
        told =
            ap (λ (a : Bool). if a then tells app_new_chat ∷ [] else [])
              (ground (
                arith,
                d.told,
                b.told,
                ap length d.grown,
                ap length b.grown,
                length-append m'.chat_history d.more,
                length-append m.chat_history b.more,
              ));
        bounded = omega (arith, b.bounded, d.bounded);
      }
