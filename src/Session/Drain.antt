-- ===== src/Session/Drain.antt =====
-- The loop of src/apps/runtime/sessionManager.cpp over the chat that waits.
use go_game.Prelude.{
  ℕ, zero, suc, ◌+◌, ◌≤◌, ◌<◌, ◌≡◌, ◌≢◌, sym, ◌∙◌, ap, subst, ◌||◌, inl, inr, ◌⊎◌, Bool, true, ◌==◌,
  ltb, Option, none, some, arith, List, [], ◌∷◌, ◌++◌, length, Bool-cases, ==→≡, ==→≢, Option-cases,
  length-append, ◌∈◌, ∈-append, ∈-last, ∈-snoc,
}
use mathlib.Core.List.{append-nil, append_assoc}
use mathlib.Core.Option.{some-injective}
use go_game.Position.{u32_mod}
use go_game.Session.{ChatEntry, SessionManager, find, erase, append, drain}
use go_game.Session.Pending.{
  ids, ids_from, find-erase_self, find-erase, length-erase, ids-snoc, length-snoc, find-erased,
}

-- The history has the messages 1, 2, 3, ... up to the one that is expected next, and what waits is
-- kept under its own number, which was not reached yet.
pub record IsOrdered (m : SessionManager) : Type 0 where
  pub in_order : ids m.chat_history ≡ ids_from 1 (length m.chat_history)
  pub next_id : m.expected_message_id ≡ length m.chat_history + 1
  pub keyed : (k : ℕ) (e : ChatEntry) → find k m.pending_chat ≡ some e → e.message_id ≡ k
  pub ahead : (k : ℕ) (e : ChatEntry) → find k m.pending_chat ≡ some e → m.expected_message_id ≤ k

-- A message that was appended or waits.
abbrev pub Known : SessionManager → ℕ → Type 0
Known m k = (k < m.expected_message_id) ⊎ ((e : ChatEntry) × (find k m.pending_chat ≡ some e))

-- A message, with its player and its words, that is in the history or waits.
abbrev pub Holds : SessionManager → ChatEntry → Type 0
Holds m e = (e ∈ m.chat_history) ⊎ (find e.message_id m.pending_chat ≡ some e)

-- The loop over the messages that wait ends, with nothing left that is expected next.
pub record Drained (m : SessionManager) (begun : Bool) (r : Option (SessionManager × Bool))
    : Type 0 where
  pub next : SessionManager
  pub appended : Bool
  pub returns : r ≡ some (next, appended)
  pub ordered : IsOrdered next
  pub settled : find next.expected_message_id next.pending_chat ≡ none
  pub kept : (k : ℕ) → Known m k → Known next k
  pub holds : (e : ChatEntry) → Holds m e → Holds next e
  pub held : (e : ChatEntry) → Holds next e → Holds m e
  pub more : List ChatEntry
  pub grown : next.chat_history ≡ m.chat_history ++ more
  pub bounded :
      next.expected_message_id + length next.pending_chat
      ≤ m.expected_message_id + length m.pending_chat
  pub told : appended ≡ (begun || ltb (length m.chat_history) (length next.chat_history))

drain-stop :
    (fuel : ℕ) (m : SessionManager) (begun : Bool)
    → find m.expected_message_id m.pending_chat ≡ none
    → drain (suc fuel) m begun ≡ some (m, begun)
unfolding drain
drain-stop fuel m begun e = ground arith

abbrev taken : SessionManager → SessionManager
taken m = record m { pending_chat = erase m.expected_message_id m.pending_chat }

drain-step :
    (fuel : ℕ) (m : SessionManager) (begun : Bool) (e : ChatEntry)
    → find m.expected_message_id m.pending_chat ≡ some e
    → drain (suc fuel) m begun ≡ drain fuel (append (taken m) e) true
unfolding drain
drain-step fuel m begun e h = ground arith

-- A message with the expected number, which waits no longer, is appended.
pub append-IsOrdered :
    (m : SessionManager) (e : ChatEntry)
    → IsOrdered m
    → m.expected_message_id + 1 < u32_mod
    → e.message_id ≡ m.expected_message_id
    → find m.expected_message_id m.pending_chat ≡ none
    → IsOrdered (append m e)
append-IsOrdered m e i fits is gone = record {
  in_order =
      rw (length-snoc m.chat_history e)
        (ids-snoc m.chat_history e 1 i.in_order (omega (arith, is, i.next_id)));
  next_id = omega (arith, length-snoc m.chat_history e, i.next_id);
  keyed = i.keyed;
  ahead = λ k d h.
      let ne : m.expected_message_id ≢ k = λ q. cc (gone, h, q) in
      ground (arith, i.ahead k d h, ne);
}

taken-IsOrdered : (m : SessionManager) → IsOrdered m → IsOrdered (taken m)
taken-IsOrdered m i = record {
  in_order = i.in_order;
  next_id = i.next_id;
  keyed = λ k d h. i.keyed k d (find-erased m.expected_message_id k m.pending_chat d h);
  ahead = λ k d h. i.ahead k d (find-erased m.expected_message_id k m.pending_chat d h);
}

append-Known :
    (m : SessionManager) (e : ChatEntry)
    → m.expected_message_id + 1 < u32_mod
    → (k : ℕ) → Known m k
    → Known (append (taken m) e) k
append-Known m e fits k (inl lt) = inl (omega arith)
append-Known m e fits k (inr (d, h)) = elim (Bool-cases (m.expected_message_id == k)) [
  | inl is ↦ inl (omega (arith, ==→≡ m.expected_message_id k is))
  | inr other ↦ inr (
    d,
    find-erase m.expected_message_id k m.pending_chat (==→≢ m.expected_message_id k other) ∙ h,
  )
]

append-Holds :
    (m : SessionManager) (e d : ChatEntry)
    → find m.expected_message_id m.pending_chat ≡ some e
    → Holds m d
    → Holds (append (taken m) e) d
append-Holds m e d h (inl there) = inl (∈-append d m.chat_history (e ∷ []) there)
append-Holds m e d h (inr waits) = elim (Bool-cases (m.expected_message_id == d.message_id)) [
  | inl is ↦
      let id = ==→≡ m.expected_message_id d.message_id is in
      let same : d ≡ e = some-injective _ _ (sym waits ∙ rw (← id) h) in
      inl (rw same (∈-last e m.chat_history))
  | inr other ↦
      let ne = ==→≢ m.expected_message_id d.message_id other in
      inr (find-erase m.expected_message_id d.message_id m.pending_chat ne ∙ waits)
]

Holds-append :
    (m : SessionManager) (e d : ChatEntry)
    → find m.expected_message_id m.pending_chat ≡ some e
    → e.message_id ≡ m.expected_message_id
    → Holds (append (taken m) e) d
    → Holds m d
Holds-append m e d h id (inl there) = elim (∈-snoc d e m.chat_history there) [
  | inl before ↦ inl before
  | inr is ↦
      let waits : find e.message_id m.pending_chat ≡ some e =
        ap (λ (k : ℕ). find k m.pending_chat) id ∙ h in
      inr (subst (λ (c : ChatEntry). find c.message_id m.pending_chat ≡ some c) (sym is) waits)
]
Holds-append m e d h id (inr waits) =
    inr (find-erased m.expected_message_id d.message_id m.pending_chat d waits)

-- After one round, the rest of the loop.
after_round :
    (m : SessionManager) (begun : Bool) (e : ChatEntry) {r r' : Option (SessionManager × Bool)}
    → find m.expected_message_id m.pending_chat ≡ some e
    → e.message_id ≡ m.expected_message_id
    → m.expected_message_id + 1 < u32_mod
    → length (erase m.expected_message_id m.pending_chat) < length m.pending_chat
    → r ≡ r'
    → Drained (append (taken m) e) true r'
    → Drained m begun r
after_round m begun e h id fits shorter step d =
    let appended' : d.appended ≡ true = d.told in
    let longer : length m.chat_history < length d.next.chat_history = omega (
      arith,
      ap length d.grown,
      length-append (m.chat_history ++ e ∷ []) d.more,
      length-snoc m.chat_history e,
    ) in
    record {
      next = d.next;
      appended = d.appended;
      returns = step ∙ d.returns;
      ordered = d.ordered;
      settled = d.settled;
      kept = λ k h. d.kept k (append-Known m e fits k h);
      holds = λ c there. d.holds c (append-Holds m e c h there);
      held = λ c there. Holds-append m e c h id (d.held c there);
      more = e ∷ d.more;
      grown = d.grown ∙ append_assoc m.chat_history (e ∷ []) d.more;
      told = ground (arith, appended', longer);
      bounded = omega (arith, shorter, d.bounded);
    }

pub drain-Drained :
    (fuel : ℕ) (m : SessionManager) (begun : Bool)
    → IsOrdered m
    → m.expected_message_id + length m.pending_chat < u32_mod
    → length m.pending_chat < fuel
    → Drained m begun (drain fuel m begun)
drain-Drained zero m begun i fits enough = absurd (omega arith)
drain-Drained (suc fuel) m begun i fits enough =
    elim (Option-cases (find m.expected_message_id m.pending_chat)) [
      | inl settled ↦ record {
        next = m;
        appended = begun;
        returns = drain-stop fuel m begun settled;
        ordered = i;
        settled = settled;
        kept = λ k h. h;
        holds = λ e h. h;
        held = λ e h. h;
        more = [];
        grown = sym (append-nil m.chat_history);
        told = ground arith;
        bounded = omega arith;
      }
      | inr (e, h) ↦
          let shorter = length-erase m.expected_message_id m.pending_chat e h in
          let fits' : m.expected_message_id + 1 < u32_mod = omega arith in
          after_round m begun e h (i.keyed _ e h) fits' shorter (drain-step fuel m begun e h) (
            drain-Drained fuel (append (taken m) e) true
              (append-IsOrdered (taken m) e (taken-IsOrdered m i) fits' (i.keyed _ e h)
                (find-erase_self m.expected_message_id m.pending_chat))
              (omega arith) (omega arith))
    ]
