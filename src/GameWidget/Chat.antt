-- ===== src/GameWidget/Chat.antt =====
-- The chat that src/apps/tengen/GameWidget.cpp shows.
use go_game.Prelude.{
  ℕ, suc, ◌+◌, ◌<◌, ◌≤◌, ◌≡◌, refl, sym, ◌∙◌, ap, ltb, true, false, ap₂, some, arith, List, [], ◌∷◌,
  ◌++◌, map, length, length-append,
}
use mathlib.Core.List.{append_assoc, append-nil, head-eq_of_cons-eq, tail-eq_of_cons-eq}
use mathlib.Core.Option.{some-injective}
use mathlib.Core.Path.{subst}
use go_game.Position.{u32_mod}
use go_game.Net.{Text, ServerChat}
use go_game.Session.{ChatEntry, SessionManager, connect, upper_bound, get_chat_since}
use go_game.Session.Pending.{ids, ids_from}
use go_game.Session.Drain.{IsOrdered}
use go_game.Session.Order.{receive_chat, receive_chat-Arrived}
use go_game.GameWidget.{GameWidget, line_of, append_entries, append_chat_messages}

-- The entries behind those that were shown.
upper_bound-append :
    (shown rest : List ChatEntry) (j k : ℕ)
    → ids (shown ++ rest) ≡ ids_from (j + 1) (length (shown ++ rest))
    → k ≡ j + length shown
    → upper_bound k (shown ++ rest) ≡ rest
upper_bound-append [] [] j k e is = refl
upper_bound-append [] (d ∷ rest) j k e is =
    let first : d.message_id ≡ j + 1 = head-eq_of_cons-eq e in
    let later : ltb k d.message_id ≡ true = ground (arith, first) in rw later refl
upper_bound-append (d ∷ shown) rest j k e is =
    let first : d.message_id ≡ j + 1 = head-eq_of_cons-eq e in
    let sooner : ltb k d.message_id ≡ false = ground (arith, first) in
    rw sooner (upper_bound-append shown rest (j + 1) k (tail-eq_of_cons-eq e) (omega arith))

-- A widget with other chat.
abbrev pub with_chat : GameWidget → List Text → ℕ → GameWidget
with_chat w lines last = record w { chat_list = lines; last_chat_message_id = last }

-- Entries with the next numbers, shown one after the other.
append_entries_lem :
    (w : GameWidget) (es : List ChatEntry)
    → ids es ≡ ids_from (w.last_chat_message_id + 1) (length es)
    → append_entries w es
      ≡ with_chat w (w.chat_list ++ map line_of es) (w.last_chat_message_id + length es)
append_entries_lem w [] e =
    let same : w.last_chat_message_id ≡ w.last_chat_message_id + 0 = omega arith in
    ap₂ (with_chat w) (sym (append-nil w.chat_list)) same
append_entries_lem w (d ∷ es) e =
    let first : d.message_id ≡ w.last_chat_message_id + 1 = head-eq_of_cons-eq e in
    let next = with_chat w (w.chat_list ++ line_of d ∷ []) d.message_id in
    let following : ids es ≡ ids_from (d.message_id + 1) (length es) =
      tail-eq_of_cons-eq e ∙ ap (λ (k : ℕ). ids_from (k + 1) (length es)) (sym first) in
    let count : d.message_id + length es ≡ w.last_chat_message_id + suc (length es) = omega arith in
    append_entries_lem next es following
    ∙ ap₂ (with_chat w) (append_assoc w.chat_list (line_of d ∷ []) (map line_of es)) count

-- A widget that shows a part of the chat from the start on.
pub record ShowsPart (w : GameWidget) (m : SessionManager) : Type 0 where
  pub shown : List ChatEntry
  pub rest : List ChatEntry
  pub parts : m.chat_history ≡ shown ++ rest
  pub lines : w.chat_list ≡ map line_of shown
  pub last_shown : w.last_chat_message_id ≡ length shown

ids-rest :
    (shown rest : List ChatEntry) (k : ℕ)
    → ids (shown ++ rest) ≡ ids_from k (length (shown ++ rest))
    → ids rest ≡ ids_from (k + length shown) (length rest)
ids-rest [] rest k e = let same : k ≡ k + 0 = omega arith in rw (← same) e
ids-rest (d ∷ shown) rest k e =
    let same : (k + 1) + length shown ≡ k + suc (length shown) = omega arith in
    ids-rest shown rest (k + 1) (tail-eq_of_cons-eq e)
    ∙ ap (λ (j : ℕ). ids_from j (length rest)) same

map-append : (es fs : List ChatEntry) → map line_of (es ++ fs) ≡ map line_of es ++ map line_of fs
map-append [] fs = refl
map-append (e ∷ es) fs = ap (λ (ls : List Text). line_of e ∷ ls) (map-append es fs)

-- If the chat of the session is in order and the window shows a part of it from the start on, then the
-- handler of a new message makes it show all of the chat: each message once and in its order.
pub append_chat_messages-all :
    (w : GameWidget) (m : SessionManager)
    → IsOrdered m
    → ShowsPart w m
    → append_chat_messages w m ≡ with_chat w (map line_of m.chat_history) (length m.chat_history)
unfolding append_chat_messages get_chat_since
append_chat_messages-all w m i p =
    let ordered : ids (p.shown ++ p.rest) ≡ ids_from 1 (length (p.shown ++ p.rest)) =
      ap ids (sym p.parts)
      ∙ i.in_order
      ∙ ap (λ (es : List ChatEntry). ids_from 1 (length es)) p.parts in
    let since : upper_bound w.last_chat_message_id m.chat_history ≡ p.rest =
      ap (upper_bound w.last_chat_message_id) p.parts
      ∙ upper_bound-append p.shown p.rest 0 w.last_chat_message_id ordered
          (omega (arith, p.last_shown)) in
    let next : ids p.rest ≡ ids_from (w.last_chat_message_id + 1) (length p.rest) =
      let first : 1 + length p.shown ≡ w.last_chat_message_id + 1 = omega (arith, p.last_shown) in
      ids-rest p.shown p.rest 1 ordered ∙ ap (λ (k : ℕ). ids_from k (length p.rest)) first in
    let shows : w.chat_list ++ map line_of p.rest ≡ map line_of m.chat_history =
      ap (λ (ls : List Text). ls ++ map line_of p.rest) p.lines
      ∙ sym (map-append p.shown p.rest)
      ∙ ap (map line_of) (sym p.parts) in
    let count : w.last_chat_message_id + length p.rest ≡ length m.chat_history =
      let whole : length m.chat_history ≡ length (p.shown ++ p.rest) = ap length p.parts in
      omega (arith, whole, length-append p.shown p.rest, p.last_shown) in
    ap (append_entries w) since ∙ append_entries_lem w p.rest next ∙ ap₂ (with_chat w) shows count

-- Entries of which none is later than the number.
upper_bound-none :
    (es : List ChatEntry) (j k : ℕ)
    → ids es ≡ ids_from (j + 1) (length es)
    → j + length es ≤ k
    → upper_bound k es ≡ []
upper_bound-none [] j k e le = refl
upper_bound-none (d ∷ es) j k e le =
    let first : d.message_id ≡ j + 1 = head-eq_of_cons-eq e in
    let sooner : ltb k d.message_id ≡ false = ground (arith, first) in
    rw sooner (upper_bound-none es (j + 1) k (tail-eq_of_cons-eq e) (omega arith))

-- The window does not start again with a new connection: as long as the new chat has no more messages
-- than were shown before, none of its messages is shown.
pub append_chat_messages-hidden :
    (w : GameWidget) (m m' : SessionManager) (host_ip : Text) (cs : List ServerChat)
    → length cs + 1 < u32_mod
    → receive_chat cs (connect m host_ip).0 ≡ some m'
    → length m'.chat_history ≤ w.last_chat_message_id
    → append_chat_messages w m' ≡ w
unfolding append_chat_messages get_chat_since
append_chat_messages-hidden w m m' host_ip cs fits received few =
    let a = receive_chat-Arrived m host_ip cs 0 fits (λ k p le. absurd (omega arith)) in
    let same : a.next ≡ m' = some-injective _ _ (sym a.returns ∙ received) in
    let ordered : ids m'.chat_history ≡ ids_from 1 (length m'.chat_history) =
      (subst IsOrdered same a.ordered).in_order in
    ap (append_entries w)
      (upper_bound-none m'.chat_history 0 w.last_chat_message_id ordered (omega arith))
