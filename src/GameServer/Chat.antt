-- ===== src/GameServer/Chat.antt =====
-- The chat from src/apps/runtime/gameServer.cpp to a client's src/apps/runtime/sessionManager.cpp.
use go_game.Prelude.{
  ℕ, ◌+◌, ◌%◌, ◌≤◌, ◌<◌, ◌≡◌, refl, ap, inl, inr, arith, List, [], ◌∷◌, ◌++◌, ◌∈◌, length,
  length-append, Bool-cases, ==→≡, ==→≢, ◌==◌, sym, ◌∙◌, ap₂, suc, Option, some,
}
use mathlib.Core.List.{head-eq_of_cons-eq, tail-eq_of_cons-eq}
use go_game.Model.{Player}
use go_game.Position.{u32_mod}
use go_game.Net.{Text, client_chat, ServerEvent, server_chat, ServerChat}
use go_game.GameServer.{GameServer, handle_network_event}
use go_game.Session.{ChatEntry, SessionManager, connect}
use go_game.Session.Pending.{ids, ids_from}
use go_game.Session.Chat.{written}
use go_game.Session.Order.{receive_chat, receive_chat-Arrived}

-- The message that the server makes of a player's words.
abbrev numbered : GameServer → Player → Text → ServerChat
numbered s player text = record {
  player = player;
  message_id = length (s.chat_history ++ (player, text) ∷ []) % u32_mod;
  message = text;
}

abbrev pub after_chat : GameServer → Player × Text → GameServer
after_chat s (player, text) = (handle_network_event s player (client_chat text)).0

-- What the server broadcasts of the words of the players, in the order in which it gets them.
abbrev pub broadcasts : GameServer → List (Player × Text) → List ServerEvent
broadcasts s [] = []
broadcasts s (c ∷ cs) =
    (handle_network_event s c.0 (client_chat c.1)).1 ++ broadcasts (after_chat s c) cs

-- The message with each number from one on is broadcast.
numbered_in :
    (cs : List (Player × Text)) (s : GameServer) (k : ℕ)
    → length s.chat_history + length cs + 1 < u32_mod
    → length s.chat_history < k
    → k ≤ length s.chat_history + length cs
    → (c : ServerChat) × (server_chat c ∈ broadcasts s cs) × (c.message_id ≡ k)
unfolding handle_network_event
numbered_in [] s k fits lo hi = absurd (omega arith)
numbered_in (c ∷ cs) s k fits lo hi =
    let longer = length-append s.chat_history (c ∷ []) in
    elim (Bool-cases (k == length s.chat_history + 1)) [
      | inl is ↦
          let same = ==→≡ k (length s.chat_history + 1) is in
          (numbered s c.0 c.1, inl refl, omega (arith, same, longer))
      | inr other ↦
          let ne = ==→≢ k (length s.chat_history + 1) other in
          let (c', there, id) =
            numbered_in cs (after_chat s c) k (omega (arith, longer)) (ground (arith, longer, ne))
              (omega (arith, longer)) in
          (c', inr there, id)
    ]

server_chat-injective : {c d : ServerChat} → server_chat c ≡ server_chat d → c ≡ d
server_chat-injective {d} e = cc e

-- A broadcast message has a later number than those before it.
later_in :
    (cs : List (Player × Text)) (s : GameServer) (c : ServerChat)
    → length s.chat_history + length cs + 1 < u32_mod
    → server_chat c ∈ broadcasts s cs
    → length s.chat_history < c.message_id
unfolding handle_network_event
later_in [] s c fits m = absurd m
later_in (w ∷ cs) s c fits (inl e) =
    let longer = length-append s.chat_history (w ∷ []) in
    let same : c ≡ numbered s w.0 w.1 = server_chat-injective e in
    let id : c.message_id ≡ length (s.chat_history ++ w ∷ []) % u32_mod =
      ap (λ (d : ServerChat). d.message_id) same in
    omega (arith, longer, id)
later_in (w ∷ cs) s c fits (inr m) =
    let longer = length-append s.chat_history (w ∷ []) in
    let rest = later_in cs (after_chat s w) c (omega (arith, longer)) m in
    omega (arith, longer, rest)

-- The player and the words of each entry of a history.
abbrev pub words_of : List ChatEntry → List (Player × Text)
words_of [] = []
words_of (e ∷ es) = (e.player, e.message) ∷ words_of es

length-words_of : (es : List ChatEntry) → length (words_of es) ≡ length es
length-words_of [] = refl
length-words_of (e ∷ es) = ap suc (length-words_of es)

-- The entry is one that was broadcast.
abbrev FromBroadcast : GameServer → List (Player × Text) → ChatEntry → Type 0
FromBroadcast s cs e = (c : ServerChat) × (server_chat c ∈ broadcasts s cs) × (e ≡ written c)

-- A number after that of the next message belongs to a later broadcast.
not_first :
    (s : GameServer) (w : Player × Text) (cs : List (Player × Text)) (e : ChatEntry)
    → length s.chat_history + length (w ∷ cs) + 1 < u32_mod
    → length s.chat_history + 1 < e.message_id
    → FromBroadcast s (w ∷ cs) e
    → FromBroadcast (after_chat s w) cs e
unfolding handle_network_event
not_first s w cs e fits lo (c, inr m, is) = (c, m, is)
not_first s w cs e fits lo (c, inl first, is) =
    let same : c ≡ numbered s w.0 w.1 = server_chat-injective first in
    let id : e.message_id ≡ length (s.chat_history ++ w ∷ []) % u32_mod =
      ap (λ (d : ChatEntry). d.message_id) is ∙ ap (λ (d : ServerChat). d.message_id) same in
    absurd (omega (arith, id, length-append s.chat_history (w ∷ [])))

-- The next number belongs to the next message.
is_first :
    (s : GameServer) (w : Player × Text) (cs : List (Player × Text)) (e : ChatEntry)
    → length s.chat_history + length (w ∷ cs) + 1 < u32_mod
    → e.message_id ≡ length s.chat_history + 1
    → FromBroadcast s (w ∷ cs) e
    → (e.player, e.message) ≡ w
unfolding handle_network_event
is_first s w cs e fits id (c, inl first, is) =
    ap (λ (d : ChatEntry). (d.player, d.message)) is
    ∙ ap (λ (d : ServerChat). (d.player, d.message)) (server_chat-injective first)
is_first s w cs e fits id (c, inr m, is) =
    let longer = length-append s.chat_history (w ∷ []) in
    let later = later_in cs (after_chat s w) c (omega (arith, longer)) m in
    let same : e.message_id ≡ c.message_id = ap (λ (d : ChatEntry). d.message_id) is in
    absurd (omega (arith, longer, later, same))

-- A number of a list that counts up from one on.
ids-≤ :
    (es : List ChatEntry) (k : ℕ)
    → ids es ≡ ids_from k (length es)
    → (e : ChatEntry) → e ∈ es
    → k ≤ e.message_id
ids-≤ [] k counts e m = absurd m
ids-≤ (d ∷ es) k counts e (inl is) =
    let first = head-eq_of_cons-eq counts in
    let same = ap (λ (x : ChatEntry). x.message_id) is in omega (arith, first, same)
ids-≤ (d ∷ es) k counts e (inr m) =
    let rest = ids-≤ es (k + 1) (tail-eq_of_cons-eq counts) e m in omega (arith, rest)

words_of-broadcasts :
    (es : List ChatEntry) (cs : List (Player × Text)) (s : GameServer)
    → length s.chat_history + length cs + 1 < u32_mod
    → ids es ≡ ids_from (length s.chat_history + 1) (length es)
    → length cs ≤ length es
    → ((e : ChatEntry) → e ∈ es → FromBroadcast s cs e)
    → words_of es ≡ cs
words_of-broadcasts [] [] s fits counts enough from = refl
words_of-broadcasts [] (w ∷ cs) s fits counts enough from = absurd (omega arith)
words_of-broadcasts (e ∷ es) [] s fits counts enough from =
    let (c, none', is) = from e (inl refl) in absurd none'
words_of-broadcasts (e ∷ es) (w ∷ cs) s fits counts enough from =
    let longer = length-append s.chat_history (w ∷ []) in
    let tail = tail-eq_of_cons-eq counts in
    let first = is_first s w cs e fits (head-eq_of_cons-eq counts) (from e (inl refl)) in
    let next : length (after_chat s w).chat_history ≡ length s.chat_history + 1 =
      unfold handle_network_event in omega (arith, longer) in
    let rest =
      words_of-broadcasts es cs (after_chat s w) (omega (arith, next)) (rw next tail) (omega arith)
        (λ d m.
          let lo = ids-≤ es (length s.chat_history + 1 + 1) tail d m in
          not_first s w cs d fits (omega (arith, lo)) (from d (inr m))) in
    ap₂ (λ (x : Player × Text) (xs : List (Player × Text)). x ∷ xs) first rest

-- What the client ends with.
pub record Told (cs : List (Player × Text)) (r : Option SessionManager) : Type 0 where
  pub next : SessionManager
  pub returns : r ≡ some next
  pub numbers : ids next.chat_history ≡ ids_from 1 (length cs)
  pub words : words_of next.chat_history ≡ cs

-- Of any messages of the players to a server without a chat history: let a client connect and get all the
-- broadcasts and no other message, in any order, some of them more than once or not, as long as the
-- numbers do not wrap around. Each is handled, and in the end the history of the client is exactly what
-- the players said, each message with its player and its words, in the order in which the server got
-- them, under the numbers 1, 2, 3, ...
pub chat-Arrived :
    (s : GameServer) (cs : List (Player × Text)) (m : SessionManager) (host_ip : Text)
    (arrivals : List ServerChat)
    → s.chat_history ≡ []
    → length cs + 1 < u32_mod
    → length arrivals + 1 < u32_mod
    → ((c : ServerChat) → server_chat c ∈ broadcasts s cs → c ∈ arrivals)
    → ((c : ServerChat) → c ∈ arrivals → server_chat c ∈ broadcasts s cs)
    → Told cs (receive_chat arrivals (connect m host_ip).0)
chat-Arrived s cs m host_ip arrivals empty' few fits all only =
    let none' : length s.chat_history ≡ 0 = ap length empty' in
    let a = receive_chat-Arrived m host_ip arrivals (length cs) fits (λ k p le.
      let (c, there, id) =
        numbered_in cs s k (omega (arith, none')) (omega (arith, none')) (omega (arith, none')) in
      (c, all c there, id)) in
    let said =
      words_of-broadcasts a.next.chat_history cs s (omega (arith, none'))
        (a.ordered.in_order
          ∙ ap (λ (k : ℕ). ids_from (k + 1) (length a.next.chat_history)) (sym none'))
        a.complete (λ e there. let (c, came, is) = a.words e there in (c, only c came, is)) in
    let count : length a.next.chat_history ≡ length cs =
      sym (length-words_of a.next.chat_history) ∙ ap length said in
    record {
      next = a.next;
      returns = a.returns;
      numbers = a.ordered.in_order ∙ ap (ids_from 1) count;
      words = said;
    }
