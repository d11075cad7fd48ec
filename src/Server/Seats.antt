-- ===== src/Server/Seats.antt =====
-- The seats that src/net/network/server.cpp gives: each colour has one active session at most.
use go_game.Prelude.{
  ℕ, ◌+◌, ◌≤◌, ◌<◌, ◌≡◌, ◌≢◌, refl, sym, ◌∙◌, inl, inr, ◌⊎◌, true, false, ◌&&◌, ◌==◌, Option, none,
  some, arith, List, [], ◌∷◌, ◌++◌, length, if◌then◌else◌, Bool-cases, Option-cases, ==→≡, ==_refl,
}
use go_game.Position.{u32_mod}
use go_game.Net.{
  Seat, seat_black, seat_white, seat_observer, is_player, same_seat, server_session_assign,
}
use go_game.Sessions.{
  SessionContext, SessionManager, lookup, update, skip_zero, find_seat, activate, with_seat, add,
  set_seat, get_connection_id_by_seat,
}
use go_game.Sessions.Linked.{IsLinked, add-Added, context, update-IsLinked, changes-IsLinked}
use go_game.Server.{
  Server, Output, handler_connected, Transport, send, free_seat, process_client_connect,
}

-- The active sessions with a seat.
abbrev pub seat_count : Seat → List (ℕ × SessionContext) → ℕ
seat_count x [] = 0
seat_count x ((k, c) ∷ rest) =
    if c.is_active && same_seat c.seat x then seat_count x rest + 1 else seat_count x rest

-- 0 is no number of a connection.
abbrev pub AllConnected : List (ℕ × SessionContext) → Type 0
AllConnected [] = Unit
AllConnected ((k, c) ∷ rest) = (c.connection_id ≢ 0) × AllConnected rest

seat_count-free :
    (x : Seat) (m : List (ℕ × SessionContext))
    → AllConnected m
    → find_seat x m ≡ 0
    → seat_count x m ≡ 0
seat_count-free x [] a e = refl
seat_count-free x ((k, c) ∷ rest) (ne, a) e = ground (arith, seat_count-free x rest a, ne)

same_seat_refl : (x : Seat) → same_seat x x ≡ true
same_seat_refl x = ground arith

-- A seat that is given makes one more session of that seat at most.
seat_count-given_le :
    (x z : Seat) (k : ℕ) (m : List (ℕ × SessionContext))
    → seat_count x (update k (with_seat z) m) ≤ seat_count x m + 1
seat_count-given_le x z k [] = omega arith
seat_count-given_le x z k ((k', c) ∷ rest) = ground (arith, seat_count-given_le x z k rest)

-- The other seats get no more sessions, also when the session was made active before.
seat_count-other_le :
    (x z : Seat) (k : ℕ) (m : List (ℕ × SessionContext))
    → same_seat z x ≡ false
    → seat_count x (update k (with_seat z) (update k activate m)) ≤ seat_count x m
seat_count-other_le x z k [] ne = omega arith
seat_count-other_le x z k ((k', c) ∷ rest) ne =
    ground (arith, seat_count-other_le x z k rest ne, ne)

AllConnected-update :
    (k : ℕ) (f : SessionContext → SessionContext) (m : List (ℕ × SessionContext))
    → ((c : SessionContext) → (f c).connection_id ≡ c.connection_id)
    → AllConnected m
    → AllConnected (update k f m)
AllConnected-update k f [] same a = a
AllConnected-update k f ((k', c) ∷ rest) same (ne, a) = elim (Bool-cases (k' == k)) [
  | inl is ↦ rw is ((λ e. ne (sym (same c) ∙ e)), a)
  | inr other ↦ rw other (ne, AllConnected-update k f rest same a)
]

-- The maps agree, connections have numbers, and each colour has one active session at most.
pub record IsSeated (m : SessionManager) : Type 0 where
  pub linked : IsLinked m
  pub connected : AllConnected m.sessions
  pub single : (x : Seat) → is_player x ≡ true → seat_count x m.sessions ≤ 1

-- A session that was added, before it gets its seat.
record Entered (m : SessionManager) (r : Option (SessionManager × ℕ)) : Type 0 where
  added : SessionManager
  session : ℕ
  returns : r ≡ some (added, session)
  linked : IsLinked added
  connected : AllConnected added.sessions
  other :
      (z x : Seat)
      → is_player x ≡ true
      → same_seat z x ≡ false
      → seat_count x (update session (with_seat z) added.sessions) ≤ seat_count x m.sessions

seat_count-new_le :
    (x z : Seat) (k connection : ℕ) (m : List (ℕ × SessionContext))
    → same_seat z x ≡ false
    → seat_count x (update k (with_seat z) ((k, context connection k) ∷ m)) ≤ seat_count x m
seat_count-new_le x z k connection m ne = ground (arith, ne, ==_refl k)

module _ (m : SessionManager) (connection : ℕ) (i : IsSeated m) (some' : connection ≢ 0)
    (fits : skip_zero m.next_session_id + length m.sessions + 1 < u32_mod) where
  new-Entered : lookup connection m.connection_to_session ≡ none → Entered m (add m connection)
  new-Entered new =
      let a = add-Added m connection new fits in
      record {
        added = a.next;
        session = a.id;
        returns = a.returns;
        linked = a.linked i.linked;
        connected = rw a.inserted (some', i.connected);
        other = λ z x p ne. rw a.inserted (seat_count-new_le x z a.id connection m.sessions ne);
      }

  old-Entered :
      (k : ℕ) → lookup connection m.connection_to_session ≡ some k → Entered m (add m connection)
  old-Entered k there =
      let (c, found, from') = i.linked.known connection k there in
      let own = (i.linked.named k c found).0 in
      let same : add m connection
          ≡ some (record m { sessions = update k activate m.sessions }, c.session_id) =
        unfold add in ground arith in
      record {
        added = record m { sessions = update k activate m.sessions };
        session = c.session_id;
        returns = same;
        linked = update-IsLinked m k activate (λ c. refl) (λ c. refl) i.linked;
        connected = AllConnected-update k activate m.sessions (λ c. refl) i.connected;
        other = λ z x p ne. rw own (seat_count-other_le x z k m.sessions ne);
      }

  add-Entered : Entered m (add m connection)
  add-Entered = elim (Option-cases (lookup connection m.connection_to_session)) [
    | inl new ↦ new-Entered new
    | inr (k, there) ↦ old-Entered k there
  ]

-- The seat that is free: no active session has it, if it is a player's.
free_seat_lem :
    (m : SessionManager)
    → (z : Seat) × (free_seat m ≡ some z) × ((is_player z ≡ false) ⊎ (find_seat z m.sessions ≡ 0))
unfolding free_seat get_connection_id_by_seat
free_seat_lem m = elim (Bool-cases (find_seat seat_black m.sessions == 0)) [
  | inl none' ↦ (seat_black, rw none' refl, inr (==→≡ _ 0 none'))
  | inr some' ↦ elim (Bool-cases (find_seat seat_white m.sessions == 0)) [
    | inl none' ↦ (seat_white, rw (some', none') refl, inr (==→≡ _ 0 none'))
    | inr some'' ↦ (seat_observer, rw (some', some'') refl, inl refl)
  ]
]

same_seat→≡ : (z x : Seat) → same_seat z x ≡ true → z ≡ x
same_seat→≡ z x e = ground arith

seated-single :
    (m : SessionManager) (i : IsSeated m) {r : Option (SessionManager × ℕ)} (e : Entered m r)
    (z : Seat)
    → (is_player z ≡ false) ⊎ (find_seat z e.added.sessions ≡ 0)
    → (x : Seat) → is_player x ≡ true
    → seat_count x (update e.session (with_seat z) e.added.sessions) ≤ 1
seated-single m i e z free x player = elim (Bool-cases (same_seat z x)) [
  | inr other ↦ omega (arith, e.other z x player other, i.single x player)
  | inl is ↦
      let same = same_seat→≡ z x is in
      elim free [
        | inl watches ↦ absurd (cc (watches, player, same))
        | inr none' ↦
            let gone : seat_count x e.added.sessions ≡ 0 =
              seat_count-free x e.added.sessions e.connected (rw same at none') in
            omega (arith, gone, seat_count-given_le x z e.session e.added.sessions)
      ]
]

-- What a connection leaves behind.
pub record Connected (r : Option (Server × List Output)) : Type 0 where
  pub server : Server
  pub outputs : List Output
  pub returns : r ≡ some (server, outputs)
  pub seated : IsSeated server.session_manager

-- Let the maps agree and each colour have one active session at most. A connection, whether it has a
-- session already or not, is handled as long as the numbers of sessions do not wrap around, and again
-- the maps agree and each colour has one active session at most.
pub process_client_connect-Connected :
    (t : Transport) (s : Server) (connection : ℕ)
    → IsSeated s.session_manager
    → connection ≢ 0
    → skip_zero s.session_manager.next_session_id + length s.session_manager.sessions + 1 < u32_mod
    → Connected (process_client_connect t s connection)
unfolding process_client_connect set_seat
process_client_connect-Connected t s connection i some' fits =
    let e = add-Entered s.session_manager connection i some' fits in
    let (z, given, free) = free_seat_lem e.added in
    let s' = record s { session_manager = set_seat e.added e.session z } in
    record {
      server = s';
      outputs =
          (send t s' e.session (server_session_assign e.session)).0
          ++ (if s.has_handler then handler_connected e.session z ∷ [] else []);
      returns = rw (e.returns, given) refl;
      seated = record {
        linked = (changes-IsLinked e.added e.session z e.linked).0;
        connected =
            AllConnected-update e.session (with_seat z) e.added.sessions (λ c. refl) e.connected;
        single = seated-single s.session_manager i e z free;
      };
    }
