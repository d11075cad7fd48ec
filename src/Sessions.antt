-- ===== src/Sessions.antt =====
-- src/net/network/sessionManager.cpp: the sessions of the server. The two hash maps are association
-- lists; a key that is put into one is not in it before. The numbers of sessions and connections are both
-- 32 bits wide, and `next_session_id` is the variable of the file.
pub mod Numbers
pub mod Maps
pub mod Linked
pub mod Tests
use package.go_game.Prelude.{
  ℕ, zero, suc, ◌+◌, ◌%◌, Bool, true, false, not, ◌&&◌, ◌||◌, ◌==◌, if◌then◌else◌, Option, none,
  some, ◌>>=◌, ◌>>◌, assert, List, [], ◌∷◌, length,
}
use package.go_game.Position.{increment}
use package.go_game.Net.{Seat, seat_none, seat_black, seat_white, is_player, same_seat}

pub record SessionContext : Type 0 where
  pub connection_id : ℕ
  pub session_id : ℕ
  pub seat : Seat
  pub is_active : Bool

pub record SessionManager : Type 0 where
  pub sessions : List (ℕ × SessionContext)
  pub connection_to_session : List (ℕ × ℕ)
  pub next_session_id : ℕ

abbrev pub lookup {ℓ} : {A : Type ℓ} → ℕ → List (ℕ × A) → Option A
lookup k [] = none
lookup k ((k', a) ∷ rest) = if k' == k then some a else lookup k rest

abbrev pub erase {ℓ} : {A : Type ℓ} → ℕ → List (ℕ × A) → List (ℕ × A)
erase k [] = []
erase k ((k', a) ∷ rest) = if k' == k then erase k rest else (k', a) ∷ erase k rest

-- The change of an entry through the iterator that `find` gave.
abbrev pub update {ℓ} : {A : Type ℓ} → ℕ → (A → A) → List (ℕ × A) → List (ℕ × A)
update k f [] = []
update k f ((k', a) ∷ rest) = if k' == k then (k', f a) ∷ rest else (k', a) ∷ update k f rest

abbrev pub is_taken : ℕ → List (ℕ × SessionContext) → Bool
is_taken k m = elim (lookup k m) [ none ↦ false | some c ↦ true ]

-- 0 is no number of a session.
abbrev pub skip_zero : ℕ → ℕ
skip_zero k = if k == 0 then 1 else k

-- The loop over the candidates, on fuel.
unfoldable pub free_id : ℕ → ℕ → List (ℕ × SessionContext) → Option ℕ
free_id zero k m = none
free_id (suc fuel) k m = elim (is_taken k m) [
  | false ↦ some k
  | true ↦ free_id fuel (skip_zero (increment k)) m
]

-- The candidates are tried from the one after the last, one more of them than there are sessions.
unfoldable pub generate_session_id : SessionManager → Option (SessionManager × ℕ)
generate_session_id s = do
  id ← free_id (length s.sessions + 1) (skip_zero s.next_session_id) s.sessions
  some (record s { next_session_id = skip_zero (increment id) }, id)

unfoldable pub add_new : SessionManager → ℕ → Option (SessionManager × ℕ)
add_new s connection = do
  (s', id) ← generate_session_id s
  let context : SessionContext = record {
    connection_id = connection;
    session_id = id;
    seat = seat_none;
    is_active = true;
  }
  some (
    record s' {
      sessions = (id, context) ∷ s'.sessions;
      connection_to_session = (connection, id) ∷ s'.connection_to_session;
    },
    id,
  )

abbrev pub activate : SessionContext → SessionContext
activate c = record c { is_active = true }

unfoldable pub add : SessionManager → ℕ → Option (SessionManager × ℕ)
add s connection = elim (lookup connection s.connection_to_session) [
  | none ↦ add_new s connection
  | some id ↦ elim (lookup id s.sessions) [
    | some c ↦ some (record s { sessions = update id activate s.sessions }, c.session_id)
    | none ↦
        let forgotten = record s {
          connection_to_session = erase connection s.connection_to_session;
        } in
        add_new forgotten connection
  ]
]

unfoldable pub remove : SessionManager → ℕ → SessionManager
remove s session = elim (lookup session s.sessions) [
  | none ↦ s
  | some c ↦ record s {
    connection_to_session = erase c.connection_id s.connection_to_session;
    sessions = erase session s.sessions;
  }
]

unfoldable pub get_session_id : SessionManager → ℕ → ℕ
get_session_id s connection = elim (lookup connection s.connection_to_session) [
  | none ↦ 0
  | some id ↦ id
]

unfoldable pub get_connection_id : SessionManager → ℕ → ℕ
get_connection_id s session = elim (lookup session s.sessions) [
  | none ↦ 0
  | some c ↦ c.connection_id
]

abbrev pub find_seat : Seat → List (ℕ × SessionContext) → ℕ
find_seat seat [] = 0
find_seat seat ((k, c) ∷ rest) =
    if c.is_active && same_seat c.seat seat then c.connection_id else find_seat seat rest

unfoldable pub get_connection_id_by_seat : SessionManager → Seat → Option ℕ
get_connection_id_by_seat s seat = do assert (is_player seat); some (find_seat seat s.sessions)

unfoldable pub get_seat : SessionManager → ℕ → Seat
get_seat s session = elim (lookup session s.sessions) [ none ↦ seat_none | some c ↦ c.seat ]

abbrev pub with_seat : Seat → SessionContext → SessionContext
with_seat seat c = record c { seat = seat }

unfoldable pub set_seat : SessionManager → ℕ → Seat → SessionManager
set_seat s session seat = record s { sessions = update session (with_seat seat) s.sessions }

abbrev pub deactivate : SessionContext → SessionContext
deactivate c = record c { is_active = false }

unfoldable pub set_disconnected : SessionManager → ℕ → SessionManager
set_disconnected s session = record s { sessions = update session deactivate s.sessions }
