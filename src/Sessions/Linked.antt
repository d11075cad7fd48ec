-- ===== src/Sessions/Linked.antt =====
-- The two maps of src/net/network/sessionManager.cpp agree, and a new session gets a number of its own.
use go_game.Prelude.{
  ℕ, ◌+◌, ◌<◌, ◌≡◌, ◌≢◌, refl, sym, ◌∙◌, ap, inl, inr, true, ◌==◌, Option, none, some, arith, ◌∷◌,
  length, Bool-cases, Option-cases, ==→≡, ==→≢,
}
use mathlib.Core.Option.{some-injective}
use go_game.Position.{increment, u32_mod}
use go_game.Net.{Seat, seat_none}
use go_game.Sessions.{
  SessionContext, SessionManager, lookup, erase, update, skip_zero, generate_session_id, add_new,
  add, remove, get_session_id, get_connection_id, get_seat, set_seat, with_seat, set_disconnected,
  deactivate,
}
use go_game.Sessions.Numbers.{later_le, free_id-Found}
use go_game.Sessions.Maps.{lookup-update, lookup-erase_self, lookup-erase, lookup-head, lookup-tail}

-- The two maps are inverse to each other, and a context has its own number.
pub record IsLinked (s : SessionManager) : Type 0 where
  pub known :
      (connection id : ℕ)
      → lookup connection s.connection_to_session ≡ some id
      → (c : SessionContext) × (lookup id s.sessions ≡ some c) × (c.connection_id ≡ connection)
  pub named :
      (id : ℕ) (c : SessionContext)
      → lookup id s.sessions ≡ some c
      → (c.session_id ≡ id) × (lookup c.connection_id s.connection_to_session ≡ some id)

-- The context of a new session.
abbrev pub context : ℕ → ℕ → SessionContext
context connection id = record {
  connection_id = connection;
  session_id = id;
  seat = seat_none;
  is_active = true;
}

-- A connection that gets a session: the number was free and is not 0, both maps have it, its seat is not
-- set, and no other session changed.
pub record Added (s : SessionManager) (connection : ℕ) (r : Option (SessionManager × ℕ))
    : Type 0 where
  pub next : SessionManager
  pub id : ℕ
  pub returns : r ≡ some (next, id)
  pub inserted : next.sessions ≡ (id, context connection id) ∷ s.sessions
  pub fresh : lookup id s.sessions ≡ none
  pub nonzero : id ≢ 0
  pub to_session : get_session_id next connection ≡ id
  pub to_connection : get_connection_id next id ≡ connection
  pub seat : get_seat next id ≡ seat_none
  pub others : (k : ℕ) → k ≢ id → lookup k next.sessions ≡ lookup k s.sessions
  pub linked : IsLinked s → IsLinked next

abbrev with_session : SessionManager → ℕ → ℕ → SessionManager
with_session s connection id = record {
  sessions = (id, context connection id) ∷ s.sessions;
  connection_to_session = (connection, id) ∷ s.connection_to_session;
  next_session_id = skip_zero (increment id);
}

with_session-IsLinked :
    (s : SessionManager) (connection id : ℕ)
    → lookup connection s.connection_to_session ≡ none
    → lookup id s.sessions ≡ none
    → IsLinked s
    → IsLinked (with_session s connection id)
with_session-IsLinked s connection id new free i = record {
  known = λ d k h. elim (Bool-cases (connection == d)) [
    | inl is ↦
        let here = lookup-head connection d id s.connection_to_session (==→≡ connection d is) in
        let same : id ≡ k = some-injective _ _ (sym here ∙ h) in
        (
          context connection id,
          lookup-head id k (context connection id) s.sessions same,
          ==→≡ connection d is,
        )
    | inr other ↦
        let old = lookup-tail connection d id s.connection_to_session (==→≢ connection d other) in
        let (c, there, from') = i.known d k (sym old ∙ h) in
        let ne : id ≢ k = λ is. cc (free, there, is) in
        (c, lookup-tail id k (context connection id) s.sessions ne ∙ there, from')
  ];
  named = λ k c h. elim (Bool-cases (id == k)) [
    | inl is ↦
        let same = ==→≡ id k is in
        let mine : context connection id ≡ c =
          some-injective _ _ (sym (lookup-head id k (context connection id) s.sessions same) ∙ h) in
        let conn : connection ≡ c.connection_id =
          ap (λ (x : SessionContext). x.connection_id) mine in
        let own : id ≡ c.session_id = ap (λ (x : SessionContext). x.session_id) mine in
        (
          sym own ∙ same,
          lookup-head connection c.connection_id id s.connection_to_session conn ∙ ap some same,
        )
    | inr other ↦
        let old = lookup-tail id k (context connection id) s.sessions (==→≢ id k other) in
        let (own, back) = i.named k c (sym old ∙ h) in
        let ne : connection ≢ c.connection_id = λ is. cc (new, back, is) in
        (own, lookup-tail connection c.connection_id id s.connection_to_session ne ∙ back)
  ];
}

add_new-Added :
    (s : SessionManager) (connection : ℕ)
    → lookup connection s.connection_to_session ≡ none
    → skip_zero s.next_session_id + length s.sessions + 1 < u32_mod
    → Added s connection (add_new s connection)
unfolding add_new generate_session_id get_session_id get_connection_id get_seat
add_new-Added s connection new fits =
    let f =
      free_id-Found (length s.sessions + 1) (skip_zero s.next_session_id) s.sessions
        (omega (arith, later_le (skip_zero s.next_session_id) s.sessions)) (omega arith) in
    record {
      next = with_session s connection f.id;
      id = f.id;
      returns = rw f.returns refl;
      inserted = refl;
      fresh = f.free;
      nonzero = ground (arith, f.low);
      to_session = ground arith;
      to_connection = ground arith;
      seat = ground arith;
      others = λ k ne. ground (arith, ne);
      linked = with_session-IsLinked s connection f.id new f.free;
    }

-- A connection without a session gets one, as long as the numbers of sessions do not wrap around: its
-- number was free and is not 0, each map leads from one to the other, its seat is not set, no other
-- session changed, and maps that agreed before agree again.
pub add-Added :
    (s : SessionManager) (connection : ℕ)
    → lookup connection s.connection_to_session ≡ none
    → skip_zero s.next_session_id + length s.sessions + 1 < u32_mod
    → Added s connection (add s connection)
add-Added s connection new fits =
    let same : add s connection ≡ add_new s connection = unfold add in ground arith in
    rw same (add_new-Added s connection new fits)

-- A change of the contexts that keeps their numbers keeps the maps linked.
pub update-IsLinked :
    (s : SessionManager) (session : ℕ) (f : SessionContext → SessionContext)
    → ((c : SessionContext) → (f c).connection_id ≡ c.connection_id)
    → ((c : SessionContext) → (f c).session_id ≡ c.session_id)
    → IsLinked s
    → IsLinked (record s { sessions = update session f s.sessions })
update-IsLinked s session f same_connection same_session i = record {
  known = λ d k h.
      let (c, there, from') = i.known d k h in
      let found = lookup-update session k f s.sessions in
      elim (Bool-cases (session == k)) [
        | inl is ↦ (f c, ground (arith, found, there, is), same_connection c ∙ from')
        | inr other ↦ (c, ground (arith, found, there, other), from')
      ];
  named = λ k c h.
      let found = lookup-update session k f s.sessions in
      elim (Bool-cases (session == k)) [
        | inl is ↦ elim (Option-cases (lookup k s.sessions)) [
          | inl gone ↦ absurd (ground (arith, found, gone, is, h))
          | inr (d, there) ↦
              let same : f d ≡ c = ground (arith, found, there, is, h) in
              let (own, back) = i.named k d there in
              rw (← same) (
                same_session d ∙ own,
                ap (λ (x : ℕ). lookup x s.connection_to_session) (same_connection d) ∙ back,
              )
        ]
        | inr other ↦ i.named k c (ground (arith, found, other, h))
      ];
}

abbrev without_session : SessionManager → ℕ → SessionContext → SessionManager
without_session s session c = record s {
  connection_to_session = erase c.connection_id s.connection_to_session;
  sessions = erase session s.sessions;
}

module _ (s : SessionManager) (session : ℕ) (i : IsLinked s) (c : SessionContext)
    (there : lookup session s.sessions ≡ some c) where
  known_left :
      (d k : ℕ)
      → lookup d (erase c.connection_id s.connection_to_session) ≡ some k
      → (c' : SessionContext) × (lookup k (erase session s.sessions) ≡ some c')
        × (c'.connection_id ≡ d)
  known_left d k h = elim (Bool-cases (c.connection_id == d)) [
    | inl is ↦
        let gone = lookup-erase_self c.connection_id s.connection_to_session in
        absurd (cc (gone, h, ==→≡ c.connection_id d is))
    | inr other ↦
        let old =
          lookup-erase c.connection_id d s.connection_to_session (==→≢ c.connection_id d other) in
        let (c', there', from') = i.known d k (sym old ∙ h) in
        let ne : session ≢ k = λ is.
          let same : c ≡ c' = cc (there, there', is) in
          ==→≢ c.connection_id d other
            (ap (λ (x : SessionContext). x.connection_id) same ∙ from') in
        (c', lookup-erase session k s.sessions ne ∙ there', from')
  ]

  named_left :
      (k : ℕ) (d : SessionContext)
      → lookup k (erase session s.sessions) ≡ some d
      → (d.session_id ≡ k)
        × (lookup d.connection_id (erase c.connection_id s.connection_to_session) ≡ some k)
  named_left k d h = elim (Bool-cases (session == k)) [
    | inl is ↦
        let gone = lookup-erase_self session s.sessions in absurd (cc (gone, h, ==→≡ session k is))
    | inr other ↦
        let old = lookup-erase session k s.sessions (==→≢ session k other) in
        let (own, back) = i.named k d (sym old ∙ h) in
        let (own_c, back_c) = i.named session c there in
        let ne : c.connection_id ≢ d.connection_id =
          λ is. let same : session ≡ k = cc (back, back_c, is) in ==→≢ session k other same in
        (own, lookup-erase c.connection_id d.connection_id s.connection_to_session ne ∙ back)
  ]

remove-IsLinked : (s : SessionManager) (session : ℕ) → IsLinked s → IsLinked (remove s session)
remove-IsLinked s session i = elim (Option-cases (lookup session s.sessions)) [
  | inl none' ↦ let same : remove s session ≡ s = unfold remove in ground arith in rw same i
  | inr (c, there) ↦
      let same : remove s session ≡ without_session s session c = unfold remove in ground arith in
      rw same
        (record { known = known_left s session i c there; named = named_left s session i c there })
]

-- When the maps agree, they do so after a seat is set, after a session is disconnected, and after a
-- session is removed, for any session.
pub changes-IsLinked :
    (s : SessionManager) (session : ℕ) (seat : Seat)
    → IsLinked s
    → IsLinked (set_seat s session seat)
      × IsLinked (set_disconnected s session)
      × IsLinked (remove s session)
changes-IsLinked s session seat i = (
  (unfold set_seat in update-IsLinked s session (with_seat seat) (λ c. refl) (λ c. refl) i),
  (unfold set_disconnected in update-IsLinked s session deactivate (λ c. refl) (λ c. refl) i),
  remove-IsLinked s session i,
)
