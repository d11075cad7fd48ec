-- ===== src/TcpServer/Held.antt =====
-- The map of connections of src/net/core/tcpServer.cpp: which of its connections run.
use go_game.Prelude.{
  ℕ, ◌≡◌, refl, sym, ◌⊎◌, ◌∈◌, ==→≡, true, false, ◌==◌, if-either, some, List, [], ◌∷◌, Bool-cases,
  inl, inr,
}
use mathlib.Core.Path.{subst}
use mathlib.Core.Option.{some-injective}
use go_game.Connection.{Connection}
use go_game.TcpServer.{connection_at, with_connection, without_connection, closed}

-- A connection runs, or it has stopped and its callback is still to come.
abbrev pub IsHeld : List ℕ → ℕ → Connection → Type 0
IsHeld closing k c = (c.running ≡ true) ⊎ (k ∈ closing)

abbrev pub AllLive : List ℕ → List (ℕ × Connection) → Type 0
AllLive closing [] = Unit
AllLive closing ((k, c) ∷ rest) = IsHeld closing k c × AllLive closing rest

pub AllLive-cons :
    (id : ℕ) (closing : List ℕ) (cs : List (ℕ × Connection))
    → AllLive closing cs
    → AllLive (id ∷ closing) cs
AllLive-cons id closing [] h = tt
AllLive-cons id closing ((k, c) ∷ rest) (here, h) =
    (elim here [ inl on ↦ inl on | inr waits ↦ inr (inr waits) ], AllLive-cons id closing rest h)

pub with_connection-AllLive :
    (closing : List ℕ) (k : ℕ) (c : Connection) (cs : List (ℕ × Connection))
    → IsHeld closing k c
    → AllLive closing cs
    → AllLive closing (with_connection k c cs)
with_connection-AllLive closing k c [] held h = tt
with_connection-AllLive closing k c ((k', c') ∷ rest) held (held', h) = (
  if-either (λ (d : Connection). IsHeld closing k' d) (k' == k)
      (λ same. subst (λ (j : ℕ). IsHeld closing j c) (sym (==→≡ k' k same)) held) (λ other. held'),
  with_connection-AllLive closing k c rest held h,
)

pub without_connection-AllLive :
    (closing : List ℕ) (k : ℕ) (cs : List (ℕ × Connection))
    → AllLive closing cs
    → AllLive closing (without_connection k cs)
without_connection-AllLive closing k [] h = tt
without_connection-AllLive closing k ((k', c) ∷ rest) (held, h) =
    let h' = without_connection-AllLive closing k rest h in
    if-either (AllLive closing) (k' == k) (λ same. h') (λ other. (held, h'))

∈-closed : (id k : ℕ) (closing : List ℕ) → (k == id) ≡ false → k ∈ closing → k ∈ closed id closing
∈-closed id k [] ne m = m
∈-closed id k (j ∷ js) ne (inl is) =
    if-either (λ (l : List ℕ). k ∈ l) (j == id)
      (λ same. let is' : (k == id) ≡ true = rw is same in absurd (cc (is', ne))) (λ other. inl is)
∈-closed id k (j ∷ js) ne (inr m) =
    if-either (λ (l : List ℕ). k ∈ l) (j == id) (λ same. m) (λ other. inr (∈-closed id k js ne m))

-- The callback takes out its connection and no other.
pub closed-AllLive :
    (closing : List ℕ) (id : ℕ) (cs : List (ℕ × Connection))
    → AllLive closing cs
    → AllLive (closed id closing) (without_connection id cs)
closed-AllLive closing id [] h = tt
closed-AllLive closing id ((k, c) ∷ rest) (held, h) =
    let h' = closed-AllLive closing id rest h in
    if-either (AllLive (closed id closing)) (k == id) (λ same. h')
      (λ other.
        (elim held [ inl on ↦ inl on | inr waits ↦ inr (∈-closed id k closing other waits) ], h'))

pub connection_at-IsHeld :
    (closing : List ℕ) (k : ℕ) (cs : List (ℕ × Connection)) (c : Connection)
    → AllLive closing cs
    → connection_at k cs ≡ some c
    → IsHeld closing k c
connection_at-IsHeld closing k [] c h e = absurd (cc e)
connection_at-IsHeld closing k ((k', c') ∷ rest) c (held, h) e = elim (Bool-cases (k' == k)) [
  | inl same ↦
      let held' = subst (IsHeld closing k') (some-injective _ _ (rw same at e)) held in
      subst (λ (j : ℕ). IsHeld closing j c) (==→≡ k' k same) held'
  | inr other ↦ connection_at-IsHeld closing k rest c h (rw other at e)
]

pub connection_at-with_connection :
    (k : ℕ) (d : Connection) (cs : List (ℕ × Connection)) (c : Connection)
    → connection_at k cs ≡ some c
    → connection_at k (with_connection k d cs) ≡ some d
connection_at-with_connection k d [] c e = absurd (cc e)
connection_at-with_connection k d ((k', c') ∷ rest) c e = elim (Bool-cases (k' == k)) [
  | inl same ↦ rw same refl
  | inr other ↦ rw other (connection_at-with_connection k d rest c (rw other at e))
]
