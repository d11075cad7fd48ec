-- ===== src/Sessions/Maps.antt =====
-- The maps of src/net/network/sessionManager.cpp after an insertion, a change and an erasure.
use go_game.Prelude.{
  ℕ, ◌≡◌, ◌≢◌, refl, ◌==◌, none, some, ◌>>=◌, arith, List, [], ◌∷◌, if◌then◌else◌,
}
use go_game.Sessions.{SessionContext, lookup, erase, update}

pub lookup-update :
    (k q : ℕ) (f : SessionContext → SessionContext) (m : List (ℕ × SessionContext))
    → lookup q (update k f m) ≡ (if k == q then (lookup q m >>= λ c. some (f c)) else lookup q m)
lookup-update k q f [] = ground arith
lookup-update k q f ((k', c) ∷ rest) = ground (arith, lookup-update k q f rest)

pub lookup-erase_self {ℓ} : {A : Type ℓ} (k : ℕ) (m : List (ℕ × A)) → lookup k (erase k m) ≡ none
lookup-erase_self k [] = refl
lookup-erase_self k ((k', c) ∷ rest) = ground (arith, lookup-erase_self k rest)

pub lookup-erase {ℓ} :
    {A : Type ℓ} (k q : ℕ) (m : List (ℕ × A)) → k ≢ q → lookup q (erase k m) ≡ lookup q m
lookup-erase k q [] ne = refl
lookup-erase k q ((k', c) ∷ rest) ne = ground (arith, lookup-erase k q rest ne)

module _ {ℓ} {A : Type ℓ} (k q : ℕ) (a : A) (m : List (ℕ × A)) where
  pub lookup-head : k ≡ q → lookup q ((k, a) ∷ m) ≡ some a
  lookup-head is = ground (arith, is)

  pub lookup-tail : k ≢ q → lookup q ((k, a) ∷ m) ≡ lookup q m
  lookup-tail ne = ground (arith, ne)
