-- ===== src/Sessions/Numbers.antt =====
-- The numbers of the sessions of src/net/network/sessionManager.cpp: a free one is found.
use go_game.Prelude.{
  ℕ, zero, suc, ◌+◌, ◌≤◌, ◌<◌, ◌≡◌, ◌∙◌, inl, inr, true, false, leb, none, some, arith, List, [],
  ◌∷◌, length, if◌then◌else◌, Bool-cases, Option-cases,
}
use go_game.Position.{increment, u32_mod}
use go_game.Sessions.{SessionContext, lookup, is_taken, skip_zero, free_id}

-- The entries with this number or a later one.
abbrev pub later : ℕ → List (ℕ × SessionContext) → ℕ
later k [] = 0
later k ((k', c) ∷ rest) = if leb k k' then later k rest + 1 else later k rest

pub later_le : (k : ℕ) (m : List (ℕ × SessionContext)) → later k m ≤ length m
later_le k [] = omega arith
later_le k ((k', c) ∷ rest) = ground (arith, later_le k rest)

later-suc_le : (k : ℕ) (m : List (ℕ × SessionContext)) → later (k + 1) m ≤ later k m
later-suc_le k [] = omega arith
later-suc_le k ((k', c) ∷ rest) = ground (arith, later-suc_le k rest)

later-suc :
    (k : ℕ) (m : List (ℕ × SessionContext)) → is_taken k m ≡ true → later (k + 1) m < later k m
later-suc k [] e = absurd (cc e)
later-suc k ((k', c) ∷ rest) e = ground (arith, later-suc k rest, later-suc_le k rest)

-- With enough fuel and before the numbers wrap around, a free number is found.
pub record Found (k fuel : ℕ) (m : List (ℕ × SessionContext)) : Type 0 where
  pub id : ℕ
  pub returns : free_id fuel k m ≡ some id
  pub free : lookup id m ≡ none
  pub low : k ≤ id
  pub high : id < k + fuel

free_id-stop :
    (fuel k : ℕ) (m : List (ℕ × SessionContext))
    → is_taken k m ≡ false
    → free_id (suc fuel) k m ≡ some k
unfolding free_id
free_id-stop fuel k m e = ground arith

free_id-step :
    (fuel k : ℕ) (m : List (ℕ × SessionContext))
    → is_taken k m ≡ true
    → k + 1 < u32_mod
    → free_id (suc fuel) k m ≡ free_id fuel (k + 1) m
unfolding free_id
free_id-step fuel k m e fits =
    let next : skip_zero (increment k) ≡ k + 1 = ground arith in ground (arith, next)

not_taken : (k : ℕ) (m : List (ℕ × SessionContext)) → is_taken k m ≡ false → lookup k m ≡ none
not_taken k m e = elim (Option-cases (lookup k m)) [
  | inl free ↦ free
  | inr (c, there) ↦ absurd (ground arith)
]

pub free_id-Found :
    (fuel k : ℕ) (m : List (ℕ × SessionContext))
    → later k m < fuel
    → k + fuel < u32_mod
    → Found k fuel m
free_id-Found zero k m enough fits = absurd (omega arith)
free_id-Found (suc fuel) k m enough fits = elim (Bool-cases (is_taken k m)) [
  | inr free ↦ record {
    id = k;
    returns = free_id-stop fuel k m free;
    free = not_taken k m free;
    low = omega arith;
    high = omega arith;
  }
  | inl taken ↦
      let r = free_id-Found fuel (k + 1) m (omega (arith, later-suc k m taken)) (omega arith) in
      record {
        id = r.id;
        returns = free_id-step fuel k m taken (omega arith) ∙ r.returns;
        free = r.free;
        low = omega (arith, r.low);
        high = omega (arith, r.high);
      }
]
