-- ===== src/Session/Pending.antt =====
-- The map of the chat that waits in src/apps/runtime/sessionManager.cpp, and the numbers of its history.
use go_game.Prelude.{
  ℕ, zero, suc, ◌+◌, ◌≤◌, ◌<◌, ◌≡◌, ◌≢◌, refl, sym, ◌∙◌, ap, ap₂, inl, inr, ◌⊎◌, ◌==◌, none, some,
  arith, List, [], ◌∷◌, ◌++◌, length, Bool-cases, ==→≡, ==→≢, Option-cases, length-append,
}
use mathlib.Core.List.{head-eq_of_cons-eq, tail-eq_of_cons-eq}
use go_game.Session.{ChatEntry, find, emplace, erase}

-- The numbers from one on.
abbrev pub ids_from : ℕ → ℕ → List ℕ
ids_from k zero = []
ids_from k (suc n) = k ∷ ids_from (k + 1) n

abbrev pub ids : List ChatEntry → List ℕ
ids [] = []
ids (e ∷ es) = e.message_id ∷ ids es

pub find-erase_self : (k : ℕ) (p : List (ℕ × ChatEntry)) → find k (erase k p) ≡ none
find-erase_self k [] = refl
find-erase_self k ((k', e) ∷ rest) = ground (arith, find-erase_self k rest)

pub find-erase : (k q : ℕ) (p : List (ℕ × ChatEntry)) → k ≢ q → find q (erase k p) ≡ find q p
find-erase k q [] ne = refl
find-erase k q ((k', e) ∷ rest) ne = ground (arith, find-erase k q rest ne)

pub length-erase_le : (k : ℕ) (p : List (ℕ × ChatEntry)) → length (erase k p) ≤ length p
length-erase_le k [] = omega arith
length-erase_le k ((k', e) ∷ rest) = ground (arith, length-erase_le k rest)

pub length-erase :
    (k : ℕ) (p : List (ℕ × ChatEntry)) (e : ChatEntry)
    → find k p ≡ some e
    → length (erase k p) < length p
length-erase k [] e h = absurd (cc h)
length-erase k ((k', e') ∷ rest) e h = ground (arith, length-erase k rest e, length-erase_le k rest)

pub ids-snoc :
    (es : List ChatEntry) (e : ChatEntry) (k : ℕ)
    → ids es ≡ ids_from k (length es)
    → e.message_id ≡ k + length es
    → ids (es ++ e ∷ []) ≡ ids_from k (suc (length es))
ids-snoc [] e k h is = let same : e.message_id ≡ k = omega arith in ap (λ (j : ℕ). j ∷ []) same
ids-snoc (d ∷ es) e k h is =
    ap₂ ◌∷◌ (head-eq_of_cons-eq h)
      (ids-snoc es e (k + 1) (tail-eq_of_cons-eq h) (omega (arith, is)))

pub length-snoc : (es : List ChatEntry) (e : ChatEntry) → length (es ++ e ∷ []) ≡ suc (length es)
length-snoc es e = omega (arith, length-append es (e ∷ []))

pub find-erased :
    (j k : ℕ) (p : List (ℕ × ChatEntry)) (d : ChatEntry)
    → find k (erase j p) ≡ some d
    → find k p ≡ some d
find-erased j k p d h = elim (Bool-cases (j == k)) [
  | inl is ↦
      let gone : find k (erase j p) ≡ none = rw (==→≡ j k is) (find-erase_self k p) in
      absurd (cc (gone, h))
  | inr other ↦ sym (find-erase j k p (==→≢ j k other)) ∙ h
]

pub emplace_new :
    (k : ℕ) (e : ChatEntry) (p : List (ℕ × ChatEntry))
    → find k p ≡ none
    → emplace k e p ≡ (k, e) ∷ p
emplace_new k e p h = ground arith

pub emplace_old :
    (k : ℕ) (e d : ChatEntry) (p : List (ℕ × ChatEntry)) → find k p ≡ some d → emplace k e p ≡ p
emplace_old k e d p h = ground arith

pub find-emplace :
    (k q : ℕ) (e : ChatEntry) (p : List (ℕ × ChatEntry)) (d : ChatEntry)
    → find q p ≡ some d
    → find q (emplace k e p) ≡ some d
find-emplace k q e p d h = elim (Option-cases (find k p)) [
  | inl new ↦
      let ne : k ≢ q = λ is. cc (new, h, is) in rw (emplace_new k e p new) (ground (arith, ne))
  | inr (old, there) ↦ rw (emplace_old k e old p there) h
]

pub find-emplace_self :
    (k : ℕ) (e : ChatEntry) (p : List (ℕ × ChatEntry))
    → (d : ChatEntry) × (find k (emplace k e p) ≡ some d)
find-emplace_self k e p = elim (Option-cases (find k p)) [
  | inl new ↦ (e, rw (emplace_new k e p new) (ground arith))
  | inr (old, there) ↦ (old, rw (emplace_old k e old p there) there)
]

pub find-emplace_new :
    (k : ℕ) (e : ChatEntry) (p : List (ℕ × ChatEntry))
    → find k p ≡ none
    → find k (emplace k e p) ≡ some e
find-emplace_new k e p new = rw (emplace_new k e p new) (ground arith)

pub find-emplaced :
    (k q : ℕ) (e : ChatEntry) (p : List (ℕ × ChatEntry)) (d : ChatEntry)
    → find q (emplace k e p) ≡ some d
    → (find q p ≡ some d) ⊎ ((k ≡ q) × (e ≡ d))
find-emplaced k q e p d h = elim (Option-cases (find k p)) [
  | inl new ↦ ground (arith, emplace_new k e p new)
  | inr (old, there) ↦ inl (rw (emplace_old k e old p there) at h)
]

pub length-emplace_le :
    (k : ℕ) (e : ChatEntry) (p : List (ℕ × ChatEntry)) → length (emplace k e p) ≤ length p + 1
length-emplace_le k e p = elim (Option-cases (find k p)) [
  | inl new ↦ rw (emplace_new k e p new) (omega arith)
  | inr (old, there) ↦ rw (emplace_old k e old p there) (omega arith)
]
