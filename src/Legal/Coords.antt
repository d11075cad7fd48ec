-- ===== src/Legal/Coords.antt =====
-- The loops over all coordinates in `simulatePosition` of src/game/core/moveChecker.cpp: each point
-- of the board is met, and the captured ones are collected.
use go_game.Prelude.{
  ℕ, zero, suc, ◌+◌, ◌≤◌, ◌<◌, ◌≡◌, ◌↔◌, ◌⊎◌, inl, inr, true, arith, List, [], ◌∷◌, ◌++◌, ◌∈◌,
}
use go_game.Model.{Coord}
use go_game.Model.Grid.{Inside}
use go_game.Rules.{Marks}
use go_game.Legal.{column, columns, coords, collect}

mem-append : {A : Type 0} (q : A) (xs ys : List A) → (q ∈ (xs ++ ys)) ↔ ((q ∈ xs) ⊎ (q ∈ ys))
mem-append q [] ys = (λ h. inr h, λ h. elim h [ inl i ↦ absurd i | inr i ↦ i ])
mem-append q (x ∷ xs) ys =
    (λ h. ground (arith, (mem-append q xs ys).0), λ h. ground (arith, (mem-append q xs ys).1))

pub mem-column :
    (q : Coord) (x y left : ℕ) → (q ∈ column x y left) ↔ ((q.x ≡ x) × (y ≤ q.y) × (q.y < y + left))
mem-column q x y zero = (λ h. absurd h, λ h. absurd (omega arith))
mem-column q x y (suc left) = (
  λ h. ground (arith, (mem-column q x (y + 1) left).0),
  λ h. ground (arith, (mem-column q x (y + 1) left).1),
)

pub mem-columns :
    (q : Coord) (n x left : ℕ) → (q ∈ columns n x left) ↔ ((x ≤ q.x) × (q.x < x + left) × (q.y < n))
mem-columns q n x zero = (λ h. absurd h, λ h. absurd (omega arith))
mem-columns q n x (suc left) = (
  λ h. elim ((mem-append q (column x 0 n) (columns n (x + 1) left)).0 h) [
    | inl i ↦ ground (arith, (mem-column q x 0 n).0 i)
    | inr i ↦ ground (arith, (mem-columns q n (x + 1) left).0 i)
  ],
  λ h.
      (mem-append q (column x 0 n) (columns n (x + 1) left)).1
        (ground (arith, (mem-column q x 0 n).1, (mem-columns q n (x + 1) left).1)),
)

-- The loops meet the points of the board and no others.
pub mem-coords : (q : Coord) (n : ℕ) → (q ∈ coords n) ↔ Inside n q
unfolding coords
mem-coords q n =
    (λ h. ground (arith, (mem-columns q n 0 n).0 h), λ h. (mem-columns q n 0 n).1 (omega arith))

pub mem-collect :
    (m : Marks) (cs : List Coord) (q : Coord) → (q ∈ collect m cs) ↔ ((q ∈ cs) × (m q ≡ true))
unfolding collect
mem-collect m [] q = (λ h. absurd h, λ h. absurd h.0)
mem-collect m (c ∷ cs) q =
    (λ h. ground (arith, (mem-collect m cs q).0), λ h. ground (arith, (mem-collect m cs q).1))
