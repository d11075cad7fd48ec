-- ===== src/Legal/Fold.antt =====
-- Exclusive or over the coordinates of a board, for the hashes of src/game/core/moveChecker.cpp.
use go_game.Prelude.{
  ℕ, zero, suc, ◌+◌, ◌≤◌, ◌<◌, ◌≡◌, ◌≢◌, refl, sym, ◌∙◌, ap, ap₂, inl, inr, List, [], ◌∷◌, ◌++◌,
  ◌∈◌, arith, if◌then◌else◌, Bool-cases, ==→≡, ==→≢, ◌==◌, bit_xor,
}
use go_game.Prelude.Xor.{zero-bit_xor, bit_xor-zero, bit_xor_assoc, bit_xor_left_comm}
use go_game.Model.{Coord, coord, same_coord}
use go_game.Model.Grid.{Inside, same_coord→≡}
use go_game.Rules.{Marks}
use go_game.Legal.{column, columns, coords, collect}
use go_game.Legal.Coords.{mem-column, mem-columns}

abbrev pub xor_over : (Coord → ℕ) → List Coord → ℕ
xor_over f [] = 0
xor_over f (c ∷ cs) = bit_xor (f c) (xor_over f cs)

pub xor_over-append :
    (f : Coord → ℕ) (xs ys : List Coord)
    → xor_over f (xs ++ ys) ≡ bit_xor (xor_over f xs) (xor_over f ys)
xor_over-append f [] ys = sym (zero-bit_xor _)
xor_over-append f (x ∷ xs) ys =
    ap (bit_xor (f x)) (xor_over-append f xs ys) ∙ sym (bit_xor_assoc (f x) _ _)

pub xor_over-zero :
    (f : Coord → ℕ) (cs : List Coord) → ((c : Coord) → c ∈ cs → f c ≡ 0) → xor_over f cs ≡ 0
xor_over-zero f [] h = refl
xor_over-zero f (c ∷ cs) h =
    ap₂ bit_xor (h c (inl refl)) (xor_over-zero f cs (λ d m. h d (inr m))) ∙ zero-bit_xor 0

pub xor_over-congr :
    (f g : Coord → ℕ) (cs : List Coord)
    → ((c : Coord) → c ∈ cs → f c ≡ g c)
    → xor_over f cs ≡ xor_over g cs
xor_over-congr f g [] h = refl
xor_over-congr f g (c ∷ cs) h =
    ap₂ bit_xor (h c (inl refl)) (xor_over-congr f g cs (λ d m. h d (inr m)))

swap_middle :
    (a b c d : ℕ) → bit_xor (bit_xor a b) (bit_xor c d) ≡ bit_xor (bit_xor a c) (bit_xor b d)
swap_middle a b c d =
    bit_xor_assoc a b (bit_xor c d)
    ∙ ap (bit_xor a) (bit_xor_left_comm b c d)
    ∙ sym (bit_xor_assoc a c (bit_xor b d))

pub xor_over-xor :
    (f g : Coord → ℕ) (cs : List Coord)
    → xor_over (λ c. bit_xor (f c) (g c)) cs ≡ bit_xor (xor_over f cs) (xor_over g cs)
xor_over-xor f g [] = sym (zero-bit_xor 0)
xor_over-xor f g (c ∷ cs) =
    ap (bit_xor (bit_xor (f c) (g c))) (xor_over-xor f g cs) ∙ swap_middle (f c) (g c) _ _

pub xor_over-collect :
    (f : Coord → ℕ) (m : Marks) (cs : List Coord)
    → xor_over f (collect m cs) ≡ xor_over (λ c. if m c then f c else 0) cs
unfolding collect
xor_over-collect f m [] = refl
xor_over-collect f m (c ∷ cs) = elim (Bool-cases (m c)) [
  | inl e ↦ rw e (ap (bit_xor (f c)) (xor_over-collect f m cs))
  | inr e ↦ rw e (xor_over-collect f m cs ∙ sym (zero-bit_xor _))
]

-- A value at one point is met once.
module _ (move : Coord) (k : ℕ) where
  abbrev pub only : Coord → ℕ
  only c = if same_coord move c then k else 0

  only_ne : (c : Coord) → move ≢ c → only c ≡ 0
  only_ne c ne = elim (Bool-cases (same_coord move c)) [
    | inl e ↦ absurd (ne (same_coord→≡ move c e))
    | inr e ↦ rw e
  ]

  xor_over-column :
      (y left : ℕ) → y ≤ move.y → move.y < y + left → xor_over only (column move.x y left) ≡ k
  xor_over-column y zero lo hi = absurd (omega arith)
  xor_over-column y (suc left) lo hi = elim (Bool-cases (same_coord move (coord move.x y))) [
    | inl e ↦
        let later =
          xor_over-zero only (column move.x (y + 1) left)
            (λ c m. only_ne c (λ e'. ground (arith, (mem-column c move.x (y + 1) left).0 m))) in
        ap₂ bit_xor (ground (arith, e)) later ∙ bit_xor-zero k
    | inr e ↦
        ap₂ bit_xor (rw e) (xor_over-column (y + 1) left (ground (arith, e)) (omega arith))
        ∙ zero-bit_xor k
  ]

  xor_over-columns :
      (n x left : ℕ)
      → x ≤ move.x
      → move.x < x + left
      → move.y < n
      → xor_over only (columns n x left) ≡ k
  xor_over-columns n x zero lo hi hy = absurd (omega arith)
  xor_over-columns n x (suc left) lo hi hy =
      xor_over-append only (column x 0 n) (columns n (x + 1) left)
      ∙ elim (Bool-cases (move.x == x)) [
        | inl e ↦
            let here : xor_over only (column x 0 n) ≡ k =
              rw (← ==→≡ move.x x e) (xor_over-column 0 n (omega arith) (omega arith)) in
            let later = xor_over-zero only (columns n (x + 1) left) (λ c m.
              only_ne c
                (λ e'. ground (arith, (mem-columns c n (x + 1) left).0 m, ==→≡ move.x x e))) in
            ap₂ bit_xor here later ∙ bit_xor-zero k
        | inr e ↦
            let before = xor_over-zero only (column x 0 n) (λ c m.
              only_ne c (λ e'. ground (arith, (mem-column c x 0 n).0 m, ==→≢ move.x x e))) in
            ap₂ bit_xor before
              (xor_over-columns n (x + 1) left (omega (arith, ==→≢ move.x x e)) (omega arith) hy)
            ∙ zero-bit_xor k
      ]

  -- Over all the points of a board, a value at one of them is the result.
  pub xor_over-only : (n : ℕ) → Inside n move → xor_over only (coords n) ≡ k
  unfolding coords
  xor_over-only n h = xor_over-columns n 0 n (omega arith) (omega arith) h.1
