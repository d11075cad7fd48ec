-- ===== src/Rules/Count.antt =====
-- Marks on the coordinates of a board (the grids of bits in src/game/core/moveChecker.cpp): how
-- many there are.
use go_game.Prelude.{
  ℕ, zero, suc, ◌+◌, ◌*◌, ◌≤◌, ◌<◌, ◌≡◌, ◌≢◌, refl, Bool, true, false, arith, Bool-cases,
  zero_or_pos, inl, inr,
}
use go_game.Model.{Coord, coord}
use go_game.Model.Grid.{Inside}
use go_game.Rules.{Marks, no_marks, mark}

abbrev one : Bool → ℕ
one true = 1
one false = 0

-- The marks of column `x` in its first `k` rows.
pub count_column : Marks → ℕ → ℕ → ℕ
count_column m x zero = 0
count_column m x (suc k) = one (m (coord x k)) + count_column m x k

count_columns : Marks → ℕ → ℕ → ℕ
count_columns m n zero = 0
count_columns m n (suc k) = count_column m k n + count_columns m n k

-- How many coordinates of a board of size `n` are marked.
unfoldable pub count : Marks → ℕ → ℕ
unfolding count_column count_columns
count m n = count_columns m n n

count_column-mark_other :
    (m : Marks) (c : Coord) (x k : ℕ) → (c.x ≢ x) → count_column (mark m c) x k ≡ count_column m x k
unfolding count_column
count_column-mark_other m c x zero h = refl
count_column-mark_other m c x (suc k) h = ground (arith, count_column-mark_other m c x k h)

count_column-mark_above :
    (m : Marks) (c : Coord) (x k : ℕ) → k ≤ c.y → count_column (mark m c) x k ≡ count_column m x k
unfolding count_column
count_column-mark_above m c x zero h = refl
count_column-mark_above m c x (suc k) h =
    ground (arith, count_column-mark_above m c x k (omega arith))

count_column-mark :
    (m : Marks) (c : Coord) (k : ℕ)
    → c.y < k
    → m c ≡ false
    → count_column (mark m c) c.x k ≡ suc (count_column m c.x k)
unfolding count_column
count_column-mark m c zero h e = elim h [ ]
count_column-mark m c (suc k) h e =
    ground (arith, count_column-mark m c k, count_column-mark_above m c c.x k)

count_columns-mark_right :
    (m : Marks) (c : Coord) (n k : ℕ) → k ≤ c.x → count_columns (mark m c) n k ≡ count_columns m n k
unfolding count_columns
count_columns-mark_right m c n zero h = refl
count_columns-mark_right m c n (suc k) h = omega (
  arith,
  count_columns-mark_right m c n k (omega arith),
  count_column-mark_other m c k n (omega arith),
)

count_columns-mark :
    (m : Marks) (c : Coord) (n k : ℕ)
    → c.x < k
    → c.y < n
    → m c ≡ false
    → count_columns (mark m c) n k ≡ suc (count_columns m n k)
unfolding count_columns
count_columns-mark m c n zero h hy e = elim h [ ]
count_columns-mark m c n (suc k) h hy e = ground (
  arith,
  count_columns-mark m c n k,
  count_columns-mark_right m c n k,
  count_column-mark_other m c k n,
  count_column-mark m c n hy e,
)

-- A new mark on the board adds one.
pub count-mark :
    (m : Marks) (c : Coord) (n : ℕ)
    → Inside n c
    → m c ≡ false
    → count (mark m c) n ≡ suc (count m n)
unfolding count
count-mark m c n h e = count_columns-mark m c n n h.0 h.1 e

count_column-le : (m : Marks) (x k : ℕ) → count_column m x k ≤ k
unfolding count_column
count_column-le m x zero = omega arith
count_column-le m x (suc k) = ground (arith, count_column-le m x k)

count_columns-le : (m : Marks) (n k : ℕ) → count_columns m n k ≤ k * n
unfolding count_columns
count_columns-le m n zero = omega arith
count_columns-le m n (suc k) = omega (arith, count_columns-le m n k, count_column-le m k n)

pub count-le : (m : Marks) (n : ℕ) → count m n ≤ n * n
unfolding count
count-le m n = count_columns-le m n n

count_column-no_marks : (x k : ℕ) → count_column no_marks x k ≡ 0
unfolding count_column
count_column-no_marks x zero = refl
count_column-no_marks x (suc k) = omega (arith, count_column-no_marks x k)

count_columns-no_marks : (n k : ℕ) → count_columns no_marks n k ≡ 0
unfolding count_columns
count_columns-no_marks n zero = refl
count_columns-no_marks n (suc k) =
    omega (arith, count_columns-no_marks n k, count_column-no_marks k n)

pub count-no_marks : (n : ℕ) → count no_marks n ≡ 0
unfolding count
count-no_marks n = count_columns-no_marks n n

count_column-pos : (m : Marks) (c : Coord) (k : ℕ) → c.y < k → m c ≡ true → 0 < count_column m c.x k
unfolding count_column
count_column-pos m c zero h e = elim h [ ]
count_column-pos m c (suc k) h e = ground (arith, count_column-pos m c k)

count_columns-pos :
    (m : Marks) (c : Coord) (n k : ℕ) → c.x < k → c.y < n → m c ≡ true → 0 < count_columns m n k
unfolding count_columns
count_columns-pos m c n zero h hy e = elim h [ ]
count_columns-pos m c n (suc k) h hy e =
    ground (arith, count_columns-pos m c n k, count_column-pos m c n hy e)

-- A marked coordinate of the board makes the count positive.
pub count-pos : (m : Marks) (c : Coord) (n : ℕ) → Inside n c → m c ≡ true → 0 < count m n
unfolding count
count-pos m c n h e = count_columns-pos m c n n h.0 h.1 e

count_column-find :
    (m : Marks) (x k : ℕ) → 0 < count_column m x k → (y : ℕ) × (y < k) × (m (coord x y) ≡ true)
unfolding count_column
count_column-find m x zero h = absurd (omega arith)
count_column-find m x (suc k) h = elim (Bool-cases (m (coord x k))) [
  | inl e ↦ (k, omega arith, e)
  | inr e ↦ let (y, lt, found) = count_column-find m x k (ground arith) in (y, omega arith, found)
]

count_columns-find :
    (m : Marks) (n k : ℕ)
    → 0 < count_columns m n k
    → (c : Coord) × (c.x < k) × (c.y < n) × (m c ≡ true)
unfolding count_columns
count_columns-find m n zero h = absurd (omega arith)
count_columns-find m n (suc k) h = elim (zero_or_pos (count_column m k n)) [
  | inl e ↦
      let (c, hx, hy, found) = count_columns-find m n k (omega arith) in (c, omega arith, hy, found)
  | inr some_here ↦
      let (y, hy, found) = count_column-find m k n some_here in (coord k y, omega arith, hy, found)
]

-- A positive count has a marked coordinate.
pub count-find : (m : Marks) (n : ℕ) → 0 < count m n → (c : Coord) × Inside n c × (m c ≡ true)
unfolding count
count-find m n h = let (c, hx, hy, e) = count_columns-find m n n h in (c, (hx, hy), e)
