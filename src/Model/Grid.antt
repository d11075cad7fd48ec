-- ===== src/Model/Grid.antt =====
-- The board of src/game/model/board.cpp as a grid: reads and writes by coordinate, with the index
-- arithmetic hidden.
use go_game.Prelude.{
  ℕ, suc, ◌*◌, ◌<◌, ◌≡◌, refl, ◌∙◌, ◌≢◌, true, false, some, List, get_elem?, get_or, length,
  length-set, length-replicate, get_or-replicate, get_or-set_self, get_or-set_ne, arith, [], ◌∷◌,
  zero, if◌then◌else◌, Bool-cases, inl, inr,
}
use go_game.Model.{
  Coord, Stone, empty, Board, new_board, index, write, get, is_empty, place, remove, same_coord,
  same_stone,
}

abbrev pub Inside : ℕ → Coord → Type 0
Inside n c = (c.x < n) × (c.y < n)

-- The vector has a cell for each coordinate.
abbrev pub IsValid : Board → Type 0
IsValid b = length b.cells ≡ b.size * b.size

-- The stone at a coordinate of the board.
unfoldable pub at : Board → Coord → Stone
at b c = get_or b.cells (index b.size c) empty

pub same_coord→≡ : (c d : Coord) → same_coord c d ≡ true → c ≡ d
same_coord→≡ c d e = ground arith

pub same_coord_refl : (c : Coord) → same_coord c c ≡ true
same_coord_refl c = ground arith

pub same_coord→≢ : (c d : Coord) → same_coord c d ≡ false → c ≢ d
same_coord→≢ c d e h = ground arith

pub same_stone→≡ : (s t : Stone) → same_stone s t ≡ true → s ≡ t
same_stone→≡ s t e = ground arith

pub same_stone_refl : (s : Stone) → same_stone s s ≡ true
same_stone_refl s = ground arith

index-lt : (n : ℕ) (c : Coord) → Inside n c → index n c < n * n
index-lt n c h = grind arith

index-lt-index : (n : ℕ) (c d : Coord) → c.x < n → c.y < d.y → index n c < index n d
index-lt-index n c d h k = grind arith

index_inj : (n : ℕ) (c d : Coord) → c.x < n → d.x < n → index n c ≡ index n d → c ≡ d
index_inj n c d hc hd e = ground (arith, index-lt-index n c d, index-lt-index n d c)

get_elem?-eq-get_or :
    {A : Type 0} (xs : List A) (i : ℕ) (d : A)
    → i < length xs
    → get_elem? xs i ≡ some (get_or xs i d)
get_elem?-eq-get_or [] i d h = elim h [ ]
get_elem?-eq-get_or (x ∷ xs) zero d h = refl
get_elem?-eq-get_or (x ∷ xs) (suc i) d h = get_elem?-eq-get_or xs i d (omega arith)

pub new_board-IsValid : (n : ℕ) → IsValid (new_board n)
unfolding new_board
new_board-IsValid n = length-replicate (n * n) empty

pub at-new_board : (n : ℕ) (c : Coord) → at (new_board n) c ≡ empty
unfolding new_board at
at-new_board n c = get_or-replicate (n * n) (index n c) empty

module _ (b : Board) (valid : IsValid b) (c : Coord) (inside : Inside b.size c) where
  in_range : index b.size c < length b.cells
  in_range = ground (arith, index-lt b.size c inside)

  pub get_lem : get b c ≡ some (at b c)
  unfolding get at
  get_lem = ground (arith, get_elem?-eq-get_or b.cells (index b.size c) empty in_range)

  pub is_empty_lem : is_empty b c ≡ some (same_stone (at b c) empty)
  unfolding is_empty
  is_empty_lem = ground (arith, get_lem)

  pub at-write_self : (s : Stone) → at (write b c s) c ≡ s
  unfolding at
  at-write_self s = get_or-set_self b.cells (index b.size c) s empty in_range

  pub at-write_ne : (s : Stone) (d : Coord) → Inside b.size d → c ≢ d → at (write b c s) d ≡ at b d
  unfolding at
  at-write_ne s d hd ne =
      get_or-set_ne b.cells (index b.size c) (index b.size d) s empty
        (λ e. ne (index_inj b.size c d inside.0 hd.0 e))

  pub at-write :
      (s : Stone) (d : Coord)
      → Inside b.size d
      → at (write b c s) d ≡ (if same_coord c d then s else at b d)
  at-write s d hd = elim (Bool-cases (same_coord c d)) [
    | inl e ↦ rw (e, ← same_coord→≡ c d e) (at-write_self s)
    | inr e ↦ rw e (at-write_ne s d hd (same_coord→≢ c d e))
  ]

  pub write-IsValid : (s : Stone) → IsValid (write b c s)
  write-IsValid s = length-set b.cells (index b.size c) s ∙ valid

  -- A stone is placed on a free point, and a point that is taken keeps its stone.
  pub place_free : (s : Stone) → s ≢ empty → at b c ≡ empty → place b c s ≡ some (write b c s, true)
  unfolding place
  place_free s ne free =
      ground (arith, is_empty_lem, same_stone_refl (at b c), same_stone→≡ s empty)

  pub place_taken : (s : Stone) → s ≢ empty → at b c ≢ empty → place b c s ≡ some (b, false)
  unfolding place
  place_taken s ne taken =
      ground (arith, is_empty_lem, same_stone→≡ (at b c) empty, same_stone→≡ s empty)

  pub remove_taken : at b c ≢ empty → remove b c ≡ some (write b c empty, true)
  unfolding remove
  remove_taken taken = ground (arith, is_empty_lem, same_stone→≡ (at b c) empty)

  pub remove_free : at b c ≡ empty → remove b c ≡ some (b, false)
  unfolding remove
  remove_free free = ground (arith, is_empty_lem, same_stone_refl (at b c))
