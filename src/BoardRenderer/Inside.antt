-- ===== src/BoardRenderer/Inside.antt =====
-- What src/apps/tengen/boardRenderer.cpp draws lies inside the board.
use go_game.Prelude.{
  ℕ, suc, ◌+◌, ◌-◌, ◌*◌, ◌/◌, ◌<◌, ◌≤◌, ◌≡◌, ◌≢◌, refl, sym, ◌∙◌, not, ◌&&◌, ◌||◌, ◌==◌, ltb, arith,
  if◌then◌else◌, if-either, ==→≡,
}
use native.Mathlib.Nat.{div-mul-le_self, mul-le-mul_right, mul-div_left}
use mathlib.Core.Path.{subst}
use go_game.BoardRenderer.{
  BoardRenderer, update_metrics, update_stone_textures, set_ready, set_nodes, set_board_size_px,
  line_offset, stone_edge,
}

-- The board fits in the pixels, and its stones and lines fit in the board.
pub record IsInside (r : BoardRenderer) (board_size_px : ℕ) : Type 0 where
  pub board : r.board_size ≤ board_size_px
  pub stones : (x : ℕ) → x < r.nodes → stone_edge r x + r.stone_size ≤ r.board_size
  pub lines :
      (i : ℕ) → i < r.nodes → (r.coord_start ≤ line_offset r i) × (line_offset r i ≤ r.coord_end)

-- The cells up to one of `n` cells of a size.
cells_le : (s n x : ℕ) → x < n → x * s + s ≤ s * n
cells_le s n x h =
    let le : suc x * s ≤ n * s = mul-le-mul_right s (omega arith) in omega (arith, le)

stone_in : (s b x : ℕ) → x * s + s ≤ b → (s / 2 - s / 2 + x * s) + s ≤ b
stone_in s b x h = omega arith

line_in :
    (s b i : ℕ)
    → i * s + s ≤ b
    → (s / 2 ≤ s / 2 + i * s) × (s / 2 + i * s ≤ (if ltb (s / 2) b then b - s / 2 else 0))
line_in s b i h = (
  omega arith,
  if-either (λ (end' : ℕ). s / 2 + i * s ≤ end') (ltb (s / 2) b) (λ wide. omega arith)
      (λ narrow. let le : b ≤ s / 2 = ground arith in omega arith),
)

update_metrics-IsInside :
    (r : BoardRenderer) (px : ℕ) → 0 < r.nodes → IsInside (update_metrics r px) px
unfolding update_metrics
update_metrics-IsInside r px some_nodes =
    let s = px / r.nodes in
    let stone : (s * r.nodes) / r.nodes ≡ s = mul-div_left s some_nodes in
    record {
      board = div-mul-le_self px r.nodes;
      stones = λ x h.
          let cells = cells_le s r.nodes x h in
          subst (λ (k : ℕ). (k / 2 - k / 2 + x * k) + k ≤ s * r.nodes) (sym stone)
            (stone_in s (s * r.nodes) x cells);
      lines = λ i h.
          let cells = cells_le s r.nodes i h in
          subst
            (λ (k : ℕ).
              (k / 2 ≤ k / 2 + i * k)
              × (k / 2 + i * k ≤ (if ltb (k / 2) (s * r.nodes) then s * r.nodes - k / 2 else 0)))
            (sym stone) (line_in s (s * r.nodes) i cells);
    }

-- The images do not change where anything is drawn.
update_stone_textures-IsInside :
    (r : BoardRenderer) (px : ℕ) → IsInside r px → IsInside (update_stone_textures r) px
unfolding update_stone_textures
update_stone_textures-IsInside r px h =
    if-either (λ (r' : BoardRenderer). IsInside r' px) (not r.ready || r.stone_size == 0) (λ no'. h)
      (λ yes'. record { board = h.board; stones = h.stones; lines = h.lines })

set_board_size_px-IsInside :
    (r : BoardRenderer) (px : ℕ) → 0 < px → 0 < r.nodes → IsInside (set_board_size_px r px) px
unfolding set_board_size_px
set_board_size_px-IsInside r px some_px some_nodes =
    if-either (λ (r' : BoardRenderer). IsInside r' px) (px == 0 || r.nodes == 0)
      (λ none'. let absurd' : ⊥ = ground arith in absurd absurd')
      (λ some'.
        update_stone_textures-IsInside _ px
          (update_metrics-IsInside (record r { board_size_px_requested = px }) px some_nodes))

set_nodes-IsInside :
    (r : BoardRenderer) (nodes : ℕ)
    → nodes ≢ r.nodes
    → 0 < r.board_size_px_requested
    → 0 < nodes
    → IsInside (set_nodes r nodes) r.board_size_px_requested
unfolding set_nodes
set_nodes-IsInside r nodes new some_px some_nodes =
    let px = r.board_size_px_requested in
    if-either (λ (r' : BoardRenderer). IsInside r' px) (nodes == r.nodes)
      (λ same. absurd (new (==→≡ nodes r.nodes same)))
      (λ other.
        if-either (λ (r' : BoardRenderer). IsInside r' px) (ltb 0 px && ltb 0 nodes)
          (λ some'.
            update_stone_textures-IsInside _ px
              (update_metrics-IsInside (set_ready r nodes) px some_nodes))
          (λ none'. let absurd' : ⊥ = ground arith in absurd absurd'))

-- What a change of the size leaves and sets.
abbrev IsSized : BoardRenderer → BoardRenderer → ℕ → Type 0
IsSized r r' px = (r'.nodes ≡ r.nodes) × (r'.board_size_px_requested ≡ px)

set_board_size_px-IsSized : (r : BoardRenderer) (px : ℕ) → IsSized r (set_board_size_px r px) px
unfolding set_board_size_px update_stone_textures update_metrics
set_board_size_px-IsSized r px =
    if-either (λ (r' : BoardRenderer). IsSized r r' px) (px == 0 || r.nodes == 0)
      (λ none'. (refl, refl))
      (λ some'.
        if-either (λ (r' : BoardRenderer). IsSized r r' px)
          (not (update_metrics (record r { board_size_px_requested = px }) px).ready
            || (update_metrics (record r { board_size_px_requested = px }) px).stone_size == 0)
          (λ kept. (refl, refl)) (λ drawn. (refl, refl)))

-- After a change of the size of the window, or of the number of lines, the board is not larger than the
-- pixels that it was given, every stone lies inside the board, and every line inside the stretch that the
-- lines have.
pub drawing-IsInside :
    (r : BoardRenderer) (px nodes : ℕ)
    → 0 < px
    → 0 < r.nodes
    → nodes ≢ r.nodes
    → 0 < nodes
    → IsInside (set_board_size_px r px) px × IsInside (set_nodes (set_board_size_px r px) nodes) px
drawing-IsInside r px nodes some_px old new some_nodes =
    let sized = set_board_size_px r px in
    let (same_nodes, requested) = set_board_size_px-IsSized r px in
    (
      set_board_size_px-IsInside r px some_px old,
      subst (IsInside (set_nodes sized nodes)) requested (
          set_nodes-IsInside sized nodes (λ e. new (e ∙ same_nodes)) (omega (arith, requested))
            some_nodes),
    )
