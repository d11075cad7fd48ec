-- ===== src/BoardRenderer.antt =====
-- src/apps/tengen/boardRenderer.cpp: where the board, its lines and its stones are drawn, in pixels.
-- Images of Qt are only present or not.
pub mod Inside
pub mod Tests
use package.go_game.Prelude.{
  ℕ, ◌+◌, ◌-◌, ◌*◌, ◌/◌, Bool, true, false, not, ◌&&◌, ◌||◌, ◌==◌, ltb, if◌then◌else◌,
}

-- `textures` says that both images were loaded, `scaled` that they were scaled.
pub record BoardRenderer : Type 0 where
  pub board_size : ℕ
  pub stone_size : ℕ
  pub nodes : ℕ
  pub board_size_px_requested : ℕ
  pub draw_step_px : ℕ
  pub coord_start : ℕ
  pub coord_end : ℕ
  pub textures : Bool
  pub scaled : Bool
  pub ready : Bool

-- What the loading of the images came to is an argument.
abbrev pub new_renderer : ℕ → Bool → BoardRenderer
new_renderer nodes textures = record {
  board_size = 0;
  stone_size = 0;
  nodes = nodes;
  board_size_px_requested = 0;
  draw_step_px = 0;
  coord_start = 0;
  coord_end = 0;
  textures = textures;
  scaled = false;
  ready = ltb 0 nodes && textures;
}

unfoldable pub update_metrics : BoardRenderer → ℕ → BoardRenderer
update_metrics r board_size_px =
    let board_size = board_size_px / r.nodes * r.nodes in
    let stone_size = board_size / r.nodes in
    let draw_step_px = stone_size / 2 in
    record r {
      board_size = board_size;
      stone_size = stone_size;
      draw_step_px = draw_step_px;
      coord_start = draw_step_px;
      coord_end = if ltb draw_step_px board_size then board_size - draw_step_px else 0;
    }

unfoldable pub update_stone_textures : BoardRenderer → BoardRenderer
update_stone_textures r =
    if not r.ready || r.stone_size == 0 then r else record r { scaled = r.textures }

abbrev pub set_ready : BoardRenderer → ℕ → BoardRenderer
set_ready r nodes = record r { nodes = nodes; ready = ltb 0 nodes && r.textures }

unfoldable pub set_nodes : BoardRenderer → ℕ → BoardRenderer
set_nodes r nodes =
    let r' = set_ready r nodes in
    if nodes == r.nodes
    then r
    else if ltb 0 r.board_size_px_requested && ltb 0 nodes
    then update_stone_textures (update_metrics r' r.board_size_px_requested)
    else r'

unfoldable pub set_board_size_px : BoardRenderer → ℕ → BoardRenderer
set_board_size_px r board_size_px =
    let r' = record r { board_size_px_requested = board_size_px } in
    if board_size_px == 0 || r.nodes == 0
    then r'
    else update_stone_textures (update_metrics r' board_size_px)

unfoldable pub is_ready : BoardRenderer → Bool
is_ready r = r.ready && ltb 0 r.board_size && ltb 0 r.stone_size && r.scaled

-- The line `i` of the grid, which runs from `coord_start` to `coord_end`.
abbrev pub line_offset : BoardRenderer → ℕ → ℕ
line_offset r i = r.coord_start + i * r.stone_size

-- The left or upper edge of a stone, whose side is `stone_size`.
abbrev pub stone_edge : BoardRenderer → ℕ → ℕ
stone_edge r x = r.coord_start - r.draw_step_px + x * r.stone_size
