-- ===== src/BoardRenderer/Tests.antt =====
-- A board of 9 lines in 640 pixels that becomes one of 19 lines, as the theorem on
-- src/apps/tengen/boardRenderer.cpp says.
use go_game.Prelude.{true, arith}
use go_game.BoardRenderer.{new_renderer, set_nodes, set_board_size_px}
use go_game.BoardRenderer.Inside.{IsInside, drawing-IsInside}

drawing-IsInside_example :
    IsInside (set_board_size_px (new_renderer 9 true) 640) 640
    × IsInside (set_nodes (set_board_size_px (new_renderer 9 true) 640) 19) 640
drawing-IsInside_example =
    drawing-IsInside (new_renderer 9 true) 640 19 (omega arith) (omega arith)
      (λ e. omega (arith, e)) (omega arith)
