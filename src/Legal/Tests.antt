-- ===== src/Legal/Tests.antt =====
-- A board of nine points on which a move of src/game/core/moveChecker.cpp captures, and what the
-- theorems say of it.
use go_game.Prelude.{◌+◌, ◌*◌, ◌≡◌, refl, ◌↔◌, Bool, true, none, some, arith, [], ◌∷◌, ◌==◌, ◌&&◌}
use go_game.Model.{
  Coord, coord, Player, black, white, empty, black_stone, white_stone, Board, get, new_board,
}
use go_game.Model.Grid.{IsValid, Inside, new_board-IsValid}
use go_game.Position.{ZobristHash, GamePosition, new_position}
use go_game.Rules.{
  Marks, neighbour, is_player_stone, visit_neighbour, visit_directions, search_loop, group_analysis,
}
use go_game.Rules.Group.{Answer, group_analysis_lem}
use go_game.Legal.{
  compute_group_liberties, would_capture_from, would_capture, is_suicide, simulate_position,
  is_valid_move, is_next_position_legal,
}
use go_game.Legal.Valid.{IsLegal, is_valid_move_lem}
use go_game.Legal.Simulate.{Simulated, simulate_position-Simulated}
use go_game.Legal.Alive.{IsAlive, new_board-IsAlive, simulate_position-IsAlive}
use go_game.Legal.Next.{Verdict, is_next_position_legal-Verdict}
use go_game.Legal.Hash.{HasItsHash, new_position-HasItsHash, simulate_position-HasItsHash}

-- Black takes the white stone at (1, 0) by a move at (2, 0).
abbrev pub corner : Board
corner = record {
  size = 3;
  cells =
      black_stone ∷ white_stone ∷ empty ∷ empty ∷ black_stone ∷ empty ∷ empty ∷ empty ∷ empty ∷ [];
}

abbrev pub taking : Coord
taking = coord 2 0

abbrev pub hasher : ZobristHash
hasher = record {
  stone = λ c player. elim player [ black ↦ 10 * c.y + c.x + 1 | white ↦ 10 * c.y + c.x + 100 ];
  toggle_player = 1000;
}

abbrev corner_position : GamePosition
corner_position = record { board = corner; current_player = black; hash = 0; move_id = 3 }

taking-Inside : Inside corner.size taking
taking-Inside = (omega arith, omega arith)

taking-valid : is_valid_move corner black taking ≡ some true
unfolding is_valid_move is_suicide compute_group_liberties would_capture would_capture_from
    group_analysis search_loop visit_directions visit_neighbour is_player_stone neighbour get
taking-valid = refl

IsLegal-of :
    (b : Board) (valid : IsValid b) (player : Player) (c : Coord)
    → is_valid_move b player c ≡ some true
    → IsLegal b player c
IsLegal-of b valid player c e =
    let (r, ran, iff) = is_valid_move_lem b valid player c in iff.0 (cc (ran, e))

taking-IsLegal : IsLegal corner black taking
taking-IsLegal = IsLegal-of corner refl black taking taking-valid

group_analysis_lem_example :
    Answer corner white none
      (some taking)
      (coord 1 0)
      (group_analysis corner (coord 1 0) white none (some taking))
group_analysis_lem_example =
    group_analysis_lem corner refl white none (some taking) (coord 1 0) (omega arith, omega arith)

is_valid_move_lem_example :
    (r : Bool) × (is_valid_move corner black taking ≡ some r)
    × ((r ≡ true) ↔ IsLegal corner black taking)
is_valid_move_lem_example = is_valid_move_lem corner refl black taking

abbrev white_marked : Marks
white_marked c = c.x == 1 && c.y == 0

simulate_position-Simulated_example :
    Simulated corner_position taking black hasher
      (simulate_position corner_position taking black hasher)
simulate_position-Simulated_example =
    simulate_position-Simulated corner_position taking black hasher refl taking-Inside
      taking-IsLegal.free

abbrev corner_simulated :
    Simulated corner_position taking black hasher
      (simulate_position corner_position taking black hasher)
corner_simulated =
    simulate_position-Simulated corner_position taking black hasher refl taking-Inside
      taking-IsLegal.free

is_next_position_legal-Verdict_example :
    Verdict corner_position black taking hasher
      (λ h. h == 0)
      (is_next_position_legal corner_position black taking hasher (λ h. h == 0))
is_next_position_legal-Verdict_example =
    is_next_position_legal-Verdict corner_position black taking hasher (λ h. h == 0) refl

abbrev centre : Coord
centre = coord 1 1

centre-IsLegal : IsLegal (new_position 3).board black centre
unfolding new_position new_board is_valid_move is_suicide compute_group_liberties would_capture
    would_capture_from group_analysis search_loop visit_directions visit_neighbour is_player_stone
    neighbour get
centre-IsLegal = IsLegal-of (new_board 3) refl black centre refl

abbrev first_move :
    Simulated
      (new_position 3)
      centre
      black
      hasher
      (simulate_position (new_position 3) centre black hasher)
first_move =
    simulate_position-Simulated (new_position 3) centre black hasher
      (unfold new_position in new_board-IsValid 3) centre-IsLegal.inside centre-IsLegal.free

simulate_position-IsAlive_example :
    (s : Simulated
      (new_position 3)
      centre
      black
      hasher
      (simulate_position (new_position 3) centre black hasher))
    × IsAlive s.next.board
simulate_position-IsAlive_example =
    simulate_position-IsAlive (new_position 3) centre black hasher
      (unfold new_position in new_board-IsValid 3) centre-IsLegal
      (unfold new_position in new_board-IsAlive 3)

simulate_position-HasItsHash_example :
    (s : Simulated
      (new_position 3)
      centre
      black
      hasher
      (simulate_position (new_position 3) centre black hasher))
    × HasItsHash hasher s.next
unfolding new_position
simulate_position-HasItsHash_example =
    simulate_position-HasItsHash (new_position 3) centre hasher
      (unfold new_position in new_board-IsValid 3) centre-IsLegal (new_position-HasItsHash hasher 3)
