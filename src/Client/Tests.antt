-- ===== src/Client/Tests.antt =====
-- A client at the start of a game on nine points.
use go_game.Prelude.{refl, arith}
use go_game.Model.{black, new_board}
use go_game.Model.Grid.{new_board-IsValid}
use go_game.Position.{new_position}
use go_game.Game.{handle_event}
use go_game.Game.Invariant.{Runs, handle_event-Runs}
use go_game.Game.Tests.{small, small-IsSound, centre_event}
use go_game.Client.{ClientPosition, status_active}
use go_game.Client.Mirror.{Mirrors}
use go_game.Client.Follow.{Delivered, handle_event-Delivered}

abbrev client : ClientPosition
client = record { move_id = 0; status = status_active; player = black; board = new_board 3 }

client-Mirrors : Mirrors small client
unfolding new_position
client-Mirrors = record {
  valid = new_board-IsValid 3;
  same_size = refl;
  stones = λ q h. refl;
  moves = refl;
  turn = refl;
  active = refl;
}

abbrev moved : Runs (handle_event small centre_event)
moved = handle_event-Runs small centre_event small-IsSound

handle_event-Delivered_example : Delivered centre_event moved.game moved.notices client
handle_event-Delivered_example =
    handle_event-Delivered small client small-IsSound refl client-Mirrors (omega arith) centre_event
      moved.game moved.notices moved.returns
