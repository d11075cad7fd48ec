-- ===== src/Game/Tests.antt =====
-- Games on a board of nine points, and what the theorems on src/game/core/game.cpp say of them.
use go_game.Prelude.{◌≡◌, refl, ◌⊎◌, true, false, some, List, [], ◌∷◌}
use go_game.Model.{coord, black, white}
use go_game.Model.Grid.{new_board-IsValid}
use go_game.Position.{new_position, increment, pass}
use go_game.Legal.Alive.{new_board-IsAlive}
use go_game.Legal.Hash.{new_position-HasItsHash}
use go_game.Legal.Tests.{hasher}
use go_game.Hub.{GameEvent, put_stone_event, pass_event, EventHub}
use go_game.Game.{Game, deltas, signals, new_game, handle_put_stone, handle_pass, handle_event, run}
use go_game.Hub.{state_change}
use go_game.Game.Invariant.{
  IsSound, PutOutcome, handle_put_stone-PutOutcome, Runs, handle_event-Runs, run-Runs,
}
use go_game.Game.Superko.{Effect, handle_event-Effect, now, later, no_repetition}
use go_game.Game.Turns.{passed, pass_delta, two_passes_end, refused_pass_counts}

abbrev nobody : EventHub
nobody = record { signal_listeners = []; state_listeners = [] }

-- A running game at its first position.
abbrev pub small : Game
small = record {
  game_active = true;
  consecutive_passes = 0;
  position = new_position 3;
  event_queue = [];
  event_hub = nobody;
  seen_hashes = 0 ∷ [];
  hasher = hasher;
}

pub small-IsSound : IsSound small
small-IsSound = record {
  valid = unfold new_position in new_board-IsValid 3;
  alive = unfold new_position in new_board-IsAlive 3;
  seen = unfold new_position in refl;
  hashed = new_position-HasItsHash hasher 3;
}

abbrev pub centre_event : GameEvent
centre_event = put_stone_event black (coord 1 1)

abbrev moved : Runs (handle_event small centre_event)
moved = handle_event-Runs small centre_event small-IsSound

abbrev full : Game
full = record {
  game_active = false;
  consecutive_passes = 0;
  position = new_position 9;
  event_queue = [];
  event_hub = nobody;
  seen_hashes = 0 ∷ [];
  hasher = hasher;
}

full-new : new_game (λ n. hasher) 9 ≡ some full
unfolding new_game new_position
full-new = refl

abbrev full_events : List GameEvent
full_events = put_stone_event black (coord 2 3) ∷ pass_event white ∷ pass_event black ∷ []

run-Runs_example : Runs (run (record full { event_queue = full_events }))
run-Runs_example = run-Runs (λ n. hasher) 9 full full_events full-new

no_repetition_example :
    (moved.game.position ≡ small.position)
    ⊎ ¬ (
        (moved.game.position.board ≡ small.position.board)
        × (moved.game.position.current_player ≡ small.position.current_player))
no_repetition_example =
    no_repetition small-IsSound (later now centre_event moved.notices moved.returns)

handle_put_stone-PutOutcome_example :
    PutOutcome small black (coord 1 1) (handle_put_stone small black (coord 1 1))
handle_put_stone-PutOutcome_example =
    handle_put_stone-PutOutcome small black (coord 1 1) small-IsSound

handle_event-Effect_example : Effect small moved.game
handle_event-Effect_example =
    handle_event-Effect small centre_event moved.game moved.notices small-IsSound moved.returns

abbrev second : Game
second = (handle_pass small black).0

two_passes_end_example :
    (second.position ≡ passed small)
    × (second.game_active ≡ true)
    × ((handle_pass second white).0.game_active ≡ false)
    × ((handle_pass second white).0.position ≡ passed small)
    × ((handle_pass second white).1
        ≡ deltas (pass_delta second (increment (passed small).move_id) false)
          ∷ signals state_change
          ∷ [])
unfolding new_position
two_passes_end_example = two_passes_end small refl (unfold pass in refl)

-- White, to move after one stone, was in the position that a pass leads to.
abbrev repeating : Game
repeating = record small { seen_hashes = (passed small).hash ∷ 0 ∷ [] }

refused_pass_counts_example :
    ((handle_pass repeating black).0.position ≡ repeating.position)
    × ((handle_pass repeating black).1 ≡ [])
    × ((handle_pass (handle_pass repeating black).0 black).0.game_active ≡ false)
    × ((handle_pass (handle_pass repeating black).0 black).0.position ≡ repeating.position)
unfolding new_position
refused_pass_counts_example = refused_pass_counts repeating refl (unfold pass in refl)
