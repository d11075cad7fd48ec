-- ===== src/Game.antt =====
-- src/game/core/game.cpp: the rules loop. A handler returns the game and what it hands to the event
-- hub, in order. `none` is an assertion that fails.
pub mod Invariant
pub mod Superko
pub mod Turns
pub mod Tests
use package.go_game.Prelude.{
  ℕ, zero, suc, ◌+◌, Bool, true, false, not, ◌||◌, ◌==◌, if◌then◌else◌, Option, none, some, ◌>>=◌,
  ◌>>◌, assert, List, [], ◌∷◌, ◌++◌,
}
use package.go_game.Model.{Coord, Player, same_player, opponent}
use package.go_game.Position.{ZobristHash, GamePosition, increment, new_position, pass}
use package.go_game.Legal.{is_next_position_legal}
use package.go_game.Hub.{
  GameEvent, put_stone_event, pass_event, resign_event, shutdown_event, GameSignal, board_change,
  player_change, state_change, GameDelta, place_action, pass_action, resign_action, EventHub,
  subscribe_signals, unsubscribe_signals, subscribe_state, unsubscribe_state,
}

pub record Game : Type 0 where
  pub game_active : Bool
  pub consecutive_passes : ℕ
  pub position : GamePosition
  pub event_queue : List GameEvent
  pub event_hub : EventHub
  pub seen_hashes : List ℕ
  pub hasher : ZobristHash

abbrev pub contains : List ℕ → ℕ → Bool
contains [] h = false
contains (x ∷ xs) h = x == h || contains xs h

-- `std::unordered_set::insert`.
abbrev pub insert_hash : ℕ → List ℕ → List ℕ
insert_hash h s = if contains s h then s else h ∷ s

-- A call of `m_eventHub.signal` or `m_eventHub.signalDelta`.
pub data Notice : Type 0 where
  signals : GameSignal → Notice
  deltas : GameDelta → Notice

-- There is a hasher for three sizes of the board.
unfoldable pub new_game : (ℕ → ZobristHash) → ℕ → Option Game
unfolding new_position
new_game zobrist size = do
  assert (size == 9 || size == 13 || size == 19)
  some (record {
    game_active = false;
    consecutive_passes = 0;
    position = new_position size;
    event_queue = [];
    event_hub = record { signal_listeners = []; state_listeners = [] };
    seen_hashes = insert_hash 0 [];
    hasher = zobrist size;
  })

abbrev pub push_event : Game → GameEvent → Game
push_event g e = record g { event_queue = g.event_queue ++ e ∷ [] }

-- The game with a next position, whose hash is remembered.
abbrev pub move_to : Game → GamePosition → Game
move_to g next = record g { position = next; seen_hashes = insert_hash next.hash g.seen_hashes }

abbrev pub place_delta : Game → Player → Coord → List Coord → GameDelta
place_delta g player c captures = record {
  move_id = g.position.move_id;
  action = place_action;
  player = player;
  coord = some c;
  captures = captures;
  next_player = g.position.current_player;
  game_active = g.game_active;
}

abbrev pub placed : Game → Player → Coord → GamePosition × List Coord → Game × List Notice
placed g player c (next, captures) =
    let g' = move_to (record g { consecutive_passes = 0 }) next in
    (
      g',
      signals board_change ∷ signals player_change ∷ deltas (place_delta g' player c captures) ∷ [],
    )

abbrev pub after_check :
    Game → Player → Coord → Option (GamePosition × List Coord) → Game × List Notice
after_check g player c none = (g, [])
after_check g player c (some result) = placed g player c result

unfoldable pub handle_put_stone : Game → Player → Coord → Option (Game × List Notice)
handle_put_stone g player c =
    if not (same_player player g.position.current_player)
    then some (g, [])
    else (is_next_position_legal g.position g.position.current_player c g.hasher
          (contains g.seen_hashes)
        >>= λ result. some (after_check g player c result))

unfoldable pub handle_pass : Game → Player → Game × List Notice
unfolding pass
handle_pass g player =
    if not (same_player player g.position.current_player)
    then (g, [])
    else let passes = increment g.consecutive_passes in
      let counted = record g { consecutive_passes = passes } in
      let next = pass g.position g.hasher in
      if passes == 2
      then (
        record counted { game_active = false },
        deltas (record {
          move_id = increment g.position.move_id;
          action = pass_action;
          player = player;
          coord = none;
          captures = [];
          next_player = opponent player;
          game_active = false;
        })
            ∷ signals state_change
            ∷ [],
      )
      else if contains g.seen_hashes next.hash
      then (counted, [])
      else (
        move_to counted next,
        signals player_change
            ∷ deltas (record {
              move_id = next.move_id;
              action = pass_action;
              player = player;
              coord = none;
              captures = [];
              next_player = next.current_player;
              game_active = g.game_active;
            })
            ∷ [],
      )

unfoldable pub handle_resign : Game → Game × List Notice
handle_resign g = (
  record g { game_active = false },
  signals state_change
      ∷ deltas (record {
        move_id = increment g.position.move_id;
        action = resign_action;
        player = g.position.current_player;
        coord = none;
        captures = [];
        next_player = opponent g.position.current_player;
        game_active = false;
      })
      ∷ [],
)

unfoldable pub handle_shutdown : Game → Game × List Notice
handle_shutdown g = (record g { game_active = false }, [])

unfoldable pub handle_event : Game → GameEvent → Option (Game × List Notice)
handle_event g (put_stone_event player c) = handle_put_stone g player c
handle_event g (pass_event player) = some (handle_pass g player)
handle_event g resign_event = some (handle_resign g)
handle_event g shutdown_event = some (handle_shutdown g)

-- The loop of `run` over the events that arrive in the queue, in their order. It leaves the events
-- behind the one that ends the game, and waits when there is none.
unfoldable pub run_loop : List GameEvent → Game → Option (Game × List Notice)
run_loop [] g = some (record g { event_queue = [] }, [])
run_loop (e ∷ es) g = elim g.game_active [
  | false ↦ some (record g { event_queue = e ∷ es }, [])
  | true ↦ handle_event g e >>= λ (g', notices).
      run_loop es g' >>= λ (g'', more). some (g'', notices ++ more)
]

unfoldable pub run : Game → Option (Game × List Notice)
run g = run_loop g.event_queue (record g { game_active = true })
