-- ===== src/Game/Turns.antt =====
-- Passes in src/game/core/game.cpp: how two of them end a game.
use go_game.Prelude.{ℕ, ◌≡◌, refl, Bool, true, false, [], ◌∷◌, none, arith}
use go_game.Model.{Player, same_player, opponent}
use go_game.Position.{GamePosition, increment, pass}
use go_game.Hub.{state_change, player_change, pass_action, GameDelta}
use go_game.Game.{Game, contains, signals, deltas, handle_pass, move_to}

abbrev pub pass_delta : Game → ℕ → Bool → GameDelta
pass_delta g id active = record {
  move_id = id;
  action = pass_action;
  player = g.position.current_player;
  coord = none;
  captures = [];
  next_player = opponent g.position.current_player;
  game_active = active;
}

same_player_refl : (p : Player) → same_player p p ≡ true
same_player_refl p = ground arith

module _ (g : Game) where
  abbrev pub passed : GamePosition
  passed = pass g.position g.hasher

  -- The first pass of a player in turn, to a position that was not seen.
  first_pass :
      g.consecutive_passes ≡ 0
      → contains g.seen_hashes passed.hash ≡ false
      → handle_pass g g.position.current_player ≡ (
        move_to (record g { consecutive_passes = 1 }) passed,
        signals player_change ∷ deltas (pass_delta g passed.move_id g.game_active) ∷ [],
      )
  unfolding handle_pass pass
  first_pass zero_passes new = rw (zero_passes, same_player_refl g.position.current_player, new)

  -- The second pass in a row ends the game.
  second_pass :
      g.consecutive_passes ≡ 1
      → handle_pass g g.position.current_player ≡ (
        record g { consecutive_passes = 2; game_active = false },
        deltas (pass_delta g (increment g.position.move_id) false) ∷ signals state_change ∷ [],
      )
  unfolding handle_pass
  second_pass one_pass = rw (one_pass, same_player_refl g.position.current_player)

  refused_pass :
      g.consecutive_passes ≡ 0
      → contains g.seen_hashes passed.hash ≡ true
      → handle_pass g g.position.current_player ≡ (record g { consecutive_passes = 1 }, [])
  unfolding handle_pass pass
  refused_pass zero_passes seen = rw (zero_passes, same_player_refl g.position.current_player, seen)

abbrev in_turn : Game → Player
in_turn g = g.position.current_player

-- When no pass is counted and the first pass leads to a position whose hash was not seen, a pass of
-- the player in turn and then of the opponent ends the game. The first moves on to the passed position;
-- the second leaves that position as it is, and the listeners are told of the pass and then of the end.
pub two_passes_end :
    (g : Game)
    → g.consecutive_passes ≡ 0
    → contains g.seen_hashes (passed g).hash ≡ false
    → let first = (handle_pass g (in_turn g)).0 in
      let second = handle_pass first (opponent (in_turn g)) in
      (first.position ≡ passed g)
      × (first.game_active ≡ g.game_active)
      × (second.0.game_active ≡ false)
      × (second.0.position ≡ passed g)
      × (second.1
          ≡ deltas (pass_delta first (increment (passed g).move_id) false)
            ∷ signals state_change
            ∷ [])
unfolding pass
two_passes_end g zero_passes new =
    let next = move_to (record g { consecutive_passes = 1 }) (passed g) in
    rw (first_pass g zero_passes new, second_pass next refl) (refl, refl, refl, refl, refl)

-- When no pass is counted and the passed position has a hash that was seen, a pass of the player in
-- turn leaves the position and tells nobody, and still counts: with the next pass the same player ends
-- the game, in the position in which both passes were made.
pub refused_pass_counts :
    (g : Game)
    → g.consecutive_passes ≡ 0
    → contains g.seen_hashes (passed g).hash ≡ true
    → let first = handle_pass g (in_turn g) in
      let second = handle_pass first.0 (in_turn g) in
      (first.0.position ≡ g.position)
      × (first.1 ≡ [])
      × (second.0.game_active ≡ false)
      × (second.0.position ≡ g.position)
refused_pass_counts g zero_passes seen =
    let counted = record g { consecutive_passes = 1 } in
    rw (refused_pass g zero_passes seen, second_pass counted refl) (refl, refl, refl, refl)
