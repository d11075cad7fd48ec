-- ===== src/Session/Update.antt =====
-- What the listeners of src/apps/runtime/sessionManager.cpp learn of an update of the game.
use go_game.Prelude.{◌≡◌, ◌⊎◌, Bool, true, false, some, List, [], ◌∷◌, ◌++◌, ◌∈◌, if◌then◌else◌}
use go_game.Net.{ServerDelta, act_resign}
use go_game.Client.{ClientPosition, GameStatus, board_after}
use go_game.Session.{
  app_board_change, app_player_change, app_state_change, Call, tells, same_status,
}

-- What is told of a change from one position to another.
pub record IsTold (event : ServerDelta) (p p' : ClientPosition) (calls : List Call) : Type 0 where
  pub board : (tells app_board_change ∈ calls) ⊎ (p'.board ≡ p.board)
  pub status : (tells app_state_change ∈ calls) ⊎ (p'.status ≡ p.status)
  pub player :
      (tells app_player_change ∈ calls)
      ⊎ (p'.player ≡ p.player)
      ⊎ ((event.action ≡ act_resign) × ¬ (tells app_player_change ∈ calls))

-- The calls of an update that was applied.
abbrev update_calls : List Call → GameStatus → GameStatus → List Call
update_calls calls s t = calls ++ (if same_status s t then [] else tells app_state_change ∷ [])

-- The two answers of `apply`.
data Applied (p : ClientPosition) (event : ServerDelta) (p' : ClientPosition) (ok : Bool)
    : Type 0 where
  refused : ok ≡ false → p' ≡ p → Applied p event p' ok
  done :
      ok ≡ true
      → board_after event.action p.board event.seat event.coord event.captures ≡ some p'.board
      → Applied p event p' ok
