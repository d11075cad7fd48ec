-- ===== src/Legal/Next.antt =====
-- `isNextPositionLegal` of src/game/core/moveChecker.cpp: its three outcomes.
use go_game.Prelude.{
  ℕ, ◌≡◌, inl, inr, Bool, true, false, Option, none, some, ◌>>=◌, List, if◌then◌else◌, Bool-cases,
  arith,
}
use go_game.Model.{Coord, Player}
use go_game.Model.Grid.{IsValid}
use go_game.Position.{ZobristHash, GamePosition}
use go_game.Legal.{is_next_position_legal, simulate_position}
use go_game.Legal.Valid.{IsLegal, is_valid_move_lem}
use go_game.Legal.Simulate.{Simulated, simulate_position-Simulated}

-- The outcomes: the move breaks the rules, or it repeats a position, or it is made.
pub data Verdict (current : GamePosition) (player : Player) (c : Coord) (hasher : ZobristHash)
    (history : ℕ → Bool) (r : Option (Option (GamePosition × List Coord))) : Type 0 where
  breaks_rules :
      ¬ IsLegal current.board player c → r ≡ some none → Verdict current player c hasher history r
  repeats :
      IsLegal current.board player c
      → (s : Simulated current c player hasher (simulate_position current c player hasher))
      → history s.next.hash ≡ true
      → r ≡ some none
      → Verdict current player c hasher history r
  made :
      IsLegal current.board player c
      → (s : Simulated current c player hasher (simulate_position current c player hasher))
      → history s.next.hash ≡ false
      → r ≡ some (some (s.next, s.captures))
      → Verdict current player c hasher history r

module _ (current : GamePosition) (player : Player) (c : Coord) (hasher : ZobristHash)
    (history : ℕ → Bool) (valid : IsValid current.board) where
  Verdict-of_legal :
      is_next_position_legal current player c hasher history ≡ (
        simulate_position current c player hasher >>= λ (simulated, captures).
        if history simulated.hash then some none else some (some (simulated, captures)))
      → IsLegal current.board player c
      → Verdict current player c hasher history
          (is_next_position_legal current player c hasher history)
  Verdict-of_legal e l =
      let s = simulate_position-Simulated current c player hasher valid l.inside l.free in
      elim (Bool-cases (history s.next.hash)) [
        | inl seen ↦ repeats l s seen (rw (e, s.returns, seen))
        | inr new ↦ made l s new (rw (e, s.returns, new))
      ]

  -- On a valid board isNextPositionLegal answers, for any coordinate: it refuses a move that breaks the rules,
  -- it refuses a legal move to a position whose hash is in the history, and for any other move it
  -- gives the simulated position and the captures.
  pub is_next_position_legal-Verdict :
      Verdict current player c hasher history
        (is_next_position_legal current player c hasher history)
  is_next_position_legal-Verdict =
      let (answer, ran, iff) = is_valid_move_lem current.board valid player c in
      elim (Bool-cases answer) [
        | inl yes' ↦ Verdict-of_legal (unfold is_next_position_legal in rw (ran, yes')) (iff.0 yes')
        | inr no' ↦
            breaks_rules (λ l. ground (arith, iff.1 l))
              (unfold is_next_position_legal in rw (ran, no'))
      ]
