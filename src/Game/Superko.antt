-- ===== src/Game/Superko.antt =====
-- Superko in src/game/core/game.cpp: a game never returns to a position it was in.
use go_game.Prelude.{
  ℕ, ◌≡◌, refl, ◌∙◌, ◌⊎◌, inl, inr, true, false, ◌==◌, Option, some, arith, List, Bool-cases,
}
use go_game.Model.{Coord, Player, same_player}
use go_game.Position.{GamePosition, increment, pass}
use go_game.Hub.{GameEvent, put_stone_event, pass_event, resign_event, shutdown_event}
use go_game.Game.{
  Game, contains, insert_hash, Notice, move_to, placed, handle_pass, handle_resign, handle_shutdown,
  handle_event,
}
use go_game.Game.Invariant.{
  accepted_placed, IsSound, PutOutcome, not_in_turn, refused, repeated, accepted,
  handle_put_stone-PutOutcome, handle_event-Runs,
}

-- What an event does to the position and to the hashes that are remembered.
pub record Effect (g g' : Game) : Type 0 where
  pub hasher : g'.hasher ≡ g.hasher
  pub kept : (h : ℕ) → contains g.seen_hashes h ≡ true → contains g'.seen_hashes h ≡ true
  pub moved : (g'.position ≡ g.position) ⊎ (contains g.seen_hashes g'.position.hash ≡ false)

stay : (g : Game) → Effect g g
stay g = record { hasher = refl; kept = λ h e. e; moved = inl refl }

contains-insert_old :
    (x h : ℕ) (s : List ℕ) → contains s h ≡ true → contains (insert_hash x s) h ≡ true
contains-insert_old x h s e = ground arith

move_to-Effect :
    (g : Game) (next : GamePosition) (passes : ℕ)
    → contains g.seen_hashes next.hash ≡ false
    → Effect g (move_to (record g { consecutive_passes = passes }) next)
move_to-Effect g next passes new = record {
  hasher = refl;
  kept = λ h. contains-insert_old next.hash h g.seen_hashes;
  moved = inr new;
}

put-Effect :
    (g : Game) (player : Player) (c : Coord) {r : Option (Game × List Notice)}
    → PutOutcome g player c r
    → (g' : Game) (n : List Notice) → r ≡ some (g', n)
    → Effect g g'
put-Effect g player c (not_in_turn ne e) g' n e' = let same : g ≡ g' = cc in rw (← same) (stay g)
put-Effect g player c (refused is ne e) g' n e' = let same : g ≡ g' = cc in rw (← same) (stay g)
put-Effect g player c (repeated is l s seen e) g' n e' =
    let same : g ≡ g' = cc in rw (← same) (stay g)
put-Effect g player c (accepted is l s new e0) g' n e' =
    let e = accepted_placed g player c s new e0 in
    let same : (placed g player c (s.next, s.captures)).0 ≡ g' = cc in
    rw (← same) (move_to-Effect g s.next 0 new)

handle_pass-Effect : (g : Game) (player : Player) → Effect g (handle_pass g player).0
unfolding handle_pass
handle_pass-Effect g player = elim (Bool-cases (same_player player g.position.current_player)) [
  | inr other ↦ rw other (stay g)
  | inl turn ↦ elim (Bool-cases (increment g.consecutive_passes == 2)) [
    | inl two ↦ rw (turn, two) (record { hasher = refl; kept = λ h e. e; moved = inl refl })
    | inr more ↦ elim (Bool-cases (contains g.seen_hashes (pass g.position g.hasher).hash)) [
      | inl seen ↦
          rw (turn, more, seen) (record { hasher = refl; kept = λ h e. e; moved = inl refl })
      | inr new ↦
          rw (turn, more, new)
            (record { hasher = refl; kept = λ h e. ground arith; moved = inr new })
    ]
  ]
]

-- In a sound game, an event that is handled keeps the hasher and all the hashes that are remembered;
-- it leaves the position as it is, or it leads to one whose hash was not seen.
pub handle_event-Effect :
    (g : Game) (e : GameEvent) (g' : Game) (n : List Notice)
    → IsSound g
    → handle_event g e ≡ some (g', n)
    → Effect g g'
unfolding handle_event handle_resign handle_shutdown
handle_event-Effect g (put_stone_event player c) g' n i e =
    put-Effect g player c (handle_put_stone-PutOutcome g player c i) g' n e
handle_event-Effect g (pass_event player) g' n i e =
    let same : (handle_pass g player).0 ≡ g' = cc in rw (← same) (handle_pass-Effect g player)
handle_event-Effect g resign_event g' n i e =
    let same : record g { game_active = false } ≡ g' = cc in
    rw (← same) (record { hasher = refl; kept = λ h x. x; moved = inl refl })
handle_event-Effect g shutdown_event g' n i e =
    let same : record g { game_active = false } ≡ g' = cc in
    rw (← same) (record { hasher = refl; kept = λ h x. x; moved = inl refl })

-- The games that come after `g`.
pub data After (g : Game) : Game → Type 0 where
  now : After g g
  later :
      {h g' : Game}
      → After g h
      → (e : GameEvent) (n : List Notice) → handle_event h e ≡ some (g', n)
      → After g g'

handle_event-IsSound :
    (g : Game) (e : GameEvent) (g' : Game) (n : List Notice)
    → IsSound g
    → handle_event g e ≡ some (g', n)
    → IsSound g'
handle_event-IsSound g e g' n i h =
    let r = handle_event-Runs g e i in
    let same : r.game ≡ g' = cc (r.returns) in rw (← same) r.sound

-- Every game that is reached from a sound one by events is sound.
pub After-IsSound : {g g' : Game} → IsSound g → After g g' → IsSound g'
After-IsSound i now = i
After-IsSound i (later {h} {g'} a e n r) = handle_event-IsSound h e g' n (After-IsSound i a) r

After-hasher : {g g' : Game} → IsSound g → After g g' → g'.hasher ≡ g.hasher
After-hasher i now = refl
After-hasher i (later {h} {g'} a e n r) =
    (handle_event-Effect h e g' n (After-IsSound i a) r).hasher ∙ After-hasher i a

After-contains :
    {g g' : Game}
    → IsSound g
    → After g g'
    → (x : ℕ) → contains g.seen_hashes x ≡ true
    → contains g'.seen_hashes x ≡ true
After-contains i now x c = c
After-contains i (later {h} {g'} a e n r) x c =
    (handle_event-Effect h e g' n (After-IsSound i a) r).kept x (After-contains i a x c)

-- Of a sound game and one reached from it by events: the position is the same one, with its move
-- number, or it differs in the stones or in the player to move. So the same stones with the same
-- player to move do not come up again at another move.
pub no_repetition :
    {g g' : Game}
    → IsSound g
    → After g g'
    → (g'.position ≡ g.position)
      ⊎ ¬ (
          (g'.position.board ≡ g.position.board)
          × (g'.position.current_player ≡ g.position.current_player))
no_repetition i now = inl refl
no_repetition {g} i (later {h} {g'} a e n r) =
    let before = After-IsSound i a in
    let f = handle_event-Effect h e g' n before r in
    elim f.moved [
      | inl same ↦ rw same (no_repetition i a)
      | inr new ↦ inr λ (board, player).
          let after = handle_event-IsSound h e g' n before r in
          let hashes : g'.position.hash ≡ g.position.hash =
            cc (after.hashed, i.hashed, f.hasher, After-hasher i a, board, player) in
          cc (new, hashes, After-contains i a g.position.hash i.seen)
    ]
