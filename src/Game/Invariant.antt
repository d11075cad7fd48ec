-- ===== src/Game/Invariant.antt =====
-- The invariant of a game of src/game/core/game.cpp, and that its handlers and its loop keep it.
use go_game.Prelude.{
  ℕ, ◌≡◌, ◌≢◌, refl, sym, ◌∙◌, ap, inl, inr, true, false, ◌||◌, ◌==◌, Option, some, arith, List, [],
  ◌∷◌, ◌++◌, Bool-cases,
}
use go_game.Model.{Coord, Player, same_player}
use go_game.Model.Grid.{IsValid, new_board-IsValid}
use go_game.Position.{ZobristHash, GamePosition, increment, new_position, pass}
use go_game.Legal.{simulate_position}
use go_game.Legal.Valid.{IsLegal}
use go_game.Legal.Hash.{HasItsHash, new_position-HasItsHash, pass-HasItsHash, Simulated-HasItsHash}
use go_game.Legal.Alive.{IsAlive, new_board-IsAlive, Simulated-IsAlive}
use go_game.Legal.Simulate.{Simulated}
use go_game.Legal.Next.{breaks_rules, repeats, made, is_next_position_legal-Verdict}
use go_game.Hub.{
  place_action, board_change, player_change, GameEvent, put_stone_event, pass_event, resign_event,
  shutdown_event,
}
use go_game.Game.{
  Game, contains, insert_hash, Notice, signals, deltas, move_to, placed, new_game, handle_put_stone,
  handle_pass, handle_resign, handle_shutdown, handle_event, run_loop, run,
}

-- The board has its cells, every group on it has a liberty, and the hash is that of the position and
-- is remembered.
pub record IsSound (g : Game) : Type 0 where
  pub valid : IsValid g.position.board
  pub alive : IsAlive g.position.board
  pub seen : contains g.seen_hashes g.position.hash ≡ true
  pub hashed : HasItsHash g.hasher g.position

==-refl : (a : ℕ) → (a == a) ≡ true
==-refl a = ground arith

pub contains-insert_hash : (h : ℕ) (s : List ℕ) → contains (insert_hash h s) h ≡ true
contains-insert_hash h s = ground (arith, ==-refl h)

contains-cons : (h : ℕ) (s : List ℕ) → contains (h ∷ s) h ≡ true
contains-cons h s = ground (arith, ==-refl h)

-- A new game, of a size that there is a hasher for, is sound.
pub new_game-IsSound :
    (zobrist : ℕ → ZobristHash) (size : ℕ) (g : Game) → new_game zobrist size ≡ some g → IsSound g
unfolding new_game
new_game-IsSound zobrist size g e = elim (Bool-cases (size == 9 || size == 13 || size == 19)) [
  | inl ok ↦
      let p : g.position ≡ new_position size = unfold new_position in ground arith in
      record {
        valid = rw p (new_board-IsValid size);
        alive = rw p (new_board-IsAlive size);
        seen = ground arith;
        hashed = rw p (new_position-HasItsHash g.hasher size);
      }
  | inr bad ↦ absurd (ground arith)
]

abbrev pub simulation : Game → Coord → Option (GamePosition × List Coord)
simulation g c = simulate_position g.position c g.position.current_player g.hasher

-- What a put event does: nothing out of turn, nothing for a move that breaks the rules or repeats a
-- position, and otherwise the simulated position.
pub data PutOutcome (g : Game) (player : Player) (c : Coord) (r : Option (Game × List Notice))
    : Type 0 where
  not_in_turn : player ≢ g.position.current_player → r ≡ some (g, []) → PutOutcome g player c r
  refused :
      player ≡ g.position.current_player
      → ¬ IsLegal g.position.board player c
      → r ≡ some (g, [])
      → PutOutcome g player c r
  repeated :
      player ≡ g.position.current_player
      → IsLegal g.position.board player c
      → (s : Simulated g.position c g.position.current_player g.hasher (simulation g c))
      → contains g.seen_hashes s.next.hash ≡ true
      → r ≡ some (g, [])
      → PutOutcome g player c r
  accepted :
      player ≡ g.position.current_player
      → IsLegal g.position.board player c
      → (s : Simulated g.position c g.position.current_player g.hasher (simulation g c))
      → contains g.seen_hashes s.next.hash ≡ false
      → r
        ≡ some (
          record g {
            consecutive_passes = 0;
            position = s.next;
            seen_hashes = s.next.hash ∷ g.seen_hashes;
          },
          signals board_change
              ∷ signals player_change
              ∷ deltas (record {
                move_id = s.next.move_id;
                action = place_action;
                player = player;
                coord = some c;
                captures = s.captures;
                next_player = s.next.current_player;
                game_active = g.game_active;
              })
              ∷ [],
        )
      → PutOutcome g player c r

-- A new hash goes in front of those that were seen.
placed_new :
    (g : Game) (player : Player) (c : Coord) (next : GamePosition) (captures : List Coord)
    → contains g.seen_hashes next.hash ≡ false
    → placed g player c (next, captures) ≡ (
      record g { consecutive_passes = 0; position = next; seen_hashes = next.hash ∷ g.seen_hashes },
      signals board_change
          ∷ signals player_change
          ∷ deltas (record {
            move_id = next.move_id;
            action = place_action;
            player = player;
            coord = some c;
            captures = captures;
            next_player = next.current_player;
            game_active = g.game_active;
          })
          ∷ [],
    )
placed_new g player c next captures new = rw new refl

-- What an accepted move comes to.
pub accepted_placed :
    (g : Game) (player : Player) (c : Coord)
    (s : Simulated g.position c g.position.current_player g.hasher (simulation g c))
    {r : Option (Game × List Notice)}
    → contains g.seen_hashes s.next.hash ≡ false
    → r
      ≡ some (
        record g {
          consecutive_passes = 0;
          position = s.next;
          seen_hashes = s.next.hash ∷ g.seen_hashes;
        },
        signals board_change
            ∷ signals player_change
            ∷ deltas (record {
              move_id = s.next.move_id;
              action = place_action;
              player = player;
              coord = some c;
              captures = s.captures;
              next_player = s.next.current_player;
              game_active = g.game_active;
            })
            ∷ [],
      )
    → r ≡ some (placed g player c (s.next, s.captures))
accepted_placed g player c s new e =
    e ∙ ap (λ (o : Game × List Notice). some o) (sym (placed_new g player c s.next s.captures new))

same_player→≡ : (p q : Player) → same_player p q ≡ true → p ≡ q
same_player→≡ p q e = ground arith

same_player→≢ : (p q : Player) → same_player p q ≡ false → p ≢ q
same_player→≢ p q e h = ground arith

put_in_turn :
    (g : Game) (player : Player) (c : Coord)
    → IsSound g
    → same_player player g.position.current_player ≡ true
    → PutOutcome g player c (handle_put_stone g player c)
unfolding handle_put_stone
put_in_turn g player c i turn =
    let is = same_player→≡ _ _ turn in
    elim (is_next_position_legal-Verdict g.position g.position.current_player c g.hasher
      (contains g.seen_hashes) i.valid) [
        | breaks_rules not_legal e ↦ refused is (λ l. not_legal (rw (← is) l)) (rw (turn, e))
        | repeats l s seen e ↦ repeated is (rw is l) s seen (rw (turn, e))
        | made l s new e ↦ accepted is (rw is l) s new (rw (turn, e, new) refl)
      ]

-- In a sound game a put event, for any player and coordinate, is handled in one of four ways:
-- nothing is done out of turn, for a move that is not legal, or for one that leads to a position whose
-- hash was seen. Any other move makes the simulated position that of the game, adds its hash to those
-- that were seen and sets the count of passes to 0; then the changes of the board and of the player are
-- signalled, and the delta with the move, its captures and the next player is sent, in this order.
pub handle_put_stone-PutOutcome :
    (g : Game) (player : Player) (c : Coord)
    → IsSound g
    → PutOutcome g player c (handle_put_stone g player c)
handle_put_stone-PutOutcome g player c i =
    elim (Bool-cases (same_player player g.position.current_player)) [
      | inl turn ↦ put_in_turn g player c i turn
      | inr other ↦ not_in_turn (same_player→≢ _ _ other) (unfold handle_put_stone in rw other)
    ]

-- A run that ends in a sound game.
pub record Runs (r : Option (Game × List Notice)) : Type 0 where
  pub game : Game
  pub notices : List Notice
  pub returns : r ≡ some (game, notices)
  pub sound : IsSound game

runs :
    {r : Option (Game × List Notice)} (g : Game) (n : List Notice)
    → r ≡ some (g, n)
    → IsSound g
    → Runs r
runs g n e i = record { game = g; notices = n; returns = e; sound = i }

move_to-IsSound :
    (g : Game) (next : GamePosition)
    → IsValid next.board
    → IsAlive next.board
    → HasItsHash g.hasher next
    → IsSound (move_to g next)
move_to-IsSound g next v a h = record {
  valid = v;
  alive = a;
  seen = contains-insert_hash next.hash g.seen_hashes;
  hashed = h;
}

put-Runs :
    (g : Game) (player : Player) (c : Coord) {r : Option (Game × List Notice)}
    → IsSound g
    → PutOutcome g player c r
    → Runs r
put-Runs g player c i (not_in_turn ne e) = runs g [] e i
put-Runs g player c i (refused is ne e) = runs g [] e i
put-Runs g player c i (repeated is l s seen e) = runs g [] e i
put-Runs g player c i (accepted is l s new e) = runs _ _ (accepted_placed g player c s new e) (
    move_to-IsSound (record g { consecutive_passes = 0 }) s.next s.next_valid
      (Simulated-IsAlive g.position c g.position.current_player g.hasher i.valid (rw is at l) s
        i.alive)
      (Simulated-HasItsHash g.position c g.hasher (rw is at l) s i.hashed))

handle_pass-IsSound : (g : Game) (player : Player) → IsSound g → IsSound (handle_pass g player).0
unfolding handle_pass
handle_pass-IsSound g player i = elim (Bool-cases (same_player player g.position.current_player)) [
  | inr other ↦ rw other i
  | inl turn ↦ elim (Bool-cases (increment g.consecutive_passes == 2)) [
    | inl two ↦
        rw (turn, two)
          (record { valid = i.valid; alive = i.alive; seen = i.seen; hashed = i.hashed })
    | inr more ↦ elim (Bool-cases (contains g.seen_hashes (pass g.position g.hasher).hash)) [
      | inl seen ↦
          rw (turn, more, seen)
            (record { valid = i.valid; alive = i.alive; seen = i.seen; hashed = i.hashed })
      | inr new ↦
          rw (turn, more, new)
            (record {
              valid = i.valid;
              alive = i.alive;
              seen = contains-cons (pass g.position g.hasher).hash g.seen_hashes;
              hashed = pass-HasItsHash g.hasher g.position i.hashed;
            })
    ]
  ]
]

-- In a sound game every event is handled without a failed assertion, and leaves the game sound.
pub handle_event-Runs : (g : Game) (e : GameEvent) → IsSound g → Runs (handle_event g e)
unfolding handle_event handle_resign handle_shutdown
handle_event-Runs g (put_stone_event player c) i =
    put-Runs g player c i (handle_put_stone-PutOutcome g player c i)
handle_event-Runs g (pass_event player) i = runs _ _ refl (handle_pass-IsSound g player i)
handle_event-Runs g resign_event i =
    runs _ _ refl (record { valid = i.valid; alive = i.alive; seen = i.seen; hashed = i.hashed })
handle_event-Runs g shutdown_event i =
    runs _ _ refl (record { valid = i.valid; alive = i.alive; seen = i.seen; hashed = i.hashed })

module _ (e : GameEvent) (es : List GameEvent) (g : Game) where
  pub run_loop-stop :
      g.game_active ≡ false → run_loop (e ∷ es) g ≡ some (record g { event_queue = e ∷ es }, [])
  unfolding run_loop
  run_loop-stop ended = ground arith

  pub run_loop-step :
      (g' g'' : Game) (notices more : List Notice)
      → g.game_active ≡ true
      → handle_event g e ≡ some (g', notices)
      → run_loop es g' ≡ some (g'', more)
      → run_loop (e ∷ es) g ≡ some (g'', notices ++ more)
  unfolding run_loop
  run_loop-step g' g'' notices more active first rest = ground arith

pub run_loop-Runs : (es : List GameEvent) (g : Game) → IsSound g → Runs (run_loop es g)
run_loop-Runs [] g i =
    runs (record g { event_queue = [] }) [] (unfold run_loop in refl)
      (record { valid = i.valid; alive = i.alive; seen = i.seen; hashed = i.hashed })
run_loop-Runs (e ∷ es) g i = elim (Bool-cases g.game_active) [
  | inl active ↦
      let first = handle_event-Runs g e i in
      let rest = run_loop-Runs es first.game first.sound in
      runs _ _
        (run_loop-step e es g first.game rest.game first.notices rest.notices active first.returns
          rest.returns)
        rest.sound
  | inr ended ↦
      runs _ _ (run_loop-stop e es g ended)
        (record { valid = i.valid; alive = i.alive; seen = i.seen; hashed = i.hashed })
]

-- A new game, with any events in its queue, runs without a failed assertion, and stops in a sound
-- game: every group on its board has a liberty, and its hash is that of the position.
pub run-Runs :
    (zobrist : ℕ → ZobristHash) (size : ℕ) (g : Game) (es : List GameEvent)
    → new_game zobrist size ≡ some g
    → Runs (run (record g { event_queue = es }))
unfolding run
run-Runs zobrist size g es e =
    let i = new_game-IsSound zobrist size g e in
    run_loop-Runs es (record g { event_queue = es; game_active = true })
      (record { valid = i.valid; alive = i.alive; seen = i.seen; hashed = i.hashed })
