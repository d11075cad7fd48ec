-- ===== src/Client/Follow.antt =====
-- A client (src/apps/runtime/position.cpp) follows the server's game (src/game/core/game.cpp)
-- through every event.
use go_game.Prelude.{
  ℕ, ◌+◌, ◌<◌, ◌≡◌, ◌≢◌, refl, sym, ◌∙◌, ap, inl, inr, Bool, true, false, ◌==◌, Option, some, none,
  List, [], ◌∷◌, Bool-cases,
}
use mathlib.Core.Option.{some-injective}
use go_game.Model.{Coord, Player, same_player, opponent}
use go_game.Position.{increment, u32_mod, pass}
use go_game.Hub.{
  GameEvent, put_stone_event, pass_event, resign_event, shutdown_event, GameDelta, place_action,
  pass_action, resign_action,
}
use go_game.Game.{
  Game, Notice, contains, deltas, placed, handle_event, handle_pass, handle_resign, handle_shutdown,
}
use go_game.Game.Invariant.{
  accepted_placed, IsSound, PutOutcome, not_in_turn, refused, repeated, accepted,
  handle_put_stone-PutOutcome,
}
use go_game.GameServer.{on_game_delta}
use go_game.Client.{ClientPosition, apply_delta, status_done}
use go_game.Client.Mirror.{Mirrors, receive, taken, put_Follows, plain_taken, player_of-seat_of}

-- How the client stands after the event.
pub data Follows (e : GameEvent) (g' : Game) (p p' : ClientPosition) : Type 0 where
  running : g'.game_active ≡ true → Mirrors g' p' → Follows e g' p p'
  ended :
      g'.game_active ≡ false
      → p'.status ≡ status_done
      → p'.board ≡ p.board
      → p'.move_id ≡ increment p.move_id
      → Follows e g' p p'
  shut : e ≡ shutdown_event → g'.game_active ≡ false → p' ≡ p → Follows e g' p p'

pub record Delivered (e : GameEvent) (g' : Game) (n : List Notice) (p : ClientPosition)
    : Type 0 where
  pub client : ClientPosition
  pub returns : receive n p ≡ some client
  pub follows : Follows e g' p client

module _ (g : Game) (p : ClientPosition) (sound : IsSound g) (active : g.game_active ≡ true)
    (m : Mirrors g p) (fits : p.move_id + 1 < u32_mod) where
  unmoved : (e : GameEvent) → Delivered e g [] p
  unmoved e = record { client = p; returns = refl; follows = running active m }

  received :
      (p' : ClientPosition) (d : GameDelta)
      → apply_delta p (on_game_delta d) ≡ some (p', true)
      → receive (deltas d ∷ []) p ≡ some p'
  received p' d e = rw e

  put-Delivered :
      (player : Player) (c : Coord) {r : Option (Game × List Notice)}
      → PutOutcome g player c r
      → (g' : Game) (n : List Notice) → r ≡ some (g', n)
      → Delivered (put_stone_event player c) g' n p
  put-Delivered player c (not_in_turn ne e) g' n e' =
      let sg : g ≡ g' = cc in let sn : [] ≡ n = cc in rw (← sg, ← sn) (unmoved _)
  put-Delivered player c (refused is ne e) g' n e' =
      let sg : g ≡ g' = cc in let sn : [] ≡ n = cc in rw (← sg, ← sn) (unmoved _)
  put-Delivered player c (repeated is l s seen e) g' n e' =
      let sg : g ≡ g' = cc in let sn : [] ≡ n = cc in rw (← sg, ← sn) (unmoved _)
  put-Delivered player c (accepted is l s new e0) g' n e' =
      let e = accepted_placed g player c s new e0 in
      let out = placed g player c (s.next, s.captures) in
      let sg : out.0 ≡ g' = cc in
      let sn : out.1 ≡ n = cc in
      let (p', run, mirrors) = put_Follows g p m c player is (rw is at l) s active fits in
      rw (← sg, ← sn)
        (record { client = p'; returns = received p' _ run; follows = running active mirrors })

  ends :
      (e : GameEvent) (g' : Game) (d : GameDelta)
      → d.action ≢ place_action
      → d.move_id ≡ increment g.position.move_id
      → d.game_active ≡ false
      → g'.game_active ≡ false
      → Follows e g' p (taken p (on_game_delta d) p.board)
  unfolding on_game_delta
  ends e g' d plain next_id last over =
      ended over (rw last) refl (next_id ∙ ap increment (sym m.moves))

  -- The delta of a pass.
  abbrev passed : Player → Player → Bool → GameDelta
  passed player next running_still = record {
    move_id = increment g.position.move_id;
    action = pass_action;
    player = player;
    coord = none;
    captures = [];
    next_player = next;
    game_active = running_still;
  }

  abbrev passed_on : Game
  passed_on = record g {
    consecutive_passes = increment g.consecutive_passes;
    position = pass g.position g.hasher;
    seen_hashes = (pass g.position g.hasher).hash ∷ g.seen_hashes;
  }

  passed_on-Mirrors :
      (player : Player)
      → Mirrors passed_on (
          taken p
            (on_game_delta (passed player (opponent g.position.current_player) g.game_active))
            p.board)
  unfolding on_game_delta pass
  passed_on-Mirrors player = record {
    valid = m.valid;
    same_size = m.same_size;
    stones = m.stones;
    moves = refl;
    turn = player_of-seat_of (opponent g.position.current_player);
    active = rw active;
  }

  -- A pass that superko refuses leaves a count behind and nothing else.
  uncounted-Mirrors : (k : ℕ) → Mirrors (record g { consecutive_passes = k }) p
  uncounted-Mirrors k = record {
    valid = m.valid;
    same_size = m.same_size;
    stones = m.stones;
    moves = m.moves;
    turn = m.turn;
    active = m.active;
  }

  handle_pass-Delivered :
      (e : GameEvent) (player : Player)
      → Delivered e (handle_pass g player).0 (handle_pass g player).1 p
  unfolding handle_pass pass
  handle_pass-Delivered e player =
      elim (Bool-cases (same_player player g.position.current_player)) [
        | inr other ↦ rw other (unmoved e)
        | inl turn ↦ elim (Bool-cases (increment g.consecutive_passes == 2)) [
          | inl two ↦
              let d = passed player (opponent player) false in
              let plain : d.action ≢ place_action = λ h. cc in
              rw (turn, two)
                (record {
                  client = taken p (on_game_delta d) p.board;
                  returns = received _ d (plain_taken g p m d plain refl fits);
                  follows = ends e _ d plain refl refl refl;
                })
          | inr more ↦ elim (Bool-cases (contains g.seen_hashes (pass g.position g.hasher).hash)) [
            | inl seen ↦
                rw (turn, more, seen)
                  (record {
                    client = p;
                    returns = refl;
                    follows = running active (uncounted-Mirrors (increment g.consecutive_passes));
                  })
            | inr new ↦
                let d = passed player (opponent g.position.current_player) g.game_active in
                let plain : d.action ≢ place_action = λ h. cc in
                rw (turn, more, new)
                  (record {
                    client = taken p (on_game_delta d) p.board;
                    returns = received _ d (plain_taken g p m d plain refl fits);
                    follows = running active (passed_on-Mirrors player);
                  })
          ]
        ]
      ]

  resign-Delivered : Delivered resign_event (handle_resign g).0 (handle_resign g).1 p
  unfolding handle_resign
  resign-Delivered =
      let d : GameDelta = record {
        move_id = increment g.position.move_id;
        action = resign_action;
        player = g.position.current_player;
        coord = none;
        captures = [];
        next_player = opponent g.position.current_player;
        game_active = false;
      } in
      let plain : d.action ≢ place_action = λ h. cc in
      record {
        client = taken p (on_game_delta d) p.board;
        returns = received _ d (plain_taken g p m d plain refl fits);
        follows = ends resign_event _ d plain refl refl refl;
      }

  moved :
      (e : GameEvent) {a b : Game × List Notice}
      → a ≡ b
      → Delivered e a.0 a.1 p
      → Delivered e b.0 b.1 p
  moved e same d = rw (← same) d

  -- Let a client mirror a sound running game, with a move number that does not wrap around. Of each
  -- event that the game handles, the client takes the deltas that the server broadcasts, and no
  -- assertion of the client fails. Either the game is still active, and the client mirrors it again; or
  -- the game is not active any more, and the client has counted the move, kept its board and is done;
  -- or the event was a shutdown, which ends the game and leaves the client as it was.
  pub handle_event-Delivered :
      (e : GameEvent) (g' : Game) (n : List Notice)
      → handle_event g e ≡ some (g', n)
      → Delivered e g' n p
  unfolding handle_event handle_shutdown
  handle_event-Delivered (put_stone_event player c) g' n e =
      put-Delivered player c (handle_put_stone-PutOutcome g player c sound) g' n e
  handle_event-Delivered (pass_event player) g' n e =
      moved (pass_event player) (some-injective _ _ e)
        (handle_pass-Delivered (pass_event player) player)
  handle_event-Delivered resign_event g' n e =
      moved resign_event (some-injective _ _ e) resign-Delivered
  handle_event-Delivered shutdown_event g' n e =
      moved shutdown_event (some-injective _ _ e)
        (record { client = p; returns = refl; follows = shut refl refl refl })
