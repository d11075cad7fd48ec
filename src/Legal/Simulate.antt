-- ===== src/Legal/Simulate.antt =====
-- `simulatePosition` of src/game/core/moveChecker.cpp: the board after a move, point by point.
use go_game.Prelude.{
  ◌≡◌, ◌≢◌, refl, ◌∙◌, ◌↔◌, true, Option, some, arith, List, ◌∈◌, if◌then◌else◌, bit_xor,
}
use go_game.Model.{Coord, Player, opponent, empty, to_stone, same_coord, Board, write}
use go_game.Model.Grid.{Inside, IsValid, at, is_empty_lem, at-write, write-IsValid, place_free}
use go_game.Position.{ZobristHash, GamePosition, increment}
use go_game.Rules.{Marks}
use go_game.Rules.Region.{friend_iff, Reach-Inside, Reach-friend}
use go_game.Legal.{coords, collect, hash_captures, simulate_position}
use go_game.Legal.Capture.{IsCaptured, capture_from_lem}
use go_game.Legal.Coords.{mem-coords, mem-collect}
use go_game.Legal.Copy.{remains, copy_stones_lem}

pub to_stone-ne-empty : (player : Player) → to_stone player ≢ empty
to_stone-ne-empty player e = ground arith

-- The position that a move leads to: the new stone stands, the captured stones are gone, and every
-- other point is as before.
pub record Simulated (start : GamePosition) (move : Coord) (player : Player) (hasher : ZobristHash)
    (r : Option (GamePosition × List Coord)) : Type 0 where
  pub next : GamePosition
  pub captures : List Coord
  pub captured : Marks
  pub returns : r ≡ some (next, captures)
  pub captured_iff :
      (q : Coord) → (captured q ≡ true) ↔ IsCaptured start.board (opponent player) move q
  pub captures-eq : captures ≡ collect captured (coords start.board.size)
  pub next_valid : IsValid next.board
  pub same_size : next.board.size ≡ start.board.size
  pub stones :
      (q : Coord)
      → Inside start.board.size q
      → at next.board q ≡ (
          if same_coord move q
          then to_stone player
          else if captured q
          then empty
          else at start.board q)
  pub turn : next.current_player ≡ opponent player
  pub counted : next.move_id ≡ increment start.move_id
  pub hashed :
      next.hash
      ≡ bit_xor
          (hash_captures hasher
            (opponent player)
            captures
            (bit_xor start.hash (hasher.stone move player)))
          hasher.toggle_player

module _ (start : GamePosition) (move : Coord) (player : Player) (hasher : ZobristHash)
    (valid : IsValid start.board) (inside : Inside start.board.size move)
    (free : at start.board move ≡ empty) where
  open start use {board}

  module _ (captured : Marks) (out : Board) (out_valid : IsValid out)
      (out_size : out.size ≡ board.size)
      (copied : (q : Coord)
        → Inside board.size q
        → at out q ≡ remains board valid move captured q) where
    inside' : Inside out.size move
    inside' = rw out_size inside

    free_point : at out move ≡ empty
    free_point = copied move inside ∙ ground (arith, free)

    placed_stones :
        (q : Coord)
        → Inside board.size q
        → at (write out move (to_stone player)) q ≡ (
            if same_coord move q then to_stone player else if captured q then empty else at board q)
    placed_stones q h =
        at-write out out_valid move inside' (to_stone player) q (rw out_size h)
        ∙ ground (arith, copied q h)

  -- On a valid board and a free point of it, the simulation returns: the next board is valid, of the
  -- same size, and has the new stone, no captured stone, and every other point as before; the opponent
  -- is to move, the move is counted, the captures are listed in the order of the points, and the hash
  -- takes in the stone, each capture and the change of player.
  pub simulate_position-Simulated :
      Simulated start move player hasher (simulate_position start move player hasher)
  unfolding simulate_position
  simulate_position-Simulated =
      let (captured, ran, iff) = capture_from_lem board valid move inside (opponent player) in
      let (out, copied, out_valid, out_size, stones) = copy_stones_lem board valid move captured in
      let hi = inside' captured out out_valid out_size stones in
      let hf = free_point captured out out_valid out_size stones in
      record {
        next = record {
          board = write out move (to_stone player);
          current_player = opponent player;
          hash =
              bit_xor
                (hash_captures hasher (opponent player) (collect captured (coords board.size))
                  (bit_xor start.hash (hasher.stone move player)))
                hasher.toggle_player;
          move_id = increment start.move_id;
        };
        captures = collect captured (coords board.size);
        captured = captured;
        returns = rw (
          is_empty_lem board valid move inside,
          free,
          ran,
          copied,
          place_free out out_valid move hi (to_stone player) (to_stone-ne-empty player) hf,
        );
        captured_iff = iff;
        captures-eq = refl;
        next_valid = write-IsValid out out_valid move hi (to_stone player);
        same_size = out_size;
        stones = placed_stones captured out out_valid out_size stones;
        turn = refl;
        counted = refl;
        hashed = refl;
      }

pub IsCaptured-stone :
    {b : Board} {enemy : Player} {move q : Coord}
    → IsCaptured b enemy move q
    → Inside b.size q × (at b q ≡ to_stone enemy)
IsCaptured-stone {b} {enemy} {q} c =
    let own = (friend_iff b enemy c.root).1 c.capturing.stone in
    (
      Reach-Inside c.capturing.inside c.reached,
      (friend_iff b enemy q).0 (Reach-friend own c.reached),
    )

-- The captures that a simulation lists are exactly the captured stones.
pub captures_iff :
    {start : GamePosition} {move : Coord} {player : Player} {hasher : ZobristHash}
    {r : Option (GamePosition × List Coord)} (s : Simulated start move player hasher r) (q : Coord)
    → (q ∈ s.captures) ↔ IsCaptured start.board (opponent player) move q
captures_iff {start} s q =
    let n = start.board.size in
    (
      λ m. (s.captured_iff q).0 ((mem-collect s.captured (coords n) q).0 (rw s.captures-eq at m)).1,
      λ c. rw s.captures-eq (
          (mem-collect s.captured (coords n) q).1
            ((mem-coords q n).1 (IsCaptured-stone c).0, (s.captured_iff q).1 c)),
    )
