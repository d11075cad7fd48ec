-- ===== src/Client/Mirror.antt =====
-- The position of a client (src/apps/runtime/position.cpp) that gets the deltas of a server's game
-- (src/game/core/game.cpp, through `onGameDelta` of src/apps/runtime/gameServer.cpp).
use go_game.Prelude.{
  ◌+◌, ◌<◌, ◌≡◌, ◌≢◌, refl, sym, ◌∙◌, inl, inr, true, Option, some, ◌>>=◌, arith, List, [], ◌∷◌,
  ◌∈◌, Bool-cases, ap,
}
use go_game.Model.{Coord, Player, black, white, opponent, empty, to_stone, Board, write, place}
use go_game.Model.Grid.{Inside, IsValid, at, same_coord→≡, at-write, write-IsValid, place_free}
use go_game.Position.{increment, u32_mod}
use go_game.Hub.{GameDelta, place_action}
use go_game.Net.{ServerDelta}
use go_game.Game.{Game, Notice, signals, deltas, placed, place_delta}
use go_game.Game.Invariant.{simulation}
use go_game.Legal.Valid.{IsLegal}
use go_game.Legal.Simulate.{Simulated, IsCaptured-stone, captures_iff, to_stone-ne-empty}
use go_game.Client.Removal.{Removed, remove_all-Removed}
use go_game.GameServer.{on_game_delta, seat_of, server_action}
use go_game.Client.{
  ClientPosition, apply_delta, remove_all, place_on, stone_of, player_of, is_delta_applicable,
  status_active, status_after, board_after,
}

stone_of-seat_of : (p : Player) → stone_of (seat_of p) ≡ to_stone p
stone_of-seat_of black = refl
stone_of-seat_of white = refl

pub player_of-seat_of : (p : Player) → player_of (seat_of p) ≡ p
player_of-seat_of black = refl
player_of-seat_of white = refl

-- The client holds the position of the running game.
pub record Mirrors (g : Game) (p : ClientPosition) : Type 0 where
  pub valid : IsValid p.board
  pub same_size : p.board.size ≡ g.position.board.size
  pub stones : (q : Coord) → Inside g.position.board.size q → at p.board q ≡ at g.position.board q
  pub moves : p.move_id ≡ g.position.move_id
  pub turn : p.player ≡ g.position.current_player
  pub active : p.status ≡ status_active

-- The client gets what the server broadcasts.
abbrev pub receive : List Notice → ClientPosition → Option ClientPosition
receive [] p = some p
receive (signals s ∷ ns) p = receive ns p
receive (deltas d ∷ ns) p = apply_delta p (on_game_delta d) >>= λ (p', _). receive ns p'

-- A delta for the next move of a running game is taken.
applicable :
    (p : ClientPosition) (d : GameDelta)
    → p.status ≡ status_active
    → p.move_id + 1 < u32_mod
    → d.move_id ≡ increment p.move_id
    → is_delta_applicable p (on_game_delta d) ≡ true
unfolding is_delta_applicable on_game_delta
applicable p d active fits e = ground arith

-- What a delta that is taken makes of the position.
abbrev pub taken : ClientPosition → ServerDelta → Board → ClientPosition
taken p d board = record {
  move_id = d.turn;
  status = status_after d.status;
  player = player_of d.next;
  board = board;
}

apply_delta-taken :
    (p : ClientPosition) (d : ServerDelta) (board : Board)
    → is_delta_applicable p d ≡ true
    → board_after d.action p.board d.seat d.coord d.captures ≡ some board
    → apply_delta p d ≡ some (taken p d board, true)
unfolding apply_delta
apply_delta-taken p d board ok e = rw (ok, e)

module _ (g : Game) (p : ClientPosition) (m : Mirrors g p) (c : Coord) (player : Player)
    (in_turn : player ≡ g.position.current_player)
    (legal : IsLegal g.position.board g.position.current_player c)
    (s : Simulated g.position c g.position.current_player g.hasher (simulation g c)) where
  inside' : Inside p.board.size c
  inside' = rw m.same_size legal.inside

  abbrev with_stone : Board
  with_stone = write p.board c (to_stone player)

  placed_here : place p.board c (to_stone player) ≡ some (with_stone, true)
  placed_here =
      place_free p.board m.valid c inside' (to_stone player) (to_stone-ne-empty player)
        (m.stones c legal.inside ∙ legal.free)

  removed : Removed s.captures with_stone (remove_all s.captures with_stone)
  removed =
      remove_all-Removed s.captures with_stone
        (write-IsValid p.board m.valid c inside' (to_stone player))
        (λ q i. rw m.same_size (IsCaptured-stone ((captures_iff s q).0 i)).0)

  module _ (q : Coord) (h : Inside g.position.board.size q) where
    h' : Inside with_stone.size q
    h' = rw m.same_size h

    same_stones : at removed.out q ≡ at s.next.board q
    same_stones = elim (Bool-cases (s.captured q)) [
      | inl cap ↦
          let captured = (s.captured_iff q).0 cap in
          let (hq, stone) = IsCaptured-stone captured in
          let ne : c ≢ q = λ e.
            to_stone-ne-empty (opponent g.position.current_player)
              (sym stone ∙ rw (← e) legal.free) in
          let gone : at s.next.board q ≡ empty =
            ground (arith, s.stones q h, cap, same_coord→≡ c q) in
          removed.gone q h' ((captures_iff s q).1 captured) ∙ sym gone
      | inr n ↦
          let left : ¬ (q ∈ s.captures) =
            λ i. cc (n, (s.captured_iff q).1 ((captures_iff s q).0 i)) in
          let wrote = at-write p.board m.valid c inside' (to_stone player) q h' in
          removed.kept q h' left ∙ ground (arith, wrote, m.stones q h, s.stones q h, in_turn, n)
    ]

  abbrev pub after : Game
  after = (placed g player c (s.next, s.captures)).0

  put_board : place_on p.board (seat_of player) (some c) s.captures ≡ some removed.out
  unfolding place_on
  put_board = rw (stone_of-seat_of player, placed_here, removed.returns)

  abbrev pub delta : GameDelta
  delta = place_delta after player c s.captures

  pub put_Follows :
      g.game_active ≡ true
      → p.move_id + 1 < u32_mod
      → (p' : ClientPosition) × (apply_delta p (on_game_delta delta) ≡ some (p', true))
        × Mirrors after p'
  unfolding on_game_delta
  put_Follows active fits =
      let ok = applicable p delta m.active fits (s.counted ∙ ap increment (sym m.moves)) in
      let p' = taken p (on_game_delta delta) removed.out in
      (
        p',
        apply_delta-taken p (on_game_delta delta) removed.out ok put_board,
        record {
          valid = removed.valid;
          same_size = removed.same_size ∙ m.same_size ∙ sym s.same_size;
          stones = λ q h. same_stones q (rw s.same_size at h);
          moves = refl;
          turn = player_of-seat_of s.next.current_player;
          active = rw active;
        },
      )

-- A delta that puts no stone.
module _ (g : Game) (p : ClientPosition) (m : Mirrors g p) (d : GameDelta)
    (plain : d.action ≢ place_action) (next_id : d.move_id ≡ increment g.position.move_id)
    (fits : p.move_id + 1 < u32_mod) where
  plain_board :
      board_after (server_action d.action) p.board (seat_of d.player) d.coord d.captures
      ≡ some p.board
  plain_board = ground arith

  pub plain_taken : apply_delta p (on_game_delta d) ≡ some (taken p (on_game_delta d) p.board, true)
  unfolding on_game_delta
  plain_taken =
      apply_delta-taken p (on_game_delta d) p.board
        (applicable p d m.active fits (next_id ∙ ap increment (sym m.moves))) plain_board
