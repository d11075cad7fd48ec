-- ===== src/Legal/Hash.antt =====
-- The hash that `simulatePosition` of src/game/core/moveChecker.cpp and `pass` of position.cpp
-- update, against a hash computed from the whole position.
use go_game.Prelude.{
  ℕ, ◌≡◌, refl, sym, ◌∙◌, ap, ap₂, inl, inr, true, false, Option, List, [], ◌∷◌, if◌then◌else◌,
  Bool-cases, bit_xor,
}
use go_game.Prelude.Xor.{zero-bit_xor, bit_xor-zero, bit_xor_self, bit_xor_assoc, bit_xor_left_comm}
use go_game.Model.{
  Coord, same_coord, Player, black, white, opponent, Stone, empty, black_stone, white_stone,
  to_stone, Board, new_board,
}
use go_game.Model.Grid.{Inside, IsValid, at, at-new_board, same_coord→≡}
use go_game.Position.{ZobristHash, GamePosition, new_position, pass}
use go_game.Legal.{coords, hash_captures, simulate_position}
use go_game.Legal.Coords.{mem-coords}
use go_game.Legal.Fold.{
  xor_over, xor_over-zero, xor_over-congr, xor_over-xor, xor_over-collect, xor_over-only, only,
}
use go_game.Legal.Simulate.{
  Simulated, IsCaptured-stone, to_stone-ne-empty, simulate_position-Simulated,
}
use go_game.Legal.Valid.{IsLegal}

-- The Zobrist hash of a position: the stones on the board, and white to move.
abbrev pub stone_hash : ZobristHash → Coord → Stone → ℕ
stone_hash h c empty = 0
stone_hash h c black_stone = h.stone c black
stone_hash h c white_stone = h.stone c white

abbrev pub turn_hash : ZobristHash → Player → ℕ
turn_hash h black = 0
turn_hash h white = h.toggle_player

pub board_hash : ZobristHash → Board → ℕ
board_hash h b = xor_over (λ c. stone_hash h c (at b c)) (coords b.size)

abbrev pub HasItsHash : ZobristHash → GamePosition → Type 0
HasItsHash h p = p.hash ≡ bit_xor (board_hash h p.board) (turn_hash h p.current_player)

-- The first position has its hash.
pub new_position-HasItsHash : (h : ZobristHash) (n : ℕ) → HasItsHash h (new_position n)
unfolding new_position board_hash
new_position-HasItsHash h n =
    sym
      (bit_xor-zero _ ∙ xor_over-zero _ (coords (new_board n).size) (λ c m. rw (at-new_board n c)))

turn_hash-opponent :
    (h : ZobristHash) (p : Player)
    → bit_xor (turn_hash h p) h.toggle_player ≡ turn_hash h (opponent p)
turn_hash-opponent h black = zero-bit_xor h.toggle_player
turn_hash-opponent h white = bit_xor_self h.toggle_player

-- A pass keeps the hash right.
pub pass-HasItsHash :
    (h : ZobristHash) (p : GamePosition) → HasItsHash h p → HasItsHash h (pass p h)
unfolding pass
pass-HasItsHash h p e =
    ap (λ (x : ℕ). bit_xor x h.toggle_player) e
    ∙ bit_xor_assoc _ _ _
    ∙ ap (bit_xor (board_hash h p.board)) (turn_hash-opponent h p.current_player)

stone_hash-to_stone :
    (h : ZobristHash) (c : Coord) (p : Player) → stone_hash h c (to_stone p) ≡ h.stone c p
stone_hash-to_stone h c black = refl
stone_hash-to_stone h c white = refl

hash_captures-xor_over :
    (h : ZobristHash) (enemy : Player) (cs : List Coord) (x : ℕ)
    → hash_captures h enemy cs x ≡ bit_xor x (xor_over (λ c. h.stone c enemy) cs)
unfolding hash_captures
hash_captures-xor_over h enemy [] x = sym (bit_xor-zero x)
hash_captures-xor_over h enemy (c ∷ cs) x =
    hash_captures-xor_over h enemy cs (bit_xor x (h.stone c enemy)) ∙ bit_xor_assoc x _ _

regroup :
    (a b c d e : ℕ)
    → bit_xor (bit_xor (bit_xor (bit_xor a b) c) d) e
      ≡ bit_xor (bit_xor a (bit_xor c d)) (bit_xor b e)
regroup a b c d e = simp bit_xor_assoc (
    ap (bit_xor a) (bit_xor_left_comm b c (bit_xor d e) ∙ ap (bit_xor c) (bit_xor_left_comm b d e)))

module _ (start : GamePosition) (move : Coord) (hasher : ZobristHash)
    {r : Option (GamePosition × List Coord)} (legal : IsLegal start.board start.current_player move)
    (s : Simulated start move start.current_player hasher r) where
  open start use {board, current_player as player}

  abbrev enemy : Player
  enemy = opponent player

  abbrev added : Coord → ℕ
  added = only move (hasher.stone move player)

  abbrev taken : Coord → ℕ
  taken c = if s.captured c then hasher.stone c enemy else 0

  module _ (c : Coord) (h : Inside board.size c) where
    not_captured_free : at board c ≡ empty → s.captured c ≡ false
    not_captured_free e = elim (Bool-cases (s.captured c)) [
      | inl cap ↦
          absurd (to_stone-ne-empty enemy (sym (IsCaptured-stone ((s.captured_iff c).0 cap)).1 ∙ e))
      | inr n ↦ n
    ]

    at_the_move :
        same_coord move c ≡ true
        → stone_hash hasher c (at s.next.board c)
          ≡ bit_xor (stone_hash hasher c (at board c)) (bit_xor (added c) (taken c))
    at_the_move e =
        let same = same_coord→≡ move c e in
        let free : at board c ≡ empty = rw (← same) legal.free in
        rw (s.stones c h, e, not_captured_free free, free)
          (stone_hash-to_stone hasher c player
            ∙ rw same (sym (zero-bit_xor _ ∙ bit_xor-zero (hasher.stone c player))))

    elsewhere :
        same_coord move c ≡ false
        → stone_hash hasher c (at s.next.board c)
          ≡ bit_xor (stone_hash hasher c (at board c)) (bit_xor (added c) (taken c))
    elsewhere e = elim (Bool-cases (s.captured c)) [
      | inl cap ↦
          rw (s.stones c h, e, cap, (IsCaptured-stone ((s.captured_iff c).0 cap)).1)
            (sym (
              ap₂ bit_xor (stone_hash-to_stone hasher c enemy) (zero-bit_xor (hasher.stone c enemy))
              ∙ bit_xor_self (hasher.stone c enemy)))
      | inr n ↦
          rw (s.stones c h, e, n)
            (sym
              (ap (bit_xor (stone_hash hasher c (at board c))) (zero-bit_xor 0) ∙ bit_xor-zero _))
    ]

    -- What the move changes at one point of the board.
    point_hash :
        stone_hash hasher c (at s.next.board c)
        ≡ bit_xor (stone_hash hasher c (at board c)) (bit_xor (added c) (taken c))
    point_hash = elim (Bool-cases (same_coord move c)) [
      | inl e ↦ at_the_move e
      | inr e ↦ elsewhere e
    ]

  next_board_hash :
      board_hash hasher s.next.board
      ≡ bit_xor
          (board_hash hasher board)
          (bit_xor (hasher.stone move player) (xor_over (λ c. hasher.stone c enemy) s.captures))
  unfolding board_hash
  next_board_hash =
      let old = λ (c : Coord). stone_hash hasher c (at board c) in
      let all = coords board.size in
      ap (λ (n : ℕ). xor_over (λ c. stone_hash hasher c (at s.next.board c)) (coords n)) s.same_size
      ∙ xor_over-congr _ _ all (λ c m. point_hash c ((mem-coords c board.size).0 m))
      ∙ xor_over-xor old (λ c. bit_xor (added c) (taken c)) all
      ∙ ap (bit_xor (xor_over old all)) (
          xor_over-xor added taken all
          ∙ ap₂ bit_xor (xor_over-only move (hasher.stone move player) board.size legal.inside) (
              sym (xor_over-collect (λ c. hasher.stone c enemy) s.captured all)
              ∙ ap (xor_over (λ c. hasher.stone c enemy)) (sym s.captures-eq)))

  -- The hash of a simulated move is that of its board and its player.
  pub Simulated-HasItsHash : HasItsHash hasher start → HasItsHash hasher s.next
  Simulated-HasItsHash e =
      s.hashed
      ∙ ap (λ (x : ℕ). bit_xor x hasher.toggle_player)
          (hash_captures-xor_over hasher enemy s.captures _
            ∙ ap
                (λ (x : ℕ).
                  bit_xor (bit_xor x (hasher.stone move player))
                    (xor_over (λ c. hasher.stone c enemy) s.captures))
                e)
      ∙ regroup (board_hash hasher board) (turn_hash hasher player) _ _ hasher.toggle_player
      ∙ ap₂ bit_xor (sym next_board_hash)
          (turn_hash-opponent hasher player ∙ ap (turn_hash hasher) (sym s.turn))

-- If the hash of a position with a valid board is the exclusive or over its stones and its player to
-- move, then `simulatePosition` of a legal move of that player gives the position that the rules
-- describe, and its hash is the exclusive or over the stones of the new board and the new player.
pub simulate_position-HasItsHash :
    (start : GamePosition) (move : Coord) (hasher : ZobristHash)
    → IsValid start.board
    → IsLegal start.board start.current_player move
    → HasItsHash hasher start
    → (s : Simulated start move start.current_player hasher
        (simulate_position start move start.current_player hasher))
      × HasItsHash hasher s.next
simulate_position-HasItsHash start move hasher valid legal hashed =
    let s =
      simulate_position-Simulated start move start.current_player hasher valid legal.inside
        legal.free in
    (s, Simulated-HasItsHash start move hasher legal s hashed)
