-- ===== src/Legal/Valid.antt =====
-- `computeGroupLiberties`, `isSuicide` and `isValidMove` of src/game/core/moveChecker.cpp decide
-- the rules of a legal move, apart from superko.
use go_game.Prelude.{
  ℕ, ◌<◌, ◌≡◌, refl, ◌↔◌, inl, inr, Bool, true, false, not, none, some, ◌>>=◌, arith, Bool-cases,
  zero_or_pos,
}
use go_game.Model.{Coord, Player, opponent, empty, same_stone, Board, in_bounds}
use go_game.Model.Grid.{Inside, IsValid, at, get_lem, same_stone→≡}
use go_game.Rules.Region.{friend-pretend, IsLiberty}
use go_game.Rules.Group.{group_analysis-Analysis, no-IsLiberty, some-IsLiberty}
use go_game.Legal.{compute_group_liberties, would_capture, is_suicide, is_valid_move}
use go_game.Legal.Capture.{IsCapturing}
use go_game.Legal.Suicide.{would_capture_from_lem}

-- A stone of the player at `c` would have a liberty, or would capture.
pub data Lives (b : Board) (player : Player) (c : Coord) : Type 0 where
  by_liberty : (q : Coord) → IsLiberty b player (some c) none c q → Lives b player c
  by_capture : (n : Coord) → IsCapturing b (opponent player) c n → Lives b player c

pub record IsLegal (b : Board) (player : Player) (c : Coord) : Type 0 where
  pub inside : Inside b.size c
  pub free : at b c ≡ empty
  pub lives : Lives b player c

inside→in_bounds : (b : Board) (c : Coord) → Inside b.size c → in_bounds b c ≡ true
inside→in_bounds b c h = ground arith

in_bounds→inside : (b : Board) (c : Coord) → in_bounds b c ≡ true → Inside b.size c
in_bounds→inside b c h = ground arith

module _ (b : Board) (valid : IsValid b) (player : Player) (c : Coord) where
  module _ (inside : Inside b.size c) where
    compute_group_liberties_lem :
        (n : ℕ) × (compute_group_liberties b c player ≡ some n)
        × ((0 < n) ↔ ((q : Coord) × IsLiberty b player (some c) none c q))
    unfolding compute_group_liberties
    compute_group_liberties_lem =
        let a =
          group_analysis-Analysis b valid player (some c) none c inside
            (friend-pretend b player c) in
        (
          a.liberties,
          rw (inside→in_bounds b c inside, a.returns),
          (
            some-IsLiberty a,
            λ (q, l). elim (zero_or_pos a.liberties) [
              | inl z ↦ absurd (no-IsLiberty a z q l)
              | inr p ↦ p
            ],
          ),
        )

    -- On a valid board and at a point of it, `isSuicide` answers; the answer is false exactly when
    -- a stone of the player there would have a liberty or would capture.
    pub is_suicide_lem :
        (r : Bool) × (is_suicide b player c ≡ some r) × ((r ≡ false) ↔ Lives b player c)
    unfolding is_suicide would_capture
    is_suicide_lem =
        let (n, count, free) = compute_group_liberties_lem in
        let (r, answer, captures) = would_capture_from_lem b valid c inside (opponent player) in
        elim (zero_or_pos n) [
          | inr p ↦ (
            false,
            rw count (ground arith),
            (λ _. let (q, l) = free.0 p in by_liberty q l, λ _. refl),
          )
          | inl z ↦ (
            not r,
            rw (count, z, answer),
            (
              λ e. let (n', cap) = captures.0 (ground arith) in by_capture n' cap,
              λ lives. elim lives [
                | by_liberty q l ↦ absurd (omega (arith, free.1 (q, l)))
                | by_capture n' cap ↦ rw (captures.1 (n', cap))
              ],
            ),
          )
        ]

  valid_of_stone :
      (inside : Inside b.size c)
      → (r : Bool) × (is_valid_move b player c ≡ some r) × ((r ≡ true) ↔ IsLegal b player c)
  unfolding is_valid_move
  valid_of_stone inside = elim (Bool-cases (same_stone (at b c) empty)) [
    | inl free ↦
        let (suicide, answer, lives) = is_suicide_lem inside in
        (
          not suicide,
          rw (inside→in_bounds b c inside, get_lem b valid c inside, ◌>>=◌, free, answer),
          (
            λ e. record {
              inside = inside;
              free = same_stone→≡ _ _ free;
              lives = lives.0 (ground arith);
            },
            λ l. rw (lives.1 l.lives),
          ),
        )
    | inr taken ↦ (
      false,
      rw (inside→in_bounds b c inside, get_lem b valid c inside, ◌>>=◌, taken),
      (λ e. cc, λ l. ground (arith, l.free)),
    )
  ]

  -- On a valid board `isValidMove` answers, for any coordinate. The answer is true exactly for a
  -- legal move: a free point of the board where a stone of the player would have a liberty, or would
  -- take the last liberty of an enemy group next to it.
  pub is_valid_move_lem :
      (r : Bool) × (is_valid_move b player c ≡ some r) × ((r ≡ true) ↔ IsLegal b player c)
  unfolding is_valid_move
  is_valid_move_lem = elim (Bool-cases (in_bounds b c)) [
    | inl on ↦ valid_of_stone (in_bounds→inside b c on)
    | inr off ↦ (false, rw off, (λ e. cc, λ l. ground (arith, inside→in_bounds b c l.inside)))
  ]
