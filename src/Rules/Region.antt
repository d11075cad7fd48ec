-- ===== src/Rules/Region.antt =====
-- The rules of Go that src/game/core/moveChecker.cpp decides: adjacent points, groups and
-- liberties, stated without the code's loops.
use go_game.Prelude.{ℕ, ◌+◌, ◌≡◌, ◌↔◌, ◌⊎◌, Bool, true, false, ◌||◌, Option, none, some, arith}
use go_game.Model.{Coord, Player, empty, same_stone, to_stone, Board}
use go_game.Model.Grid.{Inside, at}
use go_game.Rules.{neighbour, is_at}

abbrev Beside : ℕ → ℕ → Type 0
Beside a b = (a + 1 ≡ b) ⊎ (b + 1 ≡ a)

unfoldable pub Adjacent : Coord → Coord → Type 0
Adjacent c d = (Beside c.x d.x × (c.y ≡ d.y)) ⊎ ((c.x ≡ d.x) × Beside c.y d.y)

pub Adjacent-sym : (c d : Coord) → Adjacent c d → Adjacent d c
unfolding Adjacent
Adjacent-sym c d h = ground arith

-- A direction of the code leads to an adjacent point of the board.
abbrev pub IsDirection : ℕ × ℕ → Type 0
IsDirection d = (d ≡ (2, 1)) ⊎ (d ≡ (0, 1)) ⊎ (d ≡ (1, 2)) ⊎ (d ≡ (1, 0))

pub neighbour-Adjacent :
    (n : ℕ) (c q : Coord) (d : ℕ × ℕ)
    → Inside n c
    → IsDirection d
    → neighbour n c d ≡ some q
    → Adjacent c q × Inside n q
unfolding neighbour Adjacent
neighbour-Adjacent n c q (dx, dy) inside is e = ground arith

-- Every adjacent point of the board is found in one of the directions.
pub Adjacent-neighbour :
    (n : ℕ) (c q : Coord)
    → Adjacent c q
    → Inside n q
    → (neighbour n c (2, 1) ≡ some q)
      ⊎ (neighbour n c (0, 1) ≡ some q)
      ⊎ (neighbour n c (1, 2) ≡ some q)
      ⊎ (neighbour n c (1, 0) ≡ some q)
unfolding neighbour Adjacent
Adjacent-neighbour n c q near inside = ground arith

-- The points that belong to `player`: the stones on the board, and the one that is pretended.
unfoldable pub friend : Board → Player → Option Coord → Coord → Bool
friend b player pretend c = is_at pretend c || same_stone (at b c) (to_stone player)

-- `q` is connected to `start` by points of the player.
pub data Reach (b : Board) (player : Player) (pretend : Option Coord) (start : Coord)
    : Coord → Type 0 where
  here : Reach b player pretend start start
  step :
      {p q : Coord}
      → Reach b player pretend start p
      → Adjacent p q
      → Inside b.size q
      → friend b player pretend q ≡ true
      → Reach b player pretend start q

-- `q` is an empty point next to the group of `start`, and is not blocked.
pub record IsLiberty (b : Board) (player : Player) (pretend blocked : Option Coord)
    (start q : Coord) : Type 0 where
  pub inside : Inside b.size q
  pub foreign : friend b player pretend q ≡ false
  pub free : at b q ≡ empty
  pub unblocked : is_at blocked q ≡ false
  pub stone : Coord
  pub reached : Reach b player pretend start stone
  pub near : Adjacent stone q

pub friend_iff :
    (b : Board) (player : Player) (q : Coord)
    → (friend b player none q ≡ true) ↔ (at b q ≡ to_stone player)
unfolding friend
friend_iff b player q = (λ h. ground arith, λ h. ground arith)

pub friend-pretend : (b : Board) (player : Player) (c : Coord) → friend b player (some c) c ≡ true
unfolding friend
friend-pretend b player c = ground arith

module _ {b : Board} {player : Player} {pretend : Option Coord} where
  pub Reach-trans :
      {p q r : Coord}
      → Reach b player pretend p q
      → Reach b player pretend q r
      → Reach b player pretend p r
  Reach-trans h here = h
  Reach-trans h (step k near inside fr) = step (Reach-trans h k) near inside fr

  -- The points of a group are points of the board that belong to the player.
  pub Reach-Inside : {p q : Coord} → Inside b.size p → Reach b player pretend p q → Inside b.size q
  Reach-Inside h here = h
  Reach-Inside h (step k near inside fr) = inside

  pub Reach-friend :
      {p q : Coord}
      → friend b player pretend p ≡ true
      → Reach b player pretend p q
      → friend b player pretend q ≡ true
  Reach-friend h here = h
  Reach-friend h (step k near inside fr) = fr

  pub Reach-sym :
      {p q : Coord}
      → Inside b.size p
      → friend b player pretend p ≡ true
      → Reach b player pretend p q
      → Reach b player pretend q p
  Reach-sym hi hf here = here
  Reach-sym hi hf (step {p = m} {q} k near inside fr) =
      Reach-trans (step here (Adjacent-sym m q near) (Reach-Inside hi k) (Reach-friend hf k))
        (Reach-sym hi hf k)

  -- A group has the same liberties from each of its points.
  pub IsLiberty-Reach :
      {blocked : Option Coord} {p q r : Coord}
      → Reach b player pretend p q
      → IsLiberty b player pretend blocked q r
      → IsLiberty b player pretend blocked p r
  IsLiberty-Reach h l = record {
    inside = l.inside;
    foreign = l.foreign;
    free = l.free;
    unblocked = l.unblocked;
    stone = l.stone;
    reached = Reach-trans h l.reached;
    near = l.near;
  }
