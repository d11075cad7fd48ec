-- ===== src/Rules/Group.antt =====
-- `groupAnalysis` and `computeGroupLiberties` of src/game/core/moveChecker.cpp against the rules:
-- the group is the connected region, and the liberties are counted once each.
use go_game.Prelude.{
  ℕ, ◌+◌, ◌*◌, ◌<◌, ◌≡◌, refl, sym, ◌↔◌, ◌⊎◌, inl, inr, true, false, Option, some, arith, List, [],
  ◌∈◌, Bool-cases,
}
use go_game.Model.{Coord, Player, Board}
use go_game.Model.Grid.{Inside, IsValid}
use go_game.Rules.{Marks, Search, search_from, group_analysis}
use go_game.Rules.Count.{count, count-no_marks, count-pos, count-find}
use go_game.Rules.Region.{friend, Reach, here, step, IsLiberty}
use go_game.Rules.Loop
use go_game.Rules.Loop.{is_player_stone_lem}
use go_game.Rules.Rounds
use go_game.Rules.Rounds.{Closed, search_loop-Ends}

-- A run of `groupAnalysis` that returns the group of the start and the number of its liberties.
pub record Analysis (b : Board) (player : Player) (pretend blocked : Option Coord) (start : Coord)
    (r : Option (ℕ × List Coord)) : Type 0 where
  pub liberties : ℕ
  pub group : List Coord
  pub returns : r ≡ some (liberties, group)
  pub members : (q : Coord) → (q ∈ group) ↔ Reach b player pretend start q
  -- The points that are counted.
  pub counted : Marks
  pub liberties-eq : liberties ≡ count counted b.size
  pub counted_iff : (q : Coord) → (counted q ≡ true) ↔ IsLiberty b player pretend blocked start q

pub data Answer (b : Board) (player : Player) (pretend blocked : Option Coord) (start : Coord)
    (r : Option (ℕ × List Coord)) : Type 0 where
  is_group :
      friend b player pretend start ≡ true
      → Analysis b player pretend blocked start r
      → Answer b player pretend blocked start r
  no_group :
      friend b player pretend start ≡ false
      → r ≡ some (0, [])
      → Answer b player pretend blocked start r

module _ (b : Board) (valid : IsValid b) (player : Player) (pretend blocked : Option Coord)
    (start : Coord) (inside : Inside b.size start) where
  first-Sound : Loop.Sound b valid player pretend blocked start (search_from start)
  first-Sound = record {
    waiting = λ q. elim [ inl e ↦ rw e (inside, here) | inr m ↦ absurd m ];
    grouped = λ q. elim [ inl e ↦ rw e (inside, here) | inr m ↦ absurd m ];
    held = λ q m. m;
    kept = λ q m. ground arith;
    freed = λ q m. absurd (ground arith);
    counted = sym (count-no_marks b.size);
  }

  first-Closed : Closed b valid player pretend blocked start (search_from start)
  unfolding Closed
  first-Closed p q vp near iq = absurd (ground arith)

  module _ (s : Search) (sound : Loop.Sound b valid player pretend blocked start s)
      (closed : Closed b valid player pretend blocked start s) (emptied : s.stack ≡ [])
      (begun : Rounds.IsSeen b valid player pretend blocked start s start) where
    visited_of_seen : (q : Coord) → (s.visited q ≡ true) ⊎ (q ∈ s.stack) → s.visited q ≡ true
    visited_of_seen q (inl v) = v
    visited_of_seen q (inr m) = let m' : q ∈ [] = rw emptied at m in absurd m'

    Reach-visited : (q : Coord) → Reach b player pretend start q → s.visited q ≡ true
    unfolding Closed
    Reach-visited q here = visited_of_seen start begun
    Reach-visited q (step {p} r near iq fr) =
        visited_of_seen q ((closed p q (Reach-visited p r) near iq).friendly fr)

    IsLiberty-visited :
        (q : Coord) → IsLiberty b player pretend blocked start q → s.liberty_visited q ≡ true
    unfolding Closed
    IsLiberty-visited q l =
        (closed l.stone q (Reach-visited l.stone l.reached) l.near l.inside).liberal l.foreign
          l.free l.unblocked

    of_search : Analysis b player pretend blocked start (some (s.liberties, s.group))
    of_search = record {
      liberties = s.liberties;
      group = s.group;
      returns = refl;
      members = λ q. (λ m. (sound.grouped q m).1, λ r. sound.kept q (Reach-visited q r));
      counted = s.liberty_visited;
      liberties-eq = sound.counted;
      counted_iff = λ q. (sound.freed q, IsLiberty-visited q);
    }

  pub group_analysis-Analysis :
      friend b player pretend start ≡ true
      → Analysis b player pretend blocked start (group_analysis b start player pretend blocked)
  unfolding group_analysis
  group_analysis-Analysis fr =
      let run =
        search_loop-Ends b valid player pretend blocked start (4 * (b.size * b.size) + 2)
          (search_from start) first-Sound first-Closed (inr (inl refl)) (omega arith) in
      rw (is_player_stone_lem b valid player pretend blocked start inside, fr, run.returns)
        (of_search run.out run.sound run.closed run.emptied run.begun)

  -- On a valid board, `groupAnalysis` of a point of the board returns. If the start belongs to the
  -- player, the group is the points connected to it, and the liberties are the number of the empty
  -- points next to the group that are not blocked, each counted once. If not, there is no group.
  pub group_analysis_lem :
      Answer b player pretend blocked start (group_analysis b start player pretend blocked)
  group_analysis_lem = elim (Bool-cases (friend b player pretend start)) [
    | inl fr ↦ is_group fr (group_analysis-Analysis fr)
    | inr not_fr ↦ no_group not_fr (
        unfold group_analysis in
        rw (is_player_stone_lem b valid player pretend blocked start inside, not_fr))
  ]

module _ {b : Board} {player : Player} {pretend blocked : Option Coord} {start : Coord}
    {r : Option (ℕ × List Coord)} (a : Analysis b player pretend blocked start r) where
  -- No liberty is counted exactly when the group has none.
  pub no-IsLiberty : a.liberties ≡ 0 → (q : Coord) → ¬ IsLiberty b player pretend blocked start q
  no-IsLiberty e q l =
      omega
        (arith, e, a.liberties-eq, count-pos a.counted q b.size l.inside ((a.counted_iff q).1 l))

  pub some-IsLiberty : 0 < a.liberties → (q : Coord) × IsLiberty b player pretend blocked start q
  some-IsLiberty h =
      let (q, _, e) = count-find a.counted b.size (omega (arith, a.liberties-eq)) in
      (q, (a.counted_iff q).0 e)
