-- ===== src/Legal/Copy.antt =====
-- The loop of `simulatePosition` in src/game/core/moveChecker.cpp that copies the stones that stay
-- to a new board.
use go_game.Prelude.{
  ◌≡◌, ◌≢◌, refl, sym, ◌∙◌, ◌⊎◌, inl, inr, Bool, true, false, ◌||◌, Option, some, ◌>>=◌, arith,
  List, [], ◌∷◌, ◌∈◌, if◌then◌else◌, Bool-cases,
}
use go_game.Model.{Coord, Stone, empty, same_stone, same_coord, Board, new_board, write, place}
use go_game.Model.Grid.{
  Inside, IsValid, at, get_lem, same_coord→≡, same_coord_refl, same_stone→≡, same_stone_refl,
  at-write, write-IsValid, place_free, place_taken, new_board-IsValid, at-new_board,
}
use go_game.Rules.{Marks}
use go_game.Legal.{coords, copy_stones}
use go_game.Legal.Coords.{mem-coords}

module _ (b : Board) (valid : IsValid b) (move : Coord) (captured : Marks) where
  abbrev goes : Coord → Bool
  goes q = captured q || same_coord q move

  -- What stands at a point when the loop is done.
  abbrev pub remains : Coord → Stone
  remains q = if goes q then empty else at b q

  -- A board that holds some of the stones that stay.
  record IsPart (next : Board) : Type 0 where
    valid' : IsValid next
    same_size : next.size ≡ b.size
    stones : (q : Coord) → Inside b.size q → (at next q ≡ remains q) ⊎ (at next q ≡ empty)

  record Copies (cs : List Coord) (next : Board) (r : Option Board) : Type 0 where
    out : Board
    returns : r ≡ some out
    part : IsPart out
    copied : (q : Coord) → q ∈ cs → at out q ≡ remains q
    kept : (q : Coord) → Inside b.size q → at next q ≡ remains q → at out q ≡ remains q

  module _ (pos : Coord) (rest : List Coord) (next : Board) where
    copy-goes :
        goes pos ≡ true
        → copy_stones b move captured (pos ∷ rest) next ≡ copy_stones b move captured rest next
    unfolding copy_stones
    copy-goes e = rw (e, copy_stones)

    module _ (inside : Inside b.size pos) (stays : goes pos ≡ false) where
      copy-empty :
          at b pos ≡ empty
          → copy_stones b move captured (pos ∷ rest) next ≡ copy_stones b move captured rest next
      unfolding copy_stones
      copy-empty e = rw (stays, copy_stones, get_lem b valid pos inside, ◌>>=◌, e)

      copy-place :
          (next' : Board) (done : Bool)
          → at b pos ≢ empty
          → place next pos (at b pos) ≡ some (next', done)
          → copy_stones b move captured (pos ∷ rest) next ≡ copy_stones b move captured rest next'
      unfolding copy_stones
      copy-place next' done ne e = elim (Bool-cases (same_stone (at b pos) empty)) [
        | inl is ↦ absurd (ne (same_stone→≡ _ _ is))
        | inr is_not ↦ rw (stays, copy_stones, get_lem b valid pos inside, ◌>>=◌, is_not, e)
      ]

    Copies-cons :
        (next' : Board) {r s : Option Board}
        → Inside b.size pos
        → Copies rest next' r
        → ((q : Coord) → Inside b.size q → at next q ≡ remains q → at next' q ≡ remains q)
        → at next' pos ≡ remains pos
        → s ≡ r
        → Copies (pos ∷ rest) next s
    Copies-cons next' inside c keeps here e = record {
      out = c.out;
      returns = e ∙ c.returns;
      part = c.part;
      copied = λ q. elim [ inl is ↦ rw is (c.kept pos inside here) | inr m ↦ c.copied q m ];
      kept = λ q h old. c.kept q h (keeps q h old);
    }

  already :
      (next : Board)
      → IsPart next
      → (pos : Coord) → Inside b.size pos
      → remains pos ≡ empty
      → at next pos ≡ remains pos
  already next part pos inside e = elim (part.stones pos inside) [ inl h ↦ h | inr h ↦ h ∙ sym e ]

  -- A stone that stays is placed, if it is not there yet.
  module _ (next : Board) (part : IsPart next) (pos : Coord) (inside : Inside b.size pos)
      (stays : remains pos ≡ at b pos) (stone : at b pos ≢ empty) where
    inside' : Inside next.size pos
    inside' = rw part.same_size inside

    record Placed : Type 0 where
      out : Board
      done : Bool
      returns : place next pos (at b pos) ≡ some (out, done)
      whole : IsPart out
      here : at out pos ≡ remains pos
      kept : (q : Coord) → Inside b.size q → at next q ≡ remains q → at out q ≡ remains q

    wrote :
        (q : Coord)
        → Inside b.size q
        → at (write next pos (at b pos)) q ≡ (if same_coord pos q then at b pos else at next q)
    wrote q h = at-write next part.valid' pos inside' (at b pos) q (rw part.same_size h)

    wrote_here : (q : Coord) → same_coord pos q ≡ true → at b pos ≡ remains q
    wrote_here q e = rw (← same_coord→≡ pos q e) (sym stays)

    place_new : at next pos ≡ empty → Placed
    place_new free = record {
      out = write next pos (at b pos);
      done = true;
      returns = place_free next part.valid' pos inside' (at b pos) stone free;
      whole = record {
        valid' = write-IsValid next part.valid' pos inside' (at b pos);
        same_size = part.same_size;
        stones = λ q h. elim (Bool-cases (same_coord pos q)) [
          | inl e ↦ inl (wrote q h ∙ rw e (wrote_here q e))
          | inr e ↦ rw (wrote q h, e) (part.stones q h)
        ];
      };
      here = wrote pos inside ∙ rw (same_coord_refl pos) (sym stays);
      kept = λ q h old. wrote q h ∙ elim (Bool-cases (same_coord pos q)) [
        | inl e ↦ rw e (wrote_here q e)
        | inr e ↦ rw e old
      ];
    }

    place_old : at next pos ≢ empty → Placed
    place_old taken = record {
      out = next;
      done = false;
      returns = place_taken next part.valid' pos inside' (at b pos) stone taken;
      whole = part;
      here = elim (part.stones pos inside) [ inl h ↦ h | inr h ↦ absurd (taken h) ];
      kept = λ q h old. old;
    }

    place-Placed : Placed
    place-Placed = elim (Bool-cases (same_stone (at next pos) empty)) [
      | inl free ↦ place_new (same_stone→≡ _ _ free)
      | inr taken ↦ place_old (λ e. ground (arith, same_stone_refl (at next pos)))
    ]

  copy_stones-Copies :
      (cs : List Coord) (next : Board)
      → ((q : Coord) → q ∈ cs → Inside b.size q)
      → IsPart next
      → Copies cs next (copy_stones b move captured cs next)
  copy_stones-Copies [] next inside part = record {
    out = next;
    returns = unfold copy_stones in refl;
    part = part;
    copied = λ q m. absurd m;
    kept = λ q h old. old;
  }
  copy_stones-Copies (pos ∷ rest) next inside part =
      let h = inside pos (inl refl) in
      let later = λ (q : Coord) (m : q ∈ rest). inside q (inr m) in
      elim (Bool-cases (goes pos)) [
        | inl e ↦
            Copies-cons pos rest next next h (copy_stones-Copies rest next later part)
              (λ q hq old. old) (already next part pos h (rw e)) (copy-goes pos rest next e)
        | inr stays ↦ elim (Bool-cases (same_stone (at b pos) empty)) [
          | inl none_here ↦
              let is_empty' = same_stone→≡ _ _ none_here in
              Copies-cons pos rest next next h (copy_stones-Copies rest next later part)
                (λ q hq old. old) (already next part pos h (rw stays is_empty'))
                (copy-empty pos rest next h stays is_empty')
          | inr stone ↦
              let ne : at b pos ≢ empty = λ e. ground (arith, same_stone_refl (at b pos)) in
              let p = place-Placed next part pos h (rw stays) ne in
              Copies-cons pos rest next p.out h (copy_stones-Copies rest p.out later p.whole) p.kept
                p.here (copy-place pos rest next h stays p.out p.done ne p.returns)
        ]
      ]

  -- From an empty board of the same size, and for any marks, the loop over all points of a valid board
  -- returns a valid board of that size: the point of the move and the marked points are empty, and
  -- every other point is as before.
  pub copy_stones_lem :
      (out : Board) × (copy_stones b move captured (coords b.size) (new_board b.size) ≡ some out)
      × IsValid out
      × (out.size ≡ b.size)
      × ((q : Coord) → Inside b.size q → at out q ≡ remains q)
  copy_stones_lem =
      let c =
        copy_stones-Copies (coords b.size) (new_board b.size) (λ q. (mem-coords q b.size).0)
          (record {
            valid' = new_board-IsValid b.size;
            same_size = unfold new_board in refl;
            stones = λ q h. inr (at-new_board b.size q);
          }) in
      (
        c.out,
        c.returns,
        c.part.valid',
        c.part.same_size,
        λ q h. c.copied q ((mem-coords q b.size).1 h),
      )
