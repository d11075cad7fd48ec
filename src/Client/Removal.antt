-- ===== src/Client/Removal.antt =====
-- The removal of the captured stones in src/apps/runtime/position.cpp.
use go_game.Prelude.{
  ◌≡◌, ◌≢◌, refl, sym, ◌∙◌, inl, inr, Bool, true, false, Option, some, arith, List, [], ◌∷◌, ◌∈◌,
  Bool-cases,
}
use go_game.Model.{Coord, empty, same_stone, same_coord, Board, write, remove}
use go_game.Model.Grid.{
  Inside, IsValid, at, same_stone→≡, same_stone_refl, same_coord→≡, same_coord_refl, at-write_self,
  at-write_ne, write-IsValid, remove_taken, remove_free,
}
use go_game.Client.{remove_all}

-- The board after `remove_all`: the listed points are free, and the others are as before.
pub record Removed (cs : List Coord) (b : Board) (r : Option Board) : Type 0 where
  pub out : Board
  pub returns : r ≡ some out
  pub valid : IsValid out
  pub same_size : out.size ≡ b.size
  pub gone : (q : Coord) → Inside b.size q → q ∈ cs → at out q ≡ empty
  pub kept : (q : Coord) → Inside b.size q → ¬ (q ∈ cs) → at out q ≡ at b q
  pub free : (q : Coord) → Inside b.size q → at b q ≡ empty → at out q ≡ empty

-- One `remove` frees the point, whether it was taken or not.
record Freed (b : Board) (c : Coord) : Type 0 where
  out : Board
  done : Bool
  returns : remove b c ≡ some (out, done)
  valid : IsValid out
  same_size : out.size ≡ b.size
  gone : at out c ≡ empty
  kept : (q : Coord) → Inside b.size q → q ≢ c → at out q ≡ at b q

remove-Freed : (b : Board) (c : Coord) → IsValid b → Inside b.size c → Freed b c
remove-Freed b c v h = elim (Bool-cases (same_stone (at b c) empty)) [
  | inl is ↦ record {
    out = b;
    done = false;
    returns = remove_free b v c h (same_stone→≡ _ _ is);
    valid = v;
    same_size = refl;
    gone = same_stone→≡ _ _ is;
    kept = λ q hq ne. refl;
  }
  | inr taken ↦ record {
    out = write b c empty;
    done = true;
    returns = remove_taken b v c h (λ e. ground (arith, same_stone_refl (at b c)));
    valid = write-IsValid b v c h empty;
    same_size = refl;
    gone = at-write_self b v c h empty;
    kept = λ q hq ne. at-write_ne b v c h empty q hq (λ e. ne (sym e));
  }
]

Freed-free :
    (b : Board) (c : Coord) (f : Freed b c) (q : Coord)
    → Inside b.size q
    → at b q ≡ empty
    → at f.out q ≡ empty
Freed-free b c f q h e = elim (Bool-cases (same_coord q c)) [
  | inl is ↦ rw (same_coord→≡ q c is) f.gone
  | inr other ↦ f.kept q h (λ e'. ground (arith, same_coord_refl q)) ∙ e
]

pub remove_all-Removed :
    (cs : List Coord) (b : Board)
    → IsValid b
    → ((q : Coord) → q ∈ cs → Inside b.size q)
    → Removed cs b (remove_all cs b)
unfolding remove_all
remove_all-Removed [] b v h = record {
  out = b;
  returns = refl;
  valid = v;
  same_size = refl;
  gone = λ q hq m. absurd m;
  kept = λ q hq n. refl;
  free = λ q hq e. e;
}
remove_all-Removed (c ∷ cs) b v h =
    let f = remove-Freed b c v (h c (inl refl)) in
    let rest = remove_all-Removed cs f.out f.valid (λ q m. rw f.same_size (h q (inr m))) in
    let on =
      λ (q : Coord) (i : Inside b.size q). let j : Inside f.out.size q = rw f.same_size i in j in
    record {
      out = rest.out;
      returns = rw f.returns rest.returns;
      valid = rest.valid;
      same_size = rest.same_size ∙ f.same_size;
      gone = λ q hq m. elim m [
        | inl e ↦ rest.free q (on q hq) (rw e f.gone)
        | inr m' ↦ rest.gone q (on q hq) m'
      ];
      kept = λ q hq n. rest.kept q (on q hq) (λ m. n (inr m)) ∙ f.kept q hq (λ e. n (inl e));
      free = λ q hq e. rest.free q (on q hq) (Freed-free b c f q hq e);
    }
