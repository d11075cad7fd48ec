-- ===== src/Codec/Checks.antt =====
-- What the readers of src/net/network/nwEvents.cpp let through: whatever the text, an event that they
-- accept has the shape and the range that the protocol wants; and a number that is too big is cut first.
use Prim.Native.String.{String}
use go_game.Prelude.{
  >>=-eq-some, >>-eq-some, ℕ, ◌+◌, ◌%◌, ◌<◌, ◌≡◌, ◌≢◌, refl, sym, ap, ◌⊎◌, inl, inr, ◌&&◌, true,
  false, Option, none, some, ◌>>=◌, arith, List, [], ◌∷◌, Bool-cases,
}
use mathlib.Core.Option.{some-injective}
use go_game.Model.{Coord}
use go_game.Position.{u32_mod}
use go_game.Net.{
  ServerAction, act_place, act_pass, act_resign, NetStatus, net_count, Seat, is_player, ServerDelta,
}
use go_game.Json.{Json, same_text}
use go_game.Codec.{
  codes, cast_action, cast_status, cast_seat, is_valid_action, is_valid_status, is_place,
  get_unsigned, unsigned_member, contains, pair_of, read_captures, captures_of, read_place,
  read_delta,
}
use go_game.Codec.Sendable.{Fits, AllFit, IsCarried, placing, plain_move}

module _ (J : Json) where
  get_unsigned-lt : (v : J.Value) (n : ℕ) → get_unsigned J v ≡ some n → n < u32_mod
  get_unsigned-lt v n e =
      let (m, read, cut) = >>=-eq-some (J.unsigned_of v) _ e in
      let same : m % u32_mod ≡ n = some-injective _ _ cut in omega arith

  unsigned_member-lt :
      (j : J.Value) (k : String) (n : ℕ) → unsigned_member J j k ≡ some n → n < u32_mod
  unsigned_member-lt j k n e =
      let (v, found, read) = >>=-eq-some (J.find j (codes k)) _ e in get_unsigned-lt v n read

  pair_of-Fits : (vs : List J.Value) (c : Coord) → pair_of J vs ≡ some c → Fits c
  pair_of-Fits [] c e = absurd (cc e)
  pair_of-Fits (x ∷ []) c e = absurd (cc e)
  pair_of-Fits (x ∷ y ∷ []) c e =
      let (cx, read_x, rest) = >>=-eq-some (get_unsigned J x) _ e in
      let (cy, read_y, made) = >>=-eq-some (get_unsigned J y) _ rest in
      let same = some-injective _ _ made in
      rw (← same) (get_unsigned-lt x cx read_x, get_unsigned-lt y cy read_y)
  pair_of-Fits (x ∷ y ∷ z ∷ rest) c e = absurd (cc e)

  read_captures-AllFit :
      (vs : List J.Value) (cs : List Coord) → read_captures J vs ≡ some cs → AllFit cs
  unfolding read_captures
  read_captures-AllFit [] cs e = rw (← some-injective _ _ e) tt
  read_captures-AllFit (v ∷ vs) cs e =
      let (c, pair, rest) = >>=-eq-some (J.elements v >>= pair_of J) _ e in
      let (ds, others, made) = >>=-eq-some (read_captures J vs) _ rest in
      let (es, elements, two) = >>=-eq-some (J.elements v) (pair_of J) pair in
      rw (← some-injective _ _ made) (pair_of-Fits es c two, read_captures-AllFit vs ds others)

  captures_of-AllFit :
      (o : Option J.Value) (cs : List Coord) → captures_of J o ≡ some cs → AllFit cs
  captures_of-AllFit none cs e = rw (← some-injective _ _ e) tt
  captures_of-AllFit (some v) cs e =
      let (es, elements, read) = >>=-eq-some (J.elements v) (read_captures J) e in
      read_captures-AllFit es cs read

  -- What `read_place` can answer.
  data Placed (action : ServerAction) (r : Option Coord × List Coord) : Type 0 where
    with_coord :
        (c : Coord) → action ≡ act_place → Fits c → AllFit r.1 → r.0 ≡ some c → Placed action r
    without : is_place action ≡ false → r ≡ (none, []) → Placed action r

  read_place-Placed :
      (j : J.Value) (action : ServerAction) (r : Option Coord × List Coord)
      → read_place J j action ≡ some r
      → Placed action r
  unfolding read_place
  read_place-Placed j action r e = elim (Bool-cases (is_place action)) [
    | inl place ↦
        let (x, read_x, e1) = >>=-eq-some (unsigned_member J j "x") _ (rw place at e) in
        let (y, read_y, e2) = >>=-eq-some (unsigned_member J j "y") _ e1 in
        let (cs, captures, e3) = >>=-eq-some (captures_of J (J.find j (codes "captures"))) _ e2 in
        let same = some-injective _ _ e3 in
        let is : action ≡ act_place = ground arith in
        rw (← same) (
          with_coord (record { x = x; y = y }) is
            (unsigned_member-lt j "x" x read_x, unsigned_member-lt j "y" y read_y)
            (captures_of-AllFit _ cs captures) refl)
    | inr other ↦ without other (ground arith)
  ]

  status-valid :
      (v : ℕ) (status : NetStatus)
      → is_valid_status (cast_status v) ≡ true
      → cast_status v ≡ some status
      → status ≢ net_count
  status-valid v status valid cast same = absurd (cc (valid, cast, same))

  other_action :
      (action : ServerAction)
      → is_valid_action (some action) ≡ true
      → is_place action ≡ false
      → (action ≡ act_pass) ⊎ (action ≡ act_resign)
  other_action action valid other = ground arith

  -- A delta that is made of what the checks let through.
  checked-IsCarried :
      (turn : ℕ) (seat next : Seat) (action : ServerAction) (status : NetStatus)
      (r : Option Coord × List Coord)
      → turn < u32_mod
      → is_player seat && is_player next ≡ true
      → is_valid_action (some action) ≡ true
      → status ≢ net_count
      → Placed action r
      → IsCarried (record {
        turn = turn;
        seat = seat;
        action = action;
        coord = r.0;
        captures = r.1;
        next = next;
        status = status;
      })
  checked-IsCarried turn seat next action status r h players valid ok
        (with_coord c is fits all at) =
      rw (is, at) (placing c r.1 h players ok fits all)
  checked-IsCarried turn seat next action status r h players valid ok (without other at) =
      rw at (plain_move h players (other_action action valid other) ok)

  -- Whatever JSON value is read, a delta that is accepted has player seats, an action and a status that
  -- are not the end marks, a coordinate exactly if it is a place, captures only then, and a turn and
  -- coordinates below 2 ^ 32.
  pub read_delta-IsCarried : (j : J.Value) (d : ServerDelta) → read_delta J j ≡ some d → IsCarried d
  unfolding read_delta
  read_delta-IsCarried j d e =
      let (turn, read_turn, e1) = >>=-eq-some (unsigned_member J j "turn") _ e in
      let (seat_value, read_seat, e2) = >>=-eq-some (unsigned_member J j "seat") _ e1 in
      let (action_value, read_action, e3) = >>=-eq-some (unsigned_member J j "action") _ e2 in
      let (next_value, read_next, e4) = >>=-eq-some (unsigned_member J j "next") _ e3 in
      let (status_value, read_status, e5) = >>=-eq-some (unsigned_member J j "status") _ e4 in
      let (valid_action, e6) = >>-eq-some (is_valid_action (cast_action action_value)) _ e5 in
      let (valid_status, e7) = >>-eq-some (is_valid_status (cast_status status_value)) _ e6 in
      let (seat, cast_s, e8) = >>=-eq-some (cast_seat seat_value) _ e7 in
      let (next, cast_n, e9) = >>=-eq-some (cast_seat next_value) _ e8 in
      let (action, cast_a, e10) = >>=-eq-some (cast_action action_value) _ e9 in
      let (status, cast_t, e11) = >>=-eq-some (cast_status status_value) _ e10 in
      let (players, e12) = >>-eq-some (is_player seat && is_player next) _ e11 in
      let (placed, read, made) = >>=-eq-some (read_place J j action) _ e12 in
      let same = some-injective _ _ made in
      rw (← same) (
        checked-IsCarried turn seat next action status placed
          (unsigned_member-lt j "turn" turn read_turn) players (rw (← cast_a) valid_action)
          (status-valid status_value status valid_status cast_t)
          (read_place-Placed j action placed read))

  -- Objects that differ at most in their member "action".
  abbrev pub SameButAction : J.Value → J.Value → Type 0
  SameButAction j j' =
      (k : String)
      → same_text (codes k) (codes "action") ≡ false
      → J.find j (codes k) ≡ J.find j' (codes k)

  cast_action-cut : (n : ℕ) → cast_action (n + 256) ≡ cast_action n
  unfolding cast_action
  cast_action-cut n = let same : (n + 256) % 256 ≡ n % 256 = omega arith in rw same refl

  read_place-SameButAction :
      (j j' : J.Value) (action : ServerAction)
      → SameButAction j j'
      → read_place J j' action ≡ read_place J j action
  unfolding read_place
  read_place-SameButAction j j' action same =
      let x : J.find j' (codes "x") ≡ J.find j (codes "x") = sym (same "x" refl) in
      let y : J.find j' (codes "y") ≡ J.find j (codes "y") = sym (same "y" refl) in
      let captures : J.find j' (codes "captures") ≡ J.find j (codes "captures") =
        sym (same "captures" refl) in
      rw (contains, x, y, captures) refl

  unsigned_member-SameButAction :
      (j j' : J.Value) (k : String)
      → SameButAction j j'
      → same_text (codes k) (codes "action") ≡ false
      → unsigned_member J j' k ≡ unsigned_member J j k
  unsigned_member-SameButAction j j' k same other =
      ap (λ (o : Option J.Value). o >>= get_unsigned J) (sym (same k other))

  -- An action is tested after it is cut to eight bits: a delta whose action is a number `n + 256` is read
  -- as the delta with the action `n`, and so is not refused when `n` is an action.
  pub read_delta-action_cut :
      (j j' : J.Value) (n : ℕ)
      → SameButAction j j'
      → unsigned_member J j "action" ≡ some n
      → unsigned_member J j' "action" ≡ some (n + 256)
      → read_delta J j' ≡ read_delta J j
  unfolding read_delta
  read_delta-action_cut j j' n same small big =
      let place : read_place J j' ≡ read_place J j =
        λ i action. read_place-SameButAction j j' action same i in
      let turn = unsigned_member-SameButAction j j' "turn" same refl in
      let seat = unsigned_member-SameButAction j j' "seat" same refl in
      let next = unsigned_member-SameButAction j j' "next" same refl in
      let status = unsigned_member-SameButAction j j' "status" same refl in
      rw (small, big, turn, seat, next, status, cast_action-cut n, place) refl
