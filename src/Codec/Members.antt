-- ===== src/Codec/Members.antt =====
-- The members of the objects of src/net/network/nwEvents.cpp, and the numbers of the enumerators.
use Prim.Native.String.{String}
use go_game.Prelude.{ℕ, ◌%◌, ◌<◌, ◌≡◌, refl, true, some, arith, List}
use go_game.Model.{Player}
use go_game.Position.{u32_mod}
use go_game.Net.{Text, ServerAction, NetStatus, Seat}
use go_game.Json.{Json, IsLawful, is_ascii, find_member}
use go_game.Codec.{
  codes, action_number, status_number, seat_number, player_number, cast_action, cast_status,
  cast_seat, player_of_number, get_unsigned, unsigned_member, string_member, double_member,
}

module _ (J : Json) (l : IsLawful J) where
  pub get_unsigned_lem : (n : ℕ) → n < u32_mod → get_unsigned J (J.from_unsigned n) ≡ some n
  get_unsigned_lem n h =
      let read = l.unsigned_of-from_unsigned n (omega arith) in
      let same : n % u32_mod ≡ n = omega arith in rw (read, same) refl

  -- A member of an object that was built, read by its type.
  pub unsigned_member-object :
      (ms : List (Text × J.Value)) (k : String) (n : ℕ)
      → find_member (codes k) ms ≡ some (J.from_unsigned n)
      → n < u32_mod
      → unsigned_member J (J.object ms) k ≡ some n
  unsigned_member-object ms k n e h = rw (l.find-object ms (codes k), e) (get_unsigned_lem n h)

  pub string_member-object :
      (ms : List (Text × J.Value)) (k : String) (s : Text)
      → find_member (codes k) ms ≡ some (J.from_string s)
      → string_member J (J.object ms) k ≡ some s
  string_member-object ms k s e = rw (l.find-object ms (codes k), e) (l.string_of-from_string s)

  pub double_member-object :
      (ms : List (Text × J.Value)) (k : String) (d : ℕ)
      → find_member (codes k) ms ≡ some (J.from_double d)
      → double_member J (J.object ms) k ≡ some d
  double_member-object ms k d e = rw (l.find-object ms (codes k), e) (l.double_of-from_double d)

  pub unsigned-plain : (n : ℕ) → n < u32_mod → J.IsPlain (J.from_unsigned n)
  unsigned-plain n h = l.plain-unsigned n (omega arith)

  pub ascii-plain : (s : Text) → is_ascii s ≡ true → J.IsPlain (J.from_string s)
  ascii-plain s e = l.plain-string s (l.utf8_of_ascii s e)

  pub ascii : (s : Text) → is_ascii s ≡ true → J.IsUtf8 s
  ascii = l.utf8_of_ascii

  pub player_number-lt : (p : Player) → player_number p < u32_mod
  player_number-lt p = ground arith

  pub player_of_number-player_number : (p : Player) → player_of_number J (player_number p) ≡ some p
  player_of_number-player_number p = ground arith

  pub seat_number-lt : (x : Seat) → seat_number x < u32_mod
  seat_number-lt x = ground arith

  pub action_number-lt : (a : ServerAction) → action_number a < u32_mod
  action_number-lt a = ground arith

  pub status_number-lt : (x : NetStatus) → status_number x < u32_mod
  status_number-lt x = ground arith

  pub cast_seat-seat_number : (x : Seat) → cast_seat (seat_number x) ≡ some x
  unfolding cast_seat
  cast_seat-seat_number x = ground arith

  pub cast_action-action_number : (a : ServerAction) → cast_action (action_number a) ≡ some a
  unfolding cast_action
  cast_action-action_number a = ground arith

  pub cast_status-status_number : (x : NetStatus) → cast_status (status_number x) ≡ some x
  unfolding cast_status
  cast_status-status_number x = ground arith
