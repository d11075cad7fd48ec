-- ===== src/Codec/Delta.antt =====
-- The deltas of src/net/network/nwEvents.cpp: what is written is read.
use Prim.Native.String.{String}
use go_game.Prelude.{◌<◌, ◌≡◌, refl, ◌&&◌, true, false, none, some, List, [], ◌∷◌}
use go_game.Model.{Coord}
use go_game.Position.{u32_mod}
use go_game.Net.{Text, act_place, is_player, ServerDelta}
use go_game.Json.{Json, IsLawful, PlainMembers, PlainElements, find_member}
use go_game.Codec.{
  codes, action_number, status_number, seat_number, is_place, is_valid_action, is_valid_status,
  capture_values, captures_members, delta_members, contains, read_captures, read_place, read_delta,
}
use go_game.Codec.Sendable.{Fits, AllFit}
use go_game.Codec.Members.{
  get_unsigned_lem, unsigned_member-object, unsigned-plain, ascii-plain, ascii, seat_number-lt,
  action_number-lt, status_number-lt, cast_seat-seat_number, cast_action-action_number,
  cast_status-status_number,
}

module _ (J : Json) (l : IsLawful J) where
  pub delta_members-Plain :
      (d : ServerDelta) (rest : List (Text × J.Value))
      → d.turn < u32_mod
      → PlainMembers J rest
      → PlainMembers J (delta_members J d rest)
  delta_members-Plain d rest h p = (
    ascii J l _ refl,
    ascii-plain J l _ refl,
    (
      ascii J l _ refl,
      unsigned-plain J l d.turn h,
      (
        ascii J l _ refl,
        unsigned-plain J l _ (seat_number-lt J l d.seat),
        (
          ascii J l _ refl,
          unsigned-plain J l _ (action_number-lt J l d.action),
          (
            ascii J l _ refl,
            unsigned-plain J l _ (seat_number-lt J l d.next),
            (ascii J l _ refl, unsigned-plain J l _ (status_number-lt J l d.status), p),
          ),
        ),
      ),
    ),
  )

  pub capture_values-Plain : (cs : List Coord) → AllFit cs → PlainElements J (capture_values J cs)
  capture_values-Plain [] h = tt
  capture_values-Plain (c ∷ cs) ((hx, hy), h) = (
    l.plain-array _ (unsigned-plain J l c.x hx, (unsigned-plain J l c.y hy, tt)),
    capture_values-Plain cs h,
  )

  pub captures_members-Plain :
      (cs : List Coord) → AllFit cs → PlainMembers J (captures_members J cs)
  captures_members-Plain [] h = tt
  captures_members-Plain (c ∷ cs) h =
      (ascii J l _ refl, l.plain-array _ (capture_values-Plain (c ∷ cs) h), tt)

  pub read_captures_lem :
      (cs : List Coord) → AllFit cs → read_captures J (capture_values J cs) ≡ some cs
  unfolding read_captures
  read_captures_lem [] h = refl
  read_captures_lem (c ∷ cs) ((hx, hy), h) =
      rw
        (
          l.elements-array,
          get_unsigned_lem J l c.x hx,
          get_unsigned_lem J l c.y hy,
          read_captures_lem cs h,
        )
        refl

  -- The members of a place.
  abbrev pub placed : Coord → List Coord → List (Text × J.Value)
  placed c cs =
      (codes "x", J.from_unsigned c.x) ∷ (codes "y", J.from_unsigned c.y) ∷ captures_members J cs

  -- Members that leave those of every delta alone.
  abbrev pub Leaves : List (Text × J.Value) → Type 0
  Leaves rest =
      (find_member (codes "turn") rest ≡ none)
      × (find_member (codes "seat") rest ≡ none)
      × (find_member (codes "action") rest ≡ none)
      × (find_member (codes "next") rest ≡ none)
      × (find_member (codes "status") rest ≡ none)
      × (find_member (codes "type") rest ≡ none)

  pub placed-Leaves : (c : Coord) (cs : List Coord) → Leaves (placed c cs)
  placed-Leaves c [] = (refl, refl, refl, refl, refl, refl)
  placed-Leaves c (x ∷ xs) = (refl, refl, refl, refl, refl, refl)

  pub read_place-placed :
      (d : ServerDelta) (c : Coord) (cs : List Coord)
      → Fits c
      → AllFit cs
      → read_place J (J.object (delta_members J d (placed c cs))) act_place ≡ some (some c, cs)
  unfolding read_place
  read_place-placed d c [] (hx, hy) h =
      rw
        (
          unsigned_member-object J l (delta_members J d (placed c [])) "x" c.x refl hx,
          unsigned_member-object J l (delta_members J d (placed c [])) "y" c.y refl hy,
          l.find-object (delta_members J d (placed c [])) (codes "captures"),
        )
        refl
  read_place-placed d c (e ∷ es) (hx, hy) h =
      rw
        (
          unsigned_member-object J l (delta_members J d (placed c (e ∷ es))) "x" c.x refl hx,
          unsigned_member-object J l (delta_members J d (placed c (e ∷ es))) "y" c.y refl hy,
          l.find-object (delta_members J d (placed c (e ∷ es))) (codes "captures"),
          l.elements-array,
          read_captures_lem (e ∷ es) h,
        )
        refl

  pub contains-object :
      (ms : List (Text × J.Value)) (k : String)
      → find_member (codes k) ms ≡ none
      → contains J (J.object ms) k ≡ false
  contains-object ms k e = rw (contains, l.find-object ms (codes k), e) refl

  pub read_place-plain :
      (d : ServerDelta)
      → is_place d.action ≡ false
      → read_place J (J.object (delta_members J d [])) d.action ≡ some (none, [])
  unfolding read_place
  read_place-plain d e =
      let ms = delta_members J d [] in
      rw
        (
          e,
          contains-object ms "x" refl,
          contains-object ms "y" refl,
          contains-object ms "captures" refl,
        )
        refl

  pub read_delta-object :
      (d : ServerDelta) (rest : List (Text × J.Value))
      → d.turn < u32_mod
      → is_player d.seat && is_player d.next ≡ true
      → is_valid_action (some d.action) ≡ true
      → is_valid_status (some d.status) ≡ true
      → Leaves rest
      → read_place J (J.object (delta_members J d rest)) d.action ≡ some (d.coord, d.captures)
      → read_delta J (J.object (delta_members J d rest)) ≡ some d
  unfolding read_delta
  read_delta-object d rest h players action status (turn, seat, act, next, stat, type) e =
      let ms = delta_members J d rest in
      rw
        (
          unsigned_member-object J l ms "turn" d.turn (rw turn refl) h,
          unsigned_member-object J l ms "seat" (seat_number d.seat) (rw seat refl)
              (seat_number-lt J l d.seat),
          unsigned_member-object J l ms "action" (action_number d.action) (rw act refl)
              (action_number-lt J l d.action),
          unsigned_member-object J l ms "next" (seat_number d.next) (rw next refl)
              (seat_number-lt J l d.next),
          unsigned_member-object J l ms "status" (status_number d.status) (rw stat refl)
              (status_number-lt J l d.status),
          cast_action-action_number J l d.action,
          cast_status-status_number J l d.status,
          cast_seat-seat_number J l d.seat,
          cast_seat-seat_number J l d.next,
          action,
          status,
          players,
          e,
        )
        refl
