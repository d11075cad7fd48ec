-- ===== src/Codec/Tests.antt =====
-- Messages of both directions, and what the theorems on src/net/network/nwEvents.cpp say of them. The
-- JSON library is the packed one.
use go_game.Prelude.{
  ℕ, ◌≡◌, refl, inl, inr, none, some, List, [], ◌∷◌, arith, sym, ◌∙◌, false, Option-cases,
}
use go_game.Net.{
  Text, act_place, act_pass, net_active, seat_black, seat_white, ServerDelta, server_delta,
  client_put_stone,
}
use go_game.Json.{same_text, find_member}
use go_game.Json.Packed.{packed, packed-IsLawful}
use go_game.Codec.{
  codes, to_client_message, from_client_message, to_server_message, from_server_message, read_delta,
  read_place, cast_action, cast_status, cast_seat,
}
use go_game.Codec.Sendable.{IsCarried, placing}
use go_game.Codec.RoundTrip.{Carries, client_message-Carries, server_message-Carries}
use go_game.Codec.Checks.{read_delta-IsCarried, read_delta-action_cut, SameButAction}

-- A stone on (2, 3) that captures two stones.
abbrev capture_delta : ServerDelta
capture_delta = record {
  turn = 5;
  seat = seat_black;
  action = act_place;
  coord = some (record { x = 2; y = 3 });
  captures = record { x = 2; y = 4 } ∷ record { x = 1; y = 3 } ∷ [];
  next = seat_white;
  status = net_active;
}

capture_delta-IsCarried : IsCarried capture_delta
capture_delta-IsCarried =
    placing _ _ (omega arith) refl (λ e. cc e) (omega arith, omega arith)
      ((omega arith, omega arith), ((omega arith, omega arith), tt))

server_message_example :
    Carries
      (server_delta capture_delta)
      (to_server_message packed (server_delta capture_delta))
      (from_server_message packed)
server_message_example =
    server_message-Carries packed packed-IsLawful (server_delta capture_delta)
      capture_delta-IsCarried

client_message_example :
    Carries
      (client_put_stone (record { x = 18; y = 0 }))
      (to_client_message packed (client_put_stone (record { x = 18; y = 0 })))
      (from_client_message packed)
client_message_example =
    client_message-Carries packed packed-IsLawful (client_put_stone (record { x = 18; y = 0 }))
      (omega arith, omega arith)

abbrev pass_delta : ServerDelta
pass_delta = record {
  turn = 6;
  seat = seat_white;
  action = act_pass;
  coord = none;
  captures = [];
  next = seat_black;
  status = net_active;
}

abbrev other_members : List (Text × Text)
other_members =
    (codes "turn", packed.from_unsigned 6)
    ∷ (codes "seat", packed.from_unsigned 4)
    ∷ (codes "next", packed.from_unsigned 2)
    ∷ (codes "status", packed.from_unsigned 0)
    ∷ []

-- The value of a delta with another action.
abbrev with_action : ℕ → Text
with_action n = packed.object ((codes "action", packed.from_unsigned n) ∷ other_members)

read_pass : read_delta packed (with_action 1) ≡ some pass_delta
unfolding read_delta read_place cast_action cast_status cast_seat
read_pass = refl

read_delta_example : IsCarried pass_delta
read_delta_example = read_delta-IsCarried packed (with_action 1) pass_delta read_pass

find_member-first :
    (k k' v : Text) (rest : List (Text × Text))
    → same_text k k' ≡ false
    → find_member k ((k', v) ∷ rest) ≡ find_member k rest
find_member-first k k' v rest other = elim (Option-cases (find_member k rest)) [
  | inl missing ↦ rw (find_member, missing, other) refl
  | inr (w, found) ↦ rw (find_member, found) refl
]

with_action-SameButAction : SameButAction packed (with_action 1) (with_action 257)
with_action-SameButAction k other =
    find_member-first (codes k) (codes "action") (packed.from_unsigned 1) other_members other
    ∙ sym (
        find_member-first (codes k) (codes "action") (packed.from_unsigned 257) other_members other)

action_cut_example : read_delta packed (with_action 257) ≡ read_delta packed (with_action 1)
action_cut_example =
    read_delta-action_cut packed (with_action 1) (with_action 257) 1 with_action-SameButAction refl
      refl
