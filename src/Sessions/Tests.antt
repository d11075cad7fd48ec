-- ===== src/Sessions/Tests.antt =====
-- One session with the seat of black.
use go_game.Prelude.{refl, true, arith, [], ◌∷◌}
use go_game.Net.{seat_black, seat_white}
use go_game.Sessions.{SessionManager, add, remove, set_seat, set_disconnected}
use go_game.Sessions.Linked.{IsLinked, Added, add-Added, changes-IsLinked}

abbrev one : SessionManager
one = record {
  sessions =
      (1, record { connection_id = 70; session_id = 1; seat = seat_black; is_active = true }) ∷ [];
  connection_to_session = (70, 1) ∷ [];
  next_session_id = 2;
}

add-Added_example : Added one 71 (add one 71)
add-Added_example = add-Added one 71 refl (omega arith)

abbrev pub nobody : SessionManager
nobody = record { sessions = []; connection_to_session = []; next_session_id = 1 }

pub nobody-IsLinked : IsLinked nobody
nobody-IsLinked = record { known = λ d k h. absurd (cc h); named = λ k c h. absurd (cc h) }

abbrev first : Added nobody 70 (add nobody 70)
first = add-Added nobody 70 refl (omega arith)

changes-IsLinked_example :
    IsLinked (set_seat first.next first.id seat_white)
    × IsLinked (set_disconnected first.next first.id)
    × IsLinked (remove first.next first.id)
changes-IsLinked_example =
    changes-IsLinked first.next first.id seat_white (first.linked nobody-IsLinked)
