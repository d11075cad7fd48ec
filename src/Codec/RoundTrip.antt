-- ===== src/Codec/RoundTrip.antt =====
-- The messages of src/net/network/nwEvents.cpp are read back as the events that they were made of.
use go_game.Prelude.{◌<◌, ◌≡◌, ◌≢◌, refl, ◌&&◌, true, false, Option, some, arith, List, []}
use go_game.Position.{u32_mod}
use go_game.Net.{
  Text, net_count, is_player, ServerDelta, ClientEvent, ServerEvent, server_session_assign,
  server_game_config, server_delta, server_chat,
}
use go_game.Json.{Json, IsLawful, PlainMembers}
use go_game.Codec.{
  codes, player_number, is_place, is_valid_action, is_valid_status, to_client_message,
  from_client_message, delta_members, delta_value, server_value, to_server_message, read_place,
  read_config, read_chat, read_server, from_server_message,
}
use go_game.Codec.Sendable.{IsCarried, placing, plain_move, ServerSendable, ClientSendable}
use go_game.Codec.Members.{
  unsigned_member-object, string_member-object, double_member-object, unsigned-plain, ascii-plain,
  ascii, player_number-lt, player_of_number-player_number,
}
use go_game.Codec.ReadBack.{client_value-IsPlain, ReadsAs, client_value-ReadsAs}
use go_game.Codec.Delta.{
  delta_members-Plain, captures_members-Plain, placed, Leaves, placed-Leaves, read_place-placed,
  read_place-plain, read_delta-object,
}

module _ (J : Json) (l : IsLawful J) where
  -- The value that is written for an event: it can be written, and is read as the event.
  record Written (e : ServerEvent) : Type 0 where
    value : J.Value
    makes : server_value J e ≡ some value
    plain : J.IsPlain value
    read : ReadsAs J l value (read_server J) e

  delta_members-Written :
      (d : ServerDelta) (rest : List (Text × J.Value))
      → delta_value J d ≡ some (J.object (delta_members J d rest))
      → d.turn < u32_mod
      → is_player d.seat && is_player d.next ≡ true
      → is_valid_action (some d.action) ≡ true
      → d.status ≢ net_count
      → Leaves J l rest
      → PlainMembers J rest
      → read_place J (J.object (delta_members J d rest)) d.action ≡ some (d.coord, d.captures)
      → Written (server_delta d)
  unfolding server_value read_server
  delta_members-Written d rest made h players action status leaves plain place =
      let valid : is_valid_status (some d.status) ≡ true = ground arith in
      let read = read_delta-object J l d rest h players action valid leaves place in
      let none' = leaves.5 in
      record {
        value = J.object (delta_members J d rest);
        makes = made;
        plain = l.plain-object _ (delta_members-Plain J l d rest h plain);
        read = record {
          object_value = l.is_object-object _ _;
          type = codes "delta";
          typed = string_member-object J l (delta_members J d rest) "type" _ (rw none' refl);
          answers = rw read refl;
        };
      }

  delta-Written : (d : ServerDelta) → IsCarried d → Written (server_delta d)
  unfolding delta_value
  delta-Written d (placing c cs h players status (hx, hy) fit) =
      delta_members-Written d (placed J l c cs) refl h players refl status (placed-Leaves J l c cs)
        (
          ascii J l _ refl,
          unsigned-plain J l c.x hx,
          (ascii J l _ refl, unsigned-plain J l c.y hy, captures_members-Plain J l cs fit),
        )
        (read_place-placed J l d c cs (hx, hy) fit)
  delta-Written d (plain_move h players action status) =
      let valid : is_valid_action (some d.action) ≡ true = ground arith in
      let other : is_place d.action ≡ false = ground arith in
      delta_members-Written d [] (rw other refl) h players valid status
        (refl, refl, refl, refl, refl, refl) tt (read_place-plain J l d other)

  server-Written : (e : ServerEvent) → ServerSendable J e → Written e
  unfolding server_value read_server read_config read_chat
  server-Written (server_session_assign id) h = record {
    value = _;
    makes = refl;
    plain =
        l.plain-object _ (
          ascii J l _ refl,
          ascii-plain J l _ refl,
          (ascii J l _ refl, unsigned-plain J l id h, tt),
        );
    read = record {
      object_value = l.is_object-object _ _;
      type = codes "session";
      typed = string_member-object J l _ "type" _ refl;
      answers = rw (unsigned_member-object J l _ "sessionId" id refl h) refl;
    };
  }
  server-Written (server_game_config e) (size, komi, time) = record {
    value = _;
    makes = refl;
    plain = l.plain-object _ (
      ascii J l _ refl,
      ascii-plain J l _ refl,
      (
        ascii J l _ refl,
        unsigned-plain J l e.board_size size,
        (
          ascii J l _ refl,
          l.plain-double e.komi komi,
          (ascii J l _ refl, unsigned-plain J l e.time_seconds time, tt),
        ),
      ),
    );
    read = record {
      object_value = l.is_object-object _ _;
      type = codes "config";
      typed = string_member-object J l _ "type" _ refl;
      answers =
          rw
            (
              unsigned_member-object J l _ "boardSize" e.board_size refl size,
              double_member-object J l _ "komi" e.komi refl,
              unsigned_member-object J l _ "time" e.time_seconds refl time,
            )
            refl;
    };
  }
  server-Written (server_delta d) h = delta-Written d h
  server-Written (server_chat e) (id, text) = record {
    value = _;
    makes = refl;
    plain = l.plain-object _ (
      ascii J l _ refl,
      ascii-plain J l _ refl,
      (
        ascii J l _ refl,
        unsigned-plain J l (player_number e.player) (player_number-lt J l e.player),
        (
          ascii J l _ refl,
          unsigned-plain J l e.message_id id,
          (ascii J l _ refl, l.plain-string e.message text, tt),
        ),
      ),
    );
    read = record {
      object_value = l.is_object-object _ _;
      type = codes "chat";
      typed = string_member-object J l _ "type" _ refl;
      answers =
          rw
            (
              unsigned_member-object J l _ "player" (player_number e.player) refl
                  (player_number-lt J l e.player),
              unsigned_member-object J l _ "messageId" e.message_id refl id,
              string_member-object J l _ "message" e.message refl,
              player_of_number-player_number J l e.player,
            )
            refl;
    };
  }

-- A text that is written and read back as the event.
pub record Carries {ℓ} {E : Type ℓ} (e : E) (written : Option Text) (reader : Text → Option E)
    : Type ℓ where
  pub text : Text
  pub writes : written ≡ some text
  pub some_text : text ≢ []
  pub answers : reader text ≡ some e

module _ (J : Json) (l : IsLawful J) where
  -- Each event of a client whose coordinates fit in 32 bits and whose text is UTF-8 is written as a text
  -- that is not empty, and the server reads that text as the same event.
  pub client_message-Carries :
      (e : ClientEvent)
      → ClientSendable J e
      → Carries e (to_client_message J e) (from_client_message J)
  unfolding to_client_message from_client_message
  client_message-Carries e h =
      let r = l.reads _ (client_value-IsPlain J l e h) in
      let read = client_value-ReadsAs J l e h in
      record {
        text = r.text;
        writes = r.dumps;
        some_text = r.some_text;
        answers = rw (r.parses, read.object_value, read.typed, read.answers) refl;
      }

  -- Each event of the server is written as a text that is not empty, and a client reads that text as
  -- the same event: sessions, configurations with a finite komi, chat in UTF-8, and deltas between
  -- players that have a coordinate exactly for a place, captures for a place alone, and an action and a
  -- status that are not the end marks. All numbers fit in 32 bits.
  pub server_message-Carries :
      (e : ServerEvent)
      → ServerSendable J e
      → Carries e (to_server_message J e) (from_server_message J)
  unfolding to_server_message from_server_message
  server_message-Carries e h =
      let w = server-Written J l e h in
      let r = l.reads w.value w.plain in
      record {
        text = r.text;
        writes = rw w.makes r.dumps;
        some_text = r.some_text;
        answers = rw (r.parses, w.read.object_value, w.read.typed, w.read.answers) refl;
      }
