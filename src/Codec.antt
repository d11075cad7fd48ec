-- ===== src/Codec.antt =====
-- src/net/network/nwEvents.cpp: the messages of clients and of the server as JSON texts. `none` is a
-- text that is refused; in the other direction it is an assertion that fails, or a text that the JSON
-- library does not write.
pub mod Sendable
pub mod Members
pub mod ReadBack
pub mod Delta
pub mod RoundTrip
pub mod Checks
pub mod Tests
use Prim.Native.Char.{code}
use Prim.Native.String.{String}
use package.go_game.Prelude.{
  ℕ, ◌%◌, Bool, true, false, not, ◌&&◌, ◌||◌, ◌==◌, if◌then◌else◌, Option, none, some, ◌>>=◌, ◌>>◌,
  assert, List, [], ◌∷◌, ◌++◌, map,
}
use package.go_game.Model.{Coord, Player, black, white}
use package.go_game.Position.{u32_mod}
use package.go_game.Net.{
  Text, ServerAction, act_place, act_pass, act_resign, act_count, NetStatus, net_active,
  net_black_win, net_white_win, net_draw, net_count, Seat, seat_none, seat_black, seat_white,
  seat_observer, is_player, ServerGameConfig, ServerDelta, ServerChat, ClientEvent,
  client_put_stone, client_pass, client_resign, client_chat, ServerEvent, server_session_assign,
  server_game_config, server_delta, server_chat,
}
use package.go_game.Json.{Json, same_text}

-- The characters of a literal.
abbrev pub codes : String → Text
codes String.[] = []
codes (String.◌∷◌ c s) = code c ∷ codes s

-- The numbers of the enumerators.
abbrev pub action_number : ServerAction → ℕ
action_number act_place = 0
action_number act_pass = 1
action_number act_resign = 2
action_number act_count = 3

abbrev pub status_number : NetStatus → ℕ
status_number net_active = 0
status_number net_black_win = 1
status_number net_white_win = 2
status_number net_draw = 3
status_number net_count = 4

abbrev pub seat_number : Seat → ℕ
seat_number seat_none = 0
seat_number seat_black = 2
seat_number seat_white = 4
seat_number seat_observer = 8

abbrev pub player_number : Player → ℕ
player_number black = 1
player_number white = 2

-- `static_cast` to an enumeration over `uint8_t`: the value is cut to eight bits, and is `none` where
-- it has no enumerator.
unfoldable pub cast_action : ℕ → Option ServerAction
cast_action n =
    let v = n % 256 in
    if v == 0
    then some act_place
    else if v == 1
    then some act_pass
    else if v == 2
    then some act_resign
    else if v == 3
    then some act_count
    else none

unfoldable pub cast_status : ℕ → Option NetStatus
cast_status n =
    let v = n % 256 in
    if v == 0
    then some net_active
    else if v == 1
    then some net_black_win
    else if v == 2
    then some net_white_win
    else if v == 3
    then some net_draw
    else if v == 4
    then some net_count
    else none

unfoldable pub cast_seat : ℕ → Option Seat
cast_seat n =
    let v = n % 256 in
    if v == 0
    then some seat_none
    else if v == 2
    then some seat_black
    else if v == 4
    then some seat_white
    else if v == 8
    then some seat_observer
    else none

abbrev pub is_valid_action : Option ServerAction → Bool
is_valid_action none = false
is_valid_action (some act_place) = true
is_valid_action (some act_pass) = true
is_valid_action (some act_resign) = true
is_valid_action (some act_count) = false

abbrev pub is_valid_status : Option NetStatus → Bool
is_valid_status none = false
is_valid_status (some net_active) = true
is_valid_status (some net_black_win) = true
is_valid_status (some net_white_win) = true
is_valid_status (some net_draw) = true
is_valid_status (some net_count) = false

abbrev pub is_place : ServerAction → Bool
is_place act_place = true
is_place _ = false

module _ (J : Json) where
  open J use {Value, parse, dump, object, array, from_unsigned, from_string, from_double}

  abbrev pub type_member : String → Text × Value
  type_member s = (codes "type", from_string (codes s))

  -- The objects that the two overload sets `toMessage` build.
  unfoldable pub client_value : ClientEvent → Value
  client_value (client_put_stone c) =
      object
        (type_member "put" ∷ (codes "x", from_unsigned c.x) ∷ (codes "y", from_unsigned c.y) ∷ [])
  client_value client_pass = object (type_member "pass" ∷ [])
  client_value client_resign = object (type_member "resign" ∷ [])
  client_value (client_chat message) =
      object (type_member "chat" ∷ (codes "message", from_string message) ∷ [])

  unfoldable pub to_client_message : ClientEvent → Option Text
  to_client_message e = dump (client_value e)

  abbrev pub capture_value : Coord → Value
  capture_value c = array (from_unsigned c.x ∷ from_unsigned c.y ∷ [])

  abbrev pub capture_values : List Coord → List Value
  capture_values [] = []
  capture_values (c ∷ cs) = capture_value c ∷ capture_values cs

  abbrev pub captures_members : List Coord → List (Text × Value)
  captures_members [] = []
  captures_members (c ∷ cs) = (codes "captures", array (capture_values (c ∷ cs))) ∷ []

  -- The members of a place. Without a coordinate the assertion fails.
  abbrev pub place_members : Option Coord → List Coord → Option (List (Text × Value))
  place_members none captures = none
  place_members (some c) captures =
      some (
        (codes "x", from_unsigned c.x) ∷ (codes "y", from_unsigned c.y) ∷ captures_members captures)

  abbrev pub delta_members : ServerDelta → List (Text × Value) → List (Text × Value)
  delta_members d rest =
      type_member "delta"
      ∷ (codes "turn", from_unsigned d.turn)
      ∷ (codes "seat", from_unsigned (seat_number d.seat))
      ∷ (codes "action", from_unsigned (action_number d.action))
      ∷ (codes "next", from_unsigned (seat_number d.next))
      ∷ (codes "status", from_unsigned (status_number d.status))
      ∷ rest

  unfoldable pub delta_value : ServerDelta → Option Value
  delta_value d =
      if is_place d.action
      then (place_members d.coord d.captures >>= λ rest. some (object (delta_members d rest)))
      else some (object (delta_members d []))

  unfoldable pub server_value : ServerEvent → Option Value
  server_value (server_session_assign id) =
      some (object (type_member "session" ∷ (codes "sessionId", from_unsigned id) ∷ []))
  server_value (server_game_config e) = some (
      object (
        type_member "config"
        ∷ (codes "boardSize", from_unsigned e.board_size)
        ∷ (codes "komi", from_double e.komi)
        ∷ (codes "time", from_unsigned e.time_seconds)
        ∷ []))
  server_value (server_delta d) = delta_value d
  server_value (server_chat e) = some (
      object (
        type_member "chat"
        ∷ (codes "player", from_unsigned (player_number e.player))
        ∷ (codes "messageId", from_unsigned e.message_id)
        ∷ (codes "message", from_string e.message)
        ∷ []))

  unfoldable pub to_server_message : ServerEvent → Option Text
  to_server_message e = server_value e >>= dump

  -- `get<unsigned>` of a 64-bit number cuts it to 32 bits.
  abbrev pub get_unsigned : Value → Option ℕ
  get_unsigned v = J.unsigned_of v >>= λ n. some (n % u32_mod)

  abbrev pub unsigned_member : Value → String → Option ℕ
  unsigned_member j k = J.find j (codes k) >>= get_unsigned

  abbrev pub string_member : Value → String → Option Text
  string_member j k = J.find j (codes k) >>= J.string_of

  abbrev pub double_member : Value → String → Option ℕ
  double_member j k = J.find j (codes k) >>= J.double_of

  abbrev pub contains : Value → String → Bool
  contains j k = elim (J.find j (codes k)) [ none ↦ false | some v ↦ true ]

  abbrev pub is_type : Text → String → Bool
  is_type type s = same_text type (codes s)

  unfoldable pub read_put : Value → Option ClientEvent
  read_put j = do
    x ← unsigned_member j "x"
    y ← unsigned_member j "y"
    some (client_put_stone (record { x = x; y = y }))

  unfoldable pub read_client : Value → Text → Option ClientEvent
  read_client j type =
      if is_type type "put"
      then read_put j
      else if is_type type "pass"
      then some client_pass
      else if is_type type "resign"
      then some client_resign
      else if is_type type "chat"
      then (string_member j "message" >>= λ message. some (client_chat message))
      else none

  unfoldable pub from_client_message : Text → Option ClientEvent
  from_client_message message = do
    j ← parse message
    assert (J.is_object j)
    type ← string_member j "type"
    read_client j type

  -- An array of exactly two unsigned numbers.
  abbrev pub pair_of : List Value → Option Coord
  pair_of [] = none
  pair_of (x ∷ []) = none
  pair_of (x ∷ y ∷ []) =
      get_unsigned x >>= λ cx. get_unsigned y >>= λ cy. some (record { x = cx; y = cy })
  pair_of (x ∷ y ∷ z ∷ rest) = none

  unfoldable pub read_captures : List Value → Option (List Coord)
  read_captures [] = some []
  read_captures (cap ∷ caps) = do
    c ← J.elements cap >>= pair_of
    cs ← read_captures caps
    some (c ∷ cs)

  abbrev pub captures_of : Option Value → Option (List Coord)
  captures_of none = some []
  captures_of (some v) = J.elements v >>= read_captures

  -- The coordinate and the captures of a place; the other actions must not have them.
  unfoldable pub read_place : Value → ServerAction → Option (Option Coord × List Coord)
  read_place j action =
      if is_place action
      then (unsigned_member j "x" >>= λ x. unsigned_member j "y" >>= λ y.
          captures_of (J.find j (codes "captures")) >>= λ captures.
          some (some (record { x = x; y = y }), captures))
      else if contains j "x" || contains j "y" || contains j "captures"
      then none
      else some (none, [])

  unfoldable pub read_delta : Value → Option ServerDelta
  read_delta j = do
    turn ← unsigned_member j "turn"
    seat_value ← unsigned_member j "seat"
    action_value ← unsigned_member j "action"
    next_value ← unsigned_member j "next"
    status_value ← unsigned_member j "status"
    assert (is_valid_action (cast_action action_value))
    assert (is_valid_status (cast_status status_value))
    seat ← cast_seat seat_value
    next ← cast_seat next_value
    action ← cast_action action_value
    status ← cast_status status_value
    assert (is_player seat && is_player next)
    (coord, captures) ← read_place j action
    some (record {
      turn = turn;
      seat = seat;
      action = action;
      coord = coord;
      captures = captures;
      next = next;
      status = status;
    })

  unfoldable pub read_config : Value → Option ServerEvent
  read_config j = do
    board_size ← unsigned_member j "boardSize"
    komi ← double_member j "komi"
    time ← unsigned_member j "time"
    some (server_game_config (record { board_size = board_size; komi = komi; time_seconds = time }))

  abbrev pub player_of_number : ℕ → Option Player
  player_of_number n = if n == 1 then some black else if n == 2 then some white else none

  unfoldable pub read_chat : Value → Option ServerEvent
  read_chat j = do
    player_value ← unsigned_member j "player"
    message_id ← unsigned_member j "messageId"
    message ← string_member j "message"
    player ← player_of_number player_value
    some (server_chat (record { player = player; message_id = message_id; message = message }))

  unfoldable pub read_server : Value → Text → Option ServerEvent
  read_server j type =
      if is_type type "session"
      then (unsigned_member j "sessionId" >>= λ id. some (server_session_assign id))
      else if is_type type "config"
      then read_config j
      else if is_type type "delta"
      then (read_delta j >>= λ d. some (server_delta d))
      else if is_type type "chat"
      then read_chat j
      else none

  unfoldable pub from_server_message : Text → Option ServerEvent
  from_server_message message = do
    j ← parse message
    assert (J.is_object j)
    type ← string_member j "type"
    read_server j type
