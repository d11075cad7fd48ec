-- ===== src/Codec/ReadBack.antt =====
-- The values that src/net/network/nwEvents.cpp writes for clients, and what it means that a message is read back.
use go_game.Prelude.{◌≡◌, refl, true, Option, some}
use go_game.Net.{Text, ClientEvent, client_put_stone, client_pass, client_resign, client_chat}
use go_game.Json.{Json, IsLawful}
use go_game.Codec.{codes, client_value, read_put, read_client, string_member}
use go_game.Codec.Sendable.{ClientSendable}
use go_game.Codec.Members.{
  unsigned_member-object, string_member-object, unsigned-plain, ascii-plain, ascii,
}

module _ (J : Json) (l : IsLawful J) where
  pub client_value-IsPlain : (e : ClientEvent) → ClientSendable J e → J.IsPlain (client_value J e)
  unfolding client_value
  client_value-IsPlain (client_put_stone c) (hx, hy) = l.plain-object _ (
    ascii J l _ refl,
    ascii-plain J l _ refl,
    (
      ascii J l _ refl,
      unsigned-plain J l c.x hx,
      (ascii J l _ refl, unsigned-plain J l c.y hy, tt),
    ),
  )
  client_value-IsPlain client_pass h =
      l.plain-object _ (ascii J l _ refl, ascii-plain J l _ refl, tt)
  client_value-IsPlain client_resign h =
      l.plain-object _ (ascii J l _ refl, ascii-plain J l _ refl, tt)
  client_value-IsPlain (client_chat message) h =
      l.plain-object _
        (ascii J l _ refl, ascii-plain J l _ refl, (ascii J l _ refl, l.plain-string message h, tt))

  -- What the reader finds in the value of an event.
  pub record ReadsAs {ℓ} {E : Type ℓ} (v : J.Value) (read : J.Value → Text → Option E) (e : E)
      : Type ℓ where
    pub object_value : J.is_object v ≡ true
    pub type : Text
    pub typed : string_member J v "type" ≡ some type
    pub answers : read v type ≡ some e

  pub client_value-ReadsAs :
      (e : ClientEvent) → ClientSendable J e → ReadsAs (client_value J e) (read_client J) e
  unfolding client_value read_client read_put
  client_value-ReadsAs (client_put_stone c) (hx, hy) = record {
    object_value = l.is_object-object _ _;
    type = codes "put";
    typed = string_member-object J l _ "type" _ refl;
    answers =
        rw
          (
            unsigned_member-object J l _ "x" c.x refl hx,
            unsigned_member-object J l _ "y" c.y refl hy,
          )
          refl;
  }
  client_value-ReadsAs client_pass h = record {
    object_value = l.is_object-object _ _;
    type = codes "pass";
    typed = string_member-object J l _ "type" _ refl;
    answers = refl;
  }
  client_value-ReadsAs client_resign h = record {
    object_value = l.is_object-object _ _;
    type = codes "resign";
    typed = string_member-object J l _ "type" _ refl;
    answers = refl;
  }
  client_value-ReadsAs (client_chat message) h = record {
    object_value = l.is_object-object _ _;
    type = codes "chat";
    typed = string_member-object J l _ "type" _ refl;
    answers = rw (string_member-object J l _ "message" message refl) refl;
  }
