-- ===== src/TcpClient/Reads.antt =====
-- What the client of src/net/core/tcpClient.cpp reads from a stream of framed messages.
use go_game.Prelude.{
  ℕ, suc, ◌≤◌, ◌≡◌, refl, sym, ◌∙◌, ap, Bool, false, Option, none, some, List, [], ◌∷◌, ◌++◌,
  length, arith, ltb, ◌==◌, Bool-cases, inl, inr,
}
use mathlib.Core.Path.{subst}
use mathlib.Core.List.{append_assoc}
use mathlib.Core.Option.{some-injective}
use go_game.Net.{Text}
use go_game.Wire.{Endian, frame, header_of, payload_size, max_payload_bytes, header_size}
use go_game.Wire.Order.{payload_size-header_of}
use go_game.Socket.{Socket, IsStream}
use go_game.TcpClient.{
  TcpClient, read, read_header, read_payload, read_sized, received, message_of, disconnect,
}

-- The bytes of messages, one frame after the other.
abbrev pub frames : Endian → List Text → Text
frames endian [] = []
frames endian (m ∷ ms) = frame endian m ++ frames endian ms

length-header_of : (endian : Endian) (m : Text) → length (header_of endian m) ≡ header_size
length-header_of endian m = ground arith

module _ (S : Socket) (l : IsStream S) where
  -- The state after a read that found its bytes.
  record Got (c : TcpClient S) (r : Option Text × TcpClient S) (s rest : Text) : Type 0 where
    after : TcpClient S
    result : r ≡ (some s, after)
    connected : after.is_connected ≡ c.is_connected
    incoming : S.Incoming after.socket rest

  read_header-Got :
      (c : TcpClient S) (s rest : Text)
      → length s ≡ header_size
      → S.Incoming c.socket (s ++ rest)
      → Got c (read_header S c) s rest
  unfolding read_header
  read_header-Got c s rest size incoming =
      let (h, found, left) = l.read-full c.socket s rest incoming in
      record {
        after = record { socket = h; is_connected = c.is_connected };
        result =
            ap (λ (n : ℕ). received S (S.read n c.socket) c.is_connected) (sym size)
            ∙ ap (λ (r : Option Text × S.Handle). received S r c.is_connected) found;
        connected = refl;
        incoming = left;
      }

  read_payload-Got :
      (c : TcpClient S) (s rest : Text)
      → S.Incoming c.socket (s ++ rest)
      → Got c (read_payload S c (length s)) s rest
  unfolding read_payload
  read_payload-Got c [] rest incoming = record {
    after = c;
    result = refl;
    connected = refl;
    incoming = incoming;
  }
  read_payload-Got c (x ∷ s) rest incoming =
      let (h, found, left) = l.read-full c.socket (x ∷ s) rest incoming in
      record {
        after = record { socket = h; is_connected = c.is_connected };
        result =
            let some_bytes : (suc (length s) == 0) ≡ false = ground arith in
            rw (some_bytes, found) refl;
        connected = refl;
        incoming = left;
      }

  -- The state after a message was read.
  pub record ReadsMessage (c : TcpClient S) (r : Text × TcpClient S) (m rest : Text) : Type 0 where
    pub after : TcpClient S
    pub result : r ≡ (m, after)
    pub connected : after.is_connected ≡ c.is_connected
    pub incoming : S.Incoming after.socket rest

  -- If a message of at most 4096 bytes arrives in its frame, then `read` returns it, whatever the byte
  -- orders of the two machines; what follows it is left in the stream, and the connection is as it was.
  pub read-ReadsMessage :
      (sender receiver : Endian) (c : TcpClient S) (m rest : Text)
      → length m ≤ max_payload_bytes
      → S.Incoming c.socket (frame sender m ++ rest)
      → ReadsMessage c (read S receiver c) m rest
  unfolding read
  read-ReadsMessage sender receiver c m rest short incoming =
      let size = payload_size-header_of sender receiver m (omega arith) in
      let h =
        read_header-Got c (header_of sender m) (m ++ rest) (length-header_of sender m)
          (subst (S.Incoming c.socket) (append_assoc (header_of sender m) m rest) incoming) in
      let p = read_payload-Got h.after m rest h.incoming in
      let fits : ltb max_payload_bytes (length m) ≡ false = ground arith in
      record {
        after = p.after;
        result = rw (h.result, size, fits, p.result) refl;
        connected = p.connected ∙ h.connected;
        incoming = p.incoming;
      }

  -- At the end of the stream `read` returns an empty message and closes the connection.
  pub read-ended :
      (receiver : Endian) (c : TcpClient S)
      → S.Incoming c.socket []
      → (after : TcpClient S) × (read S receiver c ≡ ([], after))
        × (after.is_connected ≡ false)
        × S.Incoming after.socket []
  unfolding read read_header
  read-ended receiver c incoming =
      let (h, none') = l.read-short c.socket [] header_size incoming (omega arith) in
      (
        disconnect S (record { socket = h; is_connected = c.is_connected }),
        rw none' refl,
        refl,
        l.closed h,
      )

  received-some :
      (r : Option Text × S.Handle) (connected : Bool) (s : Text)
      → (received S r connected).0 ≡ some s
      → r ≡ (some s, r.1)
  received-some (none, h) connected s e = absurd (cc e)
  received-some (some s', h) connected s e = rw (some-injective _ _ e) refl

  length-received :
      (c : TcpClient S) (n : ℕ) (s : Text)
      → (received S (S.read n c.socket) c.is_connected).0 ≡ some s
      → length s ≡ n
  length-received c n s e =
      l.length-read c.socket _ s n (received-some (S.read n c.socket) c.is_connected s e)

  length-read_payload :
      (c : TcpClient S) (n : ℕ) (s : Text) → (read_payload S c n).0 ≡ some s → length s ≡ n
  unfolding read_payload
  length-read_payload c n s e = elim (Bool-cases (n == 0)) [
    | inl empty ↦
        let same : [] ≡ s = some-injective _ _ (rw empty at e) in
        let zero' : n ≡ 0 = ground arith in rw (← same, zero') refl
    | inr more ↦ length-received c n s (rw more at e)
  ]

  length-message_of :
      (r : Option Text × TcpClient S) (n : ℕ)
      → ((s : Text) → r.0 ≡ some s → length s ≡ n)
      → length (message_of S r).0 ≤ n
  length-message_of (none, c) n h = omega arith
  length-message_of (some s, c) n h = let same = h s refl in omega arith

  length-read_sized :
      (receiver : Endian) (r : Option Text × TcpClient S)
      → length (read_sized S receiver r).0 ≤ max_payload_bytes
  length-read_sized receiver (none, c) = omega arith
  length-read_sized receiver (some header, c) =
      elim (Bool-cases (ltb max_payload_bytes (payload_size receiver header))) [
        | inl large ↦ rw large (omega arith)
        | inr small ↦
            let payload = read_payload S c (payload_size receiver header) in
            let bound =
              length-message_of payload (payload_size receiver header)
                (length-read_payload c (payload_size receiver header)) in
            rw small (ground arith)
      ]

  -- Whatever arrives, `read` returns a message of at most 4096 bytes.
  pub length-read :
      (receiver : Endian) (c : TcpClient S) → length (read S receiver c).0 ≤ max_payload_bytes
  unfolding read
  length-read receiver c = length-read_sized receiver (read_header S c)
