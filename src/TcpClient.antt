-- ===== src/TcpClient.antt =====
-- src/net/core/tcpClient.cpp: the client's end of a connection.
pub mod Reads
use package.go_game.Prelude.{
  ℕ, Bool, true, false, not, ◌&&◌, ◌==◌, ltb, if◌then◌else◌, Option, none, some, List, [], ◌∷◌,
  length,
}
use package.go_game.Net.{Text}
use package.go_game.Wire.{Endian, frame, payload_size, max_payload_bytes, header_size}
use package.go_game.Socket.{Socket}

module _ (S : Socket) where
  pub record TcpClient : Type 0 where
    pub socket : S.Handle
    pub is_connected : Bool

  unfoldable pub connect : TcpClient → Text → ℕ → Bool × TcpClient
  connect c host port =
      let (ok, socket) = S.connect host port c.socket in
      if c.is_connected then (false, c) else (ok, record { socket = socket; is_connected = ok })

  abbrev pub disconnect : TcpClient → TcpClient
  disconnect c = record { socket = S.close c.socket; is_connected = false }

  unfoldable pub send : Endian → TcpClient → Text → Bool × TcpClient
  send endian c message =
      let (ok, socket) = S.write (frame endian message) c.socket in
      let written : TcpClient = record { socket = socket; is_connected = c.is_connected } in
      if not c.is_connected
      then (false, c)
      else if ltb max_payload_bytes (length message)
      then (false, c)
      else if ok
      then (true, written)
      else (false, disconnect written)

  -- A number of bytes, or the end of the connection.
  abbrev pub received : Option Text × S.Handle → Bool → Option Text × TcpClient
  received (none, socket) connected =
      (none, disconnect (record { socket = socket; is_connected = connected }))
  received (some bytes, socket) connected =
      (some bytes, record { socket = socket; is_connected = connected })

  unfoldable pub read_header : TcpClient → Option Text × TcpClient
  read_header c = received (S.read header_size c.socket) c.is_connected

  unfoldable pub read_payload : TcpClient → ℕ → Option Text × TcpClient
  read_payload c expected_bytes =
      if expected_bytes == 0
      then (some [], c)
      else received (S.read expected_bytes c.socket) c.is_connected

  -- The message of `read`, which is empty when a part of it is missing.
  abbrev pub message_of : Option Text × TcpClient → Text × TcpClient
  message_of (none, c) = ([], c)
  message_of (some payload, c) = (payload, c)

  abbrev pub read_sized : Endian → Option Text × TcpClient → Text × TcpClient
  read_sized endian (none, c) = ([], c)
  read_sized endian (some header, c) =
      if ltb max_payload_bytes (payload_size endian header)
      then ([], disconnect c)
      else message_of (read_payload c (payload_size endian header))

  unfoldable pub read : Endian → TcpClient → Text × TcpClient
  read endian c = read_sized endian (read_header c)
