-- ===== src/Wire.antt =====
-- src/net/core/include/network/core/protocol.hpp: the header in front of each message and its byte
-- order. A message is its bytes.
pub mod Order
use package.go_game.Prelude.{
  ℕ, ◌+◌, ◌*◌, ◌/◌, ◌%◌, ◌^◌, Bool, true, false, ltb, List, [], ◌∷◌, ◌++◌, length, if◌then◌else◌,
}
use package.go_game.Position.{u32_mod}
use package.go_game.Net.{Text}

abbrev pub max_payload_bytes : ℕ
max_payload_bytes = 4 * 1024

abbrev pub header_size : ℕ
header_size = 4

-- `std::endian::native` of a machine.
pub data Endian : Type 0 where
  big little : Endian

-- The bits of byte `k`, where they are: `value & (0xFF << 8 * k)`.
abbrev pub masked : ℕ → ℕ → ℕ
masked k value = value / 2 ^ (8 * k) % 256 * 2 ^ (8 * k)

-- The four parts have no bit in common, so that `|` is their sum.
unfoldable pub byteswap_u32 : ℕ → ℕ
byteswap_u32 value =
    masked 0 value * 2 ^ 24
    + masked 1 value * 2 ^ 8
    + masked 2 value / 2 ^ 8
    + masked 3 value / 2 ^ 24

abbrev pub to_network_u32 : Endian → ℕ → ℕ
to_network_u32 big value = value
to_network_u32 little value = byteswap_u32 value

abbrev pub from_network_u32 : Endian → ℕ → ℕ
from_network_u32 endian value = to_network_u32 endian value

-- The memory of a 32-bit number.
abbrev pub bytes_of_u32 : Endian → ℕ → Text
bytes_of_u32 big v = v / 2 ^ 24 % 256 ∷ v / 2 ^ 16 % 256 ∷ v / 2 ^ 8 % 256 ∷ v % 256 ∷ []
bytes_of_u32 little v = v % 256 ∷ v / 2 ^ 8 % 256 ∷ v / 2 ^ 16 % 256 ∷ v / 2 ^ 24 % 256 ∷ []

-- The number in memory. Other than four bytes are not read.
abbrev pub u32_of_bytes : Endian → Text → ℕ
u32_of_bytes big (a ∷ b ∷ c ∷ d ∷ []) = a * 2 ^ 24 + b * 2 ^ 16 + c * 2 ^ 8 + d
u32_of_bytes little (a ∷ b ∷ c ∷ d ∷ []) = d * 2 ^ 24 + c * 2 ^ 16 + b * 2 ^ 8 + a
u32_of_bytes _ _ = 0

-- The bytes of `BasicMessageHeader` for a message, and the payload size that the receiver finds there.
abbrev pub header_of : Endian → Text → Text
header_of endian message = bytes_of_u32 endian (to_network_u32 endian (length message % u32_mod))

abbrev pub payload_size : Endian → Text → ℕ
payload_size endian header = from_network_u32 endian (u32_of_bytes endian header)

-- The two buffers of a write.
abbrev pub frame : Endian → Text → Text
frame endian message = header_of endian message ++ message
