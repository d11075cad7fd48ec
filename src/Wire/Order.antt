-- ===== src/Wire/Order.antt =====
-- The byte order of the header of src/net/core/include/network/core/protocol.hpp: what is on the wire
-- does not depend on the machines.
use go_game.Prelude.{
  ℕ, ◌+◌, ◌*◌, ◌/◌, ◌%◌, ◌<◌, ◌^◌, ◌≡◌, refl, sym, ◌∙◌, ap, [], ◌∷◌, length, arith,
}
use go_game.Position.{u32_mod}
use go_game.Net.{Text}
use go_game.Wire.{
  Endian, big, little, byteswap_u32, to_network_u32, from_network_u32, bytes_of_u32, u32_of_bytes,
  header_of, payload_size,
}

byteswap_u32_lem :
    (a b c d : ℕ)
    → a < 256
    → b < 256
    → c < 256
    → d < 256
    → byteswap_u32 (a * 16777216 + b * 65536 + c * 256 + d) ≡ d * 16777216 + c * 65536 + b * 256 + a
unfolding byteswap_u32
byteswap_u32_lem a b c d ha hb hc hd = omega arith

-- A 32-bit number as its bytes.
split_u32 :
    (n : ℕ)
    → n < u32_mod
    → n ≡ n / 2 ^ 24 % 256 * 16777216 + n / 2 ^ 16 % 256 * 65536 + n / 2 ^ 8 % 256 * 256 + n % 256
split_u32 n h = omega arith

byte-lt : (n : ℕ) → n % 256 < 256
byte-lt n = omega arith

swapped :
    (n : ℕ)
    → n < u32_mod
    → byteswap_u32 n
      ≡ n % 256 * 16777216 + n / 2 ^ 8 % 256 * 65536 + n / 2 ^ 16 % 256 * 256 + n / 2 ^ 24 % 256
swapped n h =
    ap byteswap_u32 (split_u32 n h)
    ∙ byteswap_u32_lem _ _ _ _ (byte-lt (n / 2 ^ 24)) (byte-lt (n / 2 ^ 16)) (byte-lt (n / 2 ^ 8))
        (byte-lt n)

-- The bytes of a sum are its parts.
little_bytes :
    (a b c d : ℕ)
    → a < 256
    → b < 256
    → c < 256
    → d < 256
    → bytes_of_u32 little (d * 16777216 + c * 65536 + b * 256 + a) ≡ a ∷ b ∷ c ∷ d ∷ []
little_bytes a b c d ha hb hc hd =
    let first : (d * 16777216 + c * 65536 + b * 256 + a) % 256 ≡ a = omega arith in
    let second : (d * 16777216 + c * 65536 + b * 256 + a) / 256 % 256 ≡ b = omega arith in
    let third : (d * 16777216 + c * 65536 + b * 256 + a) / 65536 % 256 ≡ c = omega arith in
    let fourth : (d * 16777216 + c * 65536 + b * 256 + a) / 16777216 % 256 ≡ d = omega arith in
    rw (first, second, third, fourth) refl

-- In memory, a number in network order has its highest byte first, on either kind of machine.
pub bytes_of_u32-to_network_u32 :
    (endian : Endian) (n : ℕ)
    → n < u32_mod
    → bytes_of_u32 endian (to_network_u32 endian n) ≡ bytes_of_u32 big n
bytes_of_u32-to_network_u32 big n h = refl
bytes_of_u32-to_network_u32 little n h =
    ap (bytes_of_u32 little) (swapped n h)
    ∙ little_bytes _ _ _ _ (byte-lt (n / 2 ^ 24)) (byte-lt (n / 2 ^ 16)) (byte-lt (n / 2 ^ 8))
        (byte-lt n)

from_network_u32-u32_of_bytes :
    (endian : Endian) (n : ℕ)
    → n < u32_mod
    → from_network_u32 endian (u32_of_bytes endian (bytes_of_u32 big n)) ≡ n
from_network_u32-u32_of_bytes big n h = sym (split_u32 n h)
from_network_u32-u32_of_bytes little n h =
    byteswap_u32_lem (n % 256) (n / 256 % 256) (n / 65536 % 256) (n / 16777216 % 256) (byte-lt n)
      (byte-lt (n / 256)) (byte-lt (n / 65536)) (byte-lt (n / 16777216))
    ∙ sym (split_u32 n h)

-- The header that any machine sends for a message shorter than 2 ^ 32 bytes gives any machine the length
-- of the message.
pub payload_size-header_of :
    (sender receiver : Endian) (message : Text)
    → length message < u32_mod
    → payload_size receiver (header_of sender message) ≡ length message
payload_size-header_of sender receiver message h =
    let whole : length message % u32_mod ≡ length message = omega arith in
    rw (whole, bytes_of_u32-to_network_u32 sender (length message) h)
      (from_network_u32-u32_of_bytes receiver (length message) h)
