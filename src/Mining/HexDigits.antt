-- ===== src/Mining/HexDigits.antt =====
-- Hexadecimal text of src/stratum_client.cpp, read back.
use armrx_aarch64_random_x_v.Common.{
  ℕ, zero, suc, ◌+◌, ◌*◌, ◌/◌, ◌%◌, ◌^◌, ◌≡◌, ◌<◌, ◌≤◌, arith, some, shr64-defined, refl, bit_and,
  bit_or, List, [], ◌∷◌, get_or,
}
use armrx_aarch64_random_x_v.Common.Bits.{bit_or_step, bit_and_mask}
use armrx_aarch64_random_x_v.Json.Escape.{hex}
use armrx_aarch64_random_x_v.Mining.Hex.{
  from_hex, hex_to_bytes, bytes_to_hex, nonce_digits, nonce_to_hex,
}
use armrx_aarch64_random_x_v.Mining.Value.{bit_or-zero}

from_hex-digit : (d : ℕ) → d < 16 → from_hex (get_or hex d 0) ≡ d
unfolding from_hex
from_hex-digit zero lt = refl
from_hex-digit (suc zero) lt = refl
from_hex-digit (suc (suc zero)) lt = refl
from_hex-digit (suc (suc (suc zero))) lt = refl
from_hex-digit (suc (suc (suc (suc zero)))) lt = refl
from_hex-digit (suc (suc (suc (suc (suc zero))))) lt = refl
from_hex-digit (suc (suc (suc (suc (suc (suc zero)))))) lt = refl
from_hex-digit (suc (suc (suc (suc (suc (suc (suc zero))))))) lt = refl
from_hex-digit (suc (suc (suc (suc (suc (suc (suc (suc zero)))))))) lt = refl
from_hex-digit (suc (suc (suc (suc (suc (suc (suc (suc (suc zero))))))))) lt = refl
from_hex-digit (suc (suc (suc (suc (suc (suc (suc (suc (suc (suc zero)))))))))) lt = refl
from_hex-digit (suc (suc (suc (suc (suc (suc (suc (suc (suc (suc (suc zero))))))))))) lt = refl
from_hex-digit (suc (suc (suc (suc (suc (suc (suc (suc (suc (suc (suc (suc zero)))))))))))) lt =
    refl
from_hex-digit (suc (suc (suc (suc (suc (suc (suc (suc (suc (suc (suc (suc (suc zero)))))))))))))
      lt =
    refl
from_hex-digit
      (suc (suc (suc (suc (suc (suc (suc (suc (suc (suc (suc (suc (suc (suc zero)))))))))))))) lt =
    refl
from_hex-digit
      (suc (suc (suc (suc (suc (suc (suc (suc (suc (suc (suc (suc (suc (suc (suc zero)))))))))))))))
      lt =
    refl
from_hex-digit
      (suc
        (suc (suc (suc (suc (suc (suc (suc (suc (suc (suc (suc (suc (suc (suc (suc d))))))))))))))))
      lt =
    absurd (omega arith)

or_half : (x b : ℕ) → bit_or (2 * x) b ≡ 2 * bit_or x (b / 2) + b % 2
or_half x b =
    let half : 2 * x / 2 ≡ x = omega arith in rw (bit_or_step (2 * x) b, half) (omega arith)

join_digits : (a b : ℕ) → b < 16 → bit_or (a * 16) b ≡ a * 16 + b
join_digits a b lt =
    let four : a * 16 ≡ 2 * (2 * (2 * (2 * a))) = omega arith in
    let none_left : b / 2 / 2 / 2 / 2 ≡ 0 = omega arith in
    rw
      (
        four,
        or_half (2 * (2 * (2 * a))) b,
        or_half (2 * (2 * a)) (b / 2),
        or_half (2 * a) (b / 2 / 2),
        or_half a (b / 2 / 2 / 2),
        none_left,
        bit_or-zero (suc a) a (omega arith),
      )
      (omega arith)

-- The two digits of a byte.
byte-digits :
    (v : ℕ)
    → v < 256
    → bit_or
        (from_hex (get_or hex (v / 2 ^ 4) 0) * 16 % 256)
        (from_hex (get_or hex (bit_and v 15) 0))
      ≡ v
byte-digits v lt =
    let mask = bit_and_mask 4 v in
    let top : v / 16 * 16 % 256 ≡ v / 16 * 16 = omega arith in
    rw
      (
        mask,
        from_hex-digit (v / 16) (omega arith),
        from_hex-digit (v % 16) (omega arith),
        top,
        join_digits (v / 16) (v % 16) (omega arith),
      )
      (omega arith)

unfoldable pub AllBytes : List ℕ → Type 0
AllBytes [] = Unit
AllBytes (v ∷ bytes) = (v < 256) × AllBytes bytes

-- `hex_to_bytes` reads back every list of bytes that `bytes_to_hex` wrote.
pub hex_to_bytes-bytes_to_hex :
    (bytes : List ℕ) → AllBytes bytes → hex_to_bytes (bytes_to_hex bytes) ≡ bytes
unfolding hex_to_bytes bytes_to_hex AllBytes
hex_to_bytes-bytes_to_hex [] all = refl
hex_to_bytes-bytes_to_hex (v ∷ bytes) (first, all) =
    rw (byte-digits v first, hex_to_bytes-bytes_to_hex bytes all) refl

-- The lowest bytes of a number, the lowest first.
unfoldable pub little_endian : ℕ → ℕ → ℕ → List ℕ
little_endian zero i nonce = []
little_endian (suc left) i nonce = nonce / 2 ^ (i * 8) % 256 ∷ little_endian left (i + 1) nonce

digits-little_endian :
    (left i nonce : ℕ)
    → i + left ≤ 8
    → (text : List ℕ) × (nonce_digits left i nonce ≡ some text)
      × (hex_to_bytes text ≡ little_endian left i nonce)
unfolding hex_to_bytes nonce_digits little_endian
digits-little_endian zero i nonce few = ([], refl, refl)
digits-little_endian (suc left) i nonce few =
    let (text, made, read) = digits-little_endian left (i + 1) nonce (omega arith) in
    let byte = nonce / 2 ^ (i * 8) % 256 in
    (
      get_or hex (byte / 2 ^ 4) 0 ∷ get_or hex (bit_and byte 15) 0 ∷ text,
      rw (shr64-defined nonce (i * 8) (omega arith), made) refl,
      rw (byte-digits (nonce / 2 ^ (i * 8) % 256) (omega arith), read) refl,
    )

-- For a field of at most 8 bytes: `nonce_to_hex` makes a text, and `hex_to_bytes` reads it as the lowest bytes of the
-- nonce, the lowest first, as many as the field has.
pub hex_to_bytes-nonce_to_hex :
    (nonce bytes : ℕ)
    → bytes ≤ 8
    → (text : List ℕ) × (nonce_to_hex nonce bytes ≡ some text)
      × (hex_to_bytes text ≡ little_endian bytes 0 nonce)
unfolding nonce_to_hex
hex_to_bytes-nonce_to_hex nonce bytes few = digits-little_endian bytes 0 nonce (omega arith)
