-- ===== src/Mining/Hex.antt =====
-- `hex_to_bytes`, `bytes_to_hex` and `nonce_to_hex` of src/stratum_client.cpp.
use armrx_aarch64_random_x_v.Common.{
  ℕ, zero, suc, ◌+◌, ◌-◌, ◌*◌, ◌%◌, bit_and, bit_or, List, [], ◌∷◌, get_or, if◌then◌else◌, leb,
  ◌&&◌, shr, shr64, Option, some, ◌>>=◌,
}
use armrx_aarch64_random_x_v.Json.Escape.{hex}

-- The value of a digit; 0 for any other byte.
unfoldable pub from_hex : ℕ → ℕ
from_hex c =
    if leb 48 c && leb c 57
    then c - 48
    else if leb 97 c && leb c 102
    then c - 97 + 10
    else if leb 65 c && leb c 70
    then c - 65 + 10
    else 0

-- A last digit that has no partner is left out.
unfoldable pub hex_to_bytes : List ℕ → List ℕ
unfolding from_hex
hex_to_bytes [] = []
hex_to_bytes (hi ∷ []) = []
hex_to_bytes (hi ∷ lo ∷ rest) = bit_or (from_hex hi * 16 % 256) (from_hex lo) ∷ hex_to_bytes rest

unfoldable pub bytes_to_hex : List ℕ → List ℕ
bytes_to_hex [] = []
bytes_to_hex (v ∷ bytes) = get_or hex (shr v 4) 0 ∷ get_or hex (bit_and v 15) 0 ∷ bytes_to_hex bytes

-- The loop from byte `i` on, with `left` bytes to go.
unfoldable pub nonce_digits : ℕ → ℕ → ℕ → Option (List ℕ)
nonce_digits zero i nonce = some []
nonce_digits (suc left) i nonce = do
  shifted ← shr64 nonce (i * 8)
  let byte = shifted % 256
  rest ← nonce_digits left (i + 1) nonce
  some (get_or hex (shr byte 4) 0 ∷ get_or hex (bit_and byte 15) 0 ∷ rest)

-- `none` is an undefined shift, from byte 8 on.
unfoldable pub nonce_to_hex : ℕ → ℕ → Option (List ℕ)
unfolding nonce_digits
nonce_to_hex nonce bytes = nonce_digits bytes 0 nonce
