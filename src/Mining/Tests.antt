-- ===== src/Mining/Tests.antt =====
-- A hash against a difficulty, and a nonce in a template.
use armrx_aarch64_random_x_v.Common.{
  ℕ, ◌+◌, ◌*◌, ◌%◌, ◌^◌, ◌≡◌, List, [], ◌∷◌, arith, refl, some, leb, ltb, ◌<◌, ◌≤◌, ◌⊎◌, shr64,
  if◌then◌else◌, ◌==◌,
}
use armrx_aarch64_random_x_v.Mining.Target.{Bytes32, meets_target, difficulty_to_target}
use armrx_aarch64_random_x_v.Mining.Nonce.{rejected, undefined, written, update_nonce_in_template}
use armrx_aarch64_random_x_v.Mining.Hex.{hex_to_bytes, bytes_to_hex, nonce_to_hex}
use armrx_aarch64_random_x_v.Mining.HexDigits.{
  AllBytes, little_endian, hex_to_bytes-bytes_to_hex, hex_to_bytes-nonce_to_hex,
}
use armrx_aarch64_random_x_v.Mining.Value.{value, AreBytes, meets_target-leb}
use armrx_aarch64_random_x_v.Mining.Difficulty.{difficulty_to_target-meets}
use armrx_aarch64_random_x_v.Mining.Frame.{IsWritten, update_nonce_in_template-IsWritten}

abbrev hash : Bytes32
hash i = if i == 31 then 0 else (i * 7 + 3) % 256

hash-AreBytes : AreBytes hash
hash-AreBytes i = ground arith

abbrev bound : Bytes32
bound i = if i == 30 then 1 else 255

bound-AreBytes : AreBytes bound
bound-AreBytes i = ground arith

meets_target-leb_example : meets_target hash bound ≡ leb (value 32 hash) (value 32 bound)
meets_target-leb_example = meets_target-leb hash bound hash-AreBytes bound-AreBytes

difficulty_to_target-meets_example :
    meets_target hash (difficulty_to_target 120000) ≡ ltb (value 32 hash * 120000) (2 ^ 256)
difficulty_to_target-meets_example =
    difficulty_to_target-meets 120000 hash (omega arith) (omega arith) hash-AreBytes

-- Above 2 ^ 56 the remainder of the division no longer fits once it is shifted: byte 19 of the
-- target of 2 ^ 60 is 15, where the quotient (2 ^ 256 - 1) / 2 ^ 60 has 255.
wrapped_remainder : difficulty_to_target (2 ^ 60) 19 ≡ 15
unfolding difficulty_to_target
wrapped_remainder = refl

update_nonce_in_template-IsWritten_example :
    ((76 < 39 + 4) × (update_nonce_in_template 76 hash 0x01020304 39 4 ≡ rejected))
    ⊎ ((39 + 4 ≤ 76)
        × ((after : ℕ → ℕ) × (update_nonce_in_template 76 hash 0x01020304 39 4 ≡ written after)
            × IsWritten 0 4 0x01020304 39 hash after))
update_nonce_in_template-IsWritten_example =
    update_nonce_in_template-IsWritten 76 hash 0x01020304 39 4 (omega arith) (omega arith)
      (omega arith)

abbrev blob : List ℕ
blob = 0 ∷ 171 ∷ 255 ∷ []

hex_to_bytes-bytes_to_hex_example : hex_to_bytes (bytes_to_hex blob) ≡ blob
unfolding AllBytes
hex_to_bytes-bytes_to_hex_example =
    hex_to_bytes-bytes_to_hex blob (omega arith, (omega arith, (omega arith, tt)))

hex_to_bytes-nonce_to_hex_example :
    (text : List ℕ) × (nonce_to_hex 0xdeadbeef 4 ≡ some text)
    × (hex_to_bytes text ≡ little_endian 4 0 0xdeadbeef)
hex_to_bytes-nonce_to_hex_example = hex_to_bytes-nonce_to_hex 0xdeadbeef 4 (omega arith)

-- The ninth byte shifts by 64 bits.
nine_bytes : update_nonce_in_template 76 hash 0x01020304 39 9 ≡ undefined
unfolding update_nonce_in_template shr64
nine_bytes = refl
