-- ===== src/Hash/Aes.antt =====
-- `encrypt_transform_ttable`, `decrypt_transform_ttable` and the rounds of include/armrx/aes.hpp, and
-- the round keys of include/armrx/aes_keys.hpp. A block is its four 32-bit words. The tables
-- `randomx_aes_lut_enc` and `randomx_aes_lut_dec`, a copy of RandomX's, are the argument `luts`.
use armrx_aarch64_random_x_v.Common.{ℕ, ◌%◌, bit_xor, shr}

pub record AesBlock : Type 0 where
  pub w0 : ℕ
  pub w1 : ℕ
  pub w2 : ℕ
  pub w3 : ℕ

-- The tables: number, then index.
pub record AesLuts : Type 0 where
  pub enc : ℕ → ℕ → ℕ
  pub dec : ℕ → ℕ → ℕ

-- A word of the result, from a byte of each of four words.
unfoldable pub column : (ℕ → ℕ → ℕ) → ℕ → ℕ → ℕ → ℕ → ℕ
column lut a b c d =
    bit_xor
      (bit_xor (bit_xor (lut 0 (shr a 0 % 256)) (lut 1 (shr b 8 % 256))) (lut 2 (shr c 16 % 256)))
      (lut 3 (shr d 24 % 256))

unfoldable pub encrypt_transform : AesLuts → AesBlock → AesBlock
encrypt_transform luts s = record {
  w0 = column luts.enc s.w0 s.w1 s.w2 s.w3;
  w1 = column luts.enc s.w1 s.w2 s.w3 s.w0;
  w2 = column luts.enc s.w2 s.w3 s.w0 s.w1;
  w3 = column luts.enc s.w3 s.w0 s.w1 s.w2;
}

unfoldable pub decrypt_transform : AesLuts → AesBlock → AesBlock
decrypt_transform luts s = record {
  w0 = column luts.dec s.w0 s.w3 s.w2 s.w1;
  w1 = column luts.dec s.w1 s.w0 s.w3 s.w2;
  w2 = column luts.dec s.w2 s.w1 s.w0 s.w3;
  w3 = column luts.dec s.w3 s.w2 s.w1 s.w0;
}

unfoldable pub xor_block : AesBlock → AesBlock → AesBlock
xor_block a b = record {
  w0 = bit_xor a.w0 b.w0;
  w1 = bit_xor a.w1 b.w1;
  w2 = bit_xor a.w2 b.w2;
  w3 = bit_xor a.w3 b.w3;
}

unfoldable pub aes_encrypt_round : AesLuts → AesBlock → AesBlock → AesBlock
aes_encrypt_round luts state round_key = xor_block (encrypt_transform luts state) round_key

unfoldable pub aes_decrypt_round : AesLuts → AesBlock → AesBlock → AesBlock
aes_decrypt_round luts state round_key = xor_block (decrypt_transform luts state) round_key

-- The words come with the highest first.
abbrev pub build_aes_key : ℕ → ℕ → ℕ → ℕ → AesBlock
build_aes_key i3 i2 i1 i0 = record { w0 = i0; w1 = i1; w2 = i2; w3 = i3 }

-- `kAesGen1RKey0` to `kAesGen1RKey3`.
abbrev pub aes_gen1r_key0 : AesBlock
aes_gen1r_key0 = build_aes_key 0xb4f44917 0xdbb5552b 0x62716609 0x6daca553

abbrev pub aes_gen1r_key1 : AesBlock
aes_gen1r_key1 = build_aes_key 0x0da1dc4e 0x1725d378 0x846a710d 0x6d7caf07

abbrev pub aes_gen1r_key2 : AesBlock
aes_gen1r_key2 = build_aes_key 0x3e20e345 0xf4c0794f 0x9f947ec6 0x3f1262f1

abbrev pub aes_gen1r_key3 : AesBlock
aes_gen1r_key3 = build_aes_key 0x49169154 0x16314c88 0xb1ba317c 0x6aef8135

-- `kAesGen4RKey0` to `kAesGen4RKey7`.
abbrev pub aes_gen4r_key0 : AesBlock
aes_gen4r_key0 = build_aes_key 0x99e5d23f 0x2f546d2b 0xd1833ddb 0x6421aadd

abbrev pub aes_gen4r_key1 : AesBlock
aes_gen4r_key1 = build_aes_key 0xa5dfcde5 0x06f79d53 0xb6913f55 0xb20e3450

abbrev pub aes_gen4r_key2 : AesBlock
aes_gen4r_key2 = build_aes_key 0x171c02bf 0x0aa4679f 0x515e7baf 0x5c3ed904

abbrev pub aes_gen4r_key3 : AesBlock
aes_gen4r_key3 = build_aes_key 0xd8ded291 0xcd673785 0xe78f5d08 0x85623763

abbrev pub aes_gen4r_key4 : AesBlock
aes_gen4r_key4 = build_aes_key 0x229effb4 0x3d518b6d 0xe3d6a7a6 0xb5826f73

abbrev pub aes_gen4r_key5 : AesBlock
aes_gen4r_key5 = build_aes_key 0xb272b7d2 0xe9024d4e 0x9c10b3d9 0xc7566bf3

abbrev pub aes_gen4r_key6 : AesBlock
aes_gen4r_key6 = build_aes_key 0xf63befa7 0x2ba9660a 0xf765a38b 0xf273c9e7

abbrev pub aes_gen4r_key7 : AesBlock
aes_gen4r_key7 = build_aes_key 0xc0b0762d 0x0c06d1fd 0x915839de 0x7a7cd609
