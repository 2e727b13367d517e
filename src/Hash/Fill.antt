-- ===== src/Hash/Fill.antt =====
-- `fill_aes_1r_x4` and `hash_aes_1r_x4` of src/aes_hash.cpp without the NEON tables, and
-- `AesGenerator4R` of src/aes_generator.cpp. Memory is bytes by address.
use armrx_aarch64_random_x_v.Common.{ℕ, zero, suc, ◌+◌, ◌/◌}
use armrx_aarch64_random_x_v.Vm.Memory.{Bytes, load_le, store_le}
use armrx_aarch64_random_x_v.Hash.Aes.{
  AesBlock, AesLuts, aes_encrypt_round, aes_decrypt_round, build_aes_key, aes_gen1r_key0,
  aes_gen1r_key1, aes_gen1r_key2, aes_gen1r_key3, aes_gen4r_key0, aes_gen4r_key1, aes_gen4r_key2,
  aes_gen4r_key3, aes_gen4r_key4, aes_gen4r_key5, aes_gen4r_key6, aes_gen4r_key7,
}

-- 64 bytes.
pub record AesState : Type 0 where
  pub s0 : AesBlock
  pub s1 : AesBlock
  pub s2 : AesBlock
  pub s3 : AesBlock

unfoldable pub read_block : Bytes → ℕ → AesBlock
read_block mem at = record {
  w0 = load_le 4 mem at;
  w1 = load_le 4 mem (at + 4);
  w2 = load_le 4 mem (at + 8);
  w3 = load_le 4 mem (at + 12);
}

unfoldable pub write_block : Bytes → ℕ → AesBlock → Bytes
write_block mem at b =
    let mem1 = store_le 4 mem at b.w0 in
    let mem2 = store_le 4 mem1 (at + 4) b.w1 in
    let mem3 = store_le 4 mem2 (at + 8) b.w2 in store_le 4 mem3 (at + 12) b.w3

unfoldable pub write_state : Bytes → ℕ → AesState → Bytes
write_state mem at s =
    let mem1 = write_block mem at s.s0 in
    let mem2 = write_block mem1 (at + 16) s.s1 in
    let mem3 = write_block mem2 (at + 32) s.s2 in write_block mem3 (at + 48) s.s3

unfoldable pub read_state : Bytes → ℕ → AesState
read_state mem at = record {
  s0 = read_block mem at;
  s1 = read_block mem (at + 16);
  s2 = read_block mem (at + 32);
  s3 = read_block mem (at + 48);
}

abbrev pub four_times : AesBlock → AesState
four_times key = record { s0 = key; s1 = key; s2 = key; s3 = key }

-- `hash_state_0` to `hash_state_3`, `hash_xkey_0` and `hash_xkey_1`.
abbrev pub hash_state : AesState
hash_state = record {
  s0 = build_aes_key 0xd7983aad 0xcc82db47 0x9fa856de 0x92b52c0d;
  s1 = build_aes_key 0xace78057 0xf59e125a 0x15c7b798 0x338d996e;
  s2 = build_aes_key 0xe8a07ce4 0x5079506b 0xae62c7d0 0x6a770017;
  s3 = build_aes_key 0x7e994948 0x79a10005 0x07ad828d 0x630a240c;
}

abbrev pub hash_xkey_0 : AesBlock
hash_xkey_0 = build_aes_key 0x06890201 0x90dc56bf 0x8b24949f 0xf6fa8389

abbrev pub hash_xkey_1 : AesBlock
hash_xkey_1 = build_aes_key 0xed18f99b 0xee1043c6 0x51f4e03c 0x61b263d1

module _ (luts : AesLuts) where
  unfoldable pub fill_step : AesState → AesState
  fill_step s = record {
    s0 = aes_decrypt_round luts s.s0 aes_gen1r_key0;
    s1 = aes_encrypt_round luts s.s1 aes_gen1r_key1;
    s2 = aes_decrypt_round luts s.s2 aes_gen1r_key2;
    s3 = aes_encrypt_round luts s.s3 aes_gen1r_key3;
  }

  -- `left` rounds of 64 bytes from `offset` on; the result is the state and the memory.
  unfoldable pub fill_from : ℕ → ℕ → AesState → Bytes → AesState × Bytes
  fill_from zero offset s mem = (s, mem)
  fill_from (suc left) offset s mem =
      let s' = fill_step s in fill_from left (offset + 64) s' (write_state mem offset s')

  -- For an output of `size` bytes, a multiple of 64. All of them are written, so what they were is
  -- not an argument.
  unfoldable pub fill_aes_1r_x4 : ℕ → AesState → AesState × Bytes
  fill_aes_1r_x4 size s = fill_from (size / 64) 0 s (λ j. 0)

  unfoldable pub hash_step : AesState → AesState → AesState
  hash_step s input = record {
    s0 = aes_encrypt_round luts s.s0 input.s0;
    s1 = aes_decrypt_round luts s.s1 input.s1;
    s2 = aes_encrypt_round luts s.s2 input.s2;
    s3 = aes_decrypt_round luts s.s3 input.s3;
  }

  unfoldable pub hash_from : ℕ → ℕ → Bytes → AesState → AesState
  hash_from zero offset mem s = s
  hash_from (suc left) offset mem s =
      hash_from left (offset + 64) mem (hash_step s (read_state mem offset))

  unfoldable pub hash_aes_1r_x4 : ℕ → Bytes → AesState
  hash_aes_1r_x4 size mem =
      hash_step (hash_step (hash_from (size / 64) 0 mem hash_state) (four_times hash_xkey_0))
        (four_times hash_xkey_1)

  -- Four rounds with four keys.
  unfoldable pub decrypt_four : AesBlock → AesBlock → AesBlock → AesBlock → AesBlock → AesBlock
  decrypt_four k0 k1 k2 k3 s =
      let t = aes_decrypt_round luts (aes_decrypt_round luts s k0) k1 in
      aes_decrypt_round luts (aes_decrypt_round luts t k2) k3

  unfoldable pub encrypt_four : AesBlock → AesBlock → AesBlock → AesBlock → AesBlock → AesBlock
  encrypt_four k0 k1 k2 k3 s =
      let t = aes_encrypt_round luts (aes_encrypt_round luts s k0) k1 in
      aes_encrypt_round luts (aes_encrypt_round luts t k2) k3

  -- `AesGenerator4R::next`.
  unfoldable pub next : AesState → AesState
  next s = record {
    s0 = decrypt_four aes_gen4r_key0 aes_gen4r_key1 aes_gen4r_key2 aes_gen4r_key3 s.s0;
    s1 = encrypt_four aes_gen4r_key0 aes_gen4r_key1 aes_gen4r_key2 aes_gen4r_key3 s.s1;
    s2 = decrypt_four aes_gen4r_key4 aes_gen4r_key5 aes_gen4r_key6 aes_gen4r_key7 s.s2;
    s3 = encrypt_four aes_gen4r_key4 aes_gen4r_key5 aes_gen4r_key6 aes_gen4r_key7 s.s3;
  }

  -- `AesGenerator4R::fill`, with `left` blocks to go.
  unfoldable pub generate : ℕ → ℕ → AesState → Bytes → Bytes
  generate zero offset s mem = mem
  generate (suc left) offset s mem =
      let s' = next s in generate left (offset + 64) s' (write_state mem offset s')
