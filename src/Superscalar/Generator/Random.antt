-- ===== src/Superscalar/Generator/Random.antt =====
-- `Blake2Generator` of src/blake2_generator.cpp: 64 bytes of which numbers are taken in order, and
-- which the digest of themselves replaces when they are used up.
use armrx_aarch64_random_x_v.Common.{ℕ, ◌+◌, ◌-◌, ◌/◌, ◌%◌, ◌^◌, if◌then◌else◌, ltb}
use armrx_aarch64_random_x_v.Vm.Memory.{load_le}

pub record Blake2Generator : Type 0 where
  pub data_bytes : ℕ → ℕ
  pub data_index : ℕ

abbrev pub max_seed_size : ℕ
max_seed_size = 60

-- The constructor: the seed's first 60 bytes, zeros, and the nonce in the last four bytes.
unfoldable pub new_generator : (ℕ → ℕ) → ℕ → ℕ → Blake2Generator
new_generator seed seed_size nonce = record {
  data_bytes = λ i.
      if ltb i max_seed_size
      then if ltb i seed_size then seed i else 0
      else nonce / 256 ^ (i - max_seed_size) % 256;
  data_index = 64;
}

-- `blake2b` is the digest of 64 bytes to 64 bytes.
module _ (blake2b : (ℕ → ℕ) → ℕ → ℕ) where
  unfoldable pub check_data : ℕ → Blake2Generator → Blake2Generator
  check_data bytes_needed gen =
      if ltb 64 (gen.data_index + bytes_needed)
      then record { data_bytes = blake2b gen.data_bytes; data_index = 0 }
      else gen

  unfoldable pub get_byte : Blake2Generator → ℕ × Blake2Generator
  unfolding check_data
  get_byte gen =
      let g = check_data 1 gen in
      (g.data_bytes g.data_index, record g { data_index = g.data_index + 1 })

  unfoldable pub get_uint32 : Blake2Generator → ℕ × Blake2Generator
  unfolding check_data
  get_uint32 gen =
      let g = check_data 4 gen in
      (load_le 4 g.data_bytes g.data_index, record g { data_index = g.data_index + 4 })
