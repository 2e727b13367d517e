-- ===== src/Dataset/Cache.antt =====
-- The cache as src/dataset.cpp reads it (include/armrx/argon2.hpp), its lines and the seed registers.
use armrx_aarch64_random_x_v.Common.{
  ℕ, ◌+◌, ◌*◌, ◌/◌, ◌%◌, bit_xor, Option, none, some, List, [], ◌∷◌, get_or, if◌then◌else◌, ◌==◌,
  u64, mul64,
}
use armrx_aarch64_random_x_v.Superscalar.Program.{SuperscalarProgram}
use armrx_aarch64_random_x_v.Superscalar.Scalar.{Registers}

-- `Argon2dCache`: blocks of 128 words, 8 programs and the reciprocals of their IMUL_RCP.
pub record Cache : Type 0 where
  pub memory_blocks : ℕ
  pub block : ℕ → ℕ → ℕ
  pub programs : ℕ → SuperscalarProgram
  pub reciprocal_cache : List ℕ

-- A dataset item or a cache line: 64 bytes, as the 8 words that are read from them.
abbrev pub Item : Type 0
Item = ℕ → ℕ

abbrev pub item_bytes : ℕ
item_bytes = 64

abbrev pub lines_per_block : ℕ
lines_per_block = 1024 / item_bytes

abbrev pub cache_line_count : Cache → ℕ
cache_line_count cache = cache.memory_blocks * lines_per_block

-- `none` is the exception "cache has no lines".
unfoldable pub load_cache_line : Cache → ℕ → Option Item
load_cache_line cache line_index =
    let line = line_index % cache_line_count cache in
    if cache_line_count cache == 0
    then none
    else some (λ q. cache.block (line / lines_per_block) (line % lines_per_block * 8 + q))

abbrev pub seed_multiplier : ℕ
seed_multiplier = 6364136223846793005

-- The constants that the seed is combined with, from register 1 on.
abbrev pub seed_adds : List ℕ
seed_adds =
    0 ∷ 9298411001130361340 ∷ 12065312585734608966 ∷ 9306329213124626780 ∷ 5281919268842080866
    ∷ 10536153434571861004 ∷ 3398623926847679864 ∷ 9549104520008361294 ∷ []

unfoldable pub dataset_seed_registers : ℕ → Registers
dataset_seed_registers item_number q =
    let seed = mul64 (u64 (item_number + 1)) seed_multiplier in
    if q == 0 then seed else bit_xor seed (get_or seed_adds q 0)
