-- ===== src/Dataset/Items.antt =====
-- `generate_dataset_item`, and the body of the vector loop of `initialize_dataset`, which derives two
-- items at once.
use armrx_aarch64_random_x_v.Common.{
  ℕ, zero, suc, ◌+◌, ◌%◌, bit_xor, Option, none, some, if◌then◌else◌, ◌==◌, ◌>>=◌,
}
use armrx_aarch64_random_x_v.Superscalar.Scalar.{Registers, execute_superscalar}
use armrx_aarch64_random_x_v.Superscalar.Neon.{
  Vectors, vcombine, veorq_u64, execute_superscalar_neon,
}
use armrx_aarch64_random_x_v.Dataset.Cache.{
  Cache, Item, cache_line_count, load_cache_line, dataset_seed_registers,
}

abbrev pub cache_accesses : ℕ
cache_accesses = 8

-- The rounds from `i` on, `left` of them.
unfoldable pub item_rounds : Cache → ℕ → ℕ → Registers → ℕ → Option Registers
item_rounds cache zero i rl register_value = some rl
item_rounds cache (suc left) i rl register_value = do
  line ← load_cache_line cache (register_value % cache_line_count cache)
  mixed ← execute_superscalar (some cache.reciprocal_cache) (cache.programs i) rl
  let rl' = λ (q : ℕ). bit_xor (mixed q) (line q)
  item_rounds cache left (i + 1) rl' (rl' (cache.programs i).address_register)

-- `none` is an exception: no lines, or a program that does not execute.
unfoldable pub generate_dataset_item : Cache → ℕ → Option Item
unfolding item_rounds
generate_dataset_item cache item_number =
    if cache_line_count cache == 0
    then none
    else item_rounds cache cache_accesses 0 (dataset_seed_registers item_number) item_number

unfoldable pub pair_rounds : Cache → ℕ → ℕ → Vectors → ℕ → ℕ → Option Vectors
pair_rounds cache zero p vr reg_val0 reg_val1 = some vr
pair_rounds cache (suc left) p vr reg_val0 reg_val1 = do
  line0 ← load_cache_line cache (reg_val0 % cache_line_count cache)
  line1 ← load_cache_line cache (reg_val1 % cache_line_count cache)
  mixed ← execute_superscalar_neon (some cache.reciprocal_cache) (cache.programs p) vr
  let vr' = λ (q : ℕ). veorq_u64 (mixed q) (vcombine (line0 q) (line1 q))
  let address = (cache.programs p).address_register
  pair_rounds cache left (p + 1) vr' (vr' address).lane0 (vr' address).lane1

unfoldable pub generate_pair : Cache → ℕ → ℕ → Option Vectors
unfolding pair_rounds
generate_pair cache item0 item1 =
    pair_rounds cache cache_accesses 0
      (λ q. vcombine (dataset_seed_registers item0 q) (dataset_seed_registers item1 q)) item0 item1
