-- ===== src/Hash/Calculate.antt =====
-- `randomx_calculate_hash` and `randomx_calculate_hash_pipelined` of src/vm.cpp in their default
-- build. The buffers of the two scratchpads are distinct. A result `none` is a fault of `run`.
use armrx_aarch64_random_x_v.Common.{ℕ, zero, suc, Option, none, some, ◌>>=◌, List, [], ◌∷◌}
use armrx_aarch64_random_x_v.Vm.Memory.{Bytes, scratchpad_bytes}
use armrx_aarch64_random_x_v.Hash.Fill.{AesState, read_state, fill_aes_1r_x4, hash_aes_1r_x4}
use armrx_aarch64_random_x_v.Hash.Blake.{blake2b}
use armrx_aarch64_random_x_v.Hash.Program.{
  Hasher, Setting, run, with_machine, set_scratchpad, init_scratchpad, reset_rounding_mode,
  register_file, put_group_a,
}

-- `fesetenv` with the environment that `fegetenv` saved.
abbrev pub restore : ℕ → Hasher → Hasher
restore mode m = with_machine m (record m.vm.machine { fpu_mode = mode })

-- The loop of `randomx_calculate_hash`, with `left` programs to go.
unfoldable pub chain_programs : Setting → ℕ → AesState → Hasher → Option (AesState × Hasher)
chain_programs c zero temp_hash m = some (temp_hash, m)
chain_programs c (suc left) temp_hash m = do
  m' ← run c temp_hash m
  digest ← blake2b (register_file m'.vm.machine) 64
  chain_programs c left (read_state digest 0) m'

unfoldable pub get_final_result : Setting → Hasher → Option (Bytes × Hasher)
get_final_result c m =
    let state = hash_aes_1r_x4 c.luts scratchpad_bytes m.vm.machine.scratchpad in
    let hashed = with_machine m (put_group_a state m.vm.machine) in
    do output ← blake2b (register_file hashed.vm.machine) 32; some (output, hashed)

unfoldable pub randomx_calculate_hash : Setting → List ℕ → Hasher → Option (Bytes × Hasher)
randomx_calculate_hash c input m = do
  digest ← blake2b input 64
  let started = init_scratchpad c (read_state digest 0) m
  chained ← chain_programs c 7 started.0 (reset_rounding_mode started.1)
  last ← run c chained.0 chained.1
  result ← get_final_result c last
  some (result.0, restore m.vm.machine.fpu_mode result.1)

-- The loop of `randomx_calculate_hash_pipelined`, with `left` programs to go.
unfoldable pub chain_programs_pipelined :
    Setting → ℕ → AesState → Hasher → Option (AesState × Hasher)
chain_programs_pipelined c zero temp_hash m = some (temp_hash, m)
chain_programs_pipelined c (suc left) temp_hash m = do
  m' ← run c temp_hash m
  digest ← blake2b (register_file m'.vm.machine) 64
  chain_programs_pipelined c left (read_state digest 0) m'

-- `run_seed` in place of the fill, if there is one.
unfoldable pub start_pipelined : Setting → Option AesState → AesState → Hasher → AesState × Hasher
start_pipelined c none temp_hash m = init_scratchpad c temp_hash m
start_pipelined c (some run_seed) temp_hash m = (run_seed, m)

-- The output, `next_seed_out` and the machine with the next scratchpad.
unfoldable pub randomx_calculate_hash_pipelined :
    Setting → Option AesState → List ℕ → List ℕ → Hasher → Option (Bytes × AesState × Hasher)
randomx_calculate_hash_pipelined c run_seed input next_input m = do
  digest ← blake2b input 64
  let started = start_pipelined c run_seed (read_state digest 0) m
  chained ← chain_programs_pipelined c 7 started.0 (reset_rounding_mode started.1)
  last ← run c chained.0 chained.1
  next_digest ← blake2b next_input 64
  let hash_state = hash_aes_1r_x4 c.luts scratchpad_bytes last.vm.machine.scratchpad
  let next = fill_aes_1r_x4 c.luts scratchpad_bytes (read_state next_digest 0)
  output ← blake2b (register_file (put_group_a hash_state last.vm.machine)) 32
  some (output, next.0, restore m.vm.machine.fpu_mode (set_scratchpad next.1 last))

-- The pipelined calls for the inputs in turn, each with the seed that the one before left.
unfoldable pub hash_stream :
    Setting → Option AesState → List ℕ → List (List ℕ) → Hasher → Option (List Bytes)
hash_stream c run_seed input [] m = some []
hash_stream c run_seed input (next ∷ rest) m = do
  result ← randomx_calculate_hash_pipelined c run_seed input next m
  outputs ← hash_stream c (some result.1) next rest result.2
  some (result.0 ∷ outputs)

-- The plain calls for the same inputs: all but the last of `input` and `rest`.
unfoldable pub plain_hashes : Setting → List ℕ → List (List ℕ) → Hasher → Option (List Bytes)
plain_hashes c input [] m = some []
plain_hashes c input (next ∷ rest) m = do
  result ← randomx_calculate_hash c input m
  outputs ← plain_hashes c next rest result.1
  some (result.0 ∷ outputs)
