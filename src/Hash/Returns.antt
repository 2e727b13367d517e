-- ===== src/Hash/Returns.antt =====
-- `randomx_calculate_hash` of src/vm.cpp returns: its programs are bytes, and no run faults.
use armrx_aarch64_random_x_v.Common.{
  ℕ, zero, suc, ◌+◌, ◌*◌, ◌/◌, ◌%◌, ◌<◌, refl, arith, update, update_self, update_ne, ℕ_discrete,
  List,
}
use armrx_aarch64_random_x_v.Vm.Memory.{Bytes, store_le, scratchpad_bytes}
use armrx_aarch64_random_x_v.Vm.Setup.{initialize_vm_state}
use armrx_aarch64_random_x_v.Vm.Loop.{run_interpreted}
use armrx_aarch64_random_x_v.Vm.Running.{
  Succeeds, bind-Succeeds, IsReadable, run_interpreted-Succeeds,
}
use armrx_aarch64_random_x_v.Hash.Aes.{AesBlock, AesLuts}
use armrx_aarch64_random_x_v.Hash.Fill.{
  AesState, read_state, write_block, write_state, next, generate, hash_aes_1r_x4,
}
use armrx_aarch64_random_x_v.Hash.Program.{
  Hasher, Setting, run, program_bytes, program_of, entropy_of, init_scratchpad, reset_rounding_mode,
  register_file, put_group_a, with_machine,
}
use armrx_aarch64_random_x_v.Hash.Calculate.{
  chain_programs, get_final_result, randomx_calculate_hash,
}
use armrx_aarch64_random_x_v.Hash.Pipelined.{blake2b-total}

abbrev IsBytes : Bytes → Type 0
IsBytes mem = (j : ℕ) → mem j < 256

update-IsBytes : (mem : Bytes) (a v : ℕ) → IsBytes mem → v < 256 → IsBytes (update mem a v)
update-IsBytes mem a v bytes lt j = elim (ℕ_discrete a j) [
  | yes same ↦ rw (← same, update_self mem a v) lt
  | no other ↦ rw (update_ne mem a v j other) (bytes j)
]

store_le-IsBytes : (n : ℕ) (mem : Bytes) (a v : ℕ) → IsBytes mem → IsBytes (store_le n mem a v)
unfolding store_le
store_le-IsBytes zero mem a v bytes = bytes
store_le-IsBytes (suc n) mem a v bytes =
    store_le-IsBytes n (update mem a (v % 256)) (a + 1) (v / 256)
      (update-IsBytes mem a (v % 256) bytes (omega arith))

write_block-IsBytes :
    (mem : Bytes) (a : ℕ) (b : AesBlock) → IsBytes mem → IsBytes (write_block mem a b)
unfolding write_block
write_block-IsBytes mem a b bytes = store_le-IsBytes 4 _ (a + 12) b.w3 (
    store_le-IsBytes 4 _ (a + 8) b.w2
      (store_le-IsBytes 4 _ (a + 4) b.w1 (store_le-IsBytes 4 mem a b.w0 bytes)))

write_state-IsBytes :
    (mem : Bytes) (a : ℕ) (s : AesState) → IsBytes mem → IsBytes (write_state mem a s)
unfolding write_state
write_state-IsBytes mem a s bytes = write_block-IsBytes _ (a + 48) s.s3 (
    write_block-IsBytes _ (a + 32) s.s2
      (write_block-IsBytes _ (a + 16) s.s1 (write_block-IsBytes mem a s.s0 bytes)))

generate-IsBytes :
    (luts : AesLuts) (left offset : ℕ) (s : AesState) (mem : Bytes)
    → IsBytes mem
    → IsBytes (generate luts left offset s mem)
unfolding generate
generate-IsBytes luts zero offset s mem bytes = bytes
generate-IsBytes luts (suc left) offset s mem bytes =
    generate-IsBytes luts left (offset + 64) (next luts s) (write_state mem offset (next luts s))
      (write_state-IsBytes mem offset (next luts s) bytes)

program_bytes-IsBytes : (luts : AesLuts) (s : AesState) → IsBytes (program_bytes luts s)
unfolding program_bytes
program_bytes-IsBytes luts s = generate-IsBytes luts 34 0 s (λ j. 0) (λ j. omega arith)

program_of-IsBytes : (bytes : Bytes) → IsBytes bytes → (k : ℕ) → (program_of bytes k).mod_byte < 256
unfolding program_of
program_of-IsBytes bytes small k = small (128 + 8 * k + 3)

module _ (c : Setting) (ready : IsReadable c.source) where
  run-Succeeds : (seed : AesState) (m : Hasher) → Succeeds (run c seed m)
  unfolding run
  run-Succeeds seed m =
      let bytes = program_bytes c.luts seed in
      let vm = initialize_vm_state (entropy_of bytes) m.vm in
      let program = program_of-IsBytes bytes (program_bytes-IsBytes c.luts seed) in
      bind-Succeeds (run_interpreted c.fpu c.source (program_of bytes) m.bytecode vm) _
        (run_interpreted-Succeeds c.fpu c.source (program_of bytes) m.bytecode program vm ready)
        (λ vm'. (_, refl))

  chain_programs-Succeeds :
      (left : ℕ) (seed : AesState) (m : Hasher) → Succeeds (chain_programs c left seed m)
  unfolding chain_programs
  chain_programs-Succeeds zero seed m = ((seed, m), refl)
  chain_programs-Succeeds (suc left) seed m =
      let (m', ran) = run-Succeeds seed m in
      let (digest, hashed) =
        blake2b-total (register_file m'.vm.machine) 64 (omega arith) (omega arith) in
      rw (ran, hashed) (chain_programs-Succeeds left (read_state digest 0) m')

  get_final_result-Succeeds : (m : Hasher) → Succeeds (get_final_result c m)
  unfolding get_final_result
  get_final_result-Succeeds m =
      let state = hash_aes_1r_x4 c.luts scratchpad_bytes m.vm.machine.scratchpad in
      let hashed = with_machine m (put_group_a state m.vm.machine) in
      let (output, made) =
        blake2b-total (register_file hashed.vm.machine) 32 (omega arith) (omega arith) in
      rw made ((output, hashed), refl)

  -- With a dataset of the full size or a ready cache, for every table of AES, arithmetic on doubles,
  -- input and machine: `randomx_calculate_hash` returns. Each of its eight programs completes.
  pub randomx_calculate_hash-Succeeds :
      (input : List ℕ) (m : Hasher) → Succeeds (randomx_calculate_hash c input m)
  unfolding randomx_calculate_hash
  randomx_calculate_hash-Succeeds input m =
      let (digest, hashed) = blake2b-total input 64 (omega arith) (omega arith) in
      let started = init_scratchpad c (read_state digest 0) m in
      let (chained, ran) = chain_programs-Succeeds 7 started.0 (reset_rounding_mode started.1) in
      let (last, ran') = run-Succeeds chained.0 chained.1 in
      let (result, final) = get_final_result-Succeeds last in
      rw (hashed, ran, ran', final) (_, refl)
