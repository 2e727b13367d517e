-- ===== src/Hash/Program.antt =====
-- `VirtualMachine::run` of src/vm.cpp in its interpreted form, and the parts of the machine that the
-- hash of an input uses.
use armrx_aarch64_random_x_v.Common.{
  ℕ, zero, suc, ◌+◌, ◌*◌, ◌/◌, ◌%◌, ◌^◌, Option, some, ◌>>=◌, List, [], ◌∷◌, ◌++◌, update,
}
use armrx_aarch64_random_x_v.Vm.Types.{Instruction, FloatRegister, Machine, Fpu}
use armrx_aarch64_random_x_v.Vm.Memory.{Bytes, load_le, scratchpad_bytes}
use armrx_aarch64_random_x_v.Vm.Compile.Table.{Code, compile_program}
use armrx_aarch64_random_x_v.Vm.Setup.{VirtualMachine, initialize_vm_state}
use armrx_aarch64_random_x_v.Vm.Loop.{DatasetSource, run_interpreted}
use armrx_aarch64_random_x_v.Hash.Aes.{AesBlock, AesLuts}
use armrx_aarch64_random_x_v.Hash.Fill.{AesState, generate, fill_aes_1r_x4}

-- The machine with the bytecode that its last program left.
pub record Hasher : Type 0 where
  pub vm : VirtualMachine
  pub bytecode : Code

-- What is fixed while hashes are made: the AES tables, the processor and the dataset or cache.
pub record Setting : Type 0 where
  pub luts : AesLuts
  pub fpu : Fpu
  pub source : DatasetSource

-- The 128 bytes of `entropy_` and the 2048 of the program.
unfoldable pub program_bytes : AesLuts → AesState → Bytes
program_bytes luts seed = generate luts 34 0 seed (λ j. 0)

unfoldable pub entropy_of : Bytes → ℕ → ℕ
entropy_of bytes i = load_le 8 bytes (8 * i)

unfoldable pub program_of : Bytes → ℕ → Instruction
program_of bytes i = record {
  opcode = bytes (128 + 8 * i);
  dst = bytes (128 + 8 * i + 1);
  src = bytes (128 + 8 * i + 2);
  mod_byte = bytes (128 + 8 * i + 3);
  imm32 = load_le 4 bytes (128 + 8 * i + 4);
}

abbrev pub after_run : Code → VirtualMachine → Hasher
after_run code vm = record { vm = vm; bytecode = code }

unfoldable pub run : Setting → AesState → Hasher → Option Hasher
run c seed m =
    let bytes = program_bytes c.luts seed in
    let vm = initialize_vm_state (entropy_of bytes) m.vm in
    do
      vm' ← run_interpreted c.fpu c.source (program_of bytes) m.bytecode vm
      some (after_run (compile_program (program_of bytes) m.bytecode) vm')

abbrev pub with_machine : Hasher → Machine → Hasher
with_machine m s = record m { vm = record m.vm { machine = s } }

-- Which memory the machine owns is not modelled.
abbrev pub set_scratchpad : Bytes → Hasher → Hasher
set_scratchpad pad m = with_machine m (record m.vm.machine { scratchpad = pad })

-- The state that the fill writes back, and the machine with the filled scratchpad.
unfoldable pub init_scratchpad : Setting → AesState → Hasher → AesState × Hasher
init_scratchpad c seed m =
    let (state, pad) = fill_aes_1r_x4 c.luts scratchpad_bytes seed in (state, set_scratchpad pad m)

unfoldable pub reset_rounding_mode : Hasher → Hasher
reset_rounding_mode m =
    with_machine m (record m.vm.machine { fpu_mode = 0; last_rounding_mode = 0 })

abbrev pub le_bytes : ℕ → ℕ → List ℕ
le_bytes zero w = []
le_bytes (suc n) w = w % 256 ∷ le_bytes n (w / 256)

-- `left` registers from `i` on.
unfoldable pub integer_bytes : ℕ → ℕ → (ℕ → ℕ) → List ℕ
integer_bytes zero i r = []
integer_bytes (suc left) i r = le_bytes 8 (r i) ++ integer_bytes left (i + 1) r

unfoldable pub float_bytes : ℕ → ℕ → (ℕ → FloatRegister) → List ℕ
float_bytes zero i r = []
float_bytes (suc left) i r =
    le_bytes 8 (r i).lo ++ (le_bytes 8 (r i).hi ++ float_bytes left (i + 1) r)

-- The 256 bytes of the `RegisterFile`.
unfoldable pub register_file : Machine → List ℕ
register_file s =
    integer_bytes 8 0 s.r ++ (float_bytes 4 0 s.f ++ (float_bytes 4 0 s.e ++ float_bytes 4 0 s.a))

abbrev pub float_of_block : AesBlock → FloatRegister
float_of_block b = record { lo = b.w0 + 2 ^ 32 * b.w1; hi = b.w2 + 2 ^ 32 * b.w3 }

-- A copy of 64 bytes to `reg_.a`.
unfoldable pub put_group_a : AesState → Machine → Machine
put_group_a s m =
    let a1 = update m.a 0 (float_of_block s.s0) in
    let a2 = update a1 1 (float_of_block s.s1) in
    let a3 = update a2 2 (float_of_block s.s2) in record m { a = update a3 3 (float_of_block s.s3) }
