-- ===== src/Vm/Tests.antt =====
-- Concrete machines and programs on which the theorems about src/vm.cpp are applied, and tests.
use armrx_aarch64_random_x_v.Common.{
  ℕ, ◌+◌, ◌*◌, ◌%◌, ◌^◌, ◌<◌, ◌≡◌, refl, arith, false, none, ◌==◌, if◌then◌else◌, update,
}
use armrx_aarch64_random_x_v.Vm.Types.{
  InstructionType, Instruction, ByteCode, FloatRegister, Machine, Fpu, reg, f_at,
}
use armrx_aarch64_random_x_v.Vm.Compile.Integer.{h_cbranch, branch_imm}
use armrx_aarch64_random_x_v.Vm.Compile.Table.{compile_program}
use armrx_aarch64_random_x_v.Vm.Words.{sign_extend}
use armrx_aarch64_random_x_v.Vm.Execute.{taken}
use armrx_aarch64_random_x_v.Vm.Branch.{h_cbranch-taken_twice}
use armrx_aarch64_random_x_v.Vm.Compiled.{IsCompiled, compile_program-IsCompiled}
use armrx_aarch64_random_x_v.Vm.Halting.{Halts, execute-Halts}

abbrev zero_float : FloatRegister
zero_float = record { lo = 0; hi = 0 }

-- A stand-in for the processor's arithmetic on doubles.
abbrev pub toy_fpu : Fpu
toy_fpu = record {
  add = λ mode a b. (a + b) % 2 ^ 64;
  sub = λ mode a b. (a + b) % 2 ^ 64;
  mul = λ mode a b. a * b % 2 ^ 64;
  div = λ mode a b. a;
  sqrt = λ mode a. a;
  of_int32 = λ a. a;
}

abbrev pub blank_bytecode : ByteCode
blank_bytecode = record {
  type = InstructionType.nop;
  idst = 0;
  fdst = f_at 0;
  isrc = reg 0;
  fsrc = f_at 0;
  imm = 0;
  target = none;
  shift = 0;
  mem_mask = 0;
}

abbrev pub machine : (ℕ → ℕ) → Machine
machine r = record {
  r = r;
  f = λ i. zero_float;
  e = λ i. zero_float;
  a = λ i. zero_float;
  scratchpad = λ addr. 0;
  last_rounding_mode = 0;
  fpu_mode = 0;
}

-- CBRANCH r0 at the opcode 214, with the condition byte at bit 8.
abbrev branch_instruction : Instruction
branch_instruction = record { opcode = 214; dst = 0; src = 0; mod_byte = 0; imm32 = 0xff40 }

abbrev add_instruction : Instruction
add_instruction = record { opcode = 0; dst = 1; src = 2; mod_byte = 4; imm32 = 7 }

-- Branches at every fourth place.
abbrev pub branching : ℕ → Instruction
branching i = if i % 4 == 3 then branch_instruction else add_instruction

pub branching_byte : (k : ℕ) → (branching k).mod_byte < 256
branching_byte k = ground arith

compile_program-IsCompiled_example :
    IsCompiled 256 (compile_program branching (λ i. blank_bytecode))
compile_program-IsCompiled_example =
    compile_program-IsCompiled branching (λ i. blank_bytecode) branching_byte

execute-Halts_example :
    Halts toy_fpu
      (λ i. 0)
      (compile_program branching (λ i. blank_bytecode))
      769
      0
      (machine (λ i. i))
execute-Halts_example =
    execute-Halts toy_fpu (λ i. 0) branching (λ i. blank_bytecode) (machine (λ i. i)) branching_byte

abbrev branch_code : ByteCode
branch_code = (h_cbranch branch_instruction 3 (λ c. none) blank_bytecode).1

branch_imm_runs : branch_imm 0xff40 8 ≡ 0xff40
unfolding branch_imm sign_extend
branch_imm_runs = refl

-- From 0xc0 the low byte carries once: the condition byte is zero, zero again, and then not.
abbrev counter : ℕ → Machine
counter v = machine (update (λ i. 0) 0 v)

h_cbranch-taken_twice_example : taken branch_code (counter 0x1ff40) ≡ false
unfolding h_cbranch branch_imm sign_extend taken
h_cbranch-taken_twice_example =
    h_cbranch-taken_twice branch_instruction 3 (λ c. none) blank_bytecode (counter 0xc0)
      (counter 0x10000) (counter 0x1ff40) (omega arith) refl refl refl refl
