-- ===== src/Vm/Types.antt =====
-- The data of the virtual machine: instructions (include/armrx/instruction.hpp), bytecode and
-- register file (include/armrx/vm.hpp).
use armrx_aarch64_random_x_v.Common.{ℕ, ◌/◌, ◌%◌, Option}

-- `InstructionType`. In the dispatch table a constructor also stands for its handler `h_X`.
pub data InstructionType : Type 0 where
  iadd_rs iadd_m isub_r isub_m imul_r imul_m imulh_r imulh_m ismulh_r ismulh_m : InstructionType
  imul_rcp ineg_r ixor_r ixor_m iror_r irol_r iswap_r fswap_r fadd_r fadd_m : InstructionType
  fsub_r fsub_m fscal_r fmul_r fdiv_m fsqrt_r cbranch cfround istore nop : InstructionType

pub record Instruction : Type 0 where
  pub opcode : ℕ
  pub dst : ℕ
  pub src : ℕ
  pub mod_byte : ℕ
  pub imm32 : ℕ

abbrev pub get_mod_mem : Instruction → ℕ
get_mod_mem instr = instr.mod_byte % 4

abbrev pub get_mod_shift : Instruction → ℕ
get_mod_shift instr = instr.mod_byte / 4 % 4

abbrev pub get_mod_cond : Instruction → ℕ
get_mod_cond instr = instr.mod_byte / 16

-- What the pointer `isrc` points to: `reg_.r[n]`, the instruction's own `imm`, or the zero word.
pub data Source : Type 0 where
  reg : ℕ → Source
  own_imm zero_val : Source

-- What `fdst` and `fsrc` point to: `reg_.f[n]`, `reg_.e[n]`, `reg_.a[n]`.
pub data FloatSlot : Type 0 where
  f_at e_at a_at : ℕ → FloatSlot

-- `InstructionByteCode`. The members of its unions are separate fields: each type of instruction
-- reads the members that its handler wrote. `target` is an instruction, or `none` for -1.
pub record ByteCode : Type 0 where
  pub type : InstructionType
  pub idst : ℕ
  pub fdst : FloatSlot
  pub isrc : Source
  pub fsrc : FloatSlot
  pub imm : ℕ
  pub target : Option ℕ
  pub shift : ℕ
  pub mem_mask : ℕ

-- Two doubles, as bit patterns.
pub record FloatRegister : Type 0 where
  pub lo : ℕ
  pub hi : ℕ

-- The register file, the scratchpad and the floating-point environment.
pub record Machine : Type 0 where
  pub r : ℕ → ℕ
  pub f : ℕ → FloatRegister
  pub e : ℕ → FloatRegister
  pub a : ℕ → FloatRegister
  pub scratchpad : ℕ → ℕ
  pub last_rounding_mode : ℕ
  -- The thread's rounding mode, by the number that CFROUND gives it.
  pub fpu_mode : ℕ

-- The processor's arithmetic on doubles, given by their bit patterns, in a rounding mode.
pub record Fpu : Type 0 where
  pub add : ℕ → ℕ → ℕ → ℕ
  pub sub : ℕ → ℕ → ℕ → ℕ
  pub mul : ℕ → ℕ → ℕ → ℕ
  pub div : ℕ → ℕ → ℕ → ℕ
  pub sqrt : ℕ → ℕ → ℕ
  -- The double of an `int32_t`, given by its bit pattern.
  pub of_int32 : ℕ → ℕ
