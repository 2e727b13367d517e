-- ===== src/Superscalar/Scalar.antt =====
-- `execute_superscalar`. A result `none` is the exception of an unknown opcode, or an index outside
-- the table of reciprocals, which is undefined behaviour in C++. Registers are indexed 0 to 7.
use armrx_aarch64_random_x_v.Common.{
  ℕ, zero, suc, ◌+◌, ◌%◌, bit_xor, Option, none, some, List, get_elem?, update, ◌>>=◌, add64, sub64,
  mul64, shl64,
}
use armrx_aarch64_random_x_v.Vm.Types.{Instruction, get_mod_shift}
use armrx_aarch64_random_x_v.Vm.Words.{sign_extend, rotr, mulh, smulh}
use armrx_aarch64_random_x_v.Superscalar.Reciprocal.{reciprocal}
use armrx_aarch64_random_x_v.Superscalar.Program.{
  SuperscalarInstructionType, of_opcode, SuperscalarProgram,
}

abbrev pub Registers : Type 0
Registers = ℕ → ℕ

-- The factor of IMUL_RCP: an entry of the table if there is one, else computed.
unfoldable pub rcp_factor : Option (List ℕ) → ℕ → Option ℕ
rcp_factor none imm = some (reciprocal imm)
rcp_factor (some table) imm = get_elem? table imm

-- `r[instr.dst] = op(r[instr.dst])`.
abbrev pub assign : (ℕ → ℕ) → Instruction → Registers → Registers
assign op instr r = update r instr.dst (op (r instr.dst))

module _ (reciprocals : Option (List ℕ)) where
  -- One case of the switch. `std::rotr` takes its count modulo the width.
  unfoldable pub scalar_op : SuperscalarInstructionType → Instruction → Registers → Option Registers
  scalar_op SuperscalarInstructionType.isub_r i r = some (assign (λ d. sub64 d (r i.src)) i r)
  scalar_op SuperscalarInstructionType.ixor_r i r = some (assign (λ d. bit_xor d (r i.src)) i r)
  scalar_op SuperscalarInstructionType.iadd_rs i r =
      some (assign (λ d. add64 d (shl64 (r i.src) (get_mod_shift i))) i r)
  scalar_op SuperscalarInstructionType.imul_r i r = some (assign (λ d. mul64 d (r i.src)) i r)
  scalar_op SuperscalarInstructionType.iror_c i r = some (assign (λ d. rotr d (i.imm32 % 64)) i r)
  scalar_op SuperscalarInstructionType.iadd_c7 i r =
      some (assign (λ d. add64 d (sign_extend i.imm32)) i r)
  scalar_op SuperscalarInstructionType.ixor_c7 i r =
      some (assign (λ d. bit_xor d (sign_extend i.imm32)) i r)
  scalar_op SuperscalarInstructionType.iadd_c8 i r =
      some (assign (λ d. add64 d (sign_extend i.imm32)) i r)
  scalar_op SuperscalarInstructionType.ixor_c8 i r =
      some (assign (λ d. bit_xor d (sign_extend i.imm32)) i r)
  scalar_op SuperscalarInstructionType.iadd_c9 i r =
      some (assign (λ d. add64 d (sign_extend i.imm32)) i r)
  scalar_op SuperscalarInstructionType.ixor_c9 i r =
      some (assign (λ d. bit_xor d (sign_extend i.imm32)) i r)
  scalar_op SuperscalarInstructionType.imulh_r i r = some (assign (λ d. mulh d (r i.src)) i r)
  scalar_op SuperscalarInstructionType.ismulh_r i r = some (assign (λ d. smulh d (r i.src)) i r)
  scalar_op SuperscalarInstructionType.imul_rcp i r = do
    factor ← rcp_factor reciprocals i.imm32
    some (assign (λ d. mul64 d factor) i r)

  -- The loop from instruction `j` on, with `left` instructions to go.
  unfoldable pub execute_from : ℕ → ℕ → SuperscalarProgram → Registers → Option Registers
  unfolding scalar_op
  execute_from zero j prog r = some r
  execute_from (suc left) j prog r = do
    op ← of_opcode (prog.at j).opcode
    r' ← scalar_op op (prog.at j) r
    execute_from left (j + 1) prog r'

  unfoldable pub execute_superscalar : SuperscalarProgram → Registers → Option Registers
  unfolding execute_from
  execute_superscalar prog r = execute_from prog.size 0 prog r
