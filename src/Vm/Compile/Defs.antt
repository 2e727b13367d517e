-- ===== src/Vm/Compile/Defs.antt =====
-- The state that the handlers share, and their two helpers `compile_mem_op` and `compile_alu_reg`.
use armrx_aarch64_random_x_v.Common.{ℕ, Option, some, if◌then◌else◌, ◌==◌, update}
use armrx_aarch64_random_x_v.Vm.Types.{
  InstructionType, Instruction, ByteCode, reg, own_imm, zero_val, get_mod_mem,
}
use armrx_aarch64_random_x_v.Vm.Memory.{scratchpad_l1_mask, scratchpad_l2_mask, scratchpad_l3_mask}

-- `register_usage_`: the last instruction that wrote each register, `none` for -1.
abbrev pub Usage : Type 0
Usage = ℕ → Option ℕ

abbrev pub Compiled : Type 0
Compiled = Usage × ByteCode

abbrev pub Handler : Type 0
Handler = Instruction → ℕ → Usage → ByteCode → Compiled

-- `register_usage_[dst] = i`.
abbrev pub touch : Usage → ℕ → ℕ → Usage
touch usage dst i = update usage dst (some i)

-- The mask that the `mod.mem` bits choose.
abbrev pub mem_level_mask : Instruction → ℕ
mem_level_mask instr = if get_mod_mem instr == 0 then scratchpad_l2_mask else scratchpad_l1_mask

unfoldable pub compile_mem_op : ByteCode → Instruction → ℕ → ℕ → InstructionType → ℕ → ByteCode
compile_mem_op ibc instr dst src type imm = record ibc {
  type = type;
  idst = dst;
  imm = imm;
  isrc = if src == dst then zero_val else reg src;
  mem_mask = if src == dst then scratchpad_l3_mask else mem_level_mask instr;
}

-- With one register on both sides the source is the immediate; otherwise `imm` stays as it was.
unfoldable pub compile_alu_reg : ByteCode → ℕ → ℕ → InstructionType → ℕ → ByteCode
compile_alu_reg ibc dst src type imm = record ibc {
  type = type;
  idst = dst;
  imm = if src == dst then imm else ibc.imm;
  isrc = if src == dst then own_imm else reg src;
}
