-- ===== src/Vm/Compile/Integer.antt =====
-- The handlers of the integer instructions, of CBRANCH, CFROUND, ISTORE and NOP.
use armrx_aarch64_random_x_v.Common.{
  ℕ, ◌+◌, ◌-◌, ◌*◌, ◌%◌, ◌^◌, bit_and, bit_or, some, if◌then◌else◌, ◌==◌, ltb, u32, not64, shl64,
}
use armrx_aarch64_random_x_v.Superscalar.Reciprocal.{reciprocal}
use armrx_aarch64_random_x_v.Vm.Types.{
  Instruction, InstructionType, reg, own_imm, get_mod_shift, get_mod_cond,
}
use armrx_aarch64_random_x_v.Vm.Words.{sign_extend, is_zero_or_power_of_2}
use armrx_aarch64_random_x_v.Vm.Memory.{scratchpad_l3_mask}
use armrx_aarch64_random_x_v.Vm.Compile.Defs.{
  Handler, compile_mem_op, compile_alu_reg, mem_level_mask, touch,
}

unfoldable pub h_iadd_rs : Handler
h_iadd_rs instr i usage ibc =
    let dst = instr.dst % 8 in
    let src = instr.src % 8 in
    (
      touch usage dst i,
      record ibc {
        type = InstructionType.iadd_rs;
        idst = dst;
        isrc = reg src;
        shift = get_mod_shift instr;
        imm = if dst == 5 then sign_extend instr.imm32 else 0;
      },
    )

unfoldable pub h_iadd_m : Handler
unfolding compile_mem_op
h_iadd_m instr i usage ibc =
    let dst = instr.dst % 8 in
    (
      touch usage dst i,
      compile_mem_op ibc instr dst (instr.src % 8) InstructionType.iadd_m (sign_extend instr.imm32),
    )

unfoldable pub h_isub_r : Handler
unfolding compile_alu_reg
h_isub_r instr i usage ibc =
    let dst = instr.dst % 8 in
    (
      touch usage dst i,
      compile_alu_reg ibc dst (instr.src % 8) InstructionType.isub_r (sign_extend instr.imm32),
    )

unfoldable pub h_isub_m : Handler
unfolding compile_mem_op
h_isub_m instr i usage ibc =
    let dst = instr.dst % 8 in
    (
      touch usage dst i,
      compile_mem_op ibc instr dst (instr.src % 8) InstructionType.isub_m (sign_extend instr.imm32),
    )

unfoldable pub h_imul_r : Handler
unfolding compile_alu_reg
h_imul_r instr i usage ibc =
    let dst = instr.dst % 8 in
    (
      touch usage dst i,
      compile_alu_reg ibc dst (instr.src % 8) InstructionType.imul_r (sign_extend instr.imm32),
    )

unfoldable pub h_imul_m : Handler
unfolding compile_mem_op
h_imul_m instr i usage ibc =
    let dst = instr.dst % 8 in
    (
      touch usage dst i,
      compile_mem_op ibc instr dst (instr.src % 8) InstructionType.imul_m (sign_extend instr.imm32),
    )

unfoldable pub h_imulh_r : Handler
h_imulh_r instr i usage ibc =
    let dst = instr.dst % 8 in
    (
      touch usage dst i,
      record ibc { type = InstructionType.imulh_r; idst = dst; isrc = reg (instr.src % 8) },
    )

unfoldable pub h_imulh_m : Handler
unfolding compile_mem_op
h_imulh_m instr i usage ibc =
    let dst = instr.dst % 8 in
    (
      touch usage dst i,
      compile_mem_op ibc instr dst (instr.src % 8) InstructionType.imulh_m
          (sign_extend instr.imm32),
    )

unfoldable pub h_ismulh_r : Handler
h_ismulh_r instr i usage ibc =
    let dst = instr.dst % 8 in
    (
      touch usage dst i,
      record ibc { type = InstructionType.ismulh_r; idst = dst; isrc = reg (instr.src % 8) },
    )

unfoldable pub h_ismulh_m : Handler
unfolding compile_mem_op
h_ismulh_m instr i usage ibc =
    let dst = instr.dst % 8 in
    (
      touch usage dst i,
      compile_mem_op ibc instr dst (instr.src % 8) InstructionType.ismulh_m
          (sign_extend instr.imm32),
    )

-- A reciprocal multiplication becomes IMUL_R by a constant; a divisor 0 or 2 ^ k is a no-op.
unfoldable pub h_imul_rcp : Handler
h_imul_rcp instr i usage ibc =
    let divisor = instr.imm32 in
    let dst = instr.dst % 8 in
    if is_zero_or_power_of_2 divisor then (usage, record ibc { type = InstructionType.nop }) else (
      touch usage dst i,
      record ibc {
        type = InstructionType.imul_r;
        idst = dst;
        imm = reciprocal divisor;
        isrc = own_imm;
      },
    )

unfoldable pub h_ineg_r : Handler
h_ineg_r instr i usage ibc =
    let dst = instr.dst % 8 in
    (touch usage dst i, record ibc { type = InstructionType.ineg_r; idst = dst })

unfoldable pub h_ixor_r : Handler
unfolding compile_alu_reg
h_ixor_r instr i usage ibc =
    let dst = instr.dst % 8 in
    (
      touch usage dst i,
      compile_alu_reg ibc dst (instr.src % 8) InstructionType.ixor_r (sign_extend instr.imm32),
    )

unfoldable pub h_ixor_m : Handler
unfolding compile_mem_op
h_ixor_m instr i usage ibc =
    let dst = instr.dst % 8 in
    (
      touch usage dst i,
      compile_mem_op ibc instr dst (instr.src % 8) InstructionType.ixor_m (sign_extend instr.imm32),
    )

unfoldable pub h_iror_r : Handler
unfolding compile_alu_reg
h_iror_r instr i usage ibc =
    let dst = instr.dst % 8 in
    (touch usage dst i, compile_alu_reg ibc dst (instr.src % 8) InstructionType.iror_r instr.imm32)

unfoldable pub h_irol_r : Handler
unfolding compile_alu_reg
h_irol_r instr i usage ibc =
    let dst = instr.dst % 8 in
    (touch usage dst i, compile_alu_reg ibc dst (instr.src % 8) InstructionType.irol_r instr.imm32)

unfoldable pub h_iswap_r : Handler
h_iswap_r instr i usage ibc =
    let dst = instr.dst % 8 in
    let src = instr.src % 8 in
    if src == dst then (usage, record ibc { type = InstructionType.nop }) else (
      touch (touch usage dst i) src i,
      record ibc { idst = dst; isrc = reg src; type = InstructionType.iswap_r },
    )

-- `signExtend2sCompl(imm32) | (1 << shift)`, with the bit below cleared.
unfoldable pub branch_imm : ℕ → ℕ → ℕ
branch_imm imm32 shift =
    bit_and (bit_or (sign_extend imm32) (shl64 1 shift)) (not64 (shl64 1 (shift - 1)))

abbrev pub branch_shift : Instruction → ℕ
branch_shift instr = get_mod_cond instr + 8

-- After a branch every register counts as written by it.
unfoldable pub h_cbranch : Handler
h_cbranch instr i usage ibc =
    let creg = instr.dst % 8 in
    let shift = branch_shift instr in
    (
      (λ reg. if ltb reg 8 then some i else usage reg),
      record ibc {
        type = InstructionType.cbranch;
        idst = creg;
        target = usage creg;
        imm = branch_imm instr.imm32 shift;
        mem_mask = u32 (255 * 2 ^ shift);
      },
    )

unfoldable pub h_cfround : Handler
h_cfround instr i usage ibc = (
  usage,
  record ibc {
    isrc = reg (instr.src % 8);
    type = InstructionType.cfround;
    imm = bit_and instr.imm32 63;
  },
)

unfoldable pub h_istore : Handler
h_istore instr i usage ibc = (
  usage,
  record ibc {
    type = InstructionType.istore;
    idst = instr.dst % 8;
    isrc = reg (instr.src % 8);
    imm = sign_extend instr.imm32;
    mem_mask = if ltb (get_mod_cond instr) 14 then mem_level_mask instr else scratchpad_l3_mask;
  },
)

unfoldable pub h_nop : Handler
h_nop instr i usage ibc = (usage, record ibc { type = InstructionType.nop })
