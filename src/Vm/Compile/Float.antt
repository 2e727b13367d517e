-- ===== src/Vm/Compile/Float.antt =====
-- The handlers of the floating-point instructions.
use armrx_aarch64_random_x_v.Common.{◌-◌, ◌%◌, if◌then◌else◌, ltb}
use armrx_aarch64_random_x_v.Vm.Types.{InstructionType, reg, f_at, e_at, a_at}
use armrx_aarch64_random_x_v.Vm.Words.{sign_extend}
use armrx_aarch64_random_x_v.Vm.Compile.Defs.{Handler, mem_level_mask}

unfoldable pub h_fswap_r : Handler
h_fswap_r instr i usage ibc =
    let dst = instr.dst % 8 in
    (
      usage,
      record ibc {
        type = InstructionType.fswap_r;
        fdst = if ltb dst 4 then f_at dst else e_at (dst - 4);
      },
    )

unfoldable pub h_fadd_r : Handler
h_fadd_r instr i usage ibc = (
  usage,
  record ibc {
    type = InstructionType.fadd_r;
    fdst = f_at (instr.dst % 4);
    fsrc = a_at (instr.src % 4);
  },
)

unfoldable pub h_fadd_m : Handler
h_fadd_m instr i usage ibc = (
  usage,
  record ibc {
    type = InstructionType.fadd_m;
    fdst = f_at (instr.dst % 4);
    isrc = reg (instr.src % 8);
    mem_mask = mem_level_mask instr;
    imm = sign_extend instr.imm32;
  },
)

unfoldable pub h_fsub_r : Handler
h_fsub_r instr i usage ibc = (
  usage,
  record ibc {
    type = InstructionType.fsub_r;
    fdst = f_at (instr.dst % 4);
    fsrc = a_at (instr.src % 4);
  },
)

unfoldable pub h_fsub_m : Handler
h_fsub_m instr i usage ibc = (
  usage,
  record ibc {
    type = InstructionType.fsub_m;
    fdst = f_at (instr.dst % 4);
    isrc = reg (instr.src % 8);
    mem_mask = mem_level_mask instr;
    imm = sign_extend instr.imm32;
  },
)

unfoldable pub h_fscal_r : Handler
h_fscal_r instr i usage ibc =
    (usage, record ibc { type = InstructionType.fscal_r; fdst = f_at (instr.dst % 4) })

unfoldable pub h_fmul_r : Handler
h_fmul_r instr i usage ibc = (
  usage,
  record ibc {
    type = InstructionType.fmul_r;
    fdst = e_at (instr.dst % 4);
    fsrc = a_at (instr.src % 4);
  },
)

unfoldable pub h_fdiv_m : Handler
h_fdiv_m instr i usage ibc = (
  usage,
  record ibc {
    type = InstructionType.fdiv_m;
    fdst = e_at (instr.dst % 4);
    isrc = reg (instr.src % 8);
    mem_mask = mem_level_mask instr;
    imm = sign_extend instr.imm32;
  },
)

unfoldable pub h_fsqrt_r : Handler
h_fsqrt_r instr i usage ibc =
    (usage, record ibc { type = InstructionType.fsqrt_r; fdst = e_at (instr.dst % 4) })
