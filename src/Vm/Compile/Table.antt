-- ===== src/Vm/Compile/Table.antt =====
-- The dispatch table `kCompileHandlers`, built from the frequencies of src/instruction_weights.hpp,
-- and the compile loop.
use armrx_aarch64_random_x_v.Common.{
  ℕ, zero, suc, ◌+◌, none, List, [], ◌∷◌, ◌++◌, replicate, get_or, update,
}
use armrx_aarch64_random_x_v.Vm.Types.{InstructionType, Instruction, ByteCode}
use armrx_aarch64_random_x_v.Vm.Compile.Defs.{Handler, Usage}
use armrx_aarch64_random_x_v.Vm.Compile.Integer.{
  h_iadd_rs, h_iadd_m, h_isub_r, h_isub_m, h_imul_r, h_imul_m, h_imulh_r, h_imulh_m, h_ismulh_r,
  h_ismulh_m, h_imul_rcp, h_ineg_r, h_ixor_r, h_ixor_m, h_iror_r, h_irol_r, h_iswap_r, h_cbranch,
  h_cfround, h_istore, h_nop,
}
use armrx_aarch64_random_x_v.Vm.Compile.Float.{
  h_fswap_r, h_fadd_r, h_fadd_m, h_fsub_r, h_fsub_m, h_fscal_r, h_fmul_r, h_fdiv_m, h_fsqrt_r,
}

-- `RANDOMX_FREQ_X`.
unfoldable pub frequency : InstructionType → ℕ
frequency InstructionType.iadd_rs = 16
frequency InstructionType.iadd_m = 7
frequency InstructionType.isub_r = 16
frequency InstructionType.isub_m = 7
frequency InstructionType.imul_r = 16
frequency InstructionType.imul_m = 4
frequency InstructionType.imulh_r = 4
frequency InstructionType.imulh_m = 1
frequency InstructionType.ismulh_r = 4
frequency InstructionType.ismulh_m = 1
frequency InstructionType.imul_rcp = 8
frequency InstructionType.ineg_r = 2
frequency InstructionType.ixor_r = 15
frequency InstructionType.ixor_m = 5
frequency InstructionType.iror_r = 8
frequency InstructionType.irol_r = 2
frequency InstructionType.iswap_r = 4
frequency InstructionType.fswap_r = 4
frequency InstructionType.fadd_r = 16
frequency InstructionType.fadd_m = 5
frequency InstructionType.fsub_r = 16
frequency InstructionType.fsub_m = 5
frequency InstructionType.fscal_r = 6
frequency InstructionType.fmul_r = 32
frequency InstructionType.fdiv_m = 4
frequency InstructionType.fsqrt_r = 6
frequency InstructionType.cbranch = 25
frequency InstructionType.cfround = 1
frequency InstructionType.istore = 16
frequency InstructionType.nop = 0

-- The handlers in the order of the table.
abbrev pub handler_order : List InstructionType
handler_order =
    InstructionType.iadd_rs ∷ InstructionType.iadd_m ∷ InstructionType.isub_r
    ∷ InstructionType.isub_m ∷ InstructionType.imul_r ∷ InstructionType.imul_m
    ∷ InstructionType.imulh_r ∷ InstructionType.imulh_m ∷ InstructionType.ismulh_r
    ∷ InstructionType.ismulh_m ∷ InstructionType.imul_rcp ∷ InstructionType.ineg_r
    ∷ InstructionType.ixor_r ∷ InstructionType.ixor_m ∷ InstructionType.iror_r
    ∷ InstructionType.irol_r ∷ InstructionType.iswap_r ∷ InstructionType.fswap_r
    ∷ InstructionType.fadd_r ∷ InstructionType.fadd_m ∷ InstructionType.fsub_r
    ∷ InstructionType.fsub_m ∷ InstructionType.fscal_r ∷ InstructionType.fmul_r
    ∷ InstructionType.fdiv_m ∷ InstructionType.fsqrt_r ∷ InstructionType.cbranch
    ∷ InstructionType.cfround ∷ InstructionType.istore ∷ InstructionType.nop ∷ []

-- `INST_HANDLE(x)` for each `x`: as many entries as its frequency.
unfoldable pub expand : List InstructionType → List InstructionType
unfolding frequency
expand [] = []
expand (t ∷ ts) = replicate (frequency t) t ++ expand ts

-- `kCompileHandlers`.
unfoldable pub compile_handlers : List InstructionType
unfolding expand
compile_handlers = expand handler_order

-- The handler that an entry of the table points to.
unfoldable pub handler : InstructionType → Handler
handler InstructionType.iadd_rs = h_iadd_rs
handler InstructionType.iadd_m = h_iadd_m
handler InstructionType.isub_r = h_isub_r
handler InstructionType.isub_m = h_isub_m
handler InstructionType.imul_r = h_imul_r
handler InstructionType.imul_m = h_imul_m
handler InstructionType.imulh_r = h_imulh_r
handler InstructionType.imulh_m = h_imulh_m
handler InstructionType.ismulh_r = h_ismulh_r
handler InstructionType.ismulh_m = h_ismulh_m
handler InstructionType.imul_rcp = h_imul_rcp
handler InstructionType.ineg_r = h_ineg_r
handler InstructionType.ixor_r = h_ixor_r
handler InstructionType.ixor_m = h_ixor_m
handler InstructionType.iror_r = h_iror_r
handler InstructionType.irol_r = h_irol_r
handler InstructionType.iswap_r = h_iswap_r
handler InstructionType.fswap_r = h_fswap_r
handler InstructionType.fadd_r = h_fadd_r
handler InstructionType.fadd_m = h_fadd_m
handler InstructionType.fsub_r = h_fsub_r
handler InstructionType.fsub_m = h_fsub_m
handler InstructionType.fscal_r = h_fscal_r
handler InstructionType.fmul_r = h_fmul_r
handler InstructionType.fdiv_m = h_fdiv_m
handler InstructionType.fsqrt_r = h_fsqrt_r
handler InstructionType.cbranch = h_cbranch
handler InstructionType.cfround = h_cfround
handler InstructionType.istore = h_istore
handler InstructionType.nop = h_nop

-- `compile_instruction`; an opcode is a byte, and the table has 256 entries.
unfoldable pub compile_instruction : Handler
unfolding compile_handlers handler
compile_instruction instr i usage ibc =
    handler (get_or compile_handlers instr.opcode InstructionType.nop) instr i usage ibc

abbrev pub Code : Type 0
Code = ℕ → ByteCode

-- The compile loop: `left` instructions from `i` on, over the code of the program before.
unfoldable pub compile_from : ℕ → ℕ → (ℕ → Instruction) → Usage → Code → Usage × Code
compile_from zero i program usage code = (usage, code)
compile_from (suc left) i program usage code =
    let (usage', ibc) = compile_instruction (program i) i usage (code i) in
    compile_from left (i + 1) program usage' (update code i ibc)

unfoldable pub compile_program : (ℕ → Instruction) → Code → Code
unfolding compile_from
compile_program program code = (compile_from 256 0 program (λ _. none) code).1
