-- ===== src/Superscalar/Neon.antt =====
-- `execute_superscalar_neon`: the same switch on vectors of two 64-bit lanes. The intrinsics
-- `vaddq_u64`, `vsubq_u64`, `veorq_u64`, `vshlq_n_u64`, `vmovq_n_u64`, `vcombine_u64` and
-- `vgetq_lane_u64` have the meaning that the Arm C language extensions give them.
use armrx_aarch64_random_x_v.Common.{
  ℕ, zero, suc, ◌+◌, ◌%◌, bit_xor, Option, some, List, update, ◌>>=◌, add64, sub64, mul64, shl64,
  if◌then◌else◌, ◌==◌,
}
use armrx_aarch64_random_x_v.Vm.Types.{Instruction, get_mod_shift}
use armrx_aarch64_random_x_v.Vm.Words.{sign_extend, rotr, mulh, smulh}
use armrx_aarch64_random_x_v.Superscalar.Program.{
  SuperscalarInstructionType, of_opcode, SuperscalarProgram,
}
use armrx_aarch64_random_x_v.Superscalar.Scalar.{rcp_factor}

-- `uint64x2_t`.
pub record Vector : Type 0 where
  pub lane0 : ℕ
  pub lane1 : ℕ

abbrev pub lanewise : (ℕ → ℕ → ℕ) → Vector → Vector → Vector
lanewise op v w = record { lane0 = op v.lane0 w.lane0; lane1 = op v.lane1 w.lane1 }

abbrev pub vaddq_u64 : Vector → Vector → Vector
vaddq_u64 = lanewise add64

abbrev pub vsubq_u64 : Vector → Vector → Vector
vsubq_u64 = lanewise sub64

abbrev pub veorq_u64 : Vector → Vector → Vector
veorq_u64 = lanewise bit_xor

abbrev pub vshlq_n_u64 : Vector → ℕ → Vector
vshlq_n_u64 v n = record { lane0 = shl64 v.lane0 n; lane1 = shl64 v.lane1 n }

abbrev pub vmovq_n_u64 : ℕ → Vector
vmovq_n_u64 x = record { lane0 = x; lane1 = x }

abbrev pub vcombine : ℕ → ℕ → Vector
vcombine x y = record { lane0 = x; lane1 = y }

abbrev pub Vectors : Type 0
Vectors = ℕ → Vector

abbrev pub assign_vector : (Vector → Vector) → Instruction → Vectors → Vectors
assign_vector op instr vr = update vr instr.dst (op (vr instr.dst))

-- The shift has four cases, the first of which is no shift.
unfoldable pub shift_vector : ℕ → Vector → Vector
shift_vector n v = if n == 0 then v else vshlq_n_u64 v n

module _ (reciprocals : Option (List ℕ)) where
  unfoldable pub neon_op : SuperscalarInstructionType → Instruction → Vectors → Option Vectors
  unfolding shift_vector
  neon_op SuperscalarInstructionType.isub_r i vr =
      some (assign_vector (λ d. vsubq_u64 d (vr i.src)) i vr)
  neon_op SuperscalarInstructionType.ixor_r i vr =
      some (assign_vector (λ d. veorq_u64 d (vr i.src)) i vr)
  neon_op SuperscalarInstructionType.iadd_rs i vr =
      some (assign_vector (λ d. vaddq_u64 d (shift_vector (get_mod_shift i) (vr i.src))) i vr)
  neon_op SuperscalarInstructionType.imul_r i vr =
      let dst0 = mul64 (vr i.dst).lane0 (vr i.src).lane0 in
      let dst1 = mul64 (vr i.dst).lane1 (vr i.src).lane1 in
      some (assign_vector (λ d. vcombine dst0 dst1) i vr)
  neon_op SuperscalarInstructionType.iror_c i vr =
      let dst0 = rotr (vr i.dst).lane0 (i.imm32 % 64) in
      let dst1 = rotr (vr i.dst).lane1 (i.imm32 % 64) in
      some (assign_vector (λ d. vcombine dst0 dst1) i vr)
  neon_op SuperscalarInstructionType.iadd_c7 i vr =
      some (assign_vector (λ d. vaddq_u64 d (vmovq_n_u64 (sign_extend i.imm32))) i vr)
  neon_op SuperscalarInstructionType.ixor_c7 i vr =
      some (assign_vector (λ d. veorq_u64 d (vmovq_n_u64 (sign_extend i.imm32))) i vr)
  neon_op SuperscalarInstructionType.iadd_c8 i vr =
      some (assign_vector (λ d. vaddq_u64 d (vmovq_n_u64 (sign_extend i.imm32))) i vr)
  neon_op SuperscalarInstructionType.ixor_c8 i vr =
      some (assign_vector (λ d. veorq_u64 d (vmovq_n_u64 (sign_extend i.imm32))) i vr)
  neon_op SuperscalarInstructionType.iadd_c9 i vr =
      some (assign_vector (λ d. vaddq_u64 d (vmovq_n_u64 (sign_extend i.imm32))) i vr)
  neon_op SuperscalarInstructionType.ixor_c9 i vr =
      some (assign_vector (λ d. veorq_u64 d (vmovq_n_u64 (sign_extend i.imm32))) i vr)
  neon_op SuperscalarInstructionType.imulh_r i vr =
      let dst0 = mulh (vr i.dst).lane0 (vr i.src).lane0 in
      let dst1 = mulh (vr i.dst).lane1 (vr i.src).lane1 in
      some (assign_vector (λ d. vcombine dst0 dst1) i vr)
  neon_op SuperscalarInstructionType.ismulh_r i vr =
      let dst0 = smulh (vr i.dst).lane0 (vr i.src).lane0 in
      let dst1 = smulh (vr i.dst).lane1 (vr i.src).lane1 in
      some (assign_vector (λ d. vcombine dst0 dst1) i vr)
  neon_op SuperscalarInstructionType.imul_rcp i vr = do
    rcp ← rcp_factor reciprocals i.imm32
    let dst0 = mul64 (vr i.dst).lane0 rcp
    let dst1 = mul64 (vr i.dst).lane1 rcp
    some (assign_vector (λ d. vcombine dst0 dst1) i vr)

  unfoldable pub neon_from : ℕ → ℕ → SuperscalarProgram → Vectors → Option Vectors
  unfolding neon_op
  neon_from zero j prog vr = some vr
  neon_from (suc left) j prog vr = do
    op ← of_opcode (prog.at j).opcode
    vr' ← neon_op op (prog.at j) vr
    neon_from left (j + 1) prog vr'

  unfoldable pub execute_superscalar_neon : SuperscalarProgram → Vectors → Option Vectors
  unfolding neon_from
  execute_superscalar_neon prog vr = neon_from prog.size 0 prog vr
