-- ===== src/Superscalar/Lanes.antt =====
-- The vector routine of src/superscalar.cpp against the scalar one, lane by lane.
use mathlib.Core.Option
use mathlib.Core.Path.{fun_ext}
use armrx_aarch64_random_x_v.Common.{
  ℕ, zero, suc, ◌+◌, ◌≡◌, refl, ap, arith, Option, some, List, update, inl, inr, Option-cases,
  Bool-cases, ◌==◌, add64, shl64,
}
use armrx_aarch64_random_x_v.Vm.Types.{Instruction, get_mod_shift}
use armrx_aarch64_random_x_v.Superscalar.Program.{
  SuperscalarInstructionType, of_opcode, SuperscalarProgram,
}
use armrx_aarch64_random_x_v.Superscalar.Scalar.{
  Registers, rcp_factor, scalar_op, execute_from, execute_superscalar,
}
use armrx_aarch64_random_x_v.Superscalar.Neon.{
  Vector, Vectors, shift_vector, neon_op, neon_from, execute_superscalar_neon,
}

pub data Lane : Type 0 where
  low high : Lane

-- `vgetq_lane_u64(v, 0)` and `vgetq_lane_u64(v, 1)`.
abbrev pub get_lane : Lane → Vector → ℕ
get_lane low v = v.lane0
get_lane high v = v.lane1

-- The scalar registers that one lane holds.
abbrev pub lane : Lane → Vectors → Registers
lane k vr i = get_lane k (vr i)

lane-update :
    (k : Lane) (c : ℕ) (vr : Vectors) (v : Vector) (x : ℕ)
    → get_lane k v ≡ x
    → Option.map (lane k) (some (update vr c v)) ≡ some (update (lane k vr) c x)
lane-update k c vr v x e = ap some (fun_ext pointwise)
  where
    pointwise : (j : ℕ) → lane k (update vr c v) j ≡ update (lane k vr) c x j
    pointwise j = elim (Bool-cases (c == j)) [ inl hit ↦ rw hit e | inr miss ↦ rw miss refl ]

lane-shift :
    (k : Lane) (n d : ℕ) (v : Vector)
    → add64 d (get_lane k (shift_vector n v)) ≡ add64 d (shl64 (get_lane k v) n)
unfolding shift_vector
lane-shift k zero d v = omega arith
lane-shift low (suc n) d v = ground arith
lane-shift high (suc n) d v = ground arith

module _ (reciprocals : Option (List ℕ)) where
  abbrev Agrees : Lane → SuperscalarInstructionType → Instruction → Vectors → Type 0
  Agrees k t i vr =
      Option.map (lane k) (neon_op reciprocals t i vr) ≡ scalar_op reciprocals t i (lane k vr)

  rcp-lane :
      (k : Lane) (i : Instruction) (vr : Vectors)
      → Agrees k SuperscalarInstructionType.imul_rcp i vr
  unfolding neon_op scalar_op
  rcp-lane low i vr = elim (Option-cases (rcp_factor reciprocals i.imm32)) [
    | inl missing ↦ rw missing refl
    | inr (factor, e) ↦ rw e (lane-update low i.dst vr _ _ refl)
  ]
  rcp-lane high i vr = elim (Option-cases (rcp_factor reciprocals i.imm32)) [
    | inl missing ↦ rw missing refl
    | inr (factor, e) ↦ rw e (lane-update high i.dst vr _ _ refl)
  ]

  -- Each case of the vector switch is the scalar case in each lane.
  neon_op-lane :
      (k : Lane) (t : SuperscalarInstructionType) (i : Instruction) (vr : Vectors) → Agrees k t i vr
  unfolding neon_op scalar_op
  neon_op-lane low SuperscalarInstructionType.isub_r i vr = lane-update low i.dst vr _ _ refl
  neon_op-lane low SuperscalarInstructionType.ixor_r i vr = lane-update low i.dst vr _ _ refl
  neon_op-lane low SuperscalarInstructionType.iadd_rs i vr =
      lane-update low i.dst vr _ _
        (lane-shift low (get_mod_shift i) (get_lane low (vr i.dst)) (vr i.src))
  neon_op-lane low SuperscalarInstructionType.imul_r i vr = lane-update low i.dst vr _ _ refl
  neon_op-lane low SuperscalarInstructionType.iror_c i vr = lane-update low i.dst vr _ _ refl
  neon_op-lane low SuperscalarInstructionType.iadd_c7 i vr = lane-update low i.dst vr _ _ refl
  neon_op-lane low SuperscalarInstructionType.ixor_c7 i vr = lane-update low i.dst vr _ _ refl
  neon_op-lane low SuperscalarInstructionType.iadd_c8 i vr = lane-update low i.dst vr _ _ refl
  neon_op-lane low SuperscalarInstructionType.ixor_c8 i vr = lane-update low i.dst vr _ _ refl
  neon_op-lane low SuperscalarInstructionType.iadd_c9 i vr = lane-update low i.dst vr _ _ refl
  neon_op-lane low SuperscalarInstructionType.ixor_c9 i vr = lane-update low i.dst vr _ _ refl
  neon_op-lane low SuperscalarInstructionType.imulh_r i vr = lane-update low i.dst vr _ _ refl
  neon_op-lane low SuperscalarInstructionType.ismulh_r i vr = lane-update low i.dst vr _ _ refl
  neon_op-lane low SuperscalarInstructionType.imul_rcp i vr = rcp-lane low i vr
  neon_op-lane high SuperscalarInstructionType.isub_r i vr = lane-update high i.dst vr _ _ refl
  neon_op-lane high SuperscalarInstructionType.ixor_r i vr = lane-update high i.dst vr _ _ refl
  neon_op-lane high SuperscalarInstructionType.iadd_rs i vr =
      lane-update high i.dst vr _ _
        (lane-shift high (get_mod_shift i) (get_lane high (vr i.dst)) (vr i.src))
  neon_op-lane high SuperscalarInstructionType.imul_r i vr = lane-update high i.dst vr _ _ refl
  neon_op-lane high SuperscalarInstructionType.iror_c i vr = lane-update high i.dst vr _ _ refl
  neon_op-lane high SuperscalarInstructionType.iadd_c7 i vr = lane-update high i.dst vr _ _ refl
  neon_op-lane high SuperscalarInstructionType.ixor_c7 i vr = lane-update high i.dst vr _ _ refl
  neon_op-lane high SuperscalarInstructionType.iadd_c8 i vr = lane-update high i.dst vr _ _ refl
  neon_op-lane high SuperscalarInstructionType.ixor_c8 i vr = lane-update high i.dst vr _ _ refl
  neon_op-lane high SuperscalarInstructionType.iadd_c9 i vr = lane-update high i.dst vr _ _ refl
  neon_op-lane high SuperscalarInstructionType.ixor_c9 i vr = lane-update high i.dst vr _ _ refl
  neon_op-lane high SuperscalarInstructionType.imulh_r i vr = lane-update high i.dst vr _ _ refl
  neon_op-lane high SuperscalarInstructionType.ismulh_r i vr = lane-update high i.dst vr _ _ refl
  neon_op-lane high SuperscalarInstructionType.imul_rcp i vr = rcp-lane high i vr

  neon_from-lane :
      (k : Lane) (left j : ℕ) (prog : SuperscalarProgram) (vr : Vectors)
      → Option.map (lane k) (neon_from reciprocals left j prog vr)
        ≡ execute_from reciprocals left j prog (lane k vr)
  unfolding neon_from execute_from
  neon_from-lane k zero j prog vr = refl
  neon_from-lane k (suc left) j prog vr = elim (Option-cases (of_opcode (prog.at j).opcode)) [
    | inl unknown ↦ rw unknown refl
    | inr (t, e) ↦ rw e (elim (Option-cases (neon_op reciprocals t (prog.at j) vr)) [
      | inl fails ↦ rw (← neon_op-lane k t (prog.at j) vr, fails) refl
      | inr (vr', ran) ↦
          rw (← neon_op-lane k t (prog.at j) vr, ran) (neon_from-lane k left (j + 1) prog vr')
    ])
  ]

  -- For every program: the vector routine fails if and only if the scalar routine does, and each
  -- lane of its result is the scalar result on that lane.
  pub neon-lane :
      (k : Lane) (prog : SuperscalarProgram) (vr : Vectors)
      → Option.map (lane k) (execute_superscalar_neon reciprocals prog vr)
        ≡ execute_superscalar reciprocals prog (lane k vr)
  unfolding execute_superscalar_neon execute_superscalar
  neon-lane k prog vr = neon_from-lane k prog.size 0 prog vr
