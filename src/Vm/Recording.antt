-- ===== src/Vm/Recording.antt =====
-- What every handler of src/vm.cpp guarantees of the bytecode that it writes and of
-- `register_usage_`.
use armrx_aarch64_random_x_v.Common.{
  ℕ, ◌%◌, ◌≤◌, ◌<◌, ◌≡◌, refl, ◌⊎◌, inl, inr, arith, Bool, true, false, ◌||◌, ◌==◌, some,
  Bool-cases, dec_lt, ltb, if◌then◌else◌,
}
use armrx_aarch64_random_x_v.Vm.Types.{Instruction, InstructionType, ByteCode, get_mod_cond}
use armrx_aarch64_random_x_v.Vm.Words.{is_zero_or_power_of_2}
use armrx_aarch64_random_x_v.Vm.Memory.{scratchpad_l3_mask}
use armrx_aarch64_random_x_v.Vm.Compile.Defs.{Usage, Compiled, touch, mem_level_mask}
use armrx_aarch64_random_x_v.Vm.Compile.Integer.{
  h_iadd_rs, h_iadd_m, h_isub_r, h_isub_m, h_imul_r, h_imul_m, h_imulh_r, h_imulh_m, h_ismulh_r,
  h_ismulh_m, h_imul_rcp, h_ineg_r, h_ixor_r, h_ixor_m, h_iror_r, h_irol_r, h_iswap_r, h_cbranch,
  h_cfround, h_istore, h_nop,
}
use armrx_aarch64_random_x_v.Vm.Compile.Float.{
  h_fswap_r, h_fadd_r, h_fadd_m, h_fsub_r, h_fsub_m, h_fscal_r, h_fmul_r, h_fdiv_m, h_fsqrt_r,
}
use armrx_aarch64_random_x_v.Vm.Compile.Table.{handler}
use armrx_aarch64_random_x_v.Vm.Branch.{IsBranch, h_cbranch-IsBranch}
use armrx_aarch64_random_x_v.Vm.Effects.{writes, IsSafe}

abbrev pub is_branch : InstructionType → Bool
is_branch InstructionType.cbranch = true
is_branch _ = false

-- A write that the handler of instruction `i` does not record as its own does not happen.
abbrev Tracks : ℕ → Usage → Usage → (ℕ → Bool) → Type 0
Tracks i usage usage' w = (c : ℕ) → (usage' c ≡ some i) ⊎ ((usage' c ≡ usage c) × (w c ≡ false))

pub record BranchFacts (i : ℕ) (usage usage' : Usage) (ibc : ByteCode) : Type 0 where
  pub register : ibc.idst < 8
  pub target : ibc.target ≡ usage ibc.idst
  pub condition : IsBranch ibc
  pub all_touched : (c : ℕ) → c < 8 → usage' c ≡ some i

pub record Recorded (i : ℕ) (usage : Usage) (result : Compiled) : Type 0 where
  pub safe : IsSafe result.1.type result.1
  pub tracks : Tracks i usage result.0 (writes result.1.type result.1)
  pub branches : is_branch result.1.type ≡ true → BranchFacts i usage result.0 result.1

touch-Tracks : (i dst : ℕ) (usage : Usage) → Tracks i usage (touch usage dst i) (λ c. dst == c)
touch-Tracks i dst usage c = elim (Bool-cases (dst == c)) [
  | inl hit ↦ inl (rw hit)
  | inr miss ↦ inr (rw miss, miss)
]

swap-Tracks :
    (i dst src : ℕ) (usage : Usage)
    → Tracks i usage (touch (touch usage dst i) src i) (λ c. (dst == c) || (src == c))
swap-Tracks i dst src usage c = elim (Bool-cases (src == c)) [
  | inl second ↦ inl (rw second)
  | inr miss ↦ elim (Bool-cases (dst == c)) [
    | inl first ↦ inl (rw (miss, first))
    | inr none ↦ inr (rw (miss, none), rw (none, miss))
  ]
]

mem_level_mask-le : (instr : Instruction) → mem_level_mask instr ≤ scratchpad_l3_mask
mem_level_mask-le instr = ground arith

-- Handlers of instructions that are no branch.
writing :
    (i dst : ℕ) (usage : Usage) (ibc : ByteCode)
    → IsSafe ibc.type ibc
    → is_branch ibc.type ≡ false
    → ((c : ℕ) → (writes ibc.type ibc c) ≡ (dst == c))
    → Recorded i usage (touch usage dst i, ibc)
writing i dst usage ibc safe plain exact = record {
  safe = safe;
  tracks = λ c. rw (exact c) (touch-Tracks i dst usage c);
  branches = λ h. cc;
}

silent :
    (i : ℕ) (usage : Usage) (ibc : ByteCode)
    → IsSafe ibc.type ibc
    → is_branch ibc.type ≡ false
    → ((c : ℕ) → writes ibc.type ibc c ≡ false)
    → Recorded i usage (usage, ibc)
silent i usage ibc safe plain none = record {
  safe = safe;
  tracks = λ c. inr (refl, none c);
  branches = λ h. cc;
}

rcp-Recorded :
    (instr : Instruction) (i : ℕ) (usage : Usage) (ibc : ByteCode)
    → Recorded i usage (h_imul_rcp instr i usage ibc)
unfolding h_imul_rcp
rcp-Recorded instr i usage ibc = elim (Bool-cases (is_zero_or_power_of_2 instr.imm32)) [
  | inl skip ↦ rw skip (silent i usage _ tt refl (λ c. refl))
  | inr real ↦ rw real (writing i (instr.dst % 8) usage _ tt refl (λ c. refl))
]

swap-Recorded :
    (instr : Instruction) (i : ℕ) (usage : Usage) (ibc : ByteCode)
    → Recorded i usage (h_iswap_r instr i usage ibc)
unfolding h_iswap_r
swap-Recorded instr i usage ibc = elim (Bool-cases (instr.src % 8 == instr.dst % 8)) [
  | inl same ↦ rw same (silent i usage _ tt refl (λ c. refl))
  | inr differ ↦ rw differ (record {
    safe = (instr.src % 8, refl);
    tracks = λ c. swap-Tracks i (instr.dst % 8) (instr.src % 8) usage c;
    branches = λ h. cc;
  })
]

cbranch-Recorded :
    (instr : Instruction) (i : ℕ) (usage : Usage) (ibc : ByteCode)
    → instr.mod_byte < 256
    → Recorded i usage (h_cbranch instr i usage ibc)
unfolding h_cbranch
cbranch-Recorded instr i usage ibc byte = record {
  safe = tt;
  tracks = λ c. elim (dec_lt c 8) [
    | yes low ↦ inl (ground arith)
    | no high ↦ inr (ground arith, ground arith)
  ];
  branches = λ h. record {
    register = omega arith;
    target = refl;
    condition = h_cbranch-IsBranch instr i usage ibc byte;
    all_touched = λ c lt. ground arith;
  };
}

mem_mask-le :
    (instr : Instruction) (test : Bool)
    → (if test then scratchpad_l3_mask else mem_level_mask instr) ≤ scratchpad_l3_mask
mem_mask-le instr test = ground arith

store_mask-le :
    (instr : Instruction) (test : Bool)
    → (if test then mem_level_mask instr else scratchpad_l3_mask) ≤ scratchpad_l3_mask
store_mask-le instr test = ground arith

-- Every handler records what it writes, keeps its accesses in bounds and leaves a branch that
-- looks back to the last write of its register.
pub handler-Recorded :
    (t : InstructionType) (instr : Instruction) (i : ℕ) (usage : Usage) (ibc : ByteCode)
    → instr.mod_byte < 256
    → Recorded i usage (handler t instr i usage ibc)
unfolding handler h_iadd_rs h_iadd_m h_isub_r h_isub_m h_imul_r h_imul_m h_imulh_r h_imulh_m
    h_ismulh_r h_ismulh_m h_ineg_r h_ixor_r h_ixor_m h_iror_r h_irol_r h_cfround h_istore h_nop
    h_fswap_r h_fadd_r h_fadd_m h_fsub_r h_fsub_m h_fscal_r h_fmul_r h_fdiv_m h_fsqrt_r
handler-Recorded InstructionType.iadd_rs instr i usage ibc byte =
    writing i (instr.dst % 8) usage _ tt refl (λ c. refl)
handler-Recorded InstructionType.iadd_m instr i usage ibc byte =
    writing i (instr.dst % 8) usage _ (mem_mask-le instr (instr.src % 8 == instr.dst % 8)) refl
      (λ c. refl)
handler-Recorded InstructionType.isub_r instr i usage ibc byte =
    writing i (instr.dst % 8) usage _ tt refl (λ c. refl)
handler-Recorded InstructionType.isub_m instr i usage ibc byte =
    writing i (instr.dst % 8) usage _ (mem_mask-le instr (instr.src % 8 == instr.dst % 8)) refl
      (λ c. refl)
handler-Recorded InstructionType.imul_r instr i usage ibc byte =
    writing i (instr.dst % 8) usage _ tt refl (λ c. refl)
handler-Recorded InstructionType.imul_m instr i usage ibc byte =
    writing i (instr.dst % 8) usage _ (mem_mask-le instr (instr.src % 8 == instr.dst % 8)) refl
      (λ c. refl)
handler-Recorded InstructionType.imulh_r instr i usage ibc byte =
    writing i (instr.dst % 8) usage _ tt refl (λ c. refl)
handler-Recorded InstructionType.imulh_m instr i usage ibc byte =
    writing i (instr.dst % 8) usage _ (mem_mask-le instr (instr.src % 8 == instr.dst % 8)) refl
      (λ c. refl)
handler-Recorded InstructionType.ismulh_r instr i usage ibc byte =
    writing i (instr.dst % 8) usage _ tt refl (λ c. refl)
handler-Recorded InstructionType.ismulh_m instr i usage ibc byte =
    writing i (instr.dst % 8) usage _ (mem_mask-le instr (instr.src % 8 == instr.dst % 8)) refl
      (λ c. refl)
handler-Recorded InstructionType.imul_rcp instr i usage ibc byte = rcp-Recorded instr i usage ibc
handler-Recorded InstructionType.ineg_r instr i usage ibc byte =
    writing i (instr.dst % 8) usage _ tt refl (λ c. refl)
handler-Recorded InstructionType.ixor_r instr i usage ibc byte =
    writing i (instr.dst % 8) usage _ tt refl (λ c. refl)
handler-Recorded InstructionType.ixor_m instr i usage ibc byte =
    writing i (instr.dst % 8) usage _ (mem_mask-le instr (instr.src % 8 == instr.dst % 8)) refl
      (λ c. refl)
handler-Recorded InstructionType.iror_r instr i usage ibc byte =
    writing i (instr.dst % 8) usage _ tt refl (λ c. refl)
handler-Recorded InstructionType.irol_r instr i usage ibc byte =
    writing i (instr.dst % 8) usage _ tt refl (λ c. refl)
handler-Recorded InstructionType.iswap_r instr i usage ibc byte = swap-Recorded instr i usage ibc
handler-Recorded InstructionType.fswap_r instr i usage ibc byte =
    silent i usage _ tt refl (λ c. refl)
handler-Recorded InstructionType.fadd_r instr i usage ibc byte =
    silent i usage _ tt refl (λ c. refl)
handler-Recorded InstructionType.fadd_m instr i usage ibc byte =
    silent i usage _ (mem_level_mask-le instr) refl (λ c. refl)
handler-Recorded InstructionType.fsub_r instr i usage ibc byte =
    silent i usage _ tt refl (λ c. refl)
handler-Recorded InstructionType.fsub_m instr i usage ibc byte =
    silent i usage _ (mem_level_mask-le instr) refl (λ c. refl)
handler-Recorded InstructionType.fscal_r instr i usage ibc byte =
    silent i usage _ tt refl (λ c. refl)
handler-Recorded InstructionType.fmul_r instr i usage ibc byte =
    silent i usage _ tt refl (λ c. refl)
handler-Recorded InstructionType.fdiv_m instr i usage ibc byte =
    silent i usage _ (mem_level_mask-le instr) refl (λ c. refl)
handler-Recorded InstructionType.fsqrt_r instr i usage ibc byte =
    silent i usage _ tt refl (λ c. refl)
handler-Recorded InstructionType.cbranch instr i usage ibc byte =
    cbranch-Recorded instr i usage ibc byte
handler-Recorded InstructionType.cfround instr i usage ibc byte =
    silent i usage _ tt refl (λ c. refl)
handler-Recorded InstructionType.istore instr i usage ibc byte =
    silent i usage _ (store_mask-le instr (ltb (get_mod_cond instr) 14)) refl (λ c. refl)
handler-Recorded InstructionType.nop instr i usage ibc byte = silent i usage _ tt refl (λ c. refl)
