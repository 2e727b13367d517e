-- ===== src/Superscalar/Generator/Invariant.antt =====
-- The invariant of the issue loop in `generate_superscalar` of src/superscalar.cpp.
use armrx_aarch64_random_x_v.Common.{
  ℕ, zero, suc, ◌+◌, ◌≡◌, ◌<◌, ◌≤◌, arith, refl, false, Option, none, some, List, [], ◌∷◌, get_or,
  inl, inr, Bool-cases, update, ◌==◌, ◌∙◌, sym,
}
use armrx_aarch64_random_x_v.Vm.Types.{Instruction}
use armrx_aarch64_random_x_v.Superscalar.Program.{SuperscalarInstructionType, of_opcode}
use armrx_aarch64_random_x_v.Superscalar.Generator.Random.{Blake2Generator, get_byte, get_uint32}
use armrx_aarch64_random_x_v.Superscalar.Generator.Tables.{Info, info_ops, info_size, dst_op}
use armrx_aarch64_random_x_v.Superscalar.Generator.Current.{
  Current, register_byte, src_or_dst, opcode_of, to_instr,
}
use armrx_aarch64_random_x_v.Superscalar.Generator.Create.{
  is_zero_or_power_of_2_32, draw_rotation, draw_divisor,
}
use armrx_aarch64_random_x_v.Superscalar.Generator.Loop.{
  Issue, look_forward, superscalar_max_size, max_throwaway_count,
}

-- What holds of a value if there is one.
abbrev pub Each {ℓ κ} : {A : Type ℓ} → (A → Type κ) → Option A → Type κ
Each P none = Unit
Each P (some a) = P a

abbrev pub All {ℓ κ} : {A : Type ℓ} → (A → Type κ) → List A → Type κ
All P [] = Unit
All P (x ∷ xs) = P x × All P xs

pub get_or-All {ℓ κ} :
    {A : Type ℓ} (P : A → Type κ) (xs : List A) (i : ℕ) (d : A) → All P xs → P d → P (get_or xs i d)
get_or-All P [] i d all h = h
get_or-All P (x ∷ xs) zero d all h = all.0
get_or-All P (x ∷ xs) (suc i) d all h = get_or-All P xs i d all.1 h

pub update-All {ℓ κ} :
    {A : Type ℓ} (P : A → Type κ) (f : ℕ → A) (n : ℕ) (v : A)
    → ((j : ℕ) → j < n → P (f j))
    → P v
    → (j : ℕ) → j < n + 1
    → P (update f n v j)
update-All P f n v all h j lt = elim (Bool-cases (n == j)) [
  | inl here ↦ rw here h
  | inr away ↦ rw away (all j (ground arith))
]

pub look_forward-Each {ℓ κ} :
    {A : Type ℓ} (P : A → Type κ) (attempt : ℕ → Option A)
    → ((passed : ℕ) → Each P (attempt passed))
    → (left passed : ℕ) → Each (λ found. P found.1) (look_forward attempt left passed)
unfolding look_forward
look_forward-Each P attempt each zero passed = tt
look_forward-Each {A = A} P attempt each (suc left) passed =
    go (attempt passed) (each passed) (look_forward-Each P attempt each left (suc passed))
  where
    go :
        (o : Option A)
        → Each P o
        → Each (λ (found : ℕ × A). P found.1) (look_forward attempt left (suc passed))
        → Each
            (λ (found : ℕ × A). P found.1)
            (elim o [
              | none ↦ look_forward attempt left (suc passed)
              | some chosen ↦ some (passed, chosen)
            ])
    go none h later = later
    go (some chosen) h later = h

-- A source of random bytes in which the redrawn constants come out within `tries` draws: `IsGood` holds
-- of the states of the generator that are met.
pub record IsRandom (blake2b : (ℕ → ℕ) → ℕ → ℕ) (tries : ℕ) (IsGood : Blake2Generator → Type 0)
    : Type 0 where
  pub byte : (g : Blake2Generator) → IsGood g → IsGood (get_byte blake2b g).1
  pub word : (g : Blake2Generator) → IsGood g → IsGood (get_uint32 blake2b g).1
  pub rotation :
      (g : Blake2Generator)
      → IsGood g
      → (r : ℕ × Blake2Generator) × (draw_rotation blake2b tries g ≡ some r) × IsGood r.1
  pub divisor :
      (g : Blake2Generator)
      → IsGood g
      → (r : ℕ × Blake2Generator) × (draw_divisor blake2b tries g ≡ some r) × IsGood r.1

-- An instruction that the interpreters execute.
pub record IsSound (instr : Instruction) : Type 0 where
  pub known : (t : SuperscalarInstructionType) × (of_opcode instr.opcode ≡ some t)
  pub dst : instr.dst < 8
  pub src : instr.src < 8
  pub divisor :
      of_opcode instr.opcode ≡ some SuperscalarInstructionType.imul_rcp
      → is_zero_or_power_of_2_32 instr.imm32 ≡ false

abbrev pub HasDst : Current → Type 0
HasDst c = (r : ℕ) × (c.dst ≡ some r) × (r < 8)

abbrev pub HasDivisor : Current → Type 0
HasDivisor c =
    c.info ≡ some SuperscalarInstructionType.imul_rcp → is_zero_or_power_of_2_32 c.imm32 ≡ false

-- The state before the operation `macro_op_index`; the destination is chosen if its operation is
-- before `chosen`.
pub record IsIssue (IsGood : Blake2Generator → Type 0) (chosen : ℕ) (s : Issue) : Type 0 where
  pub good : IsGood s.gen
  pub sound : (j : ℕ) → j < s.program_size → IsSound (s.program j)
  pub bounded : s.program_size ≤ superscalar_max_size
  pub src : Each (λ r. r < 8) s.current.src
  pub divisor : HasDivisor s.current
  pub dst :
      s.macro_op_index < info_size s.current.info
      → dst_op s.current.info < chosen
      → HasDst s.current
  pub started : s.macro_op_index < info_size s.current.info → s.program_size < superscalar_max_size
  pub few : s.throw_away_count ≤ max_throwaway_count

pub opcode_of-known :
    (info : Info)
    → 0 < info_size info
    → (t : SuperscalarInstructionType) × (info ≡ some t) × (of_opcode (opcode_of info) ≡ some t)
unfolding info_size info_ops opcode_of of_opcode
opcode_of-known none h = absurd (omega arith)
opcode_of-known (some SuperscalarInstructionType.isub_r) h = (_, refl, refl)
opcode_of-known (some SuperscalarInstructionType.ixor_r) h = (_, refl, refl)
opcode_of-known (some SuperscalarInstructionType.iadd_rs) h = (_, refl, refl)
opcode_of-known (some SuperscalarInstructionType.imul_r) h = (_, refl, refl)
opcode_of-known (some SuperscalarInstructionType.iror_c) h = (_, refl, refl)
opcode_of-known (some SuperscalarInstructionType.iadd_c7) h = (_, refl, refl)
opcode_of-known (some SuperscalarInstructionType.ixor_c7) h = (_, refl, refl)
opcode_of-known (some SuperscalarInstructionType.iadd_c8) h = (_, refl, refl)
opcode_of-known (some SuperscalarInstructionType.ixor_c8) h = (_, refl, refl)
opcode_of-known (some SuperscalarInstructionType.iadd_c9) h = (_, refl, refl)
opcode_of-known (some SuperscalarInstructionType.ixor_c9) h = (_, refl, refl)
opcode_of-known (some SuperscalarInstructionType.imulh_r) h = (_, refl, refl)
opcode_of-known (some SuperscalarInstructionType.ismulh_r) h = (_, refl, refl)
opcode_of-known (some SuperscalarInstructionType.imul_rcp) h = (_, refl, refl)

pub dst_op-lt : (info : Info) → 0 < info_size info → dst_op info < info_size info
unfolding info_size info_ops dst_op
dst_op-lt none h = absurd (omega arith)
dst_op-lt (some SuperscalarInstructionType.isub_r) h = omega arith
dst_op-lt (some SuperscalarInstructionType.ixor_r) h = omega arith
dst_op-lt (some SuperscalarInstructionType.iadd_rs) h = omega arith
dst_op-lt (some SuperscalarInstructionType.imul_r) h = omega arith
dst_op-lt (some SuperscalarInstructionType.iror_c) h = omega arith
dst_op-lt (some SuperscalarInstructionType.imulh_r) h = omega arith
dst_op-lt (some SuperscalarInstructionType.ismulh_r) h = omega arith
dst_op-lt (some SuperscalarInstructionType.imul_rcp) h = omega arith
dst_op-lt (some _) h = omega arith

src-small :
    (src dst : Option ℕ)
    → Each (λ r. r < 8) src
    → (r : ℕ) → dst ≡ some r
    → r < 8
    → register_byte (src_or_dst src dst) < 8
src-small none dst small r e lt = rw e (omega arith)
src-small (some n) dst small r e lt = omega arith

-- The instruction that a finished `Current` becomes.
pub to_instr-IsSound :
    (c : Current)
    → 0 < info_size c.info
    → Each (λ r. r < 8) c.src
    → HasDivisor c
    → HasDst c
    → IsSound (to_instr c)
unfolding to_instr
to_instr-IsSound c real src divisor (r, e, lt) =
    let (t, info, known) = opcode_of-known c.info real in
    record {
      known = (t, known);
      dst = rw e (omega arith);
      src = src-small c.src c.dst src r e lt;
      divisor = λ is_rcp. divisor (info ∙ sym known ∙ is_rcp);
    }
