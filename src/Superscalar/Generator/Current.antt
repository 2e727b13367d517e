-- ===== src/Superscalar/Generator/Current.antt =====
-- `SuperscalarInstruction` of src/superscalar.cpp: the instruction that is being issued. -1 as a
-- register is `none`; a group parameter is the bit pattern of its int, so that -1 is 2 ^ 32 - 1.
use armrx_aarch64_random_x_v.Common.{
  ℕ, ◌-◌, ◌%◌, ◌^◌, Bool, false, not, ◌&&◌, ◌||◌, Option, none, some, List, [], ◌∷◌, length, get_or,
  if◌then◌else◌, ◌==◌, leb, ◌>>=◌,
}
use armrx_aarch64_random_x_v.Vm.Types.{Instruction}
use armrx_aarch64_random_x_v.Superscalar.Program.{SuperscalarInstructionType}
use armrx_aarch64_random_x_v.Superscalar.Generator.Random.{Blake2Generator, get_uint32}
use armrx_aarch64_random_x_v.Superscalar.Generator.Tables.{Info}

-- The number of an enumerator of `SuperscalarInstructionType`, the INVALID of NOP included.
unfoldable pub opcode_of : Info → ℕ
opcode_of none = 255
opcode_of (some SuperscalarInstructionType.isub_r) = 0
opcode_of (some SuperscalarInstructionType.ixor_r) = 1
opcode_of (some SuperscalarInstructionType.iadd_rs) = 2
opcode_of (some SuperscalarInstructionType.imul_r) = 3
opcode_of (some SuperscalarInstructionType.iror_c) = 4
opcode_of (some SuperscalarInstructionType.iadd_c7) = 5
opcode_of (some SuperscalarInstructionType.ixor_c7) = 6
opcode_of (some SuperscalarInstructionType.iadd_c8) = 7
opcode_of (some SuperscalarInstructionType.ixor_c8) = 8
opcode_of (some SuperscalarInstructionType.iadd_c9) = 9
opcode_of (some SuperscalarInstructionType.ixor_c9) = 10
opcode_of (some SuperscalarInstructionType.imulh_r) = 11
opcode_of (some SuperscalarInstructionType.ismulh_r) = 12
opcode_of (some SuperscalarInstructionType.imul_rcp) = 13

pub record Current : Type 0 where
  pub info : Info
  pub src : Option ℕ
  pub dst : Option ℕ
  pub mod_byte : ℕ
  pub imm32 : ℕ
  pub op_group : Info
  pub op_group_par : ℕ
  pub can_reuse : Bool
  pub group_par_is_source : Bool

abbrev pub no_par : ℕ
no_par = 2 ^ 32 - 1

-- `SuperscalarInstruction::Null`.
abbrev pub null_instruction : Current
null_instruction = record {
  info = none;
  src = none;
  dst = none;
  mod_byte = 0;
  imm32 = 0;
  op_group = none;
  op_group_par = no_par;
  can_reuse = false;
  group_par_is_source = false;
}

-- The cast of a register to `uint8_t`.
abbrev pub register_byte : Option ℕ → ℕ
register_byte none = 255
register_byte (some r) = r % 256

abbrev pub src_or_dst : Option ℕ → Option ℕ → Option ℕ
src_or_dst none dst = dst
src_or_dst (some src) dst = some src

unfoldable pub to_instr : Current → Instruction
unfolding opcode_of
to_instr c = record {
  opcode = opcode_of c.info;
  dst = register_byte c.dst;
  src = register_byte (src_or_dst c.src c.dst);
  mod_byte = c.mod_byte % 256;
  imm32 = c.imm32;
}

pub record RegisterInfo : Type 0 where
  pub latency : ℕ
  pub last_op_group : Info
  pub last_op_par : ℕ

abbrev pub Registers8 : Type 0
Registers8 = ℕ → RegisterInfo

abbrev pub register_needs_displacement : ℕ
register_needs_displacement = 5

abbrev pub is_type : ℕ → Info → Bool
is_type opcode info = opcode_of info == opcode

abbrev pub select_if : (ℕ → Bool) → List ℕ → List ℕ
select_if test [] = []
select_if test (r ∷ rs) = if test r then r ∷ select_if test rs else select_if test rs

abbrev pub all_registers : List ℕ
all_registers = 0 ∷ 1 ∷ 2 ∷ 3 ∷ 4 ∷ 5 ∷ 6 ∷ 7 ∷ []

abbrev pub is_dst_free : ℕ → Bool → Registers8 → Current → ℕ → Bool
is_dst_free cycle allow_chained_mul registers c i =
    leb (registers i).latency cycle
    && (c.can_reuse || not (register_byte c.src == i))
    && (allow_chained_mul
        || not (is_type 3 c.op_group)
        || not (is_type 3 (registers i).last_op_group))
    && (not (opcode_of (registers i).last_op_group == opcode_of c.op_group)
        || not ((registers i).last_op_par == c.op_group_par))
    && (not (is_type 2 c.info) || not (i == register_needs_displacement))

abbrev pub has_displaced : List ℕ → Bool
has_displaced (r ∷ s ∷ []) = r == register_needs_displacement || s == register_needs_displacement
has_displaced _ = false

module _ (blake2b : (ℕ → ℕ) → ℕ → ℕ) where
  -- `selectRegister`: `none` is the result false.
  unfoldable pub select_register : List ℕ → Blake2Generator → Option (ℕ × Blake2Generator)
  select_register [] gen = none
  select_register (r ∷ []) gen = some (r, gen)
  select_register (r ∷ s ∷ more) gen =
      let drawn = get_uint32 blake2b gen in
      some (get_or (r ∷ s ∷ more) (drawn.0 % length (r ∷ s ∷ more)) r, drawn.1)

  unfoldable pub select_destination :
      ℕ → Bool → Registers8 → Current → Blake2Generator → Option (Current × Blake2Generator)
  unfolding select_register
  select_destination cycle allow_chained_mul registers c gen = do
    chosen ←
        select_register (select_if (is_dst_free cycle allow_chained_mul registers c) all_registers)
          gen
    some (record c { dst = some chosen.0 }, chosen.1)

  abbrev pub with_source : ℕ → Current → Current
  with_source r c = record c {
    src = some r;
    op_group_par = if c.group_par_is_source then r else c.op_group_par;
  }

  unfoldable pub select_source :
      ℕ → Registers8 → Current → Blake2Generator → Option (Current × Blake2Generator)
  unfolding select_register
  select_source cycle registers c gen =
      let available = select_if (λ i. leb (registers i).latency cycle) all_registers in
      if is_type 2 c.info && has_displaced available
      then some (
        record c {
          src = some register_needs_displacement;
          op_group_par = register_needs_displacement;
        },
        gen,
      )
      else (do choice ← select_register available gen; some (with_source choice.0 c, choice.1))
