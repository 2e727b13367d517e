-- ===== src/Superscalar/Generator/Create.antt =====
-- `createForSlot` and `create` of src/superscalar.cpp.
use armrx_aarch64_random_x_v.Common.{
  ℕ, zero, suc, ◌-◌, bit_and, Bool, true, false, not, ◌&&◌, ◌||◌, Option, none, some, List, [], ◌∷◌,
  get_or, if◌then◌else◌, ◌==◌, ◌>>=◌,
}
use armrx_aarch64_random_x_v.Superscalar.Program.{SuperscalarInstructionType}
use armrx_aarch64_random_x_v.Superscalar.Generator.Random.{Blake2Generator, get_byte, get_uint32}
use armrx_aarch64_random_x_v.Superscalar.Generator.Tables.{Info}
use armrx_aarch64_random_x_v.Superscalar.Generator.Current.{Current, no_par}

-- `isZeroOrPowerOf2` on `uint32_t`.
unfoldable pub is_zero_or_power_of_2_32 : ℕ → Bool
is_zero_or_power_of_2_32 val = val == 0 || bit_and val (val - 1) == 0

abbrev pub slot_3 : List SuperscalarInstructionType
slot_3 = SuperscalarInstructionType.isub_r ∷ SuperscalarInstructionType.ixor_r ∷ []

abbrev pub slot_3l : List SuperscalarInstructionType
slot_3l =
    SuperscalarInstructionType.isub_r ∷ SuperscalarInstructionType.ixor_r
    ∷ SuperscalarInstructionType.imulh_r ∷ SuperscalarInstructionType.ismulh_r ∷ []

abbrev pub slot_4 : List SuperscalarInstructionType
slot_4 = SuperscalarInstructionType.iror_c ∷ SuperscalarInstructionType.iadd_rs ∷ []

abbrev pub slot_7 : List SuperscalarInstructionType
slot_7 = SuperscalarInstructionType.ixor_c7 ∷ SuperscalarInstructionType.iadd_c7 ∷ []

abbrev pub slot_8 : List SuperscalarInstructionType
slot_8 = SuperscalarInstructionType.ixor_c8 ∷ SuperscalarInstructionType.iadd_c8 ∷ []

abbrev pub slot_9 : List SuperscalarInstructionType
slot_9 = SuperscalarInstructionType.ixor_c9 ∷ SuperscalarInstructionType.iadd_c9 ∷ []

module _ (blake2b : (ℕ → ℕ) → ℕ → ℕ) where
  -- `do imm32_ = get_byte() & 63; while (imm32_ == 0)`, of at most `tries` rounds.
  unfoldable pub draw_rotation : ℕ → Blake2Generator → Option (ℕ × Blake2Generator)
  draw_rotation zero gen = none
  draw_rotation (suc tries) gen =
      let drawn = get_byte blake2b gen in
      let again = draw_rotation tries drawn.1 in
      if bit_and drawn.0 63 == 0 then again else some (bit_and drawn.0 63, drawn.1)

  -- `do imm32_ = get_uint32(); while (isZeroOrPowerOf2(imm32_))`.
  unfoldable pub draw_divisor : ℕ → Blake2Generator → Option (ℕ × Blake2Generator)
  unfolding is_zero_or_power_of_2_32
  draw_divisor zero gen = none
  draw_divisor (suc tries) gen =
      let drawn = get_uint32 blake2b gen in
      let again = draw_divisor tries drawn.1 in
      if is_zero_or_power_of_2_32 drawn.0 then again else some drawn

  -- What `reset` and the assignments of a case of `create` leave.
  abbrev pub created : Info → Info → ℕ → ℕ → ℕ → Bool → Bool → Current
  created info group par mod_byte imm32 can_reuse par_is_source = record {
    info = info;
    src = none;
    dst = none;
    mod_byte = mod_byte;
    imm32 = imm32;
    op_group = group;
    op_group_par = par;
    can_reuse = can_reuse;
    group_par_is_source = par_is_source;
  }

  abbrev pub with_constant :
      SuperscalarInstructionType
      → SuperscalarInstructionType
      → Current
      → Blake2Generator
      → Current × Blake2Generator
  with_constant type group c gen =
      let drawn = get_uint32 blake2b gen in
      (created (some type) (some group) no_par 0 drawn.0 false false, drawn.1)

  abbrev pub with_random_group :
      SuperscalarInstructionType → Current → Blake2Generator → Current × Blake2Generator
  with_random_group type c gen =
      let drawn = get_uint32 blake2b gen in
      (created (some type) (some type) drawn.0 0 0 true false, drawn.1)

  -- `create`, in which a case that does not set the group parameter leaves the one of the instruction
  -- before. A result `none` is a draw that was refused `tries` times.
  unfoldable pub create :
      ℕ
      → SuperscalarInstructionType
      → Current
      → Blake2Generator
      → Option (Current × Blake2Generator)
  unfolding draw_rotation draw_divisor
  create tries SuperscalarInstructionType.isub_r c gen =
      let info = some SuperscalarInstructionType.isub_r in
      let group = some SuperscalarInstructionType.iadd_rs in
      some (created info group c.op_group_par 0 0 false true, gen)
  create tries SuperscalarInstructionType.ixor_r c gen =
      let info = some SuperscalarInstructionType.ixor_r in
      some (created info info c.op_group_par 0 0 false true, gen)
  create tries SuperscalarInstructionType.iadd_rs c gen =
      let info = some SuperscalarInstructionType.iadd_rs in
      let drawn = get_byte blake2b gen in
      some (created info info c.op_group_par drawn.0 0 false true, drawn.1)
  create tries SuperscalarInstructionType.imul_r c gen =
      let info = some SuperscalarInstructionType.imul_r in
      some (created info info c.op_group_par 0 0 false true, gen)
  create tries SuperscalarInstructionType.iror_c c gen = do
    drawn ← draw_rotation tries gen
    let info = some SuperscalarInstructionType.iror_c
    some (created info info no_par 0 drawn.0 false false, drawn.1)
  create tries SuperscalarInstructionType.iadd_c7 c gen =
      some
        (with_constant SuperscalarInstructionType.iadd_c7 SuperscalarInstructionType.iadd_c7 c gen)
  create tries SuperscalarInstructionType.iadd_c8 c gen =
      some
        (with_constant SuperscalarInstructionType.iadd_c8 SuperscalarInstructionType.iadd_c7 c gen)
  create tries SuperscalarInstructionType.iadd_c9 c gen =
      some
        (with_constant SuperscalarInstructionType.iadd_c9 SuperscalarInstructionType.iadd_c7 c gen)
  create tries SuperscalarInstructionType.ixor_c7 c gen =
      some
        (with_constant SuperscalarInstructionType.ixor_c7 SuperscalarInstructionType.ixor_c7 c gen)
  create tries SuperscalarInstructionType.ixor_c8 c gen =
      some
        (with_constant SuperscalarInstructionType.ixor_c8 SuperscalarInstructionType.ixor_c7 c gen)
  create tries SuperscalarInstructionType.ixor_c9 c gen =
      some
        (with_constant SuperscalarInstructionType.ixor_c9 SuperscalarInstructionType.ixor_c7 c gen)
  create tries SuperscalarInstructionType.imulh_r c gen =
      some (with_random_group SuperscalarInstructionType.imulh_r c gen)
  create tries SuperscalarInstructionType.ismulh_r c gen =
      some (with_random_group SuperscalarInstructionType.ismulh_r c gen)
  create tries SuperscalarInstructionType.imul_rcp c gen = do
    drawn ← draw_divisor tries gen
    let info = some SuperscalarInstructionType.imul_rcp
    some (created info info no_par 0 drawn.0 false false, drawn.1)

  -- The type in the slot of the table that a draw picks.
  abbrev pub drawn_slot : List SuperscalarInstructionType → ℕ → ℕ → SuperscalarInstructionType
  drawn_slot slots byte mask = get_or slots (bit_and byte mask) SuperscalarInstructionType.isub_r

  abbrev pub create_drawn :
      ℕ
      → List SuperscalarInstructionType
      → ℕ
      → Current
      → Blake2Generator
      → Option (Current × Blake2Generator)
  create_drawn tries slots mask c gen =
      let drawn = get_byte blake2b gen in create tries (drawn_slot slots drawn.0 mask) c drawn.1

  -- `createForSlot`; a slot of another size is an exception, and `none`.
  unfoldable pub create_for_slot :
      ℕ → ℕ → ℕ → Bool → Current → Blake2Generator → Option (Current × Blake2Generator)
  unfolding create
  create_for_slot tries slot_size fetch_type is_last c gen =
      if slot_size == 3
      then if is_last then create_drawn tries slot_3l 3 c gen else create_drawn tries slot_3 1 c gen
      else if slot_size == 4
      then if fetch_type == 4 && not is_last
        then create tries SuperscalarInstructionType.imul_r c gen
        else create_drawn tries slot_4 1 c gen
      else if slot_size == 7
      then create_drawn tries slot_7 1 c gen
      else if slot_size == 8
      then create_drawn tries slot_8 1 c gen
      else if slot_size == 9
      then create_drawn tries slot_9 1 c gen
      else if slot_size == 10
      then create tries SuperscalarInstructionType.imul_rcp c gen
      else none
