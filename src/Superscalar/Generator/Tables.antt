-- ===== src/Superscalar/Generator/Tables.antt =====
-- The tables of src/superscalar.cpp: macro-operations, instructions, decode buffers and slots. The
-- names are left out. -1 is `none`.
use armrx_aarch64_random_x_v.Common.{
  ℕ, ◌+◌, Bool, true, false, Option, none, some, List, [], ◌∷◌, length, get_or, bit_and,
  if◌then◌else◌, ltb, ◌==◌,
}
use armrx_aarch64_random_x_v.Superscalar.Program.{SuperscalarInstructionType}
use armrx_aarch64_random_x_v.Superscalar.Generator.Random.{Blake2Generator, get_byte}

abbrev pub p0 : ℕ
p0 = 1

abbrev pub p1 : ℕ
p1 = 2

abbrev pub p5 : ℕ
p5 = 4

pub record MacroOp : Type 0 where
  pub size : ℕ
  pub latency : ℕ
  pub uop1 : ℕ
  pub uop2 : ℕ
  pub is_dependent : Bool

abbrev pub simple_op : ℕ → ℕ → ℕ → MacroOp
simple_op size latency uop = record {
  size = size;
  latency = latency;
  uop1 = uop;
  uop2 = 0;
  is_dependent = false;
}

abbrev pub add_rr : MacroOp
add_rr = simple_op 3 1 (p0 + p1 + p5)

abbrev pub mul_r : MacroOp
mul_r = record { size = 3; latency = 4; uop1 = p1; uop2 = p5; is_dependent = false }

abbrev pub mov_rr : MacroOp
mov_rr = simple_op 3 0 0

abbrev pub lea_sib : MacroOp
lea_sib = simple_op 4 1 (p0 + p1)

abbrev pub imul_rr : MacroOp
imul_rr = simple_op 4 3 p1

abbrev pub ror_ri : MacroOp
ror_ri = simple_op 4 1 (p0 + p5)

abbrev pub add_ri : MacroOp
add_ri = simple_op 7 1 (p0 + p1 + p5)

abbrev pub mov_ri64 : MacroOp
mov_ri64 = simple_op 10 1 (p0 + p1 + p5)

-- An instruction's type; `none` is INVALID, the type of NOP.
abbrev pub Info : Type 0
Info = Option SuperscalarInstructionType

unfoldable pub info_ops : Info → List MacroOp
info_ops none = []
info_ops (some SuperscalarInstructionType.isub_r) = add_rr ∷ []
info_ops (some SuperscalarInstructionType.ixor_r) = add_rr ∷ []
info_ops (some SuperscalarInstructionType.iadd_rs) = lea_sib ∷ []
info_ops (some SuperscalarInstructionType.imul_r) = imul_rr ∷ []
info_ops (some SuperscalarInstructionType.iror_c) = ror_ri ∷ []
info_ops (some SuperscalarInstructionType.imulh_r) = mov_rr ∷ mul_r ∷ mov_rr ∷ []
info_ops (some SuperscalarInstructionType.ismulh_r) = mov_rr ∷ mul_r ∷ mov_rr ∷ []
info_ops (some SuperscalarInstructionType.imul_rcp) =
    mov_ri64 ∷ record imul_rr { is_dependent = true } ∷ []
info_ops (some _) = add_ri ∷ []

unfoldable pub info_size : Info → ℕ
unfolding info_ops
info_size info = length (info_ops info)

unfoldable pub result_op : Info → ℕ
result_op (some SuperscalarInstructionType.imulh_r) = 1
result_op (some SuperscalarInstructionType.ismulh_r) = 1
result_op (some SuperscalarInstructionType.imul_rcp) = 1
result_op _ = 0

unfoldable pub dst_op : Info → ℕ
dst_op (some SuperscalarInstructionType.imul_rcp) = 1
dst_op _ = 0

unfoldable pub src_op : Info → Option ℕ
src_op (some SuperscalarInstructionType.isub_r) = some 0
src_op (some SuperscalarInstructionType.ixor_r) = some 0
src_op (some SuperscalarInstructionType.iadd_rs) = some 0
src_op (some SuperscalarInstructionType.imul_r) = some 0
src_op (some SuperscalarInstructionType.imulh_r) = some 1
src_op (some SuperscalarInstructionType.ismulh_r) = some 1
src_op _ = none

unfoldable pub is_multiplication : Info → Bool
is_multiplication (some SuperscalarInstructionType.imul_r) = true
is_multiplication (some SuperscalarInstructionType.imulh_r) = true
is_multiplication (some SuperscalarInstructionType.ismulh_r) = true
is_multiplication (some SuperscalarInstructionType.imul_rcp) = true
is_multiplication _ = false

abbrev pub is_wide_multiplication : Info → Bool
is_wide_multiplication (some SuperscalarInstructionType.imulh_r) = true
is_wide_multiplication (some SuperscalarInstructionType.ismulh_r) = true
is_wide_multiplication _ = false

abbrev pub is_imul_rcp : Info → Bool
is_imul_rcp (some SuperscalarInstructionType.imul_rcp) = true
is_imul_rcp _ = false

-- The six decode buffers: the size of each slot, and the index, by which slots of size 4 differ.
pub record DecoderBuffer : Type 0 where
  pub index : ℕ
  pub counts : List ℕ

abbrev pub buffer484 : DecoderBuffer
buffer484 = record { index = 0; counts = 4 ∷ 8 ∷ 4 ∷ [] }

abbrev pub buffer7333 : DecoderBuffer
buffer7333 = record { index = 1; counts = 7 ∷ 3 ∷ 3 ∷ 3 ∷ [] }

abbrev pub buffer3733 : DecoderBuffer
buffer3733 = record { index = 2; counts = 3 ∷ 7 ∷ 3 ∷ 3 ∷ [] }

abbrev pub buffer493 : DecoderBuffer
buffer493 = record { index = 3; counts = 4 ∷ 9 ∷ 3 ∷ [] }

abbrev pub buffer4444 : DecoderBuffer
buffer4444 = record { index = 4; counts = 4 ∷ 4 ∷ 4 ∷ 4 ∷ [] }

abbrev pub buffer3310 : DecoderBuffer
buffer3310 = record { index = 5; counts = 3 ∷ 3 ∷ 10 ∷ [] }

abbrev pub decode_buffers : List DecoderBuffer
decode_buffers = buffer484 ∷ buffer7333 ∷ buffer3733 ∷ buffer493 ∷ []

module _ (blake2b : (ℕ → ℕ) → ℕ → ℕ) where
  -- The draws of `fetchNext` when no rule of the simulated decoder applies, and after IMUL_RCP.
  abbrev pub fetch_default : Blake2Generator → DecoderBuffer × Blake2Generator
  fetch_default gen =
      let drawn = get_byte blake2b gen in
      (get_or decode_buffers (bit_and drawn.0 3) buffer484, drawn.1)

  abbrev pub fetch_rcp : Blake2Generator → DecoderBuffer × Blake2Generator
  fetch_rcp gen =
      let drawn = get_byte blake2b gen in
      ((if bit_and drawn.0 1 == 1 then buffer484 else buffer493), drawn.1)

  unfoldable pub fetch_next : Info → ℕ → ℕ → Blake2Generator → DecoderBuffer × Blake2Generator
  fetch_next info cycle mul_count gen =
      if is_wide_multiplication info
      then (buffer3310, gen)
      else if ltb mul_count (cycle + 1)
      then (buffer4444, gen)
      else if is_imul_rcp info
      then fetch_rcp gen
      else fetch_default gen
