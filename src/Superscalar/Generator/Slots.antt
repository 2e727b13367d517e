-- ===== src/Superscalar/Generator/Slots.antt =====
-- What `fetchNext` and `createForSlot` of src/superscalar.cpp make: buffers of known slots, and
-- instructions without registers.
use armrx_aarch64_random_x_v.Common.{
  ℕ, zero, suc, ◌+◌, ◌≡◌, ◌<◌, ◌≤◌, ◌==◌, arith, refl, ap, bit_and, Bool, true, false, Option, some,
  List, [], ◌∷◌, length, get_or, inl, inr, ◌⊎◌, Bool-cases, ltb, not, ◌&&◌, if◌then◌else◌, ◌>>=◌,
}
use armrx_aarch64_random_x_v.Superscalar.Program.{SuperscalarInstructionType}
use armrx_aarch64_random_x_v.Superscalar.Generator.Random.{Blake2Generator, get_byte, get_uint32}
use armrx_aarch64_random_x_v.Superscalar.Generator.Tables.{
  Info, info_size, DecoderBuffer, decode_buffers, buffer484, is_wide_multiplication, is_imul_rcp,
  fetch_next,
}
use armrx_aarch64_random_x_v.Superscalar.Generator.Current.{Current, no_par}
use armrx_aarch64_random_x_v.Superscalar.Generator.Create.{
  is_zero_or_power_of_2_32, draw_divisor, created, create, create_drawn, create_for_slot, slot_3,
  slot_3l, slot_4, slot_7, slot_8, slot_9,
}
use armrx_aarch64_random_x_v.Superscalar.Generator.Invariant.{
  Each, All, get_or-All, IsRandom, HasDivisor,
}

-- The sizes that `createForSlot` knows.
pub data IsSlot : ℕ → Type 0 where
  slot3 : IsSlot 3
  slot4 : IsSlot 4
  slot7 : IsSlot 7
  slot8 : IsSlot 8
  slot9 : IsSlot 9
  slot10 : IsSlot 10

abbrev pub IsBuffer : DecoderBuffer → Type 0
IsBuffer buffer = All IsSlot buffer.counts × (length buffer.counts ≤ 4)

pub get_or-IsSlot :
    (sizes : List ℕ) (i : ℕ) → All IsSlot sizes → i < length sizes → IsSlot (get_or sizes i 0)
get_or-IsSlot [] i all lt = absurd (omega arith)
get_or-IsSlot (n ∷ sizes) zero all lt = all.0
get_or-IsSlot (n ∷ sizes) (suc i) all lt = get_or-IsSlot sizes i all.1 (omega arith)

-- An instruction before its registers are chosen, and the generator after its draws.
abbrev pub IsNew : (Blake2Generator → Type 0) → Current × Blake2Generator → Type 0
IsNew IsGood new =
    (0 < info_size new.0.info) × Each (λ r. r < 8) new.0.src × HasDivisor new.0 × IsGood new.1

abbrev pub IsMade : (Blake2Generator → Type 0) → Option (Current × Blake2Generator) → Type 0
IsMade IsGood o = (new : Current × Blake2Generator) × (o ≡ some new) × IsNew IsGood new

module _ (blake2b : (ℕ → ℕ) → ℕ → ℕ) where
  accepted_or_again {ℓ} :
      {A : Type ℓ} (test : Bool) (again : Option A) (drawn r : A)
      → (if test then again else some drawn) ≡ some r
      → (again ≡ some r) ⊎ ((test ≡ false) × (drawn ≡ r))
  accepted_or_again true again drawn r e = inl e
  accepted_or_again false again drawn r e = inr (refl, cc)

  -- A divisor that is drawn is not refused.
  pub draw_divisor-accepted :
      (tries : ℕ) (g : Blake2Generator) (r : ℕ × Blake2Generator)
      → draw_divisor blake2b tries g ≡ some r
      → is_zero_or_power_of_2_32 r.0 ≡ false
  unfolding draw_divisor
  draw_divisor-accepted zero g r e = cc
  draw_divisor-accepted (suc tries) g r e =
      let drawn = get_uint32 blake2b g in
      elim (accepted_or_again (is_zero_or_power_of_2_32 drawn.0)
        (draw_divisor blake2b tries drawn.1) drawn r e) [
          | inl again ↦ draw_divisor-accepted tries drawn.1 r again
          | inr (accepted, is_r) ↦ rw⁻¹ is_r accepted
        ]

IsMade-after :
    (IsGood : Blake2Generator → Type 0) (o : Option (ℕ × Blake2Generator))
    (f : ℕ × Blake2Generator → Current × Blake2Generator) (r : ℕ × Blake2Generator)
    → o ≡ some r
    → IsNew IsGood (f r)
    → IsMade IsGood (o >>= (λ drawn. some (f drawn)))
IsMade-after IsGood o f r e new = (f r, ap (λ o. o >>= (λ drawn. some (f drawn))) e, new)

module _ (blake2b : (ℕ → ℕ) → ℕ → ℕ) (tries : ℕ) (IsGood : Blake2Generator → Type 0)
    (random : IsRandom blake2b tries IsGood) where
  create-IsMade :
      (type : SuperscalarInstructionType) (c : Current) (g : Blake2Generator)
      → IsGood g
      → IsMade IsGood (create blake2b tries type c g)
  unfolding create info_size
  create-IsMade SuperscalarInstructionType.isub_r c g good =
      (_, refl, (omega arith, tt, λ e. cc, good))
  create-IsMade SuperscalarInstructionType.ixor_r c g good =
      (_, refl, (omega arith, tt, λ e. cc, good))
  create-IsMade SuperscalarInstructionType.iadd_rs c g good =
      (_, refl, (omega arith, tt, λ e. cc, random.byte g good))
  create-IsMade SuperscalarInstructionType.imul_r c g good =
      (_, refl, (omega arith, tt, λ e. cc, good))
  create-IsMade SuperscalarInstructionType.iror_c c g good =
      let (r, e, good') = random.rotation g good in
      let info = some SuperscalarInstructionType.iror_c in
      IsMade-after IsGood _
        (λ drawn. (created blake2b info info no_par 0 drawn.0 false false, drawn.1)) r e
        (omega arith, tt, λ e. cc, good')
  create-IsMade SuperscalarInstructionType.iadd_c7 c g good =
      (_, refl, (omega arith, tt, λ e. cc, random.word g good))
  create-IsMade SuperscalarInstructionType.iadd_c8 c g good =
      (_, refl, (omega arith, tt, λ e. cc, random.word g good))
  create-IsMade SuperscalarInstructionType.iadd_c9 c g good =
      (_, refl, (omega arith, tt, λ e. cc, random.word g good))
  create-IsMade SuperscalarInstructionType.ixor_c7 c g good =
      (_, refl, (omega arith, tt, λ e. cc, random.word g good))
  create-IsMade SuperscalarInstructionType.ixor_c8 c g good =
      (_, refl, (omega arith, tt, λ e. cc, random.word g good))
  create-IsMade SuperscalarInstructionType.ixor_c9 c g good =
      (_, refl, (omega arith, tt, λ e. cc, random.word g good))
  create-IsMade SuperscalarInstructionType.imulh_r c g good =
      (_, refl, (omega arith, tt, λ e. cc, random.word g good))
  create-IsMade SuperscalarInstructionType.ismulh_r c g good =
      (_, refl, (omega arith, tt, λ e. cc, random.word g good))
  create-IsMade SuperscalarInstructionType.imul_rcp c g good =
      let (r, e, good') = random.divisor g good in
      let info = some SuperscalarInstructionType.imul_rcp in
      IsMade-after IsGood _
        (λ drawn. (created blake2b info info no_par 0 drawn.0 false false, drawn.1)) r e
        (omega arith, tt, λ is_rcp. draw_divisor-accepted blake2b tries g r e, good')

  drawn-IsMade :
      (slots : List SuperscalarInstructionType) (mask : ℕ) (c : Current) (g : Blake2Generator)
      → IsGood g
      → IsMade IsGood (create_drawn blake2b tries slots mask c g)
  drawn-IsMade slots mask c g good = create-IsMade _ c (get_byte blake2b g).1 (random.byte g good)

  pub create_for_slot-IsMade :
      {size : ℕ}
      → IsSlot size
      → (fetch_type : ℕ) (is_last : Bool) (c : Current) (g : Blake2Generator) → IsGood g
      → IsMade IsGood (create_for_slot blake2b tries size fetch_type is_last c g)
  unfolding create_for_slot
  create_for_slot-IsMade slot3 fetch_type true c g good = drawn-IsMade slot_3l 3 c g good
  create_for_slot-IsMade slot3 fetch_type false c g good = drawn-IsMade slot_3 1 c g good
  create_for_slot-IsMade slot4 fetch_type is_last c g good =
      elim (Bool-cases (fetch_type == 4 && not is_last)) [
        | inl all ↦ rw all (create-IsMade SuperscalarInstructionType.imul_r c g good)
        | inr other ↦ rw other (drawn-IsMade slot_4 1 c g good)
      ]
  create_for_slot-IsMade slot7 fetch_type is_last c g good = drawn-IsMade slot_7 1 c g good
  create_for_slot-IsMade slot8 fetch_type is_last c g good = drawn-IsMade slot_8 1 c g good
  create_for_slot-IsMade slot9 fetch_type is_last c g good = drawn-IsMade slot_9 1 c g good
  create_for_slot-IsMade slot10 fetch_type is_last c g good =
      create-IsMade SuperscalarInstructionType.imul_rcp c g good

  abbrev IsFetched : DecoderBuffer × Blake2Generator → Type 0
  IsFetched fetched = IsBuffer fetched.0 × IsGood fetched.1

  buffers-IsBuffer : All IsBuffer decode_buffers
  buffers-IsBuffer = (
    ((slot4, (slot8, (slot4, tt))), omega arith),
    (
      ((slot7, (slot3, (slot3, (slot3, tt)))), omega arith),
      (
        ((slot3, (slot7, (slot3, (slot3, tt)))), omega arith),
        (((slot4, (slot9, (slot3, tt))), omega arith), tt),
      ),
    ),
  )

  pub fetch_next-IsFetched :
      (info : Info) (cycle mul_count : ℕ) (g : Blake2Generator)
      → IsGood g
      → IsFetched (fetch_next blake2b info cycle mul_count g)
  unfolding fetch_next
  fetch_next-IsFetched info cycle mul_count g good =
      elim (Bool-cases (is_wide_multiplication info)) [
        | inl wide ↦ rw wide (((slot3, (slot3, (slot10, tt))), omega arith), good)
        | inr narrow ↦ rw narrow (elim (Bool-cases (ltb mul_count (cycle + 1))) [
          | inl starved ↦ rw starved (((slot4, (slot4, (slot4, (slot4, tt)))), omega arith), good)
          | inr fed ↦ rw fed (elim (Bool-cases (is_imul_rcp info)) [
            | inl rcp ↦ rw rcp (elim (Bool-cases (bit_and (get_byte blake2b g).0 1 == 1)) [
              | inl odd ↦ rw odd (((slot4, (slot8, (slot4, tt))), omega arith), random.byte g good)
              | inr even ↦
                  rw even (((slot4, (slot9, (slot3, tt))), omega arith), random.byte g good)
            ])
            | inr other ↦ rw other (
              get_or-All IsBuffer decode_buffers (bit_and (get_byte blake2b g).0 3) buffer484
                  buffers-IsBuffer ((slot4, (slot8, (slot4, tt))), omega arith),
              random.byte g good,
            )
          ])
        ])
      ]
