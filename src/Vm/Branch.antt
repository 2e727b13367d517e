-- ===== src/Vm/Branch.antt =====
-- The arithmetic of CBRANCH in src/vm.cpp: repeated additions of its immediate to a register.
use native.Mathlib.Nat.{
  one-le-pow, mul-add-div_right, add-mul-div_right, add-mul-mod_self_right, div-add-mod', mod-lt,
  add-mod, div-eq_of_lt, mod-eq-sub-mod, mod-eq_of_lt,
}
use armrx_aarch64_random_x_v.Common.{
  ℕ, dec_le, ◌+◌, ◌-◌, ◌*◌, ◌/◌, ◌%◌, ◌^◌, ◌≤◌, ◌<◌, bit_and, bit_or, ◌≡◌, ◌≢◌, refl, arith, add64,
  u32, u64, shl64, not64, Bool, true, false, inl, inr, Bool-cases, ==_iff, ◌&&◌, ◌==◌, ◌∙◌, ap, sym,
}
use armrx_aarch64_random_x_v.Common.Bits.{
  mod-lt-half, byte_of_bit_and, passes, passes-at, bit_and-digit, bit_or-digit,
}
use armrx_aarch64_random_x_v.Vm.Words.{sign_extend}
use armrx_aarch64_random_x_v.Vm.Types.{Instruction, ByteCode, Machine, get_mod_cond}
use armrx_aarch64_random_x_v.Vm.Compile.Defs.{Usage}
use armrx_aarch64_random_x_v.Vm.Compile.Integer.{branch_imm, h_cbranch}
use armrx_aarch64_random_x_v.Vm.Execute.{taken}

-- A sum's quotient is the sum of the quotients and a carry.
div-add : (m x y : ℕ) → 0 < m → (x + y) / m ≡ x / m + y / m + (x % m + y % m) / m
div-add m x y pos =
    ap (λ (t : ℕ). t / m) regroup ∙ mul-add-div_right pos (x / m + y / m) (x % m + y % m)
  where
    regroup : x + y ≡ (x / m + y / m) * m + (x % m + y % m)
    regroup = omega (arith, div-add-mod' x m, div-add-mod' y m)

module _ (m k : ℕ) (pos : 0 < m) (width : 2 ^ 64 ≡ k * 256 * m) where
  split_wrap : (z : ℕ) → z ≡ u64 z + (z / 2 ^ 64 * k * 256) * m
  split_wrap z = omega (arith, ap (λ (t : ℕ). z / 2 ^ 64 * t) width)

  -- The byte at `m` is not changed by the wrap at 2 ^ 64, nor are the digits below it.
  byte-u64 : (z : ℕ) → u64 z / m % 256 ≡ z / m % 256
  byte-u64 z = omega (
    arith,
    ap (λ (t : ℕ). t / m) (split_wrap z),
    add-mul-div_right (u64 z) (z / 2 ^ 64 * k * 256) pos,
  )

  low-u64 : (z : ℕ) → u64 z % m ≡ z % m
  low-u64 z = sym (
      ap (λ (t : ℕ). t % m) (split_wrap z)
      ∙ add-mul-mod_self_right (u64 z) (z / 2 ^ 64 * k * 256) m)

  module _ (imm : ℕ) (odd : imm / m % 2 ≡ 1) (low : imm % m * 2 < m) where
    byte-add : (x : ℕ) → add64 x imm / m % 256 ≡ (x / m + imm / m + (x % m + imm % m) / m) % 256
    byte-add x = byte-u64 (x + imm) ∙ ap (λ (t : ℕ). t % 256) (div-add m x imm pos)

    low-add : (x : ℕ) → add64 x imm % m ≡ (x % m + imm % m) % m
    low-add x = low-u64 (x + imm) ∙ add-mod x imm m

    -- Zero bytes before and after an addition mean that it carried into them.
    zero_again : (x : ℕ) → x / m % 256 ≡ 0 → add64 x imm / m % 256 ≡ 0 → m ≤ x % m + imm % m
    zero_again x before after = elim (dec_le m (x % m + imm % m)) [
      | yes carry ↦ carry
      | no stays ↦
          let none : (x % m + imm % m) / m ≡ 0 = div-eq_of_lt (omega arith) in
          absurd (omega (arith, byte-add x))
    ]

    no_third :
        (x : ℕ)
        → x / m % 256 ≡ 0
        → add64 x imm / m % 256 ≡ 0
        → add64 (add64 x imm) imm / m % 256 ≢ 0
    no_third x first second third =
        let carry : m ≤ x % m + imm % m = zero_again x first second in
        let again : m ≤ add64 x imm % m + imm % m = zero_again (add64 x imm) second third in
        let rest : (x % m + imm % m) % m ≡ x % m + imm % m - m =
          mod-eq-sub-mod carry ∙ mod-eq_of_lt (omega (arith, mod-lt x pos)) in
        omega (arith, low-add x, mod-lt x pos)

-- The facts about the 16 places of the condition byte, by evaluation.
abbrev place_ok : ℕ → Bool
place_ok d =
    (2 ^ 64 == 2 ^ (48 - d) * 256 * 2 ^ (d + 8))
    && (u32 (255 * 2 ^ (d + 8)) == 255 * 2 ^ (d + 8))
    && (shl64 1 (d + 8) == 2 ^ (d + 8))
    && (2 ^ (d + 8) / 2 ^ (d + 8) % 2 == 1)
    && (not64 (shl64 1 (d + 7)) / 2 ^ (d + 8) % 2 == 1)
    && (not64 (shl64 1 (d + 7)) / 2 ^ (d + 7) % 2 == 0)
    && (2 ^ (d + 8) == 2 * 2 ^ (d + 7))

places_ok : passes place_ok 16 ≡ true
unfolding passes
places_ok = refl

place : (d : ℕ) → d < 16 → place_ok d ≡ true
place d h = passes-at place_ok 16 d h places_ok

record Place (d : ℕ) : Type 0 where
  width : 2 ^ 64 ≡ 2 ^ (48 - d) * 256 * 2 ^ (d + 8)
  narrow : u32 (255 * 2 ^ (d + 8)) ≡ 255 * 2 ^ (d + 8)
  bit : shl64 1 (d + 8) ≡ 2 ^ (d + 8)
  self : 2 ^ (d + 8) / 2 ^ (d + 8) % 2 ≡ 1
  kept : not64 (shl64 1 (d + 7)) / 2 ^ (d + 8) % 2 ≡ 1
  cleared : not64 (shl64 1 (d + 7)) / 2 ^ (d + 7) % 2 ≡ 0
  double : 2 ^ (d + 8) ≡ 2 * 2 ^ (d + 7)

Place_lem : (d : ℕ) → d < 16 → Place d
Place_lem d h = let p = place d h in ground arith

-- The immediate of a branch has the digit at the shift and lacks the one below.
module _ (d imm32 : ℕ) (h : d < 16) where
  set_bit : ℕ
  set_bit = bit_or (sign_extend imm32) (shl64 1 (d + 8))

  branch_imm_form : branch_imm imm32 (d + 8) ≡ bit_and set_bit (not64 (shl64 1 (d + 7)))
  unfolding branch_imm set_bit
  branch_imm_form = let e : d + 8 - 1 ≡ d + 7 = omega arith in rw e refl

  branch_imm_odd : branch_imm imm32 (d + 8) / 2 ^ (d + 8) % 2 ≡ 1
  unfolding set_bit
  branch_imm_odd =
      let p = Place_lem d h in
      rw branch_imm_form (
        omega (
          arith,
          bit_and-digit (d + 8) set_bit (not64 (shl64 1 (d + 7))),
          bit_or-digit (d + 8) (sign_extend imm32) (shl64 1 (d + 8)),
          p.self,
          p.kept,
          ap (λ (t : ℕ). t / 2 ^ (d + 8) % 2) p.bit,
        ))

  branch_imm_low : branch_imm imm32 (d + 8) % 2 ^ (d + 8) * 2 < 2 ^ (d + 8)
  branch_imm_low =
      let p = Place_lem d h in
      rw branch_imm_form (
        mod-lt-half (d + 7) (2 ^ (d + 8)) (bit_and set_bit (not64 (shl64 1 (d + 7)))) p.double
          (omega (arith, bit_and-digit (d + 7) set_bit (not64 (shl64 1 (d + 7))), p.cleared)))

-- What makes a compiled branch sound: a condition byte at `d + 8`, and an immediate that has the
-- byte's lowest digit and not the digit below.
pub record IsBranch (ibc : ByteCode) : Type 0 where
  pub d : ℕ
  pub small : d < 16
  pub mask : ibc.mem_mask ≡ 255 * 2 ^ (d + 8)
  pub odd : ibc.imm / 2 ^ (d + 8) % 2 ≡ 1
  pub low : ibc.imm % 2 ^ (d + 8) * 2 < 2 ^ (d + 8)

pub h_cbranch-IsBranch :
    (instr : Instruction) (i : ℕ) (usage : Usage) (ibc : ByteCode)
    → instr.mod_byte < 256
    → IsBranch (h_cbranch instr i usage ibc).1
unfolding h_cbranch
h_cbranch-IsBranch instr i usage ibc byte = record {
  d = get_mod_cond instr;
  small = omega arith;
  mask = (Place_lem (get_mod_cond instr) (omega arith)).narrow;
  odd = branch_imm_odd (get_mod_cond instr) instr.imm32 (omega arith);
  low = branch_imm_low (get_mod_cond instr) instr.imm32 (omega arith);
}

-- `taken` reads the condition byte.
byte_of_taken :
    (ibc : ByteCode) (b : IsBranch ibc) (s : Machine)
    → taken ibc s ≡ true
    → s.r ibc.idst / 2 ^ (b.d + 8) % 256 ≡ 0
unfolding taken
byte_of_taken ibc b s h =
    byte_of_bit_and (b.d + 8) (s.r ibc.idst) ibc.mem_mask b.mask ((==_iff _ 0).0 h)

-- With additions of its immediate alone, a branch is taken at most twice in a row.
pub taken_twice :
    (ibc : ByteCode) (b : IsBranch ibc) (s t u : Machine)
    → t.r ibc.idst ≡ add64 (s.r ibc.idst) ibc.imm
    → u.r ibc.idst ≡ add64 (t.r ibc.idst) ibc.imm
    → taken ibc s ≡ true
    → taken ibc t ≡ true
    → taken ibc u ≡ false
taken_twice ibc b s t u et eu hs ht = elim (Bool-cases (taken ibc u)) [
  | inr no_more ↦ no_more
  | inl hu ↦
      let p = Place_lem b.d b.small in
      absurd (
        no_third (2 ^ (b.d + 8)) (2 ^ (48 - b.d)) (one-le-pow (b.d + 8) 2 (omega arith)) p.width
          ibc.imm b.odd b.low (s.r ibc.idst) (byte_of_taken ibc b s hs)
          (rw (← et) (byte_of_taken ibc b t ht)) (rw (← et, ← eu) (byte_of_taken ibc b u hu)))
]

-- A compiled CBRANCH whose register only its own additions change is taken at most twice in a row,
-- whatever the instruction, the register's value and the `register_usage_` it was compiled under.
pub h_cbranch-taken_twice :
    (instr : Instruction) (i : ℕ) (usage : Usage) (old : ByteCode) (s t u : Machine)
    → instr.mod_byte < 256
    → let ibc = (h_cbranch instr i usage old).1 in
      t.r ibc.idst ≡ add64 (s.r ibc.idst) ibc.imm
      → u.r ibc.idst ≡ add64 (t.r ibc.idst) ibc.imm
      → taken ibc s ≡ true
      → taken ibc t ≡ true
      → taken ibc u ≡ false
h_cbranch-taken_twice instr i usage old s t u byte et eu hs ht =
    taken_twice (h_cbranch instr i usage old).1 (h_cbranch-IsBranch instr i usage old byte) s t u et
      eu hs ht
