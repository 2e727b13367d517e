-- ===== src/Vm/Effects.antt =====
-- What one instruction of the bytecode may do: which integer registers it writes, and when its
-- accesses stay inside the scratchpad.
use armrx_aarch64_random_x_v.Common.{
  ℕ, ◌+◌, ◌≤◌, bit_and, ◌≡◌, refl, arith, Bool, false, ◌||◌, ◌==◌, Option, some, update, le→leb, ap,
  u32, u64, add64, sub64, mul64, bit_xor,
}
use armrx_aarch64_random_x_v.Common.Bits.{bit_and-le}
use armrx_aarch64_random_x_v.Vm.Types.{
  InstructionType, ByteCode, Source, reg, FloatSlot, f_at, e_at, a_at, FloatRegister, Machine, Fpu,
}
use armrx_aarch64_random_x_v.Vm.Words.{rotr, mulh, smulh}
use armrx_aarch64_random_x_v.Vm.Memory.{
  Bytes, load_le, store_le, load64, load32, store64, scratchpad_l3_mask, scratchpad_bytes,
}
use armrx_aarch64_random_x_v.Vm.Execute.{
  get_scratchpad_address, alu_mem, load_floats, float_mem, set_rounding_mode, exec_op, write_dst,
  write_slot, source_value, swap_registers, zip_float, mask_both,
}

abbrev source_is : Source → ℕ → Bool
source_is (reg n) c = n == c
source_is _ c = false

-- Whether an instruction of this type writes the integer register `c`.
abbrev pub writes : InstructionType → ByteCode → ℕ → Bool
writes InstructionType.imul_rcp ibc c = false
writes InstructionType.iswap_r ibc c = (ibc.idst == c) || source_is ibc.isrc c
writes InstructionType.fswap_r ibc c = false
writes InstructionType.fadd_r ibc c = false
writes InstructionType.fadd_m ibc c = false
writes InstructionType.fsub_r ibc c = false
writes InstructionType.fsub_m ibc c = false
writes InstructionType.fscal_r ibc c = false
writes InstructionType.fmul_r ibc c = false
writes InstructionType.fdiv_m ibc c = false
writes InstructionType.fsqrt_r ibc c = false
writes InstructionType.cfround ibc c = false
writes InstructionType.istore ibc c = false
writes InstructionType.nop ibc c = false
writes _ ibc c = ibc.idst == c

abbrev InBounds : ByteCode → Type 0
InBounds ibc = ibc.mem_mask ≤ scratchpad_l3_mask

-- What the handler of this type must have written for the instruction not to fault.
abbrev pub IsSafe : InstructionType → ByteCode → Type 0
IsSafe InstructionType.iadd_m ibc = InBounds ibc
IsSafe InstructionType.isub_m ibc = InBounds ibc
IsSafe InstructionType.imul_m ibc = InBounds ibc
IsSafe InstructionType.imulh_m ibc = InBounds ibc
IsSafe InstructionType.ismulh_m ibc = InBounds ibc
IsSafe InstructionType.ixor_m ibc = InBounds ibc
IsSafe InstructionType.fadd_m ibc = InBounds ibc
IsSafe InstructionType.fsub_m ibc = InBounds ibc
IsSafe InstructionType.fdiv_m ibc = InBounds ibc
IsSafe InstructionType.istore ibc = InBounds ibc
IsSafe InstructionType.iswap_r ibc = (n : ℕ) × (ibc.isrc ≡ reg n)
IsSafe _ ibc = Unit {0}

-- A result that is no fault and keeps the registers outside `w`.
abbrev Keeps : (ℕ → Bool) → Machine → Option Machine → Type 0
Keeps w s r = (s' : Machine) × (r ≡ some s') × ((c : ℕ) → w c ≡ false → s'.r c ≡ s.r c)

pub load64_in :
    (mem : Bytes) (a mask : ℕ)
    → mask ≤ scratchpad_l3_mask
    → load64 mem (bit_and a mask) ≡ some (load_le 8 mem (bit_and a mask))
unfolding load64
load64_in mem a mask h =
    rw (le→leb (bit_and a mask + 8) scratchpad_bytes (omega (arith, bit_and-le a mask)))

pub store64_in :
    (mem : Bytes) (a mask v : ℕ)
    → mask ≤ scratchpad_l3_mask
    → store64 mem (bit_and a mask) v ≡ some (store_le 8 mem (bit_and a mask) v)
unfolding store64
store64_in mem a mask v h =
    rw (le→leb (bit_and a mask + 8) scratchpad_bytes (omega (arith, bit_and-le a mask)))

pub load_floats_in :
    (fpu : Fpu) (mem : Bytes) (a mask : ℕ)
    → mask ≤ scratchpad_l3_mask
    → (v : FloatRegister) × (load_floats fpu mem (bit_and a mask) ≡ some v)
unfolding load_floats load32
load_floats_in fpu mem a mask h = (
  record {
    lo = fpu.of_int32 (load_le 4 mem (bit_and a mask));
    hi = fpu.of_int32 (load_le 4 mem (bit_and a mask + 4));
  },
  ground (arith, bit_and-le a mask),
)

pub write_dst-Keeps :
    (ibc : ByteCode) (v : ℕ) (s : Machine) → Keeps (λ c. ibc.idst == c) s (some (write_dst ibc v s))
write_dst-Keeps ibc v s = (write_dst ibc v s, refl, λ c other. rw other)

alu_mem-Keeps :
    (op : ℕ → ℕ → ℕ) (ibc : ByteCode) (s : Machine)
    → InBounds ibc
    → Keeps (λ c. ibc.idst == c) s (alu_mem op ibc s)
unfolding alu_mem get_scratchpad_address
alu_mem-Keeps op ibc s h =
    rw
      (
        load64_in s.scratchpad (u32 (u32 (source_value ibc.isrc ibc s) + u32 ibc.imm)) ibc.mem_mask
            h,
        alu_mem,
      )
      (write_dst-Keeps ibc _ s)

write_slot-Keeps :
    (slot : FloatSlot) (v : FloatRegister) (s : Machine)
    → Keeps (λ c. false) s (some (write_slot slot v s))
write_slot-Keeps (f_at n) v s = (record s { f = update s.f n v }, refl, λ c h. refl)
write_slot-Keeps (e_at n) v s = (record s { e = update s.e n v }, refl, λ c h. refl)
write_slot-Keeps (a_at n) v s = (record s { a = update s.a n v }, refl, λ c h. refl)

float_mem-Keeps :
    (fpu : Fpu) (op : FloatRegister → FloatRegister → FloatRegister) (ibc : ByteCode) (s : Machine)
    → InBounds ibc
    → Keeps (λ c. false) s (float_mem fpu op ibc s)
unfolding float_mem get_scratchpad_address
float_mem-Keeps fpu op ibc s h =
    let found =
      load_floats_in fpu s.scratchpad (u32 (u32 (source_value ibc.isrc ibc s) + u32 ibc.imm))
        ibc.mem_mask h in
    rw (found.1, float_mem) (write_slot-Keeps ibc.fdst _ s)

set_rounding_mode-r : (mode : ℕ) (s : Machine) → (set_rounding_mode mode s).r ≡ s.r
unfolding set_rounding_mode
set_rounding_mode-r mode s = ground arith

swap-Keeps :
    (ibc : ByteCode) (s : Machine)
    → (n : ℕ) × (ibc.isrc ≡ reg n)
    → Keeps (writes InstructionType.iswap_r ibc) s (swap_registers ibc.isrc ibc s)
swap-Keeps ibc s (n, e) = rw e (
  record s { r = update (update s.r n (s.r ibc.idst)) ibc.idst (s.r n) },
  refl,
  λ c h. ground arith,
)

istore-Keeps :
    (fpu : Fpu) (e_mask : ℕ → ℕ) (ibc : ByteCode) (s : Machine)
    → InBounds ibc
    → Keeps (λ c. false) s (exec_op fpu e_mask InstructionType.istore ibc s)
unfolding exec_op
istore-Keeps fpu e_mask ibc s h =
    rw
      (store64_in s.scratchpad (u64 (s.r ibc.idst + ibc.imm)) ibc.mem_mask
        (source_value ibc.isrc ibc s) h)
      (_, refl, λ c k. refl)

-- A safe instruction does not fault, and changes no register but those it `writes`.
pub exec_op-Keeps :
    (fpu : Fpu) (e_mask : ℕ → ℕ) (t : InstructionType) (ibc : ByteCode) (s : Machine)
    → IsSafe t ibc
    → Keeps (writes t ibc) s (exec_op fpu e_mask t ibc s)
unfolding exec_op
exec_op-Keeps fpu e_mask InstructionType.iadd_rs ibc s h = write_dst-Keeps ibc _ s
exec_op-Keeps fpu e_mask InstructionType.iadd_m ibc s h = alu_mem-Keeps add64 ibc s h
exec_op-Keeps fpu e_mask InstructionType.isub_r ibc s h = write_dst-Keeps ibc _ s
exec_op-Keeps fpu e_mask InstructionType.isub_m ibc s h = alu_mem-Keeps sub64 ibc s h
exec_op-Keeps fpu e_mask InstructionType.imul_r ibc s h = write_dst-Keeps ibc _ s
exec_op-Keeps fpu e_mask InstructionType.imul_m ibc s h = alu_mem-Keeps mul64 ibc s h
exec_op-Keeps fpu e_mask InstructionType.imulh_r ibc s h = write_dst-Keeps ibc _ s
exec_op-Keeps fpu e_mask InstructionType.imulh_m ibc s h = alu_mem-Keeps mulh ibc s h
exec_op-Keeps fpu e_mask InstructionType.ismulh_r ibc s h = write_dst-Keeps ibc _ s
exec_op-Keeps fpu e_mask InstructionType.ismulh_m ibc s h = alu_mem-Keeps smulh ibc s h
exec_op-Keeps fpu e_mask InstructionType.imul_rcp ibc s h = (s, refl, λ c k. refl)
exec_op-Keeps fpu e_mask InstructionType.ineg_r ibc s h = write_dst-Keeps ibc _ s
exec_op-Keeps fpu e_mask InstructionType.ixor_r ibc s h = write_dst-Keeps ibc _ s
exec_op-Keeps fpu e_mask InstructionType.ixor_m ibc s h = alu_mem-Keeps bit_xor ibc s h
exec_op-Keeps fpu e_mask InstructionType.iror_r ibc s h = write_dst-Keeps ibc _ s
exec_op-Keeps fpu e_mask InstructionType.irol_r ibc s h = write_dst-Keeps ibc _ s
exec_op-Keeps fpu e_mask InstructionType.iswap_r ibc s h = swap-Keeps ibc s h
exec_op-Keeps fpu e_mask InstructionType.fswap_r ibc s h = write_slot-Keeps ibc.fdst _ s
exec_op-Keeps fpu e_mask InstructionType.fadd_r ibc s h = write_slot-Keeps ibc.fdst _ s
exec_op-Keeps fpu e_mask InstructionType.fadd_m ibc s h =
    float_mem-Keeps fpu (zip_float (fpu.add s.fpu_mode)) ibc s h
exec_op-Keeps fpu e_mask InstructionType.fsub_r ibc s h = write_slot-Keeps ibc.fdst _ s
exec_op-Keeps fpu e_mask InstructionType.fsub_m ibc s h =
    float_mem-Keeps fpu (zip_float (fpu.sub s.fpu_mode)) ibc s h
exec_op-Keeps fpu e_mask InstructionType.fscal_r ibc s h = write_slot-Keeps ibc.fdst _ s
exec_op-Keeps fpu e_mask InstructionType.fmul_r ibc s h = write_slot-Keeps ibc.fdst _ s
exec_op-Keeps fpu e_mask InstructionType.fdiv_m ibc s h =
    float_mem-Keeps fpu (λ d v. zip_float (fpu.div s.fpu_mode) d (mask_both e_mask v)) ibc s h
exec_op-Keeps fpu e_mask InstructionType.fsqrt_r ibc s h = write_slot-Keeps ibc.fdst _ s
exec_op-Keeps fpu e_mask InstructionType.cbranch ibc s h = write_dst-Keeps ibc _ s
exec_op-Keeps fpu e_mask InstructionType.cfround ibc s h = (
  set_rounding_mode (rotr (source_value ibc.isrc ibc s) ibc.imm) s,
  refl,
  λ c k. ap (λ (r : ℕ → ℕ). r c) (set_rounding_mode-r _ s),
)
exec_op-Keeps fpu e_mask InstructionType.istore ibc s h = istore-Keeps fpu e_mask ibc s h
exec_op-Keeps fpu e_mask InstructionType.nop ibc s h = (s, refl, λ c k. refl)
