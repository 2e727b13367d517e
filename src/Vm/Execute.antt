-- ===== src/Vm/Execute.antt =====
-- `execute_bytecode` of src/vm.cpp. The observation hook of IMUL_R, which is null unless a
-- benchmark sets it and changes no state, is left out.
use armrx_aarch64_random_x_v.Common.{
  ℕ, zero, suc, ◌+◌, ◌%◌, bit_and, bit_xor, Bool, Option, none, some, if◌then◌else◌, ltb, ◌==◌,
  update, ◌>>=◌, u32, u64, add64, sub64, mul64, not64, shl64,
}
use armrx_aarch64_random_x_v.Vm.Types.{
  InstructionType, ByteCode, Source, reg, own_imm, zero_val, FloatSlot, f_at, e_at, a_at,
  FloatRegister, Machine, Fpu,
}
use armrx_aarch64_random_x_v.Vm.Words.{rotr, rotl, mulh, smulh, mask_e}
use armrx_aarch64_random_x_v.Vm.Memory.{load64, load32, store64}
use armrx_aarch64_random_x_v.Vm.Compile.Table.{Code}

-- `*ibc.isrc`.
abbrev pub source_value : Source → ByteCode → Machine → ℕ
source_value (reg n) ibc s = s.r n
source_value own_imm ibc s = ibc.imm
source_value zero_val ibc s = 0

-- `getScratchpadAddress`.
unfoldable pub get_scratchpad_address : ByteCode → Machine → ℕ
get_scratchpad_address ibc s =
    bit_and (u32 (u32 (source_value ibc.isrc ibc s) + u32 ibc.imm)) ibc.mem_mask

abbrev pub read_slot : FloatSlot → Machine → FloatRegister
read_slot (f_at n) s = s.f n
read_slot (e_at n) s = s.e n
read_slot (a_at n) s = s.a n

abbrev pub write_slot : FloatSlot → FloatRegister → Machine → Machine
write_slot (f_at n) v s = record s { f = update s.f n v }
write_slot (e_at n) v s = record s { e = update s.e n v }
write_slot (a_at n) v s = record s { a = update s.a n v }

-- `*ibc.idst = v`.
abbrev pub write_dst : ByteCode → ℕ → Machine → Machine
write_dst ibc v s = record s { r = update s.r ibc.idst v }

-- `*ibc.idst = op(*ibc.idst, *ibc.isrc)`.
abbrev pub alu : (ℕ → ℕ → ℕ) → ByteCode → Machine → Option Machine
alu op ibc s = some (write_dst ibc (op (s.r ibc.idst) (source_value ibc.isrc ibc s)) s)

-- `*ibc.idst = op(*ibc.idst, load64(getScratchpadAddress(ibc, scratchpad)))`.
unfoldable pub alu_mem : (ℕ → ℕ → ℕ) → ByteCode → Machine → Option Machine
alu_mem op ibc s = do
  v ← load64 s.scratchpad (get_scratchpad_address ibc s)
  some (write_dst ibc (op (s.r ibc.idst) v) s)

-- Both halves of `*ibc.fdst` by `op`.
abbrev pub both : (ℕ → ℕ) → FloatRegister → FloatRegister
both op v = record { lo = op v.lo; hi = op v.hi }

abbrev pub float_unary : (ℕ → ℕ) → ByteCode → Machine → Option Machine
float_unary op ibc s = some (write_slot ibc.fdst (both op (read_slot ibc.fdst s)) s)

abbrev pub zip_float : (ℕ → ℕ → ℕ) → FloatRegister → FloatRegister → FloatRegister
zip_float op v w = record { lo = op v.lo w.lo; hi = op v.hi w.hi }

abbrev pub float_binary : (ℕ → ℕ → ℕ) → ByteCode → Machine → Option Machine
float_binary op ibc s =
    some (write_slot ibc.fdst (zip_float op (read_slot ibc.fdst s) (read_slot ibc.fsrc s)) s)

-- `load32(addr)` and `load32(addr + 4)`, each converted to a double.
unfoldable pub load_floats : Fpu → (ℕ → ℕ) → ℕ → Option FloatRegister
load_floats fpu mem addr = do
  lo ← load32 mem addr
  hi ← load32 mem (addr + 4)
  some (record { lo = fpu.of_int32 lo; hi = fpu.of_int32 hi })

unfoldable pub float_mem :
    Fpu → (FloatRegister → FloatRegister → FloatRegister) → ByteCode → Machine → Option Machine
float_mem fpu op ibc s = do
  v ← load_floats fpu s.scratchpad (get_scratchpad_address ibc s)
  some (write_slot ibc.fdst (op (read_slot ibc.fdst s) v) s)

-- `rx_set_rounding_mode`: the processor is asked only when the cached mode differs.
unfoldable pub set_rounding_mode : ℕ → Machine → Machine
set_rounding_mode mode s =
    if mode % 4 == s.last_rounding_mode
    then s
    else record s { last_rounding_mode = mode % 4; fpu_mode = mode % 4 }

abbrev pub fscal_mask : ℕ
fscal_mask = 0x80f0_0000_0000_0000

abbrev pub swap_halves : FloatRegister → FloatRegister
swap_halves v = record { lo = v.hi; hi = v.lo }

-- `*isrc = *idst; *idst = temp`, where `isrc` is a register.
abbrev pub swap_registers : Source → ByteCode → Machine → Option Machine
swap_registers (reg n) ibc s =
    some (record s { r = update (update s.r n (s.r ibc.idst)) ibc.idst (s.r n) })
swap_registers own_imm ibc s = none
swap_registers zero_val ibc s = none

-- The loaded divisor, made a positive number of a fixed range by the two masks.
abbrev pub mask_both : (ℕ → ℕ) → FloatRegister → FloatRegister
mask_both e_mask v = record { lo = mask_e (e_mask 0) v.lo; hi = mask_e (e_mask 1) v.hi }

module _ (fpu : Fpu) (e_mask : ℕ → ℕ) where
  -- One case of the `switch`: the change of state, or `none` for an access out of the scratchpad.
  unfoldable pub exec_op : InstructionType → ByteCode → Machine → Option Machine
  unfolding alu_mem float_mem set_rounding_mode
  exec_op InstructionType.iadd_rs ibc s =
      alu (λ d v. add64 d (add64 (shl64 v ibc.shift) ibc.imm)) ibc s
  exec_op InstructionType.iadd_m ibc s = alu_mem add64 ibc s
  exec_op InstructionType.isub_r ibc s = alu sub64 ibc s
  exec_op InstructionType.isub_m ibc s = alu_mem sub64 ibc s
  exec_op InstructionType.imul_r ibc s = alu mul64 ibc s
  exec_op InstructionType.imul_m ibc s = alu_mem mul64 ibc s
  exec_op InstructionType.imulh_r ibc s = alu mulh ibc s
  exec_op InstructionType.imulh_m ibc s = alu_mem mulh ibc s
  exec_op InstructionType.ismulh_r ibc s = alu smulh ibc s
  exec_op InstructionType.ismulh_m ibc s = alu_mem smulh ibc s
  exec_op InstructionType.imul_rcp ibc s = some s
  exec_op InstructionType.ineg_r ibc s = some (write_dst ibc (add64 (not64 (s.r ibc.idst)) 1) s)
  exec_op InstructionType.ixor_r ibc s = alu bit_xor ibc s
  exec_op InstructionType.ixor_m ibc s = alu_mem bit_xor ibc s
  exec_op InstructionType.iror_r ibc s = alu (λ d v. rotr d (bit_and v 63)) ibc s
  exec_op InstructionType.irol_r ibc s = alu (λ d v. rotl d (bit_and v 63)) ibc s
  exec_op InstructionType.iswap_r ibc s = swap_registers ibc.isrc ibc s
  exec_op InstructionType.fswap_r ibc s =
      some (write_slot ibc.fdst (swap_halves (read_slot ibc.fdst s)) s)
  exec_op InstructionType.fadd_r ibc s = float_binary (fpu.add s.fpu_mode) ibc s
  exec_op InstructionType.fadd_m ibc s = float_mem fpu (zip_float (fpu.add s.fpu_mode)) ibc s
  exec_op InstructionType.fsub_r ibc s = float_binary (fpu.sub s.fpu_mode) ibc s
  exec_op InstructionType.fsub_m ibc s = float_mem fpu (zip_float (fpu.sub s.fpu_mode)) ibc s
  exec_op InstructionType.fscal_r ibc s = float_unary (λ v. bit_xor v fscal_mask) ibc s
  exec_op InstructionType.fmul_r ibc s = float_binary (fpu.mul s.fpu_mode) ibc s
  exec_op InstructionType.fdiv_m ibc s =
      float_mem fpu (λ d v. zip_float (fpu.div s.fpu_mode) d (mask_both e_mask v)) ibc s
  exec_op InstructionType.fsqrt_r ibc s = float_unary (fpu.sqrt s.fpu_mode) ibc s
  exec_op InstructionType.cbranch ibc s = some (write_dst ibc (add64 (s.r ibc.idst) ibc.imm) s)
  exec_op InstructionType.cfround ibc s =
      some (set_rounding_mode (rotr (source_value ibc.isrc ibc s) ibc.imm) s)
  exec_op InstructionType.istore ibc s = do
    mem ←
        store64 s.scratchpad (bit_and (u64 (s.r ibc.idst + ibc.imm)) ibc.mem_mask)
          (source_value ibc.isrc ibc s)
    some (record s { scratchpad = mem })
  exec_op InstructionType.nop ibc s = some s

-- `pc = target` and then `++pc`.
abbrev pub resume : Option ℕ → ℕ
resume none = 0
resume (some t) = suc t

-- The branch is taken if the condition bits of the new register value are zero.
unfoldable pub taken : ByteCode → Machine → Bool
taken ibc s = bit_and (s.r ibc.idst) ibc.mem_mask == 0

unfoldable pub next_pc : InstructionType → ByteCode → Machine → ℕ → ℕ
unfolding taken
next_pc InstructionType.cbranch ibc s pc = if taken ibc s then resume ibc.target else suc pc
next_pc _ ibc s pc = suc pc

pub data Outcome : Type 0 where
  halted : Machine → Outcome
  faulted out_of_fuel : Outcome

abbrev pub or_fault : Option Machine → (Machine → Outcome) → Outcome
or_fault none k = faulted
or_fault (some s) k = k s

module _ (fpu : Fpu) (e_mask : ℕ → ℕ) (code : Code) where
  -- `for (pc = 0; pc < 256; ++pc) switch (bytecode_[pc].type) …` from `pc` on.
  unfoldable pub execute : ℕ → ℕ → Machine → Outcome
  unfolding exec_op next_pc
  execute zero pc s = out_of_fuel
  execute (suc fuel) pc s =
      let ibc = code pc in
      let rest =
        or_fault (exec_op fpu e_mask ibc.type ibc s)
          λ s'. execute fuel (next_pc ibc.type ibc s' pc) s' in
      if ltb pc 256 then rest else halted s
