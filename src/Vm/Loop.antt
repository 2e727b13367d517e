-- ===== src/Vm/Loop.antt =====
-- `dataset_read` and `run_interpreted`. A result `none` is an access out of the scratchpad, an
-- exception of `generate_dataset_item`, or bytecode that runs for more than 769 rounds.
use armrx_aarch64_random_x_v.Common.{
  ℕ, zero, suc, ◌+◌, ◌*◌, ◌/◌, bit_and, bit_xor, Option, none, some, if◌then◌else◌, ltb, update,
  ◌>>=◌, u32, shr,
}
use armrx_aarch64_random_x_v.Vm.Types.{Instruction, Machine, Fpu}
use armrx_aarch64_random_x_v.Vm.Memory.{Bytes, load_le, load64, store64, scratchpad_l3_mask64}
use armrx_aarch64_random_x_v.Vm.Compile.Table.{Code, compile_program}
use armrx_aarch64_random_x_v.Vm.Execute.{
  load_floats, mask_both, zip_float, execute, Outcome, halted, faulted, out_of_fuel,
}
use armrx_aarch64_random_x_v.Vm.Setup.{VirtualMachine, line_mask}
use armrx_aarch64_random_x_v.Dataset.Cache.{Cache, Item}
use armrx_aarch64_random_x_v.Dataset.Items.{generate_dataset_item}

-- `for (i = 0; i < n; ++i)` from `i` on, with `left` rounds to go.
unfoldable pub loop {ℓ} : {S : Type ℓ} → (ℕ → S → Option S) → ℕ → ℕ → S → Option S
loop body zero i s = some s
loop body (suc left) i s = do s' ← body i s; loop body left (i + 1) s'

-- Fast mode reads a dataset of `size` bytes; light mode derives the item from the cache.
pub data DatasetSource : Type 0 where
  fast : ℕ → Bytes → DatasetSource
  light : Cache → DatasetSource

abbrev pub xor_item : Item → (ℕ → ℕ) → ℕ → ℕ
xor_item item r i = if ltb i 8 then bit_xor (r i) (item i) else r i

unfoldable pub dataset_read : DatasetSource → ℕ → (ℕ → ℕ) → Option (ℕ → ℕ)
dataset_read (fast size bytes) address r =
    if ltb size (address + 64)
    then some r
    else some (xor_item (λ i. load_le 8 bytes (address + 8 * i)) r)
dataset_read (light cache) address r = do
  item ← generate_dataset_item cache (u32 (address / 64))
  some (xor_item item r)

abbrev pub xor_load : ℕ → ℕ → Machine → Option Machine
xor_load addr i s = do
  v ← load64 s.scratchpad (addr + 8 * i)
  some (record s { r = update s.r i (bit_xor (s.r i) v) })

abbrev pub load_f : Fpu → ℕ → ℕ → Machine → Option Machine
load_f fpu addr i s = do
  v ← load_floats fpu s.scratchpad (addr + 8 * i)
  some (record s { f = update s.f i v })

abbrev pub load_e : Fpu → (ℕ → ℕ) → ℕ → ℕ → Machine → Option Machine
load_e fpu e_mask addr i s = do
  v ← load_floats fpu s.scratchpad (addr + 8 * (4 + i))
  some (record s { e = update s.e i (mask_both e_mask v) })

abbrev pub store_r : ℕ → ℕ → Machine → Option Machine
store_r addr i s = do
  mem ← store64 s.scratchpad (addr + 8 * i) (s.r i)
  some (record s { scratchpad = mem })

abbrev pub xor_e : ℕ → Machine → Option Machine
xor_e i s = some (record s { f = update s.f i (zip_float bit_xor (s.f i) (s.e i)) })

-- The 16 bytes of `reg_.f[i]`.
abbrev pub store_f : ℕ → ℕ → Machine → Option Machine
store_f addr i s = do
  mem ← store64 s.scratchpad (addr + 16 * i) (s.f i).lo
  mem' ← store64 mem (addr + 16 * i + 8) (s.f i).hi
  some (record s { scratchpad = mem' })

abbrev pub of_outcome : Outcome → Option Machine
of_outcome (halted s) = some s
of_outcome faulted = none
of_outcome out_of_fuel = none

-- The local variables `spAddr0` and `spAddr1`, and the members.
pub record Running : Type 0 where
  pub sp_addr0 : ℕ
  pub sp_addr1 : ℕ
  pub vm : VirtualMachine

abbrev pub read_ptr : VirtualMachine → ℕ
read_ptr vm = vm.dataset_offset + bit_and vm.ma line_mask

module _ (fpu : Fpu) (code : Code) where
  -- What an iteration does before and with the bytecode.
  unfoldable pub enter : VirtualMachine → ℕ → ℕ → Option Machine
  unfolding loop
  enter vm addr0 addr1 = do
    s₁ ← loop (xor_load addr0) 8 0 vm.machine
    s₂ ← loop (load_f fpu addr1) 4 0 s₁
    s₃ ← loop (load_e fpu vm.e_mask addr1) 4 0 s₂
    of_outcome (execute fpu vm.e_mask code 769 0 s₃)

  -- What it does after the dataset is read.
  unfoldable pub leave : ℕ → ℕ → Machine → Option Machine
  unfolding loop
  leave addr0 addr1 s = do
    s₁ ← loop (store_r addr1) 8 0 s
    s₂ ← loop xor_e 4 0 s₁
    loop (store_f addr0) 4 0 s₂

  -- An iteration, given what `dataset_read` does to the registers at the iteration's address.
  unfoldable pub iterate_reading : ((ℕ → ℕ) → Option (ℕ → ℕ)) → Running → Option Running
  unfolding enter leave
  iterate_reading read l =
      let vm = l.vm in
      let sp_mix = bit_xor (vm.machine.r vm.read_reg0) (vm.machine.r vm.read_reg1) in
      let addr0 = bit_and (bit_xor l.sp_addr0 (u32 sp_mix)) scratchpad_l3_mask64 in
      let addr1 = bit_and (bit_xor l.sp_addr1 (u32 (shr sp_mix 32))) scratchpad_l3_mask64 in
      do
        s ← enter vm addr0 addr1
        let mixed = bit_xor vm.mx (u32 (bit_xor (s.r vm.read_reg2) (s.r vm.read_reg3)))
        r ← read s.r
        s' ← leave addr0 addr1 (record s { r = r })
        some (record {
          sp_addr0 = 0;
          sp_addr1 = 0;
          vm = record vm { machine = s'; ma = mixed; mx = vm.ma };
        })

unfoldable pub iteration : Fpu → DatasetSource → Code → ℕ → Running → Option Running
unfolding iterate_reading dataset_read
iteration fpu source code ic l = iterate_reading fpu code (dataset_read source (read_ptr l.vm)) l

abbrev pub final_vm : Option Running → Option VirtualMachine
final_vm none = none
final_vm (some l) = some l.vm

unfoldable pub run_interpreted :
    Fpu → DatasetSource → (ℕ → Instruction) → Code → VirtualMachine → Option VirtualMachine
unfolding iteration
run_interpreted fpu source program old vm = final_vm (
    loop (iteration fpu source (compile_program program old)) 2048 0
      (record { sp_addr0 = vm.mx; sp_addr1 = vm.ma; vm = vm }))
