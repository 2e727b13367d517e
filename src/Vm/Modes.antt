-- ===== src/Vm/Modes.antt =====
-- Fast mode against light mode in src/vm.cpp.
use mathlib.Core.Path.{fun_ext}
use armrx_aarch64_random_x_v.Common.{
  ℕ, zero, suc, ◌+◌, ◌*◌, ◌/◌, ◌%◌, ◌≡◌, ◌<◌, ◌≤◌, ap, arith, refl, Option, some, bit_xor,
  if◌then◌else◌, ltb, ge→ltb, Bool-cases, inl, inr, ltb→lt, u32,
}
use armrx_aarch64_random_x_v.Vm.Types.{Instruction, Fpu}
use armrx_aarch64_random_x_v.Vm.Memory.{Bytes, load_le}
use armrx_aarch64_random_x_v.Vm.Compile.Table.{Code, compile_program}
use armrx_aarch64_random_x_v.Vm.Setup.{VirtualMachine, initialize_vm_state}
use armrx_aarch64_random_x_v.Vm.Loop.{
  loop, fast, light, dataset_read, Running, read_ptr, iterate_reading, iteration, final_vm,
  run_interpreted,
}
use armrx_aarch64_random_x_v.Vm.Running.{
  IsSetUp, IsReadable, read_ptr-IsSetUp, initialize_vm_state-IsSetUp, iteration-Succeeds,
}
use armrx_aarch64_random_x_v.Dataset.Cache.{Cache, Item}
use armrx_aarch64_random_x_v.Dataset.Items.{generate_dataset_item}
use armrx_aarch64_random_x_v.Dataset.Fill.{dataset_bytes, dataset_item_count}
use armrx_aarch64_random_x_v.Dataset.Filled.{IsReady, generate_dataset_item-total}

-- The bytes of a dataset that holds the items of a cache: word `q` of item `n` is at `64 * n + 8 * q`.
abbrev pub IsDataset : Cache → Bytes → Type 0
IsDataset cache bytes =
    (n q : ℕ) (item : Item)
    → n < dataset_item_count
    → q < 8
    → generate_dataset_item cache n ≡ some item
    → load_le 8 bytes (64 * n + 8 * q) ≡ item q

module _ (cache : Cache) (bytes : Bytes) (ready : IsReady cache)
    (holds : IsDataset cache bytes) where
  -- At each address that is a multiple of 64 and leaves room for 64 bytes, both modes change the
  -- registers in the same way.
  dataset_read-modes :
      (address : ℕ) (r : ℕ → ℕ)
      → address % 64 ≡ 0
      → address + 64 ≤ dataset_bytes
      → dataset_read (fast dataset_bytes bytes) address r ≡ dataset_read (light cache) address r
  unfolding dataset_read
  dataset_read-modes address r aligned inside =
      let (item, made) = generate_dataset_item-total cache (address / 64) ready in
      let number : u32 (address / 64) ≡ address / 64 = omega arith in
      rw (ge→ltb dataset_bytes (address + 64) inside, number, made)
        (ap some (fun_ext (pointwise item made)))
    where
      pointwise :
          (item : Item)
          → generate_dataset_item cache (address / 64) ≡ some item
          → (i : ℕ)
          → (if ltb i 8 then bit_xor (r i) (load_le 8 bytes (address + 8 * i)) else r i)
            ≡ (if ltb i 8 then bit_xor (r i) (item i) else r i)
      pointwise item made i = elim (Bool-cases (ltb i 8)) [
        | inl few ↦
            let place : address + 8 * i ≡ 64 * (address / 64) + 8 * i = omega arith in
            rw (few, place, holds (address / 64) i item (omega arith) (ltb→lt i 8 few) made) refl
        | inr many ↦ rw many refl
      ]

  module _ (fpu : Fpu) (program : ℕ → Instruction) (old : Code)
      (mod_bytes : (k : ℕ) → (program k).mod_byte < 256) where
    abbrev code : Code
    code = compile_program program old

    iteration-modes :
        (ic : ℕ) (l : Running)
        → IsSetUp l.vm
        → iteration fpu (fast dataset_bytes bytes) code ic l ≡ iteration fpu (light cache) code ic l
    unfolding iteration
    iteration-modes ic l set_up =
        let (aligned, inside) = read_ptr-IsSetUp l.vm set_up in
        ap (λ (read : (ℕ → ℕ) → Option (ℕ → ℕ)). iterate_reading fpu code read l)
          (fun_ext (λ r. dataset_read-modes (read_ptr l.vm) r aligned inside))

    loop-modes :
        (left ic : ℕ) (l : Running)
        → IsSetUp l.vm
        → loop (iteration fpu (fast dataset_bytes bytes) code) left ic l
          ≡ loop (iteration fpu (light cache) code) left ic l
    unfolding loop IsReadable
    loop-modes zero ic l set_up = refl
    loop-modes (suc left) ic l set_up =
        let (l', ran, kept) =
          iteration-Succeeds fpu (light cache) program old mod_bytes ic l ready in
        let set_up' : IsSetUp l'.vm = record {
          aligned = rw kept set_up.aligned;
          small = rw kept set_up.small;
        } in
        rw (iteration-modes ic l set_up, ran) (loop-modes left (ic + 1) l' set_up')

    -- If the dataset holds the items of a ready cache, then from the state that
    -- `initialize_vm_state` makes of any entropy, `run_interpreted` gives the same machine in fast
    -- mode, from the dataset, and in light mode, from the cache.
    pub run_interpreted-modes :
        (entropy : ℕ → ℕ) (vm : VirtualMachine)
        → run_interpreted fpu
            (fast dataset_bytes bytes)
            program
            old
            (initialize_vm_state entropy vm)
          ≡ run_interpreted fpu (light cache) program old (initialize_vm_state entropy vm)
    unfolding run_interpreted
    run_interpreted-modes entropy vm = ap final_vm (
        loop-modes 2048 0
          (record {
            sp_addr0 = (initialize_vm_state entropy vm).mx;
            sp_addr1 = (initialize_vm_state entropy vm).ma;
            vm = initialize_vm_state entropy vm;
          })
          (initialize_vm_state-IsSetUp entropy vm))
