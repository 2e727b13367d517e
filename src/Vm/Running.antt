-- ===== src/Vm/Running.antt =====
-- Lemmas on `run_interpreted` of src/vm.cpp: the bounds of its accesses and its end.
use armrx_aarch64_random_x_v.Common.{
  ℕ, zero, suc, ◌+◌, ◌-◌, ◌*◌, ◌%◌, ◌^◌, ◌≡◌, ◌<◌, ◌≤◌, arith, refl, Option, some, update, bit_and,
  bit_xor, ◌>>=◌, u32, shr, ltb, ◌/◌, le→leb, Bool-cases, inl, inr,
}
use armrx_aarch64_random_x_v.Common.Bits.{bit_and-le, bit_and_field}
use armrx_aarch64_random_x_v.Vm.Types.{Instruction, Machine, Fpu}
use armrx_aarch64_random_x_v.Vm.Memory.{
  Bytes, load64, store64, load32, load_le, store_le, scratchpad_bytes, scratchpad_l3_mask64,
}
use armrx_aarch64_random_x_v.Vm.Compile.Table.{Code, compile_program}
use armrx_aarch64_random_x_v.Vm.Execute.{load_floats, mask_both}
use armrx_aarch64_random_x_v.Vm.Halting.{execute-Halts}
use armrx_aarch64_random_x_v.Vm.Setup.{VirtualMachine, line_mask, initialize_vm_state}
use armrx_aarch64_random_x_v.Vm.Loop.{
  loop, DatasetSource, fast, light, dataset_read, xor_item, xor_load, load_f, load_e, store_r,
  xor_e, store_f, Running, read_ptr, enter, leave, iterate_reading, iteration, run_interpreted,
}
use armrx_aarch64_random_x_v.Dataset.Fill.{dataset_bytes}
use armrx_aarch64_random_x_v.Dataset.Filled.{IsReady, generate_dataset_item-total}

-- A result that is there.
abbrev pub Succeeds {ℓ} : {S : Type ℓ} → Option S → Type ℓ
Succeeds {S = S} o = (s : S) × (o ≡ some s)

pub bind-Succeeds {ℓ} :
    {A B : Type ℓ} (o : Option A) (k : A → Option B)
    → Succeeds o
    → ((a : A) → Succeeds (k a))
    → Succeeds (o >>= k)
bind-Succeeds o k (a, e) h = let (b, e') = h a in (b, rw e e')

loop-Succeeds {ℓ} :
    {S : Type ℓ} (body : ℕ → S → Option S) (n : ℕ)
    → ((i : ℕ) (s : S) → i < n → Succeeds (body i s))
    → (left i : ℕ) (s : S) → i + left ≡ n
    → Succeeds (loop body left i s)
unfolding loop
loop-Succeeds body n ok zero i s e = (s, refl)
loop-Succeeds body n ok (suc left) i s e =
    let (s', ran) = ok i s (omega arith) in
    let (t, rest) = loop-Succeeds body n ok left (i + 1) s' (omega arith) in (t, rw ran rest)

-- What `initialize_vm_state` gives the offset.
pub record IsSetUp (vm : VirtualMachine) : Type 0 where
  pub aligned : vm.dataset_offset % 64 ≡ 0
  pub small : vm.dataset_offset ≤ 524287 * 64

pub read_ptr-IsSetUp :
    (vm : VirtualMachine) → IsSetUp vm → (read_ptr vm % 64 ≡ 0) × (read_ptr vm + 64 ≤ dataset_bytes)
read_ptr-IsSetUp vm set_up = omega (
  arith,
  set_up.aligned,
  set_up.small,
  bit_and-le vm.ma line_mask,
  bit_and_field 6 vm.ma (2 ^ 25 - 1),
)

pub initialize_vm_state-IsSetUp :
    (entropy : ℕ → ℕ) (vm : VirtualMachine) → IsSetUp (initialize_vm_state entropy vm)
unfolding initialize_vm_state
initialize_vm_state-IsSetUp entropy vm = record { aligned = omega arith; small = omega arith }

-- With the offset of `initialize_vm_state`, for every entropy, machine and value of `ma`, which the iterations
-- change: the address at which the dataset is read is a multiple of 64, and the 64 bytes there are inside a dataset
-- of the full size.
pub read_ptr_in_bounds :
    (entropy : ℕ → ℕ) (vm : VirtualMachine) (ma : ℕ)
    → (read_ptr (record (initialize_vm_state entropy vm) { ma = ma }) % 64 ≡ 0)
      × (read_ptr (record (initialize_vm_state entropy vm) { ma = ma }) + 64 ≤ dataset_bytes)
read_ptr_in_bounds entropy vm ma =
    let set_up = initialize_vm_state-IsSetUp entropy vm in
    read_ptr-IsSetUp (record (initialize_vm_state entropy vm) { ma = ma })
      (record { aligned = set_up.aligned; small = set_up.small })

load64_at : (mem : Bytes) (a : ℕ) → a + 8 ≤ scratchpad_bytes → load64 mem a ≡ some (load_le 8 mem a)
unfolding load64
load64_at mem a h = rw (le→leb (a + 8) scratchpad_bytes h) refl

store64_at :
    (mem : Bytes) (a v : ℕ) → a + 8 ≤ scratchpad_bytes → store64 mem a v ≡ some (store_le 8 mem a v)
unfolding store64
store64_at mem a v h = rw (le→leb (a + 8) scratchpad_bytes h) refl

load_floats_at :
    (fpu : Fpu) (mem : Bytes) (a : ℕ) → a + 8 ≤ scratchpad_bytes → Succeeds (load_floats fpu mem a)
unfolding load_floats load32
load_floats_at fpu mem a h = (
  record { lo = fpu.of_int32 (load_le 4 mem a); hi = fpu.of_int32 (load_le 4 mem (a + 4)) },
  ground arith,
)

-- The addresses that the mask of an iteration lets through.
module _ (addr : ℕ) (bound : addr ≤ scratchpad_l3_mask64) where
  xor_load-Succeeds : (i : ℕ) (s : Machine) → i < 8 → Succeeds (xor_load addr i s)
  xor_load-Succeeds i s lt = (
    record s { r = update s.r i (bit_xor (s.r i) (load_le 8 s.scratchpad (addr + 8 * i))) },
    rw (load64_at s.scratchpad (addr + 8 * i) (omega arith)) refl,
  )

  load_f-Succeeds : (fpu : Fpu) (i : ℕ) (s : Machine) → i < 4 → Succeeds (load_f fpu addr i s)
  load_f-Succeeds fpu i s lt =
      let (v, e) = load_floats_at fpu s.scratchpad (addr + 8 * i) (omega arith) in
      (record s { f = update s.f i v }, rw e refl)

  load_e-Succeeds :
      (fpu : Fpu) (e_mask : ℕ → ℕ) (i : ℕ) (s : Machine)
      → i < 4
      → Succeeds (load_e fpu e_mask addr i s)
  load_e-Succeeds fpu e_mask i s lt =
      let (v, e) = load_floats_at fpu s.scratchpad (addr + 8 * (4 + i)) (omega arith) in
      (record s { e = update s.e i (mask_both e_mask v) }, rw e refl)

  store_r-Succeeds : (i : ℕ) (s : Machine) → i < 8 → Succeeds (store_r addr i s)
  store_r-Succeeds i s lt = (
    record s { scratchpad = store_le 8 s.scratchpad (addr + 8 * i) (s.r i) },
    rw (store64_at s.scratchpad (addr + 8 * i) (s.r i) (omega arith)) refl,
  )

  store_f-Succeeds : (i : ℕ) (s : Machine) → i < 4 → Succeeds (store_f addr i s)
  store_f-Succeeds i s lt =
      let mem = store_le 8 s.scratchpad (addr + 16 * i) (s.f i).lo in
      (
        record s { scratchpad = store_le 8 mem (addr + 16 * i + 8) (s.f i).hi },
        rw
            (
              store64_at s.scratchpad (addr + 16 * i) (s.f i).lo (omega arith),
              store64_at mem (addr + 16 * i + 8) (s.f i).hi (omega arith),
            )
            refl,
      )

-- In fast mode the dataset has its full size; in light mode the cache is ready.
unfoldable pub IsReadable : DatasetSource → Type 0
IsReadable (fast size bytes) = size ≡ dataset_bytes
IsReadable (light cache) = IsReady cache

dataset_read-Succeeds :
    (source : DatasetSource) (address : ℕ) (r : ℕ → ℕ)
    → IsReadable source
    → Succeeds (dataset_read source address r)
unfolding dataset_read IsReadable
dataset_read-Succeeds (fast size bytes) address r ready =
    elim (Bool-cases (ltb size (address + 64))) [
      | inl out ↦ rw out (r, refl)
      | inr inside ↦ rw inside (xor_item (λ i. load_le 8 bytes (address + 8 * i)) r, refl)
    ]
dataset_read-Succeeds (light cache) address r ready =
    let (item, e) = generate_dataset_item-total cache (u32 (address / 64)) ready in
    (xor_item item r, rw e refl)

module _ (fpu : Fpu) (source : DatasetSource) (program : ℕ → Instruction) (old : Code)
    (bytes : (k : ℕ) → (program k).mod_byte < 256) where
  abbrev code : Code
  code = compile_program program old

  enter-Succeeds :
      (vm : VirtualMachine) (addr0 addr1 : ℕ)
      → addr0 ≤ scratchpad_l3_mask64
      → addr1 ≤ scratchpad_l3_mask64
      → Succeeds (enter fpu code vm addr0 addr1)
  unfolding enter
  enter-Succeeds vm addr0 addr1 h0 h1 =
      let (s₁, e₁) =
        loop-Succeeds (xor_load addr0) 8 (xor_load-Succeeds addr0 h0) 8 0 vm.machine refl in
      let (s₂, e₂) =
        loop-Succeeds (load_f fpu addr1) 4 (load_f-Succeeds addr1 h1 fpu) 4 0 s₁ refl in
      let (s₃, e₃) =
        loop-Succeeds (load_e fpu vm.e_mask addr1) 4 (load_e-Succeeds addr1 h1 fpu vm.e_mask) 4 0 s₂
          refl in
      let (s₄, e₄) = execute-Halts fpu vm.e_mask program old s₃ bytes in
      (s₄, rw (e₁, e₂, e₃, e₄) refl)

  leave-Succeeds :
      (addr0 addr1 : ℕ) (s : Machine)
      → addr0 ≤ scratchpad_l3_mask64
      → addr1 ≤ scratchpad_l3_mask64
      → Succeeds (leave fpu code addr0 addr1 s)
  unfolding leave
  leave-Succeeds addr0 addr1 s h0 h1 =
      bind-Succeeds (loop (store_r addr1) 8 0 s)
        (λ s₁. loop xor_e 4 0 s₁ >>= (λ s₂. loop (store_f addr0) 4 0 s₂))
        (loop-Succeeds (store_r addr1) 8 (store_r-Succeeds addr1 h1) 8 0 s refl)
        (λ s₁.
          bind-Succeeds (loop xor_e 4 0 s₁) (λ s₂. loop (store_f addr0) 4 0 s₂)
            (loop-Succeeds xor_e 4 (λ i t lt. (_, refl)) 4 0 s₁ refl)
            (λ s₂. loop-Succeeds (store_f addr0) 4 (store_f-Succeeds addr0 h0) 4 0 s₂ refl))

  pub iteration-Succeeds :
      (ic : ℕ) (l : Running)
      → IsReadable source
      → (l' : Running) × (iteration fpu source code ic l ≡ some l')
        × (l'.vm.dataset_offset ≡ l.vm.dataset_offset)
  unfolding iteration iterate_reading
  iteration-Succeeds ic l ready =
      let vm = l.vm in
      let sp_mix = bit_xor (vm.machine.r vm.read_reg0) (vm.machine.r vm.read_reg1) in
      let mixed0 = bit_xor l.sp_addr0 (u32 sp_mix) in
      let mixed1 = bit_xor l.sp_addr1 (u32 (shr sp_mix 32)) in
      let addr0 = bit_and mixed0 scratchpad_l3_mask64 in
      let addr1 = bit_and mixed1 scratchpad_l3_mask64 in
      let h0 = bit_and-le mixed0 scratchpad_l3_mask64 in
      let h1 = bit_and-le mixed1 scratchpad_l3_mask64 in
      let (s, e) = enter-Succeeds vm addr0 addr1 h0 h1 in
      let (r, found) = dataset_read-Succeeds source (read_ptr vm) s.r ready in
      let (s', e') = leave-Succeeds addr0 addr1 (record s { r = r }) h0 h1 in
      let mixed = bit_xor vm.mx (u32 (bit_xor (s.r vm.read_reg2) (s.r vm.read_reg3))) in
      (
        record {
          sp_addr0 = 0;
          sp_addr1 = 0;
          vm = record vm { machine = s'; ma = mixed; mx = vm.ma };
        },
        rw e (rw found (rw e' refl)),
        refl,
      )

  -- For every program and every state of the machine, `run_interpreted` completes its 2048
  -- iterations: no access leaves the scratchpad, and no item fails to be derived.
  pub run_interpreted-Succeeds :
      (vm : VirtualMachine)
      → IsReadable source
      → Succeeds (run_interpreted fpu source program old vm)
  unfolding run_interpreted
  run_interpreted-Succeeds vm ready =
      let (l, e) =
        loop-Succeeds (iteration fpu source code) 2048
          (λ i l lt. let (l', e, kept) = iteration-Succeeds i l ready in (l', e)) 2048 0
          (record { sp_addr0 = vm.mx; sp_addr1 = vm.ma; vm = vm }) refl in
      (l.vm, rw e refl)
