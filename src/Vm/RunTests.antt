-- ===== src/Vm/RunTests.antt =====
-- A cache with empty programs, the dataset of its items, and runs of the machine on both.
use mathlib.Core.Option.{some-injective}
use armrx_aarch64_random_x_v.Common.{
  ℕ, zero, suc, ◌+◌, ◌*◌, ◌/◌, ◌%◌, ◌^◌, ◌≡◌, ◌<◌, ◌≤◌, ◌∙◌, sym, ap, arith, refl, some, [], get_or,
  ◌==◌, Bool-cases, inl, inr,
}
use armrx_aarch64_random_x_v.Common.Bits.{bit_xor-lt}
use armrx_aarch64_random_x_v.Superscalar.Program.{SuperscalarProgram}
use armrx_aarch64_random_x_v.Superscalar.Scalar.{Registers, execute_superscalar}
use armrx_aarch64_random_x_v.Superscalar.Tests.{instructions}
use armrx_aarch64_random_x_v.Dataset.Cache.{
  Cache, Item, load_cache_line, dataset_seed_registers, seed_adds,
}
use armrx_aarch64_random_x_v.Dataset.Items.{item_rounds, generate_dataset_item}
use armrx_aarch64_random_x_v.Dataset.Filled.{IsReady, generate_dataset_item-total}
use armrx_aarch64_random_x_v.Dataset.Fill.{dataset_bytes}
use armrx_aarch64_random_x_v.Vm.Memory.{Bytes, load_le}
use armrx_aarch64_random_x_v.Vm.Setup.{VirtualMachine, initialize_vm_state}
use armrx_aarch64_random_x_v.Vm.Loop.{fast, light, read_ptr, run_interpreted}
use armrx_aarch64_random_x_v.Vm.Running.{
  Succeeds, IsReadable, read_ptr_in_bounds, run_interpreted-Succeeds,
}
use armrx_aarch64_random_x_v.Vm.Modes.{IsDataset, run_interpreted-modes}
use armrx_aarch64_random_x_v.Vm.Tests.{toy_fpu, machine, branching, branching_byte, blank_bytecode}

abbrev empty_program : SuperscalarProgram
empty_program = record { size = 0; at = instructions; address_register = 3 }

abbrev pub plain_cache : Cache
plain_cache = record {
  memory_blocks = 1;
  block = λ b w. (b + 5 * w) % 2 ^ 64;
  programs = λ p. empty_program;
  reciprocal_cache = [];
}

pub plain_cache-IsReady : IsReady plain_cache
plain_cache-IsReady = record {
  lines = omega arith;
  runnable = λ p lt. record {
    known = λ j lt'. absurd (omega arith);
    tabled = λ j lt' e. absurd (omega arith);
  };
}

abbrev Words : Registers → Type 0
Words r = (q : ℕ) → r q < 2 ^ 64

seed_adds-small : (q : ℕ) → get_or seed_adds q 0 < 2 ^ 64
seed_adds-small zero = omega arith
seed_adds-small (suc zero) = omega arith
seed_adds-small (suc (suc zero)) = omega arith
seed_adds-small (suc (suc (suc zero))) = omega arith
seed_adds-small (suc (suc (suc (suc zero)))) = omega arith
seed_adds-small (suc (suc (suc (suc (suc zero))))) = omega arith
seed_adds-small (suc (suc (suc (suc (suc (suc zero)))))) = omega arith
seed_adds-small (suc (suc (suc (suc (suc (suc (suc zero))))))) = omega arith
seed_adds-small (suc (suc (suc (suc (suc (suc (suc (suc q)))))))) = omega arith

seed-Words : (n : ℕ) → Words (dataset_seed_registers n)
unfolding dataset_seed_registers
seed-Words n q = elim (Bool-cases (q == 0)) [
  | inl first ↦ rw first (omega arith)
  | inr later ↦ rw later (bit_xor-lt 64 _ _ (omega arith) (seed_adds-small q))
]

rounds-Words :
    (left p : ℕ) (r : Registers) (v : ℕ) (out : Item)
    → item_rounds plain_cache left p r v ≡ some out
    → Words r
    → Words out
unfolding item_rounds load_cache_line execute_superscalar
rounds-Words zero p r v out e words =
    λ q. rw (← ap (λ (f : ℕ → ℕ). f q) (some-injective r out e)) (words q)
rounds-Words (suc left) p r v out e words =
    rounds-Words left (p + 1) _ _ out e (λ q. bit_xor-lt 64 (r q) _ (words q) (omega arith))

item-Words : (n : ℕ) (item : Item) → generate_dataset_item plain_cache n ≡ some item → Words item
unfolding generate_dataset_item
item-Words n item e = rounds-Words 8 0 (dataset_seed_registers n) n item e (seed-Words n)

unfoldable plain_item : ℕ → Item
plain_item n = (generate_dataset_item-total plain_cache n plain_cache-IsReady).0

-- The little-endian bytes of the items.
unfoldable plain_dataset : Bytes
plain_dataset a = plain_item (a / 64) (a % 64 / 8) / 256 ^ (a % 8) % 256

-- The eight bytes of a word, read back.
digits :
    (w : ℕ)
    → w < 2 ^ 64
    → w / 1 % 256
        + 256
          * (w / 256 % 256
              + 256
                * (w / 65536 % 256
                    + 256
                      * (w / 16777216 % 256
                          + 256
                            * (w / 4294967296 % 256
                                + 256
                                  * (w / 1099511627776 % 256
                                      + 256
                                        * (w / 281474976710656 % 256
                                            + 256 * (w / 72057594037927936 % 256 + 256 * 0)))))))
      ≡ w
digits w small = omega arith

byte_at :
    (a n q k : ℕ)
    → a ≡ 64 * n + 8 * q + k
    → q < 8
    → k < 8
    → plain_dataset a ≡ plain_item n q / 256 ^ k % 256
unfolding plain_dataset
byte_at a n q k e hq hk =
    let block : a / 64 ≡ n = omega arith in
    let word : a % 64 / 8 ≡ q = omega arith in
    let place : a % 8 ≡ k = omega arith in rw (block, word, place) refl

plain_item-made : (n : ℕ) → generate_dataset_item plain_cache n ≡ some (plain_item n)
unfolding plain_item
plain_item-made n = (generate_dataset_item-total plain_cache n plain_cache-IsReady).1

plain_dataset-word : (n q : ℕ) → q < 8 → load_le 8 plain_dataset (64 * n + 8 * q) ≡ plain_item n q
unfolding load_le
plain_dataset-word n q h =
    rw
      (
        byte_at (64 * n + 8 * q) n q 0 (omega arith) h (omega arith),
        byte_at (64 * n + 8 * q + 1) n q 1 (omega arith) h (omega arith),
        byte_at (64 * n + 8 * q + 1 + 1) n q 2 (omega arith) h (omega arith),
        byte_at (64 * n + 8 * q + 1 + 1 + 1) n q 3 (omega arith) h (omega arith),
        byte_at (64 * n + 8 * q + 1 + 1 + 1 + 1) n q 4 (omega arith) h (omega arith),
        byte_at (64 * n + 8 * q + 1 + 1 + 1 + 1 + 1) n q 5 (omega arith) h (omega arith),
        byte_at (64 * n + 8 * q + 1 + 1 + 1 + 1 + 1 + 1) n q 6 (omega arith) h (omega arith),
        byte_at (64 * n + 8 * q + 1 + 1 + 1 + 1 + 1 + 1 + 1) n q 7 (omega arith) h (omega arith),
      )
      (digits (plain_item n q) (item-Words n (plain_item n) (plain_item-made n) q))

plain_dataset-IsDataset : IsDataset plain_cache plain_dataset
plain_dataset-IsDataset n q item hn hq made =
    plain_dataset-word n q hq
    ∙ ap (λ (f : ℕ → ℕ). f q) (some-injective (plain_item n) item (sym (plain_item-made n) ∙ made))

abbrev entropy : ℕ → ℕ
entropy i = (i + 1) * 0x9e3779b97f4a7c15 % 2 ^ 64

abbrev pub vm : VirtualMachine
vm = record {
  machine = machine (λ i. i);
  ma = 0;
  mx = 0;
  read_reg0 = 0;
  read_reg1 = 2;
  read_reg2 = 4;
  read_reg3 = 6;
  dataset_offset = 0;
  e_mask = λ i. 0;
}

read_ptr_in_bounds_example :
    (read_ptr (record (initialize_vm_state entropy vm) { ma = 0xffffffff }) % 64 ≡ 0)
    × (read_ptr (record (initialize_vm_state entropy vm) { ma = 0xffffffff }) + 64 ≤ dataset_bytes)
read_ptr_in_bounds_example = read_ptr_in_bounds entropy vm 0xffffffff

run_interpreted-Succeeds_example :
    Succeeds (run_interpreted toy_fpu (light plain_cache) branching (λ i. blank_bytecode) vm)
unfolding IsReadable
run_interpreted-Succeeds_example =
    run_interpreted-Succeeds toy_fpu (light plain_cache) branching (λ i. blank_bytecode)
      branching_byte vm plain_cache-IsReady

run_interpreted-modes_example :
    run_interpreted toy_fpu
      (fast dataset_bytes plain_dataset)
      branching
      (λ i. blank_bytecode)
      (initialize_vm_state entropy vm)
    ≡ run_interpreted toy_fpu
        (light plain_cache)
        branching
        (λ i. blank_bytecode)
        (initialize_vm_state entropy vm)
run_interpreted-modes_example =
    run_interpreted-modes plain_cache plain_dataset plain_cache-IsReady plain_dataset-IsDataset
      toy_fpu branching (λ i. blank_bytecode) branching_byte entropy vm
