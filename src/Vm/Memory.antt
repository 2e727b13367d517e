-- ===== src/Vm/Memory.antt =====
-- The scratchpad as bytes by address: `load32`, `load64` and `store64` of src/vm.cpp, little-endian.
-- An access that leaves the 2 MiB of the scratchpad is `none`; in C++ it is undefined behaviour.
use armrx_aarch64_random_x_v.Common.{
  ℕ, zero, suc, ◌+◌, ◌-◌, ◌*◌, ◌/◌, ◌%◌, Option, none, some, if◌then◌else◌, leb, update,
}

abbrev pub Bytes : Type 0
Bytes = ℕ → ℕ

-- `kRandomXScratchpadBytes` and `scratchpad_mask` of include/armrx/randomx_config.hpp.
abbrev pub scratchpad_bytes : ℕ
scratchpad_bytes = 2 * 1024 * 1024

abbrev pub scratchpad_mask : ℕ → ℕ → ℕ
scratchpad_mask bytes alignment = (bytes / alignment - 1) * alignment

abbrev pub scratchpad_l1_mask : ℕ
scratchpad_l1_mask = scratchpad_mask (16 * 1024) 8

abbrev pub scratchpad_l2_mask : ℕ
scratchpad_l2_mask = scratchpad_mask (256 * 1024) 8

abbrev pub scratchpad_l3_mask : ℕ
scratchpad_l3_mask = scratchpad_mask scratchpad_bytes 8

abbrev pub scratchpad_l3_mask64 : ℕ
scratchpad_l3_mask64 = scratchpad_mask scratchpad_bytes 64

-- The `n` bytes at `addr`, the lowest first.
unfoldable pub load_le : ℕ → Bytes → ℕ → ℕ
load_le zero mem addr = 0
load_le (suc n) mem addr = mem addr + 256 * load_le n mem (addr + 1)

unfoldable pub store_le : ℕ → Bytes → ℕ → ℕ → Bytes
store_le zero mem addr val = mem
store_le (suc n) mem addr val = store_le n (update mem addr (val % 256)) (addr + 1) (val / 256)

unfoldable pub load64 : Bytes → ℕ → Option ℕ
load64 mem addr = if leb (addr + 8) scratchpad_bytes then some (load_le 8 mem addr) else none

unfoldable pub load32 : Bytes → ℕ → Option ℕ
load32 mem addr = if leb (addr + 4) scratchpad_bytes then some (load_le 4 mem addr) else none

unfoldable pub store64 : Bytes → ℕ → ℕ → Option Bytes
store64 mem addr val =
    if leb (addr + 8) scratchpad_bytes then some (store_le 8 mem addr val) else none
