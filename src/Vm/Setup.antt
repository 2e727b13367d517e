-- ===== src/Vm/Setup.antt =====
-- The members of `VirtualMachine` that `run_interpreted` uses, and `initialize_vm_state`.
use armrx_aarch64_random_x_v.Common.{ℕ, ◌+◌, ◌*◌, ◌%◌, bit_and, u32, shr}
use armrx_aarch64_random_x_v.Vm.Types.{Machine}
use armrx_aarch64_random_x_v.Vm.Words.{get_small_positive_float_bits, get_float_mask}

pub record VirtualMachine : Type 0 where
  pub machine : Machine
  pub ma : ℕ
  pub mx : ℕ
  pub read_reg0 : ℕ
  pub read_reg1 : ℕ
  pub read_reg2 : ℕ
  pub read_reg3 : ℕ
  pub dataset_offset : ℕ
  pub e_mask : ℕ → ℕ

-- `0x7fffffc0`.
abbrev pub line_mask : ℕ
line_mask = 0x7fffffc0

-- The group A registers of the entropy; there are four.
unfoldable pub initialize_vm_state : (ℕ → ℕ) → VirtualMachine → VirtualMachine
initialize_vm_state entropy vm = record {
  machine = record vm.machine {
    r = λ i. 0;
    a = λ i. record {
      lo = get_small_positive_float_bits (entropy (2 * i));
      hi = get_small_positive_float_bits (entropy (2 * i + 1));
    };
  };
  ma = u32 (bit_and (entropy 8) line_mask);
  mx = u32 (entropy 10);
  read_reg0 = 0 + bit_and (entropy 12) 1;
  read_reg1 = 2 + bit_and (shr (entropy 12) 1) 1;
  read_reg2 = 4 + bit_and (shr (shr (entropy 12) 1) 1) 1;
  read_reg3 = 6 + bit_and (shr (shr (shr (entropy 12) 1) 1) 1) 1;
  dataset_offset = (entropy 13 % 524288) * 64;
  e_mask = λ i. get_float_mask (entropy (14 + i));
}
