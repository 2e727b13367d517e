-- ===== src/Superscalar/Tests.antt =====
-- A program that uses each kind of operand.
use mathlib.Core.Option
use native.Mathlib.Nat.{pow-le-pow_right}
use armrx_aarch64_random_x_v.Common.{
  ℕ, zero, suc, ◌+◌, ◌*◌, ◌^◌, ◌/◌, ◌≡◌, ◌≢◌, ◌<◌, ◌≤◌, arith, some, List, [], ◌∷◌,
}
use armrx_aarch64_random_x_v.Vm.Types.{Instruction}
use armrx_aarch64_random_x_v.Superscalar.Program.{SuperscalarProgram}
use armrx_aarch64_random_x_v.Superscalar.Scalar.{execute_superscalar}
use armrx_aarch64_random_x_v.Superscalar.Neon.{Vectors, execute_superscalar_neon}
use armrx_aarch64_random_x_v.Superscalar.Lanes.{lane, low, neon-lane}
use armrx_aarch64_random_x_v.Superscalar.Reciprocal.{bit_length, reciprocal}
use armrx_aarch64_random_x_v.Superscalar.Rounding.{reciprocal-exact}

abbrev pub instructions : ℕ → Instruction
instructions zero = record { opcode = 2; dst = 0; src = 1; mod_byte = 4; imm32 = 0 }
instructions (suc zero) = record { opcode = 13; dst = 0; src = 0; mod_byte = 0; imm32 = 0 }
instructions (suc (suc zero)) = record { opcode = 3; dst = 1; src = 0; mod_byte = 0; imm32 = 0 }
instructions _ = record { opcode = 6; dst = 2; src = 2; mod_byte = 0; imm32 = 2 ^ 31 + 5 }

abbrev pub program : SuperscalarProgram
program = record { size = 4; at = instructions; address_register = 1 }

abbrev pub table : List ℕ
table = 12297829382473034410 ∷ []

abbrev vectors : Vectors
vectors q = record { lane0 = q + 7; lane1 = q * q + 100 }

neon-lane_example :
    Option.map (lane low) (execute_superscalar_neon (some table) program vectors)
    ≡ execute_superscalar (some table) program (lane low vectors)
neon-lane_example = neon-lane (some table) low program vectors

three-odd : (m : ℕ) → 3 ≢ 2 ^ m
three-odd zero = omega arith
three-odd (suc zero) = omega arith
three-odd (suc (suc m)) =
    let four : 2 ^ 2 ≤ 2 ^ suc (suc m) = pow-le-pow_right (omega arith) {i = 2} (omega arith) in
    omega arith

reciprocal-exact_example :
    (reciprocal 3 ≡ 2 ^ (63 + bit_length 64 3) / 3)
    × (reciprocal 3 < 2 ^ 64)
    × (2 ^ 63 ≤ reciprocal 3)
reciprocal-exact_example = reciprocal-exact 3 (omega arith) (omega arith) three-odd
