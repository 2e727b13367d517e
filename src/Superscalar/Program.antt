-- ===== src/Superscalar/Program.antt =====
-- `SuperscalarInstructionType` and `SuperscalarProgram` of include/armrx/superscalar.hpp.
use armrx_aarch64_random_x_v.Common.{ℕ, Option, List, [], ◌∷◌, get_elem?}
use armrx_aarch64_random_x_v.Vm.Types.{Instruction}

pub data SuperscalarInstructionType : Type 0 where
  isub_r ixor_r iadd_rs imul_r iror_c iadd_c7 ixor_c7 iadd_c8 : SuperscalarInstructionType
  ixor_c8 iadd_c9 ixor_c9 imulh_r ismulh_r imul_rcp : SuperscalarInstructionType

-- The enumerators in the order of their numbers 0 to 13.
abbrev pub enumerators : List SuperscalarInstructionType
enumerators =
    SuperscalarInstructionType.isub_r ∷ SuperscalarInstructionType.ixor_r
    ∷ SuperscalarInstructionType.iadd_rs ∷ SuperscalarInstructionType.imul_r
    ∷ SuperscalarInstructionType.iror_c ∷ SuperscalarInstructionType.iadd_c7
    ∷ SuperscalarInstructionType.ixor_c7 ∷ SuperscalarInstructionType.iadd_c8
    ∷ SuperscalarInstructionType.ixor_c8 ∷ SuperscalarInstructionType.iadd_c9
    ∷ SuperscalarInstructionType.ixor_c9 ∷ SuperscalarInstructionType.imulh_r
    ∷ SuperscalarInstructionType.ismulh_r ∷ SuperscalarInstructionType.imul_rcp ∷ []

-- The cast of an opcode; `none` is the default case of the switches, which throws.
unfoldable pub of_opcode : ℕ → Option SuperscalarInstructionType
of_opcode = get_elem? enumerators

pub record SuperscalarProgram : Type 0 where
  pub size : ℕ
  pub at : ℕ → Instruction
  pub address_register : ℕ
