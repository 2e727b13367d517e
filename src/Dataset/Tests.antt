-- ===== src/Dataset/Tests.antt =====
-- A cache of one block whose programs execute, and requests on it.
use armrx_aarch64_random_x_v.Common.{ℕ, zero, suc, ◌+◌, ◌*◌, ◌≡◌, ◌<◌, refl, arith, some, none}
use armrx_aarch64_random_x_v.Superscalar.Total.{IsRunnable}
use armrx_aarch64_random_x_v.Superscalar.Program.{
  of_opcode, SuperscalarProgram, SuperscalarInstructionType,
}
use armrx_aarch64_random_x_v.Superscalar.Scalar.{Registers, rcp_factor, execute_superscalar}
use armrx_aarch64_random_x_v.Superscalar.Generator.Random.{new_generator}
use armrx_aarch64_random_x_v.Superscalar.Generator.Tests.{
  threes, IsThrees, threes-IsRandom, key-IsThrees,
}
use armrx_aarch64_random_x_v.Dataset.Programs.{Loaded, load_programs}
use armrx_aarch64_random_x_v.Dataset.Loaded.{nth_program, load_programs-Holds}
use armrx_aarch64_random_x_v.Superscalar.Tests.{instructions, program, table}
use armrx_aarch64_random_x_v.Dataset.Cache.{Cache}
use armrx_aarch64_random_x_v.Dataset.Fill.{
  Buffer, check_request, filled, initialize_dataset_neon, initialize_dataset_portable,
}
use armrx_aarch64_random_x_v.Dataset.Lanes.{initialize_dataset_neon-portable}
use armrx_aarch64_random_x_v.Dataset.Filled.{IsReady, Holds, initialize_dataset_neon-Holds}

abbrev pub cache : Cache
cache = record {
  memory_blocks = 1;
  block = λ b w. b + w * 3;
  programs = λ p. program;
  reciprocal_cache = table;
}

abbrev empty_buffer : Buffer
empty_buffer slot q = 0

program-IsRunnable : IsRunnable (some table) program
unfolding rcp_factor of_opcode
program-IsRunnable = record { known = known; tabled = tabled }
  where
    known :
        (j : ℕ)
        → j < 4
        → (t : SuperscalarInstructionType) × (of_opcode (instructions j).opcode ≡ some t)
    known zero lt = (_, refl)
    known (suc zero) lt = (_, refl)
    known (suc (suc zero)) lt = (_, refl)
    known (suc (suc (suc j))) lt = (SuperscalarInstructionType.ixor_c7, refl)

    tabled :
        (j : ℕ)
        → j < 4
        → of_opcode (instructions j).opcode ≡ some SuperscalarInstructionType.imul_rcp
        → (factor : ℕ) × (rcp_factor (some table) (instructions j).imm32 ≡ some factor)
    tabled zero lt e = (_, refl)
    tabled (suc zero) lt e = (_, refl)
    tabled (suc (suc zero)) lt e = (_, refl)
    tabled (suc (suc (suc j))) lt e = cc e

pub cache-IsReady : IsReady cache
cache-IsReady = record { lines = omega arith; runnable = λ p lt. program-IsRunnable }

accepted : check_request 192 5 3 ≡ none
unfolding check_request
accepted = refl

initialize_dataset_neon-portable_example :
    initialize_dataset_neon empty_buffer 192 cache 5 3
    ≡ initialize_dataset_portable empty_buffer 192 cache 5 3
initialize_dataset_neon-portable_example =
    initialize_dataset_neon-portable cache empty_buffer 192 5 3 (omega arith)

initialize_dataset_neon-Holds_example :
    (after : Buffer) × (initialize_dataset_neon empty_buffer 192 cache 5 3 ≡ filled after)
    × Holds cache 5 0 3 empty_buffer after
initialize_dataset_neon-Holds_example =
    initialize_dataset_neon-Holds cache empty_buffer 192 5 3 cache-IsReady accepted

load_programs-Holds_example :
    (after : Loaded) × (load_programs threes 1 (λ i. i) 32 (λ p. program) ≡ some after)
    × ((p : ℕ)
        → p < 8
        → (prog : SuperscalarProgram) × (nth_program threes 1 p (new_generator (λ i. i) 32 0)
            ≡ some prog)
          × IsRunnable (some after.reciprocal_cache) (after.programs p)
          × ((r : Registers)
              → execute_superscalar (some after.reciprocal_cache) (after.programs p) r
                ≡ execute_superscalar none prog r))
load_programs-Holds_example =
    load_programs-Holds threes 1 IsThrees threes-IsRandom (λ i. i) 32 (λ p. program) key-IsThrees
