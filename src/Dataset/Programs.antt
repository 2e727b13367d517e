-- ===== src/Dataset/Programs.antt =====
-- The end of `Argon2dCache::initialize` in src/argon2.cpp: eight programs are generated, and the divisor
-- of each IMUL_RCP becomes the index of its reciprocal in a table.
use armrx_aarch64_random_x_v.Common.{
  ℕ, zero, suc, ◌+◌, Option, some, List, [], ◌∷◌, ◌++◌, length, if◌then◌else◌, ◌==◌, update, u32,
  ◌>>=◌,
}
use armrx_aarch64_random_x_v.Vm.Types.{Instruction}
use armrx_aarch64_random_x_v.Superscalar.Program.{SuperscalarProgram}
use armrx_aarch64_random_x_v.Superscalar.Reciprocal.{reciprocal}
use armrx_aarch64_random_x_v.Superscalar.Generator.Random.{Blake2Generator, new_generator}
use armrx_aarch64_random_x_v.Superscalar.Generator.Latency.{generate_superscalar}

-- The instructions of a program and the table.
abbrev pub Tabled : Type 0
Tabled = (ℕ → Instruction) × List ℕ

abbrev pub imul_rcp_opcode : ℕ
imul_rcp_opcode = 13

-- The body of the loop over the instructions.
unfoldable pub tabulate : ℕ → Tabled → Tabled
unfolding reciprocal
tabulate j (program, table) =
    if (program j).opcode == imul_rcp_opcode
    then (
      update program j (record (program j) { imm32 = u32 (length table) }),
      table ++ (reciprocal (program j).imm32 ∷ []),
    )
    else (program, table)

-- The loop from instruction `j` on, `left` of them.
unfoldable pub tabulate_from : ℕ → ℕ → Tabled → Tabled
unfolding tabulate
tabulate_from zero j tabled = tabled
tabulate_from (suc left) j tabled = tabulate_from left (j + 1) (tabulate j tabled)

-- The programs of a cache and its table, as far as they are made.
pub record Loaded : Type 0 where
  pub programs : ℕ → SuperscalarProgram
  pub reciprocal_cache : List ℕ

abbrev pub store : ℕ → SuperscalarProgram → Tabled → Loaded → Loaded
store i generated tabled loaded = record {
  programs = update loaded.programs i (record generated { at = tabled.0 });
  reciprocal_cache = tabled.1;
}

-- The loop over the programs from `i` on, `left` of them. `none` is a draw of the generator that was
-- refused `tries` times.
unfoldable pub load_from : ((ℕ → ℕ) → ℕ → ℕ) → ℕ → ℕ → ℕ → Blake2Generator → Loaded → Option Loaded
unfolding tabulate_from generate_superscalar
load_from blake2b tries zero i gen loaded = some loaded
load_from blake2b tries (suc left) i gen loaded = do
  made ← generate_superscalar blake2b tries gen
  load_from blake2b tries left (i + 1) made.1
      (store i made.0 (tabulate_from made.0.size 0 (made.0.at, loaded.reciprocal_cache)) loaded)

unfoldable pub load_programs :
    ((ℕ → ℕ) → ℕ → ℕ) → ℕ → (ℕ → ℕ) → ℕ → (ℕ → SuperscalarProgram) → Option Loaded
unfolding load_from new_generator
load_programs blake2b tries key key_size programs =
    load_from blake2b tries 8 0 (new_generator key key_size 0)
      (record { programs = programs; reciprocal_cache = [] })
