-- ===== src/Superscalar/Generator/Latency.antt =====
-- The end of `generate_superscalar`: the latencies of the program on an ideal chip, whose longest gives
-- the address register. The statistics `ipc`, `cpu_latencies` and the like are left out: no code but
-- benchmarks reads them.
use armrx_aarch64_random_x_v.Common.{
  ℕ, zero, suc, ◌+◌, false, Option, none, some, if◌then◌else◌, ◌==◌, leb, ltb, update, ◌>>=◌,
}
use armrx_aarch64_random_x_v.Vm.Types.{Instruction}
use armrx_aarch64_random_x_v.Superscalar.Program.{SuperscalarProgram}
use armrx_aarch64_random_x_v.Superscalar.Generator.Random.{Blake2Generator}
use armrx_aarch64_random_x_v.Superscalar.Generator.Current.{null_instruction, no_par}
use armrx_aarch64_random_x_v.Superscalar.Generator.Loop.{Issue, superscalar_latency, decode_from}

abbrev pub default_instruction : Instruction
default_instruction = record { opcode = 0; dst = 0; src = 0; mod_byte = 0; imm32 = 0 }

abbrev max_of : ℕ → ℕ → ℕ
max_of a b = if leb a b then b else a

-- The loop over the program from instruction `i` on.
unfoldable pub asic_latencies : ℕ → ℕ → (ℕ → Instruction) → (ℕ → ℕ) → ℕ → ℕ
asic_latencies zero i program latencies = latencies
asic_latencies (suc left) i program latencies =
    let instr = program i in
    let of_dst = latencies instr.dst + 1 in
    let of_src = if instr.dst == instr.src then 0 else latencies instr.src + 1 in
    asic_latencies left (i + 1) program (update latencies instr.dst (max_of of_dst of_src))

-- The first register with the highest latency above 0, from register `i` on.
unfoldable pub pick_address : ℕ → ℕ → (ℕ → ℕ) → ℕ → ℕ → ℕ
pick_address zero i latencies highest address = address
pick_address (suc left) i latencies highest address =
    let higher = ltb highest (latencies i) in
    pick_address left (i + 1) latencies (if higher then latencies i else highest)
      (if higher then i else address)

unfoldable pub finish : Issue → SuperscalarProgram
unfolding asic_latencies pick_address
finish s = record {
  size = s.program_size;
  at = s.program;
  address_register = pick_address 8 0 (asic_latencies s.program_size 0 s.program (λ i. 0)) 0 0;
}

-- The state before the first decode cycle.
unfoldable pub initial_issue : Blake2Generator → Issue
initial_issue gen = record {
  gen = gen;
  port_busy = λ cycle port. 0;
  registers = λ i. record { latency = 0; last_op_group = none; last_op_par = no_par };
  current = null_instruction;
  macro_op_index = 0;
  code_size = 0;
  macro_op_count = 0;
  cycle = 0;
  dep_cycle = 0;
  retire_cycle = 0;
  ports_saturated = false;
  program = λ i. default_instruction;
  program_size = 0;
  mul_count = 0;
  throw_away_count = 0;
}

-- The program and the generator after it. `none` is a draw that was refused `tries` times.
unfoldable pub generate_superscalar :
    ((ℕ → ℕ) → ℕ → ℕ) → ℕ → Blake2Generator → Option (SuperscalarProgram × Blake2Generator)
unfolding decode_from finish initial_issue
generate_superscalar blake2b tries gen = do
  done ← decode_from blake2b tries superscalar_latency 0 (initial_issue gen)
  some (finish done.1, done.1.gen)
