-- ===== src/Superscalar/Total.antt =====
-- Programs of known opcodes whose reciprocals are in the table, on src/superscalar.cpp.
use armrx_aarch64_random_x_v.Common.{
  ℕ, zero, suc, ◌+◌, ◌≡◌, ◌<◌, arith, refl, Option, some, List, mul64,
}
use armrx_aarch64_random_x_v.Superscalar.Program.{
  SuperscalarInstructionType, of_opcode, SuperscalarProgram,
}
use armrx_aarch64_random_x_v.Superscalar.Scalar.{
  Registers, assign, rcp_factor, scalar_op, execute_from, execute_superscalar,
}

module _ (reciprocals : Option (List ℕ)) where
  pub record IsRunnable (prog : SuperscalarProgram) : Type 0 where
    pub known :
        (j : ℕ)
        → j < prog.size
        → (t : SuperscalarInstructionType) × (of_opcode (prog.at j).opcode ≡ some t)
    pub tabled :
        (j : ℕ)
        → j < prog.size
        → of_opcode (prog.at j).opcode ≡ some SuperscalarInstructionType.imul_rcp
        → (factor : ℕ) × (rcp_factor reciprocals (prog.at j).imm32 ≡ some factor)

  Runs : Option Registers → Type 0
  Runs o = (r : Registers) × (o ≡ some r)

  scalar_op-Runs :
      (t : SuperscalarInstructionType) (prog : SuperscalarProgram) (j : ℕ) (r : Registers)
      → IsRunnable prog
      → j < prog.size
      → of_opcode (prog.at j).opcode ≡ some t
      → Runs (scalar_op reciprocals t (prog.at j) r)
  unfolding scalar_op Runs
  scalar_op-Runs SuperscalarInstructionType.imul_rcp prog j r runnable lt e =
      let (factor, found) = runnable.tabled j lt e in
      (assign (λ d. mul64 d factor) (prog.at j) r, rw found refl)
  scalar_op-Runs _ prog j r runnable lt e = (_, refl)

  from-Runs :
      (left j : ℕ) (prog : SuperscalarProgram) (r : Registers)
      → IsRunnable prog
      → j + left ≡ prog.size
      → Runs (execute_from reciprocals left j prog r)
  unfolding execute_from Runs
  from-Runs zero j prog r runnable e = (r, refl)
  from-Runs (suc left) j prog r runnable e =
      let (t, known) = runnable.known j (omega arith) in
      let (r', ran) = scalar_op-Runs t prog j r runnable (omega arith) known in
      let (r'', rest) = from-Runs left (j + 1) prog r' runnable (omega arith) in
      (r'', rw (known, ran) rest)

  pub execute_superscalar-Runs :
      (prog : SuperscalarProgram) (r : Registers)
      → IsRunnable prog
      → (r' : Registers) × (execute_superscalar reciprocals prog r ≡ some r')
  unfolding execute_superscalar Runs
  execute_superscalar-Runs prog r runnable = from-Runs prog.size 0 prog r runnable (omega arith)
