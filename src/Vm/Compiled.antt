-- ===== src/Vm/Compiled.antt =====
-- Invariants of the code that `compile_program` of src/vm.cpp leaves.
use armrx_aarch64_random_x_v.Common.{
  ℕ, zero, suc, ◌+◌, ◌≤◌, ◌<◌, ◌≡◌, refl, ◌≢◌, inl, inr, arith, true, false, none, some, update,
  update_self, update_ne, dec_lt, Bool-cases, get_or,
}
use armrx_aarch64_random_x_v.Vm.Types.{Instruction, InstructionType, ByteCode}
use armrx_aarch64_random_x_v.Vm.Compile.Defs.{Usage, Compiled}
use armrx_aarch64_random_x_v.Vm.Compile.Table.{
  Code, compile_handlers, compile_instruction, compile_from, compile_program,
}
use armrx_aarch64_random_x_v.Vm.Branch.{IsBranch}
use armrx_aarch64_random_x_v.Vm.Execute.{resume}
use armrx_aarch64_random_x_v.Vm.Effects.{writes, IsSafe}
use armrx_aarch64_random_x_v.Vm.Recording.{is_branch, Recorded, handler-Recorded}

-- An instruction that neither branches nor writes the register `c`.
pub record IsQuiet (ibc : ByteCode) (c : ℕ) : Type 0 where
  pub plain : is_branch ibc.type ≡ false
  pub spares : writes ibc.type ibc c ≡ false

pub record IsLoop (code : Code) (b : ℕ) : Type 0 where
  pub condition : IsBranch (code b)
  pub back : resume (code b).target ≤ b
  pub body : (k : ℕ) → resume (code b).target ≤ k → k < b → IsQuiet (code k) (code b).idst

-- The first `i` instructions are compiled.
pub record IsCompiled (i : ℕ) (code : Code) : Type 0 where
  pub safe : (k : ℕ) → k < i → IsSafe (code k).type (code k)
  pub loops : (b : ℕ) → b < i → is_branch (code b).type ≡ true → IsLoop code b

-- `register_usage_` after the first `i` instructions.
record IsUsage (i : ℕ) (usage : Usage) (code : Code) : Type 0 where
  before : (c : ℕ) → c < 8 → resume (usage c) ≤ i
  since : (c k : ℕ) → c < 8 → resume (usage c) ≤ k → k < i → IsQuiet (code k) c

module _ (i : ℕ) (usage : Usage) (code : Code) (result : Compiled) (was : IsCompiled i code)
    (used : IsUsage i usage code) (made : Recorded i usage result) where
  code' : Code
  code' = update code i result.1

  old : (k : ℕ) → k < i → code' k ≡ code k
  unfolding code'
  old k h = update_ne code i result.1 k (omega arith)

  new : code' i ≡ result.1
  unfolding code'
  new = update_self code i result.1

  new-IsLoop : is_branch result.1.type ≡ true → IsLoop code' i
  new-IsLoop h =
      let f = made.branches h in
      record {
        condition = rw new f.condition;
        back = rw (new, f.target) (used.before result.1.idst f.register);
        body = λ k from to.
            rw (old k to, new)
              (used.since result.1.idst k f.register (rw (new, f.target) at from) to);
      }

  old-IsLoop : (b : ℕ) → b < i → IsLoop code b → IsLoop code' b
  old-IsLoop b lt l = record {
    condition = rw (old b lt) l.condition;
    back = rw (old b lt) l.back;
    body = λ k from to. rw (old k (omega arith), old b lt) (l.body k (rw (old b lt) at from) to);
  }

  next-IsCompiled : IsCompiled (i + 1) code'
  next-IsCompiled = record {
    safe = λ k h. elim (dec_lt k i) [
      | yes lt ↦ rw (old k lt) (was.safe k lt)
      | no ge ↦ let e : k ≡ i = omega arith in rw (e, new) made.safe
    ];
    loops = λ b h branch. elim (dec_lt b i) [
      | yes lt ↦ old-IsLoop b lt (was.loops b lt (rw (old b lt) at branch))
      | no ge ↦ let e : b ≡ i = omega arith in rw e (new-IsLoop (rw (e, new) at branch))
    ];
  }

  -- An instruction that leaves `register_usage_[c]` alone is quiet about `c`.
  new-IsQuiet : (c : ℕ) → c < 8 → result.0 c ≢ some i → IsQuiet result.1 c
  new-IsQuiet c lt other = elim (made.tracks c) [
    | inl e ↦ absurd (other e)
    | inr (_, spares) ↦ elim (Bool-cases (is_branch result.1.type)) [
      | inl branch ↦ absurd (other ((made.branches branch).all_touched c lt))
      | inr plain ↦ record { plain = plain; spares = spares }
    ]
  ]

  next-before : (c : ℕ) → c < 8 → resume (result.0 c) ≤ i + 1
  next-before c lt = elim (made.tracks c) [
    | inl e ↦ rw e (omega arith)
    | inr (e, _) ↦ rw e (omega (arith, used.before c lt))
  ]

  next-since : (c k : ℕ) → c < 8 → resume (result.0 c) ≤ k → k < i + 1 → IsQuiet (code' k) c
  next-since c k lt from to = elim (dec_lt k i) [
    | yes earlier ↦ elim (made.tracks c) [
      | inl e ↦ let late : suc i ≤ k = rw e at from in absurd (omega arith)
      | inr (e, _) ↦ rw (old k earlier) (used.since c k lt (rw e at from) earlier)
    ]
    | no later ↦
        let e : k ≡ i = omega arith in
        rw (e, new)
          (new-IsQuiet c lt
            λ touched. let late : suc i ≤ k = rw touched at from in absurd (omega arith))
  ]

compile_instruction-Recorded :
    (instr : Instruction) (i : ℕ) (usage : Usage) (ibc : ByteCode)
    → instr.mod_byte < 256
    → Recorded i usage (compile_instruction instr i usage ibc)
unfolding compile_instruction
compile_instruction-Recorded instr i usage ibc byte =
    handler-Recorded (get_or compile_handlers instr.opcode InstructionType.nop) instr i usage ibc
      byte

compile_from-IsCompiled :
    (left i n : ℕ) (program : ℕ → Instruction) (usage : Usage) (code : Code)
    → i + left ≡ n
    → ((k : ℕ) → (program k).mod_byte < 256)
    → IsCompiled i code
    → IsUsage i usage code
    → IsCompiled n (compile_from left i program usage code).1
unfolding compile_from
compile_from-IsCompiled zero i n program usage code e bytes was used =
    let same : i ≡ n = omega arith in rw (← same) was
compile_from-IsCompiled (suc left) i n program usage code e bytes was used =
    let result : Compiled = compile_instruction (program i) i usage (code i) in
    let made : Recorded i usage result =
      compile_instruction-Recorded (program i) i usage (code i) (bytes i) in
    compile_from-IsCompiled left (i + 1) n program result.0 (update code i result.1) (omega arith)
      bytes (unfold code' in next-IsCompiled i usage code result was used made)
      (unfold code' in
        record {
          before = next-before i usage code result was used made;
          since = next-since i usage code result was used made;
        })

-- Whatever the program's bytes, and whatever code the program before left in the buffer: the
-- compiled code keeps its accesses in the scratchpad, and each branch jumps back over a stretch
-- that has no branch and does not write the branch's register.
pub compile_program-IsCompiled :
    (program : ℕ → Instruction) (code : Code)
    → ((k : ℕ) → (program k).mod_byte < 256)
    → IsCompiled 256 (compile_program program code)
unfolding compile_program
compile_program-IsCompiled program code bytes =
    compile_from-IsCompiled 256 0 256 program (λ _. none) code refl bytes
      (record { safe = λ k h. elim h [ ]; loops = λ b h branch. elim h [ ] })
      (record { before = λ c lt. omega arith; since = λ c k lt from to. elim to [ ] })
