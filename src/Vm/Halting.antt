-- ===== src/Vm/Halting.antt =====
-- The end of `execute_bytecode` of src/vm.cpp, by the stretches of code that branches repeat.
use armrx_aarch64_random_x_v.Common.{
  ℕ, zero, suc, ◌+◌, ◌-◌, ◌*◌, ◌≤◌, ◌<◌, ◌≡◌, refl, ◌⊎◌, inl, inr, arith, true, false, some,
  Bool-cases, dec_lt, ap, ◌∙◌, lt→ltb, ltb, add64, if◌then◌else◌, update_self,
}
use armrx_aarch64_random_x_v.Vm.Types.{Instruction, InstructionType, ByteCode, Machine, Fpu}
use armrx_aarch64_random_x_v.Vm.Compile.Table.{Code, compile_program}
use armrx_aarch64_random_x_v.Vm.Execute.{
  exec_op, next_pc, taken, resume, execute, halted, write_dst,
}
use armrx_aarch64_random_x_v.Vm.Branch.{taken_twice}
use armrx_aarch64_random_x_v.Vm.Effects.{exec_op-Keeps}
use armrx_aarch64_random_x_v.Vm.Recording.{is_branch}
use armrx_aarch64_random_x_v.Vm.Compiled.{IsQuiet, IsCompiled, compile_program-IsCompiled}

next_pc-plain :
    (t : InstructionType) (ibc : ByteCode) (s : Machine) (pc : ℕ)
    → is_branch t ≡ false
    → next_pc t ibc s pc ≡ suc pc
unfolding next_pc
next_pc-plain InstructionType.cbranch ibc s pc h = cc
next_pc-plain _ ibc s pc h = refl

next_pc-branch :
    (t : InstructionType) (ibc : ByteCode) (s : Machine) (pc : ℕ)
    → is_branch t ≡ true
    → next_pc t ibc s pc ≡ (if taken ibc s then resume ibc.target else suc pc)
unfolding next_pc
next_pc-branch InstructionType.cbranch ibc s pc h = refl
next_pc-branch InstructionType.nop ibc s pc h = cc
next_pc-branch _ ibc s pc h = cc

-- A branch adds its immediate, whether it is taken or not.
abbrev bumped : ByteCode → Machine → Machine
bumped ibc s = write_dst ibc (add64 (s.r ibc.idst) ibc.imm) s

bumped-idst :
    (ibc : ByteCode) (s : Machine) → (bumped ibc s).r ibc.idst ≡ add64 (s.r ibc.idst) ibc.imm
bumped-idst ibc s = update_self s.r ibc.idst (add64 (s.r ibc.idst) ibc.imm)

rebump :
    (ibc : ByteCode) (s t : Machine)
    → t.r ibc.idst ≡ s.r ibc.idst
    → (bumped ibc t).r ibc.idst ≡ add64 (s.r ibc.idst) ibc.imm
rebump ibc s t e = bumped-idst ibc t ∙ ap (λ (x : ℕ). add64 x ibc.imm) e

exec_op-branch :
    (fpu : Fpu) (e_mask : ℕ → ℕ) (t : InstructionType) (ibc : ByteCode) (s : Machine)
    → is_branch t ≡ true
    → exec_op fpu e_mask t ibc s ≡ some (bumped ibc s)
unfolding exec_op
exec_op-branch fpu e_mask InstructionType.cbranch ibc s h = refl
exec_op-branch fpu e_mask InstructionType.nop ibc s h = cc
exec_op-branch fpu e_mask _ ibc s h = cc

module _ (fpu : Fpu) (e_mask : ℕ → ℕ) (code : Code) where
  -- The run from `pc` reaches the end of the program.
  abbrev pub Halts : ℕ → ℕ → Machine → Type 0
  Halts fuel pc s = (s' : Machine) × (execute fpu e_mask code fuel pc s ≡ halted s')

  step-Halts :
      (fuel pc : ℕ) (s s' : Machine)
      → pc < 256
      → exec_op fpu e_mask (code pc).type (code pc) s ≡ some s'
      → Halts fuel (next_pc (code pc).type (code pc) s' pc) s'
      → Halts (suc fuel) pc s
  unfolding execute
  step-Halts fuel pc s s' lt e (t, h) = (t, rw (lt→ltb pc 256 lt, e) h)

  end-Halts : (fuel pc : ℕ) (s : Machine) → 256 ≤ pc → Halts (suc fuel) pc s
  unfolding execute
  end-Halts fuel pc s done = let past : ltb pc 256 ≡ false = ground arith in (s, rw past refl)

  module _ (compiled : IsCompiled 256 code) where
    plain-Halts :
        (fuel pc : ℕ) (s : Machine)
        → pc < 256
        → is_branch (code pc).type ≡ false
        → ((s' : Machine) → Halts fuel (suc pc) s')
        → Halts (suc fuel) pc s
    plain-Halts fuel pc s lt plain rest =
        let kept = exec_op-Keeps fpu e_mask (code pc).type (code pc) s (compiled.safe pc lt) in
        step-Halts fuel pc s kept.0 lt kept.1
          (rw (next_pc-plain (code pc).type (code pc) kept.0 pc plain) (rest kept.0))

    -- A stretch that is quiet about `c` reaches its end with `c` as it was.
    straight-Halts :
        (d p b c rest fuel : ℕ) (s : Machine)
        → p + d ≡ b
        → b < 256
        → fuel ≡ d + rest
        → ((k : ℕ) → p ≤ k → k < b → IsQuiet (code k) c)
        → ((s' : Machine) → s'.r c ≡ s.r c → Halts rest b s')
        → Halts fuel p s
    straight-Halts zero p b c rest fuel s e lt ef quiet finish =
        let same : p ≡ b = omega arith in
        let enough : fuel ≡ rest = omega arith in rw (same, enough) (finish s refl)
    straight-Halts (suc d) p b c rest fuel s e lt ef quiet finish =
        let here : p < 256 = omega arith in
        let enough : fuel ≡ suc (d + rest) = omega arith in
        let q = quiet p (omega arith) (omega arith) in
        let kept = exec_op-Keeps fpu e_mask (code p).type (code p) s (compiled.safe p here) in
        rw enough (
          step-Halts (d + rest) p s kept.0 here kept.1 (
            rw (next_pc-plain (code p).type (code p) kept.0 p q.plain) (
              straight-Halts d (suc p) b c rest (d + rest) kept.0 (omega arith) lt refl
                (λ k from to. quiet k (omega arith) to)
                (λ s' same. finish s' (same ∙ kept.2 c q.spares)))))

    -- At a branch the run goes on from the target or after the branch.
    branch-Halts :
        (fuel pc : ℕ) (s : Machine)
        → pc < 256
        → is_branch (code pc).type ≡ true
        → (taken (code pc) (bumped (code pc) s) ≡ false → Halts fuel (suc pc) (bumped (code pc) s))
        → (taken (code pc) (bumped (code pc) s) ≡ true
            → Halts fuel (resume (code pc).target) (bumped (code pc) s))
        → Halts (suc fuel) pc s
    branch-Halts fuel pc s lt branch falls jumps =
        step-Halts fuel pc s (bumped (code pc) s) lt
          (exec_op-branch fpu e_mask (code pc).type (code pc) s branch)
          (rw (next_pc-branch (code pc).type (code pc) (bumped (code pc) s) pc branch) chosen)
      where
        chosen :
            Halts fuel
              (if taken (code pc) (bumped (code pc) s) then resume (code pc).target else suc pc)
              (bumped (code pc) s)
        chosen = elim (Bool-cases (taken (code pc) (bumped (code pc) s))) [
          | inl yes' ↦ rw yes' (jumps yes')
          | inr no' ↦ rw no' (falls no')
        ]

    -- A branch costs at most two rounds of its stretch and three steps.
    loop-Halts :
        (pc d rest fuel : ℕ) (s : Machine)
        → pc < 256
        → is_branch (code pc).type ≡ true
        → (resume (code pc).target) + d ≡ pc
        → 3 + 2 * d + rest ≤ fuel
        → ((left : ℕ) (s' : Machine) → rest ≤ left → Halts left (suc pc) s')
        → Halts fuel pc s
    loop-Halts pc d rest fuel s lt branch stretch enough finish =
        let l = compiled.loops pc lt branch in
        let ibc = code pc in
        let left : ℕ = fuel - (3 + 2 * d) in
        let round : (spare : ℕ) (s₀ : Machine)
            → ((s₁ : Machine) → s₁.r ibc.idst ≡ s₀.r ibc.idst → Halts spare pc s₁)
            → Halts (d + spare) (resume ibc.target) s₀ =
          λ spare s₀ arrive.
            straight-Halts d (resume ibc.target) pc ibc.idst spare (d + spare) s₀ stretch lt refl
              l.body arrive in
        let whole : fuel ≡ suc (d + suc (d + suc left)) = omega arith in
        rw whole (
          branch-Halts (d + suc (d + suc left)) pc s lt branch (λ no₁. finish _ _ (omega arith))
            λ yes₁. round (suc (d + suc left)) (bumped ibc s) λ s₁ e₁.
              branch-Halts (d + suc left) pc s₁ lt branch (λ no₂. finish _ _ (omega arith))
                λ yes₂. round (suc left) (bumped ibc s₁) λ s₂ e₂.
                  branch-Halts left pc s₂ lt branch (λ no₃. finish _ _ (omega arith))
                    λ yes₃. absurd (
                      cc (
                        taken_twice ibc l.condition (bumped ibc s) (bumped ibc s₁) (bumped ibc s₂)
                          (rebump ibc (bumped ibc s) s₁ e₁) (rebump ibc (bumped ibc s₁) s₂ e₂) yes₁
                          yes₂)))

    -- The stretches of later branches begin after an earlier branch.
    abbrev After : ℕ → Type 0
    After q = (q ≡ 0) ⊎ ((k : ℕ) × (q ≡ suc k) × (is_branch (code k).type ≡ true))

    After-le :
        (pc q : ℕ)
        → pc < 256
        → is_branch (code pc).type ≡ true
        → q ≤ pc
        → After q
        → q ≤ resume (code pc).target
    After-le pc q lt branch le (inl e) = omega arith
    After-le pc q lt branch le (inr (k, e, earlier)) = elim (dec_lt k (resume (code pc).target)) [
      | yes later ↦ omega arith
      | no overlaps ↦
          let l = compiled.loops pc lt branch in
          absurd (cc ((l.body k (omega arith) (omega arith)).plain))
    ]

    from-Halts :
        (left pc q fuel : ℕ) (s : Machine)
        → pc + left ≡ 256
        → q ≤ pc
        → After q
        → left + 2 * (256 - q) < fuel
        → Halts fuel pc s
    from-Halts left pc q zero s e le after enough = elim enough [ ]
    from-Halts zero pc q (suc fuel) s e le after enough = end-Halts fuel pc s (omega arith)
    from-Halts (suc left) pc q (suc fuel) s e le after enough =
        elim (Bool-cases (is_branch (code pc).type)) [
          | inr plain ↦ plain-Halts fuel pc s (omega arith) plain λ s'.
              from-Halts left (suc pc) q fuel s' (omega arith) (omega arith) after (omega arith)
          | inl branch ↦
              let start : q ≤ resume (code pc).target =
                After-le pc q (omega arith) branch le after in
              let back : resume (code pc).target ≤ pc =
                (compiled.loops pc (omega arith) branch).back in
              loop-Halts pc (pc - resume (code pc).target) (left + 2 * (256 - suc pc) + 1)
                (suc fuel) s (omega arith) branch (omega arith) (omega arith)
                λ f s' ok.
                  from-Halts left (suc pc) (suc pc) f s' (omega arith) (omega arith)
                    (inr (pc, refl, branch)) (omega arith)
        ]

-- From any state of the registers, the scratchpad and the rounding mode, and for any program, the
-- compiled code runs to its end within 769 rounds of the loop, with no access out of the scratchpad.
pub execute-Halts :
    (fpu : Fpu) (e_mask : ℕ → ℕ) (program : ℕ → Instruction) (old : Code) (s : Machine)
    → ((k : ℕ) → (program k).mod_byte < 256)
    → Halts fpu e_mask (compile_program program old) 769 0 s
execute-Halts fpu e_mask program old s bytes =
    from-Halts fpu e_mask (compile_program program old)
      (compile_program-IsCompiled program old bytes) 256 0 0 769 s (omega arith) (omega arith)
      (inl refl) (omega arith)
