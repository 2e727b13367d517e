-- ===== src/Superscalar/Generator/Rounds.antt =====
-- A round of the issue loop in src/superscalar.cpp keeps the invariant and makes progress.
use armrx_aarch64_random_x_v.Common.{
  ℕ, suc, ◌+◌, ◌*◌, ◌≡◌, ◌<◌, ◌≤◌, ◌==◌, arith, refl, Option, none, some, inl, inr, Bool-cases, sym,
  leb, ltb, ltb→lt, leb→le, subst,
}
use armrx_aarch64_random_x_v.Superscalar.Generator.Random.{Blake2Generator}
use armrx_aarch64_random_x_v.Superscalar.Generator.Tables.{MacroOp, info_size, result_op}
use armrx_aarch64_random_x_v.Superscalar.Generator.Schedule.{Ports, find_mop, commit_mop}
use armrx_aarch64_random_x_v.Superscalar.Generator.Current.{to_instr, null_instruction}
use armrx_aarch64_random_x_v.Superscalar.Generator.Loop.{
  Issue, Round, go_on, leave, stuck, Choice, chosen_at, failed, throw_away, choose_source,
  choose_destination, note_result, emit, count_op, saturate, commit_op, issue_op, after_commit,
  after_find, commit_op, the_op, and_choose, max_throwaway_count,
}
use armrx_aarch64_random_x_v.Superscalar.Generator.Invariant.{
  IsRandom, IsIssue, IsSound, update-All, dst_op-lt, to_instr-IsSound,
}
use armrx_aarch64_random_x_v.Superscalar.Generator.Choices.{
  IsChoice, choose_source-IsChoice, choose_destination-IsChoice,
}

-- Slots and attempts, of which one round takes at least one.
abbrev pub spent : ℕ → Issue → ℕ
spent slot s = 257 * slot + s.throw_away_count

module _ (blake2b : (ℕ → ℕ) → ℕ → ℕ) (tries : ℕ) (IsGood : Blake2Generator → Type 0)
    (random : IsRandom blake2b tries IsGood) where
  -- The invariant between two operations.
  abbrev pub Between : Issue → Type 0
  Between s = IsIssue IsGood s.macro_op_index s

  unfoldable pub IsRound : ℕ → ℕ → Round → Type 0
  IsRound slot before (go_on slot' s) = Between s × (slot' ≤ suc slot) × (before < spent slot' s)
  IsRound slot before (leave s) = Between s
  IsRound slot before stuck = ⊥

  -- An instruction that is thrown away, or the instruction without operations.
  idle-Between :
      (s : Issue) (n : ℕ)
      → Between s
      → info_size s.current.info ≤ n
      → (t : ℕ) → t ≤ max_throwaway_count
      → Between (record s { macro_op_index = n; throw_away_count = t })
  idle-Between s n inv le t few = record {
    good = inv.good;
    sound = inv.sound;
    bounded = inv.bounded;
    src = inv.src;
    divisor = inv.divisor;
    dst = λ lt. absurd (omega arith);
    started = λ lt. absurd (omega arith);
    few = few;
  }

  null-Between : (s : Issue) → Between s → Between (record s { current = null_instruction })
  unfolding info_size
  null-Between s inv = record {
    good = inv.good;
    sound = inv.sound;
    bounded = inv.bounded;
    src = tt;
    divisor = λ e. cc;
    dst = λ lt. absurd (omega arith);
    started = λ lt. absurd (omega arith);
    few = inv.few;
  }

  throw_away-IsRound :
      (slot before : ℕ) (s : Issue)
      → Between s
      → before ≤ spent slot s
      → IsRound slot before (throw_away blake2b tries slot s)
  unfolding throw_away IsRound
  throw_away-IsRound slot before s inv le = elim (Bool-cases (ltb s.throw_away_count 256)) [
    | inl few ↦
        let below = ltb→lt s.throw_away_count 256 few in
        rw few (
          idle-Between s (info_size s.current.info) inv (omega arith) (s.throw_away_count + 1)
              (omega arith),
          omega arith,
          omega arith,
        )
    | inr many ↦ rw many (null-Between s inv)
  ]

  saturate-Between : (s : Issue) → Between s → Between (saturate blake2b tries s)
  saturate-Between s inv = record {
    good = inv.good;
    sound = inv.sound;
    bounded = inv.bounded;
    src = inv.src;
    divisor = inv.divisor;
    dst = inv.dst;
    started = inv.started;
    few = inv.few;
  }

  -- The state after `note_result` and before `emit`.
  abbrev IsNoted : ℕ → Issue → Type 0
  IsNoted n s =
      IsIssue IsGood (suc n) s
      × (s.macro_op_index ≡ n)
      × (n < info_size s.current.info)
      × (s.throw_away_count ≡ 0)

  note_result-IsNoted :
      (dep n : ℕ) (s : Issue) → IsNoted n s → IsNoted n (note_result blake2b tries dep s)
  unfolding note_result
  note_result-IsNoted dep n s (inv, at, real, none_thrown) =
      elim (Bool-cases (result_op s.current.info == s.macro_op_index)) [
        | inl now ↦ rw now (
          record {
            good = inv.good;
            sound = inv.sound;
            bounded = inv.bounded;
            src = inv.src;
            divisor = inv.divisor;
            dst = inv.dst;
            started = inv.started;
            few = inv.few;
          },
          at,
          real,
          none_thrown,
        )
        | inr other ↦ rw other (inv, at, real, none_thrown)
      ]

  emit-Between :
      (mop : MacroOp) (top cycle n : ℕ) (s : Issue)
      → IsNoted n s
      → Between (emit blake2b tries (count_op blake2b tries mop top cycle s))
        × ((emit blake2b tries (count_op blake2b tries mop top cycle s)).throw_away_count ≡ 0)
  unfolding emit count_op
  emit-Between mop top cycle n s (inv, at, real, none_thrown) =
      elim (Bool-cases (leb (info_size s.current.info) (s.macro_op_index + 1))) [
        | inl last ↦
            let ended = leb→le (info_size s.current.info) (s.macro_op_index + 1) last in
            let before = dst_op-lt s.current.info (omega arith) in
            let room = inv.started (omega arith) in
            let fresh =
              to_instr-IsSound s.current (omega arith) inv.src inv.divisor
                (inv.dst (omega arith) (omega arith)) in
            rw last (
              record {
                good = inv.good;
                sound =
                    update-All IsSound s.program s.program_size (to_instr s.current) inv.sound
                      fresh;
                bounded = omega arith;
                src = inv.src;
                divisor = inv.divisor;
                dst = λ lt. absurd (omega arith);
                started = λ lt. absurd (omega arith);
                few = inv.few;
              },
              none_thrown,
            )
        | inr more ↦ rw more (
          record {
            good = inv.good;
            sound = inv.sound;
            bounded = inv.bounded;
            src = inv.src;
            divisor = inv.divisor;
            dst = λ lt le. inv.dst (omega arith) (omega arith);
            started = λ lt. inv.started (omega arith);
            few = inv.few;
          },
          none_thrown,
        )
      ]

  after_commit-IsRound :
      (slot before : ℕ) (mop : MacroOp) (top : ℕ) (s : Issue)
      → IsIssue IsGood (suc s.macro_op_index) s
      → s.macro_op_index < info_size s.current.info
      → before ≤ spent slot s
      → (o : Option (ℕ × Ports)) → IsRound slot before (after_commit blake2b tries slot mop top s o)
  unfolding after_commit IsRound
  after_commit-IsRound slot before mop top s inv real le none = record {
    good = inv.good;
    sound = inv.sound;
    bounded = inv.bounded;
    src = inv.src;
    divisor = inv.divisor;
    dst = λ lt le. inv.dst lt (omega arith);
    started = inv.started;
    few = omega arith;
  }
  after_commit-IsRound slot before mop top s inv real le (some (at, ports)) =
      let dep = at + mop.latency in
      let start = record s { throw_away_count = 0; port_busy = ports; dep_cycle = dep } in
      let noted = note_result-IsNoted dep s.macro_op_index start (
        record {
          good = inv.good;
          sound = inv.sound;
          bounded = inv.bounded;
          src = inv.src;
          divisor = inv.divisor;
          dst = inv.dst;
          started = inv.started;
          few = omega arith;
        },
        refl,
        real,
        refl,
      ) in
      let (inv', none_thrown) =
        emit-Between mop top at s.macro_op_index (note_result blake2b tries dep start) noted in
      let few = inv.few in (inv', omega arith, omega arith)

  at_index : {k : ℕ} (s : Issue) → IsIssue IsGood k s → s.macro_op_index ≡ k → Between s
  at_index s inv at = subst (λ k. IsIssue IsGood k s) (sym at) inv

  and_choose-IsRound :
      (slot before k : ℕ) (s : Issue) (choice : Choice) (next : ℕ → Issue → Round)
      → IsChoice blake2b tries IsGood random k s choice
      → before ≤ spent slot s
      → ((cycle : ℕ) (s' : Issue)
          → IsIssue IsGood k s'
          → s'.macro_op_index ≡ s.macro_op_index
          → s'.current.info ≡ s.current.info
          → before ≤ spent slot s'
          → IsRound slot before (next cycle s'))
      → IsRound slot before (and_choose blake2b tries slot choice next)
  unfolding IsChoice
  and_choose-IsRound slot before k s (failed s') next (inv, at, info, thrown) le then_next =
      throw_away-IsRound slot before s' (at_index s' inv at) (omega arith)
  and_choose-IsRound slot before k s (chosen_at cycle s') next (inv, at, info, thrown) le
        then_next =
      then_next cycle s' inv at info (omega arith)

  after_find-IsRound :
      (slot before top : ℕ) (s : Issue)
      → Between s
      → s.macro_op_index < info_size s.current.info
      → before ≤ spent slot s
      → (o : Option ℕ) → IsRound slot before (after_find blake2b tries slot top s o)
  unfolding after_find commit_op IsRound
  after_find-IsRound slot before top s inv real le none = saturate-Between s inv
  after_find-IsRound slot before top s inv real le (some cycle) =
      and_choose-IsRound slot before s.macro_op_index s (choose_source blake2b tries cycle s) _
        (choose_source-IsChoice blake2b tries IsGood random cycle s inv) le
        (λ with_src s₁ inv₁ at₁ info₁ le₁.
          let real₁ : s₁.macro_op_index < info_size s₁.current.info = rw (at₁, info₁) real in
          and_choose-IsRound slot before (suc s₁.macro_op_index) s₁
            (choose_destination blake2b tries with_src s₁) _
            (choose_destination-IsChoice blake2b tries IsGood random with_src s₁
              (at_index s₁ inv₁ at₁) real₁)
            le₁
            (λ with_dst s₂ inv₂ at₂ info₂ le₂.
              let inv₂' = subst (λ k. IsIssue IsGood (suc k) s₂) (sym at₂) inv₂ in
              after_commit-IsRound slot before (the_op blake2b tries s) top s₂ inv₂'
                (rw (at₂, info₂) real₁) le₂
                (commit_mop (the_op blake2b tries s) s₂.port_busy with_dst with_dst)))

  pub issue_op-IsRound :
      (slot before top : ℕ) (s : Issue)
      → Between s
      → s.macro_op_index < info_size s.current.info
      → before ≤ spent slot s
      → IsRound slot before (issue_op blake2b tries slot top s)
  unfolding issue_op
  issue_op-IsRound slot before top s inv real le =
      after_find-IsRound slot before top s inv real le
        (find_mop (the_op blake2b tries s) s.port_busy s.cycle s.dep_cycle)
