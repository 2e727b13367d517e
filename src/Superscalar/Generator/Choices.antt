-- ===== src/Superscalar/Generator/Choices.antt =====
-- The choices of registers keep the invariant of the issue loop in src/superscalar.cpp.
use armrx_aarch64_random_x_v.Common.{
  ℕ, suc, ◌+◌, ◌%◌, ◌>>=◌, ◌≡◌, ◌<◌, ◌==◌, arith, refl, Bool, Option, none, some, List, [], ◌∷◌,
  length, inl, inr, Bool-cases, ◌∙◌, sym, leb, ltb, ◌&&◌,
}
use armrx_aarch64_random_x_v.Superscalar.Generator.Random.{Blake2Generator, get_uint32}
use armrx_aarch64_random_x_v.Superscalar.Generator.Tables.{info_size, dst_op, src_op}
use armrx_aarch64_random_x_v.Superscalar.Generator.Current.{
  Current, Registers8, all_registers, select_if, is_dst_free, has_displaced, is_type, with_source,
  select_register, select_source, select_destination,
}
use armrx_aarch64_random_x_v.Superscalar.Generator.Loop.{
  Issue, Choice, chosen_at, failed, is_at, look_forward, after_attempts, choose_source,
  choose_destination,
}
use armrx_aarch64_random_x_v.Superscalar.Generator.Invariant.{
  Each, All, get_or-All, look_forward-Each, IsRandom, IsIssue, HasDst,
}

select_if-All {κ} :
    (P : ℕ → Type κ) (test : ℕ → Bool) (rs : List ℕ) → All P rs → All P (select_if test rs)
select_if-All P test [] all = tt
select_if-All P test (r ∷ rs) (h, all) = elim (Bool-cases (test r)) [
  | inl yes_it ↦ rw yes_it (h, select_if-All P test rs all)
  | inr not_it ↦ rw not_it (select_if-All P test rs all)
]

all_registers-small : All (λ r. r < 8) all_registers
all_registers-small = omega arith

module _ (blake2b : (ℕ → ℕ) → ℕ → ℕ) (tries : ℕ) (IsGood : Blake2Generator → Type 0)
    (random : IsRandom blake2b tries IsGood) where
  select_register-Each :
      (rs : List ℕ) (g : Blake2Generator)
      → All (λ r. r < 8) rs
      → IsGood g
      → Each (λ chosen. (chosen.0 < 8) × IsGood chosen.1) (select_register blake2b rs g)
  unfolding select_register
  select_register-Each [] g all good = tt
  select_register-Each (r ∷ []) g all good = (all.0, good)
  select_register-Each (r ∷ s ∷ more) g all good = (
    get_or-All (λ r. r < 8) (r ∷ s ∷ more) ((get_uint32 blake2b g).0 % length (r ∷ s ∷ more)) r all
        all.0,
    random.word g good,
  )

  -- The rest of the instruction stays.
  abbrev IsSource : Current → Current × Blake2Generator → Type 0
  IsSource c chosen =
      (chosen.0.info ≡ c.info)
      × (chosen.0.imm32 ≡ c.imm32)
      × (chosen.0.dst ≡ c.dst)
      × Each (λ r. r < 8) chosen.0.src
      × IsGood chosen.1

  abbrev IsDestination : Current → Current × Blake2Generator → Type 0
  IsDestination c chosen =
      (chosen.0.info ≡ c.info)
      × (chosen.0.imm32 ≡ c.imm32)
      × (chosen.0.src ≡ c.src)
      × HasDst chosen.0
      × IsGood chosen.1

  select_destination-Each :
      (cycle : ℕ) (allow : Bool) (registers : Registers8) (c : Current) (g : Blake2Generator)
      → IsGood g
      → Each (IsDestination c) (select_destination blake2b cycle allow registers c g)
  unfolding select_destination
  select_destination-Each cycle allow registers c g good =
      go (select_register blake2b (select_if (is_dst_free cycle allow registers c) all_registers) g)
        (select_register-Each (select_if (is_dst_free cycle allow registers c) all_registers) g
          (select_if-All (λ r. r < 8) (is_dst_free cycle allow registers c) all_registers
            all_registers-small)
          good)
    where
      go :
          (o : Option (ℕ × Blake2Generator))
          → Each (λ chosen. (chosen.0 < 8) × IsGood chosen.1) o
          → Each
              (IsDestination c)
              (o >>= (λ chosen. some (record c { dst = some chosen.0 }, chosen.1)))
      go none h = tt
      go (some chosen) h = (refl, refl, refl, (chosen.0, refl, h.0), h.1)

  select_source-Each :
      (cycle : ℕ) (registers : Registers8) (c : Current) (g : Blake2Generator)
      → IsGood g
      → Each (IsSource c) (select_source blake2b cycle registers c g)
  unfolding select_source
  select_source-Each cycle registers c g good =
      let available = select_if (λ i. leb (registers i).latency cycle) all_registers in
      let small =
        select_if-All (λ r. r < 8) (λ i. leb (registers i).latency cycle) all_registers
          all_registers-small in
      elim (Bool-cases (is_type 2 c.info && has_displaced available)) [
        | inl displaced ↦ rw displaced (refl, refl, refl, omega arith, good)
        | inr usual ↦
            rw usual (
              go (select_register blake2b available g)
                (select_register-Each available g small good))
      ]
    where
      go :
          (o : Option (ℕ × Blake2Generator))
          → Each (λ chosen. (chosen.0 < 8) × IsGood chosen.1) o
          → Each (IsSource c) (o >>= (λ choice. some (with_source blake2b choice.0 c, choice.1)))
      go none h = tt
      go (some chosen) h = (refl, refl, refl, h.0, h.1)

  -- A choice leaves the invariant, and of the state only the cycle, the generator and the registers of
  -- the instruction differ.
  unfoldable pub IsChoice : ℕ → Issue → Choice → Type 0
  IsChoice k s (chosen_at cycle s') =
      IsIssue IsGood k s'
      × (s'.macro_op_index ≡ s.macro_op_index)
      × (s'.current.info ≡ s.current.info)
      × (s'.throw_away_count ≡ s.throw_away_count)
  IsChoice k s (failed s') =
      IsIssue IsGood s.macro_op_index s'
      × (s'.macro_op_index ≡ s.macro_op_index)
      × (s'.current.info ≡ s.current.info)
      × (s'.throw_away_count ≡ s.throw_away_count)

  pub waited-IsIssue :
      (k : ℕ) (s : Issue) (cycle : ℕ)
      → IsIssue IsGood k s
      → IsIssue IsGood k (record s { cycle = cycle })
  waited-IsIssue k s cycle inv = record {
    good = inv.good;
    sound = inv.sound;
    bounded = inv.bounded;
    src = inv.src;
    divisor = inv.divisor;
    dst = inv.dst;
    started = inv.started;
    few = inv.few;
  }

  pub choose_source-IsChoice :
      (cycle : ℕ) (s : Issue)
      → IsIssue IsGood s.macro_op_index s
      → IsChoice s.macro_op_index s (choose_source blake2b tries cycle s)
  unfolding choose_source IsChoice
  choose_source-IsChoice cycle s inv =
      elim (Bool-cases (is_at (src_op s.current.info) s.macro_op_index)) [
        | inr other ↦ rw other (inv, refl, refl, refl)
        | inl now ↦ rw now (
            go (look_forward attempt 4 0) (
              look_forward-Each (IsSource s.current) attempt
                (λ passed. select_source-Each (cycle + passed) s.registers s.current s.gen inv.good)
                4 0))
      ]
    where
      attempt : ℕ → Option (Current × Blake2Generator)
      attempt passed = select_source blake2b (cycle + passed) s.registers s.current s.gen

      go :
          (o : Option (ℕ × (Current × Blake2Generator)))
          → Each (λ found. IsSource s.current found.1) o
          → IsChoice s.macro_op_index s (after_attempts blake2b tries cycle s o)
      go none h = (waited-IsIssue s.macro_op_index s (s.cycle + 4) inv, refl, refl, refl)
      go (some (passed, (c, g))) (info, imm, dst, src, good) = (
        record {
          good = good;
          sound = inv.sound;
          bounded = inv.bounded;
          src = src;
          divisor = λ e. rw imm (inv.divisor (sym info ∙ e));
          dst = rw (info, dst) inv.dst;
          started = rw info inv.started;
          few = inv.few;
        },
        refl,
        info,
        refl,
      )

  pub choose_destination-IsChoice :
      (cycle : ℕ) (s : Issue)
      → IsIssue IsGood s.macro_op_index s
      → s.macro_op_index < info_size s.current.info
      → IsChoice (suc s.macro_op_index) s (choose_destination blake2b tries cycle s)
  unfolding choose_destination IsChoice
  choose_destination-IsChoice cycle s inv inside =
      elim (Bool-cases (dst_op s.current.info == s.macro_op_index)) [
        | inr other ↦ rw other (
          record {
            good = inv.good;
            sound = inv.sound;
            bounded = inv.bounded;
            src = inv.src;
            divisor = inv.divisor;
            dst = λ lt le. inv.dst lt (ground arith);
            started = inv.started;
            few = inv.few;
          },
          refl,
          refl,
          refl,
        )
        | inl now ↦ rw now (
            go (look_forward attempt 4 0) (
              look_forward-Each (IsDestination s.current) attempt
                (λ passed.
                  select_destination-Each (cycle + passed) (ltb 0 s.throw_away_count) s.registers
                    s.current s.gen inv.good)
                4 0))
      ]
    where
      attempt : ℕ → Option (Current × Blake2Generator)
      attempt passed =
          select_destination blake2b (cycle + passed) (ltb 0 s.throw_away_count) s.registers
            s.current s.gen

      go :
          (o : Option (ℕ × (Current × Blake2Generator)))
          → Each (λ found. IsDestination s.current found.1) o
          → IsChoice (suc s.macro_op_index) s (after_attempts blake2b tries cycle s o)
      go none h = (waited-IsIssue s.macro_op_index s (s.cycle + 4) inv, refl, refl, refl)
      go (some (passed, (c, g))) (info, imm, src, dst, good) = (
        record {
          good = good;
          sound = inv.sound;
          bounded = inv.bounded;
          src = rw src inv.src;
          divisor = λ e. rw imm (inv.divisor (sym info ∙ e));
          dst = λ lt le. dst;
          started = rw info inv.started;
          few = inv.few;
        },
        refl,
        info,
        refl,
      )
