-- ===== src/Superscalar/Generator/Valid.antt =====
-- `generate_superscalar` of src/superscalar.cpp as a whole.
use armrx_aarch64_random_x_v.Common.{
  ℕ, zero, suc, ◌+◌, ◌*◌, ◌≡◌, ◌<◌, ◌≤◌, ◌==◌, arith, refl, ap, Bool, true, false, Option, some,
  length, inl, inr, Bool-cases, sym, leb, ltb, ltb→lt, leb→gt, subst, ◌||◌, ◌>>=◌, if◌then◌else◌,
}
use armrx_aarch64_random_x_v.Superscalar.Program.{SuperscalarProgram}
use armrx_aarch64_random_x_v.Superscalar.Generator.Random.{Blake2Generator}
use armrx_aarch64_random_x_v.Superscalar.Generator.Tables.{info_size, DecoderBuffer, fetch_next}
use armrx_aarch64_random_x_v.Superscalar.Generator.Current.{Current}
use armrx_aarch64_random_x_v.Superscalar.Generator.Loop.{
  Issue, Round, go_on, leave, stuck, issue_round, after_create, after_round, issue_slots,
  slots_fuel, issue_buffer, decode_from, superscalar_latency, superscalar_max_size,
}
use armrx_aarch64_random_x_v.Superscalar.Generator.Invariant.{IsRandom, IsSound}
use armrx_aarch64_random_x_v.Superscalar.Generator.Slots.{
  IsBuffer, IsMade, get_or-IsSlot, create_for_slot-IsMade, fetch_next-IsFetched,
}
use armrx_aarch64_random_x_v.Superscalar.Generator.Rounds.{
  spent, Between, IsRound, issue_op-IsRound,
}
use armrx_aarch64_random_x_v.Superscalar.Generator.Latency.{
  asic_latencies, pick_address, finish, initial_issue, generate_superscalar,
}

pick_address-lt :
    (left i : ℕ) (latencies : ℕ → ℕ) (highest address : ℕ)
    → i + left ≤ 8
    → address < 8
    → pick_address left i latencies highest address < 8
unfolding pick_address
pick_address-lt zero i latencies highest address le lt = lt
pick_address-lt (suc left) i latencies highest address le lt =
    elim (Bool-cases (ltb highest (latencies i))) [
      | inl higher ↦
          rw higher
            (pick_address-lt left (i + 1) latencies (latencies i) i (omega arith) (omega arith))
      | inr not_higher ↦
          rw not_higher (pick_address-lt left (i + 1) latencies highest address (omega arith) lt)
    ]

module _ (blake2b : (ℕ → ℕ) → ℕ → ℕ) (tries : ℕ) (IsGood : Blake2Generator → Type 0)
    (random : IsRandom blake2b tries IsGood) where
  abbrev IsKept : Issue → Type 0
  IsKept s = Between blake2b tries IsGood random s

  abbrev Comes : Option Issue → Type 0
  Comes o = (s : Issue) × (o ≡ some s) × IsKept s

  abbrev IsRoundFrom : ℕ → ℕ → Round → Type 0
  IsRoundFrom slot before r = IsRound blake2b tries IsGood random slot before r

  after_create-IsRound :
      (slot : ℕ) (s : Issue) (o : Option (Current × Blake2Generator))
      → IsKept s
      → s.program_size < superscalar_max_size
      → IsMade IsGood o
      → IsRoundFrom slot (spent slot s) (after_create blake2b tries slot s o)
  unfolding after_create
  after_create-IsRound slot s o inv room ((c, g), e, (real, src, divisor, good)) =
      subst (λ o. IsRoundFrom slot (spent slot s) (after_create blake2b tries slot s o)) (sym e)
        (issue_op-IsRound blake2b tries IsGood random slot (spent slot s) s.cycle
          (record s { current = c; gen = g; macro_op_index = 0 })
          (record {
            good = good;
            sound = inv.sound;
            bounded = inv.bounded;
            src = src;
            divisor = divisor;
            dst = λ lt none_before. absurd (omega arith);
            started = λ lt. room;
            few = inv.few;
          })
          real (omega arith))

  or_room :
      (s : Issue)
      → (s.ports_saturated || leb superscalar_max_size s.program_size) ≡ false
      → s.program_size < superscalar_max_size
  or_room s h = ground arith

  issue_round-IsRound :
      (buffer : DecoderBuffer) (slot : ℕ) (s : Issue)
      → IsBuffer buffer
      → IsKept s
      → slot < length buffer.counts
      → IsRoundFrom slot (spent slot s) (issue_round blake2b tries buffer slot s)
  unfolding issue_round IsRound
  issue_round-IsRound buffer slot s is_buffer inv lt =
      elim (Bool-cases (leb (info_size s.current.info) s.macro_op_index)) [
        | inr within ↦ rw within (
            issue_op-IsRound blake2b tries IsGood random slot (spent slot s) s.cycle s inv
              (leb→gt (info_size s.current.info) s.macro_op_index within) (omega arith))
        | inl done ↦
            rw done
              (elim (Bool-cases (s.ports_saturated || leb superscalar_max_size s.program_size)) [
                | inl full ↦ rw full inv
                | inr free ↦ rw free (
                    after_create-IsRound slot s _ inv (or_room s free) (
                      create_for_slot-IsMade blake2b tries IsGood random
                        (get_or-IsSlot buffer.counts slot is_buffer.0 lt) buffer.index
                        (length buffer.counts == slot + 1) s.current s.gen inv.good))
              ])
      ]

  after_round-Comes :
      (slot before : ℕ) (r : Round) (next : ℕ → Issue → Option Issue)
      → IsRoundFrom slot before r
      → ((slot' : ℕ) (s' : Issue)
          → IsKept s'
          → slot' ≤ suc slot
          → before < spent slot' s'
          → Comes (next slot' s'))
      → Comes (after_round blake2b tries r next)
  unfolding IsRound
  after_round-Comes slot before (go_on slot' s') next (inv, le, lt) later = later slot' s' inv le lt
  after_round-Comes slot before (leave s') next inv later = (s', refl, inv)
  after_round-Comes slot before stuck next inv later = absurd inv

  issue_slots-Comes :
      (fuel : ℕ) (buffer : DecoderBuffer) (slot : ℕ) (s : Issue)
      → IsBuffer buffer
      → IsKept s
      → slot ≤ length buffer.counts
      → 257 * length buffer.counts + 257 ≤ fuel + spent slot s
      → Comes (issue_slots blake2b tries fuel buffer slot s)
  unfolding issue_slots
  issue_slots-Comes zero buffer slot s is_buffer inv le enough =
      let few = inv.few in absurd (omega arith)
  issue_slots-Comes (suc fuel) buffer slot s is_buffer inv le enough =
      elim (Bool-cases (ltb slot (length buffer.counts))) [
        | inr last ↦ rw last (s, refl, inv)
        | inl more ↦
            let lt = ltb→lt slot (length buffer.counts) more in
            rw more (
              after_round-Comes slot (spent slot s) (issue_round blake2b tries buffer slot s)
                (issue_slots blake2b tries fuel buffer)
                (issue_round-IsRound buffer slot s is_buffer inv lt)
                (λ slot' s' inv' le' progress.
                  issue_slots-Comes fuel buffer slot' s' is_buffer inv' (omega arith)
                    (omega arith)))
      ]

  abbrev Ends : Option (ℕ × Issue) → Type 0
  Ends o = (done : ℕ × Issue) × (o ≡ some done) × IsKept done.1

  then-Ends :
      (o : Option Issue) (next : Issue → Option (ℕ × Issue))
      → Comes o
      → ((s' : Issue) → IsKept s' → Ends (next s'))
      → Ends (o >>= next)
  then-Ends o next (s', e, inv) later = let (done, e', inv') = later s' inv in (done, rw e e', inv')

  either-Ends :
      (test : Bool) (o o' : Option (ℕ × Issue)) → Ends o → Ends o' → Ends (if test then o else o')
  either-Ends true o o' h h' = h
  either-Ends false o o' h h' = h'

  moved-IsKept :
      (s : Issue) (g : Blake2Generator) (cycle : ℕ)
      → IsKept s
      → IsGood g
      → IsKept (record s { gen = g; cycle = cycle })
  moved-IsKept s g cycle inv good = record {
    good = good;
    sound = inv.sound;
    bounded = inv.bounded;
    src = inv.src;
    divisor = inv.divisor;
    dst = inv.dst;
    started = inv.started;
    few = inv.few;
  }

  next_cycle-Comes :
      (o : Option Issue) → Comes o → Comes (o >>= (λ s'. some (record s' { cycle = s'.cycle + 1 })))
  next_cycle-Comes o (s', e, inv) =
      let step : Issue → Option Issue = λ s'. some (record s' { cycle = s'.cycle + 1 }) in
      (
        record s' { cycle = s'.cycle + 1 },
        ap (λ o. o >>= step) e,
        moved-IsKept s' s'.gen (s'.cycle + 1) inv inv.good,
      )

  issue_buffer-Comes :
      (cycle : ℕ) (s : Issue) → IsKept s → Comes (issue_buffer blake2b tries cycle s)
  unfolding issue_buffer
  issue_buffer-Comes cycle s inv =
      let fetched = fetch_next blake2b s.current.info cycle s.mul_count s.gen in
      let (is_buffer, good) =
        fetch_next-IsFetched blake2b tries IsGood random s.current.info cycle s.mul_count s.gen
          inv.good in
      next_cycle-Comes
        (issue_slots blake2b tries slots_fuel fetched.0 0 (record s { gen = fetched.1 }))
        (issue_slots-Comes slots_fuel fetched.0 0 (record s { gen = fetched.1 }) is_buffer
          (moved-IsKept s fetched.1 s.cycle inv good) (omega arith) (omega arith))

  decode_from-Ends :
      (left cycle : ℕ) (s : Issue) → IsKept s → Ends (decode_from blake2b tries left cycle s)
  unfolding decode_from
  decode_from-Ends zero cycle s inv = ((cycle, s), refl, inv)
  decode_from-Ends (suc left) cycle s inv =
      either-Ends (s.ports_saturated || leb superscalar_max_size s.program_size) (some (cycle, s))
        (issue_buffer blake2b tries cycle s >>= decode_from blake2b tries left (cycle + 1))
        ((cycle, s), refl, inv)
        (then-Ends (issue_buffer blake2b tries cycle s) (decode_from blake2b tries left (cycle + 1))
          (issue_buffer-Comes cycle s inv) (λ s' inv'. decode_from-Ends left (cycle + 1) s' inv'))

  initial_issue-IsKept : (g : Blake2Generator) → IsGood g → IsKept (initial_issue g)
  unfolding initial_issue info_size
  initial_issue-IsKept g good = record {
    good = good;
    sound = λ j lt. absurd (omega arith);
    bounded = omega arith;
    src = tt;
    divisor = λ e. cc;
    dst = λ lt. absurd (omega arith);
    started = λ lt. absurd (omega arith);
    few = omega arith;
  }

  -- A source of random bytes whose redraws end makes a program: of at most 512 instructions, which the
  -- interpreters know, on registers below 8 and with divisors that are no powers of two, and with an
  -- address register below 8. The generator is left in a state that the next program can be made from.
  pub generate_superscalar-IsSound :
      (g : Blake2Generator)
      → IsGood g
      → (made : SuperscalarProgram × Blake2Generator) × (generate_superscalar blake2b tries g
          ≡ some made)
        × (made.0.size ≤ 512)
        × ((j : ℕ) → j < made.0.size → IsSound (made.0.at j))
        × (made.0.address_register < 8)
        × IsGood made.1
  unfolding generate_superscalar finish
  generate_superscalar-IsSound g good =
      let (done, e, inv) =
        decode_from-Ends superscalar_latency 0 (initial_issue g) (initial_issue-IsKept g good) in
      let latencies = asic_latencies done.1.program_size 0 done.1.program (λ i. 0) in
      (
        (finish done.1, done.1.gen),
        rw e refl,
        inv.bounded,
        inv.sound,
        pick_address-lt 8 0 latencies 0 0 (omega arith) (omega arith),
        inv.good,
      )
