-- ===== src/Superscalar/Generator/Loop.antt =====
-- The issue loop of `generate_superscalar` in src/superscalar.cpp.
use armrx_aarch64_random_x_v.Common.{
  ℕ, zero, suc, ◌+◌, ◌*◌, Bool, true, false, ◌||◌, Option, none, some, length, get_or,
  if◌then◌else◌, ◌==◌, leb, ltb, update, ◌>>=◌,
}
use armrx_aarch64_random_x_v.Vm.Types.{Instruction}
use armrx_aarch64_random_x_v.Superscalar.Generator.Random.{Blake2Generator}
use armrx_aarch64_random_x_v.Superscalar.Generator.Tables.{
  MacroOp, add_rr, info_ops, info_size, result_op, dst_op, src_op, is_multiplication, DecoderBuffer,
  fetch_next,
}
use armrx_aarch64_random_x_v.Superscalar.Generator.Schedule.{Ports, find_mop, commit_mop}
use armrx_aarch64_random_x_v.Superscalar.Generator.Current.{
  Current, null_instruction, Registers8, register_byte, to_instr, select_source, select_destination,
}
use armrx_aarch64_random_x_v.Superscalar.Generator.Create.{create_for_slot}

abbrev pub superscalar_latency : ℕ
superscalar_latency = 170

abbrev pub superscalar_max_size : ℕ
superscalar_max_size = 3 * superscalar_latency + 2

abbrev pub max_throwaway_count : ℕ
max_throwaway_count = 256

abbrev pub look_forward_cycles : ℕ
look_forward_cycles = 4

-- Four slots, each with at most 256 instructions that are thrown away.
abbrev pub slots_fuel : ℕ
slots_fuel = 1286

-- The local variables of the function, and the program as far as it is written.
pub record Issue : Type 0 where
  pub gen : Blake2Generator
  pub port_busy : Ports
  pub registers : Registers8
  pub current : Current
  pub macro_op_index : ℕ
  pub code_size : ℕ
  pub macro_op_count : ℕ
  pub cycle : ℕ
  pub dep_cycle : ℕ
  pub retire_cycle : ℕ
  pub ports_saturated : Bool
  pub program : ℕ → Instruction
  pub program_size : ℕ
  pub mul_count : ℕ
  pub throw_away_count : ℕ

-- What a round of the loop over the slots does: `continue` or its end at a slot, `break`, or an
-- exception or a draw that was refused too often.
pub data Round : Type 0 where
  go_on : ℕ → Issue → Round
  leave : Issue → Round
  stuck : Round

-- What the attempts to choose a register come to.
pub data Choice : Type 0 where
  chosen_at : ℕ → Issue → Choice
  failed : Issue → Choice

abbrev pub is_at : Option ℕ → ℕ → Bool
is_at none index = false
is_at (some op) index = op == index

-- The `for` over `forward`: at most `left` attempts, each of which may choose a register in the cycle
-- it is at, else the cycles go on. The result has the cycles that passed; `none` is a failure.
unfoldable pub look_forward {ℓ} : {A : Type ℓ} → (ℕ → Option A) → ℕ → ℕ → Option (ℕ × A)
look_forward attempt zero passed = none
look_forward attempt (suc left) passed =
    let later = look_forward attempt left (suc passed) in
    elim (attempt passed) [ none ↦ later | some chosen ↦ some (passed, chosen) ]

module _ (blake2b : (ℕ → ℕ) → ℕ → ℕ) (tries : ℕ) where
  -- The failure of all attempts.
  unfoldable pub throw_away : ℕ → Issue → Round
  throw_away slot s =
      if ltb s.throw_away_count max_throwaway_count
      then go_on slot (record s {
        throw_away_count = s.throw_away_count + 1;
        macro_op_index = info_size s.current.info;
      })
      else leave (record s { current = null_instruction })

  -- After the attempts: the cycle of the schedule and the state, or the state that has only waited.
  abbrev pub after_attempts : ℕ → Issue → Option (ℕ × (Current × Blake2Generator)) → Choice
  after_attempts schedule_cycle s none = failed (record s { cycle = s.cycle + look_forward_cycles })
  after_attempts schedule_cycle s (some (passed, chosen)) =
      chosen_at (schedule_cycle + passed)
        (record s { cycle = s.cycle + passed; current = chosen.0; gen = chosen.1 })

  unfoldable pub choose_source : ℕ → Issue → Choice
  unfolding look_forward
  choose_source schedule_cycle s =
      if is_at (src_op s.current.info) s.macro_op_index
      then after_attempts schedule_cycle s (
          look_forward
            (λ passed. select_source blake2b (schedule_cycle + passed) s.registers s.current s.gen)
            look_forward_cycles 0)
      else chosen_at schedule_cycle s

  unfoldable pub choose_destination : ℕ → Issue → Choice
  unfolding look_forward
  choose_destination schedule_cycle s =
      if dst_op s.current.info == s.macro_op_index
      then after_attempts schedule_cycle s (
          look_forward
            (λ passed.
              select_destination blake2b (schedule_cycle + passed) (ltb 0 s.throw_away_count)
                s.registers s.current s.gen)
            look_forward_cycles 0)
      else chosen_at schedule_cycle s

  -- The register that an instruction writes, from its result operation on.
  unfoldable pub note_result : ℕ → Issue → Issue
  note_result dep_cycle s =
      if result_op s.current.info == s.macro_op_index
      then record s {
        retire_cycle = dep_cycle;
        registers = update s.registers (register_byte s.current.dst) (record {
          latency = dep_cycle;
          last_op_group = s.current.op_group;
          last_op_par = s.current.op_group_par;
        });
      }
      else s

  -- An instruction whose last operation is issued enters the program.
  unfoldable pub emit : Issue → Issue
  unfolding to_instr is_multiplication
  emit s =
      if leb (info_size s.current.info) s.macro_op_index
      then record s {
        program = update s.program s.program_size (to_instr s.current);
        program_size = s.program_size + 1;
        mul_count = s.mul_count + (if is_multiplication s.current.info then 1 else 0);
      }
      else s

  -- The operation is issued in `schedule_cycle`, and the cycle goes back to `top_cycle`.
  unfoldable pub count_op : MacroOp → ℕ → ℕ → Issue → Issue
  count_op mop top_cycle schedule_cycle s = record s {
    code_size = s.code_size + mop.size;
    macro_op_index = s.macro_op_index + 1;
    macro_op_count = s.macro_op_count + 1;
    ports_saturated = s.ports_saturated || leb superscalar_latency schedule_cycle;
    cycle = top_cycle;
  }

  abbrev pub issued : MacroOp → ℕ → ℕ → ℕ → Issue → Issue
  issued mop top_cycle schedule_cycle dep_cycle s =
      emit (count_op mop top_cycle schedule_cycle (note_result dep_cycle s))

  abbrev pub saturate : Issue → Issue
  saturate s = record s { ports_saturated = true }

  -- After the search for ports for all of an operation.
  unfoldable pub after_commit : ℕ → MacroOp → ℕ → Issue → Option (ℕ × Ports) → Round
  unfolding note_result count_op emit
  after_commit slot mop top_cycle s none = leave (saturate (record s { throw_away_count = 0 }))
  after_commit slot mop top_cycle s (some committed) =
      let dep = committed.0 + mop.latency in
      go_on (slot + 1) (
        issued mop top_cycle committed.0 dep
          (record s { throw_away_count = 0; port_busy = committed.1; dep_cycle = dep }))

  unfoldable pub commit_op : ℕ → MacroOp → ℕ → ℕ → Issue → Round
  unfolding after_commit
  commit_op slot mop top_cycle schedule_cycle s =
      after_commit slot mop top_cycle s (commit_mop mop s.port_busy schedule_cycle schedule_cycle)

  abbrev pub and_choose : ℕ → Choice → (ℕ → Issue → Round) → Round
  and_choose slot (failed s) next = throw_away slot s
  and_choose slot (chosen_at schedule_cycle s) next = next schedule_cycle s

  abbrev pub the_op : Issue → MacroOp
  the_op s = get_or (info_ops s.current.info) s.macro_op_index add_rr

  -- After the search for the first cycle that has ports for an operation.
  unfoldable pub after_find : ℕ → ℕ → Issue → Option ℕ → Round
  unfolding choose_source choose_destination commit_op throw_away
  after_find slot top_cycle s none = leave (saturate s)
  after_find slot top_cycle s (some schedule_cycle) =
      and_choose slot (choose_source schedule_cycle s) (λ with_src s₁.
        and_choose slot (choose_destination with_src s₁)
          (λ with_dst s₂. commit_op slot (the_op s) top_cycle with_dst s₂))

  unfoldable pub issue_op : ℕ → ℕ → Issue → Round
  unfolding after_find
  issue_op slot top_cycle s =
      after_find slot top_cycle s (find_mop (the_op s) s.port_busy s.cycle s.dep_cycle)

  unfoldable pub after_create : ℕ → Issue → Option (Current × Blake2Generator) → Round
  unfolding issue_op
  after_create slot s none = stuck
  after_create slot s (some created) =
      issue_op slot s.cycle (record s { current = created.0; gen = created.1; macro_op_index = 0 })

  unfoldable pub issue_round : DecoderBuffer → ℕ → Issue → Round
  unfolding issue_op after_create
  issue_round buffer slot s =
      let created =
        create_for_slot blake2b tries (get_or buffer.counts slot 0) buffer.index
          (length buffer.counts == slot + 1) s.current s.gen in
      if leb (info_size s.current.info) s.macro_op_index
      then if s.ports_saturated || leb superscalar_max_size s.program_size
        then leave s
        else after_create slot s created
      else issue_op slot s.cycle s

  abbrev pub after_round : Round → (ℕ → Issue → Option Issue) → Option Issue
  after_round (go_on slot s) next = next slot s
  after_round (leave s) next = some s
  after_round stuck next = none

  -- The loop over the slots of a buffer, with fuel.
  unfoldable pub issue_slots : ℕ → DecoderBuffer → ℕ → Issue → Option Issue
  unfolding issue_round
  issue_slots zero buffer slot s = none
  issue_slots (suc fuel) buffer slot s =
      let rest = after_round (issue_round buffer slot s) (issue_slots fuel buffer) in
      if ltb slot (length buffer.counts) then rest else some s

  -- One decode cycle.
  unfoldable pub issue_buffer : ℕ → Issue → Option Issue
  unfolding issue_slots
  issue_buffer decode_cycle s =
      let fetched = fetch_next blake2b s.current.info decode_cycle s.mul_count s.gen in
      issue_slots slots_fuel fetched.0 0 (record s { gen = fetched.1 })
      >>= (λ s'. some (record s' { cycle = s'.cycle + 1 }))

  -- The loop over the decode cycles, `left` of them.
  unfoldable pub decode_from : ℕ → ℕ → Issue → Option (ℕ × Issue)
  unfolding issue_buffer
  decode_from zero decode_cycle s = some (decode_cycle, s)
  decode_from (suc left) decode_cycle s =
      let rest = issue_buffer decode_cycle s >>= decode_from left (decode_cycle + 1) in
      if s.ports_saturated || leb superscalar_max_size s.program_size
      then some (decode_cycle, s)
      else rest
