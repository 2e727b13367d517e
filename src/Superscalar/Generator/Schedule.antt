-- ===== src/Superscalar/Generator/Schedule.antt =====
-- `scheduleUop` and `scheduleMop` of src/superscalar.cpp. A port that is busy holds the micro-operation.
-- The result -1 is `none`. With `commit` the port is taken.
use armrx_aarch64_random_x_v.Common.{
  ℕ, zero, suc, ◌+◌, ◌-◌, bit_and, Bool, not, ◌&&◌, Option, none, some, if◌then◌else◌, ◌==◌, leb,
  update, ◌>>=◌,
}
use armrx_aarch64_random_x_v.Superscalar.Generator.Tables.{MacroOp, p0, p1, p5}

abbrev pub cycle_map_size : ℕ
cycle_map_size = 174

-- By cycle and port: 0, 1 and 2 stand for P0, P1 and P5.
abbrev pub Ports : Type 0
Ports = ℕ → ℕ → ℕ

abbrev pub take_port : Ports → ℕ → ℕ → ℕ → Ports
take_port busy cycle port uop = update busy cycle (update (busy cycle) port uop)

abbrev pub is_free : ℕ → ℕ → Ports → ℕ → ℕ → Bool
is_free uop mask busy cycle port = not (bit_and uop mask == 0) && busy cycle port == 0

-- The ports in the order in which they are tried.
abbrev pub free_port : ℕ → Ports → ℕ → Option ℕ
free_port uop busy cycle =
    if is_free uop p5 busy cycle 2
    then some 2
    else if is_free uop p0 busy cycle 0
    then some 0
    else if is_free uop p1 busy cycle 1
    then some 1
    else none

-- The first cycle from `cycle` on, of `left` cycles, in which a port is free, with the port.
unfoldable pub uop_slot : ℕ → ℕ → ℕ → Ports → Option (ℕ × ℕ)
uop_slot zero cycle uop busy = none
uop_slot (suc left) cycle uop busy =
    let later = uop_slot left (cycle + 1) uop busy in
    elim (free_port uop busy cycle) [ none ↦ later | some port ↦ some (cycle, port) ]

unfoldable pub find_uop : ℕ → ℕ → Ports → Option (ℕ × ℕ)
unfolding uop_slot
find_uop uop cycle busy = uop_slot (cycle_map_size - cycle) cycle uop busy

-- `scheduleUop<true>`: the cycle and the ports after it.
unfoldable pub commit_uop : ℕ → ℕ → Ports → Option (ℕ × Ports)
unfolding find_uop
commit_uop uop cycle busy = do
  slot ← find_uop uop cycle busy
  some (slot.0, take_port busy slot.0 slot.1 uop)

abbrev pub same_slot : Option (ℕ × ℕ) → Option (ℕ × ℕ) → Option ℕ
same_slot (some slot1) (some slot2) = if slot1.0 == slot2.0 then some slot1.0 else none
same_slot _ _ = none

-- The first cycle in which both micro-operations of a macro-operation are scheduled at once.
unfoldable pub pair_slot : ℕ → ℕ → ℕ → ℕ → Ports → Option ℕ
unfolding find_uop
pair_slot zero cycle uop1 uop2 busy = none
pair_slot (suc left) cycle uop1 uop2 busy =
    let later = pair_slot left (cycle + 1) uop1 uop2 busy in
    elim (same_slot (find_uop uop1 cycle busy) (find_uop uop2 cycle busy)) [
      | none ↦ later
      | some found ↦ some found
    ]

abbrev pub start_cycle : MacroOp → ℕ → ℕ → ℕ
start_cycle mop cycle dep_cycle =
    if mop.is_dependent && leb cycle dep_cycle then dep_cycle else cycle

-- `scheduleMop<false>`.
unfoldable pub find_mop : MacroOp → Ports → ℕ → ℕ → Option ℕ
unfolding find_uop pair_slot
find_mop mop busy cycle dep_cycle =
    let from = start_cycle mop cycle dep_cycle in
    if mop.uop1 == 0
    then some from
    else if mop.uop2 == 0
    then (do slot ← find_uop mop.uop1 from busy; some slot.0)
    else pair_slot (cycle_map_size - from) from mop.uop1 mop.uop2 busy

-- The ports after the second of two micro-operations; a search that fails leaves them.
abbrev pub ports_after : Option (ℕ × Ports) → Ports → Ports
ports_after none busy = busy
ports_after (some slot) busy = slot.1

-- `scheduleMop<true>`.
unfoldable pub commit_mop : MacroOp → Ports → ℕ → ℕ → Option (ℕ × Ports)
unfolding find_mop commit_uop
commit_mop mop busy cycle dep_cycle =
    let from = start_cycle mop cycle dep_cycle in
    if mop.uop1 == 0
    then some (from, busy)
    else if mop.uop2 == 0
    then commit_uop mop.uop1 from busy
    else (do
      at ← pair_slot (cycle_map_size - from) from mop.uop1 mop.uop2 busy
      let busy₁ = ports_after (commit_uop mop.uop1 at busy) busy
      some (at, ports_after (commit_uop mop.uop2 at busy₁) busy₁))
