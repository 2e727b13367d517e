-- ===== src/Pool/Rotation.antt =====
-- The pools that are tried while none can be reached.
use armrx_aarch64_random_x_v.Common.{
  ℕ, zero, suc, ◌+◌, ◌*◌, ◌%◌, ◌^◌, ◌≡◌, ◌<◌, ◌≤◌, arith, refl, sym, ap, ◌∙◌, false, some, length,
  get_elem?, u32,
}
use native.Mathlib.Nat.{mod-eq_of_lt}
use armrx_aarch64_random_x_v.Pool.Settled.{elem_below}
use armrx_aarch64_random_x_v.Pool.Manager.{
  Pool, Client, PoolManager, Seen, new_client, replace_client, connect_to_current, connect,
  next_idx, end_cooldown, count_retry, check_client, cool_down, tick_client, tick, ticks,
}

-- A client that was never connected and does not retry.
abbrev pub unreachable : Seen
unreachable = record {
  connected = false;
  connected_again = false;
  attempts = 0;
  loop_active = false;
}

-- The manager `m` between retries, at pool `i` after `r` retries.
abbrev pub waiting : PoolManager → ℕ → ℕ → Client → PoolManager
waiting m i r c = record m {
  current_idx = i;
  failover_cooldown = 0;
  sync_retry_count = r;
  stratum = some c;
}

module _ (m : PoolManager) (i : ℕ) (c : Client) (p : Pool) where
  -- Two ticks count a retry and connect again.
  tick-retry :
      (r : ℕ)
      → r < 4
      → get_elem? m.pools i ≡ some p
      → ticks 2 unreachable (waiting m i r c) ≡ waiting m i (suc r) (new_client m p)
  unfolding ticks tick tick_client check_client cool_down end_cooldown count_retry
      connect_to_current replace_client new_client
  tick-retry zero lt at = rw at refl
  tick-retry (suc zero) lt at = rw at refl
  tick-retry (suc (suc zero)) lt at = rw at refl
  tick-retry (suc (suc (suc zero))) lt at = rw at refl
  tick-retry (suc (suc (suc (suc r)))) lt at = absurd (omega arith)

  -- The fifth retry goes to the next pool.
  tick-failover :
      get_elem? m.pools (next_idx (waiting m i 4 c)) ≡ some p
      → ticks 2 unreachable (waiting m i 4 c)
        ≡ waiting m (next_idx (waiting m i 4 c)) 0 (new_client m p)
  unfolding ticks tick tick_client check_client cool_down end_cooldown count_retry
      connect_to_current replace_client new_client next_idx
  tick-failover at = rw at refl

ticks-add :
    (a b : ℕ) (seen : Seen) (m : PoolManager) → ticks (a + b) seen m ≡ ticks b seen (ticks a seen m)
unfolding ticks
ticks-add zero b seen m = let same : 0 + b ≡ b = omega arith in ap (λ n. ticks n seen m) same
ticks-add (suc a) b seen m =
    let same : suc a + b ≡ suc (a + b) = omega arith in
    ap (λ n. ticks n seen m) same ∙ ticks-add a b seen (tick seen m)

ticks_by_twos :
    (seen : Seen) (m : PoolManager)
    → ticks 10 seen m ≡ ticks 2 seen (ticks 2 seen (ticks 2 seen (ticks 2 seen (ticks 2 seen m))))
unfolding ticks
ticks_by_twos seen m = refl

next_idx_above :
    (m : PoolManager)
    → m.current_idx + 1 < length m.pools
    → length m.pools ≤ 2 ^ 32
    → next_idx m ≡ m.current_idx + 1
unfolding next_idx
next_idx_above m lt small =
    let sum = m.current_idx + 1 in
    let low : u32 sum ≡ sum = omega arith in
    let below : sum % length m.pools ≡ sum = mod-eq_of_lt lt in rw (low, below) low

-- Five retries, and the next pool.
ticks-rotate :
    (m : PoolManager) (i : ℕ) (c : Client) (p q : Pool)
    → i + 1 < length m.pools
    → length m.pools ≤ 2 ^ 32
    → get_elem? m.pools i ≡ some p
    → get_elem? m.pools (i + 1) ≡ some q
    → ticks 10 unreachable (waiting m i 0 c) ≡ waiting m (i + 1) 0 (new_client m q)
ticks-rotate m i c p q lt small at next =
    let d = new_client m p in
    let same = next_idx_above (waiting m i 4 d) lt small in
    rw
      (
        ticks_by_twos unreachable (waiting m i 0 c),
        tick-retry m i c p 0 (omega arith) at,
        tick-retry m i d p 1 (omega arith) at,
        tick-retry m i d p 2 (omega arith) at,
        tick-retry m i d p 3 (omega arith) at,
        tick-failover m i d q (ap (get_elem? m.pools) same ∙ next),
        same,
      )
      refl

-- With at most 2^32 pools, while no pool can be reached, each has its turn: for every index `k` of
-- a pool, 10 * k ticks after `connect` the manager is at pool `k`, has made a client for it and
-- counts its retries from 0.
pub unreachable-tries_each :
    (m : PoolManager) (k : ℕ)
    → k < length m.pools
    → length m.pools ≤ 2 ^ 32
    → (p : Pool) × (get_elem? m.pools k ≡ some p)
      × (ticks (k * 10) unreachable (connect m) ≡ waiting m k 0 (new_client m p))
unfolding ticks connect connect_to_current replace_client new_client
unreachable-tries_each m zero lt small =
    let (p, at) = elem_below m.pools 0 lt in (p, at, rw at refl)
unreachable-tries_each m (suc k) lt small =
    let (p, at, before) = unreachable-tries_each m k (omega arith) small in
    let (q, next) = elem_below m.pools (k + 1) (omega arith) in
    let c = new_client m p in
    let split : suc k * 10 ≡ k * 10 + 10 = omega arith in
    let up : suc k ≡ k + 1 = omega arith in
    let rotated = ticks-rotate m k c p q (omega arith) small at next in
    (
      q,
      ap (get_elem? m.pools) up ∙ next,
      ap (λ n. ticks n unreachable (connect m)) split
          ∙ ticks-add (k * 10) 10 unreachable (connect m)
          ∙ ap (ticks 10 unreachable) before
          ∙ rotated
          ∙ ap (λ j. waiting m j 0 (new_client m q)) (sym up),
    )
