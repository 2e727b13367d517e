-- ===== src/Pool/Settled.antt =====
-- What `tick`, `connect` and `disconnect` of src/pool_manager.cpp keep.
use armrx_aarch64_random_x_v.Common.{
  ℕ, zero, suc, ◌+◌, ◌-◌, ◌≡◌, ◌<◌, ◌≤◌, ◌⊎◌, inl, inr, arith, refl, not, ◌&&◌, ◌||◌, ◌==◌, Option,
  none, some, List, [], ◌∷◌, length, get_elem?, ltb, leb, u32, Bool-cases, leb→gt, ltb→ge,
}
use armrx_aarch64_random_x_v.Pool.Manager.{
  Pool, Client, PoolManager, Seen, new_client, replace_client, connect_to_current, connect,
  disconnect, next_idx, follow_retries, count_retry, check_client, end_cooldown, cool_down,
  tick_client, tick,
}

pub elem_below : (ps : List Pool) (i : ℕ) → i < length ps → (p : Pool) × (get_elem? ps i ≡ some p)
elem_below [] i lt = absurd (omega arith)
elem_below (p ∷ ps) zero lt = (p, refl)
elem_below (p ∷ ps) (suc i) lt = elem_below ps i (omega arith)

-- The client is the one made for the current pool.
abbrev pub IsCurrent : PoolManager → Type 0
IsCurrent m =
    (m.stratum ≡ none)
    ⊎ ((p : Pool) × (get_elem? m.pools m.current_idx ≡ some p)
        × (m.stratum ≡ some (new_client m p)))

-- The bound on the cooldown is `most`.
pub record IsBounded (most : ℕ) (m : PoolManager) : Type 0 where
  pub in_range : m.current_idx < length m.pools
  pub retries : m.sync_retry_count < 5
  pub cooldown : m.failover_cooldown ≤ most
  pub current : m.failover_cooldown ≡ 0 → IsCurrent m

abbrev pub IsSettled : PoolManager → Type 0
IsSettled m = IsBounded 1 m

next_idx_bound : (m : PoolManager) → m.current_idx < length m.pools → next_idx m < length m.pools
unfolding next_idx
next_idx_bound m lt = omega arith

moved-IsBounded :
    (m : PoolManager)
    → IsSettled m
    → IsBounded 2
        (record m { current_idx = next_idx m; failover_cooldown = 2; sync_retry_count = 0 })
moved-IsBounded m ok = record {
  in_range = next_idx_bound m ok.in_range;
  retries = omega arith;
  cooldown = omega arith;
  current = λ e. absurd (omega (arith, e));
}

reset-IsBounded : (m : PoolManager) → IsSettled m → IsBounded 2 (record m { sync_retry_count = 0 })
unfolding new_client
reset-IsBounded m ok = record {
  in_range = ok.in_range;
  retries = omega arith;
  cooldown = let le = ok.cooldown in omega arith;
  current = λ e. ok.current e;
}

follow_retries-IsBounded :
    (attempts : ℕ) (m : PoolManager) → IsSettled m → IsBounded 2 (follow_retries attempts m)
unfolding follow_retries
follow_retries-IsBounded attempts m ok = elim (Bool-cases (leb 5 attempts)) [
  | inl h ↦ rw h (moved-IsBounded m ok)
  | inr h ↦ rw h (reset-IsBounded m ok)
]

count_retry-IsBounded : (m : PoolManager) → IsSettled m → IsBounded 2 (count_retry m)
unfolding count_retry
count_retry-IsBounded m ok = elim (Bool-cases (leb 5 (u32 (m.sync_retry_count + 1)))) [
  | inl h ↦ rw h (moved-IsBounded m ok)
  | inr h ↦ rw h (record {
    in_range = ok.in_range;
    retries = leb→gt 5 (u32 (m.sync_retry_count + 1)) h;
    cooldown = omega arith;
    current = λ e. absurd (omega (arith, e));
  })
]

weaker : (m : PoolManager) → IsSettled m → IsBounded 2 m
weaker m ok = record {
  in_range = ok.in_range;
  retries = ok.retries;
  cooldown = let le = ok.cooldown in omega arith;
  current = ok.current;
}

check_client-IsBounded :
    (seen : Seen) (m : PoolManager) → IsSettled m → IsBounded 2 (check_client seen m)
unfolding check_client
check_client-IsBounded seen m ok =
    elim (Bool-cases (not seen.connected && (m.failover_cooldown == 0))) [
      | inl lost ↦ elim (Bool-cases (ltb 0 seen.attempts || seen.loop_active)) [
        | inl h ↦ rw (lost, h) (follow_retries-IsBounded seen.attempts m ok)
        | inr h ↦ rw (lost, h) (count_retry-IsBounded m ok)
      ]
      | inr h ↦ elim (Bool-cases seen.connected_again) [
        | inl again ↦ rw (h, again) (reset-IsBounded m ok)
        | inr again ↦ rw (h, again) (weaker m ok)
      ]
    ]

connect_to_current-IsSettled :
    (m : PoolManager)
    → m.current_idx < length m.pools
    → m.sync_retry_count < 5
    → m.failover_cooldown ≤ 1
    → IsSettled (connect_to_current m)
unfolding connect_to_current replace_client new_client
connect_to_current-IsSettled m lt retries cooldown =
    let (p, at) = elem_below m.pools m.current_idx lt in
    rw at (record {
      in_range = lt;
      retries = retries;
      cooldown = cooldown;
      current = λ e. inr (p, at, refl);
    })

cool_down-IsSettled : (m : PoolManager) → IsBounded 2 m → IsSettled (cool_down m)
unfolding cool_down end_cooldown
cool_down-IsSettled m ok = elim (Bool-cases (ltb 0 m.failover_cooldown)) [
  | inl h ↦
      let le = ok.cooldown in
      elim (Bool-cases (m.failover_cooldown - 1 == 0)) [
        | inl over ↦
            rw (h, over)
              (connect_to_current-IsSettled
                (record m { failover_cooldown = m.failover_cooldown - 1 }) ok.in_range ok.retries
                (omega arith))
        | inr left ↦
            rw (h, left)
              (record {
                in_range = ok.in_range;
                retries = ok.retries;
                cooldown = omega arith;
                current = λ e. absurd (ground (arith, left, e));
              })
      ]
  | inr h ↦
      let done = ltb→ge 0 m.failover_cooldown h in
      rw h (record {
        in_range = ok.in_range;
        retries = ok.retries;
        cooldown = omega arith;
        current = ok.current;
      })
]

tick_client-IsSettled :
    (seen : Seen) (m : PoolManager) (client : Option Client)
    → IsSettled m
    → IsSettled (tick_client seen m client)
unfolding tick_client
tick_client-IsSettled seen m none ok = ok
tick_client-IsSettled seen m (some c) ok =
    cool_down-IsSettled (check_client seen m) (check_client-IsBounded seen m ok)

-- What the program calls after `connect`.
pub data Call : Type 0 where
  ticking : Seen → Call
  connecting disconnecting : Call

unfoldable pub perform : Call → PoolManager → PoolManager
perform (ticking seen) m = tick seen m
perform connecting m = connect m
perform disconnecting m = disconnect m

unfoldable pub perform_all : List Call → PoolManager → PoolManager
perform_all [] m = m
perform_all (c ∷ cs) m = perform_all cs (perform c m)

connect-IsSettled : (m : PoolManager) → 0 < length m.pools → IsSettled (connect m)
unfolding connect
connect-IsSettled m some_pool =
    connect_to_current-IsSettled
      (record m { current_idx = 0; failover_cooldown = 0; sync_retry_count = 0 }) some_pool
      (omega arith) (omega arith)

perform-IsSettled : (c : Call) (m : PoolManager) → IsSettled m → IsSettled (perform c m)
unfolding perform tick disconnect
perform-IsSettled (ticking seen) m ok = tick_client-IsSettled seen m m.stratum ok
perform-IsSettled connecting m ok = let lt = ok.in_range in connect-IsSettled m (omega arith)
perform-IsSettled disconnecting m ok = record {
  in_range = ok.in_range;
  retries = ok.retries;
  cooldown = ok.cooldown;
  current = λ e. inl refl;
}

kept : (cs : List Call) (m : PoolManager) → IsSettled m → IsSettled (perform_all cs m)
unfolding perform_all
kept [] m ok = ok
kept (c ∷ cs) m ok = kept cs (perform c m) (perform-IsSettled c m ok)

-- After `connect` with at least one pool and any ticks, whatever they see of the client, and any
-- further calls of `connect` and `disconnect`: the current pool is one of the pools, fewer than
-- five retries are counted, the cooldown is at most 1, and when it is 0, a client, if there is one,
-- was made for the current pool.
pub calls-IsSettled :
    (m : PoolManager) (cs : List Call) → 0 < length m.pools → IsSettled (perform_all cs (connect m))
calls-IsSettled m cs some_pool = kept cs (connect m) (connect-IsSettled m some_pool)
