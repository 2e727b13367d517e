-- ===== src/Pool/Tests.antt =====
-- Two pools: neither can be reached, or the first connection drops.
use armrx_aarch64_random_x_v.Common.{
  ◌*◌, ◌≡◌, refl, arith, true, false, none, some, [], ◌∷◌, get_elem?,
}
use armrx_aarch64_random_x_v.Pool.Manager.{
  Pool, PoolManager, Seen, new_manager, new_client, replace_client, connect_to_current, connect,
  next_idx, follow_retries, check_client, end_cooldown, cool_down, tick_client, tick, ticks,
}
use armrx_aarch64_random_x_v.Pool.Settled.{
  IsSettled, ticking, connecting, disconnecting, perform_all, calls-IsSettled,
}
use armrx_aarch64_random_x_v.Pool.Rotation.{unreachable, waiting, unreachable-tries_each}

abbrev first_pool : Pool
first_pool = record { host = 97 ∷ []; port = 3333 }

abbrev second_pool : Pool
second_pool = record { host = 98 ∷ []; port = 443 }

abbrev manager : PoolManager
manager = record {
  pools = first_pool ∷ second_pool ∷ [];
  current_idx = 0;
  failover_cooldown = 0;
  sync_retry_count = 0;
  wallet = 52 ∷ [];
  password = 120 ∷ [];
  tls = false;
  tls_verify = true;
  stratum = none;
}

constructed_manager :
    new_manager (first_pool ∷ second_pool ∷ []) (52 ∷ []) (120 ∷ []) false true ≡ some manager
unfolding new_manager
constructed_manager = refl

abbrev dropped : Seen
dropped = record { connected = false; connected_again = false; attempts = 5; loop_active = true }

-- The fifth attempt of the client's own thread goes to the second pool at once.
fails_over : (tick dropped (connect manager)).current_idx ≡ 1
unfolding connect connect_to_current replace_client new_client tick tick_client check_client
    follow_retries next_idx cool_down end_cooldown
fails_over = refl

unreachable-tries_each_example :
    (p : Pool) × (get_elem? manager.pools 1 ≡ some p)
    × (ticks (1 * 10) unreachable (connect manager) ≡ waiting manager 1 0 (new_client manager p))
unreachable-tries_each_example = unreachable-tries_each manager 1 (omega arith) (omega arith)

calls-IsSettled_example : IsSettled (
    perform_all
      (ticking dropped ∷ ticking unreachable ∷ disconnecting ∷ connecting ∷ [])
      (connect manager))
calls-IsSettled_example =
    calls-IsSettled manager
      (ticking dropped ∷ ticking unreachable ∷ disconnecting ∷ connecting ∷ []) (omega arith)
