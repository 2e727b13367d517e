-- ===== src/Pool/Manager.antt =====
-- `PoolManager` of src/pool_manager.cpp. What `tick` reads of the stratum client, whose threads run
-- beside it, is an argument. The callbacks are not modelled; a lock is one step.
use armrx_aarch64_random_x_v.Common.{
  ℕ, zero, suc, ◌+◌, ◌-◌, ◌%◌, Bool, not, ◌&&◌, ◌||◌, if◌then◌else◌, ◌==◌, ltb, leb, u32, Option,
  none, some, List, [], ◌∷◌, length, get_elem?,
}

pub record Pool : Type 0 where
  pub host : List ℕ
  pub port : ℕ

-- A `StratumClient` and what it is set up with.
pub record Client : Type 0 where
  pub pool : Pool
  pub wallet : List ℕ
  pub password : List ℕ
  pub tls : Bool
  pub tls_verify : Bool
  pub max_attempts : ℕ
  pub delay : ℕ

pub record PoolManager : Type 0 where
  pub pools : List Pool
  pub current_idx : ℕ
  pub failover_cooldown : ℕ
  pub sync_retry_count : ℕ
  pub wallet : List ℕ
  pub password : List ℕ
  pub tls : Bool
  pub tls_verify : Bool
  pub stratum : Option Client

-- The client as a call of `tick` sees it; `is_connected` is read twice.
pub record Seen : Type 0 where
  pub connected : Bool
  pub connected_again : Bool
  pub attempts : ℕ
  pub loop_active : Bool

-- `none` is the exception for no pools.
unfoldable pub new_manager : List Pool → List ℕ → List ℕ → Bool → Bool → Option PoolManager
new_manager [] wallet password tls tls_verify = none
new_manager (p ∷ ps) wallet password tls tls_verify = some (record {
  pools = p ∷ ps;
  current_idx = 0;
  failover_cooldown = 0;
  sync_retry_count = 0;
  wallet = wallet;
  password = password;
  tls = tls;
  tls_verify = tls_verify;
  stratum = none;
})

unfoldable pub new_client : PoolManager → Pool → Client
new_client m p = record {
  pool = p;
  wallet = m.wallet;
  password = m.password;
  tls = m.tls;
  tls_verify = m.tls_verify;
  max_attempts = 5;
  delay = 1000;
}

unfoldable pub replace_client : PoolManager → Option Pool → PoolManager
replace_client m none = m
replace_client m (some p) = record m { stratum = some (new_client m p) }

-- An index out of range returns at once.
unfoldable pub connect_to_current : PoolManager → PoolManager
connect_to_current m = replace_client m (get_elem? m.pools m.current_idx)

unfoldable pub connect : PoolManager → PoolManager
connect m =
    connect_to_current (record m { current_idx = 0; failover_cooldown = 0; sync_retry_count = 0 })

unfoldable pub disconnect : PoolManager → PoolManager
disconnect m = record m { stratum = none }

unfoldable pub next_idx : PoolManager → ℕ
next_idx m = u32 (u32 (m.current_idx + 1) % length m.pools)

-- The client retries by itself.
unfoldable pub follow_retries : ℕ → PoolManager → PoolManager
follow_retries attempts m =
    if leb 5 attempts
    then record m { current_idx = next_idx m; failover_cooldown = 2; sync_retry_count = 0 }
    else record m { sync_retry_count = 0 }

-- No thread of the client retries.
unfoldable pub count_retry : PoolManager → PoolManager
count_retry m =
    if leb 5 (u32 (m.sync_retry_count + 1))
    then record m { current_idx = next_idx m; failover_cooldown = 2; sync_retry_count = 0 }
    else record m { failover_cooldown = 2; sync_retry_count = u32 (m.sync_retry_count + 1) }

unfoldable pub check_client : Seen → PoolManager → PoolManager
check_client seen m =
    if not seen.connected && (m.failover_cooldown == 0)
    then if ltb 0 seen.attempts || seen.loop_active
      then follow_retries seen.attempts m
      else count_retry m
    else if seen.connected_again
    then record m { sync_retry_count = 0 }
    else m

-- The cooldown, and the connection when it ends.
unfoldable pub end_cooldown : PoolManager → PoolManager
end_cooldown m = if m.failover_cooldown == 0 then connect_to_current m else m

unfoldable pub cool_down : PoolManager → PoolManager
cool_down m =
    if ltb 0 m.failover_cooldown
    then end_cooldown (record m { failover_cooldown = m.failover_cooldown - 1 })
    else m

unfoldable pub tick_client : Seen → PoolManager → Option Client → PoolManager
tick_client seen m none = m
tick_client seen m (some c) = cool_down (check_client seen m)

unfoldable pub tick : Seen → PoolManager → PoolManager
tick seen m = tick_client seen m m.stratum

unfoldable pub ticks : ℕ → Seen → PoolManager → PoolManager
ticks zero seen m = m
ticks (suc n) seen m = ticks n seen (tick seen m)
