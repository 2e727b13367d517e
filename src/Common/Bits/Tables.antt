-- ===== src/Common/Bits/Tables.antt =====
-- A fact about the numbers below a bound, from its evaluation at each of them.
use Prim.Native.Nat.{ℕ, zero, suc, ◌<◌}
use mathlib.Core.Path.{◌≡◌}
use mathlib.Core.Bool.{Bool, true, false}
use native.Mathlib.Omega.{arith}
use armrx_aarch64_random_x_v.Common.Tests.{if◌then◌else◌}

-- `test` passes at `n - 1`, ..., `0`.
unfoldable pub passes : (ℕ → Bool) → ℕ → Bool
passes test zero = true
passes test (suc n) = let lower = passes test n in if test n then lower else false

pub passes-at : (test : ℕ → Bool) (n k : ℕ) → k < n → passes test n ≡ true → test k ≡ true
unfolding passes
passes-at test zero k lt all = elim lt [ ]
passes-at test (suc n) k lt all = ground (arith, passes-at test n k)
