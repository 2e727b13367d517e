-- ===== src/Common/Word.antt =====
-- Fixed-width unsigned words as native numbers: the wrap is written out.
use Prim.Native.Nat.{ℕ, ◌+◌, ◌-◌, ◌*◌, ◌/◌, ◌%◌, ◌^◌, ◌<◌}
use armrx_aarch64_random_x_v.Common.Tests.{if◌then◌else◌, ltb, lt→ltb}
use mathlib.Core.Path.{◌≡◌, refl}
use mathlib.Core.Option.{Option, none, some}

-- Casts to `uint32_t` and `uint64_t`.
abbrev pub u32 : ℕ → ℕ
u32 n = n % 2 ^ 32

abbrev pub u64 : ℕ → ℕ
u64 n = n % 2 ^ 64

-- `a + b`, `a - b` and `a * b` on `uint64_t`.
abbrev pub add64 : ℕ → ℕ → ℕ
add64 a b = (a + b) % 2 ^ 64

abbrev pub sub64 : ℕ → ℕ → ℕ
sub64 a b = (a + 2 ^ 64 - b) % 2 ^ 64

abbrev pub mul64 : ℕ → ℕ → ℕ
mul64 a b = (a * b) % 2 ^ 64

-- `~a` on `uint64_t`.
abbrev pub not64 : ℕ → ℕ
not64 a = 2 ^ 64 - 1 - a

-- `x << k` on `uint64_t` and `x >> k`.
abbrev pub shl64 : ℕ → ℕ → ℕ
shl64 x k = (x * 2 ^ k) % 2 ^ 64

abbrev pub shr : ℕ → ℕ → ℕ
shr x k = x / 2 ^ k

-- `x >> k` where `k` depends on the data: undefined, `none`, from the width 64 on.
unfoldable pub shr64 : ℕ → ℕ → Option ℕ
shr64 x k = if ltb k 64 then some (shr x k) else none

pub shr64-defined : (x k : ℕ) → k < 64 → shr64 x k ≡ some (x / 2 ^ k)
unfolding shr64
shr64-defined x k lt = rw (lt→ltb k 64 lt) refl
