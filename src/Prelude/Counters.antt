-- ===== src/Prelude/Counters.antt =====
-- `++` and `--` on a std::atomic<size_t>, which wrap.
use Prim.Native.Nat.{ℕ, ◌+◌, ◌-◌, ◌^◌}
use mathlib.Core.Path.{◌≡◌}
use native.Mathlib.Omega.{arith}
use coroutine.Prelude.Tests.{u64}

unfoldable pub inc : ℕ → ℕ
inc n = u64 (n + 1)

unfoldable pub dec : ℕ → ℕ
dec n = u64 (n + 2 ^ 64 - 1)

pub inc_lem : (k : ℕ) → inc (u64 k) ≡ u64 (k + 1)
unfolding inc
inc_lem k = omega arith

pub dec_lem : (k : ℕ) → dec (u64 (k + 1)) ≡ u64 k
unfolding dec
dec_lem k = omega arith
