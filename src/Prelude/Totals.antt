-- ===== src/Prelude/Totals.antt =====
-- Sums over the first `n` members of a family, such as the threads of a scheduler.
use Prim.Native.Nat.{ℕ, zero, suc, ◌+◌, ◌*◌, ◌≤◌, ◌<◌}
use mathlib.Core.Path.{◌≡◌, refl}
use native.Mathlib.Decide.{dec_lt}
use native.Mathlib.Omega.{arith}
use coroutine.Prelude.Tests.{update}

module _ {ℓ} {A : Type ℓ} (weight : A → ℕ) where
  pub total : ℕ → (ℕ → A) → ℕ
  total zero f = 0
  total (suc n) f = weight (f n) + total n f

  total-update_above : (n i : ℕ) (f : ℕ → A) (a : A) → n ≤ i → total n (update f i a) ≡ total n f
  unfolding total
  total-update_above zero i f a h = refl
  total-update_above (suc n) i f a h = ground (arith, total-update_above n i f a)

  -- One member changes, and the sum by as much as its weight.
  pub total-update :
      (n i : ℕ) (f : ℕ → A) (a : A)
      → i < n
      → total n (update f i a) + weight (f i) ≡ total n f + weight a
  unfolding total
  total-update zero i f a h = absurd (omega arith)
  total-update (suc n) i f a h = elim (dec_lt i n) [
    | yes inside ↦ ground (arith, total-update n i f a inside)
    | no last ↦ ground (arith, total-update_above n i f a)
  ]

  pub weight-le-total : (n i : ℕ) (f : ℕ → A) → i < n → weight (f i) ≤ total n f
  unfolding total
  weight-le-total zero i f h = absurd (omega arith)
  weight-le-total (suc n) i f h = elim (dec_lt i n) [
    | yes inside ↦ omega (arith, weight-le-total n i f inside)
    | no last ↦ ground arith
  ]

  pub total_bound : (k n : ℕ) (f : ℕ → A) → ((a : A) → weight a ≤ k) → total n f ≤ k * n
  unfolding total
  total_bound k zero f h = omega arith
  total_bound k (suc n) f h = omega (arith, h (f n), total_bound k n f h)

  pub total_const : (n : ℕ) (a : A) → weight a ≡ 0 → total n (λ _. a) ≡ 0
  unfolding total
  total_const zero a h = refl
  total_const (suc n) a h = omega (arith, h, total_const n a h)
