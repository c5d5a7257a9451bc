-- ===== src/Timer/Next.antt =====
-- TimerManager::getNextTimer and detectClockRollover of duan_src/timer.cc.
use coroutine.Prelude.{
  ℕ, ◌+◌, ◌^◌, ◌<◌, ◌≤◌, ◌↔◌, ◌≡◌, refl, inl, inr, true, false, List, [], ◌∷◌, arith, elem,
  List-cases,
}
use coroutine.Timer.{TimerManager, get_next_timer, detect_clock_rollover, no_timeout}
use coroutine.Timer.Set.{IsSorted, before_of_elem}
use coroutine.Timer.Invariant.{Inv}
use coroutine.Timer.Expiry.{due}

first_due :
    (m : TimerManager) (x b : ℕ) (xs : List ℕ)
    → m.timers ≡ x ∷ xs
    → IsSorted m.heap m.timers
    → elem b m.timers ≡ true
    → (m.heap x).next ≤ (m.heap b).next
first_due m x b xs e s h = ground (arith, before_of_elem m.heap x b xs)

-- The delay that getNextTimer returns is the right time to wake up. With no timer it is ~0. With
-- timers, at every time before `now` and the delay no timer of the set is due that was not due at
-- `now`, and from then on one is; the set and the timers are as they were.
pub get_next_timer_lem :
    (m : TimerManager) (now : ℕ)
    → Inv m
    → (m.timers ≡ [] → (get_next_timer m now).1 ≡ no_timeout)
      × ((t b : ℕ)
          → elem b m.timers ≡ true
          → t < now + (get_next_timer m now).1
          → now ≤ t
          → due m.heap t b ≡ false)
      × ((x : ℕ) (xs : List ℕ) (t : ℕ)
          → m.timers ≡ x ∷ xs
          → now + (get_next_timer m now).1 ≤ t
          → (elem x m.timers ≡ true) × (due m.heap t x ≡ true))
      × ((get_next_timer m now).0 ≡ record m { tickled = false })
unfolding get_next_timer
get_next_timer_lem m now v = (
  λ e. ground arith,
  λ t b h before_then after_now. elim (List-cases m.timers) [
    | inl e ↦ ground arith
    | inr (x, xs, e) ↦ ground (arith, first_due m x b xs e v.sorted h)
  ],
  λ x xs t e h. ground arith,
  ground arith,
)

-- The clock counts as rolled over when it is behind the last time by more than an hour. But where
-- the last time is less than an hour after the epoch the difference wraps, and any step back counts.
pub detect_clock_rollover_lem :
    (m : TimerManager) (now : ℕ)
    → m.previous_time < 2 ^ 64
    → (3600000 ≤ m.previous_time
        → ((detect_clock_rollover m now).1 ≡ true) ↔ (now + 3600000 < m.previous_time))
      × (m.previous_time < 3600000
          → ((detect_clock_rollover m now).1 ≡ true) ↔ (now < m.previous_time))
      × ((detect_clock_rollover m now).0 ≡ record m { previous_time = now })
unfolding detect_clock_rollover
detect_clock_rollover_lem m now h =
    (λ k. (ground arith, ground arith), λ k. (ground arith, ground arith), refl)
