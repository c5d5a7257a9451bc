-- ===== src/Timer/Race.antt =====
-- listExpiredCb of duan_src/timer.cc gives up its lock between the test for an empty set and the
-- use of the first element.
use coroutine.Prelude.{
  ok, fault, ℕ, ◌≤◌, ◌≡◌, refl, true, false, List, [], ◌∷◌, Option, arith, elem, All,
}
use coroutine.Timer.{
  Callback, TimerManager, expired_check, expired_take, expired_after, detect_clock_rollover,
}
use coroutine.Timer.Invariant.{Inv}
use coroutine.Timer.Expiry.{due}
use coroutine.Timer.Expired.{expired_part, cut, done-Outcome}
use coroutine.Timer.Requeue.{requeue_previous}
use coroutine.Timer.Fire.{rolled, expired_take_lem, taken}

nil_of_elem : (xs : List ℕ) → ((b : ℕ) → elem b xs ≡ false) → xs ≡ []
nil_of_elem [] h = refl
nil_of_elem (x ∷ xs) h = ground (arith, h x)

not_rolled : (m : TimerManager) (now : ℕ) → m.previous_time ≤ now → rolled m now ≡ false
unfolding detect_clock_rollover
not_rolled m now h = ground arith

All-elem :
    (m : TimerManager) (now b : ℕ) (xs : List ℕ)
    → All (λ a. (due m.heap now a ≡ true) × ((m.heap a).recurring ≡ false)) xs
    → elem b xs ≡ true
    → (due m.heap now b ≡ true) × ((m.heap b).recurring ≡ false)
All-elem m now b [] h e = ground arith
All-elem m now b (x ∷ xs) h e = ground (arith, h.0, All-elem m now b xs h.1)

drained :
    (m : TimerManager) (now : ℕ)
    → Inv m
    → m.previous_time ≤ now
    → All (λ a. (due m.heap now a ≡ true) × ((m.heap a).recurring ≡ false)) m.timers
    → (taken m now).0.timers ≡ []
drained m now v clock all = nil_of_elem _ λ b. ground (
  arith,
  (done-Outcome m (rolled m now) now v.sorted).timers_lem b,
  not_rolled m now clock,
  All-elem m now b m.timers all,
)

take_empty :
    (m : TimerManager) (now addr : ℕ)
    → m.timers ≡ []
    → m.previous_time ≤ now
    → expired_take m now addr ≡ fault
unfolding expired_take expired_after detect_clock_rollover
take_empty m now addr e h = ground (arith, not_rolled m now h)

-- Two threads that are idle at once. If every timer of a non-empty set is due and none recurs, and
-- the clock does not go back, both see the set non-empty, the first empties it, and the second
-- reads the first element of an empty set, which is undefined.
pub two_takes_fault :
    (m : TimerManager) (now addr now' addr' x : ℕ) (xs : List ℕ)
    → Inv m
    → m.timers ≡ x ∷ xs
    → All (λ a. (due m.heap now a ≡ true) × ((m.heap a).recurring ≡ false)) m.timers
    → m.previous_time ≤ now
    → now ≤ now'
    → (expired_check m ≡ true)
      × ((m' : TimerManager) × (cbs : List (Option Callback)) × (expired_take m now addr
            ≡ ok (m', cbs))
          × (expired_take m' now' addr' ≡ fault))
unfolding expired_check
two_takes_fault m now addr now' addr' x xs v e all clock later = (
  ground arith,
  (
    (taken m now).0,
    (taken m now).1,
    expired_take_lem m now addr x xs v e,
    take_empty (taken m now).0 now' addr' (drained m now v clock all) (
        omega (
          arith,
          (requeue_previous now (cut m (rolled m now) now) (expired_part m (rolled m now) now)).0,
        )),
  ),
)
