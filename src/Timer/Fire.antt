-- ===== src/Timer/Fire.antt =====
-- The result of TimerManager::listExpiredCb, duan_src/timer.cc, when no other thread comes between
-- its two locks.
use coroutine.Prelude.{
  ok, ℕ, ◌<◌, ◌≡◌, refl, inl, inr, Bool, true, false, List, [], ◌∷◌, Option, arith, ltb,
  if◌then◌else◌, keep_if, Bool-cases, List-cases,
}
use coroutine.Timer.{
  Callback, TimerManager, requeue, expired_after, expired_take, expired_check, list_expired_cb,
  has_timer, detect_clock_rollover,
}
use coroutine.Timer.Set.{IsSorted}
use coroutine.Timer.Invariant.{Inv}
use coroutine.Timer.Expiry.{due, not_due, expired_split_lem, none_due}
use coroutine.Timer.Requeue.{
  callbacks, requeue-callbacks, requeue_previous, Distinct, Distinct-of_IsSorted,
}
use coroutine.Timer.Expired.{
  Outcome, expired_part, staying_part, cut, done-Outcome, done-Inv, keep_if-IsSorted,
}

abbrev pub rolled : TimerManager → ℕ → Bool
rolled m now = (detect_clock_rollover m now).1

-- An early return, when the first timer is not due yet, leaves what the loop would leave.
early :
    (m : TimerManager) (now x : ℕ) (xs : List ℕ)
    → m.timers ≡ x ∷ xs
    → IsSorted m.heap m.timers
    → now < (m.heap x).next
    → (keep_if (due m.heap now) m.timers ≡ []) × (keep_if (not_due m.heap now) m.timers ≡ m.timers)
early m now x xs e s h =
    let s' : IsSorted m.heap (x ∷ xs) = rw e at s in
    rw e (ground (arith, none_due m.heap now 0 x xs h s'.0))

expired_after_lem :
    (m : TimerManager) (rollover : Bool) (now addr x : ℕ) (xs : List ℕ)
    → IsSorted m.heap m.timers
    → m.timers ≡ x ∷ xs
    → expired_after m rollover now addr
      ≡ ok (
          requeue now
            (record m { timers = staying_part m rollover now })
            (expired_part m rollover now))
unfolding expired_after
expired_after_lem m true now addr x xs s e = refl
expired_after_lem m false now addr x xs s e = elim (Bool-cases (ltb now (m.heap x).next)) [
  | inl later ↦
      let n : (keep_if (due m.heap now) m.timers ≡ [])
          × (keep_if (not_due m.heap now) m.timers ≡ m.timers) =
        early m now x xs e s (ground arith) in
      ground (arith, n.0, n.1)
  | inr now_due ↦ ground (arith, expired_split_lem m false now addr s)
]

pub expired_take_lem :
    (m : TimerManager) (now addr x : ℕ) (xs : List ℕ)
    → Inv m
    → m.timers ≡ x ∷ xs
    → expired_take m now addr
      ≡ ok (requeue now (cut m (rolled m now) now) (expired_part m (rolled m now) now))
unfolding expired_take detect_clock_rollover
expired_take_lem m now addr x xs v e =
    expired_after_lem (record m { previous_time = now }) (rolled m now) now addr x xs v.sorted e

expired_part-Distinct :
    (m : TimerManager) (rollover : Bool) (now : ℕ)
    → IsSorted m.heap m.timers
    → Distinct (expired_part m rollover now)
expired_part-Distinct m true now s = Distinct-of_IsSorted m.heap m.timers s
expired_part-Distinct m false now s =
    Distinct-of_IsSorted m.heap _ (keep_if-IsSorted (due m.heap now) m.heap m.timers s)

-- The manager and the callbacks of a call that finds timers.
abbrev pub taken : TimerManager → ℕ → TimerManager × List (Option Callback)
taken m now = requeue now (cut m (rolled m now) now) (expired_part m (rolled m now) now)

-- Under the invariant a call that no other thread interrupts succeeds. It collects, in the order of
-- the set, the functions of exactly the timers due by `now`, or of all of them if the clock rolled
-- over; each of these is due its period after `now` if it recurs and is otherwise out of the set
-- with its function gone; every other timer is as it was. The clock is remembered unless the set
-- was empty, and the invariant is kept.
pub list_expired_correct :
    (m : TimerManager) (now addr : ℕ)
    → Inv m
    → (m' : TimerManager) × (cbs : List (Option Callback)) × (list_expired_cb m now addr
        ≡ ok (m', cbs))
      × (cbs ≡ callbacks m.heap (expired_part m (rolled m now) now))
      × Outcome m m' (rolled m now) now
      × (m'.previous_time ≡ (if has_timer m then now else m.previous_time))
      × Inv m'
unfolding list_expired_cb expired_check has_timer
list_expired_correct m now addr v = elim (List-cases m.timers) [
  | inl e ↦ (
    m,
    [],
    ground arith,
    ground arith,
    record { heap_lem = λ b. ground arith; timers_lem = λ b. ground arith; tickled = refl },
    ground arith,
    v,
  )
  | inr (x, xs, e) ↦ (
    (taken m now).0,
    (taken m now).1,
    ground (arith, expired_take_lem m now addr x xs v e),
    requeue-callbacks now (cut m (rolled m now) now) (expired_part m (rolled m now) now)
        (expired_part-Distinct m (rolled m now) now v.sorted),
    done-Outcome m (rolled m now) now v.sorted,
    ground (
      arith,
      requeue_previous now (cut m (rolled m now) now) (expired_part m (rolled m now) now),
    ),
    done-Inv m (rolled m now) now v,
  )
]
