-- ===== src/Timer/Reach.antt =====
-- Histories of a TimerManager of duan_src/timer.cc: its operations in any order, each whole.
use coroutine.Prelude.{
  ok, fault, ℕ, ◌∙◌, ◌≡◌, ◌≢◌, Bool, true, false, List, Option, elem, arith, is_some,
}
use coroutine.Timer.{
  Callback, TimerManager, create, add_timer, cancel, refresh, reset, get_next_timer,
  list_expired_cb,
}
use coroutine.Timer.Invariant.{
  Inv, create-Inv, add_timer-Inv, refresh-Inv, reset-Inv, get_next_timer-Inv,
}
use coroutine.Timer.Cancel.{cancel_correct, refresh_correct}
use coroutine.Timer.Fire.{list_expired_correct}

-- The allocator gives a new timer an address that no timer of the set has.
pub data Step (m : TimerManager) : TimerManager → Type 0 where
  adds :
      (addr ms : ℕ) (cb : Option Callback) (recurring : Bool) (now : ℕ)
      → elem addr m.timers ≡ false
      → Step m (add_timer m addr ms cb recurring now).0
  cancels : (self : ℕ) {m' : TimerManager} {b : Bool} → cancel m self ≡ ok (m', b) → Step m m'
  refreshes : (self now : ℕ) → Step m (refresh m self now).0
  resets : (self ms : ℕ) (from_now : Bool) (now : ℕ) → Step m (reset m self ms from_now now).manager
  asks : (now : ℕ) → Step m (get_next_timer m now).0
  expires :
      (now addr : ℕ) {m' : TimerManager} {cbs : List (Option Callback)}
      → list_expired_cb m now addr ≡ ok (m', cbs)
      → Step m m'

pub data Reach : TimerManager → Type 0 where
  start : (now : ℕ) → Reach (create now)
  later : {m m' : TimerManager} → Reach m → Step m m' → Reach m'

Step-Inv : {m m' : TimerManager} → Step m m' → Inv m → Inv m'
Step-Inv {m} (adds addr ms cb recurring now h) v = add_timer-Inv m addr ms cb recurring now h v
Step-Inv {m} (cancels self e) v = let c = cancel_correct m self v in ground (arith, c.1, c.2)
Step-Inv {m} (refreshes self now) v = refresh-Inv m self now v
Step-Inv {m} (resets self ms from_now now) v = reset-Inv m self ms from_now now v
Step-Inv {m} (asks now) v = get_next_timer-Inv m now v
Step-Inv {m} (expires now addr e) v =
    let c = list_expired_correct m now addr v in ground (arith, c.2, c.6)

-- In every history the set is in order and a timer that can still fire is in it.
pub Reach-Inv : {m : TimerManager} → Reach m → Inv m
Reach-Inv (start now) = create-Inv now
Reach-Inv (later r s) = Step-Inv s (Reach-Inv r)

-- After any history of whole operations no cancel and no listExpiredCb meets undefined behaviour,
-- and a timer with a function is found in the set, so that refreshing it returns true.
pub Reach-no_fault :
    {m : TimerManager}
    → Reach m
    → (self now addr : ℕ)
    → (cancel m self ≢ fault)
      × (list_expired_cb m now addr ≢ fault)
      × (is_some (m.heap self).cb ≡ true → (refresh m self now).1 ≡ true)
Reach-no_fault {m} r self now addr = (
  (λ e. let c = cancel_correct m self (Reach-Inv r) in ground (arith, c.1)),
  (λ e. let c = list_expired_correct m now addr (Reach-Inv r) in ground (arith, c.2)),
  λ live. (refresh_correct m self now (Reach-Inv r)).0 ∙ live,
)
