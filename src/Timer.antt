-- ===== src/Timer.antt =====
-- duan_src/timer.h and duan_src/timer.cc: the timers of a TimerManager.
--
-- A `Timer::ptr` is the address of a timer; `heap` holds the object at each address, so that a timer
-- in the set and the handle a client keeps are one object. The `std::set` is the list of its
-- addresses in the order of the comparator. Each operation runs under the manager's lock and takes
-- the value of GetCurrentMS() as an argument; `listExpiredCb`, which gives the lock up in between,
-- is two operations.
mod Order
mod Set
pub mod Invariant
pub mod Cancel
mod Expiry
pub mod Requeue
pub mod Expired
pub mod Fire
mod Next
mod Race
mod Reach
mod Tests
use coroutine.Prelude.{
  Result, ok, fault, ℕ, ◌+◌, ◌-◌, ◌*◌, ◌^◌, ◌≡◌, Bool, true, false, ◌&&◌, ◌||◌, not, List, [], ◌∷◌,
  ◌++◌, Option, none, some, ltb, leb, ◌==◌, if◌then◌else◌, u64, is_some, update, head?, erase,
}

-- What `m_cb` can hold: a client's function, or `OnTimer` bound to a weak pointer and one.
pub data Callback : Type 0 where
  user : (cb : ℕ) → Callback
  on_timer : (weak_cond cb : ℕ) → Callback

pub record Timer : Type 0 where
  pub recurring : Bool
  pub ms : ℕ
  pub next : ℕ
  pub cb : Option Callback

pub record TimerManager : Type 0 where
  pub heap : ℕ → Timer
  pub timers : List ℕ
  pub tickled : Bool
  pub previous_time : ℕ

-- The tests of Timer::Comparator on two objects: the due times, then the addresses.
abbrev less : (next addr next' addr' : ℕ) → Bool
less next addr next' addr' =
    if ltb next next' then true else if ltb next' next then false else ltb addr addr'

abbrev comparator : (ℕ → Timer) → Option ℕ → Option ℕ → Bool
comparator heap none none = false
comparator heap none (some rhs) = true
comparator heap (some lhs) none = false
comparator heap (some lhs) (some rhs) = less (heap lhs).next lhs (heap rhs).next rhs

abbrev before : (ℕ → Timer) → ℕ → ℕ → Bool
before heap a b = comparator heap (some a) (some b)

-- The std::set under the comparator: insert, find and lower_bound go by the order alone.
pub insert : (ℕ → Timer) → ℕ → List ℕ → List ℕ
insert heap a [] = a ∷ []
insert heap a (x ∷ xs) =
    if before heap x a then x ∷ insert heap a xs else if before heap a x then a ∷ x ∷ xs else x ∷ xs

pub find : (ℕ → Timer) → ℕ → List ℕ → Option ℕ
find heap a [] = none
find heap a (x ∷ xs) =
    if before heap x a then find heap a xs else if before heap a x then none else some x

-- The elements in front of `lower_bound` of a timer due at `now` at address `addr`, and the rest.
pub lower_bound : (ℕ → Timer) → (now addr : ℕ) → List ℕ → List ℕ × List ℕ
lower_bound heap now addr [] = ([], [])
lower_bound heap now addr (x ∷ xs) =
    let rest = lower_bound heap now addr xs in
    if less (heap x).next x now addr then (x ∷ rest.0, rest.1) else ([], x ∷ xs)

-- `while(it != end && (*it)->m_next == now_ms) ++it`
pub skip_due : (ℕ → Timer) → (now : ℕ) → List ℕ × List ℕ → List ℕ → List ℕ × List ℕ
skip_due heap now (front, rest) [] = (front, rest)
skip_due heap now (front, rest) (x ∷ xs) =
    if (heap x).next == now then skip_due heap now (front ++ x ∷ [], xs) xs else (front, rest)

abbrev no_timer : Timer
no_timer = record { recurring = false; ms = 0; next = 0; cb = none }

-- TimerManager::TimerManager
pub create : (now : ℕ) → TimerManager
create now = record { heap = λ _. no_timer; timers = []; tickled = false; previous_time = now }

-- Timer::Timer(ms, cb, recurring, manager)
unfoldable pub new_timer : (ms : ℕ) → Option Callback → Bool → (now : ℕ) → Timer
new_timer ms cb recurring now = record {
  recurring = recurring;
  ms = ms;
  next = u64 (now + ms);
  cb = cb;
}

abbrev is_begin : ℕ → List ℕ → Bool
is_begin a [] = false
is_begin a (x ∷ xs) = a == x

-- TimerManager::addTimer(val, lock). The Boolean tells whether onTimerInsertedAtFront() is called.
pub add_locked : TimerManager → ℕ → TimerManager × Bool
add_locked m val =
    let timers = insert m.heap val m.timers in
    let at_front = is_begin val timers && not m.tickled in
    (record m { timers = timers; tickled = at_front || m.tickled }, at_front)

-- TimerManager::addTimer(ms, cb, recurring), where `new` gives the object the address `addr`.
unfoldable pub add_timer :
    TimerManager → (addr ms : ℕ) → Option Callback → Bool → (now : ℕ) → TimerManager × Bool
unfolding add_locked new_timer insert
add_timer m addr ms cb recurring now =
    add_locked (record m { heap = update m.heap addr (new_timer ms cb recurring now) }) addr

-- OnTimer: the client's function that it calls, if the condition object is alive.
pub on_timer_call : (alive : ℕ → Bool) → (weak_cond cb : ℕ) → Option ℕ
on_timer_call alive weak_cond cb = if alive weak_cond then some cb else none

-- Calling what a timer holds.
pub invoke : (alive : ℕ → Bool) → Callback → Option ℕ
unfolding on_timer_call
invoke alive (user cb) = some cb
invoke alive (on_timer weak_cond cb) = on_timer_call alive weak_cond cb

-- TimerManager::addConditionTimer
pub add_condition_timer :
    TimerManager → (addr ms cb weak_cond : ℕ) → Bool → (now : ℕ) → TimerManager × Bool
unfolding add_timer
add_condition_timer m addr ms cb weak_cond recurring now =
    add_timer m addr ms (some (on_timer weak_cond cb)) recurring now

-- Timer::cancel on the timer at `self`. Erasing the end iterator is a fault.
pub cancel : TimerManager → (self : ℕ) → Result (TimerManager × Bool)
cancel m self =
    if is_some (m.heap self).cb
    then (let heap = update m.heap self (record (m.heap self) { cb = none }) in
        elim (find heap self m.timers) [
          | none ↦ fault
          | some it ↦ ok (record m { heap = heap; timers = erase it m.timers }, true)
        ])
    else ok (m, false)

-- Timer::refresh
pub refresh : TimerManager → (self now : ℕ) → TimerManager × Bool
refresh m self now =
    if is_some (m.heap self).cb
    then elim (find m.heap self m.timers) [
      | none ↦ (m, false)
      | some it ↦
          let timer = m.heap self in
          let heap = update m.heap self (record timer { next = u64 (now + timer.ms) }) in
          (record m { heap = heap; timers = insert heap self (erase it m.timers) }, true)
    ]
    else (m, false)

-- The result of Timer::reset: the value returned, and whether onTimerInsertedAtFront() is called.
pub record ResetResult : Type 0 where
  pub manager : TimerManager
  pub returned : Bool
  pub notified : Bool

-- Timer::reset. `m_next - m_ms` wraps.
pub reset : TimerManager → (self ms : ℕ) → (from_now : Bool) → (now : ℕ) → ResetResult
unfolding add_locked
reset m self ms from_now now =
    if ms == (m.heap self).ms && not from_now
    then record { manager = m; returned = true; notified = false }
    else if is_some (m.heap self).cb
    then elim (find m.heap self m.timers) [
      | none ↦ record { manager = m; returned = false; notified = false }
      | some it ↦
          let timer = m.heap self in
          let start = if from_now then now else u64 (timer.next + 2 ^ 64 - timer.ms) in
          let heap = update m.heap self (record timer { ms = ms; next = u64 (start + ms) }) in
          let added = add_locked (record m { heap = heap; timers = erase it m.timers }) self in
          record { manager = added.0; returned = true; notified = added.1 }
    ]
    else record { manager = m; returned = false; notified = false }

-- `~0ull`
abbrev pub no_timeout : ℕ
no_timeout = 2 ^ 64 - 1

-- TimerManager::getNextTimer
unfoldable pub get_next_timer : TimerManager → (now : ℕ) → TimerManager × ℕ
get_next_timer m now =
    let m' = record m { tickled = false } in
    elim m.timers [
      | [] ↦ (m', no_timeout)
      | a ∷ _ ↦ (m', if leb (m.heap a).next now then 0 else (m.heap a).next - now)
    ]

-- TimerManager::detectClockRollover. The difference wraps.
unfoldable pub detect_clock_rollover : TimerManager → (now : ℕ) → TimerManager × Bool
detect_clock_rollover m now = (
  record m { previous_time = now },
  ltb now m.previous_time && ltb now (u64 (m.previous_time + 2 ^ 64 - 60 * 60 * 1000)),
)

-- One round of the loop over the expired timers.
pub requeue_one : (now : ℕ) → TimerManager → ℕ → TimerManager
requeue_one now m a =
    let timer = m.heap a in
    if timer.recurring
    then (let heap = update m.heap a (record timer { next = u64 (now + timer.ms) }) in
        record m { heap = heap; timers = insert heap a m.timers })
    else record m { heap = update m.heap a (record timer { cb = none }) }

pub requeue : (now : ℕ) → TimerManager → List ℕ → TimerManager × List (Option Callback)
unfolding requeue_one
requeue now m [] = (m, [])
requeue now m (a ∷ expired) =
    let rest = requeue now (requeue_one now m a) expired in (rest.0, (m.heap a).cb ∷ rest.1)

-- The part of listExpiredCb under the read lock: does it go on?
pub expired_check : TimerManager → Bool
expired_check m = elim m.timers [ [] ↦ false | _ ∷ _ ↦ true ]

-- The iterator up to which the timers have expired, as the elements in front of it and the rest.
pub expired_split : TimerManager → (rollover : Bool) → (now addr : ℕ) → List ℕ × List ℕ
unfolding lower_bound skip_due
expired_split m rollover now addr =
    if rollover
    then (m.timers, [])
    else (let it = lower_bound m.heap now addr m.timers in skip_due m.heap now it it.1)

-- The part of listExpiredCb under the write lock, behind detectClockRollover, with `now_timer` at
-- `addr`. It reads the first element without a test.
pub expired_after :
    TimerManager → (rollover : Bool) (now addr : ℕ) → Result (TimerManager × List (Option Callback))
unfolding requeue expired_split
expired_after m rollover now addr =
    let (expired, rest) = expired_split m rollover now addr in
    let done = requeue now (record m { timers = rest }) expired in
    if rollover then ok done else elim m.timers [
      | [] ↦ fault
      | a ∷ _ ↦ if ltb now (m.heap a).next then ok (m, []) else ok done
    ]

-- The whole part under the write lock.
pub expired_take : TimerManager → (now addr : ℕ) → Result (TimerManager × List (Option Callback))
unfolding detect_clock_rollover expired_after
expired_take m now addr =
    let (m', rollover) = detect_clock_rollover m now in expired_after m' rollover now addr

-- TimerManager::listExpiredCb with no other thread between the two locks.
pub list_expired_cb : TimerManager → (now addr : ℕ) → Result (TimerManager × List (Option Callback))
unfolding expired_check expired_take
list_expired_cb m now addr = if expired_check m then expired_take m now addr else ok (m, [])

-- TimerManager::hasTimer
unfoldable pub has_timer : TimerManager → Bool
has_timer m = elim m.timers [ [] ↦ false | _ ∷ _ ↦ true ]
