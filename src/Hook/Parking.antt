-- ===== src/Hook/Parking.antt =====
-- How do_io of duan_src/hook.cc goes to sleep, and how it is woken.
use coroutine.Prelude.{
  ok, ℕ, ◌+◌, ◌≡◌, ◌≢◌, refl, Bool, true, false, not, Option, none, some, ltb, ◌==◌, arith,
  if◌then◌else◌, elem, get_elem?, Bool-cases, inl, inr,
}
use coroutine.IoManager.{
  none_event, Events, has, with_event, any_event, FdContext, Op, ctl_add, ctl_mod, IoManager,
  add_event, tickle, timer_added,
}
use coroutine.IoManager.Invariant.{IsConsistent, waiter}
use coroutine.IoManager.Growth.{slot_at}
use coroutine.IoManager.Register.{add_event_correct, add_event_refused, arrival, has-with_event}
use coroutine.Timer.{TimerManager, add_condition_timer}
use coroutine.Timer.Invariant.{Inv, add_condition_timer-Inv}
use coroutine.Hook.{failed, eagain, no_timeout, World}
use coroutine.Hook.Io.{Call, parked, start_timer, after_add, add_wait, park}

-- The timers of a call that waits from `now` on.
abbrev pub timers_of : {K : Type 0} → IoManager K → Call → (addr now : ℕ) → TimerManager
timers_of io call addr now =
    if not (call.to == no_timeout)
    then (add_condition_timer io.timers addr call.to call.closure call.tinfo false now).0
    else io.timers

-- The handle that the call keeps.
abbrev pub timer_of : Call → (addr : ℕ) → Option ℕ
timer_of call addr = if not (call.to == no_timeout) then some addr else none

pub timer_added_lem :
    {K : Type 0} (io : IoManager K) (added : TimerManager × Bool)
    → (pipe : ℕ) × (timer_added io added true ≡ ok (record io { timers = added.0; pipe = pipe }))
unfolding timer_added tickle
timer_added_lem io added = elim (Bool-cases added.1) [
  | inr e ↦ (io.pipe, ground arith)
  | inl e ↦ elim (Bool-cases (ltb 0 (io.schedulers.scheduler io.self).idle)) [
    | inl idle ↦ (io.pipe, ground arith)
    | inr busy ↦ (io.pipe + 1, ground arith)
  ]
]

start_timer_lem :
    {K : Type 0} (io : IoManager K) (call : Call) (addr now : ℕ)
    → (pipe : ℕ) × (start_timer io call addr now true
        ≡ ok (record io { timers = timers_of io call addr now; pipe = pipe }, timer_of call addr))
unfolding start_timer
start_timer_lem io call addr now = elim (Bool-cases (call.to == no_timeout)) [
  | inl endless ↦ (io.pipe, ground arith)
  | inr timed ↦
      let (pipe, e) =
        timer_added_lem io
          (add_condition_timer io.timers addr call.to call.closure call.tinfo false now) in
      (pipe, ground arith)
]

pub timers_of-Inv :
    {K : Type 0} (io : IoManager K) (call : Call) (addr now : ℕ)
    → elem addr io.timers.timers ≡ false
    → Inv io.timers
    → Inv (timers_of io call addr now)
timers_of-Inv io call addr now fresh v = elim (Bool-cases (call.to == no_timeout)) [
  | inl endless ↦ rw endless v
  | inr timed ↦
      rw timed
        (add_condition_timer-Inv io.timers addr call.to call.closure call.tinfo false now fresh v)
]

-- A wait of a call: the fiber, of the scheduler at `a`, waits for the call's event.
pub record IsParked {K : Type 0} (io : IoManager K) (call : Call) (a fiber : ℕ) : Type 0 where
  pub consistent : IsConsistent io
  pub timers : Inv io.timers
  pub context : FdContext
  pub at : get_elem? io.contexts call.fd ≡ some context
  pub registered : has context.events call.event ≡ true
  pub waits : waiter context call.event ≡ arrival none a fiber

-- A timer more, and a byte in the pipe, leave the contexts in order.
timed-IsConsistent :
    {K : Type 0} (io : IoManager K) (timers : TimerManager) (pipe : ℕ)
    → IsConsistent io
    → IsConsistent (record io { timers = timers; pipe = pipe })
timed-IsConsistent io timers pipe h = record {
  contexts_good = h.contexts_good;
  pending_counts = h.pending_counts;
  two_slots = h.two_slots;
}

module _ {K : Type 0} (ctl : K → Op → (fd : ℕ) → Events → K × Bool) (io : IoManager K) (call : Call)
    (addr now : ℕ) (h : IsConsistent io) where
  -- The answer of epoll_ctl to the registration of the call's event.
  abbrev pub answer : Bool
  answer =
      (ctl io.kernel (if any_event (slot_at io.contexts call.fd).events then ctl_mod else ctl_add)
        call.fd (with_event (slot_at io.contexts call.fd).events call.event)).1

  pub wait_registered :
      (a fiber : ℕ)
      → Inv io.timers
      → elem addr io.timers.timers ≡ false
      → call.event ≢ none_event
      → has (slot_at io.contexts call.fd).events call.event ≡ false
      → answer ≡ true
      → (io1 : IoManager K) × (io2 : IoManager K) × (start_timer io call addr now true
          ≡ ok (io1, timer_of call addr))
        × (add_event ctl io1 call.fd call.event none (some a) fiber true ≡ ok (io2, true))
        × IsParked io2 call a fiber
        × (io2.schedulers ≡ io.schedulers)
        × (io2.timers ≡ timers_of io call addr now)
  wait_registered a fiber v fresh real free accepted =
      let (pipe, started) = start_timer_lem io call addr now in
      let io1 = record io { timers = timers_of io call addr now; pipe = pipe } in
      let (io2, c, run, at, events, who, sched, timers, kernel, kept, good) =
        add_event_correct ctl io1 (timed-IsConsistent io _ pipe h) call.fd call.event none a fiber
          true real free refl accepted in
      (
        io1,
        io2,
        started,
        run,
        record {
          consistent = good;
          timers = rw timers (timers_of-Inv io call addr now fresh v);
          context = c;
          at = at;
          registered =
              rw events (has-with_event (slot_at io.contexts call.fd).events call.event real);
          waits = who;
        },
        sched,
        timers,
      )

  pub wait_refused :
      (current : Option ℕ) (fiber : ℕ) (exec : Bool)
      → has (slot_at io.contexts call.fd).events call.event ≡ false
      → answer ≡ false
      → (io1 : IoManager K) × (io2 : IoManager K) × (start_timer io call addr now true
          ≡ ok (io1, timer_of call addr))
        × (add_event ctl io1 call.fd call.event none current fiber exec ≡ ok (io2, false))
        × (io2.timers ≡ timers_of io call addr now)
  wait_refused current fiber exec free refused =
      let (pipe, started) = start_timer_lem io call addr now in
      let io1 = record io { timers = timers_of io call addr now; pipe = pipe } in
      (
        io1,
        _,
        started,
        add_event_refused ctl io1 (timed-IsConsistent io _ pipe h) call.fd call.event none current
            fiber exec free refused,
        refl,
      )

module _ {K M S : Type 0} (ctl : K → Op → (fd : ℕ) → Events → K × Bool) (w : World K M S)
    (call : Call) (fiber a : ℕ) where
  -- A call that must wait, on a descriptor that nobody waits for with that event, in a scheduler whose
  -- epoll_ctl accepts the registration: the fiber is registered as the one that waits, nobody is
  -- scheduled, and the timers are as before but for a new one, unless the timeout is -1, which is due
  -- after the timeout and holds the weak pointer to this call and its function.
  pub park_correct :
      (addr now : ℕ) (h : IsConsistent w.io)
      → Inv w.io.timers
      → elem addr w.io.timers.timers ≡ false
      → call.event ≢ none_event
      → has (slot_at w.io.contexts call.fd).events call.event ≡ false
      → answer ctl w.io call addr now h ≡ true
      → (w' : World K M S) × (park ctl w call
            (record { scheduler = some a; fiber = fiber; exec = true })
            addr
            now
            true
            (failed eagain)
          ≡ ok (w', parked (timer_of call addr)))
        × IsParked w'.io call a fiber
        × (w'.io.schedulers ≡ w.io.schedulers)
        × (w'.io.timers ≡ timers_of w.io call addr now)
        × (w'.os ≡ w.os)
  unfolding park add_wait after_add
  park_correct addr now h v fresh real free accepted =
      let (io1, io2, started, run, there, sched, timers) =
        wait_registered ctl w.io call addr now h a fiber v fresh real free accepted in
      (record w { io = io2 }, rw (started, run) refl, there, sched, timers, refl)
