-- ===== src/IoManager.antt =====
-- duan_src/iomanager.h and duan_src/iomanager.cc: events of file descriptors.
--
-- The kernel's epoll instance is a value of the type `K`, and epoll_ctl the parameter `ctl`: it takes
-- the instance, the operation, the descriptor and the events asked for beside EPOLLET, and tells
-- whether it succeeded. `schedulers` holds the Scheduler at each address, since an event keeps a
-- pointer to the one that waits for it. A descriptor is not negative, and one operation holds the
-- locks that it needs from its start to its end.
pub mod Dispatch
pub mod Slots
pub mod Invariant
pub mod Cancel
pub mod Fire
pub mod Handle
mod Waiting
pub mod Growth
pub mod Register
mod Abstract
mod Refines
mod Perform
mod Kept
mod Reach
pub mod Tests
use coroutine.Prelude.{
  inc, dec, Result, ok, abort, fault, assert, ◌>>=◌, ◌>>◌, ℕ, zero, suc, ◌+◌, ◌-◌, ◌*◌, ◌/◌, ◌%◌,
  ◌^◌, Bool, true, false, ◌&&◌, ◌||◌, not, List, [], ◌∷◌, ◌++◌, map, Option, none, some, ltb, ◌==◌,
  if◌then◌else◌, u64, is_some, update, length, get_elem?, set, take,
}
use coroutine.Scheduler.{Task, Scheduler, schedule}
use coroutine.Timer.{TimerManager, create}

-- IOManager::Event
pub data Event : Type 0 where
  none_event read_event write_event : Event

-- A union of events: the bits READ (0x1, EPOLLIN) and WRITE (0x4, EPOLLOUT).
pub record Events : Type 0 where
  pub read : Bool
  pub write : Bool

abbrev pub no_events : Events
no_events = record { read = false; write = false }

-- `events & event`, as a test
abbrev pub has : Events → Event → Bool
has m none_event = false
has m read_event = m.read
has m write_event = m.write

-- `events | event`
abbrev pub with_event : Events → Event → Events
with_event m none_event = m
with_event m read_event = record m { read = true }
with_event m write_event = record m { write = true }

-- `events & ~event`
abbrev pub without_event : Events → Event → Events
without_event m none_event = m
without_event m read_event = record m { read = false }
without_event m write_event = record m { write = false }

abbrev pub any_event : Events → Bool
any_event m = m.read || m.write

-- FdContext::EventContext
pub record EventContext : Type 0 where
  pub scheduler : Option ℕ
  pub fiber : Option ℕ
  pub cb : Option ℕ

pub record FdContext : Type 0 where
  pub read : EventContext
  pub write : EventContext
  pub fd : ℕ
  pub events : Events

-- FdContext::resetContext
abbrev pub reset_context : EventContext
reset_context = record { scheduler = none; fiber = none; cb = none }

abbrev pub new_context : ℕ → FdContext
new_context fd = record { read = reset_context; write = reset_context; fd = fd; events = no_events }

-- FdContext::getContext, read and written.
abbrev pub get_context : FdContext → Event → Result EventContext
get_context c none_event = abort
get_context c read_event = ok c.read
get_context c write_event = ok c.write

abbrev pub put_context : FdContext → Event → EventContext → FdContext
put_context c none_event e = c
put_context c read_event e = record c { read = e }
put_context c write_event e = record c { write = e }

-- EPOLL_CTL_ADD, EPOLL_CTL_MOD, EPOLL_CTL_DEL
pub data Op : Type 0 where
  ctl_add ctl_mod ctl_del : Op

-- The Scheduler at each address, and those whose tickle() was called, in order.
pub record Schedulers : Type 0 where
  pub scheduler : ℕ → Scheduler
  pub tickled : List ℕ

pub record IoManager (K : Type 0) : Type 0 where
  pub self : ℕ
  pub schedulers : Schedulers
  pub timers : TimerManager
  pub pending : ℕ
  pub contexts : List FdContext
  pub kernel : K
  pub pipe : ℕ

-- A call of Scheduler::scheduler on the scheduler at an address, which calls tickle() of that
-- scheduler where its queue was empty.
pub post : Schedulers → ℕ → Task → Schedulers
post schedulers a t =
    let (s, need_tickle) = schedule (schedulers.scheduler a) t in
    record {
      scheduler = update schedulers.scheduler a s;
      tickled = if need_tickle then schedulers.tickled ++ a ∷ [] else schedulers.tickled;
    }

-- FdContext::triggerEvent: what waits for the event moves out of its context into a task of its
-- scheduler. A null scheduler is read through.
pub trigger_event : Schedulers → FdContext → Event → Result (Schedulers × FdContext)
unfolding post
trigger_event schedulers c event = do
  assert (has c.events event)
  let c' = record c { events = without_event c.events event }
  ctx ← get_context c' event
  elim ctx.scheduler [
    | none ↦ fault
    | some s ↦
        if is_some ctx.cb
        then ok (
          post schedulers s (record { fiber = none; cb = ctx.cb; thread = none }),
          put_context c' event (record ctx { cb = none; scheduler = none }),
        )
        else ok (
          post schedulers s (record { fiber = ctx.fiber; cb = none; thread = none }),
          put_context c' event (record ctx { fiber = none; scheduler = none }),
        )
  ]

-- New contexts for `count` descriptors from `fd` on.
pub new_contexts : (fd count : ℕ) → List FdContext
new_contexts fd zero = []
new_contexts fd (suc count) = new_context fd ∷ new_contexts (fd + 1) count

-- IOManager::contextResize: the vector is cut, or grows by new contexts.
unfoldable pub context_resize : List FdContext → (size : ℕ) → List FdContext
unfolding new_contexts
context_resize contexts size =
    take size contexts ++ new_contexts (length contexts) (size - length contexts)

-- IOManager::IOManager in front of start(): the Booleans tell whether epoll_create, pipe and fcntl
-- succeed, and `asked` is the answer to the registration of the pipe.
unfoldable pub new_io_manager :
    {K : Type 0}
    → (self : ℕ) → Schedulers
    → (now : ℕ) → (made piped nonblocking : Bool) → (asked : K × Bool) → Result (IoManager K)
unfolding context_resize
new_io_manager self schedulers now made piped nonblocking asked = do
  assert made
  assert piped
  assert nonblocking
  assert asked.1
  ok (record {
    self = self;
    schedulers = schedulers;
    timers = create now;
    pending = 0;
    contexts = context_resize [] 32;
    kernel = asked.0;
    pipe = 0;
  })

-- IOManager::tickle, where `wrote` tells whether write() wrote its byte.
unfoldable pub tickle : {K : Type 0} → IoManager K → (wrote : Bool) → Result (IoManager K)
tickle io wrote =
    if ltb 0 (io.schedulers.scheduler io.self).idle
    then ok io
    else (do assert wrote; ok (record io { pipe = io.pipe + 1 }))

-- IOManager::onTimerInsertedAtFront
unfoldable pub on_timer_inserted_at_front :
    {K : Type 0} → IoManager K → (wrote : Bool) → Result (IoManager K)
unfolding tickle
on_timer_inserted_at_front io wrote = tickle io wrote

-- The end of an addTimer of the TimerManager that an IOManager is: the timer is in, and where it came
-- to the front the IOManager is told.
unfoldable pub timer_added :
    {K : Type 0} → IoManager K → TimerManager × Bool → (wrote : Bool) → Result (IoManager K)
unfolding on_timer_inserted_at_front
timer_added io added wrote =
    let io' = record io { timers = added.0 } in
    if added.1 then on_timer_inserted_at_front io' wrote else ok io'

-- The part of addEvent behind a successful epoll_ctl.
unfoldable pub register :
    {K : Type 0}
    → IoManager K
    → (fd : ℕ) (c : FdContext) → Event
    → (cb : Option ℕ) (current : Option ℕ) (fiber : ℕ) (fiber_exec : Bool)
    → Result (IoManager K × Bool)
register io fd c event cb current fiber fiber_exec = do
  ctx ← get_context c event
  assert (not (is_some ctx.scheduler) && not (is_some ctx.fiber) && not (is_some ctx.cb))
  assert (is_some cb || fiber_exec)
  let ctx' : EventContext = record {
    scheduler = current;
    fiber = if is_some cb then none else some fiber;
    cb = cb;
  }
  let c' = record (put_context c event ctx') { events = with_event c.events event }
  ok (record io { pending = inc io.pending; contexts = set io.contexts fd c' }, true)

module _ {K : Type 0} (ctl : K → Op → (fd : ℕ) → Events → K × Bool) where
  -- IOManager::addEvent. `current` is Scheduler::GetThis(), and `fiber` Fiber::GetThis() with the
  -- test whether its state is EXEC. The Boolean is true for 0 and false for -1.
  unfoldable pub add_event :
      IoManager K
      → (fd : ℕ) → Event
      → (cb : Option ℕ) (current : Option ℕ) (fiber : ℕ) (fiber_exec : Bool)
      → Result (IoManager K × Bool)
  unfolding context_resize register
  add_event io fd event cb current fiber fiber_exec =
      let contexts =
        if ltb fd (length io.contexts)
        then io.contexts
        else context_resize io.contexts (fd * 3 / 2) in
      elim (get_elem? contexts fd) [
        | none ↦ fault
        | some c ↦ do
          assert (not (has c.events event))
          let op = if any_event c.events then ctl_mod else ctl_add
          let asked = ctl io.kernel op fd (with_event c.events event)
          let io' = record io { contexts = contexts; kernel = asked.0 }
          elim asked.1 [
            | false ↦ ok (io', false)
            | true ↦ register io' fd c event cb current fiber fiber_exec
          ]
      ]

  -- IOManager::delEvent
  unfoldable pub del_event : IoManager K → (fd : ℕ) → Event → Result (IoManager K × Bool)
  del_event io fd event = elim (get_elem? io.contexts fd) [
    | none ↦ ok (io, false)
    | some c ↦
        if not (has c.events event)
        then ok (io, false)
        else (let new_events = without_event c.events event in
            let op = if any_event new_events then ctl_mod else ctl_del in
            let asked = ctl io.kernel op fd new_events in
            let io' = record io { kernel = asked.0 } in
            if not asked.1 then ok (io', false) else (do
              ctx ← get_context c event
              let c' = put_context (record c { events = new_events }) event reset_context
              ok (record io' { pending = dec io.pending; contexts = set io.contexts fd c' }, true)))
  ]

  -- IOManager::cancelEvent
  unfoldable pub cancel_event : IoManager K → (fd : ℕ) → Event → Result (IoManager K × Bool)
  unfolding trigger_event
  cancel_event io fd event = elim (get_elem? io.contexts fd) [
    | none ↦ ok (io, false)
    | some c ↦
        if not (has c.events event)
        then ok (io, false)
        else (let new_events = without_event c.events event in
            let op = if any_event new_events then ctl_mod else ctl_del in
            let asked = ctl io.kernel op fd new_events in
            let io' = record io { kernel = asked.0 } in
            if not asked.1 then ok (io', false) else (do
              fired ← trigger_event io.schedulers c event
              ok (
                record io' {
                  schedulers = fired.0;
                  pending = dec io.pending;
                  contexts = set io.contexts fd fired.1;
                },
                true,
              )))
  ]
