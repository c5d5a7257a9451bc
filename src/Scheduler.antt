-- ===== src/Scheduler.antt =====
-- duan_src/scheduler.h and duan_src/scheduler.cc: the queue of tasks and the threads that run it.
--
-- One round of Scheduler::run is cut where other threads can come between: it begins with the scan
-- of the queue under the lock and ends, behind the swap into a fiber, with the book-keeping for
-- the state the fiber was left in. `Local` is what one thread sees: the scheduler, the states of
-- all fibers, and its own place in run. A thread id of -1 is `none`.
mod Scan
pub mod Queue
mod System
mod Counts
mod Stopping
mod Rounds
mod Restart
mod Tests
use coroutine.Prelude.{
  inc, dec, Result, ok, abort, assert, ◌>>=◌, ◌>>◌, ℕ, suc, ◌+◌, ◌-◌, ◌^◌, Bool, true, false, ◌&&◌,
  ◌||◌, not, List, [], ◌∷◌, ◌++◌, Option, none, some, ◌==◌, if◌then◌else◌, u64, is_some, update,
}
use coroutine.Fiber.{State, init, hold, exec, term, ready, except, is_exec, is_over, Turn}
use coroutine.Fiber.Switch.{left_in}

-- Scheduler::FiberAndThread
pub record Task : Type 0 where
  pub fiber : Option ℕ
  pub cb : Option ℕ
  pub thread : Option ℕ

pub record Scheduler : Type 0 where
  pub fibers : List Task
  pub threads : List ℕ
  pub thread_ids : List ℕ
  pub thread_count : ℕ
  pub active : ℕ
  pub idle : ℕ
  pub stopping : Bool
  pub auto_stop : Bool
  pub root_thread : Option ℕ
  pub root_fiber : Option ℕ

-- Scheduler::Scheduler. `fiber_id` is GetFiberId(), `current` is GetThis(), and the new fiber that
-- runs Scheduler::run is at `root`.
pub create :
    (threads : ℕ) (use_caller : Bool) (fiber_id : ℕ) (current : Option ℕ) (root : ℕ)
    → Result Scheduler
create threads use_caller fiber_id current root = do
  assert (not (threads == 0))
  assert (not use_caller || not (is_some current))
  ok (record {
    fibers = [];
    threads = [];
    thread_ids = if use_caller then fiber_id ∷ [] else [];
    thread_count = if use_caller then threads - 1 else threads;
    active = 0;
    idle = 0;
    stopping = true;
    auto_stop = false;
    root_thread = if use_caller then some fiber_id else none;
    root_fiber = if use_caller then some root else none;
  })

abbrev has_work : Task → Bool
has_work t = is_some t.fiber || is_some t.cb

abbrev is_empty {ℓ} : {A : Type ℓ} → List A → Bool
is_empty [] = true
is_empty (x ∷ xs) = false

-- Scheduler::scheduleNoLock; the Boolean is `need_tickle`.
pub schedule_no_lock : Scheduler → Task → Scheduler × Bool
schedule_no_lock s ft =
    (if has_work ft then record s { fibers = s.fibers ++ ft ∷ [] } else s, is_empty s.fibers)

-- Scheduler::scheduler(fc, thread); the Boolean tells whether tickle() is called.
pub schedule : Scheduler → Task → Scheduler × Bool
unfolding schedule_no_lock
schedule s ft = schedule_no_lock s ft

-- The loop of Scheduler::scheduler(begin, end) over functions. Each is swapped out of its place.
-- It returns the scheduler, what is left in the places, and `need_tickle`.
pub schedule_batch :
    Scheduler → List (Option ℕ) → (need_tickle : Bool) → Scheduler × List (Option ℕ) × Bool
unfolding schedule_no_lock
schedule_batch s [] need_tickle = (s, [], need_tickle)
schedule_batch s (cb ∷ cbs) need_tickle =
    let added = schedule_no_lock s (record { fiber = none; cb = cb; thread = none }) in
    let rest = schedule_batch added.0 cbs (added.1 || need_tickle) in
    (rest.0, none ∷ rest.1, rest.2)

-- Scheduler::stopping
pub is_stopping : Scheduler → Bool
is_stopping s = s.auto_stop && s.stopping && is_empty s.fibers && s.active == 0

-- Scheduler::start, where `ids` are the ids of the threads that it makes.
pub start : Scheduler → (ids : List ℕ) → Result Scheduler
start s ids = if not s.stopping then ok s else do
  assert (is_empty s.threads)
  ok (record s { stopping = false; threads = ids; thread_ids = s.thread_ids ++ ids })

-- What Scheduler::stop does beside changing its fields: the calls of tick, whether it calls the
-- root fiber, and the threads that it joins.
pub record Stop : Type 0 where
  pub sched : Scheduler
  pub tickles : ℕ
  pub calls_root : Bool
  pub joined : List ℕ

-- Scheduler::stop, where `is_current` is `GetThis() == this`, `root_state` the state of the root
-- fiber, and `stops` the virtual stopping().
pub stop :
    (stops : Scheduler → Bool)
    → (is_current : Bool) → (root_state : State) → Scheduler
    → Result Stop
stop stops is_current root_state s =
    let s' = record s { auto_stop = true; stopping = true } in
    let idle_root =
      is_some s.root_fiber
      && s.thread_count == 0
      && (elim root_state [ term ↦ true | init ↦ true | _ ↦ false ]) in
    if idle_root && stops s'
    then ok (record { sched = s'; tickles = 0; calls_root = false; joined = [] })
    else do
      assert (if is_some s.root_thread then is_current else not is_current)
      ok (record {
        sched = record s' { threads = [] };
        tickles = if is_some s.root_fiber then s.thread_count + 1 else s.thread_count;
        calls_root = is_some s.root_fiber && not (stops s');
        joined = s.threads;
      })

-- The task that a scan of the queue takes out, the queue without it, and `tickle_me`.
pub record Pick : Type 0 where
  pub task : Option Task
  pub rest : List Task
  pub tickle_me : Bool

-- `it->thread != -1 && it->thread != GetThreadId()`
abbrev is_foreign : (me : ℕ) → Task → Bool
is_foreign me t = elim t.thread [ none ↦ false | some id ↦ not (id == me) ]

abbrev is_running : (ℕ → State) → Task → Bool
is_running states t = elim t.fiber [ none ↦ false | some f ↦ is_exec (states f) ]

-- The loop of Scheduler::run over the queue, under the lock.
pub pick : (me : ℕ) → (ℕ → State) → List Task → Result Pick
pick me states [] = ok (record { task = none; rest = []; tickle_me = false })
pick me states (t ∷ ts) =
    let later = pick me states ts in
    if is_foreign me t
    then (later >>= λ p. ok (record p { rest = t ∷ p.rest; tickle_me = true }))
    else if not (has_work t)
    then abort
    else if is_running states t
    then (later >>= λ p. ok (record p { rest = t ∷ p.rest }))
    else ok (record { task = some t; rest = ts; tickle_me = false })

-- Where a thread is in Scheduler::run: at the head of its loop, in a fiber that a task named, in the
-- fiber `cb_fiber` with the function of a task, in the idle fiber, or behind the loop.
pub data Pc : Type 0 where
  top : Pc
  in_fiber : (f : ℕ) → Pc
  in_cb : (f : ℕ) → Pc
  in_idle : Pc
  exited : Pc

pub record Worker : Type 0 where
  pub pc : Pc
  pub cb_fiber : Option ℕ
  pub idle_state : State

pub record Local : Type 0 where
  pub sched : Scheduler
  pub states : ℕ → State
  pub worker : Worker

-- Fiber::swapIn, as far as the states tell: a fiber whose function has ended fails the assertion
-- behind its last swapOut.
abbrev enter_state : State → Result State
enter_state exec = abort
enter_state term = abort
enter_state except = abort
enter_state _ = ok exec

pub enter : (ℕ → State) → ℕ → Result (ℕ → State)
enter states f = enter_state (states f) >>= λ s. ok (update states f s)

-- `state != TERM || state != EXCEPT`
abbrev pub may_run : State → Bool
may_run s = (elim s [ term ↦ false | _ ↦ true ]) || (elim s [ except ↦ false | _ ↦ true ])

-- The fiber that runs the functions of tasks: reset if there is one, new at `addr` if not.
pub prepare_cb : (ℕ → State) → (cb_fiber : Option ℕ) → (addr : ℕ) → Result ((ℕ → State) × ℕ)
prepare_cb states none addr = ok (update states addr init, addr)
prepare_cb states (some f) addr = do assert (is_over (states f)); ok (update states f init, f)

abbrev at_pc : Worker → Pc → Worker
at_pc w pc = record w { pc = pc }

-- Behind the scan: the branch on a task with a fiber, on one with a function, on neither.
pub start_task : Local → Task → (addr : ℕ) → Result Local
unfolding enter prepare_cb
start_task l t addr =
    if elim t.fiber [ none ↦ false | some f ↦ may_run (l.states f) ]
    then elim t.fiber [
      | none ↦ ok l
      | some f ↦ do
        states ← enter l.states f
        ok (record {
          sched = record l.sched { active = inc l.sched.active };
          states = states;
          worker = at_pc l.worker (in_fiber f);
        })
    ]
    else elim t.cb [
      | none ↦ ok (record l { sched = record l.sched { active = dec l.sched.active } })
      | some cb ↦ do
        ready_fiber ← prepare_cb l.states l.worker.cb_fiber addr
        states ← enter ready_fiber.0 ready_fiber.1
        ok (record {
          sched = l.sched;
          states = states;
          worker = record l.worker { pc = in_cb ready_fiber.1; cb_fiber = some ready_fiber.1 };
        })
    ]

-- No task: leave the loop if the idle fiber has ended, otherwise swap into it.
pub start_idle : Local → Result Local
start_idle l = elim l.worker.idle_state [
  | term ↦ ok (record l { worker = at_pc l.worker exited })
  | other ↦ do
    s ← enter_state other
    ok (record l {
      sched = record l.sched { idle = inc l.sched.idle };
      worker = record l.worker { pc = in_idle; idle_state = s };
    })
]

-- One round of Scheduler::run up to the swap into a fiber. The Boolean tells whether tickle() is
-- called for a task of another thread.
pub begin_round : (me addr : ℕ) → Local → Result (Local × Bool)
unfolding pick start_task start_idle
begin_round me addr l = do
  p ← pick me l.states l.sched.fibers
  l' ← elim p.task [
    | none ↦ start_idle (record l { sched = record l.sched { fibers = p.rest } })
    | some t ↦
        start_task
          (record l { sched = record l.sched { fibers = p.rest; active = inc l.sched.active } }) t
          addr
  ]
  ok (l', p.tickle_me)

-- Behind the swap into the fiber of a task, which has had its turn.
pub end_fiber : Local → ℕ → Turn → Local
unfolding schedule
end_fiber l f turn =
    let sched = record l.sched { active = dec l.sched.active } in
    let left = left_in turn in
    record {
      sched = elim left [
        | ready ↦ (schedule sched (record { fiber = some f; cb = none; thread = none })).0
        | _ ↦ sched
      ];
      states =
          update l.states f
            (elim left [ ready ↦ ready | term ↦ term | except ↦ except | _ ↦ hold ]);
      worker = at_pc l.worker top;
    }

-- Behind the swap into `cb_fiber`.
pub end_cb : Local → ℕ → Turn → Local
unfolding schedule
end_cb l f turn =
    let sched = record l.sched { active = dec l.sched.active } in
    let left = left_in turn in
    record {
      sched = elim left [
        | ready ↦ (schedule sched (record { fiber = some f; cb = none; thread = none })).0
        | _ ↦ sched
      ];
      states =
          update l.states f (elim left [ ready ↦ ready | term ↦ init | except ↦ init | _ ↦ hold ]);
      worker = record l.worker {
        pc = top;
        cb_fiber = elim left [ term ↦ some f | except ↦ some f | _ ↦ none ];
      };
    }

-- Behind the swap into the idle fiber. Scheduler::idle yields until `stops`, and then returns.
pub end_idle : Local → (stops : Bool) → Local
end_idle l stops = record l {
  sched = record l.sched { idle = dec l.sched.idle };
  worker = record l.worker { pc = top; idle_state = if stops then term else hold };
}
