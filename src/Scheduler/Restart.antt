-- ===== src/Scheduler/Restart.antt =====
-- Scheduler::start and Scheduler::stop of duan_src/scheduler.cc.
use coroutine.Prelude.{
  ok, ℕ, ◌≡◌, ◌≢◌, refl, Bool, true, false, List, [], ◌++◌, Option, none, arith,
}
use coroutine.Fiber.{State}
use coroutine.Scheduler.{Scheduler, Stop, create, start, stop}

-- A scheduler that does not use its caller's thread is made, started, stopped from a thread where it
-- is not the current one, and started again. It tickles once for each thread and joins exactly the
-- threads that it started, and then starts the new ones; the ids of the joined threads stay listed.
pub restart :
    (threads fiber_id root : ℕ) (current : Option ℕ) (ids ids' : List ℕ) (stops : Scheduler → Bool)
    (root_state : State)
    → threads ≢ 0
    → (made : Scheduler) × (started : Scheduler) × (stopped : Stop) × (again : Scheduler) × (create
          threads false fiber_id current root
        ≡ ok made)
      × (start made ids ≡ ok started)
      × (stop stops false root_state started ≡ ok stopped)
      × (stopped.tickles ≡ threads)
      × (stopped.joined ≡ ids)
      × (stopped.calls_root ≡ false)
      × (start stopped.sched ids' ≡ ok again)
      × (again.threads ≡ ids')
      × (again.thread_ids ≡ ids ++ ids')
unfolding create start stop
restart threads fiber_id root current ids ids' stops root_state h =
    let made : Scheduler = record {
      fibers = [];
      threads = [];
      thread_ids = [];
      thread_count = threads;
      active = 0;
      idle = 0;
      stopping = true;
      auto_stop = false;
      root_thread = none;
      root_fiber = none;
    } in
    let started : Scheduler = record made { stopping = false; threads = ids; thread_ids = ids } in
    let stopped : Stop = record {
      sched = record started { auto_stop = true; stopping = true; threads = [] };
      tickles = threads;
      calls_root = false;
      joined = ids;
    } in
    (
      made,
      started,
      stopped,
      record started { auto_stop = true; threads = ids'; thread_ids = ids ++ ids' },
      ground arith,
      refl,
      ground arith,
      refl,
      refl,
      refl,
      refl,
      refl,
      refl,
    )
