-- ===== src/Scheduler/Tests.antt =====
-- Runs of duan_src/scheduler.cc, and its theorems at concrete schedulers.
use coroutine.Prelude.{
  inc, Result, ok, abort, ℕ, ◌+◌, ◌<◌, ◌≡◌, ◌≢◌, refl, Bool, true, false, ◌&&◌, not, List, [], ◌∷◌,
  ◌++◌, map, Option, none, some, arith, update, u64,
}
use coroutine.Fiber.{State, term, hold, returns}
use coroutine.Scheduler.{
  may_run, Task, Scheduler, Pick, pick, in_fiber, in_cb, Local, is_stopping, begin_round, end_fiber,
  end_cb,
}
use coroutine.Scheduler.Scan.{Picks, pick_correct}
use coroutine.Scheduler.System.{System, Reach, begin, later, stops, new_worker}
use coroutine.Scheduler.Counts.{counted}
use coroutine.Scheduler.Stopping.{stopping_lem}
use coroutine.Scheduler.Rounds.{round_balance, finished_fiber_aborts}

abbrev quiet : Scheduler
quiet = record {
  fibers = [];
  threads = [];
  thread_ids = [];
  thread_count = 1;
  active = 0;
  idle = 0;
  stopping = true;
  auto_stop = false;
  root_thread = none;
  root_fiber = none;
}

abbrev fiber_task : ℕ → Option ℕ → Task
fiber_task f thread = record { fiber = some f; cb = none; thread = thread }

-- Thread 11 sees a task of thread 12, and then the fiber 5.
abbrev two_tasks : List Task
two_tasks = fiber_task 4 (some 12) ∷ fiber_task 5 none ∷ []

abbrev waiting : ℕ → State
waiting f = hold

abbrev at_top : Local
at_top = record {
  sched = record quiet { fibers = two_tasks };
  states = waiting;
  worker = new_worker;
}

abbrev running : Local
running = record {
  sched = record quiet { fibers = fiber_task 4 (some 12) ∷ []; active = 2 };
  states = update waiting 5 State.exec;
  worker = record new_worker { pc = in_fiber 5 };
}

begins_with_five : begin_round 11 99 at_top ≡ ok (running, true)
unfolding begin_round inc
begins_with_five = refl

pick_correct_example :
    (p : Pick) × (pick 11 waiting two_tasks ≡ ok p)
    × Picks 11 waiting two_tasks p.task p.rest p.tickle_me
pick_correct_example = pick_correct 11 waiting two_tasks (refl, (refl, tt))

-- One thread that has not begun, behind a call of stop().
abbrev stopped : System
stopped = record {
  sched = record quiet { auto_stop = true; stopping = true };
  states = waiting;
  worker = λ _. new_worker;
  fiber_rounds = 0;
}

stopped-Reach : Reach 1 (λ i. i) stopped
stopped-Reach = later (begin quiet waiting refl refl refl) stops

stopping_lem_example :
    (stopped.sched.fibers ≡ [])
    × (stopped.fiber_rounds ≡ 0)
    × ((i : ℕ) → i < 1 → counted (stopped.worker i).pc ≡ 0)
unfolding is_stopping
stopping_lem_example = stopping_lem stopped-Reach (omega arith) refl

round_balance_example :
    (running.worker.pc ≡ in_cb 5 → (end_cb running 5 returns).sched.active ≡ at_top.sched.active)
    × (running.worker.pc ≡ in_fiber 5
        → (end_fiber running 5 returns).sched.active ≡ u64 (at_top.sched.active + 1))
unfolding begin_round inc
round_balance_example =
    round_balance 11 99 at_top running true 5 returns (refl, (refl, tt)) (omega arith) refl

-- In front of the task is one of the thread 13.
abbrev ended_queue : Local
ended_queue = record at_top {
  states = λ _. term;
  sched = record at_top.sched {
    fibers = fiber_task 6 (some 13) ∷ fiber_task 4 (some 12) ∷ fiber_task 5 none ∷ [];
  };
}

finished_fiber_aborts_example :
    ((s : State) → may_run s ≡ true) × (begin_round 12 99 ended_queue ≡ abort)
finished_fiber_aborts_example =
    finished_fiber_aborts 12 99 4 ended_queue (fiber_task 6 (some 13) ∷ []) (fiber_task 5 none ∷ [])
      (fiber_task 4 (some 12)) refl (refl, tt) refl refl (coroutine.Prelude.inl refl)
