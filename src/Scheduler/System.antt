-- ===== src/Scheduler/System.antt =====
-- A scheduler of duan_src/scheduler.cc with `n` threads in Scheduler::run, in any interleaving.
use coroutine.Prelude.{ok, ℕ, suc, ◌<◌, ◌≡◌, Bool, true, [], none, update}
use coroutine.Fiber.{State, init, Turn}
use coroutine.Scheduler.{
  Task, Scheduler, top, in_fiber, in_cb, in_idle, Worker, Local, begin_round, end_fiber, end_cb,
  end_idle, is_stopping, schedule,
}

-- `fiber_rounds` counts the rounds that ended a turn of a task's fiber; the code has no such field.
pub record System : Type 0 where
  pub sched : Scheduler
  pub states : ℕ → State
  pub worker : ℕ → Worker
  pub fiber_rounds : ℕ

abbrev pub local : System → ℕ → Local
local s i = record { sched = s.sched; states = s.states; worker = s.worker i }

abbrev pub store : System → ℕ → Local → System
store s i l = record s { sched = l.sched; states = l.states; worker = update s.worker i l.worker }

-- The thread `i` has the id `tid i`. Others may schedule tasks, change the states of fibers that
-- they run, make stop() set its flags and start() clear one.
pub data Step (n : ℕ) (tid : ℕ → ℕ) (s : System) : System → Type 0 where
  begins :
      (i addr : ℕ) {l : Local} {tickled : Bool}
      → i < n
      → (s.worker i).pc ≡ top
      → begin_round (tid i) addr (local s i) ≡ ok (l, tickled)
      → Step n tid s (store s i l)
  ends_fiber :
      (i f : ℕ) (turn : Turn)
      → i < n
      → (s.worker i).pc ≡ in_fiber f
      → Step n tid s
          (record (store s i (end_fiber (local s i) f turn)) { fiber_rounds = suc s.fiber_rounds })
  ends_cb :
      (i f : ℕ) (turn : Turn)
      → i < n
      → (s.worker i).pc ≡ in_cb f
      → Step n tid s (store s i (end_cb (local s i) f turn))
  ends_idle :
      (i : ℕ)
      → i < n
      → (s.worker i).pc ≡ in_idle
      → Step n tid s (store s i (end_idle (local s i) (is_stopping s.sched)))
  schedules : (t : Task) → Step n tid s (record s { sched = (schedule s.sched t).0 })
  stops : Step n tid s (record s { sched = record s.sched { auto_stop = true; stopping = true } })
  restates : (states : ℕ → State) → Step n tid s (record s { states = states })

abbrev pub new_worker : Worker
new_worker = record { pc = top; cb_fiber = none; idle_state = init }

-- The threads of a scheduler whose queue is empty and whose counters are zero enter run.
pub data Reach (n : ℕ) (tid : ℕ → ℕ) : System → Type 0 where
  begin :
      (sched : Scheduler) (states : ℕ → State)
      → sched.fibers ≡ []
      → sched.active ≡ 0
      → sched.idle ≡ 0
      → Reach n tid
          (record { sched = sched; states = states; worker = λ _. new_worker; fiber_rounds = 0 })
  later : {s t : System} → Reach n tid s → Step n tid s t → Reach n tid t
