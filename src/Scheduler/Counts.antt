-- ===== src/Scheduler/Counts.antt =====
-- The counters m_activeThreadCount and m_idleThreadCount of duan_src/scheduler.cc against what the
-- threads do.
use coroutine.Prelude.{inc, ok, ℕ, ◌≡◌, ◌⊎◌, refl, Bool, true, Option, none, some, arith, All}
use coroutine.Scheduler.{
  Task, Pc, in_fiber, in_cb, in_idle, Pick, Worker, Local, has_work, begin_round, start_task,
  start_idle,
}
use coroutine.Scheduler.Scan.{FoundWork, pick_correct, pick_work}

-- How often a thread has counted itself active: a fiber of a task is counted at the scan and again
-- before the swap.
abbrev pub counted : Pc → ℕ
counted (in_fiber f) = 2
counted (in_cb f) = 1
counted _ = 0

abbrev pub idles : Pc → ℕ
idles in_idle = 1
idles _ = 0

abbrev pub pc_counted : Worker → ℕ
pc_counted w = counted w.pc

abbrev pub pc_idles : Worker → ℕ
pc_idles w = idles w.pc

-- What the branch on a task does to the counters and to the place of its thread.
record Started (l l' : Local) : Type 0 where
  busy :
      (l'.sched.active ≡ inc l.sched.active) × (counted l'.worker.pc ≡ 2)
      ⊎ (l'.sched.active ≡ l.sched.active) × (counted l'.worker.pc ≡ 1)
  awake : idles l'.worker.pc ≡ 0
  idle : l'.sched.idle ≡ l.sched.idle
  queue : l'.sched.fibers ≡ l.sched.fibers

start_task-Started :
    (l l' : Local) (t : Task) (addr : ℕ)
    → has_work t ≡ true
    → start_task l t addr ≡ ok l'
    → Started l l'
unfolding start_task
start_task-Started l l' t addr h e = ground arith

-- What a round that begins does to the counters, the queue and the place of its thread.
pub record Begun (l l' : Local) : Type 0 where
  pub active :
      ((l'.sched.active ≡ inc (inc l.sched.active)) × (counted l'.worker.pc ≡ 2))
      ⊎ ((l'.sched.active ≡ inc l.sched.active) × (counted l'.worker.pc ≡ 1))
      ⊎ ((l'.sched.active ≡ l.sched.active) × (counted l'.worker.pc ≡ 0))
  pub idle :
      ((l'.sched.idle ≡ inc l.sched.idle) × (idles l'.worker.pc ≡ 1))
      ⊎ ((l'.sched.idle ≡ l.sched.idle) × (idles l'.worker.pc ≡ 0))
  pub queue : All (λ t. has_work t ≡ true) l'.sched.fibers

begin_found :
    (l l' : Local) (p : Pick) (found : Option Task) (addr : ℕ) (tickled : Bool)
    → p.task ≡ found
    → FoundWork found
    → All (λ t. has_work t ≡ true) p.rest
    → (elim found [
      | none ↦ start_idle (record l { sched = record l.sched { fibers = p.rest } })
      | some t ↦
          start_task
            (record l { sched = record l.sched { fibers = p.rest; active = inc l.sched.active } })
            t
            addr
    ])
      ≡ ok l'
    → Begun l l'
unfolding start_idle
begin_found l l' p none addr tickled e f w h = ground arith
begin_found l l' p (some t) addr tickled e f w h = ground (
  arith,
  start_task-Started
      (record l { sched = record l.sched { fibers = p.rest; active = inc l.sched.active } }) l' t
      addr,
)

pub begin_round-Begun :
    (me addr : ℕ) (l l' : Local) (tickled : Bool)
    → All (λ t. has_work t ≡ true) l.sched.fibers
    → begin_round me addr l ≡ ok (l', tickled)
    → Begun l l'
unfolding begin_round
begin_round-Begun me addr l l' tickled w e =
    let r = pick_correct me l.states l.sched.fibers w in
    let found = pick_work me l.states l.sched.fibers r.0 w r.1 in
    begin_found l l' r.0 r.0.task addr tickled refl found.0 found.1 (ground (arith, r.1))
