-- ===== src/Scheduler/Rounds.antt =====
-- Single rounds of Scheduler::run in duan_src/scheduler.cc.
use mathlib.Core.List.{append-nil}
use coroutine.Prelude.{
  inc, dec, dec_lem, ok, abort, ℕ, ◌+◌, ◌<◌, ◌^◌, ◌≡◌, ◌⊎◌, refl, sym, ap, ◌∙◌, ◌&&◌, Bool-cases,
  inl, inr, Bool, true, false, List, [], ◌∷◌, ◌++◌, Option, none, some, arith, All, u64,
}
use coroutine.Fiber.{State, init, hold, exec, term, ready, except, Turn, yields_ready}
use coroutine.Fiber.Switch.{left_in}
use coroutine.Scheduler.Scan.{is_blocked}
use coroutine.Scheduler.{
  may_run, Task, in_fiber, in_cb, Local, has_work, is_foreign, pick, begin_round, start_task, enter,
  end_fiber, end_cb, schedule,
}
use coroutine.Scheduler.Counts.{begin_round-Begun}

dec-inc : (k : ℕ) → dec (inc k) ≡ u64 k
unfolding inc
dec-inc k = dec_lem k

end_counts :
    (l : Local) (f : ℕ) (turn : Turn)
    → ((end_fiber l f turn).sched.active ≡ dec l.sched.active)
      × ((end_cb l f turn).sched.active ≡ dec l.sched.active)
unfolding end_fiber end_cb schedule
end_counts l f yields_ready = (refl, refl)
end_counts l f _ = (refl, refl)

-- A round with the function of a task leaves the counter of active threads as it was. A round with
-- the fiber of a task leaves it one higher, however the turn ends.
pub round_balance :
    (me addr : ℕ) (l l' : Local) (tickled : Bool) (f : ℕ) (turn : Turn)
    → All (λ t. has_work t ≡ true) l.sched.fibers
    → l.sched.active < 2 ^ 64
    → begin_round me addr l ≡ ok (l', tickled)
    → (l'.worker.pc ≡ in_cb f → (end_cb l' f turn).sched.active ≡ l.sched.active)
      × (l'.worker.pc ≡ in_fiber f → (end_fiber l' f turn).sched.active ≡ u64 (l.sched.active + 1))
unfolding inc
round_balance me addr l l' tickled f turn w h e =
    let b = begin_round-Begun me addr l l' tickled w e in
    (
      (λ p. ground (arith, b.active, (end_counts l' f turn).1, dec_lem l.sched.active)),
      λ p. ground (arith, b.active, (end_counts l' f turn).0, dec_lem (u64 (l.sched.active + 1))),
    )

passed :
    (me : ℕ) (states : ℕ → State) (front back : List Task) (t : Task)
    → All (λ u. (has_work u && is_blocked me states u) ≡ true) front
    → has_work t ≡ true
    → is_blocked me states t ≡ false
    → (tickle : Bool) × (pick me states (front ++ t ∷ back)
        ≡ ok (record { task = some t; rest = front ++ back; tickle_me = tickle }))
unfolding pick
passed me states [] back t h w free = (false, ground arith)
passed me states (u ∷ front) back t h w free =
    let (tickle, later) = passed me states front back t h.1 w free in
    elim (Bool-cases (is_foreign me u)) [
      | inl foreign ↦ (true, ground (arith, later))
      | inr own ↦ (tickle, ground (arith, h.0, later))
    ]

may_run_all : (s : State) → may_run s ≡ true
may_run_all init = refl
may_run_all hold = refl
may_run_all exec = refl
may_run_all term = refl
may_run_all ready = refl
may_run_all except = refl

-- The test of run before it swaps into a fiber lets every state pass, those of an ended fiber too.
-- Where all tasks in front of one have something to run and are other threads' or have a running
-- fiber, and its own fiber has ended, the thread takes this one and fails an assertion.
pub finished_fiber_aborts :
    (me addr f : ℕ) (l : Local) (front back : List Task) (t : Task)
    → l.sched.fibers ≡ front ++ t ∷ back
    → All (λ u. (has_work u && is_blocked me l.states u) ≡ true) front
    → is_foreign me t ≡ false
    → t.fiber ≡ some f
    → (l.states f ≡ term) ⊎ (l.states f ≡ except)
    → ((s : State) → may_run s ≡ true) × (begin_round me addr l ≡ abort)
unfolding begin_round start_task enter
finished_fiber_aborts me addr f l front back t e h own fiber ended =
    let free : is_blocked me l.states t ≡ false = ground arith in
    let (tickle, picked) = passed me l.states front back t h (ground arith) free in
    let found = ap (pick me l.states) e ∙ picked in
    (may_run_all, ground (arith, found, fiber, ended, may_run_all (l.states f)))

-- What is left of a turn's fiber. Only a fiber that yielded ready joins the queue, at its end and
-- for any thread, also if its task was bound to one. One that yielded otherwise is held. The fiber
-- of a function is kept for the next function, reset, exactly if the function ended.
pub end_round_lem :
    (l : Local) (f : ℕ) (turn : Turn)
    → let again : List Task = elim (left_in turn) [
      | ready ↦ record { fiber = some f; cb = none; thread = none } ∷ []
      | _ ↦ []
    ] in
      ((end_fiber l f turn).sched.fibers ≡ l.sched.fibers ++ again)
      × ((end_cb l f turn).sched.fibers ≡ l.sched.fibers ++ again)
      × ((end_fiber l f turn).states f ≡ elim (left_in turn) as (λ _. State) [
        | ready ↦ ready
        | term ↦ term
        | except ↦ except
        | _ ↦ hold
      ])
      × ((end_cb l f turn).states f ≡ elim (left_in turn) as (λ _. State) [
        | ready ↦ ready
        | term ↦ init
        | except ↦ init
        | _ ↦ hold
      ])
      × ((end_cb l f turn).worker.cb_fiber
          ≡ elim (left_in turn) as (λ _. Option ℕ) [ term ↦ some f | except ↦ some f | _ ↦ none ])
unfolding end_fiber end_cb schedule
end_round_lem l f yields_ready = (refl, refl, ground arith, ground arith, refl)
end_round_lem l f _ = (sym (append-nil _), sym (append-nil _), ground arith, ground arith, refl)
