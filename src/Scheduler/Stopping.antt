-- ===== src/Scheduler/Stopping.antt =====
-- What Scheduler::stopping of duan_src/scheduler.cc says of a scheduler whose threads run.
use coroutine.Prelude.{
  dec, inc_lem, dec_lem, ℕ, suc, ◌+◌, ◌*◌, ◌<◌, ◌^◌, ◌≡◌, ◌≤◌, refl, inl, inr, Bool, true, List, [],
  ◌∷◌, ◌++◌, arith, All, u64, update, total, total-update, weight-le-total, total_bound,
  total_const, Bool-cases,
}
use coroutine.Fiber.{Turn}
use coroutine.Scheduler.{
  Task, Scheduler, top, in_idle, Worker, Local, has_work, end_fiber, end_cb, end_idle, schedule,
  is_stopping,
}
use coroutine.Scheduler.System.{
  System, local, store, Step, begins, ends_fiber, ends_cb, ends_idle, schedules, stops, restates,
  Reach, begin, later, new_worker,
}
use coroutine.Scheduler.Counts.{counted, idles, pc_counted, pc_idles, Begun, begin_round-Begun}

-- The counter of active threads is what the threads have counted, and one more for every turn of a
-- task's fiber that has ended; the counter of idle threads is right; the queue holds work alone.
pub record Inv (n : ℕ) (s : System) : Type 0 where
  pub active : s.sched.active ≡ u64 (s.fiber_rounds + total pc_counted n s.worker)
  pub idle : s.sched.idle ≡ u64 (total pc_idles n s.worker)
  pub queue : All (λ t. has_work t ≡ true) s.sched.fibers

work-append :
    (q : List Task) (t : Task)
    → has_work t ≡ true
    → All (λ t. has_work t ≡ true) q
    → All (λ t. has_work t ≡ true) (q ++ t ∷ [])
work-append [] t h w = (h, tt)
work-append (u ∷ q) t h w = (w.0, work-append q t h w.1)

schedule-work :
    (s : Scheduler) (t : Task)
    → All (λ t. has_work t ≡ true) s.fibers
    → All (λ t. has_work t ≡ true) (schedule s t).0.fibers
unfolding schedule
schedule-work s t w = elim (Bool-cases (has_work t)) [
  | inl h ↦ rw (h, schedule) (work-append s.fibers t h w)
  | inr h ↦ rw (h, schedule) w
]

begins-Inv :
    (n i : ℕ) (s : System) (l : Local)
    → i < n
    → (s.worker i).pc ≡ top
    → Begun (local s i) l
    → Inv n s
    → Inv n (store s i l)
begins-Inv n i s l h e b v = record {
  active = ground (
    arith,
    total-update pc_counted n i s.worker l.worker h,
    v.active,
    b.active,
    inc_lem (s.fiber_rounds + total pc_counted n s.worker),
    inc_lem (s.fiber_rounds + total pc_counted n s.worker + 1),
  );
  idle = ground (
    arith,
    total-update pc_idles n i s.worker l.worker h,
    v.idle,
    b.idle,
    inc_lem (total pc_idles n s.worker),
  );
  queue = b.queue;
}

-- Where a turn ends, a ready fiber joins the queue, and the thread counts itself out once.
record Ended (l l' : Local) : Type 0 where
  active : l'.sched.active ≡ dec l.sched.active
  idle : l'.sched.idle ≡ l.sched.idle
  place : l'.worker.pc ≡ top
  queue : All (λ t. has_work t ≡ true) l'.sched.fibers

end_fiber-Ended :
    (l : Local) (f : ℕ) (turn : Turn)
    → All (λ t. has_work t ≡ true) l.sched.fibers
    → Ended l (end_fiber l f turn)
unfolding end_fiber schedule
end_fiber-Ended l f Turn.yields_ready w = record {
  active = refl;
  idle = refl;
  place = refl;
  queue = work-append _ _ refl w;
}
end_fiber-Ended l f _ w = record { active = refl; idle = refl; place = refl; queue = w }

end_cb-Ended :
    (l : Local) (f : ℕ) (turn : Turn)
    → All (λ t. has_work t ≡ true) l.sched.fibers
    → Ended l (end_cb l f turn)
unfolding end_cb schedule
end_cb-Ended l f Turn.yields_ready w = record {
  active = refl;
  idle = refl;
  place = refl;
  queue = work-append _ _ refl w;
}
end_cb-Ended l f _ w = record { active = refl; idle = refl; place = refl; queue = w }

module _ (n i : ℕ) (s : System) (l : Local) (h : i < n) (e : Ended (local s i) l)
    (v : Inv n s) where
  ends-idle :
      idles (s.worker i).pc ≡ 0 → l.sched.idle ≡ u64 (total pc_idles n (update s.worker i l.worker))
  ends-idle k =
      ground (arith, total-update pc_idles n i s.worker l.worker h, v.idle, e.idle, e.place)

  ends_fiber-Inv :
      counted (s.worker i).pc ≡ 2
      → idles (s.worker i).pc ≡ 0
      → Inv n (record (store s i l) { fiber_rounds = suc s.fiber_rounds })
  ends_fiber-Inv c k = record {
    active = ground (
      arith,
      total-update pc_counted n i s.worker l.worker h,
      v.active,
      e.active,
      e.place,
      dec_lem (suc s.fiber_rounds + total pc_counted n (update s.worker i l.worker)),
    );
    idle = ends-idle k;
    queue = e.queue;
  }

  ends_cb-Inv : counted (s.worker i).pc ≡ 1 → idles (s.worker i).pc ≡ 0 → Inv n (store s i l)
  ends_cb-Inv c k = record {
    active = ground (
      arith,
      total-update pc_counted n i s.worker l.worker h,
      v.active,
      e.active,
      e.place,
      dec_lem (s.fiber_rounds + total pc_counted n (update s.worker i l.worker)),
    );
    idle = ends-idle k;
    queue = e.queue;
  }

ends_idle-Inv :
    (n i : ℕ) (s : System) (stopped : Bool)
    → i < n
    → (s.worker i).pc ≡ in_idle
    → Inv n s
    → Inv n (store s i (end_idle (local s i) stopped))
unfolding end_idle
ends_idle-Inv n i s stopped h e v =
    let w' : Worker = (end_idle (local s i) stopped).worker in
    record {
      active = ground (arith, total-update pc_counted n i s.worker w' h, v.active);
      idle = ground (
        arith,
        total-update pc_idles n i s.worker w' h,
        v.idle,
        dec_lem (total pc_idles n (update s.worker i w')),
      );
      queue = v.queue;
    }

schedule_counts :
    (s : Scheduler) (t : Task)
    → ((schedule s t).0.active ≡ s.active) × ((schedule s t).0.idle ≡ s.idle)
unfolding schedule
schedule_counts s t = ground arith

Step-Inv : {n : ℕ} {tid : ℕ → ℕ} {s t : System} → Step n tid s t → Inv n s → Inv n t
Step-Inv {n} {tid} {s} (begins i addr {l} {tickled} h e r) v =
    begins-Inv n i s l h e (begin_round-Begun (tid i) addr (local s i) l tickled v.queue r) v
Step-Inv {n} {tid} {s} (ends_fiber i f turn h e) v =
    ends_fiber-Inv n i s _ h (end_fiber-Ended (local s i) f turn v.queue) v (ground arith)
      (ground arith)
Step-Inv {n} {tid} {s} (ends_cb i f turn h e) v =
    ends_cb-Inv n i s _ h (end_cb-Ended (local s i) f turn v.queue) v (ground arith) (ground arith)
Step-Inv {n} {tid} {s} (ends_idle i h e) v = ends_idle-Inv n i s (is_stopping s.sched) h e v
Step-Inv {n} {tid} {s} (schedules t) v = record {
  active = ground (arith, v.active, schedule_counts s.sched t);
  idle = ground (arith, v.idle, schedule_counts s.sched t);
  queue = schedule-work s.sched t v.queue;
}
Step-Inv {n} {tid} {s} stops v = record { active = v.active; idle = v.idle; queue = v.queue }
Step-Inv {n} {tid} {s} (restates states) v = record {
  active = v.active;
  idle = v.idle;
  queue = v.queue;
}

Reach-Inv : {n : ℕ} {tid : ℕ → ℕ} {s : System} → Reach n tid s → Inv n s
Reach-Inv {n} (begin sched states e h k) = record {
  active = ground (arith, total_const pc_counted n new_worker refl);
  idle = ground (arith, total_const pc_idles n new_worker refl);
  queue = rw e tt;
}
Reach-Inv (later r st) = Step-Inv st (Reach-Inv r)

counted-le : (w : Worker) → pc_counted w ≤ 2
counted-le w = ground arith

-- In every interleaving, while the rounds fit the counter: stopping() holds only if the queue is
-- empty and no thread is in the fiber of a task or in one with the function of a task. But it also
-- holds only if no turn of a task's fiber has ever ended, since run counts such a round twice and
-- takes back one: behind the first such turn a scheduler never stops.
pub stopping_lem :
    {n : ℕ} {tid : ℕ → ℕ} {s : System}
    → Reach n tid s
    → s.fiber_rounds + 2 * n < 2 ^ 64
    → is_stopping s.sched ≡ true
    → (s.sched.fibers ≡ []) × (s.fiber_rounds ≡ 0) × ((i : ℕ) → i < n → counted (s.worker i).pc ≡ 0)
unfolding is_stopping
stopping_lem {n} {tid} {s} r few h =
    let v = Reach-Inv r in
    let bound : total pc_counted n s.worker ≤ 2 * n =
      total_bound pc_counted 2 n s.worker counted-le in
    let none_active : s.sched.active ≡ 0 = ground arith in
    let none_counted : s.fiber_rounds + total pc_counted n s.worker ≡ 0 =
      omega (arith, v.active, none_active, bound) in
    (
      ground arith,
      omega (arith, none_counted),
      λ i k. omega (arith, none_counted, weight-le-total pc_counted n i s.worker k),
    )
