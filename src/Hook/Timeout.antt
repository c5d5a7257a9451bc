-- ===== src/Hook/Timeout.antt =====
-- The two ways out of a wait of do_io, duan_src/hook.cc: the event, and the timer.
use coroutine.Prelude.{
  ok, ℕ, ◌≡◌, ◌∙◌, refl, ap, Bool, true, false, Option, none, some, ◌==◌, arith, if◌then◌else◌,
  is_some,
}
use coroutine.IoManager.{Events, Op, post}
use coroutine.IoManager.Invariant.{IsConsistent, waiting_task}
use coroutine.IoManager.Register.{arrival}
use coroutine.IoManager.Cancel.{cancel_event_correct, take_away}
use coroutine.Timer.{TimerManager}
use coroutine.Timer.Invariant.{Inv}
use coroutine.Timer.Cancel.{cancel_correct}
use coroutine.Hook.{failed, etimedout, World}
use coroutine.Hook.Io.{Call, trying, finished, cancel_timer, resume_io, on_timeout}
use coroutine.Hook.Parking.{IsParked}

-- The timer, if there is one, can no longer call its function.
abbrev pub IsOver : TimerManager → Option ℕ → Type 0
IsOver m none = Unit {0}
IsOver m (some timer) = is_some (m.heap timer).cb ≡ false

pub cancel_timer_lem :
    (m : TimerManager) (timer : Option ℕ)
    → Inv m
    → (m' : TimerManager) × (cancel_timer m timer ≡ ok m') × Inv m' × IsOver m' timer
unfolding cancel_timer
cancel_timer_lem m none v = (m, refl, v, tt)
cancel_timer_lem m (some timer) v =
    let (m', run, v', over, gone, others, again) = cancel_correct m timer v in
    (m', rw run refl, v', over)

-- What yield() returns to: the timer of the wait is cancelled and can no longer call its function;
-- where no timeout was noted the function is called again, and otherwise the call fails with what was
-- noted.
pub resume_io_correct :
    {K M S : Type 0} (w : World K M S) (cancelled : ℕ) (timer : Option ℕ)
    → Inv w.io.timers
    → (w' : World K M S) × (resume_io w cancelled timer
        ≡ ok (w', if cancelled == 0 then trying else finished (failed cancelled)))
      × Inv w'.io.timers
      × IsOver w'.io.timers timer
      × (w'.io.contexts ≡ w.io.contexts)
      × (w'.io.schedulers ≡ w.io.schedulers)
unfolding resume_io
resume_io_correct w cancelled timer v =
    let (m', run, v', over) = cancel_timer_lem w.io.timers timer v in
    (record w { io = record w.io { timers = m' } }, rw run refl, v', over, refl, refl)

module _ {K M S : Type 0} (ctl : K → Op → (fd : ℕ) → Events → K × Bool) where
  -- When the timer of a parked call fires first, and epoll_ctl accepts that the event is taken away: the
  -- function of the timer takes the event away, schedules the waiting fiber once and notes ETIMEDOUT; the
  -- fiber, when it runs, fails with ETIMEDOUT; and the function called a second time, or behind the end of
  -- the call, does nothing.
  pub on_timeout_correct :
      (w : World K M S) (call : Call) (a fiber : ℕ) (timer : Option ℕ)
      (p : IsParked w.io call a fiber)
      → (take_away ctl w.io p.consistent call.fd p.context call.event).1 ≡ true
      → (w' : World K M S) × (on_timeout ctl w call true 0 ≡ ok (w', etimedout))
        × (w'.io.schedulers
            ≡ post w.io.schedulers a (record { fiber = some fiber; cb = none; thread = none }))
        × IsConsistent w'.io
        × ((w2 : World K M S) × (resume_io w' etimedout timer
              ≡ ok (w2, finished (failed etimedout))))
        × (on_timeout ctl w' call true etimedout ≡ ok (w', etimedout))
        × (on_timeout ctl w' call false 0 ≡ ok (w', 0))
  unfolding on_timeout
  on_timeout_correct w call a fiber timer p accepted =
      let (s, io', c', owner, run, sched, timers, contexts, left, good) =
        cancel_event_correct ctl w.io p.consistent call.fd p.context p.at call.event p.registered
          accepted in
      let w' = record w { io = io' } in
      let (w2, resumed, v2, over2, contexts2, sched2) =
        resume_io_correct w' etimedout timer (rw timers p.timers) in
      let mine : s ≡ a = ground (arith, owner, p.waits) in
      (
        w',
        rw run refl,
        sched
            ∙ ap (λ x. post w.io.schedulers s (waiting_task x)) p.waits
            ∙ ap (λ j. post w.io.schedulers j (waiting_task (arrival none a fiber))) mine,
        good,
        (w2, resumed),
        refl,
        refl,
      )
