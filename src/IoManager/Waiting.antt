-- ===== src/IoManager/Waiting.antt =====
-- IOManager::tickle, stopping and the waiting time of idle, duan_src/iomanager.cc.
use coroutine.Prelude.{
  ok, ℕ, ◌%◌, ◌^◌, ◌<◌, ◌≤◌, ◌≡◌, ◌↔◌, inl, inr, refl, sym, ap, ◌∙◌, Bool, true, false, List, [],
  ◌∷◌, ◌++◌, map, Option, none, some, arith, ltb, if◌then◌else◌, update_self, List-cases,
}
use coroutine.Scheduler.{schedule_batch, is_stopping}
use coroutine.IoManager.{Events, Op, IoManager}
use coroutine.Timer.{
  detect_clock_rollover, TimerManager, Callback, get_next_timer, has_timer, list_expired_cb,
  no_timeout,
}
use coroutine.Timer.Invariant.{Inv}
use coroutine.Timer.Fire.{rolled, list_expired_correct}
use coroutine.Timer.Expired.{expired_part}
use coroutine.Timer.Requeue.{callbacks}
use mathlib.Core.List.{append-nil}
use coroutine.Scheduler.Queue.{fn_tasks, schedule_batch_lem}
use coroutine.IoManager.Dispatch.{
  stopping_with, wait_time, schedule_expired, idle_round, handle_events,
}

-- A timeout below 2 ^ 31 milliseconds waits that long, but three seconds at most.
pub wait_time_short : (t : ℕ) → t < 2 ^ 31 → wait_time t ≡ some (if ltb t 3000 then t else 3000)
unfolding wait_time
wait_time_short t h = ground arith

-- A timeout, other than that of no timer, whose low 32 bits are 2 ^ 31 or more becomes a negative
-- one, which waits without end.
pub wait_time_endless : (t : ℕ) → t < no_timeout → 2 ^ 31 ≤ t % 2 ^ 32 → wait_time t ≡ none
unfolding wait_time
wait_time_endless t h k = ground arith

-- The manager may stop exactly when it has no timer, no event is pending and its scheduler may
-- stop, where the time is not 0 and the times of the timers fit in 64 bits.
pub stopping_with_lem :
    {K : Type 0} (io : IoManager K) (now : ℕ)
    → 0 < now
    → ((a : ℕ) → (io.timers.heap a).next < 2 ^ 64)
    → ((stopping_with io now).2 ≡ true) ↔ (
        (has_timer io.timers ≡ false)
        × (io.pending ≡ 0)
        × (is_stopping (io.schedulers.scheduler io.self) ≡ true))
unfolding stopping_with get_next_timer has_timer
stopping_with_lem io now h k = elim (List-cases io.timers.timers) [
  | inl e ↦ (λ t. (ground arith, ground arith, ground arith), λ t. ground arith)
  | inr (x, xs, e) ↦ (λ t. absurd (ground (arith, k x)), λ t. absurd (ground arith))
]

abbrev pub fired_callbacks : TimerManager → ℕ → List (Option Callback)
fired_callbacks m now = callbacks m.heap (expired_part m (rolled m now) now)

-- The names of the functions, in the order given.
abbrev pub names : (Callback → ℕ) → List (Option Callback) → List (Option ℕ)
names name cbs = map (λ c. elim c [ none ↦ none | some f ↦ some (name f) ]) cbs

schedule_expired_lem :
    {K : Type 0} (name : Callback → ℕ) (io : IoManager K) (cbs : List (Option Callback))
    → ((schedule_expired name io cbs).schedulers.scheduler io.self).fibers
      ≡ (io.schedulers.scheduler io.self).fibers ++ fn_tasks (names name cbs)
unfolding schedule_expired
schedule_expired_lem name io [] = sym (append-nil (io.schedulers.scheduler io.self).fibers)
schedule_expired_lem name io (cb ∷ cbs) =
    let s = io.schedulers.scheduler io.self in
    let s' = (schedule_batch s (names name (cb ∷ cbs)) false).0 in
    ap (λ x. x.fibers) (update_self io.schedulers.scheduler io.self s')
    ∙ ap (λ x. x.fibers) (schedule_batch_lem s (names name (cb ∷ cbs))).0

schedule_expired-timers :
    {K : Type 0} (name : Callback → ℕ) (io : IoManager K) (cbs : List (Option Callback))
    → (schedule_expired name io cbs).timers ≡ io.timers
unfolding schedule_expired
schedule_expired-timers name io [] = refl
schedule_expired-timers name io (cb ∷ cbs) = refl

asked_lem : (m : TimerManager) (now : ℕ) → (get_next_timer m now).0 ≡ record m { tickled = false }
unfolding get_next_timer
asked_lem m now = ground arith

asked_timers : (m : TimerManager) (now : ℕ) → Inv m → Inv (get_next_timer m now).0
asked_timers m now v =
    rw (asked_lem m now) (record { sorted = v.sorted; registered = v.registered })

asked_callbacks :
    (m : TimerManager) (now woken : ℕ)
    → fired_callbacks (get_next_timer m now).0 woken ≡ fired_callbacks m woken
unfolding detect_clock_rollover
asked_callbacks m now woken = ap (λ k. fired_callbacks k woken) (asked_lem m now)

round_lem :
    {K : Type 0} (ctl : K → Op → (fd : ℕ) → Events → K × Bool) (name : Callback → ℕ)
    (io : IoManager K) (now woken addr : ℕ) (m : TimerManager) (cbs : List (Option Callback))
    → (stopping_with io now).2 ≡ false
    → list_expired_cb (get_next_timer io.timers now).0 woken addr ≡ ok (m, cbs)
    → idle_round ctl name io now woken addr []
      ≡ ok (some (schedule_expired name (record io { timers = m }) cbs))
unfolding idle_round handle_events stopping_with
round_lem ctl name io now woken addr m cbs busy run = ground arith

-- A round of idle that does not stop, and in which epoll_wait reports nothing, queues the functions of
-- exactly the timers due when it woke, or of all timers if that time counts as a rollover of the clock, in the
-- order of the set, behind what the manager's own queue held; the invariant of the timers is kept.
pub idle_round-timers :
    {K : Type 0} (ctl : K → Op → (fd : ℕ) → Events → K × Bool) (name : Callback → ℕ)
    (io : IoManager K) (now woken addr : ℕ)
    → Inv io.timers
    → (stopping_with io now).2 ≡ false
    → (io' : IoManager K) × (idle_round ctl name io now woken addr [] ≡ ok (some io'))
      × ((io'.schedulers.scheduler io.self).fibers
          ≡ (io.schedulers.scheduler io.self).fibers
            ++ fn_tasks (names name (fired_callbacks io.timers woken)))
      × Inv io'.timers
idle_round-timers ctl name io now woken addr v busy =
    let m = (get_next_timer io.timers now).0 in
    let vm : Inv m = asked_timers io.timers now v in
    let (m', cbs, run, these, out, prev, v') = list_expired_correct m woken addr vm in
    let io' = schedule_expired name (record io { timers = m' }) cbs in
    (
      io',
      round_lem ctl name io now woken addr m' cbs busy run,
      schedule_expired_lem name (record io { timers = m' }) cbs
          ∙ ap (λ l. (io.schedulers.scheduler io.self).fibers ++ fn_tasks (names name l))
              (these ∙ asked_callbacks io.timers now woken),
      rw (schedule_expired-timers name (record io { timers = m' }) cbs) v',
    )
