-- ===== src/Hook/Io.antt =====
-- do_io of duan_src/hook.cc, which read, write and their kin are instances of.
use coroutine.Prelude.{
  Result, ok, ◌>>=◌, ℕ, zero, suc, Bool, true, false, ◌||◌, not, Option, none, some, ◌==◌,
  if◌then◌else◌,
}
use coroutine.IoManager.{
  IoManager, Event, read_event, write_event, Events, Op, timer_added, add_event, cancel_event,
}
use coroutine.Timer.{TimerManager, add_condition_timer, cancel}
use coroutine.Hook.{
  Outcome, failed, eintr, ebadf, eagain, etimedout, fails_with, TimeoutOption, rcvtimeo, sndtimeo,
  no_timeout, FdMgr, World, Caller,
}

-- What the locals of one call hold: `to`, the address of `tinfo`, and the number of the function that
-- its timers call.
pub record Call : Type 0 where
  pub fd : ℕ
  pub event : Event
  pub to : ℕ
  pub tinfo : ℕ
  pub closure : ℕ

-- Where a call is: about to call the function, waiting in yield() with its timer, at its end, or at the
-- end where addEvent failed, which returns -1 and leaves errno as it is.
pub data Phase : Type 0 where
  trying : Phase
  parked : (timer : Option ℕ) → Phase
  finished : Outcome → Phase
  not_added : Phase

-- timer->cancel(), if there is a timer.
unfoldable pub cancel_timer : TimerManager → Option ℕ → Result TimerManager
cancel_timer m none = ok m
cancel_timer m (some timer) = do cancelled ← cancel m timer; ok cancelled.0

-- The timer of a wait, at the address `addr`, where there is a timeout. `wrote` is for tickle().
unfoldable pub start_timer :
    {K : Type 0}
    → IoManager K
    → Call
    → (addr now : ℕ) → (wrote : Bool) → Result (IoManager K × Option ℕ)
unfolding timer_added
start_timer io call addr now wrote =
    if not (call.to == no_timeout)
    then (do
      io' ←
          timer_added io
            (add_condition_timer io.timers addr call.to call.closure call.tinfo false now) wrote
      ok (io', some addr))
    else ok (io, none)

-- The loop on EINTR; `none` when the fuel does not suffice.
unfoldable pub call_through :
    {S : Type 0} (fun : S → S × Outcome) (fuel : ℕ) → S → Option (S × Outcome)
call_through fun zero s = none
call_through fun (suc fuel) s =
    let r = fun s in
    let rest = call_through fun fuel r.0 in if fails_with eintr r.1 then rest else some r

-- Behind yield().
unfoldable pub resume_io :
    {K M S : Type 0}
    → World K M S
    → (cancelled : ℕ) → (timer : Option ℕ) → Result (World K M S × Phase)
unfolding cancel_timer
resume_io w cancelled timer = do
  timers ← cancel_timer w.io.timers timer
  ok (
    record w { io = record w.io { timers = timers } },
    if cancelled == 0 then trying else finished (failed cancelled),
  )

module _ {K M S : Type 0} (ctl : K → Op → (fd : ℕ) → Events → K × Bool) where
  -- Behind addEvent, up to yield() or the return.
  unfoldable pub after_add :
      World K M S → (timer : Option ℕ) → IoManager K × Bool → Result (World K M S × Phase)
  unfolding cancel_timer
  after_add w timer (io, true) = ok (record w { io = io }, parked timer)
  after_add w timer (io, false) = do
    timers ← cancel_timer io.timers timer
    ok (record w { io = record io { timers = timers } }, not_added)

  -- addEvent for the calling fiber
  unfoldable pub add_wait :
      World K M S → Call → Caller → IoManager K × Option ℕ → Result (World K M S × Phase)
  unfolding after_add
  add_wait w call me (io, timer) =
      add_event ctl io call.fd call.event none me.scheduler me.fiber me.exec >>= after_add w timer

  -- From the test of EAGAIN on, up to yield() or a return.
  unfoldable pub park :
      World K M S
      → Call
      → Caller
      → (addr now : ℕ) → (wrote : Bool) → Outcome
      → Result (World K M S × Phase)
  unfolding start_timer add_wait
  park w call me addr now wrote n =
      if fails_with eagain n
      then start_timer w.io call addr now wrote >>= add_wait w call me
      else ok (w, finished n)

  -- From `retry` on.
  unfoldable pub attempt :
      (fun : S → S × Outcome) (fuel : ℕ)
      → World K M S
      → Call
      → Caller
      → (addr now : ℕ) → (wrote : Bool) → Option (Result (World K M S × Phase))
  unfolding call_through park
  attempt fun fuel w call me addr now wrote = elim (call_through fun fuel w.os) [
    | none ↦ none
    | some (s, n) ↦ some (park (record w { os = s }) call me addr now wrote n)
  ]

  -- The function of the timer. `alive` tells whether the weak pointer still has its tinfo.
  unfoldable pub on_timeout :
      World K M S → Call → (alive : Bool) → (cancelled : ℕ) → Result (World K M S × ℕ)
  on_timeout w call alive cancelled =
      if not alive || not (cancelled == 0) then ok (w, cancelled) else (do
        done ← cancel_event ctl w.io call.fd call.event
        ok (record w { io = done.0 }, etimedout))

  -- do_io up to its first yield(). `none` is a lack of fuel.
  unfoldable pub do_io :
      (mgr : FdMgr M) (fun : S → S × Outcome) (fuel : ℕ)
      → World K M S
      → (fd : ℕ) → Event
      → (timeout_so : TimeoutOption) → Caller
      → (tinfo closure addr now : ℕ) → (wrote : Bool) → Option (Result (World K M S × Phase))
  unfolding attempt
  do_io mgr fun fuel w fd event timeout_so me tinfo closure addr now wrote =
      let direct = (let r = fun w.os in some (ok (record w { os = r.0 }, finished r.1))) in
      if not w.hook_enable
      then direct
      else (let found = mgr.get w.fds fd false in
          let w' = record w { fds = found.0 } in
          elim found.1 [
            | none ↦ let r = fun w'.os in some (ok (record w' { os = r.0 }, finished r.1))
            | some ctx ↦
                if mgr.is_close found.0 ctx
                then some (ok (w', finished (failed ebadf)))
                else if not (mgr.is_socket found.0 ctx) || mgr.get_user_nonblock found.0 ctx
                then (let r = fun w'.os in some (ok (record w' { os = r.0 }, finished r.1)))
                else attempt fun fuel w'
                    (record {
                      fd = fd;
                      event = event;
                      to = mgr.get_timeout found.0 ctx timeout_so;
                      tinfo = tinfo;
                      closure = closure;
                    })
                    me addr now wrote
          ])

-- The functions that are do_io and nothing else, and accept.
pub data IoFunction : Type 0 where
  accept_fn read_fn readv_fn recv_fn recvfrom_fn recvmsg_fn : IoFunction
  write_fn writev_fn send_fn sendto_fn sendmsg_fn : IoFunction

-- The event that each waits for, and the option whose timeout it has.
abbrev pub waits_for : IoFunction → Event × TimeoutOption
waits_for write_fn = (write_event, sndtimeo)
waits_for writev_fn = (write_event, sndtimeo)
waits_for send_fn = (write_event, sndtimeo)
waits_for sendto_fn = (write_event, sndtimeo)
waits_for sendmsg_fn = (write_event, sndtimeo)
waits_for _ = (read_event, rcvtimeo)

-- read, write and their kin, up to the first yield().
unfoldable pub hooked :
    {K M S : Type 0}
    → (ctl : K → Op → (fd : ℕ) → Events → K × Bool) (mgr : FdMgr M)
      (origin : IoFunction → S → S × Outcome)
    → (f : IoFunction) (fuel : ℕ) → World K M S
    → (fd : ℕ) → Caller
    → (tinfo closure addr now : ℕ) → (wrote : Bool) → Option (Result (World K M S × Phase))
unfolding do_io
hooked ctl mgr origin f fuel w fd me tinfo closure addr now wrote =
    do_io ctl mgr (origin f) fuel w fd (waits_for f).0 (waits_for f).1 me tinfo closure addr now
      wrote
