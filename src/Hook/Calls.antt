-- ===== src/Hook/Calls.antt =====
-- read, write and their kin of duan_src/hook.cc, from the call to its wait.
use coroutine.Prelude.{ok, ℕ, ◌<◌, ◌≡◌, ◌≢◌, Bool, true, false, Option, some, arith, elem}
use coroutine.IoManager.{Events, none_event, has, Op}
use coroutine.IoManager.Invariant.{IsConsistent}
use coroutine.IoManager.Growth.{slot_at}
use coroutine.Timer.Invariant.{Inv}
use coroutine.Hook.{Outcome, failed, eagain, FdMgr, World}
use coroutine.Hook.Io.{Call, parked, IoFunction, waits_for, hooked, do_io, attempt}
use coroutine.Hook.Interrupts.{after, IsInterrupted, call_through_lem}
use coroutine.Hook.Parking.{answer, IsParked, timer_of, timers_of, park_correct}

waits-real : (g : IoFunction) → (waits_for g).0 ≢ none_event
waits-real g e = ground arith

module _ {K M S : Type 0} (mgr : FdMgr M) (f : IoFunction) (w : World K M S)
    (fd ctx tinfo closure : ℕ) where
  abbrev pub looked_up : M × Option ℕ
  looked_up = mgr.get w.fds fd false

  -- The hook is on, and the descriptor is an open socket that the user has not made nonblocking.
  pub record IsHooked : Type 0 where
    pub enabled : w.hook_enable ≡ true
    pub known : looked_up.1 ≡ some ctx
    pub opened : mgr.is_close looked_up.0 ctx ≡ false
    pub socket : mgr.is_socket looked_up.0 ctx ≡ true
    pub blocking : mgr.get_user_nonblock looked_up.0 ctx ≡ false

  -- The call as do_io makes it: the timeout is the one of the socket.
  abbrev pub hooked_call : Call
  hooked_call = record {
    fd = fd;
    event = (waits_for f).0;
    to = mgr.get_timeout looked_up.0 ctx (waits_for f).1;
    tinfo = tinfo;
    closure = closure;
  }

  -- A running fiber of a thread with a scheduler makes a hooked call: the hook is on, and the descriptor is
  -- an open socket that the user has not made nonblocking. The system is interrupted `k` times and then
  -- has nothing ready. Nobody waits for the event of the function on the descriptor yet, epoll_ctl
  -- accepts the registration, the timer is a new object, a write to the pipe succeeds, and the
  -- manager and its timers are consistent. Then the function is called `k + 1` times, the calling
  -- fiber is registered for the event of the function, with a timer of the socket's timeout unless that
  -- is -1, and the thread is free for others.
  pub hooked_parks :
      (ctl : K → Op → (fd : ℕ) → Events → K × Bool) (origin : IoFunction → S → S × Outcome)
      (addr now k fuel a fiber : ℕ) (h : IsConsistent w.io)
      → IsHooked
      → IsInterrupted (origin f) k w.os
      → k < fuel
      → (origin f (after (origin f) k w.os)).1 ≡ failed eagain
      → Inv w.io.timers
      → elem addr w.io.timers.timers ≡ false
      → has (slot_at w.io.contexts fd).events (waits_for f).0 ≡ false
      → answer ctl w.io hooked_call addr now h ≡ true
      → (w' : World K M S) × (hooked ctl mgr origin f fuel w fd
            (record { scheduler = some a; fiber = fiber; exec = true })
            tinfo
            closure
            addr
            now
            true
          ≡ some (ok (w', parked (timer_of hooked_call addr))))
        × IsParked w'.io hooked_call a fiber
        × (w'.io.timers ≡ timers_of w.io hooked_call addr now)
        × (w'.os ≡ (origin f (after (origin f) k w.os)).0)
  unfolding hooked do_io attempt
  hooked_parks ctl origin addr now k fuel a fiber h p interrupted enough empty v fresh free
        accepted =
      let (called, ended) = call_through_lem (origin f) k fuel w.os interrupted enough in
      let w1 = record w { fds = looked_up.0; os = (origin f (after (origin f) k w.os)).0 } in
      let (w', run, there, sched, timers, os) =
        park_correct ctl w1 hooked_call fiber a addr now h v fresh (waits-real f) free accepted in
      let attempted : attempt ctl (origin f) fuel (record w { fds = looked_up.0 }) hooked_call
            (record { scheduler = some a; fiber = fiber; exec = true }) addr now true
          ≡ some (ok (w', parked (timer_of hooked_call addr))) =
        simp (attempt, called, empty, run) in
      (
        w',
        ground (arith, p.enabled, p.known, p.opened, p.socket, p.blocking, attempted),
        there,
        timers,
        os,
      )
