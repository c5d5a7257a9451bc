-- ===== src/Hook/Connecting.antt =====
-- A connection that is in progress, duan_src/hook.cc.
use coroutine.Prelude.{
  ok, ℕ, ◌≡◌, ◌≢◌, ◌↔◌, refl, Bool, true, false, Option, some, ◌==◌, Bool-cases, inl, inr, arith,
  elem,
}
use coroutine.IoManager.{write_event, Events, has, Op}
use coroutine.IoManager.Invariant.{IsConsistent}
use coroutine.IoManager.Growth.{slot_at}
use coroutine.Timer.Invariant.{Inv}
use coroutine.Hook.{Outcome, returned, failed, einprogress, FdMgr, World, Caller}
use coroutine.Hook.Io.{Call, parked, finished}
use coroutine.Hook.Connect.{
  check_error, finish, after_add, add_wait, connect_with_timeout, resume_connect,
}
use coroutine.Hook.Parking.{
  timer_of, timers_of, timers_of-Inv, IsParked, answer, wait_registered, wait_refused,
}
use coroutine.Hook.Timeout.{cancel_timer_lem, IsOver}

module _ {K M S : Type 0} (ctl : K → Op → (fd : ℕ) → Events → K × Bool) (mgr : FdMgr M)
    (connect getsockopt : S → S × Outcome) (w : World K M S) (fd timeout_ms tinfo closure : ℕ) where
  abbrev pub connect_call : Call
  connect_call = record {
    fd = fd;
    event = write_event;
    to = timeout_ms;
    tinfo = tinfo;
    closure = closure;
  }

  abbrev pub found : M × Option ℕ
  found = mgr.get w.fds fd false

  -- The hook is on, the descriptor is an open socket that the user has not made nonblocking, and the
  -- system has started to connect it.
  pub record IsPending (ctx : ℕ) : Type 0 where
    pub enabled : w.hook_enable ≡ true
    pub known : found.1 ≡ some ctx
    pub opened : mgr.is_close found.0 ctx ≡ false
    pub socket : mgr.is_socket found.0 ctx ≡ true
    pub blocking : mgr.get_user_nonblock found.0 ctx ≡ false
    pub started : (connect w.os).1 ≡ failed einprogress

  module _ (ctx : ℕ) (p : IsPending ctx) (addr now : ℕ) (h : IsConsistent w.io)
      (free : has (slot_at w.io.contexts fd).events write_event ≡ false) where
    -- The fiber that connects waits until the socket can be written, or for the timeout.
    pub connect_parks :
        (a fiber : ℕ)
        → Inv w.io.timers
        → elem addr w.io.timers.timers ≡ false
        → answer ctl w.io connect_call addr now h ≡ true
        → (w' : World K M S) × (connect_with_timeout getsockopt ctl mgr connect w fd timeout_ms
              (record { scheduler = some a; fiber = fiber; exec = true })
              tinfo
              closure
              addr
              now
              true
            ≡ ok (w', parked (timer_of connect_call addr)))
          × IsParked w'.io connect_call a fiber
          × (w'.io.schedulers ≡ w.io.schedulers)
          × (w'.io.timers ≡ timers_of w.io connect_call addr now)
    unfolding connect_with_timeout add_wait after_add
    connect_parks a fiber v fresh accepted =
        let (io1, io2, started, run, there, sched, timers) =
          wait_registered ctl w.io connect_call addr now h a fiber v fresh
            (λ e. absurd (ground arith)) free accepted in
        (
          record w { io = io2; fds = found.0; os = (connect w.os).0 },
          simp (p.enabled, p.known, p.opened, p.socket, p.blocking, p.started, started, run),
          there,
          sched,
          timers,
        )

    -- Where epoll_ctl refuses the registration, the call does not wait: it reads SO_ERROR at once, which
    -- is 0 for a connection that is still in progress, and then returns 0, as for one that is made.
    pub connect_too_early :
        (me : Caller)
        → Inv w.io.timers
        → elem addr w.io.timers.timers ≡ false
        → answer ctl w.io connect_call addr now h ≡ false
        → (getsockopt (connect w.os).0).1 ≡ returned 0
        → (w' : World K M S) × (connect_with_timeout getsockopt ctl mgr connect w fd timeout_ms me
              tinfo closure addr now true
            ≡ ok (w', finished (returned 0)))
    unfolding connect_with_timeout add_wait after_add finish check_error
    connect_too_early me v fresh refused progress =
        let (io1, io2, started, run, timers) =
          wait_refused ctl w.io connect_call addr now h me.scheduler me.fiber me.exec free
            refused in
        let (m, cancelled, v', over) =
          cancel_timer_lem io2.timers (timer_of connect_call addr)
            (rw timers (timers_of-Inv w.io connect_call addr now fresh v)) in
        (
          (finish getsockopt (record w {
            io = record io2 { timers = m };
            fds = found.0;
            os = (connect w.os).0;
          })).0,
          simp (
            p.enabled, p.known, p.opened, p.socket, p.blocking, p.started, started, run, cancelled,
            progress,
          ),
        )

-- Behind the wait: a noted timeout is the result, whatever the socket says; without one the call
-- returns 0 exactly when SO_ERROR is read as 0, and otherwise fails with it, or with the error of
-- reading it. The timer is cancelled in each case.
pub resume_connect_correct :
    {K M S : Type 0} (getsockopt : S → S × Outcome) (w : World K M S) (cancelled : ℕ)
    (timer : Option ℕ)
    → Inv w.io.timers
    → (w' : World K M S) × (n : Outcome) × (resume_connect getsockopt w cancelled timer
        ≡ ok (w', finished n))
      × IsOver w'.io.timers timer
      × (cancelled ≢ 0 → n ≡ failed cancelled)
      × (cancelled ≡ 0 → (n ≡ returned 0) ↔ ((getsockopt w.os).1 ≡ returned 0))
      × (cancelled ≡ 0
          → (error : ℕ) → error ≢ 0
          → (getsockopt w.os).1 ≡ returned error
          → n ≡ failed error)
      × (cancelled ≡ 0 → (errno : ℕ) → (getsockopt w.os).1 ≡ failed errno → n ≡ failed errno)
unfolding resume_connect finish check_error
resume_connect_correct getsockopt w cancelled timer v =
    let (m, cancels, v', over) = cancel_timer_lem w.io.timers timer v in
    let w' = record w { io = record w.io { timers = m } } in
    elim (Bool-cases (cancelled == 0)) [
      | inl due ↦
          let end = check_error getsockopt w.os in
          (
            record w' { os = end.0 },
            end.1,
            rw (cancels, due) refl,
            over,
            (λ ne. absurd (ground arith)),
            (λ _. ((λ e. ground arith), (λ e. ground arith))),
            (λ _ error ne e. ground arith),
            (λ _ errno e. ground arith),
          )
      | inr late ↦ (
        w',
        failed cancelled,
        rw (cancels, late) refl,
        over,
        (λ ne. refl),
        (λ e. absurd (ground arith)),
        (λ e. absurd (ground arith)),
        (λ e. absurd (ground arith)),
      )
    ]
