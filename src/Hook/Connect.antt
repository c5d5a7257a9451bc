-- ===== src/Hook/Connect.antt =====
-- connect_with_timeout of duan_src/hook.cc, which connect is an instance of.
use coroutine.Prelude.{
  Result, ok, ◌>>=◌, ℕ, Bool, true, false, ◌||◌, not, Option, none, some, ◌==◌, if◌then◌else◌,
}
use coroutine.IoManager.{IoManager, write_event, Events, Op, add_event}
use coroutine.Hook.{Outcome, returned, failed, ebadf, einprogress, fails_with, FdMgr, World, Caller}
use coroutine.Hook.Io.{Call, Phase, parked, finished, cancel_timer, start_timer}

-- Reading SO_ERROR: `getsockopt` returns the pending error, or fails.
unfoldable pub check_error : {S : Type 0} (getsockopt : S → S × Outcome) → S → S × Outcome
check_error getsockopt s =
    let r = getsockopt s in
    (
      r.0,
      elim r.1 [
        | failed errno ↦ failed errno
        | returned error ↦ if error == 0 then returned 0 else failed error
      ],
    )

module _ {K M S : Type 0} (getsockopt : S → S × Outcome) where
  -- The call's end, where it reads SO_ERROR.
  unfoldable pub finish : World K M S → World K M S × Phase
  unfolding check_error
  finish w = let r = check_error getsockopt w.os in (record w { os = r.0 }, finished r.1)

  -- Behind addEvent, up to yield() or the return.
  unfoldable pub after_add :
      World K M S → (timer : Option ℕ) → IoManager K × Bool → Result (World K M S × Phase)
  unfolding cancel_timer finish
  after_add w timer (io, true) = ok (record w { io = io }, parked timer)
  after_add w timer (io, false) = do
    timers ← cancel_timer io.timers timer
    ok (finish (record w { io = record io { timers = timers } }))

  -- addEvent for the calling fiber
  unfoldable pub add_wait :
      (ctl : K → Op → (fd : ℕ) → Events → K × Bool)
      → World K M S
      → Call
      → Caller
      → IoManager K × Option ℕ
      → Result (World K M S × Phase)
  unfolding after_add
  add_wait ctl w call me (io, timer) =
      add_event ctl io call.fd write_event none me.scheduler me.fiber me.exec >>= after_add w timer

  -- connect_with_timeout up to its yield(), or its end.
  unfoldable pub connect_with_timeout :
      (ctl : K → Op → (fd : ℕ) → Events → K × Bool) (mgr : FdMgr M) (connect : S → S × Outcome)
      → World K M S
      → (fd timeout_ms : ℕ) → Caller
      → (tinfo closure addr now : ℕ) → (wrote : Bool) → Result (World K M S × Phase)
  unfolding start_timer add_wait
  connect_with_timeout ctl mgr connect w fd timeout_ms me tinfo closure addr now wrote =
      if not w.hook_enable
      then (let r = connect w.os in ok (record w { os = r.0 }, finished r.1))
      else (let found = mgr.get w.fds fd false in
          let w' = record w { fds = found.0 } in
          elim found.1 [
            | none ↦ ok (w', finished (failed ebadf))
            | some ctx ↦
                if mgr.is_close found.0 ctx
                then ok (w', finished (failed ebadf))
                else (let r = connect w'.os in
                    let w2 = record w' { os = r.0 } in
                    let call : Call = record {
                      fd = fd;
                      event = write_event;
                      to = timeout_ms;
                      tinfo = tinfo;
                      closure = closure;
                    } in
                    if not (mgr.is_socket found.0 ctx)
                      || mgr.get_user_nonblock found.0 ctx
                      || not (fails_with einprogress r.1)
                    then ok (w2, finished r.1)
                    else start_timer w2.io call addr now wrote >>= add_wait ctl w2 call me)
          ])

  -- Behind yield().
  unfoldable pub resume_connect :
      World K M S → (cancelled : ℕ) → (timer : Option ℕ) → Result (World K M S × Phase)
  unfolding cancel_timer finish
  resume_connect w cancelled timer = do
    timers ← cancel_timer w.io.timers timer
    let w' = record w { io = record w.io { timers = timers } }
    ok (if cancelled == 0 then finish w' else (w', finished (failed cancelled)))
