-- ===== src/IoManager/Handle.antt =====
-- IOManager::cancelAll and the handling of one event in IOManager::idle, duan_src/iomanager.cc.
use coroutine.Prelude.{
  ok, abort, ℕ, ◌≡◌, inl, inr, refl, ◌∙◌, Bool, true, false, ◌||◌, some, arith, if◌then◌else◌,
  get_elem?, set, Bool-cases,
}
use coroutine.IoManager.{
  read_event, write_event, Events, no_events, any_event, FdContext, Op, ctl_mod, ctl_del, IoManager,
}
use coroutine.IoManager.Dispatch.{
  firing, settle, cancel_all, handle_event, descriptor, Ready, real_events, minus,
}
use coroutine.IoManager.Invariant.{
  IsConsistent, registered_events, slot-IsGood, slot_bound, slot_changed,
}
use coroutine.IoManager.Slots.{sum}
use coroutine.IoManager.Fire.{
  IsCounted, hand_over, fire_both_lem, drop_if-minus, minus_self, fire_if_lem, fire_if-abort,
}

module _ {K : Type 0} (ctl : K → Op → (fd : ℕ) → Events → K × Bool) (io : IoManager K)
    (h : IsConsistent io) (fd : ℕ) (c : FdContext) (at : get_elem? io.contexts fd ≡ some c) where
  pub firing-IsCounted : IsCounted fd (sum registered_events io.contexts) (firing io c)
  firing-IsCounted = record {
    good = slot-IsGood io h fd c at;
    count = h.pending_counts;
    inside = slot_bound io h fd c at;
  }

  -- On a descriptor with a registration, accepted by the kernel, cancelAll hands every waiter of the descriptor to its scheduler, READ first, and leaves
  -- nothing registered.
  pub cancel_all_correct :
      any_event c.events ≡ true
      → (ctl io.kernel ctl_del fd no_events).1 ≡ true
      → (io' : IoManager K) × (c' : FdContext) × (cancel_all ctl io fd ≡ ok (io', true))
        × (io'.schedulers
            ≡ hand_over c.events.write c.write (hand_over c.events.read c.read io.schedulers))
        × (io'.contexts ≡ set io.contexts fd c')
        × (any_event c'.events ≡ false)
        × IsConsistent io'
  unfolding cancel_all
  cancel_all_correct registered accepted =
      let (f, g, q, run_read, run_write, left_read, handed, left, counted, less) =
        fire_both_lem fd (sum registered_events io.contexts) (firing io c) c.events.read
          c.events.write (λ t. t) (λ t. t) firing-IsCounted in
      let io' = settle io fd (ctl io.kernel ctl_del fd no_events).0 g in
      let empty : any_event g.context.events ≡ false =
        rw (left, drop_if-minus c.events c.events.read c.events.write) (minus_self c.events) in
      (
        io',
        g.context,
        ground (arith, at, registered, accepted, run_read, run_write, left_read, empty),
        handed,
        refl,
        empty,
        slot_changed io h fd c at io' g.context q refl counted.good counted.count less,
      )

  -- When epoll_wait reports of a descriptor only what it is registered for, and the kernel accepts
  -- the rest, every waiter of a reported event is handed to its scheduler once, READ first, just
  -- the reported events are taken from the descriptor, and the manager stays consistent.
  pub handle_event_correct :
      (r : Ready)
      → ((real_events r).read ≡ true → c.events.read ≡ true)
      → ((real_events r).write ≡ true → c.events.write ≡ true)
      → any_event (real_events r) ≡ true
      → (ctl io.kernel
          (if any_event (minus c.events (real_events r)) then ctl_mod else ctl_del)
          fd
          (minus c.events (real_events r))).1
        ≡ true
      → (io' : IoManager K) × (c' : FdContext) × (handle_event ctl io (descriptor fd) r ≡ ok io')
        × (io'.schedulers
            ≡ hand_over
                (real_events r).write
                c.write
                (hand_over (real_events r).read c.read io.schedulers))
        × (io'.contexts ≡ set io.contexts fd c')
        × (c'.events ≡ minus c.events (real_events r))
        × IsConsistent io'
  unfolding handle_event
  handle_event_correct r read write reported accepted =
      let real = real_events r in
      let (f, g, q, run_read, run_write, left_read, handed, left, counted, less) =
        fire_both_lem fd (sum registered_events io.contexts) (firing io c) real.read real.write read
          write firing-IsCounted in
      let io' =
        settle io fd
          (ctl io.kernel (if any_event (minus c.events real) then ctl_mod else ctl_del) fd
            (minus c.events real)).0
          g in
      let same : c.fd ≡ fd = (slot-IsGood io h fd c at).0 in
      (
        io',
        g.context,
        ground (arith, at, same, read, write, reported, accepted, run_read, run_write),
        handed,
        refl,
        left ∙ drop_if-minus c.events real.read real.write,
        slot_changed io h fd c at io' g.context q refl counted.good counted.count less,
      )

  -- An error or a hangup counts as both events, registered or not. On a descriptor that is
  -- registered for one of them, where the kernel accepts the rest, the loop aborts.
  pub hangup_aborts :
      (r : Ready)
      → (r.error || r.hangup) ≡ true
      → registered_events c ≡ 1
      → (ctl io.kernel
          (if any_event (minus c.events (real_events r)) then ctl_mod else ctl_del)
          fd
          (minus c.events (real_events r))).1
        ≡ true
      → handle_event ctl io (descriptor fd) r ≡ abort
  unfolding handle_event
  hangup_aborts r both one accepted =
      let read : (real_events r).read ≡ true = ground arith in
      let write : (real_events r).write ≡ true = ground arith in
      let same : c.fd ≡ fd = (slot-IsGood io h fd c at).0 in
      elim (Bool-cases c.events.read) [
        | inr idle ↦
            let stop = fire_if-abort (firing io c) read_event idle in
            ground (arith, at, same, read, write, accepted, stop)
        | inl registered ↦
            let (f, q, run, s, left, counted, less, kept) =
              fire_if_lem fd (sum registered_events io.contexts) (firing io c) true read_event
                (λ t. registered) firing-IsCounted in
            let stop = fire_if-abort f write_event (ground (arith, left)) in
            ground (arith, at, same, read, write, accepted, run, stop)
      ]
