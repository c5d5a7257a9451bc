-- ===== src/IoManager/Cancel.antt =====
-- IOManager::cancelEvent, delEvent and cancelAll of duan_src/iomanager.cc.
use coroutine.Prelude.{
  ok, dec, ℕ, ◌≡◌, inl, inr, refl, Bool, true, false, none, some, arith, if◌then◌else◌, get_elem?,
  set, ◌⊎◌, Bool-cases,
}
use coroutine.IoManager.{
  Event, Events, has, without_event, any_event, FdContext, reset_context, Op, ctl_mod, ctl_del,
  IoManager, post, cancel_event, del_event,
}
use coroutine.IoManager.Invariant.{
  IsConsistent, waiting_task, waiter, dropped, dropped_lem, trigger_event_lem, slot-IsGood,
  one_fewer,
}

-- `io` with the answer of the kernel recorded
abbrev pub asked_io : {K : Type 0} → IoManager K → K → IoManager K
asked_io io k = record io { kernel = k }

module _ {K : Type 0} (ctl : K → Op → (fd : ℕ) → Events → K × Bool) (io : IoManager K)
    (h : IsConsistent io) (fd : ℕ) where
  -- The call of epoll_ctl that takes an event of a descriptor away.
  abbrev pub take_away : FdContext → Event → K × Bool
  take_away c e =
      ctl io.kernel (if any_event (without_event c.events e) then ctl_mod else ctl_del) fd
        (without_event c.events e)

  module _ (c : FdContext) (at : get_elem? io.contexts fd ≡ some c) (e : Event)
      (registered : has c.events e ≡ true) where
    -- An accepted cancellation of a registered event hands what waits for it to its scheduler
    -- once, takes the event from its context alone, leaves the timers, and keeps the manager consistent.
    pub cancel_event_correct :
        (take_away c e).1 ≡ true
        → (s : ℕ) × (io' : IoManager K) × (c' : FdContext) × ((waiter c e).scheduler ≡ some s)
          × (cancel_event ctl io fd e ≡ ok (io', true))
          × (io'.schedulers ≡ post io.schedulers s (waiting_task (waiter c e)))
          × (io'.timers ≡ io.timers)
          × (io'.contexts ≡ set io.contexts fd c')
          × (c'.events ≡ without_event c.events e)
          × IsConsistent io'
    unfolding cancel_event
    cancel_event_correct accepted =
        let (s, c', es, fired, good, left, less, same) =
          trigger_event_lem io.schedulers fd c e registered (slot-IsGood io h fd c at) in
        let io' = record io {
          kernel = (take_away c e).0;
          schedulers = post io.schedulers s (waiting_task (waiter c e));
          pending = dec io.pending;
          contexts = set io.contexts fd c';
        } in
        (
          s,
          io',
          c',
          es,
          ground (arith, at, registered, accepted, fired),
          refl,
          refl,
          refl,
          left,
          one_fewer io h fd c at io' c' refl refl good less,
        )

    -- An accepted delEvent of a registered event drops what waits for it, posts nothing, and keeps
    -- the manager consistent.
    pub del_event_correct :
        (take_away c e).1 ≡ true
        → (io' : IoManager K) × (c' : FdContext) × (del_event ctl io fd e ≡ ok (io', true))
          × (io'.schedulers ≡ io.schedulers)
          × (io'.contexts ≡ set io.contexts fd c')
          × (c'.events ≡ without_event c.events e)
          × (waiter c' e ≡ reset_context)
          × IsConsistent io'
    unfolding del_event
    del_event_correct accepted =
        let (good, left, idle, less) = dropped_lem fd c e registered (slot-IsGood io h fd c at) in
        let io' = record io {
          kernel = (take_away c e).0;
          pending = dec io.pending;
          contexts = set io.contexts fd (dropped c e);
        } in
        (
          io',
          dropped c e,
          ground (arith, at, registered, accepted),
          refl,
          refl,
          left,
          idle,
          one_fewer io h fd c at io' (dropped c e) refl refl good less,
        )

  module _ (e : Event) where
    -- No context for the descriptor, no registration, or a refusal of the kernel.
    unfoldable pub IsRefused : Type 0
    IsRefused =
        (get_elem? io.contexts fd ≡ none)
        ⊎ ((c : FdContext) × (get_elem? io.contexts fd ≡ some c)
            × ((has c.events e ≡ false) ⊎ ((take_away c e).1 ≡ false)))

    -- Without a context, without the registration, or refused by the kernel, cancelEvent and
    -- delEvent return false and leave all but the kernel's answer as it was.
    pub refused_lem :
        IsRefused
        → (k : K) × (cancel_event ctl io fd e ≡ ok (record io { kernel = k }, false))
          × (del_event ctl io fd e ≡ ok (record io { kernel = k }, false))
    unfolding IsRefused cancel_event del_event
    refused_lem (inl missing) = (io.kernel, ground arith, ground arith)
    refused_lem (inr (c, at, inl unregistered)) = (io.kernel, ground arith, ground arith)
    refused_lem (inr (c, at, inr refused)) = elim (Bool-cases (has c.events e)) [
      | inl registered ↦ ((take_away c e).0, ground arith, ground arith)
      | inr unregistered ↦ (io.kernel, ground arith, ground arith)
    ]
