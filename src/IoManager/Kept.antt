-- ===== src/IoManager/Kept.antt =====
-- No operation of duan_src/iomanager.cc that returns leaves the contexts inconsistent, on any branch.
use coroutine.Prelude.{
  Result, ok, abort, ℕ, ◌≡◌, ◌≢◌, inl, inr, refl, sym, ◌∙◌, Bool, true, false, ◌||◌, Option, some,
  arith, if◌then◌else◌, is_some, get_elem?, Bool-cases, Option-cases,
}
use coroutine.IoManager.{
  Event, none_event, read_event, write_event, Events, has, any_event, no_events, FdContext, Op,
  ctl_mod, ctl_del, IoManager, register, add_event, del_event, cancel_event,
}
use coroutine.IoManager.Dispatch.{
  cancel_all, handle_event, descriptor, Ready, real_events, minus, common, firing,
}
use coroutine.IoManager.Invariant.{IsConsistent, registered_events, slot-IsGood}
use coroutine.IoManager.Slots.{sum}
use coroutine.IoManager.Growth.{grown, slot_at, grown_lem}
use coroutine.IoManager.Cancel.{take_away, cancel_event_correct, del_event_correct}
use coroutine.IoManager.Register.{asked_for, add_event_correct, add_event_refused}
use coroutine.IoManager.Fire.{fire_if_lem, fire_if-abort, drop_read-write}
use coroutine.IoManager.Handle.{firing-IsCounted, cancel_all_correct, handle_event_correct}

-- Two results of one call are one.
same_result :
    {K : Type 0} {x : Result (IoManager K × Bool)} {a : IoManager K} {b : Bool}
    (r : IoManager K × Bool)
    → x ≡ ok (a, b)
    → x ≡ ok r
    → IsConsistent r.0
    → IsConsistent a
same_result {a = a} r e e' h = let same : a ≡ r.0 = ground arith in rw same h

register_runs :
    {K : Type 0} (io : IoManager K) (fd : ℕ) (c : FdContext) (e : Event) (cb current : Option ℕ)
    (fiber : ℕ) (exec : Bool) (r : IoManager K × Bool)
    → register io fd c e cb current fiber exec ≡ ok r
    → (e ≢ none_event) × ((is_some cb || exec) ≡ true)
unfolding register
register_runs io fd c none_event cb current fiber exec r run = absurd (ground arith)
register_runs io fd c read_event cb current fiber exec r run =
    ((λ e. absurd (ground arith)), ground arith)
register_runs io fd c write_event cb current fiber exec r run =
    ((λ e. absurd (ground arith)), ground arith)

module _ {K : Type 0} (ctl : K → Op → (fd : ℕ) → Events → K × Bool) (io : IoManager K)
    (h : IsConsistent io) (fd : ℕ) where
  pub kernel-IsConsistent : (k : K) → IsConsistent (record io { kernel = k })
  kernel-IsConsistent k = record {
    contexts_good = h.contexts_good;
    pending_counts = h.pending_counts;
    two_slots = h.two_slots;
  }

  pub grown-IsConsistent :
      (k : K) → IsConsistent (record io { contexts = grown io.contexts fd; kernel = k })
  grown-IsConsistent k =
      let g = grown_lem io h fd in
      record {
        contexts_good = g.good;
        pending_counts = rw g.same_sum h.pending_counts;
        two_slots = omega (arith, h.two_slots, g.longer);
      }

  pub cancel_event-IsConsistent :
      (e : Event) (io' : IoManager K) (b : Bool)
      → cancel_event ctl io fd e ≡ ok (io', b)
      → IsConsistent io'
  unfolding cancel_event
  cancel_event-IsConsistent e io' b run = elim (Option-cases (get_elem? io.contexts fd)) [
    | inl missing ↦ same_result (io, false) run (ground arith) h
    | inr (c, at) ↦ elim (Bool-cases (has c.events e)) [
      | inr unregistered ↦ same_result (io, false) run (ground arith) h
      | inl registered ↦ elim (Bool-cases (take_away ctl io h fd c e).1) [
        | inr refused ↦
            let k = (take_away ctl io h fd c e).0 in
            same_result (record io { kernel = k }, false) run (ground arith) (kernel-IsConsistent k)
        | inl accepted ↦
            let (s, io2, c2, owner, run2, sched, timers, at2, left, good) =
              cancel_event_correct ctl io h fd c at e registered accepted in
            same_result (io2, true) run run2 good
      ]
    ]
  ]

  pub del_event-IsConsistent :
      (e : Event) (io' : IoManager K) (b : Bool)
      → del_event ctl io fd e ≡ ok (io', b)
      → IsConsistent io'
  unfolding del_event
  del_event-IsConsistent e io' b run = elim (Option-cases (get_elem? io.contexts fd)) [
    | inl missing ↦ same_result (io, false) run (ground arith) h
    | inr (c, at) ↦ elim (Bool-cases (has c.events e)) [
      | inr unregistered ↦ same_result (io, false) run (ground arith) h
      | inl registered ↦ elim (Bool-cases (take_away ctl io h fd c e).1) [
        | inr refused ↦
            let k = (take_away ctl io h fd c e).0 in
            same_result (record io { kernel = k }, false) run (ground arith) (kernel-IsConsistent k)
        | inl accepted ↦
            let (io2, c2, run2, sched, at2, left, idle, good) =
              del_event_correct ctl io h fd c at e registered accepted in
            same_result (io2, true) run run2 good
      ]
    ]
  ]

  pub cancel_all-IsConsistent :
      (io' : IoManager K) (b : Bool) → cancel_all ctl io fd ≡ ok (io', b) → IsConsistent io'
  unfolding cancel_all
  cancel_all-IsConsistent io' b run = elim (Option-cases (get_elem? io.contexts fd)) [
    | inl missing ↦ same_result (io, false) run (ground arith) h
    | inr (c, at) ↦ elim (Bool-cases (any_event c.events)) [
      | inr unregistered ↦ same_result (io, false) run (ground arith) h
      | inl registered ↦ elim (Bool-cases (ctl io.kernel ctl_del fd no_events).1) [
        | inr refused ↦
            let k = (ctl io.kernel ctl_del fd no_events).0 in
            same_result (record io { kernel = k }, false) run (ground arith) (kernel-IsConsistent k)
        | inl accepted ↦
            let (io2, c2, run2, sched, at2, left, good) =
              cancel_all_correct ctl io h fd c at registered accepted in
            same_result (io2, true) run run2 good
      ]
    ]
  ]

  -- addEvent that returns was on a descriptor free of the event.
  pub add_event_free :
      (e : Event) (cb : Option ℕ) (current : Option ℕ) (fiber : ℕ) (exec : Bool)
      (r : IoManager K × Bool)
      → add_event ctl io fd e cb current fiber exec ≡ ok r
      → has (slot_at io.contexts fd).events e ≡ false
  unfolding add_event
  add_event_free e cb current fiber exec r run =
      let slot : get_elem? (grown io.contexts fd) fd ≡ some (slot_at io.contexts fd) =
        (grown_lem io h fd).slot in
      elim (Bool-cases (has (slot_at io.contexts fd).events e)) [
        | inr free ↦ free
        | inl taken ↦
            let stops : add_event ctl io fd e cb current fiber exec ≡ abort =
              rw (slot, taken, add_event) refl in
            absurd (ground arith)
      ]

  -- With the registration accepted, it was for READ or WRITE and had something to wait for it.
  pub add_event_runs :
      (e : Event) (cb : Option ℕ) (current : Option ℕ) (fiber : ℕ) (exec : Bool)
      (r : IoManager K × Bool)
      → add_event ctl io fd e cb current fiber exec ≡ ok r
      → (asked_for ctl io h fd e).1 ≡ true
      → (e ≢ none_event) × ((is_some cb || exec) ≡ true)
  unfolding add_event
  add_event_runs e cb current fiber exec r run accepted =
      let slot : get_elem? (grown io.contexts fd) fd ≡ some (slot_at io.contexts fd) =
        (grown_lem io h fd).slot in
      let free = add_event_free e cb current fiber exec r run in
      let c = slot_at io.contexts fd in
      let io1 = record io {
        contexts = grown io.contexts fd;
        kernel = (asked_for ctl io h fd e).0;
      } in
      let same : add_event ctl io fd e cb current fiber exec
          ≡ register io1 fd c e cb current fiber exec =
        rw (slot, free, accepted, add_event) refl in
      register_runs io1 fd c e cb current fiber exec r (sym same ∙ run)

  pub add_event-IsConsistent :
      (e : Event) (cb : Option ℕ) (a fiber : ℕ) (exec : Bool) (io' : IoManager K) (b : Bool)
      → add_event ctl io fd e cb (some a) fiber exec ≡ ok (io', b)
      → IsConsistent io'
  add_event-IsConsistent e cb a fiber exec io' b run =
      let fresh = add_event_free e cb (some a) fiber exec (io', b) run in
      elim (Bool-cases (asked_for ctl io h fd e).1) [
        | inr refused ↦
            let k = (asked_for ctl io h fd e).0 in
            same_result (record io { contexts = grown io.contexts fd; kernel = k }, false) run
              (add_event_refused ctl io h fd e cb (some a) fiber exec fresh refused)
              (grown-IsConsistent k)
        | inl accepted ↦
            let (real, runnable) = add_event_runs e cb (some a) fiber exec (io', b) run accepted in
            let (io2, c2, run2, at2, events, who, sched, timers, kernel, kept, good) =
              add_event_correct ctl io h fd e cb a fiber exec real fresh runnable accepted in
            same_result (io2, true) run run2 good
      ]

  module _ (c : FdContext) (at : get_elem? io.contexts fd ≡ some c) (r : Ready) where
    abbrev settled : K × Bool
    settled =
        ctl io.kernel (if any_event (minus c.events (real_events r)) then ctl_mod else ctl_del) fd
          (minus c.events (real_events r))

    -- Where epoll_wait reports more than the registered events, the handling does not return.
    handle_event_runs :
        (io' : IoManager K)
        → any_event (common c.events (real_events r)) ≡ true
        → settled.1 ≡ true
        → handle_event ctl io (descriptor fd) r ≡ ok io'
        → ((real_events r).read ≡ true → c.events.read ≡ true)
          × ((real_events r).write ≡ true → c.events.write ≡ true)
    unfolding handle_event
    handle_event_runs io' reported accepted run =
        let same : c.fd ≡ fd = (slot-IsGood io h fd c at).0 in
        let real = real_events r in
        let read : real.read ≡ true → c.events.read ≡ true = (λ wanted.
          elim (Bool-cases c.events.read) [
            | inl registered ↦ registered
            | inr idle ↦
                let stop = fire_if-abort (firing io c) read_event idle in
                absurd (ground (arith, at, same, wanted, reported, accepted, stop, run))
          ]) in
        (
          read,
          λ wanted. elim (Bool-cases c.events.write) [
            | inl registered ↦ registered
            | inr idle ↦
                let (f, q, first, s, left, counted, less, kept) =
                  fire_if_lem fd (sum registered_events io.contexts) (firing io c) real.read
                    read_event read (firing-IsCounted ctl io h fd c at) in
                let stop =
                  fire_if-abort f write_event
                    (rw (left, drop_read-write real.read c.events) idle) in
                absurd (ground (arith, at, same, wanted, reported, accepted, first, stop, run))
          ],
        )

  pub handle_event-IsConsistent :
      (r : Ready) (io' : IoManager K)
      → handle_event ctl io (descriptor fd) r ≡ ok io'
      → IsConsistent io'
  unfolding handle_event
  handle_event-IsConsistent r io' run = elim (Option-cases (get_elem? io.contexts fd)) [
    | inl missing ↦ absurd (ground arith)
    | inr (c, at) ↦ elim (Bool-cases (any_event (common c.events (real_events r)))) [
      | inr nothing ↦ let same : io' ≡ io = ground arith in rw same h
      | inl reported ↦ elim (Bool-cases (settled c at r).1) [
        | inr refused ↦
            let own : c.fd ≡ fd = (slot-IsGood io h fd c at).0 in
            let same : io' ≡ record io { kernel = (settled c at r).0 } = ground (arith, own) in
            rw same (kernel-IsConsistent (settled c at r).0)
        | inl accepted ↦
            let (read, write) = handle_event_runs c at r io' reported accepted run in
            let (io2, c2, run2, sched, contexts, left, good) =
              handle_event_correct ctl io h fd c at r read write (ground (arith, reported))
                accepted in
            let same : io' ≡ io2 = ground arith in rw same good
      ]
    ]
  ]
