-- ===== src/IoManager/Refines.antt =====
-- addEvent, delEvent and cancelEvent of duan_src/iomanager.cc as updates of the map of waiters.
use coroutine.Prelude.{
  Result, ok, ℕ, ◌≡◌, inl, inr, refl, sym, ap, ◌∙◌, Bool, true, false, ◌&&◌, Option, none, some,
  ◌==◌, arith, if◌then◌else◌, get_elem?, set, Bool-cases, Option-cases, dec, length,
}
use coroutine.IoManager.{
  Event, none_event, read_event, write_event, Events, has, EventContext, FdContext, Op, new_context,
  IoManager, post, add_event, del_event, cancel_event,
}
use coroutine.IoManager.Invariant.{
  IsConsistent, waiter, waiting_task, dropped, trigger_event_lem, slot-IsGood,
}
use coroutine.IoManager.Growth.{grown, slot_at, grown_lem}
use coroutine.IoManager.Cancel.{take_away}
use coroutine.IoManager.Register.{arrival, asked_for, add_event_refused, add_event_result, added_io}
use native.Mathlib.Decide.{dec_lt}
use coroutine.IoManager.Slots.{get_elem?_outside}
use coroutine.IoManager.Kept.{add_event_free, add_event_runs}
use coroutine.IoManager.Abstract.{
  Waiters, assign, same_event, slot_waiter, waiters_of, waiters_in, waiters_in-set,
  trigger_event-slot, dropped-slot, put_context-slot,
}

-- Maps that agree everywhere
abbrev pub Same : Waiters → Waiters → Type 0
Same m m' = (fd : ℕ) (e : Event) → m fd e ≡ m' fd e

-- What holds of the result of a call holds of what it is known to return.
the_result :
    {K : Type 0} {x : Result (IoManager K × Bool)} {io' : IoManager K} {b : Bool}
    (P : IoManager K → Bool → Type 0) (r : IoManager K × Bool)
    → x ≡ ok (io', b)
    → x ≡ ok r
    → P r.0 r.1
    → P io' b
the_result {io' = io'} {b = b} P r e e' p =
    let same : io' ≡ r.0 = ground arith in
    let same_b : b ≡ r.1 = ground arith in rw (same, same_b) p

new_slot : (j : ℕ) (y : Event) → slot_waiter (new_context j) y ≡ none
new_slot j none_event = refl
new_slot j read_event = refl
new_slot j write_event = refl

module _ {K : Type 0} (io : IoManager K) (fd : ℕ) (e : Event) where
  -- cancelEvent on a manager, by what it returns: with true, something waited, it goes to its scheduler
  -- and leaves the map; with false, nothing of it changes.
  abbrev pub Cancels : IoManager K → Bool → Type 0
  Cancels io' true =
      (x : EventContext) × (s : ℕ) × (waiters_of io fd e ≡ some x)
      × (x.scheduler ≡ some s)
      × (io'.schedulers ≡ post io.schedulers s (waiting_task x))
      × Same (waiters_of io') (assign (waiters_of io) fd e none)
  Cancels io' false = (io'.schedulers ≡ io.schedulers) × Same (waiters_of io') (waiters_of io)

  -- delEvent: the same without a scheduler.
  abbrev pub Deletes : IoManager K → Bool → Type 0
  Deletes io' true =
      ((x : EventContext) × (waiters_of io fd e ≡ some x))
      × (io'.schedulers ≡ io.schedulers)
      × Same (waiters_of io') (assign (waiters_of io) fd e none)
  Deletes io' false = (io'.schedulers ≡ io.schedulers) × Same (waiters_of io') (waiters_of io)

  -- addEvent: with true nothing waited, and then the function, or else the fiber, does.
  abbrev pub Adds : (cb : Option ℕ) (a fiber : ℕ) → IoManager K → Bool → Type 0
  Adds cb a fiber io' true =
      (waiters_of io fd e ≡ none)
      × (io'.schedulers ≡ io.schedulers)
      × Same (waiters_of io') (assign (waiters_of io) fd e (some (arrival cb a fiber)))
  Adds cb a fiber io' false =
      (io'.schedulers ≡ io.schedulers) × Same (waiters_of io') (waiters_of io)

module _ {K : Type 0} (ctl : K → Op → (fd : ℕ) → Events → K × Bool) (io : IoManager K)
    (h : IsConsistent io) (fd : ℕ) (e : Event) where
  pub cancel_event-Cancels :
      (io' : IoManager K) (b : Bool)
      → cancel_event ctl io fd e ≡ ok (io', b)
      → Cancels io fd e io' b
  unfolding cancel_event
  cancel_event-Cancels io' b run = elim (Option-cases (get_elem? io.contexts fd)) [
    | inl missing ↦ the_result (Cancels io fd e) (io, false) run (ground arith) (refl, λ j y. refl)
    | inr (c, at) ↦ elim (Bool-cases (has c.events e)) [
      | inr unregistered ↦
          the_result (Cancels io fd e) (io, false) run (ground arith) (refl, λ j y. refl)
      | inl registered ↦ elim (Bool-cases (take_away ctl io h fd c e).1) [
        | inr refused ↦
            the_result (Cancels io fd e)
              (record io { kernel = (take_away ctl io h fd c e).0 }, false) run (ground arith)
              (refl, λ j y. refl)
        | inl accepted ↦
            let (s, c', es, fired, good, left, less, same) =
              trigger_event_lem io.schedulers fd c e registered (slot-IsGood io h fd c at) in
            let sched = post io.schedulers s (waiting_task (waiter c e)) in
            let io2 = record io {
              kernel = (take_away ctl io h fd c e).0;
              schedulers = sched;
              pending = dec io.pending;
              contexts = set io.contexts fd c';
            } in
            the_result (Cancels io fd e) (io2, true) run
              (ground (arith, at, registered, accepted, fired))
              (
                waiter c e,
                s,
                ground (arith, at, registered),
                es,
                refl,
                waiters_in-set io.contexts fd c c' e none at
                    (trigger_event-slot io.schedulers c e (sched, c') fired),
              )
      ]
    ]
  ]

  pub del_event-Deletes :
      (io' : IoManager K) (b : Bool) → del_event ctl io fd e ≡ ok (io', b) → Deletes io fd e io' b
  unfolding del_event
  del_event-Deletes io' b run = elim (Option-cases (get_elem? io.contexts fd)) [
    | inl missing ↦ the_result (Deletes io fd e) (io, false) run (ground arith) (refl, λ j y. refl)
    | inr (c, at) ↦ elim (Bool-cases (has c.events e)) [
      | inr unregistered ↦
          the_result (Deletes io fd e) (io, false) run (ground arith) (refl, λ j y. refl)
      | inl registered ↦ elim (Bool-cases (take_away ctl io h fd c e).1) [
        | inr refused ↦
            the_result (Deletes io fd e)
              (record io { kernel = (take_away ctl io h fd c e).0 }, false) run (ground arith)
              (refl, λ j y. refl)
        | inl accepted ↦
            let io2 = record io {
              kernel = (take_away ctl io h fd c e).0;
              pending = dec io.pending;
              contexts = set io.contexts fd (dropped c e);
            } in
            the_result (Deletes io fd e) (io2, true) run (ground (arith, at, registered, accepted))
              (
                (waiter c e, ground (arith, at, registered)),
                refl,
                waiters_in-set io.contexts fd c (dropped c e) e none at (dropped-slot c e),
              )
      ]
    ]
  ]

  -- The vector grows by contexts that nothing waits in.
  grown-Same : Same (waiters_in (grown io.contexts fd)) (waiters_of io)
  grown-Same j y =
      let g = grown_lem io h fd in
      elim (dec_lt j (length io.contexts)) [
        | yes inside ↦ ap (λ o. elim o [ none ↦ none | some c ↦ slot_waiter c y ]) (g.kept j inside)
        | no beyond ↦
            let old : get_elem? io.contexts j ≡ none =
              get_elem?_outside io.contexts j (omega (arith, beyond)) in
            elim (g.fresh j (omega (arith, beyond))) [
              | inl absent ↦
                  ap (λ o. elim o [ none ↦ none | some c ↦ slot_waiter c y ]) (absent ∙ sym old)
              | inr new ↦
                  let look : Option FdContext → Option EventContext =
                    (λ o. elim o [ none ↦ none | some c ↦ slot_waiter c y ]) in
                  ap look new ∙ new_slot j y ∙ sym (ap look old)
            ]
      ]

  pub add_event-Adds :
      (cb : Option ℕ) (a fiber : ℕ) (exec : Bool) (io' : IoManager K) (b : Bool)
      → add_event ctl io fd e cb (some a) fiber exec ≡ ok (io', b)
      → Adds io fd e cb a fiber io' b
  add_event-Adds cb a fiber exec io' b run =
      let free = add_event_free ctl io h fd e cb (some a) fiber exec (io', b) run in
      let k = (asked_for ctl io h fd e).0 in
      elim (Bool-cases (asked_for ctl io h fd e).1) [
        | inr refused ↦
            the_result (Adds io fd e cb a fiber)
              (record io { contexts = grown io.contexts fd; kernel = k }, false) run
              (add_event_refused ctl io h fd e cb (some a) fiber exec free refused)
              (refl, grown-Same)
        | inl accepted ↦
            let (real, runnable) =
              add_event_runs ctl io h fd e cb (some a) fiber exec (io', b) run accepted in
            let slot = (grown_lem io h fd).slot in
            let c = slot_at io.contexts fd in
            let put = put_context-slot c e (arrival cb a fiber) real in
            let before : waiters_in (grown io.contexts fd) fd e ≡ none =
              ground (arith, slot, free) in
            the_result (Adds io fd e cb a fiber) (added_io ctl io h fd e cb a fiber, true) run
              (add_event_result ctl io h fd e cb a fiber exec real free runnable accepted)
              (
                sym (grown-Same fd e) ∙ before,
                refl,
                λ j y.
                    waiters_in-set (grown io.contexts fd) fd c _ e (some (arrival cb a fiber)) slot
                      put j y
                    ∙ ap (λ o. if j == fd && same_event y e then some (arrival cb a fiber) else o)
                        (grown-Same j y),
              )
      ]
