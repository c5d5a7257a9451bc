-- ===== src/IoManager/Register.antt =====
-- IOManager::addEvent of duan_src/iomanager.cc, alone and before a cancelEvent.
use coroutine.Prelude.{
  ok, ◌>>=◌, inc, ℕ, ◌<◌, ◌≡◌, ◌≢◌, refl, sym, ap, ◌∙◌, Bool, true, false, ◌||◌, Option, none, some,
  arith, if◌then◌else◌, is_some, length, get_elem?, set,
}
use coroutine.IoManager.{
  Event, none_event, read_event, write_event, Events, has, with_event, without_event, any_event,
  EventContext, FdContext, get_context, put_context, Op, ctl_add, ctl_mod, ctl_del, IoManager, post,
  cancel_event, register, add_event,
}
use mathlib.Core.Path.{subst}
use coroutine.IoManager.Invariant.{
  IsConsistent, IsGood, is_waiting, is_clean, registered_events, waiter, waiting_task,
  put_context_lem,
}
use coroutine.IoManager.Slots.{
  AllFrom-get_elem?, AllFrom-set, sum-set, get_elem?-set_self, get_elem?-set_ne, length-set,
}
use coroutine.IoManager.Growth.{grown, slot_at, grown_lem}
use coroutine.IoManager.Cancel.{take_away, cancel_event_correct}

-- What addEvent stores to wait for the event.
abbrev pub arrival : (cb : Option ℕ) (a fiber : ℕ) → EventContext
arrival cb a fiber = record {
  scheduler = some a;
  fiber = if is_some cb then none else some fiber;
  cb = cb;
}

pub register_lem :
    {K : Type 0} (io : IoManager K) (fd : ℕ) (c : FdContext) (e : Event) (cb : Option ℕ)
    (a fiber : ℕ) (fiber_exec : Bool)
    → get_context c e ≡ ok (waiter c e)
    → is_clean (waiter c e) ≡ true
    → (is_some cb || fiber_exec) ≡ true
    → register io fd c e cb (some a) fiber fiber_exec
      ≡ ok (
        record io {
          pending = inc io.pending;
          contexts =
              set io.contexts fd
                (record (put_context c e (arrival cb a fiber)) { events = with_event c.events e });
        },
        true,
      )
unfolding register
register_lem io fd c e cb a fiber fiber_exec old clean runnable = rw (old, clean, runnable) refl

pub has-with_event : (m : Events) (e : Event) → e ≢ none_event → has (with_event m e) e ≡ true
has-with_event m none_event ne = absurd (ne refl)
has-with_event m read_event ne = refl
has-with_event m write_event ne = refl

without-with_event :
    (m : Events) (e : Event) → has m e ≡ false → without_event (with_event m e) e ≡ m
without-with_event m none_event h = refl
without-with_event m read_event h = ground arith
without-with_event m write_event h = ground arith

unregistered-cancel :
    {K : Type 0} (ctl : K → Op → (fd : ℕ) → Events → K × Bool) (io : IoManager K) (fd : ℕ)
    (e : Event) (c : FdContext)
    → get_elem? io.contexts fd ≡ some c
    → has c.events e ≡ false
    → cancel_event ctl io fd e ≡ ok (io, false)
unfolding cancel_event
unregistered-cancel ctl io fd e c at h = ground arith

cancel_added :
    {K : Type 0} (ctl : K → Op → (fd : ℕ) → Events → K × Bool) (io : IoManager K)
    → IsConsistent io
    → (fd : ℕ) (e : Event) (c : FdContext) (m : Events) (x : EventContext) (a : ℕ)
    → get_elem? io.contexts fd ≡ some c
    → c.events ≡ with_event m e
    → waiter c e ≡ x
    → x.scheduler ≡ some a
    → e ≢ none_event
    → has m e ≡ false
    → (ctl io.kernel (if any_event m then ctl_mod else ctl_del) fd m).1 ≡ true
    → (io' : IoManager K) × (cancel_event ctl io fd e ≡ ok (io', true))
      × (io'.schedulers ≡ post io.schedulers a (waiting_task x))
      × (cancel_event ctl io' fd e ≡ ok (io', false))
      × IsConsistent io'
cancel_added ctl io h fd e c m x a at events who owner real fresh removed =
    let registered : has c.events e ≡ true = rw events (has-with_event m e real) in
    let back : without_event c.events e ≡ m = rw events (without-with_event m e fresh) in
    let taken : (take_away ctl io h fd c e).1 ≡ true =
      subst (λ k. (ctl io.kernel (if any_event k then ctl_mod else ctl_del) fd k).1 ≡ true)
        (sym back) removed in
    let (s, io2, c2, who2, run2, sched2, timers2, at2, left2, h2) =
      cancel_event_correct ctl io h fd c at e registered taken in
    let found : get_elem? io2.contexts fd ≡ some c2 =
      rw at2 (get_elem?-set_self io.contexts fd c2 at) in
    let gone : has c2.events e ≡ false = subst (λ k. has k e ≡ false) (sym (left2 ∙ back)) fresh in
    let mine : s ≡ a = ground arith in
    (
      io2,
      run2,
      sched2
          ∙ ap (λ y. post io.schedulers s (waiting_task y)) who
          ∙ ap (λ j. post io.schedulers j (waiting_task x)) mine,
      unregistered-cancel ctl io2 fd e c2 found gone,
      h2,
    )

module _ {K : Type 0} (ctl : K → Op → (fd : ℕ) → Events → K × Bool) (io : IoManager K)
    (h : IsConsistent io) (fd : ℕ) (e : Event) where
  abbrev pub asked_for : K × Bool
  asked_for =
      ctl io.kernel (if any_event (slot_at io.contexts fd).events then ctl_mod else ctl_add) fd
        (with_event (slot_at io.contexts fd).events e)

  arrived : (cb : Option ℕ) (a fiber : ℕ) → FdContext
  arrived cb a fiber = record (put_context (slot_at io.contexts fd) e (arrival cb a fiber)) {
    events = with_event (slot_at io.contexts fd).events e;
  }

  -- On a descriptor that does not yet wait for the event, in a thread with a scheduler, an
  -- accepted addEvent stores the function, or else the running fiber, as what waits; the timers
  -- and the contexts of other descriptors stay, the vector grows where it must, and the manager is consistent.
  pub add_event_correct :
      (cb : Option ℕ) (a fiber : ℕ) (fiber_exec : Bool)
      → e ≢ none_event
      → has (slot_at io.contexts fd).events e ≡ false
      → (is_some cb || fiber_exec) ≡ true
      → asked_for.1 ≡ true
      → (io' : IoManager K) × (c' : FdContext) × (add_event ctl io fd e cb (some a) fiber fiber_exec
          ≡ ok (io', true))
        × (get_elem? io'.contexts fd ≡ some c')
        × (c'.events ≡ with_event (slot_at io.contexts fd).events e)
        × (waiter c' e ≡ arrival cb a fiber)
        × (io'.schedulers ≡ io.schedulers)
        × (io'.timers ≡ io.timers)
        × (io'.kernel ≡ asked_for.0)
        × ((j : ℕ)
            → j < length io.contexts
            → fd ≢ j
            → get_elem? io'.contexts j ≡ get_elem? io.contexts j)
        × IsConsistent io'
  unfolding add_event inc
  add_event_correct cb a fiber fiber_exec real fresh runnable accepted =
      let g = grown_lem io h fd in
      let c = slot_at io.contexts fd in
      let slot : get_elem? (grown io.contexts fd) fd ≡ some c = g.slot in
      let good =
        AllFrom-get_elem? IsGood 0 fd fd (grown io.contexts fd) c (omega arith) slot g.good in
      let x = arrival cb a fiber in
      let waits : is_waiting x ≡ true = ground arith in
      let (good', who, more, old, clean) = put_context_lem fd c e x real fresh waits good in
      let c' : FdContext = record (put_context c e x) { events = with_event c.events e } in
      let io' = record io {
        contexts = set (grown io.contexts fd) fd c';
        kernel = asked_for.0;
        pending = inc io.pending;
      } in
      (
        io',
        c',
        rw (slot, fresh, accepted, add_event)
            (register_lem (record io { contexts = grown io.contexts fd; kernel = asked_for.0 }) fd c
              e cb a fiber fiber_exec old clean runnable),
        get_elem?-set_self (grown io.contexts fd) fd c' slot,
        refl,
        who,
        refl,
        refl,
        refl,
        (λ j inside other. get_elem?-set_ne (grown io.contexts fd) fd j c' other ∙ g.kept j inside),
        record {
          contexts_good =
              AllFrom-set IsGood 0 fd fd (grown io.contexts fd) c' (omega arith) good' g.good;
          pending_counts = omega (
            arith,
            h.pending_counts,
            sum-set registered_events (grown io.contexts fd) fd c c' slot,
            more,
            g.same_sum,
          );
          two_slots = omega (arith, h.two_slots, g.longer, length-set (grown io.contexts fd) fd c');
        },
      )

  -- The manager that an accepted addEvent leaves.
  abbrev pub added_io : (cb : Option ℕ) (a fiber : ℕ) → IoManager K
  added_io cb a fiber = record io {
    contexts =
        set (grown io.contexts fd) fd
          (record (put_context (slot_at io.contexts fd) e (arrival cb a fiber)) {
            events = with_event (slot_at io.contexts fd).events e;
          });
    kernel = asked_for.0;
    pending = inc io.pending;
  }

  pub add_event_result :
      (cb : Option ℕ) (a fiber : ℕ) (fiber_exec : Bool)
      → e ≢ none_event
      → has (slot_at io.contexts fd).events e ≡ false
      → (is_some cb || fiber_exec) ≡ true
      → asked_for.1 ≡ true
      → add_event ctl io fd e cb (some a) fiber fiber_exec ≡ ok (added_io cb a fiber, true)
  unfolding add_event inc
  add_event_result cb a fiber fiber_exec real fresh runnable accepted =
      let g = grown_lem io h fd in
      let c = slot_at io.contexts fd in
      let slot : get_elem? (grown io.contexts fd) fd ≡ some c = g.slot in
      let good =
        AllFrom-get_elem? IsGood 0 fd fd (grown io.contexts fd) c (omega arith) slot g.good in
      let waits : is_waiting (arrival cb a fiber) ≡ true = ground arith in
      let (good', who, more, old, clean) =
        put_context_lem fd c e (arrival cb a fiber) real fresh waits good in
      rw (slot, fresh, accepted, add_event)
        (register_lem (record io { contexts = grown io.contexts fd; kernel = asked_for.0 }) fd c e
          cb a fiber fiber_exec old clean runnable)

  -- Where epoll_ctl refuses the registration, addEvent returns -1 and registers nothing.
  pub add_event_refused :
      (cb : Option ℕ) (current : Option ℕ) (fiber : ℕ) (fiber_exec : Bool)
      → has (slot_at io.contexts fd).events e ≡ false
      → asked_for.1 ≡ false
      → add_event ctl io fd e cb current fiber fiber_exec
        ≡ ok (record io { contexts = grown io.contexts fd; kernel = asked_for.0 }, false)
  unfolding add_event
  add_event_refused cb current fiber fiber_exec fresh refused =
      let slot : get_elem? (grown io.contexts fd) fd ≡ some (slot_at io.contexts fd) =
        (grown_lem io h fd).slot in
      rw (slot, fresh, refused, add_event) refl

  -- What addEvent stored, an accepted cancelEvent hands to the scheduler of the thread that
  -- called addEvent, and to no other; a second cancelEvent then finds nothing.
  pub add-cancel :
      (cb : Option ℕ) (a fiber : ℕ) (fiber_exec : Bool)
      → e ≢ none_event
      → has (slot_at io.contexts fd).events e ≡ false
      → (is_some cb || fiber_exec) ≡ true
      → asked_for.1 ≡ true
      → (ctl asked_for.0
          (if any_event (slot_at io.contexts fd).events then ctl_mod else ctl_del)
          fd
          (slot_at io.contexts fd).events).1
        ≡ true
      → (io' : IoManager K) × ((do
        added ← add_event ctl io fd e cb (some a) fiber fiber_exec
        cancel_event ctl added.0 fd e)
          ≡ ok (io', true))
        × (io'.schedulers ≡ post io.schedulers a (waiting_task (arrival cb a fiber)))
        × (cancel_event ctl io' fd e ≡ ok (io', false))
        × IsConsistent io'
  add-cancel cb a fiber fiber_exec real fresh runnable accepted removed =
      let (io1, c1, run1, at1, events1, who1, sched1, timers1, kernel1, kept1, h1) =
        add_event_correct cb a fiber fiber_exec real fresh runnable accepted in
      let (io2, run2, sched2, again, h2) =
        cancel_added ctl io1 h1 fd e c1 (slot_at io.contexts fd).events (arrival cb a fiber) a at1
          events1 who1 refl real fresh
          (subst
            (λ k.
              (ctl k (if any_event (slot_at io.contexts fd).events then ctl_mod else ctl_del) fd
                (slot_at io.contexts fd).events).1
              ≡ true)
            (sym kernel1) removed) in
      (
        io2,
        rw run1 run2,
        sched2 ∙ ap (λ f. post f a (waiting_task (arrival cb a fiber))) sched1,
        again,
        h2,
      )
