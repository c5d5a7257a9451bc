-- ===== src/IoManager/Invariant.antt =====
-- What holds of the contexts and of m_pendingEventCount of duan_src/iomanager.cc between two
-- operations.
use coroutine.Prelude.{
  ok, abort, dec, ℕ, ◌+◌, ◌-◌, ◌≤◌, ◌≡◌, ◌≢◌, inl, inr, refl, sym, Bool, true, false, ◌&&◌, ◌||◌,
  not, none, some, arith, u64, is_some, length, get_elem?, set, Bool-cases, Option-cases,
}
use coroutine.Scheduler.{Task}
use coroutine.IoManager.{
  Schedulers, Event, none_event, read_event, write_event, has, with_event, without_event,
  EventContext, FdContext, reset_context, get_context, put_context, IoManager, post, trigger_event,
}
use coroutine.IoManager.Slots.{
  AllFrom, AllFrom-get_elem?, AllFrom-set, sum, sum-set, weight-le-sum, length-set,
}

abbrev pub is_clean : EventContext → Bool
is_clean e = not (is_some e.scheduler) && not (is_some e.fiber) && not (is_some e.cb)

-- A scheduler, and either a fiber or a function.
abbrev pub is_waiting : EventContext → Bool
is_waiting e =
    is_some e.scheduler
    && (is_some e.fiber && not (is_some e.cb) || not (is_some e.fiber) && is_some e.cb)

abbrev pub fits : Bool → EventContext → Bool
fits false e = is_clean e
fits true e = is_waiting e

-- Slot `n` describes descriptor `n`, and a registered event has its waiter.
abbrev pub IsGood : ℕ → FdContext → Type 0
IsGood n c = (c.fd ≡ n) × (fits c.events.read c.read ≡ true) × (fits c.events.write c.write ≡ true)

abbrev pub bit : Bool → ℕ
bit false = 0
bit true = 1

-- The events registered in a context, counted.
abbrev pub registered_events : FdContext → ℕ
registered_events c = bit c.events.read + bit c.events.write

pub record IsConsistent {K : Type 0} (io : IoManager K) : Type 0 where
  pub contexts_good : AllFrom IsGood 0 io.contexts
  pub pending_counts : io.pending ≡ u64 (sum registered_events io.contexts)
  pub two_slots : 2 ≤ length io.contexts

-- The task that a context waits to hand over.
abbrev pub waiting_task : EventContext → Task
waiting_task e = record { fiber = e.fiber; cb = e.cb; thread = none }

-- Who waits for an event of the descriptor.
abbrev pub waiter : FdContext → Event → EventContext
waiter c none_event = reset_context
waiter c read_event = c.read
waiter c write_event = c.write

-- Who waits for the other event.
abbrev pub other : FdContext → Event → EventContext
other c none_event = reset_context
other c read_event = c.write
other c write_event = c.read

module _ (schedulers : Schedulers) (n : ℕ) (c : FdContext) where
  pub trigger_event_lem :
      (e : Event)
      → has c.events e ≡ true
      → IsGood n c
      → (s : ℕ) × (c' : FdContext) × ((waiter c e).scheduler ≡ some s)
        × (trigger_event schedulers c e ≡ ok (post schedulers s (waiting_task (waiter c e)), c'))
        × IsGood n c'
        × (c'.events ≡ without_event c.events e)
        × (registered_events c' + 1 ≡ registered_events c)
        × (other c' e ≡ other c e)
  unfolding trigger_event
  trigger_event_lem none_event h g = absurd (ground arith)
  trigger_event_lem read_event h g = elim (Option-cases c.read.scheduler) [
    | inl e ↦ absurd (ground arith)
    | inr (s, e) ↦ elim (Bool-cases (is_some c.read.cb)) [
      | inl b ↦ (
        s,
        record c {
          events = without_event c.events read_event;
          read = record c.read { cb = none; scheduler = none };
        },
        e,
        ground arith,
        (g.0, ground arith, g.2),
        refl,
        ground arith,
        refl,
      )
      | inr b ↦ (
        s,
        record c {
          events = without_event c.events read_event;
          read = record c.read { fiber = none; scheduler = none };
        },
        e,
        ground arith,
        (g.0, ground arith, g.2),
        refl,
        ground arith,
        refl,
      )
    ]
  ]
  trigger_event_lem write_event h g = elim (Option-cases c.write.scheduler) [
    | inl e ↦ absurd (ground arith)
    | inr (s, e) ↦ elim (Bool-cases (is_some c.write.cb)) [
      | inl b ↦ (
        s,
        record c {
          events = without_event c.events write_event;
          write = record c.write { cb = none; scheduler = none };
        },
        e,
        ground arith,
        (g.0, g.1, ground arith),
        refl,
        ground arith,
        refl,
      )
      | inr b ↦ (
        s,
        record c {
          events = without_event c.events write_event;
          write = record c.write { fiber = none; scheduler = none };
        },
        e,
        ground arith,
        (g.0, g.1, ground arith),
        refl,
        ground arith,
        refl,
      )
    ]
  ]

-- A waiter put into the place of an event that was not registered.
pub put_context_lem :
    (n : ℕ) (c : FdContext) (e : Event) (x : EventContext)
    → e ≢ none_event
    → has c.events e ≡ false
    → is_waiting x ≡ true
    → IsGood n c
    → IsGood n (record (put_context c e x) { events = with_event c.events e })
      × (waiter (record (put_context c e x) { events = with_event c.events e }) e ≡ x)
      × (registered_events (record (put_context c e x) { events = with_event c.events e })
          ≡ registered_events c + 1)
      × (get_context c e ≡ ok (waiter c e))
      × (is_clean (waiter c e) ≡ true)
put_context_lem n c none_event x ne h w g = absurd (ne refl)
put_context_lem n c read_event x ne h w g = ((g.0, w, g.2), refl, ground arith, refl, ground arith)
put_context_lem n c write_event x ne h w g = ((g.0, g.1, w), refl, ground arith, refl, ground arith)

pub unregistered_aborts :
    (schedulers : Schedulers) (c : FdContext) (e : Event)
    → has c.events e ≡ false
    → trigger_event schedulers c e ≡ abort
unfolding trigger_event
unregistered_aborts schedulers c e h = ground arith

-- A registered event and its waiter dropped.
abbrev pub dropped : FdContext → Event → FdContext
dropped c e = put_context (record c { events = without_event c.events e }) e reset_context

pub dropped_lem :
    (n : ℕ) (c : FdContext) (e : Event)
    → has c.events e ≡ true
    → IsGood n c
    → IsGood n (dropped c e)
      × ((dropped c e).events ≡ without_event c.events e)
      × (waiter (dropped c e) e ≡ reset_context)
      × (registered_events (dropped c e) + 1 ≡ registered_events c)
dropped_lem n c none_event h g = absurd (ground arith)
dropped_lem n c read_event h g = ((g.0, refl, g.2), refl, refl, ground arith)
dropped_lem n c write_event h g = ((g.0, g.1, refl), refl, refl, ground arith)

module _ {K : Type 0} (io : IoManager K) (h : IsConsistent io) (fd : ℕ) (c : FdContext)
    (at : get_elem? io.contexts fd ≡ some c) where
  pub slot-IsGood : IsGood fd c
  slot-IsGood = AllFrom-get_elem? IsGood 0 fd fd io.contexts c (omega arith) at h.contexts_good

  pub slot_bound : registered_events c ≤ sum registered_events io.contexts
  slot_bound = weight-le-sum registered_events io.contexts fd c at

  -- A slot changes, and the count with it.
  pub slot_changed :
      (io' : IoManager K) (c' : FdContext) (q : ℕ)
      → io'.contexts ≡ set io.contexts fd c'
      → IsGood fd c'
      → io'.pending ≡ u64 q
      → q + registered_events c ≡ sum registered_events io.contexts + registered_events c'
      → IsConsistent io'
  slot_changed io' c' q ec good ep w = record {
    contexts_good =
        rw ec (AllFrom-set IsGood 0 fd fd io.contexts c' (omega arith) good h.contexts_good);
    pending_counts =
        let same : q ≡ sum registered_events io'.contexts =
          rw ec (omega (arith, sum-set registered_events io.contexts fd c c' at)) in
        rw (sym same) ep;
    two_slots = rw (ec, length-set io.contexts fd c') h.two_slots;
  }

  -- One registration goes from a slot.
  pub one_fewer :
      (io' : IoManager K) (c' : FdContext)
      → io'.contexts ≡ set io.contexts fd c'
      → io'.pending ≡ dec io.pending
      → IsGood fd c'
      → registered_events c' + 1 ≡ registered_events c
      → IsConsistent io'
  unfolding dec
  one_fewer io' c' ec ep good w =
      let q = sum registered_events io.contexts - 1 in
      let some_left : 1 ≤ sum registered_events io.contexts = omega (arith, slot_bound, w) in
      slot_changed io' c' q ec good (omega (arith, ep, h.pending_counts, some_left))
        (omega (arith, w, some_left))
