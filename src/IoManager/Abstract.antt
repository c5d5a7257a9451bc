-- ===== src/IoManager/Abstract.antt =====
-- What an IOManager promises about events: a map from descriptors and events to what waits for them.
use coroutine.Prelude.{
  ok, ℕ, ◌≡◌, ◌≢◌, refl, sym, Bool, true, false, ◌&&◌, List, Option, none, some, ◌==◌, arith,
  if◌then◌else◌, get_elem?, set, ==_true, eq_of_==, Bool-cases, inl, inr,
}
use coroutine.IoManager.{
  Schedulers, Event, none_event, read_event, write_event, has, with_event, EventContext, FdContext,
  put_context, IoManager, trigger_event,
}
use coroutine.IoManager.Invariant.{waiter, dropped}
use coroutine.IoManager.Slots.{get_elem?-set_self, get_elem?-set_ne}

abbrev pub same_event : Event → Event → Bool
same_event none_event none_event = true
same_event read_event read_event = true
same_event write_event write_event = true
same_event _ _ = false

-- What waits for each event of each descriptor.
abbrev pub Waiters : Type 0
Waiters = (fd : ℕ) → Event → Option EventContext

-- `m` with another entry at one place
abbrev pub assign : Waiters → (fd : ℕ) → Event → Option EventContext → Waiters
assign m fd e x j y = if j == fd && same_event y e then x else m j y

abbrev pub slot_waiter : FdContext → Event → Option EventContext
slot_waiter c e = if has c.events e then some (waiter c e) else none

abbrev pub waiters_in : List FdContext → Waiters
waiters_in contexts fd e = elim (get_elem? contexts fd) [ none ↦ none | some c ↦ slot_waiter c e ]

-- The map of an IOManager
abbrev pub waiters_of : {K : Type 0} → IoManager K → Waiters
waiters_of io = waiters_in io.contexts

pub waiters_in-set :
    (contexts : List FdContext) (fd : ℕ) (c c' : FdContext) (e : Event) (x : Option EventContext)
    → get_elem? contexts fd ≡ some c
    → ((y : Event) → slot_waiter c' y ≡ (if same_event y e then x else slot_waiter c y))
    → (j : ℕ) (y : Event)
    → waiters_in (set contexts fd c') j y ≡ assign (waiters_in contexts) fd e x j y
waiters_in-set contexts fd c c' e x at changed j y = elim (Bool-cases (j == fd)) [
  | inl here ↦
      let same : j ≡ fd = eq_of_== j fd here in
      rw same
        (ground (arith, ==_true fd fd refl, at, get_elem?-set_self contexts fd c' at, changed y))
  | inr there ↦
      let apart : fd ≢ j = (λ eq. ground (arith, ==_true j fd (sym eq))) in
      ground (arith, there, get_elem?-set_ne contexts fd j c' apart)
]

pub trigger_event-slot :
    (schedulers : Schedulers) (c : FdContext) (e : Event) (r : Schedulers × FdContext)
    → trigger_event schedulers c e ≡ ok r
    → (y : Event) → slot_waiter r.1 y ≡ (if same_event y e then none else slot_waiter c y)
unfolding trigger_event
trigger_event-slot schedulers c none_event r run y = absurd (ground arith)
trigger_event-slot schedulers c read_event r run none_event = ground arith
trigger_event-slot schedulers c read_event r run read_event = ground arith
trigger_event-slot schedulers c read_event r run write_event = ground arith
trigger_event-slot schedulers c write_event r run none_event = ground arith
trigger_event-slot schedulers c write_event r run read_event = ground arith
trigger_event-slot schedulers c write_event r run write_event = ground arith

pub dropped-slot :
    (c : FdContext) (e y : Event)
    → slot_waiter (dropped c e) y ≡ (if same_event y e then none else slot_waiter c y)
dropped-slot c none_event y = ground arith
dropped-slot c read_event y = ground arith
dropped-slot c write_event y = ground arith

pub put_context-slot :
    (c : FdContext) (e : Event) (x : EventContext)
    → e ≢ none_event
    → (y : Event)
    → slot_waiter (record (put_context c e x) { events = with_event c.events e }) y
      ≡ (if same_event y e then some x else slot_waiter c y)
put_context-slot c none_event x real y = absurd (real refl)
put_context-slot c read_event x real y = ground arith
put_context-slot c write_event x real y = ground arith
