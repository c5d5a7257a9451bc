-- ===== src/IoManager/Fire.antt =====
-- The events of one descriptor fired one after the other, as cancelAll and idle of
-- duan_src/iomanager.cc do.
use coroutine.Prelude.{
  ok, abort, dec, ℕ, ◌+◌, ◌-◌, ◌≤◌, ◌≡◌, refl, sym, Bool, true, false, none, some, arith, u64,
}
use coroutine.IoManager.{
  Schedulers, Event, read_event, write_event, Events, has, without_event, any_event, EventContext,
  post,
}
use coroutine.IoManager.Dispatch.{Firing, fire_if, minus}
use coroutine.IoManager.Invariant.{
  IsGood, registered_events, waiting_task, waiter, other, trigger_event_lem, unregistered_aborts,
}

-- The pending count of a firing: `q` events, those of its context among them.
pub record IsCounted (n q : ℕ) (f : Firing) : Type 0 where
  pub good : IsGood n f.context
  pub count : f.pending ≡ u64 q
  pub inside : registered_events f.context ≤ q

-- What waits for the event is handed to its scheduler, when the event is wanted.
abbrev pub hand_over : Bool → EventContext → Schedulers → Schedulers
hand_over false e schedulers = schedulers
hand_over true e schedulers = elim e.scheduler [
  | none ↦ schedulers
  | some s ↦ post schedulers s (waiting_task e)
]

hand_over_lem :
    (x : EventContext) (s : ℕ) (schedulers : Schedulers)
    → x.scheduler ≡ some s
    → post schedulers s (waiting_task x) ≡ hand_over true x schedulers
hand_over_lem x s schedulers e = rw e refl

abbrev pub drop_if : Bool → Event → Events → Events
drop_if false e m = m
drop_if true e m = without_event m e

pub fire_if_lem :
    (n q : ℕ) (f : Firing) (wanted : Bool) (e : Event)
    → (wanted ≡ true → has f.context.events e ≡ true)
    → IsCounted n q f
    → (g : Firing) × (q' : ℕ) × (fire_if wanted e f ≡ ok g)
      × (g.schedulers ≡ hand_over wanted (waiter f.context e) f.schedulers)
      × (g.context.events ≡ drop_if wanted e f.context.events)
      × IsCounted n q' g
      × (q' + registered_events f.context ≡ q + registered_events g.context)
      × (other g.context e ≡ other f.context e)
unfolding fire_if dec
fire_if_lem n q f false e h counted = (f, q, refl, refl, refl, counted, refl, refl)
fire_if_lem n q f true e h counted =
    let (s, c', es, fired, good, left, less, same) =
      trigger_event_lem f.schedulers n f.context e (h refl) counted.good in
    let inside : registered_events f.context ≤ q = counted.inside in
    let g : Firing = record {
      schedulers = post f.schedulers s (waiting_task (waiter f.context e));
      context = c';
      pending = dec f.pending;
    } in
    (
      g,
      q - 1,
      ground (arith, fired),
      hand_over_lem (waiter f.context e) s f.schedulers es,
      left,
      record {
        good = good;
        count = omega (arith, inside, less, counted.count);
        inside = omega (arith, inside, less);
      },
      omega (arith, inside, less),
      same,
    )

pub drop_read-write : (r : Bool) (m : Events) → (drop_if r read_event m).write ≡ m.write
drop_read-write true m = refl
drop_read-write false m = refl

-- Both events of a descriptor, READ first.
pub fire_both_lem :
    (n q : ℕ) (f : Firing) (r w : Bool)
    → (r ≡ true → f.context.events.read ≡ true)
    → (w ≡ true → f.context.events.write ≡ true)
    → IsCounted n q f
    → (f' g : Firing) × (q' : ℕ) × (fire_if r read_event f ≡ ok f')
      × (fire_if w write_event f' ≡ ok g)
      × (f'.context.events ≡ drop_if r read_event f.context.events)
      × (g.schedulers ≡ hand_over w f.context.write (hand_over r f.context.read f.schedulers))
      × (g.context.events ≡ drop_if w write_event (drop_if r read_event f.context.events))
      × IsCounted n q' g
      × (q' + registered_events f.context ≡ q + registered_events g.context)
fire_both_lem n q f r w hr hw counted =
    let (f', q1, run1, s1, e1, counted1, w1, o1) = fire_if_lem n q f r read_event hr counted in
    let (g, q2, run2, s2, e2, counted2, w2, o2) =
      fire_if_lem n q1 f' w write_event (λ t. rw (e1, drop_read-write r f.context.events) (hw t))
        counted1 in
    (
      f',
      g,
      q2,
      run1,
      run2,
      e1,
      rw (sym s1, sym o1) s2,
      rw (sym e1) e2,
      counted2,
      omega (arith, w1, w2),
    )

pub drop_if-minus :
    (m : Events) (r w : Bool)
    → drop_if w write_event (drop_if r read_event m) ≡ minus m (record { read = r; write = w })
drop_if-minus m false false = ground arith
drop_if-minus m false true = ground arith
drop_if-minus m true false = ground arith
drop_if-minus m true true = ground arith

pub minus_self : (m : Events) → any_event (minus m m) ≡ false
minus_self m = ground arith

pub fire_if-abort :
    (f : Firing) (e : Event) → has f.context.events e ≡ false → fire_if true e f ≡ abort
unfolding fire_if
fire_if-abort f e h = ground (arith, unregistered_aborts f.schedulers f.context e h)
