-- ===== src/Timer/Invariant.antt =====
-- What the operations of duan_src/timer.cc keep true of a manager's timers.
use coroutine.Prelude.{
  ℕ, ◌≡◌, refl, inl, inr, Bool, true, false, ◌&&◌, not, List, Option, some, arith, ◌==◌, is_some,
  update, elem, erase, Bool-cases,
}
use coroutine.Timer.{
  Timer, Callback, TimerManager, insert, find, create, add_locked, add_timer, refresh, reset,
  get_next_timer, on_timer, new_timer, add_condition_timer,
}
use coroutine.Timer.Set.{
  IsSorted, insert-IsSorted, elem-insert, erase-IsSorted, elem-erase, find_lem, IsSorted-Agree,
  Agree-update,
}

-- The set is in order, and a timer that can still fire is in the set.
pub record Inv (m : TimerManager) : Type 0 where
  pub sorted : IsSorted m.heap m.timers
  pub registered : (a : ℕ) → is_some (m.heap a).cb ≡ true → elem a m.timers ≡ true

pub create-Inv : (now : ℕ) → Inv (create now)
unfolding create
create-Inv now = record { sorted = tt; registered = λ a h. ground arith }

-- Writing the timer at an address outside the set, and then inserting it.
pub rekey-IsSorted :
    (heap : ℕ → Timer) (a : ℕ) (t : Timer) (xs : List ℕ)
    → elem a xs ≡ false
    → IsSorted heap xs
    → IsSorted (update heap a t) (insert (update heap a t) a xs)
rekey-IsSorted heap a t xs h s =
    insert-IsSorted (update heap a t) a xs
      (IsSorted-Agree heap (update heap a t) xs (Agree-update heap a t xs h) s)

add_locked-Inv :
    (m : TimerManager) (addr : ℕ) (t : Timer)
    → elem addr m.timers ≡ false
    → Inv m
    → Inv (add_locked (record m { heap = update m.heap addr t }) addr).0
unfolding add_locked
add_locked-Inv m addr t fresh v = record {
  sorted = rekey-IsSorted m.heap addr t m.timers fresh v.sorted;
  registered =
      λ a h. ground (arith, v.registered a, elem-insert (update m.heap addr t) addr a m.timers);
}

pub add_timer-Inv :
    (m : TimerManager) (addr ms : ℕ) (cb : Option Callback) (recurring : Bool) (now : ℕ)
    → elem addr m.timers ≡ false
    → Inv m
    → Inv (add_timer m addr ms cb recurring now).0
unfolding add_timer
add_timer-Inv m addr ms cb recurring now fresh v = add_locked-Inv m addr _ fresh v

-- The timer at `a` out of the set and in again, with other times.
module _ (m : TimerManager) (a : ℕ) (v : Inv m) where
  pub not-elem-erase : elem a (erase a m.timers) ≡ false
  not-elem-erase = ground (arith, elem-erase m.heap a a m.timers v.sorted)

  pub moved-Inv :
      (t : Timer)
      → Inv (record m {
        heap = update m.heap a t;
        timers = insert (update m.heap a t) a (erase a m.timers);
      })
  moved-Inv t = record {
    sorted =
        rekey-IsSorted m.heap a t (erase a m.timers) not-elem-erase
          (erase-IsSorted m.heap a m.timers v.sorted);
    registered = λ b h. ground (
      arith,
      v.registered b,
      elem-insert (update m.heap a t) a b (erase a m.timers),
      elem-erase m.heap a b m.timers v.sorted,
    );
  }

  pub find_registered : is_some (m.heap a).cb ≡ true → find m.heap a m.timers ≡ some a
  find_registered h = rw (find_lem m.heap a m.timers v.sorted, v.registered a h)

-- Re-insertion under the manager's other fields.
Inv-fields :
    (m : TimerManager) (tickled : Bool) (previous : ℕ)
    → Inv m
    → Inv (record m { tickled = tickled; previous_time = previous })
Inv-fields m tickled previous v = record { sorted = v.sorted; registered = v.registered }

pub refresh-Inv : (m : TimerManager) (self now : ℕ) → Inv m → Inv (refresh m self now).0
unfolding refresh
refresh-Inv m self now v = elim (Bool-cases (is_some (m.heap self).cb)) [
  | inl live ↦ rw (live, find_registered m self v live, refresh) (moved-Inv m self v _)
  | inr dead ↦ rw dead v
]

pub reset-Inv :
    (m : TimerManager) (self ms : ℕ) (from_now : Bool) (now : ℕ)
    → Inv m
    → Inv (reset m self ms from_now now).manager
unfolding reset add_locked
reset-Inv m self ms from_now now v = elim (Bool-cases (ms == (m.heap self).ms && not from_now)) [
  | inl same ↦ rw same v
  | inr other ↦ elim (Bool-cases (is_some (m.heap self).cb)) [
    | inl live ↦
        rw (other, live, find_registered m self v live, reset)
          (Inv-fields _ _ _ (moved-Inv m self v _))
    | inr dead ↦ rw (other, dead) v
  ]
]

pub get_next_timer-Inv : (m : TimerManager) (now : ℕ) → Inv m → Inv (get_next_timer m now).0
unfolding get_next_timer
get_next_timer-Inv m now v = record {
  sorted = ground (arith, v.sorted);
  registered = λ a h. ground (arith, v.registered a);
}

-- What addTimer leaves: the new timer is in the set with its function and its due time, and every other
-- object is as it was.
pub add_timer_lem :
    (m : TimerManager) (addr ms : ℕ) (cb : Option Callback) (recurring : Bool) (now : ℕ)
    → elem addr m.timers ≡ false
    → Inv m
    → Inv (add_timer m addr ms cb recurring now).0
      × (elem addr (add_timer m addr ms cb recurring now).0.timers ≡ true)
      × ((add_timer m addr ms cb recurring now).0.heap
          ≡ update m.heap addr (new_timer ms cb recurring now))
unfolding add_timer add_locked
add_timer_lem m addr ms cb recurring now fresh v = (
  add_timer-Inv m addr ms cb recurring now fresh v,
  ground
      (arith, elem-insert (update m.heap addr (new_timer ms cb recurring now)) addr addr m.timers),
  refl,
)

pub add_condition_timer-Inv :
    (m : TimerManager) (addr ms cb weak_cond : ℕ) (recurring : Bool) (now : ℕ)
    → elem addr m.timers ≡ false
    → Inv m
    → Inv (add_condition_timer m addr ms cb weak_cond recurring now).0
unfolding add_condition_timer
add_condition_timer-Inv m addr ms cb weak_cond recurring now fresh v =
    add_timer-Inv m addr ms (some (on_timer weak_cond cb)) recurring now fresh v
