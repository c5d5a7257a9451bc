-- ===== src/Timer/Cancel.antt =====
-- Timer::cancel and Timer::refresh of duan_src/timer.cc, on a manager that keeps its invariant.
use coroutine.Prelude.{
  ok, ℕ, ◌+◌, ◌≡◌, ◌≢◌, ◌∙◌, ap, sym, refl, inl, inr, true, false, some, none, arith, u64, is_some,
  update, elem, erase, Bool-cases,
}
use coroutine.Timer.{TimerManager, Timer, cancel, refresh, find}
use coroutine.Timer.Set.{
  IsSorted-Agree, Agree-update_next, erase-IsSorted, elem-erase, elem-insert, find_lem, IsSorted,
}
use coroutine.Timer.Invariant.{Inv, find_registered, not-elem-erase}

-- The heap in which `self` has lost its function.
abbrev pub forget : TimerManager → ℕ → ℕ → Timer
forget m self = update m.heap self (record (m.heap self) { cb = none })

abbrev without : TimerManager → ℕ → TimerManager
without m self = record m { heap = forget m self; timers = erase self m.timers }

forget-IsSorted : (m : TimerManager) (self : ℕ) → Inv m → IsSorted (forget m self) m.timers
forget-IsSorted m self v =
    IsSorted-Agree m.heap (forget m self) m.timers
      (Agree-update_next m.heap self (record (m.heap self) { cb = none }) m.timers refl) v.sorted

without-Inv : (m : TimerManager) (self : ℕ) → Inv m → Inv (without m self)
without-Inv m self v = record {
  sorted = erase-IsSorted (forget m self) self m.timers (forget-IsSorted m self v);
  registered = λ b h. ground (arith, v.registered b, elem-erase m.heap self b m.timers v.sorted);
}

find_forgotten :
    (m : TimerManager) (self : ℕ)
    → Inv m
    → is_some (m.heap self).cb ≡ true
    → find (forget m self) self m.timers ≡ some self
find_forgotten m self v live =
    rw (find_lem (forget m self) self m.timers (forget-IsSorted m self v), v.registered self live)

cancel_live :
    (m : TimerManager) (self : ℕ)
    → Inv m
    → is_some (m.heap self).cb ≡ true
    → cancel m self ≡ ok (without m self, true)
unfolding cancel
cancel_live m self v live = rw (live, find_forgotten m self v live, cancel)

-- Every other timer is as it was, inside the set or outside it.
pub record Others (m m' : TimerManager) (self : ℕ) : Type 0 where
  pub same_timer : (b : ℕ) → b ≢ self → m'.heap b ≡ m.heap b
  pub same_place : (b : ℕ) → b ≢ self → elem b m'.timers ≡ elem b m.timers

-- Under the invariant cancel never erases the end iterator. It returns true exactly when the timer
-- could still fire, leaves it without a function, keeps the invariant and touches no other timer;
-- a timer that could fire is no longer in the set, and a second cancel returns false.
pub cancel_correct :
    (m : TimerManager) (self : ℕ)
    → Inv m
    → (m' : TimerManager) × (cancel m self ≡ ok (m', is_some (m.heap self).cb))
      × Inv m'
      × (is_some (m'.heap self).cb ≡ false)
      × (is_some (m.heap self).cb ≡ true → elem self m'.timers ≡ false)
      × Others m m' self
      × (cancel m' self ≡ ok (m', false))
unfolding cancel
cancel_correct m self v = elim (Bool-cases (is_some (m.heap self).cb)) [
  | inl live ↦ (
    without m self,
    cancel_live m self v live ∙ ap (λ b. ok (without m self, b)) (sym live),
    without-Inv m self v,
    ground arith,
    λ _. not-elem-erase m self v,
    record {
      same_timer = λ b h. ground arith;
      same_place = λ b h. ground (arith, elem-erase m.heap self b m.timers v.sorted);
    },
    ground arith,
  )
  | inr dead ↦ (
    m,
    rw dead,
    v,
    dead,
    λ live. ground arith,
    record { same_timer = λ b h. refl; same_place = λ b h. refl },
    rw dead,
  )
]

abbrev later : TimerManager → (self now : ℕ) → ℕ → Timer
later m self now = update m.heap self (record (m.heap self) { next = u64 (now + (m.heap self).ms) })

-- A timer that can still fire is due its whole period after a refresh, is still in the set, and
-- no other timer changes; one that cannot fire is left alone and the refresh returns false.
pub refresh_correct :
    (m : TimerManager) (self now : ℕ)
    → Inv m
    → ((refresh m self now).1 ≡ is_some (m.heap self).cb)
      × (is_some (m.heap self).cb ≡ false → (refresh m self now).0 ≡ m)
      × (is_some (m.heap self).cb ≡ true
          → ((refresh m self now).0.heap self
              ≡ record (m.heap self) { next = u64 (now + (m.heap self).ms) })
            × (elem self (refresh m self now).0.timers ≡ true)
            × Others m (refresh m self now).0 self)
unfolding refresh
refresh_correct m self now v = elim (Bool-cases (is_some (m.heap self).cb)) [
  | inl live ↦
      rw (live, find_registered m self v live, refresh)
        (
          refl,
          λ dead. ground arith,
          λ _. (
            ground arith,
            ground (arith, elem-insert (later m self now) self self (erase self m.timers)),
            record {
              same_timer = λ b h. ground arith;
              same_place = λ b h. ground (
                arith,
                elem-insert (later m self now) self b (erase self m.timers),
                elem-erase m.heap self b m.timers v.sorted,
              );
            },
          ),
        )
  | inr dead ↦ rw dead (refl, λ _. refl, λ live. ground arith)
]
