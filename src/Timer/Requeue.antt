-- ===== src/Timer/Requeue.antt =====
-- The loop of listExpiredCb in duan_src/timer.cc over the timers taken out of the set.
use coroutine.Prelude.{
  ℕ, ◌+◌, ◌≡◌, ◌∙◌, ap, refl, inl, inr, false, ◌&&◌, ◌||◌, List, [], ◌∷◌, map, Option, none, arith,
  ◌==◌, if◌then◌else◌, u64, update, All, elem, Bool-cases,
}
use coroutine.Timer.{Timer, Callback, TimerManager, requeue_one, requeue}
use coroutine.Timer.Set.{IsSorted, elem-insert, IsSorted-Agree, Agree-update, not-elem_of_Above}
use coroutine.Timer.Invariant.{rekey-IsSorted}

-- What one firing at `now` makes of a timer.
abbrev pub fired : ℕ → Timer → Timer
fired now t = if t.recurring then record t { next = u64 (now + t.ms) } else record t { cb = none }

abbrev pub Distinct : List ℕ → Type 0
Distinct [] = Unit
Distinct (x ∷ xs) = (elem x xs ≡ false) × Distinct xs

-- No element of the second list stands in the first.
abbrev pub Apart : List ℕ → List ℕ → Type 0
Apart xs = All λ a. elem a xs ≡ false

pub Distinct-of_IsSorted : (heap : ℕ → Timer) (xs : List ℕ) → IsSorted heap xs → Distinct xs
Distinct-of_IsSorted heap [] s = tt
Distinct-of_IsSorted heap (x ∷ xs) s =
    (not-elem_of_Above heap x xs s.0, Distinct-of_IsSorted heap xs s.1)

abbrev again_at : ℕ → TimerManager → ℕ → Timer
again_at now m a = record (m.heap a) { next = u64 (now + (m.heap a).ms) }

over_IsSorted :
    (m : TimerManager) (a : ℕ)
    → elem a m.timers ≡ false
    → IsSorted m.heap m.timers
    → IsSorted (update m.heap a (record (m.heap a) { cb = none })) m.timers
over_IsSorted m a h s =
    let spent : Timer = record (m.heap a) { cb = none } in
    IsSorted-Agree m.heap (update m.heap a spent) m.timers (Agree-update m.heap a spent m.timers h)
      s

requeue_one_heap :
    (now : ℕ) (m : TimerManager) (a b : ℕ)
    → (requeue_one now m a).heap b ≡ (if a == b then fired now (m.heap a) else m.heap b)
unfolding requeue_one
requeue_one_heap now m a b = ground arith

elem-requeue_one :
    (now : ℕ) (m : TimerManager) (a b : ℕ)
    → elem b (requeue_one now m a).timers ≡ (((m.heap a).recurring && b == a) || elem b m.timers)
unfolding requeue_one
elem-requeue_one now m a b = elim (Bool-cases (m.heap a).recurring) [
  | inl again ↦ ground (arith, elem-insert (update m.heap a (again_at now m a)) a b m.timers)
  | inr once ↦ ground arith
]

requeue_one-IsSorted :
    (now : ℕ) (m : TimerManager) (a : ℕ)
    → elem a m.timers ≡ false
    → IsSorted m.heap m.timers
    → IsSorted (requeue_one now m a).heap (requeue_one now m a).timers
unfolding requeue_one
requeue_one-IsSorted now m a h s = elim (Bool-cases (m.heap a).recurring) [
  | inl again ↦ ground (arith, rekey-IsSorted m.heap a (again_at now m a) m.timers h s)
  | inr once ↦ ground (arith, over_IsSorted m a h s)
]

requeue_one-Apart :
    (now : ℕ) (m : TimerManager) (a : ℕ) (xs : List ℕ)
    → elem a xs ≡ false
    → Apart m.timers xs
    → Apart (requeue_one now m a).timers xs
requeue_one-Apart now m a [] h k = tt
requeue_one-Apart now m a (x ∷ xs) h k = (
  ground (arith, elem-requeue_one now m a x, k.0),
  requeue_one-Apart now m a xs (ground arith) k.1,
)

-- Each timer taken out is fired once, and the others stay as they are.
pub requeue_heap :
    (now : ℕ) (m : TimerManager) (xs : List ℕ) (b : ℕ)
    → Distinct xs
    → (requeue now m xs).0.heap b ≡ (if elem b xs then fired now (m.heap b) else m.heap b)
unfolding requeue
requeue_heap now m [] b d = refl
requeue_heap now m (a ∷ xs) b d =
    ground (arith, requeue_heap now (requeue_one now m a) xs b d.1, requeue_one_heap now m a b)

-- The recurring ones are in the set again.
pub elem-requeue :
    (now : ℕ) (m : TimerManager) (xs : List ℕ) (b : ℕ)
    → Distinct xs
    → elem b (requeue now m xs).0.timers ≡ ((elem b xs && (m.heap b).recurring) || elem b m.timers)
unfolding requeue
elem-requeue now m [] b d = refl
elem-requeue now m (a ∷ xs) b d = ground (
  arith,
  elem-requeue now (requeue_one now m a) xs b d.1,
  elem-requeue_one now m a b,
  requeue_one_heap now m a b,
)

pub requeue-IsSorted :
    (now : ℕ) (m : TimerManager) (xs : List ℕ)
    → Distinct xs
    → Apart m.timers xs
    → IsSorted m.heap m.timers
    → IsSorted (requeue now m xs).0.heap (requeue now m xs).0.timers
unfolding requeue
requeue-IsSorted now m [] d k s = s
requeue-IsSorted now m (a ∷ xs) d k s =
    requeue-IsSorted now (requeue_one now m a) xs d.1 (requeue_one-Apart now m a xs d.0 k.1)
      (requeue_one-IsSorted now m a k.0 s)

abbrev pub callbacks : (ℕ → Timer) → List ℕ → List (Option Callback)
callbacks heap = map λ a. (heap a).cb

callbacks_one :
    (now : ℕ) (m : TimerManager) (a : ℕ) (xs : List ℕ)
    → elem a xs ≡ false
    → callbacks (requeue_one now m a).heap xs ≡ callbacks m.heap xs
callbacks_one now m a [] h = refl
callbacks_one now m a (x ∷ xs) h =
    ground (arith, requeue_one_heap now m a x, callbacks_one now m a xs)

-- The callbacks collected are those the timers held before the loop, in order.
pub requeue-callbacks :
    (now : ℕ) (m : TimerManager) (xs : List ℕ)
    → Distinct xs
    → (requeue now m xs).1 ≡ callbacks m.heap xs
unfolding requeue
requeue-callbacks now m [] d = refl
requeue-callbacks now m (a ∷ xs) d =
    ap (◌∷◌ (m.heap a).cb)
      (requeue-callbacks now (requeue_one now m a) xs d.1 ∙ callbacks_one now m a xs d.0)

pub requeue_previous :
    (now : ℕ) (m : TimerManager) (xs : List ℕ)
    → ((requeue now m xs).0.previous_time ≡ m.previous_time)
      × ((requeue now m xs).0.tickled ≡ m.tickled)
unfolding requeue requeue_one
requeue_previous now m [] = (refl, refl)
requeue_previous now m (a ∷ xs) = ground (arith, requeue_previous now (requeue_one now m a) xs)
