-- ===== src/Timer/Expired.antt =====
-- TimerManager::listExpiredCb of duan_src/timer.cc as a whole.
use coroutine.Prelude.{
  ℕ, ◌≡◌, ◌∙◌, refl, inl, inr, Bool, true, false, ◌&&◌, ◌||◌, not, List, [], ◌∷◌, arith,
  if◌then◌else◌, All, keep_if, elem, Bool-cases,
}
use coroutine.Timer.{Timer, TimerManager, requeue}
use coroutine.Timer.Set.{Above, IsSorted}
use coroutine.Timer.Invariant.{Inv}
use coroutine.Timer.Expiry.{due, not_due}
use coroutine.Timer.Requeue.{
  fired, Distinct, Apart, Distinct-of_IsSorted, requeue_heap, elem-requeue, requeue-IsSorted,
  requeue_previous,
}

module _ (p : ℕ → Bool) where
  pub elem-keep_if : (b : ℕ) (xs : List ℕ) → elem b (keep_if p xs) ≡ (p b && elem b xs)
  elem-keep_if b [] = ground arith
  elem-keep_if b (x ∷ xs) = ground (arith, elem-keep_if b xs)

  keep_if-Above :
      (heap : ℕ → Timer) (a : ℕ) (xs : List ℕ) → Above heap a xs → Above heap a (keep_if p xs)
  keep_if-Above heap a [] h = tt
  keep_if-Above heap a (x ∷ xs) h = ground (arith, keep_if-Above heap a xs h.1)

  pub keep_if-IsSorted :
      (heap : ℕ → Timer) (xs : List ℕ) → IsSorted heap xs → IsSorted heap (keep_if p xs)
  keep_if-IsSorted heap [] s = tt
  keep_if-IsSorted heap (x ∷ xs) s =
      ground (arith, keep_if-IsSorted heap xs s.1, keep_if-Above heap x xs s.0)

keep_if-Apart :
    (heap : ℕ → Timer) (now : ℕ) (ys xs : List ℕ)
    → All (λ a. due heap now a ≡ true) xs
    → Apart (keep_if (not_due heap now) ys) xs
keep_if-Apart heap now ys [] h = tt
keep_if-Apart heap now ys (x ∷ xs) h =
    (ground (arith, elem-keep_if (not_due heap now) x ys, h.0), keep_if-Apart heap now ys xs h.1)

keep_if-All : (p : ℕ → Bool) (xs : List ℕ) → All (λ a. p a ≡ true) (keep_if p xs)
keep_if-All p [] = tt
keep_if-All p (x ∷ xs) = elim (Bool-cases (p x)) [
  | inl e ↦ rw (e, keep_if) (e, keep_if-All p xs)
  | inr e ↦ rw (e, keep_if) (keep_if-All p xs)
]

-- Has the timer at `a` expired in a call of listExpiredCb?
abbrev pub expires : TimerManager → Bool → ℕ → ℕ → Bool
expires m rollover now a = (rollover || due m.heap now a) && elem a m.timers

-- The set before the call, cut in what expires and what stays.
abbrev pub expired_part : TimerManager → Bool → ℕ → List ℕ
expired_part m rollover now = if rollover then m.timers else keep_if (due m.heap now) m.timers

abbrev pub staying_part : TimerManager → Bool → ℕ → List ℕ
staying_part m rollover now = if rollover then [] else keep_if (not_due m.heap now) m.timers

-- The manager whose set holds what stays, when the loop starts.
abbrev pub cut : TimerManager → Bool → ℕ → TimerManager
cut m rollover now = record m { timers = staying_part m rollover now; previous_time = now }

record Parts (m : TimerManager) (rollover : Bool) (now : ℕ) : Type 0 where
  distinct : Distinct (expired_part m rollover now)
  apart : Apart (staying_part m rollover now) (expired_part m rollover now)
  sorted : IsSorted m.heap (staying_part m rollover now)
  gone : (b : ℕ) → elem b (expired_part m rollover now) ≡ expires m rollover now b
  left :
      (b : ℕ)
      → elem b (staying_part m rollover now)
        ≡ (not rollover && not_due m.heap now b && elem b m.timers)

Apart-nil : (xs : List ℕ) → Apart [] xs
Apart-nil [] = tt
Apart-nil (x ∷ xs) = (refl, Apart-nil xs)

parts :
    (m : TimerManager) (rollover : Bool) (now : ℕ) → IsSorted m.heap m.timers → Parts m rollover now
parts m true now s = record {
  distinct = Distinct-of_IsSorted m.heap m.timers s;
  apart = Apart-nil m.timers;
  sorted = tt;
  gone = λ b. refl;
  left = λ b. refl;
}
parts m false now s = record {
  distinct = Distinct-of_IsSorted m.heap _ (keep_if-IsSorted (due m.heap now) m.heap m.timers s);
  apart = keep_if-Apart m.heap now m.timers _ (keep_if-All (due m.heap now) m.timers);
  sorted = keep_if-IsSorted (not_due m.heap now) m.heap m.timers s;
  gone = λ b. elem-keep_if (due m.heap now) b m.timers;
  left = λ b. elem-keep_if (not_due m.heap now) b m.timers ∙ ground arith;
}

-- What listExpiredCb leaves: each expired timer has fired once and is in the set again only if it
-- recurs; every other timer, and its place, is as it was.
pub record Outcome (m m' : TimerManager) (rollover : Bool) (now : ℕ) : Type 0 where
  pub heap_lem :
      (b : ℕ) → m'.heap b ≡ (if expires m rollover now b then fired now (m.heap b) else m.heap b)
  pub timers_lem :
      (b : ℕ)
      → elem b m'.timers
        ≡ (if expires m rollover now b then (m.heap b).recurring else elem b m.timers)
  pub tickled : m'.tickled ≡ m.tickled

pub done-Outcome :
    (m : TimerManager) (rollover : Bool) (now : ℕ)
    → IsSorted m.heap m.timers
    → Outcome m (requeue now (cut m rollover now) (expired_part m rollover now)).0 rollover now
done-Outcome m rollover now s = record {
  heap_lem = λ b. ground (arith, requeue_heap now cutm xs b p.distinct, p.gone b);
  timers_lem = λ b. ground (arith, elem-requeue now cutm xs b p.distinct, p.gone b, p.left b);
  tickled = (requeue_previous now cutm xs).1;
}
  where
    cutm : TimerManager
    cutm = cut m rollover now

    xs : List ℕ
    xs = expired_part m rollover now

    p : Parts m rollover now
    p = parts m rollover now s

pub done-Inv :
    (m : TimerManager) (rollover : Bool) (now : ℕ)
    → Inv m
    → Inv (requeue now (cut m rollover now) (expired_part m rollover now)).0
done-Inv m rollover now v = record {
  sorted =
      requeue-IsSorted now (cut m rollover now) (expired_part m rollover now) p.distinct p.apart
        p.sorted;
  registered = λ b h. ground (arith, v.registered b, e.heap_lem b, e.timers_lem b);
}
  where
    p : Parts m rollover now
    p = parts m rollover now v.sorted

    e : Outcome m (requeue now (cut m rollover now) (expired_part m rollover now)).0 rollover now
    e = done-Outcome m rollover now v.sorted
