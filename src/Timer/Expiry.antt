-- ===== src/Timer/Expiry.antt =====
-- TimerManager::listExpiredCb of duan_src/timer.cc: which timers have expired, and what becomes of
-- them.
use mathlib.Core.List.{append_assoc, append-nil}
use coroutine.Prelude.{
  ℕ, ◌≡◌, ◌≤◌, ◌<◌, refl, ap, ◌∙◌, inl, inr, Bool, true, false, List, [], ◌∷◌, ◌++◌, arith, ltb,
  leb, ◌==◌, if◌then◌else◌, All, keep_if, Bool-cases,
}
use coroutine.Timer.{Timer, TimerManager, less, lower_bound, skip_due, expired_split}
use coroutine.Timer.Set.{Above, IsSorted}

abbrev pub due : (ℕ → Timer) → ℕ → ℕ → Bool
due heap now a = leb (heap a).next now

abbrev pub not_due : (ℕ → Timer) → ℕ → ℕ → Bool
not_due heap now a = ltb now (heap a).next

module _ (heap : ℕ → Timer) (now addr : ℕ) where
  pub none_due :
      (x : ℕ) (xs : List ℕ)
      → now < (heap x).next
      → Above heap x xs
      → (keep_if (due heap now) xs ≡ []) × (keep_if (not_due heap now) xs ≡ xs)
  none_due x [] h k = (refl, refl)
  none_due x (y ∷ ys) h k = ground (arith, none_due x ys h k.1)

  skip_due_lem :
      (front xs : List ℕ)
      → IsSorted heap xs
      → All (λ x. now ≤ (heap x).next) xs
      → skip_due heap now (front, xs) xs
        ≡ (front ++ keep_if (due heap now) xs, keep_if (not_due heap now) xs)
  unfolding skip_due
  skip_due_lem front [] s h = rw (append-nil front)
  skip_due_lem front (x ∷ xs) s h = elim (Bool-cases ((heap x).next == now)) [
    | inl e ↦
        let is_due : due heap now x ≡ true = ground arith in
        let not_later : not_due heap now x ≡ false = ground arith in
        rw (e, is_due, not_later, skip_due, keep_if)
          (rw (append_assoc front (x ∷ []) (keep_if (due heap now) xs)) at
            (skip_due_lem (front ++ x ∷ []) xs s.1 h.1))
    | inr e ↦
        let is_later : not_due heap now x ≡ true = ground arith in
        let is_not_due : due heap now x ≡ false = ground arith in
        let none : (keep_if (due heap now) xs ≡ []) × (keep_if (not_due heap now) xs ≡ xs) =
          none_due x xs (ground arith) s.0 in
        rw (e, is_later, is_not_due, none.0, none.1, append-nil front)
  ]

  later_than :
      (x : ℕ) (xs : List ℕ)
      → now ≤ (heap x).next
      → Above heap x xs
      → All (λ x. now ≤ (heap x).next) xs
  later_than x [] h k = tt
  later_than x (y ∷ ys) h k = (ground arith, later_than x ys h k.1)

  split_lem :
      (front xs : List ℕ)
      → IsSorted heap xs
      → skip_due heap now
          (front ++ (lower_bound heap now addr xs).0, (lower_bound heap now addr xs).1)
          (lower_bound heap now addr xs).1
        ≡ (front ++ keep_if (due heap now) xs, keep_if (not_due heap now) xs)
  unfolding lower_bound
  split_lem front [] s =
      rw (append-nil front) (skip_due_lem front [] s tt ∙ ap (λ l. (l, [])) (append-nil front))
  split_lem front (x ∷ xs) s = elim (Bool-cases (less (heap x).next x now addr)) [
    | inl e ↦
        let is_due : due heap now x ≡ true = ground arith in
        let not_later : not_due heap now x ≡ false = ground arith in
        rw (e, is_due, not_later, keep_if)
          (rw
            (
              append_assoc front (x ∷ []) (keep_if (due heap now) xs),
              append_assoc front (x ∷ []) (lower_bound heap now addr xs).0,
            )
            at (split_lem (front ++ x ∷ []) xs s.1))
    | inr e ↦
        let later : now ≤ (heap x).next = ground arith in
        rw (e, append-nil front) (skip_due_lem front (x ∷ xs) s (later, later_than x xs later s.0))
  ]

-- Without a rollover the iterator stands behind exactly the timers due at or before `now`,
-- wherever the allocator put `now_timer`; with one, behind all.
pub expired_split_lem :
    (m : TimerManager) (rollover : Bool) (now addr : ℕ)
    → IsSorted m.heap m.timers
    → expired_split m rollover now addr ≡ (
        if rollover
        then (m.timers, [])
        else (keep_if (due m.heap now) m.timers, keep_if (not_due m.heap now) m.timers))
unfolding expired_split
expired_split_lem m true now addr s = refl
expired_split_lem m false now addr s = split_lem m.heap now addr [] m.timers s
