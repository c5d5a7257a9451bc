-- ===== src/Scheduler/Scan.antt =====
-- The scan of the queue in Scheduler::run, duan_src/scheduler.cc.
use coroutine.Prelude.{
  ok, ℕ, ◌≡◌, refl, inl, inr, Bool, true, false, ◌||◌, List, [], ◌∷◌, ◌++◌, Option, none, some,
  arith, All, Bool-cases,
}
use coroutine.Fiber.{State}
use coroutine.Scheduler.{Task, Pick, pick, has_work, is_foreign, is_running}

abbrev pub FoundWork : Option Task → Type 0
FoundWork none = Unit
FoundWork (some t) = has_work t ≡ true

module _ (me : ℕ) (states : ℕ → State) where
  -- A task that the thread leaves in the queue: it is another thread's, or its fiber runs.
  abbrev pub is_blocked : Task → Bool
  is_blocked t = is_foreign me t || is_running states t

  abbrev pub some_foreign : List Task → Bool
  some_foreign [] = false
  some_foreign (t ∷ ts) = is_foreign me t || some_foreign ts

  -- What a scan of the queue comes to: the first task that is not blocked, with the queue's order
  -- kept in front of it and behind, or no task.
  abbrev pub Picks : (queue : List Task) → Option Task → (rest : List Task) → Bool → Type 0
  Picks queue none rest tickle =
      (rest ≡ queue) × All (λ t. is_blocked t ≡ true) queue × (tickle ≡ some_foreign queue)
  Picks queue (some t) rest tickle =
      (front : List Task) × (back : List Task) × (queue ≡ front ++ t ∷ back)
      × (rest ≡ front ++ back)
      × All (λ u. is_blocked u ≡ true) front
      × (is_blocked t ≡ false)
      × (tickle ≡ some_foreign front)

  skip_one :
      (t : Task) (ts rest : List Task) (found : Option Task) (tickle : Bool)
      → is_blocked t ≡ true
      → Picks ts found rest tickle
      → Picks (t ∷ ts) found (t ∷ rest) (is_foreign me t || tickle)
  skip_one t ts rest none tickle b k = (ground arith, (b, k.1), ground arith)
  skip_one t ts rest (some u) tickle b k =
      (t ∷ k.0, k.1, ground (arith, k.2), ground (arith, k.3), (b, k.4), k.5, ground (arith, k.6))

  -- On a queue whose tasks all have something to run the scan never fails its assertion. It takes
  -- out the first task that is neither another thread's nor a running fiber's and keeps the order
  -- of the others, or finds none; and other threads are woken exactly if a task of theirs was passed.
  pub pick_correct :
      (queue : List Task)
      → All (λ t. has_work t ≡ true) queue
      → (p : Pick) × (pick me states queue ≡ ok p) × Picks queue p.task p.rest p.tickle_me
  unfolding pick
  pick_correct [] w = (record { task = none; rest = []; tickle_me = false }, refl, (refl, tt, refl))
  pick_correct (t ∷ ts) w =
      let r = pick_correct ts w.1 in
      let skipped = skip_one t ts r.0.rest r.0.task r.0.tickle_me in
      elim (Bool-cases (is_foreign me t)) [
        | inl foreign ↦ (
          record {
            task = r.0.task;
            rest = t ∷ r.0.rest;
            tickle_me = is_foreign me t || r.0.tickle_me;
          },
          ground (arith, r.1),
          skipped (ground arith) r.2,
        )
        | inr own ↦ elim (Bool-cases (is_running states t)) [
          | inl running ↦ (
            record {
              task = r.0.task;
              rest = t ∷ r.0.rest;
              tickle_me = is_foreign me t || r.0.tickle_me;
            },
            ground (arith, r.1, w.0),
            skipped (ground arith) r.2,
          )
          | inr ready ↦ (
            record { task = some t; rest = ts; tickle_me = false },
            ground (arith, w.0),
            ([], ts, refl, refl, tt, ground arith, refl),
          )
        ]
      ]

  -- A scan only finds tasks with something to run, and leaves such tasks.
  pub pick_work :
      (queue : List Task) (p : Pick)
      → All (λ t. has_work t ≡ true) queue
      → pick me states queue ≡ ok p
      → FoundWork p.task × All (λ t. has_work t ≡ true) p.rest
  unfolding pick
  pick_work [] p w e = ground arith
  pick_work (t ∷ ts) p w e =
      let r = pick_correct ts w.1 in ground (arith, r.1, pick_work ts r.0 w.1 r.1, w.0)
