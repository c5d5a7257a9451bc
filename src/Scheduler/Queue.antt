-- ===== src/Scheduler/Queue.antt =====
-- Scheduler::scheduler of duan_src/scheduler.h: tasks that join the queue.
use mathlib.Core.List.{append_assoc, append-nil}
use coroutine.Prelude.{
  ℕ, ◌≡◌, refl, ap, ◌∙◌, Bool, false, ◌||◌, ◌&&◌, not, List, [], ◌∷◌, ◌++◌, map, Option, none, some,
  arith, is_some, if◌then◌else◌,
}
use coroutine.Scheduler.{Task, Scheduler, is_empty, schedule_batch}

abbrev pub fn_task : Option ℕ → Task
fn_task cb = record { fiber = none; cb = cb; thread = none }

-- The tasks for those of the functions that are there.
abbrev pub fn_tasks : List (Option ℕ) → List Task
fn_tasks [] = []
fn_tasks (cb ∷ cbs) = if is_some cb then fn_task cb ∷ fn_tasks cbs else fn_tasks cbs

batch_queue :
    (s : Scheduler) (cbs : List (Option ℕ)) (tickle : Bool)
    → (schedule_batch s cbs tickle).0 ≡ record s { fibers = s.fibers ++ fn_tasks cbs }
unfolding schedule_batch
batch_queue s [] tickle = rw (append-nil s.fibers)
batch_queue s (none ∷ cbs) tickle = batch_queue s cbs (is_empty s.fibers || tickle)
batch_queue s (some cb ∷ cbs) tickle =
    batch_queue (record s { fibers = s.fibers ++ fn_task (some cb) ∷ [] }) cbs
      (is_empty s.fibers || tickle)
    ∙ ap (λ q. record s { fibers = q })
        (append_assoc s.fibers (fn_task (some cb) ∷ []) (fn_tasks cbs))

batch_places :
    (s : Scheduler) (cbs : List (Option ℕ)) (tickle : Bool)
    → (schedule_batch s cbs tickle).1 ≡ map (λ _. none) cbs
unfolding schedule_batch
batch_places s [] tickle = refl
batch_places s (none ∷ cbs) tickle =
    ap (◌∷◌ none) (batch_places s cbs (is_empty s.fibers || tickle))
batch_places s (some cb ∷ cbs) tickle = ap (◌∷◌ none) (
    batch_places (record s { fibers = s.fibers ++ fn_task (some cb) ∷ [] }) cbs
      (is_empty s.fibers || tickle))

is_empty-append : (q : List Task) (t : Task) → is_empty (q ++ t ∷ []) ≡ false
is_empty-append [] t = refl
is_empty-append (u ∷ q) t = refl

batch_tickle :
    (s : Scheduler) (cbs : List (Option ℕ)) (tickle : Bool)
    → (schedule_batch s cbs tickle).2 ≡ (tickle || (is_empty s.fibers && not (is_empty cbs)))
unfolding schedule_batch
batch_tickle s [] tickle = ground arith
batch_tickle s (none ∷ cbs) tickle =
    ground (arith, batch_tickle s cbs (is_empty s.fibers || tickle))
batch_tickle s (some cb ∷ cbs) tickle = ground (
  arith,
  batch_tickle (record s { fibers = s.fibers ++ fn_task (some cb) ∷ [] }) cbs
      (is_empty s.fibers || tickle),
  is_empty-append s.fibers (fn_task (some cb)),
)

-- A batch of functions joins the end of the queue in its order, without those that are null; every
-- place of the batch is left null, since the function is swapped out of it; nothing else of the
-- scheduler changes, and it is tickled exactly if the queue was empty and the batch is not.
pub schedule_batch_lem :
    (s : Scheduler) (cbs : List (Option ℕ))
    → ((schedule_batch s cbs false).0 ≡ record s { fibers = s.fibers ++ fn_tasks cbs })
      × ((schedule_batch s cbs false).1 ≡ map (λ _. none) cbs)
      × ((schedule_batch s cbs false).2 ≡ (is_empty s.fibers && not (is_empty cbs)))
schedule_batch_lem s cbs =
    (batch_queue s cbs false, batch_places s cbs false, batch_tickle s cbs false)
