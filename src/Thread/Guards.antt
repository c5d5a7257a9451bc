-- ===== src/Thread/Guards.antt =====
-- ScopedLockImpl, ReadScopedLockImpl and WriteScopedLockImpl of duan_src/thread.h.
use coroutine.Prelude.{Bool, true, false, not, List, [], ◌∷◌, ◌++◌, if◌then◌else◌}

-- The three templates
pub data Kind : Type 0 where
  scoped read write : Kind

-- A call of the mutex that a guard stands for.
pub data Call : Type 0 where
  lock rdlock wrlock unlock : Call

-- A guard: m_locked, beside the template that it is made of.
pub record Guard : Type 0 where
  pub kind : Kind
  pub locked : Bool

-- The call of the constructor.
abbrev pub first_call : Kind → Call
first_call scoped = lock
first_call read = rdlock
first_call write = wrlock

-- The call of lock().
abbrev pub again_call : Kind → Call
again_call scoped = lock
again_call read = lock
again_call write = wrlock

-- The constructor
unfoldable pub new_guard : Kind → Guard × List Call
new_guard kind = (record { kind = kind; locked = true }, first_call kind ∷ [])

-- lock()
unfoldable pub guard_lock : Guard → Guard × List Call
guard_lock g =
    if not g.locked then (record g { locked = true }, again_call g.kind ∷ []) else (g, [])

-- unlock()
unfoldable pub guard_unlock : Guard → Guard × List Call
guard_unlock g = if g.locked then (record g { locked = false }, unlock ∷ []) else (g, [])

-- The destructor
unfoldable pub guard_destroy : Guard → List Call
unfolding guard_unlock
guard_destroy g = (guard_unlock g).1

-- What the code that holds a guard may do with it.
pub data Use : Type 0 where
  relock release : Use

unfoldable pub use_guard : Guard → List Use → Guard × List Call
unfolding guard_lock guard_unlock
use_guard g [] = (g, [])
use_guard g (relock ∷ uses) =
    let step = guard_lock g in let rest = use_guard step.0 uses in (rest.0, step.1 ++ rest.1)
use_guard g (release ∷ uses) =
    let step = guard_unlock g in let rest = use_guard step.0 uses in (rest.0, step.1 ++ rest.1)

-- A guard from its constructor to the end of its scope.
unfoldable pub lifetime : Kind → List Use → List Call
unfolding new_guard use_guard guard_destroy
lifetime kind uses =
    let made = new_guard kind in
    let used = use_guard made.0 uses in made.1 ++ used.1 ++ guard_destroy used.0
