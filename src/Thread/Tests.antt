-- ===== src/Thread/Tests.antt =====
-- Runs of duan_src/thread.h and duan_src/thread.cc, and the theorems at concrete threads.
use coroutine.Prelude.{
  true, List, throws, ℕ, ◌≡◌, ◌≤◌, refl, false, [], ◌∷◌, none, some, arith, length, update, ◌+◌,
}
use coroutine.Thread.{unknown_name, new_thread, join, set_name, get_name}
use coroutine.Thread.Guards.{
  read, write, lock, rdlock, unlock, new_guard, use_guard, relock, release, lifetime,
}
use coroutine.Thread.Balance.{replay, lifetime_lem}
use coroutine.Thread.CasLock.{outside, spinning, inside, try, enters, tries}
use coroutine.Thread.CasLock
use coroutine.Thread.Exclusion.{IsExclusive, Reach-IsExclusive}
use coroutine.Thread.Start
use coroutine.Thread.Start.{
  rename, renames_to, owning, run_step, create_ok, wait, drop, runs, creates, returns, drops,
}
use coroutine.Thread.Handshake.{run_steps, wait_ends}
use coroutine.Thread.Locks.{
  SystemCall, lock_life, rwlock_init, rwlock_wrlock, rwlock_unlock, rwlock_destroy, rw_mutex,
  run_calls, rw_write_guard,
}
use coroutine.Thread.System.{raw, system_replay}
use coroutine.Thread.Compiles.{lock_life_lem}
use coroutine.Thread.Recorded.{Reach-started, Reach-reaped}

-- A read guard that is given back, taken again and ends.
read_guard : lifetime read (release ∷ relock ∷ relock ∷ []) ≡ rdlock ∷ unlock ∷ lock ∷ unlock ∷ []
unfolding lifetime new_guard use_guard
read_guard = refl

lifetime_lem_example : replay false (lifetime write (release ∷ release ∷ relock ∷ [])) ≡ some false
lifetime_lem_example = (lifetime_lem write (release ∷ release ∷ relock ∷ [])).1

lock_life_lem_example :
    (made : List SystemCall) × (lock_life rw_write_guard (release ∷ relock ∷ []) ≡ some made)
    × (system_replay raw made ≡ some raw)
lock_life_lem_example = lock_life_lem rw_write_guard (release ∷ relock ∷ []) refl

-- The calls of that life.
write_life :
    lock_life rw_write_guard (release ∷ relock ∷ [])
    ≡ some (
        rwlock_init ∷ rwlock_wrlock ∷ rwlock_unlock ∷ rwlock_wrlock ∷ rwlock_unlock ∷ rwlock_destroy
        ∷ [])
unfolding lifetime new_guard use_guard
write_life = refl

-- RWMutex has no lock(), which its guard for reading calls.
read_relock : run_calls rw_mutex (lifetime read (release ∷ relock ∷ [])) ≡ none
unfolding lifetime new_guard use_guard
read_relock = refl

join_fails : join (record (new_thread 7 []) { handle = some 5 }) false ≡ throws
unfolding join new_thread
join_fails = refl

-- SetName on a thread of its own leaves the objects alone where no Thread started it.
rename_main :
    get_name
      (set_name (λ _. new_thread 7 []) (record { thread = none; thread_name = [] }) (97 ∷ [])).1
    ≡ 97 ∷ []
unfolding set_name
rename_main = refl

-- The threads 0 and 1 spin.
abbrev two_spin : CasLock.System
two_spin = record { flag = false; pc = update (update (λ _. outside) 0 spinning) 1 spinning }

two_spin-Reach : CasLock.Reach 2 two_spin
two_spin-Reach =
    CasLock.later (CasLock.later CasLock.begin (enters 0 (omega arith) refl))
      (enters 1 (omega arith) refl)

Reach-IsExclusive_example : IsExclusive (try two_spin 0)
Reach-IsExclusive_example =
    Reach-IsExclusive (CasLock.later two_spin-Reach (tries 0 (omega arith) refl))

-- The thread 41 of the object at 8, with the function 7 and no name, has read its name.
abbrev started : Start.System
started = run_step 8 41 (run_step 8 41 (create_ok 5 (Start.start 7 [])))

started-Reach : Start.Reach 8 41 7 [] started
unfolding Start.start
started-Reach = Start.later (Start.later (Start.later Start.begin (creates 5 refl)) runs) runs

wait_ends_example : (k : ℕ) × (k ≤ 6) × ((run_steps 8 41 k started).permits ≡ 1)
unfolding Start.start run_step create_ok
wait_ends_example = wait_ends started-Reach refl

-- The constructor has returned, and then the object is deleted while the function runs.
abbrev owned : Start.System
owned = wait (run_steps 8 41 4 started)

owned-Reach : Start.Reach 8 41 7 [] owned
unfolding Start.start run_step create_ok
owned-Reach =
    Start.later
      (Start.later (Start.later (Start.later (Start.later started-Reach runs) runs) runs) runs)
      (returns refl (omega arith))

-- The function calls itself "x".
abbrev renamed : Start.System
renamed = rename 8 (120 ∷ []) owned

renamed-Reach : Start.Reach 8 41 7 [] renamed
unfolding Start.start run_step create_ok wait
renamed-Reach = Start.later owned-Reach (renames_to (120 ∷ []) refl)

Reach-started_example :
    (renamed.faults ≡ 0)
    × (renamed.alive ≡ true → renamed.late ≡ 0)
    × (renamed.owner ≡ owning
        → (renamed.object.id ≡ some 41)
          × (renamed.object.cb ≡ none)
          × (renamed.taken ≡ some 7)
          × (renamed.object.name ≡ 120 ∷ [])
          × (renamed.local.thread ≡ some 8)
          × (renamed.local.thread_name ≡ 120 ∷ [])
          × (renamed.kernel_name ≡ some unknown_name))
    × (renamed.called ≡ [])
unfolding Start.start run_step create_ok wait rename
Reach-started_example = Reach-started renamed-Reach

-- Behind the destructor of an object that nobody joined, SetName in its thread writes to it.
late_name : (rename 8 (120 ∷ []) (drop owned)).late ≡ 1
unfolding drop rename Start.start run_step create_ok wait
late_name = refl

Reach-reaped_example : length (drop owned).joined + length (drop owned).detached ≡ 1
unfolding drop wait
Reach-reaped_example = Reach-reaped (Start.later owned-Reach (drops refl)) refl
