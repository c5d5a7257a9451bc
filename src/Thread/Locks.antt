-- ===== src/Thread/Locks.antt =====
-- Mutex, NullMutex, RWMutex, NullRWMutex, Spinlock and CASLock of duan_src/thread.h, the calls of the
-- system that their methods are, and the guards that they name.
use coroutine.Prelude.{Bool, ◌&&◌, List, [], ◌∷◌, ◌++◌, Option, none, some, is_some}
use coroutine.Thread.Guards.{
  Kind, scoped, read, write, Call, lock, rdlock, wrlock, unlock, first_call, again_call, Use,
  lifetime,
}

pub data Class : Type 0 where
  mutex null_mutex rw_mutex null_rw_mutex spinlock cas_lock : Class

pub data SystemCall : Type 0 where
  mutex_init mutex_lock mutex_unlock mutex_destroy : SystemCall
  rwlock_init rwlock_rdlock rwlock_wrlock rwlock_unlock rwlock_destroy : SystemCall
  spin_init spin_lock spin_unlock spin_destroy : SystemCall
  flag_set flag_clear : SystemCall

-- The constructor of a class, and its destructor
abbrev pub construct : Class → List SystemCall
construct mutex = mutex_init ∷ []
construct null_mutex = []
construct rw_mutex = rwlock_init ∷ []
construct null_rw_mutex = []
construct spinlock = spin_init ∷ []
construct cas_lock = flag_clear ∷ []

abbrev pub destruct : Class → List SystemCall
destruct mutex = mutex_destroy ∷ []
destruct null_mutex = []
destruct rw_mutex = rwlock_destroy ∷ []
destruct null_rw_mutex = []
destruct spinlock = spin_destroy ∷ []
destruct cas_lock = []

-- The calls that a method makes; `none` where the class has no such method.
abbrev pub method : Class → Call → Option (List SystemCall)
method mutex lock = some (mutex_lock ∷ [])
method mutex unlock = some (mutex_unlock ∷ [])
method null_mutex lock = some []
method null_mutex unlock = some []
method rw_mutex rdlock = some (rwlock_rdlock ∷ [])
method rw_mutex wrlock = some (rwlock_wrlock ∷ [])
method rw_mutex unlock = some (rwlock_unlock ∷ [])
method null_rw_mutex rdlock = some []
method null_rw_mutex wrlock = some []
method null_rw_mutex unlock = some []
method spinlock lock = some (spin_lock ∷ [])
method spinlock unlock = some (spin_unlock ∷ [])
method cas_lock lock = some (flag_set ∷ [])
method cas_lock unlock = some (flag_clear ∷ [])
method _ _ = none

-- Mutex::Lock, NullMutex::Lock, RWMutex::ReadLock and WriteLock, NullRWMutex::ReadLock and WriteLock,
-- Spinlock::Lock and CASLock::Lock
pub data Typedef : Type 0 where
  mutex_guard null_mutex_guard rw_read_guard rw_write_guard : Typedef
  null_rw_read_guard null_rw_write_guard spin_guard cas_guard : Typedef

-- The template, and its argument.
abbrev pub template : Typedef → Kind × Class
template mutex_guard = (scoped, mutex)
template null_mutex_guard = (scoped, null_mutex)
template rw_read_guard = (read, rw_mutex)
template rw_write_guard = (write, rw_mutex)
template null_rw_read_guard = (read, null_mutex)
template null_rw_write_guard = (write, null_mutex)
template spin_guard = (scoped, spinlock)
template cas_guard = (scoped, cas_lock)

-- The argument has the methods that the constructor and the destructor call, and the one of lock().
abbrev pub is_complete : Typedef → Bool
is_complete d =
    let (kind, c) = template d in
    is_some (method c (first_call kind))
    && is_some (method c unlock)
    && is_some (method c (again_call kind))

abbrev pub join : Option (List SystemCall) → Option (List SystemCall) → Option (List SystemCall)
join none rest = none
join (some made) none = none
join (some made) (some more) = some (made ++ more)

-- The calls of a guard on an object of the class; `none` where a method is missing, so that the template
-- does not compile.
abbrev pub run_calls : Class → List Call → Option (List SystemCall)
run_calls c [] = some []
run_calls c (call ∷ calls) = join (method c call) (run_calls c calls)

-- An object of the class that the guard names, from its constructor to its destructor, with one guard on it.
abbrev pub lock_life : Typedef → List Use → Option (List SystemCall)
lock_life d uses =
    let (kind, c) = template d in
    join (some (construct c)) (join (run_calls c (lifetime kind uses)) (some (destruct c)))
