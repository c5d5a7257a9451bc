-- ===== src/Thread/System.antt =====
-- The calls of the system that the locks of duan_src/thread.h make, as they follow each other.
use coroutine.Prelude.{
  ◌≡◌, refl, Bool, true, false, List, [], ◌∷◌, ◌++◌, Option, none, some, arith, Option-cases, inl,
  inr, if◌then◌else◌,
}
use coroutine.Thread.Guards.{Call, lock, rdlock, wrlock, unlock}
use coroutine.Thread.Balance.{replay}
use coroutine.Thread.Locks.{
  Class, mutex, null_mutex, rw_mutex, null_rw_mutex, spinlock, cas_lock, SystemCall, mutex_init,
  mutex_lock, mutex_unlock, mutex_destroy, rwlock_init, rwlock_rdlock, rwlock_wrlock, rwlock_unlock,
  rwlock_destroy, spin_init, spin_lock, spin_unlock, spin_destroy, flag_set, flag_clear, construct,
  destruct, method, join, run_calls,
}

-- A lock of the system: not made, free, or held by its one owner.
pub data Phase : Type 0 where
  raw free held : Phase

-- What a call of the system is allowed in and leads to; `none` is undefined behaviour or a deadlock.
abbrev pub system_step : Phase → SystemCall → Option Phase
system_step raw mutex_init = some free
system_step raw rwlock_init = some free
system_step raw spin_init = some free
system_step raw flag_clear = some free
system_step free mutex_destroy = some raw
system_step free rwlock_destroy = some raw
system_step free spin_destroy = some raw
system_step free mutex_lock = some held
system_step free rwlock_rdlock = some held
system_step free rwlock_wrlock = some held
system_step free spin_lock = some held
system_step free flag_set = some held
system_step held mutex_unlock = some free
system_step held rwlock_unlock = some free
system_step held spin_unlock = some free
system_step held flag_clear = some free
system_step _ _ = none

abbrev pub system_replay : Phase → List SystemCall → Option Phase
system_replay p [] = some p
system_replay p (call ∷ calls) = elim (system_step p call) [
  | none ↦ none
  | some q ↦ system_replay q calls
]

system_replay-append :
    (p q : Phase) (xs ys : List SystemCall)
    → system_replay p xs ≡ some q
    → system_replay p (xs ++ ys) ≡ system_replay q ys
system_replay-append p q [] ys h = ground arith
system_replay-append p q (x ∷ xs) ys h = elim (Option-cases (system_step p x)) [
  | inl e ↦ ground arith
  | inr (r, e) ↦ ground (arith, system_replay-append r q xs ys)
]

-- The phase of an object while its owner does or does not hold it: the empty locks have none.
abbrev phase : Class → Bool → Phase
phase null_mutex locked = raw
phase null_rw_mutex locked = raw
phase mutex locked = if locked then held else free
phase rw_mutex locked = if locked then held else free
phase spinlock locked = if locked then held else free
phase cas_lock locked = if locked then held else free

-- One call of a method.
method-system_replay :
    (c : Class) (call : Call) (made : List SystemCall) (b b' : Bool)
    → method c call ≡ some made
    → replay b (call ∷ []) ≡ some b'
    → system_replay (phase c b) made ≡ some (phase c b')
method-system_replay c lock made b b' h k = ground arith
method-system_replay c rdlock made b b' h k = ground arith
method-system_replay c wrlock made b b' h k = ground arith
method-system_replay c unlock made b b' h k = ground arith

replay-first :
    (b b' : Bool) (call : Call) (calls : List Call)
    → replay b (call ∷ calls) ≡ some b'
    → (m : Bool) × (replay b (call ∷ []) ≡ some m) × (replay m calls ≡ some b')
replay-first true b' lock calls h = ground arith
replay-first false b' lock calls h = (true, refl, h)
replay-first true b' rdlock calls h = ground arith
replay-first false b' rdlock calls h = (true, refl, h)
replay-first true b' wrlock calls h = ground arith
replay-first false b' wrlock calls h = (true, refl, h)
replay-first true b' unlock calls h = (false, refl, h)
replay-first false b' unlock calls h = ground arith

join-cases :
    (made rest : Option (List SystemCall)) (all : List SystemCall)
    → join made rest ≡ some all
    → (xs : List SystemCall) × (ys : List SystemCall) × (made ≡ some xs)
      × (rest ≡ some ys)
      × (all ≡ xs ++ ys)
join-cases none rest all h = ground arith
join-cases (some xs) none all h = ground arith
join-cases (some xs) (some ys) all h = (xs, ys, refl, refl, ground arith)

run_calls-system_replay :
    (c : Class) (calls : List Call) (made : List SystemCall) (b b' : Bool)
    → run_calls c calls ≡ some made
    → replay b calls ≡ some b'
    → system_replay (phase c b) made ≡ some (phase c b')
run_calls-system_replay c [] made b b' h k = ground arith
run_calls-system_replay c (call ∷ calls) made b b' h k =
    let (m, first, rest) = replay-first b b' call calls k in
    let (xs, ys, hx, hy, e) = join-cases (method c call) (run_calls c calls) made h in
    rw
      (
        e,
        system_replay-append (phase c b) (phase c m) xs ys
            (method-system_replay c call xs b m hx first),
      )
      (run_calls-system_replay c calls ys m b' hy rest)

construct-system_replay : (c : Class) → system_replay raw (construct c) ≡ some (phase c false)
construct-system_replay mutex = refl
construct-system_replay null_mutex = refl
construct-system_replay rw_mutex = refl
construct-system_replay null_rw_mutex = refl
construct-system_replay spinlock = refl
construct-system_replay cas_lock = refl

-- The destructor of CASLock leaves its flag as it is.
abbrev pub ended : Class → Phase
ended cas_lock = free
ended _ = raw

destruct-system_replay : (c : Class) → system_replay (phase c false) (destruct c) ≡ some (ended c)
destruct-system_replay mutex = refl
destruct-system_replay null_mutex = refl
destruct-system_replay rw_mutex = refl
destruct-system_replay null_rw_mutex = refl
destruct-system_replay spinlock = refl
destruct-system_replay cas_lock = refl

pub life-system_replay :
    (c : Class) (calls : List Call) (made : List SystemCall)
    → run_calls c calls ≡ some made
    → replay false calls ≡ some false
    → system_replay raw (construct c ++ (made ++ destruct c)) ≡ some (ended c)
life-system_replay c calls made h k =
    rw
      (
        system_replay-append raw (phase c false) (construct c) (made ++ destruct c)
            (construct-system_replay c),
        system_replay-append (phase c false) (phase c false) made (destruct c)
            (run_calls-system_replay c calls made false false h k),
      )
      (destruct-system_replay c)
