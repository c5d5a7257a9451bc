-- ===== src/Thread/Compiles.antt =====
-- Which guards of duan_src/thread.h compile.
use coroutine.Prelude.{
  inl, inr, Option-cases, ◌≡◌, refl, Bool, true, false, List, [], ◌∷◌, ◌++◌, Option, none, some,
  is_some, All, arith,
}
use coroutine.Thread.Guards.{
  Kind, Call, unlock, first_call, again_call, new_guard, guard_lock, guard_unlock, guard_destroy,
  Use, relock, release, use_guard, lifetime,
}
use coroutine.Thread.Balance.{lifetime_lem}
use coroutine.Thread.System.{raw, system_replay, ended, life-system_replay}
use coroutine.Thread.Locks.{
  construct, destruct, lock_life, Class, method, SystemCall, join, run_calls, Typedef, template,
  is_complete, rw_read_guard, null_rw_read_guard, null_rw_write_guard, mutex_guard,
  null_mutex_guard, rw_write_guard, spin_guard, cas_guard,
}

module _ (P : Call → Type 0) where
  All-append : (xs ys : List Call) → All P xs → All P ys → All P (xs ++ ys)
  All-append [] ys h k = k
  All-append (x ∷ xs) ys h k = (h.0, All-append xs ys h.1 k)

  module _ (kind : Kind) (first : P (first_call kind)) (again : P (again_call kind))
      (last : P unlock) where
    unlock-All : (locked : Bool) → All P (guard_unlock (record { kind = kind; locked = locked })).1
    unfolding guard_unlock
    unlock-All true = (last, tt)
    unlock-All false = tt

    -- Whatever is done with a guard, it calls the methods of its template only.
    use_guard-All :
        (locked : Bool) (uses : List Use)
        → All P (use_guard (record { kind = kind; locked = locked }) uses).1
    unfolding use_guard guard_lock guard_unlock
    use_guard-All locked [] = tt
    use_guard-All true (relock ∷ uses) = use_guard-All true uses
    use_guard-All false (relock ∷ uses) = (again, use_guard-All true uses)
    use_guard-All true (release ∷ uses) = (last, use_guard-All false uses)
    use_guard-All false (release ∷ uses) = use_guard-All false uses

    destroy-All :
        (locked : Bool) (uses : List Use)
        → All P (guard_destroy (use_guard (record { kind = kind; locked = locked }) uses).0)
    unfolding use_guard guard_lock guard_unlock guard_destroy
    destroy-All locked [] = unlock-All locked
    destroy-All true (relock ∷ uses) = destroy-All true uses
    destroy-All false (relock ∷ uses) = destroy-All true uses
    destroy-All true (release ∷ uses) = destroy-All false uses
    destroy-All false (release ∷ uses) = destroy-All false uses

    lifetime-All : (uses : List Use) → All P (lifetime kind uses)
    unfolding lifetime new_guard
    lifetime-All uses = (
      first,
      All-append (use_guard (record { kind = kind; locked = true }) uses).1 _
          (use_guard-All true uses) (destroy-All true uses),
    )

abbrev Has : Class → Call → Type 0
Has c call = is_some (method c call) ≡ true

join-some :
    (made rest : Option (List SystemCall))
    → is_some made ≡ true
    → is_some rest ≡ true
    → is_some (join made rest) ≡ true
join-some none rest h k = h
join-some (some calls) none h k = k
join-some (some calls) (some more) h k = refl

run_calls-some :
    (c : Class) (calls : List Call) → All (Has c) calls → is_some (run_calls c calls) ≡ true
run_calls-some c [] h = refl
run_calls-some c (call ∷ calls) h =
    join-some (method c call) (run_calls c calls) h.0 (run_calls-some c calls h.1)

template-All :
    (d : Typedef)
    → is_complete d ≡ true
    → let (kind, c) = template d in All (Has c) (first_call kind ∷ again_call kind ∷ unlock ∷ [])
template-All mutex_guard h = (refl, (refl, (refl, tt)))
template-All null_mutex_guard h = (refl, (refl, (refl, tt)))
template-All rw_read_guard h = ground arith
template-All rw_write_guard h = (refl, (refl, (refl, tt)))
template-All null_rw_read_guard h = ground arith
template-All null_rw_write_guard h = ground arith
template-All spin_guard h = (refl, (refl, (refl, tt)))
template-All cas_guard h = (refl, (refl, (refl, tt)))

lifetime-compiles :
    (d : Typedef) (uses : List Use)
    → is_complete d ≡ true
    → is_some (run_calls (template d).1 (lifetime (template d).0 uses)) ≡ true
lifetime-compiles d uses h =
    let (first, (again, (last, _))) = template-All d h in
    run_calls-some (template d).1 (lifetime (template d).0 uses)
      (lifetime-All (Has (template d).1) (template d).0 first again last uses)

lifetime-made :
    (d : Typedef) (uses : List Use)
    → is_complete d ≡ true
    → (made : List SystemCall) × (run_calls (template d).1 (lifetime (template d).0 uses)
        ≡ some made)
lifetime-made d uses h =
    elim (Option-cases (run_calls (template d).1 (lifetime (template d).0 uses))) [
      | inl none_made ↦ ground (arith, lifetime-compiles d uses h, none_made)
      | inr found ↦ found
    ]

-- Where the class of a guard has the methods that the constructor, the destructor and lock() of its template
-- call, a lock of that class from its constructor to its destructor, with such a guard on it that is locked
-- and unlocked in any way, compiles, and its calls of the system are each one allowed: the lock is made
-- before all else, is locked only while it is free, unlocked only while it is held, and destroyed
-- only while it is free.
pub lock_life_lem :
    (d : Typedef) (uses : List Use)
    → is_complete d ≡ true
    → (made : List SystemCall) × (lock_life d uses ≡ some made)
      × (system_replay raw made ≡ some (ended (template d).1))
lock_life_lem d uses h =
    let (kind, c) = template d in
    let (made, e) = lifetime-made d uses h in
    (
      construct c ++ (made ++ destruct c),
      rw e refl,
      life-system_replay c (lifetime kind uses) made e (lifetime_lem kind uses).1,
    )
