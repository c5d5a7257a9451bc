-- ===== src/Thread/Balance.antt =====
-- The guards of duan_src/thread.h hold their mutex exactly while m_locked says so.
use coroutine.Prelude.{
  ◌≡◌, refl, ◌∙◌, Bool, true, false, List, [], ◌∷◌, ◌++◌, Option, none, some, arith, if◌then◌else◌,
}
use coroutine.Thread.Guards.{
  Kind, scoped, read, write, Call, lock, rdlock, wrlock, unlock, Guard, again_call, new_guard,
  guard_lock, guard_unlock, guard_destroy, Use, relock, release, use_guard, lifetime,
}

-- A mutex of one owner: held or free. `none` is a second lock by the owner, or an unlock of what is
-- free.
abbrev pub replay : Bool → List Call → Option Bool
replay held [] = some held
replay held (lock ∷ calls) = if held then none else replay true calls
replay held (rdlock ∷ calls) = if held then none else replay true calls
replay held (wrlock ∷ calls) = if held then none else replay true calls
replay held (unlock ∷ calls) = if held then replay false calls else none

replay-append :
    (held held' : Bool) (xs ys : List Call)
    → replay held xs ≡ some held'
    → replay held (xs ++ ys) ≡ replay held' ys
replay-append held held' [] ys h = ground arith
replay-append held held' (lock ∷ xs) ys h = ground (arith, replay-append true held' xs ys)
replay-append held held' (rdlock ∷ xs) ys h = ground (arith, replay-append true held' xs ys)
replay-append held held' (wrlock ∷ xs) ys h = ground (arith, replay-append true held' xs ys)
replay-append held held' (unlock ∷ xs) ys h = ground (arith, replay-append false held' xs ys)

replay-again_call : (k : Kind) → replay false (again_call k ∷ []) ≡ some true
replay-again_call scoped = refl
replay-again_call read = refl
replay-again_call write = refl

replay-relock : (g : Guard) → replay g.locked (guard_lock g).1 ≡ some (guard_lock g).0.locked
unfolding guard_lock
replay-relock g = ground (arith, replay-again_call g.kind)

replay-release : (g : Guard) → replay g.locked (guard_unlock g).1 ≡ some (guard_unlock g).0.locked
unfolding guard_unlock
replay-release g = ground arith

replay-use :
    (g : Guard) (uses : List Use)
    → replay g.locked (use_guard g uses).1 ≡ some (use_guard g uses).0.locked
unfolding use_guard
replay-use g [] = refl
replay-use g (relock ∷ uses) =
    replay-append g.locked (guard_lock g).0.locked (guard_lock g).1
      (use_guard (guard_lock g).0 uses).1 (replay-relock g)
    ∙ replay-use (guard_lock g).0 uses
replay-use g (release ∷ uses) =
    replay-append g.locked (guard_unlock g).0.locked (guard_unlock g).1
      (use_guard (guard_unlock g).0 uses).1 (replay-release g)
    ∙ replay-use (guard_unlock g).0 uses

replay-new_guard : (kind : Kind) → replay false (new_guard kind).1 ≡ some (new_guard kind).0.locked
unfolding new_guard
replay-new_guard scoped = refl
replay-new_guard read = refl
replay-new_guard write = refl

replay-destroy : (g : Guard) → replay g.locked (guard_destroy g) ≡ some false
unfolding guard_destroy guard_unlock
replay-destroy g = ground arith

-- For each template and whatever calls of lock() and unlock() its owner makes: the calls of a guard
-- never take a mutex that its owner holds nor give back one that is free, m_locked tells at every
-- point whether the mutex is held, and behind the destructor it is free.
pub lifetime_lem :
    (kind : Kind) (uses : List Use)
    → (replay false ((new_guard kind).1 ++ (use_guard (new_guard kind).0 uses).1)
        ≡ some (use_guard (new_guard kind).0 uses).0.locked)
      × (replay false (lifetime kind uses) ≡ some false)
unfolding lifetime
lifetime_lem kind uses =
    let g = (new_guard kind).0 in
    let used = use_guard g uses in
    let start = replay-append false g.locked (new_guard kind).1 in
    (
      start used.1 (replay-new_guard kind) ∙ replay-use g uses,
      start (used.1 ++ guard_destroy used.0) (replay-new_guard kind)
          ∙ replay-append g.locked used.0.locked used.1 (guard_destroy used.0) (replay-use g uses)
          ∙ replay-destroy used.0,
    )
