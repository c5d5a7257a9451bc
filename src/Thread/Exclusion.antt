-- ===== src/Thread/Exclusion.antt =====
-- What a CASLock of duan_src/thread.h promises to any number of threads.
use coroutine.Prelude.{ℕ, ◌≡◌, ◌≢◌, true, false, arith, Bool-cases, inl, inr, ◌⊎◌}
use coroutine.Thread.CasLock.{
  spinning, inside, System, lock_round, try, Step, enters, tries, leaves, Reach, begin, later,
}

-- The flag is set exactly while a thread is inside, and then one.
pub record IsExclusive (s : System) : Type 0 where
  pub free : s.flag ≡ false → (i : ℕ) → s.pc i ≢ inside
  pub taken : s.flag ≡ true → (i : ℕ) × (s.pc i ≡ inside)
  pub unique : (i j : ℕ) → s.pc i ≡ inside → s.pc j ≡ inside → i ≡ j

Step-IsExclusive : {n : ℕ} {s t : System} → Step n s t → IsExclusive s → IsExclusive t
unfolding try lock_round
Step-IsExclusive {n} {s} (enters i h o) v = record {
  free = λ f j e. ground (arith, v.free f j);
  taken = λ f. let (k, e) = v.taken f in (k, ground arith);
  unique = λ j k a b. ground (arith, v.unique j k);
}
Step-IsExclusive {n} {s} (tries i h o) v = elim (Bool-cases s.flag) [
  | inl f ↦ record {
    free = λ g j e. ground arith;
    taken = λ _. let (k, e) = v.taken f in (k, ground arith);
    unique = λ j k a b. ground (arith, v.unique j k);
  }
  | inr f ↦ record {
    free = λ g j e. ground arith;
    taken = λ _. (i, ground arith);
    unique = λ j k a b. ground (arith, v.free f j, v.free f k);
  }
]
Step-IsExclusive {n} {s} (leaves i h o) v = record {
  free = λ g j e. ground (arith, v.unique i j);
  taken = λ f. ground arith;
  unique = λ j k a b. ground (arith, v.unique j k);
}

-- Whatever threads enter, try and leave, in whatever order: the flag of the lock is set exactly while a
-- thread is behind lock(), and no two threads are there.
pub Reach-IsExclusive : {n : ℕ} {s : System} → Reach n s → IsExclusive s
Reach-IsExclusive begin = record {
  free = λ f j e. ground arith;
  taken = λ f. ground arith;
  unique = λ j k a b. ground arith;
}
Reach-IsExclusive (later r step) = Step-IsExclusive step (Reach-IsExclusive r)

-- A lock that no thread is behind lets in whichever thread tries next, so that a thread that spins
-- either finds another one inside or is inside after its next round.
pub spinning-try :
    {n : ℕ} {s : System} (i : ℕ)
    → Reach n s
    → s.pc i ≡ spinning
    → ((j : ℕ) × (s.pc j ≡ inside) × (j ≢ i)) ⊎ ((try s i).pc i ≡ inside)
unfolding try lock_round
spinning-try {n} {s} i r e =
    let v = Reach-IsExclusive r in
    elim (Bool-cases s.flag) [
      | inl f ↦ let (j, h) = v.taken f in inl (j, h, λ eq. ground arith)
      | inr f ↦ inr (ground arith)
    ]
