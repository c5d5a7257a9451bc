-- ===== src/Timer/Order.antt =====
-- The order of duan_src/timer.cc's Timer::Comparator.
use coroutine.Prelude.{ℕ, ◌≡◌, ◌≢◌, Bool, true, false, Option, none, some, arith}
use coroutine.Timer.{Timer, comparator, before}

before_irrefl : (heap : ℕ → Timer) (a : ℕ) → before heap a a ≡ false
before_irrefl heap a = ground arith

pub before_trans :
    (heap : ℕ → Timer) (a b c : ℕ)
    → before heap a b ≡ true
    → before heap b c ≡ true
    → before heap a c ≡ true
before_trans heap a b c h k = ground arith

-- Two addresses that the comparator does not tell apart are one.
pub before_total :
    (heap : ℕ → Timer) (a b : ℕ) → before heap a b ≡ false → before heap b a ≡ false → a ≡ b
before_total heap a b h k = ground arith

pub before_asym : (heap : ℕ → Timer) (a b : ℕ) → before heap a b ≡ true → before heap b a ≡ false
before_asym heap a b h = ground arith

pub ne_of_before : (heap : ℕ → Timer) (a b : ℕ) → before heap a b ≡ true → a ≢ b
ne_of_before heap a b h = ground arith

-- What a std::set asks of its comparator.
pub record IsStrictOrder (less : Option ℕ → Option ℕ → Bool) : Type 0 where
  pub irrefl : (p : Option ℕ) → less p p ≡ false
  pub trans : (p q r : Option ℕ) → less p q ≡ true → less q r ≡ true → less p r ≡ true
  pub total : (p q : Option ℕ) → less p q ≡ false → less q p ≡ false → p ≡ q

comparator_trans :
    (heap : ℕ → Timer) (p q r : Option ℕ)
    → comparator heap p q ≡ true
    → comparator heap q r ≡ true
    → comparator heap p r ≡ true
comparator_trans heap (some a) (some b) (some c) h k = before_trans heap a b c h k
comparator_trans heap p q r h k = ground arith

comparator_total :
    (heap : ℕ → Timer) (p q : Option ℕ)
    → comparator heap p q ≡ false
    → comparator heap q p ≡ false
    → p ≡ q
comparator_total heap (some a) (some b) h k = ground (arith, before_total heap a b h k)
comparator_total heap p q h k = ground arith

comparator_irrefl : (heap : ℕ → Timer) (p : Option ℕ) → comparator heap p p ≡ false
comparator_irrefl heap none = ground arith
comparator_irrefl heap (some a) = before_irrefl heap a

-- For any contents of the timers the comparator is irreflexive and transitive, null pointers come
-- first, and only equal pointers are equivalent, so that a set can hold timers due at one time.
pub comparator-IsStrictOrder : (heap : ℕ → Timer) → IsStrictOrder (comparator heap)
comparator-IsStrictOrder heap = record {
  irrefl = comparator_irrefl heap;
  trans = comparator_trans heap;
  total = comparator_total heap;
}
