-- ===== src/Thread/CasLock.antt =====
-- CASLock of duan_src/thread.h: a flag that threads set until they find it clear.
use coroutine.Prelude.{ℕ, ◌<◌, ◌≡◌, Bool, true, false, not, if◌then◌else◌, update}

-- std::atomic_flag_test_and_set_explicit: the new flag, and the old one.
abbrev pub test_and_set : Bool → Bool × Bool
test_and_set flag = (true, flag)

-- A round of lock(): the flag behind it, and whether the loop ends.
unfoldable pub lock_round : Bool → Bool × Bool
lock_round flag = let (flag', was_set) = test_and_set flag in (flag', not was_set)

-- unlock()
abbrev pub unlock : Bool
unlock = false

-- Where a thread is: outside, in the loop of lock(), or behind it.
pub data Pc : Type 0 where
  outside spinning inside : Pc

pub record System : Type 0 where
  pub flag : Bool
  pub pc : ℕ → Pc

-- A round of lock() by the thread `i`.
unfoldable pub try : System → ℕ → System
unfolding lock_round
try s i =
    let (flag, ends) = lock_round s.flag in
    record { flag = flag; pc = if ends then update s.pc i inside else s.pc }

-- One of `n` threads takes a step.
pub data Step (n : ℕ) (s : System) : System → Type 0 where
  enters : (i : ℕ) → i < n → s.pc i ≡ outside → Step n s (record s { pc = update s.pc i spinning })
  tries : (i : ℕ) → i < n → s.pc i ≡ spinning → Step n s (try s i)
  leaves :
      (i : ℕ)
      → i < n
      → s.pc i ≡ inside
      → Step n s (record { flag = unlock; pc = update s.pc i outside })

-- The constructor clears the flag.
abbrev pub start : System
start = record { flag = false; pc = λ _. outside }

pub data Reach (n : ℕ) : System → Type 0 where
  begin : Reach n start
  later : {s t : System} → Reach n s → Step n s t → Reach n t
