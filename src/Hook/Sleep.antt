-- ===== src/Hook/Sleep.antt =====
-- sleep, usleep and nanosleep of duan_src/hook.cc.
--
-- A hooked sleep adds a timer whose function, the number `closure`, schedules the calling fiber, and
-- yields. The seconds and nanoseconds of a timespec are not negative.
use coroutine.Prelude.{
  Result, ok, ◌>>=◌, ℕ, ◌+◌, ◌-◌, ◌*◌, ◌/◌, ◌%◌, ◌^◌, Bool, false, none, some, ltb, if◌then◌else◌,
}
use coroutine.IoManager.{Schedulers, post, timer_added}
use coroutine.Timer.{add_timer, user}
use coroutine.Hook.{World}

-- `seconds * 1000` in an unsigned int.
unfoldable pub sleep_ms : (seconds : ℕ) → ℕ
sleep_ms seconds = seconds * 1000 % 2 ^ 32

-- `usec / 1000`
unfoldable pub usleep_ms : (usec : ℕ) → ℕ
usleep_ms usec = usec / 1000

-- An int that is passed as uint64_t.
abbrev pub as_u64 : (n : ℕ) → ℕ
as_u64 n = let low = n % 2 ^ 32 in if ltb low (2 ^ 31) then low else low + (2 ^ 64 - 2 ^ 32)

-- `req->tv_sec * 1000 + req->tv_nsec / 1000 / 1000` in an int, as addTimer takes it.
unfoldable pub nanosleep_ms : (sec nsec : ℕ) → ℕ
nanosleep_ms sec nsec = as_u64 (sec * 1000 + nsec / 1000 / 1000)

-- What a sleep leads to: the C function's result, or a wait with a timer.
pub data Nap : Type 0 where
  awake : (n : ℕ) → Nap
  asleep : (timer : ℕ) → Nap

-- The hooked part, which the three functions share.
unfoldable pub nap :
    {K M S : Type 0}
    → World K M S
    → (ms closure addr now : ℕ) → (wrote : Bool) → Result (World K M S × Nap)
unfolding timer_added
nap w ms closure addr now wrote = do
  io ← timer_added w.io (add_timer w.io.timers addr ms (some (user closure)) false now) wrote
  ok (record w { io = io }, asleep addr)

module _ {K M S : Type 0} (w : World K M S) (closure addr now : ℕ) (wrote : Bool) where
  -- sleep; `sleep_f` is the function of the C library.
  unfoldable pub sleep : (sleep_f : S → S × ℕ) → (seconds : ℕ) → Result (World K M S × Nap)
  unfolding sleep_ms nap
  sleep sleep_f seconds =
      if w.hook_enable
      then nap w (sleep_ms seconds) closure addr now wrote
      else (let r = sleep_f w.os in ok (record w { os = r.0 }, awake r.1))

  -- usleep
  unfoldable pub usleep : (usleep_f : S → S × ℕ) → (usec : ℕ) → Result (World K M S × Nap)
  unfolding usleep_ms nap
  usleep usleep_f usec =
      if w.hook_enable
      then nap w (usleep_ms usec) closure addr now wrote
      else (let r = usleep_f w.os in ok (record w { os = r.0 }, awake r.1))

  -- nanosleep
  unfoldable pub nanosleep : (nanosleep_f : S → S × ℕ) → (sec nsec : ℕ) → Result (World K M S × Nap)
  unfolding nanosleep_ms nap
  nanosleep nanosleep_f sec nsec =
      if w.hook_enable
      then nap w (nanosleep_ms sec nsec) closure addr now wrote
      else (let r = nanosleep_f w.os in ok (record w { os = r.0 }, awake r.1))

-- The function of the timer: the scheduler of the sleep schedules the fiber for any thread.
unfoldable pub wake : Schedulers → (self fiber : ℕ) → Schedulers
wake schedulers self fiber =
    post schedulers self (record { fiber = some fiber; cb = none; thread = none })
