-- ===== src/Hook/Delays.antt =====
-- How long the hooked sleeps of duan_src/hook.cc are.
use coroutine.Prelude.{
  ok, ℕ, ◌+◌, ◌-◌, ◌*◌, ◌/◌, ◌%◌, ◌^◌, ◌≤◌, ◌<◌, ◌≡◌, refl, true, false, arith, u64, some, elem,
  update, update_self, ap, ◌∙◌, ◌==◌,
}
use coroutine.Hook.Sleep.{sleep_ms, usleep_ms, nanosleep_ms, as_u64, nap, sleep, nanosleep, asleep}
use coroutine.Hook.Parking.{timer_added_lem}
use coroutine.Hook.{World}
use coroutine.Timer.{add_timer, new_timer, user}
use coroutine.Timer.Invariant.{Inv, add_timer_lem}

-- sleep waits for the seconds it is given up to 4294967; from there on the milliseconds wrap at 2^32,
-- so that 4294968 seconds are 704 milliseconds.
pub sleep_ms_lem :
    (seconds : ℕ)
    → (seconds ≤ 4294967 → sleep_ms seconds ≡ seconds * 1000)
      × (sleep_ms seconds < 4294967296)
      × (sleep_ms 4294968 ≡ 704)
unfolding sleep_ms
sleep_ms_lem seconds = ((λ h. omega arith), omega arith, refl)

-- usleep waits for whole milliseconds: never longer than asked, and shorter by less than one.
pub usleep_ms_lem :
    (usec : ℕ) → (usleep_ms usec * 1000 ≤ usec) × (usec < usleep_ms usec * 1000 + 1000)
unfolding usleep_ms
usleep_ms_lem usec = (omega arith, omega arith)

as_u64_small : (n : ℕ) → n < 2 ^ 31 → as_u64 n ≡ n
as_u64_small n h = let same : n % 4294967296 ≡ n = omega arith in ground (arith, same)

as_u64_negative : (n : ℕ) → 2 ^ 31 ≤ n → n < 2 ^ 32 → as_u64 n ≡ n + (2 ^ 64 - 2 ^ 32)
as_u64_negative n h g = let same : n % 4294967296 ≡ n = omega arith in ground (arith, same)

twice_divided : (n : ℕ) → n / 1000 / 1000 ≡ n / 1000000
twice_divided n = omega arith

past_due :
    (now n : ℕ)
    → 4294967296 ≤ now
    → now < 2 ^ 63
    → n < 2 ^ 32
    → u64 (now + (n + (2 ^ 64 - 2 ^ 32))) < now
past_due now n h g l = omega arith

due_exact : (now n : ℕ) → now < 2 ^ 63 → n < 2 ^ 32 → u64 (now + n) ≡ now + n
due_exact now n h l = omega arith

-- The milliseconds of nanosleep: from 2^31 on the int is negative.
nanosleep_ms_lem :
    (sec nsec now : ℕ)
    → nsec < 1000000000
    → 4294967296 ≤ now
    → now < 2 ^ 63
    → (sec * 1000 + nsec / 1000000 < 2 ^ 31
        → (nanosleep_ms sec nsec * 1000000 ≤ sec * 1000000000 + nsec)
          × (sec * 1000000000 + nsec < nanosleep_ms sec nsec * 1000000 + 1000000))
      × (2 ^ 31 ≤ sec * 1000 + nsec / 1000000
          → sec * 1000 + nsec / 1000000 < 2 ^ 32
          → u64 (now + nanosleep_ms sec nsec) < now)
unfolding nanosleep_ms
nanosleep_ms_lem sec nsec now h n1 n2 =
    let ms = sec * 1000 + nsec / 1000000 in
    let total : sec * 1000 + nsec / 1000 / 1000 ≡ ms = omega (arith, twice_divided nsec) in
    (
      (λ short.
          let same : nanosleep_ms sec nsec ≡ ms = rw total (as_u64_small ms short) in
          (omega arith, omega arith)),
      (λ long under. rw (total, as_u64_negative ms long under) (past_due now ms n1 n2 under)),
    )

-- A hooked sleep of up to 4294967 seconds puts the fiber to bed: a timer that fires once is in the set,
-- due after the seconds, its function is the one that schedules the fiber, and no other timer changes.
pub sleep_correct :
    {K M S : Type 0} (w : World K M S) (sleep_f : S → S × ℕ) (seconds closure addr now : ℕ)
    → w.hook_enable ≡ true
    → seconds ≤ 4294967
    → Inv w.io.timers
    → elem addr w.io.timers.timers ≡ false
    → (w' : World K M S) × (sleep w closure addr now true sleep_f seconds ≡ ok (w', asleep addr))
      × Inv w'.io.timers
      × (elem addr w'.io.timers.timers ≡ true)
      × (w'.io.timers.heap
          ≡ update w.io.timers.heap addr
              (new_timer (seconds * 1000) (some (user closure)) false now))
unfolding sleep nap
sleep_correct w sleep_f seconds closure addr now on small v fresh =
    let cb = some (user closure) in
    let (pipe, added) =
      timer_added_lem w.io (add_timer w.io.timers addr (seconds * 1000) cb false now) in
    let (v', there, heap) = add_timer_lem w.io.timers addr (seconds * 1000) cb false now fresh v in
    (
      record w {
        io = record w.io {
          timers = (add_timer w.io.timers addr (seconds * 1000) cb false now).0;
          pipe = pipe;
        };
      },
      simp (on, (sleep_ms_lem seconds).0 small, added),
      v',
      there,
      heap,
    )

-- A hooked nanosleep, where the nanoseconds are less than a second, the clock is between 2^32 and 2^63, the
-- timer is a new object, the timers are consistent and a write to the pipe succeeds, puts the fiber to bed:
-- a timer that fires once is in the set, its function is the one that schedules the fiber, and no other
-- timer changes. For less than 2^31 milliseconds the timer is due after whole milliseconds, never later
-- than asked and earlier by less than one. From 2^31 to 2^32 milliseconds it is due before the present.
pub nanosleep_correct :
    {K M S : Type 0} (w : World K M S) (nanosleep_f : S → S × ℕ) (sec nsec closure addr now : ℕ)
    → w.hook_enable ≡ true
    → nsec < 1000000000
    → 4294967296 ≤ now
    → now < 2 ^ 63
    → Inv w.io.timers
    → elem addr w.io.timers.timers ≡ false
    → (w' : World K M S) × (due : ℕ) × (nanosleep w closure addr now true nanosleep_f sec nsec
        ≡ ok (w', asleep addr))
      × Inv w'.io.timers
      × (elem addr w'.io.timers.timers ≡ true)
      × (w'.os ≡ w.os)
      × ((w'.io.timers.heap addr).next ≡ due)
      × ((w'.io.timers.heap addr).cb ≡ some (user closure))
      × ((w'.io.timers.heap addr).recurring ≡ false)
      × ((b : ℕ) → (addr == b) ≡ false → w'.io.timers.heap b ≡ w.io.timers.heap b)
      × (sec * 1000 + nsec / 1000000 < 2 ^ 31
          → (now ≤ due)
            × ((due - now) * 1000000 ≤ sec * 1000000000 + nsec)
            × (sec * 1000000000 + nsec < (due - now) * 1000000 + 1000000))
      × (2 ^ 31 ≤ sec * 1000 + nsec / 1000000 → sec * 1000 + nsec / 1000000 < 2 ^ 32 → due < now)
unfolding nanosleep nap new_timer
nanosleep_correct w nanosleep_f sec nsec closure addr now on h n1 n2 v fresh =
    let cb = some (user closure) in
    let ms = nanosleep_ms sec nsec in
    let (pipe, added) = timer_added_lem w.io (add_timer w.io.timers addr ms cb false now) in
    let (v', there, heap) = add_timer_lem w.io.timers addr ms cb false now fresh v in
    let mine =
      ap (λ f. f addr) heap ∙ update_self w.io.timers.heap addr (new_timer ms cb false now) in
    let (short, long) = nanosleep_ms_lem sec nsec now h n1 n2 in
    (
      record w {
        io = record w.io { timers = (add_timer w.io.timers addr ms cb false now).0; pipe = pipe };
      },
      u64 (now + ms),
      simp (on, added),
      v',
      there,
      refl,
      ap (λ t. t.next) mine,
      ap (λ t. t.cb) mine,
      ap (λ t. t.recurring) mine,
      (λ b ne. ap (λ f. f b) heap ∙ ground arith),
      (λ small.
          let (low, high) = short small in
          let exact : u64 (now + ms) ≡ now + ms = due_exact now ms n2 (omega arith) in
          rw exact (omega arith, omega arith, omega arith)),
      long,
    )
