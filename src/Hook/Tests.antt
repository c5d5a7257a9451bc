-- ===== src/Hook/Tests.antt =====
-- Runs of duan_src/hook.cc, and its theorems at a concrete system and FdMgr.
use coroutine.Prelude.{
  [], ◌∷◌, ok, ℕ, ◌+◌, ◌<◌, ◌≡◌, ◌≢◌, ◌↔◌, refl, Bool, true, false, not, none, some, is_some, ◌%◌,
  ◌/◌, ◌*◌, ◌-◌, ◌^◌, ◌≤◌, elem, ◌==◌, arith, if◌then◌else◌, update, get_elem?,
}
use coroutine.IoManager.{FdContext, any_event, read_event, write_event, Events, Op, post}
use coroutine.IoManager.Invariant.{IsConsistent, waiting_task}
use coroutine.IoManager.Tests.{
  granting, manager, manager-IsConsistent, no_timers-Inv, waiting_on_read,
}
use coroutine.Hook.{
  Outcome, returned, failed, eintr, eagain, etimedout, einprogress, fails_with, TimeoutOption,
  rcvtimeo, sndtimeo, FdMgr, World, Caller,
}
use coroutine.Hook.Io.{
  Call, parked, finished, call_through, hooked, read_fn, IoFunction, resume_io, on_timeout, park,
  attempt,
}
use coroutine.Hook.Connect.{connect_with_timeout, resume_connect}
use coroutine.Hook.Sleep.{nanosleep, asleep}
use coroutine.Timer.{user}
use coroutine.Timer.Invariant.{Inv}
use coroutine.Hook.Flags.{FileFlags, Libc, setfl, getfl, flags, outcome, fcntl, close}
use coroutine.Hook.Interrupts.{IsInterrupted, call_through_lem}
use coroutine.Hook.Parking.{IsParked, timers_of, timers_of-Inv}
use coroutine.Hook.Calls.{IsHooked, hooked_parks, hooked_call}
use coroutine.Hook.Timeout.{on_timeout_correct}
use coroutine.Hook.Course.{Wait, calls, Reach, begin, later}
use coroutine.Hook.Endings.{IsEnding, Reach-IsEnding}
use coroutine.Hook.Connecting.{IsPending, connect_too_early, resume_connect_correct}
use coroutine.Hook.Closing.{close_correct}
use coroutine.Hook.Delays.{nanosleep_correct}
use coroutine.Hook.Nonblock.{IsFaithful, setfl-getfl}

-- Every descriptor is an open socket whose context is at the descriptor's own number, with the system's
-- O_NONBLOCK.
record Table : Type 0 where
  user_nonblock : ℕ → Bool
  ms : ℕ → TimeoutOption → ℕ

abbrev set_ms : Table → ℕ → TimeoutOption → ℕ → Table
set_ms t a rcvtimeo n = record t {
  ms = update t.ms a (λ o. elim o [ rcvtimeo ↦ n | sndtimeo ↦ t.ms a sndtimeo ]);
}
set_ms t a sndtimeo n = record t {
  ms = update t.ms a (λ o. elim o [ rcvtimeo ↦ t.ms a rcvtimeo | sndtimeo ↦ n ]);
}

abbrev sockets : FdMgr Table
sockets = record {
  get = λ t fd auto_create. (t, some fd);
  del = λ t fd. t;
  is_close = λ t a. false;
  is_socket = λ t a. true;
  get_user_nonblock = λ t a. t.user_nonblock a;
  set_user_nonblock = λ t a b. record t { user_nonblock = update t.user_nonblock a b };
  get_sys_nonblock = λ t a. true;
  get_timeout = λ t a o. t.ms a o;
  set_timeout = set_ms;
}

abbrev blocking : Table
blocking = record { user_nonblock = λ _. false; ms = λ _ _. 5000 }

sockets-IsFaithful : IsFaithful sockets
sockets-IsFaithful = record {
  get_keeps = λ m fd ctx h. refl;
  get_after_user = λ m fd a b. refl;
  user_set = λ m a b. ground arith;
  user_sys = λ m a b. refl;
  user_close = λ m a b. refl;
  user_socket = λ m a b. refl;
  get_after_timeout = λ m fd a o ms. refl;
  timeout_set = λ m a o ms. ground arith;
}

-- The first call is interrupted, and there is nothing to read up to the fourth.
abbrev slow : ℕ → ℕ × Outcome
slow s = (s + 1, if s == 0 then failed eintr else if s == 3 then returned 8 else failed eagain)

abbrev world : World ℕ Table ℕ
world = record { io = manager; fds = blocking; os = 0; hook_enable = true }

slow-IsInterrupted : IsInterrupted slow 1 0
slow-IsInterrupted = record { interrupts = λ i h. ground arith; ends = refl }

call_through_lem_example :
    (call_through slow 2 0 ≡ some (2, failed eagain)) × (fails_with eintr (failed eagain) ≡ false)
call_through_lem_example = call_through_lem slow 1 2 0 slow-IsInterrupted (omega arith)

-- A read from the descriptor 1, with the timer at 40 at the time 100.
abbrev read_call : Call
read_call = hooked_call sockets read_fn world 1 1 30 31

abbrev reader : Caller
reader = record { scheduler = some 0; fiber = 9; exec = true }

read-IsHooked : IsHooked sockets read_fn world 1 1 30 31
read-IsHooked = record {
  enabled = refl;
  known = refl;
  opened = refl;
  socket = refl;
  blocking = refl;
}

abbrev origin : (f : IoFunction) → ℕ → ℕ × Outcome
origin f = slow

hooked_parks_example :
    (w' : World ℕ Table ℕ) × (hooked granting sockets origin read_fn 2 world 1 reader 30 31 40 100
        true
      ≡ some (ok (w', parked (some 40))))
    × IsParked w'.io read_call 0 9
    × (w'.io.timers ≡ timers_of manager read_call 40 100)
    × (w'.os ≡ 2)
hooked_parks_example =
    hooked_parks sockets read_fn world 1 1 30 31 granting origin 40 100 1 2 0 9 manager-IsConsistent
      read-IsHooked slow-IsInterrupted (omega arith) refl no_timers-Inv refl refl refl

-- The fiber 5 of the scheduler at 0 waits to read from the descriptor 0, with a timer at 40.
abbrev waiting_read : Call
waiting_read = record { fd = 0; event = read_event; to = 5000; tinfo = 30; closure = 31 }

waiting-IsParked : IsParked manager waiting_read 0 5
waiting-IsParked = record {
  consistent = manager-IsConsistent;
  timers = no_timers-Inv;
  context = waiting_on_read;
  at = refl;
  registered = refl;
  waits = refl;
}

on_timeout_correct_example :
    (w' : World ℕ Table ℕ) × (on_timeout granting world waiting_read true 0 ≡ ok (w', etimedout))
    × (w'.io.schedulers
        ≡ post manager.schedulers 0 (record { fiber = some 5; cb = none; thread = none }))
    × IsConsistent w'.io
    × ((w2 : World ℕ Table ℕ) × (resume_io w' etimedout (some 40)
          ≡ ok (w2, finished (failed etimedout))))
    × (on_timeout granting w' waiting_read true etimedout ≡ ok (w', etimedout))
    × (on_timeout granting w' waiting_read false 0 ≡ ok (w', 0))
on_timeout_correct_example =
    on_timeout_correct granting world waiting_read 0 5 (some 40) waiting-IsParked refl

-- A read that is interrupted and then has its bytes.
abbrev second : ℕ → ℕ × Outcome
second s = (s + 1, if s == 0 then failed eintr else returned 8)

abbrev read_end : Wait ℕ Table ℕ
read_end = record {
  outcomes = returned 8 ∷ failed eintr ∷ [];
  world = record world { os = 2 };
  phase = finished (returned 8);
  cancelled = 0;
}

read_ends : Reach granting second read_call reader world read_end
unfolding attempt call_through park
read_ends = later begin (calls 2 40 100 true refl refl)

Reach-IsEnding_example : IsEnding granting second read_call reader read_end
Reach-IsEnding_example = Reach-IsEnding granting second read_call reader read_ends refl

-- A connection that is in progress, whose socket has no error yet.
abbrev begins : ℕ → ℕ × Outcome
begins s = (s + 1, failed einprogress)

abbrev no_error : ℕ → ℕ × Outcome
no_error s = (s, returned 0)

begins-IsPending : IsPending granting sockets begins no_error world 1 5000 30 31 1
begins-IsPending = record {
  enabled = refl;
  known = refl;
  opened = refl;
  socket = refl;
  blocking = refl;
  started = refl;
}

-- epoll_ctl that fails.
abbrev refusing : ℕ → Op → (fd : ℕ) → Events → ℕ × Bool
refusing k op fd m = (k, false)

refused-IsPending : IsPending refusing sockets begins no_error world 1 5000 30 31 1
refused-IsPending = record {
  enabled = refl;
  known = refl;
  opened = refl;
  socket = refl;
  blocking = refl;
  started = refl;
}

abbrev connection : Call
connection = record { fd = 1; event = write_event; to = 5000; tinfo = 30; closure = 31 }

connect_too_early_example :
    (w' : World ℕ Table ℕ) × (connect_with_timeout no_error refusing sockets begins world 1 5000
        reader 30 31 40 100 true
      ≡ ok (w', finished (returned 0)))
connect_too_early_example =
    connect_too_early refusing sockets begins no_error world 1 5000 30 31 1 refused-IsPending 40 100
      manager-IsConsistent refl reader no_timers-Inv refl refl refl

-- A connection that was refused, and its wait that has the timer at 40.
abbrev refused : ℕ → ℕ × Outcome
refused s = (s + 1, returned 111)

abbrev connecting : World ℕ Table ℕ
connecting = record world { io = record manager { timers = timers_of manager connection 40 100 } }

abbrev none_noted : ℕ
none_noted = 0

resume_connect_correct_example :
    (w' : World ℕ Table ℕ) × (n : Outcome) × (resume_connect refused connecting none_noted (some 40)
      ≡ ok (w', finished n))
    × (is_some (w'.io.timers.heap 40).cb ≡ false)
    × (none_noted ≢ 0 → n ≡ failed none_noted)
    × (none_noted ≡ 0 → (n ≡ returned 0) ↔ (returned 111 ≡ returned 0))
    × (none_noted ≡ 0 → (error : ℕ) → error ≢ 0 → returned 111 ≡ returned error → n ≡ failed error)
    × (none_noted ≡ 0 → (errno : ℕ) → returned 111 ≡ failed errno → n ≡ failed errno)
resume_connect_correct_example =
    resume_connect_correct refused connecting none_noted (some 40)
      (timers_of-Inv manager connection 40 100 refl no_timers-Inv)

-- Of the bits but O_NONBLOCK, F_SETFL keeps the access mode and sets O_APPEND.
abbrev settled : (before asked : ℕ) → ℕ
settled before asked = before % 4 + asked / 1024 % 2 * 1024

-- A C library over the flags of one descriptor.
abbrev one_file : Libc FileFlags
one_file = record {
  socket = λ s. (s, returned 1);
  close = λ s fd. (s, returned 0);
  set_fl = λ s fd f. (record { nonblock = f.nonblock; rest = settled s.rest f.rest }, returned 0);
  get_fl = λ s fd. (s, s);
  fcntl = λ s fd cmd arg. (s, returned 0);
  fionbio = λ s fd value. (record s { nonblock = not (value == 0) }, returned 0);
  ioctl = λ s fd request arg. (s, returned 0);
  setsockopt = λ s fd o. (s, returned 0);
}

abbrev files : World ℕ Table FileFlags
files = record {
  io = manager;
  fds = blocking;
  os = record { nonblock = true; rest = 2 };
  hook_enable = true;
}

abbrev wanted_flags : FileFlags
wanted_flags = record { nonblock = false; rest = 1025 }

close_correct_example :
    (w' : World ℕ Table FileFlags) × (c' : FdContext) × (close sockets one_file granting files 0
        true
      ≡ ok (w', returned 0))
    × (w'.io.schedulers ≡ post manager.schedulers 0 (waiting_task waiting_on_read.read))
    × (get_elem? w'.io.contexts 0 ≡ some c')
    × (any_event c'.events ≡ false)
    × (w'.fds ≡ blocking)
    × (w'.os ≡ record { nonblock = true; rest = 2 })
    × IsConsistent w'.io
close_correct_example =
    close_correct sockets one_file granting files 0 0 waiting_on_read manager-IsConsistent refl refl
      refl refl refl

setfl-getfl_example :
    ((fcntl sockets one_file files 1 (setfl wanted_flags)).1 ≡ outcome (returned 0))
    × ((fcntl sockets one_file (fcntl sockets one_file files 1 (setfl wanted_flags)).0 1 getfl).1
        ≡ flags (record { nonblock = false; rest = 1026 }))
    × ((fcntl sockets one_file files 1 (setfl wanted_flags)).0.os
        ≡ record { nonblock = true; rest = 1026 })
setfl-getfl_example =
    setfl-getfl sockets one_file sockets-IsFaithful files 1 1 refl refl refl settled wanted_flags 0
      refl (λ s f n h. refl)

abbrev instant_read : Call
instant_read = record read_call { to = 0 }

abbrev clock : ℕ
clock = 1732600000000

-- A nanosleep of 2147484 seconds, whose milliseconds are more than an int holds.
nanosleep_correct_example :
    (w' : World ℕ Table ℕ) × (due : ℕ) × (nanosleep world 31 40 clock true (λ s. (s, 0)) 2147484 0
      ≡ ok (w', asleep 40))
    × Inv w'.io.timers
    × (elem 40 w'.io.timers.timers ≡ true)
    × (w'.os ≡ 0)
    × ((w'.io.timers.heap 40).next ≡ due)
    × ((w'.io.timers.heap 40).cb ≡ some (user 31))
    × ((w'.io.timers.heap 40).recurring ≡ false)
    × ((b : ℕ) → (40 == b) ≡ false → w'.io.timers.heap b ≡ manager.timers.heap b)
    × (2147484000 < 2 ^ 31
        → (clock ≤ due)
          × ((due - clock) * 1000000 ≤ 2147484000000000)
          × (2147484000000000 < (due - clock) * 1000000 + 1000000))
    × (2 ^ 31 ≤ 2147484000 → 2147484000 < 2 ^ 32 → due < clock)
nanosleep_correct_example =
    nanosleep_correct world (λ s. (s, 0)) 2147484 0 31 40 clock refl (omega arith) (omega arith)
      (omega arith) no_timers-Inv refl
