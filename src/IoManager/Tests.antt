-- ===== src/IoManager/Tests.antt =====
-- Runs of duan_src/iomanager.cc with a kernel that counts the calls of epoll_ctl.
use coroutine.Prelude.{
  inc, ok, ◌>>=◌, ℕ, ◌+◌, ◌≡◌, refl, Bool, true, false, [], ◌∷◌, none, some, arith, set,
  if◌then◌else◌, ◌==◌,
}
use coroutine.Scheduler.{Scheduler}
use coroutine.IoManager.{
  with_event, read_event, register, new_io_manager, context_resize, write_event, Events, no_events,
  any_event, FdContext, reset_context, new_context, Op, IoManager, post, cancel_event, add_event,
}
use coroutine.Timer.{detect_clock_rollover, user, on_timer, create, get_next_timer}
use coroutine.Timer.Invariant.{Inv}
use coroutine.Scheduler.Queue.{fn_tasks}
use coroutine.IoManager.Dispatch.{
  cancel_all, handle_event, descriptor, Ready, stopping_with, idle_round,
}
use coroutine.IoManager.Invariant.{IsConsistent, waiting_task}
use coroutine.IoManager.Perform.{add_request, perform, Effect, perform-Effect}
use coroutine.IoManager.Reach.{Reach, starts, later, adds, Reach-IsConsistent}
use coroutine.IoManager.Register.{add-cancel, arrival}
use coroutine.IoManager.Handle.{cancel_all_correct, handle_event_correct}
use coroutine.IoManager.Waiting.{idle_round-timers}

abbrev pub granting : ℕ → Op → (fd : ℕ) → Events → ℕ × Bool
granting k op fd m = (k + 1, true)

abbrev pub waiting_on_read : FdContext
waiting_on_read = record {
  read = record { scheduler = some 0; fiber = some 5; cb = none };
  write = reset_context;
  fd = 0;
  events = record { read = true; write = false };
}

abbrev quiet : Scheduler
quiet = record {
  fibers = [];
  threads = [];
  thread_ids = [];
  thread_count = 1;
  active = 0;
  idle = 0;
  stopping = true;
  auto_stop = true;
  root_thread = none;
  root_fiber = none;
}

abbrev pub manager : IoManager ℕ
manager = record {
  self = 0;
  schedulers = record { scheduler = λ _. quiet; tickled = [] };
  timers = record {
    heap = λ _. record { recurring = false; ms = 0; next = 0; cb = none };
    timers = [];
    tickled = false;
    previous_time = 0;
  };
  pending = 1;
  contexts = waiting_on_read ∷ new_context 1 ∷ [];
  kernel = 0;
  pipe = 0;
}

pub manager-IsConsistent : IsConsistent manager
manager-IsConsistent = record {
  contexts_good = ((refl, refl, refl), ((refl, refl, refl), tt));
  pending_counts = refl;
  two_slots = omega arith;
}

pub no_timers-Inv : Inv manager.timers
no_timers-Inv = record { sorted = tt; registered = λ a h. absurd (ground arith) }

manager_busy : (stopping_with manager 10).2 ≡ false
unfolding stopping_with get_next_timer
manager_busy = refl

abbrev arrived : Ready
arrived = record { input = true; output = false; error = false; hangup = false }

abbrev closed : Ready
closed = record { input = false; output = false; error = false; hangup = true }

add-cancel_example :
    (io' : IoManager ℕ) × ((do
      added ← add_event granting manager 4 write_event (some 7) (some 0) 9 true
      cancel_event granting added.0 4 write_event)
      ≡ ok (io', true))
    × (io'.schedulers ≡ post manager.schedulers 0 (waiting_task (arrival (some 7) 0 9)))
    × (cancel_event granting io' 4 write_event ≡ ok (io', false))
    × IsConsistent io'
add-cancel_example =
    add-cancel granting manager manager-IsConsistent 4 write_event (some 7) 0 9 true
      (λ e. absurd (ground arith)) refl refl refl refl

cancel_all_correct_example :
    (io' : IoManager ℕ) × (c' : FdContext) × (cancel_all granting manager 0 ≡ ok (io', true))
    × (io'.schedulers ≡ post manager.schedulers 0 (waiting_task waiting_on_read.read))
    × (io'.contexts ≡ set manager.contexts 0 c')
    × (any_event c'.events ≡ false)
    × IsConsistent io'
cancel_all_correct_example =
    cancel_all_correct granting manager manager-IsConsistent 0 waiting_on_read refl refl refl

handle_event_correct_example :
    (io' : IoManager ℕ) × (c' : FdContext) × (handle_event granting manager (descriptor 0) arrived
      ≡ ok io')
    × (io'.schedulers ≡ post manager.schedulers 0 (waiting_task waiting_on_read.read))
    × (io'.contexts ≡ set manager.contexts 0 c')
    × (c'.events ≡ no_events)
    × IsConsistent io'
handle_event_correct_example =
    handle_event_correct granting manager manager-IsConsistent 0 waiting_on_read refl arrived
      (λ t. refl) (λ t. absurd (ground arith)) refl refl

-- The manager with a timer that fires once at 4000120 and one for every 50 ms, due at 4000150.
abbrev timed_manager : IoManager ℕ
timed_manager = record manager {
  timers = record {
    heap = λ a.
        if a == 3
        then record { recurring = false; ms = 20; next = 4000120; cb = some (user 2) }
        else if a == 7
        then record { recurring = true; ms = 50; next = 4000150; cb = some (user 1) }
        else record { recurring = false; ms = 0; next = 0; cb = none };
    timers = 3 ∷ 7 ∷ [];
    tickled = false;
    previous_time = 4000100;
  };
}

timed-Inv : Inv timed_manager.timers
timed-Inv = record { sorted = ((refl, tt), (tt, tt)); registered = λ a h. ground arith }

timed_busy : (stopping_with timed_manager 4000110).2 ≡ false
unfolding stopping_with get_next_timer
timed_busy = refl

-- Ten milliseconds behind the first, the round queues the function 2 and leaves the other.
idle_round-timers_example :
    (io' : IoManager ℕ) × (idle_round granting
        (λ f. elim f [ user n ↦ n | on_timer c n ↦ n ])
        timed_manager
        4000110
        4000130
        9
        []
      ≡ ok (some io'))
    × ((io'.schedulers.scheduler 0).fibers ≡ fn_tasks (some 2 ∷ []))
    × Inv io'.timers
unfolding detect_clock_rollover
idle_round-timers_example =
    idle_round-timers granting (λ f. elim f [ user n ↦ n | on_timer c n ↦ n ]) timed_manager 4000110
      4000130 9 timed-Inv timed_busy

-- A new manager, and the fiber 9 that waits to read from its descriptor 4.
abbrev first_io : IoManager ℕ
first_io = record manager {
  timers = create 0;
  pending = 0;
  contexts = context_resize [] 32;
  kernel = 0;
}

abbrev added_io : IoManager ℕ
added_io = record first_io {
  pending = 1;
  contexts = set (context_resize [] 32) 4 (record (new_context 4) {
    read = arrival none 0 9;
    events = with_event no_events read_event;
  });
  kernel = 1;
}

first_io-Reach : Reach granting first_io
unfolding new_io_manager context_resize
first_io-Reach = starts 0 manager.schedulers 0 true true true (0, true) refl

registered_read :
    perform granting first_io 4 read_event (add_request none 0 9 true) ≡ ok (added_io, true)
unfolding context_resize add_event register inc
registered_read = refl

Reach-IsConsistent_example : IsConsistent added_io
Reach-IsConsistent_example =
    Reach-IsConsistent granting
      (later first_io-Reach (adds 4 read_event none 0 9 true registered_read))

perform-Effect_example :
    Effect granting first_io 4 read_event (add_request none 0 9 true) added_io true
perform-Effect_example =
    perform-Effect granting first_io 4 read_event (add_request none 0 9 true) added_io true
      (Reach-IsConsistent granting first_io-Reach) registered_read
