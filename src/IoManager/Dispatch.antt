-- ===== src/IoManager/Dispatch.antt =====
-- IOManager::cancelAll and the rounds of IOManager::idle, duan_src/iomanager.cc.
use coroutine.Prelude.{
  ◌++◌, Result, ok, fault, assert, ◌>>=◌, ◌>>◌, dec, ℕ, ◌%◌, ◌^◌, Bool, true, false, ◌&&◌, ◌||◌,
  not, List, [], ◌∷◌, map, Option, none, some, ltb, ◌==◌, if◌then◌else◌, update, get_elem?, set,
}
use coroutine.Scheduler.{schedule_batch, is_stopping}
use coroutine.Timer.{Callback, get_next_timer, list_expired_cb, no_timeout}
use coroutine.IoManager.{
  Schedulers, Event, read_event, write_event, Events, no_events, has, any_event, FdContext, Op,
  ctl_mod, ctl_del, IoManager, trigger_event,
}

-- The state that a pass over the events of one descriptor changes.
pub record Firing : Type 0 where
  pub schedulers : Schedulers
  pub context : FdContext
  pub pending : ℕ

-- `if(wanted){ fd_ctx->triggerEvent(event); --m_pendingEventCount; }`
unfoldable pub fire_if : (wanted : Bool) → Event → Firing → Result Firing
unfolding trigger_event
fire_if false event f = ok f
fire_if true event f = do
  fired ← trigger_event f.schedulers f.context event
  ok (record { schedulers = fired.0; context = fired.1; pending = dec f.pending })

abbrev pub firing : {K : Type 0} → IoManager K → FdContext → Firing
firing io c = record { schedulers = io.schedulers; context = c; pending = io.pending }

abbrev pub settle : {K : Type 0} → IoManager K → (fd : ℕ) → K → Firing → IoManager K
settle io fd kernel f = record io {
  schedulers = f.schedulers;
  pending = f.pending;
  contexts = set io.contexts fd f.context;
  kernel = kernel;
}

-- What epoll_wait reports of a descriptor: EPOLLIN, EPOLLOUT, EPOLLERR, EPOLLHUP.
pub record Ready : Type 0 where
  pub input : Bool
  pub output : Bool
  pub error : Bool
  pub hangup : Bool

-- `real_events`: an error or a hangup counts as both.
abbrev pub real_events : Ready → Events
real_events r = record {
  read = r.input || r.error || r.hangup;
  write = r.output || r.error || r.hangup;
}

-- `events & real_events` and `events & ~real_events`
abbrev pub common : Events → Events → Events
common m r = record { read = m.read && r.read; write = m.write && r.write }

abbrev pub minus : Events → Events → Events
minus m r = record { read = m.read && not r.read; write = m.write && not r.write }

-- Where an event comes from: the pipe of tickle(), or a descriptor.
pub data Source : Type 0 where
  tickle_pipe : Source
  descriptor : (fd : ℕ) → Source

module _ {K : Type 0} (ctl : K → Op → (fd : ℕ) → Events → K × Bool) where
  -- IOManager::cancelAll
  unfoldable pub cancel_all : IoManager K → (fd : ℕ) → Result (IoManager K × Bool)
  unfolding fire_if
  cancel_all io fd = elim (get_elem? io.contexts fd) [
    | none ↦ ok (io, false)
    | some c ↦
        let asked = ctl io.kernel ctl_del fd no_events in
        if not (any_event c.events) then ok (io, false) else elim asked.1 [
          | false ↦ ok (record io { kernel = asked.0 }, false)
          | true ↦ do
            f ← fire_if (has c.events read_event) read_event (firing io c)
            g ← fire_if (has f.context.events write_event) write_event f
            assert (not (any_event g.context.events))
            ok (settle io fd asked.0 g, true)
        ]
  ]

  -- One event of epoll_wait in IOManager::idle.
  unfoldable pub handle_event : IoManager K → Source → Ready → Result (IoManager K)
  unfolding fire_if
  handle_event io tickle_pipe r = ok (record io { pipe = 0 })
  handle_event io (descriptor fd) r = elim (get_elem? io.contexts fd) [
    | none ↦ fault
    | some c ↦
        let real = real_events r in
        let left_events = minus c.events real in
        let op = if any_event left_events then ctl_mod else ctl_del in
        let asked = ctl io.kernel op c.fd left_events in
        if not (any_event (common c.events real)) then ok io else elim asked.1 [
          | false ↦ ok (record io { kernel = asked.0 })
          | true ↦ do
            f ← fire_if real.read read_event (firing io c)
            g ← fire_if real.write write_event f
            ok (settle io fd asked.0 g)
        ]
  ]

  unfoldable pub handle_events : IoManager K → List (Source × Ready) → Result (IoManager K)
  unfolding handle_event
  handle_events io [] = ok io
  handle_events io ((source, r) ∷ events) = do
    io' ← handle_event io source r
    handle_events io' events

-- IOManager::stopping(timeout), with the timeout that it hands out.
unfoldable pub stopping_with : {K : Type 0} → IoManager K → (now : ℕ) → IoManager K × ℕ × Bool
stopping_with io now =
    let (timers, timeout) = get_next_timer io.timers now in
    (
      record io { timers = timers },
      timeout,
      timeout == no_timeout && io.pending == 0 && is_stopping (io.schedulers.scheduler io.self),
    )

-- A cast to int: the low 32 bits, which are negative from 2 ^ 31 on.
abbrev is_positive_int : ℕ → Bool
is_positive_int n = ltb (n % 2 ^ 32) (2 ^ 31)

abbrev pub max_timeout : ℕ
max_timeout = 3000

-- The timeout for epoll_wait in IOManager::idle; `none` stands for a negative one, which waits
-- without end.
unfoldable pub wait_time : (next_timeout : ℕ) → Option ℕ
wait_time next_timeout =
    let chosen =
      if next_timeout == no_timeout
      then max_timeout
      else if is_positive_int next_timeout && ltb max_timeout (next_timeout % 2 ^ 32)
      then max_timeout
      else next_timeout in
    if is_positive_int chosen then some (chosen % 2 ^ 32) else none

-- The functions of expired timers go to the manager's own queue. `name` names the function that a
-- timer holds.
unfoldable pub schedule_expired :
    {K : Type 0} → (name : Callback → ℕ) → IoManager K → List (Option Callback) → IoManager K
schedule_expired name io [] = io
schedule_expired name io (cb ∷ cbs) =
    let fns = map (λ c. elim c [ none ↦ none | some f ↦ some (name f) ]) (cb ∷ cbs) in
    let batch = schedule_batch (io.schedulers.scheduler io.self) fns false in
    record io {
      schedulers = record {
        scheduler = update io.schedulers.scheduler io.self batch.0;
        tickled = if batch.2 then io.schedulers.tickled ++ io.self ∷ [] else io.schedulers.tickled;
      };
    }

-- One round of IOManager::idle up to its swapOut, where `events` is what epoll_wait reports; `none`
-- leaves the loop.
unfoldable pub idle_round :
    {K : Type 0}
    → (ctl : K → Op → (fd : ℕ) → Events → K × Bool) → (name : Callback → ℕ) → IoManager K
    → (now woken addr : ℕ) → List (Source × Ready)
    → Result (Option (IoManager K))
unfolding stopping_with schedule_expired handle_events
idle_round ctl name io now woken addr events =
    let asked = stopping_with io now in
    elim asked.2 [
      | true ↦ ok none
      | false ↦ do
        expired ← list_expired_cb asked.0.timers woken addr
        let io' = schedule_expired name (record asked.0 { timers = expired.0 }) expired.1
        done ← handle_events ctl io' events
        ok (some done)
    ]
