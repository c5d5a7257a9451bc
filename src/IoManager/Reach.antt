-- ===== src/IoManager/Reach.antt =====
-- Histories of an IOManager of duan_src/iomanager.cc, from its constructor on.
use coroutine.Prelude.{ok, ℕ, ◌≡◌, Bool, true, false, Option, some, arith, []}
use coroutine.IoManager.{
  Schedulers, Event, Events, Op, IoManager, new_io_manager, context_resize, add_event, del_event,
  cancel_event,
}
use coroutine.IoManager.Dispatch.{cancel_all, handle_event, descriptor, Ready}
use coroutine.IoManager.Invariant.{IsConsistent}
use coroutine.IoManager.Growth.{new_contexts-IsGood, sum-new_contexts, length-new_contexts}
use coroutine.IoManager.Kept.{
  add_event-IsConsistent, del_event-IsConsistent, cancel_event-IsConsistent,
  cancel_all-IsConsistent, handle_event-IsConsistent,
}
use coroutine.Timer.{TimerManager, create}

module _ {K : Type 0} (ctl : K → Op → (fd : ℕ) → Events → K × Bool) where
  -- An operation on events that returns, with whatever answer, or anything that happens to the
  -- schedulers, the timers and the pipe. addEvent is called by a thread that has a scheduler.
  pub data Step (io : IoManager K) : IoManager K → Type 0 where
    adds :
        (fd : ℕ) (e : Event) (cb : Option ℕ) (a fiber : ℕ) (exec : Bool) {io' : IoManager K}
        {b : Bool}
        → add_event ctl io fd e cb (some a) fiber exec ≡ ok (io', b)
        → Step io io'
    deletes :
        (fd : ℕ) (e : Event) {io' : IoManager K} {b : Bool}
        → del_event ctl io fd e ≡ ok (io', b)
        → Step io io'
    cancels :
        (fd : ℕ) (e : Event) {io' : IoManager K} {b : Bool}
        → cancel_event ctl io fd e ≡ ok (io', b)
        → Step io io'
    cancels_all :
        (fd : ℕ) {io' : IoManager K} {b : Bool} → cancel_all ctl io fd ≡ ok (io', b) → Step io io'
    handles :
        (fd : ℕ) (r : Ready) {io' : IoManager K}
        → handle_event ctl io (descriptor fd) r ≡ ok io'
        → Step io io'
    others :
        (schedulers : Schedulers) (timers : TimerManager) (pipe : ℕ)
        → Step io (record io { schedulers = schedulers; timers = timers; pipe = pipe })

  pub data Reach : IoManager K → Type 0 where
    starts :
        (self : ℕ) (schedulers : Schedulers) (now : ℕ) (made piped nonblocking : Bool)
        (asked : K × Bool) {io : IoManager K}
        → new_io_manager self schedulers now made piped nonblocking asked ≡ ok io
        → Reach io
    later : {io io' : IoManager K} → Reach io → Step io io' → Reach io'

  contexts-IsConsistent :
      (self : ℕ) (schedulers : Schedulers) (timers : TimerManager) (k : K)
      → IsConsistent (record {
        self = self;
        schedulers = schedulers;
        timers = timers;
        pending = 0;
        contexts = context_resize [] 32;
        kernel = k;
        pipe = 0;
      })
  unfolding context_resize
  contexts-IsConsistent self schedulers timers k = record {
    contexts_good = new_contexts-IsGood 0 32;
    pending_counts = omega (arith, sum-new_contexts 0 32);
    two_slots = omega (arith, length-new_contexts 0 32);
  }

  new_io_manager-IsConsistent :
      (self : ℕ) (schedulers : Schedulers) (now : ℕ) (made piped nonblocking : Bool)
      (asked : K × Bool) (io : IoManager K)
      → new_io_manager self schedulers now made piped nonblocking asked ≡ ok io
      → IsConsistent io
  unfolding new_io_manager
  new_io_manager-IsConsistent self schedulers now true true true (k, true) io e =
      let same : io ≡ record {
        self = self;
        schedulers = schedulers;
        timers = create now;
        pending = 0;
        contexts = context_resize [] 32;
        kernel = k;
        pipe = 0;
      } =
        ground arith in
      rw same (contexts-IsConsistent self schedulers (create now) k)
  new_io_manager-IsConsistent self schedulers now true true true (k, false) io e =
      absurd (ground arith)
  new_io_manager-IsConsistent self schedulers now true true false asked io e = absurd (ground arith)
  new_io_manager-IsConsistent self schedulers now true false nonblocking asked io e =
      absurd (ground arith)
  new_io_manager-IsConsistent self schedulers now false piped nonblocking asked io e =
      absurd (ground arith)

  Step-IsConsistent : {io io' : IoManager K} → Step io io' → IsConsistent io → IsConsistent io'
  Step-IsConsistent {io} {io'} (adds fd e cb a fiber exec {b = b} run) h =
      add_event-IsConsistent ctl io h fd e cb a fiber exec io' b run
  Step-IsConsistent {io} {io'} (deletes fd e {b = b} run) h =
      del_event-IsConsistent ctl io h fd e io' b run
  Step-IsConsistent {io} {io'} (cancels fd e {b = b} run) h =
      cancel_event-IsConsistent ctl io h fd e io' b run
  Step-IsConsistent {io} {io'} (cancels_all fd {b = b} run) h =
      cancel_all-IsConsistent ctl io h fd io' b run
  Step-IsConsistent {io} {io'} (handles fd r run) h =
      handle_event-IsConsistent ctl io h fd r io' run
  Step-IsConsistent {io} (others schedulers timers pipe) h = record {
    contexts_good = h.contexts_good;
    pending_counts = h.pending_counts;
    two_slots = h.two_slots;
  }

  -- From the constructor on, where every call of addEvent is made by a thread that has a scheduler:
  -- whatever operations return in whatever order and whatever epoll_ctl answers, every context carries its own descriptor, an event is registered exactly where a scheduler
  -- and a fiber or a function wait for it, and m_pendingEventCount is the number of registered events.
  pub Reach-IsConsistent : {io : IoManager K} → Reach io → IsConsistent io
  Reach-IsConsistent (starts self schedulers now made piped nonblocking asked e) =
      new_io_manager-IsConsistent self schedulers now made piped nonblocking asked _ e
  Reach-IsConsistent (later r step) = Step-IsConsistent step (Reach-IsConsistent r)
