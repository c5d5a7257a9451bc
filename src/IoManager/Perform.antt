-- ===== src/IoManager/Perform.antt =====
-- A call of addEvent, delEvent or cancelEvent of duan_src/iomanager.cc, and what it does.
use coroutine.Prelude.{Result, ok, ℕ, ◌≡◌, Bool, Option, some}
use coroutine.IoManager.{Event, Events, Op, IoManager, add_event, del_event, cancel_event}
use coroutine.IoManager.Invariant.{IsConsistent}
use coroutine.IoManager.Refines.{
  Adds, Deletes, Cancels, add_event-Adds, del_event-Deletes, cancel_event-Cancels,
}

-- A call of one of the three operations.
pub data Request : Type 0 where
  add_request : (cb : Option ℕ) (a fiber : ℕ) (exec : Bool) → Request
  del_request cancel_request : Request

module _ {K : Type 0} (ctl : K → Op → (fd : ℕ) → Events → K × Bool) (io : IoManager K) (fd : ℕ)
    (e : Event) where
  abbrev pub perform : Request → Result (IoManager K × Bool)
  perform (add_request cb a fiber exec) = add_event ctl io fd e cb (some a) fiber exec
  perform del_request = del_event ctl io fd e
  perform cancel_request = cancel_event ctl io fd e

  -- What the call does to the map of waiters and to the schedulers, by what it returns.
  abbrev pub Effect : Request → IoManager K → Bool → Type 0
  Effect (add_request cb a fiber exec) = Adds io fd e cb a fiber
  Effect del_request = Deletes io fd e
  Effect cancel_request = Cancels io fd e

  -- addEvent, delEvent and cancelEvent, by a thread with a scheduler, are updates of a map from
  -- descriptors and events to what waits. A call that returns false leaves the map and the schedulers.
  -- One that returns true: addEvent enters the function, or else the fiber, where nothing waited; delEvent
  -- and cancelEvent take out what waited, and cancelEvent hands it to its scheduler. No other entry
  -- changes, also when the vector of contexts grows.
  pub perform-Effect :
      (r : Request) (io' : IoManager K) (b : Bool)
      → IsConsistent io
      → perform r ≡ ok (io', b)
      → Effect r io' b
  perform-Effect (add_request cb a fiber exec) io' b h run =
      add_event-Adds ctl io h fd e cb a fiber exec io' b run
  perform-Effect del_request io' b h run = del_event-Deletes ctl io h fd e io' b run
  perform-Effect cancel_request io' b h run = cancel_event-Cancels ctl io h fd e io' b run
