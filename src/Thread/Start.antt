-- ===== src/Thread/Start.antt =====
-- Thread::Thread, Thread::run, Thread::join and Thread::~Thread as the steps of two threads.
--
-- A Thread object is at the address `self`, its function is `cb`, its name `name`, and the kernel gives
-- the new thread the number `tid`. An access of a statement of Thread::run to the object behind its
-- destructor is counted as a fault, and one of a call of Thread::SetName apart, as late. Of the function
-- of the thread only the calls of SetName are followed, which it can make any number of times.
use coroutine.Prelude.{
  ok, ℕ, ◌+◌, ◌-◌, ◌<◌, ◌≡◌, Bool, true, false, List, [], ◌∷◌, ◌++◌, Option, none, some,
  if◌then◌else◌, take,
}
use coroutine.Log.{String}
use coroutine.Thread.{Thread, new_thread, join, destroy, Local, new_local, set_name}

-- Where the constructor and the owner of the object are.
pub data Owner : Type 0 where
  creating waiting owning failed gone : Owner

-- The statement of Thread::run that comes next.
pub data Run : Type 0 where
  absent at_this at_name at_id at_setname at_swap at_notify at_call over : Run

pub record System : Type 0 where
  pub object : Thread
  pub alive : Bool
  pub permits : ℕ
  pub owner : Owner
  pub run : Run
  pub local : Local
  pub kernel_name : Option String
  pub taken : Option ℕ
  pub called : List ℕ
  pub detached : List ℕ
  pub joined : List ℕ
  pub faults : ℕ
  pub renames : List String
  pub late : ℕ

-- In front of pthread_create
unfoldable pub start : (cb : ℕ) → (name : String) → System
unfolding new_thread
start cb name = record {
  object = new_thread cb name;
  alive = true;
  permits = 0;
  owner = creating;
  run = absent;
  local = new_local;
  kernel_name = none;
  taken = none;
  called = [];
  detached = [];
  joined = [];
  faults = 0;
  renames = [];
  late = 0;
}

-- An access to the object
unfoldable pub touch : System → System
touch s = if s.alive then s else record s { faults = s.faults + 1 }

-- A statement of Thread::run.
unfoldable pub run_step : (self tid : ℕ) → System → System
unfolding touch
run_step self tid s = elim s.run [
  | absent ↦ s
  | at_this ↦ record s { local = record s.local { thread = some self }; run = at_name }
  | at_name ↦
      let s = touch s in
      record s { local = record s.local { thread_name = s.object.name }; run = at_id }
  | at_id ↦
      let s = touch s in record s { object = record s.object { id = some tid }; run = at_setname }
  | at_setname ↦
      let s = touch s in record s { kernel_name = some (take 15 s.object.name); run = at_swap }
  | at_swap ↦
      let s = touch s in
      record s { taken = s.object.cb; object = record s.object { cb = none }; run = at_notify }
  | at_notify ↦ let s = touch s in record s { permits = s.permits + 1; run = at_call }
  | at_call ↦ record s {
    called = s.called ++ elim s.taken [ none ↦ [] | some cb ↦ cb ∷ [] ];
    run = over;
  }
  | over ↦ s
]

-- Thread::SetName in the function of the thread; `renames` has the names that it took, the last one first.
unfoldable pub rename : (self : ℕ) → (name : String) → System → System
unfolding set_name
rename self [] s = s
rename self (c ∷ name) s =
    let named = set_name (λ _. s.object) s.local (c ∷ name) in
    record s {
      object = named.0 self;
      local = named.1;
      renames = (c ∷ name) ∷ s.renames;
      late = elim s.local.thread [
        | none ↦ s.late
        | some t ↦ if s.alive then s.late else s.late + 1
      ];
    }

-- pthread_create gives the handle and lets the thread start.
unfoldable pub create_ok : (handle : ℕ) → System → System
create_ok handle s = record s {
  object = record s.object { handle = some handle };
  run = at_this;
  owner = waiting;
}

-- pthread_create fails, and the constructor throws.
unfoldable pub create_fails : System → System
create_fails s = record s { alive = false; owner = failed }

-- m_semaphore.wait() goes through, and the constructor returns.
unfoldable pub wait : System → System
wait s = record s { permits = s.permits - 1; owner = owning }

-- join() by the owner; pthread_join returns when the thread is over.
unfoldable pub join_step : System → System
unfolding join
join_step s = elim (join s.object true) [
  | ok (t, calls) ↦ record s { object = t; joined = s.joined ++ calls }
  | _ ↦ s
]

-- The owner deletes the object.
unfoldable pub drop : System → System
unfolding destroy
drop s = record s { alive = false; owner = gone; detached = s.detached ++ destroy s.object }

pub data Step (self tid : ℕ) (s : System) : System → Type 0 where
  runs : Step self tid s (run_step self tid s)
  renames_to : (name : String) → s.run ≡ at_call → Step self tid s (rename self name s)
  creates : (handle : ℕ) → s.owner ≡ creating → Step self tid s (create_ok handle s)
  fails : s.owner ≡ creating → Step self tid s (create_fails s)
  returns : s.owner ≡ waiting → 0 < s.permits → Step self tid s (wait s)
  joins : s.owner ≡ owning → s.run ≡ over → Step self tid s (join_step s)
  drops : s.owner ≡ owning → Step self tid s (drop s)

pub data Reach (self tid cb : ℕ) (name : String) : System → Type 0 where
  begin : Reach self tid cb name (start cb name)
  later : {s t : System} → Reach self tid cb name s → Step self tid s t → Reach self tid cb name t
