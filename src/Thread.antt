-- ===== src/Thread.antt =====
-- duan_src/thread.h and duan_src/thread.cc: guards of locks, the spinning CASLock, and threads.
--
-- pthread and the semaphores are the system's. A call of theirs is recorded, or its outcome is an
-- argument.
pub mod Guards
mod Balance
pub mod Locks
mod System
mod Compiles
pub mod CasLock
mod Exclusion
pub mod Start
mod Handshake
mod Recorded
mod Tests
use coroutine.Prelude.{
  Result, ok, throws, ℕ, zero, suc, ◌+◌, Bool, true, false, not, List, [], ◌∷◌, ◌++◌, Option, none,
  some, ltb, ◌==◌, if◌then◌else◌, is_some, take,
}
use coroutine.Log.{String}

-- "UNKNOW"
abbrev pub unknown_name : String
unknown_name = 85 ∷ 78 ∷ 75 ∷ 78 ∷ 79 ∷ 87 ∷ []

-- The members of Thread but for the semaphore. `handle` is m_thread, 0 for `none`.
pub record Thread : Type 0 where
  pub id : Option ℕ
  pub handle : Option ℕ
  pub cb : Option ℕ
  pub name : String

-- `name` of the constructor, where an empty one is replaced.
abbrev pub given_name : String → String
given_name [] = unknown_name
given_name (c ∷ name) = c ∷ name

-- The members as the constructor sets them, in front of pthread_create.
unfoldable pub new_thread : (cb : ℕ) → (name : String) → Thread
new_thread cb name = record { id = none; handle = none; cb = some cb; name = given_name name }

-- Thread::join, where `joined` tells whether pthread_join succeeds. The list holds the calls of
-- pthread_join.
unfoldable pub join : Thread → (joined : Bool) → Result (Thread × List ℕ)
join t joined = elim t.handle [
  | none ↦ ok (t, [])
  | some h ↦ if joined then ok (record t { handle = none }, h ∷ []) else throws
]

-- Thread::~Thread, as the calls of pthread_detach.
unfoldable pub destroy : Thread → List ℕ
destroy t = elim t.handle [ none ↦ [] | some h ↦ h ∷ [] ]

-- t_thread and t_thread_name of one thread.
pub record Local : Type 0 where
  pub thread : Option ℕ
  pub thread_name : String

-- The thread-local variables of a thread that no Thread started.
abbrev pub new_local : Local
new_local = record { thread = none; thread_name = unknown_name }

-- Thread::SetName in a thread with these variables; the objects are in a heap.
unfoldable pub set_name : (ℕ → Thread) → Local → (name : String) → (ℕ → Thread) × Local
set_name heap l [] = (heap, l)
set_name heap l (c ∷ name) = (
  elim l.thread [
    | none ↦ heap
    | some t ↦ λ a. if t == a then record (heap a) { name = c ∷ name } else heap a
  ],
  record l { thread_name = c ∷ name },
)

-- Thread::GetName and Thread::GetThis
abbrev pub get_name : Local → String
get_name l = l.thread_name

abbrev pub get_this : Local → Option ℕ
get_this l = l.thread
