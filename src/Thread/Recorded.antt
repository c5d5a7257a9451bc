-- ===== src/Thread/Recorded.antt =====
-- What Thread::run leaves in the object and in its thread, and what becomes of the thread's handle.
use coroutine.Prelude.{
  ℕ, ◌+◌, ◌≡◌, ◌⊎◌, inl, inr, List, true, [], ◌∷◌, none, some, if◌then◌else◌, arith, take, refl,
  length, ltb, length-append, is_some,
}
use coroutine.Log.{String}
use coroutine.Thread.{new_thread, join, destroy, given_name, set_name}
use coroutine.Thread.Start.{
  creating, waiting, owning, failed, gone, System, start, touch, run_step, create_ok, create_fails,
  wait, join_step, drop, rename, renames_to, at_call, Step, runs, creates, fails, returns, joins,
  drops, Reach, begin, later,
}
use coroutine.Thread.Handshake.{IsStarted, done, Reach-IsStarted}

-- The name of a thread: the one that its function set last, or that of the constructor.
abbrev pub current : (given : String) → (renames : List String) → String
current given [] = given
current given (n ∷ ns) = n

-- What the statements leave, whichever way the owner goes on.
record IsRecorded (self tid cb : ℕ) (name : String) (s : System) : Type 0 where
  named : s.object.name ≡ current (given_name name) s.renames
  unnamed : ltb (done s.run) 6 ≡ true → s.renames ≡ []
  in_time : s.alive ≡ true → s.late ≡ 0
  thread : s.local.thread ≡ (if ltb 0 (done s.run) then some self else none)
  thread_name :
      ltb 1 (done s.run) ≡ true → s.local.thread_name ≡ current (given_name name) s.renames
  id : s.object.id ≡ (if ltb 2 (done s.run) then some tid else none)
  kernel_name :
      s.kernel_name ≡ (if ltb 3 (done s.run) then some (take 15 (given_name name)) else none)
  swapped : s.object.cb ≡ (if ltb 4 (done s.run) then none else some cb)
  taken : s.taken ≡ (if ltb 4 (done s.run) then some cb else none)
  called : s.called ≡ (if ltb 6 (done s.run) then cb ∷ [] else [])

run_step-IsRecorded :
    {self tid cb : ℕ} {name : String} (s : System)
    → IsRecorded self tid cb name s
    → IsRecorded self tid cb name (run_step self tid s)
unfolding run_step touch
run_step-IsRecorded s v = record {
  named = ground (arith, v.named);
  unnamed = λ h. ground (arith, v.unnamed);
  in_time = λ h. ground (arith, v.in_time);
  thread = ground (arith, v.thread);
  thread_name = λ h. ground (arith, v.thread_name, v.named);
  id = ground (arith, v.id);
  kernel_name = ground (arith, v.kernel_name, v.named, v.unnamed);
  swapped = ground (arith, v.swapped);
  taken = ground (arith, v.taken, v.swapped);
  called = ground (arith, v.called, v.taken);
}

rename-IsRecorded :
    {self tid cb : ℕ} {name : String} (new : String) (s : System)
    → s.run ≡ at_call
    → IsRecorded self tid cb name s
    → IsRecorded self tid cb name (rename self new s)
unfolding rename set_name
rename-IsRecorded [] s at v = v
rename-IsRecorded (c ∷ new) s at v = record {
  named = ground (arith, v.thread);
  unnamed = λ h. ground arith;
  in_time = λ h. ground (arith, v.in_time);
  thread = ground (arith, v.thread);
  thread_name = λ h. refl;
  id = ground (arith, v.id, v.thread);
  kernel_name = v.kernel_name;
  swapped = ground (arith, v.swapped, v.thread);
  taken = v.taken;
  called = v.called;
}

Step-IsRecorded :
    {self tid cb : ℕ} {name : String} {s t : System}
    → Step self tid s t
    → IsStarted s
    → IsRecorded self tid cb name s
    → IsRecorded self tid cb name t
unfolding create_ok create_fails wait join_step join drop
Step-IsRecorded {s = s} runs i v = run_step-IsRecorded s v
Step-IsRecorded {s = s} (renames_to new at) i v = rename-IsRecorded new s at v
Step-IsRecorded {s = s} (creates handle o) i v = record {
  named = v.named;
  unnamed = λ h. ground (arith, v.unnamed, i.idle);
  in_time = λ h. ground (arith, v.in_time);
  thread = ground (arith, v.thread, i.idle);
  thread_name = λ h. ground arith;
  id = ground (arith, v.id, i.idle);
  kernel_name = ground (arith, v.kernel_name, i.idle);
  swapped = ground (arith, v.swapped, i.idle);
  taken = ground (arith, v.taken, i.idle);
  called = ground (arith, v.called, i.idle);
}
Step-IsRecorded (fails o) i v = record {
  named = v.named;
  unnamed = v.unnamed;
  in_time = λ h. ground (arith, v.in_time);
  thread = v.thread;
  thread_name = v.thread_name;
  id = v.id;
  kernel_name = v.kernel_name;
  swapped = v.swapped;
  taken = v.taken;
  called = v.called;
}
Step-IsRecorded (returns o p) i v = record {
  named = v.named;
  unnamed = v.unnamed;
  in_time = λ h. ground (arith, v.in_time);
  thread = v.thread;
  thread_name = v.thread_name;
  id = v.id;
  kernel_name = v.kernel_name;
  swapped = v.swapped;
  taken = v.taken;
  called = v.called;
}
Step-IsRecorded {s = s} (joins o r) i v = record {
  named = ground (arith, v.named);
  unnamed = λ h. ground (arith, v.unnamed, i.idle);
  in_time = λ h. ground (arith, v.in_time);
  thread = ground (arith, v.thread);
  thread_name = λ h. ground (arith, v.thread_name);
  id = ground (arith, v.id);
  kernel_name = ground (arith, v.kernel_name);
  swapped = ground (arith, v.swapped);
  taken = ground (arith, v.taken);
  called = ground (arith, v.called);
}
Step-IsRecorded (drops o) i v = record {
  named = v.named;
  unnamed = v.unnamed;
  in_time = λ h. ground (arith, v.in_time);
  thread = v.thread;
  thread_name = v.thread_name;
  id = v.id;
  kernel_name = v.kernel_name;
  swapped = v.swapped;
  taken = v.taken;
  called = v.called;
}

Reach-IsRecorded :
    {self tid cb : ℕ} {name : String} {s : System}
    → Reach self tid cb name s
    → IsRecorded self tid cb name s
unfolding start new_thread
Reach-IsRecorded begin = record {
  named = refl;
  unnamed = λ h. refl;
  in_time = λ h. refl;
  thread = refl;
  thread_name = λ h. ground arith;
  id = refl;
  kernel_name = refl;
  swapped = refl;
  taken = refl;
  called = refl;
}
Reach-IsRecorded (later r step) = Step-IsRecorded step (Reach-IsStarted r) (Reach-IsRecorded r)

-- However the two threads take turns, where the function of the thread may call SetName: no statement of
-- Thread::run reaches for the object behind its destructor, and no call of SetName does as long as
-- the owner has not deleted the object. Once the constructor has returned, the object has the number of
-- its thread, and the name that its function set last or else that of the constructor, which the thread
-- knows as its own; its function has moved to the thread, and the kernel got the first 15 bytes of the
-- name of the constructor. The function is called once, and only behind the post.
pub Reach-started :
    {self tid cb : ℕ} {name : String} {s : System}
    → Reach self tid cb name s
    → (s.faults ≡ 0)
      × (s.alive ≡ true → s.late ≡ 0)
      × (s.owner ≡ owning
          → (s.object.id ≡ some tid)
            × (s.object.cb ≡ none)
            × (s.taken ≡ some cb)
            × (s.object.name ≡ current (given_name name) s.renames)
            × (s.local.thread ≡ some self)
            × (s.local.thread_name ≡ current (given_name name) s.renames)
            × (s.kernel_name ≡ some (take 15 (given_name name))))
      × (s.called ≡ (if ltb 6 (done s.run) then cb ∷ [] else []))
Reach-started {s = s} r =
    let v = Reach-IsStarted r in
    let w = Reach-IsRecorded r in
    (
      v.sound,
      w.in_time,
      λ o.
          let past = v.posted (ground arith) in
          (
            ground (arith, w.id),
            ground (arith, w.swapped),
            ground (arith, w.taken),
            w.named,
            ground (arith, w.thread),
            ground (arith, w.thread_name),
            ground (arith, w.kernel_name),
          ),
      w.called,
    )

-- The owner's calls for the handle, by where it is.
record IsReaped (s : System) : Type 0 where
  idle :
      (s.owner ≡ creating) ⊎ (s.owner ≡ failed) ⊎ (s.owner ≡ waiting)
      → (s.joined ≡ []) × (s.detached ≡ [])
  handled : s.owner ≡ waiting → is_some s.object.handle ≡ true
  once : s.owner ≡ owning → (length s.joined + length (destroy s.object) ≡ 1) × (s.detached ≡ [])
  reaped : s.owner ≡ gone → length s.joined + length s.detached ≡ 1

rename-IsReaped :
    (self : ℕ) (name : String) (s : System) → IsReaped s → IsReaped (rename self name s)
unfolding rename set_name destroy
rename-IsReaped self [] s v = v
rename-IsReaped self (c ∷ name) s v = record {
  idle = v.idle;
  handled = λ h. ground (arith, v.handled);
  once = λ h. ground (arith, v.once);
  reaped = v.reaped;
}

Step-IsReaped : {self tid : ℕ} {s t : System} → Step self tid s t → IsReaped s → IsReaped t
unfolding run_step touch create_ok create_fails wait join_step join drop destroy
Step-IsReaped {s = s} runs v = record {
  idle = λ h. ground (arith, v.idle);
  handled = λ h. ground (arith, v.handled);
  once = λ h. ground (arith, v.once);
  reaped = λ h. ground (arith, v.reaped);
}
Step-IsReaped {self} {s = s} (renames_to name at) v = rename-IsReaped self name s v
Step-IsReaped {s = s} (creates handle o) v = record {
  idle = λ _. v.idle (inl o);
  handled = λ h. refl;
  once = λ h. ground arith;
  reaped = λ h. ground arith;
}
Step-IsReaped {s = s} (fails o) v = record {
  idle = λ _. v.idle (inl o);
  handled = λ h. ground arith;
  once = λ h. ground arith;
  reaped = λ h. ground arith;
}
Step-IsReaped {s = s} (returns o p) v = record {
  idle = λ h. ground arith;
  handled = λ h. ground arith;
  once = λ h. ground (arith, v.idle (inr (inr o)), v.handled o);
  reaped = λ h. ground arith;
}
Step-IsReaped {s = s} (joins o p) v = record {
  idle = λ h. ground arith;
  handled = λ h. ground arith;
  once = λ h. ground (arith, v.once, length-append s.joined (destroy s.object));
  reaped = λ h. ground arith;
}
Step-IsReaped {s = s} (drops o) v = record {
  idle = λ h. ground arith;
  handled = λ h. ground arith;
  once = λ h. ground arith;
  reaped = λ h. ground (arith, v.once);
}

Reach-IsReaped :
    {self tid cb : ℕ} {name : String} {s : System} → Reach self tid cb name s → IsReaped s
unfolding start new_thread
Reach-IsReaped begin = record {
  idle = λ h. (refl, refl);
  handled = λ h. ground arith;
  once = λ h. ground arith;
  reaped = λ h. ground arith;
}
Reach-IsReaped (later r step) = Step-IsReaped step (Reach-IsReaped r)

-- The handle of a thread that was created is given back exactly once: whatever number of times its owner
-- calls join, when the object is deleted the calls of pthread_join and of pthread_detach together are
-- one.
pub Reach-reaped :
    {self tid cb : ℕ} {name : String} {s : System}
    → Reach self tid cb name s
    → s.owner ≡ gone
    → length s.joined + length s.detached ≡ 1
Reach-reaped r o = (Reach-IsReaped r).reaped o
