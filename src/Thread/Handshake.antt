-- ===== src/Thread/Handshake.antt =====
-- What the constructor of a Thread waits for, and what that is worth (duan_src/thread.cc).
use coroutine.Prelude.{
  [], ◌∷◌, ℕ, ◌≤◌, ◌≡◌, Bool, true, false, arith, refl, ltb, zero, suc, ◌∙◌, ◌≢◌,
}
use coroutine.Log.{String}
use coroutine.Thread.{new_thread, join}
use coroutine.Thread.Start.{
  Owner, creating, waiting, owning, gone, Run, absent, at_this, at_name, at_id, at_setname, at_swap,
  at_notify, at_call, over, System, start, touch, run_step, create_ok, create_fails, wait,
  join_step, drop, rename, renames_to, Step, runs, creates, fails, returns, joins, drops, Reach,
  begin, later,
}

-- The thread has not posted the semaphore.
abbrev pub is_early : Run → Bool
is_early at_call = false
is_early over = false
is_early absent = false
is_early _ = true

-- How many statements are left up to the post, and 0 behind it.
abbrev pub before_post : Run → ℕ
before_post at_this = 6
before_post at_name = 5
before_post at_id = 4
before_post at_setname = 3
before_post at_swap = 2
before_post at_notify = 1
before_post _ = 0

-- How many statements of Thread::run are done.
abbrev pub done : Run → ℕ
done absent = 0
done at_this = 0
done at_name = 1
done at_id = 2
done at_setname = 3
done at_swap = 4
done at_notify = 5
done at_call = 6
done over = 7

-- The owner has the object from the constructor, or had it.
abbrev pub is_returned : Owner → Bool
is_returned owning = true
is_returned gone = true
is_returned _ = false

-- The two threads in step: the owner waits while the new thread is on its way to the post.
pub record IsStarted (s : System) : Type 0 where
  pub idle : s.owner ≡ creating → (s.run ≡ absent) × (s.permits ≡ 0) × (s.alive ≡ true)
  pub early : is_early s.run ≡ true → (s.owner ≡ waiting) × (s.permits ≡ 0)
  pub late : s.owner ≡ waiting → before_post s.run ≡ 0 → s.permits ≡ 1
  pub posted : is_returned s.owner ≡ true → ltb 5 (done s.run) ≡ true
  pub born : s.owner ≡ waiting → s.run ≢ absent
  pub kept : s.owner ≡ waiting → s.alive ≡ true
  pub sound : s.faults ≡ 0

run_step-IsStarted : (self tid : ℕ) (s : System) → IsStarted s → IsStarted (run_step self tid s)
unfolding run_step touch
run_step-IsStarted self tid s v = record {
  idle = λ h. ground (arith, v.idle, v.early);
  early = λ h. ground (arith, v.early);
  late = λ h g. ground (arith, v.late, v.early);
  posted = λ h. ground (arith, v.early, v.posted);
  born = λ h e. ground (arith, v.born);
  kept = λ h. ground (arith, v.kept);
  sound = ground (arith, v.sound, v.early, v.kept);
}

rename-IsStarted :
    (self : ℕ) (name : String) (s : System)
    → s.run ≡ at_call
    → IsStarted s
    → IsStarted (rename self name s)
unfolding rename
rename-IsStarted self [] s at v = v
rename-IsStarted self (c ∷ name) s at v = record {
  idle = v.idle;
  early = v.early;
  late = v.late;
  posted = v.posted;
  born = v.born;
  kept = v.kept;
  sound = v.sound;
}

Step-IsStarted : {self tid : ℕ} {s t : System} → Step self tid s t → IsStarted s → IsStarted t
unfolding create_ok create_fails wait join_step join drop
Step-IsStarted {self} {tid} {s} runs v = run_step-IsStarted self tid s v
Step-IsStarted {self} {s = s} (renames_to name at) v = rename-IsStarted self name s at v
Step-IsStarted {s = s} (creates handle o) v = record {
  idle = λ h. ground arith;
  early = λ h. ground (arith, v.idle, v.late, v.posted);
  late = λ h g. ground arith;
  posted = λ h. ground arith;
  born = λ h e. ground arith;
  kept = λ h. ground (arith, v.idle);
  sound = v.sound;
}
Step-IsStarted {s = s} (fails o) v = record {
  idle = λ h. ground arith;
  early = λ h. ground (arith, v.idle);
  late = λ h g. ground arith;
  posted = λ h. ground arith;
  born = λ h e. ground arith;
  kept = λ h. ground arith;
  sound = v.sound;
}
Step-IsStarted {s = s} (returns o p) v = record {
  idle = λ h. ground arith;
  early = λ h. ground (arith, v.early);
  late = λ h g. ground arith;
  posted = λ h. ground (arith, v.early);
  born = λ h e. ground arith;
  kept = λ h. ground arith;
  sound = v.sound;
}
Step-IsStarted {s = s} (joins o r) v = record {
  idle = λ h. ground (arith, v.idle);
  early = λ h. ground (arith, v.early);
  late = λ h g. ground (arith, v.late);
  posted = λ h. ground (arith, v.posted);
  born = λ h e. ground (arith, v.born);
  kept = λ h. ground (arith, v.kept);
  sound = ground (arith, v.sound);
}
Step-IsStarted {s = s} (drops o) v = record {
  idle = λ h. ground arith;
  early = λ h. ground (arith, v.early);
  late = λ h g. ground arith;
  posted = λ h. ground (arith, v.posted);
  born = λ h e. ground arith;
  kept = λ h. ground arith;
  sound = v.sound;
}

pub Reach-IsStarted :
    {self tid cb : ℕ} {name : String} {s : System} → Reach self tid cb name s → IsStarted s
unfolding start new_thread
Reach-IsStarted begin = record {
  idle = λ h. (refl, refl, refl);
  early = λ h. ground arith;
  late = λ h g. ground arith;
  posted = λ h. ground arith;
  born = λ h e. ground arith;
  kept = λ h. ground arith;
  sound = refl;
}
Reach-IsStarted (later r step) = Step-IsStarted step (Reach-IsStarted r)

-- The new thread alone, for some statements.
abbrev pub run_steps : (self tid : ℕ) → ℕ → System → System
run_steps self tid zero s = s
run_steps self tid (suc k) s = run_steps self tid k (run_step self tid s)

run_step-before_post :
    (self tid k : ℕ) (s : System)
    → before_post s.run ≡ suc k
    → (before_post (run_step self tid s).run ≡ k) × ((run_step self tid s).owner ≡ s.owner)
unfolding run_step touch
run_step-before_post self tid k s h = ground arith

run_steps-IsStarted :
    (self tid k : ℕ) (s : System)
    → IsStarted s
    → s.owner ≡ waiting
    → before_post s.run ≡ k
    → (run_steps self tid k s).permits ≡ 1
run_steps-IsStarted self tid zero s v o h = v.late o h
run_steps-IsStarted self tid (suc k) s v o h =
    let (h', o') = run_step-before_post self tid k s h in
    run_steps-IsStarted self tid k (run_step self tid s) (run_step-IsStarted self tid s v) (o' ∙ o)
      h'

before_post_bound : (r : Run) → before_post r ≤ 6
before_post_bound r = ground arith

-- A constructor that waits for its thread is let go on: at most six more statements of Thread::run, and
-- the semaphore holds one permit.
pub wait_ends :
    {self tid cb : ℕ} {name : String} {s : System}
    → Reach self tid cb name s
    → s.owner ≡ waiting
    → (k : ℕ) × (k ≤ 6) × ((run_steps self tid k s).permits ≡ 1)
wait_ends {self} {tid} {s = s} r o = (
  before_post s.run,
  before_post_bound s.run,
  run_steps-IsStarted self tid (before_post s.run) s (Reach-IsStarted r) o refl,
)
