-- ===== src/Fiber/Switch.antt =====
-- Turns of a fiber of duan_src/fiber.cc: from a swap in to the swap out that ends it.
use coroutine.Prelude.{
  ok, abort, fault, ℕ, ◌≡◌, ◌≢◌, ◌⊎◌, refl, Bool, true, false, none, some, arith, update,
}
use coroutine.Fiber.{
  State, init, hold, exec, term, ready, except, is_exec, Fiber, World, Turn, yields_ready,
  yields_hold, swaps_out, returns, throws_std, throws_other, get_this, swap_in, swap_out, call,
  take_turn, resume,
}

-- The state in which each way to end a turn leaves the fiber.
abbrev pub left_in : Turn → State
left_in yields_ready = ready
left_in yields_hold = hold
left_in swaps_out = exec
left_in returns = term
left_in throws_std = except
left_in throws_other = except

-- A turn ends on the main fiber: that fiber runs again and is the current one, and nothing has
-- changed but the fiber that had the turn, which keeps its number and its stack.
pub record Ended (w w' : World) (f main : ℕ) (turn : Turn) : Type 0 where
  pub running : w'.running ≡ main
  pub current : w'.current ≡ some main
  pub state : (w'.heap f).state ≡ left_in turn
  pub id : (w'.heap f).id ≡ (w.heap f).id
  pub stack : (w'.heap f).stack ≡ (w.heap f).stack
  pub others : (g : ℕ) → g ≢ f → w'.heap g ≡ w.heap g
  pub count : w'.fiber_count ≡ w.fiber_count
  pub main_fiber : w'.main_fiber ≡ w.main_fiber
  pub thread_fiber : w'.thread_fiber ≡ w.thread_fiber

-- What a fiber can be when it is given a turn.
abbrev pub is_resumable : State → Bool
is_resumable init = true
is_resumable hold = true
is_resumable ready = true
is_resumable _ = false

abbrev entered : World → ℕ → World
entered w f = record w {
  heap = update w.heap f (record (w.heap f) { state = exec });
  current = some f;
  running = f;
}

abbrev ended : World → (f main : ℕ) → Fiber → World
ended w f main fiber = record w {
  heap = update w.heap f fiber;
  current = some main;
  running = main;
}

-- The world behind a turn that started in `w`.
turned : World → (f main : ℕ) → Turn → World
turned w f main swaps_out = record w { current = some main; running = main }
turned w f main returns = ended w f main (record (w.heap f) { state = term; cb = none })
turned w f main turn = ended w f main (record (w.heap f) { state = left_in turn })

swap_in_resumable :
    (w : World) (f main : ℕ)
    → w.main_fiber ≡ some main
    → is_exec (w.heap f).state ≡ false
    → swap_in w f ≡ ok (entered w f)
unfolding swap_in
swap_in_resumable w f main e h = ground arith

swap_out_inner :
    (w : World) (f main : ℕ)
    → w.main_fiber ≡ some main
    → f ≢ main
    → swap_out w f ≡ ok (record w { current = some main; running = main })
unfolding swap_out
swap_out_inner w f main e h = ground arith

take_turn_inner :
    (w : World) (f main addr : ℕ) (turn : Turn)
    → w.current ≡ some f
    → w.main_fiber ≡ some main
    → f ≢ main
    → take_turn w addr turn ≡ ok (turned w f main turn)
unfolding take_turn turned get_this
take_turn_inner w f main addr yields_ready c e h = ground arith
take_turn_inner w f main addr yields_hold c e h = ground arith
take_turn_inner w f main addr swaps_out c e h = ground arith
take_turn_inner w f main addr returns c e h = ground arith
take_turn_inner w f main addr throws_std c e h = ground arith
take_turn_inner w f main addr throws_other c e h = ground arith

turned-Ended :
    (w : World) (f main : ℕ) (turn : Turn) → Ended w (turned (entered w f) f main turn) f main turn
unfolding turned
turned-Ended w f main yields_ready = ground arith
turned-Ended w f main _ = ground arith

-- A fiber that is new, held or ready, and is not the main fiber, takes a turn: however the turn
-- ends, control is back at the main fiber and the fiber is left in the state that fits the end.
pub resume_resumable :
    (w : World) (f main addr : ℕ) (turn : Turn)
    → w.main_fiber ≡ some main
    → f ≢ main
    → is_resumable (w.heap f).state ≡ true
    → (w' : World) × (resume w f addr turn ≡ ok w') × Ended w w' f main turn
unfolding resume
resume_resumable w f main addr turn e h s = (
  turned (entered w f) f main turn,
  ground (
    arith,
    swap_in_resumable w f main e,
    take_turn_inner (entered w f) f main addr turn refl e h,
  ),
  turned-Ended w f main turn,
)

-- The turns that are refused. A fiber that runs already fails the assertion of swapIn; on a thread
-- without a main fiber a null pointer is read; and a fiber whose function has ended, if it is given
-- a turn without a reset, reaches the assertion that is never to be reached.
pub resume_refused :
    (w : World) (f main addr : ℕ) (turn : Turn)
    → (is_exec (w.heap f).state ≡ true → resume w f addr turn ≡ abort)
      × (is_exec (w.heap f).state ≡ false → w.main_fiber ≡ none → resume w f addr turn ≡ fault)
      × (w.main_fiber ≡ some main
          → ((w.heap f).state ≡ term) ⊎ ((w.heap f).state ≡ except)
          → resume w f addr turn ≡ abort)
unfolding resume swap_in
resume_refused w f main addr turn = (λ h. ground arith, λ h e. ground arith, λ e h. ground arith)

-- The fiber on which a scheduler runs in its caller's thread: a call gives it control, and its own
-- swap out, as it is the main fiber, gives control back to the fiber of the thread.
pub call-swap_out :
    (w : World) (root thread : ℕ)
    → w.main_fiber ≡ some root
    → w.thread_fiber ≡ some thread
    → (w' : World) × (w'' : World) × (call w root ≡ ok w')
      × (w'.running ≡ root)
      × ((w'.heap root).state ≡ exec)
      × (swap_out w' root ≡ ok w'')
      × (w''.running ≡ thread)
      × (w''.current ≡ some thread)
unfolding call swap_out
call-swap_out w root thread e h = (
  entered w root,
  record (entered w root) { current = some thread; running = thread },
  ground arith,
  refl,
  ground arith,
  ground arith,
  refl,
  refl,
)
