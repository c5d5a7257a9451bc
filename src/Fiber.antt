-- ===== src/Fiber.antt =====
-- duan_src/fiber.h and duan_src/fiber.cc: fibers and the switches between them on one thread.
--
-- A `Fiber*` is an address; `heap` holds the object at each address. The thread-local pointers and
-- the global counters are fields of `World`. `running` names the fiber whose context the processor
-- executes: swapcontext saves it there and goes on with another. The function of a fiber is user
-- code: what it does with its turn is the argument `Turn`.
pub mod Switch
mod Life
mod Tests
use coroutine.Prelude.{
  ◌%◌, ◌^◌, Result, ok, abort, fault, assert, ◌>>=◌, ◌>>◌, ℕ, ◌+◌, ◌-◌, ◌^◌, ◌≡◌, Bool, true, false,
  ◌&&◌, ◌||◌, not, Option, none, some, ◌==◌, if◌then◌else◌, u64, is_some, update,
}

-- Fiber::State
pub data State : Type 0 where
  init hold exec term ready except : State

abbrev pub is_exec : State → Bool
is_exec exec = true
is_exec _ = false

-- `m_state == TERM || m_state == INIT || m_state == EXCEPT`
abbrev pub is_over : State → Bool
is_over init = true
is_over term = true
is_over except = true
is_over _ = false

-- The function that makecontext puts at the bottom of the stack.
pub data Entry : Type 0 where
  main_func caller_main_func : Entry

pub record Fiber : Type 0 where
  pub id : ℕ
  pub stacksize : ℕ
  pub state : State
  pub stack : Bool
  pub cb : Option ℕ
  pub entry : Option Entry

pub record World : Type 0 where
  pub heap : ℕ → Fiber
  pub fiber_id : ℕ
  pub fiber_count : ℕ
  pub current : Option ℕ
  pub thread_fiber : Option ℕ
  pub main_fiber : Option ℕ
  pub running : ℕ

abbrev put : World → ℕ → Fiber → World
put w f fiber = record w { heap = update w.heap f fiber }

abbrev set_state : World → ℕ → State → World
set_state w f s = put w f (record (w.heap f) { state = s })

-- Fiber::SetThis
pub set_this : World → Option ℕ → World
set_this w f = record w { current = f }

-- Fiber::GetFiberId
pub get_fiber_id : World → ℕ
get_fiber_id w = elim w.current [ none ↦ 0 | some f ↦ (w.heap f).id ]

-- Fiber::TotalFibers
pub total_fibers : World → ℕ
total_fibers w = w.fiber_count

abbrev main_object : Fiber
main_object = record { id = 0; stacksize = 0; state = exec; stack = false; cb = none; entry = none }

-- Fiber::Fiber(), the fiber of the thread itself, at the address `addr`.
pub new_main : World → ℕ → World
unfolding set_this
new_main w addr =
    let w' = set_this (put w addr main_object) (some addr) in
    record w' { fiber_count = u64 (w'.fiber_count + 1) }

-- Fiber::GetThis, where `addr` is the address of a new object, if one is made.
pub get_this : World → (addr : ℕ) → World × ℕ
unfolding new_main
get_this w addr = elim w.current [
  | some f ↦ (w, f)
  | none ↦ (record (new_main w addr) { thread_fiber = some addr }, addr)
]

-- Fiber::Fiber(cb, stacksize, use_caller). Both calls of makecontext are made, one after the other.
pub new_fiber : World → (addr cb stacksize : ℕ) → (use_caller : Bool) → (default_size : ℕ) → World
new_fiber w addr cb stacksize use_caller default_size =
    let id = u64 (w.fiber_id + 1) in
    let first = if use_caller then main_func else caller_main_func in
    let made : Fiber = record {
      id = id;
      stacksize = (if stacksize == 0 then default_size else stacksize) % 2 ^ 32;
      state = init;
      stack = true;
      cb = some cb;
      entry = some first;
    } in
    record w {
      heap = update w.heap addr (record made { entry = some main_func });
      fiber_id = id;
      fiber_count = u64 (w.fiber_count + 1);
    }

-- Fiber::~Fiber
pub destroy : World → ℕ → Result World
unfolding set_this
destroy w f =
    let fiber = w.heap f in
    let w' = record w { fiber_count = u64 (w.fiber_count + 2 ^ 64 - 1) } in
    if fiber.stack then (do assert (is_over fiber.state); ok w') else do
      assert (not (is_some fiber.cb))
      assert (is_exec fiber.state)
      ok (elim w.current [ none ↦ w' | some cur ↦ if cur == f then set_this w' none else w' ])

-- Fiber::reset
pub reset : World → ℕ → Option ℕ → Result World
reset w f cb = do
  assert (w.heap f).stack
  assert (is_over (w.heap f).state)
  ok (put w f (record (w.heap f) { cb = cb; entry = some main_func; state = init }))

-- swapcontext from the running fiber to `f`.
abbrev switch_to : World → ℕ → World
switch_to w f = record w { running = f }

-- Fiber::call
pub call : World → ℕ → Result World
unfolding set_this
call w f =
    let w' = set_state (set_this w (some f)) f exec in
    elim w.thread_fiber [ none ↦ fault | some _ ↦ ok (switch_to w' f) ]

-- Fiber::back has an empty body.
pub back : World → World
back w = w

-- Fiber::swapIn. A thread with no main fiber reads through a null pointer.
pub swap_in : World → ℕ → Result World
unfolding set_this
swap_in w f = do
  assert (not (is_exec (w.heap f).state))
  let w' = set_state (set_this w (some f)) f exec
  elim w.main_fiber [ none ↦ fault | some _ ↦ ok (switch_to w' f) ]

-- Fiber::swapOut: from a fiber to the main fiber of the scheduler, and from that one to the fiber of
-- the thread.
pub swap_out : World → ℕ → Result World
unfolding set_this
swap_out w f =
    if elim w.main_fiber [ none ↦ true | some main ↦ not (f == main) ]
    then elim w.main_fiber [
      | none ↦ fault
      | some main ↦ ok (switch_to (set_this w (some main)) main)
    ]
    else elim w.thread_fiber [
      | none ↦ fault
      | some thread ↦ ok (switch_to (set_this w (some thread)) thread)
    ]

-- Fiber::YieldToReady and Fiber::YieldToHold, called by the code that runs.
pub yield_to_ready : World → (addr : ℕ) → Result World
unfolding get_this swap_out
yield_to_ready w addr = let (w', cur) = get_this w addr in swap_out (set_state w' cur ready) cur

pub yield_to_hold : World → (addr : ℕ) → Result World
unfolding get_this swap_out
yield_to_hold w addr = let (w', cur) = get_this w addr in swap_out (set_state w' cur hold) cur

-- What the function of a fiber does with its turn. `swaps_out` is a bare swapOut, as at the end of
-- a round of IOManager::idle.
pub data Turn : Type 0 where
  yields_ready yields_hold swaps_out returns throws_std throws_other : Turn

-- Fiber::MainFunc behind the return of `m_cb`, or behind one of its two handlers.
pub finish_main : World → ℕ → (state : State) → (cb : Option ℕ) → Result World
unfolding swap_out
finish_main w cur state cb =
    swap_out (put w cur (record (w.heap cur) { state = state; cb = cb })) cur

-- The fiber that runs takes its turn.
pub take_turn : World → (addr : ℕ) → Turn → Result World
unfolding get_this swap_out yield_to_ready yield_to_hold finish_main
take_turn w addr yields_ready = yield_to_ready w addr
take_turn w addr yields_hold = yield_to_hold w addr
take_turn w addr swaps_out = let (w', cur) = get_this w addr in swap_out w' cur
take_turn w addr returns = let (w', cur) = get_this w addr in finish_main w' cur term none
take_turn w addr throws_std =
    let (w', cur) = get_this w addr in finish_main w' cur except (w'.heap cur).cb
take_turn w addr throws_other =
    let (w', cur) = get_this w addr in finish_main w' cur except (w'.heap cur).cb

-- From swapIn to its return. A fiber whose function has ended stands behind its last swapOut, at
-- the assertion that is never to be reached.
pub resume : World → (f addr : ℕ) → Turn → Result World
unfolding swap_in take_turn
resume w f addr turn = do
  w' ← swap_in w f
  elim (w.heap f).state [ term ↦ abort | except ↦ abort | _ ↦ take_turn w' addr turn ]
