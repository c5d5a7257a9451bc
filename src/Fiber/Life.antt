-- ===== src/Fiber/Life.antt =====
-- Making, resetting and destroying the fibers of duan_src/fiber.cc.
use coroutine.Prelude.{
  ◌%◌, ◌^◌, ok, abort, ℕ, ◌+◌, ◌-◌, ◌^◌, ◌<◌, ◌≡◌, ◌≢◌, refl, Bool, true, false, Option, none, some,
  arith, u64, ◌==◌, if◌then◌else◌, update,
}
use coroutine.Fiber.{
  init, exec, is_over, main_func, World, Turn, get_this, new_fiber, destroy, reset, resume,
  total_fibers, get_fiber_id,
}
use coroutine.Fiber.Switch.{left_in, Ended, resume_resumable}

-- A new fiber has the next number, a stack of the wanted size or of the default one, and is ready
-- to run. It runs MainFunc whatever `use_caller` says, so CallerMainFunc is never entered.
pub new_fiber_lem :
    (w : World) (addr cb stacksize : ℕ) (use_caller : Bool) (default_size : ℕ)
    → let w' = new_fiber w addr cb stacksize use_caller default_size in
      ((w'.heap addr).id ≡ u64 (w.fiber_id + 1))
      × (w'.fiber_id ≡ (w'.heap addr).id)
      × ((w'.heap addr).state ≡ init)
      × ((w'.heap addr).stacksize ≡ ((if stacksize == 0 then default_size else stacksize) % 2 ^ 32))
      × ((w'.heap addr).entry ≡ some main_func)
      × (total_fibers w' ≡ u64 (total_fibers w + 1))
      × ((g : ℕ) → g ≢ addr → w'.heap g ≡ w.heap g)
unfolding new_fiber total_fibers
new_fiber_lem w addr cb stacksize use_caller default_size = (
  ground arith,
  ground arith,
  ground arith,
  ground arith,
  ground arith,
  refl,
  λ g h. ground arith,
)

destroy_over :
    (w : World) (f : ℕ)
    → (w.heap f).stack ≡ true
    → is_over (w.heap f).state ≡ true
    → destroy w f ≡ ok (record w { fiber_count = u64 (w.fiber_count + 2 ^ 64 - 1) })
unfolding destroy
destroy_over w f h k = ground arith

destroy_busy :
    (w : World) (f : ℕ)
    → (w.heap f).stack ≡ true
    → is_over (w.heap f).state ≡ false
    → destroy w f ≡ abort
unfolding destroy
destroy_busy w f h k = ground arith

-- A fiber is made, has one turn and is destroyed. If its function ended in that turn, by returning
-- or by throwing, the number of fibers is what it was before; if it only yielded, its destruction
-- fails an assertion.
pub life_cycle :
    (w : World) (addr cb stacksize : ℕ) (use_caller : Bool) (default_size main other : ℕ)
    (turn : Turn)
    → w.main_fiber ≡ some main
    → addr ≢ main
    → w.fiber_count < 2 ^ 64
    → (w' : World) × (resume (new_fiber w addr cb stacksize use_caller default_size) addr other turn
        ≡ ok w')
      × (is_over (left_in turn) ≡ true
          → (w'' : World) × (destroy w' addr ≡ ok w'') × (total_fibers w'' ≡ total_fibers w))
      × (is_over (left_in turn) ≡ false → destroy w' addr ≡ abort)
unfolding new_fiber total_fibers
life_cycle w addr cb stacksize use_caller default_size main other turn e h c =
    let run =
      resume_resumable (new_fiber w addr cb stacksize use_caller default_size) addr main other turn
        e h (ground arith) in
    let w' : World = run.0 in
    let has_stack : (w'.heap addr).stack ≡ true = ground (arith, run.2.stack) in
    (
      w',
      run.1,
      (λ over. (
        record w' { fiber_count = u64 (w'.fiber_count + 2 ^ 64 - 1) },
        destroy_over w' addr has_stack (ground (arith, run.2.state)),
        omega (arith, run.2.count),
      )),
      λ busy. destroy_busy w' addr has_stack (ground (arith, run.2.state)),
    )

-- A fiber that never ran or whose function ended can be reset, and then takes a turn with its new
-- function under its old number; any other fiber with a stack fails the assertion of reset.
pub reset-resume :
    (w : World) (f main addr : ℕ) (cb : Option ℕ) (turn : Turn)
    → w.main_fiber ≡ some main
    → f ≢ main
    → (w.heap f).stack ≡ true
    → (is_over (w.heap f).state ≡ false → reset w f cb ≡ abort)
      × (is_over (w.heap f).state ≡ true
          → (w' : World) × (w'' : World) × (reset w f cb ≡ ok w')
            × ((w'.heap f).cb ≡ cb)
            × (resume w' f addr turn ≡ ok w'')
            × Ended w' w'' f main turn
            × ((w''.heap f).id ≡ (w.heap f).id))
unfolding reset
reset-resume w f main addr cb turn e h k = (
  λ busy. ground arith,
  λ over.
      let w' : World = record w {
        heap =
            update w.heap f (record (w.heap f) { cb = cb; entry = some main_func; state = init });
      } in
      let run = resume_resumable w' f main addr turn e h (ground arith) in
      (w', run.0, ground arith, ground arith, run.1, run.2, ground (arith, run.2.id)),
)

-- GetThis makes the fiber of the thread once: it runs, has the number 0, is the current one and
-- takes no number, and a second call, whatever object it is offered, returns it and changes nothing.
pub get_this_twice :
    (w : World) (addr other : ℕ)
    → w.current ≡ none
    → let first = get_this w addr in
      (first.1 ≡ addr)
      × ((first.0.heap addr).state ≡ exec)
      × (get_fiber_id first.0 ≡ 0)
      × (first.0.thread_fiber ≡ some addr)
      × (first.0.fiber_id ≡ w.fiber_id)
      × (get_this first.0 other ≡ (first.0, addr))
unfolding get_this get_fiber_id
get_this_twice w addr other e =
    (ground arith, ground arith, ground arith, ground arith, ground arith, ground arith)
