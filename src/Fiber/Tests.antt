-- ===== src/Fiber/Tests.antt =====
-- Runs of duan_src/fiber.cc, and its theorems at concrete fibers.
use coroutine.Prelude.{ok, abort, ◌≡◌, refl, true, false, none, some, arith}
use coroutine.Fiber.{
  is_over, World, yields_hold, returns, get_this, new_fiber, destroy, resume, total_fibers,
  main_object,
}
use coroutine.Fiber.Switch.{left_in, Ended, resume_resumable}
use coroutine.Fiber.Life.{life_cycle}

-- A thread before its first fiber.
abbrev bare : World
bare = record {
  heap = λ _. main_object;
  fiber_id = 0;
  fiber_count = 0;
  current = none;
  thread_fiber = none;
  main_fiber = none;
  running = 100;
}

-- A thread of a scheduler, whose main fiber is at 100, with a new fiber at 200.
abbrev worker : World
worker = record (new_fiber (get_this bare 100).0 200 1 0 false 131072) { main_fiber = some 100 }

two_fibers : total_fibers worker ≡ 2
unfolding total_fibers new_fiber get_this
two_fibers = refl

resume_resumable_example :
    (w' : World) × (resume worker 200 0 yields_hold ≡ ok w') × Ended worker w' 200 100 yields_hold
unfolding new_fiber get_this
resume_resumable_example = resume_resumable worker 200 100 0 yields_hold refl (omega arith) refl

life_cycle_example :
    (w' : World) × (resume (new_fiber worker 300 7 0 true 131072) 300 0 returns ≡ ok w')
    × (is_over (left_in returns) ≡ true
        → (w'' : World) × (destroy w' 300 ≡ ok w'') × (total_fibers w'' ≡ total_fibers worker))
    × (is_over (left_in returns) ≡ false → destroy w' 300 ≡ abort)
unfolding new_fiber get_this
life_cycle_example =
    life_cycle worker 300 7 0 true 131072 100 0 returns refl (omega arith) (omega arith)
