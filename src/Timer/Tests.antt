-- ===== src/Timer/Tests.antt =====
-- Runs of duan_src/timer.cc on small managers, and its theorems at them.
use coroutine.Prelude.{
  ok, fault, ◌≡◌, ◌≢◌, refl, true, false, List, [], ◌∷◌, Option, some, none, is_some, elem,
  if◌then◌else◌,
}
use coroutine.Timer.{
  Callback, user, on_timer, invoke, TimerManager, create, add_timer, add_condition_timer, cancel,
  refresh, reset, find, list_expired_cb, get_next_timer, has_timer,
}
use coroutine.Timer.Invariant.{Inv}
use coroutine.Timer.Requeue.{callbacks}
use coroutine.Timer.Expired.{Outcome, expired_part}
use coroutine.Timer.Cancel.{cancel_correct, refresh_correct, Others}
use coroutine.Timer.Fire.{list_expired_correct, rolled}
use coroutine.Timer.Reach.{Reach, start, later, adds, Reach-Inv, Reach-no_fault}

abbrev empty_manager : TimerManager
empty_manager = create 4000000

abbrev one_timer : TimerManager
one_timer = (add_timer empty_manager 7 50 (some (user 1)) false 4000100).0

-- The timers 7 (once, after 50 ms) and 3 (every 20 ms), added at 4000100.
abbrev two_timers : TimerManager
two_timers = (add_timer one_timer 3 20 (some (user 2)) true 4000100).0

set_order : two_timers.timers ≡ 3 ∷ 7 ∷ []
unfolding create add_timer
set_order = refl

next_delay : (get_next_timer two_timers 4000105).1 ≡ 15
unfolding create add_timer get_next_timer
next_delay = refl

reset_later : (reset two_timers 3 100 true 4000110).manager.timers ≡ 7 ∷ 3 ∷ []
unfolding create add_timer reset find
reset_later = refl

dead_condition : invoke (λ _. false) (on_timer 4 1) ≡ none
unfolding invoke
dead_condition = refl

condition_added :
    ((add_condition_timer empty_manager 7 50 1 4 false 4000100).0.heap 7).cb ≡ some (on_timer 4 1)
unfolding add_condition_timer
condition_added = refl

one_timer-Reach : Reach one_timer
unfolding create
one_timer-Reach = later (start 4000000) (adds 7 50 (some (user 1)) false 4000100 refl)

two_timers-Reach : Reach two_timers
unfolding create add_timer
two_timers-Reach = later one_timer-Reach (adds 3 20 (some (user 2)) true 4000100 refl)

two_timers-Inv : Inv two_timers
two_timers-Inv = Reach-Inv two_timers-Reach

cancel_correct_example :
    (m' : TimerManager) × (cancel two_timers 3 ≡ ok (m', is_some (two_timers.heap 3).cb))
    × Inv m'
    × (is_some (m'.heap 3).cb ≡ false)
    × (is_some (two_timers.heap 3).cb ≡ true → elem 3 m'.timers ≡ false)
    × Others two_timers m' 3
    × (cancel m' 3 ≡ ok (m', false))
cancel_correct_example = cancel_correct two_timers 3 two_timers-Inv

refresh_correct_example : (refresh two_timers 3 4000110).1 ≡ is_some (two_timers.heap 3).cb
refresh_correct_example = (refresh_correct two_timers 3 4000110 two_timers-Inv).0

list_expired_correct_example :
    (m' : TimerManager) × (cbs : List (Option Callback)) × (list_expired_cb two_timers 4000130 9
      ≡ ok (m', cbs))
    × (cbs
        ≡ callbacks two_timers.heap (expired_part two_timers (rolled two_timers 4000130) 4000130))
    × Outcome two_timers m' (rolled two_timers 4000130) 4000130
    × (m'.previous_time ≡ (if has_timer two_timers then 4000130 else two_timers.previous_time))
    × Inv m'
list_expired_correct_example = list_expired_correct two_timers 4000130 9 two_timers-Inv

Reach-no_fault_example :
    (cancel two_timers 3 ≢ fault)
    × (list_expired_cb two_timers 4000130 9 ≢ fault)
    × (is_some (two_timers.heap 3).cb ≡ true → (refresh two_timers 3 4000130).1 ≡ true)
Reach-no_fault_example = Reach-no_fault two_timers-Reach 3 4000130 9
