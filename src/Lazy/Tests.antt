-- ===== src/Lazy/Tests.antt =====
-- Task 1 initialises a cell while task 2 waits for it.
use async_mutex.Common.{false, ℕ, ◌≡◌, ◌≤◌, refl, arith}
use async_mutex.Lazy.{
  System, Waker, asleep, get, present, poisoned, active, init, finishing, returned, go, act,
  poll_enter, poll_waiting, drop_waiting, wake, end_finish, step, new_cell,
}
use async_mutex.Lazy.Once.{Reach, start, later, owns, initialised_once}
use async_mutex.Lazy.Wakeups.{Someone, lazy_never_panics, lazy_no_lost_wakeup, value_is_written}

-- Task 1 has taken the cell, and task 2 sleeps.
abbrev waiting : System
waiting = step 2 go (step 2 go (step 1 go (step 1 go new_cell)))

waiting-Reach : Reach 3 waiting
waiting-Reach = later 2 go (omega arith) (omega arith) (
    later 2 go (omega arith) (omega arith)
      (later 1 go (omega arith) (omega arith) (later 1 go (omega arith) (omega arith) start)))

-- Task 1 is about to publish the value.
abbrev publishing : System
publishing = step 1 go (step 1 go (step 1 go (step 1 go waiting)))

publishing-Reach : Reach 3 publishing
publishing-Reach = later 1 go (omega arith) (omega arith) (
    later 1 go (omega arith) (omega arith) (
      later 1 go (omega arith) (omega arith)
        (later 1 go (omega arith) (omega arith) waiting-Reach)))

-- Task 1 has published the value and woken task 2.
abbrev published : System
published = step 1 go (step 1 go (step 1 go (step 1 go publishing)))

published-Reach : Reach 3 published
published-Reach = later 1 go (omega arith) (omega arith) (
    later 1 go (omega arith) (omega arith) (
      later 1 go (omega arith) (omega arith)
        (later 1 go (omega arith) (omega arith) publishing-Reach)))

publishing-finishing : publishing.pc 1 ≡ finishing init active 2
unfolding step act poll_enter poll_waiting drop_waiting wake end_finish
publishing-finishing = refl

published-returned : published.pc 1 ≡ returned
unfolding step act poll_enter poll_waiting drop_waiting wake end_finish
published-returned = refl

initialised_once_example :
    (publishing.mem.writes ≤ 1)
    × ((i j : ℕ) → owns (publishing.pc i) ≡ 1 → owns (publishing.pc j) ≡ 1 → i ≡ j)
initialised_once_example = initialised_once publishing-Reach

waiting-asleep : (waiting.pc 2 ≡ asleep) × (waiting.mem.waker 2 ≡ Waker.waiting)
unfolding step act poll_enter poll_waiting drop_waiting wake end_finish
waiting-asleep = (refl, refl)

lazy_never_panics_example : published.mem.panicked ≡ false
lazy_never_panics_example = lazy_never_panics published-Reach

lazy_no_lost_wakeup_example : Someone 3 waiting
lazy_no_lost_wakeup_example = lazy_no_lost_wakeup waiting-Reach 2 waiting-asleep.0 waiting-asleep.1

value_is_written_example :
    (get published.mem ≡ present → published.mem.writes ≡ 1)
    × (get published.mem ≡ poisoned → published.mem.writes ≡ 0)
    × ((i : ℕ) → published.pc i ≡ returned → get published.mem ≡ present)
value_is_written_example = value_is_written published-Reach
