-- ===== src/FastMutex/Tests.antt =====
-- The packing of fast_mutex.rs at a state that just does not survive it, and a task that waits for
-- another to unlock.
use mathlib.Core.Logic.{◌↔◌}
use async_mutex.Common.{ℕ, ◌^◌, ◌<◌, ◌≤◌, ◌≡◌, ◌≢◌, refl, arith, true, false, []}
use async_mutex.FastMutex.{
  System, go, cancel, act, on_cancel, lock_round, poll_enter, unlock_round, hand_over, step, init,
}
use async_mutex.FastMutex.Invariant.{holds, pushed}
use async_mutex.FastMutex.Safety.{
  Reach, start, later, Someone, fast_exclusion, fast_never_panics, fast_no_lost_wakeup,
}

-- Task 1 has the mutex, task 2 waits, and then task 1 unlocks, up to the pop of the waiter.
abbrev contended : System
contended = step 2 go (step 2 go (step 1 go (step 1 go init)))

abbrev handed : System
handed = step 1 go (step 1 go (step 1 go (step 1 go (step 1 go (step 1 go contended)))))

contended-Reach : Reach 4 contended
contended-Reach = later 2 go (omega arith) (omega arith) (
    later 2 go (omega arith) (omega arith)
      (later 1 go (omega arith) (omega arith) (later 1 go (omega arith) (omega arith) start)))

handed-Reach : Reach 4 handed
handed-Reach = later 1 go (omega arith) (omega arith) (
    later 1 go (omega arith) (omega arith) (
      later 1 go (omega arith) (omega arith) (
        later 1 go (omega arith) (omega arith) (
          later 1 go (omega arith) (omega arith)
            (later 1 go (omega arith) (omega arith) contended-Reach)))))

contended-not_aborted : contended.mem.aborted ≡ false
unfolding step act lock_round poll_enter
contended-not_aborted = refl

handed-not_aborted : handed.mem.aborted ≡ false
unfolding step act lock_round poll_enter unlock_round hand_over
handed-not_aborted = refl

-- Task 2 gives up: its waiter is unlinked, the atom still counts it, and the callback panics.
abbrev given_up : System
given_up = step 2 go (step 2 go (step 2 go (step 2 go (step 2 go (step 2 cancel contended)))))

given_up-panicked :
    (given_up.mem.panicked ≡ true)
    × (given_up.mem.inbox ≡ [])
    × (given_up.mem.queue ≡ [])
    × (given_up.mem.waiters ≡ 1)
unfolding step act lock_round poll_enter on_cancel
given_up-panicked = (refl, refl, refl, refl)

few_tasks : 4 < 2 ^ 62
few_tasks = omega arith

handed-pushed : 1 ≤ pushed (handed.pc 2)
unfolding step act lock_round poll_enter unlock_round hand_over
handed-pushed = omega arith

fast_exclusion_example :
    ((contended.mem.locked ≡ true) ↔ ((i : ℕ) × (1 ≤ holds (contended.pc i))))
    × ((i j : ℕ) → i ≢ j → 1 ≤ holds (contended.pc i) → holds (contended.pc j) ≡ 0)
fast_exclusion_example = fast_exclusion few_tasks contended-Reach contended-not_aborted

fast_never_panics_example : handed.mem.panicked ≡ false
fast_never_panics_example = fast_never_panics few_tasks handed-Reach handed-not_aborted

fast_no_lost_wakeup_example : Someone 4 handed
fast_no_lost_wakeup_example =
    fast_no_lost_wakeup few_tasks handed-Reach handed-not_aborted 2 handed-pushed
