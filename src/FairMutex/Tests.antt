-- ===== src/FairMutex/Tests.antt =====
-- Runs of the mutex of fair_mutex.rs.
use async_mutex.Common.{ℕ, ◌≡◌, ◌≢◌, ◌<◌, ◌⊎◌, refl, arith, false, List, [], ◌∷◌}
use async_mutex.FairMutex.{done, System, unlocking, Choice, go, spurious, cancel, step, init}
use async_mutex.FairMutex.Invariant.{holds}
use async_mutex.FairMutex.Safety.{
  Reach, start, later, mutual_exclusion, never_panics, no_lost_wakeup,
}
use async_mutex.FairMutex.Order.{order, Ordered, step-Ordered}
use async_mutex.FairMutex.Run.{solo}
use async_mutex.FairMutex.Unlock.{Passed, unlock_lem}

-- Task 1 locks, task 2 begins to wait, task 1 calls `unlock`.
abbrev contended : System
contended = step 2 go (step 2 go (step 1 go (step 1 go init)))

abbrev unlocked : System
unlocked = step 1 go contended

contended-Reach : Reach 3 contended
contended-Reach = later 2 go (omega arith) (omega arith) (
    later 2 go (omega arith) (omega arith)
      (later 1 go (omega arith) (omega arith) (later 1 go (omega arith) (omega arith) start)))

unlocked-Reach : Reach 3 unlocked
unlocked-Reach = later 1 go (omega arith) (omega arith) contended-Reach

-- Task 2 gives up: its waiter leaves the inbox and the mutex is then free of waiters.
cancelled :
    let s = step 2 go (step 2 go (step 2 go (step 2 go (step 2 go (step 2 cancel contended))))) in
    (order s.mem ≡ []) × (order contended.mem ≡ 2 ∷ []) × (s.mem.panicked ≡ false)
unfolding step
cancelled = (refl, refl, refl)

mutual_exclusion_example : (holds (contended.pc 2) ≡ 0) × (2 < 3 → contended.mem.waker 2 ≢ done)
unfolding step
mutual_exclusion_example = mutual_exclusion contended-Reach 1 2 (omega arith) refl

never_panics_example : unlocked.mem.panicked ≡ false
never_panics_example = never_panics unlocked-Reach

no_lost_wakeup_example :
    (j : ℕ) × (j < 3) × ((holds (contended.pc j) ≡ 1) ⊎ (contended.mem.waker j ≡ done))
unfolding step
no_lost_wakeup_example = no_lost_wakeup contended-Reach 2 refl refl

step-Ordered_example :
    Ordered 2
      (order contended.mem)
      (order (step 2 cancel contended).mem)
      (contended.pc 2)
      ((step 2 cancel contended).pc 2)
step-Ordered_example = step-Ordered contended-Reach 2 cancel

-- The exchange that takes the inbox over fails once.
abbrev one_failure : List Choice
one_failure = go ∷ go ∷ go ∷ go ∷ spurious ∷ go ∷ go ∷ go ∷ go ∷ go ∷ go ∷ go ∷ []

unlock_example : Passed (order unlocked.mem) (solo one_failure 1 unlocked.mem unlocking)
unfolding step
unlock_example = unlock_lem unlocked-Reach 1 refl refl one_failure (omega arith)

-- The waiting task is woken, and nobody waits any more.
unlock_wakes :
    ((solo one_failure 1 unlocked.mem unlocking).0.waker 2 ≡ done)
    × (order (solo one_failure 1 unlocked.mem unlocking).0 ≡ [])
unfolding step solo
unlock_wakes = (refl, refl)
