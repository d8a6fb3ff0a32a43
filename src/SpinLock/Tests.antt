-- ===== src/SpinLock/Tests.antt =====
-- Two tasks compete for the spin lock: task 1 gets it, task 2 is in `yield_now`.
use async_mutex.Common.{ℕ, ◌≡◌, ◌≢◌, ◌≤◌, refl, arith, true, false}
use async_mutex.SpinLock.{System, holding, go, act, poll_yield, step, init, solo}
use async_mutex.SpinLock.Safety.{Reach, start, later, spin_exclusion, spin_progress}

abbrev contended : System
contended = step 2 go (step 2 go (step 1 go (step 2 go (step 1 go init))))

contended-Reach : Reach contended
contended-Reach = later 2 go (later 2 go (later 1 go (later 2 go (later 1 go start))))

contended-holding : contended.pc 1 ≡ holding
unfolding step act poll_yield
contended-holding = refl

contended-locked : contended.mem.state ≡ true
unfolding step act poll_yield
contended-locked = refl

-- Task 1 has dropped its guard.
abbrev freed : System
freed = step 1 go contended

freed-unlocked : freed.mem.state ≡ false
unfolding step act poll_yield
freed-unlocked = refl

freed-waiting : freed.pc 2 ≢ holding
unfolding step act poll_yield
freed-waiting e = ground arith

spin_exclusion_example : ◌≡◌ {A = ℕ} 1 1
spin_exclusion_example = spin_exclusion contended-Reach 1 1 contended-holding contended-holding

spin_progress_example : (k : ℕ) × (k ≤ 3) × ((solo k 2 freed).pc 2 ≡ holding)
spin_progress_example = spin_progress freed 2 freed-unlocked freed-waiting
