-- ===== src/Condvar/Tests.antt =====
-- A condition variable with the numbers 1 to 3: task 1 waits with waiter 2, and task 3 notifies it.
use async_mutex.Common.{ℕ, zero, suc, ◌<◌, ◌≡◌, ◌≢◌, refl, arith, true, false, [], ◌∷◌}
use async_mutex.Tasks.{go, cancel}
use async_mutex.FairMutex
use async_mutex.FairMutex.{act, step, poll_enter, poll_waiting, on_cancel, pop, wake}
use async_mutex.Condvar
use async_mutex.Condvar.{
  System, Seat, moved, parked, Pc, outside, Event, wait, notify, run, new_condvar, Reach, start,
  later, IsProper, wait_round, requeue_round, mutex_step,
}
use async_mutex.Condvar.Safety.{condvar-Reach}

-- So many steps of one task.
abbrev go_on : (steps i : ℕ) → System → System
go_on zero i s = s
go_on (suc k) i s = go_on k i (Condvar.step i (run go) s)

go_on-Reach : (k i : ℕ) → i ≢ 0 → i < 4 → (s : System) → Reach 4 s → Reach 4 (go_on k i s)
go_on-Reach zero i pos lt s r = r
go_on-Reach (suc k) i pos lt s r =
    go_on-Reach k i pos lt (Condvar.step i (run go) s) (later i (run go) pos lt tt r)

-- Task 1 has the mutex, and waits.
abbrev waits : System
waits = go_on 2 1 (Condvar.step 1 (wait 2) (go_on 2 1 new_condvar))

waits-parked :
    (waits.seat 2 ≡ parked) × (waits.mem.inbox ≡ 2 ∷ []) × (waits.mutex.pc 1 ≡ FairMutex.unlocking)
unfolding Condvar.step Condvar.act wait_round mutex_step step act poll_enter
waits-parked = (refl, refl, refl)

waits-Reach : Reach 4 waits
waits-Reach = go_on-Reach 2 1 (omega arith) (omega arith) _ (
    later 1 (wait 2) (omega arith) (omega arith) (omega arith, omega arith)
      (go_on-Reach 2 1 (omega arith) (omega arith) new_condvar start))

-- Task 1 has unlocked the mutex, task 3 has locked it and moved the waiter, and unlocks it in turn.
abbrev requeued : System
requeued = go_on 9 3 (Condvar.step 3 (notify 1) (go_on 2 3 (go_on 7 1 waits)))

requeued-inbox :
    (requeued.mutex.mem.inbox ≡ 2 ∷ [])
    × (requeued.seat 2 ≡ moved)
    × (requeued.pc 3 ≡ outside)
    × (requeued.mutex.pc 2 ≡ FairMutex.asleep)
unfolding Condvar.step Condvar.act wait_round requeue_round mutex_step step act poll_enter
    poll_waiting on_cancel pop wake
requeued-inbox = (refl, refl, refl, refl)

requeued-Reach : Reach 4 requeued
requeued-Reach = go_on-Reach 9 3 (omega arith) (omega arith) _ (
    later 3 (notify 1) (omega arith) (omega arith) tt (
      go_on-Reach 2 3 (omega arith) (omega arith) _
        (go_on-Reach 7 1 (omega arith) (omega arith) waits waits-Reach)))

requeued-not_aborted : requeued.mem.aborted ≡ false
unfolding Condvar.step Condvar.act wait_round requeue_round mutex_step step act poll_enter
    poll_waiting on_cancel pop wake
requeued-not_aborted = refl

-- The moved `wait` is dropped before it is woken.
requeued-dropped :
    let after = go_on 6 2 (Condvar.step 2 (run cancel) requeued) in
    (after.mem.aborted ≡ true) × (after.mutex.pc 2 ≡ FairMutex.dropped)
unfolding Condvar.step Condvar.act wait_round requeue_round mutex_step step act poll_enter
    poll_waiting on_cancel pop wake
requeued-dropped = (refl, refl)

condvar-Reach_example : FairMutex.Safety.Reach 4 requeued.mutex
condvar-Reach_example = condvar-Reach requeued-Reach requeued-not_aborted
