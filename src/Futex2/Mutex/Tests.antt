-- ===== src/Futex2/Mutex/Tests.antt =====
-- A mutex of three tasks: task 1 has it, and task 2 marks that it waits.
use mathlib.Core.Logic.{◌↔◌}
use async_mutex.Common.{ℕ, zero, suc, false, ◌≤◌, ◌<◌, ◌≡◌, ◌≢◌, refl, arith}
use async_mutex.Futex2.{
  go, pending, act, add_round, visit_round, sweep, install, next_round, join_round, waiting_round,
}
use async_mutex.Futex2.Mutex.{
  World, new, idle, in_wait, unlock_loop, looping, holding, turn, move, lock_loop, Reach, start,
  later, holds, futex2_exclusion,
}

abbrev goes : ℕ → World → World
goes i s = turn i go s

abbrev fresh : World
fresh = record { mem = new; at = λ _. idle }

abbrev marked : World
marked = goes 2 (goes 2 (goes 2 (goes 1 (goes 1 fresh))))

marked-looping : (marked.at 1 ≡ holding) × (marked.at 2 ≡ looping 2) × (marked.mem.atom ≡ 2)
unfolding turn move lock_loop
marked-looping = (refl, refl, refl)

goes-Reach : {s : World} (i : ℕ) → i < 3 → Reach 3 s → Reach 3 (goes i s)
goes-Reach i lt r = later i go lt r

marked-Reach : Reach 3 marked
marked-Reach =
    let one : 1 < 3 = omega arith in
    let two : 2 < 3 = omega arith in
    goes-Reach 2 two
      (goes-Reach 2 two (goes-Reach 2 two (goes-Reach 1 one (goes-Reach 1 one start))))

futex2_exclusion_example :
    (marked.mem.atom ≤ 2)
    × ((marked.mem.atom ≢ 0) ↔ ((i : ℕ) × (1 ≤ holds (marked.at i))))
    × ((i j : ℕ) → i ≢ j → 1 ≤ holds (marked.at i) → holds (marked.at j) ≡ 0)
futex2_exclusion_example = futex2_exclusion marked-Reach

-- So many steps of one task.
abbrev go_on : (steps i : ℕ) → World → World
go_on zero i s = s
go_on (suc k) i s = go_on k i (goes i s)

go_on-Reach : (k i : ℕ) → i < 5 → (s : World) → Reach 5 s → Reach 5 (go_on k i s)
go_on-Reach zero i lt s r = r
go_on-Reach (suc k) i lt s r = go_on-Reach k i lt (goes i s) (later i go lt r)

-- Tasks 1, 2 and 3 wait for task 0, in a generation of four buckets.
abbrev crowded : World
crowded =
    go_on 10 2 (go_on 10 1 (go_on 20 3 (go_on 10 1 (go_on 19 2 (go_on 8 1 (go_on 2 0 fresh))))))

crowded-Reach : Reach 5 crowded
crowded-Reach = go_on-Reach 10 2 (omega arith) _ (
    go_on-Reach 10 1 (omega arith) _ (
      go_on-Reach 20 3 (omega arith) _ (
        go_on-Reach 10 1 (omega arith) _ (
          go_on-Reach 19 2 (omega arith) _
            (go_on-Reach 8 1 (omega arith) _ (go_on-Reach 2 0 (omega arith) fresh start))))))

-- Task 4 enters its bucket, task 0 unlocks, and the condition of task 4 fails: it notifies another
-- wait, and its own bucket keeps its waker. It takes the mutex, tasks 1 and 3 wait again, and tasks 4
-- and 2 unlock; the last of these notifies the bucket that task 4 left behind.
abbrev stalled : World
stalled = go_on 13 2 (go_on 9 4 (go_on 9 1 (go_on 9 3 (go_on 8 4 (go_on 9 0 (go_on 6 4 crowded))))))

-- The mutex is free, no call of task 0, 2 or 4 is under way, and tasks 1 and 3 wait and were not woken.
stalled-waits :
    (stalled.mem.atom ≡ 0)
    × (stalled.at 0 ≡ idle)
    × (stalled.at 2 ≡ idle)
    × (stalled.at 4 ≡ idle)
    × (stalled.at 1 ≡ in_wait (pending 2 5))
    × (stalled.at 3 ≡ in_wait (pending 2 4))
    × (stalled.mem.queue.called 1 ≡ false)
    × (stalled.mem.queue.called 3 ≡ false)
unfolding turn move lock_loop unlock_loop act add_round visit_round sweep install next_round
    join_round waiting_round
stalled-waits = (refl, refl, refl, refl, refl, refl, refl, refl)

stalled-Reach : Reach 5 stalled
stalled-Reach = go_on-Reach 13 2 (omega arith) _ (
    go_on-Reach 9 4 (omega arith) _ (
      go_on-Reach 9 1 (omega arith) _ (
        go_on-Reach 9 3 (omega arith) _ (
          go_on-Reach 8 4 (omega arith) _ (
            go_on-Reach 9 0 (omega arith) _
              (go_on-Reach 6 4 (omega arith) crowded crowded-Reach))))))
