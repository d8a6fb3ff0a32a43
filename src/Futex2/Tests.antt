-- ===== src/Futex2/Tests.antt =====
-- A queue of two buckets: task 1 waits, and task 2 notifies.
use async_mutex.Common.{ℕ, ◌+◌, ◌≤◌, ◌<◌, ◌≡◌, ◌⊎◌, refl, arith, true, false, tally}
use async_mutex.Futex2.{
  System, wait_if, notify, run, step, Reach, start, later, go, with_capacity, resting, pending, act,
  add_round, visit_round, join_round, empty, waiting, waking, look,
}
use async_mutex.Futex2.Packing.{decode_bucket, encode_bucket, decode_bucket-encode_bucket}
use async_mutex.Futex2.Tickets.{iterations_are_unique, ahead, waits_at, notifies_at}
use async_mutex.Futex2.Occupants.{occupants_are_unique, vacant, occupies}
use async_mutex.Futex2.Wakeups.{no_wait_is_forgotten}

decode_bucket-encode_bucket_example :
    decode_bucket 1 2 3 4 (encode_bucket 1 2 3 4 (empty 7)) ≡ empty 7
decode_bucket-encode_bucket_example =
    decode_bucket-encode_bucket 1 2 3 4
      (omega arith, omega arith, omega arith, omega arith, omega arith, omega arith) (empty 7)
      (omega arith)

abbrev fresh : System
fresh = record { mem = with_capacity 2; pc = λ _. resting }

abbrev goes : ℕ → System → System
goes i s = step i (run true go) s

abbrev parked : System
parked = goes 1 (goes 1 (goes 1 (goes 1 (step 1 wait_if fresh))))

parked-pending :
    (parked.pc 1 ≡ pending 0 0) × (look parked.mem 0 0 ≡ waiting 1) × (parked.mem.waits ≡ 1)
unfolding step act join_round
parked-pending = (refl, refl, refl)

goes-Reach : {s : System} (i : ℕ) → i < 3 → Reach 2 3 s → Reach 2 3 (goes i s)
goes-Reach i lt r = later i (run true go) lt r

parked-Reach : Reach 2 3 parked
parked-Reach =
    let lt : 1 < 3 = omega arith in
    goes-Reach 1 lt (goes-Reach 1 lt (goes-Reach 1 lt (goes-Reach 1 lt (later 1 wait_if lt start))))

iterations_are_unique_example :
    (parked.mem.notifies ≤ parked.mem.waits)
    × ((g k : ℕ)
        → (ahead parked.mem.generation parked.mem.waits g k + tally (waits_at g k) 3 parked.pc ≤ 1)
          × (ahead parked.mem.generation parked.mem.notifies g k
                + tally (notifies_at g k) 3 parked.pc
              ≤ 1))
iterations_are_unique_example = iterations_are_unique parked-Reach

occupants_are_unique_example :
    (parked.mem.unreachable ≡ false)
    × ((g at : ℕ)
        → g < parked.mem.made
        → vacant (parked.mem.bucket g at)
            + tally (occupies (parked.mem.capacity g) g at) 3 parked.pc
          ≤ 1)
occupants_are_unique_example = occupants_are_unique parked-Reach

-- The bucket has the mark of the notification, and the waker was called.
abbrev notified : System
notified = goes 2 (goes 2 (goes 2 (goes 2 (step 2 (notify 1) parked))))

notified-called : (look notified.mem 0 0 ≡ waking) × (notified.mem.called 1 ≡ true)
unfolding step act join_round add_round visit_round
notified-called = (refl, refl)

notified-pending : notified.pc 1 ≡ pending 0 0
unfolding step act join_round add_round visit_round
notified-pending = refl

notified-Reach : Reach 2 3 notified
notified-Reach =
    let lt : 2 < 3 = omega arith in
    goes-Reach 2 lt
      (goes-Reach 2 lt (goes-Reach 2 lt (goes-Reach 2 lt (later 2 (notify 1) lt parked-Reach))))

no_wait_is_forgotten_example : (look notified.mem 0 0 ≡ waiting 1) ⊎ (notified.mem.called 1 ≡ true)
no_wait_is_forgotten_example =
    no_wait_is_forgotten notified-Reach 1 0 0 (omega arith) notified-pending
