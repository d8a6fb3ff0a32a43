-- ===== src/RwLock/Tests.antt =====
-- The packing of rwlock.rs at a state that just does not survive it, and a reader that waits for a
-- writer.
use mathlib.Core.Logic.{◌↔◌}
use async_mutex.Common.{ℕ, ◌%◌, ◌^◌, ◌<◌, ◌≡◌, ◌≢◌, refl, arith, false, ◌==◌, if◌then◌else◌}
use async_mutex.RwLock.{
  Atom, System, asleep, waiting, done, go, act, advance, read_round, write_round, poll_enter, step,
  init,
}
use async_mutex.RwLock.Invariant.{reads, writes}
use async_mutex.RwLock.Safety.{
  Reach, start, later, Someone, write_exclusion, rw_never_panics, rw_no_lost_wakeup,
}
use async_mutex.RwLock.Packing.{pack, decode-encode_halves}

abbrev full : Atom
full = record { readers = 2 ^ 32; writers = 1 }

decode-encode_halves_example :
    ((pack full ≡ full) ↔ ((full.readers < 2 ^ 32) × (full.writers < 2 ^ 32)))
    × (pack full ≡ record { readers = full.readers % 2 ^ 32; writers = full.writers % 2 ^ 32 })
decode-encode_halves_example = decode-encode_halves full

-- Task 2 writes, every other reads.
abbrev queue_of : ℕ → ℕ
queue_of i = if i == 2 then 1 else 0

queue_of-lt : (j : ℕ) → queue_of j < 2
queue_of-lt j = ground arith

-- Task 2 has the lock, and task 1 waits for it.
abbrev contended : System
contended = step queue_of 1 go (step queue_of 1 go (step queue_of 2 go (step queue_of 2 go init)))

contended-Reach : Reach queue_of 4 contended
contended-Reach = later 1 go (omega arith) (omega arith) (
    later 1 go (omega arith) (omega arith)
      (later 2 go (omega arith) (omega arith) (later 2 go (omega arith) (omega arith) start)))

contended-not_aborted : contended.mem.aborted ≡ false
unfolding step act advance read_round write_round poll_enter
contended-not_aborted = refl

contended-writes : writes (contended.pc 2) ≡ 1
unfolding step act advance read_round write_round poll_enter
contended-writes = refl

contended-asleep : contended.pc 1 ≡ asleep
unfolding step act advance read_round write_round poll_enter
contended-asleep = refl

contended-waiting : contended.mem.waker 1 ≡ waiting
unfolding step act advance read_round write_round poll_enter
contended-waiting = refl

write_exclusion_example :
    (reads (contended.pc 1) ≡ 0)
    × (writes (contended.pc 1) ≡ 0)
    × (1 < 4 → contended.mem.waker 1 ≢ done)
write_exclusion_example =
    write_exclusion queue_of-lt (omega arith) contended-Reach contended-not_aborted 2 1
      (omega arith) contended-writes

rw_never_panics_example : contended.mem.panicked ≡ false
rw_never_panics_example =
    rw_never_panics queue_of-lt (omega arith) contended-Reach contended-not_aborted

rw_no_lost_wakeup_example : Someone 4 contended
rw_no_lost_wakeup_example =
    rw_no_lost_wakeup queue_of-lt (omega arith) contended-Reach contended-not_aborted 1
      contended-asleep contended-waiting
