-- ===== src/FairMutex/Counts.antt =====
-- How the sums of `Inv` change when one task of fair_mutex.rs moves.
use async_mutex.Common.{ℕ, ◌+◌, ◌≤◌, ◌<◌, ◌≡◌, arith, tally, tally-update, tally-le_of_le, update}
use async_mutex.FairMutex.{Pc}
use async_mutex.FairMutex.Invariant.{holds, reading, writing, borrowing}

-- Task `i` goes from `p` to `p'`.
pub record Moved (n : ℕ) (pc : ℕ → Pc) (i : ℕ) (p p' : Pc) : Type 0 where
  pub holders : tally holds n (update pc i p') + holds p ≡ tally holds n pc + holds p'
  pub readers : tally reading n (update pc i p') + reading p ≡ tally reading n pc + reading p'
  pub writers : tally writing n (update pc i p') + writing p ≡ tally writing n pc + writing p'
  pub borrowers :
      tally borrowing n (update pc i p') + borrowing p ≡ tally borrowing n pc + borrowing p'

pub moved : (n : ℕ) (pc : ℕ → Pc) (i : ℕ) (p' : Pc) → i < n → Moved n pc i (pc i) p'
moved n pc i p' lt = record {
  holders = tally-update holds n pc i p' lt;
  readers = tally-update reading n pc i p' lt;
  writers = tally-update writing n pc i p' lt;
  borrowers = tally-update borrowing n pc i p' lt;
}

borrowing-le : (p : Pc) → borrowing p ≤ holds p
borrowing-le p = ground arith

-- The queue guard is taken by an owner only.
pub borrowers-le : (n : ℕ) (pc : ℕ → Pc) → tally borrowing n pc ≤ tally holds n pc
borrowers-le n pc = tally-le_of_le borrowing holds n pc borrowing-le
