-- ===== src/Condvar/Invariant.antt =====
-- The invariant of the condition variable of condvar.rs: where each waiter is, and that only the task
-- that has the mutex is in a call.
use async_mutex.Common.{ℕ, ◌+◌, ◌≤◌, ◌<◌, ◌≡◌, ◌≢◌, ◌⊎◌, false, tally, count}
use async_mutex.Atomic.{from_bool}
use async_mutex.Tasks.{waiting}
use async_mutex.FairMutex
use async_mutex.Condvar.{
  Seat, unused, moved, entering, parked, Pc, outside, loading, entering_round, enqueueing, popping,
  releasing, relocking, linking, requeueing, System,
}

abbrev pub is_parked : Seat → ℕ
is_parked parked = 1
is_parked _ = 0

-- The task has taken waiter `w` from the queue and not yet moved it to the mutex.
abbrev pub hands : ℕ → Pc → ℕ
hands w (releasing list) = count w list
hands w (relocking list) = count w list
hands w (linking list) = count w list
hands w (requeueing list a t) = count w list
hands w _ = 0

-- The task has the guard of the queue.
abbrev pub borrowing : Pc → ℕ
borrowing (enqueueing k a t) = 1
borrowing (popping k) = 1
borrowing (releasing list) = 1
borrowing _ = 0

-- The waiter is that of a call of `lock` that has set its waker and not pushed it.
pub record Ready (m : FairMutex.System) (w : ℕ) : Type 0 where
  pub snapshot : ℕ
  pub newest : ℕ
  pub taken : snapshot ≡ 1
  pub trying : m.pc w ≡ FairMutex.trying snapshot newest
  pub waits : m.mem.waker w ≡ waiting

abbrev pub Seated : ℕ → FairMutex.System → ℕ → Seat → Type 0
Seated n m w unused = Unit
Seated n m w moved = Unit
Seated n m w entering = (w ≢ 0) × (w < n) × ((m.pc w ≡ FairMutex.idle) ⊎ Ready m w)
Seated n m w parked = (w ≢ 0) × (w < n) × Ready m w

-- A task in a call has the mutex.
abbrev pub Calls : FairMutex.System → (ℕ → Seat) → ℕ → Pc → Type 0
Calls m seat j outside = Unit
Calls m seat j (loading w) = (m.pc j ≡ FairMutex.critical) × (seat w ≡ entering)
Calls m seat j (entering_round w a t) =
    (m.pc j ≡ FairMutex.critical) × (seat w ≡ entering) × (a ≤ 1)
Calls m seat j _ = m.pc j ≡ FairMutex.critical

pub record Inv (n : ℕ) (s : System) : Type 0 where
  pub reach : FairMutex.Safety.Reach n s.mutex
  pub place :
      (w : ℕ)
      → count w s.mem.inbox + count w s.mem.queue + tally (hands w) n s.pc ≡ is_parked (s.seat w)
  pub seated : (w : ℕ) → Seated n s.mutex w (s.seat w)
  pub calls : (j : ℕ) → Calls s.mutex s.seat j (s.pc j)
  pub borrowed_is : from_bool s.mem.borrowed ≡ tally borrowing n s.pc
  pub atom-le : s.mem.atom ≤ 1
  pub calm : s.mem.panicked ≡ false
