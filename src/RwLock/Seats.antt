-- ===== src/RwLock/Seats.antt =====
-- How the loops of rwlock.rs move a waiter between the inbox, the queues and a task's hands.
use async_mutex.Common.{
  ℕ, ◌+◌, ◌≤◌, ◌<◌, ◌≡◌, ◌≢◌, ◌⊎◌, ap, inl, inr, arith, Bool, List, [], ◌∷◌, count, inl, inr,
}
use async_mutex.RwLock.Sums.{count-enqueue}
use async_mutex.RwLock.Steps.{writers_of, readers_of}
use async_mutex.RwLock.{
  Waker, done, Shared, Pc, trying, handing, read_queue_index, write_queue_index, Choice, advance,
  poll_enter, unlock_round,
}
use async_mutex.RwLock.Sums.{count-enqueue}
use async_mutex.RwLock.Invariant.{aims, is_done, pushed}

-- Waiter `j` is delivered to the queue that it names.
pub delivered :
    (q : ℕ → ℕ)
    → ((j : ℕ) → q j < 2)
    → (m : Shared) (j : ℕ)
    → count j (readers_of q m) + count j (writers_of q m)
      ≡ count j m.inbox + count j m.read_queue + count j m.write_queue
delivered q two m j = ground (
  arith,
  two j,
  count-enqueue q read_queue_index j m.read_queue m.inbox,
  count-enqueue q write_queue_index j m.write_queue m.inbox,
)

-- The places of waiter `j` in the queues, and with a task at `p`.
abbrev pub seats : ℕ → Shared → Pc → ℕ
seats j m p = count j m.inbox + count j m.read_queue + count j m.write_queue + aims j p

-- A round of `write_unlock` moves waiters between the queues and its own hands.
pub round_seats :
    (q : ℕ → ℕ)
    → ((j : ℕ) → q j < 2)
    → (c : Choice) (m : Shared) (b : Bool) (r w t j : ℕ) → r ≡ 0
    → ((m.readers ≡ 0) × (m.writers ≡ 1) × (writers_of q m ≡ []))
      ⊎ ((m.readers ≡ 0) × (2 ≤ m.writers) × ((v : ℕ) × (vs : List ℕ) × (writers_of q m ≡ v ∷ vs)))
    → (seats j (unlock_round q c m b r w t).0 (unlock_round q c m b r w t).1
        ≡ count j m.inbox + count j m.read_queue + count j m.write_queue)
      × ((unlock_round q c m b r w t).0.waker ≡ m.waker)
      × ((k : Waker) → pushed (unlock_round q c m b r w t).1 k ≡ 0)
unfolding unlock_round
round_seats q two c m b r w t j zeros (inl (z, one, e)) =
    (ground (arith, delivered q two m j, ap (count j) e), ground arith, (λ k. ground arith))
round_seats q two c m b r w t j zeros (inr (z, more, (v, vs, e))) =
    (ground (arith, delivered q two m j, ap (count j) e), ground arith, (λ k. ground arith))

-- So does the second loop of `read_unlock`.
pub handing_seats :
    (q : ℕ → ℕ)
    → ((j : ℕ) → q j < 2)
    → (c : Choice) (i : ℕ) (m : Shared) (r w t j : ℕ)
    → (1 ≤ m.writers) × ((v : ℕ) × (vs : List ℕ) × (writers_of q m ≡ v ∷ vs))
    → (seats j (advance q i c m (handing r w t)).0 (advance q i c m (handing r w t)).1
        ≡ count j m.inbox + count j m.read_queue + count j m.write_queue)
      × ((advance q i c m (handing r w t)).0.waker ≡ m.waker)
      × ((k : Waker) → pushed (advance q i c m (handing r w t)).1 k ≡ 0)
unfolding advance
handing_seats q two c i m r w t j (some, (v, vs, e)) =
    (ground (arith, delivered q two m j, ap (count j) e), ground arith, (λ k. ground arith))

-- What a round of `read` or `write` does to the place of the task's own waiter, and of another's.
pub record Entered (i : ℕ) (m m' : Shared) (p' : Pc) : Type 0 where
  pub others : (j : ℕ) → j ≢ i → (count j m'.inbox ≡ count j m.inbox) × (m'.waker j ≡ m.waker j)
  pub reads_same : m'.read_queue ≡ m.read_queue
  pub writes_same : m'.write_queue ≡ m.write_queue
  pub aimless : (j : ℕ) → aims j p' ≡ 0
  pub own : count i m'.inbox + is_done (m'.waker i) ≡ count i m.inbox + pushed p' (m'.waker i)

module _ (q : ℕ → ℕ) (i : ℕ) (c : Choice) (m : Shared) (r w t : ℕ) where
  poll_enter-Entered :
      (r' w' : ℕ) (k : Waker)
      → is_done k ≡ 0
      → k ≡ m.waker i
      → Entered i m (poll_enter q i c m r w t r' w' k).0 (poll_enter q i c m r w t r' w' k).1
  unfolding poll_enter
  poll_enter-Entered r' w' done fresh here = absurd (omega arith)
  poll_enter-Entered r' w' k fresh here = record {
    others = λ j ne. ground arith;
    reads_same = ground arith;
    writes_same = ground arith;
    aimless = λ j. ground arith;
    own = ground arith;
  }

  pub trying-Entered :
      is_done (m.waker i) ≡ 0
      → Entered i m (advance q i c m (trying r w t)).0 (advance q i c m (trying r w t)).1
  unfolding advance
  trying-Entered fresh = record {
    others = λ j ne. ground arith;
    reads_same = ground arith;
    writes_same = ground arith;
    aimless = λ j. ground arith;
    own = ground arith;
  }
