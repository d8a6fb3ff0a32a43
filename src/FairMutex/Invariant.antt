-- ===== src/FairMutex/Invariant.antt =====
-- The invariant of the mutex of fair_mutex.rs: who owns it, and where each waiter is.
use async_mutex.Common.{
  ℕ, zero, suc, ◌+◌, ◌≤◌, ◌≡◌, ◌≢◌, ◌⊎◌, Bool, true, false, [], ◌==◌, if◌then◌else◌, tally, count,
}
use async_mutex.FairMutex.{
  Waker, none, done, Shared, Pc, idle, asleep, dropping, flip_load, flip, unlinking, dropped,
  critical, unlocking, borrow, pop_first, load_atom, looping, releasing, relock, take_one, popped,
  waking, leaving,
}

-- The task has the mutex: it has the guard, or is in `unlock` and has not yet passed it on.
abbrev pub holds : Pc → ℕ
holds critical = 1
holds unlocking = 1
holds borrow = 1
holds pop_first = 1
holds load_atom = 1
holds (looping _ _) = 1
holds (releasing _ _) = 1
holds (relock _ _) = 1
holds take_one = 1
holds (popped _) = 1
holds (waking _) = 1
holds _ = 0

-- The task has a read guard of the futex's state.
abbrev pub reading : Pc → ℕ
reading critical = 0
reading unlocking = 0
reading leaving = 1
reading p = holds p

-- The task has the write guard.
abbrev pub writing : Pc → ℕ
writing flip_load = 1
writing (flip _ _) = 1
writing unlinking = 1
writing _ = 0

-- The task has the queue guard.
abbrev pub borrowing : Pc → ℕ
borrowing pop_first = 1
borrowing load_atom = 1
borrowing (looping _ _) = 1
borrowing take_one = 1
borrowing (popped _) = 1
borrowing _ = 0

-- The task has popped waiter `j` and not yet woken it.
abbrev pub aims : ℕ → Pc → ℕ
aims j (popped w) = if w == j then 1 else 0
aims j (waking w) = if w == j then 1 else 0
aims j _ = 0

abbrev pub is_done : Waker → ℕ
is_done done = 1
is_done _ = 0

-- The task's waiter has been pushed, and the task has not taken notice of its removal.
abbrev pub pushed : Pc → Waker → ℕ
pushed asleep k = 1
pushed dropping k = 1
pushed flip_load k = 1
pushed (flip _ _) k = 1
pushed unlinking k = 1
pushed dropped k = is_done k
pushed _ k = 0

abbrev pub free : ℕ → ℕ
free zero = 1
free (suc a) = 0

abbrev pub bit : Bool → ℕ
bit true = 1
bit false = 0

-- What the place of a task says about shared memory.
abbrev pub Local : ℕ → Shared → Pc → Type 0
Local i m asleep = m.waker i ≢ none
Local i m dropping = m.waker i ≢ none
Local i m flip_load = m.waker i ≢ none
Local i m (flip a t) = (m.waker i ≢ none) × (t ≡ 0 → count i m.inbox ≡ 0)
Local i m unlinking = (m.waker i ≢ none) × (count i m.inbox ≡ 0)
Local i m dropped = m.waker i ≢ none
Local i m load_atom = m.queue ≡ []
Local i m (looping a t) = m.queue ≡ []
Local i m (releasing a t) = (m.queue ≡ []) × (t ≡ 0)
Local i m (relock a t) = m.queue ≡ []
Local i m take_one = m.queue ≢ []
Local i m _ = Unit

pub record Inv (n : ℕ) (m : Shared) (pc : ℕ → Pc) : Type 0 where
  pub token : tally holds n pc + tally is_done n m.waker + free m.atom ≡ 1
  pub small : m.atom ≤ 1
  pub place :
      (j : ℕ)
      → count j m.inbox + count j m.queue + tally (aims j) n pc + is_done (m.waker j)
        ≡ pushed (pc j) (m.waker j)
  pub local_facts : (j : ℕ) → Local j m (pc j)
  pub no_waiters : m.atom ≡ 0 → (m.inbox ≡ []) × (m.queue ≡ [])
  pub readers_is : m.readers ≡ tally reading n pc
  pub writer_is : bit m.writer ≡ tally writing n pc
  pub apart : (m.writer ≡ false) ⊎ (m.readers ≡ 0)
  pub borrowed_is : bit m.borrowed ≡ tally borrowing n pc
  pub calm : m.panicked ≡ false
  pub nobody : pc 0 ≡ idle
  pub outside : (j : ℕ) → n ≤ j → pc j ≡ idle
