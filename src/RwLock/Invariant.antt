-- ===== src/RwLock/Invariant.antt =====
-- The invariant of the lock of rwlock.rs: who has it, what the atom counts, and where each waiter is.
use async_mutex.Common.{
  ℕ, zero, suc, ◌+◌, ◌≤◌, ◌≡◌, ◌≢◌, ◌⊎◌, Bool, true, false, List, [], ◌∷◌, ◌==◌, if◌then◌else◌,
  tally, tally_at, count, length,
}
use async_mutex.RwLock.{
  Waker, none, done, Shared, Pc, idle, asleep, dropping, flip_load, flip, unlinking, reading,
  leave_read, releasing, locking, borrow, handing, writing, leave_write, borrow_write, load_write,
  looping, freeing, relock, counting, adding, waking_all, popped, waking, leaving, read_queue_index,
  write_queue_index, only,
}

-- How many readers the task stands for: it has a `ReadGuard`, is in `read_unlock`, or keeps the lock
-- for readers that it has popped and not yet woken.
abbrev pub reads : Pc → ℕ
reads reading = 1
reads leave_read = 1
reads (releasing _ _ _) = 1
reads (locking _ _ _) = 1
reads (borrow _ _ _) = 1
reads (handing _ _ _) = 1
reads (counting _ _ _ _) = 1
reads (adding _ _ _ _) = 1
reads (waking_all list) = length list
reads _ = 0

-- The task has the lock for writing: it has a `WriteGuard`, is in `write_unlock`, or has popped a
-- writer and not yet woken it.
abbrev pub writes : Pc → ℕ
writes writing = 1
writes leave_write = 1
writes borrow_write = 1
writes load_write = 1
writes (looping _ _ _ _) = 1
writes (freeing _ _ _ _) = 1
writes (relock _ _ _ _) = 1
writes (popped _) = 1
writes (waking _) = 1
writes _ = 0

-- The task has a read guard of the futex's state.
abbrev pub guarding : Pc → ℕ
guarding (borrow _ _ _) = 1
guarding (handing _ _ _) = 1
guarding borrow_write = 1
guarding load_write = 1
guarding (looping _ _ _ _) = 1
guarding (freeing _ _ _ _) = 1
guarding (relock _ _ _ _) = 1
guarding (counting _ _ _ _) = 1
guarding (adding _ _ _ _) = 1
guarding (waking_all _) = 1
guarding (popped _) = 1
guarding (waking _) = 1
guarding leaving = 1
guarding _ = 0

-- The task has the write guard.
abbrev pub cancelling : Pc → ℕ
cancelling flip_load = 1
cancelling (flip _ _ _) = 1
cancelling unlinking = 1
cancelling _ = 0

-- The task has the queue guard.
abbrev pub borrowing : Pc → ℕ
borrowing (handing _ _ _) = 1
borrowing load_write = 1
borrowing (looping _ _ _ _) = 1
borrowing (counting _ _ _ _) = 1
borrowing (popped _) = 1
borrowing _ = 0

-- How often the task holds waiter `j`, popped and not yet woken.
abbrev pub aims : ℕ → Pc → ℕ
aims j (popped w) = if w == j then 1 else 0
aims j (waking w) = if w == j then 1 else 0
aims j (counting _ _ _ list) = count j list
aims j (adding _ _ _ list) = count j list
aims j (waking_all list) = count j list
aims j _ = 0

abbrev pub is_done : Waker → ℕ
is_done done = 1
is_done _ = 0

-- The task's waiter has been pushed, and the task has not taken notice of its removal.
abbrev pub pushed : Pc → Waker → ℕ
pushed asleep k = 1
pushed dropping k = 1
pushed flip_load k = 1
pushed (flip _ _ _) k = 1
pushed unlinking k = 1
pushed _ k = 0

abbrev pub bit : Bool → ℕ
bit true = 1
bit false = 0

-- Whether an atom says that a writer has the lock.
abbrev pub write_mode : (readers writers : ℕ) → ℕ
write_mode zero zero = 0
write_mode zero (suc w) = 1
write_mode (suc r) w = 0

module _ (queue_of : ℕ → ℕ) where
  -- Waiter `j` was woken as a reader, or as a writer.
  abbrev pub woken_reader : ℕ → Waker → ℕ
  woken_reader j k = if queue_of j == read_queue_index then is_done k else 0

  abbrev pub woken_writer : ℕ → Waker → ℕ
  woken_writer j k = if queue_of j == write_queue_index then is_done k else 0

  -- All of a sequence wait in one queue.
  abbrev pub AllIn : ℕ → List ℕ → Type 0
  AllIn q [] = Unit
  AllIn q (w ∷ ws) = (queue_of w ≡ q) × AllIn q ws

  -- What the place of a task says about shared memory.
  abbrev pub Local : ℕ → Shared → Pc → Type 0
  Local i m asleep = m.waker i ≢ none
  Local i m dropping = m.waker i ≢ none
  Local i m flip_load = m.waker i ≢ none
  Local i m (flip r w t) = (m.waker i ≢ none) × (t ≡ 0 → count i m.inbox ≡ 0)
  Local i m unlinking = (m.waker i ≢ none) × (count i m.inbox ≡ 0)
  Local i m (releasing r w t) = (1 ≤ r) × (r ≡ 1 → 1 ≤ w → (m.readers ≡ 1) × (1 ≤ m.writers))
  Local i m (locking r w t) = (m.readers ≡ 1) × (1 ≤ m.writers)
  Local i m (borrow r w t) = (m.readers ≡ 1) × (1 ≤ m.writers)
  Local i m (handing r w t) = (m.readers ≡ 1) × (1 ≤ m.writers)
  Local i m (looping b r w t) =
      (r ≡ 0) × (1 ≤ w) × (b ≡ false → m.read_queue ≡ []) × (b ≡ true → m.read_queue ≢ [])
  Local i m (freeing b r w t) = (r ≡ 0) × (w ≡ 1) × (t ≡ 0) × (b ≡ false) × (m.read_queue ≡ [])
  Local i m (relock b r w t) = (r ≡ 0) × (1 ≤ w) × (b ≡ false) × (m.read_queue ≡ [])
  Local i m (counting r w t list) = (1 ≤ length list) × AllIn read_queue_index list
  Local i m (adding r w t list) = (1 ≤ length list) × AllIn read_queue_index list
  Local i m (waking_all list) = AllIn read_queue_index list
  Local i m (popped w) = queue_of w ≡ write_queue_index
  Local i m (waking w) = queue_of w ≡ write_queue_index
  Local i m reading = Unit
  Local i m _ = Unit

  pub record Inv (n : ℕ) (m : Shared) (pc : ℕ → Pc) : Type 0 where
    -- The atom counts the readers, and the writers with those that wait.
    pub readers_is : m.readers ≡ tally reads n pc + tally_at woken_reader n m.waker
    pub writers_is :
        m.writers
        ≡ tally writes n pc
          + tally_at woken_writer n m.waker
          + length (only queue_of write_queue_index m.inbox)
          + length m.write_queue
    pub token : tally writes n pc + tally_at woken_writer n m.waker ≡ write_mode m.readers m.writers
    pub place :
        (j : ℕ)
        → count j m.inbox
            + count j m.read_queue
            + count j m.write_queue
            + tally (aims j) n pc
            + is_done (m.waker j)
          ≡ pushed (pc j) (m.waker j)
    pub in_read_queue : AllIn read_queue_index m.read_queue
    pub in_write_queue : AllIn write_queue_index m.write_queue
    pub local_facts : (j : ℕ) → Local j m (pc j)
    pub no_waiters : m.writers ≡ 0 → (m.inbox ≡ []) × (m.read_queue ≡ [])
    pub guards_is : m.guards ≡ tally guarding n pc
    pub locked_is : bit m.locked ≡ tally cancelling n pc
    pub apart : (m.locked ≡ false) ⊎ (m.guards ≡ 0)
    pub borrowed_is : bit m.borrowed ≡ tally borrowing n pc
    pub calm : m.panicked ≡ false
    pub nobody : pc 0 ≡ idle
    pub outside : (j : ℕ) → n ≤ j → pc j ≡ idle
