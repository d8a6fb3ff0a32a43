-- ===== src/RwLock.antt =====
-- rwlock.rs: the state of the lock and its packing into the atom of the futex, and `read`, `write`,
-- `read_unlock`, `write_unlock` and the cancellation of a pending `read` or `write`, as the steps of
-- one task between two accesses to shared memory. The futex is abstract, as in FairMutex: the inbox is
-- the stack of waiters that have been pushed, the newest first. Work on the queues belongs to the step
-- of the atomic access before it, since only the owner of the guard sees it.
-- A task only reads or only writes: `queue_of` is the field `queue` of its waiter.
mod Memory
pub mod Packing
pub mod Invariant
pub mod Sums
pub mod Bounds
pub mod Steps
pub mod Counts
pub mod Queues
pub mod Seats
pub mod Bystanders
pub mod Places
pub mod Safety
mod Tests
pub use async_mutex.Tasks.{
  Waker, none, waiting, done, Choice, go, spurious, cancel, is_spurious, newest, erase,
}
use async_mutex.Common.{
  ℕ, zero, suc, ◌+◌, ◌-◌, Bool, true, false, not, ◌&&◌, ◌||◌, List, [], ◌∷◌, ◌++◌, reverse, length,
  ltb, ◌==◌, if◌then◌else◌, update,
}
pub use Memory.*

-- Where a task stands, with its snapshot of the futex (the atom and the newest waiter).
pub data Pc : Type 0 where
  idle : Pc
  trying : (readers writers newest : ℕ) → Pc  -- the loop of `read` or `write`
  asleep : Pc  -- the wait is pending
  dropping : Pc  -- `WaitFuture::drop`, before the write lock
  flip_load : Pc  -- `RawFutex::flip`
  flip : (readers writers newest : ℕ) → Pc
  unlinking : Pc  -- `RawFutex::cancel`, and the rest of `WaitFuture::drop`
  reading : Pc  -- a `ReadGuard` exists
  leave_read : Pc  -- the start of `read_unlock`
  releasing : (readers writers newest : ℕ) → Pc  -- its first loop
  locking : (readers writers newest : ℕ) → Pc  -- before `self.futex.lock()`
  borrow : (readers writers newest : ℕ) → Pc  -- before `waiters.lock()`
  handing : (readers writers newest : ℕ) → Pc  -- its second loop
  writing : Pc  -- a `WriteGuard` exists
  leave_write : Pc  -- the start of `write_unlock`
  borrow_write : Pc  -- before the first `waiters.lock()`
  load_write : Pc  -- before `load` and `is_empty`
  looping : (has_readers : Bool) (readers writers newest : ℕ) → Pc  -- the loop of `write_unlock`
  freeing : (has_readers : Bool) (readers writers newest : ℕ) → Pc  -- before the first exchange
  relock : (has_readers : Bool) (readers writers newest : ℕ) → Pc  -- before the second `waiters.lock()`
  counting : (readers writers newest : ℕ) (list : List ℕ) → Pc  -- before `mem::drop(queue)`
  adding : (readers writers newest : ℕ) (list : List ℕ) → Pc  -- the loop that adds `count - 1`
  waking_all : (list : List ℕ) → Pc  -- `for reader in readers`
  popped : (waiter : ℕ) → Pc  -- before `mem::drop(queue)`
  waking : (waiter : ℕ) → Pc  -- before `writer.wake()`
  leaving : Pc  -- before the guard `waiters` is dropped

module _ (queue_of : ℕ → ℕ) where
  -- `WaitFuture::poll_enter` of task `i`, with the new value of the atom.
  pub poll_enter :
      ℕ
      → Choice
      → Shared
      → (readers writers newest new_readers new_writers : ℕ) → Waker
      → Shared × Pc
  poll_enter i c m r w t r' w' done = (panic m, trying r w t)
  poll_enter i c m r w t r' w' _ =
      if wins c m r w t
      then (
        record m {
          readers = r';
          writers = w';
          inbox = i ∷ m.inbox;
          waker = update m.waker i waiting;
        },
        asleep,
      )
      else (put_waker m i waiting, trying m.readers m.writers (newest m.inbox))

  -- One round of the loop of `read`.
  pub read_round : ℕ → Choice → Shared → (readers writers newest : ℕ) → Shared × Pc
  unfolding poll_enter
  read_round i c m r w t =
      if w == 0
      then (if wins c m r w t
          then (record m { readers = r + 1; writers = 0; waker = update m.waker i none }, reading)
          else (m, trying m.readers m.writers (newest m.inbox)))
      else poll_enter i c m r w t r w (m.waker i)

  -- One round of the loop of `write`.
  pub write_round : ℕ → Choice → Shared → (readers writers newest : ℕ) → Shared × Pc
  unfolding poll_enter
  write_round i c m r w t =
      if (r == 0) && (w == 0)
      then (if wins c m r w t
          then (record m { readers = 0; writers = 1; waker = update m.waker i none }, writing)
          else (m, trying m.readers m.writers (newest m.inbox)))
      else poll_enter i c m r w t r (w + 1) (m.waker i)

  -- What a task has once its wait is over.
  abbrev pub acquired : ℕ → Pc
  acquired i = if queue_of i == read_queue_index then reading else writing

  -- `WaitFuture::poll_waiting`
  pub poll_waiting : ℕ → Shared → Waker → Shared × Pc
  poll_waiting i m none = (panic m, asleep)
  poll_waiting i m waiting = (m, asleep)
  poll_waiting i m done = (put_waker m i none, acquired i)

  -- The callbacks of `WaitFuture::drop`. No other task can reach the waiter once it is unlinked, so
  -- this belongs to the step that unlinks it.
  pub on_cancel : ℕ → Shared → Waker → Shared × Pc
  on_cancel i m none = (panic m, unlinking)
  on_cancel i m waiting =
      if queue_of i == read_queue_index
      then (put_waker m i none, idle)
      else (record (put_waker m i none) { aborted = true }, idle)
  on_cancel i m done =
      (put_waker m i none, if queue_of i == read_queue_index then leave_read else leave_write)

-- The end of `read_unlock`, with the number of writers: the first writer is popped.
pub hand_over : Shared → (writers : ℕ) → List ℕ → Shared × Pc
hand_over m writers (w ∷ ws) =
    if ltb 0 writers then (record m { write_queue = ws }, popped w) else (panic m, leaving)
hand_over m writers [] =
    if (writers == 0) && (length m.read_queue == 0)
    then (record m { borrowed = false }, leaving)
    else (panic m, leaving)

-- `queue.pop(WRITE_QUEUE).unwrap()`
pub pop_writer : Shared → List ℕ → Shared × Pc
pop_writer m [] = (panic m, leaving)
pop_writer m (w ∷ ws) = (record m { write_queue = ws }, popped w)

-- After the downgrade: no writer is queued, and all readers are popped.
pub pop_readers : Shared → (readers writers newest : ℕ) → List ℕ → Shared × Pc
pop_readers m r w t [] = (record m { read_queue = [] }, counting r w t m.read_queue)
pop_readers m r w t (v ∷ vs) = (panic m, leaving)

-- One round of the loop of `write_unlock`.
pub unlock_round : (ℕ → ℕ) → Choice → Shared → Bool → (readers writers newest : ℕ) → Shared × Pc
unfolding pop_writer pop_readers
unlock_round queue_of c m b r w t =
    if not (r == 0)
    then (panic m, leaving)
    else if (w == 1) && (not b && (t == 0))
    then (record m { borrowed = false }, freeing b r w t)
    else if not (wins c m r w t)
    then (m, looping b m.readers m.writers (newest m.inbox))
    else if w == 1
    then (let e = record (enqueue queue_of m) { writers = 0; readers = 1 } in
        pop_readers e r w t e.write_queue)
    else (let e = record (enqueue queue_of m) { writers = w - 1; readers = r } in
        if ltb 1 w then pop_writer e e.write_queue else (panic e, leaving))

-- `Waiter::wake`, with what the task does next.
pub wake : Shared → ℕ → Pc → Pc → Waker → Shared × Pc
wake m w next here waiting = (put_waker m w done, next)
wake m w next here _ = (panic m, here)

-- One step of task `i`, with the atom that an exchange passes to `RawFutex::cmpxchg_weak`.
pub advance : (ℕ → ℕ) → ℕ → Choice → Shared → Pc → Shared × Pc
unfolding read_round write_round poll_waiting on_cancel hand_over unlock_round wake
advance q i go m idle = (put_waker m i none, trying m.readers m.writers (newest m.inbox))
advance q i _ m idle = (m, idle)
advance q i c m (trying r w t) =
    if q i == read_queue_index then read_round q i c m r w t else write_round q i c m r w t
advance q i go m asleep = poll_waiting q i m (m.waker i)
advance q i spurious m asleep = (m, asleep)
advance q i cancel m asleep = (m, dropping)
advance q i c m dropping =
    if m.locked || not (m.guards == 0)
    then (m, dropping)
    else (record m { locked = true }, flip_load)
advance q i c m flip_load = (m, flip m.readers m.writers (newest m.inbox))
advance q i c m (flip r w t) =
    if t == 0
    then (m, unlinking)
    else if wins c m r w t
    then (enqueue q m, unlinking)
    else (m, flip m.readers m.writers (newest m.inbox))
advance q i c m unlinking = on_cancel q i (record (unlink q i m) { locked = false }) (m.waker i)
advance q i go m reading = (m, leave_read)
advance q i _ m reading = (m, reading)
advance q i c m leave_read = (m, releasing m.readers m.writers (newest m.inbox))
advance q i c m (releasing r w t) =
    if (r == 1) && ltb 0 w
    then (m, locking r w t)
    else if r == 0
    then (panic m, releasing r w t)
    else if wins c m r w t
    then (record m { readers = r - 1 }, idle)
    else (m, releasing m.readers m.writers (newest m.inbox))
advance q i c m (locking r w t) =
    if m.locked then (m, locking r w t) else (record m { guards = m.guards + 1 }, borrow r w t)
advance q i c m (borrow r w t) =
    if m.borrowed then (panic m, borrow r w t) else (record m { borrowed = true }, handing r w t)
advance q i c m (handing r w t) =
    if wins c m r w t
    then (let e = record (enqueue q m) { readers = 0; writers = w } in hand_over e w e.write_queue)
    else (m, handing m.readers m.writers (newest m.inbox))
advance q i go m writing = (m, leave_write)
advance q i _ m writing = (m, writing)
advance q i c m leave_write =
    if m.locked then (m, leave_write) else (record m { guards = m.guards + 1 }, borrow_write)
advance q i c m borrow_write =
    if m.borrowed then (panic m, borrow_write) else (record m { borrowed = true }, load_write)
advance q i c m load_write =
    (m, looping (not (length m.read_queue == 0)) m.readers m.writers (newest m.inbox))
advance q i c m (looping b r w t) = unlock_round q c m b r w t
advance q i c m (freeing b r w t) =
    if wins c m r w t
    then (record m { writers = 0; readers = 0 }, leaving)
    else (m, relock b m.readers m.writers (newest m.inbox))
advance q i c m (relock b r w t) =
    if m.borrowed
    then (panic m, relock b r w t)
    else (record m { borrowed = true }, looping b r w t)
advance q i c m (counting r w t list) = (record m { borrowed = false }, adding r w t list)
advance q i c m (adding r w t list) =
    if r + length list == 0
    then (panic m, adding r w t list)
    else if wins c m r w t
    then (record m { readers = r + length list - 1 }, waking_all list)
    else (m, adding m.readers m.writers (newest m.inbox) list)
advance q i c m (waking_all []) = (record m { guards = m.guards - 1 }, idle)
advance q i c m (waking_all (w ∷ ws)) = wake m w (waking_all ws) (waking_all (w ∷ ws)) (m.waker w)
advance q i c m (popped w) = (record m { borrowed = false }, waking w)
advance q i c m (waking w) = wake m w leaving (waking w) (m.waker w)
advance q i c m leaving = (record m { guards = m.guards - 1 }, idle)

-- One step of task `i`: what an exchange writes is packed into one word.
pub act : (ℕ → ℕ) → ℕ → Choice → Shared → Pc → Shared × Pc
unfolding advance
act q i c m p = let (m', p') = advance q i c m p in (stored m', p')

-- `n - 1` tasks, numbered from 1, over one lock.
pub record System : Type 0 where
  pub mem : Shared
  pub pc : ℕ → Pc

pub step : (ℕ → ℕ) → ℕ → Choice → System → System
unfolding act
step q i c s = let (m, p) = act q i c s.mem (s.pc i) in record { mem = m; pc = update s.pc i p }

-- `RwLock::new`
abbrev pub init : System
init = record {
  mem = record {
    readers = 0;
    writers = 0;
    inbox = [];
    read_queue = [];
    write_queue = [];
    waker = λ _. none;
    guards = 0;
    locked = false;
    borrowed = false;
    panicked = false;
    aborted = false;
  };
  pc = λ _. idle;
}
