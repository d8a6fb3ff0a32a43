-- ===== src/FairMutex.antt =====
-- fair_mutex.rs: `Mutex::lock`, `Mutex::unlock` and the cancellation of a waiting `lock`
-- (futex/wait_future.rs), as the steps of one task between two accesses to shared memory.
-- The futex is abstract here: the inbox is the stack of waiters that have been pushed, the newest
-- first, and the queue holds the waiters that have been taken over from it. Work on the queue
-- belongs to the step of the atomic access before it, since only the owner of the guard sees it.
-- The waiter of task `i` has the address `i`; task 0 does not exist, since 0 is null.
pub mod Invariant
mod Counts
mod Steps
mod Places
pub mod Safety
pub mod Order
pub mod Run
pub mod Unlock
pub mod Lock
mod Tests
pub use async_mutex.Tasks.{
  Waker, none, waiting, done, Choice, go, spurious, cancel, is_spurious, newest, erase,
}
use async_mutex.Common.{
  ℕ, zero, suc, ◌+◌, ◌-◌, Bool, true, false, not, ◌&&◌, ◌||◌, List, [], ◌∷◌, ◌++◌, reverse, ◌==◌,
  if◌then◌else◌, update,
}

pub record Shared : Type 0 where
  pub atom : ℕ  -- 0: unlocked, 1: locked
  pub inbox : List ℕ
  pub queue : List ℕ
  pub waker : ℕ → Waker
  pub readers : ℕ  -- guards of `Futex::lock`
  pub writer : Bool  -- the write lock that cancellation takes
  pub borrowed : Bool  -- `AtomicRefCell::state`
  pub panicked : Bool

-- Where a task stands, with its snapshot of the futex (the atom and the newest waiter).
pub data Pc : Type 0 where
  idle : Pc
  trying : (atom newest : ℕ) → Pc  -- the loop of `lock`
  asleep : Pc  -- the wait is pending
  dropping : Pc  -- `WaitFuture::drop`, before the write lock
  flip_load : Pc  -- `RawFutex::flip`
  flip : (atom newest : ℕ) → Pc
  unlinking : Pc  -- `RawFutex::cancel`
  dropped : Pc  -- before the callbacks of `WaitFuture::drop`
  critical : Pc  -- a `MutexGuard` exists
  unlocking : Pc  -- the start of `unlock`
  borrow : Pc  -- before the first `waiters.lock()`
  pop_first : Pc  -- before the first `queue.pop(0)`
  load_atom : Pc
  looping : (atom newest : ℕ) → Pc  -- the loop of `unlock`
  releasing : (atom newest : ℕ) → Pc  -- before the last `cmpxchg_weak`
  relock : (atom newest : ℕ) → Pc  -- before the second `waiters.lock()`
  take_one : Pc  -- before `queue.pop(0).unwrap()`
  popped : (waiter : ℕ) → Pc  -- before `mem::drop(queue)`
  waking : (waiter : ℕ) → Pc  -- before `waiter.wake()`
  leaving : Pc  -- before the guard `waiters` is dropped

-- `RawFutex::cmpxchg_weak`: both words are compared.
abbrev pub wins : Choice → Shared → ℕ → ℕ → Bool
wins c m a t = not (is_spurious c) && ((m.atom == a) && (newest m.inbox == t))

abbrev pub panic : Shared → Shared
panic m = record m { panicked = true }

-- `RawFutex::enqueue`
abbrev pub enqueue : Shared → Shared
enqueue m = record m { inbox = []; queue = m.queue ++ reverse m.inbox }

abbrev pub put_waker : Shared → ℕ → Waker → Shared
put_waker m i k = record m { waker = update m.waker i k }

-- `WaitFuture::poll_enter` of task `i`.
unfoldable pub poll_enter : ℕ → Choice → Shared → ℕ → ℕ → Waker → Shared × Pc
poll_enter i c m a t done = (panic m, trying a t)
poll_enter i c m a t _ =
    if wins c m a t
    then (record m { atom = 1; inbox = i ∷ m.inbox; waker = update m.waker i waiting }, asleep)
    else (put_waker m i waiting, trying m.atom (newest m.inbox))

-- `WaitFuture::poll_waiting`
unfoldable pub poll_waiting : ℕ → Shared → Waker → Shared × Pc
poll_waiting i m none = (panic m, asleep)
poll_waiting i m waiting = (m, asleep)
poll_waiting i m done = (put_waker m i none, critical)

-- The callbacks of `WaitFuture::drop`: the waiter is given up in the same step.
unfoldable pub on_cancel : ℕ → Shared → Waker → Shared × Pc
on_cancel i m none = (panic m, dropped)
on_cancel i m waiting = (put_waker m i none, idle)
on_cancel i m done = (put_waker m i none, unlocking)

-- `FutexQueueGuard::pop`, with what follows an empty queue.
unfoldable pub pop : Shared → Shared × Pc → List ℕ → Shared × Pc
pop m otherwise [] = otherwise
pop m otherwise (w ∷ ws) = (record m { queue = ws }, popped w)

-- `Waiter::wake`
unfoldable pub wake : Shared → ℕ → Waker → Shared × Pc
wake m w waiting = (put_waker m w done, leaving)
wake m w _ = (panic m, waking w)

-- One step of task `i`.
unfoldable pub act : ℕ → Choice → Shared → Pc → Shared × Pc
unfolding poll_enter poll_waiting on_cancel pop wake
act i go m idle = (put_waker m i none, trying m.atom (newest m.inbox))
act i _ m idle = (m, idle)
act i c m (trying a t) =
    if a == 0
    then (if wins c m a t
        then (record m { atom = 1; waker = update m.waker i none }, critical)
        else (m, trying m.atom (newest m.inbox)))
    else poll_enter i c m a t (m.waker i)
act i go m asleep = poll_waiting i m (m.waker i)
act i spurious m asleep = (m, asleep)
act i cancel m asleep = (m, dropping)
act i c m dropping =
    if m.writer || not (m.readers == 0)
    then (m, dropping)
    else (record m { writer = true }, flip_load)
act i c m flip_load = (m, flip m.atom (newest m.inbox))
act i c m (flip a t) =
    if t == 0
    then (m, unlinking)
    else if wins c m a t
    then (enqueue m, unlinking)
    else (m, flip m.atom (newest m.inbox))
act i c m unlinking = (record m { queue = erase i m.queue; writer = false }, dropped)
act i c m dropped = on_cancel i m (m.waker i)
act i go m critical = (m, unlocking)
act i _ m critical = (m, critical)
act i c m unlocking =
    if m.writer then (m, unlocking) else (record m { readers = m.readers + 1 }, borrow)
act i c m borrow =
    if m.borrowed then (panic m, borrow) else (record m { borrowed = true }, pop_first)
act i c m pop_first = pop m (m, load_atom) m.queue
act i c m load_atom = (m, looping m.atom (newest m.inbox))
act i c m (looping a t) =
    if t == 0
    then (record m { borrowed = false }, releasing a t)
    else (if wins c m a t
        then (record (enqueue m) { atom = 1 }, take_one)
        else (m, looping m.atom (newest m.inbox)))
act i c m (releasing a t) =
    if wins c m a t then (record m { atom = 0 }, leaving) else (m, relock m.atom (newest m.inbox))
act i c m (relock a t) =
    if m.borrowed then (panic m, relock a t) else (record m { borrowed = true }, looping a t)
act i c m take_one = pop m (panic m, take_one) m.queue
act i c m (popped w) = (record m { borrowed = false }, waking w)
act i c m (waking w) = wake m w (m.waker w)
act i c m leaving = (record m { readers = m.readers - 1 }, idle)

-- `n - 1` tasks, numbered from 1, over one mutex.
pub record System : Type 0 where
  pub mem : Shared
  pub pc : ℕ → Pc

unfoldable pub step : ℕ → Choice → System → System
unfolding act
step i c s = let (m, p) = act i c s.mem (s.pc i) in record { mem = m; pc = update s.pc i p }

-- `Mutex::new`
abbrev pub init : System
init = record {
  mem = record {
    atom = 0;
    inbox = [];
    queue = [];
    waker = λ _. none;
    readers = 0;
    writer = false;
    borrowed = false;
    panicked = false;
  };
  pc = λ _. idle;
}
