-- ===== src/FastMutex.antt =====
-- fast_mutex.rs: the state of the mutex and its packing into the atom of the futex, and `lock` and
-- `unlock` as the steps of one task between two accesses to shared memory. The futex is abstract, as in
-- FairMutex: the inbox is the stack of waiters that have been pushed, the newest first. Work on the
-- queue belongs to the step of the atomic access before it, since only the owner of the guard sees it.
-- The waiter of task `i` is the one that it pinned last. A pending `lock` may be dropped: its waiter
-- is unlinked, and then one of the callbacks runs, which are both `todo!()`. `aborted` says that such
-- a drop has begun.
pub mod Packing
pub mod Invariant
pub mod Steps
pub mod Locals
pub mod Places
pub mod Safety
mod Tests
pub use async_mutex.Tasks.{
  Waker, none, waiting, done, Choice, go, spurious, cancel, is_spurious, newest, erase,
}
use async_mutex.Common.{
  ℕ, zero, suc, ◌+◌, ◌-◌, ◌*◌, ◌/◌, ◌%◌, ◌^◌, Bool, true, false, not, ◌&&◌, ◌||◌, List, [], ◌∷◌,
  ◌++◌, reverse, length, ◌==◌, if◌then◌else◌, update,
}
use async_mutex.Atomic.{Packable, usize, from_bool}

pub record Atom : Type 0 where
  pub locked : Bool
  pub waking : Bool
  pub waiters : ℕ

-- `impl Packable for Atom`. `|` of values with no common bit is their sum, and `<<` drops what
-- leaves the word.
abbrev pub atom_packing : Packable Atom
atom_packing = record {
  encode = λ val. from_bool val.locked + from_bool val.waking * 2 + usize (val.waiters * 2 ^ 2);
  decode =
      λ val. record { locked = val % 2 == 1; waking = val / 2 % 2 == 1; waiters = val / 2 ^ 2 };
}

pub record Shared : Type 0 where
  pub locked : Bool  -- the atom
  pub waking : Bool
  pub waiters : ℕ
  pub inbox : List ℕ
  pub queue : List ℕ
  pub waker : ℕ → Waker
  pub guards : ℕ  -- read guards of the futex's state
  pub exclusive : Bool  -- its write guard, which a dropped `lock` takes
  pub borrowed : Bool  -- `AtomicRefCell::state`
  pub panicked : Bool  -- an assertion, an `unwrap` or a panic of the futex
  pub aborted : Bool  -- the drop of a pending `lock` has begun

-- Where a task stands, with its snapshot of the futex (the atom and the newest waiter).
pub data Pc : Type 0 where
  idle : Pc
  trying : (woken locked waking : Bool) (waiters newest : ℕ) → Pc  -- the first or the second loop of `lock`
  asleep : (locked waking : Bool) (waiters newest : ℕ) → Pc  -- the wait is pending
  dropping : Pc  -- `WaitFuture::drop`, before the write lock
  flip_load : Pc  -- `RawFutex::flip`
  flip : (locked waking : Bool) (waiters newest : ℕ) → Pc
  unlinking : Pc  -- `RawFutex::cancel`, and the rest of `WaitFuture::drop`
  critical : Pc  -- a `MutexGuard` exists
  unlocking : Pc  -- the start of `unlock`
  releasing : (locked waking : Bool) (waiters newest : ℕ) → Pc  -- its first loop
  locking : (locked waking : Bool) (waiters newest : ℕ) → Pc  -- before `self.futex.lock()`
  borrow : (locked waking : Bool) (waiters newest : ℕ) → Pc  -- before `waiters.lock()`
  handing : (had_waiters locked waking : Bool) (waiters newest : ℕ) → Pc  -- its second loop
  popped : (waiter : ℕ) → Pc  -- before `mem::drop(queue)`
  waking : (waiter : ℕ) → Pc  -- before `waiter.wake()`
  leaving : Pc  -- before the guard `waiters` is dropped

abbrev pub same_bool : Bool → Bool → Bool
same_bool true b = b
same_bool false b = not b

-- `RawFutex::cmpxchg_weak`: the atom and the inbox are compared.
abbrev pub wins : Choice → Shared → (locked waking : Bool) → (waiters newest : ℕ) → Bool
wins c m l k w t =
    not (is_spurious c)
    && ((same_bool m.locked l && same_bool m.waking k)
        && ((m.waiters == w) && (newest m.inbox == t)))

abbrev pub panic : Shared → Shared
panic m = record m { panicked = true }

-- `RawFutex::enqueue`
abbrev pub enqueue : Shared → Shared
enqueue m = record m { inbox = []; queue = m.queue ++ reverse m.inbox }

abbrev pub put_waker : Shared → ℕ → Waker → Shared
put_waker m i k = record m { waker = update m.waker i k }

-- `WaitFuture::poll_enter` of task `i`, with the new value of `waking` and `waiters`.
pub poll_enter :
    ℕ
    → Choice
    → Shared
    → (woken locked waking : Bool) → (waiters newest : ℕ) → Bool
    → ℕ
    → Waker
    → Shared × Pc
poll_enter i c m b l k w t k' w' done = (panic m, trying b l k w t)
poll_enter i c m b l k w t k' w' _ =
    if wins c m l k w t
    then (
      record m {
        locked = l;
        waking = k';
        waiters = w';
        inbox = i ∷ m.inbox;
        waker = update m.waker i waiting;
      },
      asleep l k w t,
    )
    else (put_waker m i waiting, trying b m.locked m.waking m.waiters (newest m.inbox))

-- One round of a loop of `lock`, with its two exchanges; `woken` says which of the loops it is.
pub lock_round :
    ℕ → Choice → Shared → (woken locked waking : Bool) → (waiters newest : ℕ) → Shared × Pc
unfolding poll_enter
lock_round i c m false true k w t =
    if w + 1 == 2 ^ 64
    then (panic m, trying false true k w t)
    else poll_enter i c m false true k w t k (w + 1) (m.waker i)
lock_round i c m false false k w t =
    if wins c m false k w t
    then (
      record m { locked = true; waking = k; waiters = w; waker = update m.waker i none },
      critical,
    )
    else (m, trying false m.locked m.waking m.waiters (newest m.inbox))
lock_round i c m true true k w t = poll_enter i c m true true k w t false w (m.waker i)
lock_round i c m true false k w t =
    if w == 0
    then (panic m, trying true false k w t)
    else if wins c m false k w t
    then (
      record m { locked = true; waking = false; waiters = w - 1; waker = update m.waker i none },
      critical,
    )
    else (m, trying true m.locked m.waking m.waiters (newest m.inbox))

-- `WaitFuture::poll_waiting`; then the second loop begins with a new waiter.
pub poll_waiting : ℕ → Shared → (locked waking : Bool) → (waiters newest : ℕ) → Waker → Shared × Pc
poll_waiting i m l k w t none = (panic m, asleep l k w t)
poll_waiting i m l k w t waiting = (m, asleep l k w t)
poll_waiting i m l k w t done = (put_waker m i none, trying true l k w t)

-- The callbacks of `WaitFuture::drop` are `todo!()`, whether the waiter was woken or not. The waiter
-- goes with the future.
pub on_cancel : ℕ → Shared → Waker → Shared × Pc
on_cancel i m none = (panic m, idle)
on_cancel i m waiting = (panic (put_waker m i none), idle)
on_cancel i m done = (panic (put_waker m i none), idle)

-- The end of `unlock`: `if !atom.waking { queue.pop(0).unwrap() … }`.
pub hand_over : Shared → (waking : Bool) → List ℕ → Shared × Pc
hand_over m true ws = (record m { borrowed = false }, leaving)
hand_over m false [] = (panic m, leaving)
hand_over m false (w ∷ ws) = (record m { queue = ws }, popped w)

-- One round of the second loop of `unlock`.
pub unlock_round :
    Choice → Shared → (had_waiters locked waking : Bool) → (waiters newest : ℕ) → Shared × Pc
unfolding hand_over
unlock_round c m b l k w t =
    if not b && ((t == 0) && not (w == 0))
    then (panic m, leaving)
    else if not (wins c m l k w t)
    then (m, handing b m.locked m.waking m.waiters (newest m.inbox))
    else if b
    then hand_over (record m { locked = false; waking = true }) k m.queue
    else if t == 0
    then (record m { locked = false; waking = false; waiters = 0; borrowed = false }, leaving)
    else (let e = record (enqueue m) { locked = false; waking = true } in hand_over e k e.queue)

-- `Waiter::wake`
pub wake : Shared → ℕ → Waker → Shared × Pc
wake m w waiting = (put_waker m w done, leaving)
wake m w _ = (panic m, waking w)

-- One step of task `i`.
pub act : ℕ → Choice → Shared → Pc → Shared × Pc
unfolding lock_round poll_waiting on_cancel unlock_round wake
act i go m idle = (put_waker m i none, trying false m.locked m.waking m.waiters (newest m.inbox))
act i _ m idle = (m, idle)
act i c m (trying b l k w t) = lock_round i c m b l k w t
act i go m (asleep l k w t) = poll_waiting i m l k w t (m.waker i)
act i spurious m (asleep l k w t) = (m, asleep l k w t)
act i cancel m (asleep l k w t) = (record m { aborted = true }, dropping)
act i c m dropping =
    if m.exclusive || not (m.guards == 0)
    then (m, dropping)
    else (record m { exclusive = true }, flip_load)
act i c m flip_load = (m, flip m.locked m.waking m.waiters (newest m.inbox))
act i c m (flip l k w t) =
    if t == 0
    then (m, unlinking)
    else if wins c m l k w t
    then (enqueue m, unlinking)
    else (m, flip m.locked m.waking m.waiters (newest m.inbox))
act i c m unlinking =
    on_cancel i (record m { queue = erase i m.queue; exclusive = false }) (m.waker i)
act i go m critical = (m, unlocking)
act i _ m critical = (m, critical)
act i c m unlocking = (m, releasing m.locked m.waking m.waiters (newest m.inbox))
act i c m (releasing l k w t) =
    if k || (w == 0)
    then (if wins c m l k w t
        then (record m { locked = false }, idle)
        else (m, releasing m.locked m.waking m.waiters (newest m.inbox)))
    else (m, locking l k w t)
act i c m (locking l k w t) =
    if m.exclusive
    then (m, locking l k w t)
    else (record m { guards = m.guards + 1 }, borrow l k w t)
act i c m (borrow l k w t) =
    if m.borrowed
    then (panic m, borrow l k w t)
    else (record m { borrowed = true }, handing (not (length m.queue == 0)) l k w t)
act i c m (handing b l k w t) = unlock_round c m b l k w t
act i c m (popped w) = (record m { borrowed = false }, waking w)
act i c m (waking w) = wake m w (m.waker w)
act i c m leaving = (record m { guards = m.guards - 1 }, idle)

-- `n - 1` tasks, numbered from 1, over one mutex.
pub record System : Type 0 where
  pub mem : Shared
  pub pc : ℕ → Pc

pub step : ℕ → Choice → System → System
unfolding act
step i c s = let (m, p) = act i c s.mem (s.pc i) in record { mem = m; pc = update s.pc i p }

-- `Mutex::new`
abbrev pub init : System
init = record {
  mem = record {
    locked = false;
    waking = false;
    waiters = 0;
    inbox = [];
    queue = [];
    waker = λ _. none;
    guards = 0;
    exclusive = false;
    borrowed = false;
    panicked = false;
    aborted = false;
  };
  pc = λ _. idle;
}
