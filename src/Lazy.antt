-- ===== src/Lazy.antt =====
-- lazy.rs: `SyncOnceCell::get_or_init` and `finish`, as the steps of one task between two accesses to
-- shared memory, over a futex that is abstract as in FairMutex: the inbox is the stack of waiters that
-- have been pushed, the newest first, and the queue holds those that have been taken over.
-- `cancel` of an initialiser stands for its panic too.
pub mod Once
pub mod Seats
pub mod Moves
pub mod Places
pub mod Wakeups
mod Tests
pub use async_mutex.Tasks.{
  Waker, none, waiting, done, Choice, go, spurious, cancel, is_spurious, newest, erase,
}
use async_mutex.Common.{
  ℕ, zero, suc, ◌+◌, ◌-◌, Bool, true, false, not, ◌&&◌, ◌||◌, List, [], ◌∷◌, ◌++◌, reverse, ◌==◌,
  if◌then◌else◌, update,
}

-- `enum CellAtom`
pub data CellAtom : Type 0 where
  uninit active poison init : CellAtom

-- The derived `==` of `CellAtom`.
abbrev pub same : CellAtom → CellAtom → Bool
same uninit uninit = true
same active active = true
same poison poison = true
same init init = true
same _ _ = false

pub record Shared : Type 0 where
  pub atom : CellAtom
  pub inbox : List ℕ
  pub queue : List ℕ
  pub waker : ℕ → Waker
  pub readers : ℕ  -- guards of `Futex::lock`
  pub writer : Bool  -- the write lock that cancellation takes
  pub borrowed : Bool  -- `AtomicRefCell::state`
  pub writes : ℕ  -- how often `inner` was written
  pub panicked : Bool

-- Where a task stands, with its snapshot of the futex (the atom and the newest waiter).
pub data Pc : Type 0 where
  idle : Pc
  looping : (atom : CellAtom) (newest : ℕ) → Pc  -- the loop of `get_or_init`
  asleep : Pc  -- the wait is pending
  woken : Pc  -- before the load after the wait
  dropping : Pc  -- `WaitFuture::drop`, before the write lock
  flip_load : Pc  -- `RawFutex::flip`
  flip : (atom : CellAtom) (newest : ℕ) → Pc
  unlinking : Pc  -- `RawFutex::cancel`
  dropped : Pc  -- the end of `WaitFuture::drop`
  initialising : Pc  -- `init.await`
  locking : (new : CellAtom) → Pc  -- `finish`, before `self.futex.lock()`
  borrow : (new : CellAtom) → Pc  -- before `waiters.lock()`
  load_atom : (new : CellAtom) → Pc
  finishing : (new atom : CellAtom) (newest : ℕ) → Pc  -- the loop of `finish`
  pop_all : (new : CellAtom) → Pc  -- before `pop_many`
  waking : (new : CellAtom) (waiters : List ℕ) → Pc
  returned : Pc  -- with a reference to the value
  failed : Pc  -- "Panic occurred while initializing"

-- `RawFutex::cmpxchg_weak`: both words are compared.
abbrev pub wins : Choice → Shared → CellAtom → ℕ → Bool
wins c m a t = not (is_spurious c) && (same m.atom a && (newest m.inbox == t))

abbrev pub panic : Shared → Shared
panic m = record m { panicked = true }

-- `RawFutex::enqueue`
abbrev pub enqueue : Shared → Shared
enqueue m = record m { inbox = []; queue = m.queue ++ reverse m.inbox }

abbrev pub put_waker : Shared → ℕ → Waker → Shared
put_waker m i k = record m { waker = update m.waker i k }

-- `WaitFuture::poll_enter` of task `i`.
pub poll_enter : ℕ → Choice → Shared → ℕ → Waker → Shared × Pc
poll_enter i c m t done = (panic m, looping active t)
poll_enter i c m t _ =
    if wins c m active t
    then (record m { atom = active; inbox = i ∷ m.inbox; waker = update m.waker i waiting }, asleep)
    else (put_waker m i waiting, looping m.atom (newest m.inbox))

-- `WaitFuture::poll_waiting`
pub poll_waiting : Shared → Waker → Shared × Pc
poll_waiting m none = (panic m, asleep)
poll_waiting m waiting = (m, asleep)
poll_waiting m done = (m, woken)

-- The end of `WaitFuture::drop`; the callbacks do nothing.
pub drop_waiting : ℕ → Shared → Waker → Shared × Pc
drop_waiting i m none = (panic m, dropped)
drop_waiting i m _ = (put_waker m i none, idle)

-- `Waiter::wake`, of the first of `w ∷ ws`.
pub wake : Shared → CellAtom → ℕ → List ℕ → Waker → Shared × Pc
wake m new w ws waiting = (put_waker m w done, waking new ws)
wake m new w ws _ = (panic m, waking new (w ∷ ws))

-- The end of `finish`: the guards are dropped. The cell is returned, or its initialiser unwinds.
pub end_finish : Shared → CellAtom → Shared × Pc
end_finish m init = (record m { borrowed = false; readers = m.readers - 1 }, returned)
end_finish m _ = (record m { borrowed = false; readers = m.readers - 1 }, idle)

-- One step of task `i`.
pub act : ℕ → Choice → Shared → Pc → Shared × Pc
unfolding poll_enter poll_waiting drop_waiting wake end_finish
act i go m idle = (put_waker m i none, looping m.atom (newest m.inbox))
act i _ m idle = (m, idle)
act i c m (looping uninit t) =
    if wins c m uninit t
    then (record m { atom = active }, initialising)
    else (m, looping m.atom (newest m.inbox))
act i c m (looping active t) = poll_enter i c m t (m.waker i)
act i c m (looping poison t) = (m, failed)
act i c m (looping init t) = (m, returned)
act i go m asleep = poll_waiting m (m.waker i)
act i spurious m asleep = (m, asleep)
act i cancel m asleep = (m, dropping)
act i c m woken = (m, looping m.atom (newest m.inbox))
act i c m dropping =
    if m.writer || not (m.readers == 0)
    then (m, dropping)
    else (record m { writer = true }, flip_load)
act i c m flip_load = (m, flip m.atom (newest m.inbox))
act i c m (flip a t) =
    if t == 0
    then (m, unlinking)
    else if wins c m a t
    then (enqueue m, unlinking)
    else (m, flip m.atom (newest m.inbox))
act i c m unlinking = (record m { queue = erase i m.queue; writer = false }, dropped)
act i c m dropped = drop_waiting i m (m.waker i)
act i go m initialising = (record m { writes = m.writes + 1 }, locking init)
act i spurious m initialising = (m, initialising)
act i cancel m initialising = (m, locking poison)
act i c m (locking new) =
    if m.writer then (m, locking new) else (record m { readers = m.readers + 1 }, borrow new)
act i c m (borrow new) =
    if m.borrowed then (panic m, borrow new) else (record m { borrowed = true }, load_atom new)
act i c m (load_atom new) = (m, finishing new m.atom (newest m.inbox))
act i c m (finishing new a t) =
    if not (same a active)
    then (panic m, finishing new a t)
    else if wins c m a t
    then (record (enqueue m) { atom = new }, pop_all new)
    else (m, finishing new m.atom (newest m.inbox))
act i c m (pop_all new) = (record m { queue = [] }, waking new m.queue)
act i c m (waking new []) = end_finish m new
act i c m (waking new (w ∷ ws)) = wake m new w ws (m.waker w)
act i c m returned = (m, returned)
act i c m failed = (m, failed)

-- `n - 1` tasks, numbered from 1, over one cell.
pub record System : Type 0 where
  pub mem : Shared
  pub pc : ℕ → Pc

pub step : ℕ → Choice → System → System
unfolding act
step i c s = let (m, p) = act i c s.mem (s.pc i) in record { mem = m; pc = update s.pc i p }

-- `SyncOnceCell::new`
abbrev pub new_cell : System
new_cell = record {
  mem = record {
    atom = uninit;
    inbox = [];
    queue = [];
    waker = λ _. none;
    readers = 0;
    writer = false;
    borrowed = false;
    writes = 0;
    panicked = false;
  };
  pc = λ _. idle;
}

-- What `SyncOnceCell::get` does: it returns `None` or a reference to the value, or panics.
pub data Got : Type 0 where
  absent present poisoned : Got

pub get : Shared → Got
get m = get_of m.atom
  where
    get_of : CellAtom → Got
    get_of uninit = absent
    get_of active = absent
    get_of poison = poisoned
    get_of init = present
