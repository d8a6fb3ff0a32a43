-- ===== src/Condvar.antt =====
-- condvar.rs: `Condvar::wait` and `Condvar::notify` over the futex of the condition variable and one
-- mutex of fair_mutex.rs, whose tasks step as in FairMutex. Only the task that has the mutex works on
-- the condition variable. The waiter of a call of `wait` has a number of its own, at which the task goes
-- on once the mutex is passed to it. The cancellation of a `wait` before it is notified is left out. A
-- `wait` may be dropped after it was moved to the mutex: if it was woken, `mutex.unlock()` follows, and
-- if not, `todo!()`, which `aborted` records.
pub mod Invariant
pub mod Transfer
pub mod Steps
pub mod Calls
pub mod Requeue
pub mod Safety
mod Tests
use async_mutex.Common.{
  ℕ, zero, suc, ◌+◌, ◌-◌, ◌<◌, ◌≢◌, Bool, true, false, not, ◌&&◌, ◌||◌, List, [], ◌∷◌, ◌++◌,
  reverse, ◌==◌, if◌then◌else◌, ltb, update, take, drop,
}
use async_mutex.Tasks.{Choice, go, is_spurious, newest, Waker, none, waiting, done}
use async_mutex.FairMutex
use async_mutex.FairMutex.Lock.{tries, pushes}

-- The futex of the condition variable.
pub record Shared : Type 0 where
  pub atom : ℕ  -- 0, or the mutex
  pub inbox : List ℕ
  pub queue : List ℕ
  pub borrowed : Bool  -- `AtomicRefCell::state`
  pub guards : ℕ  -- read guards of the futex of the mutex that `notify` has
  pub panicked : Bool
  pub aborted : Bool  -- a dropped `wait` has come to `todo!()`

-- The mutex, by its address.
abbrev pub mutex_ptr : ℕ
mutex_ptr = 1

-- What a number is to the condition variable.
pub data Seat : Type 0 where
  unused : Seat  -- no waiter: the task of this number steps as in FairMutex
  moved : Seat  -- the waiter of a pending `wait`, after it is requeued to the mutex
  entering : Seat  -- the waiter of a call of `wait`, before it is pushed
  parked : Seat  -- the waiter of a pending `wait`, before it is requeued

-- Where a task stands in a call of the condition variable.
pub data Pc : Type 0 where
  outside : Pc  -- in no call
  loading : (waiter : ℕ) → Pc  -- `wait`, before its load
  entering_round : (waiter atom newest : ℕ) → Pc  -- the loop of `wait`
  checking : (count : ℕ) → Pc  -- `notify`, before its load
  locking : (count atom newest : ℕ) → Pc  -- before `waiters.lock()`
  enqueueing : (count atom newest : ℕ) → Pc  -- its loop
  popping : (count : ℕ) → Pc  -- before `pop_many`
  releasing : (list : List ℕ) → Pc  -- before `mem::drop(queue)`
  relocking : (list : List ℕ) → Pc  -- before `guard.mutex.futex.lock()`
  linking : (list : List ℕ) → Pc  -- the start of `requeue`
  requeueing : (list : List ℕ) (atom newest : ℕ) → Pc  -- its loop
  unlocking : Pc  -- before the guard `mutex_waiters` is dropped

pub record System : Type 0 where
  pub mutex : FairMutex.System
  pub mem : Shared
  pub seat : ℕ → Seat
  pub pc : ℕ → Pc

-- What happens next: the task calls `wait` with a waiter, or `notify`, or goes on.
pub data Event : Type 0 where
  wait : (waiter : ℕ) → Event
  notify : (count : ℕ) → Event
  run : (choice : Choice) → Event

abbrev pub panic : System → System
panic s = record s { mem = record s.mem { panicked = true } }

abbrev pub goto : System → ℕ → Pc → System
goto s i p = record s { pc = update s.pc i p }

abbrev pub is_critical : FairMutex.Pc → Bool
is_critical FairMutex.critical = true
is_critical _ = false

abbrev pub is_idle : FairMutex.Pc → Bool
is_idle FairMutex.idle = true
is_idle _ = false

abbrev pub is_dropping : FairMutex.Pc → Bool
is_dropping FairMutex.dropping = true
is_dropping _ = false

abbrev pub is_outside : Pc → Bool
is_outside outside = true
is_outside _ = false

-- `RawFutex::cmpxchg_weak` of the futex of the condition variable.
abbrev pub wins : Choice → Shared → ℕ → ℕ → Bool
wins c m a t = not (is_spurious c) && ((m.atom == a) && (newest m.inbox == t))

-- The waker of a fresh waiter is set by the first round; from then on the waiter counts as that of a
-- call of `lock` which has not pushed it.
abbrev pub prepare : FairMutex.System → ℕ → FairMutex.Pc → FairMutex.System
prepare m w FairMutex.idle = tries m w
prepare m w _ = m

-- `mutex.unlock()`, up to its first access.
abbrev pub start_unlock : FairMutex.System → ℕ → FairMutex.System
start_unlock m i = record m { pc = update m.pc i FairMutex.unlocking }

-- A round of the loop of `wait`, with its exchange and `on_pending`.
pub wait_round : Choice → System → (i w a t : ℕ) → System
wait_round c s i w a t =
    if not ((a == 0) || (a == mutex_ptr))
    then panic s
    else if wins c s.mem a t
    then record {
      mutex = start_unlock (prepare s.mutex w (s.mutex.pc w)) i;
      mem = record s.mem { atom = mutex_ptr; inbox = w ∷ s.mem.inbox };
      seat = update s.seat w parked;
      pc = update s.pc i outside;
    }
    else record {
      mutex = prepare s.mutex w (s.mutex.pc w);
      mem = s.mem;
      seat = s.seat;
      pc = update s.pc i (entering_round w s.mem.atom (newest s.mem.inbox));
    }

-- The waiters of a list are linked before the inbox of the mutex, one after the other.
abbrev pub push_all : List ℕ → FairMutex.System → FairMutex.System
push_all [] m = m
push_all (w ∷ ws) m = push_all ws (pushes m w)

abbrev pub leave_all : List ℕ → (ℕ → Seat) → ℕ → Seat
leave_all [] seat = seat
leave_all (w ∷ ws) seat = leave_all ws (update seat w moved)

-- A round of the loop of `requeue`.
pub requeue_round : Choice → System → (i : ℕ) (list : List ℕ) (a t : ℕ) → System
requeue_round c s i list a t =
    if FairMutex.wins c s.mutex.mem a t
    then record {
      mutex = push_all list s.mutex;
      mem = s.mem;
      seat = leave_all list s.seat;
      pc = update s.pc i unlocking;
    }
    else goto s i (requeueing list s.mutex.mem.atom (newest s.mutex.mem.inbox))

abbrev pub is_unused : Seat → Bool
is_unused unused = true
is_unused _ = false

abbrev pub is_moved : Seat → Bool
is_moved moved = true
is_moved _ = false

-- Until it is requeued, a waiter has no part in the mutex.
abbrev pub stays : Seat → Bool
stays entering = true
stays parked = true
stays _ = false

-- The wait of the task is pending, or is being dropped.
abbrev pub is_waiting : FairMutex.Pc → Bool
is_waiting FairMutex.asleep = true
is_waiting FairMutex.dropping = true
is_waiting FairMutex.flip_load = true
is_waiting (FairMutex.flip a t) = true
is_waiting FairMutex.unlinking = true
is_waiting FairMutex.dropped = true
is_waiting _ = false

-- `on_cancel_sleeping` comes next.
abbrev pub drops_sleeping : FairMutex.Pc → Waker → Bool
drops_sleeping FairMutex.dropped waiting = true
drops_sleeping _ _ = false

-- A requeued waiter is given up once its wait is over.
abbrev pub settled : Seat → FairMutex.Pc → Seat
settled moved p = if is_waiting p then moved else unused
settled k p = k

-- A step of the mutex; the write lock of a cancellation waits for the guards of `notify`. A requeued
-- wait that is dropped differs from a dropped `lock` in `on_cancel_sleeping`, which is `todo!()`: the
-- task goes no further.
pub mutex_step : Choice → System → ℕ → System
mutex_step c s i =
    if stays (s.seat i) || (is_dropping (s.mutex.pc i) && not (s.mem.guards == 0))
    then s
    else if is_moved (s.seat i) && drops_sleeping (s.mutex.pc i) (s.mutex.mem.waker i)
    then record s { mem = record s.mem { aborted = true } }
    else record s {
      mutex = FairMutex.step i c s.mutex;
      seat = update s.seat i (settled (s.seat i) ((FairMutex.step i c s.mutex).pc i));
    }

-- One step of task `i`.
pub act : ℕ → Choice → System → Pc → System
unfolding wait_round requeue_round mutex_step
act i c s outside = mutex_step c s i
act i c s (loading w) = goto s i (entering_round w s.mem.atom (newest s.mem.inbox))
act i c s (entering_round w a t) = wait_round c s i w a t
act i c s (checking k) =
    if s.mem.atom == 0
    then goto s i outside
    else if not (s.mem.atom == mutex_ptr)
    then panic s
    else goto s i (locking k s.mem.atom (newest s.mem.inbox))
act i c s (locking k a t) =
    if s.mem.borrowed
    then panic s
    else record s { mem = record s.mem { borrowed = true }; pc = update s.pc i (enqueueing k a t) }
act i c s (enqueueing k a t) =
    if wins c s.mem a t
    then record s {
      mem = record s.mem {
        atom = mutex_ptr;
        inbox = [];
        queue = s.mem.queue ++ reverse s.mem.inbox;
      };
      pc = update s.pc i (popping k);
    }
    else goto s i (enqueueing k s.mem.atom (newest s.mem.inbox))
act i c s (popping k) = record s {
  mem = record s.mem { queue = drop k s.mem.queue };
  pc = update s.pc i (releasing (take k s.mem.queue));
}
act i c s (releasing list) = record s {
  mem = record s.mem { borrowed = false };
  pc = update s.pc i (relocking list);
}
act i c s (relocking list) = if s.mutex.mem.writer then s else record s {
  mem = record s.mem { guards = s.mem.guards + 1 };
  pc = update s.pc i (linking list);
}
act i c s (linking []) = goto s i unlocking
act i c s (linking (w ∷ ws)) =
    goto s i (requeueing (w ∷ ws) s.mutex.mem.atom (newest s.mutex.mem.inbox))
act i c s (requeueing list a t) = requeue_round c s i list a t
act i c s unlocking = record s {
  mem = record s.mem { guards = s.mem.guards - 1 };
  pc = update s.pc i outside;
}

-- The task has the guard and is in no call, as `wait` and `notify` ask.
abbrev pub may_call : System → ℕ → Bool
may_call s i = is_outside (s.pc i) && is_critical (s.mutex.pc i)

pub step : ℕ → Event → System → System
unfolding act
step i (wait w) s =
    if may_call s i && (is_unused (s.seat w) && is_idle (s.mutex.pc w))
    then record s { seat = update s.seat w entering; pc = update s.pc i (loading w) }
    else s
step i (notify k) s = if may_call s i then goto s i (checking k) else s
step i (run c) s = act i c s (s.pc i)

-- `Condvar::new`, and a new mutex.
abbrev pub new_condvar : System
new_condvar = record {
  mutex = FairMutex.init;
  mem = record {
    atom = 0;
    inbox = [];
    queue = [];
    borrowed = false;
    guards = 0;
    panicked = false;
    aborted = false;
  };
  seat = λ _. unused;
  pc = λ _. outside;
}

-- The waiter of a call is a number of its own.
abbrev pub IsProper : ℕ → Event → Type 0
IsProper n (wait w) = (w ≢ 0) × (w < n)
IsProper n _ = Unit

-- The states that the tasks 1 to `n - 1` reach.
pub data Reach (n : ℕ) : System → Type 0 where
  start : Reach n new_condvar
  later :
      {s : System} (i : ℕ) (e : Event)
      → i ≢ 0
      → i < n
      → IsProper n e
      → Reach n s
      → Reach n (step i e s)
