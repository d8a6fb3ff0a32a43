-- ===== src/Mpsc.antt =====
-- mpsc.rs: the state of the channel, its two packings, and `send` and `recv` as the steps of one task
-- between two accesses to shared memory. The futex of the senders is abstract, as in FairMutex: the
-- inbox is the stack of waiters that have been pushed, the newest first. Work on the queue belongs to
-- the step of the atomic access before it, since only the owner of the guard sees it. A message is a
-- number, and task `i` sends the message `payload i` with each call.
mod Memory
pub mod Packing
pub mod Bounds
pub mod Waiting
pub mod Letters
pub mod Ring
pub mod Slots
pub mod Claims
pub mod Turns
pub mod Calm
pub mod Window
pub mod History
pub mod Order
pub mod Placing
pub mod Reading
pub mod Delivery
pub mod Safety
mod Tests
pub use async_mutex.Tasks.{
  Waker, none, waiting, done, Choice, go, spurious, cancel, is_spurious, newest, erase,
}
use async_mutex.Common.{
  ℕ, ◌+◌, ◌-◌, ◌%◌, ◌^◌, Bool, true, false, not, ◌&&◌, ◌||◌, List, [], ◌∷◌, Option, some, ltb, ◌==◌,
  if◌then◌else◌, update,
}
pub use Memory.*

-- Where a sender stands, with its snapshot of the futex (the atom and the newest waiter).
pub data Pc : Type 0 where
  idle : Pc
  trying : (write_head size newest : ℕ) → Pc  -- the loop of `send`
  writing : (selected : ℕ) → Pc  -- before the write to the bucket
  filling : (selected : ℕ) → Pc  -- before `filled.store(true)`
  notifying : Pc  -- before `recv_state.swap`
  asleep : Pc  -- the wait is pending
  sent : Pc  -- `Ok(())` is returned
  dropping : Pc  -- `WaitFuture::drop`, before the write lock
  flip_load : Pc  -- `RawFutex::flip`
  flip : (write_head size newest : ℕ) → Pc
  unlinking : Pc  -- `RawFutex::cancel`, and the rest of `WaitFuture::drop`

-- Where the receiver stands, with the result of the read and the waiter that it popped.
pub data Rc : Type 0 where
  starting : Rc  -- the start of a poll of `recv`
  registering : Rc  -- before the first `swap`
  checking : Rc  -- before the second `load`
  clearing : Rc  -- before the second `swap`
  taking : Rc  -- the bucket is filled
  locking : (head result : ℕ) → Rc  -- before `self.send_queue.lock()`
  borrow : (head result : ℕ) → Rc  -- before `waiters.lock()`
  popping : (head result : ℕ) → Rc  -- before the first `queue.pop(0)`
  load_popped : (head result waiter : ℕ) → Rc  -- before `load`, with a waiter
  passing : (head result waiter write_head size newest : ℕ) → Rc  -- the first loop
  load_empty : (head result : ℕ) → Rc  -- before `load`, without one
  taking_over : (head result write_head size newest : ℕ) → Rc  -- the second loop
  backfilling : (head result waiter : ℕ) → Rc  -- before the write to the bucket
  waking : (result waiter : ℕ) → Rc  -- before `waiter.wake()`
  releasing : (result : ℕ) → Rc  -- before the guards are dropped
  received : (result : ℕ) → Rc  -- `Poll::Ready(result)`

-- `WaitFuture::poll_enter` of task `i` in `send`: the atom stays as it is.
pub poll_enter : ℕ → Choice → Shared → (write_head size newest : ℕ) → Waker → Shared × Pc
poll_enter i c m h s t done = (panic m, trying h s t)
poll_enter i c m h s t _ =
    if wins c m h s t
    then (record m { inbox = i ∷ m.inbox; waker = update m.waker i waiting }, asleep)
    else (put_waker m i waiting, trying m.write_head m.size (newest m.inbox))

-- One round of the loop of `send`, on a channel of capacity `cap`.
pub send_round : (cap : ℕ) → ℕ → Choice → Shared → (write_head size newest : ℕ) → Shared × Pc
unfolding poll_enter
send_round cap i c m h s t =
    if ltb s cap
    then (if wins c m h s t
        then (record m { write_head = (h + 1) % cap; size = s + 1 }, writing h)
        else (m, trying m.write_head m.size (newest m.inbox)))
    else poll_enter i c m h s t (m.waker i)

-- `WaitFuture::poll_waiting`
pub poll_waiting : ℕ → Shared → Waker → Shared × Pc
poll_waiting i m none = (panic m, asleep)
poll_waiting i m waiting = (m, asleep)
poll_waiting i m done = (put_waker m i none, sent)

-- The callbacks of `WaitFuture::drop`.
pub on_cancel : ℕ → Shared → Waker → Option ℕ → Shared × Pc
on_cancel i m none _ = (panic m, idle)
on_cancel i m waiting _ =
    (record (put_waker m i none) { message = update m.message i Option.none }, idle)
on_cancel i m done (some x) = (panic m, idle)
on_cancel i m done Option.none = (put_waker m i none, idle)

-- `Message::take`, and the write to the bucket.
pub put_message : Shared → ℕ → ℕ → Option ℕ → Option Shared
put_message m i at Option.none = Option.none
put_message m i at (some x) =
    some (record m { message = update m.message i Option.none; contents = update m.contents at x })

-- The write of a sender.
pub write_bucket : Shared → ℕ → Option Shared → Shared × Pc
write_bucket m at Option.none = (panic m, writing at)
write_bucket m at (some m') = (m', filling at)

-- One step of sender `i`.
pub act : (cap : ℕ) (payload : ℕ → ℕ) → ℕ → Choice → Shared → Pc → Shared × Pc
unfolding send_round poll_waiting on_cancel put_message write_bucket
act cap payload i go m idle = (
  record (put_waker m i none) { message = update m.message i (some (payload i)) },
  trying m.write_head m.size (newest m.inbox),
)
act cap payload i _ m idle = (m, idle)
act cap payload i c m (trying h s t) = send_round cap i c m h s t
act cap payload i c m (writing at) = write_bucket m at (put_message m i at (m.message i))
act cap payload i c m (filling at) = (record m { filled = update m.filled at true }, notifying)
act cap payload i c m notifying =
    (record m { recv_waiting = false; notified = m.notified || m.recv_waiting }, sent)
act cap payload i go m asleep = poll_waiting i m (m.waker i)
act cap payload i spurious m asleep = (m, asleep)
act cap payload i cancel m asleep = (m, dropping)
act cap payload i c m sent = (m, idle)
act cap payload i c m dropping =
    if m.locked || not (m.guards == 0)
    then (m, dropping)
    else (record m { locked = true }, flip_load)
act cap payload i c m flip_load = (m, flip m.write_head m.size (newest m.inbox))
act cap payload i c m (flip h s t) =
    if t == 0
    then (m, unlinking)
    else if wins c m h s t
    then (enqueue m, unlinking)
    else (m, flip m.write_head m.size (newest m.inbox))
act cap payload i c m unlinking =
    on_cancel i (record m { queue = erase i m.queue; locked = false }) (m.waker i) (m.message i)

-- `queue.pop(0)`, with the two ways on.
pub pop : Shared → (otherwise : Rc) → List ℕ → (ℕ → Rc) → Shared × Rc
pop m otherwise [] found = (m, otherwise)
pop m otherwise (w ∷ ws) found = (record m { queue = ws }, found w)

-- One round of the first loop of `recv` after a pop.
pub pass_round :
    (cap : ℕ) → Choice → Shared → (head result waiter write_head size newest : ℕ) → Shared × Rc
pass_round cap c m head r v h s t =
    if not (s == cap)
    then (panic m, passing head r v h s t)
    else if wins c m h s t
    then (record m { write_head = (h + 1) % cap; size = s }, backfilling head r v)
    else (m, passing head r v m.write_head m.size (newest m.inbox))

-- One round of the second loop.
pub take_round :
    (cap : ℕ) → Choice → Shared → (head result write_head size newest : ℕ) → Shared × Rc
unfolding pop
take_round cap c m head r h s t =
    if not (t == 0) && not (s == cap)
    then (panic m, taking_over head r h s t)
    else if (t == 0) && (s == 0)
    then (panic m, taking_over head r h s t)
    else if not (wins c m h s t)
    then (m, taking_over head r m.write_head m.size (newest m.inbox))
    else if t == 0
    then (let e = record (enqueue m) { size = s - 1 } in
        pop e (releasing r) e.queue (backfilling head r))
    else (let e = record (enqueue m) { write_head = (h + 1) % cap } in
        pop e (releasing r) e.queue (backfilling head r))

-- The write of the receiver to the bucket that it emptied, for a waiter.
pub backfill : Shared → (head result waiter : ℕ) → Option Shared → Shared × Rc
backfill m head r v Option.none = (panic m, backfilling head r v)
backfill m head r v (some m') = (record m' { filled = update m'.filled head true }, waking r v)

-- `Waiter::wake`
pub wake : Shared → (result waiter : ℕ) → Waker → Shared × Rc
wake m r v waiting = (put_waker m v done, releasing r)
wake m r v _ = (panic m, waking r v)

-- One step of the receiver.
pub recv_act : (cap : ℕ) → Choice → Shared → Rc → Shared × Rc
unfolding pop pass_round take_round backfill put_message wake
recv_act cap go m starting =
    (record m { notified = false }, if m.filled m.recv_head then taking else registering)
recv_act cap _ m starting = (m, starting)
recv_act cap c m registering = (record m { recv_waiting = true }, checking)
recv_act cap c m checking = (m, if m.filled m.recv_head then clearing else starting)
recv_act cap c m clearing = (record m { recv_waiting = false }, taking)
recv_act cap c m taking = (
  record m { filled = update m.filled m.recv_head false; recv_head = (m.recv_head + 1) % cap },
  locking m.recv_head (m.contents m.recv_head),
)
recv_act cap c m (locking head r) =
    if m.locked then (m, locking head r) else (record m { guards = m.guards + 1 }, borrow head r)
recv_act cap c m (borrow head r) =
    if m.borrowed then (panic m, borrow head r) else (record m { borrowed = true }, popping head r)
recv_act cap c m (popping head r) = pop m (load_empty head r) m.queue (load_popped head r)
recv_act cap c m (load_popped head r v) = (m, passing head r v m.write_head m.size (newest m.inbox))
recv_act cap c m (passing head r v h s t) = pass_round cap c m head r v h s t
recv_act cap c m (load_empty head r) = (m, taking_over head r m.write_head m.size (newest m.inbox))
recv_act cap c m (taking_over head r h s t) = take_round cap c m head r h s t
recv_act cap c m (backfilling head r v) = backfill m head r v (put_message m v head (m.message v))
recv_act cap c m (waking r v) = wake m r v (m.waker v)
recv_act cap c m (releasing r) = (record m { borrowed = false; guards = m.guards - 1 }, received r)
recv_act cap c m (received r) = (m, starting)

-- `n - 1` senders, numbered from 1, and the receiver.
pub record System : Type 0 where
  pub mem : Shared
  pub pc : ℕ → Pc
  pub rc : Rc

pub step : (cap : ℕ) (payload : ℕ → ℕ) → ℕ → Choice → System → System
unfolding act
step cap payload i c s =
    let (m, p) = act cap payload i c s.mem (s.pc i) in record s { mem = m; pc = update s.pc i p }

pub recv_step : (cap : ℕ) → Choice → System → System
unfolding recv_act
recv_step cap c s = let (m, p) = recv_act cap c s.mem s.rc in record s { mem = m; rc = p }

-- A channel without messages.
abbrev pub fresh : System
fresh = record {
  mem = record {
    write_head = 0;
    size = 0;
    inbox = [];
    queue = [];
    waker = λ _. none;
    message = λ _. Option.none;
    filled = λ _. false;
    contents = λ _. 0;
    recv_waiting = false;
    recv_head = 0;
    notified = false;
    guards = 0;
    locked = false;
    borrowed = false;
    panicked = false;
  };
  pc = λ _. idle;
  rc = starting;
}

-- `Inner::new` with its two assertions, and `channel`.
pub new : (cap : ℕ) → Option System
new cap =
    if not (ltb 0 cap)
    then Option.none
    else if ltb (2 ^ 32 - 1) cap
    then Option.none
    else some fresh
