-- ===== src/WaitFuture.antt =====
-- futex/wait_future.rs and the `waker` field of futex/waiter.rs: the life of one waiter, from
-- `Waiter::new` over any number of `WaitFuture`s to `Waiter::drop`, with every waker that is cloned,
-- woken or dropped. The links and the queues of the futex are in the modules Waiter and Futex.
pub mod Packing
pub mod Accounts
mod Tests
use async_mutex.Common.{
  ℕ, ◌+◌, ◌*◌, ◌/◌, ◌%◌, ◌^◌, Bool, true, false, not, ◌&&◌, ◌==◌, if◌then◌else◌, update,
}

-- `enum WaiterWaker`. A waker is the number of its two words, `CopyWaker` of
-- atomic/atomic_impl.rs, the pointer to its table being the high one.
pub data WaiterWaker : Type 0 where
  none : WaiterWaker
  waiting : (waker : ℕ) → WaiterWaker
  done : WaiterWaker

-- `WaitFutureStep`, with the points of a future's life that it does not tell apart.
pub data Phase : Type 0 where
  enter : Phase  -- WaitFutureStep::Enter
  waiting : Phase  -- WaitFutureStep::Waiting, between two polls
  polling : (new_waker : ℕ) (seen : WaiterWaker) → Phase  -- in the loop of `poll_waiting`
  ready : Phase  -- WaitFutureStep::Done, after `Poll::Ready(true)`
  lost : Phase  -- after `Poll::Ready(false)`
  dropped : Phase  -- the future was dropped
  gone : Phase  -- the waiter was dropped

pub record State : Type 0 where
  pub phase : Phase
  pub slot : WaiterWaker  -- `Waiter::waker`
  pub cloned : ℕ → ℕ  -- clones made of each waker
  pub released : ℕ → ℕ  -- clones dropped, or used up by `Waker::wake`
  pub signals : ℕ → ℕ  -- calls of `Waker::wake`
  pub wakes : ℕ  -- calls of `Waiter::wake`
  pub panicked : Bool

abbrev pub bump : (ℕ → ℕ) → ℕ → ℕ → ℕ
bump f k = update f k (f k + 1)

abbrev pub clone_waker : ℕ → State → State
clone_waker k s = record s { cloned = bump s.cloned k }

abbrev pub drop_waker : ℕ → State → State
drop_waker k s = record s { released = bump s.released k }

abbrev pub panic : State → State
panic s = record s { panicked = true }

-- The derived `==` of `WaiterWaker`.
abbrev pub same : WaiterWaker → WaiterWaker → Bool
same none none = true
same (waiting a) (waiting b) = a == b
same done done = true
same _ _ = false

-- `Waiter::new`, with a first future.
abbrev pub new : State
new = record {
  phase = enter;
  slot = none;
  cloned = λ _. 0;
  released = λ _. 0;
  signals = λ _. 0;
  wakes = 0;
  panicked = false;
}

-- `WaitFuture::poll_enter` with the waker `k` of the context; `wins` says whether the exchange on the
-- futex succeeds. The third argument is what `load_mut` finds.
pub poll_enter : ℕ → Bool → WaiterWaker → State → State
poll_enter k wins done s = panic s
poll_enter k wins none s = record (clone_waker k s) {
  slot = waiting k;
  phase = if wins then waiting else lost;
}
poll_enter k wins (waiting old) s = record s { phase = if wins then waiting else lost }

-- `WaitFuture::poll_waiting` up to its loop.
pub poll_waiting : ℕ → State → State
poll_waiting k s = record (clone_waker k s) { phase = polling k s.slot }

-- One round of the loop of `poll_waiting`.
pub poll_round : Bool → ℕ → WaiterWaker → State → State
poll_round spurious new_waker none s = panic s
poll_round spurious new_waker (waiting old) s =
    if not spurious && same s.slot (waiting old)
    then record (drop_waker old s) { slot = waiting new_waker; phase = waiting }
    else record s { phase = polling new_waker s.slot }
poll_round spurious new_waker done s = record (drop_waker new_waker s) { phase = ready }

-- `Waiter::wake`; the second argument is what `swap` returns.
pub wake : WaiterWaker → State → State
wake (waiting w) s = record (drop_waker w s) {
  slot = done;
  signals = bump s.signals w;
  wakes = s.wakes + 1;
}
wake _ s = record (panic s) { slot = done; wakes = s.wakes + 1 }

-- `WaitFuture::drop` of a waiting future, after its waiter was taken off the futex. The callbacks
-- belong to the client, and `returns` says whether the one that is called returns. If it panics, the
-- slot keeps what it held.
pub drop_waiting : Bool → WaiterWaker → State → State
drop_waiting returns none s = record (panic s) { phase = dropped }
drop_waiting returns (waiting w) s =
    if returns
    then record (drop_waker w s) { slot = none; phase = dropped }
    else record (panic (drop_waker w s)) { phase = dropped }
drop_waiting returns done s =
    if returns
    then record s { slot = none; phase = dropped }
    else record (panic s) { phase = dropped }

-- `Waiter::drop`
pub drop_waiter : WaiterWaker → State → State
drop_waiter (waiting w) s = record (drop_waker w s) { phase = gone }
drop_waiter _ s = record s { phase = gone }

pub data Event : Type 0 where
  poll : (waker : ℕ) (wins : Bool) → Event
  round : (spurious : Bool) → Event
  wake_waiter : Event
  drop_future : (returns : Bool) → Event
  retry : Event  -- a new future for the same waiter
  drop_slot : Event

-- What an event does in a phase. `Poll::Ready(false)` leaves the step `Enter`, so such a future may be
-- polled again. `Waiter::wake` may be called on any waiter that exists. What no caller can do does
-- nothing: a future that was dropped is not polled or dropped again, and so on. `on_pending` comes last
-- in `poll_enter`, and changes nothing here even if it panics.
pub act : Event → Phase → State → State
unfolding poll_enter poll_waiting poll_round wake drop_waiting drop_waiter
act (poll k wins) enter s = poll_enter k wins s.slot s
act (poll k wins) lost s = poll_enter k wins s.slot s
act (poll k wins) waiting s = poll_waiting k s
act (poll k wins) ready s = panic s
act (round spurious) (polling k seen) s = poll_round spurious k seen s
act wake_waiter gone s = s
act wake_waiter p s = wake s.slot s
act (drop_future returns) enter s = record s { phase = dropped }
act (drop_future returns) lost s = record s { phase = dropped }
act (drop_future returns) waiting s = drop_waiting returns s.slot s
act (drop_future returns) ready s = record s { phase = dropped }
act retry lost s = record s { phase = enter }
act retry dropped s = record s { phase = enter }
act drop_slot lost s = drop_waiter s.slot s
act drop_slot dropped s = drop_waiter s.slot s
act _ _ s = s

pub step : Event → State → State
unfolding act
step e s = act e s.phase s
