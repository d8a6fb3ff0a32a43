-- ===== src/SpinLock.antt =====
-- spin_lock.rs and `yield_now` of util.rs: tasks that compete for one flag, a step of one task at a
-- time. The protected value is not modelled.
pub mod Safety
mod Tests
pub use async_mutex.Tasks.{Choice, go, spurious, cancel, is_spurious}
use async_mutex.Common.{ℕ, zero, suc, Bool, true, false, not, ◌&&◌, if◌then◌else◌, update}

-- Where a task stands.
pub data Pc : Type 0 where
  idle : Pc
  trying : Pc  -- the loop of `lock`, before the exchange
  yielding : (polled : Bool) → Pc  -- in `yield_now().await`, with the flag of `YieldNow`
  holding : Pc  -- a `MutexGuard` exists

pub record Shared : Type 0 where
  pub state : Bool
  pub wakes : ℕ → ℕ  -- calls of `wake_by_ref` for each task

-- `YieldNow::poll` of task `i`.
pub poll_yield : ℕ → Shared → Bool → Shared × Pc
poll_yield i m true = (m, trying)
poll_yield i m false = (record m { wakes = update m.wakes i (suc (m.wakes i)) }, yielding true)

-- One step of task `i`: of `lock`, or the drop of its future or of its guard.
pub act : ℕ → Choice → Shared → Pc → Shared × Pc
unfolding poll_yield
act i c m idle = (m, trying)
act i cancel m trying = (m, idle)
act i c m trying =
    if not (is_spurious c) && not m.state
    then (record m { state = true }, holding)
    else (m, yielding false)
act i cancel m (yielding polled) = (m, idle)
act i c m (yielding polled) = poll_yield i m polled
act i c m holding = (record m { state = false }, idle)

pub record System : Type 0 where
  pub mem : Shared
  pub pc : ℕ → Pc

pub step : ℕ → Choice → System → System
unfolding act
step i c s = let (m, p) = act i c s.mem (s.pc i) in record { mem = m; pc = update s.pc i p }

-- `Mutex::new`
abbrev pub init : System
init = record { mem = record { state = false; wakes = λ _. 0 }; pc = λ _. idle }

-- Task `i` runs alone.
pub solo : ℕ → ℕ → System → System
solo zero i s = s
solo (suc k) i s = solo k i (step i go s)
