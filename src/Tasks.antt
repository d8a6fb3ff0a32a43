-- ===== src/Tasks.antt =====
-- What the step systems of the locks share: the choices that a schedule leaves open, the state of a
-- waiter's waker without its identity (`WaiterWaker` of futex/state.rs), and sequences of waiters, in
-- which the waiter of task `i` has the address `i`; no task has the number 0, since 0 is null.
pub mod Counts
use async_mutex.Common.{ℕ, Bool, true, false, List, [], ◌∷◌, ◌==◌, if◌then◌else◌}

-- `WaiterWaker`, without the identity of the waker.
pub data Waker : Type 0 where
  none waiting done : Waker

-- What is left open: a weak exchange fails for no reason, a pending future is dropped.
pub data Choice : Type 0 where
  go spurious cancel : Choice

abbrev pub is_spurious : Choice → Bool
is_spurious spurious = true
is_spurious _ = false

-- The pointer `inbox` of an inbox, as a stack with the newest waiter first.
abbrev pub newest : List ℕ → ℕ
newest [] = 0
newest (w ∷ ws) = w

-- `WaiterList::remove`, by its effect on the sequence.
abbrev pub erase : ℕ → List ℕ → List ℕ
erase i [] = []
erase i (w ∷ ws) = if w == i then ws else w ∷ erase i ws
