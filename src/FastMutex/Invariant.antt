-- ===== src/FastMutex/Invariant.antt =====
-- The invariant of the mutex of fast_mutex.rs: who has it, who is on the way to it, and where each
-- waiter is.
use async_mutex.Common.{ℕ, ◌+◌, ◌≤◌, ◌≡◌, ◌≢◌, true, false, [], ◌==◌, if◌then◌else◌, tally, count}
use async_mutex.Atomic.{from_bool}
use async_mutex.FastMutex.{
  Waker, done, Shared, Pc, idle, trying, asleep, dropping, flip_load, flip, unlinking, critical,
  unlocking, releasing, locking, borrow, handing, popped, waking,
}

-- The task has the mutex: it has the guard, or is in `unlock` before its exchange.
abbrev pub holds : Pc → ℕ
holds critical = 1
holds unlocking = 1
holds (releasing _ _ _ _) = 1
holds (locking _ _ _ _) = 1
holds (borrow _ _ _ _) = 1
holds (handing _ _ _ _ _) = 1
holds _ = 0

-- The task was woken and tries for the mutex, or has popped a waiter and not yet woken it.
abbrev pub en_route : Pc → ℕ
en_route (trying true _ _ _ _) = 1
en_route (popped _) = 1
en_route (waking _) = 1
en_route _ = 0

-- The task is one of the atom's `waiters`.
abbrev pub counted : Pc → ℕ
counted (asleep _ _ _ _) = 1
counted (trying true _ _ _ _) = 1
counted _ = 0

-- The task has the queue guard.
abbrev pub borrowing : Pc → ℕ
borrowing (handing _ _ _ _ _) = 1
borrowing (popped _) = 1
borrowing _ = 0

-- The task has popped waiter `j` and not yet woken it.
abbrev pub aims : ℕ → Pc → ℕ
aims j (popped w) = if w == j then 1 else 0
aims j (waking w) = if w == j then 1 else 0
aims j _ = 0

abbrev pub is_done : Waker → ℕ
is_done done = 1
is_done _ = 0

-- The task's waiter has been pushed, and the task has not taken notice of its removal.
abbrev pub pushed : Pc → ℕ
pushed (asleep _ _ _ _) = 1
pushed _ = 0

-- What the place of a task, and its snapshot, say about shared memory.
abbrev pub Local : ℕ → ℕ → Shared → Pc → Type 0
Local n i m (asleep l k w t) = (m.waker i ≢ Waker.none) × (l ≡ true) × (w ≤ n)
Local n i m (trying b l k w t) = (w ≤ n) × (b ≡ true → l ≡ false → 1 ≤ w)
Local n i m (releasing l k w t) =
    (k ≡ false → m.waking ≡ false) × (w ≤ m.waiters) × (k ≡ false → 1 ≤ w → t ≡ 0 → m.queue ≢ [])
-- Nobody drops a pending `lock`.
Local n i m dropping = 1 ≤ 0
Local n i m flip_load = 1 ≤ 0
Local n i m (flip l k w t) = 1 ≤ 0
Local n i m unlinking = 1 ≤ 0
Local n i m (locking l k w t) =
    (k ≡ false) × (m.waking ≡ false) × (1 ≤ w) × (t ≡ 0 → m.queue ≢ []) × (w ≤ m.waiters)
Local n i m (borrow l k w t) =
    (k ≡ false) × (m.waking ≡ false) × (1 ≤ w) × (t ≡ 0 → m.queue ≢ []) × (w ≤ m.waiters)
Local n i m (handing b l k w t) =
    (k ≡ false)
    × (m.waking ≡ false)
    × (1 ≤ w)
    × (t ≡ 0 → m.queue ≢ [])
    × (b ≡ true → m.queue ≢ [])
    × (b ≡ false → m.queue ≡ [])
    × (w ≤ m.waiters)
Local n i m _ = Unit

-- What holds until a pending `lock` is dropped.
pub record Inv (n : ℕ) (m : Shared) (pc : ℕ → Pc) : Type 0 where
  pub locked_is : from_bool m.locked ≡ tally holds n pc
  pub waking_is : from_bool m.waking ≡ tally en_route n pc + tally is_done n m.waker
  pub waiters_is : m.waiters ≡ tally counted n pc
  pub ready : m.locked ≡ false → m.waking ≡ false → m.waiters ≡ 0
  pub place :
      (j : ℕ)
      → count j m.inbox + count j m.queue + tally (aims j) n pc + is_done (m.waker j)
        ≡ pushed (pc j)
  pub local_facts : (j : ℕ) → Local n j m (pc j)
  pub borrowed_is : from_bool m.borrowed ≡ tally borrowing n pc
  pub calm : m.panicked ≡ false
  pub nobody : pc 0 ≡ idle
  pub outside : (j : ℕ) → n ≤ j → pc j ≡ idle
