-- ===== src/Lazy/Seats.antt =====
-- The invariant of the cell of lazy.rs: where each waiter is, and who has the guards of the futex.
use async_mutex.Common.{ℕ, ◌+◌, ◌≤◌, ◌≡◌, true, false, [], tally, count}
use async_mutex.Atomic.{from_bool}
use async_mutex.Lazy.{
  CellAtom, init, poison, Waker, none, done, Shared, Pc, idle, looping, asleep, woken, dropping,
  flip_load, flip, unlinking, dropped, borrow, load_atom, finishing, pop_all, waking,
}
use async_mutex.Lazy.Once.{is_active}

abbrev pub is_final : CellAtom → ℕ
is_final init = 1
is_final poison = 1
is_final _ = 0

abbrev pub is_done : Waker → ℕ
is_done done = 1
is_done _ = 0

abbrev pub is_none : Waker → ℕ
is_none none = 1
is_none _ = 0

-- The task's waiter was pushed, and was not taken out by the task itself.
abbrev pub waits : Pc → ℕ
waits asleep = 1
waits dropping = 1
waits flip_load = 1
waits (flip a t) = 1
waits unlinking = 1
waits _ = 0

-- The waiter is in the inbox, the queue or a list of `pop_many`.
abbrev pub seated : Pc → Waker → ℕ
seated p done = 0
seated p _ = waits p

-- The task is about to wake waiter `j`.
abbrev pub takes : ℕ → Pc → ℕ
takes j (waking new ws) = count j ws
takes j _ = 0

-- The task has the read guard of the futex.
abbrev pub reading : Pc → ℕ
reading (borrow new) = 1
reading (load_atom new) = 1
reading (finishing new a t) = 1
reading (pop_all new) = 1
reading (waking new ws) = 1
reading _ = 0

-- The task has the write guard.
abbrev pub writing : Pc → ℕ
writing flip_load = 1
writing (flip a t) = 1
writing unlinking = 1
writing _ = 0

-- The task has the guard of the queues.
abbrev pub borrowing : Pc → ℕ
borrowing (load_atom new) = 1
borrowing (finishing new a t) = 1
borrowing (pop_all new) = 1
borrowing (waking new ws) = 1
borrowing _ = 0

-- The task has published the atom and wakes the waiters.
abbrev pub ends : Pc → ℕ
ends (pop_all new) = 1
ends (waking new ws) = 1
ends _ = 0

abbrev pub pops : Pc → ℕ
pops (pop_all new) = 1
pops _ = 0

-- What the place of task `j` says about its waiter.
abbrev pub Sits : Shared → ℕ → Pc → Type 0
Sits m j asleep = is_none (m.waker j) ≡ 0
Sits m j dropping = is_none (m.waker j) ≡ 0
Sits m j flip_load = is_none (m.waker j) ≡ 0
Sits m j (flip a t) = (is_none (m.waker j) ≡ 0) × (t ≡ 0 → count j m.inbox ≡ 0)
Sits m j unlinking = (is_none (m.waker j) ≡ 0) × (count j m.inbox ≡ 0)
Sits m j woken = is_done (m.waker j) ≡ 1
Sits m j dropped = is_none (m.waker j) ≡ 0
Sits m j (looping a t) = is_done (m.waker j) ≤ is_final a
Sits m j _ = Unit

pub record Seats (n : ℕ) (m : Shared) (pc : ℕ → Pc) : Type 0 where
  pub place :
      (j : ℕ) → count j m.inbox + count j m.queue + tally (takes j) n pc ≡ seated (pc j) (m.waker j)
  pub sits : (j : ℕ) → Sits m j (pc j)
  pub late : (j : ℕ) → is_done (m.waker j) ≤ is_final m.atom
  pub readers_is : m.readers ≡ tally reading n pc
  pub writer_is : from_bool m.writer ≡ tally writing n pc
  pub borrowed_is : from_bool m.borrowed ≡ tally borrowing n pc
  pub apart : m.writer ≡ true → m.readers ≡ 0
  pub ending : tally ends n pc ≤ is_final m.atom
  pub calm_inbox : is_active m.atom ≡ 0 → m.inbox ≡ []
  pub calm_queue : is_active m.atom ≡ 0 → tally pops n pc ≡ 0 → m.queue ≡ []
  pub nobody : pc 0 ≡ idle
  pub calm : m.panicked ≡ false
