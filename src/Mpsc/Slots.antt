-- ===== src/Mpsc/Slots.antt =====
-- What the size and the heads say about the buckets of mpsc.rs.
use async_mutex.Common.{ℕ, ◌+◌, ◌-◌, ◌≤◌, ◌<◌, ◌≡◌, true, ◌==◌, if◌then◌else◌, tally}
use async_mutex.Atomic.{from_bool}
use async_mutex.Mpsc.{
  Shared, Pc, writing, filling, Rc, clearing, taking, locking, borrow, popping, load_popped,
  passing, load_empty, taking_over, backfilling,
}
use async_mutex.Mpsc.Ring.{wrap, inside}

-- The receiver has emptied a bucket, which the size still counts.
abbrev pub between : Rc → ℕ
between (locking head r) = 1
between (borrow head r) = 1
between (popping head r) = 1
between (load_popped head r v) = 1
between (passing head r v h s t) = 1
between (load_empty head r) = 1
between (taking_over head r h s t) = 1
between _ = 0

-- The number of buckets in use from `recv_head` on.
abbrev pub used : Shared → Rc → ℕ
used m rc = m.size - between rc

-- A sender, or the receiver for one that waits, is about to fill bucket `at`.
abbrev pub claims : ℕ → Pc → ℕ
claims at (writing p) = if p == at then 1 else 0
claims at (filling p) = if p == at then 1 else 0
claims at _ = 0

abbrev pub owns : ℕ → Rc → ℕ
owns at (backfilling head r v) = if head == at then 1 else 0
owns at _ = 0

-- What the receiver knows of the ring, with its snapshot.
abbrev pub Behind : ℕ → Shared → Rc → Type 0
Behind cap m clearing = m.filled m.recv_head ≡ true
Behind cap m taking = m.filled m.recv_head ≡ true
Behind cap m (locking head r) = m.recv_head ≡ wrap cap (head + 1)
Behind cap m (borrow head r) = m.recv_head ≡ wrap cap (head + 1)
Behind cap m (popping head r) = m.recv_head ≡ wrap cap (head + 1)
Behind cap m (load_popped head r v) = m.recv_head ≡ wrap cap (head + 1)
Behind cap m (passing head r v h s t) = m.recv_head ≡ wrap cap (head + 1)
Behind cap m (load_empty head r) = m.recv_head ≡ wrap cap (head + 1)
Behind cap m (taking_over head r h s t) = (m.recv_head ≡ wrap cap (head + 1)) × (1 ≤ s)
Behind cap m (backfilling head r v) = m.recv_head ≡ wrap cap (head + 1)
Behind cap m _ = Unit

abbrev pub Occupied : ℕ → ℕ → Shared → (ℕ → Pc) → Rc → ℕ → Type 0
Occupied cap n m pc rc at =
    from_bool (m.filled at) + tally (claims at) n pc + owns at rc
    ≡ inside cap m.recv_head (used m rc) at

pub record Slots (cap n : ℕ) (m : Shared) (pc : ℕ → Pc) (rc : Rc) : Type 0 where
  pub head_is : m.write_head ≡ wrap cap (m.recv_head + used m rc)
  pub room : between rc ≤ m.size
  pub occupied : (at : ℕ) → at < cap → Occupied cap n m pc rc at
  pub behind : Behind cap m rc
