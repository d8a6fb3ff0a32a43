-- ===== src/RwLock/Memory.antt =====
-- rwlock.rs: the memory that the tasks of the lock share, with the abstract futex in it.
use async_mutex.Common.{
  ℕ, Bool, true, not, ◌&&◌, List, [], ◌∷◌, ◌++◌, reverse, ◌==◌, if◌then◌else◌, update,
}
use async_mutex.Tasks.{Waker, Choice, is_spurious, newest, erase}
use async_mutex.Atomic.{Packable, usize_half, join, low, high}

pub record Atom : Type 0 where
  pub readers : ℕ
  pub writers : ℕ

-- `impl Packable for Atom`
abbrev pub atom_packing : Packable Atom
atom_packing = record {
  encode = λ val. join (usize_half val.readers) (usize_half val.writers);
  decode = λ val. record { readers = low val; writers = high val };
}

abbrev pub read_queue_index : ℕ
read_queue_index = 0

abbrev pub write_queue_index : ℕ
write_queue_index = 1

pub record Shared : Type 0 where
  pub readers : ℕ  -- the atom, as it is decoded
  pub writers : ℕ
  pub inbox : List ℕ
  pub read_queue : List ℕ
  pub write_queue : List ℕ
  pub waker : ℕ → Waker
  pub guards : ℕ  -- read guards of the futex's state
  pub locked : Bool  -- its write guard, which cancellation takes
  pub borrowed : Bool  -- `AtomicRefCell::state`
  pub panicked : Bool  -- an assertion, an `unwrap` or a panic of the futex
  pub aborted : Bool  -- `write_abort`, which is `todo!()`

-- The word of the futex holds the atom as `impl Packable for Atom` packs it, in two halves.
abbrev pub stored : Shared → Shared
stored m =
    let a =
      atom_packing.decode
        (atom_packing.encode (record { readers = m.readers; writers = m.writers })) in
    record m { readers = a.readers; writers = a.writers }

-- `RawFutex::cmpxchg_weak`: the atom and the inbox are compared.
abbrev pub wins : Choice → Shared → ℕ → ℕ → ℕ → Bool
wins c m r w t =
    not (is_spurious c) && ((m.readers == r) && ((m.writers == w) && (newest m.inbox == t)))

abbrev pub panic : Shared → Shared
panic m = record m { panicked = true }

abbrev pub put_waker : Shared → ℕ → Waker → Shared
put_waker m i k = record m { waker = update m.waker i k }

module _ (queue_of : ℕ → ℕ) where
  -- The waiters of one queue.
  abbrev pub only : ℕ → List ℕ → List ℕ
  only q [] = []
  only q (w ∷ ws) = if queue_of w == q then w ∷ only q ws else only q ws

  -- `RawFutex::enqueue`
  abbrev pub enqueue : Shared → Shared
  enqueue m = record m {
    inbox = [];
    read_queue = m.read_queue ++ only read_queue_index (reverse m.inbox);
    write_queue = m.write_queue ++ only write_queue_index (reverse m.inbox);
  }

  -- `RawFutex::cancel`: the waiter is taken out of the queue that it names.
  abbrev pub unlink : ℕ → Shared → Shared
  unlink i m =
      if queue_of i == read_queue_index
      then record m { read_queue = erase i m.read_queue }
      else record m { write_queue = erase i m.write_queue }
