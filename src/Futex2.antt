-- ===== src/Futex2.antt =====
-- futex2/mod.rs: `Queue`, its packings, and `notify`, `wait_if` and `expand` as the steps of one task
-- between two accesses to shared memory. A generation is numbered by its place in `generations`, and a
-- waker by the task that it wakes. Additions on `usize_half` panic where they overflow.
pub mod Packing
pub mod Tickets
pub mod Occupants
pub mod Wakeups
pub mod Mutex
mod Tests
pub use async_mutex.Tasks.{Choice, go, spurious, cancel, is_spurious}
use async_mutex.Common.{
  ℕ, zero, suc, ◌+◌, ◌-◌, ◌*◌, ◌%◌, ◌^◌, Bool, true, false, not, ◌&&◌, ◌||◌, ltb, ◌==◌, ◌<◌,
  if◌then◌else◌, update,
}
use async_mutex.Atomic.{usize_half}

-- `enum Bucket`
pub data Bucket : Type 0 where
  empty : (iteration : ℕ) → Bucket
  woken : (iteration : ℕ) → Bucket
  waiting : (waker : ℕ) → Bucket
  waking : Bucket
  tombstone : Bucket

-- The comparison of two buckets by an exchange.
abbrev pub same_bucket : Bucket → Bucket → Bool
same_bucket (empty k) (empty l) = k == l
same_bucket (woken k) (woken l) = k == l
same_bucket (waiting v) (waiting w) = v == w
same_bucket waking waking = true
same_bucket tombstone tombstone = true
same_bucket _ _ = false

pub record Shared : Type 0 where
  pub generation : ℕ  -- the atom
  pub waits : ℕ
  pub notifies : ℕ
  pub generations : ℕ  -- the length of the vector
  pub locked : Bool  -- its mutex
  pub made : ℕ  -- how many generations were made
  pub capacity : ℕ → ℕ
  pub bucket : ℕ → ℕ → Bucket  -- by generation and index
  pub called : ℕ → Bool  -- the wakers that were called since their wait was last polled
  pub panicked : Bool
  pub unreachable : Bool  -- the `unreachable!()` of `poll_waiting` was reached
  pub aborted : Bool  -- a pending `WaitFuture` was dropped, which is `todo!()`

-- Where a task stands, with its snapshots.
pub data Pc : Type 0 where
  resting : Pc  -- no call of the queue
  loading : (add : ℕ) → Pc  -- the start of `notify`
  adding : (add generation waits notifies : ℕ) → Pc  -- its first loop
  visiting : (generation iteration stop : ℕ) → Pc  -- `for iteration in`, before `bucket.load`
  visit : (generation iteration stop : ℕ) (old : Bucket) → Pc  -- the loop on one bucket
  expanding : (generation : ℕ) → Pc  -- `expand`, before the lock
  sweeping : (generation index : ℕ) → Pc  -- the swaps of `expand`
  installing : (generation : ℕ) → Pc  -- before `self.atom.swap`
  pushing : Pc  -- before `lock.push`
  entering : Pc  -- `poll_enter`
  taking : (generation waits notifies : ℕ) → Pc  -- its first loop
  joining : (generation iteration : ℕ) (current : Bucket) → Pc  -- its second loop
  checking : (generation iteration : ℕ) → Pc  -- before `condition()`
  pending : (generation iteration : ℕ) → Pc  -- the wait is pending
  polling : (generation iteration : ℕ) (current : Bucket) → Pc  -- the loop of `poll_waiting`
  finished : Pc  -- the call is over

abbrev pub panic : Shared → Shared
panic m = record m { panicked = true }

-- `Index` of `Generation`, for a generation that is not empty.
abbrev pub place : Shared → (generation iteration : ℕ) → ℕ
place m g k = k % m.capacity g

abbrev pub look : Shared → (generation iteration : ℕ) → Bucket
look m g k = m.bucket g (place m g k)

abbrev pub put : Shared → (generation iteration : ℕ) → Bucket → Shared
put m g k b = record m { bucket = update m.bucket g (update (m.bucket g) (place m g k) b) }

-- `Atomic::cmpxchg_weak` on the atom, and on a bucket.
abbrev pub wins : Choice → Shared → (generation waits notifies : ℕ) → Bool
wins c m g w n =
    not (is_spurious c) && ((m.generation == g) && ((m.waits == w) && (m.notifies == n)))

abbrev pub replaces : Choice → Shared → (generation iteration : ℕ) → Bucket → Bool
replaces c m g k old = not (is_spurious c) && same_bucket (look m g k) old

-- `waker.into_waker().wake()`
abbrev pub call : Shared → ℕ → Shared
call m w = record m { called = update m.called w true }

abbrev pub min_half : ℕ → ℕ → ℕ
min_half a b = if ltb a b then a else b

-- One round of the first loop of `notify`.
pub add_round : Choice → Shared → (add generation waits notifies : ℕ) → Shared × Pc
add_round c m a g w n =
    if not (ltb (n + a) (2 ^ 32))
    then (panic m, adding a g w n)
    else if wins c m g w n
    then (record m { notifies = min_half (n + a) w }, visiting g n (min_half (n + a) w))
    else (m, adding a m.generation m.waits m.notifies)

-- One round of its loop on a bucket.
pub visit_round : Choice → Shared → (generation iteration stop : ℕ) → Bucket → Shared × Pc
visit_round c m g k s (waiting w) =
    if replaces c m g k (waiting w)
    then (call (put m g k waking) w, visiting g (k + 1) s)
    else (m, visit g k s (look m g k))
visit_round c m g k s (empty l) =
    if not (k == l)
    then (m, expanding g)
    else if replaces c m g k (empty l)
    then (put m g k (woken k), visiting g (k + 1) s)
    else (m, visit g k s (look m g k))
visit_round c m g k s _ = (m, expanding g)

-- One swap of `expand`.
pub sweep : Shared → (generation index : ℕ) → Bucket → Shared × Pc
sweep m g j (waiting w) = (
  call (record m { bucket = update m.bucket g (update (m.bucket g) j tombstone) }) w,
  sweeping g (j + 1),
)
sweep m g j _ =
    (record m { bucket = update m.bucket g (update (m.bucket g) j tombstone) }, sweeping g (j + 1))

-- `Generation::new`, and the swap of the atom.
pub install : Shared → (generation : ℕ) → Shared × Pc
install m g = if ltb (2 ^ 32) (m.capacity g * 2) then (panic m, installing g) else (
  record m {
    capacity = update m.capacity m.made (m.capacity g * 2);
    bucket = update m.bucket m.made empty;
    generation = m.made;
    waits = 0;
    notifies = 0;
    made = m.made + 1;
  },
  pushing,
)

-- `Empty { iteration: iteration + cap }`, for the next round of the generation.
pub next_round : Shared → (generation iteration : ℕ) → (here : Pc) → Shared × Pc
next_round m g k here =
    if not (ltb (k + usize_half (m.capacity g)) (2 ^ 32))
    then (panic m, here)
    else (put m g k (empty (k + usize_half (m.capacity g))), finished)

-- One round of the second loop of `poll_enter` of task `i`.
pub join_round : ℕ → Choice → Shared → (generation iteration : ℕ) → Bucket → Shared × Pc
unfolding next_round
join_round i c m g k (empty l) =
    if not (k == l)
    then (m, expanding g)
    else if replaces c m g k (empty l)
    then (put m g k (waiting i), checking g k)
    else (m, joining g k (look m g k))
join_round i c m g k (woken l) =
    if not (k == l)
    then (m, expanding g)
    else if replaces c m g k (woken l)
    then next_round m g k (joining g k (woken l))
    else (m, joining g k (look m g k))
join_round i c m g k _ = (m, expanding g)

-- One round of the loop of `poll_waiting` of task `i`; the last branch is `unreachable!()`.
pub waiting_round : ℕ → Choice → Shared → (generation iteration : ℕ) → Bucket → Shared × Pc
unfolding next_round
waiting_round i c m g k (waiting w) =
    if replaces c m g k (waiting w)
    then (put m g k (waiting i), pending g k)
    else (m, polling g k (look m g k))
waiting_round i c m g k waking =
    if replaces c m g k waking
    then next_round m g k (polling g k waking)
    else (m, polling g k (look m g k))
waiting_round i c m g k tombstone = (m, expanding g)
waiting_round i c m g k old = (record m { unreachable = true }, polling g k old)

-- One step of task `i` in a call; `condition` is what the closure of `wait_if` would return now.
pub act : (condition : Bool) → ℕ → Choice → Shared → Pc → Shared × Pc
unfolding add_round visit_round sweep install join_round waiting_round
act b i c m resting = (m, resting)
act b i c m (loading a) = (m, adding (usize_half a) m.generation m.waits m.notifies)
act b i c m (adding a g w n) = add_round c m a g w n
act b i c m (visiting g k s) =
    if not (ltb k s)
    then (m, finished)
    else if m.capacity g == 0
    then (panic m, visiting g k s)
    else (m, visit g k s (look m g k))
act b i c m (visit g k s old) = visit_round c m g k s old
act b i c m (expanding g) =
    if m.locked
    then (m, expanding g)
    else if g + 1 == m.generations
    then (record m { locked = true }, sweeping g 0)
    else (m, finished)
act b i c m (sweeping g j) =
    if ltb j (m.capacity g) then sweep m g j (m.bucket g j) else (m, installing g)
act b i c m (installing g) = install m g
act b i c m pushing = (record m { generations = m.generations + 1; locked = false }, finished)
act b i c m entering = (m, taking m.generation m.waits m.notifies)
act b i c m (taking g w n) =
    if not (ltb (w + 1) (2 ^ 32))
    then (panic m, taking g w n)
    else if not (wins c m g w n)
    then (m, taking m.generation m.waits m.notifies)
    else if m.capacity g == 0
    then (panic (record m { waits = w + 1 }), taking g w n)
    else (record m { waits = w + 1 }, joining g w (empty w))
act b i c m (joining g k current) = join_round i c m g k current
act b i c m (checking g k) = (m, if b then pending g k else loading 1)
act b i go m (pending g k) =
    (record m { called = update m.called i false }, polling g k (look m g k))
act b i spurious m (pending g k) = (m, pending g k)
act b i cancel m (pending g k) = (record m { aborted = true }, pending g k)
act b i c m (polling g k current) = waiting_round i c m g k current
act b i c m finished = (m, finished)

-- `Queue::with_capacity`, with its first generation.
abbrev pub with_capacity : ℕ → Shared
with_capacity cap = record {
  generation = 0;
  waits = 0;
  notifies = 0;
  generations = 1;
  locked = false;
  made = 1;
  capacity = λ _. cap;
  bucket = λ _. empty;
  called = λ _. false;
  panicked = ltb (2 ^ 32) cap;
  unreachable = false;
  aborted = false;
}

pub record System : Type 0 where
  pub mem : Shared
  pub pc : ℕ → Pc

-- What happens next: the task calls `wait_if` and polls it, or calls `notify`, or goes on with its
-- call, in which the closure would return `condition`.
pub data Event : Type 0 where
  wait_if : Event
  notify : (add : ℕ) → Event
  run : (condition : Bool) (choice : Choice) → Event

-- A call begins when no call is under way.
abbrev pub begin : (call here : Pc) → Pc
begin p resting = p
begin p finished = p
begin p here = here

pub step : ℕ → Event → System → System
unfolding act
step i wait_if s = record s { pc = update s.pc i (begin entering (s.pc i)) }
step i (notify a) s = record s { pc = update s.pc i (begin (loading a) (s.pc i)) }
step i (run b c) s = record {
  mem = (act b i c s.mem (s.pc i)).0;
  pc = update s.pc i (act b i c s.mem (s.pc i)).1;
}

-- The states that the tasks below `n` reach from a new queue.
pub data Reach (cap n : ℕ) : System → Type 0 where
  start : Reach cap n (record { mem = with_capacity cap; pc = λ _. resting })
  later : {s : System} (i : ℕ) (e : Event) → i < n → Reach cap n s → Reach cap n (step i e s)
