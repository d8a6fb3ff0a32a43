-- ===== src/Lib.antt =====
-- async-mutex: asynchronous locks over a futex of their own.
--
-- A `Futex` is an atom that its client packs into one word, an inbox, and queues of waiters. A task
-- that waits replaces the atom and pushes its waiter on the inbox, by one exchange. A task that
-- wakes takes the inbox over into the queues, by one exchange too, and pops waiters from a queue.
-- Waiters are linked through pointers of their own, first as a stack (`prev` only), then as doubly
-- linked lists. A future that is dropped while it waits takes the write lock of the queues and
-- removes its waiter. The locks of the crate are clients of the futex.
--
-- Atomic models src/atomic/atomic_cell.rs: `Packable` as a pair of functions between values and
-- numbers, and the operations of `Atomic<T>` on a cell that holds a number. Words have 64 bits, and
-- their wrap-around is written out (`% 2 ^ 64`, `% 2 ^ 32`). Memory is sequentially consistent: the
-- orderings that src/atomic/ordering.rs passes along are not modelled. A weak exchange has an
-- argument that lets it fail for no reason.
--
-- Waiter models the lists of src/futex/waiter.rs over a store: which addresses are live waiters,
-- and the `next` and `prev` of each. A command is a function on stores that faults where the source
-- would access a null or dead pointer or fail an assertion. The operations have the names of the
-- source: `from_stack`, `append`, `remove`, `pop_front`, `pop_front_many`, `push_back`, the
-- accessors of a waiter, and the iterators of `WaiterHandleList`. Loops over a list take fuel, and
-- running out of it is a fault, so that a theorem that a command `Returns` shows the fuel to be
-- enough; the length of the list is.
--
-- Futex models `RawFutex` and `FutexQueueGuard` of src/futex/mod.rs over that store, and the push
-- of `WaitFuture::poll_enter`. The vector of queues is a function with a length, and an index out
-- of range faults. The loops of `flip` and `requeue` take a list that says which of their exchanges
-- fail for no reason, and fault where the list ends; `requeue` also writes the field `futex` of the
-- waiters, a function of their addresses. Futex/Refine states what a futex is for its clients: an
-- atom, the inbox as a sequence, and a sequence for each queue; the operations are shown to do to
-- the sequences what they promise.
--
-- WaitFuture models src/futex/wait_future.rs and the `waker` field of a waiter, from `Waiter::new`
-- to `Waiter::drop`: each clone, drop and wake of a waker is counted. Polls, wakes and drops may
-- come in any order, and a callback may panic; what the callers must keep to for the theorems is
-- stated with them (`IsAllowed`). The round of `poll_waiting` is a step of its own, so that a wake
-- may come between two rounds. WaitFuture/Packing models the packing of `WaiterWaker` in
-- src/futex/state.rs; the addresses of its two tags are parameters.
--
-- FairMutex models src/fair_mutex.rs as a system of tasks: `act` is one step of one task between
-- two accesses to shared memory, `step` lets one task of any number take it, and the scheduler, the
-- spurious failures and the cancellations are arguments. The futex below it is the abstract one,
-- with the read and write lock of its state and the flag of `AtomicRefCell`
-- (src/futex/atomic_refcell.rs). Safety, Order and Unlock hold its theorems, Run the steps of one
-- `unlock`; Invariant, Counts, Steps and Places carry the invariant.
--
-- Condvar models src/condvar.rs over the futex of the condition variable and one mutex of
-- src/fair_mutex.rs, which steps as in FairMutex. A waiter of `wait` has a number of its own, which
-- from its first round on stands in the mutex as a call of `lock` that has not pushed its waiter;
-- `requeue` pushes the waiters of its list, and the task goes on at that number once the mutex is
-- passed to it. A `wait` that was moved to the mutex may be dropped: it unlocks the mutex if it was
-- woken, and comes to `todo!()` if not, which a field records; the theorems are about the states
-- before that. Only the owner of the mutex calls the condition variable, as the borrow of its guard
-- ensures, so that the read guard of the futex of the condition variable, which only a cancellation
-- would contend for, is left out. FairMutex/Lock has the steps of a call of `lock` that this needs,
-- Condvar/Transfer the loop of `requeue`, Steps, Calls and Requeue the invariant, and Safety the
-- theorems.
--
-- SpinLock models src/spin_lock.rs in the same way, with `yield_now` of src/util.rs.
--
-- Lazy models `get`, `get_or_init` and `finish` of src/lazy.rs in the same way as FairMutex does
-- its mutex. The value is the number of times it was written, and a panic of the initialiser is its
-- cancellation. Lazy/Once has the order of the writes and the returns; Seats is the invariant of
-- the waiters and the guards, Moves and Places its steps, and Wakeups has the theorems.
--
-- RwLock models `read`, `write`, `read_unlock` and `write_unlock` of src/rwlock.rs in the same way,
-- with the two queues of its futex. Which of the two a task calls is fixed for each task, by a
-- parameter that gives the queue its waiter names. The work on the queues that follows an atomic
-- access belongs to the step of that access, since only the owner of the guard of the queues sees
-- them; so do the removal of a cancelled waiter and the choice of its callback, under the write
-- lock. A cancelled call that was woken goes on with the unlock of the source. `write_abort` is
-- `todo!()`: a field says whether it was called, and the theorems are about the states where it was
-- not. An exchange stores the atom as `impl Packable for Atom` packs it, in halves of 32 bits
-- (`stored`), and the theorems are about fewer than 2 ^ 32 tasks; RwLock/Bounds shows that the
-- halves then hold every count. RwLock/Memory has the shared state, with the packing of the atom.
--
-- FastMutex models `lock` and `unlock` of src/fast_mutex.rs in the same way. A pending `lock` that
-- is dropped takes the write lock, unlinks its waiter, and panics in its callback, which is
-- `todo!()`; a field says whether such a drop has begun, and the theorems are about the states
-- before one. The number of tasks is below 2 ^ 62, which is what the packing of the atom holds.
--
-- Mpsc models src/mpsc.rs: senders as in FairMutex, with steps of their own for the write to a
-- bucket, the flag `filled` and the swap of `recv_state`, and one receiver, whose polls may come at
-- any time. A message is a number, and the value in a bucket is that of its last write. The write
-- of the receiver to the bucket of a popped waiter, and its flag, are one step: no one else
-- accesses that bucket. `new` has the two assertions of the source, and the theorems are about
-- channels that it makes. Mpsc/Waiting, Letters and Slots carry the invariants of the waiters, of
-- the messages that are under way and of the buckets, Claims, Turns and Calm their steps; History
-- is the relation of the states to the messages placed and delivered so far, Order, Placing and
-- Reading its steps, and Delivery has the theorems.
--
-- Futex2 models the queue of src/futex2/mod.rs in the same way: generations of buckets, numbered in
-- the order of `generations`, and `wait_if`, `notify` and `expand` as the steps of one task. What
-- the closure of `wait_if` returns is an argument of the step. An addition that overflows 32 bits
-- panics. The wake that follows an exchange belongs to the step of the exchange. Tickets is about
-- the counters, Occupants about the buckets and Wakeups about the wakers. Futex2/Mutex models
-- src/futex2/mutex.rs, whose calls of the queue go through the steps of Futex2.
--
-- Tasks has what these models share: the waker of a waiter, the choices of the scheduler, and the
-- newest waiter of an inbox. Each of them numbers its tasks from 1, since 0 is the null pointer,
-- and takes their number as a parameter.
--
-- Common has the shared lemmas on lists, apartness and maps.
--
-- Not modelled are the drop of a `wait` of src/condvar.rs that was not moved to the mutex, the drop
-- of a channel, the reference counts of the wakers of src/futex2, the forwarding macros of
-- src/atomic/atomic_impl.rs and src/async_traits.rs, the shims of src/loom.rs, and the tests. The
-- protected value itself does not occur: its accesses are safe as far as the locks exclude each
-- other.
pub mod Common
pub mod Atomic
pub mod Waiter
pub mod Futex
pub mod WaitFuture
pub mod Tasks
pub mod FairMutex
pub mod FastMutex
pub mod Condvar
pub mod Futex2
pub mod RwLock
pub mod SpinLock
pub mod Lazy
pub mod Mpsc
