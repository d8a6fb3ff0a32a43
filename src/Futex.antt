-- ===== src/Futex.antt =====
-- futex/mod.rs: `RawFutex` and the operations on its queues, over the links of `Waiter`.
-- A command returns `none` also where the source would panic on an index out of range.
pub mod Queues
pub mod Enqueue
pub mod Refine
pub mod Push
pub mod Many
pub mod Flip
pub mod Requeue
mod Tests
use async_mutex.Common.{
  ℕ, zero, suc, ◌<◌, Bool, true, false, not, ◌&&◌, Option, none, some, ltb, ◌==◌, if◌then◌else◌,
  update, List, [], ◌∷◌,
}
use async_mutex.Waiter.{
  Ptr, null, Links, Cmd, pure, fault, ◌>>=◌, ◌>>◌, WaiterList, set_prev, from_stack, pop_front,
  push_back, remove, pop_front_many,
}
use async_mutex.Waiter
use async_mutex.Waiter.Iter.{iter}

pub record RawFutexAtom : Type 0 where
  pub atom : ℕ
  pub inbox : Ptr

-- `futex_atom` and `state.queues`; the vector has a fixed length, the section's `len`.
pub record RawFutex : Type 0 where
  pub futex_atom : RawFutexAtom
  pub queues : ℕ → WaiterList

-- `Futex::new`
abbrev pub new : ℕ → RawFutex
new a = record { futex_atom = record { atom = a; inbox = null }; queues = λ _. Waiter.new }

-- The derived `==` of `RawFutexAtom`.
abbrev pub same_atom : RawFutexAtom → RawFutexAtom → Bool
same_atom a b = (a.atom == b.atom) && (a.inbox == b.inbox)

-- `RawFutex::cmpxchg_weak`: the outcome, the new contents of `current`, and the futex. The exchange
-- fails for no reason where `spurious` says so.
unfoldable pub cmpxchg_weak :
    (spurious : Bool) → RawFutex → (current new : RawFutexAtom) → Bool × RawFutexAtom × RawFutex
cmpxchg_weak spurious f current new =
    if not spurious && same_atom f.futex_atom current
    then (true, current, record f { futex_atom = new })
    else (false, f.futex_atom, f)

-- `len` is the number of queues, `queue_of` the field `queue` of each waiter; `fuel` bounds the walk
-- through an inbox.
module _ (len : ℕ) (queue_of : Ptr → ℕ) (fuel : ℕ) where
  -- The loop of `enqueue`.
  pub drain : ℕ → (ℕ → WaiterList) → WaiterList → Cmd (ℕ → WaiterList)
  drain zero queues list = fault
  drain (suc k) queues list = do
    (item, rest) ← pop_front list
    elim item [
      | none ↦ pure queues
      | some waiter ↦
          if ltb (queue_of waiter) len
          then (do
            q ← push_back (queues (queue_of waiter)) waiter
            drain k (update queues (queue_of waiter) q) rest)
          else fault
    ]

  -- `RawFutex::enqueue`
  pub enqueue : (ℕ → WaiterList) → Ptr → Cmd (ℕ → WaiterList)
  enqueue queues stack = do list ← from_stack fuel stack; drain (suc fuel) queues list

  -- `RawFutex::cancel`
  pub cancel : RawFutex → Ptr → Cmd RawFutex
  cancel f waiter =
      if ltb (queue_of waiter) len
      then (do
        q ← remove (f.queues (queue_of waiter)) waiter
        pure (record f { queues = update f.queues (queue_of waiter) q }))
      else fault

  -- `FutexQueueGuard::cmpxchg_enqueue_weak`
  pub cmpxchg_enqueue_weak :
      Bool → RawFutex → RawFutexAtom → ℕ → Cmd (Bool × RawFutexAtom × RawFutex)
  cmpxchg_enqueue_weak spurious f current new =
      let (won, now, g) = cmpxchg_weak spurious f current (record { atom = new; inbox = null }) in
      if won && not (current.inbox == null)
      then (do
        queues ← enqueue g.queues current.inbox
        pure (true, now, record g { queues = queues }))
      else pure (won, now, g)

  -- The loop of `RawFutex::flip`; each of the `attempts` says whether its exchange fails for no reason,
  -- and running out of them is a fault. It is the exchange of `cmpxchg_enqueue_weak`, as the inbox is
  -- not null.
  pub flip_loop : (attempts : List Bool) → RawFutex → RawFutexAtom → Cmd RawFutex
  flip_loop [] f atom = fault
  flip_loop (spurious ∷ attempts) f atom = if atom.inbox == null then pure f else (do
    (won, now, g) ← cmpxchg_enqueue_weak spurious f atom atom.atom
    elim won [ true ↦ pure g | false ↦ flip_loop attempts g now ])

  -- `RawFutex::flip`
  pub flip : (attempts : List Bool) → RawFutex → Cmd RawFutex
  flip attempts f = flip_loop attempts f f.futex_atom

  -- `FutexQueueGuard::pop`
  pub pop : RawFutex → ℕ → Cmd (Option Ptr × RawFutex)
  pop f queue =
      if ltb queue len
      then (do
        (item, q) ← pop_front (f.queues queue)
        pure (item, record f { queues = update f.queues queue q }))
      else fault

  -- `FutexQueueGuard::pop_many`
  pub pop_many : RawFutex → (count queue : ℕ) → Cmd (WaiterList × RawFutex)
  pop_many f count queue =
      if ltb queue len
      then (do
        (list, q) ← pop_front_many (f.queues queue) count
        pure (list, record f { queues = update f.queues queue q }))
      else fault

  -- `FutexQueueGuard::is_empty`
  pub is_empty : RawFutex → (queue : ℕ) → Cmd Bool
  is_empty f queue = if ltb queue len then pure (Waiter.is_empty (f.queues queue)) else fault

-- The link of `WaitFuture::poll_enter`: the waiter is put on the inbox.
pub push : Bool → RawFutex → RawFutexAtom → ℕ → Ptr → Cmd (Bool × RawFutexAtom × RawFutex)
push spurious f current new waiter = do
  set_prev waiter current.inbox
  pure (cmpxchg_weak spurious f current (record { atom = new; inbox = waiter }))

-- The loop of `requeue`, with its attempts as in `flip_loop`.
pub requeue_loop : (attempts : List Bool) → RawFutex → WaiterList → RawFutexAtom → Cmd RawFutex
requeue_loop [] f list atom = fault
requeue_loop (spurious ∷ attempts) f list atom = do
  set_prev list.head atom.inbox
  let (won, now, g) = cmpxchg_weak spurious f atom (record { atom = atom.atom; inbox = list.tail })
  if won then pure g else requeue_loop attempts g list now

-- The field `futex` of the waiters, when those of a list are given the futex `self`.
abbrev pub own_all : (self : ℕ) → List Ptr → (Ptr → ℕ) → Ptr → ℕ
own_all self [] owner = owner
own_all self (w ∷ ws) owner = own_all self ws (update owner w self)

-- `FutexWaitersGuard::requeue` of the futex with the number `self`; `owner` is the field `futex` of each
-- waiter.
pub requeue :
    (fuel : ℕ) (attempts : List Bool) (self : ℕ) (owner : Ptr → ℕ)
    → RawFutex
    → WaiterList
    → Cmd ((Ptr → ℕ) × RawFutex)
requeue fuel attempts self owner f list = if Waiter.is_empty list then pure (owner, f) else do
  waiters ← iter fuel list
  g ← requeue_loop attempts f list f.futex_atom
  pure (own_all self waiters owner, g)
