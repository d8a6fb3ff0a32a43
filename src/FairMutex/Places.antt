-- ===== src/FairMutex/Places.antt =====
-- A step of fair_mutex.rs keeps what each task relies on, and the place of each waiter.
use async_mutex.Common.{
  ℕ, ◌+◌, ◌≤◌, ◌<◌, ◌≡◌, ◌≢◌, refl, tally-le_of_le, arith, tally, tally-update, tally-ge,
  tally-ge_two, update, update_self, update-ne, count,
}
use native.Mathlib.Decide.{ℕ_discrete}
use async_mutex.FairMutex.{
  Waker, done, Shared, Pc, idle, flip, unlinking, looping, waking, Choice, act, System, step,
}
use async_mutex.FairMutex.Invariant.{holds, reading, writing, aims, is_done, pushed, Local, Inv}
use async_mutex.FairMutex.Counts.{moved}
use async_mutex.Tasks.Counts.{count-enqueue, count-erase_self, count-erase_ne}
use async_mutex.FairMutex.Steps.{
  target, act-token, act-readers, act-borrowed, act-calm, act-no_waiters, act-outside, act-waker,
  act-inbox, act-queue, act-Local_self,
}

module _ {n : ℕ} {m : Shared} {pc : ℕ → Pc} (inv : Inv n m pc) (i : ℕ) (pos : i ≢ 0) (lt : i < n)
    (c : Choice) where
  -- While another task has the mutex, task `i` leaves the queue alone.
  queue_kept :
      (j : ℕ) → j ≢ i → holds (pc j) ≡ 1 → reading (pc j) ≡ 1 → (act i c m (pc i)).0.queue ≡ m.queue
  queue_kept j ne h r = ground (
    arith,
    act-queue inv i pos lt c (pc i),
    inv.outside j,
    tally-ge_two holds n pc i j lt,
    tally-ge reading n pc j,
    tally-ge writing n pc i lt,
  )

  act-Local_other :
      (j : ℕ) → j ≢ i → (q : Pc) → pc j ≡ q → Local j m q → Local j (act i c m (pc i)).0 q
  act-Local_other j ne idle here k = tt
  act-Local_other j ne q here k = ground (
    arith,
    act-waker inv i pos lt c (pc i) j ne,
    act-inbox inv i pos lt c (pc i) j ne,
    queue_kept j ne,
  )

  pub act-Local : (j : ℕ) → Local j (act i c m (pc i)).0 (update pc i (act i c m (pc i)).1 j)
  act-Local j = elim (ℕ_discrete j i) [
    | yes e ↦
        rw (e, update_self pc i (act i c m (pc i)).1) (act-Local_self inv i pos lt c (pc i) refl)
    | no ne ↦
        rw (update-ne pc i (act i c m (pc i)).1 j ne)
          (act-Local_other j ne (pc j) refl (inv.local_facts j))
  ]

  aims-le : (j : ℕ) (p : Pc) → aims j p ≤ reading p
  aims-le j p = ground arith

  pushed-done : (p : Pc) (k : Waker) → 1 + is_done k ≤ pushed p k → pushed p done ≡ 1
  pushed-done p k h = ground arith

  -- The sum of the places of waiter `j` after the step, `p` being where task `i` stood.
  abbrev places : ℕ → Pc → ℕ
  places j p =
      count j (act i c m p).0.inbox
      + count j (act i c m p).0.queue
      + tally (aims j) n (update pc i (act i c m p).1)
      + is_done ((act i c m p).0.waker j)

  abbrev Flights : ℕ → Pc → Type 0
  Flights j p =
      tally (aims j) n (update pc i (act i c m p).1) + aims j p
      ≡ tally (aims j) n pc + aims j (act i c m p).1

  place_other :
      (j : ℕ)
      → j ≢ i
      → (p : Pc) → pc i ≡ p
      → Flights j p
      → places j p ≡ pushed (pc j) ((act i c m p).0.waker j)
  unfolding act
  place_other j ne (flip a t) here f = ground (arith, inv.place j, count-enqueue j m.queue m.inbox)
  place_other j ne (looping a t) here f =
      ground (arith, inv.place j, count-enqueue j m.queue m.inbox)
  place_other j ne unlinking here f = ground (arith, inv.place j, count-erase_ne i j m.queue ne)
  place_other j ne (waking w) here f = ground (
    arith,
    inv.place j,
    target inv i pos lt c w here,
    tally-ge (aims j) n pc i lt,
    pushed-done (pc j) (m.waker j),
  )
  place_other j ne p here f = ground (arith, inv.place j)

  place_self :
      (p : Pc)
      → pc i ≡ p
      → Flights i p
      → places i p ≡ pushed (act i c m p).1 ((act i c m p).0.waker i)
  unfolding act
  place_self (flip a t) here f = ground (arith, inv.place i, count-enqueue i m.queue m.inbox)
  place_self (looping a t) here f = ground (arith, inv.place i, count-enqueue i m.queue m.inbox)
  place_self unlinking here f = ground (
    arith,
    inv.place i,
    inv.local_facts i,
    count-erase_self i m.queue,
    tally-le_of_le (aims i) reading n pc (aims-le i),
    tally-ge writing n pc i lt,
  )
  place_self (waking w) here f =
      ground (arith, inv.place i, target inv i pos lt c w here, tally-ge (aims i) n pc i lt)
  place_self p here f = ground (arith, inv.place i, inv.local_facts i)

  pub act-place :
      (j : ℕ)
      → places j (pc i) ≡ pushed (update pc i (act i c m (pc i)).1 j) ((act i c m (pc i)).0.waker j)
  act-place j =
      let f : Flights j (pc i) = tally-update (aims j) n pc i (act i c m (pc i)).1 lt in
      elim (ℕ_discrete j i) [
        | yes e ↦ rw (e, update_self pc i (act i c m (pc i)).1) (place_self (pc i) refl (rw e at f))
        | no ne ↦ rw (update-ne pc i (act i c m (pc i)).1 j ne) (place_other j ne (pc i) refl f)
      ]

-- A step of a task keeps the invariant, whatever the choice.
pub step-Inv :
    {n : ℕ} {s : System} (i : ℕ) (c : Choice)
    → i ≢ 0
    → i < n
    → Inv n s.mem s.pc
    → Inv n (step i c s).mem (step i c s).pc
unfolding step
step-Inv {n} {s} i c pos lt inv =
    let mv = moved n s.pc i (act i c s.mem (s.pc i)).1 lt in
    let (token, small) = act-token inv i pos lt c (s.pc i) refl mv in
    let (readers, writer, apart) = act-readers inv i pos lt c (s.pc i) refl mv in
    let (nobody, outside) = act-outside inv i pos lt c (s.pc i) in
    record {
      token = token;
      small = small;
      place = act-place inv i pos lt c;
      local_facts = act-Local inv i pos lt c;
      no_waiters = act-no_waiters inv i pos lt c (s.pc i) refl;
      readers_is = readers;
      writer_is = writer;
      apart = apart;
      borrowed_is = act-borrowed inv i pos lt c (s.pc i) refl mv;
      calm = act-calm inv i pos lt c (s.pc i) refl;
      nobody = nobody;
      outside = outside;
    }
