-- ===== src/FairMutex/Steps.antt =====
-- A step of task `i` of fair_mutex.rs keeps each field of `Inv`.
use async_mutex.Common.{
  ℕ, ◌+◌, ◌≤◌, ◌<◌, ◌≡◌, ◌≢◌, ◌⊎◌, refl, arith, false, [], tally, tally-update, tally-ge,
  tally-lt_of_le, update, count,
}
use async_mutex.FairMutex.{
  none, waiting, done, Shared, Pc, idle, trying, asleep, flip_load, flip, unlinking, dropped,
  borrow, looping, releasing, relock, popped, waking, leaving, newest, Choice, act,
}
use async_mutex.FairMutex.Invariant.{
  holds, reading, writing, borrowing, aims, is_done, pushed, free, bit, Local, Inv,
}
use async_mutex.FairMutex.Counts.{Moved}
use async_mutex.Tasks.Counts.{empty_of_newest, enqueue-ne_nil}

module _ {n : ℕ} {m : Shared} {pc : ℕ → Pc} (inv : Inv n m pc) (i : ℕ) (pos : i ≢ 0) (lt : i < n)
    (c : Choice) where
  abbrev pub mem' : Pc → Shared
  mem' p = (act i c m p).0

  abbrev pub pc' : Pc → ℕ → Pc
  pc' p = update pc i (act i c m p).1

  -- A waiter in the queue, in the inbox or popped is that of a task that waits.
  pub target_cases :
      (w : ℕ) (p : Pc)
      → pc w ≡ p
      → 1 + is_done (m.waker w) ≤ pushed p (m.waker w)
      → Local w m p
      → (w < n) × (m.waker w ≡ waiting)
  target_cases w p here k l = (ground (arith, inv.outside w), ground arith)

  pub target : (w : ℕ) → pc i ≡ waking w → (w < n) × (m.waker w ≡ waiting)
  target w here =
      target_cases w (pc w) refl (ground (arith, tally-ge (aims w) n pc i lt, inv.place w))
        (inv.local_facts w)

  -- No other task has the mutex.
  pub alone :
      holds (pc i) ≡ 1 → (tally holds n pc ≡ 1) × (tally is_done n m.waker ≡ 0) × (m.atom ≡ 1)
  alone h = ground (arith, tally-ge holds n pc i lt, inv.token, inv.small)

  pub act-token :
      (p : Pc)
      → pc i ≡ p
      → Moved n pc i p (act i c m p).1
      → (tally holds n (pc' p) + tally is_done n (mem' p).waker + free (mem' p).atom ≡ 1)
        × ((mem' p).atom ≤ 1)
  unfolding act
  act-token (waking w) here mv =
      let (below, waits) = target w here in
      ground (arith, tally-update is_done n m.waker w done below)
  act-token asleep here mv = ground (arith, tally-update is_done n m.waker i none lt)
  act-token dropped here mv = ground (arith, tally-update is_done n m.waker i none lt)
  act-token (trying a t) here mv = ground (
    arith,
    inv.place i,
    tally-update is_done n m.waker i none lt,
    tally-update is_done n m.waker i waiting lt,
  )
  act-token idle here mv = ground (arith, inv.place i, tally-update is_done n m.waker i none lt)
  act-token p here mv = ground arith

  pub act-readers :
      (p : Pc)
      → pc i ≡ p
      → Moved n pc i p (act i c m p).1
      → ((mem' p).readers ≡ tally reading n (pc' p))
        × (bit (mem' p).writer ≡ tally writing n (pc' p))
        × (((mem' p).writer ≡ false) ⊎ ((mem' p).readers ≡ 0))
  unfolding act
  act-readers idle here mv = ground arith
  act-readers unlinking here mv = ground (arith, tally-ge writing n pc i lt)
  act-readers leaving here mv = ground (arith, tally-ge reading n pc i lt)
  act-readers p here mv = ground arith

  pub act-borrowed :
      (p : Pc)
      → pc i ≡ p
      → Moved n pc i p (act i c m p).1
      → bit (mem' p).borrowed ≡ tally borrowing n (pc' p)
  unfolding act
  act-borrowed idle here mv = ground arith
  act-borrowed (popped w) here mv = ground (arith, tally-ge borrowing n pc i lt)
  act-borrowed (looping a t) here mv = ground (arith, tally-ge borrowing n pc i lt)
  act-borrowed p here mv = ground arith

  borrowing-le : (p : Pc) → borrowing p ≤ holds p
  borrowing-le p = ground arith

  -- Whoever is about to take the queue guard finds it free.
  pub unborrowed : holds (pc i) ≡ 1 → borrowing (pc i) ≡ 0 → m.borrowed ≡ false
  unborrowed h k =
      ground
        (arith, tally-lt_of_le borrowing holds n pc i borrowing-le lt, alone h, inv.borrowed_is)

  pub act-calm : (p : Pc) → pc i ≡ p → (mem' p).panicked ≡ false
  unfolding act
  act-calm borrow here = ground (arith, unborrowed)
  act-calm (relock a t) here = ground (arith, unborrowed)
  act-calm (waking w) here = ground (arith, target w here, inv.calm)
  act-calm p here = ground (arith, inv.calm, inv.place i, inv.local_facts i)

  pub act-no_waiters :
      (p : Pc) → pc i ≡ p → (mem' p).atom ≡ 0 → ((mem' p).inbox ≡ []) × ((mem' p).queue ≡ [])
  unfolding act
  act-no_waiters idle here = ground (arith, inv.no_waiters)
  act-no_waiters (releasing a t) here =
      ground
        (arith, inv.no_waiters, inv.local_facts i, empty_of_newest m.inbox, inv.place 0, inv.nobody)
  act-no_waiters p here = ground (arith, inv.no_waiters, alone)

  pub act-outside : (p : Pc) → (pc' p 0 ≡ idle) × ((j : ℕ) → n ≤ j → pc' p j ≡ idle)
  act-outside p = (ground (arith, inv.nobody), λ j h. ground (arith, inv.outside j))

  -- What a step can change of the things that other tasks rely on.
  pub act-waker :
      (p : Pc) (j : ℕ) → j ≢ i → ((mem' p).waker j ≡ m.waker j) ⊎ ((mem' p).waker j ≡ done)
  unfolding act
  act-waker idle j ne = ground arith
  act-waker p j ne = ground arith

  pub act-inbox :
      (p : Pc) (j : ℕ)
      → j ≢ i
      → (count j (mem' p).inbox ≡ count j m.inbox) ⊎ (count j (mem' p).inbox ≡ 0)
  unfolding act
  act-inbox idle j ne = ground arith
  act-inbox p j ne = ground arith

  pub act-queue : (p : Pc) → ((mem' p).queue ≡ m.queue) ⊎ ((holds p ≡ 1) ⊎ (writing p ≡ 1))
  unfolding act
  act-queue idle = ground arith
  act-queue p = ground arith

  inbox-empty : newest m.inbox ≡ 0 → count i m.inbox ≡ 0
  inbox-empty h = ground (arith, empty_of_newest m.inbox h, inv.place 0, inv.nobody)

  pub act-Local_self : (p : Pc) → pc i ≡ p → Local i (mem' p) (act i c m p).1
  unfolding act
  act-Local_self idle here = ground (arith, inv.local_facts i)
  act-Local_self flip_load here = ground (arith, inv.local_facts i, inbox-empty)
  act-Local_self (flip a t) here = ground (arith, inv.local_facts i, inbox-empty)
  act-Local_self (looping a t) here =
      ground (arith, inv.local_facts i, enqueue-ne_nil m.queue m.inbox)
  act-Local_self p here = ground (arith, inv.local_facts i)
