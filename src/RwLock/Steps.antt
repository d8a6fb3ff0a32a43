-- ===== src/RwLock/Steps.antt =====
-- A step of task `i` of rwlock.rs keeps the guards of the futex, and does not panic.
use async_mutex.Common.{
  List-cases, ℕ, ◌+◌, ◌≤◌, ◌<◌, ◌≡◌, ◌⊎◌, refl, ap, inl, inr, reverse, arith, Bool, false, List, [],
  ◌∷◌, ◌++◌, tally, tally_at, tally-update, tally-ge, tally-lt_of_le, tally-add, update, length,
  inl, inr,
}
use mathlib.Core.Path.{subst}
use async_mutex.RwLock.Sums.{length-enqueue}
use async_mutex.RwLock.{
  waiting, Shared, Pc, idle, trying, unlinking, borrow, handing, borrow_write, looping, relock,
  waking_all, waking, read_queue_index, write_queue_index, only, Choice, advance,
}
use async_mutex.RwLock.Sums.{length-enqueue}
use async_mutex.RwLock.Invariant.{
  reads, writes, guarding, cancelling, borrowing, aims, is_done, pushed, bit, write_mode,
  woken_writer, Local, Inv,
}

-- Task `i` goes from `p` to `p'`.
pub record Moved (n : ℕ) (pc : ℕ → Pc) (i : ℕ) (p p' : Pc) : Type 0 where
  pub readers : tally reads n (update pc i p') + reads p ≡ tally reads n pc + reads p'
  pub writers : tally writes n (update pc i p') + writes p ≡ tally writes n pc + writes p'
  pub guards : tally guarding n (update pc i p') + guarding p ≡ tally guarding n pc + guarding p'
  pub cancellers :
      tally cancelling n (update pc i p') + cancelling p ≡ tally cancelling n pc + cancelling p'
  pub borrowers :
      tally borrowing n (update pc i p') + borrowing p ≡ tally borrowing n pc + borrowing p'
  pub reader : reads p ≤ tally reads n pc
  pub writer : writes p ≤ tally writes n pc
  pub guard : guarding p ≤ tally guarding n pc
  pub canceller : cancelling p ≤ tally cancelling n pc
  pub borrower : borrowing p ≤ tally borrowing n pc

pub moved : (n : ℕ) (pc : ℕ → Pc) (i : ℕ) (p' : Pc) → i < n → Moved n pc i (pc i) p'
moved n pc i p' lt = record {
  readers = tally-update reads n pc i p' lt;
  writers = tally-update writes n pc i p' lt;
  guards = tally-update guarding n pc i p' lt;
  cancellers = tally-update cancelling n pc i p' lt;
  borrowers = tally-update borrowing n pc i p' lt;
  reader = tally-ge reads n pc i lt;
  writer = tally-ge writes n pc i lt;
  guard = tally-ge guarding n pc i lt;
  canceller = tally-ge cancelling n pc i lt;
  borrower = tally-ge borrowing n pc i lt;
}

-- The queues once the inbox is taken over.
abbrev pub writers_of : (ℕ → ℕ) → Shared → List ℕ
writers_of q m = m.write_queue ++ only q write_queue_index (reverse m.inbox)

abbrev pub readers_of : (ℕ → ℕ) → Shared → List ℕ
readers_of q m = m.read_queue ++ only q read_queue_index (reverse m.inbox)

module _ {n : ℕ} {q : ℕ → ℕ} (two : (j : ℕ) → q j < 2) {m : Shared} {pc : ℕ → Pc}
    (inv : Inv q n m pc) (i : ℕ) (lt : i < n) (c : Choice) where
  abbrev pub mem' : Pc → Shared
  mem' p = (advance q i c m p).0

  abbrev pub pc' : Pc → ℕ → Pc
  pc' p = update pc i (advance q i c m p).1

  abbrev pub Moves : Pc → Type 0
  Moves p = Moved n pc i p (advance q i c m p).1

  -- A waiter that the task has popped is that of another task that waits.
  target_cases :
      (w : ℕ) (p : Pc)
      → pc w ≡ p
      → 1 + is_done (m.waker w) ≤ pushed p (m.waker w)
      → Local q w m p
      → (w < n) × (m.waker w ≡ waiting)
  target_cases w p here k l = (ground (arith, inv.outside w), ground arith)

  pub target : (w : ℕ) → 1 ≤ aims w (pc i) → (w < n) × (m.waker w ≡ waiting)
  target w aimed =
      target_cases w (pc w) refl (ground (arith, tally-ge (aims w) n pc i lt, inv.place w))
        (inv.local_facts w)

  -- The atom counts the writers that wait.
  counted :
      m.writers ≡ tally writes n pc + tally_at (woken_writer q) n m.waker + length (writers_of q m)
  counted = omega (arith, inv.writers_is, length-enqueue q write_queue_index m.write_queue m.inbox)

  write_mode-pos : (r w : ℕ) → 1 ≤ write_mode r w → (r ≡ 0) × (1 ≤ w) × (write_mode r w ≡ 1)
  write_mode-pos r w h = ground arith

  write_mode-readers : (r w : ℕ) → 1 ≤ r → write_mode r w ≡ 0
  write_mode-readers r w h = ground arith

  -- While a task has the lock for writing, there are no readers.
  pub as_writer :
      writes (pc i) ≡ 1
      → (m.readers ≡ 0)
        × (1 ≤ m.writers)
        × (tally writes n pc + tally_at (woken_writer q) n m.waker ≡ 1)
        × (tally reads n pc ≡ 0)
  as_writer h =
      let (r, w, one) =
        write_mode-pos m.readers m.writers (omega (arith, tally-ge writes n pc i lt, inv.token)) in
      (r, w, omega (arith, inv.token), omega (arith, inv.readers_is))

  -- While a task has the lock for reading, no task has it for writing.
  pub as_reader :
      1 ≤ reads (pc i)
      → (1 ≤ m.readers) × (tally writes n pc ≡ 0) × (tally_at (woken_writer q) n m.waker ≡ 0)
  as_reader h =
      let some : 1 ≤ m.readers = omega (arith, inv.readers_is, tally-ge reads n pc i lt) in
      let none_writes = write_mode-readers m.readers m.writers some in
      (some, omega (arith, inv.token), omega (arith, inv.token))

  -- `read_unlock` hands the lock to a writer: one is queued once the inbox is taken over.
  pub handing_cases :
      (r w t : ℕ)
      → pc i ≡ handing r w t
      → (m.readers ≡ 1) × (1 ≤ m.writers) × ((v : ℕ) × (vs : List ℕ) × (writers_of q m ≡ v ∷ vs))
  handing_cases r w t here =
      let (one, some) = subst (Local q i m) here (inv.local_facts i) in
      elim (List-cases (writers_of q m)) [
        | inl e ↦ absurd (omega (arith, counted, ap length e, as_reader (rw here (omega arith))))
        | inr found ↦ (one, some, found)
      ]

  -- `write_unlock` finds itself the last writer, with none queued, or one is queued.
  pub looping_cases :
      (b : Bool) (r w t : ℕ)
      → pc i ≡ looping b r w t
      → ((m.readers ≡ 0) × (m.writers ≡ 1) × (writers_of q m ≡ []))
        ⊎ ((m.readers ≡ 0)
            × (2 ≤ m.writers)
            × ((v : ℕ) × (vs : List ℕ) × (writers_of q m ≡ v ∷ vs)))
  looping_cases b r w t here =
      let (r_is, w_is, one, no_reads) = as_writer (rw here refl) in
      elim (List-cases (writers_of q m)) [
        | inl e ↦ inl (r_is, omega (arith, counted, ap length e), e)
        | inr (v, vs, e) ↦ inr (r_is, omega (arith, counted, ap length e), (v, vs, e))
      ]

  pub advance-guards :
      (p : Pc)
      → pc i ≡ p
      → Moves p
      → ((mem' p).guards ≡ tally guarding n (pc' p))
        × (bit (mem' p).locked ≡ tally cancelling n (pc' p))
        × (((mem' p).locked ≡ false) ⊎ ((mem' p).guards ≡ 0))
  unfolding advance
  advance-guards idle here mv =
      ground (arith, mv.guards, mv.cancellers, inv.guards_is, inv.locked_is, inv.apart)
  advance-guards unlinking here mv = ground (
    arith,
    mv.guards,
    mv.cancellers,
    mv.guard,
    mv.canceller,
    inv.guards_is,
    inv.locked_is,
    inv.apart,
    inv.local_facts i,
  )
  advance-guards p here mv = ground (
    arith, mv.guards, mv.cancellers, mv.guard, mv.canceller, inv.guards_is, inv.locked_is,
    inv.apart,
  )

  has : Pc → ℕ
  has p = reads p + writes p

  borrowing-le : (p : Pc) → borrowing p ≤ has p
  unfolding has
  borrowing-le p = ground arith

  -- Whoever is about to take the queue guard finds it free.
  unborrowed :
      has (pc i) ≡ 1
      → borrowing (pc i) ≡ 0
      → tally reads n pc + tally writes n pc ≡ 1
      → m.borrowed ≡ false
  unfolding has
  unborrowed h k one = ground (
    arith,
    tally-lt_of_le borrowing has n pc i borrowing-le lt,
    tally-add reads writes n pc,
    inv.borrowed_is,
  )

  pub advance-borrowed :
      (p : Pc) → pc i ≡ p → Moves p → bit (mem' p).borrowed ≡ tally borrowing n (pc' p)
  unfolding advance
  advance-borrowed idle here mv = ground (arith, mv.borrowers, inv.borrowed_is)
  advance-borrowed (trying r w t) here mv = ground (arith, mv.borrowers, inv.borrowed_is)
  advance-borrowed (handing r w t) here mv =
      let (one, some, (v, vs, e)) = handing_cases r w t here in
      ground (arith, mv.borrowers, mv.borrower, inv.borrowed_is)
  advance-borrowed (looping b r w t) here mv = elim (looping_cases b r w t here) [
    | inl (r_is, one, e) ↦
        ground (arith, mv.borrowers, mv.borrower, inv.borrowed_is, inv.local_facts i)
    | inr (r_is, more, (v, vs, e)) ↦
        ground (arith, mv.borrowers, mv.borrower, inv.borrowed_is, inv.local_facts i)
  ]
  advance-borrowed p here mv =
      ground (arith, mv.borrowers, mv.borrower, inv.borrowed_is, inv.local_facts i)

  free_guard :
      borrowing (pc i) ≡ 0
      → (writes (pc i) ≡ 1) ⊎ ((reads (pc i) ≡ 1) × (m.readers ≡ 1))
      → m.borrowed ≡ false
  unfolding has
  free_guard k (inl w) =
      let (r_is, w_is, one, no_reads) = as_writer w in
      unborrowed (omega (arith, tally-ge reads n pc i lt)) k
        (omega (arith, tally-ge writes n pc i lt))
  free_guard k (inr (r, one)) =
      let (some, no_writes, no_woken) = as_reader (omega arith) in
      unborrowed (omega (arith, tally-ge writes n pc i lt)) k
        (omega (arith, inv.readers_is, tally-ge reads n pc i lt))

  pub advance-calm : (p : Pc) → pc i ≡ p → (mem' p).panicked ≡ false
  unfolding advance
  advance-calm (trying r w t) here = ground (arith, inv.calm, inv.place i)
  advance-calm (borrow r w t) here =
      let free =
        free_guard (rw here refl)
          (inr (rw here refl, (subst (Local q i m) here (inv.local_facts i)).0)) in
      ground (arith, inv.calm, free)
  advance-calm borrow_write here =
      let free = free_guard (rw here refl) (inl (rw here refl)) in ground (arith, inv.calm, free)
  advance-calm (relock b r w t) here =
      let free = free_guard (rw here refl) (inl (rw here refl)) in ground (arith, inv.calm, free)
  advance-calm (handing r w t) here =
      let (one, some, (v, vs, e)) = handing_cases r w t here in ground (arith, inv.calm)
  advance-calm (looping b r w t) here = elim (looping_cases b r w t here) [
    | inl (r_is, one, e) ↦ ground (arith, inv.calm, inv.local_facts i)
    | inr (r_is, more, (v, vs, e)) ↦ ground (arith, inv.calm, inv.local_facts i)
  ]
  advance-calm (waking w) here =
      let (below, waits) = target w (rw here (ground arith)) in ground (arith, inv.calm)
  advance-calm (waking_all (w ∷ ws)) here =
      let (below, waits) = target w (rw here (ground arith)) in ground (arith, inv.calm)
  advance-calm p here = ground (arith, inv.calm, inv.local_facts i)
