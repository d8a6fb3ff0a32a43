-- ===== src/RwLock/Bounds.antt =====
-- How many readers and writers the atom of rwlock.rs counts: at most one for each task, so that the
-- halves of the packed word do not overflow.
use async_mutex.Common.{
  ℕ, zero, suc, ◌+◌, ◌≤◌, ◌<◌, ◌^◌, ◌≡◌, refl, arith, List, [], ◌∷◌, tally, tally_at, tally-zero,
  tally-suc, tally_at-zero, tally_at-suc, tally-ge, count, length, ◌==◌, if◌then◌else◌,
}
use native.Mathlib.Decide.{dec_lt}
use async_mutex.RwLock.{
  Waker, Shared, Pc, asleep, dropping, flip_load, flip, unlinking, waking_all, only,
  write_queue_index, stored,
}
use async_mutex.RwLock.Invariant.{
  reads, writes, aims, is_done, pushed, woken_reader, woken_writer, Inv,
}

total : ℕ → (ℕ → ℕ) → ℕ
total zero g = 0
total (suc n) g = g n + total n g

total-add : (n : ℕ) (f g : ℕ → ℕ) → total n (λ j. f j + g j) ≡ total n f + total n g
unfolding total
total-add zero f g = refl
total-add (suc n) f g = omega (arith, total-add n f g)

total-le : (n : ℕ) (f g : ℕ → ℕ) → ((j : ℕ) → f j ≤ g j) → total n f ≤ total n g
unfolding total
total-le zero f g h = omega arith
total-le (suc n) f g h = omega (arith, total-le n f g h, h n)

total_le_size : (n : ℕ) (f : ℕ → ℕ) → ((j : ℕ) → f j ≤ 1) → total n f ≤ n
unfolding total
total_le_size zero f h = omega arith
total_le_size (suc n) f h = omega (arith, total_le_size n f h, h n)

total-ge : (n : ℕ) (f : ℕ → ℕ) (at : ℕ) → at < n → f at ≤ total n f
unfolding total
total-ge zero f at h = absurd (omega arith)
total-ge (suc n) f at h = elim (dec_lt at n) [
  | yes below ↦ omega (arith, total-ge n f at below)
  | no last ↦ ground arith
]

-- A sequence of numbers below `n` is as long as they occur in it.
total-count :
    (n : ℕ) (ws : List ℕ)
    → ((j : ℕ) → 1 ≤ count j ws → j < n)
    → length ws ≤ total n (λ j. count j ws)
total-count n [] h = omega arith
total-count n (w ∷ ws) h =
    let here : 1 ≤ (if w == w then 1 else 0) = ground arith in
    omega (
      arith,
      total-add n (λ j. if w == j then 1 else 0) (λ j. count j ws),
      total-le n (λ j. (if w == j then 1 else 0) + count j ws) (λ j. count j (w ∷ ws))
          (λ j. ground arith),
      total-ge n (λ j. if w == j then 1 else 0) w (h w (ground arith)),
      here,
      total-count n ws (λ j k. h j (ground arith)),
    )

length-only : (q : ℕ → ℕ) (k : ℕ) (ws : List ℕ) → length (only q k ws) ≤ length ws
length-only q k [] = omega arith
length-only q k (w ∷ ws) = ground (arith, length-only q k ws)

-- The task is in no queue.
abbrev free : Pc → ℕ
free asleep = 0
free dropping = 0
free flip_load = 0
free (flip _ _ _) = 0
free unlinking = 0
free _ = 1

free_lem : (p : Pc) (k : Waker) → free p + pushed p k ≤ 1
free_lem p k = ground arith

held :
    (n : ℕ) (p : Pc)
    → ((j : ℕ) → 1 ≤ aims j p → j < n)
    → reads p + writes p ≤ free p + total n (λ j. aims j p)
held n (waking_all list) h = omega (arith, total-count n list h)
held n p h = ground arith

stored_self : (m : Shared) → m.readers < 2 ^ 32 → m.writers < 2 ^ 32 → stored m ≡ m
stored_self m r w = ground arith

module _ {n : ℕ} {q : ℕ → ℕ} {m : Shared} {pc : ℕ → Pc} (inv : Inv q n m pc) where
  held_by_all :
      (k : ℕ)
      → k ≤ n
      → tally reads k pc + tally writes k pc
        ≤ total k (λ j. free (pc j)) + total n (λ j. tally (aims j) k pc)
  unfolding total
  held_by_all zero h = omega (arith, tally-zero reads pc, tally-zero writes pc)
  held_by_all (suc k) h = omega (
    arith,
    tally-suc reads k pc,
    tally-suc writes k pc,
    held n (pc k) (λ j one. ground (arith, tally-ge (aims j) n pc k, inv.place j, inv.outside j)),
    total-add n (λ j. aims j (pc k)) (λ j. tally (aims j) k pc),
    total-le n (λ j. aims j (pc k) + tally (aims j) k pc) (λ j. tally (aims j) (suc k) pc)
        (λ j. omega (arith, tally-suc (aims j) k pc)),
    held_by_all k (omega arith),
  )

  woken_by_all :
      (k : ℕ)
      → (tally_at (woken_reader q) k m.waker ≤ total k (λ j. is_done (m.waker j)))
        × (tally_at (woken_writer q) k m.waker ≤ total k (λ j. is_done (m.waker j)))
  unfolding total
  woken_by_all zero = (
    omega (arith, tally_at-zero (woken_reader q) m.waker),
    omega (arith, tally_at-zero (woken_writer q) m.waker),
  )
  woken_by_all (suc k) =
      let (r, w) = woken_by_all k in
      (
        ground (arith, r, tally_at-suc (woken_reader q) k m.waker),
        ground (arith, w, tally_at-suc (woken_writer q) k m.waker),
      )

  -- The places of all tasks.
  places :
      total n (λ j. free (pc j))
        + total n (λ j. count j m.inbox)
        + total n (λ j. count j m.write_queue)
        + total n (λ j. tally (aims j) n pc)
        + total n (λ j. is_done (m.waker j))
      ≤ n
  places =
      let f1 : ℕ → ℕ = λ j. tally (aims j) n pc + is_done (m.waker j) in
      let f2 : ℕ → ℕ = λ j. count j m.write_queue + f1 j in
      let f3 : ℕ → ℕ = λ j. count j m.inbox + f2 j in
      omega (
        arith,
        total-add n (λ j. tally (aims j) n pc) (λ j. is_done (m.waker j)),
        total-add n (λ j. count j m.write_queue) f1,
        total-add n (λ j. count j m.inbox) f2,
        total-add n (λ j. free (pc j)) f3,
        total_le_size n (λ j. free (pc j) + f3 j)
            (λ j. omega (arith, free_lem (pc j) (m.waker j), inv.place j)),
      )

  -- The atom counts at most as many readers as there are tasks, and at most as many writers.
  pub at_most : (m.readers ≤ n) × (m.writers ≤ n)
  at_most =
      let (r, w) = woken_by_all n in
      let inboxed = total-count n m.inbox (λ j one. ground (arith, inv.place j, inv.outside j)) in
      let queued =
        total-count n m.write_queue (λ j one. ground (arith, inv.place j, inv.outside j)) in
      (
        omega (arith, places, r, held_by_all n (omega arith), inv.readers_is),
        omega (
          arith,
          places,
          w,
          inboxed,
          queued,
          held_by_all n (omega arith),
          length-only q write_queue_index m.inbox,
          inv.writers_is,
        ),
      )

  -- With fewer than 2 ^ 32 tasks, the packing loses nothing.
  pub stored-Inv : n < 2 ^ 32 → Inv q n (stored m) pc
  stored-Inv few = let (r, w) = at_most in rw (stored_self m (omega arith) (omega arith)) inv
