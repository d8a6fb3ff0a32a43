-- ===== src/RwLock/Sums.antt =====
-- What the queues of rwlock.rs hold after waiters are delivered, unlinked or popped.
use async_mutex.Common.{
  ℕ, ◌+◌, ◌≤◌, ◌<◌, ◌≡◌, ◌≢◌, refl, arith, List, [], ◌∷◌, ◌++◌, reverse, reverse_aux, count,
  count-append, length-append, length, ◌==◌, if◌then◌else◌,
}
use async_mutex.Tasks.Counts.{count-reverse_aux}
use async_mutex.RwLock.{erase, only, read_queue_index, write_queue_index, newest}
use async_mutex.RwLock.Invariant.{AllIn}

pub length-erase :
    (i : ℕ) (ws : List ℕ) → length (erase i ws) + 1 ≡ length ws + (if count i ws == 0 then 1 else 0)
length-erase i [] = refl
length-erase i (w ∷ ws) = ground (arith, length-erase i ws)

pub length_zero : (ws : List ℕ) → length ws ≡ 0 → ws ≡ []
length_zero [] h = refl
length_zero (w ∷ ws) h = absurd (omega arith)

module _ (q : ℕ → ℕ) where
  length-only-reverse_aux :
      (k : ℕ) (xs ys : List ℕ)
      → length (only q k (reverse_aux xs ys)) ≡ length (only q k xs) + length (only q k ys)
  length-only-reverse_aux k [] ys = omega arith
  length-only-reverse_aux k (x ∷ xs) ys = ground (arith, length-only-reverse_aux k xs (x ∷ ys))

  -- A queue after the inbox was taken over.
  pub length-enqueue :
      (k : ℕ) (ws xs : List ℕ)
      → length (ws ++ only q k (reverse xs)) ≡ length ws + length (only q k xs)
  length-enqueue k ws xs =
      omega (arith, length-append ws (only q k (reverse xs)), length-only-reverse_aux k xs [])

  count-only :
      (k j : ℕ) (xs : List ℕ) → count j (only q k xs) ≡ (if q j == k then count j xs else 0)
  count-only k j [] = ground arith
  count-only k j (x ∷ xs) = ground (arith, count-only k j xs)

  pub count-enqueue :
      (k j : ℕ) (ws xs : List ℕ)
      → count j (ws ++ only q k (reverse xs)) ≡ count j ws + (if q j == k then count j xs else 0)
  count-enqueue k j ws xs = ground (
    arith,
    count-append j ws (only q k (reverse xs)),
    count-only k j (reverse xs),
    count-reverse_aux j xs [],
  )

  AllIn-only : (k : ℕ) (xs : List ℕ) → AllIn q k (only q k xs)
  AllIn-only k [] = tt
  AllIn-only k (x ∷ xs) = ground (arith, AllIn-only k xs)

  AllIn-append : (k : ℕ) (xs ys : List ℕ) → AllIn q k xs → AllIn q k ys → AllIn q k (xs ++ ys)
  AllIn-append k [] ys h g = g
  AllIn-append k (x ∷ xs) ys h g = (h.0, AllIn-append k xs ys h.1 g)

  pub AllIn-enqueue :
      (k : ℕ) (ws xs : List ℕ) → AllIn q k ws → AllIn q k (ws ++ only q k (reverse xs))
  AllIn-enqueue k ws xs h = AllIn-append k ws (only q k (reverse xs)) h (AllIn-only k (reverse xs))

  pub AllIn-erase : (k i : ℕ) (ws : List ℕ) → AllIn q k ws → AllIn q k (erase i ws)
  AllIn-erase k i [] h = tt
  AllIn-erase k i (w ∷ ws) h = ground (arith, AllIn-erase k i ws h.1)

  -- A waiter of one queue does not occur in the other.
  pub AllIn-count : (k j : ℕ) (ws : List ℕ) → AllIn q k ws → q j ≢ k → count j ws ≡ 0
  AllIn-count k j [] h ne = refl
  AllIn-count k j (w ∷ ws) h ne = ground (arith, AllIn-count k j ws h.1 ne)

  -- An inbox without writers that is not empty holds readers.
  pub some_reader :
      ((j : ℕ) → q j < 2)
      → (xs : List ℕ) → newest xs ≢ 0
      → length (only q write_queue_index xs) ≡ 0
      → 1 ≤ length (only q read_queue_index xs)
  some_reader two [] h e = absurd (h refl)
  some_reader two (x ∷ xs) h e = ground (arith, two x)
