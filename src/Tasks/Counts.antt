-- ===== src/Tasks/Counts.antt =====
-- How often a waiter occurs in the inbox and the queues.
use async_mutex.Common.{
  ℕ, ◌+◌, ◌-◌, ◌≤◌, ◌≡◌, ◌≢◌, refl, ap, arith, List, [], ◌∷◌, ◌++◌, reverse, reverse_aux, count,
  count-append,
}
use async_mutex.Tasks.{newest, erase}

pub count-reverse_aux :
    (j : ℕ) (xs ys : List ℕ) → count j (reverse_aux xs ys) ≡ count j xs + count j ys
count-reverse_aux j [] ys = omega arith
count-reverse_aux j (x ∷ xs) ys = omega (arith, count-reverse_aux j xs (x ∷ ys))

pub count-enqueue : (j : ℕ) (q xs : List ℕ) → count j (q ++ reverse xs) ≡ count j q + count j xs
count-enqueue j q xs = omega (arith, count-append j q (reverse xs), count-reverse_aux j xs [])

pub count-erase_self : (i : ℕ) (q : List ℕ) → count i (erase i q) ≡ count i q - 1
count-erase_self i [] = omega arith
count-erase_self i (w ∷ ws) = ground (arith, count-erase_self i ws)

pub count-erase_ne : (i j : ℕ) (q : List ℕ) → j ≢ i → count j (erase i q) ≡ count j q
count-erase_ne i j [] ne = refl
count-erase_ne i j (w ∷ ws) ne = ground (arith, count-erase_ne i j ws ne)

pub empty_of_newest : (ws : List ℕ) → newest ws ≡ 0 → count 0 ws ≡ 0 → ws ≡ []
empty_of_newest [] h k = refl
empty_of_newest (w ∷ ws) h k = absurd (ground arith)

pub count-newest : (ws : List ℕ) → newest ws ≢ 0 → 1 ≤ count (newest ws) ws
count-newest [] h = absurd (h refl)
count-newest (w ∷ ws) h = ground arith

pub enqueue-ne_nil : (q ws : List ℕ) → newest ws ≢ 0 → q ++ reverse ws ≢ []
enqueue-ne_nil q ws h e =
    absurd
      (omega (arith, count-newest ws h, count-enqueue (newest ws) q ws, ap (count (newest ws)) e))
