-- ===== src/Futex/Many.antt =====
-- `pop_many` and `is_empty` of futex/mod.rs against the abstract futex.
use mathlib.Core.Path.{subst}
use async_mutex.Common.{
  ℕ, ◌≤◌, ◌<◌, ◌≡◌, refl, arith, true, false, some, [], ◌∷◌, List, take, drop, length, ltb, update,
  Apart, Apart-append_parts, take-append-drop,
}
use async_mutex.Waiter.{Ptr, Links, usize_max}
use async_mutex.Waiter.Chain.{IsList, SameOutside, Returns, returns, bind}
use async_mutex.Waiter.Many.{pop_front_many_lem}
use async_mutex.Futex.{RawFutex, pop_many, is_empty}
use async_mutex.Waiter.Push.{is_empty-IsList}
use async_mutex.Futex.Refine.{Abstract, Represents, Represents-replace}

Apart-drop : (n : ℕ) (xs zs : List Ptr) → Apart zs xs → Apart zs (drop n xs)
Apart-drop n xs zs h =
    (Apart-append_parts zs (take n xs) (drop n xs) (rw (take-append-drop n xs) h)).1

-- `pop_many` of a queue returns, as a list, the first `n` waiters of the queue, or all of them if there
-- are fewer, and leaves the others in the queue and all else as it was. The queue has at most
-- `usize::MAX` waiters.
pub pop_many-Represents :
    (len : ℕ) (queue_of : Ptr → ℕ) (fuel : ℕ) {h : Links} {f : RawFutex} {s : Abstract}
    → Represents len queue_of fuel h f s
    → (i n : ℕ) → i < len
    → length (s.queues i) ≤ usize_max
    → Returns
        (λ (list, f') g.
          IsList g list (take n (s.queues i))
          × Represents len queue_of fuel g f'
              (record s { queues = update s.queues i (drop n (s.queues i)) }))
        (pop_many len queue_of fuel f n i h)
unfolding pop_many
pop_many-Represents len queue_of fuel {h} {f} {s} r i n lt fits =
    let in_range : ltb i len ≡ true = ground arith in
    rw in_range (
      bind (pop_front_many_lem (s.queues i) n (r.queues.lists i lt) fits)
        λ (list, q) g (front, rest, same). returns (
          front,
          Represents-replace len queue_of fuel r i (s.queues i) (drop n (s.queues i)) lt refl
              (Apart-drop n (s.queues i)) rest
              (subst (λ xs. SameOutside xs h g) (take-append-drop n (s.queues i)) same),
        ))

-- `is_empty` of a queue says whether the queue has no waiters, and changes nothing.
pub is_empty-Represents :
    (len : ℕ) (queue_of : Ptr → ℕ) (fuel : ℕ) {h : Links} {f : RawFutex} {s : Abstract}
    → Represents len queue_of fuel h f s
    → (i : ℕ) → i < len
    → is_empty len queue_of fuel f i h ≡ some ((elim (s.queues i) [ [] ↦ true | x ∷ r ↦ false ]), h)
unfolding is_empty
is_empty-Represents len queue_of fuel {h} {f} {s} r i lt =
    let in_range : ltb i len ≡ true = ground arith in
    rw (in_range, is_empty-IsList (s.queues i) (r.queues.lists i lt)) refl
