-- ===== src/Waiter/Iter.antt =====
-- The iterators of futex/waiter.rs: `WaiterHandleIter` over a list of waiters that stays linked, and
-- `WaiterHandleIntoIter`, which takes it apart.
use async_mutex.Common.{
  ℕ, zero, suc, ◌<◌, ◌≡◌, refl, ◌∙◌, ap, Option, none, some, List, [], ◌∷◌, arith, ◌==◌,
  if◌then◌else◌, ==_of_ne, length,
}
use async_mutex.Waiter.{
  Ptr, null, Links, WaiterList, waiter_list, Cmd, fault, pure, ◌>>=◌, next, pop_front,
}
use async_mutex.Waiter.Chain.{first, Chain, IsList, IsAlone, SameOutside, Returns, returns, bind}
use async_mutex.Waiter.Pop.{pop_front-nil, pop_front_lem}

-- `WaiterHandleIter::next`: the item, and the iterator after it.
unfoldable pub iter_next : WaiterList → Cmd (Option Ptr × WaiterList)
iter_next raw = if raw.head == null then pure (none, raw) else do
  after ← next raw.head
  pure (some raw.head, waiter_list after (if after == null then null else raw.tail))

-- A `for` loop over an iterator, with `step` for its `next`: the items in order.
collect : (WaiterList → Cmd (Option Ptr × WaiterList)) → ℕ → WaiterList → Cmd (List Ptr)
collect step zero raw = fault
collect step (suc k) raw = do
  (item, rest) ← step raw
  elim item [ none ↦ pure [] | some x ↦ (do xs ← collect step k rest; pure (x ∷ xs)) ]

-- `for waiter in &list`
unfoldable pub iter : ℕ → WaiterList → Cmd (List Ptr)
unfolding collect
iter = collect iter_next

-- `for waiter in list`
unfoldable pub into_iter : ℕ → WaiterList → Cmd (List Ptr)
unfolding collect
into_iter = collect pop_front

iter-Chain :
    (k : ℕ) (h : Links) (before : Ptr) (raw : WaiterList) (xs : List Ptr)
    → raw.head ≡ first xs null
    → Chain h before xs null
    → length xs < k
    → iter k raw h ≡ some (xs, h)
unfolding iter iter_next next
iter-Chain zero h before raw xs e c fuel = absurd (omega arith)
iter-Chain (suc k) h before raw [] e c fuel = rw e
iter-Chain (suc k) h before raw (x ∷ xs) e c fuel = rw (
  e,
  ==_of_ne x null c.1,
  c.0,
  c.3,
  iter-Chain k h x (waiter_list (first xs null) (if first xs null == null then null else raw.tail))
      xs refl c.4 (omega arith),
)

-- The loop `for waiter in &list` visits the waiters of the list in order, each once, and changes
-- nothing; one round more than there are waiters is enough fuel.
pub iter_lem :
    {h : Links} {l : WaiterList} (xs : List Ptr) (k : ℕ)
    → IsList h l xs
    → length xs < k
    → iter k l h ≡ some (xs, h)
iter_lem {h} {l} xs k s fuel = iter-Chain k h null l xs s.head_is s.chain fuel

abbrev pub AllAlone : Links → List Ptr → Type 0
AllAlone h [] = Unit
AllAlone h (x ∷ xs) = IsAlone h x × AllAlone h xs

-- The loop `for waiter in list` hands out the waiters of the list in order, each once, with all
-- links cut at the end; one round more than there are waiters is enough fuel, no access is invalid,
-- and no waiter outside the list is written to.
pub into_iter_lem :
    {h : Links} {l : WaiterList} (xs : List Ptr) (k : ℕ)
    → IsList h l xs
    → length xs < k
    → Returns (λ ys g. (ys ≡ xs) × AllAlone g xs × SameOutside xs h g) (into_iter k l h)
unfolding into_iter
into_iter_lem xs zero s fuel = absurd (omega arith)
into_iter_lem {h} {l} [] (suc k) s fuel =
    rw (pop_front-nil s) (returns (refl, tt, λ a o. (refl, refl, refl)))
into_iter_lem {h} {l} (x ∷ xs) (suc k) s fuel =
    bind (pop_front_lem x xs s) λ (item, rest) g (got, r, (alive, ne, p, n), same). rw got (
      bind (into_iter_lem xs k r (omega arith)) λ ys f (e, alone, same').
        let (a, b, c) = same' x s.distinct.0 in
        returns (
          ap (λ zs. x ∷ zs) e,
          ((a ∙ alive, ne, c ∙ p, b ∙ n), alone),
          λ w o.
              let (i, j, k) = same w o in
              let (i', j', k') = same' w o.1 in (i' ∙ i, j' ∙ j, k' ∙ k),
        ))
