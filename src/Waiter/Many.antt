-- ===== src/Waiter/Many.antt =====
-- `pop_front_many` of futex/waiter.rs.
use async_mutex.Common.{
  ℕ, zero, suc, ◌≤◌, ◌≡◌, refl, ◌∙◌, false, some, List, [], ◌∷◌, ◌++◌, arith, ◌==◌, inl, inr,
  Bool-cases, ==_of_ne, NotIn, last, take, drop, length, take-append-drop, take-all, drop-all,
  update-ne, append-nil, NotIn-append_parts, Distinct-append_parts, NotIn-single_of_Apart,
  NotIn-last,
}
use async_mutex.Waiter.{
  Ptr, null, usize_max, Links, WaiterList, prev, next, set_next, set_prev, new, skip,
  pop_front_many,
}
use async_mutex.Waiter.Chain.{first, Chain, IsList, SameOutside, Returns, returns}
use async_mutex.Waiter.Frame.{
  Chain-write_next, Chain-write_prev, Chain-write_first, Chain-write_last, Chain-append_parts,
  last-ne_null, last-ne, last-append,
}

skip_lem :
    (n : ℕ) (h : Links) (before : Ptr) (xs : List Ptr)
    → Chain h before xs null
    → skip n (first xs null) h ≡ some (first (drop n xs) null, h)
unfolding skip next
skip_lem zero h before xs c = refl
skip_lem (suc n) h before [] c = refl
skip_lem (suc n) h before (x ∷ xs) c = rw (==_of_ne x null c.1, c.0, c.3) (skip_lem n h x xs c.4)

-- The list `xs ++ ys` is cut in two.
abbrev pub Cut : Links → List Ptr → List Ptr → WaiterList × WaiterList → Links → Type 0
Cut h xs ys (r, m) g = IsList g r xs × IsList g m ys × SameOutside (xs ++ ys) h g

new-IsList : (h : Links) → IsList h new []
new-IsList h = record { head_is = refl; tail_is = refl; chain = tt; distinct = tt }

module _ {h : Links} {l : WaiterList} (n : ℕ) (few : (n == usize_max) ≡ false) where
  cut_lem :
      (xs ys : List Ptr)
      → IsList h l (xs ++ ys)
      → skip n l.head h ≡ some (first ys null, h)
      → Returns (Cut h xs ys) (pop_front_many l n h)
  unfolding pop_front_many prev set_next set_prev
  cut_lem xs [] s e =
      rw (few, e) (returns (rw append-nil at s, new-IsList h, λ a o. (refl, refl, refl)))
  cut_lem [] (y ∷ ys) s e =
      rw (few, e, ==_of_ne y null s.chain.1, s.chain.0, s.chain.2)
        (returns (new-IsList h, s, λ a o. (refl, refl, refl)))
  cut_lem (x ∷ xs) (y ∷ ys) s e =
      let (front, rest) = Chain-append_parts h null (x ∷ xs) (y ∷ ys) null s.chain in
      let (ne, alive, ends) = last-ne_null h null x xs y front in
      let (left, right, apart) = Distinct-append_parts (x ∷ xs) (y ∷ ys) s.distinct in
      let out : NotIn y (x ∷ xs) = NotIn-single_of_Apart (x ∷ xs) y ys apart in
      rw
        (
          few,
          e,
          ==_of_ne y null rest.1,
          rest.0,
          rest.2,
          ==_of_ne (last x xs) null ne,
          alive,
          rest.0,
        )
        (returns (
          record {
            head_is = s.head_is;
            tail_is = refl;
            chain =
                Chain-write_prev _ y null null (x ∷ xs) null out
                  (Chain-write_last h null null x xs y left front);
            distinct = left;
          },
          record {
            head_is = refl;
            tail_is = s.tail_is ∙ last-append null (x ∷ xs) (y ∷ ys);
            chain = Chain-write_first _ null (last x xs) y ys null right.0 (
                Chain-write_next h (last x xs) null (last x xs) (y ∷ ys) null
                  (NotIn-last x xs (y ∷ ys) apart) rest);
            distinct = right;
          },
          λ a o.
              let (p, q) = NotIn-append_parts a (x ∷ xs) (y ∷ ys) o in
              (
                refl,
                update-ne h.next (last x xs) null a (last-ne a x xs p.0 p.1),
                update-ne h.prev y null a q.0,
              ),
        ))

-- `pop_front_many` takes the first `n` waiters, in order, as a list of their own, and leaves the
-- rest: for each `n`, `usize::MAX` for all of them included. No access is invalid, and no waiter
-- outside the list is written to.
pub pop_front_many_lem :
    {h : Links} {l : WaiterList} (xs : List Ptr) (n : ℕ)
    → IsList h l xs
    → length xs ≤ usize_max
    → Returns (Cut h (take n xs) (drop n xs)) (pop_front_many l n h)
unfolding pop_front_many
pop_front_many_lem {h} {l} xs n s fits = elim (Bool-cases (n == usize_max)) [
  | inl all ↦
      let big : length xs ≤ n = ground arith in
      rw (all, take-all n xs big, drop-all n xs big)
        (returns (s, new-IsList h, λ a o. (refl, refl, refl)))
  | inr few ↦
      cut_lem n few (take n xs) (drop n xs) (rw (take-append-drop n xs) s)
        (rw s.head_is (skip_lem n h null xs s.chain))
]
