-- ===== src/Waiter/Splice.antt =====
-- `remove` of futex/waiter.rs.
use async_mutex.Common.{
  ◌≡◌, refl, ◌∙◌, sym, some, List, [], ◌∷◌, ◌++◌, ==_of_ne, ==_refl, NotIn, last, Apart, update-ne,
  NotIn-append_parts, NotIn-single_of_Apart, Distinct-append_parts, Distinct-append, Apart-tail,
  NotIn-last, append-nil,
}
use async_mutex.Waiter.{
  Ptr, null, Links, WaiterList, next, prev, set_next, set_prev, remove_left, remove_right, remove,
}
use async_mutex.Waiter.Chain.{first, Chain, IsList, IsAlone, SameOutside, Returns, returns, bind}
use async_mutex.Waiter.Frame.{
  last-ne, last-ne_null, last-append, first-append, Chain-write_next, Chain-write_prev,
  Chain-write_first, Chain-write_last, Chain-append, Chain-append_parts,
}

-- The state between the two halves of `remove`: `xs` no longer leads to `w`.
record Unhooked (h : Links) (l : WaiterList) (xs : List Ptr) (w : Ptr) (ys : List Ptr)
    (m : WaiterList) (g : Links) : Type 0 where
  head_is : m.head ≡ first xs (first ys null)
  tail_is : m.tail ≡ l.tail
  front : Chain g null xs (first ys null)
  back : Chain g w ys null
  same : SameOutside xs h g

module _ {h : Links} {l : WaiterList} where
  left_lem :
      (xs : List Ptr) (w : Ptr) (ys : List Ptr)
      → IsList h l (xs ++ w ∷ ys)
      → Returns (Unhooked h l xs w ys) (remove_left l w (last null xs) (first ys null) h)
  unfolding remove_left set_next
  left_lem [] w ys s =
      rw (s.head_is, ==_refl w)
        (returns (record {
          head_is = refl;
          tail_is = refl;
          front = tt;
          back = s.chain.4;
          same = λ a o. (refl, refl, refl);
        }))
  left_lem (x ∷ xs) w ys s =
      let (front, rest) = Chain-append_parts h null (x ∷ xs) (w ∷ ys) null s.chain in
      let (ne, alive, ends) = last-ne_null h null x xs w front in
      let (left, right, apart) = Distinct-append_parts (x ∷ xs) (w ∷ ys) s.distinct in
      rw (==_of_ne (last x xs) null ne, alive)
        (returns (record {
          head_is = s.head_is;
          tail_is = refl;
          front = Chain-write_last h (first ys null) null x xs w left front;
          back =
              Chain-write_next h (last x xs) (first ys null) w ys null
                (NotIn-last x xs (w ∷ ys) apart).1 rest.4;
          same = λ a o.
              (refl, update-ne h.next (last x xs) (first ys null) a (last-ne a x xs o.0 o.1), refl);
        }))

  right_lem :
      {m : WaiterList} {g : Links} (xs : List Ptr) (w : Ptr) (ys : List Ptr)
      → IsList h l (xs ++ w ∷ ys)
      → Unhooked h l xs w ys m g
      → Returns
          (λ k f. IsList f k (xs ++ ys) × SameOutside (xs ++ w ∷ ys) h f)
          (remove_right m w (last null xs) (first ys null) g)
  unfolding remove_right set_prev
  right_lem {m} {g} xs w [] s u =
      let t : m.tail ≡ w = u.tail_is ∙ s.tail_is ∙ last-append null xs (w ∷ []) in
      let (left, right, apart) = Distinct-append_parts xs (w ∷ []) s.distinct in
      rw (t, ==_refl w, append-nil)
        (returns (
          record { head_is = u.head_is; tail_is = refl; chain = u.front; distinct = left },
          λ a o. u.same a (NotIn-append_parts a xs (w ∷ []) o).0,
        ))
  right_lem {m} {g} xs w (y ∷ ys) s u =
      let (left, right, apart) = Distinct-append_parts xs (w ∷ y ∷ ys) s.distinct in
      let (alive, ne, p, n, rest) = u.back in
      let apart' : Apart xs (y ∷ ys) = Apart-tail xs w (y ∷ ys) apart in
      let out : NotIn y xs = NotIn-single_of_Apart xs y ys apart' in
      rw (==_of_ne y null ne, alive)
        (returns (
          record {
            head_is = u.head_is ∙ sym (first-append xs (y ∷ ys) null);
            tail_is =
                u.tail_is
                ∙ s.tail_is
                ∙ last-append null xs (w ∷ y ∷ ys)
                ∙ sym (last-append null xs (y ∷ ys));
            chain =
                Chain-append _ null xs (y ∷ ys) null
                  (Chain-write_prev g y (last null xs) null xs y out u.front)
                  (Chain-write_first g (last null xs) w y ys null right.1.0 u.back);
            distinct = Distinct-append xs (y ∷ ys) left right.1 apart';
          },
          λ a o.
              let (l, r) = NotIn-append_parts a xs (w ∷ y ∷ ys) o in
              let (p, q, t) = u.same a l in (p, q, update-ne g.prev y (last null xs) a r.1.0 ∙ t),
        ))

  -- `remove` of a waiter in the list takes out that waiter and no other, and keeps the order of the
  -- rest; no access is invalid, and no waiter outside the list is written to.
  pub remove_lem :
      (xs : List Ptr) (w : Ptr) (ys : List Ptr)
      → IsList h l (xs ++ w ∷ ys)
      → Returns (λ k f. IsList f k (xs ++ ys) × SameOutside (xs ++ w ∷ ys) h f) (remove l w h)
  unfolding remove prev next
  remove_lem xs w ys s =
      let (front, (alive, ne, p, n, rest)) = Chain-append_parts h null xs (w ∷ ys) null s.chain in
      rw (alive, p, alive, n) (bind (left_lem xs w ys s) (λ m g u. right_lem xs w ys s u))

  -- `remove` of a waiter that stands alone, outside the list, changes nothing: so it does no harm to
  -- cancel a wait whose waiter has left the queue.
  pub remove-IsAlone :
      (xs : List Ptr) (w : Ptr)
      → IsList h l xs
      → IsAlone h w
      → NotIn w xs
      → remove l w h ≡ some (l, h)
  unfolding remove remove_left remove_right prev next
  remove-IsAlone [] w s (alive, ne, p, n) out = rw (
    alive,
    p,
    alive,
    n,
    s.head_is,
    s.tail_is,
    ==_of_ne null w (λ e. ne (sym e)),
    ==_of_ne null w (λ e. ne (sym e)),
  )
  remove-IsAlone (x ∷ xs) w s (alive, ne, p, n) out = rw (
    alive,
    p,
    alive,
    n,
    s.head_is,
    ==_of_ne x w (λ e. out.0 (sym e)),
    s.tail_is,
    ==_of_ne (last x xs) w (λ e. last-ne w x xs out.0 out.1 (sym e)),
  )
