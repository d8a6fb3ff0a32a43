-- ===== src/Waiter/Push.antt =====
-- `push_back`, `append` and `is_empty` of futex/waiter.rs.
use async_mutex.Common.{
  ◌≡◌, refl, ◌∙◌, true, false, ◌&&◌, none, List, [], ◌∷◌, ◌++◌, arith, ◌==◌, NotIn, last,
  NotIn-append_parts, NotIn-single_of_Apart, NotIn-last, Apart, Distinct-append, Apart-single,
  update_self, update-ne,
}
use async_mutex.Waiter.{
  Ptr, null, Links, WaiterList, new, set_next, set_prev, push_back, append, is_empty,
}
use async_mutex.Waiter.Chain.{IsList, IsAlone, SameOutside, Returns, returns}
use async_mutex.Waiter.Frame.{
  last-append, last-ne, last-ne_null, Chain-write_next, Chain-write_prev, Chain-write_last,
  Chain-write_first, Chain-append,
}

-- A list is empty exactly when its sequence is, and then both ends are null.
pub is_empty-IsList :
    {h : Links} {l : WaiterList} (xs : List Ptr)
    → IsList h l xs
    → is_empty l ≡ (elim xs [ [] ↦ true | x ∷ r ↦ false ])
is_empty-IsList [] s = ground arith
is_empty-IsList (x ∷ xs) s = ground arith

not-both_null :
    {h : Links} {l : WaiterList} {x : Ptr} {xs : List Ptr}
    → IsList h l (x ∷ xs)
    → ((l.head == null) && (l.tail == null)) ≡ false
not-both_null s = ground arith

-- The waiters that an operation on `xs` and `w` may write to.
module _ {h : Links} {l : WaiterList} where
  push_back-cons :
      (x : Ptr) (xs : List Ptr) (w : Ptr)
      → IsList h l (x ∷ xs)
      → IsAlone h w
      → NotIn w (x ∷ xs)
      → Returns
          (λ m g. IsList g m ((x ∷ xs) ++ w ∷ []) × SameOutside ((x ∷ xs) ++ w ∷ []) h g)
          (push_back l w h)
  unfolding push_back set_next set_prev
  push_back-cons x xs w s alone out =
      let t : l.tail ≡ last x xs = s.tail_is in
      let (ne, alive, ends) = last-ne_null h null x xs null s.chain in
      rw (not-both_null s, t, alive, alone.0)
        (returns (
          record {
            head_is = s.head_is;
            tail_is = rw (last-append x xs (w ∷ []));
            chain =
                Chain-append _ null (x ∷ xs) (w ∷ []) null
                  (Chain-write_prev _ w (last x xs) null (x ∷ xs) w out
                    (Chain-write_last h w null x xs null s.distinct s.chain))
                  (
                    alone.0,
                    alone.1,
                    update_self h.prev w (last x xs),
                    update-ne h.next (last x xs) w w (last-ne w x xs out.0 out.1) ∙ alone.3,
                    tt,
                  );
            distinct =
                Distinct-append (x ∷ xs) (w ∷ []) s.distinct (tt, tt) (Apart-single (x ∷ xs) w out);
          },
          λ a o.
              let (l, r) = NotIn-append_parts a (x ∷ xs) (w ∷ []) o in
              (
                refl,
                update-ne h.next (last x xs) w a (last-ne a x xs l.0 l.1),
                update-ne h.prev w (last x xs) a r.0,
              ),
        ))

  -- `push_back` of a waiter that stands alone puts it at the end: the list then stands for
  -- `xs ++ [w]`, no access was invalid, and no other waiter was written to.
  pub push_back_lem :
      (xs : List Ptr) (w : Ptr)
      → IsList h l xs
      → IsAlone h w
      → NotIn w xs
      → Returns
          (λ m g. IsList g m (xs ++ w ∷ []) × SameOutside (xs ++ w ∷ []) h g)
          (push_back l w h)
  unfolding push_back
  push_back_lem [] w s alone out =
      rw (s.head_is, s.tail_is)
        (returns (
          record {
            head_is = refl;
            tail_is = refl;
            chain = (alone.0, alone.1, alone.2, alone.3, tt);
            distinct = (tt, tt);
          },
          λ a o. (refl, refl, refl),
        ))
  push_back_lem (x ∷ xs) w s alone out = push_back-cons x xs w s alone out

  append-cons :
      {k : WaiterList} (x : Ptr) (xs : List Ptr) (y : Ptr) (ys : List Ptr)
      → IsList h l (x ∷ xs)
      → IsList h k (y ∷ ys)
      → Apart (x ∷ xs) (y ∷ ys)
      → Returns
          (λ m g. IsList g m ((x ∷ xs) ++ y ∷ ys) × SameOutside ((x ∷ xs) ++ y ∷ ys) h g)
          (append l k h)
  unfolding append set_next set_prev
  append-cons {k} x xs y ys s r apart =
      let t : l.tail ≡ last x xs = s.tail_is in
      let e : k.head ≡ y = r.head_is in
      let (ne, alive, ends) = last-ne_null h null x xs null s.chain in
      let back : NotIn y (x ∷ xs) = NotIn-single_of_Apart (x ∷ xs) y ys apart in
      let front : NotIn (last x xs) (y ∷ ys) = NotIn-last x xs (y ∷ ys) apart in
      rw (not-both_null s, t, e, alive, r.chain.0)
        (returns (
          record {
            head_is = s.head_is;
            tail_is = rw (last-append x xs (y ∷ ys)) r.tail_is;
            chain =
                Chain-append _ null (x ∷ xs) (y ∷ ys) null
                  (Chain-write_prev _ y (last x xs) null (x ∷ xs) y back
                    (Chain-write_last h y null x xs null s.distinct s.chain))
                  (Chain-write_first _ (last x xs) null y ys null r.distinct.0
                    (Chain-write_next h (last x xs) y null (y ∷ ys) null front r.chain));
            distinct = Distinct-append (x ∷ xs) (y ∷ ys) s.distinct r.distinct apart;
          },
          λ a o.
              let (l, r) = NotIn-append_parts a (x ∷ xs) (y ∷ ys) o in
              (
                refl,
                update-ne h.next (last x xs) y a (last-ne a x xs l.0 l.1),
                update-ne h.prev y (last x xs) a r.0,
              ),
        ))

  -- `append` of a list that is not empty is concatenation.
  pub append_lem :
      {k : WaiterList} (xs : List Ptr) (y : Ptr) (ys : List Ptr)
      → IsList h l xs
      → IsList h k (y ∷ ys)
      → Apart xs (y ∷ ys)
      → Returns (λ m g. IsList g m (xs ++ y ∷ ys) × SameOutside (xs ++ y ∷ ys) h g) (append l k h)
  unfolding append
  append_lem [] y ys s r apart = rw (s.head_is, s.tail_is) (returns (r, λ a o. (refl, refl, refl)))
  append_lem (x ∷ xs) y ys s r apart = append-cons x xs y ys s r apart

  -- `append` of an empty list to one that is not accesses a null pointer.
  pub append-new :
      (x : Ptr) (xs : List Ptr) → IsList h l (x ∷ xs) → h.live null ≡ false → append l new h ≡ none
  unfolding append set_next set_prev
  append-new x xs s dead =
      let t : l.tail ≡ last x xs = s.tail_is in
      let (ne, alive, ends) = last-ne_null h null x xs null s.chain in
      rw (not-both_null s, t, alive, dead)
