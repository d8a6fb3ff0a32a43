-- ===== src/Waiter/Pop.antt =====
-- `pop_front` of futex/waiter.rs.
use async_mutex.Common.{
  ◌≡◌, refl, ◌∙◌, sym, false, Option, none, some, List, [], ◌∷◌, ◌==◌, ==_of_ne, ==_refl, NotIn,
  last, update_self, update-ne,
}
use async_mutex.Waiter.{Ptr, null, Links, WaiterList, next, set_next, set_prev, pop_front}
use async_mutex.Waiter.Chain.{IsList, IsAlone, SameOutside, Returns, returns}
use async_mutex.Waiter.Frame.{last-ne, Chain-write_next, Chain-write_first}

-- What `pop_front` of a list that begins with `x` leaves.
abbrev pub Popped : Links → Ptr → List Ptr → Option Ptr × WaiterList → Links → Type 0
Popped h x xs (o, m) g = (o ≡ some x) × IsList g m xs × IsAlone g x × SameOutside (x ∷ xs) h g

module _ {h : Links} {l : WaiterList} where
  -- `pop_front` of an empty list returns nothing and changes nothing.
  pub pop_front-nil : IsList h l [] → pop_front l h ≡ some ((none, l), h)
  unfolding pop_front
  pop_front-nil s = rw s.head_is

  pop_front-one : (x : Ptr) → IsList h l (x ∷ []) → Returns (Popped h x []) (pop_front l h)
  unfolding pop_front next set_next
  pop_front-one x s =
      let (alive, ne, back, ends, rest) = s.chain in
      rw (s.head_is, s.tail_is, ==_of_ne x null ne, alive, alive, ends, ==_refl x, alive)
        (returns (
          refl,
          record { head_is = refl; tail_is = refl; chain = tt; distinct = tt },
          (alive, ne, back, update_self h.next x null),
          λ a o. (refl, update-ne h.next x null a o.0, refl),
        ))

  pop_front-more :
      (x y : Ptr) (xs : List Ptr)
      → IsList h l (x ∷ y ∷ xs)
      → Returns (Popped h x (y ∷ xs)) (pop_front l h)
  unfolding pop_front next set_next set_prev
  pop_front-more x y xs s =
      let (alive, ne, back, ends, rest) = s.chain in
      let (alive', ne', back', ends', rest') = rest in
      let out : NotIn x (y ∷ xs) = s.distinct.0 in
      let t : (last y xs == x) ≡ false =
        ==_of_ne (last y xs) x (λ e. last-ne x y xs out.0 out.1 (sym e)) in
      rw
        (
          s.head_is,
          s.tail_is,
          ==_of_ne x null ne,
          alive,
          alive,
          ends,
          t,
          ==_of_ne y null ne',
          alive',
          alive,
        )
        (returns (
          refl,
          record {
            head_is = refl;
            tail_is = refl;
            chain =
                Chain-write_next _ x null null (y ∷ xs) null out
                  (Chain-write_first h null x y xs null s.distinct.1.0 rest);
            distinct = s.distinct.1;
          },
          (alive, ne, update-ne h.prev y null x out.0 ∙ back, update_self h.next x null),
          λ a o. (refl, update-ne h.next x null a o.0, update-ne h.prev y null a o.1.0),
        ))

  -- `pop_front` of a list that begins with `x` returns `x`, with both its links cut, and leaves the
  -- rest of the list; no access is invalid, and no waiter outside the list is written to.
  pub pop_front_lem :
      (x : Ptr) (xs : List Ptr) → IsList h l (x ∷ xs) → Returns (Popped h x xs) (pop_front l h)
  pop_front_lem x [] s = pop_front-one x s
  pop_front_lem x (y ∷ xs) s = pop_front-more x y xs s
