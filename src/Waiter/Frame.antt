-- ===== src/Waiter/Frame.antt =====
-- How the links of futex/waiter.rs behave under single writes: a write away from a chain keeps it,
-- a write at an end moves that end, and chains are joined and split.
use async_mutex.Common.{
  ◌≡◌, ◌≢◌, refl, ◌∙◌, sym, true, update_self, update-ne, List, [], ◌∷◌, ◌++◌, update, NotIn, last,
  Distinct, Apart,
}
use async_mutex.Waiter.{Ptr, null, Links, WaiterList}
use async_mutex.Waiter.Chain.{first, Chain, IsList, SameOutside}

abbrev pub write_next : Ptr → Ptr → Links → Links
write_next p q h = record h { next = update h.next p q }

abbrev pub write_prev : Ptr → Ptr → Links → Links
write_prev p q h = record h { prev = update h.prev p q }

pub first-append : (xs ys : List Ptr) (d : Ptr) → first (xs ++ ys) d ≡ first xs (first ys d)
first-append [] ys d = refl
first-append (x ∷ xs) ys d = refl

pub last-append : (d : Ptr) (xs ys : List Ptr) → last d (xs ++ ys) ≡ last (last d xs) ys
last-append d [] ys = refl
last-append d (x ∷ xs) ys = last-append x xs ys

-- The last waiter of a chain is not null, and differs from whatever is not in the chain.
pub last-ne : (a x : Ptr) (xs : List Ptr) → a ≢ x → NotIn a xs → a ≢ last x xs
last-ne a x [] h k = h
last-ne a x (y ∷ xs) h k = last-ne a y xs k.0 k.1

pub first-ne_null :
    (h : Links) (before : Ptr) (xs : List Ptr) (after : Ptr)
    → Chain h before xs after
    → first xs null ≡ null
    → xs ≡ []
first-ne_null h before [] after c e = refl
first-ne_null h before (x ∷ xs) after c e = absurd (c.1 e)

pub last-ne_null :
    (h : Links) (before x : Ptr) (xs : List Ptr) (after : Ptr)
    → Chain h before (x ∷ xs) after
    → (last x xs ≢ null) × (h.live (last x xs) ≡ true) × (h.next (last x xs) ≡ after)
last-ne_null h before x [] after c = (c.1, c.0, c.3)
last-ne_null h before x (y ∷ xs) after c = last-ne_null h x y xs after c.4

module _ (h : Links) where
  pub Chain-write_next :
      (a v before : Ptr) (xs : List Ptr) (after : Ptr)
      → NotIn a xs
      → Chain h before xs after
      → Chain (write_next a v h) before xs after
  Chain-write_next a v before [] after n c = tt
  Chain-write_next a v before (x ∷ xs) after n c = (
    c.0,
    c.1,
    c.2,
    update-ne h.next a v x (λ e. n.0 (sym e)) ∙ c.3,
    Chain-write_next a v x xs after n.1 c.4,
  )

  pub Chain-write_prev :
      (a v before : Ptr) (xs : List Ptr) (after : Ptr)
      → NotIn a xs
      → Chain h before xs after
      → Chain (write_prev a v h) before xs after
  Chain-write_prev a v before [] after n c = tt
  Chain-write_prev a v before (x ∷ xs) after n c = (
    c.0,
    c.1,
    update-ne h.prev a v x (λ e. n.0 (sym e)) ∙ c.2,
    c.3,
    Chain-write_prev a v x xs after n.1 c.4,
  )

  -- The last waiter is made to point at `v`.
  pub Chain-write_last :
      (v before x : Ptr) (xs : List Ptr) (after : Ptr)
      → Distinct (x ∷ xs)
      → Chain h before (x ∷ xs) after
      → Chain (write_next (last x xs) v h) before (x ∷ xs) v
  Chain-write_last v before x [] after d c = (c.0, c.1, c.2, update_self h.next x v, tt)
  Chain-write_last v before x (y ∷ xs) after d c =
      let ne : x ≢ last y xs = last-ne x y xs d.0.0 d.0.1 in
      (
        c.0,
        c.1,
        c.2,
        update-ne h.next (last y xs) v x ne ∙ c.3,
        Chain-write_last v x y xs after d.1 c.4,
      )

  -- The first waiter is made to point back at `v`.
  pub Chain-write_first :
      (v before x : Ptr) (xs : List Ptr) (after : Ptr)
      → NotIn x xs
      → Chain h before (x ∷ xs) after
      → Chain (write_prev x v h) v (x ∷ xs) after
  Chain-write_first v before x xs after n c =
      (c.0, c.1, update_self h.prev x v, c.3, Chain-write_prev x v x xs after n c.4)

  pub Chain-append :
      (before : Ptr) (xs ys : List Ptr) (after : Ptr)
      → Chain h before xs (first ys after)
      → Chain h (last before xs) ys after
      → Chain h before (xs ++ ys) after
  Chain-append before [] ys after c d = d
  Chain-append before (x ∷ xs) ys after c d =
      (c.0, c.1, c.2, rw (first-append xs ys after) c.3, Chain-append x xs ys after c.4 d)

  pub Chain-append_parts :
      (before : Ptr) (xs ys : List Ptr) (after : Ptr)
      → Chain h before (xs ++ ys) after
      → Chain h before xs (first ys after) × Chain h (last before xs) ys after
  Chain-append_parts before [] ys after c = (tt, c)
  Chain-append_parts before (x ∷ xs) ys after c =
      let (l, r) = Chain-append_parts x xs ys after c.4 in
      ((c.0, c.1, c.2, rw (first-append xs ys after) at c.3, l), r)

  -- A chain away from the waiters of `ws` is kept by whatever changes only those.
  pub Chain-SameOutside :
      {g : Links} (before : Ptr) (xs : List Ptr) (after : Ptr) (ws : List Ptr)
      → Apart xs ws
      → SameOutside ws h g
      → Chain h before xs after
      → Chain g before xs after
  Chain-SameOutside before [] after ws a same c = tt
  Chain-SameOutside before (x ∷ xs) after ws a same c =
      let (l, n, p) = same x a.0 in
      (l ∙ c.0, c.1, p ∙ c.2, n ∙ c.3, Chain-SameOutside x xs after ws a.1 same c.4)

-- A list away from the waiters of `ws` is kept by whatever changes only those.
pub IsList-SameOutside :
    {h g : Links} {l : WaiterList} (xs ws : List Ptr)
    → Apart xs ws
    → SameOutside ws h g
    → IsList h l xs
    → IsList g l xs
IsList-SameOutside {h} xs ws a same s = record {
  head_is = s.head_is;
  tail_is = s.tail_is;
  chain = Chain-SameOutside h null xs null ws a same s.chain;
  distinct = s.distinct;
}
