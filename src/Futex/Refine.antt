-- ===== src/Futex/Refine.antt =====
-- The futex of futex/mod.rs against an abstract one: an atom, the inbox as the sequence of its
-- waiters, the newest first, and each queue as a sequence.
use native.Mathlib.Decide.{ℕ_discrete}
use mathlib.Core.Path.{subst}
use async_mutex.Common.{
  ℕ, ◌≤◌, ◌<◌, ◌≡◌, refl, sym, ◌∙◌, arith, Bool, true, false, not, ◌&&◌, some, List, [], ◌∷◌, ◌++◌,
  reverse, ltb, ◌==◌, Apart, length, inl, inr, Bool-cases, update, update_self, update-ne,
  Apart-nil, Apart-symm, Apart-append_right, Apart-append_parts, Apart-tail,
}
use async_mutex.Waiter.{Ptr, null, Links, WaiterList}
use async_mutex.Waiter.Chain.{IsList, IsAlone, SameOutside, Returns, returns, bind}
use async_mutex.Waiter.Frame.{IsList-SameOutside}
use async_mutex.Waiter.Stack.{IsStack, IsStack-SameOutside}
use async_mutex.Waiter.Splice.{remove_lem}
use async_mutex.Waiter.Pop.{pop_front_lem}
use async_mutex.Futex.{
  RawFutexAtom, RawFutex, same_atom, cmpxchg_weak, cmpxchg_enqueue_weak, pop, cancel,
}
use async_mutex.Futex.Queues.{deliver, Queues, Clear, InRange, Queues-update}
use async_mutex.Futex.Enqueue.{enqueue_lem}

pub record Abstract : Type 0 where
  pub atom : ℕ
  pub inbox : List Ptr
  pub queues : ℕ → List Ptr

module _ (len : ℕ) (queue_of : Ptr → ℕ) (fuel : ℕ) where
  pub record Represents (h : Links) (f : RawFutex) (s : Abstract) : Type 0 where
    pub atom_is : f.futex_atom.atom ≡ s.atom
    pub stack : IsStack h f.futex_atom.inbox s.inbox
    pub queues : Queues len queue_of h f.queues s.queues
    pub clear : Clear len queue_of s.queues s.inbox
    pub in_range : InRange len queue_of s.inbox
    pub short : length s.inbox ≤ fuel

  -- The inbox is taken over by the queues, and the atom replaced.
  abbrev pub taken_over : ℕ → Abstract → Abstract
  taken_over new s = record {
    atom = new;
    inbox = [];
    queues = deliver len queue_of (reverse s.inbox) s.queues;
  }

  pub nil_of_null : (h : Links) (p : Ptr) (ts : List Ptr) → IsStack h p ts → p ≡ null → ts ≡ []
  nil_of_null h p [] s e = refl
  nil_of_null h p (t ∷ ts) (q, n, (l, ne, b, o), d) e = absurd (ne (sym q ∙ e))

  -- What `cmpxchg_enqueue_weak` promises.
  abbrev pub Exchanged :
      Bool
      → RawFutex
      → RawFutexAtom
      → Abstract
      → Abstract
      → Bool × RawFutexAtom × RawFutex
      → Links
      → Type 0
  Exchanged true f current s s' (won, now, f') g =
      (won ≡ true) × (now ≡ current) × Represents g f' s'
  Exchanged false f current s s' (won, now, f') g =
      (won ≡ false) × (now ≡ f.futex_atom) × Represents g f' s

  Apart-tail_of : (x : Ptr) (xs zs : List Ptr) → Apart zs (x ∷ xs) → Apart zs xs
  Apart-tail_of x xs zs h = Apart-tail zs x xs h

  Apart-without :
      (xs : List Ptr) (w : Ptr) (ys zs : List Ptr) → Apart zs (xs ++ w ∷ ys) → Apart zs (xs ++ ys)
  Apart-without xs w ys zs h =
      let (l, r) = Apart-append_parts zs xs (w ∷ ys) h in
      Apart-append_right zs xs ys l (Apart-tail zs w ys r)

  pub same-inbox : (a b : RawFutexAtom) → same_atom a b ≡ true → a.inbox ≡ b.inbox
  same-inbox a b h = ground arith

  pub won-parts :
      (spurious : Bool) (a b : RawFutexAtom)
      → (not spurious && same_atom a b) ≡ true
      → same_atom a b ≡ true
  won-parts spurious a b h = ground arith

  module _ {h : Links} {f : RawFutex} {s : Abstract} (r : Represents h f s) where
    Represents-empty :
        (new : ℕ)
        → s.inbox ≡ []
        → Represents h
            (record f { futex_atom = record { atom = new; inbox = null } })
            (taken_over new s)
    unfolding deliver
    Represents-empty new e = record {
      atom_is = refl;
      stack = refl;
      queues =
          subst (λ ts. Queues len queue_of h f.queues (deliver len queue_of (reverse ts) s.queues))
            (sym e) r.queues;
      clear = λ i lt. Apart-nil _;
      in_range = tt;
      short = omega arith;
    }

    -- Queue `i`, which held `xs`, is replaced by a list of some of these.
    pub Represents-replace :
        {g : Links} {q : WaiterList} (i : ℕ) (xs ys : List Ptr)
        → i < len
        → s.queues i ≡ xs
        → ((zs : List Ptr) → Apart zs xs → Apart zs ys)
        → IsList g q ys
        → SameOutside xs h g
        → Represents g
            (record f { queues = update f.queues i q })
            (record s { queues = update s.queues i ys })
    Represents-replace {g} i xs ys lt e fewer rest same = record {
      atom_is = r.atom_is;
      stack =
          IsStack-SameOutside f.futex_atom.inbox s.inbox xs
            (Apart-symm xs s.inbox (subst (λ zs. Apart zs s.inbox) e (r.clear i lt))) same r.stack;
      queues = Queues-update len queue_of i ys r.queues rest λ j hj ne.
          let far : Apart (s.queues j) xs =
            subst (λ zs. Apart (s.queues j) zs) e (r.queues.apart j i hj lt ne) in
          (
            fewer (s.queues j) far,
            IsList-SameOutside (s.queues j) xs far same (r.queues.lists j hj),
          );
      clear = λ j hj. elim (ℕ_discrete j i) [
        | yes j_is ↦
            rw (j_is, update_self s.queues i ys)
              (Apart-symm s.inbox ys (
                fewer s.inbox
                  (Apart-symm xs s.inbox (subst (λ zs. Apart zs s.inbox) e (r.clear i lt)))))
        | no ne ↦ rw (update-ne s.queues i ys j ne) (r.clear j hj)
      ];
      in_range = r.in_range;
      short = r.short;
    }

    exchange :
        (b spurious : Bool) (current : RawFutexAtom) (new : ℕ)
        → (not spurious && same_atom f.futex_atom current) ≡ b
        → Returns
            (Exchanged b f current s (taken_over new s))
            (cmpxchg_enqueue_weak len queue_of fuel spurious f current new h)
    unfolding cmpxchg_enqueue_weak cmpxchg_weak
    exchange false spurious current new lost = rw lost (returns (refl, refl, r))
    exchange true spurious current new won =
        let e : f.futex_atom.inbox ≡ current.inbox =
          same-inbox f.futex_atom current (won-parts spurious f.futex_atom current won) in
        elim (Bool-cases (current.inbox == null)) [
          | inl empty ↦
              rw (won, empty)
                (returns (
                  refl,
                  refl,
                  Represents-empty new
                      (nil_of_null h f.futex_atom.inbox s.inbox r.stack (ground arith)),
                ))
          | inr full ↦
              rw (won, full)
                (bind
                  (enqueue_lem len queue_of fuel current.inbox s.inbox s.queues r.short
                    (subst (λ p. IsStack h p s.inbox) e r.stack) r.queues r.clear r.in_range)
                  λ qs g q. returns (
                    refl,
                    refl,
                    record {
                      atom_is = refl;
                      stack = refl;
                      queues = q;
                      clear = λ i lt. Apart-nil _;
                      in_range = tt;
                      short = omega arith;
                    },
                  ))
        ]

    -- `cmpxchg_enqueue_weak` on a futex that stands for `s` wins exactly if the exchange does not fail
    -- spuriously and both words are as expected. If it wins the futex stands for `s` with the new atom,
    -- an empty inbox and each waiter of the inbox, the oldest first, at the end of its queue; if not,
    -- the futex still stands for `s` and the caller gets its current state. It never faults.
    pub cmpxchg_enqueue_weak_lem :
        (spurious : Bool) (current : RawFutexAtom) (new : ℕ)
        → Returns
            (Exchanged
              (not spurious && same_atom f.futex_atom current)
              f
              current
              s
              (taken_over new s))
            (cmpxchg_enqueue_weak len queue_of fuel spurious f current new h)
    cmpxchg_enqueue_weak_lem spurious current new =
        exchange (not spurious && same_atom f.futex_atom current) spurious current new refl

    -- `pop` of a queue that holds `x` and then `xs` returns `x`, standing alone, and leaves `xs` in the
    -- queue and all else as it was.
    pub pop-Represents :
        (i : ℕ) (x : Ptr) (xs : List Ptr)
        → i < len
        → s.queues i ≡ x ∷ xs
        → Returns
            (λ (item, f') g.
              (item ≡ some x)
              × IsAlone g x
              × Represents g f' (record s { queues = update s.queues i xs }))
            (pop len queue_of fuel f i h)
    unfolding pop
    pop-Represents i x xs lt e =
        let in_range : ltb i len ≡ true = ground arith in
        let l : IsList h (f.queues i) (x ∷ xs) =
          subst (λ ys. IsList h (f.queues i) ys) e (r.queues.lists i lt) in
        rw in_range (
          bind (pop_front_lem x xs l) λ (item, q) g (got, rest, alone, same).
            returns
              (got, alone, Represents-replace i (x ∷ xs) xs lt e (Apart-tail_of x xs) rest same))

    -- `cancel` of a waiter that is in its queue takes out that waiter, and leaves all else as it was.
    pub cancel-Represents :
        (w : Ptr) (xs ys : List Ptr)
        → queue_of w < len
        → s.queues (queue_of w) ≡ xs ++ w ∷ ys
        → Returns
            (λ f' g.
              Represents g f' (record s { queues = update s.queues (queue_of w) (xs ++ ys) }))
            (cancel len queue_of fuel f w h)
    unfolding cancel
    cancel-Represents w xs ys lt e =
        let in_range : ltb (queue_of w) len ≡ true = ground arith in
        let l : IsList h (f.queues (queue_of w)) (xs ++ w ∷ ys) =
          subst (λ zs. IsList h (f.queues (queue_of w)) zs) e (r.queues.lists (queue_of w) lt) in
        rw in_range (
          bind (remove_lem xs w ys l) λ q g (rest, same). returns (
            Represents-replace (queue_of w) (xs ++ w ∷ ys) (xs ++ ys) lt e (Apart-without xs w ys)
              rest same))
