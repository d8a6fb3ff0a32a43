-- ===== src/Futex/Requeue.antt =====
-- `requeue` of futex/mod.rs against the abstract futex.
use mathlib.Core.Path.{subst}
use native.Mathlib.Decide.{ℕ_discrete}
use async_mutex.Common.{
  ℕ, suc, ◌+◌, ◌≤◌, ◌≡◌, refl, sym, ◌∙◌, ap₂, arith, count, Bool, true, false, List, [], ◌∷◌,
  reverse_aux, length, last, NotIn, Apart, Distinct, update, update-ne, ==_of_ne, Apart-single,
  length-reverse_aux, NotIn-reverse_aux, Distinct-reverse_aux, NotIn-single_of_Apart,
}
use async_mutex.Waiter.{Ptr, null, Links, WaiterList, waiter_list, set_prev}
use async_mutex.Waiter.Chain.{first, Chain, IsList, SameOutside, Returns, returns, bind}
use async_mutex.Waiter.Frame.{write_prev, Chain-write_first, last-ne_null}
use async_mutex.Waiter.Stack.{IsStack, Older, IsStack-SameOutside}
use async_mutex.Waiter.Iter.{iter_lem}
use async_mutex.Futex.{
  RawFutexAtom, RawFutex, same_atom, cmpxchg_weak, requeue, requeue_loop, own_all,
}
use async_mutex.Futex.Queues.{Queues-SameOutside, InRange, Clear}
use async_mutex.Futex.Refine.{Abstract, Represents}
use async_mutex.Futex.Push.{IsStack-first, IsStack-Older}
use async_mutex.Futex.Flip.{SomeFair}

-- A list that is linked both ways, put before a stack, is a stack.
Chain-Older :
    (h : Links) (before : Ptr) (xs ws : List Ptr)
    → Chain h before xs null
    → before ≡ first ws null
    → Older h.live h.prev ws
    → Older h.live h.prev (reverse_aux xs ws)
Chain-Older h before [] ws c e o = o
Chain-Older h before (x ∷ xs) ws (alive, ne, back, on, c) e o =
    Chain-Older h x xs (x ∷ ws) c refl (alive, ne, back ∙ e, o)

first-reverse_aux : (y : Ptr) (xs ws : List Ptr) → first (reverse_aux xs (y ∷ ws)) null ≡ last y xs
first-reverse_aux y [] ws = refl
first-reverse_aux y (x ∷ xs) ws = first-reverse_aux x xs (y ∷ ws)

IsStack-of :
    (h : Links) (p : Ptr) (ts : List Ptr)
    → p ≡ first ts null
    → h.next p ≡ null
    → Older h.live h.prev ts
    → Distinct ts
    → IsStack h p ts
IsStack-of h p [] e ends o d = e
IsStack-of h p (t ∷ ts) e ends o d = (e, subst (λ q. h.next q ≡ null) e ends, o, d)

same_atom_refl : (a : RawFutexAtom) → same_atom a a ≡ true
same_atom_refl a = ground arith

module _ (len : ℕ) (queue_of : Ptr → ℕ) (fuel : ℕ) where
  InRange-reverse_aux :
      (xs ws : List Ptr)
      → InRange len queue_of xs
      → InRange len queue_of ws
      → InRange len queue_of (reverse_aux xs ws)
  InRange-reverse_aux [] ws a b = b
  InRange-reverse_aux (x ∷ xs) ws a b = InRange-reverse_aux xs (x ∷ ws) a.1 (a.0, b)

  Apart-reverse_aux :
      (zs xs ws : List Ptr) → Apart zs xs → Apart zs ws → Apart zs (reverse_aux xs ws)
  Apart-reverse_aux [] xs ws a b = tt
  Apart-reverse_aux (z ∷ zs) xs ws a b =
      (NotIn-reverse_aux z xs ws a.0 b.0, Apart-reverse_aux zs xs ws a.1 b.1)

  -- The waiters `xs` come before those of the inbox, the last of them being the newest.
  abbrev pub requeued : List Ptr → Abstract → Abstract
  requeued xs s = record s { inbox = reverse_aux xs s.inbox }

  -- The waiters of `xs` are in no list of the futex, and there is fuel for them.
  pub record IsOutside (s : Abstract) (xs : List Ptr) : Type 0 where
    pub clear : Clear len queue_of s.queues xs
    pub apart : Apart xs s.inbox
    pub in_range : InRange len queue_of xs
    pub short : length xs + length s.inbox ≤ fuel

  module _ {f : RawFutex} {s : Abstract} (x : Ptr) (xs : List Ptr) (out : IsOutside s (x ∷ xs))
      (distinct : Distinct (x ∷ xs)) where
    -- The write to the first waiter is not seen by the futex.
    Represents-relink :
        {h : Links} (p : Ptr)
        → Represents len queue_of fuel h f s
        → Represents len queue_of fuel (write_prev x p h) f s
    Represents-relink {h} p r =
        let same : SameOutside (x ∷ []) h (write_prev x p h) =
          λ a o. (refl, refl, update-ne h.prev x p a o.0) in
        record {
          atom_is = r.atom_is;
          stack =
              IsStack-SameOutside f.futex_atom.inbox s.inbox (x ∷ [])
                (Apart-single s.inbox x out.apart.0) same r.stack;
          queues =
              Queues-SameOutside len queue_of (x ∷ [])
                (λ i lt.
                  Apart-single (s.queues i) x
                    (NotIn-single_of_Apart (s.queues i) x xs (out.clear i lt)))
                same r.queues;
          clear = r.clear;
          in_range = r.in_range;
          short = r.short;
        }

    Represents-requeued :
        {h : Links}
        → Represents len queue_of fuel h f s
        → Chain h f.futex_atom.inbox (x ∷ xs) null
        → Represents len queue_of fuel h
            (record f { futex_atom = record { atom = f.futex_atom.atom; inbox = last x xs } })
            (requeued (x ∷ xs) s)
    Represents-requeued {h} r c =
        let (older, apart_inbox) = IsStack-Older h f.futex_atom.inbox s.inbox r.stack in
        let (ne, alive, ends) = last-ne_null h f.futex_atom.inbox x xs null c in
        record {
          atom_is = r.atom_is;
          stack =
              IsStack-of h (last x xs) (reverse_aux (x ∷ xs) s.inbox)
                (sym (first-reverse_aux x xs s.inbox)) ends
                (Chain-Older h f.futex_atom.inbox (x ∷ xs) s.inbox c
                  (IsStack-first h f.futex_atom.inbox s.inbox r.stack) older)
                (Distinct-reverse_aux (x ∷ xs) s.inbox distinct apart_inbox out.apart);
          queues = r.queues;
          clear = λ i lt.
              Apart-reverse_aux (s.queues i) (x ∷ xs) s.inbox (out.clear i lt) (r.clear i lt);
          in_range = InRange-reverse_aux (x ∷ xs) s.inbox out.in_range r.in_range;
          short = omega (arith, length-reverse_aux (x ∷ xs) s.inbox, out.short);
        }

    requeue_loop-Represents :
        (attempts : List Bool)
        → SomeFair attempts
        → {h : Links} (before : Ptr) → Represents len queue_of fuel h f s
        → Chain h before (x ∷ xs) null
        → Returns
            (λ g k. Represents len queue_of fuel k g (requeued (x ∷ xs) s))
            (requeue_loop attempts f (waiter_list x (last x xs)) f.futex_atom h)
    unfolding requeue_loop cmpxchg_weak set_prev
    requeue_loop-Represents [] fair before r c = elim fair [ ]
    requeue_loop-Represents (true ∷ more) fair {h} before r c = rw c.0 (
        requeue_loop-Represents more fair f.futex_atom.inbox
          (Represents-relink f.futex_atom.inbox r)
          (Chain-write_first h f.futex_atom.inbox before x xs null distinct.0 c))
    requeue_loop-Represents (false ∷ more) fair {h} before r c =
        rw (c.0, same_atom_refl f.futex_atom)
          (returns (
            Represents-requeued (Represents-relink f.futex_atom.inbox r)
              (Chain-write_first h f.futex_atom.inbox before x xs null distinct.0 c)))

  -- `xs` have the futex `self`, and no other waiter has got another.
  pub record Owned (self : ℕ) (xs : List Ptr) (owner owner' : Ptr → ℕ) : Type 0 where
    pub moved : (w : Ptr) → 1 ≤ count w xs → owner' w ≡ self
    pub kept : (w : Ptr) → NotIn w xs → owner' w ≡ owner w

  own_all_self :
      (self : ℕ) (xs : List Ptr) (owner : Ptr → ℕ) (w : Ptr)
      → owner w ≡ self
      → own_all self xs owner w ≡ self
  own_all_self self [] owner w h = h
  own_all_self self (x ∷ xs) owner w h = own_all_self self xs (update owner x self) w (ground arith)

  own_all-Owned :
      (self : ℕ) (xs : List Ptr) (owner : Ptr → ℕ) → Owned self xs owner (own_all self xs owner)
  own_all-Owned self [] owner = record { moved = λ w h. absurd (omega arith); kept = λ w h. refl }
  own_all-Owned self (x ∷ xs) owner =
      let rest = own_all-Owned self xs (update owner x self) in
      record {
        moved = λ w h. elim (ℕ_discrete w x) [
          | yes e ↦ own_all_self self xs (update owner x self) w (ground arith)
          | no ne ↦ rest.moved w (ground arith)
        ];
        kept = λ w h. rest.kept w h.1 ∙ update-ne owner x self w h.0;
      }

  -- `requeue` of a list of waiters that are in no list of the futex, which stands for `s`, returns, as
  -- long as one of its attempts does not fail for no reason. The waiters then are in the inbox, the last
  -- of them as the newest, before those that were there, and have this futex as theirs; the atom, the
  -- queues and the futex of every other waiter are as before. Nothing else happens to the futex in
  -- between.
  pub requeue-Represents :
      {h : Links} {f : RawFutex} {s : Abstract} {list : WaiterList}
      → Represents len queue_of fuel h f s
      → (xs : List Ptr) → IsList h list xs
      → IsOutside s xs
      → (attempts : List Bool) → SomeFair attempts
      → (self : ℕ) (owner : Ptr → ℕ)
      → Returns
          (λ (owner', g) k.
            Owned self xs owner owner' × Represents len queue_of fuel k g (requeued xs s))
          (requeue (suc fuel) attempts self owner f list h)
  unfolding requeue
  requeue-Represents r [] l out attempts fair self owner =
      rw l.head_is (returns (own_all-Owned self [] owner, r))
  requeue-Represents {h} {f} {s} {list} r (x ∷ xs) l out attempts fair self owner =
      let whole : list ≡ waiter_list x (last x xs) = ap₂ waiter_list l.head_is l.tail_is in
      rw whole (
        rw
          (
            ==_of_ne x null l.chain.1,
            iter_lem (x ∷ xs) (suc fuel) (rw whole at l) (omega (arith, out.short)),
          )
          (bind (requeue_loop-Represents x xs out l.distinct attempts fair null r l.chain)
            λ g k done. returns (own_all-Owned self (x ∷ xs) owner, done)))
