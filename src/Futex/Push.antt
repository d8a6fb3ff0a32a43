-- ===== src/Futex/Push.antt =====
-- `push`, the part of `WaitFuture::poll_enter` in futex/wait_future.rs that puts the waiter on the
-- inbox, against the abstract futex.
use async_mutex.Common.{
  ℕ, ◌<◌, ◌≡◌, ◌≢◌, refl, sym, ◌∙◌, Bool, true, false, not, ◌&&◌, List, [], ◌∷◌, NotIn, Distinct,
  length, update_self, update-ne, Apart-cons, Apart-single,
}
use async_mutex.Waiter.{Ptr, null, Links, set_prev}
use async_mutex.Waiter.Chain.{first, SameOutside, Returns, returns}
use async_mutex.Waiter.Frame.{write_prev}
use async_mutex.Waiter.Stack.{IsStack, Older, IsStack-SameOutside}
use async_mutex.Futex.{RawFutexAtom, RawFutex, same_atom, cmpxchg_weak, push}
use async_mutex.Futex.Queues.{Queues-SameOutside}
use async_mutex.Futex.Refine.{Abstract, Represents, Exchanged, same-inbox, won-parts}

pub IsStack-first : (h : Links) (p : Ptr) (ts : List Ptr) → IsStack h p ts → p ≡ first ts null
IsStack-first h p [] s = s
IsStack-first h p (t ∷ ts) s = s.0

pub IsStack-Older :
    (h : Links) (p : Ptr) (ts : List Ptr) → IsStack h p ts → Older h.live h.prev ts × Distinct ts
IsStack-Older h p [] s = (tt, tt)
IsStack-Older h p (t ∷ ts) (e, n, o, d) = (o, d)

module _ (len : ℕ) (queue_of : Ptr → ℕ) (fuel : ℕ) where
  -- The abstract push.
  abbrev pub pushed : ℕ → Ptr → Abstract → Abstract
  pushed new w s = record s { atom = new; inbox = w ∷ s.inbox }

  -- Waiter `w` is in no list of the futex. Its link to the older waiter may be stale: a lost exchange
  -- leaves what it wrote there.
  pub record IsFresh (h : Links) (s : Abstract) (w : Ptr) : Type 0 where
    pub alive : h.live w ≡ true
    pub not_null : w ≢ null
    pub no_next : h.next w ≡ null
    pub out : NotIn w s.inbox
    pub clear : (i : ℕ) → i < len → NotIn w (s.queues i)
    pub in_range : queue_of w < len

  module _ {h : Links} {f : RawFutex} {s : Abstract} (r : Represents len queue_of fuel h f s)
      (w : Ptr) (fresh : IsFresh h s w) where
    write-SameOutside : (p : Ptr) → SameOutside (w ∷ []) h (write_prev w p h)
    write-SameOutside p a o = (refl, refl, update-ne h.prev w p a o.0)

    -- The write to the waiter's own link is not seen by the futex.
    Represents-write : (p : Ptr) → Represents len queue_of fuel (write_prev w p h) f s
    Represents-write p = record {
      atom_is = r.atom_is;
      stack =
          IsStack-SameOutside f.futex_atom.inbox s.inbox (w ∷ []) (Apart-single s.inbox w fresh.out)
            (write-SameOutside p) r.stack;
      queues =
          Queues-SameOutside len queue_of (w ∷ [])
            (λ i lt. Apart-single (s.queues i) w (fresh.clear i lt)) (write-SameOutside p) r.queues;
      clear = r.clear;
      in_range = r.in_range;
      short = r.short;
    }

    Represents-pushed :
        (p : Ptr) (new : ℕ)
        → p ≡ f.futex_atom.inbox
        → length s.inbox < fuel
        → Represents len queue_of fuel
            (write_prev w p h)
            (record f { futex_atom = record { atom = new; inbox = w } })
            (pushed new w s)
    Represents-pushed p new e enough =
        let same = Represents-write p in
        let (older, distinct) =
          IsStack-Older (write_prev w p h) f.futex_atom.inbox s.inbox same.stack in
        record {
          atom_is = refl;
          stack = (
            refl,
            fresh.no_next,
            (
              fresh.alive,
              fresh.not_null,
              update_self h.prev w p ∙ e ∙ IsStack-first h f.futex_atom.inbox s.inbox r.stack,
              older,
            ),
            (fresh.out, distinct),
          );
          queues = same.queues;
          clear = λ i lt. Apart-cons (s.queues i) w s.inbox (fresh.clear i lt) (r.clear i lt);
          in_range = (fresh.in_range, r.in_range);
          short = enough;
        }

    exchange :
        (b spurious : Bool) (current : RawFutexAtom) (new : ℕ)
        → length s.inbox < fuel
        → (not spurious && same_atom f.futex_atom current) ≡ b
        → Returns
            (Exchanged len queue_of fuel b f current s (pushed new w s))
            (push spurious f current new w h)
    unfolding push cmpxchg_weak set_prev
    exchange false spurious current new enough lost =
        rw (fresh.alive, lost) (returns (refl, refl, Represents-write current.inbox))
    exchange true spurious current new enough won =
        let e : f.futex_atom.inbox ≡ current.inbox =
          same-inbox len queue_of fuel f.futex_atom current
            (won-parts len queue_of fuel spurious f.futex_atom current won) in
        rw (fresh.alive, won)
          (returns (refl, refl, Represents-pushed current.inbox new (sym e) enough))

    -- An attempt of a wait on a futex that stands for `s`, with a waiter that is in none of its lists
    -- and whose link to the older waiter may hold anything (a lost exchange leaves it stale), wins exactly if the exchange does not fail spuriously and both words are as expected. If it wins,
    -- the futex stands for `s` with the new atom and the waiter as the newest of the inbox; if not, it
    -- still stands for `s`, and the caller gets its current state. It never faults.
    pub push_lem :
        (spurious : Bool) (current : RawFutexAtom) (new : ℕ)
        → length s.inbox < fuel
        → Returns
            (Exchanged len queue_of fuel
              (not spurious && same_atom f.futex_atom current)
              f
              current
              s
              (pushed new w s))
            (push spurious f current new w h)
    push_lem spurious current new enough =
        exchange (not spurious && same_atom f.futex_atom current) spurious current new enough refl
