-- ===== src/Futex/Flip.antt =====
-- `RawFutex::flip` of futex/mod.rs against the abstract futex.
use mathlib.Core.Path.{subst}
use async_mutex.Common.{
  ℕ, ◌≡◌, sym, ap, ◌∙◌, arith, Bool, true, false, List, [], ◌∷◌, Option, some, reverse, Bool-cases,
  inl, inr, ◌==◌,
}
use async_mutex.Waiter.{Ptr, null, Links, Cmd, pure}
use async_mutex.Waiter.Chain.{Returns, returns, bind}
use async_mutex.Futex.{
  RawFutex, RawFutexAtom, same_atom, flip, flip_loop, cmpxchg_weak, cmpxchg_enqueue_weak,
}
use async_mutex.Futex.Queues.{deliver}
use async_mutex.Futex.Refine.{
  nil_of_null, Abstract, Represents, Exchanged, taken_over, cmpxchg_enqueue_weak_lem,
}

-- Some attempt does not fail for no reason.
abbrev pub SomeFair : List Bool → Type 0
SomeFair [] = ⊥
SomeFair (true ∷ bs) = SomeFair bs
SomeFair (false ∷ bs) = Unit

module _ (len : ℕ) (queue_of : Ptr → ℕ) (fuel : ℕ) {h : Links} {f : RawFutex} {s : Abstract}
    (r : Represents len queue_of fuel h f s) where
  same : same_atom f.futex_atom f.futex_atom ≡ true
  same = ground arith

  taken_over-nil : s.inbox ≡ [] → s ≡ taken_over len queue_of fuel s.atom s
  unfolding deliver
  taken_over-nil e =
      ap (λ ts. record { atom = s.atom; inbox = ts; queues = s.queues }) e
      ∙ ap
          (λ ts. record {
            atom = s.atom;
            inbox = [];
            queues = deliver len queue_of (reverse ts) s.queues;
          })
          (sym e)

  Flipped : Option (RawFutex × Links) → Type 0
  Flipped run =
      Returns (λ f' g. Represents len queue_of fuel g f' (taken_over len queue_of fuel s.atom s))
        run

  unchanged : f.futex_atom.inbox ≡ null → Flipped (some (f, h))
  unfolding Flipped
  unchanged empty = returns (
      subst (λ t. Represents len queue_of fuel h f t)
        (taken_over-nil (nil_of_null len queue_of fuel h f.futex_atom.inbox s.inbox r.stack empty))
        r)

  -- The rest of a round whose exchange won.
  won-Flipped :
      (run : Bool × RawFutexAtom × RawFutex) (g : Links)
      → (rest : RawFutex → RawFutexAtom → Cmd RawFutex)
      → Exchanged len queue_of fuel true f f.futex_atom s
          (taken_over len queue_of fuel f.futex_atom.atom s)
          run
          g
      → Flipped
          ((elim run.0 as (λ _. Cmd RawFutex) [ true ↦ pure run.2 | false ↦ rest run.2 run.1 ]) g)
  unfolding Flipped
  won-Flipped (won, now, f') g rest (e, same_now, k) = rw e (
      returns (
        subst (λ a. Represents len queue_of fuel g f' (taken_over len queue_of fuel a s)) r.atom_is
          k))

  fair-Flipped :
      (bs : List Bool)
      → f.futex_atom.inbox == null ≡ false
      → Flipped (flip_loop len queue_of fuel (false ∷ bs) f f.futex_atom h)
  unfolding flip_loop Flipped
  fair-Flipped bs full = rw full (
      bind (cmpxchg_enqueue_weak_lem len queue_of fuel r false f.futex_atom f.futex_atom.atom)
        λ run g k.
          won-Flipped run g (λ f' now. flip_loop len queue_of fuel bs f' now)
            (subst
              (λ b.
                Exchanged len queue_of fuel b f f.futex_atom s
                  (taken_over len queue_of fuel f.futex_atom.atom s) run g)
              same k))

  flip_loop-Represents :
      (attempts : List Bool)
      → SomeFair attempts
      → Flipped (flip_loop len queue_of fuel attempts f f.futex_atom h)
  unfolding flip_loop Flipped cmpxchg_enqueue_weak cmpxchg_weak
  flip_loop-Represents [] fair = elim fair [ ]
  flip_loop-Represents (true ∷ bs) fair = elim (Bool-cases (f.futex_atom.inbox == null)) [
    | inl empty ↦ rw empty (unchanged (ground arith))
    | inr full ↦ rw full (flip_loop-Represents bs fair)
  ]
  flip_loop-Represents (false ∷ bs) fair = elim (Bool-cases (f.futex_atom.inbox == null)) [
    | inl empty ↦ rw empty (unchanged (ground arith))
    | inr full ↦ fair-Flipped bs full
  ]

  -- `flip` of a futex that stands for `s` takes the inbox over: it returns, as long as one of its
  -- attempts does not fail for no reason, and then the futex stands for `s` with an empty inbox and
  -- each waiter of the inbox, the oldest first, at the end of its queue. The atom is kept, and nothing
  -- else happens to the futex in between.
  pub flip-Represents :
      (attempts : List Bool)
      → SomeFair attempts
      → Returns
          (λ f' g. Represents len queue_of fuel g f' (taken_over len queue_of fuel s.atom s))
          (flip len queue_of fuel attempts f h)
  unfolding flip Flipped
  flip-Represents attempts fair = flip_loop-Represents attempts fair
