-- ===== src/Atomic/Cell.antt =====
-- An `Atomic<T>` of atomic/atomic_cell.rs behaves as a cell of `T`, as far as its packing is lossless.
use async_mutex.Common.{
  ℕ, ◌≡◌, ◌≢◌, ◌⊎◌, refl, sym, ap, ◌∙◌, arith, Bool, true, false, not, ◌&&◌, ◌==◌, if◌then◌else◌,
  inl, inr,
}
use async_mutex.Atomic.{Packable, new, load, cmpxchg_weak, cmpxchg}

==_of_eq : {a b : ℕ} → a ≡ b → (a == b) ≡ true
==_of_eq h = ground arith

module _ {A : Type 0} (p : Packable A) where
  -- What an exchange on a cell that holds `v` tells its caller, and leaves.
  abbrev pub Outcome : (spurious : Bool) → (v current next : A) → Bool × A × ℕ → Type 0
  Outcome spurious v current next (true, seen, cell) =
      (v ≡ current) × (seen ≡ current) × (load p cell ≡ p.decode (p.encode next))
  Outcome spurious v current next (false, seen, cell) =
      ((spurious ≡ true) ⊎ (v ≢ current)) × (seen ≡ v) × (load p cell ≡ v)

  module _ (v current next : A) (round : p.decode (p.encode v) ≡ v)
      (round' : p.decode (p.encode current) ≡ current) where
    eq_of_encode : p.encode v ≡ p.encode current → v ≡ current
    eq_of_encode e = sym round ∙ ap p.decode e ∙ round'

    outcome :
        (spurious equal : Bool)
        → (p.encode v == p.encode current) ≡ equal
        → Outcome spurious v current next (
            if not spurious && equal
            then (true, current, p.encode next)
            else (false, p.decode (p.encode v), p.encode v))
    unfolding load
    outcome true true h = (inl refl, round, round)
    outcome true false h = (inl refl, round, round)
    outcome false true h = (eq_of_encode (ground arith), refl, refl)
    outcome false false h = (inr (λ e. cc (ap p.encode e, ==_of_eq (ap p.encode e))), round, round)

    -- On a cell that holds `v`, where `v` and the expected value survive their packing: a weak exchange
    -- wins only if `v` is the expected value, and then leaves `current` alone and stores the new value;
    -- if it fails, it was spurious or `v` is another value, and it tells the caller `v` and leaves the
    -- cell alone. The strong exchange does the same and never fails spuriously.
    pub cmpxchg_lem :
        (spurious : Bool)
        → Outcome spurious v current next (cmpxchg_weak p spurious (new p v) current next)
          × Outcome false v current next (cmpxchg p (new p v) current next)
    unfolding new cmpxchg_weak cmpxchg
    cmpxchg_lem spurious = (
      outcome spurious (p.encode v == p.encode current) refl,
      outcome false (p.encode v == p.encode current) refl,
    )
