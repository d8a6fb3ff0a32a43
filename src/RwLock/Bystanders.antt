-- ===== src/RwLock/Bystanders.antt =====
-- A step of rwlock.rs keeps what the other tasks rely on.
use async_mutex.Common.{
  ℕ, ◌≤◌, ◌<◌, ◌≡◌, ◌≢◌, ◌⊎◌, refl, inl, inr, arith, false, tally-ge, tally-ge_two, update_self,
  update-ne, sym, ◌∙◌, update, count, inl, inr,
}
use native.Mathlib.Decide.{ℕ_discrete}
use async_mutex.RwLock.Queues.{advance-Local_self}
use async_mutex.RwLock.Steps.{as_writer, as_reader}
use async_mutex.RwLock.{done, Shared, Pc, idle, Choice, advance}
use async_mutex.RwLock.Invariant.{reads, writes, guarding, cancelling, Local, Inv}

-- A call of `write_abort` is never undone.
pub advance-aborted :
    (q : ℕ → ℕ) (i : ℕ) (c : Choice) (m : Shared) (p : Pc)
    → (advance q i c m p).0.aborted ≡ false
    → m.aborted ≡ false
unfolding advance
advance-aborted q i c m idle h = ground (arith, h)
advance-aborted q i c m p h = ground (arith, h)

module _ {n : ℕ} {q : ℕ → ℕ} (two : (j : ℕ) → q j < 2) {m : Shared} {pc : ℕ → Pc}
    (inv : Inv q n m pc) (i : ℕ) (lt : i < n) (c : Choice) where
  abbrev mem' : Pc → Shared
  mem' p = (advance q i c m p).0

  abbrev pc' : Pc → ℕ → Pc
  pc' p = update pc i (advance q i c m p).1

  -- What a step can change of the things that other tasks rely on.
  advance-waker :
      (p : Pc) (j : ℕ) → j ≢ i → ((mem' p).waker j ≡ m.waker j) ⊎ ((mem' p).waker j ≡ done)
  unfolding advance
  advance-waker idle j ne = ground arith
  advance-waker p j ne = ground arith

  advance-inbox :
      (p : Pc) (j : ℕ)
      → j ≢ i
      → (count j (mem' p).inbox ≡ count j m.inbox) ⊎ (count j (mem' p).inbox ≡ 0)
  unfolding advance
  advance-inbox idle j ne = ground arith
  advance-inbox p j ne = ground arith

  -- Tasks that do not have the lock leave the atom's readers and the read queue alone.
  advance-bystander :
      (p : Pc)
      → pc i ≡ p
      → reads p ≡ 0
      → writes p ≡ 0
      → 1 ≤ m.writers
      → ((mem' p).readers ≡ m.readers)
        × (1 ≤ (mem' p).writers)
        × (((mem' p).read_queue ≡ m.read_queue) ⊎ (cancelling p ≡ 1))
  unfolding advance
  advance-bystander idle here a b some = ground arith
  advance-bystander p here a b some = ground (arith, inv.local_facts i)

  -- While another task has the lock alone, task `i` does not have it.
  beside_reader :
      (j : ℕ) → j ≢ i → reads (pc j) ≡ 1 → m.readers ≡ 1 → (reads (pc i) ≡ 0) × (writes (pc i) ≡ 0)
  beside_reader j ne h one =
      let below : j < n = ground (arith, inv.outside j) in
      let (some, no_writes, no_woken) = as_reader two inv j below c (omega arith) in
      (
        omega (arith, tally-ge_two reads n pc i j lt below (λ e. ne (sym e)), inv.readers_is),
        omega (arith, tally-ge writes n pc i lt),
      )

  beside_writer :
      (j : ℕ)
      → j ≢ i
      → writes (pc j) ≡ 1
      → guarding (pc j) ≡ 1
      → (reads (pc i) ≡ 0) × (writes (pc i) ≡ 0) × (1 ≤ m.writers) × (cancelling (pc i) ≡ 0)
  beside_writer j ne h g =
      let below : j < n = ground (arith, inv.outside j) in
      let (none_reads, some, one, no_reads) = as_writer two inv j below c h in
      (
        omega (arith, tally-ge reads n pc i lt),
        omega (arith, tally-ge_two writes n pc i j lt below (λ e. ne (sym e))),
        some,
        ground (
          arith,
          inv.apart,
          inv.guards_is,
          inv.locked_is,
          tally-ge guarding n pc j below,
          tally-ge cancelling n pc i lt,
        ),
      )

  abbrev AtomKept : ℕ → Type 0
  AtomKept j =
      reads (pc j) ≡ 1
      → m.readers ≡ 1
      → 1 ≤ m.writers
      → ((mem' (pc i)).readers ≡ 1) × (1 ≤ (mem' (pc i)).writers)

  atom_kept : (j : ℕ) → j ≢ i → AtomKept j
  atom_kept j ne h one some =
      let (a, b) = beside_reader j ne h one in
      let (same, w, queue) = advance-bystander (pc i) refl a b some in (same ∙ one, w)

  queue_kept :
      (j : ℕ)
      → j ≢ i
      → writes (pc j) ≡ 1
      → guarding (pc j) ≡ 1
      → (mem' (pc i)).read_queue ≡ m.read_queue
  queue_kept j ne h g =
      let (a, b, some, k) = beside_writer j ne h g in
      let (same, w, queue) = advance-bystander (pc i) refl a b some in
      elim queue [ inl e ↦ e | inr e ↦ absurd (omega arith) ]

  advance-Local_other :
      (j : ℕ) → j ≢ i → (p : Pc) → pc j ≡ p → Local q j m p → Local q j (mem' (pc i)) p
  advance-Local_other j ne idle here k = tt
  advance-Local_other j ne p here k =
      ground (
        arith,
        advance-waker (pc i) j ne,
        advance-inbox (pc i) j ne,
        atom_kept j ne,
        queue_kept j ne,
      )

  pub advance-Local : (j : ℕ) → Local q j (mem' (pc i)) (pc' (pc i) j)
  advance-Local j = elim (ℕ_discrete j i) [
    | yes e ↦
        rw (e, update_self pc i (advance q i c m (pc i)).1)
          (advance-Local_self two inv i lt c (pc i) refl)
    | no ne ↦
        rw (update-ne pc i (advance q i c m (pc i)).1 j ne)
          (advance-Local_other j ne (pc j) refl (inv.local_facts j))
  ]

  pub advance-outside : (p : Pc) → i ≢ 0 → (pc' p 0 ≡ idle) × ((j : ℕ) → n ≤ j → pc' p j ≡ idle)
  advance-outside p pos = (ground (arith, inv.nobody), λ j h. ground (arith, inv.outside j))
