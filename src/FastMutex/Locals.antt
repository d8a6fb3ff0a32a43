-- ===== src/FastMutex/Locals.antt =====
-- A step of task `i` of fast_mutex.rs keeps what the snapshots of all tasks say.
use mathlib.Core.Path.{subst}
use native.Mathlib.Decide.{ℕ_discrete}
use async_mutex.Common.{
  List-cases, ℕ, ◌+◌, ◌≤◌, ◌<◌, ◌≡◌, ◌≢◌, ◌⊎◌, inl, inr, refl, sym, ap, ◌∙◌, arith, true, false, [],
  tally, tally-ge, tally-ge_two, tally-le_of_le, tally-pos, update, count,
}
use async_mutex.Atomic.{from_bool}
use async_mutex.FastMutex.{
  done, Shared, Pc, idle, trying, unlocking, releasing, borrow, handing, Choice, newest, act,
}
use async_mutex.FastMutex.Invariant.{holds, en_route, counted, aims, is_done, pushed, Local, Inv}
use async_mutex.Common.{update_self, update-ne, tally-le_of_le}
use async_mutex.FastMutex.Steps.{handing_cases, inbox_empty, waiters-le}

module _ {n : ℕ} {m : Shared} {pc : ℕ → Pc} (inv : Inv n m pc) (i : ℕ) (lt : i < n)
    (c : Choice) where
  abbrev mem' : Pc → Shared
  mem' p = (act i c m p).0

  aims-le : (j : ℕ) (p : Pc) → aims j p ≤ en_route p
  aims-le j p = ground arith

  counted-cases : (p : Pc) → 0 < counted p → en_route p ≡ 0 → pushed p ≡ 1
  counted-cases p h e = ground arith

  -- If tasks are counted and none is on the way, one waits.
  someone_waits : m.waking ≡ false → 1 ≤ m.waiters → newest m.inbox ≡ 0 → m.queue ≢ []
  someone_waits quiet some h e =
      let none_moves : tally en_route n pc + tally is_done n m.waker ≡ 0 =
        omega (arith, inv.waking_is, ap from_bool quiet) in
      let (j, below, one) = tally-pos counted n pc (omega (arith, inv.waiters_is)) in
      let asks = counted-cases (pc j) one (omega (arith, tally-ge en_route n pc j below)) in
      omega (
        arith,
        inv.place j,
        tally-ge is_done n m.waker j below,
        tally-le_of_le (aims j) en_route n pc (aims-le j),
        ap (count j) e,
        ap (count j) (inbox_empty inv i lt c h),
      )

  counted_here : (p : Pc) → pc i ≡ p → counted p ≤ m.waiters
  counted_here p here = omega (arith, inv.waiters_is, rw here at (tally-ge counted n pc i lt))

  act-Local_self :
      (p : Pc) → pc i ≡ p → (mem' p).aborted ≡ false → Local n i (mem' p) (act i c m p).1
  unfolding act
  act-Local_self idle here ok = ground (arith, waiters-le inv i lt c)
  act-Local_self (trying b l k w t) here ok = ground (
    arith,
    waiters-le inv i lt c,
    counted_here (trying b l k w t) here,
    inv.local_facts i,
    inv.place i,
  )
  act-Local_self (handing b l k w t) here ok =
      let (k_is, quiet, some, linked, full, empty, fewer) =
        subst (Local n i m) here (inv.local_facts i) in
      let (k_is', quiet', some', found) = handing_cases inv i lt c b l k w t here in
      elim found [
        | inl (had, (v, vs, e)) ↦ ground (arith, someone_waits quiet)
        | inr (had, new, all) ↦ ground (arith, someone_waits quiet, all)
      ]
  act-Local_self unlocking here ok = ground (arith, someone_waits)
  act-Local_self (releasing l k w t) here ok = ground (arith, inv.local_facts i, someone_waits)
  act-Local_self (borrow l k w t) here ok = ground (arith, inv.local_facts i, List-cases m.queue)
  act-Local_self p here ok = ground (arith, ok, inv.local_facts i)

  act-waker : (p : Pc) (j : ℕ) → j ≢ i → ((mem' p).waker j ≡ m.waker j) ⊎ ((mem' p).waker j ≡ done)
  unfolding act
  act-waker idle j ne = ground arith
  act-waker p j ne = ground arith

  -- A task that does not have the mutex leaves the queue to the one that has it.
  act-bystander :
      (p : Pc)
      → Local n i m p
      → holds p ≡ 0
      → m.locked ≡ true
      → ((mem' p).queue ≡ m.queue)
        × (m.waiters ≤ (mem' p).waiters)
        × (en_route p ≡ 0 → (mem' p).waking ≡ m.waking)
  unfolding act
  act-bystander idle l none_held taken = ground arith
  act-bystander p l none_held taken = ground (arith, l)

  abbrev Beside : Type 0
  Beside =
      ((mem' (pc i)).queue ≡ m.queue)
      × (m.waiters ≤ (mem' (pc i)).waiters)
      × (m.waking ≡ false → (mem' (pc i)).waking ≡ false)

  beside_holder : (j : ℕ) → j ≢ i → holds (pc j) ≡ 1 → Beside
  beside_holder j ne h =
      let below : j < n = ground (arith, inv.outside j) in
      let one : from_bool m.locked ≡ tally holds n pc = inv.locked_is in
      let two = tally-ge_two holds n pc i j lt below (λ e. ne (sym e)) in
      let (queue, more, same) =
        act-bystander (pc i) (inv.local_facts i) (ground (arith, two, one))
          (ground (arith, two, one)) in
      (
        queue,
        more,
        λ quiet.
            same (omega (arith, inv.waking_is, ap from_bool quiet, tally-ge en_route n pc i lt))
            ∙ quiet,
      )

  act-Local_other :
      (j : ℕ) → j ≢ i → (p : Pc) → pc j ≡ p → Local n j m p → Local n j (mem' (pc i)) p
  act-Local_other j ne idle here k = tt
  act-Local_other j ne p here k = ground (arith, act-waker (pc i) j ne, beside_holder j ne)

  pub act-Local :
      (mem' (pc i)).aborted ≡ false
      → (j : ℕ) → Local n j (mem' (pc i)) (update pc i (act i c m (pc i)).1 j)
  act-Local ok j = elim (ℕ_discrete j i) [
    | yes e ↦ rw (e, update_self pc i (act i c m (pc i)).1) (act-Local_self (pc i) refl ok)
    | no ne ↦
        rw (update-ne pc i (act i c m (pc i)).1 j ne)
          (act-Local_other j ne (pc j) refl (inv.local_facts j))
  ]
