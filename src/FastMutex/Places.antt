-- ===== src/FastMutex/Places.antt =====
-- A step of fast_mutex.rs keeps the place of each waiter.
use native.Mathlib.Decide.{ℕ_discrete}
use async_mutex.Common.{
  ℕ, ◌+◌, ◌≤◌, ◌<◌, ◌≡◌, ◌≢◌, inl, inr, refl, ap, reverse, arith, Bool, false, List, ◌∷◌, ◌++◌,
  tally, tally-update, tally-ge, update, count,
}
use async_mutex.Tasks.Counts.{count-enqueue}
use async_mutex.FastMutex.{Waker, Shared, Pc, handing, waking, Choice, newest, act}
use async_mutex.FastMutex.Invariant.{aims, is_done, pushed, Inv}
use async_mutex.Common.{update_self, update-ne}
use async_mutex.FastMutex.Steps.{target, handing_cases}

module _ {n : ℕ} {m : Shared} {pc : ℕ → Pc} (inv : Inv n m pc) (i : ℕ) (lt : i < n)
    (c : Choice) where
  abbrev mem' : Pc → Shared
  mem' p = (act i c m p).0

  abbrev pc' : Pc → ℕ → Pc
  pc' p = update pc i (act i c m p).1

  -- The sum of the places of waiter `j` after the step, `p` being where task `i` stood.
  abbrev places : ℕ → Pc → ℕ
  places j p =
      count j (mem' p).inbox
      + count j (mem' p).queue
      + tally (aims j) n (pc' p)
      + is_done ((mem' p).waker j)

  abbrev Flights : ℕ → Pc → Type 0
  Flights j p =
      (tally (aims j) n (pc' p) + aims j p ≡ tally (aims j) n pc + aims j (act i c m p).1)
      × (aims j p ≤ tally (aims j) n pc)

  pushed-target : (p : Pc) (k : Waker) → 1 + is_done k ≤ pushed p → pushed p ≡ 1
  pushed-target p k h = ground arith

  delivered :
      (j v : ℕ) (vs : List ℕ)
      → m.queue ++ reverse m.inbox ≡ v ∷ vs
      → count j m.queue + count j m.inbox ≡ count j (v ∷ vs)
  delivered j v vs e = omega (arith, count-enqueue j m.queue m.inbox, ap (count j) e)

  -- The second loop of `unlock` moves waiters between the inbox, the queue and the task's hands.
  abbrev Handed : ℕ → Pc → Type 0
  Handed j p =
      (count j (mem' p).inbox + count j (mem' p).queue + aims j (act i c m p).1
        ≡ count j m.inbox + count j m.queue)
      × ((mem' p).waker ≡ m.waker)
      × (pushed (act i c m p).1 ≡ 0)

  handing-Handed :
      (j : ℕ) (b l k : Bool) (w t : ℕ) → pc i ≡ handing b l k w t → Handed j (handing b l k w t)
  unfolding act
  handing-Handed j b l k w t here =
      let (k_is, quiet, some, found) = handing_cases inv i lt c b l k w t here in
      elim found [
        | inl (had, (v, vs, e)) ↦ (ground (arith, ap (count j) e), ground arith, ground arith)
        | inr (had, new, all) ↦ elim (ℕ_discrete (newest m.inbox) t) [
          | yes same ↦
              let (v, vs, e) = all same in
              (ground (arith, delivered j v vs e), ground arith, ground arith)
          | no other ↦ (ground arith, ground arith, ground arith)
        ]
      ]

  place_other : (j : ℕ) → j ≢ i → (p : Pc) → pc i ≡ p → Flights j p → places j p ≡ pushed (pc j)
  unfolding act
  place_other j ne (handing b l k w t) here f =
      let (sum, same, away) = handing-Handed j b l k w t here in
      rw same (omega (arith, f, sum, inv.place j))
  place_other j ne (waking w) here f =
      let (below, waits) = target inv i lt c w (rw here (ground arith)) in
      ground (arith, inv.place j, f)
  place_other j ne p here f = ground (arith, inv.place j, inv.local_facts i)

  place_self :
      (p : Pc)
      → pc i ≡ p
      → (mem' p).aborted ≡ false
      → Flights i p
      → places i p ≡ pushed (act i c m p).1
  unfolding act
  place_self (handing b l k w t) here ok f =
      let (sum, same, away) = handing-Handed i b l k w t here in
      rw same (omega (arith, f, sum, away, rw here at (inv.place i)))
  place_self (waking w) here ok f =
      let (below, waits) = target inv i lt c w (rw here (ground arith)) in
      ground (arith, rw here at (inv.place i))
  place_self p here ok f = ground (arith, ok, inv.place i, inv.local_facts i)

  pub act-place : (mem' (pc i)).aborted ≡ false → (j : ℕ) → places j (pc i) ≡ pushed (pc' (pc i) j)
  act-place ok j =
      let f : Flights j (pc i) =
        (tally-update (aims j) n pc i (act i c m (pc i)).1 lt, tally-ge (aims j) n pc i lt) in
      elim (ℕ_discrete j i) [
        | yes e ↦
            rw (e, update_self pc i (act i c m (pc i)).1) (place_self (pc i) refl ok (rw e at f))
        | no ne ↦ rw (update-ne pc i (act i c m (pc i)).1 j ne) (place_other j ne (pc i) refl f)
      ]
