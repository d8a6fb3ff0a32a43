-- ===== src/RwLock/Places.antt =====
-- A step of rwlock.rs keeps the place of each waiter.
use async_mutex.Common.{
  ℕ, ◌+◌, ◌≤◌, ◌<◌, ◌≡◌, ◌≢◌, refl, arith, Bool, ◌∷◌, tally, tally-update, tally-ge, update_self,
  update-ne, tally-eq-zero, update, count,
}
use mathlib.Core.Path.{subst}
use async_mutex.RwLock.Sums.{AllIn-count}
use native.Mathlib.Decide.{ℕ_discrete, dec_lt}
use async_mutex.Tasks.Counts.{count-erase_self, count-erase_ne}
use async_mutex.RwLock.Steps.{target, handing_cases, looping_cases}
use async_mutex.RwLock.{
  Waker, done, Shared, Pc, trying, flip, unlinking, handing, looping, waking_all, waking,
  read_queue_index, write_queue_index, Choice, advance,
}
use async_mutex.RwLock.Invariant.{guarding, cancelling, aims, is_done, pushed, Local, Inv}
use async_mutex.RwLock.Seats.{delivered, round_seats, handing_seats, Entered, trying-Entered}

module _ {n : ℕ} {q : ℕ → ℕ} (two : (j : ℕ) → q j < 2) {m : Shared} {pc : ℕ → Pc}
    (inv : Inv q n m pc) (i : ℕ) (lt : i < n) (c : Choice) where
  abbrev mem' : Pc → Shared
  mem' p = (advance q i c m p).0

  abbrev pc' : Pc → ℕ → Pc
  pc' p = update pc i (advance q i c m p).1

  -- The sum of the places of waiter `j` after the step, `p` being where task `i` stood.
  abbrev places : ℕ → Pc → ℕ
  places j p =
      count j (mem' p).inbox
      + count j (mem' p).read_queue
      + count j (mem' p).write_queue
      + tally (aims j) n (pc' p)
      + is_done ((mem' p).waker j)

  abbrev Flights : ℕ → Pc → Type 0
  Flights j p =
      (tally (aims j) n (pc' p) + aims j p ≡ tally (aims j) n pc + aims j (advance q i c m p).1)
      × (aims j p ≤ tally (aims j) n pc)

  pushed-done : (p : Pc) (k : Waker) → 1 + is_done k ≤ pushed p k → pushed p done ≡ 1
  pushed-done p k h = ground arith

  place-Entered :
      (j : ℕ)
      → j ≢ i
      → (p : Pc) → aims j p ≡ 0
      → Flights j p
      → Entered i m (mem' p) (advance q i c m p).1
      → places j p ≡ pushed (pc j) ((mem' p).waker j)
  place-Entered j ne p aimless f entered =
      let (same_inbox, same_waker) = entered.others j ne in
      rw (same_inbox, same_waker, entered.reads_same, entered.writes_same)
        (omega (arith, f, entered.aimless j, inv.place j))

  place_round :
      (j : ℕ) (b : Bool) (r w t : ℕ)
      → pc i ≡ looping b r w t
      → Flights j (looping b r w t)
      → r ≡ 0
      → places j (looping b r w t) ≡ pushed (pc j) ((mem' (looping b r w t)).waker j)
  unfolding advance
  place_round j b r w t here f zeros =
      let (sum, same, away) =
        round_seats q two c m b r w t j zeros (looping_cases two inv i lt c b r w t here) in
      rw same (omega (arith, f, sum, inv.place j))

  place_other :
      (j : ℕ)
      → j ≢ i
      → (p : Pc) → pc i ≡ p
      → Flights j p
      → places j p ≡ pushed (pc j) ((mem' p).waker j)
  unfolding advance
  place_other j ne (trying r w t) here f =
      let entered = trying-Entered q i c m r w t (ground (arith, inv.place i)) in
      place-Entered j ne (trying r w t) refl f entered
  place_other j ne (flip r w t) here f = ground (arith, inv.place j, delivered q two m j)
  place_other j ne (handing r w t) here f =
      let (one, some, found) = handing_cases two inv i lt c r w t here in
      let (sum, same, away) = handing_seats q two c i m r w t j (some, found) in
      rw same (omega (arith, f, sum, inv.place j))
  place_other j ne (looping b r w t) here f =
      let (zeros, some, empty, full) = subst (Local q i m) here (inv.local_facts i) in
      place_round j b r w t here f zeros
  place_other j ne unlinking here f = ground (
    arith,
    inv.place j,
    inv.local_facts i,
    count-erase_ne i j m.read_queue ne,
    count-erase_ne i j m.write_queue ne,
  )
  place_other j ne (waking w) here f =
      let (below, waits) = target two inv i lt c w (rw here (ground arith)) in
      ground (arith, inv.place j, pushed-done (pc j) (m.waker j))
  place_other j ne (waking_all (w ∷ ws)) here f =
      let (below, waits) = target two inv i lt c w (rw here (ground arith)) in
      ground (arith, inv.place j, pushed-done (pc j) (m.waker j))
  place_other j ne p here f = ground (arith, inv.place j)

  aims_guarded : (j : ℕ) (p : Pc) → guarding p ≡ 0 → aims j p ≡ 0
  aims_guarded j p h = ground arith

  -- While a cancellation has the write guard, no waiter is between a queue and its wake.
  no_flights : (j : ℕ) → cancelling (pc i) ≡ 1 → tally (aims j) n pc ≡ 0
  no_flights j h =
      let unguarded : tally guarding n pc ≡ 0 =
        ground (arith, inv.apart, inv.guards_is, inv.locked_is, tally-ge cancelling n pc i lt) in
      tally-eq-zero (aims j) n pc λ k. elim (dec_lt k n) [
        | yes below ↦ aims_guarded j (pc k) (omega (arith, tally-ge guarding n pc k below))
        | no above ↦ rw (inv.outside k (omega arith)) refl
      ]

  place_self :
      (p : Pc)
      → pc i ≡ p
      → Flights i p
      → places i p ≡ pushed (advance q i c m p).1 ((mem' p).waker i)
  unfolding advance
  place_self (trying r w t) here f =
      let entered = trying-Entered q i c m r w t (ground (arith, inv.place i)) in
      rw (entered.reads_same, entered.writes_same)
        (omega (arith, f, entered.own, entered.aimless i, rw here at (inv.place i)))
  place_self (flip r w t) here f = ground (arith, inv.place i, delivered q two m i)
  place_self unlinking here f = ground (
    arith,
    inv.place i,
    inv.local_facts i,
    two i,
    no_flights i,
    count-erase_self i m.read_queue,
    count-erase_self i m.write_queue,
    AllIn-count q read_queue_index i m.read_queue inv.in_read_queue,
    AllIn-count q write_queue_index i m.write_queue inv.in_write_queue,
  )
  place_self (handing r w t) here f =
      let (one, some, found) = handing_cases two inv i lt c r w t here in
      let (sum, same, away) = handing_seats q two c i m r w t i (some, found) in
      rw same (omega (arith, f, sum, away (m.waker i), rw here at (inv.place i)))
  place_self (looping b r w t) here f =
      let (zeros, some, empty, full) = subst (Local q i m) here (inv.local_facts i) in
      let (sum, same, away) =
        round_seats q two c m b r w t i zeros (looping_cases two inv i lt c b r w t here) in
      rw same (omega (arith, f, sum, away (m.waker i), rw here at (inv.place i)))
  place_self (waking w) here f =
      let (below, waits) = target two inv i lt c w (rw here (ground arith)) in
      ground (arith, rw here at (inv.place i))
  place_self (waking_all (w ∷ ws)) here f =
      let (below, waits) = target two inv i lt c w (rw here (ground arith)) in
      ground (arith, rw here at (inv.place i))
  place_self p here f = ground (arith, inv.place i, inv.local_facts i)

  pub advance-place : (j : ℕ) → places j (pc i) ≡ pushed (pc' (pc i) j) ((mem' (pc i)).waker j)
  advance-place j =
      let f : Flights j (pc i) =
        (tally-update (aims j) n pc i (advance q i c m (pc i)).1 lt, tally-ge (aims j) n pc i lt) in
      elim (ℕ_discrete j i) [
        | yes e ↦
            rw (e, update_self pc i (advance q i c m (pc i)).1) (place_self (pc i) refl (rw e at f))
        | no ne ↦
            rw (update-ne pc i (advance q i c m (pc i)).1 j ne) (place_other j ne (pc i) refl f)
      ]
