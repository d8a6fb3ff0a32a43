-- ===== src/Lazy/Places.antt =====
-- A step of a task of lazy.rs keeps the place of each waiter.
use mathlib.Core.Path.{subst}
use native.Mathlib.Decide.{dec_lt, ℕ_discrete}
use async_mutex.Common.{
  ℕ, ◌+◌, ◌≤◌, ◌<◌, ◌≡◌, ◌≢◌, refl, arith, ◌∷◌, tally, tally-update, tally-ge, tally-pos, update,
  update_self, update-ne, count,
}
use async_mutex.Tasks.Counts.{count-enqueue, count-erase_self, count-erase_ne, empty_of_newest}
use async_mutex.Lazy.{
  Shared, Pc, flip_load, flip, unlinking, finishing, waking, Choice, act, poll_enter, poll_waiting,
  drop_waiting, wake, end_finish, newest,
}
use async_mutex.Lazy.Once.{Local, Inv}
use async_mutex.Lazy.Seats.{is_final, is_done, seated, takes, reading, writing, Sits, Seats}
use async_mutex.Lazy.Moves.{target, target-waits}

takes-reading : (j : ℕ) (p : Pc) → 1 ≤ takes j p → 1 ≤ reading p
takes-reading j p h = ground arith

module _ {n : ℕ} {m : Shared} {pc : ℕ → Pc} (inv : Inv n m pc) (seats : Seats n m pc) (i : ℕ)
    (pos : i ≢ 0) (lt : i < n) (c : Choice) where
  abbrev mem' : Pc → Shared
  mem' p = (act i c m p).0

  abbrev pc' : Pc → ℕ → Pc
  pc' p = update pc i (act i c m p).1

  abbrev Flights : ℕ → Pc → Type 0
  Flights j p =
      (tally (takes j) n (pc' p) + takes j p ≡ tally (takes j) n pc + takes j (act i c m p).1)
      × (takes j p ≤ tally (takes j) n pc)

  abbrev seats_of : ℕ → Pc → ℕ
  seats_of j p = count j (mem' p).inbox + count j (mem' p).queue + tally (takes j) n (pc' p)

  no_null : count 0 m.inbox ≡ 0
  no_null = ground (arith, seats.place 0, seats.nobody)

  -- While a task has the write guard, no task wakes.
  no_takers : (j : ℕ) → 1 ≤ tally writing n pc → tally (takes j) n pc ≡ 0
  no_takers j h = elim (dec_lt 0 (tally (takes j) n pc)) [
    | yes some ↦
        let (k, below, taken) = tally-pos (takes j) n pc some in
        let reads : 1 ≤ tally reading n pc =
          omega (arith, takes-reading j (pc k) taken, tally-ge reading n pc k below) in
        absurd (ground (arith, seats.apart, seats.writer_is, seats.readers_is, reads))
    | no k ↦ omega arith
  ]

  place_other :
      (j : ℕ)
      → j ≢ i
      → (p : Pc) → pc i ≡ p
      → Flights j p
      → seats_of j p ≡ seated (pc j) ((mem' p).waker j)
  unfolding act poll_enter poll_waiting drop_waiting wake end_finish
  place_other j ne (waking new (w ∷ ws)) here f =
      ground (arith, seats.place j, f, target inv seats i lt c w (rw here (ground arith)))
  place_other j ne unlinking here f =
      ground (arith, seats.place j, f, count-erase_ne i j m.queue ne)
  place_other j ne (flip a t) here f =
      ground (arith, seats.place j, f, count-enqueue j m.queue m.inbox)
  place_other j ne (finishing new a t) here f =
      ground (arith, seats.place j, f, count-enqueue j m.queue m.inbox)
  place_other j ne p here f = ground (arith, seats.place j, f)

  place_self :
      (p : Pc) → pc i ≡ p → Flights i p → seats_of i p ≡ seated (act i c m p).1 ((mem' p).waker i)
  unfolding act poll_enter poll_waiting drop_waiting wake end_finish
  place_self unlinking here f =
      let (some, away) = subst (Sits m i) here (seats.sits i) in
      ground (
        arith,
        f,
        seats.place i,
        away,
        count-erase_self i m.queue,
        no_takers i (rw here at (tally-ge writing n pc i lt)),
      )
  place_self (flip a t) here f = ground (arith, seats.place i, f, count-enqueue i m.queue m.inbox)
  place_self (finishing new a t) here f =
      ground (arith, seats.place i, f, count-enqueue i m.queue m.inbox)
  place_self (waking new (w ∷ ws)) here f =
      ground (arith, seats.place i, f, target-waits inv seats i lt c w (rw here (ground arith)))
  place_self p here f = ground (arith, seats.place i, f, subst (Sits m i) here (seats.sits i))

  pub act-place : (j : ℕ) → seats_of j (pc i) ≡ seated (pc' (pc i) j) ((mem' (pc i)).waker j)
  act-place j =
      let f : Flights j (pc i) =
        (tally-update (takes j) n pc i (act i c m (pc i)).1 lt, tally-ge (takes j) n pc i lt) in
      elim (ℕ_discrete j i) [
        | yes e ↦ rw (e, update_self pc i (act i c m (pc i)).1) (place_self (pc i) refl (rw e at f))
        | no ne ↦ rw (update-ne pc i (act i c m (pc i)).1 j ne) (place_other j ne (pc i) refl f)
      ]

  none_in : newest m.inbox ≡ 0 → count i m.inbox ≡ 0
  none_in h = rw (empty_of_newest m.inbox h no_null) refl

  own_seat : (p : Pc) → pc i ≡ p → Sits (mem' p) i (act i c m p).1
  unfolding act poll_enter poll_waiting drop_waiting wake end_finish
  own_seat flip_load here = ground (arith, subst (Sits m i) here (seats.sits i), none_in)
  own_seat (flip a t) here = ground (arith, subst (Sits m i) here (seats.sits i), none_in)
  own_seat p here = ground (arith, subst (Sits m i) here (seats.sits i), seats.late i)

  other_seat : (j : ℕ) → j ≢ i → (q p : Pc) → pc i ≡ p → Sits m j q → pc j ≡ q → Sits (mem' p) j q
  unfolding act poll_enter poll_waiting drop_waiting wake end_finish
  other_seat j ne q (waking new (w ∷ ws)) here h at_j = ground (
    arith,
    target inv seats i lt c w (rw here (ground arith)),
    target-waits inv seats i lt c w (rw here (ground arith)),
  )
  other_seat j ne q p here h at_j = ground arith

  pub act-Sits : (j : ℕ) → Sits (mem' (pc i)) j (pc' (pc i) j)
  act-Sits j = elim (ℕ_discrete j i) [
    | yes e ↦ rw (e, update_self pc i (act i c m (pc i)).1) (own_seat (pc i) refl)
    | no ne ↦
        rw (update-ne pc i (act i c m (pc i)).1 j ne)
          (other_seat j ne (pc j) (pc i) refl (seats.sits j) refl)
  ]

  late : (j : ℕ) (p : Pc) → pc i ≡ p → is_done ((mem' p).waker j) ≤ is_final (mem' p).atom
  unfolding act poll_enter poll_waiting drop_waiting wake end_finish
  late j p here = ground (arith, seats.late j, subst (Local m.atom) here (inv.places i))

  pub act-late : (j : ℕ) → is_done ((mem' (pc i)).waker j) ≤ is_final (mem' (pc i)).atom
  act-late j = late j (pc i) refl
