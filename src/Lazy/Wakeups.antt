-- ===== src/Lazy/Wakeups.antt =====
-- The cell of lazy.rs never panics but where its initialiser did, and wakes all that wait for it.
use native.Mathlib.Decide.{dec_lt}
use async_mutex.Common.{
  ℕ, ◌+◌, ◌≤◌, ◌<◌, ◌≡◌, ◌≢◌, refl, ap, arith, false, tally, tally-ge, tally-pos, tally-eq-zero,
  tally-le_of_le, update, count,
}
use async_mutex.Lazy.{
  waiting, Shared, Pc, idle, asleep, returned, Choice, act, System, step, get, present, poisoned,
}
use async_mutex.Lazy.Once.{
  owns, wrote, is_active, Inv, Reach, start, later, Reach-Inv, returned_after_write, wrote-le,
}
use async_mutex.Lazy.Seats.{seated, takes, reading, writing, borrowing, ends, pops, Seats}
use async_mutex.Lazy.Moves.{moved, act-Says, act-calm, act-calm_inbox, act-calm_queue}
use async_mutex.Lazy.Places.{act-place, act-Sits, act-late}

act-Seats :
    {n : ℕ} {m : Shared} {pc : ℕ → Pc}
    → Inv n m pc
    → Seats n m pc
    → (i : ℕ) → i ≢ 0
    → i < n
    → (c : Choice) → Seats n (act i c m (pc i)).0 (update pc i (act i c m (pc i)).1)
act-Seats {n} {m} {pc} inv seats i pos lt c =
    let mv = moved n pc i (act i c m (pc i)).1 lt in
    let says = act-Says inv seats i lt c (pc i) refl mv in
    record {
      place = act-place inv seats i pos lt c;
      sits = act-Sits inv seats i pos lt c;
      late = act-late inv seats i pos lt c;
      readers_is = says.readers_is;
      writer_is = says.writer_is;
      borrowed_is = says.borrowed_is;
      apart = says.apart;
      ending = says.ending;
      calm_inbox = act-calm_inbox inv seats i lt c (pc i) refl;
      calm_queue = act-calm_queue inv seats i lt c (pc i) refl mv;
      nobody = ground (arith, seats.nobody);
      calm = act-calm inv seats i lt c (pc i) refl;
    }

pub Reach-Seats : {n : ℕ} {s : System} → Reach n s → Seats n s.mem s.pc
unfolding step
Reach-Seats {n} start =
    let zeros : (w : Pc → ℕ) → w idle ≡ 0 → tally w n (λ _. idle) ≡ 0 =
      λ w h. tally-eq-zero w n (λ _. idle) (λ _. h) in
    record {
      place = λ j. omega (arith, zeros (takes j) refl);
      sits = λ j. tt;
      late = λ j. omega arith;
      readers_is = omega (arith, zeros reading refl);
      writer_is = omega (arith, zeros writing refl);
      borrowed_is = omega (arith, zeros borrowing refl);
      apart = λ h. refl;
      ending = omega (arith, zeros ends refl);
      calm_inbox = λ h. refl;
      calm_queue = λ h k. refl;
      nobody = refl;
      calm = refl;
    }
Reach-Seats (later i c pos lt r) = act-Seats (Reach-Inv r) (Reach-Seats r) i (omega arith) lt c

-- In every state that `get_or_init` reaches, no assertion of `finish` has failed, the queues were not
-- taken twice, only pending waiters were woken, and no waiter was used after its end; the panic that
-- a poisoned cell passes on is not counted.
pub lazy_never_panics : {n : ℕ} {s : System} → Reach n s → s.mem.panicked ≡ false
lazy_never_panics r = (Reach-Seats r).calm

takes-ends : (j : ℕ) (p : Pc) → 1 ≤ takes j p → 1 ≤ ends p
takes-ends j p h = ground arith

pops-ends : (p : Pc) → pops p ≤ ends p
pops-ends p = ground arith

-- A task initialises the cell or publishes its value, or is to wake the waiters.
abbrev pub Someone : ℕ → System → Type 0
Someone n s = (j : ℕ) × (j < n) × (1 ≤ owns (s.pc j) + ends (s.pc j))

-- A waiter that is somewhere has a task that is to wake it.
wakes_it :
    {n : ℕ} {m : Shared} {pc : ℕ → Pc}
    → Inv n m pc
    → Seats n m pc
    → (i : ℕ) → 1 ≤ seated (pc i) (m.waker i)
    → tally owns n pc ≡ 0
    → 1 ≤ tally ends n pc
wakes_it {n} {m} {pc} inv seats i waits_there nobody = elim (dec_lt 0 (tally ends n pc)) [
  | yes some ↦ some
  | no none_ends ↦
      let quiet : is_active m.atom ≡ 0 = omega (arith, inv.owners) in
      let no_pops : tally pops n pc ≡ 0 = omega (arith, tally-le_of_le pops ends n pc pops-ends) in
      elim (dec_lt 0 (tally (takes i) n pc)) [
        | yes some ↦
            let (k, lt, taken) = tally-pos (takes i) n pc some in
            absurd (omega (arith, takes-ends i (pc k) taken, tally-ge ends n pc k lt))
        | no away ↦ absurd (
            omega (
              arith,
              seats.place i,
              ap (count i) (seats.calm_inbox quiet),
              ap (count i) (seats.calm_queue quiet no_pops),
            ))
      ]
]

-- In every reached state in which the wait of some task is pending and was not woken, some task
-- initialises the cell, or publishes or poisons it, or is waking the waiters.
pub lazy_no_lost_wakeup :
    {n : ℕ} {s : System}
    → Reach n s
    → (i : ℕ) → s.pc i ≡ asleep
    → s.mem.waker i ≡ waiting
    → Someone n s
lazy_no_lost_wakeup {n} {s} r i here k =
    let inv = Reach-Inv r in
    let seats = Reach-Seats r in
    elim (dec_lt 0 (tally owns n s.pc)) [
      | yes some ↦ let (j, lt, h) = tally-pos owns n s.pc some in (j, lt, omega arith)
      | no nobody ↦
          let some = wakes_it inv seats i (rw (here, k) (omega arith)) (omega arith) in
          let (j, lt, h) = tally-pos ends n s.pc some in (j, lt, omega arith)
    ]

-- In every reached state, `get` returns a reference only if the cell was written, and panics only if
-- it was not, and it returns a reference once any call of `get_or_init` has returned.
pub value_is_written :
    {n : ℕ} {s : System}
    → Reach n s
    → (get s.mem ≡ present → s.mem.writes ≡ 1)
      × (get s.mem ≡ poisoned → s.mem.writes ≡ 0)
      × ((i : ℕ) → s.pc i ≡ returned → get s.mem ≡ present)
unfolding get
value_is_written {n} {s} r =
    let inv = Reach-Inv r in
    let fewer = tally-le_of_le wrote owns n s.pc wrote-le in
    (
      (λ h. ground (arith, inv.writes_is, inv.owners, fewer)),
      (λ h. ground (arith, inv.writes_is, inv.owners, fewer)),
      λ i here. ground (arith, (returned_after_write i r here).0),
    )
