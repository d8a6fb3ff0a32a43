-- ===== src/FairMutex/Safety.antt =====
-- What holds of the mutex of fair_mutex.rs in every state that any interleaving of its tasks reaches,
-- with spurious failures of the weak exchanges and with cancelled locks.
use async_mutex.Common.{
  ℕ, ◌+◌, ◌≤◌, ◌<◌, ◌≡◌, ◌≢◌, ◌⊎◌, inl, inr, refl, arith, false, tally, tally-eq-zero, tally-ge,
  tally-ge_two, tally-pos, tally-le_of_le,
}
use native.Mathlib.Decide.{dec_lt}
use async_mutex.FairMutex.{Waker, none, waiting, done, System, Pc, idle, asleep, Choice, step, init}
use async_mutex.FairMutex.Invariant.{holds, reading, writing, borrowing, aims, is_done, Inv}
use async_mutex.FairMutex.Places.{step-Inv}

-- The states that tasks 1 to n - 1 reach from a new mutex.
pub data Reach (n : ℕ) : System → Type 0 where
  start : Reach n init
  later : {s : System} (i : ℕ) (c : Choice) → i ≢ 0 → i < n → Reach n s → Reach n (step i c s)

pub init-Inv : (n : ℕ) → Inv n init.mem init.pc
init-Inv n =
    let zeros : (w : Pc → ℕ) → w idle ≡ 0 → tally w n (λ _. idle) ≡ 0 =
      λ w h. tally-eq-zero w n (λ _. idle) (λ _. h) in
    record {
      token = omega (arith, zeros holds refl, tally-eq-zero is_done n (λ _. none) (λ _. refl));
      small = omega arith;
      place = λ j. omega (arith, zeros (aims j) refl);
      local_facts = λ j. tt;
      no_waiters = λ e. (refl, refl);
      readers_is = omega (arith, zeros reading refl);
      writer_is = omega (arith, zeros writing refl);
      apart = inl refl;
      borrowed_is = omega (arith, zeros borrowing refl);
      calm = refl;
      nobody = refl;
      outside = λ j h. refl;
    }

pub Reach-Inv : {n : ℕ} {s : System} → Reach n s → Inv n s.mem s.pc
Reach-Inv {n} start = init-Inv n
Reach-Inv (later i c pos lt r) = step-Inv i c pos lt (Reach-Inv r)

-- In every reachable state, while a task has the mutex (it has a guard, or is in `unlock` and has
-- not passed the mutex on), no other task has it, and no other task has been woken to take it.
pub mutual_exclusion :
    {n : ℕ} {s : System}
    → Reach n s
    → (i j : ℕ) → i ≢ j
    → holds (s.pc i) ≡ 1
    → (holds (s.pc j) ≡ 0) × (j < n → s.mem.waker j ≢ done)
mutual_exclusion {n} {s} r i j ne h =
    let inv = Reach-Inv r in
    (
      ground (arith, inv.token, inv.outside i, inv.outside j, tally-ge_two holds n s.pc i j),
      λ lt e. ground (
        arith,
        inv.token,
        inv.outside i,
        tally-ge holds n s.pc i,
        tally-ge is_done n s.mem.waker j lt,
      ),
    )

-- In no reachable state has a task panicked: the queue guard is never taken twice, the queue is
-- never empty at `pop(0).unwrap()`, only a pending waiter is ever woken, none is used again after it
-- was woken, and no pending wait finds its waker unset.
pub never_panics : {n : ℕ} {s : System} → Reach n s → s.mem.panicked ≡ false
never_panics r = (Reach-Inv r).calm

aims-le_holds : (j : ℕ) (p : Pc) → aims j p ≤ holds p
aims-le_holds j p = ground arith

holds_one : (p : Pc) → 0 < holds p → holds p ≡ 1
holds_one p h = ground arith

is_done_lem : (k : Waker) → 0 < is_done k → k ≡ done
is_done_lem k h = ground arith

-- In every reachable state in which a task waits and has not been woken, some task has the mutex or
-- has been woken to take it: the wakeup that the waiting task needs is not lost.
pub no_lost_wakeup :
    {n : ℕ} {s : System}
    → Reach n s
    → (i : ℕ) → s.pc i ≡ asleep
    → s.mem.waker i ≡ waiting
    → (j : ℕ) × (j < n) × ((holds (s.pc j) ≡ 1) ⊎ (s.mem.waker j ≡ done))
no_lost_wakeup {n} {s} r i here waits =
    let inv = Reach-Inv r in
    let some_owner : 0 < tally holds n s.pc + tally is_done n s.mem.waker = ground (
      arith,
      inv.token,
      inv.small,
      inv.place i,
      inv.no_waiters,
      tally-le_of_le (aims i) holds n s.pc (aims-le_holds i),
    ) in
    elim (dec_lt 0 (tally holds n s.pc)) [
      | yes p ↦ let (j, lt, h) = tally-pos holds n s.pc p in (j, lt, inl (holds_one (s.pc j) h))
      | no q ↦
          let (j, lt, h) = tally-pos is_done n s.mem.waker (omega arith) in
          (j, lt, inr (is_done_lem (s.mem.waker j) h))
    ]
