-- ===== src/Futex2/Mutex.antt =====
-- futex2/mutex.rs: `Mutex`, as the steps of one task between two accesses to shared memory; a step in
-- the queue is one of `act` of `Futex2`. The weak exchanges may fail spuriously; a task has at most one
-- call, and the value that the mutex protects is left out.
mod Tests
use mathlib.Core.Logic.{◌↔◌}
use native.Mathlib.Decide.{dec_lt}
use async_mutex.Common.{
  ℕ, ◌+◌, ◌≤◌, ◌<◌, ◌≡◌, ◌≢◌, refl, sym, ap, arith, Bool, true, false, not, ◌&&◌, ◌==◌,
  if◌then◌else◌, tally, tally-ge, tally-ge_two, tally-eq-zero, tally-pos, tally-update, update,
}
use async_mutex.Futex2.{
  Shared, Pc, entering, finished, loading, Choice, is_spurious, act, with_capacity,
}

pub record State : Type 0 where
  pub atom : ℕ
  pub queue : Shared

-- Where a task stands, with its snapshots.
pub data Step : Type 0 where
  idle : Step
  starting : Step  -- `lock`, before its `cmpxchg`
  looping : (state : ℕ) → Step  -- its loop
  in_wait : Pc → Step  -- `wait_if(..).await`
  holding : Step  -- the task has the guard
  unlocking : (atom : ℕ) → Step  -- the loop of `unlock`
  in_notify : Pc → Step  -- `notify(1)`

-- `Atomic::cmpxchg_weak` on the atom.
abbrev pub exchanges : Choice → State → (old : ℕ) → Bool
exchanges c m old = not (is_spurious c) && (m.atom == old)

-- The loop of `lock`.
pub lock_loop : Choice → State → (state : ℕ) → State × Step
lock_loop c m s =
    if s == 0
    then (if exchanges c m 0 then (record m { atom = 2 }, holding) else (m, looping m.atom))
    else if s == 1
    then (if exchanges c m 1 then (record m { atom = 2 }, looping 2) else (m, looping m.atom))
    else if s == 2
    then (m, in_wait entering)
    else (m, looping s)

-- The loop of `unlock`.
pub unlock_loop : Choice → State → (atom : ℕ) → State × Step
unlock_loop c m a =
    if exchanges c m a
    then (record m { atom = 0 }, if a == 2 then in_notify (loading 1) else idle)
    else (m, unlocking m.atom)

-- One step of task `i`.
pub move : ℕ → Choice → State → Step → State × Step
unfolding lock_loop unlock_loop
move i c m idle = (m, starting)
move i c m starting = if m.atom == 0 then (record m { atom = 1 }, holding) else (m, looping m.atom)
move i c m (looping state) = lock_loop c m state
move i c m (in_wait finished) = (m, looping 0)
move i c m (in_wait p) = (
  record m { queue = (act (m.atom == 2) i c m.queue p).0 },
  in_wait (act (m.atom == 2) i c m.queue p).1,
)
move i c m holding = (m, unlocking 1)
move i c m (unlocking a) = unlock_loop c m a
move i c m (in_notify finished) = (m, idle)
move i c m (in_notify p) = (
  record m { queue = (act (m.atom == 2) i c m.queue p).0 },
  in_notify (act (m.atom == 2) i c m.queue p).1,
)

-- `Mutex::new`
abbrev pub new : State
new = record { atom = 0; queue = with_capacity 1 }

pub record World : Type 0 where
  pub mem : State
  pub at : ℕ → Step

pub turn : ℕ → Choice → World → World
unfolding move
turn i c s = record {
  mem = (move i c s.mem (s.at i)).0;
  at = update s.at i (move i c s.mem (s.at i)).1;
}

-- The states that the tasks below `n` reach from a new mutex.
pub data Reach (n : ℕ) : World → Type 0 where
  start : Reach n (record { mem = new; at = λ _. idle })
  later : {s : World} (i : ℕ) (c : Choice) → i < n → Reach n s → Reach n (turn i c s)

-- The task has the mutex.
abbrev pub holds : Step → ℕ
holds holding = 1
holds (unlocking a) = 1
holds _ = 0

abbrev taken : ℕ → ℕ
taken a = if a == 0 then 0 else 1

record Inv (n : ℕ) (s : World) : Type 0 where
  taken_is : taken s.mem.atom ≡ tally holds n s.at
  atom-le : s.mem.atom ≤ 2
  outside : (i : ℕ) → n ≤ i → s.at i ≡ idle

move-taken :
    (i : ℕ) (c : Choice) (m : State) (p : Step)
    → holds p ≤ taken m.atom
    → (taken (move i c m p).0.atom + holds p ≡ taken m.atom + holds (move i c m p).1)
      × (m.atom ≤ 2 → (move i c m p).0.atom ≤ 2)
unfolding move lock_loop unlock_loop
move-taken i c m idle h = ground arith
move-taken i c m starting h = ground arith
move-taken i c m (looping state) h = ground arith
move-taken i c m (in_wait finished) h = ground arith
move-taken i c m (in_wait p) h = ground arith
move-taken i c m holding h = ground arith
move-taken i c m (unlocking a) h = ground arith
move-taken i c m (in_notify finished) h = ground arith
move-taken i c m (in_notify p) h = ground arith

turn-Inv : {n : ℕ} {s : World} → Inv n s → (i : ℕ) (c : Choice) → i < n → Inv n (turn i c s)
unfolding turn
turn-Inv {n} {s} inv i c lt =
    let here : holds (s.at i) ≤ taken s.mem.atom =
      omega (arith, inv.taken_is, tally-ge holds n s.at i lt) in
    let (same, bounded) = move-taken i c s.mem (s.at i) here in
    record {
      taken_is =
          omega
            (arith, inv.taken_is, same, tally-update holds n s.at i (move i c s.mem (s.at i)).1 lt);
      atom-le = bounded inv.atom-le;
      outside = λ j h. ground (arith, inv.outside j);
    }

Reach-Inv : {n : ℕ} {s : World} → Reach n s → Inv n s
Reach-Inv {n} start = record {
  taken_is = omega (arith, tally-eq-zero holds n (λ _. idle) (λ _. refl));
  atom-le = omega arith;
  outside = λ i h. refl;
}
Reach-Inv (later i c lt r) = turn-Inv (Reach-Inv r) i c lt

-- In every state that the tasks of the mutex of futex2/mutex.rs reach, the atom is 0, 1 or 2; it is not
-- 0 exactly if some task has the mutex; and no two tasks have it.
pub futex2_exclusion :
    {n : ℕ} {s : World}
    → Reach n s
    → (s.mem.atom ≤ 2)
      × ((s.mem.atom ≢ 0) ↔ ((i : ℕ) × (1 ≤ holds (s.at i))))
      × ((i j : ℕ) → i ≢ j → 1 ≤ holds (s.at i) → holds (s.at j) ≡ 0)
futex2_exclusion {n} {s} r =
    let inv = Reach-Inv r in
    let below : (i : ℕ) → 1 ≤ holds (s.at i) → i < n = λ i h. ground (arith, inv.outside i) in
    (
      inv.atom-le,
      (
        (λ ne. let (i, lt, h) = tally-pos holds n s.at (ground (arith, inv.taken_is)) in (i, h)),
        (λ (i, h). ground (arith, inv.taken_is, tally-ge holds n s.at i (below i h))),
      ),
      λ i j ne h. elim (dec_lt 0 (holds (s.at j))) [
        | yes k ↦
            absurd (
              ground
                (arith, inv.taken_is, tally-ge_two holds n s.at i j (below i h) (below j k) ne))
        | no k ↦ omega arith
      ],
    )
