-- ===== src/FastMutex/Safety.antt =====
-- What holds of the mutex of fast_mutex.rs in every state that any interleaving of its tasks reaches,
-- with spurious failures of the weak exchanges.
use native.Mathlib.Decide.{dec_lt}
use async_mutex.Common.{
  ℕ, ◌+◌, ◌^◌, ◌≤◌, ◌<◌, ◌≡◌, ◌≢◌, ◌⊎◌, inl, inr, refl, ap, arith, Bool, true, false, Bool-cases,
  tally, tally-ge, tally-ge_two, tally-pos, tally-le_size, update,
}
use async_mutex.Atomic.{from_bool}
use async_mutex.FastMutex.{Waker, none, done, Shared, Pc, idle, Choice, act}
use async_mutex.FastMutex.Invariant.{
  holds, en_route, counted, borrowing, aims, is_done, pushed, Inv,
}
use async_mutex.Common.{tally-eq-zero}
use mathlib.Core.Logic.{◌↔◌}
use async_mutex.FastMutex.{System, step, init, Atom}
use async_mutex.FastMutex.Packing.{pack, decode-encode}
use async_mutex.FastMutex.Steps.{moved, act-Says, act-borrowed, act-calm}
use async_mutex.FastMutex.Locals.{act-Local}
use async_mutex.FastMutex.Places.{act-place}

act-outside :
    {n : ℕ} {m : Shared} {pc : ℕ → Pc}
    → Inv n m pc
    → (i : ℕ) → i < n
    → i ≢ 0
    → (p' : Pc) → (update pc i p' 0 ≡ idle) × ((j : ℕ) → n ≤ j → update pc i p' j ≡ idle)
act-outside inv i lt pos p' = (ground (arith, inv.nobody), λ j h. ground (arith, inv.outside j))

-- A step of a task keeps the invariant, whatever the choice, as long as no pending `lock` is dropped.
pub step-Inv :
    {n : ℕ}
    → n < 2 ^ 62
    → {s : System} (i : ℕ) (c : Choice) → i ≢ 0
    → i < n
    → (step i c s).mem.aborted ≡ false
    → Inv n s.mem s.pc
    → Inv n (step i c s).mem (step i c s).pc
unfolding step
step-Inv {n} few {s} i c pos lt ok inv =
    let mv = moved n s.pc i (act i c s.mem (s.pc i)).1 lt in
    let says = act-Says inv i lt c (s.pc i) refl mv ok in
    let (nobody, outside) = act-outside inv i lt pos (act i c s.mem (s.pc i)).1 in
    record {
      locked_is = says.locked_is;
      waking_is = says.waking_is;
      waiters_is = says.waiters_is;
      ready = says.ready;
      place = act-place inv i lt c ok;
      local_facts = act-Local inv i lt c ok;
      borrowed_is = act-borrowed inv i lt c (s.pc i) refl mv ok;
      calm = act-calm inv i lt c few (s.pc i) refl;
      nobody = nobody;
      outside = outside;
    }

-- The states that tasks 1 to n - 1 reach from a new mutex.
pub data Reach (n : ℕ) : System → Type 0 where
  start : Reach n init
  later : {s : System} (i : ℕ) (c : Choice) → i ≢ 0 → i < n → Reach n s → Reach n (step i c s)

init-Inv : (n : ℕ) → Inv n init.mem init.pc
init-Inv n =
    let zeros : (w : Pc → ℕ) → w idle ≡ 0 → tally w n (λ _. idle) ≡ 0 =
      λ w h. tally-eq-zero w n (λ _. idle) (λ _. h) in
    let no_done : tally is_done n (λ _. none) ≡ 0 =
      tally-eq-zero is_done n (λ _. none) (λ _. refl) in
    record {
      locked_is = omega (arith, zeros holds refl);
      waking_is = omega (arith, zeros en_route refl, no_done);
      waiters_is = omega (arith, zeros counted refl);
      ready = λ a b. refl;
      place = λ j. omega (arith, zeros (aims j) refl);
      local_facts = λ j. tt;
      borrowed_is = omega (arith, zeros borrowing refl);
      calm = refl;
      nobody = refl;
      outside = λ j h. refl;
    }

act-aborted :
    (i : ℕ) (c : Choice) (m : Shared) (p : Pc) → (act i c m p).0.aborted ≡ false → m.aborted ≡ false
unfolding act
act-aborted i c m idle h = ground (arith, h)
act-aborted i c m p h = ground (arith, h)

-- No step forgets that a pending `lock` was dropped.
step-aborted :
    (i : ℕ) (c : Choice) (s : System) → (step i c s).mem.aborted ≡ false → s.mem.aborted ≡ false
unfolding step
step-aborted i c s h = act-aborted i c s.mem (s.pc i) h

is_done_lem : (k : Waker) → 0 < is_done k → k ≡ done
is_done_lem k h = ground arith

from_bool-le : (b : Bool) → from_bool b ≤ 1
from_bool-le b = ground arith

from_bool-true : (b : Bool) → 1 ≤ from_bool b → b ≡ true
from_bool-true b h = ground arith

counted-le : (p : Pc) → counted p ≤ 1
counted-le p = ground arith

pushed-le : (p : Pc) → pushed p ≤ counted p
pushed-le p = ground arith

-- Someone has the mutex, is on the way to it, or was woken to take it.
abbrev pub Someone : ℕ → System → Type 0
Someone n s =
    (j : ℕ) × (j < n) × ((1 ≤ holds (s.pc j) + en_route (s.pc j)) ⊎ (s.mem.waker j ≡ done))

-- The atom in which the mutex keeps its state.
abbrev pub atom : System → Atom
atom s = record { locked = s.mem.locked; waking = s.mem.waking; waiters = s.mem.waiters }

module _ {n : ℕ} (few : n < 2 ^ 62) where
  pub Reach-Inv : {s : System} → Reach n s → s.mem.aborted ≡ false → Inv n s.mem s.pc
  Reach-Inv start ok = init-Inv n
  Reach-Inv (later {s} i c pos lt r) ok =
      step-Inv few i c pos lt ok (Reach-Inv r (step-aborted i c s ok))

  -- In every reached state of fewer than 2 ^ 62 tasks none of which has dropped a pending `lock`,
  -- `locked` is set exactly if a task has the mutex
  -- (it has the guard, or is in `unlock` before its last exchange), and no two tasks have it.
  pub fast_exclusion :
      {s : System}
      → Reach n s
      → s.mem.aborted ≡ false
      → ((s.mem.locked ≡ true) ↔ ((i : ℕ) × (1 ≤ holds (s.pc i))))
        × ((i j : ℕ) → i ≢ j → 1 ≤ holds (s.pc i) → holds (s.pc j) ≡ 0)
  fast_exclusion {s} r ok =
      let inv = Reach-Inv r ok in
      let below : (i : ℕ) → 1 ≤ holds (s.pc i) → i < n = λ i h. ground (arith, inv.outside i) in
      (
        (
          (λ e.
              let (i, lt, h) =
                tally-pos holds n s.pc (omega (arith, inv.locked_is, ap from_bool e)) in
              (i, h)),
          (λ (i, h).
              from_bool-true s.mem.locked
                (omega (arith, inv.locked_is, tally-ge holds n s.pc i (below i h)))),
        ),
        λ i j ne h. elim (dec_lt 0 (holds (s.pc j))) [
          | yes k ↦ absurd (
              omega (
                arith,
                inv.locked_is,
                from_bool-le s.mem.locked,
                tally-ge_two holds n s.pc i j (below i h) (below j k) ne,
              ))
          | no k ↦ omega arith
        ],
      )

  -- In every reached state of fewer than 2 ^ 62 tasks none of which has dropped a pending `lock`,
  -- no assertion, `unwrap` or `checked_add` of
  -- fast_mutex.rs has failed, no counter has gone below 0, the queue guard has not been taken twice,
  -- and only pending waiters have been woken.
  pub fast_never_panics : {s : System} → Reach n s → s.mem.aborted ≡ false → s.mem.panicked ≡ false
  fast_never_panics r ok = (Reach-Inv r ok).calm

  -- In every reached state of fewer than 2 ^ 62 tasks none of which has dropped a pending `lock`,
  -- the atom survives its packing into a word.
  pub atom_fits : {s : System} → Reach n s → s.mem.aborted ≡ false → pack (atom s) ≡ atom s
  atom_fits {s} r ok =
      let inv = Reach-Inv r ok in
      let fits : s.mem.waiters < 2 ^ 62 =
        omega (arith, inv.waiters_is, tally-le_size counted counted-le n s.pc) in
      (decode-encode (atom s)).0.1 fits

  -- In every reached state of fewer than 2 ^ 62 tasks none of which has dropped a pending `lock`, and in
  -- which the wait of some task is pending, some
  -- task has the mutex, is on its way to it, or has been woken to take it.
  pub fast_no_lost_wakeup :
      {s : System} → Reach n s → s.mem.aborted ≡ false → (i : ℕ) → 1 ≤ pushed (s.pc i) → Someone n s
  fast_no_lost_wakeup {s} r ok i waits =
      let inv = Reach-Inv r ok in
      let below : i < n = ground (arith, inv.outside i) in
      let some : 1 ≤ s.mem.waiters =
        omega (arith, inv.waiters_is, pushed-le (s.pc i), tally-ge counted n s.pc i below) in
      elim (Bool-cases s.mem.locked) [
        | inl taken ↦
            let (j, lt, h) =
              tally-pos holds n s.pc (omega (arith, inv.locked_is, ap from_bool taken)) in
            (j, lt, inl (omega arith))
        | inr free ↦ elim (dec_lt 0 (tally en_route n s.pc)) [
          | yes p ↦ let (j, lt, h) = tally-pos en_route n s.pc p in (j, lt, inl (omega arith))
          | no nobody_moves ↦
              let (j, lt, h) =
                tally-pos is_done n s.mem.waker (ground (arith, inv.waking_is, inv.ready free)) in
              (j, lt, inr (is_done_lem (s.mem.waker j) h))
        ]
      ]
