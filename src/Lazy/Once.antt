-- ===== src/Lazy/Once.antt =====
-- The cell of lazy.rs is initialised at most once, and read only after it was written.
use mathlib.Core.Path.{subst}
use native.Mathlib.Decide.{ℕ_discrete}
use async_mutex.Common.{
  ℕ, ◌+◌, ◌≤◌, ◌<◌, ◌≡◌, refl, sym, ◌∙◌, arith, update, update_self, update-ne, tally, tally-update,
  tally-ge, tally-ge_two, tally-eq-zero, tally-le_of_le,
}
use async_mutex.Lazy.{
  CellAtom, active, poison, init, Pc, idle, looping, initialising, locking, borrow, load_atom,
  finishing, pop_all, waking, returned, Choice, Shared, System, act, step, new_cell, poll_enter,
  poll_waiting, drop_waiting, wake, end_finish,
}

-- The task that initialises the cell.
abbrev pub owns : Pc → ℕ
owns initialising = 1
owns (locking new) = 1
owns (borrow new) = 1
owns (load_atom new) = 1
owns (finishing new a t) = 1
owns _ = 0

abbrev pub is_init : CellAtom → ℕ
is_init init = 1
is_init _ = 0

abbrev pub is_active : CellAtom → ℕ
is_active active = 1
is_active _ = 0

-- The task that has written the value and not yet published it.
abbrev pub wrote : Pc → ℕ
wrote (locking new) = is_init new
wrote (borrow new) = is_init new
wrote (load_atom new) = is_init new
wrote (finishing new a t) = is_init new
wrote _ = 0

abbrev IsFinal : CellAtom → Type 0
IsFinal init = Unit
IsFinal poison = Unit
IsFinal _ = ⊥

-- What the place of a task says about the atom.
abbrev pub Local : CellAtom → Pc → Type 0
Local atom (looping a t) = a ≡ init → atom ≡ init
Local atom (locking new) = IsFinal new
Local atom (borrow new) = IsFinal new
Local atom (load_atom new) = IsFinal new
Local atom (finishing new a t) = IsFinal new × (a ≡ active)
Local atom (pop_all new) = IsFinal new × (new ≡ atom)
Local atom (waking new ws) = IsFinal new × (new ≡ atom)
Local atom returned = atom ≡ init
Local atom _ = Unit

pub record Inv (n : ℕ) (m : Shared) (pc : ℕ → Pc) : Type 0 where
  pub owners : tally owns n pc ≡ is_active m.atom
  pub writes_is : m.writes ≡ is_init m.atom + tally wrote n pc
  pub places : (i : ℕ) → Local m.atom (pc i)
  pub outside : (i : ℕ) → n ≤ i → pc i ≡ idle

-- What a place says survives a change of an atom that was not final.
Local-change : (a b : CellAtom) (p : Pc) → (IsFinal a → b ≡ a) → Local a p → Local b p
Local-change a b (looping c t) stay h = λ e. stay (subst IsFinal (sym (h e)) tt) ∙ h e
Local-change a b (pop_all new) stay (final, e) = (final, e ∙ sym (stay (subst IsFinal e final)))
Local-change a b (waking new ws) stay (final, e) = (final, e ∙ sym (stay (subst IsFinal e final)))
Local-change a b returned stay e = stay (subst IsFinal (sym e) tt) ∙ e
Local-change a b p stay h = h

pub wrote-le : (p : Pc) → wrote p ≤ owns p
wrote-le p = ground arith

module _ {n : ℕ} {m : Shared} {pc : ℕ → Pc} (inv : Inv n m pc) (i : ℕ) (lt : i < n)
    (c : Choice) where
  abbrev mem' : Pc → Shared
  mem' p = (act i c m p).0

  abbrev pc' : Pc → ℕ → Pc
  pc' p = update pc i (act i c m p).1

  -- What the step does to the sums over all tasks.
  record Moves (p : Pc) : Type 0 where
    owners : tally owns n (pc' p) + owns p ≡ tally owns n pc + owns (act i c m p).1
    writers : tally wrote n (pc' p) + wrote p ≡ tally wrote n pc + wrote (act i c m p).1
    place : Local m.atom p
    least : owns p ≤ tally owns n pc
    wrote_least : wrote p ≤ tally wrote n pc

  act-owners : (p : Pc) → pc i ≡ p → Moves p → tally owns n (pc' p) ≡ is_active (mem' p).atom
  unfolding act poll_enter poll_waiting drop_waiting wake end_finish
  act-owners idle here mv = ground (arith, mv.owners, inv.owners)
  act-owners p here mv = ground (arith, mv.owners, mv.place, mv.least, inv.owners)

  act-writes :
      (p : Pc)
      → pc i ≡ p
      → Moves p
      → (mem' p).writes ≡ is_init (mem' p).atom + tally wrote n (pc' p)
  unfolding act poll_enter poll_waiting drop_waiting wake end_finish
  act-writes idle here mv = ground (arith, mv.writers, inv.writes_is)
  act-writes p here mv =
      ground (arith, mv.writers, mv.place, mv.least, mv.wrote_least, inv.writes_is, inv.owners)

  act-place : (p : Pc) → pc i ≡ p → Moves p → Local (mem' p).atom (act i c m p).1
  unfolding act poll_enter poll_waiting drop_waiting wake end_finish
  act-place idle here mv = ground (arith, mv.place)
  act-place p here mv = ground (arith, mv.place, mv.least, inv.owners)

  -- Once the cell is initialised or poisoned, its atom stays.
  act-IsFinal : (p : Pc) → pc i ≡ p → Moves p → IsFinal m.atom → (mem' p).atom ≡ m.atom
  unfolding act poll_enter poll_waiting drop_waiting wake end_finish
  act-IsFinal idle here mv final = ground arith
  act-IsFinal p here mv final = ground (arith, mv.place, mv.least, inv.owners, final)

  moves : Moves (pc i)
  moves = record {
    owners = tally-update owns n pc i (act i c m (pc i)).1 lt;
    writers = tally-update wrote n pc i (act i c m (pc i)).1 lt;
    place = inv.places i;
    least = tally-ge owns n pc i lt;
    wrote_least = tally-ge wrote n pc i lt;
  }

  pub act-Inv : Inv n (mem' (pc i)) (pc' (pc i))
  act-Inv = record {
    owners = act-owners (pc i) refl moves;
    writes_is = act-writes (pc i) refl moves;
    places = λ j. elim (ℕ_discrete j i) [
      | yes e ↦ rw (e, update_self pc i (act i c m (pc i)).1) (act-place (pc i) refl moves)
      | no ne ↦ rw (update-ne pc i (act i c m (pc i)).1 j ne) (
          Local-change m.atom (mem' (pc i)).atom (pc j) (act-IsFinal (pc i) refl moves)
            (inv.places j))
    ];
    outside = λ j h. update-ne pc i (act i c m (pc i)).1 j (ground arith) ∙ inv.outside j h;
  }

-- The states that the tasks 1 to `n - 1` reach.
pub data Reach (n : ℕ) : System → Type 0 where
  start : Reach n new_cell
  later : {s : System} (i : ℕ) (c : Choice) → 0 < i → i < n → Reach n s → Reach n (step i c s)

pub Reach-Inv : {n : ℕ} {s : System} → Reach n s → Inv n s.mem s.pc
unfolding step
Reach-Inv {n} start = record {
  owners = tally-eq-zero owns n (λ _. idle) (λ _. refl);
  writes_is = omega (arith, tally-eq-zero wrote n (λ _. idle) (λ _. refl));
  places = λ i. tt;
  outside = λ i h. refl;
}
Reach-Inv (later i c pos lt r) = act-Inv (Reach-Inv r) i lt c

is_active-le : (a : CellAtom) → is_init a + is_active a ≤ 1
is_active-le a = ground arith

few_writes : {n : ℕ} {m : Shared} {pc : ℕ → Pc} → Inv n m pc → m.writes ≤ 1
few_writes {n} {m} {pc} inv =
    omega (
      arith,
      inv.owners,
      inv.writes_is,
      tally-le_of_le wrote owns n pc wrote-le,
      is_active-le m.atom,
    )

-- In every reachable state at most one task initialises the cell, from the exchange that takes it to
-- the one that publishes it, and the cell is written at most once.
pub initialised_once :
    {n : ℕ} {s : System}
    → Reach n s
    → (s.mem.writes ≤ 1) × ((i j : ℕ) → owns (s.pc i) ≡ 1 → owns (s.pc j) ≡ 1 → i ≡ j)
initialised_once {n} {s} r =
    let inv = Reach-Inv r in
    (
      few_writes (Reach-Inv r),
      (λ i j hi hj. elim (ℕ_discrete i j) [
        | yes e ↦ e
        | no ne ↦ ground (
          arith,
          inv.owners,
          inv.outside i,
          inv.outside j,
          tally-ge_two owns n s.pc i j,
          is_active-le s.mem.atom,
        )
      ]),
    )

-- In every reachable state in which a call of `get_or_init` has returned, the cell was written
-- exactly once, and its atom is `Init`.
pub returned_after_write :
    {n : ℕ} {s : System} (i : ℕ)
    → Reach n s
    → s.pc i ≡ returned
    → (s.mem.atom ≡ init) × (s.mem.writes ≡ 1)
returned_after_write {n} {s} i r at =
    let inv = Reach-Inv r in
    let now : s.mem.atom ≡ init = subst (Local s.mem.atom) at (inv.places i) in
    (now, ground (arith, inv.owners, inv.writes_is, tally-le_of_le wrote owns n s.pc wrote-le, now))

-- In every reachable state in which a task is in the loop of `finish`, its snapshot of the atom is
-- `Active`, so that the assertion of the loop holds, and so is the atom itself.
pub finish_is_active :
    {n : ℕ} {s : System} (i : ℕ) (new a : CellAtom) (t : ℕ)
    → Reach n s
    → s.pc i ≡ finishing new a t
    → (a ≡ active) × (s.mem.atom ≡ active)
finish_is_active {n} {s} i new a t r at =
    let inv = Reach-Inv r in
    let (final, e) = subst (Local s.mem.atom) at (inv.places i) in
    let below : i < n = ground (arith, inv.outside i) in
    (e, ground (arith, inv.owners, tally-ge owns n s.pc i below))
