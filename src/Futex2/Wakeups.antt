-- ===== src/Futex2/Wakeups.antt =====
-- futex2/mod.rs: a wait that is pending is known to its bucket, or its waker was called.
use mathlib.Core.Path.{subst}
use native.Mathlib.Decide.{ℕ_discrete}
use async_mutex.Common.{
  ℕ, ◌<◌, ◌≡◌, ◌≢◌, ◌⊎◌, refl, sym, arith, Bool, true, ◌||◌, tally-ge_two, update, update_self,
  update-ne,
}
use async_mutex.Futex2.{
  Shared, Pc, resting, visiting, visit, taking, joining, checking, pending, polling, Choice, act,
  add_round, visit_round, sweep, install, next_round, join_round, waiting_round, System, Event,
  wait_if, notify, run, begin, step, Reach, start, later, empty, woken, waiting, waking, tombstone,
  loading, adding, expanding, sweeping, installing, pushing, entering, finished, look, same_bucket,
  place,
}
use async_mutex.Futex2.Occupants.{occupies, vacant, Known, Inv, Reach-Inv}

-- The bucket of the iteration `k` has the waker of task `i`, or the waker was called.
abbrev pub registered : Shared → (i g k : ℕ) → Bool
registered m i g k = same_bucket (look m g k) (waiting i) || m.called i

module _ (j : ℕ) (b : Bool) (c : Choice) (m : Shared) (i g k : ℕ) (ne : i ≢ j) (old : g < m.made)
    (full : vacant (look m g k) ≡ 0) (still : registered m i g k ≡ true) where
  -- A step of another task, which is not in the bucket.
  act-registered :
      (p : Pc)
      → occupies (m.capacity g) g (place m g k) p ≡ 0
      → registered (act b j c m p).0 i g k ≡ true
  unfolding act add_round visit_round sweep install join_round next_round waiting_round
  act-registered resting away = ground arith
  act-registered (loading a) away = ground arith
  act-registered (adding a h w n) away = ground arith
  act-registered (visiting h l s) away = ground arith
  act-registered (visit h l s (empty o)) away = ground arith
  act-registered (visit h l s (woken o)) away = ground arith
  act-registered (visit h l s (waiting o)) away = ground arith
  act-registered (visit h l s waking) away = ground arith
  act-registered (visit h l s tombstone) away = ground arith
  act-registered (expanding h) away = ground arith
  act-registered (sweeping h j) away = ground arith
  act-registered (installing h) away = ground arith
  act-registered pushing away = ground arith
  act-registered entering away = ground arith
  act-registered (taking h w n) away = ground arith
  act-registered (joining h l (empty o)) away = ground arith
  act-registered (joining h l (woken o)) away = ground arith
  act-registered (joining h l (waiting o)) away = ground arith
  act-registered (joining h l waking) away = ground arith
  act-registered (joining h l tombstone) away = ground arith
  act-registered (checking h l) away = ground arith
  act-registered (pending h l) away = ground arith
  act-registered (polling h l (empty o)) away = ground arith
  act-registered (polling h l (woken o)) away = ground arith
  act-registered (polling h l (waiting o)) away = ground arith
  act-registered (polling h l waking) away = ground arith
  act-registered (polling h l tombstone) away = ground arith
  act-registered finished away = ground arith

abbrev pub Heard : ℕ → Shared → Pc → Type 0
Heard i m (checking g k) = registered m i g k ≡ true
Heard i m (pending g k) = registered m i g k ≡ true
Heard i m _ = Unit

module _ (i : ℕ) (b : Bool) (c : Choice) (m : Shared) where
  act-Heard : (p : Pc) → Heard i m p → Heard i (act b i c m p).0 (act b i c m p).1
  unfolding act add_round visit_round sweep install join_round next_round waiting_round
  act-Heard resting known = ground arith
  act-Heard (loading a) known = ground arith
  act-Heard (adding a h w n) known = ground arith
  act-Heard (visiting a l s) known = ground arith
  act-Heard (visit a l s (empty o)) known = ground arith
  act-Heard (visit a l s (woken o)) known = ground arith
  act-Heard (visit a l s (waiting o)) known = ground arith
  act-Heard (visit a l s waking) known = ground arith
  act-Heard (visit a l s tombstone) known = ground arith
  act-Heard (expanding h) known = ground arith
  act-Heard (sweeping h j) known = ground arith
  act-Heard (installing h) known = ground arith
  act-Heard pushing h = ground arith
  act-Heard entering h = ground arith
  act-Heard (taking h w n) known = ground arith
  act-Heard (joining a l (empty o)) known = ground arith
  act-Heard (joining a l (woken o)) known = ground arith
  act-Heard (joining a l (waiting o)) known = ground arith
  act-Heard (joining a l waking) known = ground arith
  act-Heard (joining a l tombstone) known = ground arith
  act-Heard (checking a l) known = ground arith
  act-Heard (pending a l) known = ground arith
  act-Heard (polling a l (empty o)) known = ground arith
  act-Heard (polling a l (woken o)) known = ground arith
  act-Heard (polling a l (waiting o)) known = ground arith
  act-Heard (polling a l waking) known = ground arith
  act-Heard (polling a l tombstone) known = ground arith
  act-Heard finished h = ground arith

begin-Heard : (i : ℕ) (m : Shared) (q p : Pc) → Heard i m q → Heard i m p → Heard i m (begin q p)
begin-Heard i m q p h k = ground arith

module _ {n : ℕ} {s : System} (inv : Inv n s) (j : ℕ) (at_most : j < n) where
  -- Of two tasks, one is in the bucket of the other's wait only if they are the same.
  others-away :
      (i g k : ℕ)
      → i < n
      → i ≢ j
      → g < s.mem.made
      → occupies (s.mem.capacity g) g (place s.mem g k) (s.pc i) ≡ 1
      → (vacant (look s.mem g k) ≡ 0)
        × (occupies (s.mem.capacity g) g (place s.mem g k) (s.pc j) ≡ 0)
  others-away i g k below ne old here =
      let two =
        tally-ge_two (occupies (s.mem.capacity g) g (place s.mem g k)) n s.pc i j below at_most
          ne in
      let one = inv.one g (place s.mem g k) old in (omega arith, omega arith)

  act-Heard_other :
      (b : Bool) (c : Choice) (i : ℕ)
      → i < n
      → i ≢ j
      → (p : Pc) → s.pc i ≡ p
      → Heard i s.mem p
      → Heard i (act b j c s.mem (s.pc j)).0 p
  act-Heard_other b c i below ne (checking g k) here h =
      let old = subst (Known s.mem.made) here (inv.known i) in
      let (full, away) = others-away i g k below ne old (rw here (ground arith)) in
      act-registered j b c s.mem i g k ne old full h (s.pc j) away
  act-Heard_other b c i below ne (pending g k) here h =
      let old = subst (Known s.mem.made) here (inv.known i) in
      let (full, away) = others-away i g k below ne old (rw here (ground arith)) in
      act-registered j b c s.mem i g k ne old full h (s.pc j) away
  act-Heard_other b c i below ne p here h = ground arith

module _ {n : ℕ} {s : System} (inv : Inv n s) (j : ℕ) (at_most : j < n)
    (heard : (i : ℕ) → i < n → Heard i s.mem (s.pc i)) where
  update-Heard :
      (m : Shared) (q : Pc)
      → Heard j m q
      → ((i : ℕ) → i < n → i ≢ j → Heard i m (s.pc i))
      → (i : ℕ) → i < n
      → Heard i m (update s.pc j q i)
  update-Heard m q own others i below = elim (ℕ_discrete i j) [
    | yes e ↦ rw (e, update_self s.pc j q) own
    | no ne ↦ subst (Heard i m) (sym (update-ne s.pc j q i ne)) (others i below ne)
  ]

  step-Heard : (e : Event) (i : ℕ) → i < n → Heard i (step j e s).mem ((step j e s).pc i)
  unfolding step
  step-Heard wait_if =
      update-Heard s.mem (begin entering (s.pc j))
        (begin-Heard j s.mem entering (s.pc j) tt (heard j at_most)) (λ i below ne. heard i below)
  step-Heard (notify a) =
      update-Heard s.mem (begin (loading a) (s.pc j))
        (begin-Heard j s.mem (loading a) (s.pc j) tt (heard j at_most))
        (λ i below ne. heard i below)
  step-Heard (run b c) =
      update-Heard (act b j c s.mem (s.pc j)).0 (act b j c s.mem (s.pc j)).1
        (act-Heard j b c s.mem (s.pc j) (heard j at_most))
        (λ i below ne. act-Heard_other inv j at_most b c i below ne (s.pc i) refl (heard i below))

Reach-Heard : {cap n : ℕ} {s : System} → Reach cap n s → (i : ℕ) → i < n → Heard i s.mem (s.pc i)
Reach-Heard start i below = tt
Reach-Heard (later j e lt r) i below = step-Heard (Reach-Inv r) j lt (Reach-Heard r) e i below

-- In every state that the tasks of a queue reach, if the wait of task `i` for the iteration `k` of the
-- generation `g` is pending, its bucket has the waker of that task, or the waker was called since the
-- wait was last polled.
pub no_wait_is_forgotten :
    {cap n : ℕ} {s : System}
    → Reach cap n s
    → (i g k : ℕ) → i < n
    → s.pc i ≡ pending g k
    → (look s.mem g k ≡ waiting i) ⊎ (s.mem.called i ≡ true)
no_wait_is_forgotten {s} r i g k below here =
    let known = subst (Heard i s.mem) here (Reach-Heard r i below) in ground arith
