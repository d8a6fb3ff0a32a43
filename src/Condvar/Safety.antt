-- ===== src/Condvar/Safety.antt =====
-- The condition variable of condvar.rs keeps the promises of the mutex of fair_mutex.rs, and loses no
-- waiter.
use native.Mathlib.Decide.{ℕ_discrete}
use async_mutex.Common.{
  ℕ, ◌<◌, ◌≡◌, ◌≢◌, inl, refl, arith, true, false, ◌&&◌, tally-update, tally-eq-zero, update,
  update_self, update-ne,
}
use async_mutex.Tasks.{Choice}
use async_mutex.FairMutex
use async_mutex.Condvar.{
  unused, entering, Pc, outside, loading, entering_round, checking, requeueing, System, Event, wait,
  notify, run, act, step, may_call, is_unused, is_idle, Reach, start, later, IsProper,
}
use async_mutex.Condvar.Invariant.{hands, borrowing, Inv}
use async_mutex.Condvar.Steps.{others, hands_after, quiet_call, if_Inv, run_outside, run_quiet}
use async_mutex.Condvar.Requeue.{requeue_round-Inv}
use async_mutex.Condvar.Calls.{wait_round-Inv}

module _ {n : ℕ} {s : System} (inv : Inv n s) (i : ℕ) (pos : i ≢ 0) (lt : i < n) where
  act-Inv : (c : Choice) (p : Pc) → s.pc i ≡ p → Inv n (act i c s p)
  unfolding act
  act-Inv c outside here = run_outside inv i lt c pos here
  act-Inv c (entering_round w a t) here = wait_round-Inv inv i pos lt w a t here c
  act-Inv c (requeueing ws a t) here = requeue_round-Inv inv i pos lt ws a t here c
  act-Inv c p here = run_quiet inv i lt c p here tt

  may_call-critical : may_call s i ≡ true → (s.pc i ≡ outside) × (s.mutex.pc i ≡ FairMutex.critical)
  may_call-critical h = ground arith

  notify-Inv : (k : ℕ) → Inv n (step i (notify k) s)
  unfolding step
  notify-Inv k =
      if_Inv (may_call s i)
        (λ e.
          let (here, critical) = may_call-critical e in
          quiet_call inv i lt s.mem (checking k) critical critical (λ w. rw here refl)
            (rw here refl) inv.atom-le inv.calm)
        (λ e. inv)

  wait_parts :
      (w : ℕ)
      → (may_call s i && (is_unused (s.seat w) && is_idle (s.mutex.pc w))) ≡ true
      → (s.pc i ≡ outside)
        × (s.mutex.pc i ≡ FairMutex.critical)
        × (s.seat w ≡ unused)
        × (s.mutex.pc w ≡ FairMutex.idle)
  wait_parts w h = ground arith

  -- The waiter of a new call is in no list yet.
  entering_call :
      (w : ℕ)
      → w ≢ 0
      → w < n
      → (s.pc i ≡ outside)
        × (s.mutex.pc i ≡ FairMutex.critical)
        × (s.seat w ≡ unused)
        × (s.mutex.pc w ≡ FairMutex.idle)
      → Inv n (record s { seat = update s.seat w entering; pc = update s.pc i (loading w) })
  entering_call w some below (here, critical, free, idle) = record {
    reach = inv.reach;
    place = λ v. ground (arith, inv.place v, rw here at (hands_after inv i lt (loading w) v), free);
    seated = λ v. elim (ℕ_discrete v w) [
      | yes e ↦ rw (e, update_self s.seat w entering) (some, below, inl idle)
      | no ne ↦ rw (update-ne s.seat w entering v ne) (inv.seated v)
    ];
    calls =
        others inv i lt critical s.mutex (update s.seat w entering) (loading w)
          (critical, update_self s.seat w entering);
    borrowed_is =
        omega (arith, inv.borrowed_is, rw here at (tally-update borrowing n s.pc i (loading w) lt));
    atom-le = inv.atom-le;
    calm = inv.calm;
  }

  wait-Inv : (w : ℕ) → w ≢ 0 → w < n → Inv n (step i (wait w) s)
  unfolding step
  wait-Inv w some below =
      if_Inv (may_call s i && (is_unused (s.seat w) && is_idle (s.mutex.pc w)))
        (λ e. entering_call w some below (wait_parts w e)) (λ e. inv)

  step-Inv : (e : Event) → IsProper n e → Inv n (step i e s)
  unfolding step
  step-Inv (wait w) (some, below) = wait-Inv w some below
  step-Inv (notify k) proper = notify-Inv k
  step-Inv (run c) proper = act-Inv c (s.pc i) refl

pub Reach-Inv : {n : ℕ} {s : System} → Reach n s → Inv n s
Reach-Inv {n} start = record {
  reach = FairMutex.Safety.start;
  place = λ w. omega (arith, tally-eq-zero (hands w) n (λ _. outside) (λ _. refl));
  seated = λ w. tt;
  calls = λ j. tt;
  borrowed_is = omega (arith, tally-eq-zero borrowing n (λ _. outside) (λ _. refl));
  atom-le = omega arith;
  calm = refl;
}
Reach-Inv (later i e pos lt proper r) = step-Inv (Reach-Inv r) i pos lt e proper

-- Whatever the tasks of a condition variable and its mutex do, except for the drop of a `wait` that is
-- not yet woken, the mutex is in a state that tasks reach which only lock and unlock it; so all that
-- holds of the states of fair_mutex.rs holds of it. The drop of a `wait` that was moved to the mutex
-- and not yet woken is excluded from the point at which it comes to `todo!()`, and that of a `wait`
-- that was not moved is no event of the model.
pub condvar-Reach :
    {n : ℕ} {s : System} → Reach n s → s.mem.aborted ≡ false → FairMutex.Safety.Reach n s.mutex
condvar-Reach r _ = (Reach-Inv r).reach
