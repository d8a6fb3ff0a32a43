-- ===== src/Condvar/Calls.antt =====
-- The rounds of `wait` and `requeue` of condvar.rs keep the invariant.
use mathlib.Core.Path.{subst}
use native.Mathlib.Decide.{ℕ_discrete}
use async_mutex.Common.{
  ℕ, ◌<◌, ◌≡◌, ◌≢◌, ◌⊎◌, inl, inr, refl, sym, ap, ◌∙◌, arith, not, ◌||◌, ◌∷◌, tally-update, update,
  update_self, update-ne, ◌==◌,
}
use async_mutex.Tasks.{waiting, Choice, newest}
use async_mutex.FairMutex
use async_mutex.FairMutex.Lock.{tries-Reach, critical-taken, unlock-Reach}
use async_mutex.Condvar.{
  Seat, unused, moved, entering, parked, outside, entering_round, System, wait_round, prepare,
  start_unlock, mutex_ptr, wins,
}
use async_mutex.Condvar.Invariant.{borrowing, Ready, Seated, Calls, Inv}
use async_mutex.Condvar.Steps.{others, hands_after, if_Inv}

-- Nothing changes for waiter `v` in the mutex.
abbrev pub Untouched : (m m' : FairMutex.System) → ℕ → Type 0
Untouched m m' v = (m'.pc v ≡ m.pc v) × (m'.mem.waker v ≡ m.mem.waker v)

pub Ready-Untouched : {m m' : FairMutex.System} (v : ℕ) → Untouched m m' v → Ready m v → Ready m' v
Ready-Untouched v (p, k) r = record {
  snapshot = r.snapshot;
  newest = r.newest;
  taken = r.taken;
  trying = p ∙ r.trying;
  waits = k ∙ r.waits;
}

pub Seated-Untouched :
    (n : ℕ) (m m' : FairMutex.System) (v : ℕ) (k : Seat)
    → Untouched m m' v
    → Seated n m v k
    → Seated n m' v k
Seated-Untouched n m m' v unused u h = tt
Seated-Untouched n m m' v moved u h = tt
Seated-Untouched n m m' v entering u (pos, lt, inl e) = (pos, lt, inl (u.0 ∙ e))
Seated-Untouched n m m' v entering u (pos, lt, inr r) = (pos, lt, inr (Ready-Untouched v u r))
Seated-Untouched n m m' v parked u (pos, lt, r) = (pos, lt, Ready-Untouched v u r)

-- The waiter of a call after a round.
record Prepared (n : ℕ) (m m' : FairMutex.System) (w : ℕ) : Type 0 where
  reach : FairMutex.Safety.Reach n m'
  ready : Ready m' w
  rest : (v : ℕ) → v ≢ w → Untouched m m' v

prepare-Prepared :
    {n : ℕ} {m : FairMutex.System} (w : ℕ)
    → FairMutex.Safety.Reach n m
    → m.mem.atom ≡ 1
    → w ≢ 0
    → w < n
    → (m.pc w ≡ FairMutex.idle) ⊎ Ready m w
    → Prepared n m (prepare m w (m.pc w)) w
prepare-Prepared {n} {m} w r one pos lt (inl e) =
    subst (λ p. Prepared n m (prepare m w p) w) (sym e)
      (record {
        reach = tries-Reach r w pos lt one e;
        ready = record {
          snapshot = m.mem.atom;
          newest = newest m.mem.inbox;
          taken = one;
          trying = update_self m.pc w _;
          waits = update_self m.mem.waker w waiting;
        };
        rest = λ v ne. (update-ne m.pc w _ v ne, update-ne m.mem.waker w waiting v ne);
      })
prepare-Prepared {n} {m} w r one pos lt (inr k) =
    subst (λ p. Prepared n m (prepare m w p) w) (sym k.trying)
      (record { reach = r; ready = k; rest = λ v ne. (refl, refl) })

-- A waiter does not have the mutex.
pub idle_seat :
    (n : ℕ) (m : FairMutex.System) (i : ℕ) (k : Seat)
    → m.pc i ≡ FairMutex.critical
    → Seated n m i k
    → (k ≡ unused) ⊎ (k ≡ moved)
idle_seat n m i unused ci h = inl refl
idle_seat n m i moved ci h = inr refl
idle_seat n m i entering ci (pos, lt, inl e) = absurd (ground (arith, ci, e))
idle_seat n m i entering ci (pos, lt, inr r) = absurd (ground (arith, ci, r.trying))
idle_seat n m i parked ci (pos, lt, r) = absurd (ground (arith, ci, r.trying))

module _ {n : ℕ} {s : System} (inv : Inv n s) (i : ℕ) (pos : i ≢ 0) (lt : i < n) where
  module _ (w a t : ℕ) (here : s.pc i ≡ entering_round w a t) where
    known : Calls s.mutex s.seat i (entering_round w a t)
    known = subst (Calls s.mutex s.seat i) here (inv.calls i)

    entry : (w ≢ 0) × (w < n) × ((s.mutex.pc w ≡ FairMutex.idle) ⊎ Ready s.mutex w)
    entry = subst (Seated n s.mutex w) known.1 (inv.seated w)

    other : i ≢ w
    other e =
        let free : (s.seat w ≡ unused) ⊎ (s.seat w ≡ moved) =
          idle_seat n s.mutex w (s.seat w) (ap s.mutex.pc (sym e) ∙ known.0) (inv.seated w) in
        absurd (ground (arith, free, known.1))

    abbrev after : FairMutex.System
    after = prepare s.mutex w (s.mutex.pc w)

    prepared : Prepared n s.mutex after w
    prepared =
        prepare-Prepared w inv.reach (critical-taken inv.reach i known.0) entry.0 entry.1 entry.2

    still-critical : after.pc i ≡ FairMutex.critical
    still-critical = (prepared.rest i other).0 ∙ known.0

    -- The exchange failed.
    lost_round : Inv n (record {
      mutex = after;
      mem = s.mem;
      seat = s.seat;
      pc = update s.pc i (entering_round w s.mem.atom (newest s.mem.inbox));
    })
    lost_round = record {
      reach = prepared.reach;
      place = λ v. omega (
        arith,
        inv.place v,
        rw here at (hands_after inv i lt (entering_round w s.mem.atom (newest s.mem.inbox)) v),
      );
      seated = λ v. elim (ℕ_discrete v w) [
        | yes e ↦ rw (e, known.1) (entry.0, entry.1, inr prepared.ready)
        | no ne ↦ Seated-Untouched n s.mutex after v (s.seat v) (prepared.rest v ne) (inv.seated v)
      ];
      calls =
          others inv i lt known.0 after s.seat (entering_round w s.mem.atom (newest s.mem.inbox))
            (still-critical, known.1, inv.atom-le);
      borrowed_is = omega (
        arith,
        inv.borrowed_is,
        rw here at
            (tally-update borrowing n s.pc i (entering_round w s.mem.atom (newest s.mem.inbox)) lt),
      );
      atom-le = inv.atom-le;
      calm = inv.calm;
    }

    abbrev released : FairMutex.System
    released = start_unlock after i

    released-Untouched : (v : ℕ) → v ≢ i → Untouched after released v
    released-Untouched v ne = (update-ne after.pc i FairMutex.unlocking v ne, refl)

    released-Seated : (v : ℕ) (k : Seat) → Seated n after v k → Seated n released v k
    released-Seated v k h = elim (ℕ_discrete v i) [
      | yes same ↦ elim (idle_seat n after v k (ap after.pc same ∙ still-critical) h) [
        | inl e ↦ rw e tt
        | inr e ↦ rw e tt
      ]
      | no ne ↦ Seated-Untouched n after released v k (released-Untouched v ne) h
    ]

    -- The exchange won, and the task unlocks the mutex.
    won_round : Inv n (record {
      mutex = released;
      mem = record s.mem { atom = mutex_ptr; inbox = w ∷ s.mem.inbox };
      seat = update s.seat w parked;
      pc = update s.pc i outside;
    })
    won_round = record {
      reach = unlock-Reach prepared.reach i pos lt still-critical;
      place =
          λ v. ground (arith, inv.place v, rw here at (hands_after inv i lt outside v), known.1);
      seated = λ v. elim (ℕ_discrete v w) [
        | yes e ↦
            rw (e, update_self s.seat w parked)
              (
                entry.0,
                entry.1,
                Ready-Untouched w (released-Untouched w (λ x. other (sym x))) prepared.ready,
              )
        | no ne ↦ rw (update-ne s.seat w parked v ne) (
            released-Seated v (s.seat v)
              (Seated-Untouched n s.mutex after v (s.seat v) (prepared.rest v ne) (inv.seated v)))
      ];
      calls = others inv i lt known.0 released (update s.seat w parked) outside tt;
      borrowed_is =
          omega (arith, inv.borrowed_is, rw here at (tally-update borrowing n s.pc i outside lt));
      atom-le = omega arith;
      calm = inv.calm;
    }

    pub wait_round-Inv : (c : Choice) → Inv n (wait_round c s i w a t)
    unfolding wait_round
    wait_round-Inv c =
        let small = known.2 in
        if_Inv (not ((a == 0) || (a == mutex_ptr))) (λ e. absurd (ground arith))
          (λ e. if_Inv (wins c s.mem a t) (λ e'. won_round) (λ e'. lost_round))
