-- ===== src/Condvar/Steps.antt =====
-- A step of a task of condvar.rs keeps the invariant.
use mathlib.Core.Path.{subst}
use native.Mathlib.Decide.{dec_lt, ℕ_discrete}
use async_mutex.Common.{
  ℕ, ◌+◌, ◌-◌, ◌≤◌, ◌<◌, ◌≡◌, ◌≢◌, inl, inr, refl, sym, ap, ◌∙◌, arith, Bool, true, false, not,
  ◌&&◌, ◌||◌, Bool-cases, [], ◌∷◌, ◌++◌, reverse, take, drop, take-append-drop, count, count-append,
  tally, tally-ge, tally-pos, tally-update, update, update_self, update-ne, ◌==◌, if◌then◌else◌,
}
use async_mutex.Atomic.{from_bool}
use async_mutex.Tasks.{Choice, newest}
use async_mutex.Tasks.Counts.{count-enqueue}
use async_mutex.FairMutex
use async_mutex.FairMutex.Lock.{step-waker, step-pc}
use async_mutex.Condvar.{
  Shared, Seat, unused, moved, entering, parked, stays, is_moved, drops_sleeping, settled, Pc,
  outside, loading, entering_round, checking, locking, enqueueing, popping, releasing, relocking,
  linking, requeueing, unlocking, System, act, mutex_step, mutex_ptr, wins, is_dropping,
}
use async_mutex.Condvar.Invariant.{is_parked, hands, borrowing, Ready, Seated, Calls, Inv}

-- The task is in a call.
abbrev pub in_call : Pc → Bool
in_call outside = false
in_call p = true

Calls-critical :
    (m : FairMutex.System) (seat : ℕ → Seat) (j : ℕ) (p : Pc)
    → in_call p ≡ true
    → Calls m seat j p
    → m.pc j ≡ FairMutex.critical
Calls-critical m seat j p b h = ground arith

Calls-outside :
    (m : FairMutex.System) (seat : ℕ → Seat) (j : ℕ) (p : Pc) → in_call p ≡ false → Calls m seat j p
Calls-outside m seat j p b = ground arith

borrowing-in_call : (p : Pc) → 1 ≤ borrowing p → in_call p ≢ false
borrowing-in_call p h e = ground arith

-- Neither in the loop of `wait` nor in that of `requeue`, and in a call.
abbrev pub IsQuiet : Pc → Type 0
IsQuiet outside = ⊥
IsQuiet (entering_round w a t) = ⊥
IsQuiet (requeueing list a t) = ⊥
IsQuiet _ = Unit

from_bool-le : (b : Bool) → from_bool b ≤ 1
from_bool-le b = ground arith

pub if_Inv :
    {n : ℕ} (b : Bool) {s t : System}
    → (b ≡ true → Inv n s)
    → (b ≡ false → Inv n t)
    → Inv n (if b then s else t)
if_Inv true h k = h refl
if_Inv false h k = k refl

module _ {n : ℕ} {s : System} (inv : Inv n s) (i : ℕ) (lt : i < n) where
  pub own-critical : in_call (s.pc i) ≡ true → s.mutex.pc i ≡ FairMutex.critical
  own-critical here = Calls-critical s.mutex s.seat i (s.pc i) here (inv.calls i)

  -- While a task has the guard, no other is in a call.
  pub alone : s.mutex.pc i ≡ FairMutex.critical → (j : ℕ) → j ≢ i → in_call (s.pc j) ≡ false
  alone ci j ne = elim (Bool-cases (in_call (s.pc j))) [
    | inr e ↦ e
    | inl there ↦
        let cj = Calls-critical s.mutex s.seat j (s.pc j) there (inv.calls j) in
        absurd (
          ground (
            arith,
            (FairMutex.Safety.mutual_exclusion inv.reach i j (λ e. ne (sym e)) (rw ci refl)).0,
            cj,
          ))
  ]

  pub others :
      s.mutex.pc i ≡ FairMutex.critical
      → (m : FairMutex.System) (seat : ℕ → Seat) (p' : Pc) → Calls m seat i p'
      → (j : ℕ) → Calls m seat j (update s.pc i p' j)
  others ci m seat p' own j = elim (ℕ_discrete j i) [
    | yes e ↦ rw (e, update_self s.pc i p') own
    | no ne ↦ rw (update-ne s.pc i p' j ne) (Calls-outside m seat j (s.pc j) (alone ci j ne))
  ]

  pub hands_after :
      (p' : Pc) (w : ℕ)
      → tally (hands w) n (update s.pc i p') + hands w (s.pc i)
        ≡ tally (hands w) n s.pc + hands w p'
  hands_after p' w = tally-update (hands w) n s.pc i p' lt

  -- A step of a call that leaves the mutex and the seats as they are.
  pub quiet_call :
      (mem' : Shared) (p' : Pc)
      → s.mutex.pc i ≡ FairMutex.critical
      → Calls s.mutex s.seat i p'
      → ((w : ℕ)
          → count w mem'.inbox + count w mem'.queue + hands w p'
            ≡ count w s.mem.inbox + count w s.mem.queue + hands w (s.pc i))
      → from_bool mem'.borrowed + borrowing (s.pc i) ≡ from_bool s.mem.borrowed + borrowing p'
      → mem'.atom ≤ 1
      → mem'.panicked ≡ false
      → Inv n (record { mutex = s.mutex; mem = mem'; seat = s.seat; pc = update s.pc i p' })
  quiet_call mem' p' ci own same borrows small calm = record {
    reach = inv.reach;
    place = λ w. omega (arith, inv.place w, same w, hands_after p' w);
    seated = inv.seated;
    calls = others ci s.mutex s.seat p' own;
    borrowed_is = omega (arith, inv.borrowed_is, borrows, tally-update borrowing n s.pc i p' lt);
    atom-le = small;
    calm = calm;
  }

  pub quiet_step :
      (mem' : Shared) (p' : Pc)
      → in_call (s.pc i) ≡ true
      → Calls s.mutex s.seat i p'
      → ((w : ℕ)
          → count w mem'.inbox + count w mem'.queue + hands w p'
            ≡ count w s.mem.inbox + count w s.mem.queue + hands w (s.pc i))
      → from_bool mem'.borrowed + borrowing (s.pc i) ≡ from_bool s.mem.borrowed + borrowing p'
      → mem'.atom ≤ 1
      → mem'.panicked ≡ false
      → Inv n (record { mutex = s.mutex; mem = mem'; seat = s.seat; pc = update s.pc i p' })
  quiet_step mem' p' here own same borrows small calm =
      quiet_call mem' p' (own-critical here) own same borrows small calm

  Ready-step : (c : Choice) (w : ℕ) → w ≢ i → Ready s.mutex w → Ready (FairMutex.step i c s.mutex) w
  Ready-step c w ne r = record {
    snapshot = r.snapshot;
    newest = r.newest;
    taken = r.taken;
    trying = step-pc s.mutex i c w ne ∙ r.trying;
    waits = step-waker inv.reach i lt c w ne (rw r.trying refl) ∙ r.waits;
  }

  Seated-step :
      (c : Choice) (w : ℕ) (k : Seat)
      → w ≢ i
      → Seated n s.mutex w k
      → Seated n (FairMutex.step i c s.mutex) w k
  Seated-step c w unused ne h = tt
  Seated-step c w moved ne h = tt
  Seated-step c w entering ne (pos, below, inl e) = (pos, below, inl (step-pc s.mutex i c w ne ∙ e))
  Seated-step c w entering ne (pos, below, inr r) = (pos, below, inr (Ready-step c w ne r))
  Seated-step c w parked ne (pos, below, r) = (pos, below, Ready-step c w ne r)

  Calls-step :
      (c : Choice) (seat : ℕ → Seat)
      → ((w : ℕ) → s.seat w ≡ entering → seat w ≡ entering)
      → (j : ℕ) (p : Pc) → j ≢ i
      → Calls s.mutex s.seat j p
      → Calls (FairMutex.step i c s.mutex) seat j p
  Calls-step c seat kept j (loading w) ne h = (step-pc s.mutex i c j ne ∙ h.0, kept w h.1)
  Calls-step c seat kept j (entering_round w a t) ne h =
      (step-pc s.mutex i c j ne ∙ h.0, kept w h.1, h.2)
  Calls-step c seat kept j p ne h = let same = step-pc s.mutex i c j ne in ground (arith, same)

  settled-Seated :
      (m : FairMutex.System) (k : Seat) (p : FairMutex.Pc)
      → stays k ≡ false
      → (is_parked (settled k p) ≡ is_parked k) × Seated n m i (settled k p)
  settled-Seated m k p h = ground arith

  abbrev after_step : Choice → FairMutex.System
  after_step c = FairMutex.step i c s.mutex

  abbrev seats_after : Choice → ℕ → Seat
  seats_after c = update s.seat i (settled (s.seat i) ((after_step c).pc i))

  mutex_step-Inv :
      (c : Choice)
      → i ≢ 0
      → s.pc i ≡ outside
      → stays (s.seat i) ≡ false
      → Inv n (record s { mutex = after_step c; seat = seats_after c })
  mutex_step-Inv c pos here free =
      let (same, seated) = settled-Seated (after_step c) (s.seat i) ((after_step c).pc i) free in
      record {
        reach = FairMutex.Safety.later i c pos lt inv.reach;
        place = λ w. elim (ℕ_discrete w i) [
          | yes e ↦
              rw (e, update_self s.seat i (settled (s.seat i) ((after_step c).pc i)))
                (inv.place i ∙ sym same)
          | no ne ↦
              rw (update-ne s.seat i (settled (s.seat i) ((after_step c).pc i)) w ne) (inv.place w)
        ];
        seated = λ w. elim (ℕ_discrete w i) [
          | yes e ↦ rw (e, update_self s.seat i (settled (s.seat i) ((after_step c).pc i))) seated
          | no ne ↦
              rw (update-ne s.seat i (settled (s.seat i) ((after_step c).pc i)) w ne)
                (Seated-step c w (s.seat w) ne (inv.seated w))
        ];
        calls = λ j. elim (ℕ_discrete j i) [
          | yes e ↦ rw (e, here) tt
          | no ne ↦
              Calls-step c (seats_after c)
                (λ w e.
                  update-ne s.seat i (settled (s.seat i) ((after_step c).pc i)) w
                    (λ x. ground (arith, x, e, free))
                  ∙ e)
                j (s.pc j) ne (inv.calls j)
        ];
        borrowed_is = inv.borrowed_is;
        atom-le = inv.atom-le;
        calm = inv.calm;
      }

  aborted-Inv : Inv n (record s { mem = record s.mem { aborted = true } })
  aborted-Inv = record {
    reach = inv.reach;
    place = inv.place;
    seated = inv.seated;
    calls = inv.calls;
    borrowed_is = inv.borrowed_is;
    atom-le = inv.atom-le;
    calm = inv.calm;
  }

  pub run_outside : (c : Choice) → i ≢ 0 → s.pc i ≡ outside → Inv n (mutex_step c s i)
  unfolding mutex_step
  run_outside c pos here =
      if_Inv (stays (s.seat i) || (is_dropping (s.mutex.pc i) && not (s.mem.guards == 0)))
        (λ e. inv)
        (λ goes.
          if_Inv (is_moved (s.seat i) && drops_sleeping (s.mutex.pc i) (s.mutex.mem.waker i))
            (λ e. aborted-Inv) (λ e. mutex_step-Inv c pos here (ground (arith, goes))))

  -- No other task has the guard of the queue.
  not_borrowed : in_call (s.pc i) ≡ true → borrowing (s.pc i) ≡ 0 → s.mem.borrowed ≡ false
  not_borrowed here none = elim (dec_lt 0 (tally borrowing n s.pc)) [
    | no k ↦ ground (arith, inv.borrowed_is)
    | yes some ↦
        let (j, below, h) = tally-pos borrowing n s.pc some in
        elim (ℕ_discrete j i) [
          | yes e ↦ absurd (omega (arith, rw e at h, none))
          | no ne ↦ absurd (borrowing-in_call (s.pc j) h (alone (own-critical here) j ne))
        ]
  ]

  -- The steps of a call that leave the mutex and the seats as they are.
  pub run_quiet : (c : Choice) (p : Pc) → s.pc i ≡ p → IsQuiet p → Inv n (act i c s p)
  unfolding act
  run_quiet c (loading w) here q =
      let own = subst (Calls s.mutex s.seat i) here (inv.calls i) in
      quiet_step s.mem (entering_round w s.mem.atom (newest s.mem.inbox)) (rw here refl)
        (own.0, own.1, inv.atom-le) (λ w. rw here (omega arith)) (rw here refl) inv.atom-le inv.calm
  run_quiet c (checking k) here q =
      let own = subst (Calls s.mutex s.seat i) here (inv.calls i) in
      let small = inv.atom-le in
      if_Inv (s.mem.atom == 0)
        (λ e.
          quiet_step s.mem outside (rw here refl) tt (λ w. rw here refl) (rw here refl) inv.atom-le
            inv.calm)
        (λ e.
          if_Inv (not (s.mem.atom == mutex_ptr)) (λ e'. absurd (ground arith))
            (λ e'.
              quiet_step s.mem (locking k s.mem.atom (newest s.mem.inbox)) (rw here refl) own
                (λ w. rw here refl) (rw here refl) inv.atom-le inv.calm))
  run_quiet c (locking k a t) here q =
      let own = subst (Calls s.mutex s.seat i) here (inv.calls i) in
      let free = not_borrowed (rw here refl) (rw here refl) in
      if_Inv s.mem.borrowed (λ e. absurd (ground (arith, free, e)))
        (λ e.
          quiet_step (record s.mem { borrowed = true }) (enqueueing k a t) (rw here refl) own
            (λ w. rw here refl) (rw (here, free) refl) inv.atom-le inv.calm)
  run_quiet c (enqueueing k a t) here q =
      let own = subst (Calls s.mutex s.seat i) here (inv.calls i) in
      if_Inv (wins c s.mem a t)
        (λ e.
          quiet_step
            (record s.mem {
              atom = mutex_ptr;
              inbox = [];
              queue = s.mem.queue ++ reverse s.mem.inbox;
            })
            (popping k) (rw here refl) own
            (λ w. rw here (omega (arith, count-enqueue w s.mem.queue s.mem.inbox))) (rw here refl)
            (omega arith) inv.calm)
        (λ e.
          quiet_step s.mem (enqueueing k s.mem.atom (newest s.mem.inbox)) (rw here refl) own
            (λ w. rw here refl) (rw here refl) inv.atom-le inv.calm)
  run_quiet c (popping k) here q =
      let own = subst (Calls s.mutex s.seat i) here (inv.calls i) in
      quiet_step (record s.mem { queue = drop k s.mem.queue }) (releasing (take k s.mem.queue))
        (rw here refl) own
        (λ w. rw here (
          omega (
            arith,
            count-append w (take k s.mem.queue) (drop k s.mem.queue),
            ap (count w) (take-append-drop k s.mem.queue),
          )))
        (rw here refl) inv.atom-le inv.calm
  run_quiet c (releasing list) here q =
      let own = subst (Calls s.mutex s.seat i) here (inv.calls i) in
      let held : 1 ≤ from_bool s.mem.borrowed =
        omega (arith, inv.borrowed_is, rw here at (tally-ge borrowing n s.pc i lt)) in
      quiet_step (record s.mem { borrowed = false }) (relocking list) (rw here refl) own
        (λ w. rw here refl) (rw here (omega (arith, held, from_bool-le s.mem.borrowed))) inv.atom-le
        inv.calm
  run_quiet c (relocking list) here q =
      let own = subst (Calls s.mutex s.seat i) here (inv.calls i) in
      if_Inv s.mutex.mem.writer (λ e. inv)
        (λ e.
          quiet_step (record s.mem { guards = s.mem.guards + 1 }) (linking list) (rw here refl) own
            (λ w. rw here refl) (rw here refl) inv.atom-le inv.calm)
  run_quiet c (linking []) here q =
      let own = subst (Calls s.mutex s.seat i) here (inv.calls i) in
      quiet_step s.mem unlocking (rw here refl) own (λ w. rw here refl) (rw here refl) inv.atom-le
        inv.calm
  run_quiet c (linking (v ∷ vs)) here q =
      let own = subst (Calls s.mutex s.seat i) here (inv.calls i) in
      quiet_step s.mem (requeueing (v ∷ vs) s.mutex.mem.atom (newest s.mutex.mem.inbox))
        (rw here refl) own (λ w. rw here refl) (rw here refl) inv.atom-le inv.calm
  run_quiet c unlocking here q =
      quiet_step (record s.mem { guards = s.mem.guards - 1 }) outside (rw here refl) tt
        (λ w. rw here refl) (rw here refl) inv.atom-le inv.calm
  run_quiet c outside here q = elim q [ ]
  run_quiet c (entering_round w a t) here q = elim q [ ]
  run_quiet c (requeueing list a t) here q = elim q [ ]
