-- ===== src/FairMutex/Lock.antt =====
-- The steps of a call of `lock` of fair_mutex.rs on a mutex that is taken, up to the push of its waiter,
-- and what other tasks leave alone meanwhile.
use mathlib.Core.Path.{fun_ext, subst}
use native.Mathlib.Decide.{ℕ_discrete}
use async_mutex.Common.{
  ℕ, ◌≤◌, ◌<◌, ◌≡◌, ◌≢◌, refl, sym, ap, ap₂, ◌∙◌, arith, true, false, ◌&&◌, ◌∷◌, tally, tally-ge,
  update, update_self, update-ne, ◌==◌,
}
use async_mutex.FairMutex.{
  Choice, go, spurious, newest, Waker, none, waiting, done, System, Shared, Pc, idle, trying,
  asleep, critical, unlocking, waking, act, step, put_waker, poll_enter, poll_waiting, on_cancel,
  pop, wake,
}
use async_mutex.FairMutex.Invariant.{holds, aims, pushed, Inv}
use async_mutex.FairMutex.Safety.{Reach, later, Reach-Inv}

update_moves : {A : Type 0} (f : ℕ → A) (w : ℕ) (a b : A) → update (update f w a) w b ≡ update f w b
update_moves f w a b = fun_ext (λ j. ground arith)

update_same : {A : Type 0} (f : ℕ → A) (w : ℕ) (a : A) → f w ≡ a → update f w a ≡ f
update_same f w a e = fun_ext (λ j. ground (arith, e))

step_at :
    (w : ℕ) (c : Choice) (s : System) (p : Pc)
    → s.pc w ≡ p
    → step w c s ≡ record { mem = (act w c s.mem p).0; pc = update s.pc w (act w c s.mem p).1 }
unfolding step
step_at w c s p e = rw e refl

-- The waker of the waiter is set, and its exchange has failed.
abbrev pub tries : System → ℕ → System
tries s w = record {
  mem = put_waker s.mem w waiting;
  pc = update s.pc w (trying s.mem.atom (newest s.mem.inbox));
}

-- The waiter is pushed.
abbrev pub pushes : System → ℕ → System
pushes s w = record { mem = record s.mem { inbox = w ∷ s.mem.inbox }; pc = update s.pc w asleep }

-- Both words are as they were read.
same_words : (a t : ℕ) → ((a == a) && (t == t)) ≡ true
same_words a t = ground arith

aims_self : (w : ℕ) → aims w (waking w) ≡ 1
aims_self w = ground arith

act-spurious :
    (w a t : ℕ) (m : Shared) (k : Waker)
    → a ≡ 1
    → m.waker w ≡ k
    → k ≢ done
    → act w spurious m (trying a t) ≡ (put_waker m w waiting, trying m.atom (newest m.inbox))
unfolding act poll_enter
act-spurious w a t m none e h ne = rw (e, h) refl
act-spurious w a t m waiting e h ne = rw (e, h) refl
act-spurious w a t m done e h ne = absurd (ne refl)

act-push :
    (w : ℕ) (m : Shared)
    → m.atom ≡ 1
    → m.waker w ≡ waiting
    → act w go m (trying m.atom (newest m.inbox)) ≡ (record m { inbox = w ∷ m.inbox }, asleep)
unfolding act poll_enter
act-push w m e h =
    let not_free : (m.atom == 0) ≡ false = ground arith in
    rw (not_free, h, same_words m.atom (newest m.inbox))
      (ap₂ (λ a f. (record m { atom = a; inbox = w ∷ m.inbox; waker = f }, asleep)) (sym e)
        (update_same m.waker w waiting h))

act-idle :
    (w : ℕ) (m : Shared) → act w go m idle ≡ (put_waker m w none, trying m.atom (newest m.inbox))
unfolding act
act-idle w m = refl

-- One step, by what it does to the task.
moves :
    (s : System) (w : ℕ) (c : Choice) (p q : Pc) (m : Shared)
    → s.pc w ≡ p
    → act w c s.mem p ≡ (m, q)
    → step w c s ≡ record { mem = m; pc = update s.pc w q }
moves s w c p q m here e =
    step_at w c s p here ∙ ap {B = System} (λ x. record { mem = x.0; pc = update s.pc w x.1 }) e

module _ {n : ℕ} {s : System} (r : Reach n s) (w : ℕ) (pos : w ≢ 0) (lt : w < n)
    (taken : s.mem.atom ≡ 1) where
  -- A call of `lock` starts, and its first exchange fails for no reason.
  pub tries-Reach : s.pc w ≡ idle → Reach n (tries s w)
  tries-Reach here =
      let p = trying s.mem.atom (newest s.mem.inbox) in
      let started : System = record { mem = put_waker s.mem w none; pc = update s.pc w p } in
      let first : step w go s ≡ started = moves s w go idle p started.mem here (act-idle w s.mem) in
      let second : step w spurious started
          ≡ record { mem = put_waker started.mem w waiting; pc = update started.pc w p } =
        moves started w spurious p p (put_waker started.mem w waiting) (update_self s.pc w p) (
          act-spurious w s.mem.atom (newest s.mem.inbox) started.mem none taken
            (update_self s.mem.waker w none) (λ e. ground arith)) in
      let same : record { mem = put_waker started.mem w waiting; pc = update started.pc w p }
          ≡ tries s w =
        ap₂ (λ f g. record { mem = record s.mem { waker = f }; pc = g })
          (update_moves s.mem.waker w none waiting) (update_moves s.pc w p p) in
      subst (Reach n) (second ∙ same)
        (later w spurious pos lt (subst (Reach n) first (later w go pos lt r)))

  -- The exchange of a call of `lock` fails for no reason, and the next one pushes the waiter.
  pub pushes-Reach :
      (a t : ℕ) → a ≡ 1 → s.pc w ≡ trying a t → s.mem.waker w ≡ waiting → Reach n (pushes s w)
  pushes-Reach a t one here k =
      let p = trying s.mem.atom (newest s.mem.inbox) in
      let retried : System = record { mem = s.mem; pc = update s.pc w p } in
      let first : step w spurious s ≡ retried =
        moves s w spurious (trying a t) p (put_waker s.mem w waiting) here
          (act-spurious w a t s.mem waiting one k (λ e. ground arith))
        ∙ ap (λ f. record { mem = record s.mem { waker = f }; pc = update s.pc w p })
            (update_same s.mem.waker w waiting k) in
      let second : step w go retried ≡ record {
        mem = record s.mem { inbox = w ∷ s.mem.inbox };
        pc = update retried.pc w asleep;
      } =
        moves retried w go p asleep (record s.mem { inbox = w ∷ s.mem.inbox })
          (update_self s.pc w p) (act-push w s.mem taken k) in
      let same : record {
        mem = record s.mem { inbox = w ∷ s.mem.inbox };
        pc = update retried.pc w asleep;
      }
          ≡ pushes s w =
        ap (λ g. record { mem = record s.mem { inbox = w ∷ s.mem.inbox }; pc = g })
          (update_moves s.pc w p asleep) in
      subst (Reach n) (second ∙ same)
        (later w go pos lt (subst (Reach n) first (later w spurious pos lt r)))

act-unlock : (i : ℕ) (m : Shared) → act i go m critical ≡ (m, unlocking)
unfolding act
act-unlock i m = refl

-- The guard of a task is dropped.
pub unlock-Reach :
    {n : ℕ} {s : System}
    → Reach n s
    → (i : ℕ) → i ≢ 0
    → i < n
    → s.pc i ≡ critical
    → Reach n (record s { pc = update s.pc i unlocking })
unlock-Reach {n} {s} r i pos lt here =
    subst (Reach n) (moves s i go critical unlocking s.mem here (act-unlock i s.mem))
      (later i go pos lt r)

-- While a task has the mutex, its atom says so.
pub critical-taken : {n : ℕ} {s : System} → Reach n s → (i : ℕ) → s.pc i ≡ critical → s.mem.atom ≡ 1
critical-taken {n} {s} r i here =
    let inv = Reach-Inv r in
    let below : i < n = ground (arith, inv.outside i) in
    ground (arith, inv.token, inv.small, tally-ge holds n s.pc i below)

act-waker :
    {n : ℕ} {s : System}
    → Inv n s.mem s.pc
    → (i : ℕ) → i < n
    → (c : Choice) (j : ℕ) → j ≢ i
    → pushed (s.pc j) (s.mem.waker j) ≡ 0
    → (p : Pc) → s.pc i ≡ p
    → (act i c s.mem p).0.waker j ≡ s.mem.waker j
unfolding act poll_enter poll_waiting on_cancel pop wake
act-waker {n} {s} inv i lt c j ne away (waking w) here =
    let aimed : aims w (s.pc i) ≤ tally (aims w) n s.pc = tally-ge (aims w) n s.pc i lt in
    let waits : 1 ≤ pushed (s.pc w) (s.mem.waker w) =
      omega (arith, inv.place w, rw here at aimed, aims_self w) in
    elim (ℕ_discrete j w) [
      | yes e ↦ absurd (omega (arith, rw e at away, waits))
      | no other ↦ ground arith
    ]
act-waker inv i lt c j ne away p here = ground arith

-- A step of another task leaves the waker of a task that has no waiter in the mutex.
pub step-waker :
    {n : ℕ} {s : System}
    → Reach n s
    → (i : ℕ) → i < n
    → (c : Choice) (j : ℕ) → j ≢ i
    → pushed (s.pc j) (s.mem.waker j) ≡ 0
    → (step i c s).mem.waker j ≡ s.mem.waker j
unfolding step
step-waker {n} {s} r i lt c j ne away = act-waker (Reach-Inv r) i lt c j ne away (s.pc i) refl

pub step-pc : (s : System) (i : ℕ) (c : Choice) (j : ℕ) → j ≢ i → (step i c s).pc j ≡ s.pc j
unfolding step
step-pc s i c j ne = update-ne s.pc i (act i c s.mem (s.pc i)).1 j ne
