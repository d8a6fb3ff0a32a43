-- ===== src/SpinLock/Safety.antt =====
-- The spin lock of spin_lock.rs excludes, and is free when nobody holds it.
use mathlib.Core.Path.{subst}
use native.Mathlib.Decide.{ℕ_discrete}
use async_mutex.Common.{
  ℕ, ◌≤◌, ◌≡◌, ◌≢◌, inl, inr, refl, sym, ◌∙◌, arith, Bool, true, false, update, update_self,
  Bool-cases,
}
use async_mutex.SpinLock.{
  Pc, idle, trying, yielding, holding, Choice, go, spurious, cancel, Shared, System, act, step,
  init, solo,
}

pub data Reach : System → Type 0 where
  start : Reach init
  later : {s : System} (i : ℕ) (c : Choice) → Reach s → Reach (step i c s)

-- The flag is set, and one task alone holds the lock; or the flag is clear, and no task does.
abbrev pub Owned : Bool → (ℕ → Pc) → Type 0
Owned true pc = (i : ℕ) × (pc i ≡ holding) × ((j : ℕ) → pc j ≡ holding → j ≡ i)
Owned false pc = (j : ℕ) → pc j ≢ holding

keep :
    (b : Bool) (pc : ℕ → Pc) (i : ℕ) (q : Pc)
    → pc i ≢ holding
    → q ≢ holding
    → Owned b pc
    → Owned b (update pc i q)
keep true pc i q out away (k, at, only) = (
  k,
  ground arith,
  (λ j h. elim (ℕ_discrete j i) [ yes e ↦ ground arith | no ne ↦ only j (ground arith) ]),
)
keep false pc i q out away none =
    λ j h. elim (ℕ_discrete j i) [ yes e ↦ ground arith | no ne ↦ none j (ground arith) ]

take : (pc : ℕ → Pc) (i : ℕ) → Owned false pc → Owned true (update pc i holding)
take pc i none = (
  i,
  update_self pc i holding,
  (λ j h. elim (ℕ_discrete j i) [ yes e ↦ e | no ne ↦ absurd (none j (ground arith)) ]),
)

give :
    (b : Bool) (pc : ℕ → Pc) (i : ℕ) → pc i ≡ holding → Owned b pc → Owned false (update pc i idle)
give true pc i here (k, at, only) = λ j h. elim (ℕ_discrete j i) [
  | yes e ↦ ground arith
  | no ne ↦ ne (only j (ground arith) ∙ sym (only i here))
]
give false pc i here none = λ j h. none i here

same_owner :
    (b : Bool) (pc : ℕ → Pc) (i j : ℕ) → pc i ≡ holding → pc j ≡ holding → Owned b pc → i ≡ j
same_owner true pc i j hi hj (k, at, only) = only i hi ∙ sym (only j hj)
same_owner false pc i j hi hj none = absurd (none i hi)

act-Owned :
    (i : ℕ) (c : Choice) (m : Shared) (pc : ℕ → Pc) (p : Pc)
    → pc i ≡ p
    → Owned m.state pc
    → Owned (act i c m p).0.state (update pc i (act i c m p).1)
unfolding act
act-Owned i c m pc idle here inv = keep m.state pc i trying (ground arith) (ground arith) inv
act-Owned i cancel m pc trying here inv = keep m.state pc i idle (ground arith) (ground arith) inv
act-Owned i spurious m pc trying here inv =
    keep m.state pc i (yielding false) (ground arith) (ground arith) inv
act-Owned i go m pc trying here inv = elim (Bool-cases m.state) [
  | inl locked ↦ rw locked (
      keep true pc i (yielding false) (ground arith) (ground arith)
        (subst (λ b. Owned b pc) locked inv))
  | inr free ↦ rw free (take pc i (subst (λ b. Owned b pc) free inv))
]
act-Owned i cancel m pc (yielding b) here inv =
    keep m.state pc i idle (ground arith) (ground arith) inv
act-Owned i c m pc (yielding true) here inv =
    keep m.state pc i trying (ground arith) (ground arith) inv
act-Owned i c m pc (yielding false) here inv =
    keep m.state pc i (yielding true) (ground arith) (ground arith) inv
act-Owned i c m pc holding here inv = give m.state pc i here inv

Reach-Owned : {s : System} → Reach s → Owned s.mem.state s.pc
unfolding step
Reach-Owned start = λ j h. ground arith
Reach-Owned (later {s} i c r) = act-Owned i c s.mem s.pc (s.pc i) refl (Reach-Owned r)

-- The next step of these phases enters the loop of `lock` again.
abbrev Arrives : Pc → Type 0
Arrives idle = Unit
Arrives (yielding true) = Unit
Arrives _ = ⊥

abbrev IsTrying : ℕ → System → Type 0
IsTrying i s = (s.pc i ≡ trying) × (s.mem.state ≡ false)

arrive :
    (s : System) (i : ℕ) (p : Pc)
    → s.pc i ≡ p
    → s.mem.state ≡ false
    → Arrives p
    → IsTrying i (step i go s)
unfolding step act
arrive s i idle here free ok = ground arith
arrive s i (yielding true) here free ok = ground arith
arrive s i p here free ok = ground arith

pause :
    (s : System) (i : ℕ)
    → s.pc i ≡ yielding false
    → s.mem.state ≡ false
    → ((step i go s).pc i ≡ yielding true) × ((step i go s).mem.state ≡ false)
unfolding step act
pause s i here free = ground arith

solo_trying : (s : System) (i : ℕ) → IsTrying i s → (step i go s).pc i ≡ holding
unfolding step act
solo_trying s i (here, free) = ground arith

progress :
    (s : System) (i : ℕ) (p : Pc)
    → s.pc i ≡ p
    → s.mem.state ≡ false
    → p ≢ holding
    → (k : ℕ) × (k ≤ 3) × ((solo k i s).pc i ≡ holding)
unfolding solo
progress s i idle here free out =
    (2, omega arith, solo_trying (step i go s) i (arrive s i idle here free tt))
progress s i trying here free out = (1, omega arith, solo_trying s i (here, free))
progress s i (yielding true) here free out =
    (2, omega arith, solo_trying (step i go s) i (arrive s i (yielding true) here free tt))
progress s i (yielding false) here free out =
    let (polled, free') = pause s i here free in
    (
      3,
      omega arith,
      solo_trying (step i go (step i go s)) i
          (arrive (step i go s) i (yielding true) polled free' tt),
    )
progress s i holding here free out = absurd (out refl)

-- In every reachable state of the spin lock, at most one task has the lock.
pub spin_exclusion :
    {s : System} → Reach s → (i j : ℕ) → s.pc i ≡ holding → s.pc j ≡ holding → i ≡ j
spin_exclusion {s} r i j hi hj = same_owner s.mem.state s.pc i j hi hj (Reach-Owned r)

-- In every reachable state in which the flag is set, some task has the lock: a future
-- that is dropped while it waits does not leave the lock closed.
pub spin_owner : {s : System} → Reach s → s.mem.state ≡ true → (i : ℕ) × (s.pc i ≡ holding)
spin_owner {s} r locked =
    let (i, at, only) = subst (λ b. Owned b s.pc) locked (Reach-Owned r) in (i, at)

-- If the flag is clear, a task that does not have the lock, wherever it stands, gets it within three
-- of its own steps, if these are not spurious failures and no other task runs in between.
pub spin_progress :
    (s : System) (i : ℕ)
    → s.mem.state ≡ false
    → s.pc i ≢ holding
    → (k : ℕ) × (k ≤ 3) × ((solo k i s).pc i ≡ holding)
spin_progress s i free out = progress s i (s.pc i) refl free out
