-- ===== src/FairMutex/Run.antt =====
-- The run of one task of fair_mutex.rs through `unlock`, from each case distinction of the source to
-- the next, with any number of exchanges that fail for no reason.
use async_mutex.Common.{
  ℕ, suc, ◌+◌, ◌-◌, ◌≤◌, ◌≡◌, ◌≢◌, refl, ap, arith, true, false, List, [], ◌∷◌, ◌*◌, Bool,
  Bool-cases, inl, inr, length, if◌then◌else◌, update, ==_refl, ==_of_ne,
}
use async_mutex.FairMutex.{
  waiting, done, Shared, Pc, Choice, is_spurious, relock, borrow, waking, load_atom, idle,
  unlocking, pop_first, take_one, popped, looping, releasing, leaving, enqueue, act, newest, wake,
}

-- The steps of task `i` with these choices, up to its return.
unfoldable pub solo : List Choice → ℕ → Shared → Pc → Shared × Pc
unfolding act
solo [] i m p = (m, p)
solo (c ∷ cs) i m idle = (m, idle)
solo (c ∷ cs) i m p = let (g, q) = act i c m p in solo cs i g q

-- How many of the choices make a weak exchange fail.
abbrev pub failures : List Choice → ℕ
failures [] = 0
failures (c ∷ cs) = (if is_spurious c then 1 else 0) + failures cs

abbrev runs : Pc → Bool
runs idle = false
runs _ = true

solo-cons :
    (c : Choice) (cs : List Choice) (i : ℕ) (m : Shared) (p : Pc)
    → runs p ≡ true
    → solo (c ∷ cs) i m p ≡ solo cs i (act i c m p).0 (act i c m p).1
unfolding solo
solo-cons c cs i m idle h = absurd (ground arith)
solo-cons c cs i m p h = refl

solo-idle : (cs : List Choice) (i : ℕ) (m : Shared) → solo cs i m idle ≡ (m, idle)
unfolding solo
solo-idle [] i m = refl
solo-idle (c ∷ cs) i m = refl

module _ (i : ℕ) (R : Shared × Pc → Type 0) where
  -- The run from here ends with `R` in `k` steps, and in three more for each exchange that fails for
  -- no reason.
  abbrev pub Ends : ℕ → Shared → Pc → Type 0
  Ends k m p = (cs : List Choice) → k + 3 * failures cs ≤ length cs → R (solo cs i m p)

  Ends-idle : (k : ℕ) (m : Shared) → R (m, idle) → Ends k m idle
  Ends-idle k m h cs enough = rw (solo-idle cs i m) h

  module _ (k : ℕ) (m : Shared) where
    Ends-step :
        (p : Pc) (g : Shared) (q : Pc)
        → runs p ≡ true
        → ((c : Choice) → act i c m p ≡ (g, q))
        → Ends k g q
        → Ends (suc k) m p
    Ends-step p g q ne e h [] enough = absurd (omega arith)
    Ends-step p g q ne e h (c ∷ cs) enough = rw (solo-cons c cs i m p ne, e c) (h cs (omega arith))

    -- A step that starts again if its exchange fails.
    Ends-retry :
        (p : Pc) (g : Shared) (q : Pc)
        → runs p ≡ true
        → ((c : Choice) → act i c m p ≡ (if is_spurious c then (m, p) else (g, q)))
        → Ends k g q
        → Ends (suc k) m p
    Ends-retry p g q ne e h [] enough = absurd (omega arith)
    Ends-retry p g q ne e h (c ∷ cs) enough = elim (Bool-cases (is_spurious c)) [
      | inl fails ↦
          rw (solo-cons c cs i m p ne, e c, fails)
            (Ends-retry p g q ne e h cs (ground (arith, enough, fails)))
      | inr wins ↦ rw (solo-cons c cs i m p ne, e c, wins) (h cs (omega arith))
    ]

abbrev held : Shared → Shared
held m = record m { borrowed = true }

abbrev pub let_go : Shared → Shared
let_go m = record m { borrowed = false }

act-looping :
    (c : Choice) (i a : ℕ) (m : Shared) → act i c (held m) (looping a 0) ≡ (let_go m, releasing a 0)
unfolding act
act-looping c i a m = refl

act-releasing :
    (c : Choice) (i : ℕ) (m : Shared)
    → newest m.inbox ≡ 0
    → act i c m (releasing m.atom 0)
      ≡ (if is_spurious c then (m, relock m.atom 0) else (record m { atom = 0 }, leaving))
unfolding act
act-releasing c i m e = rw (==_refl m.atom, e) (ground arith)

act-relock :
    (c : Choice) (i a : ℕ) (m : Shared) → act i c (let_go m) (relock a 0) ≡ (held m, looping a 0)
unfolding act
act-relock c i a m = refl

module _ (i : ℕ) (R : Shared × Pc → Type 0) (k : ℕ) (m : Shared) (empty : newest m.inbox ≡ 0) where
  -- One attempt to free the mutex.
  attempt :
      (c d : Choice) (cs : List Choice)
      → (is_spurious d ≡ true → R (solo cs i (let_go m) (relock m.atom 0)))
      → (is_spurious d ≡ false → R (solo cs i (record (let_go m) { atom = 0 }) leaving))
      → R (solo (c ∷ d ∷ cs) i (held m) (looping m.atom 0))
  attempt c d cs lost won =
      rw
        (
          solo-cons c (d ∷ cs) i (held m) (looping m.atom 0) refl,
          act-looping c i m.atom m,
          solo-cons d cs i (let_go m) (releasing m.atom 0) refl,
          act-releasing d i (let_go m) empty,
        )
        (elim (Bool-cases (is_spurious d)) [
          | inl fails ↦ rw fails (lost fails)
          | inr wins ↦ rw wins (won wins)
        ])

  -- The loop that tries to free the mutex.
  pub Ends-looping :
      Ends i R k (record (let_go m) { atom = 0 }) leaving
      → Ends i R (suc (suc k)) (held m) (looping m.atom 0)
  Ends-looping h [] enough = absurd (omega arith)
  Ends-looping h (c ∷ []) enough = absurd (omega arith)
  Ends-looping h (c ∷ d ∷ []) enough =
      attempt c d [] (λ fails. absurd (ground (arith, enough, fails))) (λ wins. h [] (omega arith))
  Ends-looping h (c ∷ d ∷ e ∷ cs) enough =
      attempt c d (e ∷ cs)
        (λ fails.
          rw (solo-cons e cs i (let_go m) (relock m.atom 0) refl, act-relock e i m.atom m)
            (Ends-looping h cs (ground (arith, enough, fails))))
        (λ wins. h (e ∷ cs) (omega arith))

-- What is left of `unlock` once the first waiter is popped.
abbrev pub serve : Shared → ℕ → Shared
serve m w = record m { borrowed = false; waker = update m.waker w done; readers = m.readers - 1 }

module _ (i : ℕ) (R : Shared × Pc → Type 0) where
  pub Ends-leaving :
      (k : ℕ) (m : Shared)
      → R (record m { readers = m.readers - 1 }, idle)
      → Ends i R (suc k) m leaving
  unfolding act
  Ends-leaving k m h =
      let g : Shared = record m { readers = m.readers - 1 } in
      Ends-step i R k m leaving g idle refl (λ c. refl) (Ends-idle i R k g h)

  -- The first waiter is woken, and the guards are dropped.
  pub Ends-popped :
      (k : ℕ) (m : Shared) (w : ℕ)
      → m.waker w ≡ waiting
      → R (serve m w, idle)
      → Ends i R (suc (suc (suc k))) m (popped w)
  unfolding act
  Ends-popped k m w e h =
      let g : Shared = record m { borrowed = false; waker = update m.waker w done } in
      Ends-step i R _ m (popped w) (let_go m) (waking w) refl (λ c. refl)
        (Ends-step i R _ (let_go m) (waking w) g leaving refl (λ c. ap (wake (let_go m) w) e)
          (Ends-leaving k g h))

  pub Ends-unlocking :
      (k : ℕ) (m : Shared)
      → m.writer ≡ false
      → m.borrowed ≡ false
      → Ends i R k (held (record m { readers = m.readers + 1 })) pop_first
      → Ends i R (suc (suc k)) m unlocking
  unfolding act
  Ends-unlocking k m e f h =
      let g : Shared = record m { readers = m.readers + 1 } in
      Ends-step i R _ m unlocking g borrow refl (λ c. rw e refl)
        (Ends-step i R k g borrow (held g) pop_first refl (λ c. rw f refl) h)

  pub Ends-pop_first :
      (k : ℕ) (m : Shared) (w : ℕ) (q : List ℕ)
      → m.queue ≡ w ∷ q
      → Ends i R k (record m { queue = q }) (popped w)
      → Ends i R (suc k) m pop_first
  unfolding act
  Ends-pop_first k m w q e h =
      Ends-step i R k m pop_first (record m { queue = q }) (popped w) refl (λ c. rw e refl) h

  pub Ends-take_one :
      (k : ℕ) (m : Shared) (w : ℕ) (q : List ℕ)
      → m.queue ≡ w ∷ q
      → Ends i R k (record m { queue = q }) (popped w)
      → Ends i R (suc k) m take_one
  unfolding act
  Ends-take_one k m w q e h =
      Ends-step i R k m take_one (record m { queue = q }) (popped w) refl (λ c. rw e refl) h

  pub Ends-empty :
      (k : ℕ) (m : Shared)
      → m.queue ≡ []
      → Ends i R k m (looping m.atom (newest m.inbox))
      → Ends i R (suc (suc k)) m pop_first
  unfolding act
  Ends-empty k m e h =
      Ends-step i R _ m pop_first m load_atom refl (λ c. rw e refl)
        (Ends-step i R k m load_atom m (looping m.atom (newest m.inbox)) refl (λ c. refl) h)

  pub Ends-enqueue :
      (k : ℕ) (m : Shared)
      → newest m.inbox ≢ 0
      → Ends i R k (record (enqueue m) { atom = 1 }) take_one
      → Ends i R (suc k) m (looping m.atom (newest m.inbox))
  unfolding act
  Ends-enqueue k m h rest =
      Ends-retry i R k m (looping m.atom (newest m.inbox)) (record (enqueue m) { atom = 1 })
        take_one refl
        (λ c.
          rw (==_of_ne (newest m.inbox) 0 h, ==_refl m.atom, ==_refl (newest m.inbox))
            (ground arith))
        rest
