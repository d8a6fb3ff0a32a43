-- ===== src/FairMutex/Unlock.antt =====
-- `unlock` of fair_mutex.rs from its call to its return, when no other task moves meanwhile, with any
-- number of exchanges that fail for no reason.
use mathlib.Core.Path.{ap₂, subst}
use async_mutex.Common.{
  ℕ, ◌+◌, ◌-◌, ◌≤◌, ◌≡◌, ◌≢◌, refl, sym, ap, ◌∙◌, arith, true, false, List, [], ◌∷◌, ◌++◌, ◌*◌,
  length, reverse, append-nil, count, update_self,
}
use async_mutex.FairMutex.{
  waiting, done, Shared, System, Pc, Choice, idle, unlocking, looping, enqueue, go, newest,
}
use async_mutex.FairMutex.Invariant.{Inv}
use async_mutex.FairMutex.Order.{order}
use async_mutex.Tasks.Counts.{count-reverse_aux}
use async_mutex.FairMutex.Steps.{alone, unborrowed, target_cases}
use async_mutex.FairMutex.Safety.{Reach, Reach-Inv}
use async_mutex.FairMutex.Run.{
  solo, failures, let_go, serve, Ends, Ends-popped, Ends-leaving, Ends-unlocking, Ends-pop_first,
  Ends-take_one, Ends-empty, Ends-enqueue, Ends-looping,
}

-- What `unlock` leaves, by the tasks that waited at its call.
abbrev pub Passed : List ℕ → Shared × Pc → Type 0
Passed [] (g, p) = (p ≡ idle) × (g.atom ≡ 0) × (order g ≡ [])
Passed (w ∷ ws) (g, p) = (p ≡ idle) × (g.atom ≡ 1) × (g.waker w ≡ done) × (order g ≡ ws)

-- Every waiter in a list is counted.
count-head : (w : ℕ) (ws : List ℕ) → 1 ≤ count w (w ∷ ws)
count-head w ws = ground arith

module _ {n : ℕ} {m : Shared} {pc : ℕ → Pc} (inv : Inv n m pc) (i : ℕ) (here : pc i ≡ unlocking)
    (open_ : m.writer ≡ false) where
  not-borrowed : m.borrowed ≡ false
  not-borrowed =
      unborrowed inv i (ground (arith, inv.nobody)) (ground (arith, inv.outside i)) go
        (ground arith) (ground arith)

  locked : m.atom ≡ 1
  locked =
      (alone inv i (ground (arith, inv.nobody)) (ground (arith, inv.outside i)) go (ground arith)).2

  waits : (w : ℕ) → 1 ≤ count w m.inbox + count w m.queue → m.waker w ≡ waiting
  waits w h =
      (target_cases inv i (ground (arith, inv.nobody)) (ground (arith, inv.outside i)) go w (pc w)
        refl (omega (arith, inv.place w)) (inv.local_facts w)).1

  abbrev Unlocks : Type 0
  Unlocks = Ends i (Passed (order m)) 9 m unlocking

  abbrev opened : Shared
  opened = record m { readers = m.readers + 1; borrowed = true }

  queued : (w : ℕ) (q : List ℕ) → m.queue ≡ w ∷ q → Unlocks
  queued w q e =
      let h : Shared = record opened { queue = q } in
      let up : m.waker w ≡ waiting = waits w (omega (arith, ap (count w) e, count-head w q)) in
      let first_out : order m ≡ w ∷ (q ++ reverse m.inbox) = ap (λ xs. xs ++ reverse m.inbox) e in
      let passed : Passed (order m) (serve h w, idle) =
        subst (λ o. Passed o (serve h w, idle)) (sym first_out)
          (refl, locked, update_self m.waker w done, refl) in
      Ends-unlocking i (Passed (order m)) 7 m open_ not-borrowed (
        Ends-pop_first i (Passed (order m)) 6 opened w q e
          (Ends-popped i (Passed (order m)) 3 h w up passed))

  nobody_waits : m.queue ≡ [] → m.inbox ≡ [] → Unlocks
  nobody_waits e f =
      let R : Shared × Pc → Type 0 = Passed (order m) in
      let g : Shared = record (let_go opened) { atom = 0 } in
      let h : Shared = record g { readers = m.readers + 1 - 1 } in
      let none_new : newest m.inbox ≡ 0 = ap newest f in
      let none_waits : order m ≡ [] = ap₂ (λ q xs. q ++ reverse xs) e f in
      let passed : R (h, idle) =
        subst (λ o. Passed o (h, idle)) (sym none_waits) (refl, refl, none_waits) in
      Ends-unlocking i R 7 m open_ not-borrowed (
        Ends-empty i R 5 opened e (
          subst (λ t. Ends i R 5 opened (looping m.atom t)) (sym none_new)
            (Ends-looping i R 3 opened none_new (Ends-leaving i R 2 g passed))))

  inboxed :
      (x : ℕ) (xs : List ℕ) (w : ℕ) (ws : List ℕ)
      → m.queue ≡ []
      → m.inbox ≡ x ∷ xs
      → reverse m.inbox ≡ w ∷ ws
      → Unlocks
  inboxed x xs w ws e f r =
      let R : Shared × Pc → Type 0 = Passed (order m) in
      let h : Shared = record (enqueue opened) { atom = 1 } in
      let h' : Shared = record h { queue = ws } in
      let first_out : order m ≡ w ∷ ws = ap (λ q. q ++ reverse m.inbox) e ∙ r in
      let new_one : newest m.inbox ≢ 0 = ground (arith, inv.place 0, inv.nobody) in
      let up : m.waker w ≡ waiting =
        waits w (omega (arith, ap (count w) r, count-head w ws, count-reverse_aux w m.inbox [])) in
      let passed : R (serve h' w, idle) =
        subst (λ o. Passed o (serve h' w, idle)) (sym first_out)
          (refl, refl, update_self m.waker w done, append-nil ws) in
      Ends-unlocking i R 7 m open_ not-borrowed (
        Ends-empty i R 5 opened e (
          Ends-enqueue i R 4 opened new_one
            (Ends-take_one i R 3 h w ws first_out (Ends-popped i R 0 h' w up passed))))

  unlock-Inv : (q ws r : List ℕ) → m.queue ≡ q → m.inbox ≡ ws → reverse m.inbox ≡ r → Unlocks
  unlock-Inv (w ∷ q) ws r e f g = queued w q e
  unlock-Inv [] [] r e f g = nobody_waits e f
  unlock-Inv [] (x ∷ xs) (w ∷ r) e f g = inboxed x xs w r e f g
  unlock-Inv [] (x ∷ xs) [] e f g = absurd (
      omega
        (arith, ap (count x) f, count-head x xs, ap (count x) g, count-reverse_aux x m.inbox []))

-- `unlock` ends after at most 9 of the task's own steps, and 3 more for each exchange that fails for
-- no reason, if no other task moves and no cancellation has the write lock. If nobody waited the mutex
-- is then free; if somebody did, the first of the waiting tasks has been woken, the mutex stays locked
-- for it, and the others wait in the same order.
pub unlock_lem :
    {n : ℕ} {s : System}
    → Reach n s
    → (i : ℕ) → s.pc i ≡ unlocking
    → s.mem.writer ≡ false
    → (cs : List Choice) → 9 + 3 * failures cs ≤ length cs
    → Passed (order s.mem) (solo cs i s.mem unlocking)
unlock_lem {s} r i here open_ cs enough =
    unlock-Inv (Reach-Inv r) i here open_ s.mem.queue s.mem.inbox (reverse s.mem.inbox) refl refl
      refl cs enough
