-- ===== src/Condvar/Transfer.antt =====
-- The loop of `requeue` for the waiters of condvar.rs: it moves all of a list to the mutex, by steps of
-- their calls of `lock`.
use native.Mathlib.Decide.{ℕ_discrete}
use async_mutex.Common.{
  ℕ, ◌≤◌, ◌<◌, ◌≡◌, ◌≢◌, refl, ◌∙◌, arith, List, [], ◌∷◌, count, update, update-ne,
}
use async_mutex.FairMutex
use async_mutex.FairMutex.Lock.{pushes, pushes-Reach}
use async_mutex.Condvar.{Seat, moved, push_all, leave_all}
use async_mutex.Condvar.Invariant.{Ready}

-- The waiters of a list are ready, and none occurs twice.
abbrev pub AllReady : ℕ → FairMutex.System → List ℕ → Type 0
AllReady n m [] = Unit
AllReady n m (w ∷ ws) = (w ≢ 0) × (w < n) × Ready m w × (count w ws ≡ 0) × AllReady n m ws

Ready-pushes : (m : FairMutex.System) (w v : ℕ) → v ≢ w → Ready m v → Ready (pushes m w) v
Ready-pushes m w v ne r = record {
  snapshot = r.snapshot;
  newest = r.newest;
  taken = r.taken;
  trying = update-ne m.pc w FairMutex.asleep v ne ∙ r.trying;
  waits = r.waits;
}

AllReady-pushes :
    (n : ℕ) (m : FairMutex.System) (w : ℕ) (ws : List ℕ)
    → count w ws ≡ 0
    → AllReady n m ws
    → AllReady n (pushes m w) ws
AllReady-pushes n m w [] away all = tt
AllReady-pushes n m w (v ∷ vs) away (pos, lt, r, once, all) = (
  pos,
  lt,
  Ready-pushes m w v (λ e. ground arith) r,
  once,
  AllReady-pushes n m w vs (ground arith) all,
)

pub push_all-Reach :
    {n : ℕ} (ws : List ℕ) {m : FairMutex.System}
    → FairMutex.Safety.Reach n m
    → m.mem.atom ≡ 1
    → AllReady n m ws
    → FairMutex.Safety.Reach n (push_all ws m)
push_all-Reach [] r one all = r
push_all-Reach {n} (w ∷ ws) {m} r one (pos, lt, k, once, all) =
    push_all-Reach ws (pushes-Reach r w pos lt one k.snapshot k.newest k.taken k.trying k.waits) one
      (AllReady-pushes n m w ws once all)

pub push_all-pc :
    (ws : List ℕ) (m : FairMutex.System) (j : ℕ) → count j ws ≡ 0 → (push_all ws m).pc j ≡ m.pc j
push_all-pc [] m j away = refl
push_all-pc (w ∷ ws) m j away =
    push_all-pc ws (pushes m w) j (ground arith)
    ∙ update-ne m.pc w FairMutex.asleep j (λ e. ground arith)

pub push_all-waker : (ws : List ℕ) (m : FairMutex.System) → (push_all ws m).mem.waker ≡ m.mem.waker
push_all-waker [] m = refl
push_all-waker (w ∷ ws) m = push_all-waker ws (pushes m w)

pub leave_all-ne :
    (ws : List ℕ) (seat : ℕ → Seat) (j : ℕ) → count j ws ≡ 0 → leave_all ws seat j ≡ seat j
leave_all-ne [] seat j away = refl
leave_all-ne (w ∷ ws) seat j away =
    leave_all-ne ws (update seat w moved) j (ground arith)
    ∙ update-ne seat w moved j (λ e. ground arith)

leave_all-moved :
    (ws : List ℕ) (seat : ℕ → Seat) (j : ℕ) → seat j ≡ moved → leave_all ws seat j ≡ moved
leave_all-moved [] seat j e = e
leave_all-moved (w ∷ ws) seat j e = leave_all-moved ws (update seat w moved) j (ground (arith, e))

pub leave_all_self :
    (ws : List ℕ) (seat : ℕ → Seat) (j : ℕ) → 1 ≤ count j ws → leave_all ws seat j ≡ moved
leave_all_self [] seat j some = absurd (omega arith)
leave_all_self (w ∷ ws) seat j some = elim (ℕ_discrete j w) [
  | yes e ↦ leave_all-moved ws (update seat w moved) j (ground (arith, e))
  | no ne ↦ leave_all_self ws (update seat w moved) j (ground arith)
]
