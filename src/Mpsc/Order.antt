-- ===== src/Mpsc/Order.antt =====
-- A step of mpsc.rs keeps the order of the messages: each bucket in use has, or will have, the message
-- that got its place.
use native.Mathlib.Decide.{ℕ_discrete, dec_lt}
use async_mutex.Common.{
  ℕ, ◌+◌, ◌<◌, ◌≡◌, refl, arith, true, List, ◌++◌, update, update-ne, tally, tally-ge,
}
use async_mutex.Atomic.{from_bool}
use async_mutex.Mpsc.{Shared, Pc, writing, filling, Rc, backfilling}
use async_mutex.Mpsc.Letters.{Post}
use async_mutex.Mpsc.Slots.{used, claims, owns}
use async_mutex.Mpsc.Window.{window}

-- What is to be in the bucket of a sender, or of the receiver for a waiter.
abbrev pub Promise : (payload expected : ℕ → ℕ) → ℕ → Shared → Pc → Type 0
Promise payload expected j m (writing at) = payload j ≡ expected at
Promise payload expected j m (filling at) = m.contents at ≡ expected at
Promise payload expected j m _ = Unit

abbrev pub Debt : (payload expected : ℕ → ℕ) → Rc → Type 0
Debt payload expected (backfilling head x v) = payload v ≡ expected head
Debt payload expected _ = Unit

-- `expected` says what each bucket in use is to hold.
pub record Keeps (cap : ℕ) (payload expected : ℕ → ℕ) (m : Shared) (pc : ℕ → Pc) (rc : Rc)
    : Type 0 where
  pub held : (at : ℕ) → at < cap → m.filled at ≡ true → m.contents at ≡ expected at
  pub promises : (j : ℕ) → Promise payload expected j m (pc j)
  pub debt : Debt payload expected rc

-- No sender and not the receiver uses bucket `at`.
abbrev pub IsFree : ℕ → Shared → (ℕ → Pc) → Rc → ℕ → Type 0
IsFree n m pc rc at = from_bool (m.filled at) + tally (claims at) n pc + owns at rc ≡ 0

module _ {cap n : ℕ} {payload expected : ℕ → ℕ} {m : Shared} {pc : ℕ → Pc} {rc : Rc}
    (post : Post payload n m pc rc) (keeps : Keeps cap payload expected m pc rc) where
  free-Promise :
      (b x : ℕ) (p : Pc)
      → claims b p ≡ 0
      → (j : ℕ) → Promise payload expected j m p
      → Promise payload (update expected b x) j m p
  free-Promise b x p free j k = ground (arith, k)

  unclaimed : (b j : ℕ) → IsFree n m pc rc b → claims b (pc j) ≡ 0
  unclaimed b j free = elim (dec_lt j n) [
    | yes below ↦ omega (arith, tally-ge (claims b) n pc j below)
    | no above ↦ rw (post.outside j (omega arith)) refl
  ]

  -- What a free bucket is to hold may be changed.
  pub free-Keeps : (b x : ℕ) → IsFree n m pc rc b → Keeps cap payload (update expected b x) m pc rc
  free-Keeps b x free = record {
    held = λ at below full. elim (ℕ_discrete at b) [
      | yes e ↦ absurd (ground (arith, rw e at full))
      | no ne ↦ rw (update-ne expected b x at ne) (keeps.held at below full)
    ];
    promises = λ j. free-Promise b x (pc j) (unclaimed b j free) j (keeps.promises j);
    debt = ground (arith, keeps.debt);
  }

-- The messages that got a place are those that were received, and then those that are in the buckets
-- in use, or will be.
pub record Ordered (cap : ℕ) (payload : ℕ → ℕ) (ins outs : List ℕ) (m : Shared) (pc : ℕ → Pc)
    (rc : Rc) : Type 0 where
  pub expected : ℕ → ℕ
  pub keeps : Keeps cap payload expected m pc rc
  pub order : ins ≡ outs ++ window cap expected m.recv_head (used m rc)
