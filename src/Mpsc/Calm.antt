-- ===== src/Mpsc/Calm.antt =====
-- No step of mpsc.rs panics.
use async_mutex.Common.{ℕ, ◌≡◌, arith, false}
use async_mutex.Mpsc.{
  Choice, Shared, Pc, idle, Rc, starting, borrow, passing, taking_over, backfilling, waking, act,
  recv_act,
}
use async_mutex.Mpsc.Bounds.{InRange}
use async_mutex.Mpsc.Waiting.{Inv}
use async_mutex.Mpsc.Letters.{Post}
use async_mutex.Mpsc.Slots.{Slots}
use async_mutex.Mpsc.Letters.{target, letter}

-- The first clause of `act` splits the choice.
module _ {cap n : ℕ} {payload : ℕ → ℕ} {m : Shared} {pc : ℕ → Pc} {rc : Rc} (r : InRange cap m)
    (inv : Inv cap n m pc rc) (post : Post payload n m pc rc) (slots : Slots cap n m pc rc)
    (c : Choice) where
  pub act-calm :
      m.panicked ≡ false
      → (i : ℕ) (p : Pc) → pc i ≡ p
      → (act cap payload i c m p).0.panicked ≡ false
  unfolding act
  act-calm calm i idle here = ground (arith, calm)
  act-calm calm i p here = ground (arith, calm, post.place i, post.letters i)

  pub recv_act-calm :
      m.panicked ≡ false → (p : Rc) → rc ≡ p → (recv_act cap c m p).0.panicked ≡ false
  unfolding recv_act
  recv_act-calm calm starting here = ground (arith, calm)
  recv_act-calm calm (borrow head x) here = ground (arith, calm, inv.borrowed_is)
  recv_act-calm calm (passing head x v h s t) here = ground (arith, calm, inv.known)
  recv_act-calm calm (taking_over head x h s t) here = ground (arith, calm, inv.known, slots.behind)
  recv_act-calm calm (backfilling head x v) here =
      ground (arith, calm, letter inv post c v (rw here (ground arith)))
  recv_act-calm calm (waking x v) here =
      ground (arith, calm, target inv post c v (rw here (ground arith)))
  recv_act-calm calm p here = ground (arith, calm)
