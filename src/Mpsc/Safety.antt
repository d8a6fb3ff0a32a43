-- ===== src/Mpsc/Safety.antt =====
-- What holds of the channel of mpsc.rs in every state that its senders and its receiver reach.
use async_mutex.Common.{
  ℕ, ◌≤◌, ◌<◌, ◌≡◌, inl, inr, refl, ap, ◌∙◌, arith, Bool, false, tally-update, tally-ge,
  tally-eq-zero,
}
use async_mutex.Atomic.{from_bool}
use async_mutex.Mpsc.{System, idle, borrow, act, step, recv_step, fresh}
use async_mutex.Mpsc.Bounds.{Reach, start, sends, receives, Reach-AllInRange}
use async_mutex.Mpsc.Waiting.{
  cancelling, guarding, borrowing, waiters, Known, Inv, act-Shares, recv_act-full, recv_act-no_null,
  recv_act-Known, recv_act-guards, Known-kept,
}

fresh-Inv : (cap n : ℕ) → Inv cap n fresh.mem fresh.pc fresh.rc
fresh-Inv cap n = record {
  full = λ h. absurd (omega arith);
  no_null = refl;
  known = tt;
  guards_is = refl;
  locked_is = omega (arith, tally-eq-zero cancelling n (λ _. idle) (λ _. refl));
  apart = inl refl;
  borrowed_is = refl;
}

pub Reach-Inv :
    {cap n : ℕ} {payload : ℕ → ℕ} {s : System} → Reach cap payload n s → Inv cap n s.mem s.pc s.rc
unfolding step recv_step
Reach-Inv {cap} {n} (start e) = fresh-Inv cap n
Reach-Inv {cap} {n} {payload} (sends {s} i c pos lt r) =
    let inv = Reach-Inv r in
    let p' = (act cap payload i c s.mem (s.pc i)).1 in
    let (full, no_null, same, queue, guards, borrowed, locked, apart) =
      act-Shares payload inv (Reach-AllInRange r).shared c i pos lt (s.pc i)
        (tally-update cancelling n s.pc i p' lt, tally-ge cancelling n s.pc i lt) in
    record {
      full = full;
      no_null = no_null;
      known =
          Known-kept payload inv (Reach-AllInRange r).shared c s.rc refl
            (act cap payload i c s.mem (s.pc i)).0 same queue inv.known;
      guards_is = guards ∙ inv.guards_is;
      locked_is = locked;
      apart = elim apart [ inl free ↦ inl free | inr none_reads ↦ inr (guards ∙ none_reads) ];
      borrowed_is = ap from_bool borrowed ∙ inv.borrowed_is;
    }
Reach-Inv {cap} {n} {payload} (receives {s} c r) =
    let inv = Reach-Inv r in
    let shared = (Reach-AllInRange r).shared in
    let (guards, locked, apart, borrowed) = recv_act-guards payload inv shared c s.rc refl in
    record {
      full = recv_act-full payload inv shared c s.rc refl;
      no_null = recv_act-no_null payload inv shared c s.rc;
      known = recv_act-Known payload inv shared c s.rc refl;
      guards_is = guards;
      locked_is = ap from_bool locked ∙ inv.locked_is;
      apart = apart;
      borrowed_is = borrowed;
    }

from_bool-zero : (b : Bool) → from_bool b ≡ 0 → b ≡ false
from_bool-zero b h = ground arith

-- In every state that a channel reaches, a sender has its waiter in the inbox or in the queue only
-- while the channel is full; a sender that is at work on the queue to cancel its wait has the receiver
-- outside of its read lock; a receiver that is about to take the guard of the queue finds it free; and
-- what the receiver has loaded agrees with its assertions on the size (`Known`): it is the capacity
-- once a waiter was popped, or once the inbox was seen not to be empty.
pub waiting_is_full :
    {cap n : ℕ} {payload : ℕ → ℕ} {s : System}
    → Reach cap payload n s
    → (1 ≤ waiters s.mem → s.mem.size ≡ cap)
      × ((i : ℕ) → i < n → cancelling (s.pc i) ≡ 1 → guarding s.rc ≡ 0)
      × ((head result : ℕ) → s.rc ≡ borrow head result → s.mem.borrowed ≡ false)
      × Known cap s.mem s.rc
waiting_is_full {cap} {n} {s = s} r =
    let inv = Reach-Inv r in
    (
      inv.full,
      (λ i lt h.
          ground (arith, inv.apart, inv.guards_is, inv.locked_is, tally-ge cancelling n s.pc i lt)),
      (λ head x e. from_bool-zero s.mem.borrowed (inv.borrowed_is ∙ ap borrowing e)),
      inv.known,
    )
