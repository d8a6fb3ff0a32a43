-- ===== src/Condvar/Requeue.antt =====
-- The rounds of `requeue` of condvar.rs keep the invariant.
use mathlib.Core.Path.{subst}
use native.Mathlib.Decide.{dec_lt}
use async_mutex.Common.{
  ℕ, ◌+◌, ◌≤◌, ◌<◌, ◌≡◌, ◌≢◌, refl, ap, ◌∙◌, arith, List, [], ◌∷◌, count, tally, tally-ge,
  tally-update, update,
}
use async_mutex.Tasks.{Choice, newest}
use async_mutex.FairMutex
use async_mutex.FairMutex.Lock.{critical-taken}
use async_mutex.Condvar.{
  Seat, parked, requeueing, unlocking, System, requeue_round, push_all, leave_all,
}
use async_mutex.Condvar.Invariant.{is_parked, hands, borrowing, Seated, Calls, Inv}
use async_mutex.Condvar.Transfer.{
  AllReady, push_all-Reach, push_all-pc, push_all-waker, leave_all-ne, leave_all_self,
}
use async_mutex.Condvar.Steps.{others, hands_after, quiet_step, if_Inv}
use async_mutex.Condvar.Calls.{Seated-Untouched, idle_seat}

AllReady-of :
    (n : ℕ) (m : FairMutex.System) (seat : ℕ → Seat) (ws : List ℕ)
    → ((w : ℕ) → Seated n m w (seat w))
    → ((w : ℕ) → count w ws ≤ is_parked (seat w))
    → AllReady n m ws
AllReady-of n m seat [] seated few = tt
AllReady-of n m seat (w ∷ ws) seated few =
    let here : seat w ≡ parked = ground (arith, few w) in
    let (pos, lt, r) = subst (Seated n m w) here (seated w) in
    (
      pos,
      lt,
      r,
      ground (arith, few w, here),
      AllReady-of n m seat ws seated (λ v. ground (arith, few v)),
    )

module _ {n : ℕ} {s : System} (inv : Inv n s) (i : ℕ) (pos : i ≢ 0) (lt : i < n) where
  module _ (ws : List ℕ) (a t : ℕ) (here : s.pc i ≡ requeueing ws a t) where
    critical : s.mutex.pc i ≡ FairMutex.critical
    critical = subst (Calls s.mutex s.seat i) here (inv.calls i)

    few : (w : ℕ) → count w ws ≤ is_parked (s.seat w)
    few w = omega (arith, inv.place w, rw here at (tally-ge (hands w) n s.pc i lt))

    not-mine : count i ws ≡ 0
    not-mine =
        let free = idle_seat n s.mutex i (s.seat i) critical (inv.seated i) in
        ground (arith, few i, free)

    moved-place :
        (v : ℕ)
        → count v s.mem.inbox + count v s.mem.queue + tally (hands v) n (update s.pc i unlocking)
          ≡ is_parked (leave_all ws s.seat v)
    moved-place v =
        let sum = rw here at (hands_after inv i lt unlocking v) in
        let one : is_parked (s.seat v) ≤ 1 = ground arith in
        elim (dec_lt 0 (count v ws)) [
          | yes some ↦
              rw (leave_all_self ws s.seat v some) (omega (arith, inv.place v, sum, few v, one))
          | no none ↦ rw (leave_all-ne ws s.seat v (omega arith)) (omega (arith, inv.place v, sum))
        ]

    moved-Seated : (v : ℕ) → Seated n (push_all ws s.mutex) v (leave_all ws s.seat v)
    moved-Seated v = elim (dec_lt 0 (count v ws)) [
      | yes some ↦ rw (leave_all_self ws s.seat v some) tt
      | no none ↦ rw (leave_all-ne ws s.seat v (omega arith)) (
          Seated-Untouched n s.mutex (push_all ws s.mutex) v (s.seat v)
            (push_all-pc ws s.mutex v (omega arith), ap (λ f. f v) (push_all-waker ws s.mutex))
            (inv.seated v))
    ]

    -- The exchange won.
    won_requeue : Inv n (record {
      mutex = push_all ws s.mutex;
      mem = s.mem;
      seat = leave_all ws s.seat;
      pc = update s.pc i unlocking;
    })
    won_requeue = record {
      reach =
          push_all-Reach ws inv.reach (critical-taken inv.reach i critical)
            (AllReady-of n s.mutex s.seat ws inv.seated few);
      place = moved-place;
      seated = moved-Seated;
      calls =
          others inv i lt critical (push_all ws s.mutex) (leave_all ws s.seat) unlocking
            (push_all-pc ws s.mutex i not-mine ∙ critical);
      borrowed_is =
          omega (arith, inv.borrowed_is, rw here at (tally-update borrowing n s.pc i unlocking lt));
      atom-le = inv.atom-le;
      calm = inv.calm;
    }

    pub requeue_round-Inv : (c : Choice) → Inv n (requeue_round c s i ws a t)
    unfolding requeue_round
    requeue_round-Inv c =
        if_Inv (FairMutex.wins c s.mutex.mem a t) (λ e. won_requeue)
          (λ e.
            quiet_step inv i lt s.mem (requeueing ws s.mutex.mem.atom (newest s.mutex.mem.inbox))
              (rw here refl) critical (λ w. rw here refl) (rw here refl) inv.atom-le inv.calm)
