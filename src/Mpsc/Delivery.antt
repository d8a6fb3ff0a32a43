-- ===== src/Mpsc/Delivery.antt =====
-- What the channel of mpsc.rs does with its messages, in every state that it reaches.
use async_mutex.Common.{ℕ, ◌+◌, ◌<◌, ◌≡◌, refl, sym, arith, false, List, [], ◌++◌, length, tally}
use async_mutex.Atomic.{from_bool}
use async_mutex.Mpsc.{idle}
use async_mutex.Mpsc.Letters.{Post}
use async_mutex.Mpsc.Ring.{wrap, inside, inside_none, wrap_self}
use async_mutex.Mpsc.Slots.{between, used, claims, owns, Slots}
use async_mutex.Mpsc.{System, step, recv_step, fresh}
use async_mutex.Mpsc.Bounds.{Reach, start, sends, receives, Reach-AllInRange, capacity}
use async_mutex.Mpsc.Letters.{act-Post, recv_act-Post}
use async_mutex.Mpsc.Claims.{act-Slots}
use async_mutex.Mpsc.Turns.{recv_act-Slots}
use async_mutex.Mpsc.Calm.{act-calm, recv_act-calm}
use async_mutex.Mpsc.Window.{window, window-none, length-window}
use async_mutex.Mpsc.History.{History, History-Reach}
use async_mutex.Mpsc.Order.{Ordered}
use async_mutex.Mpsc.Placing.{act-Ordered}
use async_mutex.Mpsc.Reading.{recv_act-Ordered}
use async_mutex.Mpsc.Safety.{Reach-Inv}
use async_mutex.Common.{tally-eq-zero}

fresh-Post : (payload : ℕ → ℕ) (n : ℕ) → Post payload n fresh.mem fresh.pc fresh.rc
fresh-Post payload n = record {
  place = λ j. refl;
  letters = λ j. tt;
  taken = tt;
  nobody = refl;
  outside = λ j h. refl;
}

Reach-Post :
    {cap n : ℕ} {payload : ℕ → ℕ} {s : System}
    → Reach cap payload n s
    → Post payload n s.mem s.pc s.rc
unfolding step recv_step
Reach-Post {cap} {n} {payload} (start e) = fresh-Post payload n
Reach-Post (sends i c pos lt r) = act-Post (Reach-Inv r) (Reach-Post r) c i pos lt
Reach-Post (receives c r) = recv_act-Post (Reach-Inv r) (Reach-Post r) c

fresh-Slots : (cap n : ℕ) → 0 < cap → Slots cap n fresh.mem fresh.pc fresh.rc
fresh-Slots cap n pos = record {
  head_is = sym (wrap_self cap 0 pos);
  room = omega arith;
  occupied = λ at below.
      omega (arith, tally-eq-zero (claims at) n (λ _. idle) (λ _. refl), inside_none cap 0 at);
  behind = tt;
}

Reach-Slots :
    {cap n : ℕ} {payload : ℕ → ℕ} {s : System} → Reach cap payload n s → Slots cap n s.mem s.pc s.rc
unfolding step recv_step
Reach-Slots {cap} {n} {payload} (start e) =
    fresh-Slots cap n (capacity {n = n} {payload = payload} (start e)).0
Reach-Slots {payload = payload} (sends i c pos lt r) =
    let all = Reach-AllInRange r in
    act-Slots all.shared (Reach-Inv r) (Reach-Slots r) c payload i lt all.senders
Reach-Slots (receives c r) =
    let all = Reach-AllInRange r in
    recv_act-Slots all.shared (Reach-Inv r) (Reach-Slots r) c all.receiver

-- No call of `send` or `recv` panics, in any state that a channel reaches: no assertion fails, no
-- `unwrap` finds `None`, the size does not go below 0, the guard of the queue is never taken twice, only
-- pending waiters are woken, and no wait is polled with its waker unset.
pub mpsc_never_panics :
    {cap n : ℕ} {payload : ℕ → ℕ} {s : System} → Reach cap payload n s → s.mem.panicked ≡ false
unfolding step recv_step
mpsc_never_panics (start e) = refl
mpsc_never_panics (sends {s} i c pos lt r) =
    act-calm (Reach-AllInRange r).shared (Reach-Inv r) (Reach-Post r) (Reach-Slots r) c
      (mpsc_never_panics r) i (s.pc i) refl
mpsc_never_panics (receives {s} c r) =
    recv_act-calm (Reach-AllInRange r).shared (Reach-Inv r) (Reach-Post r) (Reach-Slots r) c
      (mpsc_never_panics r) s.rc refl

fresh-Ordered : (cap : ℕ) (payload : ℕ → ℕ) → Ordered cap payload [] [] fresh.mem fresh.pc fresh.rc
fresh-Ordered cap payload = record {
  expected = λ _. 0;
  keeps = record {
    held = λ at below full. absurd (ground (arith, full));
    promises = λ j. tt;
    debt = tt;
  };
  order = sym (window-none cap (λ _. 0) 0);
}

History-Ordered :
    {cap n : ℕ} {payload : ℕ → ℕ} {s : System} {ins outs : List ℕ}
    → History cap payload n s ins outs
    → Ordered cap payload ins outs s.mem s.pc s.rc
unfolding step recv_step
History-Ordered {cap} {n} {payload} (History.start e) = fresh-Ordered cap payload
History-Ordered (History.sends i c pos lt h) =
    let r = History-Reach h in
    let all = Reach-AllInRange r in
    act-Ordered all.shared (Reach-Inv r) (Reach-Post r) (Reach-Slots r) c i lt all.senders
      (History-Ordered h)
History-Ordered (History.receives c h) =
    let r = History-Reach h in
    let all = Reach-AllInRange r in
    recv_act-Ordered all.shared (Reach-Inv r) (Reach-Post r) (Reach-Slots r) c (History-Ordered h)
      all.receiver

-- Messages are received in the order in which they got their place, each once and none else: in every
-- history of a channel, the messages that got a place (by the exchange of `send`, or by that of `recv`
-- for a sender that waits) are those that were received, in the same order, and then those that are
-- still to come, which are as many as the size says, less the one that `recv` has read and not yet
-- taken off the size.
pub fifo :
    {cap n : ℕ} {payload : ℕ → ℕ} {s : System} {ins outs : List ℕ}
    → History cap payload n s ins outs
    → (rest : List ℕ) × (ins ≡ outs ++ rest) × (length rest + between s.rc ≡ s.mem.size)
fifo {cap} {s = s} h =
    let ord = History-Ordered h in
    let slots = Reach-Slots (History-Reach h) in
    (
      window cap ord.expected s.mem.recv_head (used s.mem s.rc),
      ord.order,
      omega (arith, length-window cap ord.expected s.mem.recv_head (used s.mem s.rc), slots.room),
    )

-- In every state that a channel reaches, a bucket is filled, or is about to be filled by exactly one
-- sender or by the receiver for one that waits, if it is one of the `used` buckets from `recv_head` on,
-- and else it is empty and no one's; and `write_head` is the bucket behind those.
pub ring_is_exact :
    {cap n : ℕ} {payload : ℕ → ℕ} {s : System}
    → Reach cap payload n s
    → (s.mem.write_head ≡ wrap cap (s.mem.recv_head + used s.mem s.rc))
      × ((at : ℕ)
          → at < cap
          → from_bool (s.mem.filled at) + tally (claims at) n s.pc + owns at s.rc
            ≡ inside cap s.mem.recv_head (used s.mem s.rc) at)
ring_is_exact r = let slots = Reach-Slots r in (slots.head_is, slots.occupied)
