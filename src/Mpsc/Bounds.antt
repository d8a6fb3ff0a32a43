-- ===== src/Mpsc/Bounds.antt =====
-- The indices of the ring of mpsc.rs are in range, and its atom fits its word.
use async_mutex.Common.{
  ℕ, ◌+◌, ◌^◌, ◌≤◌, ◌<◌, ◌≡◌, ◌≢◌, arith, some, update, update_self, update-ne,
}
use native.Mathlib.Decide.{ℕ_discrete}
use native.Mathlib.Nat.{mod-lt}
use async_mutex.Mpsc.{
  Choice, Shared, System, Pc, idle, trying, writing, filling, Rc, starting, taking, locking, borrow,
  popping, load_popped, passing, load_empty, taking_over, backfilling, act, recv_act, step,
  recv_step, new, fresh,
}
use async_mutex.Mpsc.Packing.{pack, decode-encode_send}

-- The bucket that a sender is about to fill is one of the ring.
abbrev pub SenderInRange : ℕ → Pc → Type 0
SenderInRange cap (writing at) = at < cap
SenderInRange cap (filling at) = at < cap
SenderInRange cap _ = Unit

-- So is the bucket that the receiver took its result from.
abbrev pub ReceiverInRange : ℕ → Rc → Type 0
ReceiverInRange cap (locking head r) = head < cap
ReceiverInRange cap (borrow head r) = head < cap
ReceiverInRange cap (popping head r) = head < cap
ReceiverInRange cap (load_popped head r v) = head < cap
ReceiverInRange cap (passing head r v h s t) = head < cap
ReceiverInRange cap (load_empty head r) = head < cap
ReceiverInRange cap (taking_over head r h s t) = head < cap
ReceiverInRange cap (backfilling head r v) = head < cap
ReceiverInRange cap _ = Unit

pub record InRange (cap : ℕ) (m : Shared) : Type 0 where
  pub write_head-lt : m.write_head < cap
  pub size-le : m.size ≤ cap
  pub recv_head-lt : m.recv_head < cap

act-InRange :
    (cap : ℕ) (payload : ℕ → ℕ) (i : ℕ) (c : Choice) (m : Shared) (p : Pc)
    → 0 < cap
    → InRange cap m
    → SenderInRange cap p
    → InRange cap (act cap payload i c m p).0 × SenderInRange cap (act cap payload i c m p).1
unfolding act
act-InRange cap payload i c m idle pos r l = (
  record {
    write_head-lt = ground (arith, r);
    size-le = ground (arith, r);
    recv_head-lt = ground (arith, r);
  },
  ground arith,
)
act-InRange cap payload i c m (trying h s t) pos r l = (
  record {
    write_head-lt = ground (arith, r, mod-lt (h + 1) pos);
    size-le = ground (arith, r);
    recv_head-lt = ground (arith, r);
  },
  ground (arith, r),
)
act-InRange cap payload i c m p pos r l = (
  record {
    write_head-lt = ground (arith, r);
    size-le = ground (arith, r);
    recv_head-lt = ground (arith, r);
  },
  ground (arith, r, l),
)

recv_act-InRange :
    (cap : ℕ) (c : Choice) (m : Shared) (p : Rc)
    → 0 < cap
    → InRange cap m
    → ReceiverInRange cap p
    → InRange cap (recv_act cap c m p).0 × ReceiverInRange cap (recv_act cap c m p).1
unfolding recv_act
recv_act-InRange cap c m starting pos r l = (
  record {
    write_head-lt = ground (arith, r);
    size-le = ground (arith, r);
    recv_head-lt = ground (arith, r);
  },
  ground arith,
)
recv_act-InRange cap c m taking pos r l = (
  record {
    write_head-lt = ground (arith, r);
    size-le = ground (arith, r);
    recv_head-lt = mod-lt (m.recv_head + 1) pos;
  },
  r.recv_head-lt,
)
recv_act-InRange cap c m (passing head x v h s t) pos r l = (
  record {
    write_head-lt = ground (arith, r, mod-lt (h + 1) pos);
    size-le = ground (arith, r);
    recv_head-lt = ground (arith, r);
  },
  ground (arith, l),
)
recv_act-InRange cap c m (taking_over head x h s t) pos r l = (
  record {
    write_head-lt = ground (arith, r, mod-lt (h + 1) pos);
    size-le = ground (arith, r);
    recv_head-lt = ground (arith, r);
  },
  ground (arith, l),
)
recv_act-InRange cap c m p pos r l = (
  record {
    write_head-lt = ground (arith, r);
    size-le = ground (arith, r);
    recv_head-lt = ground (arith, r);
  },
  ground (arith, l),
)

-- The states that the receiver and senders 1 to n - 1 reach from a new channel of capacity `cap`.
pub data Reach (cap : ℕ) (payload : ℕ → ℕ) (n : ℕ) : System → Type 0 where
  start : new cap ≡ some fresh → Reach cap payload n fresh
  sends :
      {s : System} (i : ℕ) (c : Choice)
      → i ≢ 0
      → i < n
      → Reach cap payload n s
      → Reach cap payload n (step cap payload i c s)
  receives :
      {s : System} (c : Choice) → Reach cap payload n s → Reach cap payload n (recv_step cap c s)

-- A channel that is made has room for at least one message, and for fewer than 2 ^ 32.
new-capacity : (cap : ℕ) → new cap ≡ some fresh → (0 < cap) × (cap < 2 ^ 32)
unfolding new
new-capacity cap e = ground arith

pub capacity :
    {cap n : ℕ} {payload : ℕ → ℕ} {s : System} → Reach cap payload n s → (0 < cap) × (cap < 2 ^ 32)
capacity {cap} (start e) = new-capacity cap e
capacity (sends i c ne lt r) = capacity r
capacity (receives c r) = capacity r

-- All indices of a state are those of buckets.
pub record AllInRange (cap : ℕ) (s : System) : Type 0 where
  pub shared : InRange cap s.mem
  pub senders : (j : ℕ) → SenderInRange cap (s.pc j)
  pub receiver : ReceiverInRange cap s.rc

sender_kept :
    (cap : ℕ) (pc : ℕ → Pc) (i : ℕ) (p : Pc)
    → ((j : ℕ) → SenderInRange cap (pc j))
    → SenderInRange cap p
    → (j : ℕ) → SenderInRange cap (update pc i p j)
sender_kept cap pc i p all one j = elim (ℕ_discrete j i) [
  | yes e ↦ rw (e, update_self pc i p) one
  | no ne ↦ rw (update-ne pc i p j ne) (all j)
]

pub Reach-AllInRange :
    {cap n : ℕ} {payload : ℕ → ℕ} {s : System} → Reach cap payload n s → AllInRange cap s
unfolding step recv_step
Reach-AllInRange {cap} (start e) =
    let (pos, few) = new-capacity cap e in
    record {
      shared = record { write_head-lt = pos; size-le = omega arith; recv_head-lt = pos };
      senders = λ j. tt;
      receiver = tt;
    }
Reach-AllInRange {cap} {n} {payload} (sends {s} i c ne lt r) =
    let all = Reach-AllInRange r in
    let (shared, one) =
      act-InRange cap payload i c s.mem (s.pc i) (capacity r).0 all.shared (all.senders i) in
    record {
      shared = shared;
      senders = sender_kept cap s.pc i (act cap payload i c s.mem (s.pc i)).1 all.senders one;
      receiver = all.receiver;
    }
Reach-AllInRange {cap} (receives {s} c r) =
    let all = Reach-AllInRange r in
    let (shared, one) = recv_act-InRange cap c s.mem s.rc (capacity r).0 all.shared all.receiver in
    record { shared = shared; senders = all.senders; receiver = one }

-- In every state that a channel reaches, the heads of the ring and the bucket of each sender and of the
-- receiver are indices of its buckets, its size is at most the capacity that `new` was given, and the
-- atom, which `new` limits to half words by its assertions, survives its packing into a word.
pub ring_in_range :
    {cap n : ℕ} {payload : ℕ → ℕ} {s : System}
    → Reach cap payload n s
    → AllInRange cap s
      × (pack (record { write_head = s.mem.write_head; size = s.mem.size })
          ≡ record { write_head = s.mem.write_head; size = s.mem.size })
ring_in_range {cap} {s = s} r =
    let all = Reach-AllInRange r in
    let (pos, few) = capacity r in
    (
      all,
      (decode-encode_send (record { write_head = s.mem.write_head; size = s.mem.size })).1
          (omega (arith, all.shared.write_head-lt), omega (arith, all.shared.size-le)),
    )
