-- ===== src/Mpsc/Claims.antt =====
-- A step of a sender of mpsc.rs keeps what the size and the heads say about the buckets.
use async_mutex.Common.{
  ℕ, ◌+◌, ◌-◌, ◌≤◌, ◌<◌, ◌≡◌, ◌⊎◌, inl, inr, refl, ap, arith, ◌==◌, if◌then◌else◌, update, tally,
  tally-ge, tally-update,
}
use async_mutex.Mpsc.{Choice, Shared, Pc, idle, trying, filling, Rc, act}
use async_mutex.Mpsc.Bounds.{InRange, SenderInRange}
use async_mutex.Mpsc.Waiting.{Inv}
use async_mutex.Mpsc.Ring.{wrap, wrap_mod, inside_grow, wrap_grow, inside-le}
use async_mutex.Mpsc.Slots.{between, used, claims, Behind, Occupied, Slots}

module _ {cap n : ℕ} {m : Shared} {pc : ℕ → Pc} {rc : Rc} (r : InRange cap m)
    (inv : Inv cap n m pc rc) (slots : Slots cap n m pc rc) (c : Choice) where
  module _ (payload : ℕ → ℕ) (i : ℕ) (lt : i < n) where
    abbrev mem' : Pc → Shared
    mem' p = (act cap payload i c m p).0

    abbrev Claims : Pc → ℕ → Type 0
    Claims p at =
        (tally (claims at) n (update pc i (act cap payload i c m p).1) + claims at p
          ≡ tally (claims at) n pc + claims at (act cap payload i c m p).1)
        × (claims at p ≤ tally (claims at) n pc)

    one_more : m.size + 1 - between rc ≡ used m rc + 1
    one_more = omega (arith, slots.room)

    act-head :
        (p : Pc)
        → pc i ≡ p
        → ((mem' p).recv_head ≡ m.recv_head)
          × ((mem' p).write_head ≡ wrap cap (m.recv_head + used (mem' p) rc))
          × (m.size ≤ (mem' p).size)
    unfolding act
    act-head idle here = ground (arith, slots.head_is)
    act-head (trying h s t) here = ground (
      arith,
      slots.head_is,
      wrap_mod cap m.write_head r.write_head-lt,
      wrap_grow cap m.recv_head (used m rc) (m.size + 1 - between rc) one_more r.recv_head-lt,
    )
    act-head p here = ground (arith, slots.head_is)

    pub trying_cases :
        (h s t at : ℕ)
        → pc i ≡ trying h s t
        → ((mem' (trying h s t)).filled ≡ m.filled)
          × ((mem' (trying h s t)).recv_head ≡ m.recv_head)
          × ((((mem' (trying h s t)).size ≡ m.size)
                × (claims at (act cap payload i c m (trying h s t)).1 ≡ 0))
              ⊎ (((mem' (trying h s t)).size ≡ m.size + 1)
                  × (m.size < cap)
                  × (claims at (act cap payload i c m (trying h s t)).1
                      ≡ (if m.write_head == at then 1 else 0))))
    unfolding act
    trying_cases h s t at here = (ground arith, ground arith, ground arith)

    act-Occupied :
        (p : Pc)
        → pc i ≡ p
        → SenderInRange cap p
        → (at : ℕ) → at < cap
        → Claims p at
        → Occupied cap n (mem' p) (update pc i (act cap payload i c m p).1) rc at
    unfolding act
    act-Occupied idle here range at below mv = ground (arith, mv, slots.occupied at)
    act-Occupied (trying h s t) here range at below (moved, was) =
        let (same_filled, same_head, cases) = trying_cases h s t at here in
        rw (same_filled, same_head)
          (elim cases [
            | inl (same, unclaimed) ↦
                rw same (omega (arith, moved, unclaimed, slots.occupied at below))
            | inr (more, space, one) ↦ rw more (
                omega (
                  arith,
                  moved,
                  one,
                  slots.occupied at below,
                  inside_grow cap m.recv_head (used m rc) (m.size + 1 - between rc) at one_more
                      r.recv_head-lt below (omega arith),
                  ap {B = ℕ} (λ h'. if h' == at then 1 else 0) slots.head_is,
                ))
          ])
    act-Occupied (filling b) here range at below mv =
        ground (arith, mv, slots.occupied at below, inside-le cap m.recv_head (used m rc) at)
    act-Occupied p here range at below mv = ground (arith, mv, slots.occupied at below)

    -- What the receiver knows does not depend on the senders.
    act-Behind : (p : Pc) → pc i ≡ p → (q : Rc) → Behind cap m q → Behind cap (mem' p) q
    unfolding act
    act-Behind idle here q k = ground (arith, k)
    act-Behind p here q k = ground (arith, k)

    pub act-Slots :
        ((j : ℕ) → SenderInRange cap (pc j))
        → Slots cap n (mem' (pc i)) (update pc i (act cap payload i c m (pc i)).1) rc
    act-Slots range =
        let (same, head, more) = act-head (pc i) refl in
        record {
          head_is = rw same head;
          room = omega (arith, slots.room);
          occupied = λ at below. act-Occupied (pc i) refl (range i) at below (
            tally-update (claims at) n pc i (act cap payload i c m (pc i)).1 lt,
            tally-ge (claims at) n pc i lt,
          );
          behind = act-Behind (pc i) refl rc slots.behind;
        }
