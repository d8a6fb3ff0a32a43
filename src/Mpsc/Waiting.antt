-- ===== src/Mpsc/Waiting.antt =====
-- A step of mpsc.rs keeps this: senders wait only while the channel is full, and the receiver and a
-- cancelled sender are not at work on the queue at once.
use async_mutex.Common.{
  ℕ, zero, suc, ◌+◌, ◌≤◌, ◌<◌, ◌≡◌, ◌≢◌, ◌⊎◌, refl, arith, false, List, [], ◌∷◌, ◌++◌, reverse,
  length, length-append, length-reverse_aux, update, count, tally,
}
use mathlib.Core.Path.{subst}
use async_mutex.Atomic.{from_bool}
use async_mutex.Mpsc.{
  Choice, newest, Shared, Pc, idle, flip_load, flip, unlinking, Rc, starting, borrow, popping,
  load_popped, passing, load_empty, taking_over, backfilling, waking, releasing, act, recv_act,
  take_round, erase,
}
use async_mutex.Tasks.Counts.{empty_of_newest}
use async_mutex.Mpsc.Bounds.{InRange}

-- The sender has the write lock of the futex.
abbrev pub cancelling : Pc → ℕ
cancelling flip_load = 1
cancelling (flip h s t) = 1
cancelling unlinking = 1
cancelling _ = 0

-- The receiver has the read lock of the futex.
abbrev pub guarding : Rc → ℕ
guarding (borrow head r) = 1
guarding (popping head r) = 1
guarding (load_popped head r v) = 1
guarding (passing head r v h s t) = 1
guarding (load_empty head r) = 1
guarding (taking_over head r h s t) = 1
guarding (backfilling head r v) = 1
guarding (waking r v) = 1
guarding (releasing r) = 1
guarding _ = 0

-- The receiver has the guard of the queue.
abbrev pub borrowing : Rc → ℕ
borrowing (borrow head r) = 0
borrowing p = guarding p

-- How many senders wait.
abbrev pub waiters : Shared → ℕ
waiters m = length m.inbox + length m.queue

-- What the receiver knows of the channel, with its snapshot.
abbrev pub Known : ℕ → Shared → Rc → Type 0
Known cap m (load_popped head r v) = m.size ≡ cap
Known cap m (passing head r v h s t) = (m.size ≡ cap) × (s ≡ cap)
Known cap m (load_empty head r) = length m.queue ≡ 0
Known cap m (taking_over head r h s t) = (length m.queue ≡ 0) × (t ≢ 0 → s ≡ cap)
Known cap m _ = Unit

pub record Inv (cap n : ℕ) (m : Shared) (pc : ℕ → Pc) (rc : Rc) : Type 0 where
  pub full : 1 ≤ waiters m → m.size ≡ cap
  pub no_null : count 0 m.inbox ≡ 0
  pub known : Known cap m rc
  pub guards_is : m.guards ≡ guarding rc
  pub locked_is : from_bool m.locked ≡ tally cancelling n pc
  pub apart : (m.locked ≡ false) ⊎ (m.guards ≡ 0)
  pub borrowed_is : from_bool m.borrowed ≡ borrowing rc

length-enqueue : (ws xs : List ℕ) → length (ws ++ reverse xs) ≡ length ws + length xs
length-enqueue ws xs = omega (arith, length-append ws (reverse xs), length-reverse_aux xs [])

length-erase : (i : ℕ) (ws : List ℕ) → length (erase i ws) ≤ length ws
length-erase i [] = omega arith
length-erase i (w ∷ ws) = ground (arith, length-erase i ws)

pub newest-length : (ws : List ℕ) → newest ws ≢ 0 → 1 ≤ length ws
newest-length [] h = absurd (h refl)
newest-length (w ∷ ws) h = omega arith

module _ {cap n : ℕ} (payload : ℕ → ℕ) {m : Shared} {pc : ℕ → Pc} {rc : Rc}
    (inv : Inv cap n m pc rc) (r : InRange cap m) (c : Choice) where
  module _ (i : ℕ) (pos : i ≢ 0) (lt : i < n) where
    abbrev mem' : Pc → Shared
    mem' p = (act cap payload i c m p).0

    abbrev Moves : Pc → Type 0
    Moves p =
        (tally cancelling n (update pc i (act cap payload i c m p).1) + cancelling p
          ≡ tally cancelling n pc + cancelling (act cap payload i c m p).1)
        × (cancelling p ≤ tally cancelling n pc)

    abbrev Shares : Pc → Type 0
    Shares p =
        (1 ≤ waiters (mem' p) → (mem' p).size ≡ cap)
        × (count 0 (mem' p).inbox ≡ 0)
        × (m.size ≡ cap → (mem' p).size ≡ cap)
        × (((mem' p).queue ≡ m.queue) ⊎ (m.guards ≡ 0))
        × ((mem' p).guards ≡ m.guards)
        × ((mem' p).borrowed ≡ m.borrowed)
        × (from_bool (mem' p).locked ≡ tally cancelling n (update pc i (act cap payload i c m p).1))
        × (((mem' p).locked ≡ false) ⊎ (m.guards ≡ 0))

    pub act-Shares : (p : Pc) → Moves p → Shares p
    unfolding act
    act-Shares idle mv = ground (arith, mv, inv.full, inv.no_null, inv.locked_is, inv.apart)
    act-Shares unlinking mv =
        ground (arith, mv, inv.full, inv.no_null, inv.locked_is, inv.apart, length-erase i m.queue)
    act-Shares p mv = ground (
      arith,
      mv,
      inv.full,
      inv.no_null,
      inv.locked_is,
      inv.apart,
      r.size-le,
      length-enqueue m.queue m.inbox,
    )

  empty_inbox : newest m.inbox ≡ 0 → m.inbox ≡ []
  empty_inbox h = empty_of_newest m.inbox h inv.no_null

  -- What the receiver knew, as its clause of `rc` says.
  Known-rc : (p : Rc) → rc ≡ p → Known cap m p
  Known-rc p here = subst (Known cap m) here inv.known

  take_round-full :
      (head x h s t : ℕ)
      → length m.queue ≡ 0
      → (t ≢ 0 → s ≡ cap)
      → 1 ≤ waiters (take_round cap c m head x h s t).0
      → (take_round cap c m head x h s t).0.size ≡ cap
  unfolding take_round
  take_round-full head x h s zero nobody k =
      ground (arith, inv.full, nobody, empty_inbox, length-enqueue m.queue m.inbox)
  take_round-full head x h s (suc t) nobody k = ground (arith, inv.full, nobody, k)

  pub recv_act-full :
      (p : Rc) → rc ≡ p → 1 ≤ waiters (recv_act cap c m p).0 → (recv_act cap c m p).0.size ≡ cap
  unfolding recv_act
  recv_act-full starting here = ground (arith, inv.full)
  recv_act-full (taking_over head x h s t) here =
      let (nobody, k) = Known-rc (taking_over head x h s t) here in
      take_round-full head x h s t nobody k
  recv_act-full p here = ground (arith, inv.full, Known-rc p here)

  pub recv_act-no_null : (p : Rc) → count 0 (recv_act cap c m p).0.inbox ≡ 0
  unfolding recv_act
  recv_act-no_null starting = ground (arith, inv.no_null)
  recv_act-no_null p = ground (arith, inv.no_null)

  pub recv_act-Known : (p : Rc) → rc ≡ p → Known cap (recv_act cap c m p).0 (recv_act cap c m p).1
  unfolding recv_act
  recv_act-Known starting here = ground arith
  recv_act-Known p here = ground (arith, inv.full, Known-rc p here, newest-length m.inbox)

  pub recv_act-guards :
      (p : Rc)
      → rc ≡ p
      → ((recv_act cap c m p).0.guards ≡ guarding (recv_act cap c m p).1)
        × ((recv_act cap c m p).0.locked ≡ m.locked)
        × (((recv_act cap c m p).0.locked ≡ false) ⊎ ((recv_act cap c m p).0.guards ≡ 0))
        × (from_bool (recv_act cap c m p).0.borrowed ≡ borrowing (recv_act cap c m p).1)
  unfolding recv_act
  recv_act-guards starting here = ground (arith, inv.guards_is, inv.apart, inv.borrowed_is)
  recv_act-guards p here = ground (arith, inv.guards_is, inv.apart, inv.borrowed_is)

  pub Known-kept :
      (p : Rc)
      → rc ≡ p
      → (m' : Shared) → (m.size ≡ cap → m'.size ≡ cap)
      → (m'.queue ≡ m.queue) ⊎ (m.guards ≡ 0)
      → Known cap m p
      → Known cap m' p
  Known-kept p here m' same queue k = ground (arith, inv.guards_is, k, same, queue)
