-- ===== src/Lazy/Moves.antt =====
-- A step of a task of lazy.rs keeps what the guards and the atom say, and does not panic.
use mathlib.Core.Path.{subst}
use async_mutex.Common.{
  ℕ, ◌+◌, ◌≤◌, ◌<◌, ◌≡◌, refl, arith, Bool, true, false, [], ◌∷◌, ◌++◌, reverse, tally,
  tally-update, tally-ge, tally-add, tally-lt_of_le, update,
}
use async_mutex.Atomic.{from_bool}
use async_mutex.Lazy.{
  CellAtom, Waker, waiting, Shared, Pc, flip, unlinking, borrow, finishing, waking, Choice, act,
  poll_enter, poll_waiting, drop_waiting, wake, end_finish,
}
use async_mutex.Lazy.Once.{owns, is_active, Local, Inv}
use async_mutex.Lazy.Seats.{
  is_final, waits, seated, takes, reading, writing, borrowing, ends, pops, Sits, Seats,
}

-- Task `i` goes from `p` to `p'`.
pub record Moved (n : ℕ) (pc : ℕ → Pc) (i : ℕ) (p p' : Pc) : Type 0 where
  pub readers : tally reading n (update pc i p') + reading p ≡ tally reading n pc + reading p'
  pub writers : tally writing n (update pc i p') + writing p ≡ tally writing n pc + writing p'
  pub borrowers :
      tally borrowing n (update pc i p') + borrowing p ≡ tally borrowing n pc + borrowing p'
  pub enders : tally ends n (update pc i p') + ends p ≡ tally ends n pc + ends p'
  pub poppers : tally pops n (update pc i p') + pops p ≡ tally pops n pc + pops p'
  pub reader : reading p ≤ tally reading n pc
  pub writer : writing p ≤ tally writing n pc
  pub borrower : borrowing p ≤ tally borrowing n pc
  pub ender : ends p ≤ tally ends n pc
  pub popper : pops p ≤ tally pops n pc
  pub owner : owns p ≤ tally owns n pc

pub moved : (n : ℕ) (pc : ℕ → Pc) (i : ℕ) (p' : Pc) → i < n → Moved n pc i (pc i) p'
moved n pc i p' lt = record {
  readers = tally-update reading n pc i p' lt;
  writers = tally-update writing n pc i p' lt;
  borrowers = tally-update borrowing n pc i p' lt;
  enders = tally-update ends n pc i p' lt;
  poppers = tally-update pops n pc i p' lt;
  reader = tally-ge reading n pc i lt;
  writer = tally-ge writing n pc i lt;
  borrower = tally-ge borrowing n pc i lt;
  ender = tally-ge ends n pc i lt;
  popper = tally-ge pops n pc i lt;
  owner = tally-ge owns n pc i lt;
}

borrowing-le : (p : Pc) → borrowing p ≤ owns p + ends p
borrowing-le p = ground arith

from_bool-false : (b : Bool) → from_bool b ≡ 0 → b ≡ false
from_bool-false b h = ground arith

seated_cases :
    (m : Shared) (w : ℕ) (p : Pc) → 1 ≤ seated p (m.waker w) → Sits m w p → m.waker w ≡ waiting
seated_cases m w p h k = ground arith

waits_cases : (p : Pc) (k : Waker) → 1 ≤ seated p k → waits p ≡ 1
waits_cases p k h = ground arith

module _ {n : ℕ} {m : Shared} {pc : ℕ → Pc} (inv : Inv n m pc) (seats : Seats n m pc) (i : ℕ)
    (lt : i < n) (c : Choice) where
  abbrev pub mem' : Pc → Shared
  mem' p = (act i c m p).0

  abbrev pub pc' : Pc → ℕ → Pc
  pc' p = update pc i (act i c m p).1

  abbrev pub Moves : Pc → Type 0
  Moves p = Moved n pc i p (act i c m p).1

  -- No other task has the guard of the queues when a task comes to take it.
  free_borrow : (new : CellAtom) → pc i ≡ borrow new → m.borrowed ≡ false
  free_borrow new here =
      let fewer : tally borrowing n pc < tally (λ p. owns p + ends p) n pc =
        tally-lt_of_le borrowing (λ p. owns p + ends p) n pc i borrowing-le lt
          (rw here (omega arith)) in
      let own : 1 ≤ tally owns n pc = rw here at (tally-ge owns n pc i lt) in
      from_bool-false m.borrowed (
        ground (
          arith,
          fewer,
          own,
          tally-add owns ends n pc,
          inv.owners,
          seats.ending,
          seats.borrowed_is,
        ))

  -- What the guards and the atom say.
  pub record Says (p : Pc) : Type 0 where
    pub readers_is : (mem' p).readers ≡ tally reading n (pc' p)
    pub writer_is : from_bool (mem' p).writer ≡ tally writing n (pc' p)
    pub borrowed_is : from_bool (mem' p).borrowed ≡ tally borrowing n (pc' p)
    pub apart : (mem' p).writer ≡ true → (mem' p).readers ≡ 0
    pub ending : tally ends n (pc' p) ≤ is_final (mem' p).atom

  pub act-Says : (p : Pc) → pc i ≡ p → Moves p → Says p
  unfolding act poll_enter poll_waiting drop_waiting wake end_finish
  act-Says (borrow new) here mv = record {
    readers_is = ground (arith, mv.readers, mv.reader, seats.readers_is);
    writer_is = ground (arith, mv.writers, mv.writer, seats.writer_is);
    borrowed_is =
        ground (arith, mv.borrowers, mv.borrower, seats.borrowed_is, free_borrow new here);
    apart = ground (arith, seats.apart, seats.writer_is, seats.readers_is, mv.reader, mv.writer);
    ending = ground (
      arith,
      mv.enders,
      mv.ender,
      seats.ending,
      mv.owner,
      inv.owners,
      subst (Local m.atom) here (inv.places i),
    );
  }
  act-Says p here mv = record {
    readers_is = ground (arith, mv.readers, mv.reader, seats.readers_is);
    writer_is = ground (arith, mv.writers, mv.writer, seats.writer_is);
    borrowed_is = ground (arith, mv.borrowers, mv.borrower, seats.borrowed_is);
    apart = ground (arith, seats.apart, seats.writer_is, seats.readers_is, mv.reader, mv.writer);
    ending = ground (
      arith,
      mv.enders,
      mv.ender,
      seats.ending,
      mv.owner,
      inv.owners,
      subst (Local m.atom) here (inv.places i),
    );
  }

  -- A waiter that is about to be woken has a waker.
  pub target : (w : ℕ) → 1 ≤ takes w (pc i) → m.waker w ≡ waiting
  target w taken =
      seated_cases m w (pc w) (omega (arith, tally-ge (takes w) n pc i lt, seats.place w))
        (seats.sits w)

  -- It is that of another task, whose wait is not over.
  pub target-waits : (w : ℕ) → 1 ≤ takes w (pc i) → waits (pc w) ≡ 1
  target-waits w taken =
      waits_cases (pc w) (m.waker w) (omega (arith, tally-ge (takes w) n pc i lt, seats.place w))

  pub act-calm : (p : Pc) → pc i ≡ p → (mem' p).panicked ≡ false
  unfolding act poll_enter poll_waiting drop_waiting wake end_finish
  act-calm (borrow new) here = ground (arith, free_borrow new here, seats.calm)
  act-calm (waking new (w ∷ ws)) here =
      ground (arith, target w (rw here (ground arith)), seats.calm)
  act-calm (finishing new a t) here =
      ground (arith, subst (Local m.atom) here (inv.places i), seats.calm)
  act-calm p here = ground (arith, subst (Sits m i) here (seats.sits i), seats.calm)

  pub act-calm_inbox : (p : Pc) → pc i ≡ p → is_active (mem' p).atom ≡ 0 → (mem' p).inbox ≡ []
  unfolding act poll_enter poll_waiting drop_waiting wake end_finish
  act-calm_inbox p here h = ground (arith, seats.calm_inbox)

  enqueue_nil : m.inbox ≡ [] → m.queue ≡ [] → m.queue ++ reverse m.inbox ≡ []
  enqueue_nil e h = rw (e, h) refl

  pub act-calm_queue :
      (p : Pc)
      → pc i ≡ p
      → Moves p
      → is_active (mem' p).atom ≡ 0
      → tally pops n (pc' p) ≡ 0
      → (mem' p).queue ≡ []
  unfolding act poll_enter poll_waiting drop_waiting wake end_finish
  act-calm_queue unlinking here mv h k = rw (seats.calm_queue h (omega (arith, mv.poppers))) refl
  act-calm_queue (flip a t) here mv h k =
      ground (arith, mv.poppers, seats.calm_inbox, seats.calm_queue, enqueue_nil)
  act-calm_queue p here mv h k = ground (arith, mv.poppers, mv.popper, seats.calm_queue)
