-- ===== src/FastMutex/Steps.antt =====
-- A step of task `i` of fast_mutex.rs keeps what the atom says, and does not panic.
use mathlib.Core.Path.{subst}
use async_mutex.Common.{
  List-cases, ℕ, ◌+◌, ◌^◌, ◌≤◌, ◌<◌, ◌≡◌, ◌≢◌, ◌⊎◌, inl, inr, refl, sym, ap, ◌∙◌, reverse, arith,
  Bool, true, false, Bool-cases, List, [], ◌∷◌, ◌++◌, tally, tally-update, tally-ge, tally-lt_of_le,
  tally-add, tally-le_size, update,
}
use async_mutex.Atomic.{from_bool}
use async_mutex.Tasks.Counts.{empty_of_newest, enqueue-ne_nil}
use async_mutex.FastMutex.{
  Waker, none, waiting, done, Shared, Pc, idle, trying, asleep, borrow, handing, waking, Choice,
  newest, act,
}
use async_mutex.FastMutex.Invariant.{
  holds, en_route, counted, borrowing, aims, is_done, pushed, Local, Inv,
}

-- Task `i` goes from `p` to `p'`.
pub record Moved (n : ℕ) (pc : ℕ → Pc) (i : ℕ) (p p' : Pc) : Type 0 where
  pub holders : tally holds n (update pc i p') + holds p ≡ tally holds n pc + holds p'
  pub travellers :
      tally en_route n (update pc i p') + en_route p ≡ tally en_route n pc + en_route p'
  pub counts : tally counted n (update pc i p') + counted p ≡ tally counted n pc + counted p'
  pub borrowers :
      tally borrowing n (update pc i p') + borrowing p ≡ tally borrowing n pc + borrowing p'
  pub holder : holds p ≤ tally holds n pc
  pub traveller : en_route p ≤ tally en_route n pc
  pub count_one : counted p ≤ tally counted n pc
  pub borrower : borrowing p ≤ tally borrowing n pc

pub moved : (n : ℕ) (pc : ℕ → Pc) (i : ℕ) (p' : Pc) → i < n → Moved n pc i (pc i) p'
moved n pc i p' lt = record {
  holders = tally-update holds n pc i p' lt;
  travellers = tally-update en_route n pc i p' lt;
  counts = tally-update counted n pc i p' lt;
  borrowers = tally-update borrowing n pc i p' lt;
  holder = tally-ge holds n pc i lt;
  traveller = tally-ge en_route n pc i lt;
  count_one = tally-ge counted n pc i lt;
  borrower = tally-ge borrowing n pc i lt;
}

-- What the atom says.
pub record Says (n : ℕ) (m : Shared) (pc : ℕ → Pc) : Type 0 where
  pub locked_is : from_bool m.locked ≡ tally holds n pc
  pub waking_is : from_bool m.waking ≡ tally en_route n pc + tally is_done n m.waker
  pub waiters_is : m.waiters ≡ tally counted n pc
  pub ready : m.locked ≡ false → m.waking ≡ false → m.waiters ≡ 0

-- How the number of woken waiters changes by a write to the waker of `j`.
record Rewoken (n : ℕ) (m : Shared) (j : ℕ) (k : Waker) : Type 0 where
  change :
      tally is_done n (update m.waker j k) + is_done (m.waker j)
      ≡ tally is_done n m.waker + is_done k
  before : is_done (m.waker j) ≤ tally is_done n m.waker

rewoken : (n : ℕ) (m : Shared) (j : ℕ) (k : Waker) → j < n → Rewoken n m j k
rewoken n m j k below = record {
  change = tally-update is_done n m.waker j k below;
  before = tally-ge is_done n m.waker j below;
}

module _ {n : ℕ} {m : Shared} {pc : ℕ → Pc} (inv : Inv n m pc) (i : ℕ) (lt : i < n)
    (c : Choice) where
  abbrev pub mem' : Pc → Shared
  mem' p = (act i c m p).0

  abbrev pub pc' : Pc → ℕ → Pc
  pc' p = update pc i (act i c m p).1

  abbrev pub Moves : Pc → Type 0
  Moves p = Moved n pc i p (act i c m p).1

  target_cases :
      (w : ℕ) (p : Pc)
      → pc w ≡ p
      → 1 + is_done (m.waker w) ≤ pushed p
      → Local n w m p
      → (w < n) × (m.waker w ≡ waiting)
  target_cases w p here k l = (ground (arith, inv.outside w), ground arith)

  -- The waiter that the task has popped is that of another task that waits.
  pub target : (w : ℕ) → 1 ≤ aims w (pc i) → (w < n) × (m.waker w ≡ waiting)
  target w aimed =
      target_cases w (pc w) refl (omega (arith, tally-ge (aims w) n pc i lt, inv.place w))
        (inv.local_facts w)

  -- The second loop of `unlock` finds a waiter.
  pub handing_cases :
      (b l k : Bool) (w t : ℕ)
      → pc i ≡ handing b l k w t
      → (k ≡ false)
        × (m.waking ≡ false)
        × (1 ≤ w)
        × (((b ≡ true) × ((v : ℕ) × (vs : List ℕ) × (m.queue ≡ v ∷ vs)))
            ⊎ ((b ≡ false)
                × (t ≢ 0)
                × (newest m.inbox ≡ t
                    → (v : ℕ) × (vs : List ℕ) × (m.queue ++ reverse m.inbox ≡ v ∷ vs))))
  handing_cases b l k w t here =
      let (k_is, quiet, some, linked, full, empty, fewer) =
        subst (Local n i m) here (inv.local_facts i) in
      (
        k_is,
        quiet,
        some,
        elim (Bool-cases b) [
          | inl had ↦ elim (List-cases m.queue) [
            | inl e ↦ absurd (full had e)
            | inr found ↦ inl (had, found)
          ]
          | inr had ↦ inr (
            had,
            (λ e. linked e (empty had)),
            (λ same. elim (List-cases (m.queue ++ reverse m.inbox)) [
              | inl e ↦
                  absurd (enqueue-ne_nil m.queue m.inbox (λ z. linked (sym same ∙ z) (empty had)) e)
              | inr found ↦ found
            ]),
          )
        ],
      )

  pub act-Says : (p : Pc) → pc i ≡ p → Moves p → (mem' p).aborted ≡ false → Says n (mem' p) (pc' p)
  unfolding act
  act-Says idle here mv ok =
      let cleared = rewoken n m i none lt in
      record {
        locked_is = ground (arith, mv.holders, inv.locked_is);
        waking_is = ground (arith, mv.travellers, inv.waking_is, inv.place i, cleared);
        waiters_is = ground (arith, mv.counts, inv.waiters_is);
        ready = ground (arith, inv.ready);
      }
  act-Says (trying b l k w t) here mv ok =
      let cleared = rewoken n m i none lt in
      let set = rewoken n m i waiting lt in
      record {
        locked_is = ground (arith, mv.holders, inv.locked_is, inv.place i);
        waking_is =
            ground (arith, mv.travellers, mv.traveller, inv.waking_is, inv.place i, cleared, set);
        waiters_is = ground (arith, mv.counts, mv.count_one, inv.waiters_is, inv.place i);
        ready = ground (arith, inv.ready, inv.place i);
      }
  act-Says (asleep l k w t) here mv ok =
      let cleared = rewoken n m i none lt in
      record {
        locked_is = ground (arith, ok, mv.holders, inv.locked_is, inv.local_facts i);
        waking_is = ground (arith, ok, mv.travellers, inv.waking_is, inv.local_facts i, cleared);
        waiters_is = ground (arith, ok, mv.counts, inv.waiters_is, inv.local_facts i);
        ready = ground (arith, ok, inv.ready, inv.local_facts i);
      }
  act-Says (handing b l k w t) here mv ok =
      let (k_is, quiet, some, found) = handing_cases b l k w t here in
      elim found [
        | inl (had, (v, vs, e)) ↦ record {
          locked_is = ground (arith, mv.holders, mv.holder, inv.locked_is);
          waking_is = ground (arith, mv.travellers, inv.waking_is);
          waiters_is = ground (arith, mv.counts, inv.waiters_is);
          ready = ground (arith, mv.holder, inv.locked_is);
        }
        | inr (had, new, all) ↦ record {
          locked_is = ground (arith, mv.holders, mv.holder, inv.locked_is, all);
          waking_is = ground (arith, mv.travellers, inv.waking_is, all);
          waiters_is = ground (arith, mv.counts, inv.waiters_is, all);
          ready = ground (arith, mv.holder, inv.locked_is, all);
        }
      ]
  act-Says (waking w) here mv ok =
      let (below, waits) = target w (rw here (ground arith)) in
      let set = rewoken n m w done below in
      record {
        locked_is = ground (arith, mv.holders, inv.locked_is);
        waking_is = ground (arith, mv.travellers, mv.traveller, inv.waking_is, set);
        waiters_is = ground (arith, mv.counts, inv.waiters_is);
        ready = ground (arith, inv.ready);
      }
  act-Says p here mv ok = record {
    locked_is = ground (arith, mv.holders, mv.holder, inv.locked_is, inv.local_facts i);
    waking_is = ground (arith, mv.travellers, mv.traveller, inv.waking_is, inv.local_facts i);
    waiters_is = ground (arith, mv.counts, mv.count_one, inv.waiters_is, inv.local_facts i);
    ready = ground (arith, mv.holder, inv.locked_is, inv.ready, inv.local_facts i);
  }

  has : Pc → ℕ
  has p = holds p + en_route p

  borrowing-le : (p : Pc) → borrowing p ≤ has p
  unfolding has
  borrowing-le p = ground arith

  from_bool-le : (b : Bool) → from_bool b ≤ 1
  from_bool-le b = ground arith

  -- Whoever is about to take the queue guard finds it free.
  unborrowed : (l k : Bool) (w t : ℕ) → pc i ≡ borrow l k w t → m.borrowed ≡ false
  unfolding has
  unborrowed l k w t here =
      let (k_is, quiet, some, linked, few) = subst (Local n i m) here (inv.local_facts i) in
      let fewer : tally borrowing n pc < tally has n pc =
        tally-lt_of_le borrowing has n pc i borrowing-le lt (rw here (omega arith)) in
      let all = tally-add holds en_route n pc in
      let none_moves : tally en_route n pc ≡ 0 = omega (arith, inv.waking_is, ap from_bool quiet) in
      ground (arith, fewer, all, none_moves, inv.locked_is, from_bool-le m.locked, inv.borrowed_is)

  pub act-borrowed :
      (p : Pc)
      → pc i ≡ p
      → Moves p
      → (mem' p).aborted ≡ false
      → from_bool (mem' p).borrowed ≡ tally borrowing n (pc' p)
  unfolding act
  act-borrowed idle here mv ok = ground (arith, mv.borrowers, inv.borrowed_is)
  act-borrowed (trying b l k w t) here mv ok = ground (arith, mv.borrowers, inv.borrowed_is)
  act-borrowed (handing b l k w t) here mv ok =
      let (k_is, quiet, some, found) = handing_cases b l k w t here in
      elim found [
        | inl (had, (v, vs, e)) ↦ ground (arith, mv.borrowers, mv.borrower, inv.borrowed_is)
        | inr (had, new, all) ↦ ground (arith, mv.borrowers, mv.borrower, inv.borrowed_is, all)
      ]
  act-borrowed p here mv ok =
      ground (arith, ok, mv.borrowers, mv.borrower, inv.borrowed_is, inv.local_facts i)

  counted-le : (p : Pc) → counted p ≤ 1
  counted-le p = ground arith

  -- No more tasks are counted than there are.
  pub waiters-le : m.waiters ≤ n
  waiters-le = omega (arith, inv.waiters_is, tally-le_size counted counted-le n pc)

  pub act-calm : n < 2 ^ 62 → (p : Pc) → pc i ≡ p → (mem' p).panicked ≡ false
  unfolding act
  act-calm few (trying b l k w t) here = ground (arith, inv.calm, inv.place i, inv.local_facts i)
  act-calm few (borrow l k w t) here = ground (arith, inv.calm, unborrowed l k w t here)
  act-calm few (handing b l k w t) here =
      let (k_is, quiet, some, found) = handing_cases b l k w t here in
      elim found [
        | inl (had, (v, vs, e)) ↦ ground (arith, inv.calm)
        | inr (had, new, all) ↦ ground (arith, inv.calm, all)
      ]
  act-calm few (waking w) here =
      let (below, waits) = target w (rw here (ground arith)) in ground (arith, inv.calm)
  act-calm few p here = ground (arith, inv.calm, inv.local_facts i)

  pub inbox_empty : newest m.inbox ≡ 0 → m.inbox ≡ []
  inbox_empty h = ground (arith, empty_of_newest m.inbox h, inv.place 0, inv.nobody)
