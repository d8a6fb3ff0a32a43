-- ===== src/FairMutex/Order.antt =====
-- The order in which the mutex of fair_mutex.rs is handed on.
use mathlib.Core.List.{reverse-append}
use async_mutex.Common.{
  ℕ, ◌≡◌, ◌⊎◌, inl, inr, refl, sym, arith, List, [], ◌∷◌, ◌++◌, reverse, append_assoc, append-nil,
  count, update_self,
}
use async_mutex.FairMutex.{
  Shared, System, Pc, trying, asleep, flip, unlinking, pop_first, load_atom, looping, take_one,
  popped, Choice, step, erase, act, pop, panic,
}
use async_mutex.FairMutex.Invariant.{Inv}
use async_mutex.Tasks.Counts.{count-reverse_aux}
use async_mutex.FairMutex.Safety.{Reach, Reach-Inv}

-- The waiting tasks, the first to wait in front: the queue, then the inbox from its oldest entry on.
abbrev pub order : Shared → List ℕ
order m = m.queue ++ reverse m.inbox

-- How a step of task `i`, from `p` to `p'`, may change the order: not at all; the task joins at the
-- end as it begins to wait; it leaves as its wait is cancelled; or it takes out the first waiter.
abbrev pub Ordered : ℕ → List ℕ → List ℕ → Pc → Pc → Type 0
Ordered i before after p p' =
    (after ≡ before)
    ⊎ ((p' ≡ asleep) × (after ≡ before ++ (i ∷ []))
        ⊎ ((p ≡ unlinking) × (after ≡ erase i before)
            ⊎ ((w : ℕ) × (p' ≡ popped w) × (before ≡ w ∷ after))))

erase-append : (i : ℕ) (xs ys : List ℕ) → count i ys ≡ 0 → erase i (xs ++ ys) ≡ erase i xs ++ ys
erase-append i [] [] h = refl
erase-append i [] (y ∷ ys) h = ground (arith, erase-append i [] ys)
erase-append i (x ∷ xs) ys h = ground (arith, erase-append i xs ys h)

reverse-cons : (i : ℕ) (ws : List ℕ) → reverse (i ∷ ws) ≡ reverse ws ++ i ∷ []
reverse-cons i ws = reverse-append (i ∷ []) ws

pop-Ordered :
    (i : ℕ) (m g : Shared) (p q : Pc) (ws : List ℕ)
    → ws ≡ m.queue
    → order g ≡ order m
    → Ordered i (order m) (order (pop m (g, q) ws).0) p (pop m (g, q) ws).1
unfolding pop
pop-Ordered i m g p q [] e same = inl same
pop-Ordered i m g p q (w ∷ ws) e same = inr (inr (inr (w, refl, rw (← e))))

module _ {n : ℕ} {m : Shared} {pc : ℕ → Pc} (inv : Inv n m pc) (i : ℕ) (c : Choice) where
  act-Ordered : (p : Pc) → pc i ≡ p → Ordered i (order m) (order (act i c m p).0) p (act i c m p).1
  unfolding act
  act-Ordered pop_first here = pop-Ordered i m m pop_first load_atom m.queue refl refl
  act-Ordered take_one here = pop-Ordered i m (panic m) take_one take_one m.queue refl refl
  act-Ordered unlinking here = inr (
      inr (
        inl (
          refl,
          sym (
              erase-append i m.queue (reverse m.inbox)
                (ground (arith, inv.local_facts i, count-reverse_aux i m.inbox []))),
        )))
  act-Ordered (trying a t) here =
      ground (arith, reverse-cons i m.inbox, append_assoc m.queue (reverse m.inbox) (i ∷ []))
  act-Ordered (flip a t) here = ground (arith, append-nil (m.queue ++ reverse m.inbox))
  act-Ordered (looping a t) here = ground (arith, append-nil (m.queue ++ reverse m.inbox))
  act-Ordered p here = ground arith

-- The mutex is handed on first come, first served: in every reachable state, a step of task `i`
-- leaves the order of the waiting tasks as it is, or puts `i` at its end as `i` begins to wait, or
-- takes `i` out of it as a cancelled wait is unlinked, or takes out its first task to be woken.
pub step-Ordered :
    {n : ℕ} {s : System}
    → Reach n s
    → (i : ℕ) (c : Choice)
    → Ordered i (order s.mem) (order (step i c s).mem) (s.pc i) ((step i c s).pc i)
unfolding step
step-Ordered {s} r i c =
    rw (update_self s.pc i (act i c s.mem (s.pc i)).1) (act-Ordered (Reach-Inv r) i c (s.pc i) refl)
