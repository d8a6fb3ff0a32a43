-- ===== src/Futex/Tests.antt =====
-- The operations of futex/mod.rs on a futex with two queues: waiter 1 in the first, and waiters 2 and
-- 3 on the inbox, 3 being the newest; waiters 6 and 7 are in a list
-- of another futex.
use async_mutex.Common.{
  ℕ, zero, suc, ◌<◌, ◌≡◌, ◌≢◌, refl, arith, true, false, ◌&&◌, some, List, [], ◌∷◌, ltb, Apart,
  NotIn, ◌==◌, if◌then◌else◌, update,
}
use async_mutex.Waiter.{Ptr, Links, WaiterList, waiter_list}
use async_mutex.Waiter.Chain.{IsList, IsAlone, Returns}
use async_mutex.Futex.{RawFutex, cancel, cmpxchg_enqueue_weak, pop, pop_many, push, flip, requeue}
use async_mutex.Futex.Refine.{
  Abstract, Represents, Exchanged, taken_over, cmpxchg_enqueue_weak_lem, pop-Represents,
  cancel-Represents,
}
use async_mutex.Futex.Flip.{flip-Represents}
use async_mutex.Futex.Many.{pop_many-Represents}
use async_mutex.Futex.Requeue.{IsOutside, Owned, requeued, requeue-Represents}
use async_mutex.Futex.Push.{pushed, IsFresh, push_lem}

-- Waiter 4 has lost an exchange before, and its link still names waiter 9.
-- Waiter 2 waits in the second queue, every other in the first.
abbrev queue_of : Ptr → ℕ
queue_of w = if w == 2 then 1 else 0

abbrev store : Links
store = record {
  live = λ p. ltb 0 p && ltb p 10;
  next = update (λ _. 0) 6 7;
  prev = update (update (update (λ _. 0) 3 2) 7 6) 4 9;
}

abbrev lists : ℕ → WaiterList
lists zero = waiter_list 1 1
lists (suc i) = waiter_list 0 0

abbrev waiters : ℕ → List Ptr
waiters zero = 1 ∷ []
waiters (suc i) = []

abbrev futex : RawFutex
futex = record { futex_atom = record { atom = 5; inbox = 3 }; queues = lists }

abbrev abstract_futex : Abstract
abstract_futex = record { atom = 5; inbox = 3 ∷ 2 ∷ []; queues = waiters }

lists-IsList : (i : ℕ) → IsList store (lists i) (waiters i)
lists-IsList zero = record {
  head_is = refl;
  tail_is = refl;
  chain = (refl, omega arith, refl, refl, tt);
  distinct = (tt, tt);
}
lists-IsList (suc i) = record { head_is = refl; tail_is = refl; chain = tt; distinct = tt }

waiters-Apart : (i j : ℕ) → i ≢ j → Apart (waiters i) (waiters j)
waiters-Apart zero zero ne = absurd (ne refl)
waiters-Apart zero (suc j) ne = (tt, tt)
waiters-Apart (suc i) j ne = tt

waiters-Clear : (i : ℕ) → i < 2 → Apart (waiters i) (3 ∷ 2 ∷ [])
waiters-Clear zero lt = (omega arith, tt)
waiters-Clear (suc i) lt = tt

futex-Represents : Represents 2 queue_of 4 store futex abstract_futex
futex-Represents = record {
  atom_is = refl;
  stack = (refl, refl, (refl, omega arith, refl, (refl, omega arith, refl, tt)), omega arith);
  queues = record { lists = λ i lt. lists-IsList i; apart = λ i j _ _ ne. waiters-Apart i j ne };
  clear = waiters-Clear;
  in_range = (omega arith, (omega arith, tt));
  short = omega arith;
}

four-NotIn : (i : ℕ) → i < 2 → NotIn 4 (waiters i)
four-NotIn zero lt = omega arith
four-NotIn (suc i) lt = tt

four-IsFresh : IsFresh 2 queue_of 4 store abstract_futex 4
four-IsFresh = record {
  alive = refl;
  not_null = omega arith;
  no_next = refl;
  out = omega arith;
  clear = four-NotIn;
  in_range = omega arith;
}

cmpxchg_enqueue_weak_example :
    Returns
      (Exchanged 2 queue_of 4 true futex futex.futex_atom abstract_futex
        (taken_over 2 queue_of 4 6 abstract_futex))
      (cmpxchg_enqueue_weak 2 queue_of 4 false futex futex.futex_atom 6 store)
cmpxchg_enqueue_weak_example =
    cmpxchg_enqueue_weak_lem 2 queue_of 4 futex-Represents false futex.futex_atom 6

pop-Represents_example :
    Returns
      (λ (item, f) g.
        (item ≡ some 1)
        × IsAlone g 1
        × Represents 2 queue_of 4 g f (record abstract_futex { queues = update waiters 0 [] }))
      (pop 2 queue_of 4 futex 0 store)
pop-Represents_example = pop-Represents 2 queue_of 4 futex-Represents 0 1 [] (omega arith) refl

cancel-Represents_example :
    Returns
      (λ f g. Represents 2 queue_of 4 g f (record abstract_futex { queues = update waiters 0 [] }))
      (cancel 2 queue_of 4 futex 1 store)
cancel-Represents_example =
    cancel-Represents 2 queue_of 4 futex-Represents 1 [] [] (omega arith) refl

push_example :
    Returns
      (Exchanged 2 queue_of 4 true futex futex.futex_atom abstract_futex
        (pushed 2 queue_of 4 6 4 abstract_futex))
      (push false futex futex.futex_atom 6 4 store)
push_example =
    push_lem 2 queue_of 4 futex-Represents 4 four-IsFresh false futex.futex_atom 6 (omega arith)

pop_many-Represents_example :
    Returns
      (λ (list, f) g.
        IsList g list (1 ∷ [])
        × Represents 2 queue_of 4 g f (record abstract_futex { queues = update waiters 0 [] }))
      (pop_many 2 queue_of 4 futex 5 0 store)
pop_many-Represents_example =
    pop_many-Represents 2 queue_of 4 futex-Represents 0 5 (omega arith) (omega arith)

-- The first exchange fails for no reason.
flip-Represents_example :
    Returns
      (λ f g. Represents 2 queue_of 4 g f (taken_over 2 queue_of 4 5 abstract_futex))
      (flip 2 queue_of 4 (true ∷ false ∷ []) futex store)
flip-Represents_example = flip-Represents 2 queue_of 4 futex-Represents (true ∷ false ∷ []) tt

moved-IsList : IsList store (waiter_list 6 7) (6 ∷ 7 ∷ [])
moved-IsList = record {
  head_is = refl;
  tail_is = refl;
  chain = (refl, omega arith, refl, refl, (refl, omega arith, refl, refl, tt));
  distinct = ((omega arith, tt), (tt, tt));
}

moved-Clear : (i : ℕ) → i < 2 → Apart (waiters i) (6 ∷ 7 ∷ [])
moved-Clear zero lt = ((omega arith, (omega arith, tt)), tt)
moved-Clear (suc i) lt = tt

moved-IsOutside : IsOutside 2 queue_of 4 abstract_futex (6 ∷ 7 ∷ [])
moved-IsOutside = record {
  clear = moved-Clear;
  apart = ((omega arith, (omega arith, tt)), ((omega arith, (omega arith, tt)), tt));
  in_range = (omega arith, (omega arith, tt));
  short = omega arith;
}

-- The first exchange fails for no reason, and the futex of every waiter was number 8.
requeue-Represents_example :
    Returns
      (λ (owner, f) g.
        Owned 2 queue_of 4 9 (6 ∷ 7 ∷ []) (λ _. 8) owner
        × Represents 2 queue_of 4 g f (requeued 2 queue_of 4 (6 ∷ 7 ∷ []) abstract_futex))
      (requeue 5 (true ∷ false ∷ []) 9 (λ _. 8) futex (waiter_list 6 7) store)
requeue-Represents_example =
    requeue-Represents 2 queue_of 4 futex-Represents (6 ∷ 7 ∷ []) moved-IsList moved-IsOutside
      (true ∷ false ∷ []) tt 9 (λ _. 8)
