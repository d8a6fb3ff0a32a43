-- ===== src/Waiter/Tests.antt =====
-- The list operations of futex/waiter.rs at concrete waiters.
use async_mutex.Common.{refl, arith, ◌&&◌, List, [], ◌∷◌, ltb, update}
use async_mutex.Waiter.{Ptr, Links, WaiterList, waiter_list, remove, from_stack}
use async_mutex.Waiter.Chain.{IsList, IsAlone, SameOutside, Returns}
use async_mutex.Waiter.Splice.{remove_lem}
use async_mutex.Waiter.Stack.{from_stack_lem}

-- Waiters 1, 2 and 3 in one list, 4 alone, and 5 and 6 in another list.
abbrev store : Links
store = record {
  live = λ p. ltb 0 p && ltb p 10;
  next = update (update (update (λ _. 0) 1 2) 2 3) 5 6;
  prev = update (update (update (λ _. 0) 2 1) 3 2) 6 5;
}

abbrev three : List Ptr
three = 1 ∷ 2 ∷ 3 ∷ []

abbrev list3 : WaiterList
list3 = waiter_list 1 3

three-IsList : IsList store list3 three
three-IsList = record {
  head_is = refl;
  tail_is = refl;
  chain = (
    refl,
    omega arith,
    refl,
    refl,
    (refl, omega arith, refl, refl, (refl, omega arith, refl, refl, tt)),
  );
  distinct = omega arith;
}

two-IsList : IsList store (waiter_list 5 6) (5 ∷ 6 ∷ [])
two-IsList = record {
  head_is = refl;
  tail_is = refl;
  chain = (refl, omega arith, refl, refl, (refl, omega arith, refl, refl, tt));
  distinct = omega arith;
}

four-IsAlone : IsAlone store 4
four-IsAlone = (refl, omega arith, refl, refl)

-- The inbox after waiters 1, 2 and 3 were pushed.
abbrev stacked : Links
stacked = record {
  live = λ p. ltb 0 p && ltb p 10;
  next = λ _. 0;
  prev = update (update (λ _. 0) 2 1) 3 2;
}

remove_example :
    Returns (λ k f. IsList f k (1 ∷ 3 ∷ []) × SameOutside three store f) (remove list3 2 store)
remove_example = remove_lem (1 ∷ []) 2 (3 ∷ []) three-IsList

from_stack_example :
    Returns
      (λ l g. IsList g l three × SameOutside (3 ∷ 2 ∷ 1 ∷ []) stacked g)
      (from_stack 3 3 stacked)
from_stack_example =
    from_stack_lem 3 3 (3 ∷ 2 ∷ 1 ∷ [])
      (
        refl,
        refl,
        (refl, omega arith, refl, (refl, omega arith, refl, (refl, omega arith, refl, tt))),
        omega arith,
      )
      (omega arith)
