-- ===== src/Waiter/Chain.antt =====
-- Which sequence of waiters a `WaiterList` of futex/waiter.rs stands for, and what a run of a
-- command promises.
use async_mutex.Common.{◌≡◌, ◌≢◌, true, Option, some, List, [], ◌∷◌, NotIn, Distinct, last}
use async_mutex.Waiter.{Ptr, null, Links, WaiterList, Cmd, and_then}

-- The first of a sequence, or a default.
abbrev pub first : List Ptr → Ptr → Ptr
first [] d = d
first (x ∷ xs) d = x

-- The waiters `xs` are linked both ways, between `before` and `after`.
abbrev pub Chain : Links → Ptr → List Ptr → Ptr → Type 0
Chain h before [] after = Unit
Chain h before (x ∷ xs) after =
    (h.live x ≡ true)
    × (x ≢ null)
    × (h.prev x ≡ before)
    × (h.next x ≡ first xs after)
    × Chain h x xs after

pub record IsList (h : Links) (l : WaiterList) (xs : List Ptr) : Type 0 where
  pub head_is : l.head ≡ first xs null
  pub tail_is : l.tail ≡ last null xs
  pub chain : Chain h null xs null
  pub distinct : Distinct xs

-- A waiter that no link leads from.
abbrev pub IsAlone : Links → Ptr → Type 0
IsAlone h w = (h.live w ≡ true) × (w ≢ null) × (h.prev w ≡ null) × (h.next w ≡ null)

-- `g` has the links of `h` at every waiter that is not one of `xs`.
abbrev pub SameOutside : List Ptr → Links → Links → Type 0
SameOutside xs h g =
    (a : Ptr) → NotIn a xs → (g.live a ≡ h.live a) × (g.next a ≡ h.next a) × (g.prev a ≡ h.prev a)

-- No fault, enough fuel, and a postcondition.
pub data Returns {A : Type 0} (P : A → Links → Type 0) : Option (A × Links) → Type 0 where
  returns : {a : A} {h : Links} → P a h → Returns P (some (a, h))

module _ {A : Type 0} {P : A → Links → Type 0} where
  pub mono :
      {Q : A → Links → Type 0} {run : Option (A × Links)}
      → Returns P run
      → ((result : A) (g : Links) → P result g → Q result g)
      → Returns Q run
  mono (returns post) weaken = returns (weaken _ _ post)

  pub bind :
      {B : Type 0} {Q : B → Links → Type 0} {rest : A → Cmd B} {run : Option (A × Links)}
      → Returns P run
      → ((result : A) (g : Links) → P result g → Returns Q (rest result g))
      → Returns Q (and_then run rest)
  bind (returns post) continue = continue _ _ post
