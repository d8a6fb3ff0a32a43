-- ===== src/Waiter/Stack.antt =====
-- `from_stack` and `append_stack` of futex/waiter.rs: the inbox is a stack linked by `prev` alone.
use async_mutex.Common.{
  ℕ, zero, suc, ◌≤◌, ◌<◌, ◌≡◌, ◌≢◌, refl, ◌∙◌, sym, Bool, true, List, [], ◌∷◌, arith, ==_of_ne,
  NotIn, Apart, Distinct, reverse, reverse_aux, length, last-reverse_aux, Distinct-of_reverse_aux,
  Distinct-reverse, update_self, update-ne,
}
use async_mutex.Waiter.{Ptr, null, Links, prev, set_next, from_stack_loop, from_stack}
use async_mutex.Waiter.Chain.{first, Chain, IsList, SameOutside, Returns, returns, bind, mono}
use async_mutex.Waiter.Frame.{Chain-write_next}

-- The `prev` links lead through `ts`, the newest first, to null.
abbrev pub Older : (Ptr → Bool) → (Ptr → Ptr) → List Ptr → Type 0
Older live prev [] = Unit
Older live prev (t ∷ ts) =
    (live t ≡ true) × (t ≢ null) × (prev t ≡ first ts null) × Older live prev ts

-- The stack at `p` holds `ts`, the newest first, and nothing follows the newest.
abbrev pub IsStack : Links → Ptr → List Ptr → Type 0
IsStack h p [] = p ≡ null
IsStack h p (t ∷ ts) =
    (p ≡ t) × (h.next t ≡ null) × Older h.live h.prev (t ∷ ts) × Distinct (t ∷ ts)

-- What the loop of `from_stack` makes of the stack `t ∷ ts`, with `done` behind it.
abbrev Turned : Links → Ptr → List Ptr → List Ptr → Ptr → Links → Type 0
Turned h t ts done p g =
    (p ≡ first (reverse_aux ts (t ∷ done)) null)
    × Chain g null (reverse_aux ts (t ∷ done)) null
    × SameOutside ts h g

from_stack_loop_lem :
    (k : ℕ) {h : Links} (t : Ptr) (ts done : List Ptr)
    → length ts < k
    → Chain h (first ts null) (t ∷ done) null
    → Older h.live h.prev ts
    → Distinct (reverse_aux ts (t ∷ done))
    → Returns (Turned h t ts done) (from_stack_loop k t h)
unfolding from_stack_loop prev set_next
from_stack_loop_lem zero t ts done fuel c o d = absurd (omega arith)
from_stack_loop_lem (suc k) t [] done fuel c o d =
    rw (c.0, c.2) (returns (refl, c, λ a o. (refl, refl, refl)))
from_stack_loop_lem (suc k) {h} t (u ∷ ts) done fuel c (alive, ne, back, o) d =
    let out : NotIn u (t ∷ done) = (Distinct-of_reverse_aux ts (u ∷ t ∷ done) d).0 in
    rw (c.0, c.2, ==_of_ne u null ne, alive)
      (mono
        (from_stack_loop_lem k u ts (t ∷ done) (omega arith)
          (alive, ne, back, update_self h.next u t, Chain-write_next h u t u (t ∷ done) null out c)
          o d)
        (λ p g (e, chain, same).
          (e, chain, λ a n. let (l, x, y) = same a n.1 in (l, x ∙ update-ne h.next u t a n.0, y))))

-- `from_stack` turns the stack of pushed waiters into a list in the order of the pushes. One round
-- for each waiter is enough fuel, no access is invalid, and no other waiter is written to.
pub from_stack_lem :
    {h : Links} (fuel : ℕ) (p : Ptr) (ts : List Ptr)
    → IsStack h p ts
    → length ts ≤ fuel
    → Returns (λ l g. IsList g l (reverse ts) × SameOutside ts h g) (from_stack fuel p h)
unfolding from_stack
from_stack_lem fuel p [] s enough = rw s (
    returns (
      record { head_is = refl; tail_is = refl; chain = tt; distinct = tt },
      λ a o. (refl, refl, refl),
    ))
from_stack_lem {h} fuel p (t ∷ ts) (e, ends, (alive, ne, back, o), d) enough =
    rw (e, ==_of_ne t null ne)
      (bind
        (from_stack_loop_lem fuel t ts [] enough (alive, ne, back, ends, tt) o
          (Distinct-reverse (t ∷ ts) d))
        (λ q g (i, chain, same). returns (
          record {
            head_is = i;
            tail_is = sym (last-reverse_aux null ts t []);
            chain = chain;
            distinct = Distinct-reverse (t ∷ ts) d;
          },
          λ a n. same a n.1,
        )))

Older-SameOutside :
    (h g : Links) (ts ws : List Ptr)
    → Apart ts ws
    → SameOutside ws h g
    → Older h.live h.prev ts
    → Older g.live g.prev ts
Older-SameOutside h g [] ws a same o = tt
Older-SameOutside h g (t ∷ ts) ws a same (alive, ne, back, o) =
    let (l, n, p) = same t a.0 in (l ∙ alive, ne, p ∙ back, Older-SameOutside h g ts ws a.1 same o)

-- A stack away from the waiters of `ws` is kept by whatever changes only those.
pub IsStack-SameOutside :
    {h g : Links} (p : Ptr) (ts ws : List Ptr)
    → Apart ts ws
    → SameOutside ws h g
    → IsStack h p ts
    → IsStack g p ts
IsStack-SameOutside p [] ws a same s = s
IsStack-SameOutside {h} {g} p (t ∷ ts) ws a same (e, n, o, d) =
    (e, (same t a.0).1 ∙ n, Older-SameOutside h g (t ∷ ts) ws a same o, d)
