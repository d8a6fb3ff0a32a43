-- ===== src/Mpsc/Ring.antt =====
-- Counting round the ring of mpsc.rs: `len` buckets from the one at `head` on are in use.
use native.Mathlib.Nat.{mod-eq_of_lt, mod-eq-sub-mod}
use native.Mathlib.Decide.{dec_lt}
use async_mutex.Common.{ℕ, ◌+◌, ◌-◌, ◌%◌, ◌≤◌, ◌<◌, ◌≡◌, ◌≢◌, suc, arith, ltb, ◌==◌, if◌then◌else◌}

-- An index, where it is less than twice the capacity.
pub wrap : (cap at : ℕ) → ℕ
wrap cap at = if ltb at cap then at else at - cap

pub wrap_mod : (cap at : ℕ) → at < cap → (at + 1) % cap ≡ wrap cap (at + 1)
unfolding wrap
wrap_mod cap at h = elim (dec_lt (at + 1) cap) [
  | yes p ↦ ground (arith, mod-eq_of_lt p)
  | no p ↦ ground (
    arith,
    mod-eq-sub-mod {n = at + 1} {m = cap} (omega arith),
    mod-eq_of_lt {n = at + 1 - cap} {m = cap} (omega arith),
  )
]

-- How far bucket `p` is from the head.
pub dist : (cap head p : ℕ) → ℕ
dist cap head p = if ltb p head then p + cap - head else p - head

-- Whether bucket `p` is in use.
pub inside : (cap head len p : ℕ) → ℕ
unfolding dist
inside cap head len p = if ltb (dist cap head p) len then 1 else 0

-- One more is in use.
pub inside_grow :
    (cap head len len' p : ℕ)
    → len' ≡ len + 1
    → head < cap
    → p < cap
    → len < cap
    → inside cap head len' p ≡ inside cap head len p + (if wrap cap (head + len) == p then 1 else 0)
unfolding inside dist wrap
inside_grow cap head len len' p e h k l = ground arith

-- The first is no longer in use.
pub inside_shift :
    (cap head len len' p : ℕ)
    → len ≡ len' + 1
    → head < cap
    → p < cap
    → len ≤ cap
    → inside cap (wrap cap (head + 1)) len' p + (if head == p then 1 else 0) ≡ inside cap head len p
unfolding inside dist wrap
inside_shift cap head len len' p e h k l = ground arith

pub wrap_grow :
    (cap head len len' : ℕ)
    → len' ≡ len + 1
    → head < cap
    → len < cap
    → wrap cap (wrap cap (head + len) + 1) ≡ wrap cap (head + len')
unfolding wrap
wrap_grow cap head len len' e h l = ground arith

pub wrap_shift :
    (cap head len len' : ℕ)
    → len ≡ len' + 1
    → head < cap
    → len ≤ cap
    → wrap cap (wrap cap (head + 1) + len') ≡ wrap cap (head + len)
unfolding wrap
wrap_shift cap head len len' e h l = ground arith

-- The bucket before the head is the only one that is not in use.
pub wrap_last :
    (cap at len : ℕ) → len + 1 ≡ cap → at < cap → wrap cap (wrap cap (at + 1) + len) ≡ at
unfolding wrap
wrap_last cap at len e h = ground arith

-- The first is in use if any is.
pub inside_first : (cap head len : ℕ) → 1 ≤ inside cap head len head → 1 ≤ len
unfolding inside dist
inside_first cap head len h = ground arith

pub inside-le : (cap head len p : ℕ) → inside cap head len p ≤ 1
unfolding inside
inside-le cap head len p = ground arith

-- The bucket behind those in use is not in use.
pub inside_next :
    (cap head len : ℕ) → head < cap → len < cap → inside cap head len (wrap cap (head + len)) ≡ 0
unfolding inside dist wrap
inside_next cap head len h l = ground arith

pub wrap_ne : (cap head len : ℕ) → head < cap → suc len < cap → wrap cap (head + suc len) ≢ head
unfolding wrap
wrap_ne cap head len h l = ground arith

pub wrap_next : (cap head : ℕ) → head < cap → wrap cap (head + 1) < cap
unfolding wrap
wrap_next cap head h = ground arith

pub wrap_self : (cap head : ℕ) → head < cap → wrap cap (head + 0) ≡ head
unfolding wrap
wrap_self cap head h = ground arith

pub inside_none : (cap head at : ℕ) → inside cap head 0 at ≡ 0
unfolding inside
inside_none cap head at = ground arith
