-- ===== src/FastMutex/Packing.antt =====
-- Which states of fast_mutex.rs survive their packing.
use async_mutex.Common.{ℕ, ◌%◌, ◌^◌, ◌<◌, ◌≡◌, sym, ap, ◌∙◌, arith, Bool, true, false}
use mathlib.Core.Logic.{◌↔◌}
use async_mutex.FastMutex.{Atom, atom_packing}

abbrev pub pack : Atom → Atom
pack a = atom_packing.decode (atom_packing.encode a)

pack-fields :
    (l w : Bool) (n : ℕ)
    → pack (record { locked = l; waking = w; waiters = n })
      ≡ record { locked = l; waking = w; waiters = n % 2 ^ 62 }
pack-fields true true n = ground arith
pack-fields true false n = ground arith
pack-fields false true n = ground arith
pack-fields false false n = ground arith

-- A state of the fast mutex survives its packing into one word exactly if fewer than 2 ^ 62 tasks
-- wait; the number of waiting tasks is kept modulo 2 ^ 62, and the two flags are always kept.
pub decode-encode :
    (a : Atom)
    → ((pack a ≡ a) ↔ (a.waiters < 2 ^ 62)) × (pack a ≡ record a { waiters = a.waiters % 2 ^ 62 })
decode-encode a = (
  (
    (λ e. omega (arith, ap (λ b. b.waiters) (sym e ∙ pack-fields a.locked a.waking a.waiters))),
    (λ h.
        pack-fields a.locked a.waking a.waiters ∙ ap (λ n. record a { waiters = n }) (omega arith)),
  ),
  pack-fields a.locked a.waking a.waiters,
)
