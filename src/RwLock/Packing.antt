-- ===== src/RwLock/Packing.antt =====
-- Which states of rwlock.rs survive their packing.
use async_mutex.Common.{◌%◌, ◌^◌, ◌<◌, ◌≡◌, ap, sym, ◌∙◌, arith}
use mathlib.Core.Logic.{◌↔◌}
use async_mutex.RwLock.{Atom, atom_packing}

abbrev pub pack : Atom → Atom
pack a = atom_packing.decode (atom_packing.encode a)

pack-fields :
    (a : Atom) → pack a ≡ record { readers = a.readers % 2 ^ 32; writers = a.writers % 2 ^ 32 }
pack-fields a = ground arith

-- A state of the lock survives its packing into one word exactly if there are fewer than 2 ^ 32
-- readers and fewer than 2 ^ 32 writers; otherwise both numbers are kept modulo 2 ^ 32, so that a lock
-- with 2 ^ 32 readers reads as one with none.
pub decode-encode_halves :
    (a : Atom)
    → ((pack a ≡ a) ↔ ((a.readers < 2 ^ 32) × (a.writers < 2 ^ 32)))
      × (pack a ≡ record { readers = a.readers % 2 ^ 32; writers = a.writers % 2 ^ 32 })
decode-encode_halves a = (
  (
    (λ e. (
      omega (arith, ap (λ b. b.readers) (sym e ∙ pack-fields a)),
      omega (arith, ap (λ b. b.writers) (sym e ∙ pack-fields a)),
    )),
    (λ h. ground arith),
  ),
  pack-fields a,
)
