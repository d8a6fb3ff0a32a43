-- ===== src/Atomic.antt =====
-- atomic/atomic_cell.rs: `Packable` and `Atomic<T>`, a cell that holds an encoded value. The atomics of
-- the standard library are cells of a number; a weak exchange may fail although the values are equal.
pub mod Cell
use async_mutex.Common.{
  ℕ, ◌+◌, ◌*◌, ◌/◌, ◌%◌, ◌^◌, ◌≡◌, Bool, true, false, not, ◌&&◌, ◌==◌, if◌then◌else◌,
}

-- The words of a 64-bit target: `usize`, and `usize_half`.
abbrev pub usize : ℕ → ℕ
usize n = n % 2 ^ 64

abbrev pub usize_half : ℕ → ℕ
usize_half n = n % 2 ^ 32

abbrev pub from_bool : Bool → ℕ
from_bool true = 1
from_bool false = 0

-- `mem::transmute` of a pair of half words to a word, and back: the pair is laid out in order, on a
-- little-endian machine.
abbrev pub join : ℕ → ℕ → ℕ
join low high = low + high * 2 ^ 32

abbrev pub low : ℕ → ℕ
low w = w % 2 ^ 32

abbrev pub high : ℕ → ℕ
high w = w / 2 ^ 32 % 2 ^ 32

-- `trait Packable`, with `Raw` an unsigned integer.
pub record Packable (A : Type 0) : Type 0 where
  pub encode : A → ℕ
  pub decode : ℕ → A

module _ {A : Type 0} (p : Packable A) where
  -- `Atomic::new`, `Atomic::load`, `Atomic::store` and `Atomic::swap`. The cell is its raw value.
  pub new : A → ℕ
  new value = p.encode value

  pub load : ℕ → A
  load cell = p.decode cell

  pub store : ℕ → A → ℕ
  store cell value = p.encode value

  pub swap : ℕ → A → A × ℕ
  swap cell value = (p.decode cell, p.encode value)

  -- `Atomic::cmpxchg_weak`: whether it won, the new contents of `current`, and the cell.
  pub cmpxchg_weak : (spurious : Bool) → ℕ → (current new : A) → Bool × A × ℕ
  cmpxchg_weak spurious cell current new =
      if not spurious && cell == p.encode current
      then (true, current, p.encode new)
      else (false, p.decode cell, cell)

  -- `Atomic::cmpxchg`
  pub cmpxchg : ℕ → (current new : A) → Bool × A × ℕ
  cmpxchg cell current new =
      if cell == p.encode current
      then (true, current, p.encode new)
      else (false, p.decode cell, cell)
