-- ===== src/Common/Family.antt =====
-- Families indexed by task number: a write at one index, and weighted sums over the first `n`.
use Prim.Native.Nat.{ℕ, zero, suc, ◌+◌, ◌≤◌, ◌<◌}
use mathlib.Core.Path.{◌≡◌, refl}
use mathlib.Core.Logic.{◌≢◌}
use native.Mathlib.Omega.{arith}
use native.Mathlib.Decide.{dec_lt}
use async_mutex.Common.Tests.{◌==◌, if◌then◌else◌}

abbrev pub update {ℓ} : {A : Type ℓ} → (ℕ → A) → ℕ → A → ℕ → A
update f i a j = if j == i then a else f j

module _ {ℓ} {A : Type ℓ} (f : ℕ → A) where
  pub update_self : (i : ℕ) (a : A) → update f i a i ≡ a
  update_self i a = ground arith

  pub update-ne : (i : ℕ) (a : A) (j : ℕ) → j ≢ i → update f i a j ≡ f j
  update-ne i a j h = ground arith

-- The sum of the weights of the first `n` members, where a weight may depend on the index too.
module _ {ℓ} {A : Type ℓ} (w : ℕ → A → ℕ) where
  pub tally_at : ℕ → (ℕ → A) → ℕ
  tally_at zero fam = 0
  tally_at (suc n) fam = w n (fam n) + tally_at n fam

  pub tally_at-zero : (fam : ℕ → A) → tally_at 0 fam ≡ 0
  unfolding tally_at
  tally_at-zero fam = refl

  pub tally_at-suc : (n : ℕ) (fam : ℕ → A) → tally_at (suc n) fam ≡ w n (fam n) + tally_at n fam
  unfolding tally_at
  tally_at-suc n fam = refl

  pub tally_at-eq-zero : (n : ℕ) (fam : ℕ → A) → ((at : ℕ) → w at (fam at) ≡ 0) → tally_at n fam ≡ 0
  unfolding tally_at
  tally_at-eq-zero zero fam h = refl
  tally_at-eq-zero (suc n) fam h = omega (arith, tally_at-eq-zero n fam h, h n)

  pub tally_at-update_above :
      (n : ℕ) (fam : ℕ → A) (at : ℕ) (x : A)
      → n ≤ at
      → tally_at n (update fam at x) ≡ tally_at n fam
  unfolding tally_at
  tally_at-update_above zero fam at x h = refl
  tally_at-update_above (suc n) fam at x h = ground (arith, tally_at-update_above n fam at x)

  -- A write at `at` trades the old weight for the new one.
  pub tally_at-update :
      (n : ℕ) (fam : ℕ → A) (at : ℕ) (x : A)
      → at < n
      → tally_at n (update fam at x) + w at (fam at) ≡ tally_at n fam + w at x
  unfolding tally_at
  tally_at-update zero fam at x h = absurd (omega arith)
  tally_at-update (suc n) fam at x h = elim (dec_lt at n) [
    | yes below ↦ ground (arith, tally_at-update n fam at x below)
    | no last ↦ ground (arith, tally_at-update_above n fam at x)
  ]

  pub tally_at-ge : (n : ℕ) (fam : ℕ → A) (at : ℕ) → at < n → w at (fam at) ≤ tally_at n fam
  unfolding tally_at
  tally_at-ge zero fam at h = absurd (omega arith)
  tally_at-ge (suc n) fam at h = elim (dec_lt at n) [
    | yes below ↦ omega (arith, tally_at-ge n fam at below)
    | no last ↦ ground arith
  ]

  pub tally_at-pos :
      (n : ℕ) (fam : ℕ → A) → 0 < tally_at n fam → (i : ℕ) × (i < n) × (0 < w i (fam i))
  unfolding tally_at
  tally_at-pos zero fam h = absurd (omega arith)
  tally_at-pos (suc n) fam h = elim (dec_lt 0 (w n (fam n))) [
    | yes here ↦ (n, omega arith, here)
    | no there ↦ let (i, lt, p) = tally_at-pos n fam (omega arith) in (i, omega arith, p)
  ]

-- The weights of the first `n` members that do not depend on the index.
module _ {ℓ} {A : Type ℓ} (w : A → ℕ) where
  pub tally : ℕ → (ℕ → A) → ℕ
  tally n fam = tally_at (λ _. w) n fam

  pub tally-zero : (fam : ℕ → A) → tally 0 fam ≡ 0
  unfolding tally tally_at
  tally-zero fam = refl

  pub tally-suc : (n : ℕ) (fam : ℕ → A) → tally (suc n) fam ≡ w (fam n) + tally n fam
  unfolding tally tally_at
  tally-suc n fam = refl

  pub tally-eq-zero : (n : ℕ) (fam : ℕ → A) → ((at : ℕ) → w (fam at) ≡ 0) → tally n fam ≡ 0
  unfolding tally
  tally-eq-zero n fam h = tally_at-eq-zero (λ _. w) n fam h

  pub tally-update :
      (n : ℕ) (fam : ℕ → A) (at : ℕ) (x : A)
      → at < n
      → tally n (update fam at x) + w (fam at) ≡ tally n fam + w x
  unfolding tally
  tally-update n fam at x h = tally_at-update (λ _. w) n fam at x h

  pub tally-ge : (n : ℕ) (fam : ℕ → A) (at : ℕ) → at < n → w (fam at) ≤ tally n fam
  unfolding tally
  tally-ge n fam at h = tally_at-ge (λ _. w) n fam at h

  pub tally-ge_two :
      (n : ℕ) (fam : ℕ → A) (at j : ℕ)
      → at < n
      → j < n
      → at ≢ j
      → w (fam at) + w (fam j) ≤ tally n fam
  unfolding tally tally_at
  tally-ge_two zero fam at j h k ne = absurd (omega arith)
  tally-ge_two (suc n) fam at j h k ne = elim (dec_lt at n) [
    | yes hi ↦ elim (dec_lt j n) [
      | yes hj ↦ omega (arith, tally-ge_two n fam at j hi hj ne)
      | no hj ↦ ground (arith, tally-ge n fam at hi)
    ]
    | no hi ↦ ground (arith, tally-ge n fam j)
  ]

pub tally-le_of_le {ℓ} :
    {A : Type ℓ} (v w : A → ℕ) (n : ℕ) (fam : ℕ → A)
    → ((x : A) → v x ≤ w x)
    → tally v n fam ≤ tally w n fam
unfolding tally tally_at
tally-le_of_le v w zero fam h = omega arith
tally-le_of_le v w (suc n) fam h = omega (arith, tally-le_of_le v w n fam h, h (fam n))

pub tally-lt_of_le {ℓ} :
    {A : Type ℓ} (v w : A → ℕ) (n : ℕ) (fam : ℕ → A) (at : ℕ)
    → ((x : A) → v x ≤ w x)
    → at < n
    → v (fam at) < w (fam at)
    → tally v n fam < tally w n fam
unfolding tally tally_at
tally-lt_of_le v w zero fam at h lt less = absurd (omega arith)
tally-lt_of_le v w (suc n) fam at h lt less = elim (dec_lt at n) [
  | yes below ↦ omega (arith, tally-lt_of_le v w n fam at h below less, h (fam n))
  | no last ↦ ground (arith, tally-le_of_le v w n fam h)
]

pub tally-pos {ℓ} :
    {A : Type ℓ} (w : A → ℕ) (n : ℕ) (fam : ℕ → A)
    → 0 < tally w n fam
    → (i : ℕ) × (i < n) × (0 < w (fam i))
unfolding tally
tally-pos w n fam h = tally_at-pos (λ _. w) n fam h

pub tally-add {ℓ} :
    {A : Type ℓ} (v w : A → ℕ) (n : ℕ) (fam : ℕ → A)
    → tally (λ x. v x + w x) n fam ≡ tally v n fam + tally w n fam
unfolding tally tally_at
tally-add v w zero fam = refl
tally-add v w (suc n) fam = omega (arith, tally-add v w n fam)

-- At most one for each member.
pub tally-le_size {ℓ} :
    {A : Type ℓ} (w : A → ℕ) → ((x : A) → w x ≤ 1) → (n : ℕ) (fam : ℕ → A) → tally w n fam ≤ n
unfolding tally tally_at
tally-le_size w one zero fam = omega arith
tally-le_size w one (suc n) fam = omega (arith, tally-le_size w one n fam, one (fam n))
