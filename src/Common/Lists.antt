-- ===== src/Common/Lists.antt =====
-- Lists of pointers and task numbers over the native numbers: length, take, drop, membership as a
-- product of disequalities, distinctness, and counting.
use Prim.Native.Nat.{ℕ, zero, suc, ◌+◌, ◌≤◌}
use mathlib.Core.Path.{◌≡◌, refl, sym}
use mathlib.Core.Logic.{◌≢◌, ◌⊎◌, inl, inr}
use mathlib.Core.Option.{Option, none, some}
use mathlib.Core.List.{List, [], ◌∷◌, ◌++◌, reverse_aux, reverse}
use native.Mathlib.Omega.{arith}
use async_mutex.Common.Tests.{◌==◌, if◌then◌else◌}

module _ {ℓ} {A : Type ℓ} where
  abbrev pub length : List A → ℕ
  length [] = 0
  length (x ∷ xs) = suc (length xs)

  abbrev pub take : ℕ → List A → List A
  take zero xs = []
  take (suc n) [] = []
  take (suc n) (x ∷ xs) = x ∷ take n xs

  abbrev pub drop : ℕ → List A → List A
  drop zero xs = xs
  drop (suc n) [] = []
  drop (suc n) (x ∷ xs) = drop n xs

  abbrev pub get_elem? : List A → ℕ → Option A
  get_elem? [] i = none
  get_elem? (x ∷ xs) zero = some x
  get_elem? (x ∷ xs) (suc i) = get_elem? xs i

  -- A write out of bounds changes nothing.
  abbrev pub set : List A → ℕ → A → List A
  set [] i v = []
  set (x ∷ xs) zero v = v ∷ xs
  set (x ∷ xs) (suc i) v = x ∷ set xs i v

  abbrev pub replicate : ℕ → A → List A
  replicate zero a = []
  replicate (suc n) a = a ∷ replicate n a

  pub length-append : (xs ys : List A) → length (xs ++ ys) ≡ length xs + length ys
  length-append [] ys = omega arith
  length-append (x ∷ xs) ys = omega (arith, length-append xs ys)

  pub take-append-drop : (n : ℕ) (xs : List A) → take n xs ++ drop n xs ≡ xs
  take-append-drop zero xs = refl
  take-append-drop (suc n) [] = refl
  take-append-drop (suc n) (x ∷ xs) = rw (take-append-drop n xs)

module _ {ℓ} {A : Type ℓ} where
  pub take-all : (n : ℕ) (xs : List A) → length xs ≤ n → take n xs ≡ xs
  take-all zero [] h = refl
  take-all zero (x ∷ xs) h = absurd (omega arith)
  take-all (suc n) [] h = refl
  take-all (suc n) (x ∷ xs) h = rw (take-all n xs (omega arith))

  pub drop-all : (n : ℕ) (xs : List A) → length xs ≤ n → drop n xs ≡ []
  drop-all zero [] h = refl
  drop-all zero (x ∷ xs) h = absurd (omega arith)
  drop-all (suc n) [] h = refl
  drop-all (suc n) (x ∷ xs) h = drop-all n xs (omega arith)

-- `a` is none of `xs`.
abbrev pub NotIn : ℕ → List ℕ → Type 0
NotIn a [] = Unit
NotIn a (x ∷ xs) = (a ≢ x) × NotIn a xs

abbrev pub Distinct : List ℕ → Type 0
Distinct [] = Unit
Distinct (x ∷ xs) = NotIn x xs × Distinct xs

-- No member of `xs` is a member of `ys`.
abbrev pub Apart : List ℕ → List ℕ → Type 0
Apart [] ys = Unit
Apart (x ∷ xs) ys = NotIn x ys × Apart xs ys

abbrev pub count : ℕ → List ℕ → ℕ
count a [] = 0
count a (x ∷ xs) = (if a == x then 1 else 0) + count a xs

pub NotIn-append : (a : ℕ) (xs ys : List ℕ) → NotIn a xs → NotIn a ys → NotIn a (xs ++ ys)
NotIn-append a [] ys h k = k
NotIn-append a (x ∷ xs) ys h k = (h.0, NotIn-append a xs ys h.1 k)

pub NotIn-append_parts : (a : ℕ) (xs ys : List ℕ) → NotIn a (xs ++ ys) → NotIn a xs × NotIn a ys
NotIn-append_parts a [] ys h = (tt, h)
NotIn-append_parts a (x ∷ xs) ys h = let (l, r) = NotIn-append_parts a xs ys h.1 in ((h.0, l), r)

pub Distinct-append :
    (xs ys : List ℕ) → Distinct xs → Distinct ys → Apart xs ys → Distinct (xs ++ ys)
Distinct-append [] ys h k d = k
Distinct-append (x ∷ xs) ys h k d = (NotIn-append x xs ys h.0 d.0, Distinct-append xs ys h.1 k d.1)

pub Distinct-append_parts :
    (xs ys : List ℕ) → Distinct (xs ++ ys) → Distinct xs × Distinct ys × Apart xs ys
Distinct-append_parts [] ys h = (tt, h, tt)
Distinct-append_parts (x ∷ xs) ys h =
    let (l, r, d) = Distinct-append_parts xs ys h.1 in
    let (p, q) = NotIn-append_parts x xs ys h.0 in ((p, l), r, (q, d))

pub Apart-single : (xs : List ℕ) (a : ℕ) → NotIn a xs → Apart xs (a ∷ [])
Apart-single [] a h = tt
Apart-single (x ∷ xs) a h = (((λ e. h.0 (sym e)), tt), Apart-single xs a h.1)

pub NotIn-single_of_Apart : (xs : List ℕ) (a : ℕ) (ys : List ℕ) → Apart xs (a ∷ ys) → NotIn a xs
NotIn-single_of_Apart [] a ys h = tt
NotIn-single_of_Apart (x ∷ xs) a ys h = ((λ e. h.0.0 (sym e)), NotIn-single_of_Apart xs a ys h.1)

pub Apart-tail : (xs : List ℕ) (a : ℕ) (ys : List ℕ) → Apart xs (a ∷ ys) → Apart xs ys
Apart-tail [] a ys h = tt
Apart-tail (x ∷ xs) a ys h = (h.0.1, Apart-tail xs a ys h.1)

pub count-append :
    (a : ℕ) (front back : List ℕ) → count a front + count a back ≡ count a (front ++ back)
count-append a [] back = omega arith
count-append a (b ∷ front) back = ground (arith, count-append a front back)

-- The last of a sequence, or a default.
abbrev pub last : ℕ → List ℕ → ℕ
last d [] = d
last d (x ∷ xs) = last x xs

pub NotIn-last : (x : ℕ) (xs ys : List ℕ) → Apart (x ∷ xs) ys → NotIn (last x xs) ys
NotIn-last x [] ys h = h.0
NotIn-last x (y ∷ xs) ys h = NotIn-last y xs ys h.1

pub last-reverse_aux :
    (d : ℕ) (ts : List ℕ) (x : ℕ) (ys : List ℕ) → last d (reverse_aux ts (x ∷ ys)) ≡ last x ys
last-reverse_aux d [] x ys = refl
last-reverse_aux d (t ∷ ts) x ys = last-reverse_aux d ts t (x ∷ ys)

pub Distinct-of_reverse_aux : (ts ys : List ℕ) → Distinct (reverse_aux ts ys) → Distinct ys
Distinct-of_reverse_aux [] ys h = h
Distinct-of_reverse_aux (t ∷ ts) ys h = (Distinct-of_reverse_aux ts (t ∷ ys) h).1

pub Apart-append_right : (xs ys zs : List ℕ) → Apart xs ys → Apart xs zs → Apart xs (ys ++ zs)
Apart-append_right [] ys zs h k = tt
Apart-append_right (x ∷ xs) ys zs h k =
    (NotIn-append x ys zs h.0 k.0, Apart-append_right xs ys zs h.1 k.1)

pub Apart-append_left : (xs ys zs : List ℕ) → Apart xs zs → Apart ys zs → Apart (xs ++ ys) zs
Apart-append_left [] ys zs h k = k
Apart-append_left (x ∷ xs) ys zs h k = (h.0, Apart-append_left xs ys zs h.1 k)

pub Apart-nil : (xs : List ℕ) → Apart xs []
Apart-nil [] = tt
Apart-nil (x ∷ xs) = (tt, Apart-nil xs)

pub Apart-cons : (xs : List ℕ) (a : ℕ) (ys : List ℕ) → NotIn a xs → Apart xs ys → Apart xs (a ∷ ys)
Apart-cons [] a ys h k = tt
Apart-cons (x ∷ xs) a ys h k = (((λ e. h.0 (sym e)), k.0), Apart-cons xs a ys h.1 k.1)

pub Apart-symm : (xs ys : List ℕ) → Apart xs ys → Apart ys xs
Apart-symm [] ys h = Apart-nil ys
Apart-symm (x ∷ xs) ys h = Apart-cons ys x xs h.0 (Apart-symm xs ys h.1)

pub NotIn-reverse_aux :
    (a : ℕ) (ts ys : List ℕ) → NotIn a ts → NotIn a ys → NotIn a (reverse_aux ts ys)
NotIn-reverse_aux a [] ys h k = k
NotIn-reverse_aux a (t ∷ ts) ys h k = NotIn-reverse_aux a ts (t ∷ ys) h.1 (h.0, k)

pub Apart-reverse : (xs ts : List ℕ) → Apart xs ts → Apart xs (reverse ts)
Apart-reverse [] ts h = tt
Apart-reverse (x ∷ xs) ts h = (NotIn-reverse_aux x ts [] h.0 tt, Apart-reverse xs ts h.1)

pub length-reverse_aux : (ts ys : List ℕ) → length (reverse_aux ts ys) ≡ length ts + length ys
length-reverse_aux [] ys = omega arith
length-reverse_aux (t ∷ ts) ys = omega (arith, length-reverse_aux ts (t ∷ ys))

pub Distinct-reverse_aux :
    (ts ys : List ℕ) → Distinct ts → Distinct ys → Apart ts ys → Distinct (reverse_aux ts ys)
Distinct-reverse_aux [] ys h k a = k
Distinct-reverse_aux (t ∷ ts) ys h k a =
    Distinct-reverse_aux ts (t ∷ ys) h.1 (a.0, k) (Apart-cons ts t ys h.0 a.1)

pub Distinct-reverse : (ts : List ℕ) → Distinct ts → Distinct (reverse ts)
Distinct-reverse ts h = Distinct-reverse_aux ts [] h tt (Apart-nil ts)

pub Apart-append_parts : (xs ys zs : List ℕ) → Apart xs (ys ++ zs) → Apart xs ys × Apart xs zs
Apart-append_parts [] ys zs h = (tt, tt)
Apart-append_parts (x ∷ xs) ys zs h =
    let (l, r) = NotIn-append_parts x ys zs h.0 in
    let (p, q) = Apart-append_parts xs ys zs h.1 in ((l, p), (r, q))

-- To split on a computed list and keep the equation.
pub List-cases : (xs : List ℕ) → (xs ≡ []) ⊎ ((x : ℕ) × (ys : List ℕ) × (xs ≡ x ∷ ys))
List-cases [] = inl refl
List-cases (x ∷ ys) = inr (x, ys, refl)
