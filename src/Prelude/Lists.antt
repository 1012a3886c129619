-- ===== src/Prelude/Lists.antt =====
-- Lists read by Boolean tests and measured by native numbers.
use Prim.Native.Nat.{ℕ, zero, suc, ◌+◌, ◌≤◌, ◌<◌}
use mathlib.Core.Path.{◌≡◌, refl}
use mathlib.Core.Bool.{Bool, true, false, ◌&&◌, ◌||◌}
use mathlib.Core.List.{List, [], ◌∷◌, ◌++◌}
use mathlib.Core.Option.{Option, none, some}
use Prim.Native.Char.{code}
use Prim.Native.String.{String}
use native.Mathlib.Omega.{arith}
use mathlib.Core.Logic.{inl, inr}
use oxdm.Prelude.Tests.{if◌then◌else◌, ◌==◌, ==→eq, ==_refl, Bool-cases}

module _ {ℓ} {A : Type ℓ} where
  abbrev pub length : List A → ℕ
  length [] = 0
  length (x ∷ xs) = suc (length xs)

  abbrev pub filter : (A → Bool) → List A → List A
  filter p [] = []
  filter p (x ∷ xs) = let rest = filter p xs in if p x then x ∷ rest else rest

  abbrev pub any : (A → Bool) → List A → Bool
  any p [] = false
  any p (x ∷ xs) = p x || any p xs

  abbrev pub all : (A → Bool) → List A → Bool
  all p [] = true
  all p (x ∷ xs) = p x && all p xs

  -- `Iterator::find`.
  abbrev pub find : (A → Bool) → List A → Option A
  find p [] = none
  find p (x ∷ xs) = let rest = find p xs in if p x then some x else rest

  -- `Iterator::filter(p).count()`.
  abbrev pub count : (A → Bool) → List A → ℕ
  count p [] = 0
  count p (x ∷ xs) = (if p x then 1 else 0) + count p xs

  -- `Iterator::rev().find(p)`.
  abbrev pub find_last : (A → Bool) → List A → Option A
  find_last p [] = none
  find_last p (x ∷ xs) = elim (find_last p xs) [
    | some y ↦ some y
    | none ↦ if p x then some x else none
  ]

-- The code points of a text.
abbrev pub codes : String → List ℕ
codes String.[] = []
codes (String.◌∷◌ c s) = code c ∷ codes s

abbrev pub contains : List ℕ → ℕ → Bool
contains xs k = any (λ x. x == k) xs

-- Equality of texts, as lists of code points.
abbrev pub same_text : List ℕ → List ℕ → Bool
same_text [] [] = true
same_text (x ∷ xs) (y ∷ ys) = x == y && same_text xs ys
same_text _ _ = false

pub same_text_refl : (xs : List ℕ) → same_text xs xs ≡ true
same_text_refl [] = refl
same_text_refl (x ∷ xs) = ground (arith, same_text_refl xs)

pub same_text-eq : (s t : List ℕ) → same_text s t ≡ true → s ≡ t
same_text-eq [] [] h = refl
same_text-eq [] (c ∷ t) h = cc
same_text-eq (c ∷ s) [] h = cc
same_text-eq (c ∷ s) (d ∷ t) h = ground (arith, h, same_text-eq s t)

module _ {ℓ κ} {A : Type ℓ} (P : A → Type κ) where
  abbrev pub All : List A → Type κ
  All [] = Unit
  All (x ∷ xs) = P x × All xs

module _ {ℓ} {A : Type ℓ} where
  pub any-append : (p : A → Bool) (xs ys : List A) → any p (xs ++ ys) ≡ (any p xs || any p ys)
  any-append p [] ys = refl
  any-append p (x ∷ xs) ys = ground (arith, any-append p xs ys)

  pub count-append : (p : A → Bool) (xs ys : List A) → count p (xs ++ ys) ≡ count p xs + count p ys
  count-append p [] ys = omega arith
  count-append p (x ∷ xs) ys = omega (arith, count-append p xs ys)

  -- A test that is weaker everywhere keeps both quantifiers.
  pub any_mono :
      (p q : A → Bool) (xs : List A)
      → ((x : A) → p x ≡ true → q x ≡ true)
      → any p xs ≡ true
      → any q xs ≡ true
  any_mono p q [] f h = h
  any_mono p q (x ∷ xs) f h = ground (arith, f x, any_mono p q xs f)

  pub all_mono :
      (p q : A → Bool) (xs : List A)
      → ((x : A) → p x ≡ true → q x ≡ true)
      → all p xs ≡ true
      → all q xs ≡ true
  all_mono p q [] f h = h
  all_mono p q (x ∷ xs) f h = ground (arith, f x, all_mono p q xs f)

  pub find-holds : (p : A → Bool) (xs : List A) (x : A) → find p xs ≡ some x → p x ≡ true
  find-holds p [] x h = cc
  find-holds p (y ∷ xs) x h = ground (arith, find-holds p xs x)

module _ {ℓ} {A : Type ℓ} where
  abbrev pub get_elem? : List A → ℕ → Option A
  get_elem? [] i = none
  get_elem? (x ∷ xs) zero = some x
  get_elem? (x ∷ xs) (suc i) = get_elem? xs i

-- No id stands twice in the list.
abbrev pub Distinct : List ℕ → Type 0
Distinct [] = Unit {0}
Distinct (k ∷ ks) = (contains ks k ≡ false) × Distinct ks

-- How many of the ids are not yet tried.
abbrev pub left : List ℕ → List ℕ → ℕ
left tried = count (λ k. if contains tried k then false else true)

left-cons_le : (tried ids : List ℕ) (k : ℕ) → left (k ∷ tried) ids ≤ left tried ids
left-cons_le tried [] k = omega arith
left-cons_le tried (i ∷ ids) k = ground (arith, left-cons_le tried ids k)

pub left-cons_lt :
    (tried ids : List ℕ) (k : ℕ)
    → contains ids k ≡ true
    → contains tried k ≡ false
    → left (k ∷ tried) ids < left tried ids
left-cons_lt tried [] k h t = cc
left-cons_lt tried (i ∷ ids) k h t = elim (Bool-cases (i == k)) [
  | inl e ↦ rw (==→eq i k e) (ground (arith, left-cons_le tried ids k, ==_refl k))
  | inr e ↦ ground (arith, left-cons_lt tried ids k)
]

pub left-nil : (ids : List ℕ) → left [] ids ≡ length ids
left-nil [] = refl
left-nil (i ∷ ids) = omega (arith, left-nil ids)

pub left-le-length : (tried ids : List ℕ) → left tried ids ≤ length ids
left-le-length tried [] = omega arith
left-le-length tried (i ∷ ids) = ground (arith, left-le-length tried ids)

module _ {ℓ κ} {A : Type ℓ} (P : A → Type κ) where
  pub All-append : (xs ys : List A) → All P xs → All P ys → All P (xs ++ ys)
  All-append [] ys h k = k
  All-append (x ∷ xs) ys h k = (h.0, All-append xs ys h.1 k)

module _ {ℓ} {A : Type ℓ} where
  pub length-append : (xs ys : List A) → length (xs ++ ys) ≡ length xs + length ys
  length-append [] ys = omega arith
  length-append (x ∷ xs) ys = omega (arith, length-append xs ys)
