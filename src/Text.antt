-- ===== src/Text.antt =====
-- The parts of Rust's `str` that the code uses, on a text as the list of its code points.
pub mod Utf8
pub mod Offsets
use oxdm.Prelude.{
  inl, inr, Bool-cases, ℕ, ◌+◌, Bool, Option, none, some, length, any, ◌++◌, ◌≡◌, refl, ==_refl,
  All, true, false, ap, sym, ◌∙◌, ◌&&◌, ◌||◌, List, [], ◌∷◌, leb, ◌==◌, if◌then◌else◌, reverse,
}

abbrev pub between : ℕ → ℕ → ℕ → Bool
between lo hi c = leb lo c && leb c hi

-- `char::is_whitespace`: the Unicode property `White_Space`.
abbrev pub is_whitespace : ℕ → Bool
is_whitespace c =
    between 0x9 0xd c
    || (c == 0x20)
    || (c == 0x85)
    || (c == 0xa0)
    || (c == 0x1680)
    || between 0x2000 0x200a c
    || between 0x2028 0x2029 c
    || (c == 0x202f)
    || (c == 0x205f)
    || (c == 0x3000)

-- `trim_start_matches`.
unfoldable pub trim_start_matches : (ℕ → Bool) → List ℕ → List ℕ
trim_start_matches p [] = []
trim_start_matches p (c ∷ s) = let rest = trim_start_matches p s in if p c then rest else c ∷ s

-- A character before what is left of the rest of the text.
abbrev pub before_trimmed : (ℕ → Bool) → ℕ → List ℕ → List ℕ
before_trimmed p c [] = if p c then [] else c ∷ []
before_trimmed p c (d ∷ s) = c ∷ d ∷ s

-- `trim_end_matches`.
unfoldable pub trim_end_matches : (ℕ → Bool) → List ℕ → List ℕ
trim_end_matches p [] = []
trim_end_matches p (c ∷ s) = before_trimmed p c (trim_end_matches p s)

unfoldable pub trim : List ℕ → List ℕ
unfolding trim_start_matches trim_end_matches
trim s = trim_end_matches is_whitespace (trim_start_matches is_whitespace s)

-- `char::to_ascii_lowercase`.
abbrev pub ascii_lower : ℕ → ℕ
ascii_lower c = if between b'A' b'Z' c then c + 32 else c

-- `str::strip_prefix`.
unfoldable pub strip_prefix : List ℕ → List ℕ → Option (List ℕ)
strip_prefix [] s = some s
strip_prefix (p ∷ ps) [] = none
strip_prefix (p ∷ ps) (c ∷ s) = let rest = strip_prefix ps s in if p == c then rest else none

pub strip_prefix-append : (p s : List ℕ) → strip_prefix p (p ++ s) ≡ some s
unfolding strip_prefix
strip_prefix-append [] s = refl
strip_prefix-append (c ∷ p) s = rw (==_refl c) (strip_prefix-append p s)

trim_start_plain :
    (p : ℕ → Bool) (s : List ℕ) → All (λ c. p c ≡ false) s → trim_start_matches p s ≡ s
unfolding trim_start_matches
trim_start_plain p [] h = refl
trim_start_plain p (c ∷ s) h = rw (h.0) refl

trim_end_plain : (p : ℕ → Bool) (s : List ℕ) → All (λ c. p c ≡ false) s → trim_end_matches p s ≡ s
unfolding trim_end_matches
trim_end_plain p [] h = refl
trim_end_plain p (c ∷ []) h = rw (h.0) refl
trim_end_plain p (c ∷ d ∷ s) h = rw (trim_end_plain p (d ∷ s) h.1) refl

pub trim_plain : (s : List ℕ) → All (λ c. is_whitespace c ≡ false) s → trim s ≡ s
unfolding trim
trim_plain s h = rw (trim_start_plain is_whitespace s h) (trim_end_plain is_whitespace s h)

module _ {κ} (P : ℕ → Type κ) where
  All-trim_start : (p : ℕ → Bool) (s : List ℕ) → All P s → All P (trim_start_matches p s)
  unfolding trim_start_matches
  All-trim_start p [] h = tt
  All-trim_start p (c ∷ s) h = elim (Bool-cases (p c)) [
    | inl off ↦ rw off (All-trim_start p s h.1)
    | inr stop ↦ rw stop h
  ]

  All-before_trimmed :
      (p : ℕ → Bool) (c : ℕ) (s : List ℕ) → P c → All P s → All P (before_trimmed p c s)
  All-before_trimmed p c [] h k = elim (Bool-cases (p c)) [
    | inl off ↦ rw off tt
    | inr stop ↦ rw stop (h, tt)
  ]
  All-before_trimmed p c (d ∷ s) h k = (h, k)

  pub All-trim_end : (p : ℕ → Bool) (s : List ℕ) → All P s → All P (trim_end_matches p s)
  unfolding trim_end_matches
  All-trim_end p [] h = tt
  All-trim_end p (c ∷ s) h =
      All-before_trimmed p c (trim_end_matches p s) h.0 (All-trim_end p s h.1)

  pub All-trim : (s : List ℕ) → All P s → All P (trim s)
  unfolding trim
  All-trim s h =
      All-trim_end is_whitespace (trim_start_matches is_whitespace s)
        (All-trim_start is_whitespace s h)
