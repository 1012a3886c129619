-- ===== src/Filename/Sizes/Short.antt =====
-- Names short enough not to be cut.
use oxdm.Prelude.{
  ℕ, ◌+◌, ◌≤◌, ◌<◌, ◌≡◌, refl, Bool, false, ◌||◌, List, [], ◌∷◌, some, arith, inl, inr, Bool-cases,
  all, ◌==◌, ap, sym, subst, ◌∙◌, map, filter, contains,
}
use oxdm.Text.{trim, trim_start_matches, trim_end_matches, before_trimmed, is_whitespace}
use oxdm.Text.Utf8.{utf8_len, len_utf8}
use oxdm.Filename.{
  unreserved, cleaned_of, is_reserved, is_empty, truncate_bytes, sanitize, leaf_of, max_name_bytes,
  is_dot_or_space, after_last, is_separator, before_dot, written, is_kept, forbidden,
}
use oxdm.Filename.Sizes.{usable_lem}

-- Each step of the cleaning leaves no more bytes than it found.
utf8_len-after_last : (p : ℕ → Bool) (s : List ℕ) → utf8_len (after_last p s) ≤ utf8_len s
unfolding after_last
utf8_len-after_last p [] = omega arith
utf8_len-after_last p (c ∷ s) = ground (arith, utf8_len-after_last p s)

utf8_len-trim_start : (p : ℕ → Bool) (s : List ℕ) → utf8_len (trim_start_matches p s) ≤ utf8_len s
unfolding trim_start_matches
utf8_len-trim_start p [] = omega arith
utf8_len-trim_start p (c ∷ s) = ground (arith, utf8_len-trim_start p s)

utf8_len-before_trimmed :
    (p : ℕ → Bool) (c : ℕ) (s : List ℕ) → utf8_len (before_trimmed p c s) ≤ len_utf8 c + utf8_len s
utf8_len-before_trimmed p c [] = ground arith
utf8_len-before_trimmed p c (d ∷ s) = omega arith

utf8_len-trim_end : (p : ℕ → Bool) (s : List ℕ) → utf8_len (trim_end_matches p s) ≤ utf8_len s
unfolding trim_end_matches
utf8_len-trim_end p [] = omega arith
utf8_len-trim_end p (c ∷ s) =
    omega (arith, utf8_len-before_trimmed p c (trim_end_matches p s), utf8_len-trim_end p s)

utf8_len-trim : (s : List ℕ) → utf8_len (trim s) ≤ utf8_len s
unfolding trim
utf8_len-trim s = omega (
  arith,
  utf8_len-trim_end is_whitespace (trim_start_matches is_whitespace s),
  utf8_len-trim_start is_whitespace s,
)

len_utf8-written : (c : ℕ) → len_utf8 (written c) ≤ len_utf8 c
len_utf8-written c = elim (Bool-cases (contains forbidden c)) [
  | inl bad ↦ rw bad (ground arith)
  | inr good ↦ rw good (omega arith)
]

utf8_len-filtered : (s : List ℕ) → utf8_len (map written (filter is_kept s)) ≤ utf8_len s
utf8_len-filtered [] = omega arith
utf8_len-filtered (c ∷ s) = elim (Bool-cases (is_kept c)) [
  | inl kept ↦ rw kept (omega (arith, len_utf8-written c, utf8_len-filtered s))
  | inr dropped ↦ rw dropped (omega (arith, utf8_len-filtered s))
]

utf8_len-leaf_of : (name : List ℕ) → utf8_len (leaf_of name) ≤ utf8_len name
utf8_len-leaf_of name =
    let leaf = after_last is_separator name in
    omega (
      arith,
      utf8_len-trim_end is_dot_or_space (trim leaf),
      utf8_len-trim leaf,
      utf8_len-after_last is_separator name,
    )

utf8_len-cleaned_of : (leaf : List ℕ) → utf8_len (cleaned_of leaf) ≤ utf8_len leaf
utf8_len-cleaned_of leaf =
    let made = map written (filter is_kept leaf) in
    omega (
      arith,
      utf8_len-trim_end is_dot_or_space (trim made),
      utf8_len-trim made,
      utf8_len-filtered leaf,
    )

-- What is trimmed stays as it is, also behind a character that is not trimmed.
trimmed_again :
    (p : ℕ → Bool) (c : ℕ) (s : List ℕ)
    → trim_end_matches p s ≡ s
    → trim_end_matches p (before_trimmed p c s) ≡ before_trimmed p c s
unfolding trim_end_matches
trimmed_again p c [] h = elim (Bool-cases (p c)) [
  | inl off ↦ rw off refl
  | inr stop ↦ rw stop (rw stop refl)
]
trimmed_again p c (d ∷ s) h = ap (before_trimmed p c) h

trim_end_twice :
    (p : ℕ → Bool) (s : List ℕ) → trim_end_matches p (trim_end_matches p s) ≡ trim_end_matches p s
unfolding trim_end_matches
trim_end_twice p [] = refl
trim_end_twice p (c ∷ s) = trimmed_again p c (trim_end_matches p s) (trim_end_twice p s)

trim_end_cons :
    (p : ℕ → Bool) (c : ℕ) (s : List ℕ)
    → p c ≡ false
    → trim_end_matches p s ≡ s
    → trim_end_matches p (c ∷ s) ≡ c ∷ s
unfolding trim_end_matches
trim_end_cons p c [] h k = rw h refl
trim_end_cons p c (d ∷ s) h k = ap (before_trimmed p c) k

abbrev IsOrderly : List ℕ → Type 0
IsOrderly s =
    (trim_end_matches is_dot_or_space s ≡ s)
    × (is_reserved s ≡ false)
    × (all (λ c. c == b'.') s ≡ false)

unreserved-IsOrderly :
    (s : List ℕ)
    → trim_end_matches is_dot_or_space s ≡ s
    → all (λ c. c == b'.') s ≡ false
    → IsOrderly (unreserved s)
unfolding before_dot
unreserved-IsOrderly s h k = elim (Bool-cases (is_reserved s)) [
  | inl bad ↦ rw bad (trim_end_cons is_dot_or_space b'_' s refl h, refl, refl)
  | inr good ↦ rw good (h, good, k)
]

short_kept : (s : List ℕ) (most : ℕ) → utf8_len s ≤ most → truncate_bytes s most ≡ s
unfolding truncate_bytes
short_kept s most h = ground (arith, h)

utf8_len-unreserved : (s : List ℕ) → utf8_len (unreserved s) ≤ 1 + utf8_len s
utf8_len-unreserved s = elim (Bool-cases (is_reserved s)) [
  | inl bad ↦ rw bad (omega arith)
  | inr good ↦ rw good (omega arith)
]

right_false : (a b : Bool) → (a || b) ≡ false → b ≡ false
right_false a b h = ground (arith, h)

-- A name of fewer than 255 bytes is not cut, so that what is left of it ends in no dot and no space,
-- has a stem that Windows does not reserve, and is more than dots.
pub sanitize_short :
    (name s : List ℕ)
    → utf8_len name < max_name_bytes
    → sanitize name ≡ some s
    → (trim_end_matches is_dot_or_space s ≡ s)
      × (is_reserved s ≡ false)
      × (all (λ c. c == b'.') s ≡ false)
unfolding sanitize
sanitize_short name s h e =
    let leaf = leaf_of name in
    let cleaned = cleaned_of leaf in
    let (full, made) = usable_lem cleaned s e in
    let fits : utf8_len (unreserved cleaned) ≤ max_name_bytes =
      omega
        (arith, h, utf8_len-leaf_of name, utf8_len-cleaned_of leaf, utf8_len-unreserved cleaned) in
    let same = sym (short_kept (unreserved cleaned) max_name_bytes fits) ∙ made in
    let made_of = map written (filter is_kept leaf) in
    subst IsOrderly same (
      unreserved-IsOrderly cleaned (trim_end_twice is_dot_or_space (trim made_of))
        (right_false (is_empty cleaned) (all (λ c. c == b'.') cleaned) full))
