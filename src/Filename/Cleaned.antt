-- ===== src/Filename/Cleaned.antt =====
-- What a sanitized name is made of.
use oxdm.Prelude.{
  All-append, ℕ, ◌-◌, ◌≡◌, refl, Bool, true, false, ◌&&◌, List, [], ◌∷◌, ◌++◌, map, filter,
  contains, not, All, inl, inr, Bool-cases, subst, sym, leb,
}
use oxdm.Text.{trim, All-trim, All-trim_end}
use oxdm.Text.Utf8.{utf8_len}
use oxdm.Text.Offsets.{take_bytes, All-take_bytes}
use oxdm.Filename.{
  is_deceptive_format, forbidden, is_kept, written, cleaned_of, unreserved, is_reserved,
  truncate_bytes, split_extension, kept_extension, floor_boundary, min, is_dot_or_space,
}
use oxdm.Filename.Split.{split_extension_lem}

-- No separator, none of the characters that Windows refuses, no control and no deceptive character.
abbrev pub is_safe : ℕ → Bool
is_safe c = not (contains forbidden c) && is_kept c

abbrev pub AreSafe : List ℕ → Type 0
AreSafe = All (λ c. is_safe c ≡ true)

unwritten : (c : ℕ) → contains forbidden c ≡ false → written c ≡ c
unwritten c h = rw h refl

underscore-IsSafe : is_safe b'_' ≡ true
unfolding is_kept is_deceptive_format
underscore-IsSafe = refl

written-IsSafe : (c : ℕ) → is_kept c ≡ true → is_safe (written c) ≡ true
written-IsSafe c h = elim (Bool-cases (contains forbidden c)) [
  | inl bad ↦ rw bad underscore-IsSafe
  | inr good ↦ subst (λ d. is_safe d ≡ true) (sym (unwritten c good)) (rw good h)
]

cleaned-AreSafe : (leaf : List ℕ) → AreSafe (map written (filter is_kept leaf))
cleaned-AreSafe [] = tt
cleaned-AreSafe (c ∷ leaf) = elim (Bool-cases (is_kept c)) [
  | inl kept ↦ rw kept (written-IsSafe c kept, cleaned-AreSafe leaf)
  | inr dropped ↦ rw dropped (cleaned-AreSafe leaf)
]

cleaned_of-AreSafe : (leaf : List ℕ) → AreSafe (cleaned_of leaf)
cleaned_of-AreSafe leaf =
    let made = map written (filter is_kept leaf) in
    All-trim_end (λ c. is_safe c ≡ true) is_dot_or_space (trim made)
      (All-trim (λ c. is_safe c ≡ true) made (cleaned-AreSafe leaf))

unreserved-AreSafe : (s : List ℕ) → AreSafe s → AreSafe (unreserved s)
unreserved-AreSafe s h = elim (Bool-cases (is_reserved s)) [
  | inl bad ↦ rw bad (underscore-IsSafe, h)
  | inr good ↦ rw good h
]

All-behind : (s t : List ℕ) → AreSafe (s ++ t) → AreSafe t
All-behind [] t h = h
All-behind (c ∷ s) t h = All-behind s t h.1

extension-AreSafe :
    (name : List ℕ) → AreSafe name → AreSafe (kept_extension ((split_extension name).1))
extension-AreSafe name h =
    let (stem, ext) = split_extension name in
    let joined : stem ++ ext ≡ name = (split_extension_lem name).0 in
    elim (Bool-cases (leb (utf8_len ext) 16)) [
      | inl short ↦ rw short (All-behind stem ext (subst AreSafe (sym joined) h))
      | inr long ↦ rw long tt
    ]

pub truncate_bytes-AreSafe :
    (name : List ℕ) (most : ℕ) → AreSafe name → AreSafe (truncate_bytes name most)
unfolding truncate_bytes
truncate_bytes-AreSafe name most h =
    let ext = kept_extension ((split_extension name).1) in
    let cut = floor_boundary name (min (most - utf8_len ext) (utf8_len name)) in
    elim (Bool-cases (leb (utf8_len name) most)) [
      | inl fits ↦ rw fits h
      | inr over ↦ rw over (
          All-append (λ c. is_safe c ≡ true) (take_bytes cut name) ext
            (All-take_bytes (λ c. is_safe c ≡ true) cut name h) (extension-AreSafe name h))
    ]

pub unreserved_of-AreSafe : (leaf : List ℕ) → AreSafe (unreserved (cleaned_of leaf))
unreserved_of-AreSafe leaf = unreserved-AreSafe (cleaned_of leaf) (cleaned_of-AreSafe leaf)
