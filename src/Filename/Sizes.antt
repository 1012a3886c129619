-- ===== src/Filename/Sizes.antt =====
-- How long a sanitized name is.
pub mod Short
use oxdm.Prelude.{
  ==→eq, ℕ, zero, suc, ◌+◌, ◌-◌, ◌≤◌, ◌<◌, ◌≡◌, ◌≢◌, refl, Bool, true, false, ◌&&◌, ◌||◌, List, [],
  ◌∷◌, ◌++◌, Option, none, some, arith, inl, inr, Bool-cases, if◌then◌else◌, leb, ltb, all, ◌==◌,
  subst, sym, map, filter,
}
use oxdm.Text.Utf8.{utf8_len, len_utf8, utf8_len-append}
use oxdm.Text.Offsets.{take_bytes, is_char_boundary, utf8_len-take_bytes}
use oxdm.Filename.{
  unreserved, cleaned_of, is_reserved, usable, is_empty, truncate_bytes, split_extension,
  kept_extension, floor_boundary, min, sanitize, leaf_of, max_name_bytes,
}
use oxdm.Filename.Cleaned.{AreSafe, truncate_bytes-AreSafe, unreserved_of-AreSafe}

floor_boundary_le : (name : List ℕ) (cut : ℕ) → floor_boundary name cut ≤ cut
unfolding floor_boundary
floor_boundary_le name zero = omega arith
floor_boundary_le name (suc cut) = ground (arith, floor_boundary_le name cut)

-- No boundary lies between the floor and the cut.
le_floor_boundary :
    (name : List ℕ) (cut b : ℕ)
    → is_char_boundary name b ≡ true
    → b ≤ cut
    → b ≤ floor_boundary name cut
unfolding floor_boundary
le_floor_boundary name zero b h k = k
le_floor_boundary name (suc cut) b h k = elim (Bool-cases (b == suc cut)) [
  | inl e ↦
      let here = subst (λ n. is_char_boundary name n ≡ true) (==→eq b (suc cut) e) h in
      ground (arith, here, k)
  | inr e ↦ ground (arith, k, e, le_floor_boundary name cut b h)
]

kept_extension_le : (ext : List ℕ) → utf8_len (kept_extension ext) ≤ 16
kept_extension_le ext = ground arith

utf8_len-truncate_bytes :
    (name : List ℕ) (most : ℕ) → 16 ≤ most → utf8_len (truncate_bytes name most) ≤ most
unfolding truncate_bytes
utf8_len-truncate_bytes name most h =
    let ext = kept_extension ((split_extension name).1) in
    let cut = min (most - utf8_len ext) (utf8_len name) in
    let taken = take_bytes (floor_boundary name cut) name in
    elim (Bool-cases (leb (utf8_len name) most)) [
      | inl fits ↦ rw fits (ground (arith, fits))
      | inr over ↦ rw over (
          ground (
            arith,
            utf8_len-append taken ext,
            utf8_len-take_bytes (floor_boundary name cut) name,
            floor_boundary_le name cut,
            kept_extension_le ((split_extension name).1),
            h,
          ))
    ]

boundary_first : (c : ℕ) (s : List ℕ) → is_char_boundary (c ∷ s) (len_utf8 c) ≡ true
unfolding is_char_boundary
boundary_first c [] = ground arith
boundary_first c (d ∷ s) = ground arith

take_first : (n c : ℕ) (s : List ℕ) → len_utf8 c ≤ n → take_bytes n (c ∷ s) ≢ []
unfolding take_bytes
take_first n c s h e = ground (arith, h, e)

append_some : (s t : List ℕ) → s ≢ [] → s ++ t ≢ []
append_some [] t h e = absurd (h refl)
append_some (c ∷ s) t h e = cc

len_utf8_le : (c : ℕ) → len_utf8 c ≤ 4
len_utf8_le c = ground arith

room_for_first : (room c rest : ℕ) → 4 ≤ room → len_utf8 c ≤ min room (len_utf8 c + rest)
room_for_first room c rest h = ground (arith, h)

truncate_bytes_some : (c : ℕ) (s : List ℕ) (most : ℕ) → 20 ≤ most → truncate_bytes (c ∷ s) most ≢ []
unfolding truncate_bytes
truncate_bytes_some c s most h =
    let name = c ∷ s in
    let ext = kept_extension ((split_extension name).1) in
    let room = most - utf8_len ext in
    let cut = min room (utf8_len name) in
    let small = kept_extension_le ((split_extension name).1) in
    elim (Bool-cases (leb (utf8_len name) most)) [
      | inl fits ↦ rw fits (λ e. cc)
      | inr over ↦ rw over (
          append_some (take_bytes (floor_boundary name cut) name) ext (
            take_first (floor_boundary name cut) c s (
              le_floor_boundary name cut (len_utf8 c) (boundary_first c s)
                (room_for_first room c (utf8_len s) (omega (arith, h, small))))))
    ]

unreserved_some : (s : List ℕ) → s ≢ [] → unreserved s ≢ []
unreserved_some s h e = elim (Bool-cases (is_reserved s)) [
  | inl bad ↦ absurd (ground (arith, bad, e))
  | inr good ↦ h (ground (arith, good, e))
]

truncated_some : (s : List ℕ) (most : ℕ) → 20 ≤ most → s ≢ [] → truncate_bytes s most ≢ []
truncated_some [] most h n = absurd (n refl)
truncated_some (c ∷ s) most h n = truncate_bytes_some c s most h

-- Of a usable name: it was not empty, and the result is its truncation.
pub usable_lem :
    (cleaned s : List ℕ)
    → usable cleaned ≡ some s
    → (is_empty cleaned || all (λ c. c == b'.') cleaned ≡ false)
      × (truncate_bytes (unreserved cleaned) max_name_bytes ≡ s)
usable_lem cleaned s h = elim (Bool-cases (is_empty cleaned || all (λ c. c == b'.') cleaned)) [
  | inl dots ↦ ground (arith, dots, h)
  | inr full ↦ (full, ground (arith, full, h))
]

not_empty : (s : List ℕ) (b : Bool) → (is_empty s || b) ≡ false → s ≢ []
not_empty [] b h e = cc
not_empty (c ∷ s) b h e = cc

-- A sanitized name is a leaf: it is not empty and at most 255 bytes long, and it holds no separator,
-- none of the characters that Windows refuses, and no control or deceptive character.
pub sanitize_leaf :
    (name s : List ℕ)
    → sanitize name ≡ some s
    → (s ≢ []) × (utf8_len s ≤ max_name_bytes) × AreSafe s
unfolding sanitize
sanitize_leaf name s h =
    let leaf = leaf_of name in
    let cleaned = cleaned_of leaf in
    let (full, made) = usable_lem cleaned s h in
    let some_left =
      unreserved_some cleaned (not_empty cleaned (all (λ c. c == b'.') cleaned) full) in
    (
      subst (λ t. t ≢ []) made
          (truncated_some (unreserved cleaned) max_name_bytes (omega arith) some_left),
      subst (λ t. utf8_len t ≤ max_name_bytes) made
          (utf8_len-truncate_bytes (unreserved cleaned) max_name_bytes (omega arith)),
      subst AreSafe made
          (truncate_bytes-AreSafe (unreserved cleaned) max_name_bytes (unreserved_of-AreSafe leaf)),
    )
