-- ===== src/Filename.antt =====
-- src/domain/filename.rs: the one name of a download. A text is its code points; its length is in
-- bytes of UTF-8. The Unicode tables behind `to_lowercase` are a parameter.
pub mod Split
pub mod Cleaned
pub mod Sizes
pub mod Names
use oxdm.Prelude.{
  ℕ, zero, suc, ◌+◌, ◌-◌, ◌/◌, ◌%◌, Bool, true, false, ◌&&◌, ◌||◌, List, [], ◌∷◌, ◌++◌, map, filter,
  any, all, contains, same_text, ltb, leb, ◌==◌, not, Option, none, some, codes, if◌then◌else◌,
}
use oxdm.Text.{trim, trim_end_matches, between, ascii_lower}
use oxdm.Text.Utf8.{utf8_len}
use oxdm.Text.Offsets.{is_char_boundary, take_bytes, drop_bytes}

-- `FORBIDDEN`.
abbrev pub forbidden : List ℕ
forbidden = codes "/\\:<>\"|?*"

unfoldable pub is_deceptive_format : ℕ → Bool
is_deceptive_format c =
    (c == 0x61c)
    || (c == 0x200b)
    || (c == 0x200e)
    || (c == 0x200f)
    || between 0x202a 0x202e c
    || between 0x2060 0x2064 c
    || between 0x2066 0x2069 c
    || between 0x206a 0x206f c
    || (c == 0xfeff)
    || between 0xfff9 0xfffb c
    || between 0x1d173 0x1d17a c
    || (c == 0xe0001)
    || between 0xe0020 0xe007f c

-- `RESERVED`.
abbrev pub reserved : List (List ℕ)
reserved =
    codes "con"
    ∷ codes "prn"
    ∷ codes "aux"
    ∷ codes "nul"
    ∷ codes "com1"
    ∷ codes "com2"
    ∷ codes "com3"
    ∷ codes "com4"
    ∷ codes "com5"
    ∷ codes "com6"
    ∷ codes "com7"
    ∷ codes "com8"
    ∷ codes "com9"
    ∷ codes "lpt1"
    ∷ codes "lpt2"
    ∷ codes "lpt3"
    ∷ codes "lpt4"
    ∷ codes "lpt5"
    ∷ codes "lpt6"
    ∷ codes "lpt7"
    ∷ codes "lpt8"
    ∷ codes "lpt9"
    ∷ []

-- `MAX_NAME_BYTES`.
abbrev pub max_name_bytes : ℕ
max_name_bytes = 255

abbrev pub is_separator : ℕ → Bool
is_separator c = (c == b'/') || (c == b'\\')

abbrev pub is_dot_or_space : ℕ → Bool
is_dot_or_space c = (c == b'.') || (c == b' ')

-- `char::is_control`.
abbrev pub is_control : ℕ → Bool
is_control c = ltb c 0x20 || between 0x7f 0x9f c

-- What the filter of `sanitize` keeps, and what it writes for it.
unfoldable pub is_kept : ℕ → Bool
unfolding is_deceptive_format
is_kept c = not (is_control c) && not (is_deceptive_format c)

abbrev pub written : ℕ → ℕ
written c = if contains forbidden c then b'_' else c

-- `rsplit([..]).next()`: what is behind the last separator.
unfoldable pub after_last : (ℕ → Bool) → List ℕ → List ℕ
after_last p [] = []
after_last p (c ∷ s) =
    let rest = after_last p s in if any p s then rest else if p c then s else c ∷ s

-- `split('.').next()`.
unfoldable pub before_dot : List ℕ → List ℕ
before_dot [] = []
before_dot (c ∷ s) = let rest = before_dot s in if c == b'.' then [] else c ∷ rest

abbrev pub is_reserved : List ℕ → Bool
is_reserved name = any (same_text (map ascii_lower (before_dot name))) reserved

abbrev pub cons_dot : ℕ → List ℕ → Option (List ℕ × List ℕ) → Option (List ℕ × List ℕ)
cons_dot c s none = if c == b'.' then some ([], c ∷ s) else none
cons_dot c s (some (stem, ext)) = some (c ∷ stem, ext)

-- A text before and from its last dot, where it has one.
unfoldable pub at_last_dot : List ℕ → Option (List ℕ × List ℕ)
at_last_dot [] = none
at_last_dot (c ∷ s) = cons_dot c s (at_last_dot s)

abbrev pub is_tarball : ℕ → List ℕ → Bool
is_tarball tar stem =
    ltb 0 tar
    && is_char_boundary stem tar
    && same_text (map ascii_lower (drop_bytes tar stem)) (codes ".tar")

abbrev pub split_found : List ℕ → Option (List ℕ × List ℕ) → List ℕ × List ℕ
split_found name none = (name, [])
split_found name (some ([], ext)) = (name, [])
split_found name (some (c ∷ s, ext)) =
    let stem = c ∷ s in
    let tar = utf8_len stem - 4 in
    if is_tarball tar stem then (take_bytes tar name, drop_bytes tar name) else (stem, ext)

unfoldable pub split_extension : List ℕ → List ℕ × List ℕ
unfolding at_last_dot take_bytes drop_bytes is_char_boundary
split_extension name = split_found name (at_last_dot name)

-- `while cut > 0 && !name.is_char_boundary(cut) { cut -= 1 }`.
unfoldable pub floor_boundary : List ℕ → ℕ → ℕ
unfolding is_char_boundary
floor_boundary name zero = 0
floor_boundary name (suc cut) =
    let rest = floor_boundary name cut in if is_char_boundary name (suc cut) then suc cut else rest

abbrev pub min : ℕ → ℕ → ℕ
min a b = if ltb a b then a else b

abbrev pub kept_extension : List ℕ → List ℕ
kept_extension ext = if leb (utf8_len ext) 16 then ext else []

unfoldable pub truncate_bytes : List ℕ → ℕ → List ℕ
unfolding split_extension floor_boundary take_bytes
truncate_bytes name most =
    let ext = kept_extension ((split_extension name).1) in
    let room = most - utf8_len ext in
    if leb (utf8_len name) most
    then name
    else take_bytes (floor_boundary name (min room (utf8_len name))) name ++ ext

-- The parts of `sanitize`: the leaf, its characters, and the name of them.
abbrev pub leaf_of : List ℕ → List ℕ
leaf_of name = trim_end_matches is_dot_or_space (trim (after_last is_separator name))

abbrev pub cleaned_of : List ℕ → List ℕ
cleaned_of leaf = trim_end_matches is_dot_or_space (trim (map written (filter is_kept leaf)))

abbrev pub unreserved : List ℕ → List ℕ
unreserved cleaned = if is_reserved cleaned then b'_' ∷ cleaned else cleaned

abbrev pub is_empty : List ℕ → Bool
is_empty [] = true
is_empty _ = false

abbrev pub usable : List ℕ → Option (List ℕ)
usable cleaned =
    if is_empty cleaned || all (λ c. c == b'.') cleaned
    then none
    else some (truncate_bytes (unreserved cleaned) max_name_bytes)

unfoldable pub sanitize : List ℕ → Option (List ℕ)
unfolding after_last before_dot trim trim_end_matches truncate_bytes
sanitize name = usable (cleaned_of (leaf_of name))
