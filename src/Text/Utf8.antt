-- ===== src/Text/Utf8.antt =====
-- UTF-8 as Rust's `str` has it: `as_bytes`, `len`, and `String::from_utf8`, which refuses overlong
-- forms and surrogates.
use oxdm.Prelude.{
  ℕ, zero, suc, ◌+◌, ◌-◌, ◌*◌, ◌/◌, ◌%◌, ◌<◌, ◌≡◌, refl, true, ◌||◌, List, [], ◌∷◌, ◌++◌, ltb, ◌==◌,
  if◌then◌else◌, Option, none, some, length-append, arith, ap, ◌∙◌, All, All-append, length,
}
use oxdm.Text.{between}

-- A `char`: no surrogate, and below the end of Unicode.
abbrev pub IsScalar : ℕ → Type 0
IsScalar c = (ltb c 0xd800 || between 0xe000 0x10ffff c) ≡ true

unfoldable pub encode_char : ℕ → List ℕ
encode_char c =
    if ltb c 0x80
    then c ∷ []
    else if ltb c 0x800
    then (0xc0 + c / 64) ∷ (0x80 + c % 64) ∷ []
    else if ltb c 0x10000
    then (0xe0 + c / 4096) ∷ (0x80 + (c / 64) % 64) ∷ (0x80 + c % 64) ∷ []
    else (0xf0 + c / 262144)
      ∷ (0x80 + (c / 4096) % 64)
      ∷ (0x80 + (c / 64) % 64)
      ∷ (0x80 + c % 64)
      ∷ []

-- `str::as_bytes`.
unfoldable pub as_bytes : List ℕ → List ℕ
unfolding encode_char
as_bytes [] = []
as_bytes (c ∷ s) = encode_char c ++ as_bytes s

-- Between two characters, or so many bytes short of one: the next byte's range, and the bits so far.
pub data Utf8State : Type 0 where
  ready : Utf8State
  pending : ℕ → ℕ → ℕ → ℕ → Utf8State

pub data Utf8Step : Type 0 where
  invalid : Utf8Step
  more : Utf8State → Utf8Step
  done : ℕ → Utf8Step

unfoldable pub advance : Utf8State → ℕ → Utf8Step
advance ready b =
    if ltb b 0x80
    then done b
    else if between 0xc2 0xdf b
    then more (pending 0 0x80 0xbf (b - 0xc0))
    else if between 0xe0 0xef b
    then more
        (pending 1 (if b == 0xe0 then 0xa0 else 0x80) (if b == 0xed then 0x9f else 0xbf) (b - 0xe0))
    else if between 0xf0 0xf4 b
    then more
        (pending 2 (if b == 0xf0 then 0x90 else 0x80) (if b == 0xf4 then 0x8f else 0xbf) (b - 0xf0))
    else invalid
advance (pending zero lo hi bits) b =
    if between lo hi b then done (bits * 64 + (b - 0x80)) else invalid
advance (pending (suc n) lo hi bits) b =
    if between lo hi b then more (pending n 0x80 0xbf (bits * 64 + (b - 0x80))) else invalid

abbrev pub cons_some : ℕ → Option (List ℕ) → Option (List ℕ)
cons_some c none = none
cons_some c (some s) = some (c ∷ s)

unfoldable pub decode_from : Utf8State → List ℕ → Option (List ℕ)
unfolding advance
decode_from ready [] = some []
decode_from (pending n lo hi bits) [] = none
decode_from st (b ∷ bs) = elim (advance st b) [
  | invalid ↦ none
  | more st' ↦ decode_from st' bs
  | done c ↦ cons_some c (decode_from ready bs)
]

-- `String::from_utf8`.
abbrev pub from_utf8 : List ℕ → Option (List ℕ)
from_utf8 = decode_from ready

decode-encode_char :
    (c : ℕ) (rest : List ℕ)
    → IsScalar c
    → decode_from ready (encode_char c ++ rest) ≡ cons_some c (decode_from ready rest)
unfolding encode_char decode_from advance
decode-encode_char c rest h = ground arith

pub from_utf8-as_bytes : (s : List ℕ) → All IsScalar s → from_utf8 (as_bytes s) ≡ some s
unfolding as_bytes decode_from
from_utf8-as_bytes [] h = refl
from_utf8-as_bytes (c ∷ s) h =
    decode-encode_char c (as_bytes s) h.0 ∙ ap (cons_some c) (from_utf8-as_bytes s h.1)

abbrev pub IsByte : ℕ → Type 0
IsByte b = b < 256

bytes_of_char : (c : ℕ) → IsScalar c → All IsByte (encode_char c)
unfolding encode_char
bytes_of_char c h = ground arith

pub as_bytes-IsByte : (s : List ℕ) → All IsScalar s → All IsByte (as_bytes s)
unfolding as_bytes
as_bytes-IsByte [] h = tt
as_bytes-IsByte (c ∷ s) h =
    All-append IsByte (encode_char c) (as_bytes s) (bytes_of_char c h.0) (as_bytes-IsByte s h.1)

-- `char::len_utf8`, and `str::len`.
abbrev pub len_utf8 : ℕ → ℕ
len_utf8 c = if ltb c 0x80 then 1 else if ltb c 0x800 then 2 else if ltb c 0x10000 then 3 else 4

abbrev pub utf8_len : List ℕ → ℕ
utf8_len [] = 0
utf8_len (c ∷ s) = len_utf8 c + utf8_len s

length-encode_char : (c : ℕ) → length (encode_char c) ≡ len_utf8 c
unfolding encode_char
length-encode_char c = ground arith

pub length-as_bytes : (s : List ℕ) → length (as_bytes s) ≡ utf8_len s
unfolding as_bytes
length-as_bytes [] = refl
length-as_bytes (c ∷ s) =
    length-append (encode_char c) (as_bytes s)
    ∙ omega (arith, length-encode_char c, length-as_bytes s)

pub utf8_len-append : (s t : List ℕ) → utf8_len (s ++ t) ≡ utf8_len s + utf8_len t
utf8_len-append [] t = omega arith
utf8_len-append (c ∷ s) t = omega (arith, utf8_len-append s t)
