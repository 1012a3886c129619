-- ===== src/Pairing.antt =====
-- src/data/state.rs, `encode_pairing_code` and `decode_pairing_code`: the code that pairs a browser
-- with the daemon. The base64 engine (`URL_SAFE_NO_PAD` of the crate base64) is a parameter. A text
-- is its code points, and its bytes are UTF-8.
pub mod Trips
use oxdm.Prelude.{
  ℕ, ◌+◌, ◌*◌, ◌/◌, ◌%◌, ◌<◌, ◌≡◌, Bool, true, false, List, [], ◌∷◌, ◌++◌, length, ltb, ◌==◌, not,
  Option, none, some, codes, All, if◌then◌else◌,
}
use oxdm.Text.{trim, is_whitespace, strip_prefix}
use oxdm.Text.Utf8.{as_bytes, from_utf8, IsByte}

-- Bytes to text, and back where the text is the encoding of some bytes.
pub record Base64 : Type 0 where
  pub encode : List ℕ → List ℕ
  pub decode : List ℕ → Option (List ℕ)

-- What the crate documents: encoded bytes decode to themselves; the decoder takes the canonical
-- form of some bytes only; and the alphabet has no white space.
pub record IsBase64 (b64 : Base64) : Type 0 where
  pub decodes : (bytes : List ℕ) → All IsByte bytes → b64.decode (b64.encode bytes) ≡ some bytes
  pub canonical :
      (s bytes : List ℕ) → b64.decode s ≡ some bytes → (b64.encode bytes ≡ s) × All IsByte bytes
  pub plain :
      (bytes : List ℕ) → All IsByte bytes → All (λ c. is_whitespace c ≡ false) (b64.encode bytes)

abbrev pub pairing_prefix : List ℕ
pairing_prefix = codes "oxdm1."

-- `u16::to_be_bytes` and `from_be_bytes`.
abbrev pub to_be_bytes : ℕ → List ℕ
to_be_bytes port = (port / 256) ∷ (port % 256) ∷ []

abbrev pub from_be_bytes : ℕ → ℕ → ℕ
from_be_bytes hi lo = hi * 256 + lo

-- `unwrap_or_default`.
abbrev pub or_empty : Option (List ℕ) → List ℕ
or_empty none = []
or_empty (some bytes) = bytes

module _ (b64 : Base64) where
  unfoldable pub encode_pairing_code : ℕ → List ℕ → List ℕ
  unfolding as_bytes
  encode_pairing_code port token_b64 =
      let token_bytes = or_empty (b64.decode token_b64) in
      if not (length token_bytes == 32)
      then pairing_prefix ++ b64.encode (to_be_bytes port ++ as_bytes token_b64)
      else pairing_prefix ++ b64.encode (to_be_bytes port ++ token_bytes)

  abbrev pub with_port : ℕ → Option (List ℕ) → Option (ℕ × List ℕ)
  with_port port none = none
  with_port port (some token) = some (port, token)

  -- The decoded bytes: two of the port, and at least one more.
  abbrev pub read_pairing : List ℕ → Option (ℕ × List ℕ)
  read_pairing (hi ∷ lo ∷ b ∷ rest) =
      if length rest == 31
      then some (from_be_bytes hi lo, b64.encode (b ∷ rest))
      else with_port (from_be_bytes hi lo) (from_utf8 (b ∷ rest))
  read_pairing _ = none

  unfoldable pub decode_pairing_code : List ℕ → Option (ℕ × List ℕ)
  unfolding strip_prefix trim
  decode_pairing_code code = elim (strip_prefix pairing_prefix code) [
    | none ↦ none
    | some rest ↦ elim (b64.decode (trim rest)) [ none ↦ none | some raw ↦ read_pairing raw ]
  ]
