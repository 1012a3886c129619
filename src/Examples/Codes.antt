-- ===== src/Examples/Codes.antt =====
-- A pairing code under an engine that writes each byte as two letters.
use oxdm.Prelude.{
  subst, ◌∙◌, Bool, ℕ, ◌+◌, ◌-◌, ◌*◌, ◌/◌, ◌%◌, ◌≡◌, ◌↔◌, refl, ap, arith, true, false, ◌&&◌,
  if◌then◌else◌, [], ◌∷◌, List, Option, none, some, All,
}
use oxdm.Text.{between, is_whitespace}
use oxdm.Text.Utf8.{IsByte}
use oxdm.Pairing.{Base64, IsBase64, encode_pairing_code, decode_pairing_code}
use oxdm.Pairing.Trips.{is_portable, comes_back, decode-encode_pairing_code}

abbrev letters : List ℕ → List ℕ
letters [] = []
letters (b ∷ bs) = (b'a' + b / 16) ∷ (b'a' + b % 16) ∷ letters bs

abbrev is_letter : ℕ → Bool
is_letter c = between b'a' b'p' c

abbrev cons_byte : ℕ → ℕ → Option (List ℕ) → Option (List ℕ)
cons_byte c d none = none
cons_byte c d (some bs) =
    if is_letter c && is_letter d then some (((c - b'a') * 16 + (d - b'a')) ∷ bs) else none

abbrev bytes_of : List ℕ → Option (List ℕ)
bytes_of [] = some []
bytes_of (c ∷ []) = none
bytes_of (c ∷ d ∷ s) = cons_byte c d (bytes_of s)

abbrev two_letters : Base64
two_letters = record { encode = letters; decode = bytes_of }

bytes_of-letters : (bs : List ℕ) → All IsByte bs → bytes_of (letters bs) ≡ some bs
bytes_of-letters [] h = refl
bytes_of-letters (b ∷ bs) h =
    ap (cons_byte (b'a' + b / 16) (b'a' + b % 16)) (bytes_of-letters bs h.1) ∙ ground (arith, h.0)

same_tail :
    (c d : ℕ) (bs bytes : List ℕ) (b : ℕ) → cons_byte c d (some bs) ≡ some (b ∷ bytes) → bs ≡ bytes
same_tail c d bs bytes b k = ground (arith, k)

letters_cons :
    (c d : ℕ) (s bytes : List ℕ) (o : Option (List ℕ))
    → ((bs : List ℕ) → o ≡ some bs → (letters bs ≡ s) × All IsByte bs)
    → cons_byte c d o ≡ some bytes
    → (letters bytes ≡ c ∷ d ∷ s) × All IsByte bytes
letters_cons c d s bytes none h k = cc
letters_cons c d s [] (some bs) h k = ground (arith, k)
letters_cons c d s (b ∷ bytes) (some bs) h k = (
  ground (arith, k, h bs refl),
  (ground (arith, k), subst (All IsByte) (same_tail c d bs bytes b k) (h bs refl).1),
)

letters_canonical :
    (s bytes : List ℕ) → bytes_of s ≡ some bytes → (letters bytes ≡ s) × All IsByte bytes
letters_canonical [] [] h = (refl, tt)
letters_canonical [] (b ∷ bytes) h = cc
letters_canonical (c ∷ []) bytes h = cc
letters_canonical (c ∷ d ∷ s) bytes h =
    letters_cons c d s bytes (bytes_of s) (letters_canonical s) h

letters_plain : (bs : List ℕ) → All IsByte bs → All (λ c. is_whitespace c ≡ false) (letters bs)
letters_plain [] h = tt
letters_plain (b ∷ bs) h = (ground (arith, h.0), (ground (arith, h.0), letters_plain bs h.1))

two_letters-IsBase64 : IsBase64 two_letters
two_letters-IsBase64 = record {
  decodes = bytes_of-letters;
  canonical = letters_canonical;
  plain = letters_plain;
}

decode-encode_pairing_code_example :
    (decode_pairing_code two_letters (encode_pairing_code two_letters 9000 (b'h' ∷ b'i' ∷ []))
      ≡ comes_back two_letters two_letters-IsBase64 9000 (b'h' ∷ b'i' ∷ []))
    × ((decode_pairing_code two_letters (encode_pairing_code two_letters 9000 (b'h' ∷ b'i' ∷ []))
          ≡ some (9000, b'h' ∷ b'i' ∷ []))
        ↔ (is_portable two_letters two_letters-IsBase64 (b'h' ∷ b'i' ∷ []) ≡ true))
decode-encode_pairing_code_example =
    decode-encode_pairing_code two_letters two_letters-IsBase64 9000 (b'h' ∷ b'i' ∷ [])
      (omega arith) (refl, (refl, tt))
