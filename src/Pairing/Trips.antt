-- ===== src/Pairing/Trips.antt =====
-- A pairing code read back.
use oxdm.Prelude.{
  ℕ, ◌/◌, ◌%◌, ◌<◌, ◌≡◌, ◌↔◌, ◌≢◌, subst, refl, arith, Bool, true, false, ◌||◌, List, [], ◌∷◌, ◌++◌,
  length, ◌==◌, not, ap, sym, ◌∙◌, inl, inr, Bool-cases, Option, none, some, All, All-append,
  if◌then◌else◌,
}
use oxdm.Text.{strip_prefix, trim_plain}
use oxdm.Text.Utf8.{as_bytes, from_utf8, IsByte, IsScalar, from_utf8-as_bytes, as_bytes-IsByte}
use oxdm.Pairing.{
  Base64, IsBase64, encode_pairing_code, decode_pairing_code, read_pairing, or_empty,
  pairing_prefix, to_be_bytes, from_be_bytes,
}

decoded : (o : Option (List ℕ)) → (length (or_empty o) == 32) ≡ true → o ≡ some (or_empty o)
decoded none h = cc
decoded (some bytes) h = refl

module _ (b64 : Base64) (laws : IsBase64 b64) where
  -- Tokens of 32 bytes, the daemon's own, and texts of any length but 0 and 32 bytes.
  abbrev pub is_portable : List ℕ → Bool
  is_portable token =
      (length (or_empty (b64.decode token)) == 32)
      || not ((length (as_bytes token) == 0) || (length (as_bytes token) == 32))

  read_encoded :
      (raw : List ℕ)
      → All IsByte raw
      → decode_pairing_code b64 (pairing_prefix ++ b64.encode raw) ≡ read_pairing b64 raw
  unfolding decode_pairing_code strip_prefix
  read_encoded raw h =
      rw (trim_plain (b64.encode raw) (laws.plain raw h)) (rw (laws.decodes raw h) refl)

  port_bytes : (port : ℕ) → port < 65536 → All IsByte (to_be_bytes port)
  port_bytes port h = (omega arith, (omega arith, tt))

  port_back : (port : ℕ) → from_be_bytes (port / 256) (port % 256) ≡ port
  port_back port = omega arith

  -- The canonical form.
  read_token :
      (port : ℕ) (token bytes : List ℕ)
      → b64.decode token ≡ some bytes
      → (length bytes == 32) ≡ true
      → read_pairing b64 (to_be_bytes port ++ bytes) ≡ some (port, token)
  read_token port token [] e h = cc
  read_token port token (b ∷ rest) e h =
      let here : (length rest == 31) ≡ true = ground (arith, h) in
      rw here (rw (port_back port) (ap (λ t. some (port, t)) (laws.canonical token (b ∷ rest) e).0))

  -- Bytes that the token does not decode to are not encoded as the token.
  own_bytes :
      (token bytes : List ℕ)
      → All IsByte bytes
      → (length (or_empty (b64.decode token)) == 32) ≡ false
      → (length bytes == 32) ≡ true
      → b64.encode bytes ≢ token
  own_bytes token bytes bs h same k =
      let back : b64.decode token ≡ some bytes = ap b64.decode (sym k) ∙ laws.decodes bytes bs in
      let off : (length bytes == 32) ≡ false =
        subst (λ d. (length (or_empty d) == 32) ≡ false) back h in
      cc

  second :
      {n port : ℕ} {s t : List ℕ}
      → ◌≡◌ {A = Option (ℕ × List ℕ)} (some (n, s)) (some (port, t))
      → s ≡ t
  second k = cc

  -- The fallback form.
  read_text :
      (port : ℕ) (token bytes : List ℕ)
      → bytes ≡ as_bytes token
      → All IsByte bytes
      → All IsScalar token
      → (length (or_empty (b64.decode token)) == 32) ≡ false
      → (read_pairing b64 (to_be_bytes port ++ bytes) ≡ some (port, token))
        ↔ (not ((length bytes == 0) || (length bytes == 32)) ≡ true)
  read_text port token [] e bs s h = ((λ k. cc), (λ k. cc))
  read_text port token (b ∷ rest) e bs s h = elim (Bool-cases (length rest == 31)) [
    | inl same ↦ rw same (
      (λ k. absurd (own_bytes token (b ∷ rest) bs h (ground (arith, same)) (second k))),
      (λ k. ground (arith, k, same)),
    )
    | inr differs ↦ rw differs (
      (λ k. ground (arith, differs)),
      (λ k. rw (ap from_utf8 e ∙ from_utf8-as_bytes token s) (rw (port_back port) refl)),
    )
  ]

  decode-encode_iff :
      (port : ℕ) (token : List ℕ)
      → port < 65536
      → All IsScalar token
      → (decode_pairing_code b64 (encode_pairing_code b64 port token) ≡ some (port, token))
        ↔ (is_portable token ≡ true)
  unfolding encode_pairing_code
  decode-encode_iff port token p s =
      let bytes = or_empty (b64.decode token) in
      elim (Bool-cases (length bytes == 32)) [
        | inl long ↦
            let e = decoded (b64.decode token) long in
            let bs = (laws.canonical token bytes e).1 in
            let raw = to_be_bytes port ++ bytes in
            let all = All-append IsByte (to_be_bytes port) bytes (port_bytes port p) bs in
            rw long ((λ k. refl), (λ k. read_encoded raw all ∙ read_token port token bytes e long))
        | inr other ↦
            let text = as_bytes token in
            let bs = as_bytes-IsByte token s in
            let raw = to_be_bytes port ++ text in
            let all = All-append IsByte (to_be_bytes port) text (port_bytes port p) bs in
            let (there, back) = read_text port token text refl bs s other in
            rw other
              ((λ k. there (sym (read_encoded raw all) ∙ k)), (λ k. read_encoded raw all ∙ back k))
      ]

  -- What the two other texts come back as: nothing, and the encoding of their bytes.
  abbrev pub comes_back : ℕ → List ℕ → Option (ℕ × List ℕ)
  comes_back port token =
      if is_portable token
      then some (port, token)
      else if length (as_bytes token) == 0
      then none
      else some (port, b64.encode (as_bytes token))

  read_other :
      (port : ℕ) (bytes : List ℕ)
      → not ((length bytes == 0) || (length bytes == 32)) ≡ false
      → read_pairing b64 (to_be_bytes port ++ bytes)
        ≡ (if length bytes == 0 then none else some (port, b64.encode bytes))
  read_other port [] h = refl
  read_other port (b ∷ rest) h =
      let here : (length rest == 31) ≡ true = ground (arith, h) in
      let full : (length (b ∷ rest) == 0) ≡ false = ground arith in
      rw here (rw full (rw (port_back port) refl))

  not_portable :
      (port : ℕ) (token : List ℕ)
      → port < 65536
      → All IsScalar token
      → is_portable token ≡ false
      → decode_pairing_code b64 (encode_pairing_code b64 port token)
        ≡ (if length (as_bytes token) == 0 then none else some (port, b64.encode (as_bytes token)))
  unfolding encode_pairing_code
  not_portable port token p s stays =
      let text = as_bytes token in
      let raw = to_be_bytes port ++ text in
      let bs =
        All-append IsByte (to_be_bytes port) text (port_bytes port p) (as_bytes-IsByte token s) in
      let short : (length (or_empty (b64.decode token)) == 32) ≡ false = ground (arith, stays) in
      rw short (read_encoded raw bs ∙ read_other port text (ground (arith, stays, short)))

  -- A code that is read back is the port and the token, but for a text that is no token and is empty or
  -- of exactly 32 bytes: of these the first is refused, and the second comes back as the encoding of
  -- its bytes, which is another text. The port is a `u16` and the token a text.
  pub decode-encode_pairing_code :
      (port : ℕ) (token : List ℕ)
      → port < 65536
      → All IsScalar token
      → (decode_pairing_code b64 (encode_pairing_code b64 port token) ≡ comes_back port token)
        × ((decode_pairing_code b64 (encode_pairing_code b64 port token) ≡ some (port, token))
            ↔ (is_portable token ≡ true))
  decode-encode_pairing_code port token p s = (
    elim (Bool-cases (is_portable token)) [
      | inl goes ↦ (decode-encode_iff port token p s).1 goes ∙ rw goes
      | inr stays ↦ not_portable port token p s stays ∙ rw stays
    ],
    decode-encode_iff port token p s,
  )
