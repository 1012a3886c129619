-- ===== src/Text/Offsets.antt =====
-- Byte offsets into a text.
use oxdm.Prelude.{
  ℕ, ◌-◌, ◌≤◌, ◌≡◌, ◌≢◌, ◌<◌, true, refl, Bool, ◌&&◌, ◌||◌, leb, ◌==◌, if◌then◌else◌, List, [], ◌∷◌,
  ◌++◌, All, arith, inl, inr, Bool-cases,
}
use oxdm.Text.Utf8.{utf8_len, len_utf8}

-- `str::is_char_boundary`.
unfoldable pub is_char_boundary : List ℕ → ℕ → Bool
is_char_boundary [] n = n == 0
is_char_boundary (c ∷ s) n =
    let rest = is_char_boundary s (n - len_utf8 c) in (n == 0) || (leb (len_utf8 c) n && rest)

-- `&s[..n]` and `&s[n..]`, at a boundary.
unfoldable pub take_bytes : ℕ → List ℕ → List ℕ
take_bytes n [] = []
take_bytes n (c ∷ s) =
    let rest = take_bytes (n - len_utf8 c) s in if leb (len_utf8 c) n then c ∷ rest else []

unfoldable pub drop_bytes : ℕ → List ℕ → List ℕ
drop_bytes n [] = []
drop_bytes n (c ∷ s) =
    let rest = drop_bytes (n - len_utf8 c) s in if leb (len_utf8 c) n then rest else c ∷ s

pub take-drop_bytes : (n : ℕ) (s : List ℕ) → take_bytes n s ++ drop_bytes n s ≡ s
unfolding take_bytes drop_bytes
take-drop_bytes n [] = refl
take-drop_bytes n (c ∷ s) = ground (arith, take-drop_bytes (n - len_utf8 c) s)

pub utf8_len-take_bytes : (n : ℕ) (s : List ℕ) → utf8_len (take_bytes n s) ≤ n
unfolding take_bytes
utf8_len-take_bytes n [] = omega arith
utf8_len-take_bytes n (c ∷ s) = ground (arith, utf8_len-take_bytes (n - len_utf8 c) s)

-- At a boundary of a text, what follows the text falls behind the cut.
pub drop_bytes-append :
    (n : ℕ) (s t : List ℕ)
    → is_char_boundary s n ≡ true
    → n < utf8_len s
    → drop_bytes n (s ++ t) ≡ drop_bytes n s ++ t
unfolding is_char_boundary drop_bytes
drop_bytes-append n [] t h k = ground (arith, h, k)
drop_bytes-append n (c ∷ s) t h k = ground (arith, h, k, drop_bytes-append (n - len_utf8 c) s t)

pub take_bytes_none :
    (n : ℕ) (s t : List ℕ)
    → is_char_boundary s n ≡ true
    → 0 < n
    → n < utf8_len s
    → take_bytes n (s ++ t) ≢ []
unfolding is_char_boundary take_bytes
take_bytes_none n [] t h p k e = ground (arith, h, k)
take_bytes_none n (c ∷ s) t h p k e = ground (arith, h, p, e)

pub drop_bytes_none : (n : ℕ) (s : List ℕ) → drop_bytes n s ≢ [] → n < utf8_len s
unfolding drop_bytes
drop_bytes_none n [] h = absurd (h refl)
drop_bytes_none n (c ∷ s) h = elim (Bool-cases (leb (len_utf8 c) n)) [
  | inl fits ↦
      let inside = drop_bytes_none (n - len_utf8 c) s (λ e. h (rw fits e)) in
      ground (arith, fits, inside)
  | inr over ↦ ground (arith, over)
]

module _ {κ} (P : ℕ → Type κ) where
  pub All-take_bytes : (n : ℕ) (s : List ℕ) → All P s → All P (take_bytes n s)
  unfolding take_bytes
  All-take_bytes n [] h = tt
  All-take_bytes n (c ∷ s) h = elim (Bool-cases (leb (len_utf8 c) n)) [
    | inl fits ↦ rw fits (h.0, All-take_bytes (n - len_utf8 c) s h.1)
    | inr over ↦ rw over tt
  ]

  pub All-drop_bytes : (n : ℕ) (s : List ℕ) → All P s → All P (drop_bytes n s)
  unfolding drop_bytes
  All-drop_bytes n [] h = tt
  All-drop_bytes n (c ∷ s) h = elim (Bool-cases (leb (len_utf8 c) n)) [
    | inl fits ↦ rw fits (All-drop_bytes (n - len_utf8 c) s h.1)
    | inr over ↦ rw over h
  ]
