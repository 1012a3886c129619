-- ===== src/Filename/Names/Long.antt =====
-- How long a numbered name is.
use oxdm.Prelude.{
  ℕ, ◌+◌, ◌≤◌, ◌≡◌, refl, Bool, true, false, List, [], ◌∷◌, ◌++◌, arith, ap, sym, subst, inl, inr,
  Bool-cases, ltb, ◌/◌, ◌%◌,
}
use oxdm.Text.{trim}
use oxdm.Text.Utf8.{utf8_len, utf8_len-append}
use oxdm.Filename.{split_extension, is_empty}
use oxdm.Filename.Split.{split_extension_lem}
use oxdm.Filename.Names.{numbered, unique_name, decimal, digits}
use oxdm.Filename.Names.Free.{unique_name_lem}

len_underscore : (s : List ℕ) → utf8_len (b'_' ∷ s) ≡ 1 + utf8_len s
len_underscore s = refl

decimal_some : (n : ℕ) → 1 ≤ utf8_len (decimal n)
decimal_some n = elim (Bool-cases (ltb n 10)) [
  | inl small ↦ rw small (ground arith)
  | inr large ↦
      rw large (ground (arith, utf8_len-append (digits 9 (n / 10)) ((b'0' + n % 10) ∷ [])))
]

longer : (name : List ℕ) (n : ℕ) → utf8_len name + 2 ≤ utf8_len (numbered name n)
unfolding numbered
longer name n =
    let (stem, ext) = split_extension name in
    let joined : stem ++ ext ≡ name = (split_extension_lem name).0 in
    omega (
      arith,
      ap utf8_len joined,
      utf8_len-append stem ext,
      utf8_len-append stem (b'_' ∷ (decimal n ++ ext)),
      len_underscore (decimal n ++ ext),
      utf8_len-append (decimal n) ext,
      decimal_some n,
    )

-- The names that take the place of one that is taken are at least two bytes longer, however close to
-- a limit it was.
pub utf8_len-unique_name :
    (desired : List ℕ) (taken : List ℕ → Bool)
    → taken (trim desired) ≡ true
    → is_empty (trim desired) ≡ false
    → utf8_len (trim desired) + 2 ≤ utf8_len (unique_name desired taken)
utf8_len-unique_name desired taken held full = elim (unique_name_lem desired taken) [
  | inl (kept, found) ↦ absurd (ground (arith, kept, held, full))
  | inr (_, (n, found, _)) ↦
      subst (λ s. utf8_len (trim desired) + 2 ≤ utf8_len s) (sym found) (longer (trim desired) n)
]
