-- ===== src/Filename/Split.antt =====
-- A name and its extension.
use oxdm.Prelude.{
  ℕ, ◌-◌, ◌≡◌, ◌≢◌, ◌<◌, refl, Bool, true, List, [], ◌∷◌, ◌++◌, ◌==◌, map, same_text, codes, Option,
  none, some, arith, ap, sym, ◌∙◌, inl, inr, Bool-cases, if◌then◌else◌,
}
use mathlib.Core.List.{append-nil}
use oxdm.Text.{ascii_lower}
use oxdm.Text.Utf8.{utf8_len}
use oxdm.Text.Offsets.{
  take_bytes, drop_bytes, take-drop_bytes, drop_bytes-append, take_bytes_none, drop_bytes_none,
}
use oxdm.Filename.{split_found, cons_dot, at_last_dot, split_extension, is_tarball}

-- Nothing, or a dot and what follows it.
abbrev pub is_dotted : List ℕ → Bool
is_dotted [] = true
is_dotted (c ∷ s) = c == b'.'

cons_dot_splits :
    (c : ℕ) (s stem ext : List ℕ) (o : Option (List ℕ × List ℕ))
    → ((a b : List ℕ) → o ≡ some (a, b) → (a ++ b ≡ s) × (is_dotted b ≡ true))
    → cons_dot c s o ≡ some (stem, ext)
    → (stem ++ ext ≡ c ∷ s) × (is_dotted ext ≡ true)
cons_dot_splits c s [] ext none h k = (ground (arith, k), ground (arith, k))
cons_dot_splits c s (d ∷ stem) ext none h k = absurd (ground (arith, k))
cons_dot_splits c s [] ext (some (a, b)) h k = cc
cons_dot_splits c s (d ∷ stem) ext (some (a, b)) h k =
    (ground (arith, k, h a b refl), ground (arith, k, h a b refl))

dot_splits :
    (s stem ext : List ℕ)
    → at_last_dot s ≡ some (stem, ext)
    → (stem ++ ext ≡ s) × (is_dotted ext ≡ true)
unfolding at_last_dot
dot_splits [] stem ext h = cc
dot_splits (c ∷ s) stem ext h = cons_dot_splits c s stem ext (at_last_dot s) (dot_splits s) h

-- What is behind a cut that leaves `.tar` begins with its dot.
tar_is_dotted :
    (s : List ℕ)
    → same_text (map ascii_lower s) (codes ".tar") ≡ true
    → (s ≢ []) × (is_dotted s ≡ true)
tar_is_dotted [] h = cc
tar_is_dotted (c ∷ s) h = ((λ e. cc), ground (arith, h))

dotted-append : (s t : List ℕ) → s ≢ [] → is_dotted s ≡ true → is_dotted (s ++ t) ≡ true
dotted-append [] t n h = absurd (n refl)
dotted-append (c ∷ s) t n h = h

abbrev pub IsSplit : List ℕ → List ℕ × List ℕ → Type 0
IsSplit name (stem, ext) = (stem ++ ext ≡ name) × (is_dotted ext ≡ true) × (name ≢ [] → stem ≢ [])

IsSplit-at_tar :
    (tar c : ℕ) (s ext name : List ℕ)
    → (c ∷ s) ++ ext ≡ name
    → is_tarball tar (c ∷ s) ≡ true
    → IsSplit name (take_bytes tar name, drop_bytes tar name)
IsSplit-at_tar tar c s ext name e h =
    let stem = c ∷ s in
    let (full, dot) = tar_is_dotted (drop_bytes tar stem) (ground (arith, h)) in
    let inside : tar < utf8_len stem = drop_bytes_none tar stem full in
    let tail : drop_bytes tar name ≡ drop_bytes tar stem ++ ext =
      ap (drop_bytes tar) (sym e) ∙ drop_bytes-append tar stem ext (ground (arith, h)) inside in
    (
      take-drop_bytes tar name,
      ap is_dotted tail ∙ dotted-append (drop_bytes tar stem) ext full dot,
      λ n m.
          take_bytes_none tar stem ext (ground (arith, h)) (ground (arith, h)) inside
            (ap (take_bytes tar) e ∙ m),
    )

IsSplit-at_dot :
    (c : ℕ) (s ext name : List ℕ)
    → (c ∷ s) ++ ext ≡ name
    → is_dotted ext ≡ true
    → let tar = utf8_len (c ∷ s) - 4 in
      IsSplit name (
        if is_tarball tar (c ∷ s) then (take_bytes tar name, drop_bytes tar name) else (c ∷ s, ext))
IsSplit-at_dot c s ext name e d =
    let tar = utf8_len (c ∷ s) - 4 in
    elim (Bool-cases (is_tarball tar (c ∷ s))) [
      | inl both ↦ rw both (IsSplit-at_tar tar c s ext name e both)
      | inr one ↦ rw one (e, d, λ n m. cc)
    ]

split_found_lem :
    (name : List ℕ) (o : Option (List ℕ × List ℕ))
    → ((a b : List ℕ) → o ≡ some (a, b) → (a ++ b ≡ name) × (is_dotted b ≡ true))
    → IsSplit name (split_found name o)
split_found_lem name none h = (append-nil name, refl, λ n. n)
split_found_lem name (some ([], ext)) h = (append-nil name, refl, λ n. n)
split_found_lem name (some (c ∷ s, ext)) h =
    let (joins, dotted) = h (c ∷ s) ext refl in IsSplit-at_dot c s ext name joins dotted

-- A name is its stem and its extension put together; the extension is empty or begins with a dot;
-- and only an empty name has an empty stem.
pub split_extension_lem : (name : List ℕ) → IsSplit name (split_extension name)
unfolding split_extension
split_extension_lem name = split_found_lem name (at_last_dot name) (dot_splits name)
