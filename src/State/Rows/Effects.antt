-- ===== src/State/Rows/Effects.antt =====
-- Rows that are merged.
use oxdm.Prelude.{
  ◌≡◌, refl, Bool, true, false, List, [], ◌∷◌, ◌++◌, any, any-append, same_text_refl, map, arith,
  sym, subst, ◌∙◌, inl, inr, Bool-cases, if◌then◌else◌, All,
}
use mathlib.Core.List.{append_assoc, append-nil}
use oxdm.Text.{ascii_lower}
use oxdm.Checksum.{Checksum, Algo, same_algo, md5, sha1, sha256, sha384, sha512}
use oxdm.State.Rows.{merge_checksums, same_row}

abbrev pub knows : List Checksum → Checksum → Bool
knows rows c = any (λ k. same_row k c) rows

same_algo_refl : (a : Algo) → same_algo a a ≡ true
same_algo_refl md5 = refl
same_algo_refl sha1 = refl
same_algo_refl sha256 = refl
same_algo_refl sha384 = refl
same_algo_refl sha512 = refl

same_row_refl : (c : Checksum) → same_row c c ≡ true
same_row_refl c = rw (same_algo_refl c.algo) (same_text_refl (map ascii_lower c.hash))

abbrev grown : List Checksum → Checksum → List Checksum
grown rows c = if knows rows c then rows else rows ++ (c ∷ [])

grown-knows : (rows : List Checksum) (c : Checksum) → knows (grown rows c) c ≡ true
grown-knows rows c = elim (Bool-cases (knows rows c)) [
  | inl old ↦ rw old old
  | inr new ↦
      rw new (any-append (λ k. same_row k c) rows (c ∷ []) ∙ ground (arith, new, same_row_refl c))
]

-- What the rows had is kept in front.
abbrev pub IsLonger : List Checksum → List Checksum → Bool → Type 0
IsLonger rows more added =
    (extra : List Checksum) × (more ≡ rows ++ extra)
    × (added ≡ (elim extra [ [] ↦ false | _ ↦ true ]))

merged :
    (rows incoming : List Checksum)
    → IsLonger rows (merge_checksums rows incoming).0 (merge_checksums rows incoming).1
unfolding merge_checksums
merged rows [] = ([], sym (append-nil rows), refl)
merged rows (c ∷ incoming) = elim (Bool-cases (knows rows c)) [
  | inl old ↦ rw old (merged rows incoming)
  | inr new ↦
      let (extra, kept, _) = merged (rows ++ (c ∷ [])) incoming in
      rw new (c ∷ extra, kept ∙ append_assoc rows (c ∷ []) extra, refl)
]

still_known :
    (rows incoming : List Checksum) (d : Checksum)
    → knows rows d ≡ true
    → knows (merge_checksums rows incoming).0 d ≡ true
still_known rows incoming d h =
    let (extra, kept, _) = merged rows incoming in
    subst (λ r. knows r d ≡ true) (sym kept)
      (any-append (λ k. same_row k d) rows extra ∙ ground (arith, h))

merged_knows :
    (rows incoming : List Checksum)
    → All (λ c. knows (merge_checksums rows incoming).0 c ≡ true) incoming
unfolding merge_checksums
merged_knows rows [] = tt
merged_knows rows (c ∷ incoming) = (
  still_known (grown rows c) incoming c (grown-knows rows c),
  merged_knows (grown rows c) incoming,
)

nothing_new :
    (rows incoming : List Checksum)
    → All (λ c. knows rows c ≡ true) incoming
    → merge_checksums rows incoming ≡ (rows, false)
unfolding merge_checksums
nothing_new rows [] h = refl
nothing_new rows (c ∷ incoming) h = rw (h.0) (rw (nothing_new rows incoming h.1) refl)

-- A merge keeps every row as it is, its verdict included, and puts new ones behind; it says that it
-- added some exactly when it did; each row that came in is known after it; and to merge the same
-- rows once more changes nothing.
pub merge_checksums_lem :
    (rows incoming : List Checksum)
    → let (more, added) = merge_checksums rows incoming in
      IsLonger rows more added
      × All (λ c. knows more c ≡ true) incoming
      × (merge_checksums more incoming ≡ (more, false))
merge_checksums_lem rows incoming =
    let known = merged_knows rows incoming in
    (merged rows incoming, known, nothing_new (merge_checksums rows incoming).0 incoming known)
