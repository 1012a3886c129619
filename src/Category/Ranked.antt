-- ===== src/Category/Ranked.antt =====
-- The category that comes first.
use oxdm.Prelude.{
  ℕ, ◌≡◌, refl, Bool, false, ◌&&◌, List, [], ◌∷◌, map, ==→eq, not, arith, ap, sym, ◌∙◌, inl, inr,
  Bool-cases, if◌then◌else◌, ◌≤◌, ◌≢◌, suc, true, subst,
}
use oxdm.Filename.{at_last_dot, is_empty}
use oxdm.Text.{ascii_lower}
use oxdm.Category.{
  Category, others, all_visible, rank, same_category, has_category, Settings, category_deleted,
  claims, first_claim, get, behind_dot, classify,
}
use oxdm.Category.Sorted.{same_category-eq, others-pick, first_claim-pick, picked, IsPicked}

-- What takes the extension, of those that the user has not deleted.
abbrev pub would_take : Settings → List ℕ → Category → Bool
would_take s ext d = not (category_deleted s d) && claims ext d (get d s.category_extensions)

one_claim :
    (s : Settings) (ext : List ℕ) (c : Category) (cs : List Category)
    → first_claim s ext (c ∷ cs) ≡ (if would_take s ext c then c else first_claim s ext cs)
one_claim s ext c cs = elim (Bool-cases (category_deleted s c)) [
  | inl gone ↦ rw gone
  | inr live ↦ elim (Bool-cases (claims ext c (get c s.category_extensions))) [
    | inl takes ↦ rw live (rw takes)
    | inr leaves ↦ rw live (rw leaves)
  ]
]

-- The ranks of the list rise, from this one on.
abbrev IsRising : ℕ → List Category → Type 0
IsRising n [] = Unit
IsRising n (c ∷ cs) = (n ≤ rank c) × IsRising (suc (rank c)) cs

rising_from :
    (n : ℕ) (cs : List Category) (d : Category)
    → IsRising n cs
    → has_category cs d ≡ true
    → n ≤ rank d
rising_from n [] d up there = cc
rising_from n (c ∷ cs) d up there = elim (Bool-cases (same_category d c)) [
  | inl same ↦ omega (arith, up.0, ==→eq (rank d) (rank c) same)
  | inr other ↦
      omega (arith, up.0, rising_from (suc (rank c)) cs d up.1 (ground (arith, other, there)))
]

rising_at :
    (n : ℕ) (c : Category) (cs : List Category) (d : Category)
    → IsRising n (c ∷ cs)
    → has_category (c ∷ cs) d ≡ true
    → rank c ≤ rank d
rising_at n c cs d up there = rising_from (rank c) (c ∷ cs) d (omega arith, up.1) there

subst_taken :
    (s : Settings) (ext : List ℕ) (d c : Category)
    → d ≡ c
    → would_take s ext d ≡ true
    → would_take s ext c ≢ false
subst_taken s ext d c e takes skips = let k = ap (would_take s ext) e in cc

-- No category of the list that would take the extension comes before the one that is picked.
first_claim-first :
    (s : Settings) (ext : List ℕ) (n : ℕ) (cs : List Category) (d : Category)
    → IsRising n cs
    → has_category cs d ≡ true
    → would_take s ext d ≡ true
    → rank (first_claim s ext cs) ≤ rank d
unfolding category_deleted
first_claim-first s ext n [] d up there takes = cc
first_claim-first s ext n (c ∷ cs) d up there takes = elim (Bool-cases (would_take s ext c)) [
  | inl here ↦
      subst (λ f. rank f ≤ rank d) (sym (one_claim s ext c cs ∙ rw here))
        (rising_at n c cs d up there)
  | inr skips ↦ elim (Bool-cases (same_category d c)) [
    | inl same ↦ absurd (subst_taken s ext d c (same_category-eq d c same) takes skips)
    | inr other ↦
        subst (λ f. rank f ≤ rank d) (sym (one_claim s ext c cs ∙ rw skips))
          (first_claim-first s ext (suc (rank c)) cs d up.1 (ground (arith, other, there)) takes)
  ]
]

rising : IsRising 0 all_visible
rising = ground arith

-- A file goes into a category that the user can pick and that claims its extension, whatever the
-- case of its letters, and never into the agents' category: into the first of those that are not
-- deleted and claim it, in the order that the user sees, and into the rest only where none does or
-- where there is no extension.
pub classify_lem :
    (filename : List ℕ) (s : Settings)
    → let ext = behind_dot (at_last_dot filename) in
      let low = map ascii_lower ext in
      IsPicked s low (classify filename s)
      × (is_empty ext ≡ true → classify filename s ≡ others)
      × (is_empty ext ≡ false
          → (d : Category) → has_category all_visible d ≡ true
          → would_take s low d ≡ true
          → rank (classify filename s) ≤ rank d)
unfolding classify
classify_lem filename s =
    let ext = behind_dot (at_last_dot filename) in
    let low = map ascii_lower ext in
    elim (Bool-cases (is_empty ext)) [
      | inl bare ↦
          rw bare (picked s low others (others-pick s low all_visible), (λ h. refl), (λ h. cc))
      | inr full ↦ rw full (
        picked s low (first_claim s low all_visible) (first_claim-pick s low all_visible),
        (λ h. cc),
        (λ h d there takes. first_claim-first s low 0 all_visible d rising there takes),
      )
    ]
