-- ===== src/Category/Sorted.antt =====
-- What a file can be sorted into.
use oxdm.Prelude.{
  ℕ, ◌≡◌, refl, Bool, false, ◌&&◌, ◌||◌, List, [], ◌∷◌, ◌++◌, filter, any-append, ◌==◌, ==_refl,
  ==→eq, not, some, arith, ap, sym, ◌∙◌, inl, inr, Bool-cases, if◌then◌else◌, true,
}
use oxdm.Category.{
  Category, compressed, programs, videos, music, pictures, documents, agent, others, all_visible,
  slug, from_slug, rank, same_category, has_category, Settings, category_deleted, claims,
  first_claim, get, agent_category_active, visible_categories, assignable_categories,
}

-- A slug reads back as its category.
pub from_slug-slug : (c : Category) → from_slug (slug c) ≡ some c
unfolding from_slug
from_slug-slug compressed = refl
from_slug-slug programs = refl
from_slug-slug videos = refl
from_slug-slug music = refl
from_slug-slug pictures = refl
from_slug-slug documents = refl
from_slug-slug agent = refl
from_slug-slug others = refl

-- A live category among these that claims the extension, or the rest.
abbrev pub is_pick : Settings → List ℕ → List Category → Category → Bool
unfolding category_deleted
is_pick s ext cs c =
    same_category c others
    || (not (category_deleted s c)
        && (has_category cs c && claims ext c (get c s.category_extensions)))

pub others-pick :
    (s : Settings) (ext : List ℕ) (cs : List Category) → is_pick s ext cs others ≡ true
unfolding is_pick
others-pick s ext cs = refl

pick_later :
    (s : Settings) (ext : List ℕ) (c : Category) (cs : List Category) (d : Category)
    → is_pick s ext cs d ≡ true
    → is_pick s ext (c ∷ cs) d ≡ true
unfolding is_pick
pick_later s ext c cs d h = ground (arith, h)

pick_here :
    (s : Settings) (ext : List ℕ) (c : Category) (cs : List Category)
    → category_deleted s c ≡ false
    → claims ext c (get c s.category_extensions) ≡ true
    → is_pick s ext (c ∷ cs) c ≡ true
unfolding is_pick
pick_here s ext c cs h k = ground (arith, h, k, ==_refl (rank c))

pub first_claim-pick :
    (s : Settings) (ext : List ℕ) (cs : List Category)
    → is_pick s ext cs (first_claim s ext cs) ≡ true
first_claim-pick s ext [] = others-pick s ext []
first_claim-pick s ext (c ∷ cs) =
    let later = pick_later s ext c cs (first_claim s ext cs) (first_claim-pick s ext cs) in
    elim (Bool-cases (category_deleted s c)) [
      | inl gone ↦ rw gone later
      | inr live ↦ elim (Bool-cases (claims ext c (get c s.category_extensions))) [
        | inl takes ↦ rw live (rw takes (pick_here s ext c cs live takes))
        | inr leaves ↦ rw live (rw leaves later)
      ]
    ]

of_rank : ℕ → Category
of_rank n =
    if n == 0
    then compressed
    else if n == 1
    then programs
    else if n == 2
    then videos
    else if n == 3
    then music
    else if n == 4
    then pictures
    else if n == 5
    then documents
    else if n == 6
    then agent
    else others

of_rank-rank : (c : Category) → of_rank (rank c) ≡ c
unfolding of_rank
of_rank-rank compressed = refl
of_rank-rank programs = refl
of_rank-rank videos = refl
of_rank-rank music = refl
of_rank-rank pictures = refl
of_rank-rank documents = refl
of_rank-rank agent = refl
of_rank-rank others = refl

pub same_category-eq : (c d : Category) → same_category c d ≡ true → c ≡ d
same_category-eq c d h =
    sym (of_rank-rank c) ∙ ap of_rank (==→eq (rank c) (rank d) h) ∙ of_rank-rank d

has-filter :
    (p : Category → Bool) (cs : List Category) (c : Category)
    → p c ≡ true
    → has_category cs c ≡ true
    → has_category (filter p cs) c ≡ true
has-filter p [] c h k = k
has-filter p (d ∷ cs) c h k = elim (Bool-cases (same_category c d)) [
  | inl e ↦ let here : p d ≡ true = ap p (sym (same_category-eq c d e)) ∙ h in rw here (rw e refl)
  | inr e ↦ ground (arith, e, k, has-filter p cs c h)
]

-- What is picked among the visible categories can be assigned, and is not the agents'.
abbrev pub IsPicked : Settings → List ℕ → Category → Type 0
IsPicked s ext c =
    (is_pick s ext all_visible c ≡ true)
    × (has_category (assignable_categories s) c ≡ true)
    × (same_category c agent ≡ false)

not_agent : (c : Category) → has_category all_visible c ≡ true → same_category c agent ≡ false
not_agent agent h = cc
not_agent compressed h = refl
not_agent programs h = refl
not_agent videos h = refl
not_agent music h = refl
not_agent pictures h = refl
not_agent documents h = refl
not_agent others h = refl

visible_of_pick :
    (s : Settings) (ext : List ℕ) (c : Category)
    → same_category c others ≡ false
    → is_pick s ext all_visible c ≡ true
    → (has_category all_visible c ≡ true) × (not (category_deleted s c) ≡ true)
unfolding is_pick
visible_of_pick s ext c k h = (ground (arith, k, h), ground (arith, k, h))

pub picked :
    (s : Settings) (ext : List ℕ) (c : Category)
    → is_pick s ext all_visible c ≡ true
    → IsPicked s ext c
unfolding assignable_categories visible_categories
picked s ext c h =
    let shown = filter (λ d. not (category_deleted s d)) all_visible in
    let also : List Category = if agent_category_active s then agent ∷ [] else [] in
    let outer = any-append (same_category c) (shown ++ also) (others ∷ []) in
    elim (Bool-cases (same_category c others)) [
      | inl rest ↦ (
        h,
        ground (arith, outer, rest),
        ap (λ d. same_category d agent) (same_category-eq c others rest),
      )
      | inr one ↦
          let (seen, live) = visible_of_pick s ext c one h in
          (
            h,
            ground (
              arith,
              outer,
              any-append (same_category c) shown also,
              has-filter (λ d. not (category_deleted s d)) all_visible c live seen,
            ),
            not_agent c seen,
          )
    ]
