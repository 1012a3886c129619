-- ===== src/Category/Canonical.antt =====
-- The category fields in canonical shape.
use oxdm.Prelude.{
  ◌≡◌, refl, true, false, ◌&&◌, ◌||◌, List, [], ◌∷◌, ◌++◌, filter, any, any-append, ◌==◌, ==→eq,
  not, none, arith, ap, ◌∙◌, inl, inr, Bool-cases, if◌then◌else◌,
}
use oxdm.Category.{
  Category, others, rank, same_category, has_category, Settings, get, category_deleted,
  deleted_once, normalize_categories,
}

same_has :
    (c d : Category) (cs : List Category)
    → same_category c d ≡ true
    → has_category cs c ≡ has_category cs d
same_has c d cs h = ap (λ r. any (λ x. r == rank x) cs) (==→eq (rank c) (rank d) h)

same_others :
    (c d : Category) → same_category c d ≡ true → same_category c others ≡ same_category d others
same_others c d h = ap (λ r. r == 7) (==→eq (rank c) (rank d) h)

-- What is marked as deleted, read off the list and what was seen before it.
has-deleted_once :
    (seen cs : List Category) (c : Category)
    → has_category (deleted_once seen cs) c
      ≡ (has_category seen c || (not (same_category c others) && has_category cs c))
unfolding deleted_once
has-deleted_once seen [] c = ground arith
has-deleted_once seen (d ∷ cs) c =
    elim (Bool-cases (not (same_category d others) && not (has_category seen d))) [
      | inl fresh ↦ rw fresh (
          has-deleted_once (seen ++ (d ∷ [])) cs c
          ∙ ground (arith, fresh, any-append (same_category c) seen (d ∷ []), same_others c d))
      | inr old ↦
          rw old
            (has-deleted_once seen cs c ∙ ground (arith, old, same_has c d seen, same_others c d))
    ]

deleted-normalize :
    (s : Settings) (c : Category)
    → category_deleted (normalize_categories s) c ≡ category_deleted s c
unfolding normalize_categories category_deleted
deleted-normalize s c = ground (arith, has-deleted_once [] s.deleted_categories c)

module _ {A : Type 0} where
  get-retained :
      (gone : List Category) (c : Category) (m : List (Category × A))
      → get c (filter (λ entry. not (has_category gone entry.0)) m)
        ≡ (if has_category gone c then none else get c m)
  get-retained gone c [] = ground arith
  get-retained gone c ((d, v) ∷ m) = elim (Bool-cases (has_category gone d)) [
    | inl off ↦ rw off (get-retained gone c m ∙ ground (arith, off, same_has c d gone))
    | inr on ↦ rw on (ground (arith, on, same_has c d gone, get-retained gone c m))
  ]

turned : (c d : Category) → same_category c d ≡ same_category d c
turned c d = ground arith

-- No category is listed twice, and the rest is not listed.
abbrev pub IsProper : List Category → Type 0
IsProper [] = Unit {0}
IsProper (c ∷ cs) = (same_category c others ≡ false) × (has_category cs c ≡ false) × IsProper cs

IsProper-snoc :
    (cs : List Category) (c : Category)
    → IsProper cs
    → same_category c others ≡ false
    → has_category cs c ≡ false
    → IsProper (cs ++ (c ∷ []))
IsProper-snoc [] c p o h = (o, refl, tt)
IsProper-snoc (d ∷ cs) c p o h = (
  p.0,
  any-append (same_category d) cs (c ∷ []) ∙ ground (arith, p.1, h, turned d c),
  IsProper-snoc cs c p.2 o (ground (arith, h)),
)

deleted_once-IsProper : (seen cs : List Category) → IsProper seen → IsProper (deleted_once seen cs)
unfolding deleted_once
deleted_once-IsProper seen [] p = p
deleted_once-IsProper seen (c ∷ cs) p =
    elim (Bool-cases (not (same_category c others) && not (has_category seen c))) [
      | inl fresh ↦ rw fresh (
          deleted_once-IsProper (seen ++ (c ∷ [])) cs
            (IsProper-snoc seen c p (ground (arith, fresh)) (ground (arith, fresh))))
      | inr old ↦ rw old (deleted_once-IsProper seen cs p)
    ]

-- In canonical shape no category is listed as deleted twice, and the rest never; the same categories
-- are deleted as before; what a deleted category had set is gone, and all that another had set is kept.
pub normalize_categories_lem :
    (s : Settings)
    → let n = normalize_categories s in
      IsProper n.deleted_categories
      × ((c : Category)
          → (category_deleted n c ≡ category_deleted s c)
            × (get c n.category_extensions
                ≡ (if category_deleted s c then none else get c s.category_extensions))
            × (get c n.category_folders
                ≡ (if category_deleted s c then none else get c s.category_folders))
            × (get c n.category_queues
                ≡ (if category_deleted s c then none else get c s.category_queues)))
unfolding normalize_categories category_deleted
normalize_categories_lem s =
    let gone = deleted_once [] s.deleted_categories in
    (
      deleted_once-IsProper [] s.deleted_categories tt,
      λ c.
          let marked : has_category gone c ≡ category_deleted s c =
            has-deleted_once [] s.deleted_categories c in
          (
            deleted-normalize s c,
            get-retained gone c s.category_extensions
                ∙ ap (λ b. if b then none else get c s.category_extensions) marked,
            get-retained gone c s.category_folders
                ∙ ap (λ b. if b then none else get c s.category_folders) marked,
            get-retained gone c s.category_queues
                ∙ ap (λ b. if b then none else get c s.category_queues) marked,
          ),
    )
