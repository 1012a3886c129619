-- ===== src/State/Members/Order.antt =====
-- The order that a queue is put in.
pub mod Complete
pub mod Reordered
use oxdm.Prelude.{
  ℕ, ◌≡◌, refl, Bool, true, false, ◌&&◌, ◌||◌, List, [], ◌∷◌, ◌++◌, map, filter, any, any-append,
  contains, ◌==◌, ==→eq, ==_refl, not, Option, none, some, arith, ap, sym, subst, ◌∙◌, inl, inr,
  Bool-cases, Option-cases, if◌then◌else◌, Distinct, All,
}
use mathlib.Core.List.{append_assoc, append-nil}
use oxdm.Entry.{JobEntry}
use oxdm.Table.{job_ids, job_entry, shift_remove, move_to_back}
use oxdm.Table.Laws.{moved}
use oxdm.Table.Keyed.{job_entry-holds}
use oxdm.State.{AppState}
use oxdm.State.Members.{sits_in, listed, ordered, reinsert, reorder_queue}

-- The ids that are not among these, in their order.
abbrev pub without : List ℕ → List ℕ → List ℕ
without gone = filter (λ i. not (contains gone i))

pub all_kept : (ids : List ℕ) → without [] ids ≡ ids
all_kept [] = refl
all_kept (i ∷ ids) = ap (◌∷◌ i) (all_kept ids)

filter-absent :
    (k : ℕ) (ids : List ℕ) → contains ids k ≡ false → filter (λ i. not (i == k)) ids ≡ ids
filter-absent k [] h = refl
filter-absent k (i ∷ ids) h = ground (arith, h, filter-absent k ids)

ids-shift_remove :
    (k : ℕ) (es : List JobEntry)
    → Distinct (job_ids es)
    → job_ids (shift_remove k es) ≡ filter (λ i. not (i == k)) (job_ids es)
unfolding shift_remove
ids-shift_remove k [] d = refl
ids-shift_remove k (e ∷ es) d = elim (Bool-cases (e.job.id == k)) [
  | inl hit ↦ rw hit (
      sym (
        filter-absent k (job_ids es)
          (subst (λ i. contains (job_ids es) i ≡ false) (==→eq e.job.id k hit) d.0)))
  | inr miss ↦ rw miss (ap (◌∷◌ e.job.id) (ids-shift_remove k es d.1))
]

found_of_contains :
    (k : ℕ) (es : List JobEntry) → job_entry k es ≡ none → contains (job_ids es) k ≡ false
unfolding job_entry
found_of_contains k [] h = refl
found_of_contains k (e ∷ es) h = ground (arith, h, found_of_contains k es)

map-snoc :
    (es : List JobEntry) (e : JobEntry) → job_ids (es ++ (e ∷ [])) ≡ job_ids es ++ (e.job.id ∷ [])
map-snoc [] e = refl
map-snoc (x ∷ es) e = ap (◌∷◌ x.job.id) (map-snoc es e)

ids-move_to_back :
    (k : ℕ) (es : List JobEntry)
    → Distinct (job_ids es)
    → contains (job_ids es) k ≡ true
    → job_ids (move_to_back k es) ≡ filter (λ i. not (i == k)) (job_ids es) ++ (k ∷ [])
ids-move_to_back k es d there = elim (Option-cases (job_entry k es)) [
  | inl absent ↦ absurd (ground (arith, there, found_of_contains k es absent))
  | inr (e, found) ↦
      ap job_ids (moved k es e found)
      ∙ (map-snoc (shift_remove k es) e
          ∙ (ap (λ l. l ++ (e.job.id ∷ [])) (ids-shift_remove k es d)
              ∙ ap (λ i. filter (λ j. not (j == k)) (job_ids es) ++ (i ∷ []))
                  (==→eq e.job.id k (job_entry-holds k es e found))))
]

contains-filter :
    (p : ℕ → Bool) (ids : List ℕ) (k : ℕ) → contains (filter p ids) k ≡ (p k && contains ids k)
contains-filter p [] k = ground arith
contains-filter p (i ∷ ids) k = elim (Bool-cases (i == k)) [
  | inl same ↦ ground (arith, same, ap p (==→eq i k same), contains-filter p ids k)
  | inr off ↦ ground (arith, off, contains-filter p ids k)
]

turned : (i k : ℕ) → (i == k) ≡ (k == i)
turned i k = ground arith

without-both :
    (k : ℕ) (ks ids : List ℕ) → without ks (filter (λ i. not (i == k)) ids) ≡ without (k ∷ ks) ids
without-both k ks [] = refl
without-both k ks (i ∷ ids) = elim (Bool-cases (i == k)) [
  | inl same ↦ ground (arith, same, turned i k, without-both k ks ids)
  | inr off ↦ ground (arith, off, turned i k, without-both k ks ids)
]

without-snoc :
    (ks ids : List ℕ) (k : ℕ)
    → contains ks k ≡ false
    → without ks (ids ++ (k ∷ [])) ≡ without ks ids ++ (k ∷ [])
without-snoc ks [] k h = rw h refl
without-snoc ks (i ∷ ids) k h = ground (arith, without-snoc ks ids k h)

Distinct-filter : (p : ℕ → Bool) (ids : List ℕ) → Distinct ids → Distinct (filter p ids)
Distinct-filter p [] d = tt
Distinct-filter p (i ∷ ids) d = elim (Bool-cases (p i)) [
  | inl keeps ↦ rw keeps (contains-filter p ids i ∙ ground (arith, d.0), Distinct-filter p ids d.1)
  | inr drops ↦ rw drops (Distinct-filter p ids d.1)
]

Distinct-snoc :
    (ids : List ℕ) (k : ℕ) → Distinct ids → contains ids k ≡ false → Distinct (ids ++ (k ∷ []))
Distinct-snoc [] k d h = (refl, tt)
Distinct-snoc (i ∷ ids) k d h = (
  any-append (λ x. x == i) ids (k ∷ []) ∙ ground (arith, d.0, h, turned i k),
  Distinct-snoc ids k d.1 (ground (arith, h)),
)

abbrev pub AreIn : List ℕ → List ℕ → Type 0
AreIn ids = All (λ k. contains ids k ≡ true)

still_in :
    (k : ℕ) (ids ks : List ℕ) → AreIn ids ks → AreIn (filter (λ i. not (i == k)) ids ++ (k ∷ [])) ks
still_in k ids [] h = tt
still_in k ids (j ∷ ks) h = (
  any-append (λ x. x == j) (filter (λ i. not (i == k)) ids) (k ∷ [])
      ∙ ground (arith, contains-filter (λ i. not (i == k)) ids j, h.0, turned j k),
  still_in k ids ks h.1,
)

-- The ids that are put back are behind all others, in the order in which they are put back.
pub ids-reinsert :
    (order : List ℕ) (es : List JobEntry)
    → Distinct order
    → Distinct (job_ids es)
    → AreIn (job_ids es) order
    → job_ids (reinsert order es) ≡ without order (job_ids es) ++ order
unfolding reinsert
ids-reinsert [] es o d h = sym (append-nil (without [] (job_ids es)) ∙ all_kept (job_ids es))
ids-reinsert (k ∷ ks) es o d h =
    let ids = job_ids es in
    let rest = filter (λ i. not (i == k)) ids in
    let now = ids-move_to_back k es d h.0 in
    let fresh : contains rest k ≡ false =
      contains-filter (λ i. not (i == k)) ids k ∙ ground (arith, ==_refl k) in
    ids-reinsert ks (move_to_back k es) o.1
      (subst Distinct (sym now)
        (Distinct-snoc rest k (Distinct-filter (λ i. not (i == k)) ids d) fresh))
      (subst (λ l. AreIn l ks) (sym now) (still_in k ids ks h.1))
    ∙ (ap (λ l. without ks l ++ ks) now
        ∙ (ap (λ l. l ++ ks)
              (without-snoc ks rest k o.0 ∙ ap (λ l. l ++ (k ∷ [])) (without-both k ks ids))
            ∙ append_assoc (without (k ∷ ks) ids) (k ∷ []) ks))
