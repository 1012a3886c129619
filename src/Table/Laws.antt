-- ===== src/Table/Laws.antt =====
-- What a write to one entry does to the table.
use oxdm.Prelude.{
  ℕ, ◌+◌, ◌≤◌, true, ◌≡◌, refl, Bool, none, some, List, [], ◌∷◌, ◌++◌, arith, ◌==◌, if◌then◌else◌,
  ◌∙◌, ap, inl, inr, Option-cases, Bool-cases, count, count-append,
}
use mathlib.Core.Option
use oxdm.Entry.{JobEntry}
use oxdm.Table.{job_ids, job_entry, update, shift_remove, move_to_back, put_back}

-- A write that leaves the job's id alone.
abbrev pub KeepsId : (JobEntry → JobEntry) → Type 0
KeepsId f = (e : JobEntry) → (f e).job.id ≡ e.job.id

pub job_ids-update :
    (k : ℕ) (f : JobEntry → JobEntry) (es : List JobEntry)
    → KeepsId f
    → job_ids (update k f es) ≡ job_ids es
unfolding update
job_ids-update k f [] h = refl
job_ids-update k f (e ∷ es) h = ground (arith, h e, job_ids-update k f es h)

pub job_entry-update :
    (k j : ℕ) (f : JobEntry → JobEntry) (es : List JobEntry)
    → KeepsId f
    → job_entry j (update k f es)
      ≡ (if k == j then Option.map f (job_entry j es) else job_entry j es)
unfolding update job_entry
job_entry-update k j f [] h = ground arith
job_entry-update k j f (e ∷ es) h = ground (arith, h e, job_entry-update k j f es h)

-- How a write changes a count.
pub count-update :
    (p : JobEntry → Bool) (k : ℕ) (f : JobEntry → JobEntry) (es : List JobEntry) (e : JobEntry)
    → job_entry k es ≡ some e
    → count p (update k f es) + (if p e then 1 else 0) ≡ count p es + (if p (f e) then 1 else 0)
unfolding update job_entry
count-update p k f [] e h = cc
count-update p k f (x ∷ es) e h = elim (Bool-cases (x.job.id == k)) [
  | inl hit ↦ ground (arith, h, hit)
  | inr miss ↦ ground (arith, h, miss, count-update p k f es e)
]

pub update_missing :
    (k : ℕ) (f : JobEntry → JobEntry) (es : List JobEntry)
    → job_entry k es ≡ none
    → update k f es ≡ es
unfolding update job_entry
update_missing k f [] h = refl
update_missing k f (e ∷ es) h = ground (arith, update_missing k f es)

-- Sending an entry to the back keeps every count.
count-shift_remove :
    (p : JobEntry → Bool) (k : ℕ) (es : List JobEntry) (e : JobEntry)
    → job_entry k es ≡ some e
    → count p (shift_remove k es) + (if p e then 1 else 0) ≡ count p es
unfolding shift_remove job_entry
count-shift_remove p k [] e h = cc
count-shift_remove p k (x ∷ es) e h = elim (Bool-cases (x.job.id == k)) [
  | inl hit ↦ ground (arith, h, hit)
  | inr miss ↦ ground (arith, h, miss, count-shift_remove p k es e)
]

pub moved :
    (k : ℕ) (es : List JobEntry) (e : JobEntry)
    → job_entry k es ≡ some e
    → move_to_back k es ≡ shift_remove k es ++ e ∷ []
unfolding move_to_back
moved k es e h = rw (h, put_back)

pub count-move_to_back :
    (p : JobEntry → Bool) (k : ℕ) (es : List JobEntry) → count p (move_to_back k es) ≡ count p es
unfolding move_to_back
count-move_to_back p k es = elim (Option-cases (job_entry k es)) [
  | inl e ↦ ap (count p) (rw (e, put_back))
  | inr (x, e) ↦
      ap (count p) (moved k es x e)
      ∙ omega (arith, count-append p (shift_remove k es) (x ∷ []), count-shift_remove p k es x e)
]

module _ (p : JobEntry → Bool) (k : ℕ) (f : JobEntry → JobEntry) where
  pub count-update_same :
      (es : List JobEntry) → ((e : JobEntry) → p (f e) ≡ p e) → count p (update k f es) ≡ count p es
  unfolding update
  count-update_same [] h = refl
  count-update_same (e ∷ es) h = ground (arith, h e, count-update_same es h)

  pub count-update_le :
      (es : List JobEntry)
      → ((e : JobEntry) → p (f e) ≡ true → p e ≡ true)
      → count p (update k f es) ≤ count p es
  unfolding update
  count-update_le [] h = omega arith
  count-update_le (e ∷ es) h = ground (arith, h e, count-update_le es h)

  pub count-update_le_suc : (es : List JobEntry) → count p (update k f es) ≤ count p es + 1
  unfolding update
  count-update_le_suc [] = omega arith
  count-update_le_suc (e ∷ es) = ground (arith, count-update_le_suc es)
