-- ===== src/Table/Keyed.antt =====
-- The keys of the table: no id stands twice, which an `IndexMap` sees to.
use oxdm.Prelude.{
  ℕ, ◌≤◌, ◌≡◌, refl, Bool, true, false, none, some, List, [], ◌∷◌, filter, arith, ◌==◌, ==_refl,
  if◌then◌else◌, inl, inr, Bool-cases, ◌&&◌, count, contains,
}
use oxdm.Entry.{JobEntry}
use oxdm.Table.{job_ids, job_entry, update, move_to_back}
use oxdm.Table.Laws.{KeepsId, count-update, count-update_same, count-move_to_back}

abbrev pub has_id : ℕ → JobEntry → Bool
has_id k e = e.job.id == k

abbrev pub IsKeyed : List JobEntry → Type 0
IsKeyed es = (k : ℕ) → count (has_id k) es ≤ 1

-- How many entries with this id pass the test.
abbrev pub passing : (JobEntry → Bool) → ℕ → List JobEntry → ℕ
passing p k = count (λ e. p e && has_id k e)

pub IsKeyed-update :
    (k : ℕ) (f : JobEntry → JobEntry) (es : List JobEntry)
    → KeepsId f
    → IsKeyed es
    → IsKeyed (update k f es)
IsKeyed-update k f es h keyed j =
    omega (arith, keyed j, count-update_same (has_id j) k f es (λ e. rw (h e)))

pub IsKeyed-move_to_back : (k : ℕ) (es : List JobEntry) → IsKeyed es → IsKeyed (move_to_back k es)
IsKeyed-move_to_back k es keyed j = omega (arith, keyed j, count-move_to_back (has_id j) k es)

passing_le :
    (p : JobEntry → Bool) (k : ℕ) (es : List JobEntry) → passing p k es ≤ count (has_id k) es
passing_le p k [] = omega arith
passing_le p k (e ∷ es) = ground (arith, passing_le p k es)

count-missing : (k : ℕ) (es : List JobEntry) → job_entry k es ≡ none → count (has_id k) es ≡ 0
unfolding job_entry
count-missing k [] h = refl
count-missing k (e ∷ es) h = ground (arith, h, count-missing k es)

pub passing-missing :
    (p : JobEntry → Bool) (k : ℕ) (es : List JobEntry) → job_entry k es ≡ none → passing p k es ≡ 0
passing-missing p k es h = omega (arith, passing_le p k es, count-missing k es h)

pub passing-found :
    (p : JobEntry → Bool) (k : ℕ) (es : List JobEntry) (e : JobEntry)
    → IsKeyed es
    → job_entry k es ≡ some e
    → passing p k es ≡ (if p e then 1 else 0)
unfolding job_entry
passing-found p k [] e keyed h = cc
passing-found p k (x ∷ es) e keyed h = elim (Bool-cases (x.job.id == k)) [
  | inl hit ↦ ground (arith, h, hit, passing_le p k es, keyed k)
  | inr miss ↦ ground (arith, h, miss, passing-found p k es e (λ j. ground (arith, keyed j)))
]

pub job_entry-holds :
    (k : ℕ) (es : List JobEntry) (e : JobEntry) → job_entry k es ≡ some e → has_id k e ≡ true
unfolding job_entry
job_entry-holds k [] e h = cc
job_entry-holds k (x ∷ es) e h = elim (Bool-cases (x.job.id == k)) [
  | inl hit ↦ ground (arith, h, hit)
  | inr miss ↦ ground (arith, h, miss, job_entry-holds k es e)
]

-- Once the one entry of this id fails the test, none passes it.
pub passing-update :
    (p : JobEntry → Bool) (k : ℕ) (f : JobEntry → JobEntry) (es : List JobEntry) (e : JobEntry)
    → IsKeyed es
    → job_entry k es ≡ some e
    → p (f e) ≡ false
    → passing p k (update k f es) ≡ 0
passing-update p k f es e keyed h miss = ground (
  arith,
  miss,
  passing-found p k es e keyed h,
  job_entry-holds k es e h,
  count-update (λ d. p d && has_id k d) k f es e h,
)

pub passing_listed :
    (p : JobEntry → Bool) (k : ℕ) (es : List JobEntry)
    → contains (job_ids (filter p es)) k ≡ false
    → passing p k es ≡ 0
passing_listed p k [] h = refl
passing_listed p k (e ∷ es) h = ground (arith, h, passing_listed p k es)

-- A test that no id passes keeps nothing.
pub filter-none :
    (p : JobEntry → Bool) (es : List JobEntry) → ((k : ℕ) → passing p k es ≡ 0) → filter p es ≡ []
filter-none p [] h = refl
filter-none p (e ∷ es) h =
    ground (arith, h e.job.id, ==_refl e.job.id, filter-none p es (λ k. ground (arith, h k)))
