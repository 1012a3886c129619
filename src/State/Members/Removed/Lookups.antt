-- ===== src/State/Members/Removed/Lookups.antt =====
-- What is left after a removal.
use oxdm.Prelude.{
  ℕ, ◌+◌, ◌≤◌, ◌≡◌, refl, Bool, true, false, ◌&&◌, ◌||◌, List, [], ◌∷◌, filter, contains, count,
  ◌==◌, ==→eq, not, Option, none, some, arith, ap, sym, subst, ◌∙◌, inl, inr, Bool-cases,
  Option-cases, if◌then◌else◌,
}
use oxdm.Job.{is_completed}
use oxdm.Entry.{JobEntry}
use oxdm.Table.{job_ids, job_entry, shift_remove}
use oxdm.Table.Keyed.{IsKeyed, has_id, passing, passing-found, passing_listed}
use oxdm.Table.Moves.{absent-shift_remove, other-shift_remove}
use oxdm.State.{AppState}
use oxdm.State.Members.Removed.{
  Storage, remove, remove_each, remove_completed_all, completed_ids, taken_out, removed_entry,
  is_ok,
}

-- What a look-up finds, where this one was to go: a download that runs stays.
abbrev pub cleared : Bool → Option JobEntry → Option JobEntry
cleared b none = none
cleared b (some e) = if b && not e.running then none else some e

count-shift_remove_le :
    (p : JobEntry → Bool) (k : ℕ) (es : List JobEntry) → count p (shift_remove k es) ≤ count p es
unfolding shift_remove
count-shift_remove_le p k [] = omega arith
count-shift_remove_le p k (e ∷ es) = ground (arith, count-shift_remove_le p k es)

IsKeyed-shift_remove : (k : ℕ) (es : List JobEntry) → IsKeyed es → IsKeyed (shift_remove k es)
IsKeyed-shift_remove k es keyed j = omega (arith, keyed j, count-shift_remove_le (has_id j) k es)

lookup-shift_remove :
    (k j : ℕ) (es : List JobEntry)
    → IsKeyed es
    → job_entry j (shift_remove k es) ≡ (if k == j then none else job_entry j es)
lookup-shift_remove k j es keyed = elim (Bool-cases (k == j)) [
  | inl same ↦ rw same (
      subst (λ i. job_entry i (shift_remove k es) ≡ none) (==→eq k j same)
        (absent-shift_remove k es keyed))
  | inr off ↦ rw off (other-shift_remove k j es off)
]

cleared-false : (o : Option JobEntry) → cleared false o ≡ o
cleared-false none = refl
cleared-false (some e) = refl

cleared_busy : (b : Bool) (e : JobEntry) → e.running ≡ true → cleared b (some e) ≡ some e
cleared_busy true e h = ap (λ r. if not r then none else some e) h
cleared_busy false e h = refl

cleared_idle : (e : JobEntry) → e.running ≡ false → cleared true (some e) ≡ none
cleared_idle e h = ap (λ r. if not r then none else some e) h

cleared_twice : (a b : Bool) (o : Option JobEntry) → cleared b (cleared a o) ≡ cleared (a || b) o
cleared_twice a b none = refl
cleared_twice true b (some e) = elim (Bool-cases e.running) [
  | inl busy ↦
      ap (cleared b) (cleared_busy true e busy)
      ∙ (cleared_busy b e busy ∙ sym (cleared_busy true e busy))
  | inr idle ↦ ap (cleared b) (cleared_idle e idle) ∙ sym (cleared_idle e idle)
]
cleared_twice false b (some e) = refl

-- What is left of a download when all that are completed are removed.
abbrev pub survivor : Option JobEntry → Option JobEntry
survivor none = none
survivor (some e) = if is_completed e.live_phase && not e.running then none else some e

listed_passing :
    (p : JobEntry → Bool) (k : ℕ) (es : List JobEntry)
    → contains (job_ids (filter p es)) k ≡ true
    → 1 ≤ passing p k es
listed_passing p k [] h = cc
listed_passing p k (e ∷ es) h = ground (arith, h, listed_passing p k es)

completed_listed :
    (jobs : List JobEntry) (j : ℕ) (e : JobEntry)
    → IsKeyed jobs
    → job_entry j jobs ≡ some e
    → contains (completed_ids jobs) j ≡ is_completed e.live_phase
completed_listed jobs j e keyed h =
    let once = passing-found (λ x. is_completed x.live_phase) j jobs e keyed h in
    elim (Bool-cases (contains (completed_ids jobs) j)) [
      | inl in_it ↦
          ground (arith, in_it, once, listed_passing (λ x. is_completed x.live_phase) j jobs in_it)
      | inr out ↦
          ground (arith, out, once, passing_listed (λ x. is_completed x.live_phase) j jobs out)
    ]

listed_survivor :
    (jobs : List JobEntry) (j : ℕ)
    → IsKeyed jobs
    → cleared (contains (completed_ids jobs) j) (job_entry j jobs) ≡ survivor (job_entry j jobs)
listed_survivor jobs j keyed = elim (Option-cases (job_entry j jobs)) [
  | inl absent ↦ ap (cleared (contains (completed_ids jobs) j)) absent ∙ sym (ap survivor absent)
  | inr (e, found) ↦
      ap (cleared (contains (completed_ids jobs) j)) found
      ∙ (ap (λ b. cleared b (some e)) (completed_listed jobs j e keyed found)
          ∙ sym (ap survivor found))
]

module _ (disk : Storage) (takes : (k : ℕ) → disk.delete_job k ≡ none) where
  -- The table after one removal that the database takes.
  removed_jobs :
      (k : ℕ) (s : AppState) (o : Option JobEntry)
      → job_entry k s.jobs ≡ o
      → (j : ℕ) → IsKeyed s.jobs
      → (job_entry j (removed_entry disk false k o s).0.jobs
          ≡ cleared (k == j) (job_entry j s.jobs))
        × IsKeyed (removed_entry disk false k o s).0.jobs
  unfolding removed_entry taken_out
  removed_jobs k s none h j keyed = elim (Bool-cases (k == j)) [
    | inl same ↦
        let there : job_entry j s.jobs ≡ none =
          subst (λ i. job_entry i s.jobs ≡ none) (==→eq k j same) h in
        (there ∙ sym (ap (cleared (k == j)) there), keyed)
    | inr off ↦ (
      sym (ap (λ b. cleared b (job_entry j s.jobs)) off ∙ cleared-false (job_entry j s.jobs)),
      keyed,
    )
  ]
  removed_jobs k s (some e) h j keyed =
      let there : (k == j) ≡ true → job_entry j s.jobs ≡ some e =
        λ same. subst (λ i. job_entry i s.jobs ≡ some e) (==→eq k j same) h in
      let off_case : (k == j) ≡ false → cleared (k == j) (job_entry j s.jobs) ≡ job_entry j s.jobs =
        λ off. ap (λ b. cleared b (job_entry j s.jobs)) off ∙ cleared-false (job_entry j s.jobs) in
      elim (Bool-cases e.running) [
        | inl busy ↦ rw busy (
          elim (Bool-cases (k == j)) [
            | inl same ↦
                there same ∙ sym (ap (cleared (k == j)) (there same) ∙ cleared_busy (k == j) e busy)
            | inr off ↦ sym (off_case off)
          ],
          keyed,
        )
        | inr idle ↦ rw idle (
            rw (takes k) (
              lookup-shift_remove k j s.jobs keyed ∙ elim (Bool-cases (k == j)) [
                | inl same ↦
                    ap (λ b. if b then none else job_entry j s.jobs) same
                    ∙ sym (
                        ap (cleared (k == j)) (there same)
                        ∙ (ap (λ b. cleared b (some e)) same ∙ cleared_idle e idle))
                | inr off ↦ rw off (sym (cleared-false (job_entry j s.jobs)))
              ],
              IsKeyed-shift_remove k s.jobs keyed,
            ))
      ]

  removed_all :
      (ids : List ℕ) (n : ℕ) (s : AppState) (j : ℕ)
      → IsKeyed s.jobs
      → job_entry j (remove_each disk ids n s).0.jobs
        ≡ cleared (contains ids j) (job_entry j s.jobs)
  unfolding remove_each remove
  removed_all [] n s j keyed = sym (cleared-false (job_entry j s.jobs))
  removed_all (k ∷ ids) n s j keyed =
      let (s', result) = removed_entry disk false k (job_entry k s.jobs) s in
      let (looked, keyed') = removed_jobs k s (job_entry k s.jobs) refl j keyed in
      removed_all ids (if is_ok result then n + 1 else n) s' j keyed'
      ∙ (ap (cleared (contains ids j)) looked
          ∙ cleared_twice (k == j) (contains ids j) (job_entry j s.jobs))

  -- Where the database takes it, "remove all completed" takes out each download that is completed and
  -- not running, and leaves every other as it is.
  pub lookup-remove_completed_all :
      (s : AppState) (j : ℕ)
      → IsKeyed s.jobs
      → job_entry j (remove_completed_all disk s).0.jobs ≡ survivor (job_entry j s.jobs)
  unfolding remove_completed_all
  lookup-remove_completed_all s j keyed =
      removed_all (completed_ids s.jobs) 0 s j keyed ∙ listed_survivor s.jobs j keyed
