-- ===== src/State/Naming/Apart/Written.antt =====
-- Names given in an edit, and names of files that a run has written.
use oxdm.Prelude.{
  ℕ, ◌≡◌, ◌⊎◌, refl, false, ◌||◌, List, [], ◌∷◌, ◌++◌, ◌==◌, not, Option, subst, none, some, arith,
  inl, inr, Bool-cases, Option-cases, All,
}
use oxdm.Filename.{is_empty}
use oxdm.Filename.Names.{name_key, name_is_taken}
use oxdm.Filename.Names.Free.{IsUnclaimed, untaken_lem}
use oxdm.Job.{JobError}
use oxdm.Entry.{JobEntry}
use oxdm.Table.{job_entry, update}
use oxdm.State.{AppState}
use oxdm.State.Naming.{Platform, and_sanitize, or_dir, taken_by_another}
use oxdm.State.Naming.Edited.{
  JobEdit, update_job_location, put_edited, edited_entry, adopt_final_path, differs, moves,
}
use oxdm.State.Naming.Apart.{AreNamedApart, renamed-apart}
use oxdm.State.Naming.Apart.Steps.{apart_at, source_frees}
use oxdm.State.Naming.Apart.Others.{added-apart}

module _ (os : Platform) where
  -- The name, if there is one, is no other download's.
  abbrev pub IsNew : List JobEntry → ℕ → Option (List ℕ) → Type 0
  IsNew jobs id name =
      (n : List ℕ) → name ≡ some n → name_is_taken os.to_lowercase jobs n (some id) ≡ false

  new-IsUnclaimed :
      (jobs : List JobEntry) (id : ℕ) (name : Option (List ℕ))
      → IsNew jobs id name
      → (n : List ℕ) → name ≡ some n
      → All (IsUnclaimed os.to_lowercase (name_key os.to_lowercase n) (some id)) jobs
  new-IsUnclaimed jobs id name new n e = untaken_lem os.to_lowercase jobs n (some id) (new n e)

  -- Where the download is not in the table, every download is another.
  free_of-All :
      (key : List ℕ) (id : ℕ) (jobs : List JobEntry)
      → job_entry id jobs ≡ none
      → All (IsUnclaimed os.to_lowercase key (some id)) jobs
      → All (IsUnclaimed os.to_lowercase key none) jobs
  unfolding job_entry
  free_of-All key id [] gone h = tt
  free_of-All key id (e ∷ jobs) gone h = elim (Bool-cases (e.job.id == id)) [
    | inl hit ↦ absurd (ground (arith, hit, gone))
    | inr miss ↦
        ((λ other. h.0 (rw miss refl)), free_of-All key id jobs (ground (arith, miss, gone)) h.1)
  ]

  -- Any name of these is no other download's.
  abbrev AreFree : List JobEntry → ℕ → Option (List ℕ) → Type 0
  AreFree jobs id name =
      (n : List ℕ)
      → name ≡ some n
      → All (IsUnclaimed os.to_lowercase (name_key os.to_lowercase n) (some id)) jobs

  put_edited-apart :
      (id : ℕ) (edit : JobEdit) (entry : JobEntry) (jobs : List JobEntry)
      → AreFree jobs id (and_sanitize edit.filename)
      → AreNamedApart os.to_lowercase jobs
      → AreNamedApart os.to_lowercase (put_edited id edit entry jobs)
  unfolding put_edited edited_entry
  put_edited-apart id edit entry jobs free apart = elim (Option-cases (job_entry id jobs)) [
    | inl gone ↦
        apart_at os (jobs ++ (edited_entry edit entry ∷ [])) (put_edited id edit entry jobs)
          (rw (gone, put_edited) refl)
          (added-apart os jobs (edited_entry edit entry)
            (λ n e. free_of-All (name_key os.to_lowercase n) id jobs gone (free n e)) apart)
    | inr (base, found) ↦
        apart_at os (update id (edited_entry edit) jobs) (put_edited id edit entry jobs)
          (rw (found, put_edited) refl)
          (renamed-apart os.to_lowercase id (edited_entry edit) jobs base (λ e. refl) found free
            apart)
  ]

  pub update_job_location-apart :
      (sealed : Option JobError) (refused : Option (List ℕ)) (id : ℕ) (edit : JobEdit)
      (seen s : AppState)
      → os.to_lowercase [] ≡ []
      → IsNew s.jobs id (and_sanitize edit.filename) ⊎ (seen.jobs ≡ s.jobs)
      → AreNamedApart os.to_lowercase s.jobs
      → AreNamedApart os.to_lowercase (update_job_location os sealed refused id edit seen s).0.jobs
  unfolding update_job_location
  update_job_location-apart sealed refused id edit seen s h room apart =
      let after = (update_job_location os sealed refused id edit seen s).0.jobs in
      elim (Option-cases (job_entry id seen.jobs)) [
        | inl gone ↦ apart_at os s.jobs after (rw (gone, update_job_location) refl) apart
        | inr (entry, found) ↦
            elim (Bool-cases (taken_by_another os seen.jobs (and_sanitize edit.filename) id)) [
              | inl taken ↦
                  apart_at os s.jobs after (rw (found, taken, update_job_location) refl) apart
              | inr free ↦ elim (Option-cases sealed) [
                | inr (err, unsealed) ↦
                    apart_at os s.jobs after (rw (found, free, unsealed, update_job_location) refl)
                      apart
                | inl shut ↦
                    apart_at os (put_edited id edit entry s.jobs) after
                      (elim (Option-cases refused) [
                        | inl takes ↦ rw (found, free, shut, takes, update_job_location) refl
                        | inr (err, fails) ↦ rw (found, free, shut, fails, update_job_location) refl
                      ])
                      (put_edited-apart id edit entry s.jobs
                        (elim room [
                          | inl new ↦ new-IsUnclaimed s.jobs id (and_sanitize edit.filename) new
                          | inr same ↦
                              subst (λ jobs. AreFree jobs id (and_sanitize edit.filename)) same
                                (source_frees os seen.jobs (and_sanitize edit.filename) id h free)
                        ])
                        apart)
              ]
            ]
      ]

  pub adopt_final_path-apart :
      (id : ℕ) (name dir : Option (List ℕ)) (s : AppState)
      → IsNew s.jobs id name
      → AreNamedApart os.to_lowercase s.jobs
      → AreNamedApart os.to_lowercase (adopt_final_path os id name dir s).jobs
  unfolding adopt_final_path
  adopt_final_path-apart id none dir s new apart = apart
  adopt_final_path-apart id (some name) dir s new apart =
      let after = (adopt_final_path os id (some name) dir s).jobs in
      let g : JobEntry → JobEntry = λ e. record e {
        job = record (e.job) { filename = some name; save_dir = or_dir dir e.job.save_dir };
      } in
      elim (Option-cases (job_entry id s.jobs)) [
        | inl gone ↦ apart_at os s.jobs after (rw (gone, adopt_final_path) refl) apart
        | inr (old, found) ↦
            elim (Bool-cases (
              is_empty name
              || not (differs old.job.filename name || moves os dir old.job.save_dir))) [
                | inl same ↦
                    apart_at os s.jobs after (rw (found, same, adopt_final_path) refl) apart
                | inr other ↦
                    apart_at os (update id g s.jobs) after
                      (rw (found, other, adopt_final_path) refl)
                      (renamed-apart os.to_lowercase id g s.jobs old (λ e. refl) found
                        (new-IsUnclaimed s.jobs id (some name) new) apart)
              ]
      ]
