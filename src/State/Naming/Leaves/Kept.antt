-- ===== src/State/Naming/Leaves/Kept.antt =====
-- Names by the operations that clean them.
use oxdm.Prelude.{
  ℕ, ◌≡◌, refl, Bool, true, false, ◌&&◌, List, [], ◌∷◌, ◌++◌, not, Option, none, some, arith, sym,
  subst, ◌∙◌, inl, inr, Bool-cases, Option-cases, All, All-append,
}
use oxdm.Filename.{sanitize}
use oxdm.Filename.Cleaned.{AreSafe}
use oxdm.Filename.Sizes.{sanitize_leaf}
use oxdm.Filename.Names.{free_name, name_is_taken}
use oxdm.Category.{Settings}
use oxdm.Job.{is_running, JobError}
use oxdm.Entry.{JobEntry}
use oxdm.Table.{job_entry, update}
use oxdm.State.{AppState}
use oxdm.State.Naming.{
  Platform, and_sanitize, has_name, sorted, taken_by_another, apply_resolved_filename,
  set_job_source,
}
use oxdm.State.Naming.Edited.{JobEdit, update_job_location, put_edited, edited_entry}
use oxdm.State.Naming.Added.{Addition, add_job, job_of, unique, with_completion}
use oxdm.State.Naming.Leaves.{IsSafelyNamed, All-update, unique_name-AreSafe}
use oxdm.State.Naming.Apart.Steps.{named_eq, sorted_name}
use oxdm.State.Naming.Apart.Reached.{
  NamingStep, Reached, added, resolved, sourced, edited, probed, adopted, start, later,
}

abbrev AreSafelyNamed : List JobEntry → Type 0
AreSafelyNamed = All IsSafelyNamed

safe_at : (jobs after : List JobEntry) → after ≡ jobs → AreSafelyNamed jobs → AreSafelyNamed after
safe_at jobs after e h = subst AreSafelyNamed (sym e) h

cleaned_safe :
    (filename : Option (List ℕ)) (n : List ℕ) → and_sanitize filename ≡ some n → AreSafe n
cleaned_safe none n e = cc
cleaned_safe (some t) n e = (sanitize_leaf t n e).2

put_safe :
    (id : ℕ) (edit : JobEdit) (entry : JobEntry) (jobs : List JobEntry)
    → AreSafelyNamed jobs
    → AreSafelyNamed (put_edited id edit entry jobs)
unfolding put_edited edited_entry
put_safe id edit entry jobs h = elim (Option-cases (job_entry id jobs)) [
  | inl gone ↦
      safe_at (jobs ++ (edited_entry edit entry ∷ [])) (put_edited id edit entry jobs)
        (rw (gone, put_edited) refl)
        (All-append IsSafelyNamed jobs (edited_entry edit entry ∷ []) h
          (cleaned_safe edit.filename, tt))
  | inr (base, found) ↦
      safe_at (update id (edited_entry edit) jobs) (put_edited id edit entry jobs)
        (rw (found, put_edited) refl)
        (All-update IsSafelyNamed id (edited_entry edit) jobs base found
          (cleaned_safe edit.filename) h)
]

module _ (os : Platform) where
  free_name-AreSafe :
      (jobs : List JobEntry) (name : List ℕ) (except : Option ℕ)
      → AreSafe name
      → AreSafe (free_name os.to_lowercase jobs name except)
  unfolding free_name
  free_name-AreSafe jobs name except h =
      unique_name-AreSafe name (λ candidate. name_is_taken os.to_lowercase jobs candidate except) h

  resolved_safe :
      (settings : Settings) (id : ℕ) (filename : List ℕ) (s : AppState)
      → AreSafelyNamed s.jobs
      → AreSafelyNamed (apply_resolved_filename os settings id filename s).0.jobs
  unfolding apply_resolved_filename
  resolved_safe settings id filename s h =
      let after = (apply_resolved_filename os settings id filename s).0.jobs in
      elim (Option-cases (sanitize filename)) [
        | inl unusable ↦ safe_at s.jobs after (rw (unusable, apply_resolved_filename) refl) h
        | inr (name, usable) ↦ elim (Option-cases (job_entry id s.jobs)) [
          | inl gone ↦ safe_at s.jobs after (rw (usable, gone, apply_resolved_filename) refl) h
          | inr (old, found) ↦
              let stored = free_name os.to_lowercase s.jobs name (some id) in
              let g : JobEntry → JobEntry =
                λ e. record e { job = sorted os settings stored e.job } in
              elim (Bool-cases (has_name old.job.filename)) [
                | inl named ↦
                    safe_at s.jobs after (rw (usable, found, named, apply_resolved_filename) refl) h
                | inr bare ↦
                    safe_at (update id g s.jobs) after
                      (rw (usable, found, bare, apply_resolved_filename) refl)
                      (All-update IsSafelyNamed id g s.jobs old found
                        (λ n e.
                          subst AreSafe
                            (named_eq stored n (sym (sorted_name os settings stored old) ∙ e))
                            (free_name-AreSafe s.jobs name (some id)
                              (sanitize_leaf filename name usable).2))
                        h)
              ]
        ]
      ]

  sourced_safe :
      (refused : Option (List ℕ)) (id : ℕ) (url save_dir : List ℕ) (filename : Option (List ℕ))
      (s : AppState)
      → AreSafelyNamed s.jobs
      → AreSafelyNamed (set_job_source os refused id url save_dir filename s).0.jobs
  unfolding set_job_source
  sourced_safe refused id url save_dir filename s h =
      let after = (set_job_source os refused id url save_dir filename s).0.jobs in
      let name = and_sanitize filename in
      let g : JobEntry → JobEntry = λ e. record e {
        job = record (e.job) { url = url; save_dir = save_dir; filename = name };
      } in
      elim (Option-cases (job_entry id s.jobs)) [
        | inl gone ↦ safe_at s.jobs after (rw (gone, set_job_source) refl) h
        | inr (old, found) ↦ elim (Bool-cases (is_running old.live_phase)) [
          | inl busy ↦ safe_at s.jobs after (rw (found, busy, set_job_source) refl) h
          | inr idle ↦ elim (Bool-cases (taken_by_another os s.jobs name id)) [
            | inl taken ↦ safe_at s.jobs after (rw (found, idle, taken, set_job_source) refl) h
            | inr free ↦
                safe_at (update id g s.jobs) after
                  (elim (Option-cases refused) [
                    | inl takes ↦ rw (found, idle, free, takes, set_job_source) refl
                    | inr (err, fails) ↦ rw (found, idle, free, fails, set_job_source) refl
                  ])
                  (All-update IsSafelyNamed id g s.jobs old found (cleaned_safe filename) h)
          ]
        ]
      ]

  unique_safe :
      (jobs : List JobEntry) (name : Option (List ℕ))
      → ((t : List ℕ) → name ≡ some t → AreSafe t)
      → (n : List ℕ) → unique os jobs name ≡ some n
      → AreSafe n
  unfolding unique
  unique_safe jobs none h n e = cc
  unique_safe jobs (some t) h n e =
      subst AreSafe (named_eq (free_name os.to_lowercase jobs t none) n e)
        (free_name-AreSafe jobs t none (h t refl))

  added_safe :
      (settings : Settings) (id : ℕ) (a : Addition) (sealed stored : Option JobError) (s : AppState)
      → AreSafelyNamed s.jobs
      → AreSafelyNamed (add_job os settings id a sealed stored s).0.jobs
  unfolding add_job with_completion job_of
  added_safe settings id a (some e) stored s h = h
  added_safe settings id a none (some e) s h = h
  added_safe settings id a none none s h =
      All-append IsSafelyNamed s.jobs (with_completion (job_of os settings id a s) ∷ []) h
        (unique_safe s.jobs (and_sanitize a.filename) (cleaned_safe a.filename), tt)

  edited_safe :
      (sealed : Option JobError) (refused : Option (List ℕ)) (id : ℕ) (edit : JobEdit)
      (seen s : AppState)
      → AreSafelyNamed s.jobs
      → AreSafelyNamed (update_job_location os sealed refused id edit seen s).0.jobs
  unfolding update_job_location
  edited_safe sealed refused id edit seen s h =
      let after = (update_job_location os sealed refused id edit seen s).0.jobs in
      elim (Option-cases (job_entry id seen.jobs)) [
        | inl gone ↦ safe_at s.jobs after (rw (gone, update_job_location) refl) h
        | inr (entry, found) ↦
            elim (Bool-cases (taken_by_another os seen.jobs (and_sanitize edit.filename) id)) [
              | inl taken ↦ safe_at s.jobs after (rw (found, taken, update_job_location) refl) h
              | inr free ↦ elim (Option-cases sealed) [
                | inr (err, unsealed) ↦
                    safe_at s.jobs after (rw (found, free, unsealed, update_job_location) refl) h
                | inl shut ↦
                    safe_at (put_edited id edit entry s.jobs) after
                      (elim (Option-cases refused) [
                        | inl takes ↦ rw (found, free, shut, takes, update_job_location) refl
                        | inr (err, fails) ↦ rw (found, free, shut, fails, update_job_location) refl
                      ])
                      (put_safe id edit entry s.jobs h)
              ]
            ]
      ]

  -- The steps that store a name as it came: a probe's, and that of a file that a run has written.
  abbrev pub is_raw : (s t : AppState) → NamingStep os s t → Bool
  is_raw s t (added settings id a sealed stored e) = false
  is_raw s t (resolved settings id filename e) = false
  is_raw s t (sourced refused id url save_dir filename e) = false
  is_raw s t (edited sealed refused id edit seen e) = false
  is_raw s t (probed settings id probe e) = true
  is_raw s t (adopted id name dir e) = true

  abbrev pub all_clean : (s t : AppState) → Reached os s t → Bool
  all_clean s t start = true
  all_clean s u (later {t} r step) = all_clean s t r && not (is_raw t u step)

  step_safe :
      (s t : AppState) (step : NamingStep os s t)
      → is_raw s t step ≡ false
      → AreSafelyNamed s.jobs
      → AreSafelyNamed t.jobs
  step_safe s t (added settings id a sealed stored e) p h =
      subst (λ (x : AppState). AreSafelyNamed x.jobs) (sym e)
        (added_safe settings id a sealed stored s h)
  step_safe s t (resolved settings id filename e) p h =
      subst (λ (x : AppState). AreSafelyNamed x.jobs) (sym e)
        (resolved_safe settings id filename s h)
  step_safe s t (sourced refused id url save_dir filename e) p h =
      subst (λ (x : AppState). AreSafelyNamed x.jobs) (sym e)
        (sourced_safe refused id url save_dir filename s h)
  step_safe s t (edited sealed refused id edit seen e) p h =
      subst (λ (x : AppState). AreSafelyNamed x.jobs) (sym e)
        (edited_safe sealed refused id edit seen s h)
  step_safe s t (probed settings id probe e) p h = cc
  step_safe s t (adopted id name dir e) p h = cc

  -- Where no name of the table holds a separator, a character that Windows refuses, or a control or
  -- deceptive one, none does after any sequence of additions, names that a run resolves before it
  -- starts, new sources and edits, whatever the servers and the user wrote. The names of probes and
  -- of the paths that runs have written are stored as they come, and no step of the sequence is one.
  pub safe_names_stay :
      (s t : AppState) (r : Reached os s t)
      → all_clean s t r ≡ true
      → All IsSafelyNamed s.jobs
      → All IsSafelyNamed t.jobs
  safe_names_stay s t start p h = h
  safe_names_stay s u (later {t} r step) p h =
      step_safe t u step (ground (arith, p)) (safe_names_stay s t r (ground (arith, p)) h)
