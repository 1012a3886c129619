-- ===== src/State/Naming/Apart/Steps.antt =====
-- The operations that name a download, one after another.
use oxdm.Prelude.{
  ℕ, ◌≤◌, ◌<◌, ◌≡◌, refl, false, List, [], Option, none, some, arith, ap, sym, subst, ◌∙◌, inl, inr,
  Bool-cases, Option-cases, All,
}
use oxdm.Text.{trim}
use oxdm.Filename.{sanitize, is_empty}
use oxdm.Filename.Names.{name_key, numbered, last_number, name_is_taken, free_name}
use oxdm.Filename.Names.Free.{IsUnclaimed, is_empty-eq, All-IsUnclaimed, untaken_lem, free_name_lem}
use oxdm.Category.{Settings}
use oxdm.Job.{is_running}
use oxdm.Entry.{JobEntry}
use oxdm.Table.{job_entry, update}
use oxdm.State.{AppState}
use oxdm.State.Naming.{
  Platform, apply_resolved_filename, set_job_source, has_name, and_sanitize, taken_by_another,
  sorted,
}
use oxdm.State.Naming.Apart.{AreNamedApart, IsFree, renamed-apart}

pub named_eq : (s t : List ℕ) → ◌≡◌ {A = Option (List ℕ)} (some s) (some t) → s ≡ t
named_eq s t h = cc

module _ (os : Platform) where
  -- Some number below the ceiling gives the name of no other download.
  abbrev pub IsRoomy : List JobEntry → List ℕ → Option ℕ → Type 0
  IsRoomy jobs name except =
      (n : ℕ) × (1 ≤ n)
      × (n < last_number)
      × (name_is_taken os.to_lowercase jobs (numbered (trim name) n) except ≡ false)

  pub free_name-free :
      (jobs : List JobEntry) (name : List ℕ) (except : Option ℕ)
      → os.to_lowercase [] ≡ []
      → IsRoomy jobs name except
      → All
          (IsUnclaimed os.to_lowercase
            (name_key os.to_lowercase (free_name os.to_lowercase jobs name except))
            except)
          jobs
  free_name-free jobs name except h (n, low, high, free) =
      elim (free_name_lem os.to_lowercase jobs name except h) [
        | inl found ↦ found
        | inr held ↦ absurd (ground (arith, held n low high, free))
      ]

  pub sorted_name :
      (settings : Settings) (name : List ℕ) (e : JobEntry)
      → (sorted os settings name e.job).filename ≡ some name
  unfolding sorted
  sorted_name settings name e = ground arith

  pub sorted_id :
      (settings : Settings) (name : List ℕ) (e : JobEntry)
      → (sorted os settings name e.job).id ≡ e.job.id
  unfolding sorted
  sorted_id settings name e = ground arith

  pub stored-IsFree :
      (settings : Settings) (id : ℕ) (name : List ℕ) (e : JobEntry) (jobs : List JobEntry)
      → os.to_lowercase [] ≡ []
      → IsRoomy jobs name (some id)
      → IsFree os.to_lowercase id
          (record e {
            job = sorted os settings (free_name os.to_lowercase jobs name (some id)) e.job;
          })
          jobs
  stored-IsFree settings id name e jobs h room n named =
      let stored = free_name os.to_lowercase jobs name (some id) in
      let same : stored ≡ n = named_eq stored n (sym (sorted_name settings stored e) ∙ named) in
      subst (λ t. All (IsUnclaimed os.to_lowercase (name_key os.to_lowercase t) (some id)) jobs)
        same (free_name-free jobs name (some id) h room)

  -- The names stay apart where the jobs come to these.
  pub apart_at :
      (jobs after : List JobEntry)
      → after ≡ jobs
      → AreNamedApart os.to_lowercase jobs
      → AreNamedApart os.to_lowercase after
  apart_at jobs after e apart = subst (AreNamedApart os.to_lowercase) (sym e) apart

  pub apply_resolved_filename-apart :
      (settings : Settings) (id : ℕ) (filename : List ℕ) (s : AppState)
      → os.to_lowercase [] ≡ []
      → ((name : List ℕ) → sanitize filename ≡ some name → IsRoomy s.jobs name (some id))
      → AreNamedApart os.to_lowercase s.jobs
      → AreNamedApart os.to_lowercase (apply_resolved_filename os settings id filename s).0.jobs
  unfolding apply_resolved_filename
  apply_resolved_filename-apart settings id filename s h room apart =
      let after = (apply_resolved_filename os settings id filename s).0.jobs in
      elim (Option-cases (sanitize filename)) [
        | inl unusable ↦ apart_at s.jobs after (rw (unusable, apply_resolved_filename) refl) apart
        | inr (name, usable) ↦ elim (Option-cases (job_entry id s.jobs)) [
          | inl gone ↦ apart_at s.jobs after (rw (usable, gone, apply_resolved_filename) refl) apart
          | inr (old, found) ↦
              let stored = free_name os.to_lowercase s.jobs name (some id) in
              let g : JobEntry → JobEntry =
                λ e. record e { job = sorted os settings stored e.job } in
              elim (Bool-cases (has_name old.job.filename)) [
                | inl named ↦
                    apart_at s.jobs after (rw (usable, found, named, apply_resolved_filename) refl)
                      apart
                | inr bare ↦
                    apart_at (update id g s.jobs) after
                      (rw (usable, found, bare, apply_resolved_filename) refl)
                      (renamed-apart os.to_lowercase id g s.jobs old (sorted_id settings stored)
                        found (stored-IsFree settings id name old s.jobs h (room name usable))
                        apart)
              ]
        ]
      ]

  -- A name that the operation does not refuse is free.
  source_free :
      (jobs : List JobEntry) (name : List ℕ) (id : ℕ)
      → os.to_lowercase [] ≡ []
      → taken_by_another os jobs (some name) id ≡ false
      → All (IsUnclaimed os.to_lowercase (name_key os.to_lowercase name) (some id)) jobs
  unfolding taken_by_another name_key
  source_free jobs name id h free = elim (Bool-cases (is_empty (trim name))) [
    | inl blank ↦
        subst (λ key. All (IsUnclaimed os.to_lowercase key (some id)) jobs)
          (sym (ap os.to_lowercase (is_empty-eq (trim name) blank) ∙ h))
          (All-IsUnclaimed os.to_lowercase (some id) jobs)
    | inr full ↦ untaken_lem os.to_lowercase jobs name (some id) (ground (arith, full, free))
  ]

  pub source_frees :
      (jobs : List JobEntry) (name : Option (List ℕ)) (id : ℕ)
      → os.to_lowercase [] ≡ []
      → taken_by_another os jobs name id ≡ false
      → (n : List ℕ) → name ≡ some n
      → All (IsUnclaimed os.to_lowercase (name_key os.to_lowercase n) (some id)) jobs
  source_frees jobs none id h free n e = cc
  source_frees jobs (some name) id h free n e =
      subst (λ t. All (IsUnclaimed os.to_lowercase (name_key os.to_lowercase t) (some id)) jobs)
        (named_eq name n e) (source_free jobs name id h free)

  pub set_job_source-apart :
      (refused : Option (List ℕ)) (id : ℕ) (url save_dir : List ℕ) (filename : Option (List ℕ))
      (s : AppState)
      → os.to_lowercase [] ≡ []
      → AreNamedApart os.to_lowercase s.jobs
      → AreNamedApart os.to_lowercase (set_job_source os refused id url save_dir filename s).0.jobs
  unfolding set_job_source
  set_job_source-apart refused id url save_dir filename s h apart =
      let after = (set_job_source os refused id url save_dir filename s).0.jobs in
      let name = and_sanitize filename in
      let g : JobEntry → JobEntry = λ e. record e {
        job = record (e.job) { url = url; save_dir = save_dir; filename = name };
      } in
      elim (Option-cases (job_entry id s.jobs)) [
        | inl gone ↦ apart_at s.jobs after (rw (gone, set_job_source) refl) apart
        | inr (old, found) ↦ elim (Bool-cases (is_running old.live_phase)) [
          | inl busy ↦ apart_at s.jobs after (rw (found, busy, set_job_source) refl) apart
          | inr idle ↦ elim (Bool-cases (taken_by_another os s.jobs name id)) [
            | inl taken ↦ apart_at s.jobs after (rw (found, idle, taken, set_job_source) refl) apart
            | inr free ↦
                apart_at (update id g s.jobs) after
                  (elim (Option-cases refused) [
                    | inl takes ↦ rw (found, idle, free, takes, set_job_source) refl
                    | inr (err, fails) ↦ rw (found, idle, free, fails, set_job_source) refl
                  ])
                  (renamed-apart os.to_lowercase id g s.jobs old (λ e. refl) found
                    (source_frees s.jobs name id h free) apart)
          ]
        ]
      ]
