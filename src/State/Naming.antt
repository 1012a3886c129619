-- ===== src/State/Naming.antt =====
-- src/data/state.rs: the operations that name a download. A download is added with the name that
-- its caller gives, takes the name that its run or a probe finds, or is given a new one by the user.
-- What the caller's values are sealed to, and whether the database took the row, are parameters.
pub mod Apart
pub mod Leaves
pub mod Probed
pub mod Added
pub mod Edited
use oxdm.Prelude.{
  ℕ, Bool, true, false, ◌&&◌, ◌||◌, List, [], ◌∷◌, ◌++◌, any, ◌==◌, not, Option, none, some, codes,
  if◌then◌else◌,
}
use oxdm.Text.{trim}
use oxdm.Filename.{sanitize, is_empty}
use oxdm.Filename.Names.{name_is_taken, free_name}
use oxdm.Category.{
  Category, Settings, others, all_assignable, same_category, category_deleted, category_folder,
  classify,
}
use oxdm.Job.{is_running, Job, JobError, name_taken, other, io}
use oxdm.Entry.{JobEntry}
use oxdm.Table.{job_entry, update}
use oxdm.State.{AppState, send, edit_job, job_updated, job_filename_resolved}

pub record ResolvedName : Type 0 where
  pub filename : List ℕ
  pub moved_to : Option (List ℕ)

-- `filename.and_then(|n| sanitize(&n))`
abbrev pub and_sanitize : Option (List ℕ) → Option (List ℕ)
and_sanitize none = none
and_sanitize (some n) = sanitize n

abbrev pub or_no_name : Option (List ℕ) → List ℕ
or_no_name none = []
or_no_name (some n) = n

abbrev pub or_dir : Option (List ℕ) → List ℕ → List ℕ
or_dir none dir = dir
or_dir (some d) dir = d

abbrev pub has_name : Option (List ℕ) → Bool
has_name n = not (is_empty (or_no_name n))

-- The system: its lower case, its download folder, how it joins paths and when two are equal.
pub record Platform : Type 0 where
  pub to_lowercase : List ℕ → List ℕ
  pub download_dir : List ℕ
  pub join : List ℕ → List ℕ → List ℕ
  pub same_path : List ℕ → List ℕ → Bool

module _ (os : Platform) where
  abbrev pub folder : Settings → Category → List ℕ
  folder = category_folder os.download_dir os.join

  unfoldable pub retarget_dir : Settings → List ℕ → Category → Option (List ℕ)
  unfolding category_folder
  retarget_dir settings current c =
      let wanted = folder settings c in
      let app_chose_it = any (λ d. os.same_path (folder settings d) current) all_assignable in
      if os.same_path wanted current || not app_chose_it then none else some wanted

  unfoldable pub route_at_creation :
      Settings → Option Category → Option (List ℕ) → List ℕ → Category × List ℕ
  unfolding retarget_dir classify category_deleted
  route_at_creation settings (some c) filename save_dir =
      (if category_deleted settings c then others else c, save_dir)
  route_at_creation settings none filename save_dir =
      let c = classify (or_no_name filename) settings in
      (c, or_dir (retarget_dir settings save_dir c) save_dir)

  -- The name that a download is stored with, and where that takes it: a download in the catch-all is
  -- sorted, and follows its category while the app chose its folder.
  unfoldable pub sorted : Settings → List ℕ → Job → Job
  unfolding classify retarget_dir
  sorted settings name j =
      if same_category j.category others
      then record j {
        filename = some name;
        category = classify name settings;
        save_dir = or_dir (retarget_dir settings j.save_dir (classify name settings)) j.save_dir;
      }
      else record j { filename = some name }

  unfoldable pub moved_to : Settings → List ℕ → Job → Option (List ℕ)
  unfolding classify retarget_dir
  moved_to settings name j =
      if same_category j.category others
      then retarget_dir settings j.save_dir (classify name settings)
      else none

  unfoldable pub apply_resolved_filename :
      Settings → ℕ → List ℕ → AppState → AppState × Option ResolvedName
  unfolding sanitize free_name sorted moved_to job_entry update
  apply_resolved_filename settings id filename s = elim (sanitize filename) [
    | none ↦ (s, none)
    | some name ↦ elim (job_entry id s.jobs) [
      | none ↦ (s, none)
      | some old ↦
          let stored = free_name os.to_lowercase s.jobs name (some id) in
          if has_name old.job.filename then (s, none) else (
            send (job_updated id old.live_phase) (
                send (job_filename_resolved id stored)
                  (edit_job id (λ e. record e { job = sorted settings stored e.job }) s)),
            some (record { filename = stored; moved_to = moved_to settings stored old.job }),
          )
    ]
  ]

  -- What it comes back with where the name is another download's.
  unfoldable pub taken_by_another : List JobEntry → Option (List ℕ) → ℕ → Bool
  unfolding name_is_taken
  taken_by_another jobs none id = false
  taken_by_another jobs (some name) id =
      not (is_empty (trim name)) && name_is_taken os.to_lowercase jobs name (some id)

  -- Whether the database takes the row is known only once the table has the new job.
  unfoldable pub set_job_source :
      Option (List ℕ)
      → ℕ
      → List ℕ
      → List ℕ
      → Option (List ℕ)
      → AppState
      → AppState × Option JobError
  unfolding sanitize trim taken_by_another job_entry update is_running
  set_job_source refused id url save_dir filename s = elim (job_entry id s.jobs) [
    | none ↦ (s, some (other (codes "job not found")))
    | some old ↦
        let name = and_sanitize filename in
        let moved =
          edit_job id
            (λ e. record e {
              job = record (e.job) { url = url; save_dir = save_dir; filename = name };
            })
            s in
        if is_running old.live_phase
        then (s, some (other (codes "cannot change source while the download is running")))
        else if taken_by_another s.jobs name id
        then (s, some (name_taken (trim (or_no_name name))))
        else elim refused [
          | some err ↦ (moved, some (io err))
          | none ↦ (send (job_updated id old.live_phase) moved, none)
        ]
  ]
