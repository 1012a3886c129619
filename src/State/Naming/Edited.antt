-- ===== src/State/Naming/Edited.antt =====
-- src/data/state.rs, `update_job_location` and `adopt_final_path`: an edit of a download in its window,
-- and the name and folder of the file that a run has written. What sealing the secrets came to, whether
-- the database took the row, and the parts of a path are parameters.
use oxdm.Prelude.{
  ℕ, Bool, true, false, ◌||◌, List, [], ◌∷◌, ◌++◌, same_text, not, Option, none, some, codes,
  if◌then◌else◌,
}
use oxdm.Text.{trim}
use oxdm.Filename.{sanitize, is_empty}
use oxdm.Job.{JobError, name_taken, other, io}
use oxdm.Entry.{JobEntry}
use oxdm.Table.{job_entry, update}
use oxdm.State.{AppState, send, edit_job, job_updated, job_filename_resolved}
use oxdm.State.Naming.{Platform, and_sanitize, or_no_name, or_dir, taken_by_another}

-- The part of the edit that the job of the model has: not its referrer, headers and secrets.
pub record JobEdit : Type 0 where
  pub url : List ℕ
  pub save_dir : List ℕ
  pub filename : Option (List ℕ)
  pub max_connections : Option ℕ

unfoldable pub edited_entry : JobEdit → JobEntry → JobEntry
unfolding sanitize
edited_entry edit e = record e {
  job = record (e.job) {
    url = edit.url;
    save_dir = edit.save_dir;
    filename = and_sanitize edit.filename;
    max_connections = edit.max_connections;
  };
}

-- The insert: over the entry that is there now, or with the one read before where that has gone.
unfoldable pub put_edited : ℕ → JobEdit → JobEntry → List JobEntry → List JobEntry
unfolding job_entry update edited_entry
put_edited id edit entry jobs = elim (job_entry id jobs) [
  | none ↦ jobs ++ (edited_entry edit entry ∷ [])
  | some base ↦ update id (edited_entry edit) jobs
]

abbrev pub differs : Option (List ℕ) → List ℕ → Bool
differs none name = true
differs (some n) name = not (same_text n name)

module _ (os : Platform) where
  -- The name is asked about in the table as it was `seen`, before the secrets were sealed.
  unfoldable pub update_job_location :
      Option JobError
      → Option (List ℕ)
      → ℕ
      → JobEdit
      → AppState
      → AppState
      → AppState × Option JobError
  unfolding sanitize trim taken_by_another job_entry put_edited
  update_job_location sealed refused id edit seen s = elim (job_entry id seen.jobs) [
    | none ↦ (s, some (other (codes "job not found")))
    | some entry ↦
        let name = and_sanitize edit.filename in
        let edited = record s { jobs = put_edited id edit entry s.jobs } in
        if taken_by_another os seen.jobs name id
        then (s, some (name_taken (trim (or_no_name name))))
        else elim sealed [
          | some err ↦ (s, some err)
          | none ↦ elim refused [
            | some err ↦ (edited, some (io err))
            | none ↦ (send (job_updated id entry.live_phase) edited, none)
          ]
        ]
  ]

  abbrev pub moves : Option (List ℕ) → List ℕ → Bool
  moves none current = false
  moves (some d) current = not (os.same_path d current)

  -- Of the path, the name of the file and the folder that it is in.
  unfoldable pub adopt_final_path : ℕ → Option (List ℕ) → Option (List ℕ) → AppState → AppState
  unfolding job_entry update
  adopt_final_path id none dir s = s
  adopt_final_path id (some name) dir s = elim (job_entry id s.jobs) [
    | none ↦ s
    | some old ↦
        if is_empty name || not (differs old.job.filename name || moves dir old.job.save_dir)
        then s
        else send (job_updated id old.live_phase) (
            send (job_filename_resolved id name) (
              edit_job id
                (λ e. record e {
                  job = record (e.job) {
                    filename = some name;
                    save_dir = or_dir dir e.job.save_dir;
                  };
                })
                s))
  ]
