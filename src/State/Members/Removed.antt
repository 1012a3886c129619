-- ===== src/State/Members/Removed.antt =====
-- src/data/state.rs, `remove` and `remove_completed_all`. The wiping of the working folder touches no
-- state; what deleting the file and the row comes to are parameters.
pub mod Lookups
use oxdm.Prelude.{
  ℕ, suc, ◌+◌, Bool, true, false, ◌&&◌, List, [], ◌∷◌, ◌++◌, map, filter, contains, ◌==◌, not,
  Option, none, some, codes, if◌then◌else◌,
}
use oxdm.Job.{JobError, other, io, is_completed}
use oxdm.Entry.{JobEntry}
use oxdm.Table.{job_entry, shift_remove}
use oxdm.State.{AppState, send, job_removed}

-- The path of `JobEntry::saved_file`.
abbrev pub path_or : Option (List ℕ) → Option (List ℕ) → Option (List ℕ)
path_or (some p) _ = some p
path_or none o = o

unfoldable pub saved_file : JobEntry → Option (List ℕ)
saved_file e = path_or e.final_path e.job.status.final_path

-- The disk and the database: the error of deleting a file that is still there, and that of deleting a
-- row.
pub record Storage : Type 0 where
  pub delete_file : List ℕ → Option (List ℕ)
  pub delete_job : ℕ → Option (List ℕ)

-- The warning is the path and the error.
abbrev with_path : List ℕ → Option (List ℕ) → Option (List ℕ)
with_path p none = none
with_path p (some err) = some (p ++ (codes ": " ++ err))

abbrev deleted : Storage → Option (List ℕ) → Option (List ℕ)
deleted disk none = none
deleted disk (some p) = with_path p (disk.delete_file p)

-- `Result<Option<String>, JobError>`.
pub data Removal : Type 0 where
  refused : JobError → Removal
  gone : Option (List ℕ) → Removal

unfoldable pub taken_out : ℕ → Option (List ℕ) → Option (List ℕ) → AppState → AppState × Removal
unfolding shift_remove
taken_out id warning (some err) s = (s, refused (io err))
taken_out id warning none s =
    (send (job_removed id) (record s { jobs = shift_remove id s.jobs }), gone warning)

unfoldable pub removed_entry : Storage → Bool → ℕ → Option JobEntry → AppState → AppState × Removal
unfolding taken_out saved_file
removed_entry disk delete_final_file id none s = (s, refused (other (codes "job not found")))
removed_entry disk delete_final_file id (some e) s =
    let warning = if delete_final_file then deleted disk (saved_file e) else none in
    if e.running
    then (s, refused (other (codes "cannot remove while download is in progress")))
    else taken_out id warning (disk.delete_job id) s

unfoldable pub remove : Storage → Bool → ℕ → AppState → AppState × Removal
unfolding removed_entry job_entry
remove disk delete_final_file id s = removed_entry disk delete_final_file id (job_entry id s.jobs) s

abbrev pub is_ok : Removal → Bool
is_ok (refused err) = false
is_ok (gone warning) = true

-- The loop of `remove_completed_all`, with the count.
unfoldable pub remove_each : Storage → List ℕ → ℕ → AppState → AppState × ℕ
unfolding remove
remove_each disk [] removed s = (s, removed)
remove_each disk (id ∷ ids) removed s =
    let (s', result) = remove disk false id s in
    remove_each disk ids (if is_ok result then removed + 1 else removed) s'

abbrev pub completed_ids : List JobEntry → List ℕ
completed_ids jobs = map (λ e. e.job.id) (filter (λ e. is_completed e.live_phase) jobs)

unfoldable pub remove_completed_all : Storage → AppState → AppState × ℕ
unfolding remove_each
remove_completed_all disk s = remove_each disk (completed_ids s.jobs) 0 s
