-- ===== src/State/Rows.antt =====
-- src/data/state.rs and src/data/mapping.rs: the operations on the integrity rows of a download.
pub mod Effects
use oxdm.Prelude.{
  ℕ, Bool, true, false, ◌&&◌, ◌||◌, List, [], ◌∷◌, ◌++◌, map, find, any, same_text, not, Option,
  none, some, codes, if◌then◌else◌,
}
use oxdm.Text.{ascii_lower}
use oxdm.Job.{
  Phase, completed, is_failed, JobError, other, checksum_mismatch, is_mismatch,
  is_checksum_mismatch,
}
use oxdm.Checksum.{Checksum, Verdict, same_algo, apply_verdicts}
use oxdm.Entry.{JobEntry, set_phase}
use oxdm.Table.{job_entry, update}
use oxdm.State.{AppState, DomainEvent, send, edit_job, job_updated}

-- `str::eq_ignore_ascii_case`.
abbrev pub eq_ignore_ascii_case : List ℕ → List ℕ → Bool
eq_ignore_ascii_case s t = same_text (map ascii_lower s) (map ascii_lower t)

-- Matched on the algorithm and the value.
abbrev pub same_row : Checksum → Checksum → Bool
same_row k c = same_algo k.algo c.algo && eq_ignore_ascii_case k.hash c.hash

-- src/data/mapping.rs, `merge_checksums`: the rows, and whether any was added.
unfoldable pub merge_checksums : List Checksum → List Checksum → List Checksum × Bool
merge_checksums existing [] = (existing, false)
merge_checksums existing (c ∷ incoming) =
    let known = any (λ k. same_row k c) existing in
    let (rows, added) =
      merge_checksums (if known then existing else existing ++ (c ∷ [])) incoming in
    (rows, not known || added)

-- `clone_entry_with_job`: all but the job is carried over.
abbrev pub clone_entry_with_job : JobEntry → List Checksum → JobEntry
clone_entry_with_job e rows = record e { job = record (e.job) { checksums = rows } }

abbrev some_path : Option (List ℕ) → Bool
some_path none = false
some_path (some _) = true

-- `JobEntry::saved_file`, of which it is read whether there is one.
abbrev pub has_saved : JobEntry → Bool
has_saved e = some_path e.final_path || some_path e.job.status.final_path

unfoldable pub clear_settled_mismatch : ℕ → JobEntry → JobEntry
unfolding set_phase
clear_settled_mismatch now_ms e =
    if any (λ (c : Checksum). is_mismatch c.status) e.job.checksums
      || not (is_checksum_mismatch e.last_error)
    then e
    else (if is_failed e.live_phase && has_saved e
        then set_phase now_ms completed (record e { last_error = none })
        else record e { last_error = none })

-- A row of the new list with what was proven of it, where the old list had it.
abbrev pub keep_verdict : Option Checksum → Checksum → Checksum
keep_verdict none c = c
keep_verdict (some k) c = record c { status = k.status; expected = k.expected }

abbrev pub carried : List Checksum → Checksum → Checksum
carried old c = keep_verdict (find (λ k. same_row k c) old) c

abbrev pub announce : ℕ → AppState → AppState
announce id s = elim (job_entry id s.jobs) [
  | none ↦ s
  | some e ↦ send (job_updated id e.live_phase) s
]

unfoldable pub set_job_checksums : ℕ → ℕ → List Checksum → AppState → AppState × Option JobError
unfolding clear_settled_mismatch job_entry update
set_job_checksums now_ms id checksums s = elim (job_entry id s.jobs) [
  | none ↦ (s, some (other (codes "job not found")))
  | some old ↦
      let rows = map (carried old.job.checksums) checksums in
      (
        announce id
            (edit_job id (λ e. clear_settled_mismatch now_ms (clone_entry_with_job e rows)) s),
        none,
      )
]

unfoldable pub merge_server_checksums : ℕ → List Checksum → AppState → AppState
unfolding merge_checksums job_entry update
merge_server_checksums id checksums s = elim (job_entry id s.jobs) [
  | none ↦ s
  | some old ↦
      let (rows, added) = merge_checksums old.job.checksums checksums in
      if not added
      then s
      else send (job_updated id old.live_phase) (edit_job id (λ e. clone_entry_with_job e rows) s)
]

unfoldable pub apply_checksum_results : ℕ → ℕ → List Verdict → AppState → AppState
unfolding apply_verdicts clear_settled_mismatch job_entry update
apply_checksum_results now_ms id verdicts s = elim (job_entry id s.jobs) [
  | none ↦ s
  | some old ↦
      let judged = apply_verdicts old.job.checksums verdicts in
      let fresh = clear_settled_mismatch now_ms (clone_entry_with_job old judged) in
      send (job_updated id fresh.live_phase) (
        edit_job id
          (λ e.
            clear_settled_mismatch now_ms
              (clone_entry_with_job e (apply_verdicts e.job.checksums verdicts)))
          s)
]
