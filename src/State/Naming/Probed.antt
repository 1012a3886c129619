-- ===== src/State/Naming/Probed.antt =====
-- src/data/state.rs, `apply_probe_result`: what a probe tells of a download after it was added.
pub mod Raw
use oxdm.Prelude.{
  ℕ, Bool, true, false, ◌&&◌, ◌||◌, List, [], ◌∷◌, ◌==◌, not, Option, none, some, if◌then◌else◌,
}
use oxdm.Text.{trim}
use oxdm.Filename.{is_empty}
use oxdm.Filename.Names.{free_name}
use oxdm.Category.{Settings}
use oxdm.Checksum.{Checksum}
use oxdm.Job.{is_queued, Job}
use oxdm.Entry.{JobEntry, LiveCounters}
use oxdm.Table.{job_entry, update}
use oxdm.State.{AppState, send, edit_job, job_updated, job_filename_resolved}
use oxdm.State.Rows.{merge_checksums}
use oxdm.State.Naming.{Platform, sorted, has_name}

-- `ProbeResult`, of which these fields are read.
pub record ProbeResult : Type 0 where
  pub filename : List ℕ
  pub size : Option ℕ
  pub is_resumable : Bool
  pub checksums : List Checksum

abbrev pub or_zero : Option ℕ → ℕ
or_zero none = 0
or_zero (some n) = n

abbrev pub is_none : Option ℕ → Bool
is_none none = true
is_none (some _) = false

-- A blank is filled in from a probe; a run of its own outranks it.
unfoldable pub probe_names : ProbeResult → Job → Bool
unfolding trim
probe_names probe j = not (has_name j.filename) && not (is_empty (trim probe.filename))

unfoldable pub probe_changes : ProbeResult → Job → Bool
unfolding probe_names merge_checksums
probe_changes probe j =
    probe_names probe j
    || (is_none j.status.total && not (is_none probe.size))
    || (merge_checksums j.checksums probe.checksums).1

abbrev pub announced : ℕ → Option (List ℕ) → AppState → AppState
announced id none s = s
announced id (some name) s = send (job_filename_resolved id name) s

module _ (os : Platform) where
  unfoldable pub probed_name : Settings → List ℕ → ProbeResult → Job → Job
  unfolding sorted probe_names
  probed_name settings stored probe j =
      if probe_names probe j then sorted os settings stored j else j

  unfoldable pub probed_job : Settings → List ℕ → ProbeResult → Job → Job
  unfolding probed_name merge_checksums
  probed_job settings stored probe j =
      let named = probed_name settings stored probe j in
      record named {
        status = record (j.status) {
          total = if is_none j.status.total then probe.size else j.status.total;
        };
        checksums = (merge_checksums j.checksums probe.checksums).0;
      }

  unfoldable pub apply_probe_result : Settings → ℕ → ProbeResult → AppState → AppState
  unfolding probed_job probe_changes free_name job_entry update
  apply_probe_result settings id probe s = elim (job_entry id s.jobs) [
    | none ↦ s
    | some old ↦
        let stored = free_name os.to_lowercase s.jobs probe.filename (some id) in
        if old.running || not (is_queued old.live_phase) || not (probe_changes probe old.job)
        then s
        else send (job_updated id old.live_phase) (
            announced id (probed_job settings stored probe old.job).filename (
              edit_job id
                (λ e. record e {
                  job = probed_job settings stored probe e.job;
                  is_resumable = some probe.is_resumable;
                  counters = record (e.counters) { total = or_zero probe.size };
                })
                s))
  ]
