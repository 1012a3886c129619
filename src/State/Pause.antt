-- ===== src/State/Pause.antt =====
-- src/data/state.rs: pausing a download, and sending it back to the queue.
pub mod Effects
use oxdm.Prelude.{ℕ, true, false, Option, none, some, if◌then◌else◌, codes}
use oxdm.Job.{queued, paused, is_assembling, JobError, other}
use oxdm.Entry.{JobEntry, set_phase, reset_live_speed, reset_run_stats}
use oxdm.Table.{job_entry}
use oxdm.State.{AppState, send, edit_job, job_updated, move_to_queue_end}

abbrev pub job_not_found : JobError
job_not_found = other (codes "job not found")

abbrev pub being_assembled : JobError
being_assembled = other (codes "the final file is being assembled; this finishes on its own")

-- `refuse_while_assembling`.
unfoldable pub refuse_while_assembling : JobEntry → Option JobError
refuse_while_assembling e = if is_assembling e.live_phase then some being_assembled else none

-- The token is tripped (src/data/pause.rs, `CancelResumeStrategy::pause`), and then the entry is
-- taken off the waiting list and put in `Paused`.
unfoldable pub paused_entry : ℕ → JobEntry → JobEntry
unfolding set_phase reset_live_speed
paused_entry now_ms e =
    reset_live_speed (set_phase now_ms paused (record e { cancel = true; deferred_by_cap = false }))

abbrev pub refused {ℓ} : {A : Type ℓ} → A → Option JobError → A → A × Option JobError
refused s none s' = (s', none)
refused s (some err) s' = (s, some err)

abbrev pub checked : Option JobEntry → Option JobError
checked none = some job_not_found
checked (some e) = refuse_while_assembling e

unfoldable pub pause_in_place : ℕ → ℕ → AppState → AppState × Option JobError
unfolding paused_entry refuse_while_assembling
pause_in_place now_ms id s =
    refused s (checked (job_entry id s.jobs))
      (send (job_updated id paused) (edit_job id (paused_entry now_ms) s))

abbrev pub then_back : ℕ → AppState × Option JobError → AppState × Option JobError
then_back id (s, none) = (move_to_queue_end id s, none)
then_back id (s, some err) = (s, some err)

unfoldable pub pause : ℕ → ℕ → AppState → AppState × Option JobError
unfolding pause_in_place move_to_queue_end
pause now_ms id s = then_back id (pause_in_place now_ms id s)

-- What `cancel_to_queued` makes of the entry once the pause has gone through.
unfoldable pub requeued_entry : ℕ → JobEntry → JobEntry
unfolding reset_run_stats set_phase
requeued_entry now_ms e = set_phase now_ms queued (record (reset_run_stats e) { last_error = none })

abbrev pub then_requeue : ℕ → ℕ → AppState × Option JobError → AppState × Option JobError
then_requeue now_ms id (s, none) =
    (send (job_updated id queued) (edit_job id (requeued_entry now_ms) s), none)
then_requeue now_ms id (s, some err) = (s, some err)

unfoldable pub cancel_to_queued : ℕ → ℕ → AppState → AppState × Option JobError
unfolding pause requeued_entry
cancel_to_queued now_ms id s = then_requeue now_ms id (pause now_ms id s)
