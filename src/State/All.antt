-- ===== src/State/All.antt =====
-- src/data/state.rs: resuming, restarting and removing marks; pausing, stopping and resuming all.
pub mod Sweeping
pub mod Paused
pub mod Everything
use oxdm.Prelude.{
  ℕ, zero, suc, ◌+◌, Bool, true, false, ◌&&◌, Option, none, some, List, [], ◌∷◌, ◌++◌, map,
  if◌then◌else◌, not, length, filter, codes,
}
use oxdm.Job.{queued, is_startable, is_assembling, JobError, other, integrity_failed}
use oxdm.Entry.{JobEntry, set_phase, reset_live_speed, reset_run_stats}
use oxdm.Table.{job_entry}
use oxdm.State.{
  AppState, QueueRunTally, send, edit_job, job_updated, queue_stopped, mark_run_intent,
}
use oxdm.State.Pause.{pause, refuse_while_assembling, job_not_found}
use oxdm.State.Start.{Host, start_run, start_job}
use oxdm.State.Fill.{Pass}
use oxdm.State.Queues.{pause_each, untried}

abbrev failed_check : JobError
failed_check = other (codes "this file failed its integrity check; restart the download instead")

abbrev resumed : ℕ → Host → ℕ → Option JobEntry → AppState → AppState × Option JobError
resumed now_ms h id none s = (s, some job_not_found)
resumed now_ms h id (some e) s =
    if integrity_failed e.job then (s, some failed_check) else start_run now_ms h id true s

-- `CancelResumeStrategy::resume` relaunches.
unfoldable pub resume : ℕ → Host → ℕ → AppState → AppState × Option JobError
resume now_ms h id s = resumed now_ms h id (job_entry id s.jobs) s

-- What `restart_job` makes of the entry before the start.
unfoldable pub restarted_entry : ℕ → JobEntry → JobEntry
unfolding reset_live_speed reset_run_stats set_phase
restarted_entry now_ms e =
    let cleared = reset_live_speed e in
    set_phase now_ms queued (
      reset_run_stats
        (record cleared { counters = record (cleared.counters) { downloaded = 0; total = 0 } }))

abbrev restarted : ℕ → Host → ℕ → Option JobEntry → AppState → AppState × Option JobError
restarted now_ms h id none s = (s, some job_not_found)
restarted now_ms h id (some e) s = elim (refuse_while_assembling e) [
  | some err ↦ (s, some err)
  | none ↦
      start_job now_ms h id
        (send (job_updated id queued) (edit_job id (restarted_entry now_ms) (pause now_ms id s).0))
]

-- The work folder of the job is removed on the way, which is outside of the state.
unfoldable pub restart_job : ℕ → Host → ℕ → AppState → AppState × Option JobError
unfolding restarted_entry refuse_while_assembling
restart_job now_ms h id s = restarted now_ms h id (job_entry id s.jobs) s

abbrev pub is_pausable : JobEntry → Bool
is_pausable e = e.running && not (is_assembling e.live_phase)

unfoldable pub pausable_ids : List JobEntry → List ℕ
pausable_ids jobs = map (λ e. e.job.id) (filter is_pausable jobs)

unfoldable pub pause_sweep : ℕ → ℕ → Pass → Pass
unfolding pausable_ids
pause_sweep now_ms zero p = p
pause_sweep now_ms (suc fuel) p = elim (untried p.tried (pausable_ids p.state.jobs)) [
  | [] ↦ p
  | id ∷ ids ↦
      pause_sweep now_ms fuel
        (record { tried = (id ∷ ids) ++ p.tried; state = pause_each now_ms (id ∷ ids) p.state })
]

abbrev pub suspend : Bool → ℕ × QueueRunTally → ℕ × QueueRunTally
suspend b (q, t) = (q, record t { paused = b })

-- `clear_deferrals` and the suspension of every run.
unfoldable pub pause_begun : AppState → AppState
pause_begun s = record s {
  active_queues = map (suspend true) s.active_queues;
  jobs = map (λ (e : JobEntry). record e { deferred_by_cap = false }) s.jobs;
}

unfoldable pub pause_all : ℕ → AppState → AppState
unfolding pause_sweep pause_begun
pause_all now_ms s =
    (pause_sweep now_ms (length s.jobs + 1) (record { tried = []; state = pause_begun s })).state

abbrev announce_stops : List (ℕ × QueueRunTally) → AppState → AppState
announce_stops [] s = s
announce_stops ((q, t) ∷ m) s = announce_stops m (send (queue_stopped q) s)

unfoldable pub stop_all : ℕ → AppState → AppState
unfolding pause_all
stop_all now_ms s =
    pause_all now_ms (announce_stops s.active_queues (record s { active_queues = [] }))

unfoldable pub resume_each : ℕ → Host → List ℕ → AppState → AppState
unfolding mark_run_intent resume
resume_each now_ms h [] s = s
resume_each now_ms h (id ∷ ids) s =
    resume_each now_ms h ids (resume now_ms h id (mark_run_intent id false s)).0

abbrev is_resumable_now : JobEntry → Bool
is_resumable_now e = is_startable e.live_phase && not (integrity_failed e.job)

unfoldable pub resume_all : ℕ → Host → AppState → AppState
unfolding resume_each
resume_all now_ms h s =
    resume_each now_ms h (map (λ e. e.job.id) (filter is_resumable_now s.jobs))
      (record s { active_queues = map (suspend false) s.active_queues })
