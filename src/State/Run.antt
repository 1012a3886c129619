-- ===== src/State/Run.antt =====
-- src/data/state.rs: what the end of a run writes, and what the queue does next. The outcome is
-- the runner's, and is a parameter; so is whether a window was open to ask in.
pub mod Bounds
use oxdm.Prelude.{
  ℕ, ◌+◌, Bool, true, false, ◌&&◌, ◌||◌, Option, none, some, List, [], ◌∷◌, ltb, ◌==◌,
  if◌then◌else◌, not, any, filter, contains,
}
use oxdm.Job.{
  Phase, queued, evaluating, paused, conflict, JobError, server_conflict, not_resumable,
  file_changed, save_conflict, checksum_mismatch, conflict_pending,
}
use oxdm.Entry.{JobEntry, set_phase, reset_live_speed, end_with}
use oxdm.Queue.{Queue, LocalTime, spent_by_run, manual}
use oxdm.Admission.{in_queue}
use oxdm.State.{
  AppState, QueueRunTally, send, edit_job, job_completed, job_updated, job_failed, queue_finished,
  queues_changed, queue, get_tally, put_tally, remove_tally, move_to_queue_end,
}
use oxdm.State.Start.{Host}
use oxdm.State.Fill.{fill_queue_slots, fill_deferred_slots}
use oxdm.State.Queues.{trim_to_queue_cap}

pub data JobOutcome : Type 0 where
  completed failed needs_answer cancelled : JobOutcome

-- `is_conflict`: a question that the user can settle.
unfoldable pub is_conflict : JobError → Bool
is_conflict (server_conflict _) = true
is_conflict (not_resumable _) = true
is_conflict (file_changed _) = true
is_conflict (save_conflict _) = true
is_conflict _ = false

-- What a run comes back with: the path it wrote, and whether it was there already.
pub data RunOutcome : Type 0 where
  done : Option (List ℕ) → Bool → RunOutcome
  error : JobError → RunOutcome

unfoldable pub outcome_of : RunOutcome → JobOutcome
unfolding is_conflict
outcome_of (done path already) = JobOutcome.completed
outcome_of (error JobError.cancelled) = JobOutcome.cancelled
outcome_of (error e) = if is_conflict e then needs_answer else JobOutcome.failed

abbrev pub add_id : ℕ → List ℕ → List ℕ
add_id id ids = if contains ids id then ids else id ∷ ids

abbrev pub remove_id : ℕ → List ℕ → List ℕ
remove_id id = filter (λ k. not (k == id))

-- The counts are `u32`, which a queue's run does not fill.
unfoldable pub tally_outcome : ℕ → JobOutcome → QueueRunTally → QueueRunTally
tally_outcome id JobOutcome.completed t = record t {
  completed = t.completed + 1;
  failed_now = remove_id id t.failed_now;
}
tally_outcome id JobOutcome.failed t = record t {
  failed = t.failed + 1;
  failed_now = add_id id t.failed_now;
}
tally_outcome id needs_answer t = record t {
  needs_answer = t.needs_answer + 1;
  failed_now = add_id id t.failed_now;
}
tally_outcome id JobOutcome.cancelled t = record t { failed_now = remove_id id t.failed_now }

abbrev tallied :
    ℕ
    → (QueueRunTally → QueueRunTally)
    → Option QueueRunTally
    → List (ℕ × QueueRunTally)
    → List (ℕ × QueueRunTally)
tallied q f none m = m
tallied q f (some t) m = put_tally q (f t) m

unfoldable pub tally_queue_outcome : ℕ → ℕ → JobOutcome → AppState → AppState
unfolding get_tally put_tally tally_outcome
tally_queue_outcome q id outcome s = record s {
  active_queues =
      tallied q (tally_outcome id outcome) (get_tally q s.active_queues) s.active_queues;
}

-- The counters pinned to the whole: the known total, or what arrived.
unfoldable pub completed_entry : ℕ → Option (List ℕ) → JobEntry → JobEntry
unfolding set_phase reset_live_speed
completed_entry now_ms path e =
    let e' =
      reset_live_speed (record (set_phase now_ms Phase.completed e) { finished_at_ms = now_ms }) in
    let total = e.counters.total in
    let got = e.counters.downloaded in
    record e' {
      counters = record (e'.counters) {
        downloaded = if ltb 0 total then total else got;
        total = if ltb 0 total then total else got;
      };
      final_path = path;
    }

abbrev is_mismatch_error : JobError → Bool
is_mismatch_error (checksum_mismatch _ _) = true
is_mismatch_error _ = false

unfoldable pub failed_entry : ℕ → JobError → JobEntry → JobEntry
unfolding end_with
failed_entry now_ms err e =
    let e' = end_with now_ms Phase.failed err e in
    if is_mismatch_error err
    then record e' {
      finished_at_ms = now_ms;
      counters = record (e'.counters) {
        downloaded = if ltb 0 e.counters.total then e.counters.total else e.counters.downloaded;
      };
    }
    else e'

-- `park_with_conflict`.
unfoldable pub park_with_conflict : ℕ → ℕ → JobError → AppState → AppState
unfolding move_to_queue_end end_with
park_with_conflict now_ms id cause s =
    let err = conflict_pending cause in
    send (job_failed id err) (edit_job id (end_with now_ms conflict err) (move_to_queue_end id s))

abbrev path_or_empty : Option (List ℕ) → List ℕ
path_or_empty none = []
path_or_empty (some p) = p

abbrev pub failed_run : ℕ → ℕ → Bool → JobError → AppState → AppState
failed_run now_ms id park err s =
    let s' = move_to_queue_end id (edit_job id (failed_entry now_ms err) s) in
    if park && is_conflict err
    then park_with_conflict now_ms id err s'
    else send (job_failed id err) s'

-- The outcome written to the job, its `match` in the source.
unfoldable pub write_outcome : ℕ → ℕ → Bool → RunOutcome → AppState → AppState
unfolding completed_entry failed_entry set_phase reset_live_speed is_conflict park_with_conflict
    move_to_queue_end
write_outcome now_ms id park (done path already) s = send (job_updated id Phase.completed) (
    send (job_completed id (path_or_empty path) already)
      (edit_job id (completed_entry now_ms path) s))
write_outcome now_ms id park (error JobError.cancelled) s =
    send (job_updated id paused) (edit_job id (λ e. reset_live_speed (set_phase now_ms paused e)) s)
write_outcome now_ms id park (error err) s = failed_run now_ms id park err s

abbrev pub put_queue : Queue → List Queue → List Queue
put_queue q [] = q ∷ []
put_queue q (p ∷ ps) = if p.id == q.id then q ∷ ps else p ∷ put_queue q ps

-- `upsert_queue`, where the database takes the queue.
unfoldable pub upsert_queue : ℕ → Queue → AppState → AppState
unfolding trim_to_queue_cap
upsert_queue now_ms q s =
    let saved = if q.id == s.main_queue_id then record q { builtin = true } else q in
    trim_to_queue_cap now_ms q.id
      (send queues_changed (record s { queues = put_queue saved s.queues }))

-- `spend_one_off_schedule`.
abbrev pub spent : ℕ → LocalTime → Option Queue → AppState → AppState
spent now_ms now none s = s
spent now_ms now (some q) s =
    if spent_by_run q.schedule now
    then upsert_queue now_ms (record q { schedule = manual }) s
    else s

abbrev is_waiting : Phase → Bool
is_waiting queued = true
is_waiting evaluating = true
is_waiting _ = false

abbrev pub is_busy : ℕ → JobEntry → Bool
is_busy q e = in_queue q e && (e.running || is_waiting e.live_phase)

abbrev pub closed_run : ℕ → LocalTime → ℕ → Option QueueRunTally → AppState → AppState
closed_run now_ms now q none s = s
closed_run now_ms now q (some t) s =
    let s' = record s { active_queues = remove_tally q s.active_queues } in
    if t.queue_run
    then send (queue_finished q t.completed t.failed t.needs_answer)
        (spent now_ms now (queue q s') s')
    else s'

unfoldable pub maybe_finish_queue : ℕ → LocalTime → ℕ → AppState → AppState
unfolding get_tally remove_tally upsert_queue queue spent_by_run
maybe_finish_queue now_ms now q s =
    if any (is_busy q) s.jobs then s else closed_run now_ms now q (get_tally q s.active_queues) s

-- The epilogue of a run: the tally, the outcome, and only then the release of the job.
unfoldable pub settle_run : ℕ → ℕ → ℕ → Bool → RunOutcome → AppState → AppState
unfolding tally_queue_outcome outcome_of write_outcome
settle_run now_ms id q park outcome s =
    edit_job id (λ e. record e { running = false })
      (write_outcome now_ms id park outcome (tally_queue_outcome q id (outcome_of outcome) s))

unfoldable pub run_ended : ℕ → LocalTime → Host → ℕ → ℕ → Bool → RunOutcome → AppState → AppState
unfolding settle_run fill_queue_slots fill_deferred_slots maybe_finish_queue
run_ended now_ms now h id q park outcome s = maybe_finish_queue now_ms now q (
    fill_deferred_slots now_ms h
      (fill_queue_slots now_ms h q (some id) (settle_run now_ms id q park outcome s)))
