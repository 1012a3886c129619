-- ===== src/State/Start.antt =====
-- src/data/state.rs, `start_run`: from the checks to the spawned runner. What the operating system
-- answers is the `Host`. The wait for a previous run to let go (`settle_previous_run`) leaves the
-- state to the steps of others, and is none here; so a job that still holds `running` is one whose
-- previous run has not let go in time.
use oxdm.Prelude.{
  ℕ, ◌+◌, Bool, true, false, ◌&&◌, Option, none, some, List, [], ◌∷◌, ◌++◌, map, ltb, if◌then◌else◌,
  any, codes, max, not,
}
use oxdm.Checksum.{Checksum, CsStatus, unverified}
use oxdm.Job.{queued, evaluating, is_queued, JobError, other, deferred, io, insufficient_space}
use oxdm.Entry.{JobEntry, LiveCounters, set_phase}
use oxdm.Table.{job_entry}
use oxdm.Space.{Need, Short, required_by_volume, shortfall}
use oxdm.Admission.{Admission, already_running, defer, start, admit, slots_full}
use oxdm.State.{
  AppState, QueueRunTally, new_tally, send, edit_job, job_updated, get_tally, put_tally,
  queue_limit,
}
use oxdm.State.Pause.{job_not_found}

-- The volume of a folder, the free bytes on it, and what creating it fails with.
pub record Host : Type 0 where
  pub volume : List ℕ → ℕ
  pub free : List ℕ → Option ℕ
  pub create_dir_all : List ℕ → Option (List ℕ)

abbrev pub known_total : LiveCounters → Option ℕ → Option ℕ
known_total c stored = if ltb 0 c.total then some c.total else stored

-- `AppState::space_need`: the live counter before the stored one.
unfoldable pub space_need : JobEntry → List ℕ → Need
space_need e work_dir = record {
  work_dir = work_dir;
  save_dir = e.job.save_dir;
  total = known_total e.counters e.job.status.total;
  downloaded = max e.counters.downloaded e.job.status.downloaded;
}

abbrev pub space_error : Option Short → Option JobError
space_error none = none
space_error (some s) = some (insufficient_space s.path s.needed s.available)

unfoldable pub refuse_if_short_on_space : Host → List Need → Option JobError
refuse_if_short_on_space h needs =
    space_error (shortfall h.free (required_by_volume h.volume needs))

unfoldable pub slots_full_for : ℕ → AppState → Bool
slots_full_for q s = slots_full s.jobs s.max_concurrent_downloads q (queue_limit q s)

-- The claim: the phase goes with it, since every cap is counted by phase.
unfoldable pub claimed_entry : ℕ → Bool → JobEntry → JobEntry
unfolding set_phase
claimed_entry now_ms resumed e = set_phase now_ms evaluating (record e {
  running = true;
  interruptions =
      if resumed && ltb 0 e.counters.downloaded then e.interruptions + 1 else e.interruptions;
  deferred_by_cap = false;
})

unfoldable pub deferred_entry : ℕ → JobEntry → JobEntry
unfolding set_phase
deferred_entry now_ms e =
    let marked = record e { deferred_by_cap = true } in
    if is_queued e.live_phase then marked else set_phase now_ms queued marked

abbrev is_unverified : CsStatus → Bool
is_unverified unverified = true
is_unverified _ = false

abbrev forget_verdict : Checksum → Checksum
forget_verdict c = record c { status = unverified; expected = none }

-- `supersede_last_run`: the error, the file and the verdicts of the last run go.
unfoldable pub superseded_entry : JobEntry → JobEntry
superseded_entry e =
    let stale = any (λ (c : Checksum). not (is_unverified c.status)) e.job.checksums in
    let cleared = record e {
      started_at_ms = 0;
      finished_at_ms = 0;
      retries = 0;
      last_error = none;
      final_path = none;
    } in
    if stale
    then record cleared {
      job = record (e.job) {
        checksums = map forget_verdict e.job.checksums;
        status = record (e.job.status) { final_path = none };
      };
    }
    else cleared

-- The fresh token, and what is reset between the claim and the runner.
unfoldable pub prepared_entry : JobEntry → JobEntry
unfolding superseded_entry
prepared_entry e = record (superseded_entry (record e { cancel = false })) {
  parts_stale = true;
  retrying_parts = [];
  connection_limit = 0;
}

abbrev pub work_root_or : Option (List ℕ) → List ℕ → List ℕ
work_root_or none work_dir = work_dir
work_root_or (some root) work_dir = root

unfoldable pub released_entry : ℕ → JobEntry → JobEntry
unfolding set_phase
released_entry now_ms e = set_phase now_ms queued (record e { running = false })

-- The run of the queue is joined, never replaced.
abbrev pub joined : ℕ → Option QueueRunTally → List (ℕ × QueueRunTally) → List (ℕ × QueueRunTally)
joined q none m = put_tally q new_tally m
joined q (some t) m = m

unfoldable pub join_run : ℕ → AppState → AppState
unfolding get_tally put_tally
join_run q s = record s { active_queues = joined q (get_tally q s.active_queues) s.active_queues }

abbrev pub cache_folder_error : List ℕ → List ℕ → JobError
cache_folder_error root reason =
    io (codes "cannot use the cache folder " ++ (root ++ (codes ": " ++ reason)))

-- The cache folder is made and recorded; the runner is spawned where that worked.
abbrev pub spawned : ℕ → ℕ → ℕ → List ℕ → Option (List ℕ) → AppState → AppState × Option JobError
spawned now_ms id q root none s = (
  join_run q (
      edit_job id
        (λ e. record e {
          job = record (e.job) { work_root = some (work_root_or e.job.work_root root) };
        })
        s),
  none,
)
spawned now_ms id q root (some reason) s = (
  send (job_updated id queued) (edit_job id (released_entry now_ms) s),
  some (cache_folder_error root reason),
)

unfoldable pub launch : ℕ → Host → JobEntry → AppState → AppState × Option JobError
unfolding prepared_entry released_entry join_run
launch now_ms h e s =
    let root = work_root_or e.job.work_root s.work_dir in
    spawned now_ms e.job.id e.job.queue_id root (h.create_dir_all root)
      (edit_job e.job.id prepared_entry s)

-- The three answers of `admit`.
abbrev pub admitted : ℕ → Host → Bool → JobEntry → Admission → AppState → AppState × Option JobError
admitted now_ms h resumed e already_running s = (s, none)
admitted now_ms h resumed e defer s =
    let s' = edit_job e.job.id (deferred_entry now_ms) s in
    (if is_queued e.live_phase then s' else send (job_updated e.job.id queued) s', some deferred)
admitted now_ms h resumed e start s =
    launch now_ms h e
      (send (job_updated e.job.id evaluating) (edit_job e.job.id (claimed_entry now_ms resumed) s))

abbrev pub space_checked :
    ℕ → Host → Bool → JobEntry → Option JobError → AppState → AppState × Option JobError
space_checked now_ms h resumed e (some err) s = (s, some err)
space_checked now_ms h resumed e none s =
    admitted now_ms h resumed e (admit e.running e.manual_run (slots_full_for e.job.queue_id s)) s

abbrev pub found : ℕ → Host → Bool → Option JobEntry → AppState → AppState × Option JobError
found now_ms h resumed none s = (s, some job_not_found)
found now_ms h resumed (some e) s =
    space_checked now_ms h resumed e (refuse_if_short_on_space h (space_need e s.work_dir ∷ [])) s

unfoldable pub start_run : ℕ → Host → ℕ → Bool → AppState → AppState × Option JobError
unfolding deferred_entry claimed_entry launch
start_run now_ms h id resumed s =
    if s.exiting
    then (s, some (other (codes "oxdm is shutting down")))
    else found now_ms h resumed (job_entry id s.jobs) s

unfoldable pub start_job : ℕ → Host → ℕ → AppState → AppState × Option JobError
unfolding start_run
start_job now_ms h id = start_run now_ms h id false
