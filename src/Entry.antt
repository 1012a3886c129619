-- ===== src/Entry.antt =====
-- src/data/state.rs, `JobEntry`: a job with the live state of its run. The atomics are fields, a
-- call reads the clock as `now_ms` (epoch milliseconds), and 0 is "not set", as in the source.
-- What one step writes it writes at once; the interleaving is that of the steps.
pub mod Codes
pub mod Clock
use oxdm.Prelude.{
  ℕ, ◌+◌, ◌-◌, Bool, true, false, ◌&&◌, ◌||◌, Option, none, some, List, [], ◌∷◌, map, ltb, ◌==◌,
  if◌then◌else◌, not, any, same_text,
}
use oxdm.Job.{
  Phase, queued, evaluating, resolving_conflicts, downloading, assembling, flushing, verifying,
  paused, conflict, reconnecting, completed, failed, cancelled, is_running, is_downloading, Job,
  JobError,
}

-- src/data/runner.rs, `PartCounters`. A ulid is its characters; a speed is the bits of an `f64`.
pub record PartCounters : Type 0 where
  pub ulid : List ℕ
  pub offset : ℕ
  pub size : ℕ
  pub downloaded : ℕ
  pub speed_bps_bits : ℕ
  pub finished : Bool
  pub sampled_at_ms : ℕ

-- src/domain/job.rs, `LiveCounters`: a total of 0 is unknown.
pub record LiveCounters : Type 0 where
  pub downloaded : ℕ
  pub total : ℕ
  pub speed_bps_bits : ℕ

pub record JobEntry : Type 0 where
  pub job : Job
  pub live_phase : Phase
  pub counters : LiveCounters
  pub started_at_ms : ℕ
  pub active_ms : ℕ
  pub downloading_since_ms : ℕ
  pub finished_at_ms : ℕ
  pub retries : ℕ
  pub parts_stale : Bool
  pub interruptions : ℕ
  pub retrying_parts : List (List ℕ)
  pub parts : List PartCounters
  pub cancel : Bool  -- the run's token is cancelled
  pub running : Bool
  pub last_error : Option JobError
  pub manual_run : Bool
  pub deferred_by_cap : Bool
  pub is_resumable : Option Bool  -- 0, 1 and -1
  pub final_path : Option (List ℕ)
  pub connection_limit : ℕ

unfoldable pub encode_phase : Phase → ℕ
encode_phase queued = 0
encode_phase evaluating = 1
encode_phase resolving_conflicts = 2
encode_phase downloading = 3
encode_phase assembling = 4
encode_phase flushing = 5
encode_phase verifying = 6
encode_phase paused = 7
encode_phase completed = 8
encode_phase failed = 9
encode_phase cancelled = 10
encode_phase reconnecting = 11
encode_phase conflict = 12

unfoldable pub decode_phase : ℕ → Phase
decode_phase v =
    if v == 1
    then evaluating
    else if v == 2
    then resolving_conflicts
    else if v == 3
    then downloading
    else if v == 4
    then assembling
    else if v == 5
    then flushing
    else if v == 6
    then verifying
    else if v == 7
    then paused
    else if v == 8
    then completed
    else if v == 9
    then failed
    else if v == 10
    then cancelled
    else if v == 11
    then reconnecting
    else if v == 12
    then conflict
    else queued

-- Time in `Downloading` is banked as it is left.
unfoldable pub set_phase : ℕ → Phase → JobEntry → JobEntry
set_phase now_ms p e =
    let was = is_downloading e.live_phase in
    let since = e.downloading_since_ms in
    if is_downloading p
    then record e { downloading_since_ms = if was then since else now_ms; live_phase = p }
    else record e {
      downloading_since_ms = if was then 0 else since;
      active_ms = if was && ltb 0 since then e.active_ms + (now_ms - since) else e.active_ms;
      live_phase = p;
    }

-- `JobEntry::active_ms`, the stretch in progress included.
unfoldable pub active_time : ℕ → JobEntry → ℕ
active_time now_ms e =
    if ltb 0 e.downloading_since_ms
    then e.active_ms + (now_ms - e.downloading_since_ms)
    else e.active_ms

unfoldable pub reset_run_stats : JobEntry → JobEntry
reset_run_stats e = record e {
  active_ms = 0;
  downloading_since_ms = 0;
  started_at_ms = 0;
  finished_at_ms = 0;
  retries = 0;
  interruptions = 0;
  retrying_parts = [];
}

unfoldable pub reset_live_speed : JobEntry → JobEntry
reset_live_speed e = record e {
  counters = record (e.counters) { speed_bps_bits = 0 };
  parts = map (λ (p : PartCounters). record p { speed_bps_bits = 0 }) e.parts;
}

-- `JobEntry::end_with`: the error is written before the phase.
unfoldable pub end_with : ℕ → Phase → JobError → JobEntry → JobEntry
unfolding reset_live_speed set_phase
end_with now_ms p err e = reset_live_speed (set_phase now_ms p (record e { last_error = some err }))

-- `JobEntry::set_run_phase`: a run told to stop no longer reports.
unfoldable pub set_run_phase : ℕ → Phase → JobEntry → JobEntry
unfolding set_phase
set_run_phase now_ms p e = if e.cancel then e else set_phase now_ms p e

-- `JobEntry::winding_down`.
unfoldable pub winding_down : JobEntry → Bool
winding_down e = e.running && (e.cancel || not (is_running e.live_phase))

-- `JobEntry::speed_limit`.
unfoldable pub speed_limit : JobEntry → Option ℕ → Option ℕ
speed_limit e global = elim e.job.speed_limit_override [ none ↦ global | some n ↦ some n ]
