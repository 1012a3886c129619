-- ===== src/Transfer.antt =====
-- src/data/state.rs, `apply_odl_event` and `StateLiveBridge`, with the counters of a part in
-- src/data/runner.rs: what the events of a run change about its job. The events are those of the
-- download engine, a package that the code matches on; the size that it reports for a part without
-- an end is a parameter. The counts of retries (u32) are taken to stay in range. Sets and maps of parts are lists in order of arrival.
pub mod Stopped
pub mod Timed
pub mod Parts
use oxdm.Prelude.{
  ℕ, ◌+◌, ◌-◌, ◌^◌, Bool, true, false, ◌&&◌, ◌||◌, Option, none, some, List, [], ◌∷◌, ltb, leb,
  ◌==◌, if◌then◌else◌, not, filter, any, same_text, codes,
}
use oxdm.Job.{Phase, is_downloading, is_reconnecting}
use oxdm.Entry.{JobEntry, LiveCounters, PartCounters, set_phase, set_run_phase, reset_live_speed}
use oxdm.Table.{update}

-- The phases of the engine; `other` is any that it may add.
pub data OdlPhase : Type 0 where
  evaluating resolving_conflicts downloading assembling flushing verifying other : OdlPhase

-- src/data/mapping.rs.
unfoldable pub phase_from_odl : OdlPhase → Phase
phase_from_odl OdlPhase.evaluating = Phase.evaluating
phase_from_odl OdlPhase.resolving_conflicts = Phase.resolving_conflicts
phase_from_odl OdlPhase.downloading = Phase.downloading
phase_from_odl OdlPhase.assembling = Phase.assembling
phase_from_odl OdlPhase.flushing = Phase.flushing
phase_from_odl OdlPhase.verifying = Phase.verifying
phase_from_odl OdlPhase.other = Phase.assembling

-- The events that the code acts on, with what it reads of each; `ignored` is any other. A ulid is
-- its characters, a rate the bits of an `f64`.
pub data OdlProgressEvent : Type 0 where
  progress : ℕ → Option ℕ → OdlProgressEvent  -- downloaded, total
  speed : ℕ → OdlProgressEvent
  part_added : List ℕ → ℕ → ℕ → OdlProgressEvent  -- ulid, offset, size
  parts_cleared : OdlProgressEvent
  part_progress : List ℕ → ℕ → ℕ → OdlProgressEvent  -- ulid, downloaded, total
  retry_scheduled : Option (List ℕ) → OdlProgressEvent
  part_retrying : List ℕ → OdlProgressEvent
  part_speed : List ℕ → ℕ → OdlProgressEvent
  part_finished : List ℕ → OdlProgressEvent
  connection_limit_changed : ℕ → OdlProgressEvent
  phase_changed : OdlPhase → OdlProgressEvent
  cancelled ignored : OdlProgressEvent

-- `PART_SAMPLE_GRACE_MS`.
abbrev pub part_sample_grace_ms : ℕ
part_sample_grace_ms = 1500

-- `PartCounters::is_connected`; a sample from ahead of the clock counts as now.
unfoldable pub is_connected : ℕ → PartCounters → Bool
is_connected now_ms p = ltb 0 p.sampled_at_ms && leb (now_ms - p.sampled_at_ms) part_sample_grace_ms

abbrev pub has_text : List (List ℕ) → List ℕ → Bool
has_text ts t = any (same_text t) ts

abbrev pub insert_text : List ℕ → List (List ℕ) → List (List ℕ)
insert_text t ts = if has_text ts t then ts else t ∷ ts

abbrev pub remove_text : List ℕ → List (List ℕ) → List (List ℕ)
remove_text t = filter (λ u. not (same_text t u))

abbrev pub is_transferring : ℕ → List (List ℕ) → PartCounters → Bool
is_transferring now_ms retrying p =
    not p.finished && (is_connected now_ms p && not (has_text retrying p.ulid))

-- `JobEntry::any_part_transferring`; the lock is free, as each step runs by itself.
unfoldable pub any_part_transferring : ℕ → JobEntry → Bool
unfolding is_connected
any_part_transferring now_ms e =
    if e.parts_stale then false else any (is_transferring now_ms e.retrying_parts) e.parts

unfoldable pub retry_phase : ℕ → JobEntry → Phase
unfolding any_part_transferring
retry_phase now_ms e =
    if any_part_transferring now_ms e then Phase.downloading else Phase.reconnecting

-- A write to the part of this ulid, where there is one.
unfoldable pub edit_part :
    List ℕ → (PartCounters → PartCounters) → List PartCounters → List PartCounters
edit_part ulid f [] = []
edit_part ulid f (p ∷ ps) = if same_text ulid p.ulid then f p ∷ ps else p ∷ edit_part ulid f ps

-- `IndexMap::insert`: a part of the same ulid is replaced where it stands.
unfoldable pub insert_part : PartCounters → List PartCounters → List PartCounters
insert_part q [] = q ∷ []
insert_part q (p ∷ ps) = if same_text q.ulid p.ulid then q ∷ ps else p ∷ insert_part q ps

-- `WHOLE_JOB_RETRY`.
abbrev pub whole_job_retry : List ℕ
whole_job_retry = 0 ∷ codes "whole-job"

abbrev pub retry_key : Option (List ℕ) → List ℕ
retry_key none = whole_job_retry
retry_key (some ulid) = ulid

abbrev or_zero : Option ℕ → ℕ
or_zero none = 0
or_zero (some n) = n

abbrev u32_max : ℕ
u32_max = 2 ^ 32 - 1

abbrev not_resumable : Option Bool → Bool
not_resumable (some false) = true
not_resumable _ = false

-- The first part of a new run takes the place of the last run's.
abbrev unstaled : JobEntry → JobEntry
unstaled e =
    if e.parts_stale
    then record e {
      parts_stale = false;
      parts = [];
      counters = record (e.counters) {
        downloaded = if not_resumable e.is_resumable then 0 else e.counters.downloaded;
      };
    }
    else e

module _ (unknown_part_size : ℕ) where
  -- `part_size`.
  unfoldable pub part_size : ℕ → ℕ
  part_size reported = if reported == unknown_part_size then 0 else reported

  -- `PartCounters::apply_progress` and `mark_sampled`.
  unfoldable pub sampled : ℕ → ℕ → ℕ → PartCounters → PartCounters
  unfolding part_size
  sampled now_ms downloaded total p = record p {
    downloaded = downloaded;
    size = part_size total;
    sampled_at_ms = now_ms;
  }

  abbrev pub new_part : List ℕ → ℕ → ℕ → PartCounters
  new_part ulid offset size = record {
    ulid = ulid;
    offset = offset;
    size = part_size size;
    downloaded = 0;
    speed_bps_bits = 0;
    finished = false;
    sampled_at_ms = 0;
  }

  -- The end of `PartProgress`, given whether this was the last part mid-retry.
  abbrev pub after_sample : ℕ → Bool → JobEntry → JobEntry
  after_sample now_ms all_clear e =
      if is_reconnecting e.live_phase && (all_clear || any_part_transferring now_ms e)
      then set_run_phase now_ms Phase.downloading e
      else e

  unfoldable pub apply_odl_event : ℕ → OdlProgressEvent → JobEntry → JobEntry
  unfolding part_size sampled edit_part insert_part any_part_transferring retry_phase phase_from_odl
      set_run_phase set_phase reset_live_speed
  apply_odl_event now_ms (progress downloaded total) e = record e {
    counters = record (e.counters) {
      downloaded = if ltb 0 downloaded then downloaded else e.counters.downloaded;
      total = or_zero total;
    };
  }
  apply_odl_event now_ms (speed bits) e = record e {
    counters = record (e.counters) { speed_bps_bits = bits };
  }
  apply_odl_event now_ms (part_added ulid offset size) e =
      let fresh = unstaled e in
      record fresh { parts = insert_part (new_part ulid offset size) fresh.parts }
  apply_odl_event now_ms parts_cleared e = record e {
    parts = [];
    parts_stale = false;
    counters = record (e.counters) { downloaded = 0 };
  }
  apply_odl_event now_ms (part_progress ulid downloaded total) e =
      let left = remove_text ulid e.retrying_parts in
      after_sample now_ms (has_text e.retrying_parts ulid && elim left [ [] ↦ true | _ ↦ false ])
        (record e {
          parts = edit_part ulid (sampled now_ms downloaded total) e.parts;
          retrying_parts = left;
        })
  apply_odl_event now_ms (retry_scheduled ulid) e =
      let marked = record e { retrying_parts = insert_text (retry_key ulid) e.retrying_parts } in
      set_run_phase now_ms (retry_phase now_ms marked) marked
  apply_odl_event now_ms (part_retrying ulid) e =
      let marked = record e {
        retries = e.retries + 1;
        interruptions = e.interruptions + 1;
        retrying_parts = insert_text ulid e.retrying_parts;
      } in
      set_run_phase now_ms (retry_phase now_ms marked) marked
  apply_odl_event now_ms (part_speed ulid bits) e = record e {
    parts =
        edit_part ulid (λ p. record p { speed_bps_bits = bits; sampled_at_ms = now_ms }) e.parts;
  }
  apply_odl_event now_ms (part_finished ulid) e = record e {
    parts = edit_part ulid (λ p. record p { finished = true }) e.parts;
  }
  apply_odl_event now_ms (connection_limit_changed n) e = record e {
    connection_limit = if ltb u32_max n then u32_max else n;
  }
  apply_odl_event now_ms (phase_changed p) e =
      let phase = phase_from_odl p in
      set_run_phase now_ms phase (record e {
        started_at_ms =
            if is_downloading phase && (e.started_at_ms == 0) then now_ms else e.started_at_ms;
      })
  apply_odl_event now_ms cancelled e = reset_live_speed (set_phase now_ms Phase.paused e)
  apply_odl_event now_ms ignored e = e

  -- A run's events, each with the moment at which it is applied.
  unfoldable pub apply_all : List (ℕ × OdlProgressEvent) → JobEntry → JobEntry
  unfolding apply_odl_event
  apply_all [] e = e
  apply_all ((now_ms, ev) ∷ evs) e = apply_all evs (apply_odl_event now_ms ev e)

  -- `apply_to_job`: the entry is looked up under the list's lock; an event of a job that is gone is
  -- dropped.
  unfoldable pub apply_to_job : ℕ → ℕ → OdlProgressEvent → List JobEntry → List JobEntry
  unfolding apply_odl_event
  apply_to_job now_ms id ev = update id (apply_odl_event now_ms ev)
