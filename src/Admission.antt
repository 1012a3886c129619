-- ===== src/Admission.antt =====
-- src/data/state.rs: who may start, who waits for a slot, and whom a stop or a smaller cap takes.
-- A `HashSet` of ids that a pass has already picked up is a list.
pub mod Slots
use oxdm.Prelude.{
  ℕ, Bool, true, false, ◌&&◌, ◌||◌, Option, none, some, List, [], ◌∷◌, map, leb, ◌==◌,
  if◌then◌else◌, not, max, filter, find, find_last, count, contains,
}
use oxdm.Job.{Phase, queued, paused, failed, is_running, is_queued, is_assembling, integrity_failed}
use oxdm.Entry.{JobEntry}

pub data Admission : Type 0 where
  already_running defer start : Admission

unfoldable pub admit : Bool → Bool → Bool → Admission
admit running manual slots_full =
    if running then already_running else if not manual && slots_full then defer else start

abbrev pub phase_running : JobEntry → Bool
phase_running e = is_running e.live_phase

abbrev pub in_queue : ℕ → JobEntry → Bool
in_queue q e = e.job.queue_id == q

abbrev pub running_in : ℕ → JobEntry → Bool
running_in q e = in_queue q e && phase_running e

unfoldable pub running_global : List JobEntry → ℕ
running_global = count phase_running

unfoldable pub running_here : ℕ → List JobEntry → ℕ
running_here q = count (running_in q)

abbrev at_queue_cap : ℕ → Option ℕ → Bool
at_queue_cap here none = false
at_queue_cap here (some cap) = leb (max cap 1) here

unfoldable pub slots_full : List JobEntry → ℕ → ℕ → Option ℕ → Bool
unfolding running_global running_here
slots_full jobs global queue per_queue =
    if leb (max global 1) (running_global jobs)
    then true
    else at_queue_cap (running_here queue jobs) per_queue

abbrev pub entry_id : Option JobEntry → Option ℕ
entry_id none = none
entry_id (some e) = some e.job.id

abbrev pub is_deferred : List ℕ → JobEntry → Bool
is_deferred skip e =
    e.deferred_by_cap && (is_queued e.live_phase && (not e.running && not (contains skip e.job.id)))

unfoldable pub next_deferred : List JobEntry → List ℕ → Option ℕ
next_deferred jobs skip = entry_id (find (is_deferred skip) jobs)

unfoldable pub clear_queue_deferrals : List JobEntry → ℕ → List JobEntry
clear_queue_deferrals jobs queue =
    map (λ (e : JobEntry). if in_queue queue e then record e { deferred_by_cap = false } else e)
      jobs

-- A run of the queue's own that can be stopped.
abbrev pub is_stop_target : ℕ → JobEntry → Bool
is_stop_target q e =
    in_queue q e && (phase_running e && (not (is_assembling e.live_phase) && not e.manual_run))

unfoldable pub queue_stop_targets : List JobEntry → ℕ → List ℕ
queue_stop_targets jobs queue = map (λ e. e.job.id) (filter (is_stop_target queue) jobs)

unfoldable pub next_over_cap : List JobEntry → ℕ → ℕ → List ℕ → Option ℕ
unfolding running_here
next_over_cap jobs queue cap skip =
    if leb (running_here queue jobs) (max cap 1)
    then none
    else entry_id (find_last (λ e. is_stop_target queue e && not (contains skip e.job.id)) jobs)

abbrev fill_eligible : Phase → Bool → Bool
fill_eligible queued failed_now = true
fill_eligible paused failed_now = true
fill_eligible failed failed_now = not failed_now
fill_eligible _ failed_now = false

-- The candidate of `fill_queue_slots`.
abbrev pub is_candidate : ℕ → List ℕ → List ℕ → JobEntry → Bool
is_candidate queue failed_now tried e =
    in_queue queue e
    && (fill_eligible e.live_phase (contains failed_now e.job.id)
        && (not (integrity_failed e.job) && not (contains tried e.job.id)))

unfoldable pub next_candidate : List JobEntry → ℕ → List ℕ → List ℕ → Option ℕ
next_candidate jobs queue failed_now tried =
    entry_id (find (is_candidate queue failed_now tried) jobs)
