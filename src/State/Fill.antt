-- ===== src/State/Fill.antt =====
-- src/data/state.rs: giving free slots to what is waiting. A loop that tries each download once
-- takes fuel; `tried` is what makes it end, and the table's length is fuel enough.
pub mod Within
pub mod Ends
pub mod Deferred
use oxdm.Prelude.{
  ℕ, zero, suc, ◌+◌, Bool, true, false, ◌&&◌, ◌||◌, Option, none, some, List, [], ◌∷◌, leb,
  if◌then◌else◌, not, max, length,
}
use oxdm.Job.{JobError, deferred}
use oxdm.Entry.{JobEntry}
use oxdm.Table.{job_entry}
use oxdm.Admission.{running_global, running_here, next_candidate, next_deferred}
use oxdm.State.{
  AppState, QueueRunTally, edit_job, feeds_itself, get_tally, queue_feeds_itself, queue_halted,
  queue_limit, queue_of, mark_run_intent,
}
use oxdm.State.Start.{Host, start_job, slots_full_for}

-- `mark_run_intent(id, false)` and the start that follows it.
unfoldable pub start_automatically : ℕ → Host → ℕ → AppState → AppState × Option JobError
unfolding mark_run_intent
start_automatically now_ms h id s = start_job now_ms h id (mark_run_intent id false s)

-- The variables of a pass: what it has tried, and the state.
pub record Pass : Type 0 where
  pub tried : List ℕ
  pub state : AppState

-- The caps and the failures of the run, as `fill_queue_slots` reads them on the way in.
pub record Filling : Type 0 where
  pub queue_id : ℕ
  pub global_cap : ℕ
  pub queue_cap : ℕ
  pub failed_now : List ℕ

-- Why a pass picks nothing more: the run no longer feeds itself, or a cap is reached.
unfoldable pub is_full : Filling → AppState → Bool
unfolding running_global running_here queue_feeds_itself
is_full f s =
    not (queue_feeds_itself f.queue_id s)
    || (leb f.global_cap (running_global s.jobs)
        || leb f.queue_cap (running_here f.queue_id s.jobs))

unfoldable pub next_fill : Filling → Pass → Option ℕ
unfolding is_full next_candidate
next_fill f p =
    if is_full f p.state then none else next_candidate p.state.jobs f.queue_id f.failed_now p.tried

unfoldable pub fill_loop : ℕ → Host → Filling → ℕ → Pass → Pass
unfolding start_automatically
fill_loop now_ms h f zero p = p
fill_loop now_ms h f (suc fuel) p = elim (next_fill f p) [
  | none ↦ p
  | some id ↦
      fill_loop now_ms h f fuel
        (record { tried = id ∷ p.tried; state = (start_automatically now_ms h id p.state).0 })
]

abbrev pub ended : Option ℕ → List ℕ
ended none = []
ended (some id) = id ∷ []

abbrev pub or_global : Option ℕ → ℕ → ℕ
or_global none global = global
or_global (some n) global = n

unfoldable pub filling : ℕ → List ℕ → AppState → Filling
unfolding queue_limit
filling queue_id failed_now s =
    let global_cap = max s.max_concurrent_downloads 1 in
    record {
      queue_id = queue_id;
      global_cap = global_cap;
      queue_cap = max (or_global (queue_limit queue_id s) global_cap) 1;
      failed_now = failed_now;
    }

abbrev pub fill_run : ℕ → Host → ℕ → Option ℕ → Option QueueRunTally → AppState → AppState
fill_run now_ms h queue_id just_ended none s = s
fill_run now_ms h queue_id just_ended (some t) s =
    if s.exiting || not (feeds_itself t)
    then s
    else (fill_loop now_ms h (filling queue_id t.failed_now s) (length s.jobs)
        (record { tried = ended just_ended; state = s })).state

unfoldable pub fill_queue_slots : ℕ → Host → ℕ → Option ℕ → AppState → AppState
unfolding get_tally feeds_itself filling fill_loop
fill_queue_slots now_ms h queue_id just_ended s =
    fill_run now_ms h queue_id just_ended (get_tally queue_id s.active_queues) s

-- A refusal that is no matter of slots takes the mark off.
abbrev pub settle : ℕ → AppState × Option JobError → AppState
settle id (s, none) = s
settle id (s, some deferred) = s
settle id (s, some err) = edit_job id (λ e. record e { deferred_by_cap = false }) s

-- One turn of the loop of `fill_deferred_slots_inner`, on the download that it picked.
unfoldable pub try_deferred : ℕ → Host → ℕ → AppState → AppState
unfolding start_automatically slots_full_for queue_halted queue_of
try_deferred now_ms h id s =
    let q = queue_of id s in
    if slots_full_for q s
    then s
    else if queue_halted q s
    then s
    else settle id (start_automatically now_ms h id s)

unfoldable pub deferred_loop : ℕ → Host → ℕ → Pass → Pass
unfolding try_deferred next_deferred
deferred_loop now_ms h zero p = p
deferred_loop now_ms h (suc fuel) p =
    if p.state.exiting then p else elim (next_deferred p.state.jobs p.tried) [
      | none ↦ p
      | some id ↦
          deferred_loop now_ms h fuel
            (record { tried = id ∷ p.tried; state = try_deferred now_ms h id p.state })
    ]

unfoldable pub fill_deferred_slots : ℕ → Host → AppState → AppState
unfolding deferred_loop
fill_deferred_slots now_ms h s =
    (deferred_loop now_ms h (length s.jobs) (record { tried = []; state = s })).state
