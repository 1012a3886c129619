-- ===== src/State/Queues.antt =====
-- src/data/state.rs: starting, stopping and trimming the run of a queue, and the same for all.
pub mod Stops
pub mod Trims
pub mod Trimmed
pub mod Capped
pub mod Ends
pub mod Off
pub mod Quiet
use oxdm.Prelude.{
  ℕ, zero, suc, ◌+◌, ◌-◌, Bool, true, false, ◌&&◌, ◌||◌, Option, none, some, List, [], ◌∷◌, ◌++◌,
  map, ◌==◌, if◌then◌else◌, not, max, length, filter, contains, count, any, codes,
}
use oxdm.Job.{is_startable, is_running, JobError, deferred, other, integrity_failed, Phase}
use oxdm.Entry.{JobEntry}
use oxdm.Queue.{Queue}
use oxdm.Space.{Need}
use oxdm.Admission.{in_queue, running_in, queue_stop_targets, clear_queue_deferrals, next_over_cap}
use oxdm.State.{
  AppState, QueueRunTally, new_tally, send, queue_started, queue_stopped, queue, get_tally,
  put_tally, remove_tally, is_queue_active,
}
use oxdm.State.Pause.{pause, pause_in_place}
use oxdm.State.Start.{Host, space_need, refuse_if_short_on_space}
use oxdm.State.Fill.{Pass, start_automatically, or_global}

-- The jobs that a start of the queue looks at.
abbrev pub in_snapshot : ℕ → JobEntry → Bool
in_snapshot q e = in_queue q e && not (integrity_failed e.job)

abbrev pub startable_in : ℕ → JobEntry → Bool
startable_in q e = in_snapshot q e && is_startable e.live_phase

abbrev pub opened : Option QueueRunTally → QueueRunTally
opened none = record new_tally { queue_run = true }
opened (some t) =
    if t.queue_run
    then record t { paused = false }
    else record t { queue_run = true; paused = false }

abbrev pub was_running : Option QueueRunTally → Bool
was_running none = false
was_running (some t) = t.queue_run

-- The loop over the snapshot: the budget, whether anything started, and the state.
pub record Starting : Type 0 where
  pub budget : ℕ
  pub started_any : Bool
  pub state : AppState

abbrev pub counted : Starting → AppState × Option JobError → Starting
counted st (s, none) = record { budget = st.budget - 1; started_any = true; state = s }
counted st (s, some deferred) = record st { started_any = true; state = s }
counted st (s, some err) = record st { state = s }

unfoldable pub start_each : ℕ → Host → List (ℕ × Phase) → Starting → Starting
unfolding start_automatically
start_each now_ms h [] st = st
start_each now_ms h ((id, phase) ∷ rest) st = start_each now_ms h rest (
    if st.budget == 0 || not (is_startable phase)
    then st
    else counted st (start_automatically now_ms h id st.state))

abbrev pub snapshot : ℕ → List JobEntry → List (ℕ × Phase)
snapshot q jobs = map (λ e. (e.job.id, e.live_phase)) (filter (in_snapshot q) jobs)

-- A queue that had nothing to start is not left marked as running.
abbrev pub concluded : ℕ → Bool → Starting → AppState
concluded q already st =
    if not st.started_any
    then (if already
        then st.state
        else record (st.state) { active_queues = remove_tally q st.state.active_queues })
    else if already
    then st.state
    else send (queue_started q) st.state

abbrev pub begun : ℕ → Host → Queue → AppState → AppState
begun now_ms h q s =
    let tally = get_tally q.id s.active_queues in
    let cap = max (or_global q.max_concurrent s.max_concurrent_downloads) 1 in
    let running_now = count (λ e. in_snapshot q.id e && is_running e.live_phase) s.jobs in
    concluded q.id (was_running tally) (
      start_each now_ms h (snapshot q.id s.jobs) (record {
        budget = cap - running_now;
        started_any = false;
        state = record s { active_queues = put_tally q.id (opened tally) s.active_queues };
      }))

abbrev pub fits_queue : ℕ → Host → Queue → Option JobError → AppState → AppState × Option JobError
fits_queue now_ms h q none s = (begun now_ms h q s, none)
fits_queue now_ms h q (some err) s = (s, some err)

abbrev pub space_needs : ℕ → AppState → List Need
space_needs q s = map (λ e. space_need e s.work_dir) (filter (startable_in q) s.jobs)

-- `if needs.is_empty() { return Ok(()) }` is what no demand comes to.
abbrev pub found_queue : ℕ → Host → Option Queue → AppState → AppState × Option JobError
found_queue now_ms h none s = (s, some (other (codes "queue not found")))
found_queue now_ms h (some q) s =
    fits_queue now_ms h q (refuse_if_short_on_space h (space_needs q.id s)) s

unfoldable pub start_queue : ℕ → Host → ℕ → AppState → AppState × Option JobError
unfolding queue start_each get_tally put_tally remove_tally
start_queue now_ms h id s = found_queue now_ms h (queue id s) s

unfoldable pub pause_each : ℕ → List ℕ → AppState → AppState
pause_each now_ms [] s = s
pause_each now_ms (id ∷ ids) s = pause_each now_ms ids (pause now_ms id s).0

abbrev pub untried : List ℕ → List ℕ → List ℕ
untried tried = filter (λ id. not (contains tried id))

-- The sweep of `stop_queue`, until a pass turns up nothing new.
unfoldable pub stop_sweep : ℕ → ℕ → ℕ → Pass → Pass
unfolding pause_each queue_stop_targets
stop_sweep now_ms q zero p = p
stop_sweep now_ms q (suc fuel) p = elim (untried p.tried (queue_stop_targets p.state.jobs q)) [
  | [] ↦ p
  | id ∷ ids ↦
      stop_sweep now_ms q fuel
        (record { tried = (id ∷ ids) ++ p.tried; state = pause_each now_ms (id ∷ ids) p.state })
]

abbrev pub switched_off :
    ℕ → Option QueueRunTally → List (ℕ × QueueRunTally) → List (ℕ × QueueRunTally)
switched_off q none m = m
switched_off q (some t) m = put_tally q (record t { queue_run = false }) m

abbrev pub has_tally : Option QueueRunTally → Bool
has_tally none = false
has_tally (some _) = true

-- The end of `stop_queue`: the tally stays while a hand-started download is still going.
abbrev pub closed_off : ℕ → Bool → AppState → AppState
closed_off q false s = s
closed_off q true s = send (queue_stopped q) (
    if any (λ e. running_in q e && e.manual_run) s.jobs
    then s
    else record s { active_queues = remove_tally q s.active_queues })

-- The run is switched off and the waiting marks go before anything is paused.
unfoldable pub stop_begun : ℕ → AppState → AppState
unfolding get_tally put_tally clear_queue_deferrals
stop_begun q s =
    let tally = get_tally q s.active_queues in
    record s {
      active_queues = switched_off q tally s.active_queues;
      jobs = clear_queue_deferrals s.jobs q;
    }

unfoldable pub stop_queue : ℕ → ℕ → AppState → AppState
unfolding stop_begun stop_sweep remove_tally
stop_queue now_ms q s =
    closed_off q (has_tally (get_tally q s.active_queues))
      (stop_sweep now_ms q (length s.jobs + 1)
        (record { tried = []; state = stop_begun q s })).state

-- `trim_to_queue_cap`, the loop and the call.
unfoldable pub trim_loop : ℕ → ℕ → ℕ → ℕ → Pass → Pass
unfolding next_over_cap pause_in_place
trim_loop now_ms q cap zero p = p
trim_loop now_ms q cap (suc fuel) p = elim (next_over_cap p.state.jobs q cap p.tried) [
  | none ↦ p
  | some id ↦
      trim_loop now_ms q cap fuel
        (record { tried = id ∷ p.tried; state = (pause_in_place now_ms id p.state).0 })
]

abbrev pub trimmed : ℕ → Option Queue → AppState → AppState
trimmed now_ms none s = s
trimmed now_ms (some q) s =
    (trim_loop now_ms q.id (max (or_global q.max_concurrent s.max_concurrent_downloads) 1)
      (length s.jobs) (record { tried = []; state = s })).state

unfoldable pub trim_to_queue_cap : ℕ → ℕ → AppState → AppState
unfolding is_queue_active queue trim_loop
trim_to_queue_cap now_ms id s = if is_queue_active id s then trimmed now_ms (queue id s) s else s
