-- ===== src/State/Members.antt =====
-- src/data/state.rs: the operations that say which queue a download is in and in what order, and that
-- take downloads and queues away. What the database answers, and what comes of deleting a file, are
-- parameters.
pub mod Housed
pub mod Removed
pub mod Order
use oxdm.Prelude.{
  ℕ, ◌+◌, Bool, true, false, ◌&&◌, ◌||◌, List, [], ◌∷◌, ◌++◌, map, filter, any, contains, ◌==◌, not,
  Option, none, some, codes, if◌then◌else◌,
}
use oxdm.Category.{Category, Settings, others, same_category, has_category, category_deleted}
use oxdm.Job.{Job, JobError, other, io}
use oxdm.Entry.{JobEntry}
use oxdm.Queue.{Queue, LocalTime}
use oxdm.Table.{job_entry, update, move_to_back, shift_remove}
use oxdm.State.{AppState, send, edit_job, job_updated, job_removed, queues_changed, remove_tally}
use oxdm.State.Start.{Host}
use oxdm.State.Arrivals.{Readings, queue_took_a_job}

-- `rebuild_entry`: all but the job is carried over, as in `clone_entry_with_job`.
unfoldable pub rebuild_entry : ℕ → (Job → Job) → AppState → AppState
unfolding update
rebuild_entry id edit = edit_job id (λ e. record e { job = edit e.job })

abbrev pub sits_in : ℕ → Option JobEntry → Bool
sits_in q none = false
sits_in q (some e) = e.job.queue_id == q

-- The ids that the caller gave, each once, as far as they are in the queue.
unfoldable pub listed : ℕ → List JobEntry → List ℕ → List ℕ → List ℕ
unfolding job_entry
listed q jobs seen [] = []
listed q jobs seen (id ∷ ids) =
    let fits = sits_in q (job_entry id jobs) && not (contains seen id) in
    let rest = listed q jobs (if fits then id ∷ seen else seen) ids in
    if fits then id ∷ rest else rest

-- And behind them those in the queue that the caller left out.
unfoldable pub ordered : ℕ → List JobEntry → List ℕ → List ℕ
unfolding listed
ordered q jobs ids =
    let first = listed q jobs [] ids in
    first
    ++ map (λ e. e.job.id)
        (filter (λ e. (e.job.queue_id == q) && not (contains first e.job.id)) jobs)

unfoldable pub reinsert : List ℕ → List JobEntry → List JobEntry
unfolding move_to_back
reinsert [] jobs = jobs
reinsert (id ∷ ids) jobs = reinsert ids (move_to_back id jobs)

abbrev pub is_nil : List ℕ → Bool
is_nil [] = true
is_nil _ = false

unfoldable pub reorder_queue : ℕ → List ℕ → AppState → AppState
unfolding ordered reinsert
reorder_queue q ids s =
    let order = ordered q s.jobs ids in
    if is_nil order then s else send queues_changed (record s { jobs = reinsert order s.jobs })

-- Each job of a queue that goes, moved to the main queue, until the database refuses one.
unfoldable pub rehome : (ℕ → Option (List ℕ)) → ℕ → List ℕ → AppState → AppState × Option (List ℕ)
unfolding rebuild_entry job_entry
rehome saved main [] s = (s, none)
rehome saved main (id ∷ ids) s =
    let moved = rebuild_entry id (λ j. record j { queue_id = main }) s in
    elim (job_entry id s.jobs) [
      | none ↦ rehome saved main ids s
      | some e ↦ elim (saved id) [
        | none ↦ rehome saved main ids moved
        | some err ↦ (moved, some err)
      ]
    ]

unfoldable pub dropped :
    ℕ → Option (List ℕ) → AppState × Option (List ℕ) → AppState × Option (List ℕ)
unfolding remove_tally
dropped id kept_by (s, some err) = (s, some err)
dropped id (some err) (s, none) = (s, some err)
dropped id none (s, none) = (
  send queues_changed (record s {
    queues = filter (λ q. not (q.id == id)) s.queues;
    active_queues = remove_tally id s.active_queues;
  }),
  none,
)

abbrev pub in_queue_ids : ℕ → List JobEntry → List ℕ
in_queue_ids q jobs = map (λ e. e.job.id) (filter (λ e. e.job.queue_id == q) jobs)

unfoldable pub delete_queue :
    (ℕ → Option (List ℕ)) → Option (List ℕ) → ℕ → AppState → AppState × Option (List ℕ)
unfolding rehome dropped
delete_queue saved kept_by id s =
    if id == s.main_queue_id
    then (s, some (codes "cannot delete the built-in Main queue"))
    else dropped id kept_by (rehome saved s.main_queue_id (in_queue_ids id s.jobs) s)

-- `set_job_queue` up to its event, and whether the download has arrived in another queue.
unfoldable pub assigned :
    Option (List ℕ) → ℕ → ℕ → Option JobEntry → AppState → AppState × Option JobError × Bool
unfolding rebuild_entry
assigned refused id q none s = (s, some (other (codes "job not found")), false)
assigned refused id q (some old) s =
    let moved = rebuild_entry id (λ j. record j { queue_id = q }) s in
    if old.job.queue_id == q then (s, none, false) else elim refused [
      | some err ↦ (moved, some (io err), false)
      | none ↦ (send (job_updated id old.live_phase) moved, none, true)
    ]

unfoldable pub assign_queue : Option (List ℕ) → ℕ → ℕ → AppState → AppState × Option JobError × Bool
unfolding assigned job_entry
assign_queue refused id q s =
    if any (λ p. p.id == q) s.queues
    then assigned refused id q (job_entry id s.jobs) s
    else (s, some (other (codes "queue not found")), false)

unfoldable pub set_job_queue :
    ℕ
    → Host
    → Readings
    → LocalTime
    → Option (List ℕ)
    → ℕ
    → ℕ
    → AppState
    → AppState × Option JobError
unfolding assign_queue queue_took_a_job
set_job_queue now_ms h r now refused id q s =
    let (s', result, arrives) = assign_queue refused id q s in
    (if arrives then queue_took_a_job now_ms h r now q s' else s', result)

unfoldable pub categorised :
    Option (List ℕ) → ℕ → Category → Option JobEntry → AppState → AppState × Option JobError
unfolding rebuild_entry
categorised refused id c none s = (s, some (other (codes "job not found")))
categorised refused id c (some old) s =
    let moved = rebuild_entry id (λ j. record j { category = c }) s in
    if same_category old.job.category c then (s, none) else elim refused [
      | some err ↦ (moved, some (io err))
      | none ↦ (send (job_updated id old.live_phase) moved, none)
    ]

unfoldable pub set_job_category :
    Settings → Option (List ℕ) → ℕ → Category → AppState → AppState × Option JobError
unfolding category_deleted categorised job_entry
set_job_category settings refused id c s =
    if category_deleted settings c
    then (s, some (other (codes "that category was deleted")))
    else categorised refused id c (job_entry id s.jobs) s
