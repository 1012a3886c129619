-- ===== src/State.antt =====
-- src/data/state.rs, `AppState`: the job table, the queues, the runs of the queues, and the
-- settings that the operations below read. An operation returns the new state and its result; an
-- event that it sends is put in front of those sent before. The database write that follows a
-- change is not part of the state: its failure is logged and changes nothing here.
pub mod Pause
pub mod Start
pub mod Run
pub mod Queues
pub mod Fill
pub mod All
pub mod Kept
pub mod Caps
pub mod Engine
pub mod Rows
pub mod Naming
pub mod Arrivals
pub mod Members
use oxdm.Prelude.{
  ℕ, ◌+◌, Bool, true, false, ◌&&◌, ◌||◌, Option, none, some, List, [], ◌∷◌, ◌++◌, map, ◌==◌,
  if◌then◌else◌, not, filter, find, max, contains,
}
use oxdm.Job.{Phase, JobError}
use oxdm.Entry.{JobEntry, set_phase}
use oxdm.Queue.{Queue}
use oxdm.Table.{job_entry, update, move_to_back}

pub record QueueRunTally : Type 0 where
  pub completed : ℕ  -- u32
  pub failed : ℕ  -- u32
  pub needs_answer : ℕ  -- u32
  pub failed_now : List ℕ
  pub queue_run : Bool
  pub paused : Bool

-- `QueueRunTally::default()`.
abbrev pub new_tally : QueueRunTally
new_tally = record {
  completed = 0;
  failed = 0;
  needs_answer = 0;
  failed_now = [];
  queue_run = false;
  paused = false;
}

unfoldable pub feeds_itself : QueueRunTally → Bool
feeds_itself t = t.queue_run && not t.paused

-- src/data/events.rs, the events that these operations send.
pub data DomainEvent : Type 0 where
  job_updated : ℕ → Phase → DomainEvent
  job_completed : ℕ → List ℕ → Bool → DomainEvent
  job_failed : ℕ → JobError → DomainEvent
  queue_started queue_stopped : ℕ → DomainEvent
  queue_finished : ℕ → ℕ → ℕ → ℕ → DomainEvent  -- id, completed, failed, needs_answer
  job_added job_removed : ℕ → DomainEvent
  job_filename_resolved : ℕ → List ℕ → DomainEvent
  queues_changed : DomainEvent

pub record AppState : Type 0 where
  pub jobs : List JobEntry
  pub queues : List Queue
  pub active_queues : List (ℕ × QueueRunTally)
  pub main_queue_id : ℕ
  pub max_concurrent_downloads : ℕ
  pub work_dir : List ℕ
  pub exiting : Bool
  pub dialog_visible_for : Option ℕ
  pub events : List DomainEvent

abbrev pub send : DomainEvent → AppState → AppState
send e s = record s { events = e ∷ s.events }

abbrev pub edit_job : ℕ → (JobEntry → JobEntry) → AppState → AppState
edit_job id f s = record s { jobs = update id f s.jobs }

-- `AppState::queue`.
unfoldable pub queue : ℕ → AppState → Option Queue
queue id s = find (λ q. q.id == id) s.queues

-- The map of the runs.
unfoldable pub get_tally : ℕ → List (ℕ × QueueRunTally) → Option QueueRunTally
get_tally k [] = none
get_tally k ((j, t) ∷ m) = if j == k then some t else get_tally k m

unfoldable pub put_tally : ℕ → QueueRunTally → List (ℕ × QueueRunTally) → List (ℕ × QueueRunTally)
put_tally k t [] = (k, t) ∷ []
put_tally k t ((j, u) ∷ m) = if j == k then (k, t) ∷ m else (j, u) ∷ put_tally k t m

unfoldable pub remove_tally : ℕ → List (ℕ × QueueRunTally) → List (ℕ × QueueRunTally)
remove_tally k = filter (λ e. not (e.0 == k))

abbrev tally_reads : (QueueRunTally → Bool) → Option QueueRunTally → Bool
tally_reads p none = false
tally_reads p (some t) = p t

unfoldable pub is_queue_active : ℕ → AppState → Bool
unfolding get_tally
is_queue_active id s = tally_reads (λ t. t.queue_run) (get_tally id s.active_queues)

unfoldable pub queue_halted : ℕ → AppState → Bool
unfolding get_tally feeds_itself
queue_halted id s = tally_reads (λ t. not (feeds_itself t)) (get_tally id s.active_queues)

unfoldable pub queue_feeds_itself : ℕ → AppState → Bool
unfolding get_tally feeds_itself
queue_feeds_itself id s = tally_reads feeds_itself (get_tally id s.active_queues)

unfoldable pub move_to_queue_end : ℕ → AppState → AppState
unfolding move_to_back
move_to_queue_end id s = record s { jobs = move_to_back id s.jobs }

unfoldable pub mark_run_intent : ℕ → Bool → AppState → AppState
mark_run_intent id manual = edit_job id (λ e. record e { manual_run = manual })

-- `queue_of`: the main queue where the job has gone.
abbrev queue_or : ℕ → Option JobEntry → ℕ
queue_or main none = main
queue_or main (some e) = e.job.queue_id

unfoldable pub queue_of : ℕ → AppState → ℕ
queue_of id s = queue_or s.main_queue_id (job_entry id s.jobs)

abbrev max_concurrent_of : Option Queue → Option ℕ
max_concurrent_of none = none
max_concurrent_of (some q) = q.max_concurrent

-- `self.queue(id).await.and_then(|q| q.max_concurrent)`
unfoldable pub queue_limit : ℕ → AppState → Option ℕ
unfolding queue
queue_limit id s = max_concurrent_of (queue id s)
