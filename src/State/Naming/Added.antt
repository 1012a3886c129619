-- ===== src/State/Naming/Added.antt =====
-- src/data/state.rs, `add_job`, up to the event that says so: the name is made unique and the download
-- goes in under one lock. What sealing the secrets came to and whether the database took the row are
-- parameters; what the queue does next is not part of the step.
use oxdm.Prelude.{ℕ, false, List, [], ◌∷◌, ◌++◌, Option, none, some}
use oxdm.Filename.{sanitize}
use oxdm.Filename.Names.{free_name}
use oxdm.Category.{Category, Settings}
use oxdm.Checksum.{Checksum}
use oxdm.Job.{queued, Job, JobError}
use oxdm.Entry.{JobEntry}
use oxdm.Queue.{Queue}
use oxdm.State.{AppState, send, job_added, queue}
use oxdm.State.Naming.{Platform, and_sanitize, route_at_creation}
use oxdm.State.Naming.Probed.{or_zero}

-- `JobEntry::with_completion`, of a job that is new.
unfoldable pub with_completion : Job → JobEntry
with_completion j = record {
  job = j;
  live_phase = queued;
  counters = record {
    downloaded = j.status.downloaded;
    total = or_zero j.status.total;
    speed_bps_bits = 0;
  };
  started_at_ms = 0;
  active_ms = 0;
  downloading_since_ms = 0;
  finished_at_ms = 0;
  retries = 0;
  parts_stale = false;
  interruptions = 0;
  retrying_parts = [];
  parts = [];
  cancel = false;
  running = false;
  last_error = j.status.error;
  manual_run = false;
  deferred_by_cap = false;
  is_resumable = none;
  final_path = j.status.final_path;
  connection_limit = 0;
}

-- What the caller asks for.
pub record Addition : Type 0 where
  pub url : List ℕ
  pub save_dir : List ℕ
  pub filename : Option (List ℕ)
  pub max_connections : Option ℕ
  pub category : Option Category
  pub queue : Option ℕ
  pub size : Option ℕ
  pub checksums : List Checksum

abbrev queue_there : ℕ → Option Queue → ℕ
queue_there main none = main
queue_there main (some q) = q.id

unfoldable pub home : Option ℕ → AppState → ℕ
unfolding queue
home none s = s.main_queue_id
home (some q) s = queue_there s.main_queue_id (queue q s)

module _ (os : Platform) where
  unfoldable pub unique : List JobEntry → Option (List ℕ) → Option (List ℕ)
  unfolding free_name
  unique jobs none = none
  unique jobs (some name) = some (free_name os.to_lowercase jobs name none)

  unfoldable pub job_of : Settings → ℕ → Addition → AppState → Job
  unfolding sanitize route_at_creation unique home
  job_of settings id a s =
      let name = and_sanitize a.filename in
      let (category, save_dir) = route_at_creation os settings a.category name a.save_dir in
      record {
        id = id;
        url = a.url;
        queue_id = home a.queue s;
        save_dir = save_dir;
        filename = unique s.jobs name;
        max_connections = a.max_connections;
        speed_limit_override = none;
        work_root = none;
        status = record { downloaded = 0; total = a.size; error = none; final_path = none };
        checksums = a.checksums;
        category = category;
      }

  unfoldable pub add_job :
      Settings
      → ℕ
      → Addition
      → Option JobError
      → Option JobError
      → AppState
      → AppState × Option JobError
  unfolding job_of with_completion
  add_job settings id a (some e) stored s = (s, some e)
  add_job settings id a none (some e) s = (s, some e)
  add_job settings id a none none s = (
    send (job_added id)
        (record s { jobs = s.jobs ++ (with_completion (job_of settings id a s) ∷ []) }),
    none,
  )
