-- ===== src/Examples/Data.antt =====
-- A small daemon: the main queue, which the user runs, and a queue on a clock.
use oxdm.Prelude.{ℕ, ◌*◌, true, false, none, some, [], ◌∷◌, Bool, List, codes}
use oxdm.Job.{Phase, queued, Job}
use oxdm.Category.{others}
use oxdm.Entry.{JobEntry}
use oxdm.Queue.{Queue, daily, hour, new_main, LocalTime}
use oxdm.Queue.Weekdays.{every_day}
use oxdm.State.{AppState, new_tally}
use oxdm.State.Start.{Host}

abbrev pub roomy : Host
roomy = record {
  volume = λ path. 0;
  free = λ path. some 1_000_000_000;
  create_dir_all = λ path. none;
}

abbrev pub a_job : ℕ → ℕ → Job
a_job id queue_id = record {
  id = id;
  url = codes "https://host/file";
  queue_id = queue_id;
  save_dir = codes "/home";
  filename = none;
  max_connections = none;
  speed_limit_override = none;
  work_root = none;
  status = record { downloaded = 0; total = some 5000; error = none; final_path = none };
  checksums = [];
  category = others;
}

abbrev pub an_entry : ℕ → ℕ → Phase → Bool → JobEntry
an_entry id queue_id phase running = record {
  job = a_job id queue_id;
  live_phase = phase;
  counters = record { downloaded = 0; total = 0; speed_bps_bits = 0 };
  started_at_ms = 0;
  active_ms = 0;
  downloading_since_ms = 0;
  finished_at_ms = 0;
  retries = 0;
  parts_stale = false;
  interruptions = 0;
  retrying_parts = [];
  parts = [];
  cancel = false;
  running = running;
  last_error = none;
  manual_run = false;
  deferred_by_cap = false;
  is_resumable = none;
  final_path = none;
  connection_limit = 0;
}

abbrev pub waiting : JobEntry
waiting = an_entry 11 1 queued false

abbrev pub nightly : Queue
nightly = record (new_main 2) {
  builtin = false;
  schedule = daily (22 * hour) (some (6 * hour)) every_day;
  max_concurrent = some 1;
}

abbrev pub both_queues : List Queue
both_queues = new_main 1 ∷ nightly ∷ []

abbrev pub daemon : AppState
daemon = record {
  jobs = waiting ∷ an_entry 12 1 queued false ∷ an_entry 21 2 queued false ∷ [];
  queues = both_queues;
  active_queues = (1, record new_tally { queue_run = true }) ∷ [];
  main_queue_id = 1;
  max_concurrent_downloads = 2;
  work_dir = codes "/cache";
  exiting = false;
  dialog_visible_for = none;
  events = [];
}

-- A Tuesday, an hour after midnight.
abbrev pub at_night : LocalTime
at_night = record { instant = 25 * hour; date = 1; time = hour }
