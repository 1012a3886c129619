-- ===== src/Lib.antt =====
-- oxdm: the core of a download manager. The daemon keeps a table of downloads, each in a queue; a
-- queue has a schedule, caps and a run of its own; a scheduler starts and stops the queues.
--
-- The parts and their files:
-- - Queue, Queue/Weekdays, Queue/Conditions: src/domain/queue.rs and src/data/conditions.rs. The
--   records and presets of a queue, the day mask, the condition builder, one tick's probe results.
-- - Scheduler: src/data/queue_scheduler.rs. `verdict` and what it is made of in Scheduler; one turn
--   of the loop in `spawn` with its command polls in Scheduler/Tick. The daemon is behind the
--   interface `QueueControl`, which State/Engine fills.
-- - Space: src/data/space.rs, `required_by_volume` and `shortfall`.
-- - Checksum: src/domain/checksum.rs, the rows and the verdicts on them. Text has the functions on
--   strings that the code uses, Text/Utf8 and Text/Offsets UTF-8 and byte offsets.
-- - Job: src/domain/job.rs, the phases and the job record. Entry: `JobEntry` of src/data/state.rs.
-- - Table and Admission: the job table and the pure functions on it (`admit`, `slots_full`,
--   `next_deferred`, `queue_stop_targets`, `next_over_cap`) of src/data/state.rs.
-- - State: `AppState` of src/data/state.rs. State/Start is `start_run` and what it calls, State/Fill
--   the passes that give out free slots, State/Pause and State/All pausing, resuming and restarting,
--   State/Queues starting, stopping and trimming the run of a queue, State/Run the end of a run.
-- - Transfer: `apply_odl_event` of src/data/state.rs, what the events of a run change about its job,
--   with the counters of a part in src/data/runner.rs.
-- - Filename, Filename/Split, Filename/Cleaned, Filename/Sizes, Filename/Names:
--   src/domain/filename.rs, and `name_is_taken` and `free_name` of src/data/state.rs.
-- - Category: src/domain/category.rs and the settings about categories in src/domain/settings.rs.
-- - State/Naming: the operations of src/data/state.rs that name a download; State/Rows those on its
--   integrity rows, with `merge_checksums` of src/data/mapping.rs.
-- - State/Members: which queue a download is in, the order of a queue, and removal; State/Arrivals what
--   a queue does when a download arrives.
-- - Pairing: the pairing codes of src/data/state.rs.
-- - Prelude has the shared tests and list functions, Examples the theorems at concrete inputs.
--
-- How the code is read: an operation is a function from the state to the new state and its result,
-- where none is `Ok`. Atomics, locks and maps are fields, and a call reads the clock as a parameter.
-- What an operation does under its locks is one step. A job, a queue and a volume are named by a
-- number, a text is its code points, a path its characters, a time a count of nanoseconds (or of
-- milliseconds where the source has them). Sums of bytes saturate at the largest u64, as they do in
-- the source; the counts of a run (u32) are taken to stay in range.
--
-- Loops that pick a download at a time take fuel. They remember what they have tried and pick
-- nothing twice, so that the length of the table is fuel enough; a sweep that stops or pauses has one
-- round more. The ids of the table are distinct, as the keys of a map are, where a theorem says so.
--
-- The Unicode tables of `to_lowercase`, the base64 engine, how the system joins and compares paths
-- and where it downloads to are parameters; where a theorem needs a law of one, it says so.
--
-- Not modelled: the database, the runner and the download engine, hooks, the desktop interface, the
-- command line and the sockets. What the operating system answers (the volume of a path, its free
-- bytes, making a folder, the probes, the exit code of a condition command) is a parameter.
--
-- The wait of `start_run` for a run that is winding down (`settle_previous_run`) is not modelled: a
-- start is one that finds no such run, or whose wait is over. `adopt_final_path` is told the parts of
-- its path, and `update_job_location` takes two states, the one that it asks about the name in and
-- the one that it writes to.
pub mod Prelude
pub mod Text
pub mod Queue
pub mod Scheduler
pub mod Checksum
pub mod Job
pub mod Entry
pub mod Space
pub mod Table
pub mod Admission
pub mod Transfer
pub mod Pairing
pub mod Filename
pub mod Category
pub mod State
pub mod Examples
