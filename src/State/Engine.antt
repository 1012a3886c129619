-- ===== src/State/Engine.antt =====
-- src/data/queue_scheduler.rs: the calls that the scheduler makes of the daemon. It drops the error
-- of a start that was refused.
use oxdm.Prelude.{ℕ}
use oxdm.State.{AppState, is_queue_active}
use oxdm.State.Start.{Host}
use oxdm.State.Queues.{start_queue, stop_queue}
use oxdm.Scheduler.Tick.{QueueControl}

abbrev pub engine : ℕ → Host → QueueControl AppState
engine now_ms h = record {
  start_queue = λ id s. (start_queue now_ms h id s).0;
  stop_queue = stop_queue now_ms;
  is_queue_active = is_queue_active;
}
