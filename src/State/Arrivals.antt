-- ===== src/State/Arrivals.antt =====
-- src/data/state.rs, `queue_took_a_job`: what a queue does when a download arrives in it. What the
-- operating system answers at that moment, and the exit of the condition command, are parameters.
pub mod Bounds
use oxdm.Prelude.{ℕ, Bool, true, false, Option, none, some, List, filter, if◌then◌else◌}
use oxdm.Queue.{Queue, QueueSchedule, LocalTime, manual, daily, once, condition}
use oxdm.Queue.Conditions.{
  CondSet, CondKind, CondCommand, CondSnapshot, job_added, unmetered, idle, ac_power, command,
  contains_kind, enabled, holds, probe, snapshot_unmetered, snapshot_on_ac, idle_at_least,
}
use oxdm.Scheduler.{within_window}
use oxdm.State.{AppState, queue, is_queue_active}
use oxdm.State.Start.{Host}
use oxdm.State.Fill.{fill_queue_slots}
use oxdm.State.Queues.{start_queue}

-- The conditions that the host answers, and its answers now.
pub record Readings : Type 0 where
  pub available : List CondKind
  pub network_unmetered : Option Bool
  pub on_ac_power : Option Bool
  pub idle_for : Option ℕ
  pub succeeds : List ℕ → Bool  -- a condition command

abbrev command_ok : (List ℕ → Bool) → Option CondCommand → Bool
command_ok succeeds none = false
command_ok succeeds (some cc) = succeeds cc.cmd

abbrev minutes_or_max : Option ℕ → ℕ
minutes_or_max none = 65_535
minutes_or_max (some m) = m

-- The verdict on one condition: that a job was added is true now.
abbrev pub arrival_verdict : CondSet → CondSnapshot → Bool → CondKind → Bool
unfolding snapshot_unmetered snapshot_on_ac idle_at_least
arrival_verdict set conds cmd_ok job_added = true
arrival_verdict set conds cmd_ok unmetered = snapshot_unmetered conds
arrival_verdict set conds cmd_ok ac_power = snapshot_on_ac conds
arrival_verdict set conds cmd_ok idle = idle_at_least conds (minutes_or_max set.idle_minutes)
arrival_verdict set conds cmd_ok command = cmd_ok

abbrev pub arrival_holds : Readings → CondSet → Bool
unfolding enabled probe holds arrival_verdict
arrival_holds r set =
    let needed = filter (contains_kind r.available) (enabled set) in
    let conds = probe needed r.network_unmetered r.on_ac_power r.idle_for in
    holds set r.available (arrival_verdict set conds (command_ok r.succeeds set.command))

-- Whether the arrival starts the queue.
unfoldable pub arrival_starts : Readings → LocalTime → Queue → QueueSchedule → Bool
unfolding within_window arrival_holds
arrival_starts r now q manual = false
arrival_starts r now q (daily a b c) = within_window q now
arrival_starts r now q (once a b) = within_window q now
arrival_starts r now q (condition set) = if set.on_job_added then arrival_holds r set else false

unfoldable pub arrived : ℕ → Host → Readings → LocalTime → Option Queue → AppState → AppState
unfolding arrival_starts
arrived now_ms h r now none s = s
arrived now_ms h r now (some q) s =
    if arrival_starts r now q q.schedule then (start_queue now_ms h q.id s).0 else s

unfoldable pub queue_took_a_job : ℕ → Host → Readings → LocalTime → ℕ → AppState → AppState
unfolding is_queue_active fill_queue_slots queue arrived
queue_took_a_job now_ms h r now queue_id s =
    if s.exiting
    then s
    else if is_queue_active queue_id s
    then fill_queue_slots now_ms h queue_id none s
    else arrived now_ms h r now (queue queue_id s) s
