-- ===== src/Scheduler/Tick.antt =====
-- src/data/queue_scheduler.rs, `spawn` and `poll_due_commands`: one turn of the scheduler's loop.
-- The maps are association lists. What the turn reads from outside is a record: the clock, the
-- probes, and the exit code of a condition command. The queues it starts and stops are behind an
-- interface, which State/Engine fills.
pub mod Memory
pub mod Polls
pub mod Turns
use oxdm.Prelude.{
  ℕ, ◌-◌, ◌*◌, Bool, true, false, ◌&&◌, ◌||◌, Option, none, some, List, [], ◌∷◌, ◌++◌, map, ltb,
  ◌==◌, if◌then◌else◌, not, max, filter, contains, same_text,
}
use oxdm.Queue.{Queue, QueueSchedule, manual, daily, once, condition, LocalTime}
use oxdm.Queue.Conditions.{
  CondKind, CondSet, CondCommand, CondSnapshot, enabled, contains_kind, probe, second, command,
}
use oxdm.Scheduler.{should_run, may_continue}

abbrev pub tick_length : ℕ
tick_length = 30 * second

module _ {ℓ} {V : Type ℓ} where
  unfoldable pub get : ℕ → List (ℕ × V) → Option V
  get k [] = none
  get k ((j, v) ∷ m) = if j == k then some v else get k m

  unfoldable pub insert : ℕ → V → List (ℕ × V) → List (ℕ × V)
  insert k v [] = (k, v) ∷ []
  insert k v ((j, w) ∷ m) = if j == k then (k, v) ∷ m else (j, w) ∷ insert k v m

  -- `HashMap::retain` on the keys of the live queues.
  unfoldable pub retain : List ℕ → List (ℕ × V) → List (ℕ × V)
  retain live = filter (λ e. contains live e.0)

pub record CmdPoll : Type 0 where
  pub cmd : List ℕ
  pub checked : ℕ
  pub ok : Bool

-- What the daemon offers the scheduler.
pub record QueueControl (S : Type 0) : Type 0 where
  pub start_queue : ℕ → S → S
  pub stop_queue : ℕ → S → S
  pub is_queue_active : ℕ → S → Bool

-- What the loop keeps from one turn to the next.
pub record TickMemory : Type 0 where
  pub last_active : List (ℕ × Bool)
  pub cmd_polls : List (ℕ × CmdPoll)

pub record Readings : Type 0 where
  pub now : LocalTime
  pub monotonic : ℕ
  pub available : List CondKind
  pub network_unmetered : Option Bool
  pub on_ac_power : Option Bool
  pub idle_for : Option ℕ
  pub check_command : List ℕ → Bool

abbrev pub ids : List Queue → List ℕ
ids = map (λ q. q.id)

abbrev schedule_needs : QueueSchedule → List CondKind
schedule_needs (condition set) = enabled set
schedule_needs _ = []

-- The conditions that some queue uses and this host answers.
needed : List CondKind → List Queue → List CondKind
needed available [] = []
needed available (q ∷ qs) =
    filter (contains_kind available) (schedule_needs q.schedule) ++ needed available qs

abbrev pub schedule_command : QueueSchedule → Option CondCommand
schedule_command (condition set) = set.command
schedule_command _ = none

-- Is the cached verdict about this command and younger than its interval?
pub fresh : ℕ → CondCommand → Option CmdPoll → Bool
fresh now cc none = false
fresh now cc (some p) =
    same_text p.cmd cc.cmd && ltb (now - p.checked) (max (cc.interval_secs * second) tick_length)

abbrev pub poll_queue :
    Readings → Option CondCommand → ℕ → List (ℕ × CmdPoll) → List (ℕ × CmdPoll) → List (ℕ × CmdPoll)
poll_queue r none id polls out = out
poll_queue r (some cc) id polls out =
    if fresh r.monotonic cc (get id polls)
    then out
    else insert id (record { cmd = cc.cmd; checked = r.monotonic; ok = r.check_command cc.cmd }) out

pub poll_each : Readings → List (ℕ × CmdPoll) → List Queue → List (ℕ × CmdPoll) → List (ℕ × CmdPoll)
unfolding get insert fresh
poll_each r polls [] out = out
poll_each r polls (q ∷ rest) out =
    poll_each r polls rest (poll_queue r (schedule_command q.schedule) q.id polls out)

-- `due` is decided on the polls as they were; the verdicts are then recorded.
unfoldable pub poll_due_commands : Readings → List Queue → List (ℕ × CmdPoll) → List (ℕ × CmdPoll)
unfolding poll_each
poll_due_commands r qs polls = poll_each r polls qs polls

unfoldable pub due_polls : Readings → List Queue → List (ℕ × CmdPoll) → List (ℕ × CmdPoll)
unfolding poll_due_commands
due_polls r qs polls =
    if contains_kind r.available command then poll_due_commands r qs polls else polls

-- The probes that this turn makes: only of what some queue uses.
unfoldable pub probe_needed : Readings → List Queue → CondSnapshot
unfolding needed
probe_needed r qs = probe (needed r.available qs) r.network_unmetered r.on_ac_power r.idle_for

abbrev pub cmd_verdict : Option CmdPoll → Option Bool
cmd_verdict none = none
cmd_verdict (some p) = some p.ok

abbrev pub has_trigger : QueueSchedule → Bool
has_trigger (condition set) = set.on_job_added
has_trigger _ = false

abbrev pub get_or {ℓ} : {A : Type ℓ} → Option A → A → A
get_or none d = d
get_or (some a) d = a

module _ {S : Type 0} (control : QueueControl S) where
  open control use {start_queue, stop_queue, is_queue_active}

  -- The body of `for q in &queues`, given the two verdicts on the queue and the last tick's.
  unfoldable pub decide : Queue → Bool → Bool → Bool → S → S
  decide q active continues prev s =
      if active && not prev
      then start_queue q.id s
      else if not continues
      then (if prev || (has_trigger q.schedule && is_queue_active q.id s)
          then stop_queue q.id s
          else s)
      else s

  unfoldable pub visit :
      Readings
      → CondSnapshot
      → List (ℕ × CmdPoll)
      → Queue
      → List (ℕ × Bool) × S
      → List (ℕ × Bool) × S
  unfolding decide get insert
  visit r conds polls q (last, s) =
      let cmd_ok = cmd_verdict (get q.id polls) in
      let active = should_run q r.now r.available conds cmd_ok in
      let continues = may_continue q r.now r.available conds cmd_ok in
      (insert q.id active last, decide q active continues (get_or (get q.id last) false) s)

  unfoldable pub visit_all :
      Readings
      → CondSnapshot
      → List (ℕ × CmdPoll)
      → List Queue
      → List (ℕ × Bool) × S
      → List (ℕ × Bool) × S
  visit_all r conds polls [] st = st
  visit_all r conds polls (q ∷ qs) st = visit_all r conds polls qs (visit r conds polls q st)

  -- One turn, on the snapshot of the queues.
  unfoldable pub turn : Readings → List Queue → TickMemory → S → TickMemory × S
  turn r qs m s =
      let polls = due_polls r qs m.cmd_polls in
      let out = visit_all r (probe_needed r qs) polls qs (m.last_active, s) in
      (record { last_active = retain (ids qs) out.0; cmd_polls = retain (ids qs) polls }, out.1)

  -- The loop returns once the daemon is exiting.
  unfoldable pub tick : Bool → Readings → List Queue → TickMemory → S → Option (TickMemory × S)
  unfolding turn
  tick exiting r qs m s = if exiting then none else some (turn r qs m s)
