-- ===== src/Queue.antt =====
-- src/domain/queue.rs: a queue, its schedule, its hooks, and what a finished run says.
-- A `NaiveTime` is nanoseconds since midnight. A `DateTime<Local>` is the instant it names together
-- with the date and time that its zone shows: `chrono` compares the instants and reads the rest off
-- the wall clock. A date counts days from a Monday.
pub mod Weekdays
pub mod Conditions
use oxdm.Prelude.{ℕ, ◌*◌, Bool, true, false, Option, none, some, List, [], ◌∷◌, leb, codes}
use Conditions.{CondSet, second}

abbrev pub minute : ℕ
minute = 60 * second

abbrev pub hour : ℕ
hour = 60 * minute

abbrev pub day : ℕ
day = 24 * hour

pub record LocalTime : Type 0 where
  pub instant : ℕ
  pub date : ℕ
  pub time : ℕ

pub data QueueSchedule : Type 0 where
  manual : QueueSchedule
  daily : ℕ → Option ℕ → ℕ → QueueSchedule  -- start, stop, days
  once : ℕ → Option ℕ → QueueSchedule  -- start and stop, instants
  condition : CondSet → QueueSchedule

-- src/domain/job.rs, `ShutdownAction`.
pub data ShutdownAction : Type 0 where
  shut_down restart sleep : ShutdownAction

pub data QueueHook : Type 0 where
  shutdown : ShutdownAction → QueueHook
  sleep hibernate exit_oxdm : QueueHook
  run_command : List ℕ → List (List ℕ) → QueueHook  -- cmd, args
  notify : List ℕ → List ℕ → QueueHook  -- title, body

-- An id is a UUID, of which only equality is used; a name is its code points.
pub record Queue : Type 0 where
  pub id : ℕ
  pub name : List ℕ
  pub builtin : Bool
  pub schedule : QueueSchedule
  pub on_start : List QueueHook
  pub on_finish : List QueueHook
  pub max_concurrent : Option ℕ
  pub stop_on_error : Bool
  pub color : Option (ℕ × ℕ × ℕ)

abbrev pub default_concurrent : ℕ
default_concurrent = 3

-- `Queue::finish_notify`.
unfoldable pub finish_notify : QueueHook
finish_notify = notify (codes "Queue finished") []

-- `Queue::new_main`, given the fresh id.
unfoldable pub new_main : ℕ → Queue
unfolding finish_notify
new_main id = record {
  id = id;
  name = codes "Main";
  builtin = true;
  schedule = manual;
  on_start = [];
  on_finish = finish_notify ∷ [];
  max_concurrent = some default_concurrent;
  stop_on_error = false;
  color = none;
}

-- `QueueSchedule::spent_by_run`.
unfoldable pub spent_by_run : QueueSchedule → LocalTime → Bool
spent_by_run (once start stop) now = leb start now.instant
spent_by_run _ now = false
