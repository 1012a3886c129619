-- ===== src/Scheduler.antt =====
-- src/data/queue_scheduler.rs: whether a queue should be running, and what one tick of the
-- scheduler does about it.
pub mod Windows
pub mod Verdicts
pub mod Tick
use oxdm.Prelude.{
  ℕ, zero, suc, ◌+◌, ◌-◌, ◌*◌, ◌%◌, Bool, true, false, ◌&&◌, ◌||◌, Option, none, some, List, [],
  ◌∷◌, ltb, leb, if◌then◌else◌, any,
}
use oxdm.Queue.{Queue, QueueSchedule, manual, daily, once, condition, LocalTime, day, hour, minute}
use oxdm.Queue.Weekdays.{contains_day}
use oxdm.Queue.Conditions.{
  CondKind, job_added, unmetered, idle, ac_power, command, CondSet, CondSnapshot, holds,
  snapshot_unmetered, snapshot_on_ac, idle_at_least, no_readings,
}

abbrev pub oneshot_window : ℕ
oneshot_window = 12 * hour

abbrev pub daily_grace : ℕ
daily_grace = 15 * minute

-- How long an occurrence lasts: up to its stop time, on the next day where that is not after the
-- start, and the grace where there is none.
unfoldable pub occurrence_length : ℕ → Option ℕ → ℕ
occurrence_length start none = daily_grace
occurrence_length start (some stop) = if ltb start stop then stop - start else stop + day - start

-- `NaiveDateTime` as one count of nanoseconds.
abbrev pub moment : ℕ → ℕ → ℕ
moment date time = date * day + time

-- Is `now` inside the occurrence that starts on `date`? Day 0 is a Monday.
unfoldable pub occurs_on : ℕ → ℕ → ℕ → LocalTime → ℕ → Bool
occurs_on start len days now date =
    contains_day days (date % 7)
    && (leb (moment date start) (moment now.date now.time)
        && ltb (moment now.date now.time) (moment date start + len))

-- `[today.pred_opt(), Some(today)].into_iter().flatten()`
abbrev pub scanned_days : ℕ → List ℕ
scanned_days zero = zero ∷ []
scanned_days (suc d) = d ∷ suc d ∷ []

unfoldable pub daily_due : ℕ → Option ℕ → ℕ → LocalTime → Bool
unfolding occurrence_length occurs_on
daily_due start stop days now =
    any (occurs_on start (occurrence_length start stop) days now) (scanned_days now.date)

-- The answer to each condition as `verdict` reads it.
unfoldable pub condition_holds : CondSet → CondSnapshot → Option Bool → Bool → CondKind → Bool
unfolding snapshot_unmetered snapshot_on_ac idle_at_least
condition_holds set conds cmd_ok running job_added = running
condition_holds set conds cmd_ok running unmetered = snapshot_unmetered conds
condition_holds set conds cmd_ok running ac_power = snapshot_on_ac conds
condition_holds set conds cmd_ok running idle =
    idle_at_least conds (elim set.idle_minutes [ none ↦ 65535 | some m ↦ m ])
condition_holds set conds cmd_ok running command = elim cmd_ok [ none ↦ false | some ok ↦ ok ]

-- The one-off with no end time may only start inside the window.
unfoldable pub once_due : ℕ → Option ℕ → Bool → ℕ → Bool
once_due start (some stop) running now = if ltb now start then false else ltb now stop
once_due start none running now =
    if ltb now start then false else running || ltb now (start + oneshot_window)

unfoldable pub schedule_verdict :
    QueueSchedule → LocalTime → List CondKind → CondSnapshot → Option Bool → Bool → Bool
unfolding daily_due once_due condition_holds holds
schedule_verdict manual now available conds cmd_ok running = false
schedule_verdict (daily start none days) now available conds cmd_ok running =
    if running then true else daily_due start none days now
schedule_verdict (daily start (some stop) days) now available conds cmd_ok running =
    daily_due start (some stop) days now
schedule_verdict (once start stop) now available conds cmd_ok running =
    once_due start stop running now.instant
schedule_verdict (condition set) now available conds cmd_ok running =
    holds set available (condition_holds set conds cmd_ok running)

unfoldable pub verdict :
    Queue → LocalTime → List CondKind → CondSnapshot → Option Bool → Bool → Bool
unfolding schedule_verdict
verdict q = schedule_verdict q.schedule

unfoldable pub should_run : Queue → LocalTime → List CondKind → CondSnapshot → Option Bool → Bool
unfolding verdict
should_run q now available conds cmd_ok = verdict q now available conds cmd_ok false

unfoldable pub may_continue : Queue → LocalTime → List CondKind → CondSnapshot → Option Bool → Bool
unfolding verdict
may_continue q now available conds cmd_ok = verdict q now available conds cmd_ok true

-- `within_window` on a queue's schedule.
abbrev pub clocked : QueueSchedule → Bool
clocked manual = false
clocked (daily _ _ _) = true
clocked (once _ _) = true
clocked (condition _) = false

unfoldable pub within_window : Queue → LocalTime → Bool
unfolding verdict
within_window q now = if clocked q.schedule then verdict q now [] no_readings none false else false
