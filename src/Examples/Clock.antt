-- ===== src/Examples/Clock.antt =====
-- The verdicts of the scheduler.
use oxdm.Prelude.{ℕ, ◌≡◌, ◌↔◌, ◌*◌, refl, arith, true, false, none, some, [], ◌∷◌}
use oxdm.Queue.{Queue, day, hour, condition, new_main}
use oxdm.Queue.Conditions.{CondSet, all_of, no_readings, unmetered}
use oxdm.Queue.Weekdays.{every_day}
use oxdm.Scheduler.{daily_due, occurrence_length, should_run, may_continue}
use oxdm.Scheduler.Windows.{UnderWay, daily_due-UnderWay}
use oxdm.Scheduler.Verdicts.{may_continue_of_should_run, should_run_closed}
use oxdm.Examples.Data.{nightly, at_night}

daily_due-UnderWay_example : (daily_due (22 * hour) (some (6 * hour)) every_day at_night ≡ true) ↔ (
    (d : ℕ) × UnderWay
      (22 * hour)
      (occurrence_length (22 * hour) (some (6 * hour)))
      every_day
      at_night
      d)
daily_due-UnderWay_example =
    daily_due-UnderWay (22 * hour) (some (6 * hour)) every_day at_night (omega arith) (omega arith)
      (omega arith)

should_run-at_night : should_run nightly at_night [] no_readings none ≡ true
unfolding should_run oxdm.Queue.Weekdays.contains_day
should_run-at_night = refl

may_continue_of_should_run_example : may_continue nightly at_night [] no_readings none ≡ true
may_continue_of_should_run_example =
    may_continue_of_should_run nightly at_night [] no_readings none should_run-at_night

abbrev off_metered : CondSet
off_metered = record {
  combine = all_of;
  unmetered = true;
  ac_power = false;
  idle_minutes = none;
  command = none;
  on_job_added = false;
}

abbrev frugal : Queue
frugal = record (new_main 3) { schedule = condition off_metered }

should_run_closed_example : should_run frugal at_night (unmetered ∷ []) no_readings none ≡ false
should_run_closed_example = should_run_closed frugal off_metered at_night (unmetered ∷ []) refl
