-- ===== src/Examples/Sweeps.antt =====
-- Stops, trims and ends of runs on a daemon with two downloads under way in a queue with one slot.
use oxdm.Prelude.{◌≤◌, ◌≡◌, refl, true, false, some, [], ◌∷◌, ◌⊎◌, max, arith, ℕ, List, Option, map}
use oxdm.Job.{downloading, JobError}
use oxdm.Table.Keyed.{IsKeyed}
use oxdm.Queue.{new_main}
use oxdm.Admission.{running_here, queue_stop_targets}
use oxdm.State.{AppState, new_tally, is_queue_active, queue}
use oxdm.State.Fill.{or_global, fill_queue_slots}
use oxdm.State.Fill.Deferred.{IsWithin}
use oxdm.State.Queues.{stop_queue, trim_to_queue_cap}
use oxdm.State.Queues.Ends.{stop_queue_takes_all}
use oxdm.State.Queues.Quiet.{stop_queue_lasts, all_ended, RunEnd}
use oxdm.State.Start.{Host}
use oxdm.State.Queues.Capped.{trim_to_queue_cap_suffices}
use oxdm.State.Run.{error, run_ended}
use oxdm.State.Run.Bounds.{run_ended-IsWithin}
use oxdm.Job.{network}
use oxdm.Examples.Data.{an_entry, waiting, daemon, nightly, roomy, at_night}

abbrev pub busy : AppState
busy = record daemon {
  jobs = an_entry 21 2 downloading true ∷ waiting ∷ an_entry 22 2 downloading true ∷ [];
  active_queues = (2, record new_tally { queue_run = true }) ∷ [];
}

pub busy-IsKeyed : IsKeyed busy.jobs
busy-IsKeyed k = ground arith

nightly_runs : is_queue_active 2 busy ≡ true
unfolding is_queue_active
nightly_runs = refl

nightly_there : queue 2 busy ≡ some nightly
unfolding queue new_main
nightly_there = refl

stop_queue_takes_all_example :
    (queue_stop_targets (stop_queue 1000 2 busy).jobs 2 ≡ [])
    × (is_queue_active 2 (stop_queue 1000 2 busy) ≡ false)
stop_queue_takes_all_example = stop_queue_takes_all 1000 2 busy busy-IsKeyed

-- Both of the downloads that the stop told to end come to their end.
abbrev both_ends : List RunEnd
both_ends =
    map
      (λ id. record {
        now_ms = 1001;
        clock = at_night;
        host = roomy;
        id = id;
        queue_id = 2;
        park = false;
        outcome = error JobError.cancelled;
      })
      (22 ∷ 21 ∷ [])

stop_queue_lasts_example :
    (is_queue_active 2 (all_ended both_ends (stop_queue 1000 2 busy)) ≡ false)
    × ((later : ℕ) (h : Host) (just_ended : Option ℕ)
        → fill_queue_slots later h 2 just_ended (all_ended both_ends (stop_queue 1000 2 busy))
          ≡ all_ended both_ends (stop_queue 1000 2 busy))
stop_queue_lasts_example = stop_queue_lasts 1000 2 both_ends busy

trim_to_queue_cap_suffices_example :
    let s' = trim_to_queue_cap 1000 2 busy in
    (running_here 2 s'.jobs ≤ max (or_global (some 1) 2) 1) ⊎ (queue_stop_targets s'.jobs 2 ≡ [])
unfolding new_main
trim_to_queue_cap_suffices_example =
    trim_to_queue_cap_suffices 1000 2 busy nightly busy-IsKeyed nightly_runs nightly_there

run_ended-IsWithin_example :
    IsWithin busy (run_ended 1000 at_night roomy 21 2 true (error (network [])) busy)
run_ended-IsWithin_example =
    run_ended-IsWithin 1000 at_night roomy 21 2 true (error (network [])) busy
