-- ===== src/Examples/Daemon.antt =====
-- Starts and passes over the small daemon.
use oxdm.Prelude.{ℕ, ◌≤◌, ◌≡◌, refl, false, none, some, [], max, length}
use oxdm.Admission.{running_global, running_here}
use oxdm.State.{queue_limit}
use oxdm.State.Start.{start_run}
use oxdm.State.Caps.{start_run_within_caps}
use oxdm.State.Fill.{Pass, filling, next_fill, fill_loop, fill_queue_slots, or_global}
use oxdm.State.Fill.Within.{fill_queue_slots_within_caps}
use oxdm.State.Fill.Ends.{fill_loop_exhausts}
use oxdm.Table.{job_entry}
use oxdm.Examples.Data.{waiting, daemon, roomy}

waits : job_entry 11 daemon.jobs ≡ some waiting
unfolding job_entry
waits = refl

start_run_within_caps_example :
    let s' = (start_run 1000 roomy 11 false daemon).0 in
    (running_global s'.jobs ≤ max (running_global daemon.jobs) (max 2 1))
    × ((limit : ℕ)
        → queue_limit 1 daemon ≡ some limit
        → running_here 1 s'.jobs ≤ max (running_here 1 daemon.jobs) (max limit 1))
start_run_within_caps_example = start_run_within_caps 1000 roomy 11 false daemon waiting waits refl

fill_queue_slots_within_caps_example :
    let s' = fill_queue_slots 1000 roomy 1 none daemon in
    (running_global s'.jobs ≤ max (running_global daemon.jobs) (max 2 1))
    × (running_here 1 s'.jobs
        ≤ max (running_here 1 daemon.jobs) (max (or_global (queue_limit 1 daemon) (max 2 1)) 1))
fill_queue_slots_within_caps_example = fill_queue_slots_within_caps 1000 roomy 1 none daemon

abbrev at_first : Pass
at_first = record { tried = []; state = daemon }

fill_loop_exhausts_example :
    next_fill
      (filling 1 [] daemon)
      (fill_loop 1000 roomy (filling 1 [] daemon) (length at_first.state.jobs) at_first)
    ≡ none
fill_loop_exhausts_example = fill_loop_exhausts 1000 roomy (filling 1 [] daemon) at_first
