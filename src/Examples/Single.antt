-- ===== src/Examples/Single.antt =====
-- Pausing, cancelling and starting again a download that is under way.
use oxdm.Prelude.{ℕ, ◌≡◌, ◌==◌, refl, true, false, none, some, if◌then◌else◌}
use oxdm.Job.{downloading, is_assembling}
use oxdm.Entry.{JobEntry}
use oxdm.Table.{job_entry}
use oxdm.State.Pause.{pause, cancel_to_queued, being_assembled}
use oxdm.State.Pause.Effects.{pause_lem, cancel_to_queued_lem, IsPaused, IsRequeued}
use mathlib.Core.Option
use oxdm.State.All.{pause_all}
use oxdm.State.All.Everything.{paused_by_all, lookup-pause_all}
use oxdm.Examples.Data.{an_entry}
use oxdm.Examples.Sweeps.{busy, busy-IsKeyed}

abbrev going : JobEntry
going = an_entry 21 2 downloading true

going_there : job_entry 21 busy.jobs ≡ some going
unfolding job_entry
going_there = refl

pause_lem_example :
    (is_assembling downloading ≡ true → pause 1000 21 busy ≡ (busy, some being_assembled))
    × (is_assembling downloading ≡ false
        → ((pause 1000 21 busy).1 ≡ none)
          × (p : JobEntry) × (IsPaused going p)
          × ((j : ℕ)
              → job_entry j (pause 1000 21 busy).0.jobs
                ≡ (if 21 == j then some p else job_entry j busy.jobs)))
pause_lem_example = pause_lem 1000 21 busy going busy-IsKeyed going_there

cancel_to_queued_lem_example :
    (is_assembling downloading ≡ true
      → cancel_to_queued 1000 21 busy ≡ (busy, some being_assembled))
    × (is_assembling downloading ≡ false
        → ((cancel_to_queued 1000 21 busy).1 ≡ none)
          × (p : JobEntry) × (IsRequeued going p)
          × ((j : ℕ)
              → job_entry j (cancel_to_queued 1000 21 busy).0.jobs
                ≡ (if 21 == j then some p else job_entry j busy.jobs)))
cancel_to_queued_lem_example = cancel_to_queued_lem 1000 21 busy going busy-IsKeyed going_there

lookup-pause_all_example :
    job_entry 21 (pause_all 1000 busy).jobs
    ≡ Option.map (paused_by_all 1000) (job_entry 21 busy.jobs)
lookup-pause_all_example = lookup-pause_all 1000 busy 21 busy-IsKeyed
