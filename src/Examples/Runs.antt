-- ===== src/Examples/Runs.antt =====
-- The events of a run.
use oxdm.Prelude.{ℕ, ◌+◌, ◌-◌, ◌≤◌, ◌≡◌, refl, arith, true, [], ◌∷◌, List, any, if◌then◌else◌}
use oxdm.Job.{paused}
use oxdm.Entry.{JobEntry, active_time}
use oxdm.Entry.Clock.{IsTimed}
use oxdm.Transfer.{OdlProgressEvent, OdlPhase, apply_all}
use oxdm.Transfer.Stopped.{apply_all_stopped, is_cancelled}
use oxdm.Transfer.Timed.{apply_all-IsTimed}
use oxdm.Examples.Data.{waiting}

abbrev some_events : List (ℕ × OdlProgressEvent)
some_events =
    (1100, OdlProgressEvent.phase_changed OdlPhase.downloading)
    ∷ (1200, OdlProgressEvent.part_added (7 ∷ []) 0 500)
    ∷ (1300, OdlProgressEvent.part_progress (7 ∷ []) 100 500)
    ∷ (1400, OdlProgressEvent.part_retrying (7 ∷ []))
    ∷ (1500, OdlProgressEvent.cancelled)
    ∷ []

abbrev told_to_stop : JobEntry
told_to_stop = record waiting { cancel = true }

apply_all_stopped_example :
    ((apply_all 999 some_events told_to_stop).cancel ≡ true)
    × ((apply_all 999 some_events told_to_stop).live_phase
        ≡ (if any (λ ev. is_cancelled ev.1) some_events then paused else told_to_stop.live_phase))
apply_all_stopped_example = apply_all_stopped 999 some_events told_to_stop refl

waiting-IsTimed : IsTimed 1000 waiting
waiting-IsTimed = record { begun = λ h. ground arith; past = omega arith; closed = λ h. refl }

apply_all-IsTimed_example :
    IsTimed 1600 (apply_all 999 some_events waiting)
    × (active_time 1000 waiting ≤ active_time 1600 (apply_all 999 some_events waiting))
    × (active_time 1600 (apply_all 999 some_events waiting)
        ≤ active_time 1000 waiting + (1600 - 1000))
apply_all-IsTimed_example =
    apply_all-IsTimed 999 some_events 1000 1600 waiting (omega arith) waiting-IsTimed (omega arith)
