-- ===== src/Transfer/Stopped.antt =====
-- A run that was told to stop.
use oxdm.Prelude.{ℕ, ◌≡◌, refl, Bool, true, false, List, [], ◌∷◌, arith, if◌then◌else◌, any, ◌∙◌}
use oxdm.Job.{paused}
use oxdm.Entry.{JobEntry}
use oxdm.Transfer.{OdlProgressEvent, cancelled, apply_odl_event, apply_all, retry_phase}

-- The run's own report that it was cancelled.
abbrev pub is_cancelled : OdlProgressEvent → Bool
is_cancelled cancelled = true
is_cancelled _ = false

module _ (unknown : ℕ) where
  keeps_stopped :
      (now : ℕ) (ev : OdlProgressEvent) (e : JobEntry)
      → e.cancel ≡ true
      → ((apply_odl_event unknown now ev e).cancel ≡ true)
        × ((apply_odl_event unknown now ev e).live_phase
            ≡ (if is_cancelled ev then paused else e.live_phase))
  unfolding apply_odl_event retry_phase
  keeps_stopped now OdlProgressEvent.parts_cleared e h = (h, refl)
  keeps_stopped now ev e h = ground arith

  -- However many of its events are still to be applied, a run that was told to stop leaves its job in
  -- the phase that the stop gave it, or paused where one of the events says that it was cancelled; and
  -- it stays told to stop.
  pub apply_all_stopped :
      (evs : List (ℕ × OdlProgressEvent)) (e : JobEntry)
      → e.cancel ≡ true
      → ((apply_all unknown evs e).cancel ≡ true)
        × ((apply_all unknown evs e).live_phase
            ≡ (if any (λ ev. is_cancelled ev.1) evs then paused else e.live_phase))
  unfolding apply_all
  apply_all_stopped [] e h = (h, refl)
  apply_all_stopped ((now, ev) ∷ evs) e h =
      let next = apply_odl_event unknown now ev e in
      let (stays, phase) = keeps_stopped now ev e h in
      let (still, last) = apply_all_stopped evs next stays in (still, last ∙ ground (arith, phase))
