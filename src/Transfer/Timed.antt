-- ===== src/Transfer/Timed.antt =====
-- The clock of a run under its events.
use oxdm.Prelude.{ℕ, ◌+◌, ◌-◌, ◌≤◌, ◌<◌, ◌≡◌, List, [], ◌∷◌, arith}
use oxdm.Entry.{JobEntry, active_time}
use oxdm.Entry.Clock.{IsTimed}
use oxdm.Transfer.{OdlProgressEvent, apply_odl_event, apply_all, retry_phase}

-- The moments do not go back, from one to another.
abbrev pub IsOrdered : ℕ → List (ℕ × OdlProgressEvent) → ℕ → Type 0
IsOrdered from [] until = from ≤ until
IsOrdered from ((now, ev) ∷ evs) until = (from ≤ now) × IsOrdered now evs until

module _ (unknown : ℕ) where
  event-IsTimed :
      (now : ℕ) (ev : OdlProgressEvent) (e : JobEntry)
      → IsTimed now e
      → 0 < now
      → IsTimed now (apply_odl_event unknown now ev e)
  unfolding apply_odl_event retry_phase
  event-IsTimed now OdlProgressEvent.parts_cleared e t h = ground arith
  event-IsTimed now ev e t h = ground arith

  event_time :
      (now : ℕ) (ev : OdlProgressEvent) (e : JobEntry)
      → IsTimed now e
      → 0 < now
      → active_time now (apply_odl_event unknown now ev e) ≡ active_time now e
  unfolding apply_odl_event retry_phase active_time
  event_time now OdlProgressEvent.parts_cleared e t h = ground arith
  event_time now ev e t h = ground arith

IsOrdered-le :
    (evs : List (ℕ × OdlProgressEvent)) (from until : ℕ) → IsOrdered from evs until → from ≤ until
IsOrdered-le [] from until h = h
IsOrdered-le ((now, ev) ∷ evs) from until h = omega (arith, h.0, IsOrdered-le evs now until h.1)

-- Time passes between two events: the clock stays in order, and the stretch in progress grows by no
-- more than the time that passed.
later_IsTimed : (from now : ℕ) (e : JobEntry) → from ≤ now → IsTimed from e → IsTimed now e
later_IsTimed from now e h t = record {
  begun = t.begun;
  past = omega (arith, t.past);
  closed = t.closed;
}

later_time :
    (from now : ℕ) (e : JobEntry)
    → from ≤ now
    → IsTimed from e
    → (active_time from e ≤ active_time now e)
      × (active_time now e ≤ active_time from e + (now - from))
unfolding active_time
later_time from now e h t = (ground (arith, t.past), ground (arith, t.past))

module _ (unknown : ℕ) where
  -- Over the events of a run, in the order of their moments, the time that the job has been
  -- downloading never falls, and grows by no more than the time that passed; and its clock stays in
  -- order: a stretch is open exactly while it is downloading.
  pub apply_all-IsTimed :
      (evs : List (ℕ × OdlProgressEvent)) (from until : ℕ) (e : JobEntry)
      → 0 < from
      → IsTimed from e
      → IsOrdered from evs until
      → let e' = apply_all unknown evs e in
        IsTimed until e'
        × (active_time from e ≤ active_time until e')
        × (active_time until e' ≤ active_time from e + (until - from))
  unfolding apply_all
  apply_all-IsTimed [] from until e pos t o =
      let (grows, bound) = later_time from until e o t in
      (later_IsTimed from until e o t, grows, bound)
  apply_all-IsTimed ((now, ev) ∷ evs) from until e pos t o =
      let next = apply_odl_event unknown now ev e in
      let here = later_IsTimed from now e o.0 t in
      let (grows, bound) = later_time from now e o.0 t in
      let same = event_time unknown now ev e here (omega arith) in
      let (timed, more, less) =
        apply_all-IsTimed evs now until next (omega arith)
          (event-IsTimed unknown now ev e here (omega arith)) o.1 in
      let ends = IsOrdered-le evs now until o.1 in
      (timed, omega (arith, grows, same, more), omega (arith, bound, same, less, ends))
