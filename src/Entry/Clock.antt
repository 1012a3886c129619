-- ===== src/Entry/Clock.antt =====
-- The time that a run has spent downloading.
use oxdm.Prelude.{ℕ, ◌+◌, ◌-◌, ◌≤◌, ◌<◌, ◌≡◌, true, false, arith, if◌then◌else◌}
use oxdm.Job.{Phase, is_downloading}
use oxdm.Entry.{JobEntry, set_phase, active_time}

-- A stretch is open exactly in `Downloading`, and does not begin after now.
pub record IsTimed (now_ms : ℕ) (e : JobEntry) : Type 0 where
  pub begun : is_downloading e.live_phase ≡ true → 0 < e.downloading_since_ms
  pub past : e.downloading_since_ms ≤ now_ms
  pub closed : is_downloading e.live_phase ≡ false → e.downloading_since_ms ≡ 0

-- Whatever phase a job is put in, the time that it has been downloading up to that moment is kept,
-- and from then on it grows by the clock in `Downloading` and stands still elsewhere.
pub active_time-set_phase :
    (now_ms later : ℕ) (p : Phase) (e : JobEntry)
    → IsTimed now_ms e
    → 0 < now_ms
    → now_ms ≤ later
    → IsTimed now_ms (set_phase now_ms p e)
      × (active_time later (set_phase now_ms p e)
          ≡ active_time now_ms e + (if is_downloading p then later - now_ms else 0))
unfolding set_phase active_time
active_time-set_phase now_ms later p e t h l = ground arith
