-- ===== src/Job/Phases.antt =====
-- How the readings of a phase divide the phases.
use oxdm.Prelude.{◌≡◌, true, ◌&&◌, ◌||◌, not, arith}
use oxdm.Job.{Phase, failed, is_terminal, is_startable, is_post_transfer, is_running}

-- Not running, and neither startable nor over: there is no such phase. A failed download is the
-- one phase that is over and may be started again.
pub phases_divided :
    (p : Phase)
    → (is_running p ≡ not (is_startable p || is_terminal p))
      × ((is_startable p && is_terminal p) ≡ true → p ≡ failed)
      × (is_post_transfer p ≡ true → is_running p ≡ true)
unfolding is_running is_startable is_terminal is_post_transfer
phases_divided p = ground arith
