-- ===== src/Admission/Slots.antt =====
-- What a free slot is worth: the two caps bound every automatic start.
use oxdm.Prelude.{ℕ, ◌<◌, ◌≡◌, false, Option, none, some, List, arith, max, ◌↔◌}
use oxdm.Entry.{JobEntry}
use oxdm.Admission.{slots_full, running_global, running_here}

-- The cap of a queue, where it has one.
abbrev pub IsBelow : ℕ → Option ℕ → Type 0
IsBelow here none = Unit {0}
IsBelow here (some cap) = here < max cap 1

-- The slots are free exactly when the runs of every queue together are below the global cap and
-- those of this queue below its own; a cap of 0 counts as 1.
pub slots_free_iff :
    (jobs : List JobEntry) (global queue : ℕ) (per_queue : Option ℕ)
    → (slots_full jobs global queue per_queue ≡ false)
      ↔ ((running_global jobs < max global 1) × IsBelow (running_here queue jobs) per_queue)
unfolding slots_full
slots_free_iff jobs global queue none = (λ h. (ground arith, tt), λ h. ground (arith, h.0))
slots_free_iff jobs global queue (some cap) =
    (λ h. (ground arith, ground arith), λ h. ground (arith, h.0, h.1))
