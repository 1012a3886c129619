-- ===== src/State/Queues/Trims.antt =====
-- Trimming a queue to its cap takes runs away until the queue is within the cap or what is left is
-- not the queue's to take.
use oxdm.Prelude.{
  ℕ, zero, suc, ◌≡◌, refl, false, Option, none, some, [], ◌∷◌, arith, inl, inr, Option-cases,
  length,
}
use oxdm.Job.{is_running}
use oxdm.Entry.{JobEntry}
use oxdm.Queue.{Queue}
use oxdm.Table.{job_entry}
use oxdm.Table.Laws.{count-update_le}
use oxdm.Admission.{phase_running, next_over_cap}
use oxdm.State.{AppState, queue, is_queue_active}
use oxdm.State.Pause.{pause_in_place, paused_entry, checked}
use oxdm.State.Fill.{Pass}
use oxdm.State.Fill.Deferred.{IsWithin, IsWithin-trans, IsWithin-of_le, if_state}
use oxdm.State.Queues.{trim_loop, trimmed, trim_to_queue_cap}

paused_still : (now : ℕ) (e : JobEntry) → phase_running (paused_entry now e) ≡ false
unfolding paused_entry is_running
paused_still now e = ground arith

pub pause_in_place-IsWithin : (now id : ℕ) (s : AppState) → IsWithin s (pause_in_place now id s).0
unfolding pause_in_place
pause_in_place-IsWithin now id s = elim (Option-cases (checked (job_entry id s.jobs))) [
  | inl went ↦ rw went (
      IsWithin-of_le s _
        (count-update_le phase_running id (paused_entry now) s.jobs
          (λ e h. absurd (ground (arith, h, paused_still now e))))
        refl)
  | inr (err, h) ↦ rw h (IsWithin-of_le s s (omega arith) refl)
]

trim_loop-IsWithin :
    (now q limit fuel : ℕ) (p : Pass) → IsWithin p.state (trim_loop now q limit fuel p).state
unfolding trim_loop
trim_loop-IsWithin now q limit zero p = IsWithin-of_le p.state p.state (omega arith) refl
trim_loop-IsWithin now q limit (suc fuel) p =
    elim (Option-cases (next_over_cap p.state.jobs q limit p.tried)) [
      | inl none_left ↦
          rw (none_left, trim_loop) (IsWithin-of_le p.state p.state (omega arith) refl)
      | inr (id, picked) ↦
          rw (picked, trim_loop)
            (IsWithin-trans p.state (pause_in_place now id p.state).0 _
              (pause_in_place-IsWithin now id p.state)
              (trim_loop-IsWithin now q limit fuel
                (record { tried = id ∷ p.tried; state = (pause_in_place now id p.state).0 })))
    ]

trimmed-IsWithin :
    (now : ℕ) (found : Option Queue) (s : AppState) → IsWithin s (trimmed now found s)
trimmed-IsWithin now none s = IsWithin-of_le s s (omega arith) refl
trimmed-IsWithin now (some q) s =
    trim_loop-IsWithin now q.id _ (length s.jobs) (record { tried = []; state = s })

pub trim_to_queue_cap-IsWithin :
    (now id : ℕ) (s : AppState) → IsWithin s (trim_to_queue_cap now id s)
unfolding trim_to_queue_cap
trim_to_queue_cap-IsWithin now id s =
    if_state (is_queue_active id s) s _ s (trimmed-IsWithin now (queue id s) s)
      (IsWithin-of_le s s (omega arith) refl)
