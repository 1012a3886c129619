-- ===== src/State/Run/Bounds.antt =====
-- The end of a run, with all that it sets off, stays within the global cap.
use oxdm.Prelude.{
  ℕ, zero, suc, ◌≡◌, refl, Bool, false, ◌&&◌, ◌||◌, not, Option, none, some, List, arith, inl, inr,
  ◌∙◌, Option-cases, Bool-cases, length, any,
}
use oxdm.Job.{is_running, JobError, conflict, conflict_pending, paused}
use oxdm.Entry.{JobEntry, end_with, set_phase, reset_live_speed}
use oxdm.Queue.{Queue, LocalTime, spent_by_run, manual}
use oxdm.Table.Laws.{count-update_le, count-update_same, count-move_to_back}
use oxdm.Admission.{phase_running, running_global}
use oxdm.State.{
  AppState, QueueRunTally, queue, get_tally, remove_tally, feeds_itself, edit_job,
  move_to_queue_end,
}
use oxdm.State.Start.{Host}
use oxdm.State.Fill.{
  Pass, Filling, fill_loop, next_fill, fill_queue_slots, fill_run, fill_deferred_slots,
}
use oxdm.State.Fill.Within.{
  fill_queue_slots_within_caps, fill_loop_spent, fill_loop_stop, fill_loop_go, after_pick,
}
use oxdm.State.Fill.Deferred.{
  IsWithin, IsWithin-trans, IsWithin-of_le, if_state, fill_deferred_slots-IsWithin,
}
use oxdm.State.Kept.{start_automatically-IsKept}
use oxdm.State.Queues.Trims.{trim_to_queue_cap-IsWithin}
use oxdm.State.Run.{
  RunOutcome, done, error, completed_entry, failed_entry, failed_run, park_with_conflict,
  write_outcome, tally_queue_outcome, outcome_of, settle_run, upsert_queue, spent, closed_run,
  is_busy, maybe_finish_queue, run_ended, is_conflict,
}

completed_still :
    (now : ℕ) (path : Option (List ℕ)) (e : JobEntry)
    → phase_running (completed_entry now path e) ≡ false
unfolding completed_entry is_running
completed_still now path e = ground arith

failed_still :
    (now : ℕ) (err : JobError) (e : JobEntry) → phase_running (failed_entry now err e) ≡ false
unfolding failed_entry is_running
failed_still now err e = ground arith

conflict_still :
    (now : ℕ) (err : JobError) (e : JobEntry) → phase_running (end_with now conflict err e) ≡ false
unfolding end_with is_running
conflict_still now err e = ground arith

-- A write after which the entry no longer runs.
edit-IsWithin :
    (id : ℕ) (f : JobEntry → JobEntry) (s : AppState)
    → ((e : JobEntry) → phase_running (f e) ≡ false)
    → IsWithin s (edit_job id f s)
edit-IsWithin id f s still =
    IsWithin-of_le s (edit_job id f s)
      (count-update_le phase_running id f s.jobs (λ e h. absurd (ground (arith, h, still e)))) refl

moved-IsWithin : (id : ℕ) (s : AppState) → IsWithin s (move_to_queue_end id s)
unfolding move_to_queue_end
moved-IsWithin id s =
    IsWithin-of_le s _ (omega (arith, count-move_to_back phase_running id s.jobs)) refl

parked-IsWithin :
    (now id : ℕ) (err : JobError) (s : AppState) → IsWithin s (park_with_conflict now id err s)
unfolding park_with_conflict
parked-IsWithin now id err s =
    let s' = move_to_queue_end id s in
    let k = edit-IsWithin id _ s' (conflict_still now (conflict_pending err)) in
    IsWithin-trans s s' _ (moved-IsWithin id s) (record { bound = k.bound; cap = k.cap })

failed_run-IsWithin :
    (now id : ℕ) (park : Bool) (err : JobError) (s : AppState)
    → IsWithin s (failed_run now id park err s)
failed_run-IsWithin now id park err s =
    let ended = edit_job id (failed_entry now err) s in
    let s' = move_to_queue_end id ended in
    let here =
      IsWithin-trans s ended s' (edit-IsWithin id (failed_entry now err) s (failed_still now err))
        (moved-IsWithin id ended) in
    if_state (park && is_conflict err) s _ _
      (IsWithin-trans s s' _ here (parked-IsWithin now id err s'))
      (record { bound = here.bound; cap = here.cap })

write_outcome-IsWithin :
    (now id : ℕ) (park : Bool) (o : RunOutcome) (s : AppState)
    → IsWithin s (write_outcome now id park o s)
unfolding write_outcome is_running
write_outcome-IsWithin now id park (done path already) s =
    let k = edit-IsWithin id (completed_entry now path) s (completed_still now path) in
    record { bound = k.bound; cap = k.cap }
write_outcome-IsWithin now id park (error JobError.cancelled) s =
    let k =
      edit-IsWithin id (λ e. reset_live_speed (set_phase now paused e)) s (λ e. ground arith) in
    record { bound = k.bound; cap = k.cap }
write_outcome-IsWithin now id park (error err) s = failed_run-IsWithin now id park err s

settle_run-IsWithin :
    (now id q : ℕ) (park : Bool) (o : RunOutcome) (s : AppState)
    → IsWithin s (settle_run now id q park o s)
unfolding settle_run tally_queue_outcome
settle_run-IsWithin now id q park o s =
    let tallied = tally_queue_outcome q id (outcome_of o) s in
    let written = write_outcome now id park o tallied in
    IsWithin-trans s tallied _ (IsWithin-of_le s tallied (omega arith) refl) (
      IsWithin-trans tallied written _ (write_outcome-IsWithin now id park o tallied) (
        IsWithin-of_le written _
          (omega (
            arith,
            count-update_same phase_running id (λ e. record e { running = false }) written.jobs
                (λ e. refl),
          ))
          refl))

cap-fill_loop :
    (now : ℕ) (h : Host) (f : Filling) (fuel : ℕ) (p : Pass)
    → (fill_loop now h f fuel p).state.max_concurrent_downloads ≡ p.state.max_concurrent_downloads
cap-fill_loop now h f zero p = rw (fill_loop_spent now h f p)
cap-fill_loop now h f (suc fuel) p = elim (Option-cases (next_fill f p)) [
  | inl none_left ↦ rw (fill_loop_stop now h f (suc fuel) p none_left)
  | inr (id, picked) ↦ rw (fill_loop_go now h f fuel p id picked) (
      cap-fill_loop now h f fuel (after_pick now h p id)
      ∙ (start_automatically-IsKept now h id p.state).cap)
]

cap-fill_run :
    (now : ℕ) (h : Host) (q : ℕ) (just : Option ℕ) (t : Option QueueRunTally) (s : AppState)
    → (fill_run now h q just t s).max_concurrent_downloads ≡ s.max_concurrent_downloads
cap-fill_run now h q just none s = refl
cap-fill_run now h q just (some t) s = elim (Bool-cases (s.exiting || not (feeds_itself t))) [
  | inl stays ↦ rw stays
  | inr goes ↦ rw goes (cap-fill_loop now h _ (length s.jobs) _)
]

pub fill_queue_slots-IsWithin :
    (now : ℕ) (h : Host) (q : ℕ) (just : Option ℕ) (s : AppState)
    → IsWithin s (fill_queue_slots now h q just s)
unfolding fill_queue_slots running_global
fill_queue_slots-IsWithin now h q just s = record {
  bound = (fill_queue_slots_within_caps now h q just s).0;
  cap = cap-fill_run now h q just (get_tally q s.active_queues) s;
}

upsert_queue-IsWithin : (now : ℕ) (q : Queue) (s : AppState) → IsWithin s (upsert_queue now q s)
unfolding upsert_queue
upsert_queue-IsWithin now q s =
    let k = trim_to_queue_cap-IsWithin now q.id _ in record { bound = k.bound; cap = k.cap }

spent-IsWithin :
    (now : ℕ) (t : LocalTime) (q : Option Queue) (s : AppState) → IsWithin s (spent now t q s)
spent-IsWithin now t none s = IsWithin-of_le s s (omega arith) refl
spent-IsWithin now t (some q) s =
    if_state (spent_by_run q.schedule t) s _ s
      (upsert_queue-IsWithin now (record q { schedule = manual }) s)
      (IsWithin-of_le s s (omega arith) refl)

closed_run-IsWithin :
    (now : ℕ) (t : LocalTime) (q : ℕ) (r : Option QueueRunTally) (s : AppState)
    → IsWithin s (closed_run now t q r s)
closed_run-IsWithin now t q none s = IsWithin-of_le s s (omega arith) refl
closed_run-IsWithin now t q (some r) s =
    let off = record s { active_queues = remove_tally q s.active_queues } in
    let k = spent-IsWithin now t (queue q off) off in
    if_state r.queue_run s _ off (record { bound = k.bound; cap = k.cap })
      (IsWithin-of_le s off (omega arith) refl)

maybe_finish_queue-IsWithin :
    (now : ℕ) (t : LocalTime) (q : ℕ) (s : AppState) → IsWithin s (maybe_finish_queue now t q s)
unfolding maybe_finish_queue
maybe_finish_queue-IsWithin now t q s =
    if_state (any (is_busy q) s.jobs) s s _ (IsWithin-of_le s s (omega arith) refl)
      (closed_run-IsWithin now t q (get_tally q s.active_queues) s)

-- However a run ends, once its outcome is written, the free slots of its queue and those of the
-- downloads waiting for one are filled, and the queue is finished where it is done, no more
-- downloads are running than were before or the global cap allows; and that cap is as it was.
pub run_ended-IsWithin :
    (now : ℕ) (t : LocalTime) (h : Host) (id q : ℕ) (park : Bool) (o : RunOutcome) (s : AppState)
    → IsWithin s (run_ended now t h id q park o s)
unfolding run_ended
run_ended-IsWithin now t h id q park o s =
    let settled = settle_run now id q park o s in
    let filled = fill_queue_slots now h q (some id) settled in
    let given = fill_deferred_slots now h filled in
    IsWithin-trans s settled _ (settle_run-IsWithin now id q park o s) (
      IsWithin-trans settled filled _ (fill_queue_slots-IsWithin now h q (some id) settled) (
        IsWithin-trans filled given _ (fill_deferred_slots-IsWithin now h filled)
          (maybe_finish_queue-IsWithin now t q given)))
