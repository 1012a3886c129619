-- ===== src/State/Queues/Quiet.antt =====
-- A stopped queue stays off, whatever runs end after the stop.
use oxdm.Prelude.{
  ℕ, zero, suc, ◌≡◌, ◌==◌, refl, Bool, true, false, ◌&&◌, ◌||◌, not, Option, none, some, List, [],
  ◌∷◌, arith, any, ==→eq, if◌then◌else◌, inl, inr, ◌∙◌, subst, Option-cases, Bool-cases, length,
}
use oxdm.Job.{JobError}
use oxdm.Queue.{Queue, LocalTime, spent_by_run, manual}
use oxdm.Table.{job_entry}
use oxdm.Admission.{next_over_cap}
use oxdm.State.{
  AppState, QueueRunTally, queue, get_tally, remove_tally, is_queue_active, feeds_itself, send,
  queues_changed,
}
use oxdm.State.Pause.{pause_in_place, checked}
use oxdm.State.Start.{Host}
use oxdm.State.Fill.{Pass, fill_queue_slots, fill_deferred_slots}
use oxdm.State.Queues.{stop_queue, trim_loop, trimmed, trim_to_queue_cap}
use oxdm.State.Queues.Ends.{stop_queue_inactive}
use oxdm.State.Queues.Off.{StaysOff, off_same, off_if, off_put, off_fill_run, off_fill_deferred}
use oxdm.State.Run.{
  RunOutcome, put_queue, done, error, JobOutcome, needs_answer, write_outcome, tally_outcome,
  tally_queue_outcome, outcome_of, settle_run, upsert_queue, spent, closed_run, is_busy,
  maybe_finish_queue, run_ended, is_conflict,
}

tallied_run :
    (id : ℕ) (o : JobOutcome) (t : QueueRunTally) → (tally_outcome id o t).queue_run ≡ t.queue_run
unfolding tally_outcome
tallied_run id JobOutcome.completed t = refl
tallied_run id JobOutcome.failed t = refl
tallied_run id needs_answer t = refl
tallied_run id JobOutcome.cancelled t = refl

get_removed :
    (q k : ℕ) (m : List (ℕ × QueueRunTally))
    → get_tally q (remove_tally k m) ≡ (if k == q then none else get_tally q m)
unfolding get_tally remove_tally
get_removed q k [] = ground arith
get_removed q k ((j, t) ∷ m) = ground (arith, get_removed q k m)

module _ (q : ℕ) where
  off_here :
      (k : ℕ) (s : AppState) (t : QueueRunTally)
      → get_tally k s.active_queues ≡ some t
      → (k == q) ≡ true
      → is_queue_active q s ≡ false
      → t.queue_run ≡ false
  unfolding is_queue_active
  off_here k s t there same off =
      let e : get_tally q s.active_queues ≡ some t =
        subst (λ i. get_tally i s.active_queues ≡ some t) (==→eq k q same) there in
      simp e at off

  off_tallied :
      (k id : ℕ) (o : JobOutcome) (s : AppState) → StaysOff q s (tally_queue_outcome k id o s)
  unfolding tally_queue_outcome
  off_tallied k id o s = elim (Option-cases (get_tally k s.active_queues)) [
    | inl gone ↦ off_same q s (tally_queue_outcome k id o s) (rw (gone, tally_queue_outcome) refl)
    | inr (t, there) ↦
        off_put q k (tally_outcome id o t) s (tally_queue_outcome k id o s)
          (rw (there, tally_queue_outcome) refl)
          (λ same off. tallied_run id o t ∙ off_here k s t there same off)
  ]

  off_written :
      (now id : ℕ) (park : Bool) (o : RunOutcome) (s : AppState)
      → StaysOff q s (write_outcome now id park o s)
  unfolding write_outcome is_queue_active
  off_written now id park (done path already) s = λ off. off
  off_written now id park (error JobError.cancelled) s = λ off. off
  off_written now id park (error err) s =
      off_if q (park && is_conflict err) s _ _ (λ off. off) (λ off. off)

  off_settled :
      (now id k : ℕ) (park : Bool) (o : RunOutcome) (s : AppState)
      → StaysOff q s (settle_run now id k park o s)
  unfolding settle_run
  off_settled now id k park o s = λ off.
      let tallied = tally_queue_outcome k id (outcome_of o) s in
      let written = write_outcome now id park o tallied in
      off_same q written _ refl
        (off_written now id park o tallied (off_tallied k id (outcome_of o) s off))

  tallies-pause_in_place :
      (now id : ℕ) (s : AppState) → (pause_in_place now id s).0.active_queues ≡ s.active_queues
  unfolding pause_in_place
  tallies-pause_in_place now id s = elim (Option-cases (checked (job_entry id s.jobs))) [
    | inl went ↦ rw went refl
    | inr (err, h) ↦ rw h refl
  ]

  off_trim_loop :
      (now k cap fuel : ℕ) (p : Pass) → StaysOff q p.state (trim_loop now k cap fuel p).state
  unfolding trim_loop
  off_trim_loop now k cap zero p = λ off. off
  off_trim_loop now k cap (suc fuel) p =
      elim (Option-cases (next_over_cap p.state.jobs k cap p.tried)) [
        | inl none_left ↦ rw (none_left, trim_loop) (λ off. off)
        | inr (id, picked) ↦
            rw (picked, trim_loop)
              (λ off.
                off_trim_loop now k cap fuel
                  (record { tried = id ∷ p.tried; state = (pause_in_place now id p.state).0 })
                  (off_same q p.state _ (tallies-pause_in_place now id p.state) off))
      ]

  off_trimmed : (now : ℕ) (found : Option Queue) (s : AppState) → StaysOff q s (trimmed now found s)
  off_trimmed now none s = λ off. off
  off_trimmed now (some k) s =
      off_trim_loop now k.id _ (length s.jobs) (record { tried = []; state = s })

  off_trim : (now id : ℕ) (s : AppState) → StaysOff q s (trim_to_queue_cap now id s)
  unfolding trim_to_queue_cap
  off_trim now id s =
      off_if q (is_queue_active id s) s _ s (off_trimmed now (queue id s) s) (λ off. off)

  off_upserted : (now : ℕ) (k : Queue) (s : AppState) → StaysOff q s (upsert_queue now k s)
  unfolding upsert_queue is_queue_active
  off_upserted now k s = λ off.
      let saved = if k.id == s.main_queue_id then record k { builtin = true } else k in
      off_trim now k.id (send queues_changed (record s { queues = put_queue saved s.queues })) off

  off_spent :
      (now : ℕ) (t : LocalTime) (k : Option Queue) (s : AppState) → StaysOff q s (spent now t k s)
  off_spent now t none s = λ off. off
  off_spent now t (some k) s =
      off_if q (spent_by_run k.schedule t) s _ s
        (off_upserted now (record k { schedule = manual }) s) (λ off. off)

  off_removed :
      (k : ℕ) (s : AppState)
      → StaysOff q s (record s { active_queues = remove_tally k s.active_queues })
  unfolding is_queue_active
  off_removed k s off = elim (Bool-cases (k == q)) [
    | inl same ↦ rw (get_removed q k s.active_queues) (rw same refl)
    | inr other ↦ rw (get_removed q k s.active_queues) (rw other off)
  ]

  off_closed :
      (now : ℕ) (t : LocalTime) (k : ℕ) (r : Option QueueRunTally) (s : AppState)
      → StaysOff q s (closed_run now t k r s)
  unfolding is_queue_active
  off_closed now t k none s = λ off. off
  off_closed now t k (some r) s =
      let gone = record s { active_queues = remove_tally k s.active_queues } in
      off_if q r.queue_run s _ gone
        (λ off. off_spent now t (queue k gone) gone (off_removed k s off)) (off_removed k s)

  off_finished :
      (now : ℕ) (t : LocalTime) (k : ℕ) (s : AppState) → StaysOff q s (maybe_finish_queue now t k s)
  unfolding maybe_finish_queue
  off_finished now t k s =
      off_if q (any (is_busy k) s.jobs) s s _ (λ off. off)
        (off_closed now t k (get_tally k s.active_queues) s)

  off_ended :
      (now : ℕ) (t : LocalTime) (h : Host) (id k : ℕ) (park : Bool) (o : RunOutcome) (s : AppState)
      → StaysOff q s (run_ended now t h id k park o s)
  unfolding run_ended fill_queue_slots
  off_ended now t h id k park o s = λ off.
      let settled = settle_run now id k park o s in
      let filled = fill_queue_slots now h k (some id) settled in
      let deferred = fill_deferred_slots now h filled in
      off_finished now t k deferred (
        off_fill_deferred q now h filled (
          off_fill_run q now h k (some id) (get_tally k settled.active_queues) settled
            (off_settled now id k park o s off)))

-- A run that ends: when, on what host, of which download and queue, and with what outcome.
pub record RunEnd : Type 0 where
  pub now_ms : ℕ
  pub clock : LocalTime
  pub host : Host
  pub id : ℕ
  pub queue_id : ℕ
  pub park : Bool
  pub outcome : RunOutcome

abbrev pub all_ended : List RunEnd → AppState → AppState
all_ended [] s = s
all_ended (r ∷ rs) s =
    all_ended rs (run_ended r.now_ms r.clock r.host r.id r.queue_id r.park r.outcome s)

off_all_ended : (q : ℕ) (rs : List RunEnd) (s : AppState) → StaysOff q s (all_ended rs s)
off_all_ended q [] s = λ off. off
off_all_ended q (r ∷ rs) s = λ off.
    off_all_ended q rs _
      (off_ended q r.now_ms r.clock r.host r.id r.queue_id r.park r.outcome s off)

unfed :
    (exiting : Bool) (t : QueueRunTally)
    → t.queue_run ≡ false
    → (exiting || not (feeds_itself t)) ≡ true
unfolding feeds_itself
unfed exiting t h = ground arith

fill_inactive :
    (now : ℕ) (h : Host) (q : ℕ) (just_ended : Option ℕ) (s : AppState)
    → is_queue_active q s ≡ false
    → fill_queue_slots now h q just_ended s ≡ s
unfolding fill_queue_slots is_queue_active
fill_inactive now h q just_ended s off = elim (Option-cases (get_tally q s.active_queues)) [
  | inl none_there ↦ rw none_there
  | inr (t, there) ↦ rw (there, unfed s.exiting t (simp there at off))
]

-- A queue that was stopped stays stopped whatever runs end after that, of its own downloads or of
-- others, in whatever order and with whatever outcome, each with the filling of slots and the
-- finishing of queues that it sets off; and no pass over the queue then starts anything.
pub stop_queue_lasts :
    (now q : ℕ) (rs : List RunEnd) (s : AppState)
    → (is_queue_active q (all_ended rs (stop_queue now q s)) ≡ false)
      × ((later : ℕ) (h : Host) (just_ended : Option ℕ)
          → fill_queue_slots later h q just_ended (all_ended rs (stop_queue now q s))
            ≡ all_ended rs (stop_queue now q s))
stop_queue_lasts now q rs s =
    let off = off_all_ended q rs (stop_queue now q s) (stop_queue_inactive now q s) in
    (off, λ later h just_ended. fill_inactive later h q just_ended _ off)
