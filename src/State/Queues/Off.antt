-- ===== src/State/Queues/Off.antt =====
-- A queue whose run is off: starts, whatever comes of them, do not switch it on.
use oxdm.Prelude.{
  ℕ, zero, suc, ◌≡◌, ◌==◌, refl, Bool, true, false, ◌||◌, not, Option, none, some, List, [], ◌∷◌,
  arith, if◌then◌else◌, inl, inr, Option-cases, Bool-cases, length,
}
use oxdm.Job.{JobError, deferred, is_queued}
use oxdm.Entry.{JobEntry}
use oxdm.Table.{job_entry}
use oxdm.Admission.{Admission, already_running, defer, start, next_deferred}
use oxdm.State.{
  AppState, QueueRunTally, get_tally, put_tally, is_queue_active, mark_run_intent, feeds_itself,
  queue_halted, queue_of, new_tally, edit_job,
}
use oxdm.State.Start.{
  Host, start_run, start_job, admitted, launch, spawned, found, join_run, refuse_if_short_on_space,
  space_need, slots_full_for, work_root_or,
}
use oxdm.State.Fill.{
  Pass, Filling, start_automatically, fill_loop, next_fill, fill_run, settle, try_deferred,
  deferred_loop, fill_deferred_slots,
}
use oxdm.State.Fill.Within.{fill_loop_spent, fill_loop_stop, fill_loop_go, after_pick}

-- The run of the queue is off there if it was off before.
abbrev pub StaysOff : ℕ → AppState → AppState → Type 0
StaysOff q s s' = is_queue_active q s ≡ false → is_queue_active q s' ≡ false

module _ (q : ℕ) where
  -- What writes no run of a queue.
  pub off_same : (s s' : AppState) → s'.active_queues ≡ s.active_queues → StaysOff q s s'
  unfolding is_queue_active
  off_same s s' e h = rw e h

  pub off_if :
      (b : Bool) (s t u : AppState)
      → StaysOff q s t
      → StaysOff q s u
      → StaysOff q s (if b then t else u)
  off_if true s t u h k = h
  off_if false s t u h k = k

  -- A run that is written goes by its own mark, and the others stay.
  pub get-put_tally :
      (k : ℕ) (t : QueueRunTally) (m : List (ℕ × QueueRunTally))
      → get_tally q (put_tally k t m) ≡ (if k == q then some t else get_tally q m)
  unfolding get_tally put_tally
  get-put_tally k t [] = refl
  get-put_tally k t ((j, u) ∷ m) = ground (arith, get-put_tally k t m)

  pub off_put :
      (k : ℕ) (t : QueueRunTally) (s s' : AppState)
      → s'.active_queues ≡ put_tally k t s.active_queues
      → ((k == q) ≡ true → is_queue_active q s ≡ false → t.queue_run ≡ false)
      → StaysOff q s s'
  unfolding is_queue_active
  off_put k t s s' e unset off = elim (Bool-cases (k == q)) [
    | inl same ↦ rw e (rw (get-put_tally k t s.active_queues) (rw same (unset same off)))
    | inr other ↦ rw e (rw (get-put_tally k t s.active_queues) (rw other off))
  ]

  off_joined : (k : ℕ) (s : AppState) → StaysOff q s (join_run k s)
  unfolding join_run
  off_joined k s = elim (Option-cases (get_tally k s.active_queues)) [
    | inl fresh ↦
        off_put k new_tally s (join_run k s) (rw (fresh, join_run) refl) (λ same off. refl)
    | inr (t, there) ↦ off_same s (join_run k s) (rw (there, join_run) refl)
  ]

  off_spawned :
      (now id k : ℕ) (root : List ℕ) (made : Option (List ℕ)) (s : AppState)
      → StaysOff q s (spawned now id k root made s).0
  unfolding is_queue_active join_run
  off_spawned now id k root none s = λ off.
      off_joined k
        (edit_job id
          (λ e. record e {
            job = record (e.job) { work_root = some (work_root_or e.job.work_root root) };
          })
          s)
        off
  off_spawned now id k root (some reason) s = λ off. off

  off_admitted :
      (now : ℕ) (h : Host) (resumed : Bool) (e : JobEntry) (a : Admission) (s : AppState)
      → StaysOff q s (admitted now h resumed e a s).0
  unfolding launch is_queue_active
  off_admitted now h resumed e already_running s = λ off. off
  off_admitted now h resumed e defer s = elim (Bool-cases (is_queued e.live_phase)) [
    | inl waits ↦ rw waits (λ off. off)
    | inr other ↦ rw other (λ off. off)
  ]
  off_admitted now h resumed e start s = λ off. off_spawned now e.job.id e.job.queue_id _ _ _ off

  off_found :
      (now : ℕ) (h : Host) (resumed : Bool) (o : Option JobEntry) (s : AppState)
      → StaysOff q s (found now h resumed o s).0
  off_found now h resumed none s = λ off. off
  off_found now h resumed (some e) s =
      elim (Option-cases (refuse_if_short_on_space h (space_need e s.work_dir ∷ []))) [
        | inl fits ↦ rw fits (off_admitted now h resumed e _ s)
        | inr (err, short) ↦ rw short (λ off. off)
      ]

  off_either :
      (b : Bool) (s : AppState) (t u : AppState × Option JobError)
      → StaysOff q s t.0
      → StaysOff q s u.0
      → StaysOff q s (if b then t else u).0
  off_either true s t u h k = h
  off_either false s t u h k = k

  off_start_run :
      (now : ℕ) (h : Host) (id : ℕ) (resumed : Bool) (s : AppState)
      → StaysOff q s (start_run now h id resumed s).0
  unfolding start_run
  off_start_run now h id resumed s =
      off_either s.exiting s (s, _) (found now h resumed (job_entry id s.jobs) s) (λ off. off)
        (off_found now h resumed (job_entry id s.jobs) s)

  off_automatic :
      (now : ℕ) (h : Host) (id : ℕ) (s : AppState) → StaysOff q s (start_automatically now h id s).0
  unfolding start_automatically start_job mark_run_intent is_queue_active
  off_automatic now h id s = off_start_run now h id false (mark_run_intent id false s)

  off_fill_loop :
      (now : ℕ) (h : Host) (f : Filling) (fuel : ℕ) (p : Pass)
      → StaysOff q p.state (fill_loop now h f fuel p).state
  off_fill_loop now h f zero p = rw (fill_loop_spent now h f p) (λ off. off)
  off_fill_loop now h f (suc fuel) p = elim (Option-cases (next_fill f p)) [
    | inl none_left ↦ rw (fill_loop_stop now h f (suc fuel) p none_left) (λ off. off)
    | inr (id, picked) ↦ rw (fill_loop_go now h f fuel p id picked) (λ off.
        off_fill_loop now h f fuel (after_pick now h p id) (off_automatic now h id p.state off))
  ]

  pub off_fill_run :
      (now : ℕ) (h : Host) (k : ℕ) (just : Option ℕ) (t : Option QueueRunTally) (s : AppState)
      → StaysOff q s (fill_run now h k just t s)
  off_fill_run now h k just none s = λ off. off
  off_fill_run now h k just (some t) s =
      off_if (s.exiting || not (feeds_itself t)) s s _ (λ off. off)
        (off_fill_loop now h _ (length s.jobs) _)

  off_settle : (id : ℕ) (s : AppState) (o : Option JobError) → StaysOff q s (settle id (s, o))
  unfolding is_queue_active
  off_settle id s none = λ off. off
  off_settle id s (some deferred) = λ off. off
  off_settle id s (some err) = λ off. off

  off_try_deferred :
      (now : ℕ) (h : Host) (id : ℕ) (s : AppState) → StaysOff q s (try_deferred now h id s)
  unfolding try_deferred
  off_try_deferred now h id s =
      let (s', o) = start_automatically now h id s in
      off_if (slots_full_for (queue_of id s) s) s s _ (λ off. off)
        (off_if (queue_halted (queue_of id s) s) s s (settle id (s', o)) (λ off. off)
          (λ off. off_settle id s' o (off_automatic now h id s off)))

  off_pass :
      (b : Bool) (s : AppState) (p p' : Pass)
      → StaysOff q s p.state
      → StaysOff q s p'.state
      → StaysOff q s (if b then p else p').state
  off_pass true s p p' h k = h
  off_pass false s p p' h k = k

  off_deferred_loop :
      (now : ℕ) (h : Host) (fuel : ℕ) (p : Pass)
      → StaysOff q p.state (deferred_loop now h fuel p).state
  unfolding deferred_loop
  off_deferred_loop now h zero p = λ off. off
  off_deferred_loop now h (suc fuel) p =
      off_pass p.state.exiting p.state p _ (λ off. off)
        (elim (Option-cases (next_deferred p.state.jobs p.tried)) [
          | inl none_left ↦ rw none_left (λ off. off)
          | inr (id, picked) ↦ rw picked (λ off.
              off_deferred_loop now h fuel
                (record { tried = id ∷ p.tried; state = try_deferred now h id p.state })
                (off_try_deferred now h id p.state off))
        ])

  pub off_fill_deferred :
      (now : ℕ) (h : Host) (s : AppState) → StaysOff q s (fill_deferred_slots now h s)
  unfolding fill_deferred_slots
  off_fill_deferred now h s =
      off_deferred_loop now h (length s.jobs) (record { tried = []; state = s })
