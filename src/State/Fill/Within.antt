-- ===== src/State/Fill/Within.antt =====
-- A pass that fills the slots of a running queue stays within the caps, and ends with nothing left
-- that it could start.
use oxdm.Prelude.{
  ℕ, zero, suc, ◌≤◌, ◌<◌, ◌≡◌, refl, Bool, false, Option, none, some, List, ◌∷◌, arith, ◌||◌, inl,
  inr, Option-cases, Bool-cases, max, count, not, length, ==_refl,
}
use oxdm.Entry.{JobEntry}
use oxdm.Table.{job_entry}
use oxdm.Table.Laws.{job_entry-update, count-update_same}
use oxdm.Admission.{running_global, running_here, phase_running, running_in}
use oxdm.State.{AppState, QueueRunTally, mark_run_intent, queue_limit, get_tally, feeds_itself}
use oxdm.State.Start.{Host, start_job, slots_full_for}
use oxdm.State.Caps.{
  IsRunTest, count-start_run, phase_running-IsRunTest, running_in-IsRunTest, start_run_missing,
}
use oxdm.State.Fill.{
  start_automatically, Pass, Filling, is_full, or_global, next_fill, fill_loop, filling,
  fill_queue_slots, fill_run, ended,
}

marked_entry :
    (id : ℕ) (s : AppState) (e : JobEntry)
    → job_entry id s.jobs ≡ some e
    → job_entry id (mark_run_intent id false s).jobs ≡ some (record e { manual_run = false })
unfolding mark_run_intent
marked_entry id s e h = ground (
  arith,
  job_entry-update id id (λ e. record e { manual_run = false }) s.jobs (λ e. refl),
  ==_refl id,
)

marked_missing :
    (id : ℕ) (s : AppState)
    → job_entry id s.jobs ≡ none
    → job_entry id (mark_run_intent id false s).jobs ≡ none
unfolding mark_run_intent
marked_missing id s h = ground (
  arith,
  job_entry-update id id (λ e. record e { manual_run = false }) s.jobs (λ e. refl),
  ==_refl id,
)

-- The pass after one round.
abbrev pub after_pick : ℕ → Host → Pass → ℕ → Pass
after_pick now h p id = record {
  tried = id ∷ p.tried;
  state = (start_automatically now h id p.state).0;
}

module _ (now : ℕ) (h : Host) (f : Filling) where
  pub fill_loop_spent : (p : Pass) → fill_loop now h f zero p ≡ p
  unfolding fill_loop
  fill_loop_spent p = refl

  pub fill_loop_stop : (fuel : ℕ) (p : Pass) → next_fill f p ≡ none → fill_loop now h f fuel p ≡ p
  unfolding fill_loop
  fill_loop_stop zero p e = refl
  fill_loop_stop (suc fuel) p e = rw (e, fill_loop)

  pub fill_loop_go :
      (fuel : ℕ) (p : Pass) (id : ℕ)
      → next_fill f p ≡ some id
      → fill_loop now h f (suc fuel) p ≡ fill_loop now h f fuel (after_pick now h p id)
  unfolding fill_loop
  fill_loop_go fuel p id e = rw (e, fill_loop)

picked_free :
    (f : Filling) (p : Pass) (id : ℕ) → next_fill f p ≡ some id → is_full f p.state ≡ false
unfolding next_fill
picked_free f p id h = ground arith

module _ (p : JobEntry → Bool) (t : IsRunTest p) where
  pub mark_count :
      (id : ℕ) (s : AppState) → count p (mark_run_intent id false s).jobs ≡ count p s.jobs
  unfolding mark_run_intent
  mark_count id s = count-update_same p id _ s.jobs (λ e. t.reads _ _ refl refl)

  -- An automatic start takes a slot only where one is free.
  pub count-start_automatically :
      (now : ℕ) (h : Host) (id : ℕ) (limit : ℕ) (s : AppState)
      → ((e : JobEntry)
          → job_entry id s.jobs ≡ some e
          → slots_full_for e.job.queue_id (mark_run_intent id false s) ≡ false
          → count p s.jobs < limit)
      → count p (start_automatically now h id s).0.jobs ≤ max (count p s.jobs) limit
  unfolding start_automatically start_job
  count-start_automatically now h id limit s free =
      let s' = mark_run_intent id false s in
      elim (Option-cases (job_entry id s.jobs)) [
        | inl gone ↦ ground (
          arith,
          start_run_missing p t now h id false s' (marked_missing id s gone),
          mark_count id s,
        )
        | inr (e, m) ↦ rw (← mark_count id s) (
            count-start_run p t now h id false limit s' (record e { manual_run = false })
              (marked_entry id s e m) refl (λ f. rw (mark_count id s) (free e m f)))
      ]

  count-fill_loop :
      (now : ℕ) (h : Host) (f : Filling) (limit : ℕ)
      → ((s : AppState) → is_full f s ≡ false → count p s.jobs < limit)
      → (fuel : ℕ) (pass : Pass)
      → count p (fill_loop now h f fuel pass).state.jobs ≤ max (count p pass.state.jobs) limit
  count-fill_loop now h f limit open_slot zero pass =
      rw (fill_loop_spent now h f pass) (ground arith)
  count-fill_loop now h f limit open_slot (suc fuel) pass = elim (Option-cases (next_fill f pass)) [
    | inl none_left ↦ rw (fill_loop_stop now h f (suc fuel) pass none_left) (ground arith)
    | inr (id, picked) ↦
        let slot = open_slot pass.state (picked_free f pass id picked) in
        let next = after_pick now h pass id in
        rw (fill_loop_go now h f fuel pass id picked) (
          ground (
            arith,
            count-fill_loop now h f limit open_slot fuel next,
            count-start_automatically now h id limit pass.state (λ e m free. slot),
          ))
  ]

is_full_caps :
    (f : Filling) (s : AppState)
    → is_full f s ≡ false
    → (running_global s.jobs < f.global_cap) × (running_here f.queue_id s.jobs < f.queue_cap)
unfolding is_full
is_full_caps f s h = ground arith

pub count-fill_run :
    (p : JobEntry → Bool) (t : IsRunTest p) (now : ℕ) (h : Host) (q : ℕ) (just_ended : Option ℕ)
    (limit : ℕ) (tally : Option QueueRunTally) (s : AppState)
    → ((failed_now : List ℕ) (s' : AppState)
        → is_full (filling q failed_now s) s' ≡ false
        → count p s'.jobs < limit)
    → count p (fill_run now h q just_ended tally s).jobs ≤ max (count p s.jobs) limit
count-fill_run p t now h q just_ended limit none s slot = ground arith
count-fill_run p t now h q just_ended limit (some r) s slot =
    elim (Bool-cases (s.exiting || not (feeds_itself r))) [
      | inl stays ↦ rw stays (ground arith)
      | inr goes ↦ rw goes (
          count-fill_loop p t now h (filling q r.failed_now s) limit (slot r.failed_now)
            (length s.jobs) (record { tried = ended just_ended; state = s }))
    ]

-- One pass over a running queue leaves no more downloads running, over all the queues, than were
-- running before it or the global cap allows, and no more in its own queue than were running there
-- or its own cap allows; a cap of 0 counts as 1, and a queue with no cap of its own has
-- the global one.
pub fill_queue_slots_within_caps :
    (now : ℕ) (h : Host) (q : ℕ) (just_ended : Option ℕ) (s : AppState)
    → let s' = fill_queue_slots now h q just_ended s in
      let global = max s.max_concurrent_downloads 1 in
      (running_global s'.jobs ≤ max (running_global s.jobs) global)
      × (running_here q s'.jobs
          ≤ max (running_here q s.jobs) (max (or_global (queue_limit q s) global) 1))
unfolding fill_queue_slots filling running_global running_here
fill_queue_slots_within_caps now h q just_ended s =
    let tally = get_tally q s.active_queues in
    (
      count-fill_run phase_running phase_running-IsRunTest now h q just_ended _ tally s
          (λ failed_now s' free. (is_full_caps (filling q failed_now s) s' free).0),
      count-fill_run (running_in q) (running_in-IsRunTest q) now h q just_ended _ tally s
          (λ failed_now s' free. (is_full_caps (filling q failed_now s) s' free).1),
    )
