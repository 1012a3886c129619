-- ===== src/State/Pause/Effects.antt =====
-- What a pause changes, and what it leaves alone.
use oxdm.Prelude.{
  ℕ, ◌≡◌, refl, true, false, none, some, List, arith, ◌==◌, ==_refl, ==→eq, if◌then◌else◌, inl, inr,
  Bool-cases, ◌∙◌, sym, ap, All, map, [], ◌∷◌,
}
use mathlib.Core.Option
use oxdm.Job.{is_assembling, paused, queued}
use oxdm.Entry.{JobEntry, PartCounters, set_phase, reset_live_speed, reset_run_stats}
use oxdm.Table.{job_entry, update, move_to_back}
use oxdm.Table.Laws.{KeepsId, job_entry-update}
use oxdm.Table.Keyed.{IsKeyed, IsKeyed-update}
use oxdm.Table.Moves.{job_entry-move_to_back}
use oxdm.State.{AppState}
use oxdm.State.Pause.{
  pause, paused_entry, requeued_entry, cancel_to_queued, refuse_while_assembling, being_assembled,
}

paused-KeepsId : (now : ℕ) → KeepsId (paused_entry now)
unfolding paused_entry
paused-KeepsId now e = ground arith

requeued-KeepsId : (now : ℕ) → KeepsId (requeued_entry now)
unfolding requeued_entry
requeued-KeepsId now e = ground arith

-- The table after a write to one entry, found, and its move to the back.
found_after :
    (id j : ℕ) (f : JobEntry → JobEntry) (es : List JobEntry) (e : JobEntry)
    → KeepsId f
    → job_entry id es ≡ some e
    → job_entry j (update id f es) ≡ (if id == j then some (f e) else job_entry j es)
found_after id j f es e keeps m = elim (Bool-cases (id == j)) [
  | inl same ↦
      job_entry-update id j f es keeps
      ∙ rw (same) (ap (Option.map f) (ap (λ i. job_entry i es) (sym (==→eq id j same)) ∙ m))
  | inr other ↦ job_entry-update id j f es keeps ∙ rw other refl
]

-- What a paused download is, against what it was before: its run is told to stop, it waits for no
-- slot, nothing of it shows a speed, and its job, its bytes, its error and its hold stay.
pub record IsPaused (e p : JobEntry) : Type 0 where
  pub phase : p.live_phase ≡ paused
  pub told : p.cancel ≡ true
  pub waits : p.deferred_by_cap ≡ false
  pub still : p.counters.speed_bps_bits ≡ 0
  pub parts : All (λ (c : PartCounters). c.speed_bps_bits ≡ 0) p.parts
  pub got : p.counters.downloaded ≡ e.counters.downloaded
  pub job : p.job ≡ e.job
  pub error : p.last_error ≡ e.last_error
  pub held : p.running ≡ e.running

-- What a download sent back to the queue is: it waits there as one that has not run, but for the
-- bytes that it has, and its run, if it has one, is told to stop.
pub record IsRequeued (e p : JobEntry) : Type 0 where
  pub phase : p.live_phase ≡ queued
  pub told : p.cancel ≡ true
  pub waits : p.deferred_by_cap ≡ false
  pub error : p.last_error ≡ none
  pub active : p.active_ms ≡ 0
  pub since : p.downloading_since_ms ≡ 0
  pub started : p.started_at_ms ≡ 0
  pub finished : p.finished_at_ms ≡ 0
  pub retries : p.retries ≡ 0
  pub interruptions : p.interruptions ≡ 0
  pub retrying : p.retrying_parts ≡ []
  pub still : p.counters.speed_bps_bits ≡ 0
  pub got : p.counters.downloaded ≡ e.counters.downloaded
  pub job : p.job ≡ e.job
  pub held : p.running ≡ e.running

still_parts :
    (ps : List PartCounters)
    → All
        (λ (c : PartCounters). c.speed_bps_bits ≡ 0)
        (map (λ (c : PartCounters). record c { speed_bps_bits = 0 }) ps)
still_parts [] = tt
still_parts (c ∷ ps) = (refl, still_parts ps)

paused_entry-IsPaused : (now : ℕ) (e : JobEntry) → IsPaused e (paused_entry now e)
unfolding paused_entry set_phase reset_live_speed
paused_entry-IsPaused now e = record {
  phase = refl;
  told = refl;
  waits = refl;
  still = refl;
  parts = still_parts e.parts;
  got = refl;
  job = refl;
  error = refl;
  held = refl;
}

requeued_entry-IsRequeued :
    (now : ℕ) (e : JobEntry) → IsRequeued e (requeued_entry now (paused_entry now e))
unfolding requeued_entry reset_run_stats paused_entry set_phase reset_live_speed
requeued_entry-IsRequeued now e = record {
  phase = refl;
  told = refl;
  waits = refl;
  error = refl;
  active = refl;
  since = refl;
  started = refl;
  finished = refl;
  retries = refl;
  interruptions = refl;
  retrying = refl;
  still = refl;
  got = refl;
  job = refl;
  held = refl;
}

-- The table after a pause that is not refused.
pub pause_taken :
    (now id : ℕ) (s : AppState) (e : JobEntry)
    → IsKeyed s.jobs
    → job_entry id s.jobs ≡ some e
    → is_assembling e.live_phase ≡ false
    → ((pause now id s).1 ≡ none)
      × ((j : ℕ)
          → job_entry j (pause now id s).0.jobs
            ≡ (if id == j then some (paused_entry now e) else job_entry j s.jobs))
unfolding pause
pause_taken now id s e keyed m a =
    rw (m, a, refuse_while_assembling)
      (
        refl,
        λ j.
            job_entry-move_to_back id j (update id (paused_entry now) s.jobs)
              (IsKeyed-update id (paused_entry now) s.jobs (paused-KeepsId now) keyed)
            ∙ found_after id j (paused_entry now) s.jobs e (paused-KeepsId now) m,
      )

-- A pause of a download whose file is being assembled is refused, and changes nothing. Any other
-- download is in `Paused`: its run is told to stop, it waits for no slot, no speed is shown for it or
-- its parts, its job, bytes and error stay, and every other download is as it was. The table's ids
-- are distinct.
pub pause_lem :
    (now id : ℕ) (s : AppState) (e : JobEntry)
    → IsKeyed s.jobs
    → job_entry id s.jobs ≡ some e
    → (is_assembling e.live_phase ≡ true → pause now id s ≡ (s, some being_assembled))
      × (is_assembling e.live_phase ≡ false
          → ((pause now id s).1 ≡ none)
            × (p : JobEntry) × (IsPaused e p)
            × ((j : ℕ)
                → job_entry j (pause now id s).0.jobs
                  ≡ (if id == j then some p else job_entry j s.jobs)))
unfolding pause
pause_lem now id s e keyed m = (
  λ a. rw (m, a, refuse_while_assembling),
  λ a.
      let (went, lookups) = pause_taken now id s e keyed m a in
      (went, paused_entry now e, paused_entry-IsPaused now e, lookups),
)

-- Cancelling a download back to the queue is refused while its file is being assembled, and changes
-- nothing. Otherwise it is in `Queued`: its run is told to stop, its error and the figures of its run
-- (the clock, the times, the retries, the interruptions) are cleared, it waits for no slot, its job
-- and bytes stay, and every other download is as it was. The table's ids are distinct.
pub cancel_to_queued_lem :
    (now id : ℕ) (s : AppState) (e : JobEntry)
    → IsKeyed s.jobs
    → job_entry id s.jobs ≡ some e
    → (is_assembling e.live_phase ≡ true → cancel_to_queued now id s ≡ (s, some being_assembled))
      × (is_assembling e.live_phase ≡ false
          → ((cancel_to_queued now id s).1 ≡ none)
            × (p : JobEntry) × (IsRequeued e p)
            × ((j : ℕ)
                → job_entry j (cancel_to_queued now id s).0.jobs
                  ≡ (if id == j then some p else job_entry j s.jobs)))
unfolding cancel_to_queued pause
cancel_to_queued_lem now id s e keyed m = (
  λ a. rw (m, a, refuse_while_assembling),
  λ a.
      rw (m, a, refuse_while_assembling)
        (refl, requeued_entry now (paused_entry now e), requeued_entry-IsRequeued now e, lookups),
)
  where
    paused_jobs : List JobEntry
    paused_jobs = move_to_back id (update id (paused_entry now) s.jobs)

    moved_lookups :
        (j : ℕ)
        → job_entry j paused_jobs
          ≡ (if id == j then some (paused_entry now e) else job_entry j s.jobs)
    moved_lookups j =
        job_entry-move_to_back id j (update id (paused_entry now) s.jobs)
          (IsKeyed-update id (paused_entry now) s.jobs (paused-KeepsId now) keyed)
        ∙ found_after id j (paused_entry now) s.jobs e (paused-KeepsId now) m

    lookups :
        (j : ℕ)
        → job_entry j (update id (requeued_entry now) paused_jobs)
          ≡ (if id == j then some (requeued_entry now (paused_entry now e)) else job_entry j s.jobs)
    lookups j =
        found_after id j (requeued_entry now) paused_jobs (paused_entry now e)
          (requeued-KeepsId now) (moved_lookups id ∙ rw (==_refl id) refl)
        ∙ elim (Bool-cases (id == j)) [
          | inl same ↦ rw same
          | inr other ↦ rw other (moved_lookups j ∙ rw other)
        ]
