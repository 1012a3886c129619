-- ===== src/State/Caps.antt =====
-- Automatic starts stay within the caps.
use oxdm.Prelude.{
  ℕ, ◌≤◌, ◌<◌, ◌≡◌, refl, Bool, true, false, Option, none, some, List, [], ◌∷◌, arith, max, inl,
  inr, count, Option-cases, subst,
}
use oxdm.Job.{is_running, evaluating}
use oxdm.Entry.{JobEntry}
use oxdm.Table.{job_entry, update}
use oxdm.Table.Laws.{count-update_same, count-update_le, count-update_le_suc}
use oxdm.Admission.{
  Admission, already_running, defer, start, admit, running_global, running_here, phase_running,
  running_in,
}
use oxdm.Admission.Slots.{slots_free_iff, IsBelow}
use oxdm.State.{AppState, queue_limit, send, edit_job, job_updated}
use oxdm.State.Start.{
  Host, start_run, admitted, launch, spawned, slots_full_for, claimed_entry, deferred_entry,
  prepared_entry, released_entry, join_run, refuse_if_short_on_space, space_need, work_root_or,
}

-- A count of runs: it reads a job's phase and queue, and only running phases are counted.
pub record IsRunTest (p : JobEntry → Bool) : Type 0 where
  pub reads :
      (e d : JobEntry) → e.live_phase ≡ d.live_phase → e.job.queue_id ≡ d.job.queue_id → p e ≡ p d
  pub runs : (e : JobEntry) → p e ≡ true → phase_running e ≡ true

pub phase_running-IsRunTest : IsRunTest phase_running
phase_running-IsRunTest = record { reads = λ e d h k. rw h; runs = λ e h. h }

pub running_in-IsRunTest : (q : ℕ) → IsRunTest (running_in q)
running_in-IsRunTest q = record { reads = λ e d h k. rw (h, k); runs = λ e h. ground arith }

not_running_released : (now : ℕ) (e : JobEntry) → phase_running (released_entry now e) ≡ true → ⊥
unfolding released_entry is_running
not_running_released now e h = ground arith

not_running_deferred : (now : ℕ) (e : JobEntry) → phase_running (deferred_entry now e) ≡ true → ⊥
unfolding deferred_entry is_running
not_running_deferred now e h = ground arith

automatic_start :
    (running manual full : Bool) → manual ≡ false → admit running manual full ≡ start → full ≡ false
unfolding admit
automatic_start running manual full m h = ground arith

module _ (p : JobEntry → Bool) (t : IsRunTest p) where
  prepared_count : (k : ℕ) (es : List JobEntry) → count p (update k prepared_entry es) ≡ count p es
  unfolding prepared_entry
  prepared_count k es = count-update_same p k _ es (λ e. t.reads _ _ (ground arith) (ground arith))

  released_count :
      (now k : ℕ) (es : List JobEntry) → count p (update k (released_entry now) es) ≤ count p es
  released_count now k es =
      count-update_le p k _ es (λ e h. absurd (not_running_released now e (t.runs _ h)))

  deferred_count :
      (now k : ℕ) (es : List JobEntry) → count p (update k (deferred_entry now) es) ≤ count p es
  deferred_count now k es =
      count-update_le p k _ es (λ e h. absurd (not_running_deferred now e (t.runs _ h)))

  count-spawned :
      (now id q : ℕ) (root : List ℕ) (made : Option (List ℕ)) (s : AppState)
      → count p (spawned now id q root made s).0.jobs ≤ count p s.jobs
  unfolding join_run
  count-spawned now id q root none s = omega (
    arith,
    count-update_same p id
        (λ e. record e {
          job = record (e.job) { work_root = some (work_root_or e.job.work_root root) };
        })
        s.jobs (λ e. t.reads _ _ refl refl),
  )
  count-spawned now id q root (some reason) s = released_count now id s.jobs

  count-launch :
      (now : ℕ) (h : Host) (e : JobEntry) (s : AppState)
      → count p (launch now h e s).0.jobs ≤ count p s.jobs
  unfolding launch
  count-launch now h e s = ground (
    arith,
    count-spawned now e.job.id e.job.queue_id (work_root_or e.job.work_root s.work_dir)
        (h.create_dir_all (work_root_or e.job.work_root s.work_dir))
        (record s { jobs = update e.job.id prepared_entry s.jobs }),
    prepared_count e.job.id s.jobs,
  )

  count-admitted :
      (now : ℕ) (h : Host) (resumed : Bool) (e : JobEntry) (limit : ℕ) (s : AppState)
      (a : Admission)
      → (a ≡ start → count p s.jobs < limit)
      → count p (admitted now h resumed e a s).0.jobs ≤ max (count p s.jobs) limit
  count-admitted now h resumed e limit s already_running free = ground arith
  count-admitted now h resumed e limit s defer free =
      ground (arith, deferred_count now e.job.id s.jobs)
  count-admitted now h resumed e limit s start free =
      let claimed = edit_job e.job.id (claimed_entry now resumed) s in
      ground (
        arith,
        free refl,
        count-launch now h e (send (job_updated e.job.id evaluating) claimed),
        count-update_le_suc p e.job.id (claimed_entry now resumed) s.jobs,
      )

  -- A start of an automatic job takes a slot only where one is free.
  pub count-start_run :
      (now : ℕ) (h : Host) (id : ℕ) (resumed : Bool) (limit : ℕ) (s : AppState) (e : JobEntry)
      → job_entry id s.jobs ≡ some e
      → e.manual_run ≡ false
      → (slots_full_for e.job.queue_id s ≡ false → count p s.jobs < limit)
      → count p (start_run now h id resumed s).0.jobs ≤ max (count p s.jobs) limit
  unfolding start_run
  count-start_run now h id resumed limit s e m auto free =
      let full = slots_full_for e.job.queue_id s in
      let kept =
        count-admitted now h resumed e limit s (admit e.running e.manual_run full)
          (λ st. free (automatic_start e.running e.manual_run full auto st)) in
      rw m (elim (Option-cases (refuse_if_short_on_space h (space_need e s.work_dir ∷ []))) [
        | inl fits ↦ rw fits (ground (arith, kept))
        | inr (err, short) ↦ rw short (ground arith)
      ])

  pub start_run_missing :
      (now : ℕ) (h : Host) (id : ℕ) (resumed : Bool) (s : AppState)
      → job_entry id s.jobs ≡ none
      → count p (start_run now h id resumed s).0.jobs ≡ count p s.jobs
  unfolding start_run
  start_run_missing now h id resumed s m = rw m (ground arith)

-- An automatic start leaves no more downloads running, over all the queues, than were running
-- before it or the global cap allows, and no more in the download's own queue than were running
-- there or the queue's cap allows; a cap of 0 counts as 1.
pub start_run_within_caps :
    (now : ℕ) (h : Host) (id : ℕ) (resumed : Bool) (s : AppState) (e : JobEntry)
    → job_entry id s.jobs ≡ some e
    → e.manual_run ≡ false
    → let s' = (start_run now h id resumed s).0 in
      (running_global s'.jobs ≤ max (running_global s.jobs) (max s.max_concurrent_downloads 1))
      × ((limit : ℕ)
          → queue_limit e.job.queue_id s ≡ some limit
          → running_here e.job.queue_id s'.jobs
            ≤ max (running_here e.job.queue_id s.jobs) (max limit 1))
unfolding running_global running_here
start_run_within_caps now h id resumed s e m auto = (
  count-start_run phase_running phase_running-IsRunTest now h id resumed
      (max s.max_concurrent_downloads 1) s e m auto (λ free. (below free).0),
  λ limit l.
      count-start_run (running_in e.job.queue_id) (running_in-IsRunTest e.job.queue_id) now h id
        resumed (max limit 1) s e m auto (λ free. subst (IsBelow _) l (below free).1),
)
  where
    below :
        slots_full_for e.job.queue_id s ≡ false
        → (running_global s.jobs < max s.max_concurrent_downloads 1)
          × IsBelow (running_here e.job.queue_id s.jobs) (queue_limit e.job.queue_id s)
    below free =
        (slots_free_iff s.jobs s.max_concurrent_downloads e.job.queue_id
            (queue_limit e.job.queue_id s)).0
          (unfold slots_full_for in free)
