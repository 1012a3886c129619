-- ===== src/State/Kept.antt =====
-- What a start leaves alone: the ids of the table and their order, the queues, and more.
use oxdm.Prelude.{
  ℕ, ◌≡◌, refl, Bool, true, false, Option, none, some, List, [], ◌∷◌, arith, if◌then◌else◌, inl,
  inr, ◌∙◌, Option-cases, Bool-cases,
}
use oxdm.Job.{is_queued, evaluating, JobError}
use oxdm.Entry.{JobEntry}
use oxdm.Table.{job_ids, job_entry}
use oxdm.Table.Laws.{job_ids-update, KeepsId}
use oxdm.Admission.{Admission, already_running, defer, start}
use oxdm.State.{AppState, send, edit_job, job_updated, mark_run_intent}
use oxdm.State.Start.{
  Host, start_run, start_job, admitted, launch, spawned, space_checked, claimed_entry,
  deferred_entry, prepared_entry, released_entry, join_run, refuse_if_short_on_space, space_need,
  work_root_or,
}
use oxdm.State.Fill.{start_automatically}

-- The ids in their order, the queues, the global cap, the main queue and whether the daemon exits.
pub record IsKept (s s' : AppState) : Type 0 where
  pub ids : job_ids s'.jobs ≡ job_ids s.jobs
  pub queues : s'.queues ≡ s.queues
  pub cap : s'.max_concurrent_downloads ≡ s.max_concurrent_downloads
  pub main : s'.main_queue_id ≡ s.main_queue_id
  pub exit : s'.exiting ≡ s.exiting

pub IsKept-refl : (s : AppState) → IsKept s s
IsKept-refl s = record { ids = refl; queues = refl; cap = refl; main = refl; exit = refl }

pub IsKept-trans : (a b c : AppState) → IsKept a b → IsKept b c → IsKept a c
IsKept-trans a b c h k = record {
  ids = k.ids ∙ h.ids;
  queues = k.queues ∙ h.queues;
  cap = k.cap ∙ h.cap;
  main = k.main ∙ h.main;
  exit = k.exit ∙ h.exit;
}

edit_job-IsKept :
    (k : ℕ) (f : JobEntry → JobEntry) (s : AppState) → KeepsId f → IsKept s (edit_job k f s)
edit_job-IsKept k f s h = record {
  ids = job_ids-update k f s.jobs h;
  queues = refl;
  cap = refl;
  main = refl;
  exit = refl;
}

prepared-KeepsId : KeepsId prepared_entry
unfolding prepared_entry
prepared-KeepsId e = ground arith

spawned-IsKept :
    (now id q : ℕ) (root : List ℕ) (made : Option (List ℕ)) (s : AppState)
    → IsKept s (spawned now id q root made s).0
unfolding join_run released_entry
spawned-IsKept now id q root none s = record {
  ids =
      job_ids-update id
        (λ e. record e {
          job = record (e.job) { work_root = some (work_root_or e.job.work_root root) };
        })
        s.jobs (λ e. refl);
  queues = refl;
  cap = refl;
  main = refl;
  exit = refl;
}
spawned-IsKept now id q root (some reason) s =
    let k = edit_job-IsKept id (released_entry now) s (λ e. ground arith) in
    record { ids = k.ids; queues = refl; cap = refl; main = refl; exit = refl }

launch-IsKept : (now : ℕ) (h : Host) (e : JobEntry) (s : AppState) → IsKept s (launch now h e s).0
unfolding launch
launch-IsKept now h e s =
    let s' = edit_job e.job.id prepared_entry s in
    IsKept-trans s s' _ (edit_job-IsKept e.job.id prepared_entry s prepared-KeepsId)
      (spawned-IsKept now e.job.id e.job.queue_id (work_root_or e.job.work_root s.work_dir) _ s')

admitted-IsKept :
    (now : ℕ) (h : Host) (resumed : Bool) (e : JobEntry) (a : Admission) (s : AppState)
    → IsKept s (admitted now h resumed e a s).0
unfolding claimed_entry deferred_entry
admitted-IsKept now h resumed e already_running s = IsKept-refl s
admitted-IsKept now h resumed e defer s =
    let k = edit_job-IsKept e.job.id (deferred_entry now) s (λ d. ground arith) in
    elim (Bool-cases (is_queued e.live_phase)) [
      | inl q ↦ rw q k
      | inr q ↦ rw q (record { ids = k.ids; queues = refl; cap = refl; main = refl; exit = refl })
    ]
admitted-IsKept now h resumed e start s =
    let k = edit_job-IsKept e.job.id (claimed_entry now resumed) s (λ d. ground arith) in
    let s' =
      send (job_updated e.job.id evaluating) (edit_job e.job.id (claimed_entry now resumed) s) in
    IsKept-trans s s' _
      (record { ids = k.ids; queues = refl; cap = refl; main = refl; exit = refl })
      (launch-IsKept now h e s')

if-IsKept :
    (b : Bool) (s : AppState) (t u : AppState × Option JobError)
    → IsKept s t.0
    → IsKept s u.0
    → IsKept s (if b then t else u).0
if-IsKept true s t u h k = h
if-IsKept false s t u h k = k

space_checked-IsKept :
    (now : ℕ) (h : Host) (resumed : Bool) (e : JobEntry) (s : AppState)
    → IsKept s
        (space_checked now h resumed e
          (refuse_if_short_on_space h (space_need e s.work_dir ∷ []))
          s).0
space_checked-IsKept now h resumed e s =
    elim (Option-cases (refuse_if_short_on_space h (space_need e s.work_dir ∷ []))) [
      | inl fits ↦ rw fits (admitted-IsKept now h resumed e _ s)
      | inr (err, short) ↦ rw short (IsKept-refl s)
    ]

-- A start keeps these, whatever comes of it.
pub start_run-IsKept :
    (now : ℕ) (h : Host) (id : ℕ) (resumed : Bool) (s : AppState)
    → IsKept s (start_run now h id resumed s).0
unfolding start_run
start_run-IsKept now h id resumed s =
    if-IsKept s.exiting s (s, _) _ (IsKept-refl s)
      (elim (Option-cases (job_entry id s.jobs)) [
        | inl missing ↦ rw missing (IsKept-refl s)
        | inr (e, m) ↦ rw m (space_checked-IsKept now h resumed e s)
      ])

pub start_automatically-IsKept :
    (now : ℕ) (h : Host) (id : ℕ) (s : AppState) → IsKept s (start_automatically now h id s).0
unfolding start_automatically start_job mark_run_intent
start_automatically-IsKept now h id s =
    IsKept-trans s (mark_run_intent id false s) _
      (edit_job-IsKept id (λ e. record e { manual_run = false }) s (λ e. refl))
      (start_run-IsKept now h id false (mark_run_intent id false s))
