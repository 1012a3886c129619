-- ===== src/Examples/Members.antt =====
-- Queues that downloads arrive in, queues that go, and downloads that are removed.
use oxdm.Prelude.{
  ◌==◌, if◌then◌else◌, ℕ, ◌≡◌, refl, arith, true, false, none, some, [], ◌∷◌, codes, List, Option,
  Distinct, contains, ◌++◌, ◌∷◌,
}
use oxdm.Job.{completed}
use oxdm.Table.{job_entry, job_ids}
use oxdm.State.{AppState}
use oxdm.State.Fill.Deferred.{IsWithin}
use oxdm.State.Arrivals.{Readings, queue_took_a_job}
use oxdm.State.Arrivals.Bounds.{queue_took_a_job-IsWithin}
use oxdm.State.Members.{delete_queue, ordered, reorder_queue, sits_in}
use oxdm.State.Members.Order.{without}
use oxdm.State.Members.Order.Reordered.{reorder_queue_lem}
use oxdm.State.Members.Housed.{IsHoused}
use oxdm.State.Members.Housed.Deleted.{delete_queue-IsHoused}
use oxdm.State.Members.Removed.{Storage, remove_completed_all}
use oxdm.State.Members.Removed.Lookups.{lookup-remove_completed_all, survivor}
use oxdm.Table.Keyed.{IsKeyed}
use oxdm.Queue.{new_main}
use oxdm.Examples.Data.{an_entry, daemon, roomy, at_night}

abbrev silent : Readings
silent = record {
  available = [];
  network_unmetered = none;
  on_ac_power = none;
  idle_for = none;
  succeeds = λ cmd. false;
}

queue_took_a_job-IsWithin_example :
    IsWithin daemon (queue_took_a_job 1000 roomy silent at_night 2 daemon)
queue_took_a_job-IsWithin_example = queue_took_a_job-IsWithin 1000 roomy silent at_night 2 daemon

daemon-IsHoused : IsHoused daemon
unfolding new_main
daemon-IsHoused = record { jobs = (refl, (refl, (refl, tt))); main = refl }

refuses_21 : ℕ → Option (List ℕ)
refuses_21 k = if k == 21 then some (codes "disk full") else none

delete_queue-IsHoused_example : IsHoused (delete_queue refuses_21 none 2 daemon).0
delete_queue-IsHoused_example =
    delete_queue-IsHoused refuses_21 none 2 daemon (refl, (refl, (refl, tt))) daemon-IsHoused

abbrev with_done : AppState
with_done = record daemon {
  jobs = an_entry 11 1 completed false ∷ an_entry 12 1 completed true ∷ [];
}

abbrev willing : Storage
willing = record { delete_file = λ path. none; delete_job = λ id. none }

with_done-IsKeyed : IsKeyed with_done.jobs
with_done-IsKeyed j = ground arith

lookup-remove_completed_all_example :
    job_entry 11 (remove_completed_all willing with_done).0.jobs
    ≡ survivor (job_entry 11 with_done.jobs)
lookup-remove_completed_all_example =
    lookup-remove_completed_all willing (λ k. refl) with_done 11 with_done-IsKeyed

-- An id of another queue, one that is unknown and one given twice.
abbrev given : List ℕ
given = 12 ∷ 21 ∷ 99 ∷ 12 ∷ []

daemon-Distinct : Distinct (job_ids daemon.jobs)
daemon-Distinct = ground arith

reorder_queue_lem_example :
    (job_ids (reorder_queue 1 given daemon).jobs
      ≡ without (ordered 1 daemon.jobs given) (job_ids daemon.jobs) ++ ordered 1 daemon.jobs given)
    × Distinct (ordered 1 daemon.jobs given)
    × ((k : ℕ) → contains (ordered 1 daemon.jobs given) k ≡ sits_in 1 (job_entry k daemon.jobs))
    × ((k : ℕ) → job_entry k (reorder_queue 1 given daemon).jobs ≡ job_entry k daemon.jobs)
reorder_queue_lem_example = reorder_queue_lem 1 given daemon daemon-Distinct
