-- ===== src/State/Members/Housed.antt =====
-- Every download has a queue.
pub mod Deleted
use oxdm.Prelude.{
  Distinct, ℕ, ◌≡◌, refl, Bool, true, false, ◌&&◌, ◌||◌, List, [], ◌∷◌, ◌++◌, map, filter, any,
  contains, ◌==◌, ==→eq, ==_refl, not, Option, none, some, arith, ap, sym, subst, ◌∙◌, inl, inr,
  Bool-cases, Option-cases, if◌then◌else◌, All, All-append,
}
use oxdm.Job.{JobError}
use oxdm.Queue.{Queue}
use oxdm.Entry.{JobEntry}
use oxdm.Table.{job_ids, job_entry, update}
use oxdm.Table.Laws.{job_ids-update, update_missing}
use oxdm.State.{AppState, queue}
use oxdm.State.Members.{
  rebuild_entry, rehome, dropped, delete_queue, assigned, assign_queue, in_queue_ids,
}

abbrev pub has_queue : List Queue → ℕ → Bool
has_queue qs k = any (λ q. q.id == k) qs

-- Each download is in a queue that is there, and the main queue is.
pub record IsHoused (s : AppState) : Type 0 where
  pub jobs : All (λ (e : JobEntry). has_queue s.queues e.job.queue_id ≡ true) s.jobs
  pub main : has_queue s.queues s.main_queue_id ≡ true

All-edit :
    (P : JobEntry → Type 0) (id : ℕ) (g : JobEntry → JobEntry) (jobs : List JobEntry)
    → ((e : JobEntry) → P (g e))
    → All P jobs
    → All P (update id g jobs)
unfolding update
All-edit P id g [] p h = tt
All-edit P id g (e ∷ jobs) p h = elim (Bool-cases (e.job.id == id)) [
  | inl hit ↦ rw hit (p e, h.1)
  | inr miss ↦ rw miss (h.0, All-edit P id g jobs p h.1)
]

pub moved-IsHoused :
    (id q : ℕ) (s : AppState)
    → has_queue s.queues q ≡ true
    → IsHoused s
    → IsHoused (rebuild_entry id (λ j. record j { queue_id = q }) s)
unfolding rebuild_entry
moved-IsHoused id q s there h = record {
  jobs =
      All-edit (λ (e : JobEntry). has_queue s.queues e.job.queue_id ≡ true) id
        (λ e. record e { job = record (e.job) { queue_id = q } }) s.jobs (λ e. there) h.jobs;
  main = h.main;
}

assigned-IsHoused :
    (refused : Option (List ℕ)) (id q : ℕ) (o : Option JobEntry) (s : AppState)
    → has_queue s.queues q ≡ true
    → IsHoused s
    → IsHoused (assigned refused id q o s).0
unfolding assigned
assigned-IsHoused refused id q none s there h = h
assigned-IsHoused none id q (some old) s there h =
    let m = moved-IsHoused id q s there h in
    elim (Bool-cases (old.job.queue_id == q)) [
      | inl same ↦ rw same h
      | inr new ↦ rw new (record { jobs = m.jobs; main = m.main })
    ]
assigned-IsHoused (some err) id q (some old) s there h = elim (Bool-cases (old.job.queue_id == q)) [
  | inl same ↦ rw same h
  | inr new ↦ rw new (moved-IsHoused id q s there h)
]

-- A queue that is given keeps every download in a queue, whatever the database answers.
pub assign_queue-IsHoused :
    (refused : Option (List ℕ)) (id q : ℕ) (s : AppState)
    → IsHoused s
    → IsHoused (assign_queue refused id q s).0
unfolding assign_queue
assign_queue-IsHoused refused id q s h = elim (Bool-cases (has_queue s.queues q)) [
  | inl there ↦ rw there (assigned-IsHoused refused id q (job_entry id s.jobs) s there h)
  | inr gone ↦ rw gone h
]
