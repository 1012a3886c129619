-- ===== src/State/Members/Order/Reordered.antt =====
-- What `reorder_queue` leaves of the table.
use oxdm.Prelude.{
  ℕ, ◌≡◌, refl, true, false, List, [], ◌∷◌, ◌++◌, contains, count, ◌==◌, ==→eq, arith, ap, sym,
  subst, ◌∙◌, inl, inr, Bool-cases, if◌then◌else◌, Distinct,
}
use oxdm.Entry.{JobEntry}
use oxdm.Table.{job_ids, job_entry, move_to_back}
use oxdm.Table.Keyed.{IsKeyed, has_id, IsKeyed-move_to_back}
use oxdm.Table.Moves.{job_entry-move_to_back}
use oxdm.State.{AppState, send, queues_changed}
use oxdm.State.Members.{sits_in, ordered, reinsert, reorder_queue, is_nil}
use oxdm.State.Members.Order.{without, ids-reinsert}
use oxdm.State.Members.Order.Complete.{contains-ordered, Distinct-ordered, AreIn-of}

in_table :
    (q k : ℕ) (jobs : List JobEntry)
    → sits_in q (job_entry k jobs) ≡ true
    → contains (job_ids jobs) k ≡ true
unfolding job_entry
in_table q k [] h = cc
in_table q k (e ∷ es) h = ground (arith, h, in_table q k es)

none_counted :
    (k : ℕ) (es : List JobEntry) → contains (job_ids es) k ≡ false → count (has_id k) es ≡ 0
none_counted k [] h = refl
none_counted k (e ∷ es) h = ground (arith, h, none_counted k es)

Distinct-IsKeyed : (es : List JobEntry) → Distinct (job_ids es) → IsKeyed es
Distinct-IsKeyed [] d k = omega arith
Distinct-IsKeyed (e ∷ es) d k = elim (Bool-cases (e.job.id == k)) [
  | inl hit ↦ ground (
    arith,
    hit,
    none_counted k es (subst (λ i. contains (job_ids es) i ≡ false) (==→eq e.job.id k hit) d.0),
  )
  | inr miss ↦ ground (arith, miss, Distinct-IsKeyed es d.1 k)
]

lookup-reinsert :
    (order : List ℕ) (es : List JobEntry) (k : ℕ)
    → IsKeyed es
    → job_entry k (reinsert order es) ≡ job_entry k es
unfolding reinsert
lookup-reinsert [] es k keyed = refl
lookup-reinsert (i ∷ order) es k keyed =
    lookup-reinsert order (move_to_back i es) k (IsKeyed-move_to_back i es keyed)
    ∙ job_entry-move_to_back i k es keyed

jobs_of :
    (order : List ℕ) (s : AppState)
    → (if is_nil order
        then s
        else send queues_changed (record s { jobs = reinsert order s.jobs })).jobs
      ≡ reinsert order s.jobs
unfolding reinsert
jobs_of [] s = refl
jobs_of (k ∷ ks) s = refl

reordered :
    (q : ℕ) (ids : List ℕ) (s : AppState)
    → (reorder_queue q ids s).jobs ≡ reinsert (ordered q s.jobs ids) s.jobs
unfolding reorder_queue
reordered q ids s = jobs_of (ordered q s.jobs ids) s

-- After `reorder_queue` the downloads of the other queues come first, in the order they had, and
-- behind them those of the queue: each download of the queue once, whatever ids the caller gave,
-- duplicates, ids of other queues and unknown ids among them. No look-up of a download changes.
-- The ids in the table are distinct.
pub reorder_queue_lem :
    (q : ℕ) (ids : List ℕ) (s : AppState)
    → Distinct (job_ids s.jobs)
    → (job_ids (reorder_queue q ids s).jobs
        ≡ without (ordered q s.jobs ids) (job_ids s.jobs) ++ ordered q s.jobs ids)
      × Distinct (ordered q s.jobs ids)
      × ((k : ℕ) → contains (ordered q s.jobs ids) k ≡ sits_in q (job_entry k s.jobs))
      × ((k : ℕ) → job_entry k (reorder_queue q ids s).jobs ≡ job_entry k s.jobs)
reorder_queue_lem q ids s d =
    let order = ordered q s.jobs ids in
    let once = Distinct-ordered q s.jobs ids d in
    let holds = λ (k : ℕ). contains-ordered q s.jobs ids k d in
    let there = AreIn-of (job_ids s.jobs) order (λ k h. in_table q k s.jobs (sym (holds k) ∙ h)) in
    let keyed = Distinct-IsKeyed s.jobs d in
    (
      ap job_ids (reordered q ids s) ∙ ids-reinsert order s.jobs once d there,
      once,
      holds,
      λ k. ap (job_entry k) (reordered q ids s) ∙ lookup-reinsert order s.jobs k keyed,
    )
