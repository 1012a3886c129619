-- ===== src/State/Fill/Ends.antt =====
-- A pass that fills the slots of a running queue ends with nothing left that it could start.
use oxdm.Prelude.{
  ℕ, zero, suc, ◌≤◌, ◌≡◌, refl, Bool, true, false, none, some, List, [], ◌∷◌, arith, inl, inr,
  Option-cases, Bool-cases, contains, length, ==_refl, find, find-holds, left, left-cons_lt,
  left-le-length,
}
use oxdm.Entry.{JobEntry}
use oxdm.Table.{job_ids}
use oxdm.Admission.{next_candidate, is_candidate}
use oxdm.State.Start.{Host}
use oxdm.State.Kept.{start_automatically-IsKept}
use oxdm.State.Fill.{Pass, Filling, is_full, next_fill, fill_loop}
use oxdm.State.Fill.Within.{after_pick, fill_loop_spent, fill_loop_stop, fill_loop_go}

find-listed :
    (test : JobEntry → Bool) (es : List JobEntry) (e : JobEntry)
    → find test es ≡ some e
    → contains (job_ids es) e.job.id ≡ true
find-listed test [] e h = cc
find-listed test (x ∷ es) e h = elim (Bool-cases (test x)) [
  | inl hit ↦ ground (arith, h, hit, ==_refl e.job.id)
  | inr miss ↦ ground (arith, h, miss, find-listed test es e)
]

next_candidate_listed :
    (jobs : List JobEntry) (q : ℕ) (failed_now tried : List ℕ) (id : ℕ)
    → next_candidate jobs q failed_now tried ≡ some id
    → (contains (job_ids jobs) id ≡ true) × (contains tried id ≡ false)
unfolding next_candidate
next_candidate_listed jobs q failed_now tried id h =
    elim (Option-cases (find (is_candidate q failed_now tried) jobs)) [
      | inl e ↦ ground (arith, e, h)
      | inr (e, m) ↦ ground (
        arith,
        h,
        m,
        find-listed (is_candidate q failed_now tried) jobs e m,
        find-holds (is_candidate q failed_now tried) jobs e m,
      )
    ]

picked_listed :
    (f : Filling) (p : Pass) (id : ℕ)
    → next_fill f p ≡ some id
    → (contains (job_ids p.state.jobs) id ≡ true) × (contains p.tried id ≡ false)
unfolding next_fill
picked_listed f p id h = elim (Bool-cases (is_full f p.state)) [
  | inl full ↦ ground (arith, h, full)
  | inr open_slot ↦
      next_candidate_listed p.state.jobs f.queue_id f.failed_now p.tried id
        (ground (arith, h, open_slot))
]

module _ (now : ℕ) (h : Host) (f : Filling) where
  fill_loop_ends :
      (fuel : ℕ) (p : Pass)
      → left p.tried (job_ids p.state.jobs) ≤ fuel
      → next_fill f (fill_loop now h f fuel p) ≡ none
  fill_loop_ends zero p enough = elim (Option-cases (next_fill f p)) [
    | inl none_left ↦ rw (fill_loop_spent now h f p) none_left
    | inr (id, picked) ↦
        let (listed, new) = picked_listed f p id picked in
        ground (arith, enough, left-cons_lt p.tried (job_ids p.state.jobs) id listed new)
  ]
  fill_loop_ends (suc fuel) p enough = elim (Option-cases (next_fill f p)) [
    | inl none_left ↦ rw (fill_loop_stop now h f (suc fuel) p none_left) none_left
    | inr (id, picked) ↦
        let (listed, new) = picked_listed f p id picked in
        let ids = (start_automatically-IsKept now h id p.state).ids in
        rw (fill_loop_go now h f fuel p id picked) (
          fill_loop_ends fuel (after_pick now h p id) (
            rw ids
              (omega (arith, enough, left-cons_lt p.tried (job_ids p.state.jobs) id listed new))))
  ]

pub length-job_ids : (es : List JobEntry) → length (job_ids es) ≡ length es
length-job_ids [] = refl
length-job_ids (e ∷ es) = omega (arith, length-job_ids es)

-- A pass with as much fuel as there are downloads ends because nothing is left to pick: the run no
-- longer feeds itself, a cap is reached, or every download that could start has been tried.
pub fill_loop_exhausts :
    (now : ℕ) (h : Host) (f : Filling) (p : Pass)
    → next_fill f (fill_loop now h f (length p.state.jobs) p) ≡ none
fill_loop_exhausts now h f p =
    fill_loop_ends now h f (length p.state.jobs) p
      (omega (arith, left-le-length p.tried (job_ids p.state.jobs), length-job_ids p.state.jobs))
