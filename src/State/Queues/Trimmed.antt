-- ===== src/State/Queues/Trimmed.antt =====
-- What the loop that trims a queue keeps as it goes.
use oxdm.Prelude.{
  ℕ, ◌≤◌, ◌≡◌, refl, Bool, true, ◌&&◌, none, some, List, [], ◌∷◌, find_last, arith, ◌==◌, ==_refl,
  ==→eq, inl, inr, subst, Option-cases, Bool-cases, count, contains,
}
use oxdm.Job.{is_assembling}
use oxdm.Entry.{JobEntry}
use oxdm.Table.{job_ids, job_entry, update}
use oxdm.Table.Laws.{job_ids-update, count-update_le}
use oxdm.Table.Keyed.{
  IsKeyed, has_id, IsKeyed-update, passing-missing, passing-found, passing-update,
}
use oxdm.Admission.{is_stop_target}
use oxdm.State.{AppState}
use oxdm.State.Pause.{pause_in_place, paused_entry, refuse_while_assembling}
use oxdm.State.Fill.{Pass}
use oxdm.State.Queues.Stops.{targets, paused_untargeted, paused_entry-KeepsId}

in_place_went :
    (now id : ℕ) (s : AppState) (P : List JobEntry → Type 0)
    → (job_entry id s.jobs ≡ none → P s.jobs)
    → ((e : JobEntry) → job_entry id s.jobs ≡ some e → is_assembling e.live_phase ≡ true → P s.jobs)
    → ((e : JobEntry) → job_entry id s.jobs ≡ some e → P (update id (paused_entry now) s.jobs))
    → P (pause_in_place now id s).0.jobs
unfolding pause_in_place
in_place_went now id s P gone stuck went = elim (Option-cases (job_entry id s.jobs)) [
  | inl m ↦ rw m (gone m)
  | inr (e, m) ↦ elim (Bool-cases (is_assembling e.live_phase)) [
    | inl a ↦ rw (m, a, refuse_while_assembling) (stuck e m a)
    | inr a ↦ rw (m, a, refuse_while_assembling) (went e m)
  ]
]

-- The loop's invariant: the table is keyed, and what was tried is no longer the queue's to take.
pub record IsTrimming (q : ℕ) (p : Pass) : Type 0 where
  pub keyed : IsKeyed p.state.jobs
  pub taken : (k : ℕ) → contains p.tried k ≡ true → targets q k p.state.jobs ≡ 0

abbrev pub trim_pass : ℕ → Pass → ℕ → Pass
trim_pass now p id = record { tried = id ∷ p.tried; state = (pause_in_place now id p.state).0 }

IsKeyed-in_place :
    (now id : ℕ) (s : AppState) → IsKeyed s.jobs → IsKeyed (pause_in_place now id s).0.jobs
IsKeyed-in_place now id s keyed =
    in_place_went now id s IsKeyed (λ m. keyed) (λ e m a. keyed)
      (λ e m. IsKeyed-update id (paused_entry now) s.jobs (paused_entry-KeepsId now) keyed)

pub ids_in_place :
    (now id : ℕ) (s : AppState) → job_ids (pause_in_place now id s).0.jobs ≡ job_ids s.jobs
ids_in_place now id s =
    in_place_went now id s (λ es. job_ids es ≡ job_ids s.jobs) (λ m. refl) (λ e m a. refl)
      (λ e m. job_ids-update id (paused_entry now) s.jobs (paused_entry-KeepsId now))

targets_in_place_le :
    (q now id k : ℕ) (s : AppState)
    → targets q k (pause_in_place now id s).0.jobs ≤ targets q k s.jobs
targets_in_place_le q now id k s =
    in_place_went now id s (λ es. targets q k es ≤ targets q k s.jobs) (λ m. omega arith)
      (λ e m a. omega arith)
      (λ e m.
        count-update_le (λ d. is_stop_target q d && has_id k d) id (paused_entry now) s.jobs
          (λ d h. absurd (ground (arith, paused_untargeted q now d, h))))

targets_in_place :
    (q now id : ℕ) (s : AppState)
    → IsKeyed s.jobs
    → targets q id (pause_in_place now id s).0.jobs ≡ 0
targets_in_place q now id s keyed =
    in_place_went now id s (λ es. targets q id es ≡ 0)
      (λ m. passing-missing (is_stop_target q) id s.jobs m)
      (λ e m a. ground (arith, a, passing-found (is_stop_target q) id s.jobs e keyed m))
      (λ e m.
        passing-update (is_stop_target q) id (paused_entry now) s.jobs e keyed m
          (paused_untargeted q now e))

pub IsTrimming-trim_pass :
    (q now id : ℕ) (p : Pass) → IsTrimming q p → IsTrimming q (trim_pass now p id)
IsTrimming-trim_pass q now id p h = record {
  keyed = IsKeyed-in_place now id p.state h.keyed;
  taken = λ k c. elim (Bool-cases (id == k)) [
    | inl e ↦
        subst (λ j. targets q j (pause_in_place now id p.state).0.jobs ≡ 0) (==→eq id k e)
          (targets_in_place q now id p.state h.keyed)
    | inr e ↦
        omega (arith, targets_in_place_le q now id k p.state, h.taken k (ground (arith, c, e)))
  ];
}

pub find_last-holds :
    (test : JobEntry → Bool) (es : List JobEntry) (e : JobEntry)
    → find_last test es ≡ some e
    → (test e ≡ true) × (contains (job_ids es) e.job.id ≡ true)
find_last-holds test [] e h = cc
find_last-holds test (x ∷ es) e h = elim (Option-cases (find_last test es)) [
  | inl m ↦ ground (arith, h, m, ==_refl e.job.id)
  | inr (y, m) ↦ ground (arith, h, m, find_last-holds test es e)
]

pub find_last-none :
    (test : JobEntry → Bool) (es : List JobEntry) → find_last test es ≡ none → count test es ≡ 0
find_last-none test [] h = refl
find_last-none test (x ∷ es) h = elim (Option-cases (find_last test es)) [
  | inl m ↦ ground (arith, h, m, find_last-none test es m)
  | inr (y, m) ↦ ground (arith, h, m)
]
