-- ===== src/State/Queues/Stops.antt =====
-- Stopping a queue takes all of its own runs, and switches its run off.
use oxdm.Prelude.{
  ℕ, ◌≤◌, ◌≡◌, true, false, ◌&&◌, none, some, List, [], ◌∷◌, map, filter, arith, ◌==◌, ==→eq, inl,
  inr, Option-cases, Bool-cases, contains, ◌∙◌, ap, subst,
}
use oxdm.Job.{is_running, is_assembling}
use oxdm.Entry.{JobEntry}
use oxdm.Table.{job_entry, update, move_to_back}
use oxdm.Table.Laws.{KeepsId, count-update_le, count-move_to_back}
use oxdm.Table.Keyed.{
  IsKeyed, passing, has_id, IsKeyed-update, IsKeyed-move_to_back, passing-missing, passing-found,
  passing-update, passing_listed, filter-none,
}
use oxdm.Admission.{is_stop_target, queue_stop_targets}
use oxdm.State.{AppState}
use oxdm.State.Pause.{pause, paused_entry, refuse_while_assembling}
use oxdm.State.Queues.{pause_each}

pub paused_untargeted : (q now : ℕ) (e : JobEntry) → is_stop_target q (paused_entry now e) ≡ false
unfolding paused_entry is_running
paused_untargeted q now e = ground arith

-- The three ways a pause goes.
pause_went :
    (now id : ℕ) (s : AppState) (P : List JobEntry → Type 0)
    → ((missing : job_entry id s.jobs ≡ none) → P s.jobs)
    → ((e : JobEntry) → job_entry id s.jobs ≡ some e → is_assembling e.live_phase ≡ true → P s.jobs)
    → ((e : JobEntry)
        → job_entry id s.jobs ≡ some e
        → P (move_to_back id (update id (paused_entry now) s.jobs)))
    → P (pause now id s).0.jobs
unfolding pause
pause_went now id s P gone stuck went = elim (Option-cases (job_entry id s.jobs)) [
  | inl m ↦ rw m (gone m)
  | inr (e, m) ↦ elim (Bool-cases (is_assembling e.live_phase)) [
    | inl a ↦ rw (m, a, refuse_while_assembling) (stuck e m a)
    | inr a ↦ rw (m, a, refuse_while_assembling) (went e m)
  ]
]

pub paused_entry-KeepsId : (now : ℕ) → KeepsId (paused_entry now)
unfolding paused_entry
paused_entry-KeepsId now e = ground arith

pub IsKeyed-pause : (now id : ℕ) (s : AppState) → IsKeyed s.jobs → IsKeyed (pause now id s).0.jobs
IsKeyed-pause now id s keyed =
    pause_went now id s IsKeyed (λ m. keyed) (λ e m a. keyed)
      (λ e m.
        IsKeyed-move_to_back id _
          (IsKeyed-update id (paused_entry now) s.jobs (paused_entry-KeepsId now) keyed))

abbrev pub targets : ℕ → ℕ → List JobEntry → ℕ
targets q = passing (is_stop_target q)

targets-pause_le :
    (q now id k : ℕ) (s : AppState) → targets q k (pause now id s).0.jobs ≤ targets q k s.jobs
targets-pause_le q now id k s =
    pause_went now id s (λ es. targets q k es ≤ targets q k s.jobs) (λ m. omega arith)
      (λ e m a. omega arith)
      (λ e m. omega (
        arith,
        count-move_to_back (λ d. is_stop_target q d && has_id k d) id
            (update id (paused_entry now) s.jobs),
        count-update_le (λ d. is_stop_target q d && has_id k d) id (paused_entry now) s.jobs
            (λ d h. absurd (ground (arith, paused_untargeted q now d, h))),
      ))

targets-pause :
    (q now id : ℕ) (s : AppState) → IsKeyed s.jobs → targets q id (pause now id s).0.jobs ≡ 0
targets-pause q now id s keyed =
    pause_went now id s (λ es. targets q id es ≡ 0)
      (λ m. passing-missing (is_stop_target q) id s.jobs m)
      (λ e m a. ground (arith, a, passing-found (is_stop_target q) id s.jobs e keyed m))
      (λ e m.
        count-move_to_back (λ d. is_stop_target q d && has_id id d) id
          (update id (paused_entry now) s.jobs)
        ∙ passing-update (is_stop_target q) id (paused_entry now) s.jobs e keyed m
            (paused_untargeted q now e))

targets-pause_each_le :
    (q now k : ℕ) (ids : List ℕ) (s : AppState)
    → targets q k (pause_each now ids s).jobs ≤ targets q k s.jobs
unfolding pause_each
targets-pause_each_le q now k [] s = omega arith
targets-pause_each_le q now k (id ∷ ids) s =
    omega
      (arith, targets-pause_le q now id k s, targets-pause_each_le q now k ids (pause now id s).0)

targets-pause_each :
    (q now k : ℕ) (ids : List ℕ) (s : AppState)
    → IsKeyed s.jobs
    → contains ids k ≡ true
    → targets q k (pause_each now ids s).jobs ≡ 0
unfolding pause_each
targets-pause_each q now k [] s keyed h = cc
targets-pause_each q now k (id ∷ ids) s keyed h =
    let s' = (pause now id s).0 in
    elim (Bool-cases (id == k)) [
      | inl hit ↦ omega (
        arith,
        targets-pause_each_le q now k ids s',
        subst (λ j. targets q j s'.jobs ≡ 0) (==→eq id k hit) (targets-pause q now id s keyed),
      )
      | inr miss ↦
          targets-pause_each q now k ids s' (IsKeyed-pause now id s keyed) (ground (arith, h, miss))
    ]

-- Pausing every stop target leaves none.
pub swept :
    (q now : ℕ) (s : AppState)
    → IsKeyed s.jobs
    → queue_stop_targets (pause_each now (queue_stop_targets s.jobs q) s).jobs q ≡ []
unfolding queue_stop_targets
swept q now s keyed = ap (map (λ e. e.job.id)) (filter-none (is_stop_target q) _ none_left)
  where
    ids : List ℕ
    ids = map (λ e. e.job.id) (filter (is_stop_target q) s.jobs)

    none_left : (k : ℕ) → targets q k (pause_each now ids s).jobs ≡ 0
    none_left k = elim (Bool-cases (contains ids k)) [
      | inl listed ↦ targets-pause_each q now k ids s keyed listed
      | inr other ↦ omega (
        arith,
        targets-pause_each_le q now k ids s,
        passing_listed (is_stop_target q) k s.jobs other,
      )
    ]
