-- ===== src/State/Naming/Apart/Others.antt =====
-- Names that a probe finds, and those of downloads that are added.
use oxdm.Prelude.{
  ℕ, ◌≡◌, ◌⊎◌, refl, true, false, ◌||◌, List, [], ◌∷◌, ◌++◌, ◌==◌, not, Option, none, some, arith,
  ap, sym, subst, ◌∙◌, inl, inr, Bool-cases, Option-cases, All,
}
use oxdm.Filename.Names.{name_key, free_name}
use oxdm.Filename.Names.Free.{IsUnclaimed, AreApart}
use oxdm.Category.{Settings}
use oxdm.Job.{is_queued, JobError}
use oxdm.Entry.{JobEntry}
use oxdm.Table.{job_entry, update}
use oxdm.State.{AppState, edit_job}
use oxdm.State.Naming.{Platform, and_sanitize, sorted}
use oxdm.State.Naming.Probed.{
  ProbeResult, apply_probe_result, probe_names, probe_changes, probed_job, probed_name, announced,
  or_zero,
}
use oxdm.State.Naming.Added.{Addition, add_job, job_of, unique, with_completion}
use oxdm.State.Naming.Apart.{AreNamedApart, renamed-apart, kept-apart, found-All, turn, some_eq}
use oxdm.State.Naming.Apart.Steps.{
  IsRoomy, apart_at, stored-IsFree, sorted_id, free_name-free, named_eq,
}

pub announced_jobs :
    (id : ℕ) (name : Option (List ℕ)) (s : AppState) → (announced id name s).jobs ≡ s.jobs
announced_jobs id none s = refl
announced_jobs id (some n) s = refl

module _ (os : Platform) where
  pub probed_id :
      (settings : Settings) (stored : List ℕ) (probe : ProbeResult) (e : JobEntry)
      → (probed_job os settings stored probe e.job).id ≡ e.job.id
  unfolding probed_job probed_name
  probed_id settings stored probe e = elim (Bool-cases (probe_names probe e.job)) [
    | inl named ↦ rw named (sorted_id os settings stored e)
    | inr kept ↦ rw kept refl
  ]

  pub named_job :
      (settings : Settings) (stored : List ℕ) (probe : ProbeResult) (e : JobEntry)
      → probe_names probe e.job ≡ true
      → (probed_job os settings stored probe e.job).filename
        ≡ (sorted os settings stored e.job).filename
  unfolding probed_job probed_name
  named_job settings stored probe e named = rw named refl

  kept_job :
      (settings : Settings) (stored : List ℕ) (probe : ProbeResult) (e : JobEntry)
      → probe_names probe e.job ≡ false
      → (probed_job os settings stored probe e.job).filename ≡ e.job.filename
  unfolding probed_job probed_name
  kept_job settings stored probe e kept = rw kept refl

  probed_apart :
      (settings : Settings) (id : ℕ) (probe : ProbeResult) (jobs : List JobEntry) (old : JobEntry)
      → os.to_lowercase [] ≡ []
      → IsRoomy os jobs probe.filename (some id)
      → job_entry id jobs ≡ some old
      → AreNamedApart os.to_lowercase jobs
      → let stored = free_name os.to_lowercase jobs probe.filename (some id) in
        AreNamedApart os.to_lowercase (
          update id
            (λ e. record e {
              job = probed_job os settings stored probe e.job;
              is_resumable = some probe.is_resumable;
              counters = record (e.counters) { total = or_zero probe.size };
            })
            jobs)
  unfolding probed_job probed_name
  probed_apart settings id probe jobs old h room found apart =
      let stored = free_name os.to_lowercase jobs probe.filename (some id) in
      let g : JobEntry → JobEntry = λ e. record e {
        job = probed_job os settings stored probe e.job;
        is_resumable = some probe.is_resumable;
        counters = record (e.counters) { total = or_zero probe.size };
      } in
      elim (Bool-cases (probe_names probe old.job)) [
        | inl named ↦
            renamed-apart os.to_lowercase id g jobs old (probed_id settings stored probe) found
              (λ n e.
                stored-IsFree os settings id probe.filename old jobs h room n
                  (sym (named_job settings stored probe old named) ∙ e))
              apart
        | inr kept ↦
            kept-apart os.to_lowercase id g jobs old (probed_id settings stored probe) found
              (kept_job settings stored probe old kept) apart
      ]

  pub apply_probe_result-apart :
      (settings : Settings) (id : ℕ) (probe : ProbeResult) (s : AppState)
      → os.to_lowercase [] ≡ []
      → IsRoomy os s.jobs probe.filename (some id)
      → AreNamedApart os.to_lowercase s.jobs
      → AreNamedApart os.to_lowercase (apply_probe_result os settings id probe s).jobs
  unfolding apply_probe_result
  apply_probe_result-apart settings id probe s h room apart =
      let after = (apply_probe_result os settings id probe s).jobs in
      elim (Option-cases (job_entry id s.jobs)) [
        | inl gone ↦ apart_at os s.jobs after (rw (gone, apply_probe_result) refl) apart
        | inr (old, found) ↦
            elim (Bool-cases (
              old.running || not (is_queued old.live_phase) || not (probe_changes probe old.job))) [
                | inl stays ↦
                    apart_at os s.jobs after (rw (found, stays, apply_probe_result) refl) apart
                | inr fills ↦
                    let stored = free_name os.to_lowercase s.jobs probe.filename (some id) in
                    let g : JobEntry → JobEntry = λ e. record e {
                      job = probed_job os settings stored probe e.job;
                      is_resumable = some probe.is_resumable;
                      counters = record (e.counters) { total = or_zero probe.size };
                    } in
                    apart_at os (update id g s.jobs) after
                      (rw (found, fills, apply_probe_result)
                        (announced_jobs id (probed_job os settings stored probe old.job).filename
                          (edit_job id g s)))
                      (probed_apart settings id probe s.jobs old h room found apart)
              ]
      ]

last_found :
    (k : ℕ) (jobs : List JobEntry) (e f : JobEntry)
    → job_entry k (jobs ++ (e ∷ [])) ≡ some f
    → (job_entry k jobs ≡ some f) ⊎ ((e.job.id == k) ≡ true) × (e ≡ f)
unfolding job_entry
last_found k [] e f h = elim (Bool-cases (e.job.id == k)) [
  | inl hit ↦ inr (hit, some_eq e f (ground (arith, hit, h)))
  | inr miss ↦ absurd (ground (arith, miss, h))
]
last_found k (x ∷ jobs) e f h = elim (Bool-cases (x.job.id == k)) [
  | inl hit ↦ inl (ground (arith, hit, h))
  | inr miss ↦ elim (last_found k jobs e f (ground (arith, miss, h))) [
    | inl there ↦ inl (ground (arith, miss, there))
    | inr new ↦ inr new
  ]
]

module _ (os : Platform) where
  -- A download that no other claims the name of, put at the end.
  pub added-apart :
      (jobs : List JobEntry) (new : JobEntry)
      → ((n : List ℕ)
          → new.job.filename ≡ some n
          → All (IsUnclaimed os.to_lowercase (name_key os.to_lowercase n) none) jobs)
      → AreNamedApart os.to_lowercase jobs
      → AreNamedApart os.to_lowercase (jobs ++ (new ∷ []))
  added-apart jobs new free apart j k e f he hf off m n hm hn = elim (last_found j jobs new e he) [
    | inl here ↦ elim (last_found k jobs new f hf) [
      | inl there ↦ apart j k e f here there off m n hm hn
      | inr (id, is_new) ↦ claim n (ap (λ x. x.job.filename) is_new ∙ hn) j e here m hm
    ]
    | inr (id, is_new) ↦ elim (last_found k jobs new f hf) [
      | inl there ↦
          turn (name_key os.to_lowercase n) (name_key os.to_lowercase m)
            (claim m (ap (λ x. x.job.filename) is_new ∙ hm) k f there n hn)
      | inr (too, _) ↦ absurd (ground (arith, id, too, off))
    ]
  ]
    where
      claim :
          (n : List ℕ)
          → new.job.filename ≡ some n
          → (i : ℕ) (x : JobEntry) → job_entry i jobs ≡ some x
          → (t : List ℕ) → x.job.filename ≡ some t
          → AreApart (name_key os.to_lowercase t) (name_key os.to_lowercase n)
      claim n named i x found t other =
          found-All (IsUnclaimed os.to_lowercase (name_key os.to_lowercase n) none) i jobs x found
            (free n named) refl t other

  unique_free :
      (jobs : List JobEntry) (name : Option (List ℕ))
      → os.to_lowercase [] ≡ []
      → ((t : List ℕ) → name ≡ some t → IsRoomy os jobs t none)
      → (n : List ℕ) → unique os jobs name ≡ some n
      → All (IsUnclaimed os.to_lowercase (name_key os.to_lowercase n) none) jobs
  unfolding unique
  unique_free jobs none h room n e = cc
  unique_free jobs (some t) h room n e =
      subst (λ x. All (IsUnclaimed os.to_lowercase (name_key os.to_lowercase x) none) jobs)
        (named_eq (free_name os.to_lowercase jobs t none) n e)
        (free_name-free os jobs t none h (room t refl))

  pub add_job-apart :
      (settings : Settings) (id : ℕ) (a : Addition) (sealed stored : Option JobError) (s : AppState)
      → os.to_lowercase [] ≡ []
      → ((t : List ℕ) → and_sanitize a.filename ≡ some t → IsRoomy os s.jobs t none)
      → AreNamedApart os.to_lowercase s.jobs
      → AreNamedApart os.to_lowercase (add_job os settings id a sealed stored s).0.jobs
  unfolding add_job with_completion job_of
  add_job-apart settings id a (some e) stored s h room apart = apart
  add_job-apart settings id a none (some e) s h room apart = apart
  add_job-apart settings id a none none s h room apart =
      added-apart s.jobs (with_completion (job_of os settings id a s))
        (unique_free s.jobs (and_sanitize a.filename) h room) apart
