-- ===== src/State/Naming/Probed/Raw.antt =====
-- A name that a probe found.
use oxdm.Prelude.{
  ℕ, ◌≡◌, true, false, ◌||◌, List, not, Option, some, arith, ap, ◌∙◌, ==_refl, if◌then◌else◌,
}
use mathlib.Core.Option
use oxdm.Text.{trim}
use oxdm.Filename.{is_empty}
use oxdm.Filename.Names.{free_name, name_is_taken, unique_name}
use oxdm.Category.{Settings}
use oxdm.Job.{is_queued}
use oxdm.Entry.{JobEntry}
use oxdm.Table.{job_entry, update}
use oxdm.Table.Laws.{job_entry-update}
use oxdm.State.{AppState, edit_job}
use oxdm.State.Naming.{Platform, has_name}
use oxdm.State.Naming.Probed.{
  ProbeResult, apply_probe_result, probe_names, probe_changes, probed_job, or_zero,
}
use oxdm.State.Naming.Apart.Others.{announced_jobs, named_job, probed_id}
use oxdm.State.Naming.Apart.Steps.{sorted_name}

module _ (os : Platform) where
  free_as_is :
      (jobs : List JobEntry) (name : List ℕ) (except : Option ℕ)
      → name_is_taken os.to_lowercase jobs (trim name) except ≡ false
      → free_name os.to_lowercase jobs name except ≡ trim name
  unfolding free_name unique_name
  free_as_is jobs name except free = ground (arith, free)

  -- A probe names a queued download that has no name after what the server wrote, trimmed and no more,
  -- where no other download has that name: separators and all else in it are kept.
  pub apply_probe_result_raw :
      (settings : Settings) (id : ℕ) (probe : ProbeResult) (s : AppState) (old : JobEntry)
      → job_entry id s.jobs ≡ some old
      → (old.running || not (is_queued old.live_phase)) ≡ false
      → has_name old.job.filename ≡ false
      → is_empty (trim probe.filename) ≡ false
      → name_is_taken os.to_lowercase s.jobs (trim probe.filename) (some id) ≡ false
      → Option.map
          (λ (e : JobEntry). e.job.filename)
          (job_entry id (apply_probe_result os settings id probe s).jobs)
        ≡ some (some (trim probe.filename))
  unfolding apply_probe_result probe_changes probe_names
  apply_probe_result_raw settings id probe s old found idle bare full free =
      let stored = free_name os.to_lowercase s.jobs probe.filename (some id) in
      let names : probe_names probe old.job ≡ true = ground (arith, bare, full) in
      let fills : (old.running
            || not (is_queued old.live_phase)
            || not (probe_changes probe old.job))
          ≡ false =
        ground (arith, idle, names) in
      let g : JobEntry → JobEntry = λ e. record e {
        job = probed_job os settings stored probe e.job;
        is_resumable = some probe.is_resumable;
        counters = record (e.counters) { total = or_zero probe.size };
      } in
      let after : (apply_probe_result os settings id probe s).jobs ≡ update id g s.jobs =
        rw (found, fills, apply_probe_result)
          (announced_jobs id (probed_job os settings stored probe old.job).filename
            (edit_job id g s)) in
      let looked : job_entry id (update id g s.jobs) ≡ some (g old) =
        job_entry-update id id g s.jobs (probed_id os settings stored probe)
        ∙ (ap (λ b. if b then Option.map g (job_entry id s.jobs) else job_entry id s.jobs)
              (==_refl id)
            ∙ ap (Option.map g) found) in
      let named : (g old).job.filename ≡ some (trim probe.filename) =
        named_job os settings stored probe old names
        ∙ (sorted_name os settings stored old
            ∙ ap some (free_as_is s.jobs probe.filename (some id) free)) in
      ap (λ jobs. Option.map (λ (e : JobEntry). e.job.filename) (job_entry id jobs)) after
      ∙ (ap (Option.map (λ (e : JobEntry). e.job.filename)) looked ∙ ap some named)
