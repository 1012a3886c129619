-- ===== src/State/All/Everything.antt =====
-- What pausing everything makes of the table.
use oxdm.Prelude.{
  ℕ, suc, ◌+◌, ◌≡◌, refl, Bool, true, false, none, some, List, [], ◌∷◌, map, arith, if◌then◌else◌,
  inl, inr, Option-cases, count, contains, ◌∙◌, ap, length,
}
use mathlib.Core.Option
use oxdm.Entry.{JobEntry}
use oxdm.Table.{job_entry}
use oxdm.Table.Keyed.{IsKeyed, has_id}
use oxdm.State.{AppState}
use oxdm.State.Pause.{paused_entry}
use oxdm.State.All.{is_pausable, pausable_ids, pause_sweep, pause_begun, pause_all}
use oxdm.State.All.Sweeping.{listed_pausable, unlisted_pausable}
use oxdm.State.All.Paused.{lookup-one_round, sweep_is_round, first_pass}

lookup-cleared :
    (es : List JobEntry) (j : ℕ)
    → job_entry j (map (λ (e : JobEntry). record e { deferred_by_cap = false }) es)
      ≡ Option.map (λ (e : JobEntry). record e { deferred_by_cap = false }) (job_entry j es)
unfolding job_entry
lookup-cleared [] j = refl
lookup-cleared (e ∷ es) j = ground (arith, lookup-cleared es j)

count-cleared :
    (es : List JobEntry) (k : ℕ)
    → count (has_id k) (map (λ (e : JobEntry). record e { deferred_by_cap = false }) es)
      ≡ count (has_id k) es
count-cleared [] k = refl
count-cleared (e ∷ es) k = ground (arith, count-cleared es k)

lookup-pause_begun :
    (s : AppState) (j : ℕ)
    → job_entry j (pause_begun s).jobs
      ≡ Option.map (λ (e : JobEntry). record e { deferred_by_cap = false }) (job_entry j s.jobs)
unfolding pause_begun
lookup-pause_begun s j = lookup-cleared s.jobs j

IsKeyed-pause_begun : (s : AppState) → IsKeyed s.jobs → IsKeyed (pause_begun s).jobs
unfolding pause_begun
IsKeyed-pause_begun s keyed k = omega (arith, keyed k, count-cleared s.jobs k)

-- What a pause of everything makes of one entry.
abbrev pub paused_by_all : ℕ → JobEntry → JobEntry
paused_by_all now e =
    if is_pausable e then paused_entry now e else record e { deferred_by_cap = false }

cleared_pause :
    (now : ℕ) (e : JobEntry) (b : Bool)
    → is_pausable e ≡ b
    → (if b
        then some (paused_entry now (record e { deferred_by_cap = false }))
        else some (record e { deferred_by_cap = false }))
      ≡ some (paused_by_all now e)
unfolding paused_entry
cleared_pause now e true h = rw h refl
cleared_pause now e false h = rw h refl

taken_by_all :
    (now : ℕ) (s : AppState) (j : ℕ)
    → IsKeyed (pause_begun s).jobs
    → job_entry j (pause_begun s).jobs
      ≡ Option.map (λ (e : JobEntry). record e { deferred_by_cap = false }) (job_entry j s.jobs)
    → (if contains (pausable_ids (pause_begun s).jobs) j
        then Option.map (paused_entry now) (job_entry j (pause_begun s).jobs)
        else job_entry j (pause_begun s).jobs)
      ≡ Option.map (paused_by_all now) (job_entry j s.jobs)
taken_by_all now s j keyed look = elim (Option-cases (job_entry j s.jobs)) [
  | inl m ↦
      let gone : job_entry j (pause_begun s).jobs ≡ none = look ∙ rw m refl in
      rw (gone, m, unlisted_pausable (pause_begun s).jobs j gone) refl
  | inr (e, m) ↦
      let cleared : JobEntry = record e { deferred_by_cap = false } in
      let there : job_entry j (pause_begun s).jobs ≡ some cleared = look ∙ rw m refl in
      rw (listed_pausable (pause_begun s).jobs j cleared keyed there, there, m)
        (cleared_pause now e (is_pausable e) refl)
]

-- Pausing everything pauses each download that a run holds and whose file is not being assembled,
-- takes every other off the waiting list and leaves the rest of it as it was, and neither adds nor
-- loses one; the table's ids are distinct.
pub lookup-pause_all :
    (now : ℕ) (s : AppState) (j : ℕ)
    → IsKeyed s.jobs
    → job_entry j (pause_all now s).jobs ≡ Option.map (paused_by_all now) (job_entry j s.jobs)
unfolding pause_all
lookup-pause_all now s j keyed =
    ap (λ (t : AppState). job_entry j t.jobs)
      (ap (λ n. (pause_sweep now n (first_pass (pause_begun s))).state) one_more
        ∙ sweep_is_round now (length s.jobs) (pause_begun s) begun)
    ∙ lookup-one_round now (pause_begun s) j begun
    ∙ taken_by_all now s j begun (lookup-pause_begun s j)
  where
    begun : IsKeyed (pause_begun s).jobs
    begun = IsKeyed-pause_begun s keyed

    one_more : length s.jobs + 1 ≡ suc (length s.jobs)
    one_more = omega arith
