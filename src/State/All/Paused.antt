-- ===== src/State/All/Paused.antt =====
-- The sweep that pauses everything comes to one round over what may be paused.
use oxdm.Prelude.{
  ℕ, zero, suc, ◌≡◌, refl, true, List, [], ◌∷◌, ◌++◌, arith, ==_refl, if◌then◌else◌, inl, inr,
  Option-cases, Bool-cases, contains, ◌∙◌, sym, subst, ap, All,
}
use mathlib.Core.Option
use oxdm.Table.{job_entry}
use oxdm.Table.Keyed.{IsKeyed}
use oxdm.State.{AppState}
use oxdm.State.Pause.{pause, paused_entry}
use oxdm.State.Fill.{Pass}
use oxdm.State.Queues.{pause_each, untried}
use oxdm.State.Queues.Stops.{IsKeyed-pause}
use oxdm.State.Queues.Ends.{List-cases, untried-nil}
use oxdm.State.All.{pausable_ids, pause_sweep}
use oxdm.State.All.Sweeping.{
  IsPausable, lookup-pause_each, listed_pausable, unlisted_pausable, Distinct-pausable_ids,
}

pausable :
    (s : AppState) (id : ℕ)
    → IsKeyed s.jobs
    → contains (pausable_ids s.jobs) id ≡ true
    → IsPausable s id
pausable s id keyed h = elim (Option-cases (job_entry id s.jobs)) [
  | inl m ↦ absurd (ground (arith, h, unlisted_pausable s.jobs id m))
  | inr (e, m) ↦ record {
    entry = e;
    found = m;
    free = ground (arith, h, listed_pausable s.jobs id e keyed m);
  }
]

each_of :
    (s : AppState) (ids : List ℕ)
    → ((id : ℕ) → contains ids id ≡ true → IsPausable s id)
    → All (IsPausable s) ids
each_of s [] h = tt
each_of s (id ∷ ids) h =
    (h id (ground (arith, ==_refl id)), each_of s ids (λ k c. h k (ground (arith, c))))

IsKeyed-pause_each :
    (now : ℕ) (ids : List ℕ) (s : AppState) → IsKeyed s.jobs → IsKeyed (pause_each now ids s).jobs
unfolding pause_each
IsKeyed-pause_each now [] s keyed = keyed
IsKeyed-pause_each now (id ∷ ids) s keyed =
    IsKeyed-pause_each now ids (pause now id s).0 (IsKeyed-pause now id s keyed)

abbrev pub one_round : ℕ → AppState → AppState
one_round now s = pause_each now (pausable_ids s.jobs) s

pub lookup-one_round :
    (now : ℕ) (s : AppState) (j : ℕ)
    → IsKeyed s.jobs
    → job_entry j (one_round now s).jobs ≡ (
        if contains (pausable_ids s.jobs) j
        then Option.map (paused_entry now) (job_entry j s.jobs)
        else job_entry j s.jobs)
lookup-one_round now s j keyed =
    lookup-pause_each now (pausable_ids s.jobs) s j keyed (Distinct-pausable_ids s.jobs keyed)
      (each_of s (pausable_ids s.jobs) (λ id c. pausable s id keyed c))

-- Nothing but what the round took can be paused after it.
nothing_new :
    (now : ℕ) (s : AppState) (k : ℕ)
    → IsKeyed s.jobs
    → contains (pausable_ids (one_round now s).jobs) k ≡ true
    → contains (pausable_ids s.jobs) k ≡ true
nothing_new now s k keyed h = elim (Bool-cases (contains (pausable_ids s.jobs) k)) [
  | inl listed ↦ listed
  | inr other ↦
      let same : job_entry k (one_round now s).jobs ≡ job_entry k s.jobs =
        lookup-one_round now s k keyed ∙ rw other refl in
      elim (Option-cases (job_entry k s.jobs)) [
        | inl m ↦ absurd (ground (arith, h, unlisted_pausable (one_round now s).jobs k (same ∙ m)))
        | inr (e, m) ↦ ground (
          arith,
          h,
          listed_pausable (one_round now s).jobs k e
              (IsKeyed-pause_each now (pausable_ids s.jobs) s keyed) (same ∙ m),
          listed_pausable s.jobs k e keyed m,
        )
      ]
]

untried-all :
    (tried ids : List ℕ)
    → ((k : ℕ) → contains ids k ≡ true → contains tried k ≡ true)
    → untried tried ids ≡ []
untried-all tried [] h = refl
untried-all tried (id ∷ ids) h = ground (
  arith,
  h id (ground (arith, ==_refl id)),
  untried-all tried ids (λ k c. h k (ground (arith, c))),
)

pause_sweep_done :
    (now fuel : ℕ) (p : Pass)
    → untried p.tried (pausable_ids p.state.jobs) ≡ []
    → pause_sweep now fuel p ≡ p
unfolding pause_sweep
pause_sweep_done now zero p h = refl
pause_sweep_done now (suc fuel) p h = rw (h, pause_sweep)

abbrev pub first_pass : AppState → Pass
first_pass s = record { tried = []; state = s }

abbrev second_pass : ℕ → AppState → List ℕ → Pass
second_pass now s ids = record { tried = ids ++ []; state = pause_each now ids s }

pause_sweep_more :
    (now fuel : ℕ) (s : AppState) (id : ℕ) (ids : List ℕ)
    → untried [] (pausable_ids s.jobs) ≡ id ∷ ids
    → pause_sweep now (suc fuel) (first_pass s)
      ≡ pause_sweep now fuel (second_pass now s (id ∷ ids))
unfolding pause_sweep
pause_sweep_more now fuel s id ids h = rw (h, pause_sweep)

contains-append_nil : (ids : List ℕ) (k : ℕ) → contains (ids ++ []) k ≡ contains ids k
contains-append_nil [] k = refl
contains-append_nil (id ∷ ids) k = ground (arith, contains-append_nil ids k)

second_idle :
    (now : ℕ) (s : AppState) (ids : List ℕ)
    → IsKeyed s.jobs
    → pausable_ids s.jobs ≡ ids
    → untried (ids ++ []) (pausable_ids (pause_each now ids s).jobs) ≡ []
second_idle now s ids keyed h =
    subst (λ l. untried (l ++ []) (pausable_ids (pause_each now l s).jobs) ≡ []) h
      (untried-all _ _
        (λ k c. contains-append_nil (pausable_ids s.jobs) k ∙ nothing_new now s k keyed c))

-- One round is all that the sweep makes.
pub sweep_is_round :
    (now fuel : ℕ) (s : AppState)
    → IsKeyed s.jobs
    → (pause_sweep now (suc fuel) (first_pass s)).state ≡ one_round now s
unfolding pause_each
sweep_is_round now fuel s keyed = elim (List-cases (pausable_ids s.jobs)) [
  | inl nothing ↦
      ap (λ (p : Pass). p.state)
        (pause_sweep_done now (suc fuel) (first_pass s)
          (untried-nil (pausable_ids s.jobs) ∙ nothing))
      ∙ ap (λ l. pause_each now l s) (sym nothing)
  | inr (id, ids, h) ↦
      ap (λ (p : Pass). p.state)
        (pause_sweep_more now fuel s id ids (untried-nil (pausable_ids s.jobs) ∙ h)
          ∙ pause_sweep_done now fuel (second_pass now s (id ∷ ids))
              (second_idle now s (id ∷ ids) keyed h))
      ∙ ap (λ l. pause_each now l s) (sym h)
]
