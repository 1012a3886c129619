-- ===== src/State/All/Sweeping.antt =====
-- Pausing everything: which downloads a pause of all takes.
use oxdm.Prelude.{
  ℕ, ◌≡◌, refl, false, none, some, List, [], ◌∷◌, arith, ◌==◌, ==_refl, ==→eq, if◌then◌else◌, inl,
  inr, Bool-cases, contains, ◌∙◌, sym, subst, ap, Distinct, All,
}
use mathlib.Core.Option
use oxdm.Job.{is_assembling}
use oxdm.Entry.{JobEntry}
use oxdm.Table.{job_entry}
use oxdm.Table.Keyed.{IsKeyed}
use oxdm.Table.Moves.{absent}
use oxdm.State.{AppState}
use oxdm.State.Pause.{pause, paused_entry}
use oxdm.State.Pause.Effects.{pause_taken}
use oxdm.State.Queues.{pause_each}
use oxdm.State.Queues.Stops.{IsKeyed-pause}
use oxdm.State.All.{is_pausable, pausable_ids}

-- The download of this id is in the table and may be paused.
pub record IsPausable (s : AppState) (id : ℕ) : Type 0 where
  pub entry : JobEntry
  pub found : job_entry id s.jobs ≡ some entry
  pub free : is_assembling entry.live_phase ≡ false

pub lookup-pause :
    (now id : ℕ) (s : AppState) (h : IsPausable s id) (j : ℕ)
    → IsKeyed s.jobs
    → job_entry j (pause now id s).0.jobs
      ≡ (if id == j then Option.map (paused_entry now) (job_entry j s.jobs) else job_entry j s.jobs)
lookup-pause now id s h j keyed =
    (pause_taken now id s h.entry keyed h.found h.free).1 j ∙ elim (Bool-cases (id == j)) [
      | inl same ↦ rw same (
          sym (
            ap (Option.map (paused_entry now))
              (ap (λ i. job_entry i s.jobs) (sym (==→eq id j same)) ∙ h.found)))
      | inr other ↦ rw other
    ]

IsPausable-pause :
    (now id k : ℕ) (s : AppState)
    → IsKeyed s.jobs
    → IsPausable s id
    → (id == k) ≡ false
    → IsPausable s k
    → IsPausable (pause now id s).0 k
IsPausable-pause now id k s keyed h other p = record {
  entry = p.entry;
  found = lookup-pause now id s h k keyed ∙ rw other p.found;
  free = p.free;
}

AllPausable-pause :
    (now id : ℕ) (ids : List ℕ) (s : AppState)
    → IsKeyed s.jobs
    → IsPausable s id
    → contains ids id ≡ false
    → All (IsPausable s) ids
    → All (IsPausable (pause now id s).0) ids
AllPausable-pause now id [] s keyed h new all = tt
AllPausable-pause now id (k ∷ ids) s keyed h new all = (
  IsPausable-pause now id k s keyed h (ground (arith, new)) all.0,
  AllPausable-pause now id ids s keyed h (ground (arith, new)) all.1,
)

-- Pausing a list of ids, each once, pauses the entries of these ids and no other.
pub lookup-pause_each :
    (now : ℕ) (ids : List ℕ) (s : AppState) (j : ℕ)
    → IsKeyed s.jobs
    → Distinct ids
    → All (IsPausable s) ids
    → job_entry j (pause_each now ids s).jobs ≡ (
        if contains ids j
        then Option.map (paused_entry now) (job_entry j s.jobs)
        else job_entry j s.jobs)
unfolding pause_each
lookup-pause_each now [] s j keyed d all = refl
lookup-pause_each now (id ∷ ids) s j keyed d all =
    let s' = (pause now id s).0 in
    lookup-pause_each now ids s' j (IsKeyed-pause now id s keyed) d.1
      (AllPausable-pause now id ids s keyed all.0 d.0 all.1)
    ∙ elim (Bool-cases (id == j)) [
      | inl same ↦
          rw (same, subst (λ i. contains ids i ≡ false) (==→eq id j same) d.0)
            (lookup-pause now id s all.0 j keyed ∙ rw same)
      | inr other ↦ rw other (
          ap (λ o. if contains ids j then Option.map (paused_entry now) o else o)
            (lookup-pause now id s all.0 j keyed ∙ rw other))
    ]

head_new : (x : JobEntry) (es : List JobEntry) → IsKeyed (x ∷ es) → job_entry x.job.id es ≡ none
head_new x es keyed = absent x.job.id es (ground (arith, keyed x.job.id, ==_refl x.job.id))

tail-IsKeyed : (x : JobEntry) (es : List JobEntry) → IsKeyed (x ∷ es) → IsKeyed es
tail-IsKeyed x es keyed j = ground (arith, keyed j)

pub unlisted_pausable :
    (es : List JobEntry) (id : ℕ) → job_entry id es ≡ none → contains (pausable_ids es) id ≡ false
unfolding job_entry pausable_ids
unlisted_pausable [] id h = refl
unlisted_pausable (x ∷ es) id h = ground (arith, h, unlisted_pausable es id)

pub listed_pausable :
    (es : List JobEntry) (id : ℕ) (e : JobEntry)
    → IsKeyed es
    → job_entry id es ≡ some e
    → contains (pausable_ids es) id ≡ is_pausable e
unfolding job_entry pausable_ids
listed_pausable [] id e keyed h = cc
listed_pausable (x ∷ es) id e keyed h = elim (Bool-cases (x.job.id == id)) [
  | inl hit ↦
      let rest =
        unlisted_pausable es id
          (subst (λ i. job_entry i es ≡ none) (==→eq x.job.id id hit) (head_new x es keyed)) in
      ground (arith, h, hit, rest)
  | inr miss ↦ ground (arith, h, miss, listed_pausable es id e (tail-IsKeyed x es keyed))
]

pub Distinct-pausable_ids : (es : List JobEntry) → IsKeyed es → Distinct (pausable_ids es)
unfolding pausable_ids
Distinct-pausable_ids [] keyed = tt
Distinct-pausable_ids (x ∷ es) keyed =
    let rest = Distinct-pausable_ids es (tail-IsKeyed x es keyed) in
    elim (Bool-cases (is_pausable x)) [
      | inl taken ↦ rw taken (unlisted_pausable es x.job.id (head_new x es keyed), rest)
      | inr spared ↦ rw spared rest
    ]
