-- ===== src/State/Naming/Apart.antt =====
-- No two downloads of the table share a name.
pub mod Steps
pub mod Others
pub mod Written
pub mod Reached
use oxdm.Prelude.{
  ℕ, ◌≤◌, ◌<◌, ◌≡◌, ◌≢◌, ◌⊎◌, refl, Bool, true, false, ◌&&◌, ◌||◌, List, [], ◌∷◌, ◌++◌, ◌==◌, ==→eq,
  ==_refl, not, Option, none, some, arith, ap, sym, subst, ◌∙◌, inl, inr, Bool-cases, if◌then◌else◌,
  All,
}
use mathlib.Core.Option
use oxdm.Filename.Names.{name_key, is_other}
use oxdm.Filename.Names.Free.{AreApart, IsUnclaimed}
use oxdm.Entry.{JobEntry}
use oxdm.Table.{job_entry, update}
use oxdm.Table.Laws.{KeepsId, job_entry-update}

pub found_id :
    (k : ℕ) (jobs : List JobEntry) (f : JobEntry)
    → job_entry k jobs ≡ some f
    → (f.job.id == k) ≡ true
unfolding job_entry
found_id k [] f h = cc
found_id k (e ∷ jobs) f h = ground (arith, h, found_id k jobs f)

module _ (P : JobEntry → Type 0) where
  pub found-All :
      (k : ℕ) (jobs : List JobEntry) (f : JobEntry) → job_entry k jobs ≡ some f → All P jobs → P f
  unfolding job_entry
  found-All k [] f h all = cc
  found-All k (e ∷ jobs) f h all = elim (Bool-cases (e.job.id == k)) [
    | inl hit ↦ subst P (ground (arith, h, hit)) all.0
    | inr miss ↦ found-All k jobs f (ground (arith, h, miss)) all.1
  ]

pub some_eq : (e f : JobEntry) → ◌≡◌ {A = Option JobEntry} (some e) (some f) → e ≡ f
some_eq e f h = ap (λ o. elim o [ none ↦ e | some x ↦ x ]) h

pub turn : (s t : List ℕ) → AreApart s t → AreApart t s
turn s t h full same = h (λ e. full (same ∙ e)) (sym same)

module _ (to_lowercase : List ℕ → List ℕ) where
  abbrev pub NamedApart : JobEntry → JobEntry → Type 0
  NamedApart e f =
      (m n : List ℕ)
      → e.job.filename ≡ some m
      → f.job.filename ≡ some n
      → AreApart (name_key to_lowercase m) (name_key to_lowercase n)

  -- The names of any two entries of the table have different keys, but for keys that are empty.
  abbrev pub AreNamedApart : List JobEntry → Type 0
  AreNamedApart jobs =
      (j k : ℕ) (e f : JobEntry)
      → job_entry j jobs ≡ some e
      → job_entry k jobs ≡ some f
      → (j == k) ≡ false
      → NamedApart e f

  -- Whatever name an entry carries, no other download of the table claims it.
  abbrev pub IsFree : ℕ → JobEntry → List JobEntry → Type 0
  IsFree id e jobs =
      (n : List ℕ)
      → e.job.filename ≡ some n
      → All (IsUnclaimed to_lowercase (name_key to_lowercase n) (some id)) jobs

  unclaimed-apart :
      (id k : ℕ) (jobs : List JobEntry) (e f : JobEntry)
      → IsFree id e jobs
      → job_entry k jobs ≡ some f
      → (id == k) ≡ false
      → NamedApart f e
  unclaimed-apart id k jobs e f free found off m n hf he =
      let claim =
        found-All (IsUnclaimed to_lowercase (name_key to_lowercase n) (some id)) k jobs f found
          (free n he) in
      claim (ground (arith, found_id k jobs f found, off)) m hf

  looked_up :
      (id j : ℕ) (g : JobEntry → JobEntry) (jobs : List JobEntry) (old e : JobEntry)
      → KeepsId g
      → job_entry id jobs ≡ some old
      → job_entry j (update id g jobs) ≡ some e
      → ((id == j) ≡ true) × (g old ≡ e) ⊎ ((id == j) ≡ false) × (job_entry j jobs ≡ some e)
  looked_up id j g jobs old e keeps found h = elim (Bool-cases (id == j)) [
    | inl same ↦
        let there : job_entry j jobs ≡ some old =
          subst (λ x. job_entry x jobs ≡ some old) (==→eq id j same) found in
        let new : job_entry j (update id g jobs) ≡ some (g old) =
          job_entry-update id j g jobs keeps
          ∙ (ap (λ b. if b then Option.map g (job_entry j jobs) else job_entry j jobs) same
              ∙ ap (Option.map g) there) in
        inl (same, some_eq (g old) e (sym new ∙ h))
    | inr off ↦ inr (off, ground (arith, off, h, job_entry-update id j g jobs keeps))
  ]

  -- What stood in the place of an entry, with the same name.
  before :
      (id j : ℕ) (g : JobEntry → JobEntry) (jobs : List JobEntry) (old e : JobEntry)
      → KeepsId g
      → job_entry id jobs ≡ some old
      → (g old).job.filename ≡ old.job.filename
      → job_entry j (update id g jobs) ≡ some e
      → (d : JobEntry) × (job_entry j jobs ≡ some d) × (d.job.filename ≡ e.job.filename)
  before id j g jobs old e keeps found named h = elim (looked_up id j g jobs old e keeps found h) [
    | inl (same, is_new) ↦ (
      old,
      subst (λ x. job_entry x jobs ≡ some old) (==→eq id j same) found,
      sym named ∙ ap (λ x. x.job.filename) is_new,
    )
    | inr (off, there) ↦ (e, there, refl)
  ]

  -- An entry that takes a name free of the others' leaves the names apart.
  pub renamed-apart :
      (id : ℕ) (g : JobEntry → JobEntry) (jobs : List JobEntry) (old : JobEntry)
      → KeepsId g
      → job_entry id jobs ≡ some old
      → IsFree id (g old) jobs
      → AreNamedApart jobs
      → AreNamedApart (update id g jobs)
  renamed-apart id g jobs old keeps found free apart j k e f he hf off m n hm hn =
      elim (looked_up id j g jobs old e keeps found he) [
        | inl (same, is_new) ↦ elim (looked_up id k g jobs old f keeps found hf) [
          | inl (both, _) ↦ absurd (ground (arith, same, both, off))
          | inr (other, there) ↦ turn (name_key to_lowercase n) (name_key to_lowercase m) (
              unclaimed-apart id k jobs (g old) f free there other n m hn
                (ap (λ x. x.job.filename) is_new ∙ hm))
        ]
        | inr (apart_from, there) ↦ elim (looked_up id k g jobs old f keeps found hf) [
          | inl (same, is_new) ↦
              unclaimed-apart id j jobs (g old) e free there apart_from m n hm
                (ap (λ x. x.job.filename) is_new ∙ hn)
          | inr (other, also) ↦ apart j k e f there also off m n hm hn
        ]
      ]

  -- So does an entry that keeps its name.
  pub kept-apart :
      (id : ℕ) (g : JobEntry → JobEntry) (jobs : List JobEntry) (old : JobEntry)
      → KeepsId g
      → job_entry id jobs ≡ some old
      → (g old).job.filename ≡ old.job.filename
      → AreNamedApart jobs
      → AreNamedApart (update id g jobs)
  kept-apart id g jobs old keeps found same apart j k e f he hf off m n hm hn =
      let (d, hd, md) = before id j g jobs old e keeps found same he in
      let (c, hc, mc) = before id k g jobs old f keeps found same hf in
      apart j k d c hd hc off m n (md ∙ hm) (mc ∙ hn)
