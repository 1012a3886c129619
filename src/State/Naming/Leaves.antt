-- ===== src/State/Naming/Leaves.antt =====
-- The names that reach the table are leaves.
pub mod Kept
use oxdm.Prelude.{
  ℕ, zero, suc, ◌+◌, ◌/◌, ◌%◌, ◌<◌, ◌≤◌, ◌≡◌, ◌⊎◌, refl, Bool, true, false, ◌&&◌, ◌||◌, List, [],
  ◌∷◌, ◌++◌, ◌==◌, not, Option, none, some, arith, ap, sym, subst, ◌∙◌, inl, inr, Bool-cases,
  Option-cases, if◌then◌else◌, ltb, All, All-append,
}
use oxdm.Text.{trim, All-trim}
use oxdm.Filename.{sanitize, is_empty, is_kept, is_deceptive_format, split_extension}
use oxdm.Filename.Split.{split_extension_lem}
use oxdm.Filename.Cleaned.{is_safe, AreSafe}
use oxdm.Filename.Sizes.{sanitize_leaf}
use oxdm.Filename.Names.{unique_name, numbered, digits, decimal}
use oxdm.Filename.Names.Free.{unique_name_lem}
use oxdm.Entry.{JobEntry}
use oxdm.Table.{job_entry, update}
use oxdm.State.Naming.Apart.{some_eq}

digit-IsSafe : (n : ℕ) → n < 10 → is_safe (b'0' + n) ≡ true
unfolding is_kept is_deceptive_format
digit-IsSafe n h = ground (arith, h)

digits-AreSafe : (left n : ℕ) → AreSafe (digits left n)
digits-AreSafe zero n = tt
digits-AreSafe (suc left) n = elim (Bool-cases (ltb n 10)) [
  | inl small ↦ rw small (digit-IsSafe n (ground (arith, small)), tt)
  | inr large ↦ rw large (
      All-append (λ c. is_safe c ≡ true) (digits left (n / 10)) ((b'0' + n % 10) ∷ [])
        (digits-AreSafe left (n / 10)) (digit-IsSafe (n % 10) (omega arith), tt))
]

safe_parts : (s t : List ℕ) → AreSafe (s ++ t) → AreSafe s × AreSafe t
safe_parts [] t h = (tt, h)
safe_parts (c ∷ s) t h = let (a, b) = safe_parts s t h.1 in ((h.0, a), b)

underscored : is_safe b'_' ≡ true
unfolding is_kept is_deceptive_format
underscored = refl

numbered-AreSafe : (name : List ℕ) (n : ℕ) → AreSafe name → AreSafe (numbered name n)
unfolding numbered
numbered-AreSafe name n h =
    let (stem, ext) = split_extension name in
    let joined : stem ++ ext ≡ name = (split_extension_lem name).0 in
    let (safe_stem, safe_ext) = safe_parts stem ext (subst AreSafe (sym joined) h) in
    All-append (λ c. is_safe c ≡ true) stem (b'_' ∷ (decimal n ++ ext)) safe_stem
      (
        underscored,
        All-append (λ c. is_safe c ≡ true) (decimal n) ext (digits-AreSafe 10 n) safe_ext,
      )

pub unique_name-AreSafe :
    (name : List ℕ) (taken : List ℕ → Bool) → AreSafe name → AreSafe (unique_name name taken)
unique_name-AreSafe name taken h =
    let trimmed = All-trim (λ c. is_safe c ≡ true) name h in
    elim (unique_name_lem name taken) [
      | inl (kept, found) ↦ subst AreSafe (sym found) trimmed
      | inr (held, (n, found, _)) ↦
          subst AreSafe (sym found) (numbered-AreSafe (trim name) n trimmed)
    ]

-- Of each entry of the table: its name, if it has one, is made of safe characters.
abbrev pub IsSafelyNamed : JobEntry → Type 0
IsSafelyNamed e = (n : List ℕ) → e.job.filename ≡ some n → AreSafe n

pub All-update :
    (P : JobEntry → Type 0) (id : ℕ) (g : JobEntry → JobEntry) (jobs : List JobEntry)
    (old : JobEntry)
    → job_entry id jobs ≡ some old
    → P (g old)
    → All P jobs
    → All P (update id g jobs)
unfolding update job_entry
All-update P id g [] old found p h = tt
All-update P id g (e ∷ jobs) old found p h = elim (Bool-cases (e.job.id == id)) [
  | inl hit ↦
      rw hit (subst (λ x. P (g x)) (sym (some_eq e old (ground (arith, hit, found)))) p, h.1)
  | inr miss ↦ rw miss (h.0, All-update P id g jobs old (ground (arith, miss, found)) p h.1)
]
