-- ===== src/State/Members/Order/Complete.antt =====
-- What a reordered queue holds.
use oxdm.Prelude.{
  ℕ, ◌≡◌, refl, Bool, true, false, ◌&&◌, List, [], ◌∷◌, ◌++◌, filter, any-append, contains, ◌==◌,
  ==→eq, ==_refl, not, Option, none, some, arith, ap, subst, ◌∙◌, inl, inr, Bool-cases,
  Option-cases, Distinct,
}
use oxdm.Entry.{JobEntry}
use oxdm.Table.{job_ids, job_entry}
use oxdm.Table.Keyed.{job_entry-holds}
use oxdm.State.Members.{sits_in, listed, ordered}
use oxdm.State.Members.Order.{AreIn}

-- An id is listed only where it sits in the queue and was not seen before.
pub listed_fits :
    (q : ℕ) (jobs : List JobEntry) (ids seen : List ℕ) (k : ℕ)
    → contains (listed q jobs seen ids) k ≡ true
    → (sits_in q (job_entry k jobs) ≡ true) × (contains seen k ≡ false)
unfolding listed
listed_fits q jobs [] seen k h = cc
listed_fits q jobs (id ∷ ids) seen k h =
    elim (Bool-cases (sits_in q (job_entry id jobs) && not (contains seen id))) [
      | inl fits ↦ elim (Bool-cases (id == k)) [
        | inl same ↦
            subst (λ i. (sits_in q (job_entry i jobs) ≡ true) × (contains seen i ≡ false))
              (==→eq id k same) (ground (arith, fits), ground (arith, fits))
        | inr off ↦
            let (sits, new) = listed_fits q jobs ids (id ∷ seen) k (ground (arith, fits, off, h)) in
            (sits, ground (arith, new))
      ]
      | inr skips ↦ listed_fits q jobs ids seen k (ground (arith, skips, h))
    ]

Distinct-listed :
    (q : ℕ) (jobs : List JobEntry) (ids seen : List ℕ) → Distinct (listed q jobs seen ids)
unfolding listed
Distinct-listed q jobs [] seen = tt
Distinct-listed q jobs (id ∷ ids) seen =
    elim (Bool-cases (sits_in q (job_entry id jobs) && not (contains seen id))) [
      | inl fits ↦
          let fresh : contains (listed q jobs (id ∷ seen) ids) id ≡ false =
            elim (Bool-cases (contains (listed q jobs (id ∷ seen) ids) id)) [
              | inl again ↦
                  absurd
                    (ground (arith, (listed_fits q jobs ids (id ∷ seen) id again).1, ==_refl id))
              | inr once ↦ once
            ] in
          rw fits (fresh, Distinct-listed q jobs ids (id ∷ seen))
      | inr skips ↦ rw skips (Distinct-listed q jobs ids seen)
    ]

abbrev entry_holds : (JobEntry → Bool) → Option JobEntry → Bool
entry_holds p none = false
entry_holds p (some e) = p e

contains_fewer :
    (p : JobEntry → Bool) (k : ℕ) (es : List JobEntry)
    → contains (job_ids es) k ≡ false
    → contains (job_ids (filter p es)) k ≡ false
contains_fewer p k [] h = refl
contains_fewer p k (e ∷ es) h = ground (arith, h, contains_fewer p k es)

contains-filtered :
    (p : JobEntry → Bool) (k : ℕ) (es : List JobEntry)
    → Distinct (job_ids es)
    → contains (job_ids (filter p es)) k ≡ entry_holds p (job_entry k es)
unfolding job_entry
contains-filtered p k [] d = refl
contains-filtered p k (e ∷ es) d = elim (Bool-cases (e.job.id == k)) [
  | inl hit ↦
      let off : contains (job_ids es) k ≡ false =
        subst (λ i. contains (job_ids es) i ≡ false) (==→eq e.job.id k hit) d.0 in
      ground (arith, hit, contains_fewer p k es off)
  | inr miss ↦ ground (arith, miss, contains-filtered p k es d.1)
]

Distinct-filtered :
    (p : JobEntry → Bool) (es : List JobEntry)
    → Distinct (job_ids es)
    → Distinct (job_ids (filter p es))
Distinct-filtered p [] d = tt
Distinct-filtered p (e ∷ es) d = elim (Bool-cases (p e)) [
  | inl keeps ↦ rw keeps (contains_fewer p e.job.id es d.0, Distinct-filtered p es d.1)
  | inr drops ↦ rw drops (Distinct-filtered p es d.1)
]

Distinct-append :
    (xs ys : List ℕ)
    → Distinct xs
    → Distinct ys
    → ((k : ℕ) → contains xs k ≡ true → contains ys k ≡ false)
    → Distinct (xs ++ ys)
Distinct-append [] ys d e apart = e
Distinct-append (x ∷ xs) ys d e apart = (
  any-append (λ i. i == x) xs ys ∙ ground (arith, d.0, apart x, ==_refl x),
  Distinct-append xs ys d.1 e (λ k h. apart k (ground (arith, h))),
)

pub AreIn-of :
    (ids xs : List ℕ) → ((k : ℕ) → contains xs k ≡ true → contains ids k ≡ true) → AreIn ids xs
AreIn-of ids [] h = tt
AreIn-of ids (x ∷ xs) h =
    (h x (ground (arith, ==_refl x)), AreIn-of ids xs (λ k here. h k (ground (arith, here))))

-- Whatever the caller gave, the order holds the downloads of the queue and no others.
pub contains-ordered :
    (q : ℕ) (jobs : List JobEntry) (ids : List ℕ) (k : ℕ)
    → Distinct (job_ids jobs)
    → contains (ordered q jobs ids) k ≡ sits_in q (job_entry k jobs)
unfolding ordered
contains-ordered q jobs ids k d =
    let first = listed q jobs [] ids in
    let left = λ (e : JobEntry). (e.job.queue_id == q) && not (contains first e.job.id) in
    let split = any-append (λ i. i == k) first (job_ids (filter left jobs)) in
    let rest = contains-filtered left k jobs d in
    elim (Option-cases (job_entry k jobs)) [
      | inl absent ↦ elim (Bool-cases (contains first k)) [
        | inl here ↦
            absurd (ground (arith, (listed_fits q jobs ids [] k here).0, ap (sits_in q) absent))
        | inr off ↦
            ground (arith, split, off, rest, ap (entry_holds left) absent, ap (sits_in q) absent)
      ]
      | inr (e, found) ↦
          let same : e.job.id ≡ k = ==→eq e.job.id k (job_entry-holds k jobs e found) in
          let seen : contains first e.job.id ≡ contains first k = ap (contains first) same in
          elim (Bool-cases (contains first k)) [
            | inl here ↦ ground (arith, split, here, (listed_fits q jobs ids [] k here).0)
            | inr off ↦
                ground
                  (arith, split, off, seen, rest, ap (entry_holds left) found, ap (sits_in q) found)
          ]
    ]

pub Distinct-ordered :
    (q : ℕ) (jobs : List JobEntry) (ids : List ℕ)
    → Distinct (job_ids jobs)
    → Distinct (ordered q jobs ids)
unfolding ordered
Distinct-ordered q jobs ids d =
    let first = listed q jobs [] ids in
    let left = λ (e : JobEntry). (e.job.queue_id == q) && not (contains first e.job.id) in
    Distinct-append first (job_ids (filter left jobs)) (Distinct-listed q jobs ids [])
      (Distinct-filtered left jobs d)
      (λ k here. contains-filtered left k jobs d ∙ elim (Option-cases (job_entry k jobs)) [
        | inl absent ↦ ap (entry_holds left) absent
        | inr (e, found) ↦
            ap (entry_holds left) found
            ∙ ground (
              arith,
              here,
              ap (contains first) (==→eq e.job.id k (job_entry-holds k jobs e found)),
            )
      ])
