-- ===== src/Table/Moves.antt =====
-- Sending an entry to the back of the table changes no look-up.
use oxdm.Prelude.{
  ℕ, ◌≡◌, refl, true, false, none, some, List, [], ◌∷◌, ◌++◌, arith, ◌==◌, ==→eq, inl, inr,
  Option-cases, Bool-cases, count, ◌∙◌, sym, subst, ap,
}
use oxdm.Entry.{JobEntry}
use oxdm.Table.{job_entry, shift_remove, move_to_back, put_back}
use oxdm.Table.Laws.{moved}
use oxdm.Table.Keyed.{IsKeyed, has_id, job_entry-holds}

pub absent : (k : ℕ) (es : List JobEntry) → count (has_id k) es ≡ 0 → job_entry k es ≡ none
unfolding job_entry
absent k [] h = refl
absent k (e ∷ es) h = ground (arith, h, absent k es)

pub absent-shift_remove :
    (k : ℕ) (es : List JobEntry) → IsKeyed es → job_entry k (shift_remove k es) ≡ none
unfolding job_entry shift_remove
absent-shift_remove k [] keyed = refl
absent-shift_remove k (e ∷ es) keyed = elim (Bool-cases (e.job.id == k)) [
  | inl hit ↦ rw hit (absent k es (ground (arith, hit, keyed k)))
  | inr miss ↦ ground (arith, miss, absent-shift_remove k es (λ j. ground (arith, keyed j)))
]

pub other-shift_remove :
    (k j : ℕ) (es : List JobEntry)
    → (k == j) ≡ false
    → job_entry j (shift_remove k es) ≡ job_entry j es
unfolding job_entry shift_remove
other-shift_remove k j [] h = refl
other-shift_remove k j (e ∷ es) h = ground (arith, h, other-shift_remove k j es h)

last_found :
    (k : ℕ) (es : List JobEntry) (e : JobEntry)
    → job_entry k es ≡ none
    → has_id k e ≡ true
    → job_entry k (es ++ e ∷ []) ≡ some e
unfolding job_entry
last_found k [] e h hit = rw hit
last_found k (x ∷ es) e h hit = ground (arith, h, hit, last_found k es e)

last_ignored :
    (j : ℕ) (es : List JobEntry) (e : JobEntry)
    → has_id j e ≡ false
    → job_entry j (es ++ e ∷ []) ≡ job_entry j es
unfolding job_entry
last_ignored j [] e h = rw h
last_ignored j (x ∷ es) e h = ground (arith, last_ignored j es e h)

pub job_entry-move_to_back :
    (k j : ℕ) (es : List JobEntry) → IsKeyed es → job_entry j (move_to_back k es) ≡ job_entry j es
unfolding move_to_back
job_entry-move_to_back k j es keyed = elim (Option-cases (job_entry k es)) [
  | inl gone ↦ ap (job_entry j) (rw (gone, put_back))
  | inr (e, m) ↦
      let hit = job_entry-holds k es e m in
      ap (job_entry j) (moved k es e m) ∙ elim (Bool-cases (k == j)) [
        | inl same ↦
            subst (λ i. job_entry i (shift_remove k es ++ e ∷ []) ≡ job_entry i es) (==→eq k j same)
              (last_found k (shift_remove k es) e (absent-shift_remove k es keyed) hit ∙ sym m)
        | inr other ↦
            last_ignored j (shift_remove k es) e
              (subst (λ i. (i == j) ≡ false) (sym (==→eq e.job.id k hit)) other)
            ∙ other-shift_remove k j es other
      ]
]
