-- ===== src/Filename/Names/Free.antt =====
-- The name that is found, and the table it was found for.
use oxdm.Prelude.{
  ==→eq, ℕ, zero, suc, ◌+◌, ◌-◌, ◌≤◌, ◌<◌, ◌≡◌, ◌≢◌, ◌⊎◌, refl, Bool, true, false, ◌&&◌, ◌||◌, List,
  [], ◌∷◌, any, same_text, same_text_refl, ◌==◌, not, Option, some, arith, inl, inr, Bool-cases,
  All, ap, sym, subst, ◌∙◌,
}
use oxdm.Text.{trim, trim_start_matches, trim_end_matches}
use oxdm.Filename.{is_empty}
use oxdm.Filename.Names.{
  numbered, first_free, unique_name, last_number, name_key, is_other, has_key, name_is_taken,
  free_name,
}
use oxdm.Entry.{JobEntry}

-- The number that the search stops at: all below it are taken, and it is free or the ceiling.
abbrev pub StopsAt : (List ℕ → Bool) → List ℕ → ℕ → ℕ → Type 0
StopsAt taken desired from n =
    (from ≤ n)
    × (n ≤ last_number)
    × ((m : ℕ) → from ≤ m → m < n → taken (numbered desired m) ≡ true)
    × ((taken (numbered desired n) ≡ false) ⊎ (n ≡ last_number))

first_free_lem :
    (taken : List ℕ → Bool) (desired : List ℕ) (left from : ℕ)
    → left + from ≡ last_number
    → (n : ℕ) × (first_free taken desired left from ≡ numbered desired n)
      × StopsAt taken desired from n
unfolding first_free
first_free_lem taken desired zero from h = (
  from,
  refl,
  (omega arith, omega arith, (λ m a b. absurd (omega (arith, a, b))), inr (omega (arith, h))),
)
first_free_lem taken desired (suc left) from h = elim (Bool-cases (taken (numbered desired from))) [
  | inl held ↦
      let step : first_free taken desired (suc left) from
          ≡ first_free taken desired left (from + 1) =
        rw (held, first_free) refl in
      let (n, found, (low, high, below, end)) =
        first_free_lem taken desired left (from + 1) (omega (arith, h)) in
      (
        n,
        step ∙ found,
        (
          omega (arith, low),
          high,
          (λ m a b. elim (Bool-cases (m == from)) [
            | inl e ↦ ap (λ k. taken (numbered desired k)) (==→eq m from e) ∙ held
            | inr e ↦ below m (ground (arith, e, a)) b
          ]),
          end,
        ),
      )
  | inr free ↦ (
    from,
    rw (free, first_free) refl,
    (omega arith, omega (arith, h), (λ m a b. absurd (omega (arith, a, b))), inl free),
  )
]

-- An empty name stays empty and a name that is free stays as it is, in each case trimmed; any other
-- gets the least number from 1 that gives a free name, or 10,000 where none below it does.
pub unique_name_lem :
    (desired : List ℕ) (taken : List ℕ → Bool)
    → ((is_empty (trim desired) || not (taken (trim desired)) ≡ true)
        × (unique_name desired taken ≡ trim desired))
      ⊎ ((taken (trim desired) ≡ true)
          × ((n : ℕ) × (unique_name desired taken ≡ numbered (trim desired) n)
              × StopsAt taken (trim desired) 1 n))
unfolding unique_name
unique_name_lem desired taken =
    let wanted = trim desired in
    elim (Bool-cases (is_empty wanted || not (taken wanted))) [
      | inl as_is ↦ rw as_is (inl (refl, refl))
      | inr held ↦ rw held (
          inr (ground (arith, held), first_free_lem taken wanted (last_number - 1) 1 (omega arith)))
    ]

pub is_empty-eq : (s : List ℕ) → is_empty s ≡ true → s ≡ []
is_empty-eq [] h = refl
is_empty-eq (c ∷ s) h = cc

-- Two keys name one file.
abbrev pub AreApart : List ℕ → List ℕ → Type 0
AreApart key other = key ≢ [] → key ≢ other

module _ (to_lowercase : List ℕ → List ℕ) where
  -- No other download of the table has a name of this key.
  abbrev pub IsUnclaimed : List ℕ → Option ℕ → JobEntry → Type 0
  IsUnclaimed key except e =
      is_other except e ≡ true
      → (n : List ℕ) → e.job.filename ≡ some n
      → AreApart (name_key to_lowercase n) key

  first_claim :
      (key : List ℕ) (except : Option ℕ) (e : JobEntry) (n : List ℕ)
      → is_other except e ≡ true
      → e.job.filename ≡ some n
      → name_key to_lowercase n ≡ key
      → (is_other except e && has_key to_lowercase key e.job.filename) ≢ false
  first_claim key except e n other named same h =
      let hit : has_key to_lowercase key (some n) ≡ true =
        ap (λ k. same_text k key) same ∙ same_text_refl key in
      let held : has_key to_lowercase key e.job.filename ≡ true =
        ap (has_key to_lowercase key) named ∙ hit in
      ground (arith, other, held, h)

  no_claim :
      (key : List ℕ) (except : Option ℕ) (jobs : List JobEntry)
      → any (λ e. is_other except e && has_key to_lowercase key e.job.filename) jobs ≡ false
      → All (IsUnclaimed key except) jobs
  no_claim key except [] h = tt
  no_claim key except (e ∷ jobs) h = (
    (λ other n named full same. first_claim key except e n other named same (ground (arith, h))),
    no_claim key except jobs (ground (arith, h)),
  )

  pub All-IsUnclaimed :
      (except : Option ℕ) (jobs : List JobEntry) → All (IsUnclaimed [] except) jobs
  All-IsUnclaimed except [] = tt
  All-IsUnclaimed except (e ∷ jobs) = ((λ other n named full. full), All-IsUnclaimed except jobs)

  pub untaken_lem :
      (jobs : List JobEntry) (name : List ℕ) (except : Option ℕ)
      → name_is_taken to_lowercase jobs name except ≡ false
      → All (IsUnclaimed (name_key to_lowercase name) except) jobs
  unfolding name_is_taken
  untaken_lem jobs name except h = elim (Bool-cases (is_empty (name_key to_lowercase name))) [
    | inl none_such ↦
        subst (λ k. All (IsUnclaimed k except) jobs)
          (sym (is_empty-eq (name_key to_lowercase name) none_such)) (All-IsUnclaimed except jobs)
    | inr full ↦ no_claim (name_key to_lowercase name) except jobs (ground (arith, full, h))
  ]

  kept-IsUnclaimed :
      (jobs : List JobEntry) (name : List ℕ) (except : Option ℕ)
      → to_lowercase [] ≡ []
      → (is_empty name || not (name_is_taken to_lowercase jobs name except)) ≡ true
      → All (IsUnclaimed (name_key to_lowercase name) except) jobs
  unfolding name_key trim trim_start_matches trim_end_matches
  kept-IsUnclaimed jobs [] except h k =
      subst (λ key. All (IsUnclaimed key except) jobs) (sym h) (All-IsUnclaimed except jobs)
  kept-IsUnclaimed jobs (c ∷ name) except h k =
      untaken_lem jobs (c ∷ name) except (ground (arith, k))

  -- The name found for a download clashes with none of the other downloads, whatever case and padding
  -- they are written in; else each of the 9,999 numbered names is taken.
  pub free_name_lem :
      (jobs : List JobEntry) (name : List ℕ) (except : Option ℕ)
      → to_lowercase [] ≡ []
      → let found = free_name to_lowercase jobs name except in
        All (IsUnclaimed (name_key to_lowercase found) except) jobs
        ⊎ ((n : ℕ)
            → 1 ≤ n
            → n < last_number
            → name_is_taken to_lowercase jobs (numbered (trim name) n) except ≡ true)
  unfolding free_name
  free_name_lem jobs name except h =
      let taken : List ℕ → Bool = λ candidate. name_is_taken to_lowercase jobs candidate except in
      elim (unique_name_lem name taken) [
        | inl (kept, found) ↦ inl (
            subst (λ r. All (IsUnclaimed (name_key to_lowercase r) except) jobs) (sym found)
              (kept-IsUnclaimed jobs (trim name) except h kept))
        | inr (held, (n, found, (low, high, below, end))) ↦ elim end [
          | inl free ↦ inl (
              subst (λ r. All (IsUnclaimed (name_key to_lowercase r) except) jobs) (sym found)
                (untaken_lem jobs (numbered (trim name) n) except free))
          | inr last ↦ inr (λ m a b. below m a (omega (arith, b, last)))
        ]
      ]
