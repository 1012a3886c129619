-- ===== src/Space/Shortfall.antt =====
-- The volume that is named is the worst of those that come up short.
use oxdm.Prelude.{
  ℕ, ◌-◌, ◌≤◌, ◌≡◌, refl, Option, none, some, List, [], ◌∷◌, arith, ◌∙◌, sym, subst, All, ◌⊎◌, inl,
  inr,
}
use oxdm.Space.{Demand, Short, short_of, worse, shortfall_from, shortfall}

-- How much a volume is missing.
abbrev pub missing : Short → ℕ
missing s = s.needed - s.available

-- No worse than what is named; with nothing named, nothing short.
abbrev pub IsCovered : Option Short → Option Short → Type 0
IsCovered none best = Unit {0}
IsCovered (some t) none = ⊥
IsCovered (some t) (some s) = missing t ≤ missing s

worse_covers : (b t : Option Short) → IsCovered b (worse b t) × IsCovered t (worse b t)
unfolding worse
worse_covers none none = (tt, tt)
worse_covers none (some t) = (tt, omega arith)
worse_covers (some s) none = (omega arith, tt)
worse_covers (some s) (some t) = ground arith

IsCovered-trans : (a b c : Option Short) → IsCovered a b → IsCovered b c → IsCovered a c
IsCovered-trans none b c h k = tt
IsCovered-trans (some s) none c h k = elim h [ ]
IsCovered-trans (some s) (some t) none h k = k
IsCovered-trans (some s) (some t) (some u) h k = omega arith

module _ (free : List ℕ → Option ℕ) where
  -- A demand on some volume in the list is this shortfall.
  abbrev pub IsAmong : Short → List Demand → Type 0
  IsAmong s [] = ⊥
  IsAmong s (d ∷ ds) = (short_of free d ≡ some s) ⊎ IsAmong s ds

  abbrev pub AreCovered : Option Short → List Demand → Type 0
  AreCovered best = All (λ d. IsCovered (short_of free d) best)

  AreCovered-trans :
      (b c : Option Short) (ds : List Demand) → AreCovered b ds → IsCovered b c → AreCovered c ds
  AreCovered-trans b c [] h k = tt
  AreCovered-trans b c (d ∷ ds) h k =
      (IsCovered-trans (short_of free d) b c h.0 k, AreCovered-trans b c ds h.1 k)

  shortfall_from_covers :
      (best : Option Short) (ds : List Demand)
      → IsCovered best (shortfall_from free best ds) × AreCovered (shortfall_from free best ds) ds
  unfolding shortfall_from
  shortfall_from_covers none [] = (tt, tt)
  shortfall_from_covers (some s) [] = (omega arith, tt)
  shortfall_from_covers best (d ∷ ds) =
      let t = short_of free d in
      let next = worse best t in
      let rest = shortfall_from_covers next ds in
      let end = shortfall_from free next ds in
      (
        IsCovered-trans best next end (worse_covers best t).0 rest.0,
        (IsCovered-trans t next end (worse_covers best t).1 rest.0, rest.1),
      )

  abbrev From : Option Short → Option Short → List Demand → Type 0
  From best r ds = (r ≡ best) ⊎ ((s : Short) × (r ≡ some s) × IsAmong s ds)

  worse_either : (b t : Option Short) → (worse b t ≡ b) ⊎ (worse b t ≡ t)
  unfolding worse
  worse_either none t = inr refl
  worse_either (some s) none = inl refl
  worse_either (some s) (some t) = ground arith

  worse-none : (b t : Option Short) → worse b t ≡ none → b ≡ none
  unfolding worse
  worse-none none t h = refl
  worse-none (some s) none h = h
  worse-none (some s) (some t) h = ground arith

  From-step :
      (d : Demand) (ds : List Demand) (best r : Option Short)
      → From (worse best (short_of free d)) r ds
      → From best r (d ∷ ds)
  From-step d ds best none (inl e) = inl (sym (worse-none best (short_of free d) (sym e)))
  From-step d ds best (some s) (inl e) = elim (worse_either best (short_of free d)) [
    | inl f ↦ inl (e ∙ f)
    | inr f ↦ inr (s, refl, inl (sym (e ∙ f)))
  ]
  From-step d ds best r (inr (s, e, a)) = inr (s, e, inr a)

  shortfall_from-From :
      (best : Option Short) (ds : List Demand) → From best (shortfall_from free best ds) ds
  unfolding shortfall_from
  shortfall_from-From best [] = inl refl
  shortfall_from-From best (d ∷ ds) =
      From-step d ds best _ (shortfall_from-From (worse best (short_of free d)) ds)

  From-nothing :
      (r : Option Short) (ds : List Demand) (s : Short) → From none r ds → r ≡ some s → IsAmong s ds
  From-nothing r ds s (inl e) h = cc
  From-nothing r ds s (inr (t, e, a)) h = subst (λ u. IsAmong u ds) (ground (arith, e, h)) a

  -- A volume in the list that comes up short is missing no more than the one that is named, so that
  -- none is named only if no measurable volume is short; and what is named is one of them.
  pub shortfall_worst :
      (ds : List Demand)
      → AreCovered (shortfall free ds) ds
        × ((s : Short) → shortfall free ds ≡ some s → IsAmong s ds)
  unfolding shortfall
  shortfall_worst ds = (
    (shortfall_from_covers none ds).1,
    λ s h. From-nothing _ ds s (shortfall_from-From none ds) h,
  )
