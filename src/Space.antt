-- ===== src/Space.antt =====
-- src/data/space.rs: will this fit? The volume of a folder and the free bytes on it are the
-- operating system's answers, and are parameters. The map by volume is an association list in the
-- order in which the volumes come up; sums are `u64` and saturate.
pub mod Required
pub mod Shortfall
use oxdm.Prelude.{
  ℕ, ◌+◌, ◌-◌, ◌*◌, ◌^◌, Bool, true, false, Option, none, some, List, [], ◌∷◌, ltb, leb, ◌==◌,
  if◌then◌else◌,
}

-- A path is its characters.
pub record Need : Type 0 where
  pub work_dir : List ℕ
  pub save_dir : List ℕ
  pub total : Option ℕ
  pub downloaded : ℕ

pub record Short : Type 0 where
  pub path : List ℕ
  pub needed : ℕ
  pub available : ℕ

abbrev pub u64_max : ℕ
u64_max = 2 ^ 64 - 1

-- `RESERVE`.
abbrev pub reserve : ℕ
reserve = 64 * 1024 * 1024

abbrev pub saturating_add : ℕ → ℕ → ℕ
saturating_add a b = if ltb u64_max (a + b) then u64_max else a + b

-- What one volume has to hold, and a folder on it.
pub record Demand : Type 0 where
  pub volume : ℕ
  pub path : List ℕ
  pub bytes : ℕ

module _ (volume : List ℕ → ℕ) where
  -- `out.entry(volume(dir)).or_insert_with(..)` and the addition to it; no bytes add no entry.
  unfoldable pub charge : List ℕ → ℕ → List Demand → List Demand
  charge dir bytes [] =
      if bytes == 0
      then []
      else record { volume = volume dir; path = dir; bytes = saturating_add 0 bytes } ∷ []
  charge dir bytes (d ∷ ds) =
      if bytes == 0
      then d ∷ ds
      else if d.volume == volume dir
      then record d { bytes = saturating_add d.bytes bytes } ∷ ds
      else d ∷ charge dir bytes ds

  -- One turn of the loop: a job of unknown or zero length is passed over.
  unfoldable pub charge_need : Need → List Demand → List Demand
  unfolding charge
  charge_need n out = elim n.total [
    | none ↦ out
    | some total ↦
        if ltb 0 total
        then charge n.save_dir total (charge n.work_dir (total - n.downloaded) out)
        else out
  ]

  unfoldable pub charge_all : List Need → List Demand → List Demand
  unfolding charge_need
  charge_all [] out = out
  charge_all (n ∷ ns) out = charge_all ns (charge_need n out)

  unfoldable pub required_by_volume : List Need → List Demand
  unfolding charge_all
  required_by_volume needs = charge_all needs []

-- `max_by_key` on what is missing: the later of two that tie.
unfoldable pub worse : Option Short → Option Short → Option Short
worse none t = t
worse (some s) none = some s
worse (some s) (some t) =
    if leb (s.needed - s.available) (t.needed - t.available) then some t else some s

module _ (free : List ℕ → Option ℕ) where
  abbrev over_budget : Demand → ℕ → Option Short
  over_budget d available =
      if ltb (available - reserve) d.bytes
      then some (record { path = d.path; needed = d.bytes; available = available })
      else none

  -- A volume that cannot be measured is not refused.
  unfoldable pub short_of : Demand → Option Short
  short_of d = elim (free d.path) [ none ↦ none | some available ↦ over_budget d available ]

  unfoldable pub shortfall_from : Option Short → List Demand → Option Short
  unfolding short_of worse
  shortfall_from best [] = best
  shortfall_from best (d ∷ ds) = shortfall_from (worse best (short_of d)) ds

  unfoldable pub shortfall : List Demand → Option Short
  unfolding shortfall_from
  shortfall ds = shortfall_from none ds
