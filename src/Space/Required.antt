-- ===== src/Space/Required.antt =====
-- What each volume is charged for, against the plain sum over the downloads.
use oxdm.Prelude.{
  ℕ, ◌+◌, ◌-◌, ◌≤◌, ◌≡◌, none, some, List, [], ◌∷◌, arith, ltb, ◌==◌, if◌then◌else◌, Option-cases,
  inl, inr,
}
use native.Mathlib.Nat.{zero-add}
use oxdm.Space.{Need, Demand, u64_max, charge, charge_need, charge_all, required_by_volume}

-- The bytes charged to a volume.
abbrev pub charged : ℕ → List Demand → ℕ
charged v [] = 0
charged v (d ∷ ds) = if d.volume == v then d.bytes else charged v ds

abbrev pub capped : ℕ → ℕ
capped n = if ltb u64_max n then u64_max else n

module _ (volume : List ℕ → ℕ) where
  abbrev pub bytes_at : ℕ → List ℕ → ℕ → ℕ
  bytes_at v dir bytes = if volume dir == v then bytes else 0

  -- What one download wants of a volume: the parts that are left, and the whole file.
  abbrev pub wanted : ℕ → Need → ℕ
  wanted v n = elim n.total [
    | none ↦ 0
    | some total ↦ bytes_at v n.work_dir (total - n.downloaded) + bytes_at v n.save_dir total
  ]

  abbrev pub wanted_by_all : ℕ → List Need → ℕ
  wanted_by_all v [] = 0
  wanted_by_all v (n ∷ ns) = wanted v n + wanted_by_all v ns

  charged-charge :
      (v : ℕ) (dir : List ℕ) (bytes : ℕ) (ds : List Demand)
      → charged v ds ≤ u64_max
      → charged v (charge volume dir bytes ds) ≡ capped (charged v ds + bytes_at v dir bytes)
  unfolding charge
  charged-charge v dir bytes [] h = ground arith
  charged-charge v dir bytes (d ∷ ds) h = ground (arith, charged-charge v dir bytes ds)

  charged-charge_need :
      (v : ℕ) (n : Need) (ds : List Demand)
      → charged v ds ≤ u64_max
      → charged v (charge_need volume n ds) ≡ capped (charged v ds + wanted v n)
  unfolding charge_need
  charged-charge_need v n ds h = elim (Option-cases n.total) [
    | inl e ↦ rw e (ground arith)
    | inr (total, e) ↦
        let left = total - n.downloaded in
        let out = charge volume n.work_dir left ds in
        rw e (
          ground
            (arith, charged-charge v n.work_dir left ds h, charged-charge v n.save_dir total out))
  ]

  charged-charge_all :
      (v : ℕ) (ns : List Need) (ds : List Demand)
      → charged v ds ≤ u64_max
      → charged v (charge_all volume ns ds) ≡ capped (charged v ds + wanted_by_all v ns)
  unfolding charge_all
  charged-charge_all v [] ds h = ground arith
  charged-charge_all v (n ∷ ns) ds h =
      ground
        (arith, charged-charge_need v n ds h, charged-charge_all v ns (charge_need volume n ds))

  -- Each volume is charged for what all the downloads together want of it, the parts still to come
  -- and the assembled files, however the folders share volumes; the sum stops at the largest `u64`.
  pub charged-required_by_volume :
      (v : ℕ) (needs : List Need)
      → charged v (required_by_volume volume needs) ≡ capped (wanted_by_all v needs)
  unfolding required_by_volume
  charged-required_by_volume v needs =
      simp zero-add at (charged-charge_all v needs [] (omega arith))
