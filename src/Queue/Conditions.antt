-- ===== src/Queue/Conditions.antt =====
-- src/domain/queue.rs, the condition builder (`CondCommand`, `CondCombine`, `CondKind`, `CondSet`),
-- and src/data/conditions.rs: which conditions a host answers, and one tick's probe results.
-- A `Duration` is a count of nanoseconds.
use oxdm.Prelude.{
  ℕ, ◌*◌, Bool, true, false, Option, none, some, List, [], ◌∷◌, ◌++◌, leb, if◌then◌else◌, filter,
  any, all,
}

abbrev pub second : ℕ
second = 1_000_000_000

pub record CondCommand : Type 0 where
  pub cmd : List ℕ
  pub interval_secs : ℕ  -- u32

pub data CondCombine : Type 0 where
  all_of any_of : CondCombine

pub data CondKind : Type 0 where
  job_added unmetered idle ac_power command : CondKind

abbrev pub same_kind : CondKind → CondKind → Bool
same_kind job_added job_added = true
same_kind unmetered unmetered = true
same_kind idle idle = true
same_kind ac_power ac_power = true
same_kind command command = true
same_kind _ _ = false

abbrev pub contains_kind : List CondKind → CondKind → Bool
contains_kind ks k = any (same_kind k) ks

-- `CondKind::SUPPORTED`, one list for each platform that the build distinguishes.
pub data Platform : Type 0 where
  linux windows macos other_unix other : Platform

unfoldable pub supported : Platform → List CondKind
supported linux = job_added ∷ unmetered ∷ idle ∷ ac_power ∷ command ∷ []
supported windows = job_added ∷ unmetered ∷ idle ∷ ac_power ∷ command ∷ []
supported macos = job_added ∷ idle ∷ command ∷ []
supported other_unix = job_added ∷ command ∷ []
supported other = job_added ∷ []

pub record CondSupport : Type 0 where
  pub unmetered : Bool
  pub ac_power : Bool
  pub idle : Bool

abbrev answers : CondSupport → CondKind → Bool
answers s job_added = true
answers s unmetered = s.unmetered
answers s ac_power = s.ac_power
answers s idle = s.idle
answers s command = true

unfoldable pub available_conditions : Platform → CondSupport → List CondKind
unfolding supported
available_conditions p s = filter (answers s) (supported p)

pub record CondSet : Type 0 where
  pub combine : CondCombine
  pub unmetered : Bool
  pub ac_power : Bool
  pub idle_minutes : Option ℕ  -- u16
  pub command : Option CondCommand
  pub on_job_added : Bool

abbrev pub is_some {ℓ} : {A : Type ℓ} → Option A → Bool
is_some none = false
is_some (some _) = true

-- `if c { v.push(k); }`
abbrev push_if : Bool → CondKind → List CondKind
push_if true k = k ∷ []
push_if false k = []

-- `CondSet::enabled`, in the builder's display order.
unfoldable pub enabled : CondSet → List CondKind
enabled s =
    push_if s.on_job_added job_added
    ++ (push_if s.unmetered unmetered
        ++ (push_if (is_some s.idle_minutes) idle
            ++ (push_if s.ac_power ac_power ++ push_if (is_some s.command) command)))

abbrev pub combine_verdicts : CondCombine → (CondKind → Bool) → List CondKind → Bool
combine_verdicts all_of verdict ks = all verdict ks
combine_verdicts any_of verdict ks = any verdict ks

-- The end of `CondSet::holds`: no live condition is `false`, whatever the combination.
abbrev pub judge : CondCombine → (CondKind → Bool) → List CondKind → Bool
judge c verdict [] = false
judge c verdict (k ∷ ks) = combine_verdicts c verdict (k ∷ ks)

-- `CondSet::holds`: only what is enabled and available takes part.
unfoldable pub holds : CondSet → List CondKind → (CondKind → Bool) → Bool
unfolding enabled
holds s available verdict = judge s.combine verdict (filter (contains_kind available) (enabled s))

-- One tick's shared probe results; `none` is a probe that failed or was not asked.
pub record CondSnapshot : Type 0 where
  pub unmetered : Option Bool
  pub on_ac : Option Bool
  pub idle : Option ℕ

abbrev is_some_true : Option Bool → Bool
is_some_true (some true) = true
is_some_true _ = false

unfoldable pub snapshot_unmetered : CondSnapshot → Bool
snapshot_unmetered c = is_some_true c.unmetered

unfoldable pub snapshot_on_ac : CondSnapshot → Bool
snapshot_on_ac c = is_some_true c.on_ac

abbrev at_least : Option ℕ → ℕ → Bool
at_least none d = false
at_least (some i) d = leb d i

-- `CondSnapshot::idle_at_least`: the minutes are widened to `u64`, so the product is exact.
unfoldable pub idle_at_least : CondSnapshot → ℕ → Bool
idle_at_least c minutes = at_least c.idle (minutes * 60 * second)

-- `CondSnapshot::default()`.
abbrev pub no_readings : CondSnapshot
no_readings = record { unmetered = none; on_ac = none; idle = none }

-- `probe`: the three readings are the operating system's, and are asked for only where needed.
unfoldable pub probe : List CondKind → Option Bool → Option Bool → Option ℕ → CondSnapshot
probe needed network_unmetered on_ac_power idle_for = record {
  unmetered = if contains_kind needed unmetered then network_unmetered else none;
  on_ac = if contains_kind needed ac_power then on_ac_power else none;
  idle = if contains_kind needed idle then idle_for else none;
}
