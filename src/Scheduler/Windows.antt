-- ===== src/Scheduler/Windows.antt =====
-- What a clock schedule's days and times come to: the scan of `daily_due` over yesterday and today
-- against every day there is.
use oxdm.Prelude.{
  ℕ, zero, suc, ◌+◌, ◌%◌, ◌≤◌, ◌<◌, ◌≡◌, ◌↔◌, ◌⊎◌, inl, inr, true, Option, none, some, arith, ltb,
  any, Bool-cases, ltb→lt, not_ltb,
}
use oxdm.Queue.{LocalTime, day}
use oxdm.Queue.Weekdays.{contains_day}
use oxdm.Scheduler.{daily_due, occurs_on, occurrence_length, scanned_days, moment}

-- The occurrence that starts on `date` is under way.
pub record UnderWay (start len days : ℕ) (now : LocalTime) (date : ℕ) : Type 0 where
  pub named : contains_day days (date % 7) ≡ true
  pub begun : moment date start ≤ moment now.date now.time
  pub unfinished : moment now.date now.time < moment date start + len

occurs_on-UnderWay :
    (start len days : ℕ) (now : LocalTime) (date : ℕ)
    → occurs_on start len days now date ≡ true
    → UnderWay start len days now date
unfolding occurs_on
occurs_on-UnderWay start len days now date h = record {
  named = ground arith;
  begun = ground arith;
  unfinished = ground arith;
}

UnderWay-occurs_on :
    (start len days : ℕ) (now : LocalTime) (date : ℕ)
    → UnderWay start len days now date
    → occurs_on start len days now date ≡ true
unfolding occurs_on
UnderWay-occurs_on start len days now date u = ground arith

scan-UnderWay :
    (start len days : ℕ) (now : LocalTime) (date : ℕ)
    → any (occurs_on start len days now) (scanned_days date) ≡ true
    → (d : ℕ) × UnderWay start len days now d
scan-UnderWay start len days now zero h =
    (zero, occurs_on-UnderWay start len days now zero (ground arith))
scan-UnderWay start len days now (suc d) h = elim (Bool-cases (occurs_on start len days now d)) [
  | inl hit ↦ (d, occurs_on-UnderWay start len days now d hit)
  | inr miss ↦ (suc d, occurs_on-UnderWay start len days now (suc d) (ground arith))
]

-- An occurrence no longer than a day that is under way started today or yesterday.
UnderWay-recent :
    (start len days : ℕ) (now : LocalTime) (d : ℕ)
    → start < day
    → len ≤ day
    → now.time < day
    → UnderWay start len days now d
    → (d ≡ now.date) ⊎ (suc d ≡ now.date)
UnderWay-recent start len days now d hs hl ht u = elim (Bool-cases (ltb d now.date)) [
  | inl old ↦ inr (omega (arith, ltb→lt d now.date old, u.begun, u.unfinished))
  | inr late ↦ inl (omega (arith, not_ltb d now.date late, u.begun, u.unfinished))
]

UnderWay-scan :
    (start len days : ℕ) (now : LocalTime) (date d : ℕ)
    → (d ≡ date) ⊎ (suc d ≡ date)
    → UnderWay start len days now d
    → any (occurs_on start len days now) (scanned_days date) ≡ true
UnderWay-scan start len days now zero d (inl e) u =
    ground (arith, UnderWay-occurs_on start len days now d u, e)
UnderWay-scan start len days now zero d (inr e) u = absurd (omega arith)
UnderWay-scan start len days now (suc e) d (inl here) u =
    ground (arith, UnderWay-occurs_on start len days now d u, here)
UnderWay-scan start len days now (suc e) d (inr before) u =
    ground (arith, UnderWay-occurs_on start len days now d u, before)

-- The stop time is a time of day, where there is one.
abbrev pub IsStop : Option ℕ → Type 0
IsStop none = Unit {0}
IsStop (some stop) = stop < day

occurrence_length_bound :
    (start : ℕ) (stop : Option ℕ) → start < day → IsStop stop → occurrence_length start stop ≤ day
unfolding occurrence_length
occurrence_length_bound start none h k = omega arith
occurrence_length_bound start (some stop) h k = ground arith

-- A recurring schedule whose times are times of day is due exactly when an occurrence of it, on
-- any day at all that the schedule names, has begun and has not yet lasted its length.
pub daily_due-UnderWay :
    (start : ℕ) (stop : Option ℕ) (days : ℕ) (now : LocalTime)
    → start < day
    → IsStop stop
    → now.time < day
    → (daily_due start stop days now ≡ true)
      ↔ ((d : ℕ) × UnderWay start (occurrence_length start stop) days now d)
unfolding daily_due
daily_due-UnderWay start stop days now hs hp ht = (
  scan-UnderWay start (occurrence_length start stop) days now now.date,
  λ p.
      UnderWay-scan start (occurrence_length start stop) days now now.date p.0
        (UnderWay-recent start (occurrence_length start stop) days now p.0 hs
          (occurrence_length_bound start stop hs hp) ht p.1)
        p.1,
)
