-- ===== src/Queue/Weekdays.antt =====
-- src/domain/queue.rs, `WeekDayMask`: a `u8` whose bit 0 is Monday and bit 6 is Sunday. A weekday is
-- its `num_days_from_monday`.
use Prim.Native.Nat.{bit_and, bit_or}
use oxdm.Prelude.{
  ℕ, zero, suc, ◌-◌, ◌/◌, ◌%◌, ◌^◌, ◌<◌, ◌≡◌, refl, Bool, true, false, ◌&&◌, arith, ◌==◌,
  if◌then◌else◌,
}

-- `WeekDayMask::ALL`, `WEEKDAYS`, `WEEKEND`.
abbrev pub every_day : ℕ
every_day = 0b0111_1111

abbrev pub weekdays : ℕ
weekdays = 0b0001_1111

abbrev pub weekend : ℕ
weekend = 0b0110_0000

unfoldable pub contains_day : ℕ → ℕ → Bool
contains_day mask bit = (mask / 2 ^ bit) % 2 == 1

-- `!(1 << bit)` on a `u8` is 255 - 2 ^ bit.
unfoldable pub set_day : ℕ → ℕ → Bool → ℕ
set_day mask bit on = if on then bit_or mask (2 ^ bit) else bit_and mask (255 - 2 ^ bit)

all_below : ℕ → (ℕ → Bool) → Bool
all_below zero p = true
all_below (suc n) p = p n && all_below n p

all_below-holds : (n : ℕ) (p : ℕ → Bool) (x : ℕ) → all_below n p ≡ true → x < n → p x ≡ true
unfolding all_below
all_below-holds zero p x h lt = absurd (omega arith)
all_below-holds (suc n) p x h lt = ground (arith, all_below-holds n p x)

Bool_eq : Bool → Bool → Bool
Bool_eq true b = b
Bool_eq false b = if b then false else true

Bool_eq_sound : (a b : Bool) → Bool_eq a b ≡ true → a ≡ b
unfolding Bool_eq
Bool_eq_sound a b h = ground arith

-- One mask at one pair of days, and for both values of `on`.
agrees : ℕ → ℕ → ℕ → Bool
agrees e d mask =
    Bool_eq (contains_day (set_day mask d true) e) (if d == e then true else contains_day mask e)
    && Bool_eq (contains_day (set_day mask d false) e)
        (if d == e then false else contains_day mask e)

table : all_below 7 (λ e. all_below 7 (λ d. all_below 256 (agrees e d))) ≡ true
unfolding all_below agrees contains_day set_day Bool_eq
table = refl

agrees_everywhere : (mask d e : ℕ) → mask < 256 → d < 7 → e < 7 → agrees e d mask ≡ true
agrees_everywhere mask d e m hd he =
    all_below-holds 256 (agrees e d) mask
      (all_below-holds 7 (λ d. all_below 256 (agrees e d)) d
        (all_below-holds 7 (λ e. all_below 7 (λ d. all_below 256 (agrees e d))) e table he) hd)
      m

-- Switching one weekday of a mask on or off makes that day answer so, and leaves the answer of
-- every other weekday as it was.
pub contains_day-set_day :
    (mask d e : ℕ) (on : Bool)
    → mask < 256
    → d < 7
    → e < 7
    → contains_day (set_day mask d on) e ≡ (if d == e then on else contains_day mask e)
contains_day-set_day mask d e true m hd he =
    Bool_eq_sound _ _ (unfold agrees in (ground (arith, agrees_everywhere mask d e m hd he)))
contains_day-set_day mask d e false m hd he =
    Bool_eq_sound _ _ (unfold agrees in (ground (arith, agrees_everywhere mask d e m hd he)))
