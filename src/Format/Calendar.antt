-- ===== src/Format/Calendar.antt =====
-- The proleptic Gregorian calendar as its rules are stated, year by year and month by month: the
-- description that crates/nanochrono-core/src/format.rs is held against.
use nanochronometer.Common.{
  ℕ, zero, suc, ◌+◌, ◌-◌, ◌*◌, ◌/◌, ◌%◌, ◌<◌, ◌≡◌, Bool, ◌&&◌, ◌||◌, not, ◌==◌, if◌then◌else◌,
  arith, refl,
}

abbrev pub is_leap : ℕ → Bool
is_leap y = (y % 4 == 0) && (not (y % 100 == 0) || (y % 400 == 0))

unfoldable pub leap_day : ℕ → ℕ
leap_day y = if is_leap y then 1 else 0

-- Days from 0000-01-01 to the first day of the year.
unfoldable pub days_before_year : ℕ → ℕ
days_before_year zero = 0
days_before_year (suc y) = days_before_year y + (365 + leap_day y)

unfoldable pub month_length : ℕ → ℕ → ℕ
month_length y m =
    if m == 2
    then 28 + leap_day y
    else if (m == 4) || (m == 6) || (m == 9) || (m == 11)
    then 30
    else 31

-- Days from the first day of the year to the first day of the month, 1 to 12.
unfoldable pub days_before_month : ℕ → ℕ → ℕ
days_before_month y zero = 0
days_before_month y (suc zero) = 0
days_before_month y (suc (suc m)) = days_before_month y (suc m) + month_length y (suc m)

-- Days from 0000-01-01 to the date.
abbrev pub day_number : ℕ → ℕ → ℕ → ℕ
day_number y m d = days_before_year y + days_before_month y m + (d - 1)

-- The leap days of the years before `y`, and of the years up to it.
pub leap_count :
    (y : ℕ)
    → (y + 3) / 4 + (y + 399) / 400 + leap_day y + y / 100 ≡ y / 4 + y / 400 + 1 + (y + 99) / 100
unfolding leap_day
leap_count y = ground arith

pub days_before_year_closed :
    (y : ℕ) → days_before_year y + (y + 99) / 100 ≡ 365 * y + (y + 3) / 4 + (y + 399) / 400
unfolding days_before_year
days_before_year_closed zero = refl
days_before_year_closed (suc y) = omega (arith, days_before_year_closed y, leap_count y)

-- The months in the order that starts with March.
pub days_before_month_march :
    (y mp : ℕ) → mp < 10 → days_before_month y (mp + 3) ≡ 59 + leap_day y + (153 * mp + 2) / 5
unfolding days_before_month month_length
days_before_month_march y zero h = omega arith
days_before_month_march y (suc zero) h = omega arith
days_before_month_march y (suc (suc zero)) h = omega arith
days_before_month_march y (suc (suc (suc zero))) h = omega arith
days_before_month_march y (suc (suc (suc (suc zero)))) h = omega arith
days_before_month_march y (suc (suc (suc (suc (suc zero))))) h = omega arith
days_before_month_march y (suc (suc (suc (suc (suc (suc zero)))))) h = omega arith
days_before_month_march y (suc (suc (suc (suc (suc (suc (suc zero))))))) h = omega arith
days_before_month_march y (suc (suc (suc (suc (suc (suc (suc (suc zero)))))))) h = omega arith
days_before_month_march y (suc (suc (suc (suc (suc (suc (suc (suc (suc zero))))))))) h = omega arith
days_before_month_march y (suc (suc (suc (suc (suc (suc (suc (suc (suc (suc n)))))))))) h =
    absurd (omega arith)
