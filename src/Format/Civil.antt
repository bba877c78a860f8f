-- ===== src/Format/Civil.antt =====
-- crates/nanochrono-core/src/format.rs: civil fields against the calendar.
use nanochronometer.Common.{
  ℕ, ◌+◌, ◌-◌, ◌*◌, ◌/◌, ◌%◌, ◌≤◌, ◌<◌, ◌≡◌, ◌⊎◌, inl, inr, true, false, if◌then◌else◌, arith, refl,
  ap, ◌∙◌, ltb, leb, Bool-cases,
}
use nanochronometer.Format.{
  civil_from_unix_ns, adjusted_ns, CivilTime, year_of_era, day_of_year, shifted_month,
}
use nanochronometer.Format.Calendar.{
  leap_day, month_length, days_before_month, day_number, leap_count, days_before_year_closed,
  days_before_month_march,
}
use nanochronometer.Common.Int.{ℤ}

-- Day `doe` of a 400-year era is day `day_of_year doe` of its year `year_of_era doe`, both counted
-- from March.
day_of_era-split :
    (doe : ℕ)
    → doe < 146_097
    → let yoe = year_of_era doe in
      (yoe < 400)
      × (doe ≡ 365 * yoe + yoe / 4 - yoe / 100 + day_of_year doe)
      × (day_of_year doe < 365 + leap_day (yoe + 1))
unfolding leap_day
day_of_era-split doe h = ground arith

leap_day-era : (y era : ℕ) → leap_day (y + era * 400) ≡ leap_day y
unfolding leap_day
leap_day-era y era = ground arith

abbrev month_of : ℕ → ℕ
month_of mp = if ltb mp 10 then mp + 3 else mp - 9

abbrev day_of : ℕ → ℕ
day_of doy = doy - (153 * shifted_month doy + 2) / 5 + 1

abbrev year_of : ℕ → ℕ → ℕ
year_of y m = if leb m 2 then y + 1 else y

-- `day` of the month from March `mp` is day `doy` of the year from March.
spring_days :
    (y mp doy : ℕ)
    → mp < 10
    → mp ≡ shifted_month doy
    → (day_of doy ≤ month_length y (mp + 3))
      × (day_number y (mp + 3) (day_of doy) ≡ 365 * y + y / 4 - y / 100 + y / 400 + doy + 60)
unfolding month_length
spring_days y mp doy small same =
    let total : day_number y (mp + 3) (day_of doy)
        ≡ 365 * y + y / 4 - y / 100 + y / 400 + doy + 60 =
      omega (arith, days_before_year_closed y, leap_count y, days_before_month_march y mp small) in
    (ground arith, total)

january : (y : ℕ) → days_before_month y 1 ≡ 0
unfolding days_before_month
january y = refl

february : (y : ℕ) → days_before_month y 2 ≡ 31
unfolding days_before_month month_length
february y = refl

leap_day-le : (y : ℕ) → leap_day y ≤ 1
unfolding leap_day
leap_day-le y = ground arith

winter_cases :
    (y doy : ℕ)
    → ltb (shifted_month doy) 10 ≡ false
    → doy < 365 + leap_day (y + 1)
    → (shifted_month doy ≡ 10) ⊎ (shifted_month doy ≡ 11)
winter_cases y doy late h =
    let below : doy < 366 = omega (arith, leap_day-le (y + 1)) in
    let above : 9 < shifted_month doy = ground arith in
    elim (Bool-cases (ltb (shifted_month doy) 11)) [
      | inl a ↦ inl (ground arith)
      | inr b ↦ inr (ground arith)
    ]

winter_days :
    (y doy : ℕ)
    → ltb (shifted_month doy) 10 ≡ false
    → doy < 365 + leap_day (y + 1)
    → let month = shifted_month doy - 9 in
      (1 ≤ month)
      × (month ≤ 2)
      × (day_of doy ≤ month_length (y + 1) month)
      × (day_number (y + 1) month (day_of doy) ≡ 365 * y + y / 4 - y / 100 + y / 400 + doy + 60)
unfolding month_length
winter_days y doy late h = elim (winter_cases y doy late h) [
  | inl ten ↦ (
    omega arith,
    omega arith,
    rw ten (omega arith),
    rw (ten, january (y + 1)) (omega (arith, days_before_year_closed (y + 1))),
  )
  | inr eleven ↦ (
    omega arith,
    omega arith,
    rw eleven (omega arith),
    rw (eleven, february (y + 1)) (omega (arith, days_before_year_closed (y + 1))),
  )
]

-- Day `doy` from March of year `y` is the day of the calendar date that the code makes of it.
date_of_march :
    (y doy : ℕ)
    → doy < 365 + leap_day (y + 1)
    → let month = month_of (shifted_month doy) in
      let year = year_of y month in
      (1 ≤ month)
      × (month ≤ 12)
      × (1 ≤ day_of doy)
      × (day_of doy ≤ month_length year month)
      × (day_number year month (day_of doy) ≡ 365 * y + y / 4 - y / 100 + y / 400 + doy + 60)
date_of_march y doy h = elim (Bool-cases (ltb (shifted_month doy) 10)) [
  | inl spring ↦
      let small : shifted_month doy < 10 = ground arith in
      let same : leb (shifted_month doy + 3) 2 ≡ false = ground arith in
      let days = spring_days y (shifted_month doy) doy small refl in
      rw (spring, same) (omega arith, omega arith, omega arith, days.0, days.1)
  | inr winter ↦
      let days = winter_days y doy winter h in
      let next : leb (shifted_month doy - 9) 2 ≡ true = ground arith in
      rw (winter, next) (days.0, omega arith, omega arith, days.2, days.3)
]

era_days :
    (era doe : ℕ)
    → doe < 146_097
    → let yoe = year_of_era doe in
      let y = yoe + era * 400 in
      (day_of_year doe < 365 + leap_day (y + 1))
      × (365 * y + y / 4 - y / 100 + y / 400 + day_of_year doe ≡ era * 146_097 + doe)
era_days era doe h =
    let split = day_of_era-split doe h in
    let yoe = year_of_era doe in
    let next : leap_day (yoe + era * 400 + 1) ≡ leap_day (yoe + 1) =
      ap leap_day (omega arith) ∙ leap_day-era (yoe + 1) era in
    (omega (arith, next, split), omega (arith, split))

-- The date of the day `days` from 1970-01-01.
date_of_days :
    (days : ℕ)
    → let doe = (days + 719_468) % 146_097 in
      let y = year_of_era doe + (days + 719_468) / 146_097 * 400 in
      let doy = day_of_year doe in
      let month = month_of (shifted_month doy) in
      let year = year_of y month in
      (1 ≤ month)
      × (month ≤ 12)
      × (1 ≤ day_of doy)
      × (day_of doy ≤ month_length year month)
      × (day_number year month (day_of doy) ≡ days + 719_528)
date_of_days days =
    let z = days + 719_468 in
    let doe = z % 146_097 in
    let at = era_days (z / 146_097) doe (omega arith) in
    let date = date_of_march (year_of_era doe + z / 146_097 * 400) (day_of_year doe) at.0 in
    (date.0, date.1, date.2, date.3, date.4 ∙ omega (arith, at.1))

-- The fields of a date and a time of day are in range, the day within its month's length.
abbrev pub IsValid : CivilTime → Type 0
IsValid c =
    (1 ≤ c.month)
    × (c.month ≤ 12)
    × (1 ≤ c.day)
    × (c.day ≤ month_length c.year c.month)
    × (c.hour < 24)
    × (c.minute < 60)
    × (c.second < 60)
    × (c.nanosecond < 1_000_000_000)

-- Nanoseconds from 0000-01-01 to the instant that the fields name.
abbrev pub instant : CivilTime → ℕ
instant c =
    (((day_number c.year c.month c.day * 24 + c.hour) * 60 + c.minute) * 60 + c.second)
      * 1_000_000_000
    + c.nanosecond

-- Every field is in range, for every instant and offset: the month from 1 to 12, the day within
-- the length of its month, and the time of day within a day.
pub civil_from_unix_ns-IsValid :
    (unix_ns : ℕ) (offset : ℤ) → IsValid (civil_from_unix_ns unix_ns offset)
unfolding civil_from_unix_ns
civil_from_unix_ns-IsValid unix_ns offset =
    let secs = adjusted_ns unix_ns offset / 1_000_000_000 in
    let date = date_of_days (secs / 86_400) in
    (date.0, date.1, date.2, date.3, omega arith, omega arith, omega arith, omega arith)

-- Counted from 0000-01-01 by the rules of the calendar, the civil fields name the Unix instant
-- shifted by the offset, or 1970-01-01 where the shift would go below it, 719,528 days on.
pub instant-civil_from_unix_ns :
    (unix_ns : ℕ) (offset : ℤ)
    → instant (civil_from_unix_ns unix_ns offset)
      ≡ 719_528 * 86_400 * 1_000_000_000 + adjusted_ns unix_ns offset
unfolding civil_from_unix_ns
instant-civil_from_unix_ns unix_ns offset =
    let secs = adjusted_ns unix_ns offset / 1_000_000_000 in
    let date = date_of_days (secs / 86_400) in omega (arith, date.4)

-- The weekday follows the dates: 0000-01-01 falls on a Saturday, day 6.
pub weekday-civil_from_unix_ns :
    (unix_ns : ℕ) (offset : ℤ)
    → let c = civil_from_unix_ns unix_ns offset in
      c.weekday ≡ (day_number c.year c.month c.day + 6) % 7
unfolding civil_from_unix_ns
weekday-civil_from_unix_ns unix_ns offset =
    let date = date_of_days (adjusted_ns unix_ns offset / 1_000_000_000 / 86_400) in
    omega (arith, date.4)
