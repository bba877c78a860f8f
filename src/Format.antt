-- ===== src/Format.antt =====
-- crates/nanochrono-core/src/format.rs: elapsed durations and civil dates as text. A text is the
-- list of its bytes. The offset of the machine's own zone comes from the operating system, so it is
-- the argument `local_offset`. Past `max(0)` every quantity is a natural number, and `div_euclid`
-- and `rem_euclid` are `/` and `%`; the largest instant keeps every cast to i64 and u32 exact.
pub mod Elapsed
pub mod Calendar
pub mod Civil
pub mod Instants
mod Runs
use nanochronometer.Common.{
  ℕ, ◌+◌, ◌-◌, ◌*◌, ◌/◌, ◌%◌, Bool, true, false, List, [], ◌∷◌, ◌++◌, ltb, leb, if◌then◌else◌,
  get_or, max,
}
use nanochronometer.Common.Decimal.{pad}
use nanochronometer.Common.Int.{ℤ, pos, negsuc, pos_part, neg_part, ◌+ℤ◌, ◌*ℤ◌, ltb_ℤ}
use Prim.Native.Char.{Char, code}
use Prim.Native.String
use Prim.Native.String.{String}

-- The bytes of an ASCII text.
abbrev pub codes : String → List ℕ
codes String.[] = []
codes (String.◌∷◌ c s) = code c ∷ codes s

pub data TimeZoneMode : Type 0 where
  local utc : TimeZoneMode
  custom_offset : ℤ → TimeZoneMode

abbrev pub zone_name : TimeZoneMode → String
zone_name local = "local"
zone_name utc = "utc"
zone_name (custom_offset m) = "utc-offset"

-- `offset_minutes`
abbrev pub offset_minutes : (ℕ → ℤ) → TimeZoneMode → ℕ → ℤ
offset_minutes local_offset local unix_ns = local_offset unix_ns
offset_minutes local_offset utc unix_ns = pos 0
offset_minutes local_offset (custom_offset m) unix_ns = m

pub data DetailMode : Type 0 where
  simple nano : DetailMode

abbrev pub detail_name : DetailMode → String
detail_name simple = "simple"
detail_name nano = "nano"

pub record CivilTime : Type 0 where
  pub year : ℕ
  pub month : ℕ
  pub day : ℕ
  pub hour : ℕ
  pub minute : ℕ
  pub second : ℕ
  pub nanosecond : ℕ
  pub weekday : ℕ

abbrev pub weekday_names : List String
weekday_names =
    "SUNDAY" ∷ "MONDAY" ∷ "TUESDAY" ∷ "WEDNESDAY" ∷ "THURSDAY" ∷ "FRIDAY" ∷ "SATURDAY" ∷ []

abbrev pub month_names : List String
month_names =
    "JANUARY" ∷ "FEBRUARY" ∷ "MARCH" ∷ "APRIL" ∷ "MAY" ∷ "JUNE" ∷ "JULY" ∷ "AUGUST" ∷ "SEPTEMBER"
    ∷ "OCTOBER" ∷ "NOVEMBER" ∷ "DECEMBER" ∷ []

unfoldable pub weekday_name : CivilTime → String
weekday_name c = get_or weekday_names (c.weekday % 7) ""

unfoldable pub month_name : CivilTime → String
month_name c = get_or month_names ((max c.month 1 - 1) % 12) ""

-- `(unix_ns as i128 + offset_minutes as i128 * 60 * 1_000_000_000).max(0)`
unfoldable pub adjusted_ns : ℕ → ℤ → ℕ
unfolding ◌+ℤ◌ ◌*ℤ◌
adjusted_ns unix_ns offset = pos_part (pos unix_ns +ℤ offset *ℤ pos 60 *ℤ pos 1_000_000_000)

-- Hinnant's `civil_from_days`, in the names of the source.
abbrev pub year_of_era : ℕ → ℕ
year_of_era doe = (doe - doe / 1460 + doe / 36524 - doe / 146_096) / 365

abbrev pub day_of_year : ℕ → ℕ
day_of_year doe = let yoe = year_of_era doe in doe - (365 * yoe + yoe / 4 - yoe / 100)

abbrev pub shifted_month : ℕ → ℕ
shifted_month doy = (5 * doy + 2) / 153

unfoldable pub civil_from_unix_ns : ℕ → ℤ → CivilTime
unfolding adjusted_ns
civil_from_unix_ns unix_ns offset =
    let adjusted = adjusted_ns unix_ns offset in
    let total_secs = adjusted / 1_000_000_000 in
    let days = total_secs / 86_400 in
    let secs_of_day = total_secs % 86_400 in
    let z = days + 719_468 in
    let era = z / 146_097 in
    let doe = z % 146_097 in
    let y = year_of_era doe + era * 400 in
    let doy = day_of_year doe in
    let mp = shifted_month doy in
    let month = if ltb mp 10 then mp + 3 else mp - 9 in
    record {
      year = if leb month 2 then y + 1 else y;
      month = month;
      day = doy - (153 * mp + 2) / 5 + 1;
      hour = secs_of_day / 3600;
      minute = secs_of_day / 60 % 60;
      second = secs_of_day % 60;
      nanosecond = adjusted % 1_000_000_000;
      weekday = (days + 4) % 7;
    }

-- `{a}:{rest}`
abbrev pub colon : List ℕ → List ℕ → List ℕ
colon a rest = a ++ (b':' ∷ rest)

unfoldable pub format_elapsed_nano : ℕ → List ℕ
format_elapsed_nano ns = colon (pad 2 (ns / 3_600_000_000_000)) (
    colon (pad 2 (ns / 60_000_000_000 % 60)) (
      colon (pad 2 (ns / 1_000_000_000 % 60)) (
        colon (pad 3 (ns / 1_000_000 % 1_000))
          (colon (pad 3 (ns / 1_000 % 1_000)) (pad 3 (ns % 1_000))))))

unfoldable pub format_elapsed_simple : ℕ → List ℕ
format_elapsed_simple ns =
    let total_ms = ns / 1_000_000 in
    let total_s = total_ms / 1_000 in
    colon (pad 2 (total_s / 60)) (pad 2 (total_s % 60) ++ (b'.' ∷ pad 3 (total_ms % 1_000)))

unfoldable pub format_elapsed : ℕ → DetailMode → List ℕ
unfolding format_elapsed_simple format_elapsed_nano
format_elapsed ns simple = format_elapsed_simple ns
format_elapsed ns nano = format_elapsed_nano ns

-- `{:02}:{:02}:{:02}.{:09}` and, ahead of it, `{:04}-{:02}-{:02} `
abbrev pub clock_text : CivilTime → List ℕ
clock_text c = colon (pad 2 c.hour) (colon (pad 2 c.minute) (pad 2 c.second))

abbrev pub clock_text_nano : CivilTime → List ℕ
clock_text_nano c = clock_text c ++ (b'.' ∷ pad 9 c.nanosecond)

abbrev pub date_text : CivilTime → List ℕ
date_text c = pad 4 c.year ++ (b'-' ∷ pad 2 c.month ++ (b'-' ∷ pad 2 c.day))

unfoldable pub format_unix_utc : ℕ → List ℕ
format_unix_utc unix_ns =
    let c = civil_from_unix_ns unix_ns (pos 0) in
    date_text c ++ (b' ' ∷ clock_text_nano c) ++ (b'Z' ∷ [])

-- `UTC{sign}{:02}:{:02}` of the absolute value.
unfoldable pub format_offset : ℤ → List ℕ
format_offset offset =
    let sign = if ltb_ℤ offset (pos 0) then b'-' else b'+' in
    let abs = pos_part offset + neg_part offset in
    codes "UTC" ++ (sign ∷ colon (pad 2 (abs / 60)) (pad 2 (abs % 60)))

abbrev pub zone_suffix : TimeZoneMode → ℤ → List ℕ
zone_suffix utc offset = b'Z' ∷ []
zone_suffix local offset = format_offset offset
zone_suffix (custom_offset m) offset = format_offset offset

module _ (local_offset : ℕ → ℤ) where
  unfoldable pub format_unix_zoned : ℕ → TimeZoneMode → List ℕ
  unfolding format_offset
  format_unix_zoned unix_ns mode =
      let offset = offset_minutes local_offset mode unix_ns in
      let c = civil_from_unix_ns unix_ns offset in
      date_text c ++ (b' ' ∷ clock_text_nano c) ++ (b' ' ∷ zone_suffix mode offset)

  unfoldable pub format_clock_face : ℕ → TimeZoneMode → Bool → List ℕ
  format_clock_face unix_ns mode fractional =
      let c = civil_from_unix_ns unix_ns (offset_minutes local_offset mode unix_ns) in
      if fractional then clock_text_nano c else clock_text c

  unfoldable pub format_long_date : ℕ → TimeZoneMode → List ℕ
  unfolding weekday_name month_name
  format_long_date unix_ns mode =
      let c = civil_from_unix_ns unix_ns (offset_minutes local_offset mode unix_ns) in
      codes (weekday_name c)
      ++ codes ", "
      ++ codes (month_name c)
      ++ (b' ' ∷ pad 2 c.day ++ codes ", " ++ pad 4 c.year)
