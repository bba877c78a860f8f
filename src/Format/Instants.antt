-- ===== src/Format/Instants.antt =====
-- crates/nanochrono-core/src/format.rs: the text of a UTC instant read back.
use nanochronometer.Common.{ℕ, ◌^◌, ◌<◌, ◌≤◌, ◌≡◌, List, [], ◌∷◌, ◌++◌, arith, refl, ap, ◌∙◌}
use nanochronometer.Common.Int.{pos, ◌+ℤ◌, ◌*ℤ◌}
use nanochronometer.Common.Decimal.{pad}
use nanochronometer.Format.{format_unix_utc, civil_from_unix_ns, adjusted_ns}
use nanochronometer.Format.Elapsed.{read_fields, read_fields-pad, read_fields-end}
use nanochronometer.Format.Calendar.{days_before_year_closed, month_length, leap_day}
use nanochronometer.Format.Civil.{civil_from_unix_ns-IsValid, instant-civil_from_unix_ns}
use mathlib.Core.List.{append_assoc}

adjusted_ns-utc : (unix_ns : ℕ) → adjusted_ns unix_ns (pos 0) ≡ unix_ns
unfolding adjusted_ns ◌+ℤ◌ ◌*ℤ◌
adjusted_ns-utc unix_ns = ground arith

year_bound : (unix_ns : ℕ) → unix_ns < 2 ^ 64 → (civil_from_unix_ns unix_ns (pos 0)).year < 10 ^ 20
year_bound unix_ns h =
    let c = civil_from_unix_ns unix_ns (pos 0) in
    omega (
      arith,
      adjusted_ns-utc unix_ns,
      instant-civil_from_unix_ns unix_ns (pos 0),
      days_before_year_closed c.year,
    )

days_in_month : (y m : ℕ) → month_length y m ≤ 31
unfolding month_length leap_day
days_in_month y m = ground arith

abbrev byte_then : ℕ → List ℕ → List ℕ → List ℕ
byte_then c text rest = text ++ (c ∷ rest)

text_of_fields :
    (unix_ns : ℕ)
    → let c = civil_from_unix_ns unix_ns (pos 0) in
      format_unix_utc unix_ns
      ≡ byte_then b'-' (pad 4 c.year) (
          byte_then b'-' (pad 2 c.month) (
            byte_then b' ' (pad 2 c.day) (
              byte_then b':' (pad 2 c.hour) (
                byte_then b':'
                  (pad 2 c.minute)
                  (byte_then b'.' (pad 2 c.second) (byte_then b'Z' (pad 9 c.nanosecond) []))))))
unfolding format_unix_utc
text_of_fields unix_ns = simp append_assoc

-- For a u64 instant, the seven numbers of its UTC text read back to the civil fields.
pub read_fields-format_unix_utc :
    (unix_ns : ℕ)
    → unix_ns < 2 ^ 64
    → let c = civil_from_unix_ns unix_ns (pos 0) in
      read_fields 7 (format_unix_utc unix_ns)
      ≡ c.year ∷ c.month ∷ c.day ∷ c.hour ∷ c.minute ∷ c.second ∷ c.nanosecond ∷ []
read_fields-format_unix_utc unix_ns h =
    let c = civil_from_unix_ns unix_ns (pos 0) in
    let ok = civil_from_unix_ns-IsValid unix_ns (pos 0) in
    let days = days_in_month c.year c.month in
    let year = year_bound unix_ns h in
    ap (read_fields 7) (text_of_fields unix_ns)
    ∙ read_fields-pad _ _ _ _ _ _ year refl (
        read_fields-pad _ _ _ _ _ _ (omega (arith, ok)) refl (
          read_fields-pad _ _ _ _ _ _ (omega (arith, ok, days)) refl (
            read_fields-pad _ _ _ _ _ _ (omega (arith, ok)) refl (
              read_fields-pad _ _ _ _ _ _ (omega (arith, ok)) refl (
                read_fields-pad _ _ _ _ _ _ (omega (arith, ok)) refl
                  (read_fields-pad _ _ _ _ _ _ (omega (arith, ok)) refl (read_fields-end [])))))))
