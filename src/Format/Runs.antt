-- ===== src/Format/Runs.antt =====
-- Texts and dates at concrete inputs: tests, and the theorems applied.
use nanochronometer.Common.{◌≡◌, refl, arith, ◌+◌, ◌*◌, [], ◌∷◌}
use nanochronometer.Common.Int.{pos, negsuc}
use nanochronometer.Common.Decimal.{pad}
use nanochronometer.Format.{
  civil_from_unix_ns, adjusted_ns, format_elapsed_nano, format_elapsed_simple, format_unix_utc,
  codes, format_offset,
}
use nanochronometer.Format.Civil.{instant, instant-civil_from_unix_ns}
use nanochronometer.Format.Elapsed.{
  read_fields, weigh, nano_weights, read_fields-format_elapsed_nano,
}
use nanochronometer.Format.Instants.{read_fields-format_unix_utc}

instant-civil_from_unix_ns_example :
    instant (civil_from_unix_ns 1_709_209_496_000_000_789 (negsuc 179))
    ≡ 719_528 * 86_400 * 1_000_000_000 + adjusted_ns 1_709_209_496_000_000_789 (negsuc 179)
instant-civil_from_unix_ns_example =
    instant-civil_from_unix_ns 1_709_209_496_000_000_789 (negsuc 179)

read_fields-format_elapsed_nano_example :
    weigh nano_weights (read_fields 6 (format_elapsed_nano 3_723_456_789_123)) ≡ 3_723_456_789_123
read_fields-format_elapsed_nano_example =
    read_fields-format_elapsed_nano 3_723_456_789_123 (omega arith)

read_fields-format_unix_utc_example :
    let c = civil_from_unix_ns 1_709_209_496_000_000_789 (pos 0) in
    read_fields 7 (format_unix_utc 1_709_209_496_000_000_789)
    ≡ c.year ∷ c.month ∷ c.day ∷ c.hour ∷ c.minute ∷ c.second ∷ c.nanosecond ∷ []
read_fields-format_unix_utc_example =
    read_fields-format_unix_utc 1_709_209_496_000_000_789 (omega arith)

-- The texts of the source's own tests.
nano_text : format_elapsed_nano 3_723_456_789_123 ≡ codes "01:02:03:456:789:123"
unfolding format_elapsed_nano pad
nano_text = refl

simple_text : format_elapsed_simple 83_456_000_000 ≡ codes "01:23.456"
unfolding format_elapsed_simple pad
simple_text = refl

leap_day_text : format_unix_utc 1_709_209_496_000_000_789 ≡ codes "2024-02-29 12:24:56.000000789Z"
unfolding format_unix_utc civil_from_unix_ns pad
leap_day_text = refl

offset_text : format_offset (negsuc 179) ≡ codes "UTC-03:00"
unfolding format_offset pad
offset_text = refl
