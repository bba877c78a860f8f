-- ===== src/Chronometer/Runs.antt =====
-- The calibrated counter at concrete inputs: the theorems applied.
use nanochronometer.Common.{ℕ, ◌≡◌, arith, ◌+◌, ◌*◌, ◌<◌, ◌≤◌, List, [], ◌∷◌, true, wrapping_sub}
use nanochronometer.Redundancy.Integrity.{clean, IntegrityStats}
use nanochronometer.Redundancy.Protected
use nanochronometer.Redundancy.Protected.Repair.{Recoverable}
use nanochronometer.Redundancy.Protected.Tolerance.{inject_flip-Recoverable}
use nanochronometer.Chronometer.{
  Chronometer, Floats, hz, nanos_per_second, accept_window, elapsed_ns, scale_units,
}
use nanochronometer.Chronometer.Elapsed.{Stands, elapsed_ns-Stands}
use nanochronometer.Chronometer.Calibrate.{accept_window_rate}

abbrev no_counts : IntegrityStats
no_counts = record { checks = 0; ecc_corrections = 0; tmr_corrections = 0; unrecoverable_count = 0 }

-- A drift estimate that is not computed.
abbrev no_floats : Floats (Unit {0})
no_floats = record { of_u64 = λ n. tt; sub = λ x y. tt; div = λ x y. tt; mul = λ x y. tt }

-- A counter of 3 GHz that started at 500, with a flipped bit in each stored word.
abbrev damaged : Chronometer (Unit {0})
damaged = record {
  counter_hz = Protected.inject_flip (Protected.new 3_000_000_000) 31;
  start_units = Protected.inject_flip (Protected.new 500) 2;
  start_ns = 0;
  window_units = 500;
  window_ns = 0;
  drift_ppm = tt;
  overhead_units = 0;
  last_integrity = clean;
}

abbrev three_ghz : Chronometer (Unit {0})
three_ghz = record damaged {
  counter_hz = Protected.new 3_000_000_000;
  start_units = Protected.new 500;
}

damaged-Stands : Stands damaged 3_000_000_000 500
damaged-Stands = record {
  rate_kept = inject_flip-Recoverable 3_000_000_000 31;
  origin_kept = inject_flip-Recoverable 500 2;
}

elapsed_ns-Stands_example :
    (elapsed_ns ⦃fl = no_floats⦄ damaged 6_000_000_500 2_000_000_000 no_counts).0
    ≡ scale_units nanos_per_second 3_000_000_000 (wrapping_sub 6_000_000_500 500)
elapsed_ns-Stands_example =
    elapsed_ns-Stands ⦃fl = no_floats⦄ damaged 3_000_000_000 500 6_000_000_500 2_000_000_000
      no_counts damaged-Stands (omega arith)

abbrev still : ℕ
still = 0

abbrev moved : ℕ
moved = 5

abbrev early_polls : List ℕ
early_polls = 20 ∷ 99 ∷ []

accept_window_rate_example :
    ((accept_window three_ghz 24_000 10_000).0 ≡ true)
    × Recoverable
        (hz (accept_window three_ghz 24_000 10_000).1)
        (accept_window three_ghz 24_000 10_000).1.counter_hz
    × (hz (accept_window three_ghz 24_000 10_000).1 * 10_000 ≤ 24_000 * nanos_per_second)
    × (24_000 * nanos_per_second < (hz (accept_window three_ghz 24_000 10_000).1 + 1) * 10_000)
accept_window_rate_example =
    accept_window_rate three_ghz 24_000 10_000 (omega arith) (omega arith) (omega arith)
      (omega arith)
