-- ===== src/Stopwatch/Runs.antt =====
-- The stopwatch at concrete inputs: tests, and the theorems applied.
use nanochronometer.Common.{◌≡◌, refl, some, [], saturating_add, wrapping_sub}
use nanochronometer.Redundancy.Integrity.{clean, IntegrityStats}
use nanochronometer.Redundancy.Protected
use nanochronometer.Chronometer.{Chronometer, units_to_ns}
use nanochronometer.Stopwatch
use nanochronometer.Stopwatch.{
  elapsed_ns, read_laps, start, pause, resume, lap, toggle, inject_total_flip,
}
use nanochronometer.Stopwatch.Plain
use nanochronometer.Stopwatch.Refine.{Refines}
use nanochronometer.Stopwatch.Operations.{start-Refines}
use nanochronometer.Stopwatch.Strikes.{one_flip}
use nanochronometer.Stopwatch.Behaviour.{
  elapsed_ns-Runs, elapsed_ns-cycle, unused, operate, strike, Runs, start_at, lap_at, toggle_at,
  perform, perform-Refines, performed,
}

abbrev no_counts : IntegrityStats
no_counts = record { checks = 0; ecc_corrections = 0; tmr_corrections = 0; unrecoverable_count = 0 }

-- A counter of 2 GHz.
abbrev two_ghz : Chronometer (Unit {0})
two_ghz = record {
  counter_hz = Protected.new 2_000_000_000;
  start_units = Protected.new 0;
  start_ns = 0;
  window_units = 0;
  window_ns = 0;
  drift_ppm = tt;
  overhead_units = 0;
  last_integrity = clean;
}

elapsed_ns-cycle_example :
    (elapsed_ns two_ghz
      (pause two_ghz
        (resume
          (inject_total_flip (pause two_ghz (start Stopwatch.fresh 100) 300 no_counts).0 40)
          1000
          no_counts).0
        1400
        no_counts).0
      9999
      no_counts).0
    ≡ saturating_add
        (saturating_add 0 (units_to_ns two_ghz (wrapping_sub 300 100)))
        (units_to_ns two_ghz (wrapping_sub 1400 1000))
elapsed_ns-cycle_example =
    elapsed_ns-cycle two_ghz Stopwatch.fresh 100 300 40 1000 1400 9999 no_counts no_counts no_counts
      no_counts

-- Two segments of 200 and 400 units are 300 ns.
cycle_reading :
    saturating_add
      (saturating_add 0 (units_to_ns two_ghz (wrapping_sub 300 100)))
      (units_to_ns two_ghz (wrapping_sub 1400 1000))
    ≡ 300
unfolding units_to_ns
cycle_reading = refl

abbrev started : Stopwatch.Stopwatch
started = start Stopwatch.fresh 100

-- Bit 3 of the total and bit 7 of the first replica of the start word are flipped.
abbrev struck : Stopwatch.Stopwatch
struck = record started {
  accumulated_ns = Protected.inject_flip (Protected.new 0) 3;
  start_units = some (Protected.inject_flip (Protected.new 100) 79);
  laps = [];
}

abbrev lapped : Stopwatch.Stopwatch
lapped = perform two_ghz (lap_at 500) struck no_counts

abbrev lapped_plain : Plain.Plain
lapped_plain = performed two_ghz (lap_at 500) (Plain.begun 100)

struck_run : Runs two_ghz (Plain.begun 100) struck
unfolding start
struck_run =
    strike (Protected.inject_flip (Protected.new 0) 3)
      (some (Protected.inject_flip (Protected.new 100) 79)) []
      (operate (start_at 100) no_counts unused) (one_flip 0 3) (one_flip 100 79) tt

elapsed_ns-Runs_example :
    ((elapsed_ns two_ghz lapped 900 no_counts).0
      ≡ Plain.reading (units_to_ns two_ghz) lapped_plain 900)
    × ((read_laps lapped.laps no_counts).0 ≡ lapped_plain.laps)
elapsed_ns-Runs_example =
    elapsed_ns-Runs two_ghz {p = lapped_plain} {sw = lapped} 900 no_counts
      (operate (lap_at 500) no_counts struck_run)

started-Refines : Refines (Plain.begun 100) started
started-Refines = start-Refines Stopwatch.fresh 100

perform-Refines_example :
    Refines
      (performed two_ghz (toggle_at 500) (Plain.begun 100))
      (perform two_ghz (toggle_at 500) started no_counts)
perform-Refines_example =
    perform-Refines two_ghz {p = Plain.begun 100} {sw = started} (toggle_at 500) no_counts
      started-Refines
