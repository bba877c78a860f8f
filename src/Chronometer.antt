-- ===== src/Chronometer.antt =====
-- crates/nanochrono-core/src/context.rs: the calibrated counter. What the hardware answers is an
-- argument: `counter_start` and `counter_end` are counter readings, `monotonic_ns` a clock reading,
-- and a polling loop takes the list of the answers to come.
pub mod Convert
pub mod Elapsed
pub mod Calibrate
mod Runs
use nanochronometer.Common.{
  ℕ, zero, suc, ◌+◌, ◌-◌, ◌*◌, ◌/◌, ◌%◌, ◌^◌, Bool, true, false, ◌||◌, ◌&&◌, not, List, [], ◌∷◌,
  Option, none, some, ltb, leb, ◌==◌, if◌then◌else◌, as_u64, wrapping_add, wrapping_sub, min, max,
  length,
}
use mathlib.Core.List.{foldl}
use nanochronometer.Redundancy.Integrity.{Integrity, clean, worse, IntegrityStats}
use nanochronometer.Redundancy.Protected
use nanochronometer.Redundancy.Protected.{Protected}

-- The floating-point type of the drift estimate, and the operations on it.
pub record Floats (F : Type 0) : Type 0 where
  pub of_u64 : ℕ → F
  pub sub : F → F → F
  pub div : F → F → F
  pub mul : F → F → F

-- The fields but for `backend`, which no operation here reads.
pub record Chronometer (F : Type 0) : Type 0 where
  pub counter_hz : Protected
  pub start_units : Protected
  pub start_ns : ℕ
  pub window_units : ℕ
  pub window_ns : ℕ
  pub drift_ppm : F
  pub overhead_units : ℕ
  pub last_integrity : Integrity

abbrev pub nanos_per_second : ℕ
nanos_per_second = 1_000_000_000

-- `((units as u128 * scale) / hz as u128) as u64`: the product of two u64 fits a u128.
abbrev pub scale_units : ℕ → ℕ → ℕ → ℕ
scale_units scale rate units = if rate == 0 then 0 else as_u64 (units * scale / rate)

-- The polls of the calibration loop: the readings left after the one that ends it, or `none`
-- where the readings given run out first.
pub wait_window : ℕ → ℕ → List ℕ → Option (List ℕ)
wait_window ns0 window [] = none
wait_window ns0 window (now ∷ later) =
    let rest = wait_window ns0 window later in
    if leb window (wrapping_sub now ns0) then some later else rest

-- The rate that a window of `d_units` counter units and `d_ns` nanoseconds shows.
abbrev pub measured_hz : ℕ → ℕ → ℕ
measured_hz d_units d_ns = as_u64 (d_units * nanos_per_second / d_ns)

-- The polls of `spin_ns`: how many readings it takes until one reaches the target.
unfoldable pub spin_until : ℕ → List ℕ → Option ℕ
spin_until target [] = none
spin_until target (now ∷ later) =
    let rest = spin_until target later in
    if ltb now target then (elim rest [ none ↦ none | some n ↦ some (suc n) ]) else some 1

-- A probe of a cost: the counter before and after, one pair for each round.
abbrev pub samples_of : List (ℕ × ℕ) → List ℕ
samples_of [] = []
samples_of ((a, b) ∷ rounds) = wrapping_sub b a ∷ samples_of rounds

-- `Iterator::min` with `unwrap_or(0)`
unfoldable pub min_or_zero : List ℕ → ℕ
min_or_zero [] = 0
min_or_zero (x ∷ xs) = foldl min x xs

-- `measure_ffi_overhead`, for its `iterations.max(1)` rounds.
unfoldable pub measure_ffi_overhead : List (ℕ × ℕ) → ℕ
unfolding min_or_zero
measure_ffi_overhead rounds = min_or_zero (samples_of rounds)

-- `measure_call_overhead`, which starts from `u64::MAX`.
unfoldable pub measure_call_overhead : List (ℕ × ℕ) → ℕ
measure_call_overhead rounds =
    let best = foldl min (2 ^ 64 - 1) (samples_of rounds) in if best == 2 ^ 64 - 1 then 0 else best

-- `measure_call_avg`: the sum wraps.
unfoldable pub measure_call_avg : List (ℕ × ℕ) → ℕ
measure_call_avg rounds = foldl wrapping_add 0 (samples_of rounds) / length rounds

module _ {F : Type 0} where
  abbrev pub hz : Chronometer F → ℕ
  hz c = Protected.get c.counter_hz

  unfoldable pub units_to_ns : Chronometer F → ℕ → ℕ
  units_to_ns c units = scale_units nanos_per_second (hz c) units

  unfoldable pub units_to_us : Chronometer F → ℕ → ℕ
  units_to_us c units = scale_units 1_000_000 (hz c) units

  unfoldable pub units_to_ms : Chronometer F → ℕ → ℕ
  units_to_ms c units = scale_units 1_000 (hz c) units

  unfoldable pub ns_to_units : Chronometer F → ℕ → ℕ
  ns_to_units c ns = as_u64 (ns * hz c / nanos_per_second)

  -- The end of `calibrate`, past the polling loop.
  unfoldable pub accept_window : Chronometer F → ℕ → ℕ → Bool × Chronometer F
  accept_window c d_units d_ns = if d_ns == 0 || d_units == 0 then (false, c) else (
    true,
    record c { counter_hz = Protected.set c.counter_hz (max (measured_hz d_units d_ns) 1) },
  )

  -- `polls` are the answers of `monotonic_ns` in the loop and `ns1` the one after it.
  unfoldable pub calibrate :
      Chronometer F → ℕ → Option ℕ → ℕ → ℕ → List ℕ → ℕ → ℕ → Option (Bool × Chronometer F)
  unfolding wait_window accept_window
  calibrate c ms (some declared) ns0 c0 polls c1 ns1 =
      some (true, record c { counter_hz = Protected.set c.counter_hz declared })
  calibrate c ms none ns0 c0 polls c1 ns1 = elim (wait_window ns0 (max ms 1 * 1_000_000) polls) [
    | none ↦ none
    | some later ↦ some (accept_window c (wrapping_sub c1 c0) (wrapping_sub ns1 ns0))
  ]

  unfoldable pub start : Chronometer F → ℕ → ℕ → ℕ × Chronometer F
  start c units ns = (
    units,
    record c {
      start_units = Protected.set c.start_units units;
      start_ns = ns;
      window_units = units;
      window_ns = ns;
    },
  )

  -- `measure_overhead`: the best of the 64 answers of `arch::read_overhead`.
  unfoldable pub measure_overhead : Chronometer F → List ℕ → ℕ × Chronometer F
  unfolding min_or_zero
  measure_overhead c reads =
      let best = min_or_zero reads in (best, record c { overhead_units = best })

  unfoldable pub verify_calibration :
      Chronometer F → IntegrityStats → Integrity × Chronometer F × IntegrityStats
  verify_calibration c s =
      let ((found, hz'), s') = Protected.verify c.counter_hz s in
      (found, record c { counter_hz = hz'; last_integrity = found }, s')

  unfoldable pub inject_calibration_flip : Chronometer F → ℕ → Chronometer F
  inject_calibration_flip c bit = record c { counter_hz = Protected.inject_flip c.counter_hz bit }

  unfoldable pub spin_ns : Chronometer F → ℕ → ℕ → List ℕ → Option ℕ
  unfolding spin_until ns_to_units
  spin_ns c ns now polls =
      if ns == 0 then some 0 else spin_until (wrapping_add now (ns_to_units c ns)) polls

module _ {F : Type 0} ⦃fl : Floats F⦄ where
  unfoldable pub reset : Chronometer F → ℕ → ℕ → Chronometer F
  reset c units ns = record c {
    start_units = Protected.set c.start_units units;
    start_ns = ns;
    window_units = units;
    window_ns = ns;
    drift_ppm = fl.of_u64 0;
  }

  -- `diff / hz as f64 * 1e6` with `diff = instant_hz as f64 - hz as f64`
  abbrev pub drift_of : ℕ → ℕ → F
  drift_of instant_hz rate =
      let diff = fl.sub (fl.of_u64 instant_hz) (fl.of_u64 rate) in
      fl.mul (fl.div diff (fl.of_u64 rate)) (fl.of_u64 1_000_000)

  -- The once-a-second checkpoint of `elapsed_units`.
  unfoldable pub checkpoint :
      Chronometer F → ℕ → ℕ → ℕ → IntegrityStats → Chronometer F × IntegrityStats
  checkpoint c now_units now_ns d_ns s =
      let ((hz_found, hz'), s1) = Protected.verify c.counter_hz s in
      let ((start_found, start'), s2) = Protected.verify c.start_units s1 in
      let instant_hz = measured_hz (wrapping_sub now_units c.window_units) d_ns in
      let rate = Protected.get hz' in
      let drift' =
        if not (instant_hz == 0) && not (rate == 0)
        then drift_of instant_hz rate
        else c.drift_ppm in
      (
        record c {
          counter_hz = hz';
          start_units = start';
          window_units = now_units;
          window_ns = now_ns;
          drift_ppm = drift';
          last_integrity = worse hz_found start_found;
        },
        s2,
      )

  -- The `if` of `elapsed_units`: the checkpoint once a second has passed.
  unfoldable pub advance_window :
      Chronometer F → ℕ → ℕ → IntegrityStats → Chronometer F × IntegrityStats
  unfolding checkpoint
  advance_window c now_units now_ns s =
      let d_ns = wrapping_sub now_ns c.window_ns in
      if leb nanos_per_second d_ns then checkpoint c now_units now_ns d_ns s else (c, s)

  unfoldable pub elapsed_units :
      Chronometer F → ℕ → ℕ → IntegrityStats → ℕ × Chronometer F × IntegrityStats
  elapsed_units c now_units now_ns s =
      let (c', s') = advance_window c now_units now_ns s in
      let ((origin, found), s'') = Protected.get_checked c'.start_units s' in
      (wrapping_sub now_units origin, c', s'')

  unfoldable pub elapsed_ns :
      Chronometer F → ℕ → ℕ → IntegrityStats → ℕ × Chronometer F × IntegrityStats
  unfolding elapsed_units units_to_ns
  elapsed_ns c now_units now_ns s =
      let (units, c', s') = elapsed_units c now_units now_ns s in (units_to_ns c' units, c', s')
