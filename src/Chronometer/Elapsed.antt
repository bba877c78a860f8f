-- ===== src/Chronometer/Elapsed.antt =====
-- Elapsed readings of a chronometer whose protected words have taken damage.
use nanochronometer.Common.{ℕ, ◌≤◌, ◌≡◌, arith, leb, ap, Bool-cases, inl, inr, true, wrapping_sub}
use mathlib.Core.Path.{ap₂}
use nanochronometer.Redundancy.Integrity.{IntegrityStats}
use nanochronometer.Redundancy.Protected
use nanochronometer.Redundancy.Protected.Repair.{
  Recoverable, get_checked-Recoverable, verify-Recoverable,
}
use nanochronometer.Chronometer.{
  Floats, Chronometer, hz, nanos_per_second, checkpoint, elapsed_units, elapsed_ns, advance_window,
  scale_units,
}

-- The calibrated rate and the origin that the chronometer stands for, damaged or not.
pub record Stands {F : Type 0} (c : Chronometer F) (rate origin : ℕ) : Type 0 where
  pub rate_kept : Recoverable rate c.counter_hz
  pub origin_kept : Recoverable origin c.start_units

module _ {F : Type 0} ⦃fl : Floats F⦄ where
  checkpoint-Stands :
      (c : Chronometer F) (rate origin now now_ns d_ns : ℕ) (s : IntegrityStats)
      → Stands c rate origin
      → Stands (checkpoint c now now_ns d_ns s).0 rate origin
        × (hz (checkpoint c now now_ns d_ns s).0 ≡ rate)
  unfolding checkpoint
  checkpoint-Stands c rate origin now now_ns d_ns s h =
      let v = verify-Recoverable c.counter_hz rate s h.rate_kept in
      let w =
        verify-Recoverable c.start_units origin (Protected.verify c.counter_hz s).1 h.origin_kept in
      (record { rate_kept = v.0; origin_kept = w.0 }, v.1)

  advance_window-Stands :
      (c : Chronometer F) (rate origin now now_ns : ℕ) (s : IntegrityStats)
      → Stands c rate origin
      → Stands (advance_window c now now_ns s).0 rate origin
  unfolding advance_window
  advance_window-Stands c rate origin now now_ns s h =
      let d_ns = wrapping_sub now_ns c.window_ns in
      elim (Bool-cases (leb nanos_per_second d_ns)) [
        | inl due ↦ rw due (checkpoint-Stands c rate origin now now_ns d_ns s h).0
        | inr early ↦ rw early h
      ]

  advance_window-hz :
      (c : Chronometer F) (rate origin now now_ns : ℕ) (s : IntegrityStats)
      → Stands c rate origin
      → nanos_per_second ≤ wrapping_sub now_ns c.window_ns
      → hz (advance_window c now now_ns s).0 ≡ rate
  unfolding advance_window
  advance_window-hz c rate origin now now_ns s h due =
      let passed : leb nanos_per_second (wrapping_sub now_ns c.window_ns) ≡ true = ground arith in
      rw passed (checkpoint-Stands c rate origin now now_ns (wrapping_sub now_ns c.window_ns) s h).1

  -- On a chronometer that stands for a rate and an origin, an elapsed reading is the wrapping
  -- distance from that origin, and it leaves the chronometer standing for the same two.
  pub elapsed_units-Stands :
      (c : Chronometer F) (rate origin now now_ns : ℕ) (s : IntegrityStats)
      → Stands c rate origin
      → ((elapsed_units c now now_ns s).0 ≡ wrapping_sub now origin)
        × Stands (elapsed_units c now now_ns s).1 rate origin
  unfolding elapsed_units
  elapsed_units-Stands c rate origin now now_ns s h =
      let (c', s') = advance_window c now now_ns s in
      let kept = advance_window-Stands c rate origin now now_ns s h in
      let read = get_checked-Recoverable c'.start_units origin s' kept.origin_kept in
      (ap (wrapping_sub now) read.0, kept)

  -- On a chronometer that stands for a rate and an origin, once a second has passed since the
  -- last checkpoint, the reading in nanoseconds is that of this rate and origin.
  pub elapsed_ns-Stands :
      (c : Chronometer F) (rate origin now now_ns : ℕ) (s : IntegrityStats)
      → Stands c rate origin
      → nanos_per_second ≤ wrapping_sub now_ns c.window_ns
      → (elapsed_ns c now now_ns s).0 ≡ scale_units nanos_per_second rate (wrapping_sub now origin)
  unfolding elapsed_ns
  elapsed_ns-Stands c rate origin now now_ns s h due =
      ap₂ (scale_units nanos_per_second) (advance_window-hz c rate origin now now_ns s h due)
        (elapsed_units-Stands c rate origin now now_ns s h).0
