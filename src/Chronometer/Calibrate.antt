-- ===== src/Chronometer/Calibrate.antt =====
-- Calibration: what the polling loop waits for, and how close the rate comes.
use nanochronometer.Common.{
  ℕ, ◌↔◌, ◌⊎◌, ◌+◌, ◌*◌, ◌/◌, ◌^◌, ◌≤◌, ◌<◌, ◌≡◌, refl, arith, true, false, wrapping_sub, List, [],
  ◌∷◌, some, ◌++◌, All, suc, length,
}
use nanochronometer.Redundancy.Protected
use native.Mathlib.Nat.{le-div_iff_mul-le}
use nanochronometer.Redundancy.Protected.Repair.{Recoverable, new-Recoverable}
use nanochronometer.Chronometer.{
  Chronometer, hz, nanos_per_second, measured_hz, accept_window, wait_window, spin_until,
}
use nanochronometer.Chronometer.Convert.{div_bounds}

module _ {F : Type 0} (c : Chronometer F) where
  -- A measured window is refused exactly when the clock or the counter stood still, and the
  -- chronometer is then left as it was.
  pub accept_window_refuses :
      (d_units d_ns : ℕ)
      → (((accept_window c d_units d_ns).0 ≡ false) ↔ ((d_ns ≡ 0) ⊎ (d_units ≡ 0)))
        × ((accept_window c d_units d_ns).0 ≡ false → (accept_window c d_units d_ns).1 ≡ c)
  unfolding accept_window
  accept_window_refuses d_units d_ns = (ground arith, ground arith)

  accept_window_lem :
      (d_units d_ns : ℕ)
      → 0 < d_ns
      → 0 < d_units
      → 0 < measured_hz d_units d_ns
      → accept_window c d_units d_ns
        ≡ (true, record c { counter_hz = Protected.new (measured_hz d_units d_ns) })
  unfolding accept_window
  accept_window_lem d_units d_ns h k pos = ground arith

  -- A window in which clock and counter moved is accepted, where the rate is at least one unit
  -- a second and fits a u64. The rate stored is undamaged and is the true one rounded down.
  pub accept_window_rate :
      (d_units d_ns : ℕ)
      → 0 < d_ns
      → 0 < d_units
      → d_units * nanos_per_second / d_ns < 2 ^ 64
      → d_ns ≤ d_units * nanos_per_second
      → ((accept_window c d_units d_ns).0 ≡ true)
        × Recoverable
            (hz (accept_window c d_units d_ns).1)
            (accept_window c d_units d_ns).1.counter_hz
        × (hz (accept_window c d_units d_ns).1 * d_ns ≤ d_units * nanos_per_second)
        × (d_units * nanos_per_second < (hz (accept_window c d_units d_ns).1 + 1) * d_ns)
  accept_window_rate d_units d_ns h k fits moved =
      let rate = d_units * nanos_per_second / d_ns in
      let pos : 1 ≤ rate = (le-div_iff_mul-le h).1 (omega arith) in
      let whole : measured_hz d_units d_ns ≡ rate = omega arith in
      let (lo, hi) = div_bounds (d_units * nanos_per_second) d_ns h in
      rw (accept_window_lem d_units d_ns h k (omega arith))
        (refl, new-Recoverable _, rw whole lo, rw whole (omega arith))

-- Where the readings hold one that lies a whole window past the first, behind readings that all
-- lie inside the window, the polling loop ends at that reading.
pub wait_window_ends :
    (ns0 window now : ℕ) (early later : List ℕ)
    → All (λ t. wrapping_sub t ns0 < window) early
    → window ≤ wrapping_sub now ns0
    → wait_window ns0 window (early ++ (now ∷ later)) ≡ some later
unfolding wait_window
wait_window_ends ns0 window now [] later h due = ground arith
wait_window_ends ns0 window now (t ∷ early) later h due =
    ground (arith, wait_window_ends ns0 window now early later h.1 due)

-- Where the readings hold one that reaches the target, behind readings that do not, a busy wait
-- takes the readings up to and with that one.
pub spin_until_ends :
    (target now : ℕ) (early later : List ℕ)
    → All (λ t. t < target) early
    → target ≤ now
    → spin_until target (early ++ (now ∷ later)) ≡ some (suc (length early))
unfolding spin_until
spin_until_ends target now [] later h due = ground arith
spin_until_ends target now (t ∷ early) later h due =
    ground (arith, spin_until_ends target now early later h.1 due)
