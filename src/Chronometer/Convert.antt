-- ===== src/Chronometer/Convert.antt =====
-- Conversions between counter units and nanoseconds.
use nanochronometer.Common.{ℕ, ◌+◌, ◌*◌, ◌/◌, ◌^◌, ◌≤◌, ◌<◌, ◌≡◌, arith, IsU64, as_u64}
use native.Mathlib.Nat.{
  div-mul-le_self, lt-div-mul-add, le-div_iff_mul-le, div-lt_iff_lt-mul, le_trans,
}
use nanochronometer.Chronometer.{Chronometer, hz, nanos_per_second, units_to_ns, ns_to_units}

-- Quotients by a positive number.
pub div_bounds : (x d : ℕ) → 0 < d → (x / d * d ≤ x) × (x < x / d * d + d)
div_bounds x d h = (div-mul-le_self x d, lt-div-mul-add h)

pub div_mono : (x y d : ℕ) → 0 < d → x ≤ y → x / d ≤ y / d
div_mono x y d h le = (le-div_iff_mul-le h).1 (le_trans (div-mul-le_self x d) le)

pub div_add :
    (x y d : ℕ) → 0 < d → (x / d + y / d ≤ (x + y) / d) × ((x + y) / d ≤ x / d + y / d + 1)
div_add x y d h =
    let (x_lo, x_hi) = div_bounds x d h in
    let (y_lo, y_hi) = div_bounds y d h in
    let (lo, hi) = div_bounds (x + y) d h in
    let top : (x + y) / d < x / d + y / d + 2 = (div-lt_iff_lt-mul h).1 (omega arith) in
    ((le-div_iff_mul-le h).1 (omega arith), omega arith)

module _ {F : Type 0} (c : Chronometer F) where
  -- At a calibrated rate, and where the result fits a u64, nothing is lost but a fraction.
  fits-units_to_ns :
      (u : ℕ)
      → 0 < hz c
      → u * nanos_per_second / hz c < 2 ^ 64
      → units_to_ns c u ≡ u * nanos_per_second / hz c
  unfolding units_to_ns
  fits-units_to_ns u h fits = ground arith

  pub units_to_ns_bounds :
      (u : ℕ)
      → 0 < hz c
      → u * nanos_per_second / hz c < 2 ^ 64
      → (units_to_ns c u * hz c ≤ u * nanos_per_second)
        × (u * nanos_per_second < units_to_ns c u * hz c + hz c)
  units_to_ns_bounds u h fits =
      rw (fits-units_to_ns u h fits) (div_bounds (u * nanos_per_second) (hz c) h)

  -- At a calibrated rate, and where the longer span's nanoseconds fit a u64, a longer span of
  -- units never gives fewer nanoseconds.
  pub units_to_ns_mono :
      (u v : ℕ)
      → 0 < hz c
      → v * nanos_per_second / hz c < 2 ^ 64
      → u ≤ v
      → units_to_ns c u ≤ units_to_ns c v
  units_to_ns_mono u v h fits le =
      let step = div_mono (u * nanos_per_second) (v * nanos_per_second) (hz c) h (omega arith) in
      omega (arith, fits-units_to_ns u h (omega arith), fits-units_to_ns v h fits)

  -- At a calibrated rate, and where the result fits a u64, converting a span in two pieces
  -- instead of one gives the same nanoseconds or one less.
  pub units_to_ns_split :
      (u v : ℕ)
      → 0 < hz c
      → (u + v) * nanos_per_second / hz c < 2 ^ 64
      → (units_to_ns c u + units_to_ns c v ≤ units_to_ns c (u + v))
        × (units_to_ns c (u + v) ≤ units_to_ns c u + units_to_ns c v + 1)
  units_to_ns_split u v h fits =
      let n = nanos_per_second in
      let sum : (u + v) * n ≡ u * n + v * n = omega arith in
      let parts = rw (← sum) at (div_add (u * n) (v * n) (hz c) h) in
      ground (
        arith,
        parts,
        fits-units_to_ns u h (omega (arith, parts)),
        fits-units_to_ns v h (omega (arith, parts)),
        fits-units_to_ns (u + v) h fits,
      )

  -- At a calibrated rate, and where the units fit a u64, nanoseconds converted to units and
  -- back come out short by less than one unit's length and one nanosecond, and never long.
  pub units_to_ns-ns_to_units :
      (n : ℕ)
      → 0 < hz c
      → n * hz c / nanos_per_second < 2 ^ 64
      → IsU64 n
      → (units_to_ns c (ns_to_units c n) ≤ n)
        × (n * hz c < (units_to_ns c (ns_to_units c n) + 1) * hz c + nanos_per_second)
  unfolding ns_to_units
  units_to_ns-ns_to_units n h fits small =
      let k = n * hz c / nanos_per_second in
      let (k_lo, k_hi) = div_bounds (n * hz c) nanos_per_second (omega arith) in
      let short : k * nanos_per_second / hz c < n + 1 = (div-lt_iff_lt-mul h).1 (omega arith) in
      let (lo, hi) = units_to_ns_bounds k h (omega arith) in
      let same : as_u64 k ≡ k = omega arith in
      rw same (omega (arith, fits-units_to_ns k h (omega arith)), omega arith)
