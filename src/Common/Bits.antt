-- ===== src/Common/Bits.antt =====
-- Laws of the bitwise operations at variables, from one equation for the lowest digit.
mod Steps
use Prim.Native.Nat.{
  ℕ, zero, suc, ◌+◌, ◌*◌, ◌/◌, ◌%◌, ◌^◌, ◌-◌, ◌≤◌, ◌<◌, bit_and, bit_or, bit_xor, bit_and-bitwise,
  bit_or-bitwise, bit_xor-bitwise,
}
use mathlib.Core.Path.{◌≡◌, refl, ap, ◌∙◌}
use native.Mathlib.Omega.{arith}
use native.Mathlib.Nat.{pow-suc, one-le-pow, div-one, div-div-eq-div-mul}
use Steps.{bit_and_step, bit_or_step, bit_xor_step}
pub use Steps.{bit_and_step, bit_or_step, bit_xor_step}

-- The number of ones among the lowest `w` binary digits.
unfoldable pub count_ones : ℕ → ℕ → ℕ
count_ones zero x = 0
count_ones (suc w) x = x % 2 + count_ones w (x / 2)

-- The higher digits of a result, and its lowest one.
bit_xor-half : (a b : ℕ) → bit_xor a b / 2 ≡ bit_xor (a / 2) (b / 2)
bit_xor-half a b = omega (arith, bit_xor_step a b)

bit_xor-low : (a b : ℕ) → bit_xor a b % 2 ≡ (a % 2 + b % 2) % 2
bit_xor-low a b = omega (arith, bit_xor_step a b)

bit_and-half : (a b : ℕ) → bit_and a b / 2 ≡ bit_and (a / 2) (b / 2)
bit_and-half a b = omega (arith, bit_and_step a b)

zero-bit_and : (b : ℕ) → bit_and 0 b ≡ 0
zero-bit_and b = bit_and-bitwise 0 b

zero-bit_or : (b : ℕ) → bit_or 0 b ≡ b
zero-bit_or b = bit_or-bitwise 0 b

pub zero-bit_xor : (b : ℕ) → bit_xor 0 b ≡ b
zero-bit_xor b = bit_xor-bitwise 0 b

-- The laws go from the halves of the operands to the operands, with a count that bounds them.
module _ where
  self_below : (n a : ℕ) → a ≤ n → bit_xor a a ≡ 0
  self_below zero zero h = refl
  self_below zero (suc a) h = absurd (omega arith)
  self_below (suc n) a h = omega (arith, bit_xor_step a a, self_below n (a / 2) (omega arith))

  cancel_below : (n a b : ℕ) → a ≤ n → b ≤ n → bit_xor (bit_xor a b) b ≡ a
  cancel_below zero zero zero h k = refl
  cancel_below zero zero (suc b) h k = absurd (omega arith)
  cancel_below zero (suc a) b h k = absurd (omega arith)
  cancel_below (suc n) a b h k = ground (
    arith,
    bit_xor_step (bit_xor a b) b,
    bit_xor-half a b,
    bit_xor-low a b,
    cancel_below n (a / 2) (b / 2) (omega arith) (omega arith),
  )

  comm_below : (n a b : ℕ) → a ≤ n → b ≤ n → bit_xor a b ≡ bit_xor b a
  comm_below zero zero zero h k = refl
  comm_below zero zero (suc b) h k = absurd (omega arith)
  comm_below zero (suc a) b h k = absurd (omega arith)
  comm_below (suc n) a b h k = omega (
    arith,
    bit_xor_step a b,
    bit_xor_step b a,
    comm_below n (a / 2) (b / 2) (omega arith) (omega arith),
  )

  assoc_below : (n a b c : ℕ) → a ≤ n → b ≤ n → bit_xor (bit_xor a b) c ≡ bit_xor a (bit_xor b c)
  assoc_below zero zero b c h k = ground (arith, zero-bit_xor b, zero-bit_xor (bit_xor b c))
  assoc_below zero (suc a) b c h k = absurd (omega arith)
  assoc_below (suc n) a b c h k = ground (
    arith,
    bit_xor_step (bit_xor a b) c,
    bit_xor_step a (bit_xor b c),
    bit_xor-half a b,
    bit_xor-low a b,
    bit_xor-half b c,
    bit_xor-low b c,
    assoc_below n (a / 2) (b / 2) (c / 2) (omega arith) (omega arith),
  )

  distrib_below :
      (n a b m : ℕ) → a ≤ n → b ≤ n → bit_and (bit_xor a b) m ≡ bit_xor (bit_and a m) (bit_and b m)
  distrib_below zero zero zero m h k = rw zero-bit_and
  distrib_below zero zero (suc b) m h k = absurd (omega arith)
  distrib_below zero (suc a) b m h k = absurd (omega arith)
  distrib_below (suc n) a b m h k = ground (
    arith,
    bit_and_step (bit_xor a b) m,
    bit_and_step a m,
    bit_and_step b m,
    bit_xor_step (bit_and a m) (bit_and b m),
    bit_xor-half a b,
    bit_xor-low a b,
    bit_and-half a m,
    bit_and-half b m,
    distrib_below n (a / 2) (b / 2) (m / 2) (omega arith) (omega arith),
  )

  eq_below : (n a b : ℕ) → a ≤ n → b ≤ n → bit_xor a b ≡ 0 → a ≡ b
  eq_below zero zero zero h k e = refl
  eq_below zero zero (suc b) h k e = absurd (omega arith)
  eq_below zero (suc a) b h k e = absurd (omega arith)
  eq_below (suc n) a b h k e = omega (
    arith,
    bit_xor_step a b,
    eq_below n (a / 2) (b / 2) (omega arith) (omega arith) (omega (arith, bit_xor_step a b)),
  )

pub bit_xor_self : (a : ℕ) → bit_xor a a ≡ 0
bit_xor_self a = self_below a a (omega arith)

pub bit_xor_cancel : (a b : ℕ) → bit_xor (bit_xor a b) b ≡ a
bit_xor_cancel a b = cancel_below (a + b) a b (omega arith) (omega arith)

pub bit_xor_comm : (a b : ℕ) → bit_xor a b ≡ bit_xor b a
bit_xor_comm a b = comm_below (a + b) a b (omega arith) (omega arith)

pub bit_xor_assoc : (a b c : ℕ) → bit_xor (bit_xor a b) c ≡ bit_xor a (bit_xor b c)
bit_xor_assoc a b c = assoc_below (a + b) a b c (omega arith) (omega arith)

pub bit_xor-zero : (a : ℕ) → bit_xor a 0 ≡ a
bit_xor-zero a = bit_xor_comm a 0 ∙ zero-bit_xor a

pub bit_and-bit_xor : (a b m : ℕ) → bit_and (bit_xor a b) m ≡ bit_xor (bit_and a m) (bit_and b m)
bit_and-bit_xor a b m = distrib_below (a + b) a b m (omega arith) (omega arith)

pub eq_of_bit_xor : (a b : ℕ) → bit_xor a b ≡ 0 → a ≡ b
eq_of_bit_xor a b e = eq_below (a + b) a b (omega arith) (omega arith) e

-- The parity of the ones is additive over exclusive or.
pub count_ones-bit_xor :
    (w a b : ℕ) → count_ones w (bit_xor a b) % 2 ≡ (count_ones w a + count_ones w b) % 2
unfolding count_ones
count_ones-bit_xor zero a b = refl
count_ones-bit_xor (suc w) a b =
    ground (arith, bit_xor-half a b, bit_xor-low a b, count_ones-bit_xor w (a / 2) (b / 2))

-- Results keep the width of their operands.
pub bit_xor-lt : (w a b : ℕ) → a < 2 ^ w → b < 2 ^ w → bit_xor a b < 2 ^ w
bit_xor-lt zero a b h k = ground (arith, bit_xor_self 0)
bit_xor-lt (suc w) a b h k =
    let e : 2 ^ suc w ≡ 2 * 2 ^ w = omega (arith, pow-suc 2 w) in
    omega (arith, e, bit_xor_step a b, bit_xor-lt w (a / 2) (b / 2) (omega arith) (omega arith))

mul-two-pow-suc : (q w : ℕ) → q * 2 ^ suc w ≡ 2 * (q * 2 ^ w)
mul-two-pow-suc q w = omega (arith, ap (λ (t : ℕ). q * t) (pow-suc 2 w))

-- `a | (q << w)` is a sum when `a` fits the lowest `w` digits.
pub bit_or_fields : (w a q : ℕ) → a < 2 ^ w → bit_or a (q * 2 ^ w) ≡ a + q * 2 ^ w
bit_or_fields zero a q h = ground (arith, zero-bit_or q)
bit_or_fields (suc w) a q h = ground (
  arith,
  bit_or_step a (q * 2 ^ suc w),
  mul-two-pow-suc q w,
  pow-suc 2 w,
  bit_or_fields w (a / 2) q (omega arith),
)

bit_and-zero : (a : ℕ) → bit_and a 0 ≡ 0
bit_and-zero a = below a a (omega arith)
  where
    below : (n a : ℕ) → a ≤ n → bit_and a 0 ≡ 0
    below zero zero h = refl
    below zero (suc a) h = absurd (omega arith)
    below (suc n) a h = omega (arith, bit_and_step a 0, below n (a / 2) (omega arith))

mask_fields : (w q r : ℕ) → r < 2 ^ w → bit_and (r + q * 2 ^ w) (2 ^ w - 1) ≡ r
mask_fields zero q r h = rw bit_and-zero (omega arith)
mask_fields (suc w) q r h = ground (
  arith,
  bit_and_step (r + q * 2 ^ suc w) (2 ^ suc w - 1),
  mul-two-pow-suc q w,
  pow-suc 2 w,
  mask_fields w q (r / 2) (omega arith),
)

-- `a & (2^w - 1)` keeps the lowest `w` digits.
pub bit_and_mask : (w a : ℕ) → bit_and a (2 ^ w - 1) ≡ a % 2 ^ w
bit_and_mask w a = ground (arith, one-le-pow w 2, mask_fields w (a / 2 ^ w) (a % 2 ^ w))

-- One more digit at place `w`.
pub digit-lt : (b p a : ℕ) → b < 2 → a < p → a + b * p < 2 * p
digit-lt zero p a h k = omega arith
digit-lt (suc zero) p a h k = omega arith
digit-lt (suc (suc b)) p a h k = absurd (omega arith)

-- A shift takes the operands apart.
pub bit_xor-shift : (w a b : ℕ) → bit_xor a b / 2 ^ w ≡ bit_xor (a / 2 ^ w) (b / 2 ^ w)
bit_xor-shift zero a b = simp div-one
bit_xor-shift (suc w) a b = cc (
  pow-suc 2 w,
  div-div-eq-div-mul (bit_xor a b) (2 ^ w) 2,
  div-div-eq-div-mul a (2 ^ w) 2,
  div-div-eq-div-mul b (2 ^ w) 2,
  bit_xor-half (a / 2 ^ w) (b / 2 ^ w),
  bit_xor-shift w a b,
)

pub bit_xor-low_bits : (w a b : ℕ) → bit_xor a b % 2 ^ w ≡ bit_xor (a % 2 ^ w) (b % 2 ^ w)
bit_xor-low_bits w a b = cc (
  bit_and-bit_xor a b (2 ^ w - 1),
  bit_and_mask w a,
  bit_and_mask w b,
  bit_and_mask w (bit_xor a b),
)

pub bit_xor-digits : (a b : ℕ) → a < 2 → b < 2 → bit_xor a b ≡ (a + b) % 2
bit_xor-digits a b h k = ground (arith, bit_xor_step a b, zero-bit_xor 0)

pub bit_xor_interchange :
    (a b c d : ℕ) → bit_xor (bit_xor a b) (bit_xor c d) ≡ bit_xor (bit_xor a c) (bit_xor b d)
bit_xor_interchange a b c d = cc (
  bit_xor_assoc a b (bit_xor c d),
  bit_xor_assoc a c (bit_xor b d),
  bit_xor_assoc b c d,
  bit_xor_assoc c b d,
  bit_xor_comm b c,
)

bit_or-zero : (a : ℕ) → bit_or a 0 ≡ a
bit_or-zero a = below a a (omega arith)
  where
    below : (n a : ℕ) → a ≤ n → bit_or a 0 ≡ a
    below zero zero h = zero-bit_or 0
    below zero (suc a) h = absurd (omega arith)
    below (suc n) a h = omega (arith, bit_or_step a 0, below n (a / 2) (omega arith))

-- The same with the upper field in front.
pub bit_or_fields_above : (w a q : ℕ) → a < 2 ^ w → bit_or (q * 2 ^ w) a ≡ q * 2 ^ w + a
bit_or_fields_above zero a q h = ground (arith, bit_or-zero q)
bit_or_fields_above (suc w) a q h = ground (
  arith,
  pow-suc 2 w,
  mul-two-pow-suc q w,
  bit_or_step (q * 2 ^ suc w) a,
  bit_or_fields_above w (a / 2) q (omega arith),
)
