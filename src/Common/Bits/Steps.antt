-- ===== src/Common/Bits/Steps.antt =====
-- The native operations stand for a recursion on binary digits with a count of digits to go.
-- Here the count is dropped: one equation for the lowest digit of each operation.
use Prim.Native.Nat.{
  ℕ, zero, suc, ◌+◌, ◌-◌, ◌*◌, ◌/◌, ◌%◌, ◌≤◌, ◌<◌, min, max, bit_and, bit_or, bit_xor, digits,
  bitwise, differ, bit_and-bitwise, bit_or-bitwise, bit_xor-bitwise,
}
use mathlib.Core.Path.{◌≡◌, refl, ap, ◌∙◌}
use native.Mathlib.Omega.{arith}

-- `base` gives the result where the first operand has run out, `op` one digit of it.
module _ (base : ℕ → ℕ) (op : ℕ → ℕ → ℕ) where
  -- One digit more than the first operand needs changes nothing.
  one_more : (count x y : ℕ) → x ≤ count → digits base op (suc count) x y ≡ digits base op count x y
  one_more zero zero y below = refl
  one_more zero (suc x) y below = absurd (omega arith)
  one_more (suc count) zero y below = refl
  one_more (suc count) (suc x) y below =
      ap (λ t. t * 2 + op (suc x % 2) (y % 2)) (one_more count (suc x / 2) (y / 2) (omega arith))

  -- And so do any more, of which there are `surplus`.
  surplus_digits :
      (surplus count total x y : ℕ)
      → surplus + count ≡ total
      → x ≤ count
      → digits base op total x y ≡ digits base op count x y
  surplus_digits zero count total x y sum below = ap (λ t. digits base op t x y) (omega arith)
  surplus_digits (suc surplus) count zero x y sum below = absurd (omega arith)
  surplus_digits (suc surplus) count (suc total) x y sum below =
      one_more total x y (omega arith) ∙ surplus_digits surplus count total x y (omega arith) below

  lowest_digit :
      (x y : ℕ)
      → bitwise base op (suc x) y ≡ bitwise base op (suc x / 2) (y / 2) * 2 + op (suc x % 2) (y % 2)
  lowest_digit x y =
      ap (λ t. t * 2 + op (suc x % 2) (y % 2))
        (surplus_digits (x - suc x / 2) (suc x / 2) x (suc x / 2) (y / 2) (omega arith)
          (omega arith))

differ_digits : (a b : ℕ) → a < 2 → b < 2 → differ a b ≡ (a + b) % 2
differ_digits zero zero h k = refl
differ_digits zero (suc zero) h k = refl
differ_digits zero (suc (suc b)) h k = absurd (omega arith)
differ_digits (suc zero) zero h k = refl
differ_digits (suc zero) (suc zero) h k = refl
differ_digits (suc zero) (suc (suc b)) h k = absurd (omega arith)
differ_digits (suc (suc a)) b h k = absurd (omega arith)

pub bit_and_step : (x y : ℕ) → bit_and x y ≡ bit_and (x / 2) (y / 2) * 2 + min (x % 2) (y % 2)
bit_and_step zero y = simp bit_and-bitwise (omega arith)
bit_and_step (suc x) y = simp bit_and-bitwise (lowest_digit (λ rest. 0) min x y)

pub bit_or_step : (x y : ℕ) → bit_or x y ≡ bit_or (x / 2) (y / 2) * 2 + max (x % 2) (y % 2)
bit_or_step zero y = simp bit_or-bitwise (omega arith)
bit_or_step (suc x) y = simp bit_or-bitwise (lowest_digit (λ rest. rest) max x y)

xor_suc :
    (x y : ℕ) → bit_xor (suc x) y ≡ bit_xor (suc x / 2) (y / 2) * 2 + differ (suc x % 2) (y % 2)
xor_suc x y = simp bit_xor-bitwise (lowest_digit (λ rest. rest) differ x y)

pub bit_xor_step : (x y : ℕ) → bit_xor x y ≡ bit_xor (x / 2) (y / 2) * 2 + (x % 2 + y % 2) % 2
bit_xor_step zero y = simp bit_xor-bitwise (omega arith)
bit_xor_step (suc x) y =
    omega (arith, xor_suc x y, differ_digits (suc x % 2) (y % 2) (omega arith) (omega arith))
