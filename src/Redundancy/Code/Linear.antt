-- ===== src/Redundancy/Code/Linear.antt =====
-- The Hamming parities as arithmetic, and that they are additive over exclusive or.
use nanochronometer.Common.{
  ℕ, zero, suc, ◌+◌, ◌*◌, ◌/◌, ◌%◌, ◌^◌, ◌<◌, bit_and, bit_xor, ◌≡◌, refl, arith, List, [], ◌∷◌,
  length, for_range, drop, get_or, drop-get_or, drop-all, ap, ◌∙◌,
}
use nanochronometer.Common.Bits.{
  count_ones, count_ones-bit_xor, bit_and-bit_xor, bit_xor_step, bit_or_fields, bit_and_mask,
  digit-lt,
}
use native.Mathlib.Nat.{pow-suc}
use native.Mathlib.Numerals.{add-one}
use nanochronometer.Redundancy.Code.{build_parity_masks, hamming_step, hamming_parities}

-- The parities of `x` under each mask, the first mask lowest.
unfoldable pub parities : List ℕ → ℕ → ℕ
parities [] x = 0
parities (m ∷ ms) x = count_ones 64 (bit_and x m) % 2 + 2 * parities ms x

pub parities-bit_xor :
    (ms : List ℕ) (x y : ℕ) → bit_xor (parities ms x) (parities ms y) ≡ parities ms (bit_xor x y)
unfolding parities
parities-bit_xor [] x y = refl
parities-bit_xor (m ∷ ms) x y = ground (
  arith,
  half (count_ones 64 (bit_and x m)) (parities ms x),
  half (count_ones 64 (bit_and y m)) (parities ms y),
  bit_xor_step (count_ones 64 (bit_and x m) % 2 + 2 * parities ms x)
      (count_ones 64 (bit_and y m) % 2 + 2 * parities ms y),
  parities-bit_xor ms x y,
  bit_and-bit_xor x y m,
  count_ones-bit_xor 64 (bit_and x m) (bit_and y m),
)
  where
    half : (c p : ℕ) → (c % 2 + 2 * p) / 2 ≡ p
    half c p = omega arith

pub parities-lt : (ms : List ℕ) (x : ℕ) → parities ms x < 2 ^ length ms
unfolding parities
parities-lt [] x = omega arith
parities-lt (m ∷ ms) x = omega (arith, parities-lt ms x, pow-suc 2 (length ms))

hamming_step_lem :
    (masks : List ℕ) (word k acc : ℕ)
    → acc < 2 ^ k
    → hamming_step masks word k acc
      ≡ acc + count_ones 64 (bit_and word (get_or masks k 0)) % 2 * 2 ^ k
hamming_step_lem masks word k acc h =
    let c = count_ones 64 (bit_and word (get_or masks k 0)) in
    rw (bit_and_mask 1 c) (bit_or_fields k acc (c % 2) h)

hamming_loop :
    (masks : List ℕ) (word n k acc : ℕ)
    → n + k ≡ length masks
    → acc < 2 ^ k
    → for_range n k (hamming_step masks word) acc ≡ acc + 2 ^ k * parities (drop k masks) word
hamming_loop masks word zero k acc e h =
    let none_left : drop k masks ≡ [] = drop-all masks k (omega arith) in
    rw none_left (unfold parities in omega arith)
hamming_loop masks word (suc n) k acc e h =
    let bit = count_ones 64 (bit_and word (get_or masks k 0)) % 2 in
    let rest = parities (drop (suc k) masks) word in
    let grows : 2 ^ suc k ≡ 2 * 2 ^ k = omega (arith, pow-suc 2 k) in
    rw (hamming_step_lem masks word k acc h, drop-get_or masks k 0 (omega arith), add-one k)
      (hamming_loop masks word n (suc k) (acc + bit * 2 ^ k) (omega arith)
          (rw grows (digit-lt bit (2 ^ k) acc (omega arith) h))
        ∙ unfold parities in omega (arith, ap (λ (t : ℕ). t * rest) grows))

pub hamming-parities : (x : ℕ) → hamming_parities x ≡ parities build_parity_masks x
unfolding hamming_parities
hamming-parities x = hamming_loop build_parity_masks x 7 0 0 refl (omega arith) ∙ omega arith
