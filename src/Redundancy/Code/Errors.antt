-- ===== src/Redundancy/Code/Errors.antt =====
-- What the decoder of the Hamming(72,64) code sees of a codeword with an error in it: the error
-- alone. Then one flipped bit, and two.
use nanochronometer.Common.{
  ℕ, ◌+◌, ◌*◌, ◌/◌, ◌%◌, ◌^◌, ◌<◌, bit_and, bit_xor, ◌≡◌, refl, sym, ap, ◌∙◌, arith, Bool, true,
  false, not, ◌==◌, ==_iff, all_below, all_below_sound,
}
use nanochronometer.Common.Bits.{
  count_ones, count_ones-bit_xor, bit_xor_assoc, bit_xor_comm, bit_xor_cancel, bit_xor-zero,
  bit_xor-shift, bit_xor-low_bits, bit_or_fields, bit_and_mask, bit_xor-digits,
}
use nanochronometer.Redundancy.Code.{
  build_parity_masks, hamming_parities, check_bits, Decoded, classify, decode,
}
use nanochronometer.Redundancy.Code.Linear.{parities-lt, parities-bit_xor, hamming-parities}

pub hamming_parities-lt : (x : ℕ) → hamming_parities x < 128
unfolding build_parity_masks
hamming_parities-lt x = rw hamming-parities (parities-lt build_parity_masks x)

pub hamming_parities-bit_xor :
    (x y : ℕ) → hamming_parities (bit_xor x y) ≡ bit_xor (hamming_parities x) (hamming_parities y)
hamming_parities-bit_xor x y = simp hamming-parities (sym (parities-bit_xor build_parity_masks x y))

abbrev overall : ℕ → ℕ
overall x = (count_ones 64 x + count_ones 8 (hamming_parities x)) % 2

check_bits-fields : (x : ℕ) → check_bits x ≡ hamming_parities x + overall x * 128
unfolding check_bits
check_bits-fields x = bit_or_fields 7 (hamming_parities x) (overall x) (hamming_parities-lt x)

check_bits-low : (x : ℕ) → check_bits x % 128 ≡ hamming_parities x
check_bits-low x = omega (arith, check_bits-fields x, hamming_parities-lt x)

check_bits-high : (x : ℕ) → check_bits x / 128 ≡ overall x
check_bits-high x = omega (arith, check_bits-fields x, hamming_parities-lt x)

pub check_bits-lt : (x : ℕ) → check_bits x < 256
check_bits-lt x = omega (arith, check_bits-fields x, hamming_parities-lt x)

-- (h ^ e) ^ (h ^ f) = e ^ f
common_cancels : (h e f : ℕ) → bit_xor (bit_xor h e) (bit_xor h f) ≡ bit_xor e f
common_cancels h e f = cc (bit_xor_comm h e, bit_xor_assoc (bit_xor e h) h f, bit_xor_cancel e h)

byte_weight_table : all_below 256 (λ f. count_ones 8 f == count_ones 8 (f % 128) + f / 128) ≡ true
unfolding all_below count_ones
byte_weight_table = refl

byte_weight : (f : ℕ) → f < 256 → count_ones 8 f ≡ count_ones 8 (f % 128) + f / 128
byte_weight f h = (==_iff _ _).0 (all_below_sound 256 _ f byte_weight_table h)

-- The digit above the seven parities, after an error `f` in the check byte.
top_digit : (x f : ℕ) → f < 256 → bit_xor (check_bits x) f / 128 ≡ (overall x + f / 128) % 2
top_digit x f h =
    let low : overall x < 2 = omega arith in
    bit_xor-shift 7 (check_bits x) f
    ∙ ap (λ t. bit_xor t (f / 128)) (check_bits-high x)
    ∙ bit_xor-digits (overall x) (f / 128) low (omega arith)

low_digits : (x f : ℕ) → bit_xor (check_bits x) f % 128 ≡ bit_xor (hamming_parities x) (f % 128)
low_digits x f =
    bit_xor-low_bits 7 (check_bits x) f ∙ ap (λ t. bit_xor t (f % 128)) (check_bits-low x)

-- The number of flipped bits is odd.
abbrev pub odd_error : ℕ → ℕ → Bool
odd_error e f = (count_ones 64 e + count_ones 8 f) % 2 == 1

-- The syndrome of an error: what it does to the seven Hamming parities.
abbrev pub error_syndrome : ℕ → ℕ → ℕ
error_syndrome e f = bit_xor (hamming_parities e) (f % 128)

syndrome_lem :
    (x e f : ℕ)
    → bit_xor (hamming_parities (bit_xor x e)) (bit_and (bit_xor (check_bits x) f) 0x7f)
      ≡ error_syndrome e f
syndrome_lem x e f =
    ap (bit_xor (hamming_parities (bit_xor x e))) (bit_and_mask 7 _ ∙ low_digits x f)
    ∙ ap (λ t. bit_xor t (bit_xor (hamming_parities x) (f % 128))) (hamming_parities-bit_xor x e)
    ∙ common_cancels (hamming_parities x) (hamming_parities e) (f % 128)

parity_lem :
    (x e f : ℕ)
    → f < 256
    → not (
        (count_ones 64 (bit_xor x e) + count_ones 8 (bit_and (bit_xor (check_bits x) f) 0x7f)) % 2
        == bit_and (bit_xor (check_bits x) f / 2 ^ 7) 1)
      ≡ odd_error e f
parity_lem x e f h = ground (
  arith,
  bit_and_mask 7 (bit_xor (check_bits x) f),
  low_digits x f,
  bit_and_mask 1 (bit_xor (check_bits x) f / 128),
  top_digit x f h,
  count_ones-bit_xor 64 x e,
  count_ones-bit_xor 8 (hamming_parities x) (f % 128),
  byte_weight f h,
)

-- The decoder of a damaged codeword, whose data has the error `e` and whose check byte has the
-- error `f`, a byte, classifies it by the syndrome and the parity of the error alone, whatever
-- the word was.
pub decode-bit_xor :
    (x e f : ℕ)
    → f < 256
    → decode (bit_xor x e) (bit_xor (check_bits x) f)
      ≡ classify (bit_xor x e) (error_syndrome e f) (odd_error e f)
unfolding decode
decode-bit_xor x e f h = rw (syndrome_lem x e f, parity_lem x e f h)

no_error : (error_syndrome 0 0 ≡ 0) × (odd_error 0 0 ≡ false)
unfolding hamming_parities count_ones
no_error = (refl, refl)

classify_no_error : (x : ℕ) → classify x 0 false ≡ Decoded.clean
unfolding classify
classify_no_error x = refl

-- An undamaged codeword decodes as such.
pub decode-check_bits : (x : ℕ) → decode x (check_bits x) ≡ Decoded.clean
unfolding hamming_parities
decode-check_bits x =
    let plain : decode x (check_bits x) ≡ classify x (error_syndrome 0 0) (odd_error 0 0) =
      simp bit_xor-zero at (decode-bit_xor x 0 0 (omega arith)) in
    rw (no_error.0, no_error.1) at plain ∙ classify_no_error x
