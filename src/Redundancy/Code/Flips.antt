-- ===== src/Redundancy/Code/Flips.antt =====
-- One and two flipped bits of the 72-bit codeword: bits 0 to 63 are the data and 64 to 71 the
-- check byte, in the numbering of `inject_flip`.
use nanochronometer.Common.{
  ℕ, ◌+◌, ◌-◌, ◌%◌, ◌^◌, ◌<◌, bit_xor, ◌≡◌, ◌≢◌, refl, sym, ap, subst, ◌∙◌, arith, Bool, true,
  false, not, ◌&&◌, Option, none, some, ltb, ◌==◌, ==_iff, if◌then◌else◌, all_below,
  all_below_sound, Bool-cases, inl, inr,
}
use nanochronometer.Common.Bits.{
  count_ones, count_ones-bit_xor, bit_xor_cancel, bit_xor-zero, bit_xor-low_bits, eq_of_bit_xor,
  bit_xor-lt, bit_xor_interchange,
}
use nanochronometer.Redundancy.Code.{
  hamming_parities, check_bits, corrected, double_error, correct_at, classify, decode,
  position_to_data_index,
}
use nanochronometer.Redundancy.Code.Errors.{
  decode-bit_xor, error_syndrome, odd_error, hamming_parities-bit_xor,
}

-- What a flip of bit `p` does to the data and to the check byte.
abbrev pub data_flip : ℕ → ℕ
data_flip p = if ltb p 64 then 2 ^ p else 0

abbrev pub check_flip : ℕ → ℕ
check_flip p = if ltb p 64 then 0 else 2 ^ (p - 64)

-- The bit that the decoder reports for a flip of bit `p`.
abbrev pub reported_bit : ℕ → ℕ
reported_bit p = if ltb p 64 then p else if p == 71 then 72 else 64 + 2 ^ (p - 64)

syndrome_at : ℕ → ℕ
unfolding hamming_parities count_ones
syndrome_at p = error_syndrome (data_flip p) (check_flip p)

abbrev same_index : Option ℕ → Option ℕ → Bool
same_index none none = true
same_index (some a) (some b) = a == b
same_index none (some b) = false
same_index (some a) none = false

same_index_eq : (a b : Option ℕ) → same_index a b ≡ true → a ≡ b
same_index_eq none none h = refl
same_index_eq (some a) (some b) h = ap some ((==_iff a b).0 h)
same_index_eq none (some b) h = cc
same_index_eq (some a) none h = cc

-- The finite facts, one test for each of the 72 bits.
index_table :
    all_below 72
      (λ p. same_index (position_to_data_index (syndrome_at p)) (if ltb p 64 then some p else none))
    ≡ true
unfolding all_below syndrome_at position_to_data_index
index_table = refl

zero_table : all_below 71 (λ p. not (syndrome_at p == 0)) ≡ true
unfolding all_below syndrome_at
zero_table = refl

report_table : all_below 7 (λ j. syndrome_at (64 + j) == 2 ^ j) ≡ true
unfolding all_below syndrome_at
report_table = refl

odd_table :
    all_below 72 (λ p. odd_error (data_flip p) (check_flip p) && ltb (check_flip p) 256) ≡ true
unfolding all_below count_ones
odd_table = refl

-- The flipped bit, from its syndrome.
abbrev bit_of_syndrome : ℕ → ℕ
bit_of_syndrome s =
    if s == 0
    then 71
    else elim (position_to_data_index s) [ some i ↦ i | none ↦ 64 + count_ones 7 (s - 1) ]

inverse_table : all_below 72 (λ p. bit_of_syndrome (syndrome_at p) == p) ≡ true
unfolding all_below syndrome_at position_to_data_index
inverse_table = refl

index_at :
    (p : ℕ) → p < 72 → position_to_data_index (syndrome_at p) ≡ (if ltb p 64 then some p else none)
index_at p h = same_index_eq _ _ (all_below_sound 72 _ p index_table h)

nonzero_at : (p : ℕ) → p < 71 → (syndrome_at p == 0) ≡ false
nonzero_at p h = ground (arith, all_below_sound 71 _ p zero_table h)

report_at : (j : ℕ) → j < 7 → syndrome_at (64 + j) ≡ 2 ^ j
report_at j h = (==_iff _ _).0 (all_below_sound 7 _ j report_table h)

odd_at : (p : ℕ) → p < 72 → (odd_error (data_flip p) (check_flip p) ≡ true) × (check_flip p < 256)
odd_at p h = ground (arith, all_below_sound 72 _ p odd_table h)

bit_of_syndrome_at : (p : ℕ) → p < 72 → bit_of_syndrome (syndrome_at p) ≡ p
bit_of_syndrome_at p h = (==_iff _ _).0 (all_below_sound 72 _ p inverse_table h)

classify_data_bit :
    (word p s : ℕ)
    → (s == 0) ≡ false
    → position_to_data_index s ≡ some p
    → classify word s true ≡ corrected (bit_xor word (2 ^ p)) p
unfolding classify
classify_data_bit word p s nonzero found = rw nonzero (rw (found, correct_at))

classify_check_bit :
    (word s : ℕ)
    → (s == 0) ≡ false
    → position_to_data_index s ≡ none
    → classify word s true ≡ corrected word (64 + s)
unfolding classify
classify_check_bit word s nonzero found = rw nonzero (rw (found, correct_at))

classify_top_bit : (word : ℕ) → classify word 0 true ≡ corrected word 72
unfolding classify
classify_top_bit word = refl

classify_even : (word s : ℕ) → (s == 0) ≡ false → classify word s false ≡ double_error
unfolding classify
classify_even word s nonzero = rw nonzero

-- The decoder's answer for the codeword of `x` with bit `p` flipped.
classified :
    (x p : ℕ)
    → p < 72
    → decode (bit_xor x (data_flip p)) (bit_xor (check_bits x) (check_flip p))
      ≡ classify (bit_xor x (data_flip p)) (syndrome_at p) true
unfolding syndrome_at
classified x p h =
    let (odd, fits) = odd_at p h in
    decode-bit_xor x (data_flip p) (check_flip p) fits
    ∙ ap (classify (bit_xor x (data_flip p)) (error_syndrome (data_flip p) (check_flip p))) odd

data_bit_flip :
    (x p : ℕ)
    → p < 64
    → classify (bit_xor x (data_flip p)) (syndrome_at p) true ≡ corrected x (reported_bit p)
data_bit_flip x p h = ground (
  arith,
  classify_data_bit (bit_xor x (2 ^ p)) p (syndrome_at p),
  nonzero_at p,
  index_at p,
  bit_xor_cancel x (2 ^ p),
)

check_bit_flip :
    (x j : ℕ)
    → j < 7
    → classify (bit_xor x (data_flip (64 + j))) (syndrome_at (64 + j)) true
      ≡ corrected x (reported_bit (64 + j))
check_bit_flip x j h = ground (
  arith,
  classify_check_bit x (syndrome_at (64 + j)),
  nonzero_at (64 + j),
  index_at (64 + j),
  report_at j,
  bit_xor-zero x,
)

top_bit_flip : (x : ℕ) → classify (bit_xor x (data_flip 71)) (syndrome_at 71) true ≡ corrected x 72
unfolding syndrome_at
top_bit_flip x = rw bit_xor-zero (classify_top_bit x)

-- Whichever one of the 72 bits of a codeword is flipped, the decoder recovers the word. It
-- reports a data bit by its index, a parity bit by 64 plus its place value, the last bit by 72.
pub decode_flip :
    (x p : ℕ)
    → p < 72
    → decode (bit_xor x (data_flip p)) (bit_xor (check_bits x) (check_flip p))
      ≡ corrected x (reported_bit p)
decode_flip x p h = classified x p h ∙ elim (Bool-cases (ltb p 64)) [
  | inl in_word ↦ data_bit_flip x p (ground arith)
  | inr in_check ↦ elim (Bool-cases (p == 71)) [
    | inl top ↦
        let e : 71 ≡ p = ground arith in
        subst
          (λ p.
            classify (bit_xor x (data_flip p)) (syndrome_at p) true ≡ corrected x (reported_bit p))
          e (top_bit_flip x)
    | inr parity ↦
        let e : 64 + (p - 64) ≡ p = ground arith in
        subst
          (λ p.
            classify (bit_xor x (data_flip p)) (syndrome_at p) true ≡ corrected x (reported_bit p))
          e (check_bit_flip x (p - 64) (ground arith))
  ]
]

syndrome_at_lem : (p : ℕ) → syndrome_at p ≡ error_syndrome (data_flip p) (check_flip p)
unfolding syndrome_at
syndrome_at_lem p = refl

two_flips-syndrome :
    (p q : ℕ)
    → error_syndrome (bit_xor (data_flip p) (data_flip q)) (bit_xor (check_flip p) (check_flip q))
      ≡ bit_xor (syndrome_at p) (syndrome_at q)
two_flips-syndrome p q = cc (
  syndrome_at_lem p,
  syndrome_at_lem q,
  hamming_parities-bit_xor (data_flip p) (data_flip q),
  bit_xor-low_bits 7 (check_flip p) (check_flip q),
  bit_xor_interchange (hamming_parities (data_flip p)) (hamming_parities (data_flip q))
      (check_flip p % 128) (check_flip q % 128),
)

two_flips-even :
    (p q : ℕ)
    → p < 72
    → q < 72
    → odd_error (bit_xor (data_flip p) (data_flip q)) (bit_xor (check_flip p) (check_flip q))
      ≡ false
two_flips-even p q h k = ground (
  arith,
  count_ones-bit_xor 64 (data_flip p) (data_flip q),
  count_ones-bit_xor 8 (check_flip p) (check_flip q),
  odd_at p h,
  odd_at q k,
)

two_flips-nonzero :
    (p q : ℕ) → p < 72 → q < 72 → p ≢ q → (bit_xor (syndrome_at p) (syndrome_at q) == 0) ≡ false
two_flips-nonzero p q h k ne = elim (Bool-cases (bit_xor (syndrome_at p) (syndrome_at q) == 0)) [
  | inl zero_sum ↦ absurd (
      ne (
        sym (bit_of_syndrome_at p h)
        ∙ ap bit_of_syndrome (eq_of_bit_xor _ _ ((==_iff _ _).0 zero_sum))
        ∙ bit_of_syndrome_at q k))
  | inr nonzero ↦ nonzero
]

-- Two flipped bits at different places of the 72-bit codeword are reported as a double error.
pub decode_two_flips :
    (x p q : ℕ)
    → p < 72
    → q < 72
    → p ≢ q
    → decode
        (bit_xor x (bit_xor (data_flip p) (data_flip q)))
        (bit_xor (check_bits x) (bit_xor (check_flip p) (check_flip q)))
      ≡ double_error
decode_two_flips x p q h k ne =
    decode-bit_xor x _ _ (bit_xor-lt 8 (check_flip p) (check_flip q) (odd_at p h).1 (odd_at q k).1)
    ∙ rw (two_flips-syndrome p q, two_flips-even p q h k)
        (classify_even _ _ (two_flips-nonzero p q h k ne))
