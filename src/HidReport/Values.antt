-- ===== src/HidReport/Values.antt =====
-- The range of the values that a field reads.
use nanochronometer.Common.{
  ℕ, zero, suc, ◌+◌, ◌-◌, ◌*◌, ◌/◌, ◌%◌, ◌^◌, ◌≤◌, ◌<◌, ◌≡◌, refl, arith, ◌⊎◌, Bool, true,
  Bool-cases, inl, inr, List, Option, none, some, bit_and, ltb, leb, ◌==◌, ◌&&◌, ◌||◌, get_elem?,
  as_u64, subst, all_below, all_below_sound, if◌then◌else◌,
}
use nanochronometer.Common.Bits.{bit_or_fields, bit_and_mask}
use nanochronometer.Common.Int.{ℤ, pos, negsuc, pos_part, neg_part}
use nanochronometer.HidReport.{Field, value, read_bits, sign_extend, add_bit}
use native.Mathlib.Nat.{pow-suc, one-le-pow, div-lt_iff_lt-mul, le-div_iff_mul-le}

-- The two's complement reading of `size` bits.
abbrev pub twos_complement : ℕ → ℕ → ℤ
twos_complement size raw = if ltb raw (2 ^ (size - 1)) then pos raw else negsuc (2 ^ size - 1 - raw)

add_bit-lt : (at bit raw byte : ℕ) → raw < 2 ^ bit → add_bit at bit raw byte < 2 ^ (bit + 1)
add_bit-lt at bit raw byte h = ground (arith, bit_or_fields bit raw 1 h, pow-suc 2 bit)

-- The bits read fit the rounds made.
abbrev Fits : ℕ → Option ℕ → Type 0
Fits w none = Unit
Fits w (some raw) = raw < 2 ^ w

after_byte :
    (o : Option ℕ) (w : ℕ) (next : ℕ → Option ℕ)
    → ((byte : ℕ) → Fits w (next byte))
    → Fits w (elim o [ none ↦ none | some byte ↦ next byte ])
after_byte none w next h = tt
after_byte (some byte) w next h = h byte

read_bits-Fits :
    (rounds bit start raw w : ℕ) (body : List ℕ)
    → raw < 2 ^ bit
    → bit + rounds ≡ w
    → Fits w (read_bits rounds bit start raw body)
unfolding read_bits
read_bits-Fits zero bit start raw w body h e =
    let same : bit ≡ w = omega arith in subst (λ w. raw < 2 ^ w) same h
read_bits-Fits (suc rounds) bit start raw w body h e =
    let at = as_u64 (start + bit) in
    after_byte (get_elem? body (at / 8)) w
      (λ byte. read_bits rounds (bit + 1) start (add_bit at bit raw byte) body)
      (λ byte.
        read_bits-Fits rounds (bit + 1) start (add_bit at bit raw byte) w body
          (add_bit-lt at bit raw byte h) (omega arith))

-- The sign extension of a field of fewer than 32 bits is its two's complement reading.
sign_bit : (size raw : ℕ) → bit_and (raw / 2 ^ (size - 1)) 1 ≡ raw / 2 ^ (size - 1) % 2
sign_bit size raw = bit_and_mask 1 (raw / 2 ^ (size - 1))

-- The powers of two that a field of 1 to 31 bits takes, checked one by one.
powers_fit : ℕ → Bool
powers_fit size =
    (2 ^ suc size == 2 * 2 ^ size)
    && (leb (2 ^ size) (2 ^ 30) && (2 ^ 32 - 2 ^ suc size == (2 ^ (31 - size) - 1) * 2 ^ suc size))

powers_table : all_below 31 powers_fit ≡ true
unfolding all_below powers_fit
powers_table = refl

powers :
    (size : ℕ)
    → size < 31
    → (2 ^ suc size ≡ 2 * 2 ^ size)
      × (2 ^ size ≤ 2 ^ 30)
      × (2 ^ 32 - 2 ^ suc size ≡ (2 ^ (31 - size) - 1) * 2 ^ suc size)
unfolding powers_fit
powers size h =
    let checked = all_below_sound 31 powers_fit size powers_table h in ground (arith, checked)

-- The highest digit of a number below twice a power.
high_digit :
    (raw p : ℕ) → 0 < p → raw < 2 * p → ((raw < p) × (raw / p ≡ 0)) ⊎ ((p ≤ raw) × (raw / p ≡ 1))
high_digit raw p h k = elim (Bool-cases (ltb raw p)) [
  | inl low ↦
      let less : raw < p = ground arith in
      let few : raw / p < 1 = (div-lt_iff_lt-mul h).1 (omega arith) in inl (less, omega arith)
  | inr high ↦
      let more : p ≤ raw = ground arith in
      let some_left : 1 ≤ raw / p = (le-div_iff_mul-le h).1 (omega arith) in
      let few : raw / p < 2 = (div-lt_iff_lt-mul h).1 (omega arith) in inr (more, omega arith)
]

-- `size` is one less than the width here.
sign_extend_lem :
    (size raw : ℕ)
    → size < 31
    → raw < 2 ^ suc size
    → sign_extend true (suc size) raw ≡ twos_complement (suc size) raw
unfolding sign_extend
sign_extend_lem size raw h k =
    let (double, small, top) = powers size h in
    let one_less : suc size - 1 ≡ size = omega arith in
    let digit = bit_and_mask 1 (raw / 2 ^ size) in
    let extended = bit_or_fields (suc size) raw (2 ^ (31 - size) - 1) k in
    let narrow : ltb (suc size) 32 ≡ true = ground arith in
    elim (high_digit raw (2 ^ size) (one-le-pow size 2 (omega arith)) (omega arith)) [
      | inl low ↦ rw (one_less, narrow, digit, low.1) (ground arith)
      | inr high ↦ rw (one_less, narrow, digit, high.1, top, extended) (ground arith)
    ]

-- The range of a two's complement number of `suc size` bits.
abbrev pub InRange : ℕ → ℤ → Type 0
InRange size v = (pos_part v < 2 ^ size) × (neg_part v ≤ 2 ^ size)

twos_complement-InRange :
    (size raw : ℕ)
    → 2 ^ suc size ≡ 2 * 2 ^ size
    → raw < 2 ^ suc size
    → InRange size (twos_complement (suc size) raw)
twos_complement-InRange size raw double h =
    let one_less : suc size - 1 ≡ size = omega arith in rw one_less (ground arith)

read-InRange :
    (size bits : ℕ) (signed : Bool) (o : Option ℕ)
    → size < 31
    → bits ≡ suc size
    → signed ≡ true
    → Fits (suc size) o
    → InRange size (elim o [ none ↦ pos 0 | some raw ↦ sign_extend signed bits raw ])
read-InRange size bits signed none h width sign k = (one-le-pow size 2 (omega arith), omega arith)
read-InRange size bits signed (some raw) h width sign k =
    rw (sign, width, sign_extend_lem size raw h k)
      (twos_complement-InRange size raw (powers size h).0 k)

value_of_width :
    (size : ℕ) (f : Field) (body : List ℕ) (index : ℕ)
    → size < 31
    → f.bit_size ≡ suc size
    → f.signed ≡ true
    → InRange size (value f body index)
unfolding value
value_of_width size f body index h width sign =
    elim (Bool-cases (leb f.count index || (f.bit_size == 0 || ltb 32 f.bit_size))) [
      | inl refused ↦ rw refused (one-le-pow size 2 (omega arith), omega arith)
      | inr read ↦
          let start = as_u64 (f.bit_offset + as_u64 (index * f.bit_size)) in
          rw read (
            read-InRange size f.bit_size f.signed (read_bits f.bit_size 0 start 0 body) h width sign
              (read_bits-Fits f.bit_size 0 start 0 (suc size) body (omega arith) (omega arith)))
    ]

-- A signed field of 1 to 31 bits gives a value in the range of its width, for every report and
-- index: at most 2 ^ (size - 1) below zero, and less than that above it.
pub value-InRange :
    (f : Field) (body : List ℕ) (index : ℕ)
    → 0 < f.bit_size
    → f.bit_size < 32
    → f.signed ≡ true
    → InRange (f.bit_size - 1) (value f body index)
value-InRange f body index h k sign =
    value_of_width (f.bit_size - 1) f body index (omega arith) (omega arith) sign
