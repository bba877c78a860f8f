-- ===== src/Aml/Ids/Eisa.antt =====
-- What the identifiers hold: the text they were made of, and a compressed EISA identifier's seven
-- characters.
use nanochronometer.Common.{
  ℕ, zero, suc, ◌+◌, ◌-◌, ◌*◌, ◌/◌, ◌%◌, ◌^◌, ◌<◌, ◌≡◌, refl, ap, sym, ◌∙◌, Bool-cases, inl, inr,
  arith, false, List, [], ◌∷◌, ◌++◌, length, length-set, take-set, set, ltb, ◌==◌, if◌then◌else◌,
  bit_and,
}
use mathlib.Core.List.{append_assoc, append-nil}
use nanochronometer.Common.Bits.{bit_and_mask}
use nanochronometer.Aml.Ids.{
  HardwareId, as_bytes, no_text, add_text, from_text, swap_bytes, eisa_letter, eisa_hex, eisa_text,
  from_eisa,
}

-- The bytes of a text up to its first zero, and no more than `room`.
abbrev pub up_to_zero : ℕ → List ℕ → List ℕ
up_to_zero zero bytes = []
up_to_zero (suc room) [] = []
up_to_zero (suc room) (byte ∷ bytes) = if byte == 0 then [] else byte ∷ up_to_zero room bytes

as_bytes-up_to_zero_nil :
    (room : ℕ) (id : HardwareId) → as_bytes id ≡ as_bytes id ++ up_to_zero room []
as_bytes-up_to_zero_nil zero id = sym (append-nil (as_bytes id))
as_bytes-up_to_zero_nil (suc room) id = sym (append-nil (as_bytes id))

add_text-up_to_zero :
    (room : ℕ) (id : HardwareId) (bytes : List ℕ)
    → id.len + room ≡ length id.text
    → as_bytes (add_text id bytes) ≡ as_bytes id ++ up_to_zero room bytes
add_text-up_to_zero room id [] h = as_bytes-up_to_zero_nil room id
add_text-up_to_zero zero id (byte ∷ bytes) h = ground (arith, append-nil (as_bytes id))
add_text-up_to_zero (suc room) id (byte ∷ bytes) h =
    let longer : HardwareId = record { text = set id.text id.len byte; len = id.len + 1 } in
    let full : (id.len == length id.text) ≡ false = ground arith in
    elim (Bool-cases (byte == 0)) [
      | inl ended ↦ rw ended (sym (append-nil (as_bytes id)))
      | inr more ↦
          rw (more, full)
            (add_text-up_to_zero room longer bytes (omega (arith, length-set id.text id.len byte))
              ∙ ap (λ t. t ++ up_to_zero room bytes) (take-set id.text id.len byte (omega arith))
              ∙ append_assoc (as_bytes id) (byte ∷ []) (up_to_zero room bytes))
    ]

-- An identifier holds the text it was made of, up to the first zero byte and to sixteen bytes.
pub as_bytes-from_text : (bytes : List ℕ) → as_bytes (from_text bytes) ≡ up_to_zero 16 bytes
unfolding from_text
as_bytes-from_text bytes = add_text-up_to_zero 16 no_text bytes refl

swap_bytes-parts :
    (p q r s : ℕ)
    → p < 256
    → q < 256
    → r < 256
    → s < 256
    → swap_bytes (p * 2 ^ 24 + q * 2 ^ 16 + r * 2 ^ 8 + s) ≡ s * 2 ^ 24 + r * 2 ^ 16 + q * 2 ^ 8 + p
swap_bytes-parts p q r s hp hq hr hs = omega arith

swap_bytes_twice : (x : ℕ) → x < 2 ^ 32 → swap_bytes (swap_bytes x) ≡ x
swap_bytes_twice x h =
    swap_bytes-parts (x % 2 ^ 8) (x / 2 ^ 8 % 2 ^ 8) (x / 2 ^ 16 % 2 ^ 8) (x / 2 ^ 24 % 2 ^ 8)
      (omega arith) (omega arith) (omega arith) (omega arith)
    ∙ omega arith

abbrev pub hex_digit : ℕ → ℕ
hex_digit nibble = if ltb nibble 10 then b'0' + nibble else b'A' + nibble - 10

-- The compressed form of an EISA identifier: three letters in five bits each and a number of four
-- hexadecimal digits, in the other byte order.
abbrev pub eisa : ℕ → ℕ → ℕ → ℕ → ℕ
eisa a b c n = swap_bytes (a * 2 ^ 26 + b * 2 ^ 21 + c * 2 ^ 16 + n)

eisa_letter_lem : (x shift : ℕ) → eisa_letter x shift ≡ b'@' + x / 2 ^ shift % 32
eisa_letter_lem x shift = omega (arith, bit_and_mask 5 (x / 2 ^ shift))

eisa_hex_lem : (x shift : ℕ) → eisa_hex x shift ≡ hex_digit (x / 2 ^ shift % 16)
eisa_hex_lem x shift =
    let nibble : bit_and (x / 2 ^ shift) 0xF % 2 ^ 8 ≡ x / 2 ^ shift % 16 =
      omega (arith, bit_and_mask 4 (x / 2 ^ shift)) in
    ap hex_digit nibble

-- Three letters and the digits of a number.
abbrev pub eisa_name : ℕ → ℕ → ℕ → ℕ → ℕ → ℕ → ℕ → List ℕ
eisa_name a b c m n o p =
    (b'@' + a)
    ∷ (b'@' + b)
    ∷ (b'@' + c)
    ∷ hex_digit m
    ∷ hex_digit n
    ∷ hex_digit o
    ∷ hex_digit p
    ∷ []

eisa_text_lem :
    (x : ℕ)
    → eisa_text x
      ≡ eisa_name
          (x / 2 ^ 26 % 32)
          (x / 2 ^ 21 % 32)
          (x / 2 ^ 16 % 32)
          (x / 2 ^ 12 % 16)
          (x / 2 ^ 8 % 16)
          (x / 2 ^ 4 % 16)
          (x / 2 ^ 0 % 16)
eisa_text_lem x =
    rw
      (
        eisa_letter_lem x 26,
        eisa_letter_lem x 21,
        eisa_letter_lem x 16,
        eisa_hex_lem x 12,
        eisa_hex_lem x 8,
        eisa_hex_lem x 4,
        eisa_hex_lem x 0,
      )
      refl

-- The seven characters hold no zero byte.
up_to_zero-eisa_name :
    (a b c m n o p : ℕ) → up_to_zero 16 (eisa_name a b c m n o p) ≡ eisa_name a b c m n o p
up_to_zero-eisa_name a b c m n o p = ground arith

-- A compressed EISA identifier decodes to its three letters and four digits.
pub from_eisa-eisa :
    (a b c n : ℕ)
    → a < 32
    → b < 32
    → c < 32
    → n < 2 ^ 16
    → as_bytes (from_eisa (eisa a b c n))
      ≡ eisa_name a b c (n / 2 ^ 12) (n / 2 ^ 8 % 16) (n / 2 ^ 4 % 16) (n % 16)
unfolding from_eisa
from_eisa-eisa a b c n ha hb hc hn =
    let x = a * 2 ^ 26 + b * 2 ^ 21 + c * 2 ^ 16 + n in
    let back = swap_bytes_twice x (omega arith) in
    let a' = x / 2 ^ 26 % 32 in
    let b' = x / 2 ^ 21 % 32 in
    let c' = x / 2 ^ 16 % 32 in
    let m' = x / 2 ^ 12 % 16 in
    let n' = x / 2 ^ 8 % 16 in
    let o' = x / 2 ^ 4 % 16 in
    let p' = x / 2 ^ 0 % 16 in
    let first : a' ≡ a = omega arith in
    let second : b' ≡ b = omega arith in
    let third : c' ≡ c = omega arith in
    let d₁ : m' ≡ n / 2 ^ 12 = omega arith in
    let d₂ : n' ≡ n / 2 ^ 8 % 16 = omega arith in
    let d₃ : o' ≡ n / 2 ^ 4 % 16 = omega arith in
    let d₄ : p' ≡ n % 16 = omega arith in
    ap (λ y. as_bytes (from_text (eisa_text y))) back
    ∙ as_bytes-from_text (eisa_text x)
    ∙ ap (up_to_zero 16) (eisa_text_lem x)
    ∙ up_to_zero-eisa_name a' b' c' m' n' o' p'
    ∙ rw (first, second, third, d₁, d₂, d₃, d₄) refl
