-- ===== src/Aml/Ids.antt =====
-- crates/nanochrono-core/src/aml.rs: hardware identifiers. An identifier is an array of sixteen
-- bytes and the number of those in use.
pub mod Eisa
use nanochronometer.Common.{
  ℕ, zero, suc, ◌+◌, ◌-◌, ◌*◌, ◌/◌, ◌%◌, ◌^◌, Bool, true, false, ◌&&◌, ◌||◌, List, [], ◌∷◌, length,
  set, take, replicate, ltb, leb, ◌==◌, if◌then◌else◌, bit_and, as_u8,
}

pub record HardwareId : Type 0 where
  pub text : List ℕ
  pub len : ℕ

abbrev pub as_bytes : HardwareId → List ℕ
as_bytes id = take id.len id.text

abbrev pub lower : ℕ → ℕ
lower c = if leb b'A' c && leb c b'Z' then c + 32 else c

-- `eq_ignore_ascii_case`
abbrev pub same_ignoring_case : List ℕ → List ℕ → Bool
same_ignoring_case [] [] = true
same_ignoring_case [] (y ∷ ys) = false
same_ignoring_case (x ∷ xs) [] = false
same_ignoring_case (x ∷ xs) (y ∷ ys) = (lower x == lower y) && same_ignoring_case xs ys

unfoldable pub matches : HardwareId → List ℕ → Bool
matches id name = same_ignoring_case (as_bytes id) name

abbrev pub no_text : HardwareId
no_text = record { text = replicate 16 0; len = 0 }

abbrev pub add_text : HardwareId → List ℕ → HardwareId
add_text id [] = id
add_text id (byte ∷ bytes) =
    let more = add_text (record { text = set id.text id.len byte; len = id.len + 1 }) bytes in
    if (byte == 0) || (id.len == length id.text) then id else more

unfoldable pub from_text : List ℕ → HardwareId
from_text = add_text no_text

-- `u32::swap_bytes`
abbrev pub swap_bytes : ℕ → ℕ
swap_bytes x =
    x % 2 ^ 8 * 2 ^ 24
    + x / 2 ^ 8 % 2 ^ 8 * 2 ^ 16
    + x / 2 ^ 16 % 2 ^ 8 * 2 ^ 8
    + x / 2 ^ 24 % 2 ^ 8

abbrev pub eisa_letter : ℕ → ℕ → ℕ
eisa_letter swapped shift = b'@' + as_u8 (bit_and (swapped / 2 ^ shift) 0x1F)

abbrev pub eisa_hex : ℕ → ℕ → ℕ
eisa_hex swapped shift =
    let nibble = as_u8 (bit_and (swapped / 2 ^ shift) 0xF) in
    if ltb nibble 10 then b'0' + nibble else b'A' + nibble - 10

abbrev pub eisa_text : ℕ → List ℕ
eisa_text swapped =
    eisa_letter swapped 26
    ∷ eisa_letter swapped 21
    ∷ eisa_letter swapped 16
    ∷ eisa_hex swapped 12
    ∷ eisa_hex swapped 8
    ∷ eisa_hex swapped 4
    ∷ eisa_hex swapped 0
    ∷ []

unfoldable pub from_eisa : ℕ → HardwareId
from_eisa compressed = from_text (eisa_text (swap_bytes compressed))
