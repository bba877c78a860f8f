-- ===== src/HidReport.antt =====
-- crates/nanochrono-core/src/hid_report.rs: the fields of a report and what is decoded from them.
-- A report is the list of its bytes; `usize` arithmetic wraps at 2^64, as in a release build.
-- `Descriptor` is the parser of report descriptors, which finds the layouts, over `State`.
pub mod State
pub mod Slots
pub mod Descriptor
pub mod Values
pub mod Finds
pub mod Items
pub mod Digitizers
mod Runs
use nanochronometer.Common.{
  ℕ, zero, suc, ◌+◌, ◌-◌, ◌*◌, ◌/◌, ◌%◌, ◌^◌, bit_and, bit_or, Bool, true, false, ◌&&◌, ◌||◌, not,
  List, [], ◌∷◌, Option, none, some, ltb, leb, ◌==◌, if◌then◌else◌, get_elem?, set, replicate,
  as_u64, for_range, min,
}
use nanochronometer.Common.Int.{ℤ, pos, negsuc}

pub record Field : Type 0 where
  pub bit_offset : ℕ
  pub bit_size : ℕ
  pub count : ℕ
  pub signed : Bool
  pub relative : Bool

-- `raw as i32`
abbrev pub as_i32 : ℕ → ℤ
as_i32 raw = if ltb raw (2 ^ 31) then pos raw else negsuc (2 ^ 32 - 1 - raw)

abbrev pub add_bit : ℕ → ℕ → ℕ → ℕ → ℕ
add_bit at bit raw byte =
    if not (bit_and (byte / 2 ^ (at % 8)) 1 == 0) then bit_or raw (2 ^ bit) else raw

-- The loop of `value` with the rounds left; `none` is its `return 0`.
unfoldable pub read_bits : ℕ → ℕ → ℕ → ℕ → List ℕ → Option ℕ
read_bits zero bit start raw body = some raw
read_bits (suc rounds) bit start raw body =
    let at = as_u64 (start + bit) in
    elim (get_elem? body (at / 8)) [
      | none ↦ none
      | some byte ↦ read_bits rounds (bit + 1) start (add_bit at bit raw byte) body
    ]

-- `raw | (!0u32 << size)` where the sign bit is set.
unfoldable pub sign_extend : Bool → ℕ → ℕ → ℤ
sign_extend signed size raw =
    if signed && (ltb size 32 && not (bit_and (raw / 2 ^ (size - 1)) 1 == 0))
    then as_i32 (bit_or raw (2 ^ 32 - 2 ^ size))
    else as_i32 raw

unfoldable pub value : Field → List ℕ → ℕ → ℤ
unfolding read_bits sign_extend
value f body index =
    if leb f.count index || (f.bit_size == 0 || ltb 32 f.bit_size)
    then pos 0
    else elim (read_bits f.bit_size 0 (as_u64 (f.bit_offset + as_u64 (index * f.bit_size))) 0
        body) [ none ↦ pos 0 | some raw ↦ sign_extend f.signed f.bit_size raw ]

abbrev pub is_zero : ℤ → Bool
is_zero (pos n) = n == 0
is_zero (negsuc n) = false

unfoldable pub bit : Field → List ℕ → ℕ → Bool
unfolding value
bit f body index = not (is_zero (value f body index))

pub record Movement : Type 0 where
  pub dx : ℤ
  pub dy : ℤ
  pub wheel : ℤ
  pub left : Bool
  pub right : Bool
  pub middle : Bool

pub record PointerLayout : Type 0 where
  pub report_id : Option ℕ
  pub body_bytes : ℕ
  pub x : Field
  pub y : Field
  pub buttons : Option Field
  pub wheel : Option Field

pub record KeyboardLayout : Type 0 where
  pub report_id : Option ℕ
  pub body_bytes : ℕ
  pub modifiers : Option Field
  pub keys : Field

-- The body of a report of this layout: without the ID byte, which must be the layout's.
unfoldable pub body_of : Option ℕ → List ℕ → Option (List ℕ)
body_of none report = some report
body_of (some id) [] = none
body_of (some id) (first ∷ rest) = if first == id then some rest else none

abbrev pub wheel_value : Option Field → List ℕ → ℤ
wheel_value none body = pos 0
wheel_value (some f) body = value f body 0

abbrev pub button_of : Option Field → List ℕ → ℕ → Bool
button_of none body index = false
button_of (some f) body index = ltb index f.count && bit f body index

unfoldable pub button : PointerLayout → List ℕ → ℕ → Bool
button layout body index = button_of layout.buttons body index

abbrev pub movement_of : PointerLayout → List ℕ → Movement
movement_of layout body = record {
  dx = value layout.x body 0;
  dy = value layout.y body 0;
  wheel = wheel_value layout.wheel body;
  left = button layout body 0;
  right = button layout body 1;
  middle = button layout body 2;
}

unfoldable pub decode_pointer : PointerLayout → List ℕ → Option Movement
unfolding body_of button
decode_pointer layout report = elim (body_of layout.report_id report) [
  | none ↦ none
  | some body ↦ some (movement_of layout body)
]

-- The modifier bits, one for each of the first eight values.
abbrev pub modifier_bits : Option Field → List ℕ → ℕ
modifier_bits none body = 0
modifier_bits (some f) body =
    for_range (min f.count 8) 0
      (λ index bits. if bit f body index then bit_or bits (2 ^ index) else bits) 0

-- `u8::try_from(usage).unwrap_or(0)`
abbrev pub usage_byte : ℤ → ℕ
usage_byte (pos n) = if ltb n 256 then n else 0
usage_byte (negsuc n) = 0

unfoldable pub boot_report : KeyboardLayout → List ℕ → List ℕ
unfolding bit
boot_report layout body =
    for_range (min layout.keys.count 6) 0
      (λ slot out. set out (2 + slot) (usage_byte (value layout.keys body slot)))
      (set (replicate 8 0) 0 (modifier_bits layout.modifiers body))

unfoldable pub decode_keyboard : KeyboardLayout → List ℕ → Option (List ℕ)
unfolding body_of boot_report
decode_keyboard layout report = elim (body_of layout.report_id report) [
  | none ↦ none
  | some body ↦ some (boot_report layout body)
]
