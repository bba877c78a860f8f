-- ===== src/HidReport/Runs.antt =====
-- Reports and descriptors at concrete inputs: tests, and the theorems applied.
use nanochronometer.Common.{
  All, ℕ, ◌≡◌, ◌≢◌, refl, arith, true, false, List, [], ◌∷◌, none, some, length,
}
use nanochronometer.Common.Int.{negsuc}
use nanochronometer.HidReport.{Field, PointerLayout, value}
use nanochronometer.HidReport.Descriptor.{
  walk, at_start, out_of_fuel, find_pointer, find_keyboard, find, parse,
}
use nanochronometer.HidReport.Finds.{walk_ends, FoundIn}
use nanochronometer.HidReport.Items.{inputs}
use nanochronometer.HidReport.Digitizers.{Outside, find_pointer-Outside}

-- An eight-bit signed delta.
abbrev delta : Field
delta = record { bit_offset = 8; bit_size = 8; count = 1; signed = true; relative = true }

minus_one : value delta (1 ∷ 255 ∷ []) 0 ≡ negsuc 0
unfolding value
minus_one = refl

-- The three-byte mouse of the source's own tests.
abbrev mouse : List ℕ
mouse =
    0x05 ∷ 0x01 ∷ 0x09 ∷ 0x02 ∷ 0xA1 ∷ 0x01 ∷ 0x09 ∷ 0x01 ∷ 0xA1 ∷ 0x00 ∷ 0x05 ∷ 0x09 ∷ 0x19 ∷ 0x01
    ∷ 0x29 ∷ 0x03 ∷ 0x15 ∷ 0x00 ∷ 0x25 ∷ 0x01 ∷ 0x95 ∷ 0x03 ∷ 0x75 ∷ 0x01 ∷ 0x81 ∷ 0x02 ∷ 0x95
    ∷ 0x01 ∷ 0x75 ∷ 0x05 ∷ 0x81 ∷ 0x03 ∷ 0x05 ∷ 0x01 ∷ 0x09 ∷ 0x30 ∷ 0x09 ∷ 0x31 ∷ 0x15 ∷ 0x81
    ∷ 0x25 ∷ 0x7F ∷ 0x75 ∷ 0x08 ∷ 0x95 ∷ 0x02 ∷ 0x81 ∷ 0x06 ∷ 0xC0 ∷ 0xC0 ∷ []

walk_ends_example : walk (length mouse) at_start mouse ≢ out_of_fuel
walk_ends_example = walk_ends (length mouse) at_start mouse (omega arith)

abbrev mouse_layout : PointerLayout
mouse_layout = record {
  report_id = none;
  body_bytes = 3;
  x = record { bit_offset = 8; bit_size = 8; count = 1; signed = true; relative = true };
  y = record { bit_offset = 16; bit_size = 8; count = 1; signed = true; relative = true };
  buttons =
      some (record { bit_offset = 0; bit_size = 1; count = 3; signed = false; relative = false });
  wheel = none;
}

mouse_found : find_pointer mouse ≡ some mouse_layout
unfolding find_pointer
mouse_found = refl

find_pointer-Outside_example :
    FoundIn mouse mouse_layout × All (Outside mouse_layout) (inputs mouse)
find_pointer-Outside_example = find_pointer-Outside mouse mouse_layout mouse_found

no_keyboard : find_keyboard mouse ≡ none
unfolding find_keyboard parse find
no_keyboard = refl
