-- ===== src/Aml/Runs.antt =====
-- The bytecode reader at concrete inputs: tests, and the theorems applied.
use nanochronometer.Common.{
  ℕ, ◌+◌, ◌≡◌, ◌≢◌, refl, arith, Bool, true, false, List, [], ◌∷◌, ◌++◌, Option, none, some, length,
  replicate, map,
}
use nanochronometer.Aml.Names.{
  NamePath, NameSeg, Span, segments, render, parse_path, root, blank, leaf,
}
use nanochronometer.Aml.Names.Printed.{letters, parse_path-render}
use nanochronometer.Aml.Cursor.{read, failed, integer, package_span, name}
use nanochronometer.Aml.Cursor.Within.{Within, From}
use nanochronometer.Aml.Cursor.Little.{length_encoded, package-length_encoded}
use nanochronometer.Aml.Ids.{as_bytes, from_eisa, from_text, matches}
use nanochronometer.Aml.Ids.Eisa.{eisa, eisa_name, from_eisa-eisa}
use nanochronometer.Aml.Resources.{I2cSerialBus, MemoryRegion, resources}
use nanochronometer.Aml.Resources.Framing.{
  Descriptor, small, large, encoded_all, decoded, end_tag, resources-encoded_all,
}
use nanochronometer.Aml.Skip.{skip_term_arg}
use nanochronometer.Aml.Skip.Bounds.{skip_term_arg-Within}
use nanochronometer.Aml.Devices.{AcpiDevice, is_device}
use nanochronometer.Aml.Walk.{walked, walk, find_device}
use nanochronometer.Aml.Walk.Sound.{Sound}
use nanochronometer.Aml.Walk.Ends.{Wanted, find_device-Wanted, walk-Sound}
use nanochronometer.Aml.Members.{method_of, find_member}
use nanochronometer.Aml.Data.{integer_value}
use nanochronometer.Aml.Interpreter.{ran, ran_out, spend, eval}
use nanochronometer.Aml.Methods.{evaluate_member_with, statement_of}
use nanochronometer.Aml.Methods.Ends.{evaluate_member_with_ends}

-- The path \I2CC.TPD_, as the walk may leave it, with an old segment in its third slot.
abbrev touchpad_path : NamePath
touchpad_path = record {
  slots =
      (b'I' ∷ b'2' ∷ b'C' ∷ b'C' ∷ [])
      ∷ (b'T' ∷ b'P' ∷ b'D' ∷ b'_' ∷ [])
      ∷ (b'O' ∷ b'L' ∷ b'D' ∷ b'_' ∷ [])
      ∷ replicate 5 blank;
  len = 2;
}

parse_path-render_example :
    (back : NamePath) × (parse_path (render 41 touchpad_path) ≡ some back)
    × (segments back ≡ segments touchpad_path)
parse_path-render_example =
    parse_path-render 41 touchpad_path (record { slots_length = refl; len_le = omega arith })
      (
        letters b'I' b'2' b'C' b'C' refl refl refl refl,
        (letters b'T' b'P' b'D' b'_' refl refl refl refl, tt),
      )
      (omega arith) (omega arith)

abbrev long_package : List ℕ
long_package = length_encoded 1 70 ++ replicate 80 0

package-length_encoded_example :
    package_span long_package 0 ≡ read (record { start = 2; end = 70 }) 2
package-length_encoded_example =
    package-length_encoded long_package 0 1 70 (replicate 80 0) refl (omega arith) (omega arith)
      (omega arith) (omega arith)

from_eisa-eisa_example : as_bytes (from_eisa (eisa 16 14 16 0x0C50)) ≡ eisa_name 16 14 16 0 12 5 0
from_eisa-eisa_example =
    from_eisa-eisa 16 14 16 0x0C50 (omega arith) (omega arith) (omega arith) (omega arith)

-- PNP0C50
touchpad_id : as_bytes (from_eisa 0x500CD041) ≡ b'P' ∷ b'N' ∷ b'P' ∷ b'0' ∷ b'C' ∷ b'5' ∷ b'0' ∷ []
unfolding from_eisa from_text
touchpad_id = refl

abbrev two_descriptors : List Descriptor
two_descriptors = small 4 (1 ∷ 2 ∷ []) ∷ large 0x06 (replicate 3 7) ∷ []

resources-encoded_all_example :
    resources (encoded_all two_descriptors ++ (end_tag ∷ 9 ∷ []))
    ≡ some (map decoded two_descriptors)
resources-encoded_all_example =
    resources-encoded_all two_descriptors (9 ∷ [])
      ((omega arith, omega arith), ((omega arith, omega arith), tt))

abbrev windows : List MemoryRegion
windows = record { base = 0xFED0_0000; length = 0x1000; writable = true } ∷ []

-- Store (Add (Local0, 1), Local1)
abbrev a_store : List ℕ
a_store = 0x70 ∷ 0x72 ∷ 0x60 ∷ 0x01 ∷ 0x00 ∷ 0x61 ∷ []

skip_term_arg-Within_example : Within (From 1) 0 6 (skip_term_arg a_store 7 0)
skip_term_arg-Within_example =
    skip_term_arg-Within a_store 0 7 0 (omega arith) (omega arith) (omega arith)

-- The whole term is stepped over.
store_skipped : skip_term_arg a_store 7 0 ≡ read tt 6
unfolding skip_term_arg
store_skipped = refl

-- Device (DEV0) { Name (_HID, EisaId ("PNP0C50")) } behind a header.
abbrev touchpad_table : List ℕ
touchpad_table =
    replicate 36 0
    ++ (0x5B ∷ 0x82 ∷ 0x0F ∷ b'D' ∷ b'E' ∷ b'V' ∷ b'0' ∷ 0x08 ∷ b'_' ∷ b'H' ∷ b'I' ∷ b'D' ∷ 0x0C
        ∷ 0x41 ∷ 0xD0 ∷ 0x0C ∷ 0x50 ∷ [])

abbrev is_touchpad : AcpiDevice → Bool
is_touchpad device = is_device device (b'P' ∷ b'N' ∷ b'P' ∷ b'0' ∷ b'C' ∷ b'5' ∷ b'0' ∷ [])

find_device-Wanted_example :
    (go : Bool) × (scope : NamePath) × (found : Option AcpiDevice) × (find_device touchpad_table
        is_touchpad
      ≡ walked go scope found)
    × Wanted 53 is_touchpad found
find_device-Wanted_example = find_device-Wanted touchpad_table is_touchpad (omega arith)

-- Devices are counted.
abbrev count_device : ℕ → AcpiDevice → ℕ × Bool
count_device n device = (n + 1, true)

walk-Sound_example : Sound (λ _. Unit) root (walk touchpad_table count_device 54 53 36 root 0)
walk-Sound_example =
    walk-Sound (λ _. Unit) touchpad_table count_device (λ _ _ _ _. tt) 54 53 36 root 0 (omega arith)
      (omega arith) (record { slots_length = refl; len_le = omega arith }) tt

-- The device is found by its identifier, and its body is the 10 bytes behind its name.
touchpad_found :
    (elim (find_device touchpad_table is_touchpad) as (λ _. Option Span) [
      | walked go scope (some device) ↦ some device.body
      | _ ↦ none
    ])
    ≡ some (record { start = 43; end = 53 })
unfolding find_device is_device package_span name integer leaf matches from_eisa from_text
touchpad_found = refl

-- Sleep (1), then If (One) { Name (_ADR, 1) }.
abbrev sleepy_body : List ℕ
sleepy_body = 0x5B ∷ 0x22 ∷ 0x01 ∷ 0xA0 ∷ 0x08 ∷ 0x01 ∷ 0x08 ∷ b'_' ∷ b'A' ∷ b'D' ∷ b'R' ∷ 0x01 ∷ []

abbrev adr : NameSeg
adr = b'_' ∷ b'A' ∷ b'D' ∷ b'R' ∷ []

abbrev whole : List ℕ → Span
whole code = record { start = 0; end = length code }

-- The sleep is a statement, but its second byte is gone when it is tried as one: the search ends
-- there, and the member behind it is not found.
sleep_ends_search : find_member sleepy_body adr 4 (whole sleepy_body) ≡ failed 3
unfolding find_member
sleep_ends_search = refl

-- While (One) {}
abbrev endless : List ℕ
endless = 0xA2 ∷ 0x02 ∷ 0x01 ∷ []

evaluate_member_with_ends_example :
    evaluate_member_with endless (method_of (whole endless) 0) [] ≢ ran_out
evaluate_member_with_ends_example =
    evaluate_member_with_ends endless (method_of (whole endless) 0) [] (omega arith, omega arith)

-- Return (Add (1, 2))
abbrev sum_method : List ℕ
sum_method = 0xA4 ∷ 0x72 ∷ 0x01 ∷ 0x0A ∷ 0x02 ∷ 0x00 ∷ []

sum_evaluated :
    (elim (evaluate_member_with sum_method (method_of (whole sum_method) 0) []) as (λ _. Option ℕ) [
      | ran (integer_value n) at m ↦ some n
      | _ ↦ none
    ])
    ≡ some 3
unfolding evaluate_member_with spend statement_of eval integer
sum_evaluated = refl

-- Name (SBFB, Buffer (26) { I2cSerialBus (0x2C, 400 kHz, "\\I2C1"), EndTag }).
abbrev bus_buffer : List ℕ
bus_buffer =
    0x08 ∷ b'S' ∷ b'B' ∷ b'F' ∷ b'B' ∷ 0x11 ∷ 0x1D ∷ 0x0A ∷ 0x1A ∷ 0x8E ∷ 0x15 ∷ 0x00 ∷ 0x01 ∷ 0x00
    ∷ 0x01 ∷ 0x02 ∷ 0x00 ∷ 0x00 ∷ 0x01 ∷ 0x06 ∷ 0x00 ∷ 0x80 ∷ 0x1A ∷ 0x06 ∷ 0x00 ∷ 0x2C ∷ 0x00
    ∷ 0x5C ∷ b'I' ∷ b'2' ∷ b'C' ∷ b'1' ∷ 0x00 ∷ 0x79 ∷ 0x00 ∷ []

abbrev declaring : AcpiDevice
declaring = record { path = root; hid = none; cid = none; body = whole bus_buffer }

abbrev the_bus : I2cSerialBus
the_bus = record {
  slave_address = 0x2C;
  connection_speed = 400_000;
  ten_bit = false;
  controller = record { slots = (b'I' ∷ b'2' ∷ b'C' ∷ b'1' ∷ []) ∷ replicate 7 blank; len = 1 };
}
