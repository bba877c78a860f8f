-- ===== src/HidReport/Descriptor.antt =====
-- crates/nanochrono-core/src/hid_report.rs: the walk over a report descriptor. The descriptor's
-- position is the list of the bytes that are left; every item takes at least its prefix byte, so
-- that a descriptor's length is fuel enough for its walk.
use nanochronometer.Common.{
  ℕ, zero, suc, ◌+◌, ◌-◌, ◌*◌, ◌/◌, ◌%◌, ◌^◌, bit_and, bit_or, Bool, true, ◌&&◌, ◌||◌, not, List,
  [], ◌∷◌, Option, none, some, ltb, ◌==◌, if◌then◌else◌, length, take, drop, as_u8, as_u16, as_u64,
}
use nanochronometer.Common.Int.{ℤ}
use nanochronometer.HidReport.{Field, as_i32, PointerLayout, KeyboardLayout}
use nanochronometer.HidReport.State.{
  Candidate, Globals, Locals, Slots, at_slot, complete, default_globals, default_locals,
  is_keyboard, max_reports, push, record_usages,
}

pub record Walk : Type 0 where
  pub globals : Globals
  pub locals : Locals
  pub slots : Slots
  pub digitizer_depth : ℕ
  pub depth : ℕ

abbrev pub at_start : Walk
at_start = record {
  globals = default_globals;
  locals = default_locals;
  slots = [];
  digitizer_depth = 0;
  depth = 0;
}

abbrev pub cleared : Walk → Walk
cleared w = record w { locals = default_locals }

-- What an Input item does to its candidate.
unfoldable pub input_item : Walk → ℕ → Candidate → Candidate
unfolding record_usages
input_item w flags c =
    let constant = not (bit_and flags 0x01 == 0) in
    let variable = not (bit_and flags 0x02 == 0) in
    let relative = not (bit_and flags 0x04 == 0) in
    let marked = if ltb 0 w.digitizer_depth then record c { digitizer = true } else c in
    let recorded =
      if constant then marked else record_usages w.globals w.locals relative variable marked in
    record recorded {
      bits = as_u64 (recorded.bits + as_u64 (w.globals.report_size * w.globals.report_count));
    }

unfoldable pub main_item : Walk → ℕ → ℕ → Option Walk
unfolding at_slot input_item
main_item w tag unsigned =
    if tag == 0x8
    then elim (at_slot max_reports w.globals.report_id (input_item w unsigned) w.slots) [
      | none ↦ none
      | some slots' ↦ some (cleared (record w { slots = slots' }))
    ]
    else if tag == 0xA
    then some (
        cleared (record w {
          digitizer_depth =
              if (w.globals.usage_page == 0x0D) || ltb 0 w.digitizer_depth
              then w.digitizer_depth + 1
              else w.digitizer_depth;
          depth = w.depth + 1;
        }))
    else if tag == 0xC
    then some (cleared (record w { digitizer_depth = w.digitizer_depth - 1; depth = w.depth - 1 }))
    else some (cleared w)

unfoldable pub global_item : Walk → ℕ → ℕ → ℤ → Option Walk
global_item w tag unsigned signed =
    let g = w.globals in
    if tag == 0x0
    then some (record w { globals = record g { usage_page = as_u16 unsigned } })
    else if tag == 0x1
    then some (record w { globals = record g { logical_minimum = signed } })
    else if tag == 0x7
    then some (record w { globals = record g { report_size = unsigned } })
    else if tag == 0x8
    then some (record w { globals = record g { report_id = some (as_u8 unsigned) } })
    else if tag == 0x9
    then some (record w { globals = record g { report_count = unsigned } })
    else if (tag == 0xA) || (tag == 0xB)
    then none
    else some w

unfoldable pub local_item : Walk → ℕ → ℕ → ℕ → Walk
unfolding push
local_item w tag size unsigned =
    let l = w.locals in
    if tag == 0x0
    then if size == 4
      then record w {
        globals = record w.globals { usage_page = as_u16 (unsigned / 2 ^ 16) };
        locals = push l (bit_and unsigned 0xFFFF);
      }
      else record w { locals = push l unsigned }
    else if tag == 0x1
    then record w { locals = record l { minimum = some unsigned } }
    else if tag == 0x2
    then record w { locals = record l { maximum = some unsigned } }
    else w

-- `value |= (byte as u32) << (8 * i)` from byte `i` on.
abbrev pub unsigned_of : ℕ → List ℕ → ℕ → ℕ
unsigned_of i [] acc = acc
unsigned_of i (byte ∷ later) acc = unsigned_of (i + 1) later (bit_or acc (byte * 2 ^ (8 * i)))

unfoldable pub signed_of : ℕ → ℕ → ℤ
signed_of size unsigned =
    if ltb 0 size && (ltb size 4 && not (bit_and (unsigned / 2 ^ (8 * size - 1)) 1 == 0))
    then as_i32 (bit_or unsigned (2 ^ 32 - 2 ^ (8 * size)))
    else as_i32 unsigned

abbrev pub size_of : ℕ → ℕ
size_of prefix = if bit_and prefix 0x03 == 3 then 4 else bit_and prefix 0x03

abbrev pub item : Walk → ℕ → List ℕ → Option Walk
item w prefix payload =
    let kind = bit_and (prefix / 2 ^ 2) 0x03 in
    let tag = prefix / 2 ^ 4 in
    let size = size_of prefix in
    let unsigned = unsigned_of 0 payload 0 in
    if kind == 0
    then main_item w tag unsigned
    else if kind == 1
    then global_item w tag unsigned (signed_of size unsigned)
    else if kind == 2
    then some (local_item w tag size unsigned)
    else some w

-- A long item: the length byte, the tag byte and the data are stepped over.
abbrev pub long_item : List ℕ → Option (List ℕ)
long_item [] = none
long_item (size ∷ rest) = some (drop (1 + size) rest)

-- One round of the loop: the state behind it and the bytes left, or the early `return None`.
unfoldable pub step : Walk → ℕ → List ℕ → Option (Walk × List ℕ)
unfolding main_item global_item local_item signed_of
step w prefix rest =
    if prefix == 0xFE
    then elim (long_item rest) [ none ↦ none | some rest' ↦ some (w, rest') ]
    else if ltb (length rest) (size_of prefix)
    then none
    else elim (item w prefix (take (size_of prefix) rest)) [
      | none ↦ none
      | some w' ↦ some (w', drop (size_of prefix) rest)
    ]

-- The three ends of a walk: `Some(candidates)`, `None`, and the fuel's.
pub data Walked : Type 0 where
  finished : Walk → Walked
  refused : Walked
  out_of_fuel : Walked

unfoldable pub walk : ℕ → Walk → List ℕ → Walked
walk fuel w [] = finished w
walk zero w (prefix ∷ rest) = out_of_fuel
walk (suc fuel) w (prefix ∷ rest) = elim (step w prefix rest) [
  | none ↦ refused
  | some next ↦ walk fuel next.0 next.1
]

abbrev pub slots_of : Walked → Option Slots
slots_of (finished w) = some w.slots
slots_of refused = none
slots_of out_of_fuel = none

unfoldable pub parse : List ℕ → Option Slots
unfolding walk step
parse descriptor = slots_of (walk (length descriptor) at_start descriptor)

unfoldable pub find : (Candidate → Bool) → Slots → Option Candidate
find ok [] = none
find ok (c ∷ slots) = let later = find ok slots in if ok c then some c else later

abbrev pub div_ceil : ℕ → ℕ
div_ceil bits = bits / 8 + (if bits % 8 == 0 then 0 else 1)

abbrev pub pointer_from : Candidate → Option Field → Option Field → Option PointerLayout
pointer_from c (some x) (some y) = some (record {
  report_id = c.report_id;
  body_bytes = div_ceil c.bits;
  x = x;
  y = y;
  buttons = c.buttons;
  wheel = c.wheel;
})
pointer_from c (some x) none = none
pointer_from c none y = none

unfoldable pub find_pointer : List ℕ → Option PointerLayout
unfolding parse find
find_pointer descriptor = elim (parse descriptor) [
  | none ↦ none
  | some slots ↦ elim (find complete slots) [ none ↦ none | some c ↦ pointer_from c c.x c.y ]
]

abbrev pub keyboard_from : Candidate → Option Field → Option KeyboardLayout
keyboard_from c none = none
keyboard_from c (some keys) = some (record {
  report_id = c.report_id;
  body_bytes = div_ceil c.bits;
  modifiers = c.modifiers;
  keys = keys;
})

unfoldable pub find_keyboard : List ℕ → Option KeyboardLayout
find_keyboard descriptor = elim (parse descriptor) [
  | none ↦ none
  | some slots ↦ elim (find is_keyboard slots) [ none ↦ none | some c ↦ keyboard_from c c.keys ]
]
