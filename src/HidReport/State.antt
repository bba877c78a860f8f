-- ===== src/HidReport/State.antt =====
-- crates/nanochrono-core/src/hid_report.rs: what the walk over a descriptor keeps: the global and
-- local items and one candidate for each report ID.
use nanochronometer.Common.{
  ℕ, ◌+◌, ◌-◌, ◌*◌, Bool, true, false, ◌&&◌, not, List, [], ◌∷◌, Option, none, some, ltb, leb, ◌==◌,
  if◌then◌else◌, get_or, set, replicate, as_u32, as_u64, for_range, min,
}
use nanochronometer.Common.Int.{ℤ, pos, ltb_ℤ}
use nanochronometer.HidReport.{Field}

pub record Globals : Type 0 where
  pub usage_page : ℕ
  pub logical_minimum : ℤ
  pub report_size : ℕ
  pub report_count : ℕ
  pub report_id : Option ℕ

abbrev pub default_globals : Globals
default_globals = record {
  usage_page = 0;
  logical_minimum = pos 0;
  report_size = 0;
  report_count = 0;
  report_id = none;
}

abbrev pub max_usages : ℕ
max_usages = 16

pub record Locals : Type 0 where
  pub usages : List ℕ
  pub usage_count : ℕ
  pub minimum : Option ℕ
  pub maximum : Option ℕ

abbrev pub default_locals : Locals
default_locals = record {
  usages = replicate max_usages 0;
  usage_count = 0;
  minimum = none;
  maximum = none;
}

unfoldable pub push : Locals → ℕ → Locals
push l usage =
    if ltb l.usage_count max_usages
    then (record l { usages = set l.usages l.usage_count usage; usage_count = l.usage_count + 1 })
    else l

pub record Candidate : Type 0 where
  pub report_id : Option ℕ
  pub bits : ℕ
  pub x : Option Field
  pub y : Option Field
  pub buttons : Option Field
  pub wheel : Option Field
  pub modifiers : Option Field
  pub keys : Option Field
  pub digitizer : Bool

abbrev pub new_candidate : Option ℕ → Candidate
new_candidate id = record {
  report_id = id;
  bits = 0;
  x = none;
  y = none;
  buttons = none;
  wheel = none;
  modifiers = none;
  keys = none;
  digitizer = false;
}

abbrev pub is_some : Option Field → Bool
is_some none = false
is_some (some f) = true

abbrev pub complete : Candidate → Bool
complete c = is_some c.x && (is_some c.y && not c.digitizer)

abbrev pub is_keyboard : Candidate → Bool
is_keyboard c = is_some c.keys

abbrev pub max_reports : ℕ
max_reports = 16

abbrev pub same_id : Option ℕ → Option ℕ → Bool
same_id none none = true
same_id none (some b) = false
same_id (some a) none = false
same_id (some a) (some b) = a == b

-- The array of candidates is the list of those in use, in the order of their slots: slots are
-- filled from the first on and never emptied.
abbrev pub Slots : Type 0
Slots = List Candidate

-- Finds the slot of a report ID or takes a new one, and changes the candidate in it; `none` where
-- all sixteen slots belong to other IDs.
unfoldable pub at_slot : ℕ → Option ℕ → (Candidate → Candidate) → Slots → Option Slots
at_slot room id change [] = if room == 0 then none else some (change (new_candidate id) ∷ [])
at_slot room id change (c ∷ slots) =
    let later = at_slot (room - 1) id change slots in
    if same_id c.report_id id
    then some (change c ∷ slots)
    else elim later [ none ↦ none | some slots' ↦ some (c ∷ slots') ]

abbrev pub field_of : Candidate → Globals → ℕ → Bool → ℕ → Bool → Field
field_of c g at signed count relative = record {
  bit_offset = at;
  bit_size = g.report_size;
  count = count;
  signed = signed;
  relative = relative;
}

-- `candidate.modifiers = Some(..)` and its like, under `is_none`
abbrev pub or_else : Option Field → Field → Option Field
or_else none f = some f
or_else (some g) f = some g

abbrev pub is_modifier_range : Option ℕ → Option ℕ → Bool
is_modifier_range (some low) (some high) = (low == 0xE0) && (high == 0xE7)
is_modifier_range (some low) none = false
is_modifier_range none high = false

abbrev pub button_count : Locals → Option ℕ → Option ℕ → ℕ
button_count l (some low) (some high) =
    if leb low high then as_u32 (high - low + 1) else l.usage_count
button_count l (some low) none = l.usage_count
button_count l none high = l.usage_count

-- One round of the loop over the queued usages.
abbrev pub assign_usage : Globals → Locals → Bool → ℕ → Candidate → Candidate
assign_usage g l relative index c =
    let usage = get_or l.usages index 0 in
    let at = as_u64 (c.bits + as_u64 (index * g.report_size)) in
    let f = field_of c g at (ltb_ℤ g.logical_minimum (pos 0)) 1 relative in
    if usage == 0x30
    then record c { x = or_else c.x f }
    else if usage == 0x31
    then record c { y = or_else c.y f }
    else if usage == 0x38
    then record c { wheel = or_else c.wheel f }
    else c

-- `record`
unfoldable pub record_usages : Globals → Locals → Bool → Bool → Candidate → Candidate
record_usages g l relative variable c =
    let whole = λ (n : ℕ). field_of c g c.bits false n relative in
    let buttons_here = button_count l l.minimum l.maximum in
    if g.usage_page == 0x07
    then if variable
      then if is_modifier_range l.minimum l.maximum
        then record c { modifiers = or_else c.modifiers (whole g.report_count) }
        else c
      else record c { keys = or_else c.keys (whole g.report_count) }
    else if (g.usage_page == 0x09) && variable
    then if buttons_here == 0
      then c
      else record c { buttons = or_else c.buttons (whole (min buttons_here g.report_count)) }
    else if (g.usage_page == 0x01) && variable
    then for_range l.usage_count 0 (assign_usage g l relative) c
    else c
