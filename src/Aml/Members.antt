-- ===== src/Aml/Members.antt =====
-- crates/nanochrono-core/src/aml.rs: a device's members, found in its body and in the conditionals
-- of it.
pub mod Bounds
use nanochronometer.Common.{
  ℕ, zero, suc, ◌+◌, Bool, true, false, List, [], ◌∷◌, Option, none, some, length, ◌==◌,
  if◌then◌else◌, bit_and,
}
use nanochronometer.Aml.Op
use nanochronometer.Aml.Names.{Span, NamePath, NameSeg}
use nanochronometer.Aml.Cursor.{
  Read, Reader, read, failed, out_of_fuel, bind, ◌>>=◌, ◌>>◌, pure, position, move_to, byte,
  package_span, name,
}
use nanochronometer.Aml.Skip.{one_of, is_leaf, skip_data}
use nanochronometer.Aml.Statements.{
  object_behind, statement_behind, skip_name, skip_object, skip_statement,
}
use nanochronometer.Aml.Devices.{AcpiDevice, optional, scan}
use nanochronometer.Aml.Walk.{conditional_inner}

-- Where a member's value stands, or its method with the argument count.
pub data Member : Type 0 where
  name_at : ℕ → Member
  method_of : Span → ℕ → Member

abbrev pub conditional_depth : ℕ
conditional_depth = 4

-- The answer of a search within a conditional.
abbrev pub conditionally : Option (Member × Bool) → Option (Member × Bool)
conditionally none = none
conditionally (some (member, _)) = some (member, true)

module _ (code : List ℕ) (want : NameSeg) where
  -- The head of a method, whose body begins behind its flags.
  abbrev pub method_head : Reader (Option Member)
  method_head = do
    span ← package_span code
    (path, absolute) ← name code
    flags ← byte code
    start ← position
    if is_leaf path want
        then pure (some (method_of (record { start = start; end = span.end }) (bit_and flags 0x07)))
        else (do move_to span.end; pure none)

  abbrev pub named_data : ℕ → Reader (Option Member)
  named_data fuel = do
    (path, absolute) ← name code
    start ← position
    skip_data code fuel
    pure (if is_leaf path want then some (name_at start) else none)

  unfoldable pub level_object : ℕ → ℕ → Reader (Option Member)
  unfolding object_behind
  level_object fuel opcode =
      if opcode == Op.name
      then named_data fuel
      else if opcode == Op.method
      then method_head
      else (do skip_object code fuel opcode; pure none)

  unfoldable pub member_at_level : Span → Read Member
  unfolding level_object scan
  member_at_level span = scan code level_object (suc (length code)) span.end span.start

  -- An object that is no declaration may be a statement, read from where the first try came to.
  abbrev pub object_or_statement : ℕ → ℕ → Reader (Option (Member × Bool))
  object_or_statement fuel opcode at = elim (skip_object code fuel opcode at) [
    | read _ at' ↦ read none at'
    | failed at' ↦ bind (skip_statement code fuel opcode at') λ _. pure none
    | out_of_fuel ↦ out_of_fuel
  ]

  -- The terms of a conditional that ends at `end`, from where they begin, searched by `inside`.
  abbrev pub search_from :
      (Span → Read (Member × Bool)) → ℕ → Option ℕ → Reader (Option (Member × Bool))
  search_from inside end none at = read none end
  search_from inside end (some inner) at =
      bind (optional (inside (record { start = inner; end = end })))
        λ found _. read (conditionally found) end

  abbrev pub conditional_member :
      (Span → Read (Member × Bool)) → ℕ → ℕ → Reader (Option (Member × Bool))
  conditional_member inside fuel opcode = do
    span ← package_span code
    at ← position
    search_from inside span.end (conditional_inner code fuel opcode span at)

  unfoldable pub deep_object :
      (Span → Read (Member × Bool)) → ℕ → ℕ → Reader (Option (Member × Bool))
  unfolding conditional_inner statement_behind
  deep_object inside fuel opcode =
      if one_of opcode (Op.if_op ∷ Op.else_op ∷ [])
      then conditional_member inside fuel opcode
      else if opcode == Op.name
      then (do name code; skip_data code fuel; pure none)
      else object_or_statement fuel opcode

  -- The match at the level itself, which comes first, or else what is found deeper.
  abbrev pub at_level_or : Span → Read (Member × Bool) → Read (Member × Bool)
  at_level_or span deeper =
      bind (optional (member_at_level span))
        λ found at. elim found [ none ↦ deeper | some member ↦ read (member, false) at ]

  -- The first match, down to a depth of conditionals, and whether it is in one.
  unfoldable pub find_member : ℕ → Span → Read (Member × Bool)
  unfolding member_at_level deep_object
  find_member zero span = at_level_or span (failed span.start)
  find_member (suc depth) span =
      at_level_or span
        (scan code (deep_object (find_member depth)) (suc (length code)) span.end span.start)

  unfoldable pub member_conditional : AcpiDevice → Read (Member × Bool)
  unfolding find_member
  member_conditional device = find_member conditional_depth device.body

  unfoldable pub member : AcpiDevice → Read Member
  unfolding member_conditional
  member device = bind (member_conditional device) λ (found, _). pure found
