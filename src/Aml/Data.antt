-- ===== src/Aml/Data.antt =====
-- crates/nanochrono-core/src/aml.rs: data objects, that is constants, buffers, strings and packages.
pub mod Bounds
use nanochronometer.Common.{
  ℕ, zero, suc, ◌+◌, ◌-◌, ◌^◌, Bool, true, false, ◌||◌, List, [], ◌∷◌, Option, none, some, length,
  drop, max, ◌==◌, if◌then◌else◌,
}
use nanochronometer.Aml.Op
use nanochronometer.Aml.Names.{Span, bytes_of}
use nanochronometer.Aml.Cursor.{
  Read, Reader, read, failed, out_of_fuel, bind, ◌>>=◌, ◌>>◌, pure, fail, position, move_to, byte,
  integer, package_span,
}

pub data Value : Type 0 where
  uninitialised : Value
  integer_value : ℕ → Value
  buffer_value text_value package_value : Span → Value

-- `Value::integer`
abbrev pub integer_of : Value → Option ℕ
integer_of (integer_value n) = some n
integer_of _ = none

-- `Value::bytes`
abbrev pub value_bytes : List ℕ → Value → Option (List ℕ)
value_bytes code (buffer_value span) = bytes_of code span
value_bytes code (text_value span) = bytes_of code span
value_bytes code _ = none

-- How many bytes stand in front of the first zero.
abbrev pub zero_index : List ℕ → Option ℕ
zero_index [] = none
zero_index (c ∷ cs) =
    let later = zero_index cs in
    if c == 0 then some 0 else elim later [ none ↦ none | some n ↦ some (suc n) ]

module _ (code : List ℕ) where
  -- The bytes up to the next zero, which is read too; without one the bytecode is read to its end.
  abbrev pub string_data : Reader Value
  string_data at = elim (zero_index (drop at code)) [
    | none ↦ failed (max at (length code))
    | some n ↦ read (text_value (record { start = at; end = at + n })) (at + n + 1)
  ]

  abbrev pub number : ℕ → Reader Value
  number width = do n ← integer code width; pure (integer_value n)

  -- A buffer's declared size is read and thrown away: its package says where it ends.
  abbrev pub buffer_data : Reader Value → Reader Value
  buffer_data size = do
    span ← package_span code
    size
    contents ← position
    move_to span.end
    pure (buffer_value (record { start = contents; end = span.end }))

  abbrev pub package_data : Reader Value
  package_data = do
    span ← package_span code
    start ← position
    move_to span.end
    pure (package_value (record { start = start; end = span.end }))

  -- The match of `parse_data`; `size` reads the data object in a buffer.
  unfoldable pub data_behind : Reader Value → ℕ → Reader Value
  data_behind size opcode =
      if opcode == Op.zero
      then pure (integer_value 0)
      else if opcode == Op.one
      then pure (integer_value 1)
      else if opcode == Op.ones
      then pure (integer_value (2 ^ 64 - 1))
      else if opcode == Op.byte_prefix
      then number 1
      else if opcode == Op.word_prefix
      then number 2
      else if opcode == Op.dword_prefix
      then number 4
      else if opcode == Op.qword_prefix
      then number 8
      else if opcode == Op.string_prefix
      then string_data
      else if opcode == Op.buffer
      then buffer_data size
      else if (opcode == Op.package_op) || (opcode == Op.var_package)
      then package_data
      else fail

  unfoldable pub parse_data : ℕ → Reader Value
  unfolding data_behind
  parse_data zero at = out_of_fuel
  parse_data (suc fuel) at = (byte code >>= data_behind (parse_data fuel)) at
