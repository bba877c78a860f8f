-- ===== src/Aml/Statements.antt =====
-- crates/nanochrono-core/src/aml.rs: stepping over one declaration or one statement, whose opcode
-- has been read.
pub mod Bounds
use nanochronometer.Common.{
  ℕ, zero, suc, ◌+◌, Bool, true, false, List, [], ◌∷◌, Option, none, some, ◌==◌, if◌then◌else◌,
}
use nanochronometer.Aml.Op
use nanochronometer.Aml.Names.{Span}
use nanochronometer.Aml.Cursor.{
  Read, Reader, read, failed, out_of_fuel, bind, ◌>>=◌, ◌>>◌, pure, fail, move_to, times, byte,
  package_span, name,
}
use nanochronometer.Aml.Skip.{one_of, arity, skip_target, skip_operands, skip_data, skip_term_arg}

abbrev pub create_fields : List ℕ
create_fields =
    Op.create_dword_field ∷ Op.create_word_field ∷ Op.create_byte_field ∷ Op.create_bit_field
    ∷ Op.create_qword_field ∷ []

module _ (code : List ℕ) where
  abbrev pub skip_name : Reader (Unit {0})
  skip_name = do name code; pure tt

  abbrev pub skip_byte : Reader (Unit {0})
  skip_byte = do byte code; pure tt

  abbrev pub skip_package : Reader (Unit {0})
  skip_package = do span ← package_span code; move_to span.end

  module _ (skip : Reader (Unit {0})) where
    -- A region's space, offset and length.
    abbrev pub skip_region : Reader (Unit {0})
    skip_region = do skip_byte; skip; skip

    -- A declaration with a two-byte opcode.
    unfoldable pub skip_extended_object : ℕ → Reader (Unit {0})
    skip_extended_object extended =
        if one_of extended (
          Op.ext_device ∷ Op.ext_power_res ∷ Op.ext_thermal_zone ∷ Op.ext_processor ∷ Op.ext_field
          ∷ Op.ext_index_field ∷ Op.ext_bank_field ∷ [])
        then skip_package
        else if extended == Op.ext_op_region
        then (do skip_name; skip_region)
        else if extended == Op.ext_mutex
        then (do skip_name; skip_byte)
        else if extended == Op.ext_event
        then skip_name
        else if extended == Op.ext_create_field
        then (do skip; skip; skip; skip_name)
        else fail

    -- `skip_object`, over the reader of terms.
    unfoldable pub object_behind : ℕ → Reader (Unit {0})
    unfolding skip_extended_object
    object_behind opcode =
        if one_of opcode (Op.method ∷ Op.scope ∷ Op.if_op ∷ Op.else_op ∷ Op.while ∷ [])
        then skip_package
        else if opcode == Op.alias
        then (do skip_name; skip_name)
        else if opcode == Op.external
        then (do skip_name; skip_byte; skip_byte)
        else if one_of opcode create_fields
        then (do skip; skip; skip_name)
        else if opcode == Op.noop
        then pure tt
        else if opcode == Op.ext_prefix
        then byte code >>= skip_extended_object
        else fail

    -- A statement with a two-byte opcode.
    unfoldable pub skip_extended_statement : ℕ → Reader (Unit {0})
    skip_extended_statement extended =
        if one_of extended (
          Op.ext_stall ∷ Op.ext_sleep ∷ Op.ext_signal ∷ Op.ext_reset ∷ Op.ext_release
          ∷ Op.ext_unload ∷ [])
        then skip
        else if extended == Op.ext_load
        then (do skip; skip)
        else if extended == Op.ext_fatal
        then (do skip_byte; times 4 skip_byte; skip)
        else fail

    -- `skip_statement`, over the reader of terms.
    unfoldable pub statement_behind : ℕ → Reader (Unit {0})
    unfolding skip_extended_statement arity skip_target
    statement_behind opcode =
        if one_of opcode (Op.break ∷ Op.noop ∷ Op.continue ∷ [])
        then pure tt
        else if opcode == Op.return
        then skip
        else if opcode == Op.notify
        then (do skip; skip)
        else if opcode == Op.ext_prefix
        then byte code >>= skip_extended_statement
        else elim (arity opcode) [
          | none ↦ fail
          | some (args, target) ↦ skip_operands code skip args target
        ]

  abbrev pub skip_object : ℕ → ℕ → Reader (Unit {0})
  skip_object fuel opcode = object_behind (skip_term_arg code fuel) opcode

  abbrev pub skip_statement : ℕ → ℕ → Reader (Unit {0})
  skip_statement fuel opcode = statement_behind (skip_term_arg code fuel) opcode
