-- ===== src/Aml/Skip.antt =====
-- crates/nanochrono-core/src/aml.rs: stepping over terms, declarations and statements. A skip that
-- answers false is a read that fails.
pub mod Bounds
use nanochronometer.Common.{
  ℕ, zero, suc, ◌+◌, ◌-◌, Bool, true, false, not, ◌&&◌, ◌||◌, List, [], ◌∷◌, Option, none, some,
  length, get_elem?, ltb, leb, ◌==◌, if◌then◌else◌, bit_and,
}
use nanochronometer.Aml.Op
use nanochronometer.Aml.Names.{Span, NamePath, NameSeg, leaf, same_bytes}
use nanochronometer.Aml.Cursor.{
  Read, Reader, read, failed, out_of_fuel, bind, ◌>>=◌, ◌>>◌, pure, fail, lift, move_to, advance,
  times, peek, byte, package_span, name,
}
use nanochronometer.Aml.Data.{parse_data}

-- `matches!` over a list of opcodes.
abbrev pub one_of : ℕ → List ℕ → Bool
one_of opcode [] = false
one_of opcode (o ∷ os) = (opcode == o) || one_of opcode os

-- How many term arguments an operator takes, and whether a target follows.
unfoldable pub arity : ℕ → Option (ℕ × Bool)
arity opcode =
    if one_of opcode (
      Op.add ∷ Op.subtract ∷ Op.multiply ∷ Op.shift_left ∷ Op.shift_right ∷ Op.and ∷ Op.nand ∷ Op.or
      ∷ Op.nor ∷ Op.xor ∷ Op.concat ∷ Op.index ∷ [])
    then some (2, true)
    else if one_of opcode (Op.land ∷ Op.lor ∷ Op.lequal ∷ Op.lgreater ∷ Op.lless ∷ [])
    then some (2, false)
    else if one_of opcode (
        Op.to_buffer ∷ Op.to_integer ∷ Op.to_hex_string ∷ Op.to_decimal_string
        ∷ Op.find_set_left_bit ∷ Op.find_set_right_bit ∷ Op.store ∷ [])
    then some (1, true)
    else if one_of opcode
        (Op.lnot ∷ Op.size_of ∷ Op.deref_of ∷ Op.ref_of ∷ Op.increment ∷ Op.decrement ∷ [])
    then some (1, false)
    else none

unfoldable pub extended_arity : ℕ → Option (ℕ × Bool)
extended_arity extended =
    if extended == Op.ext_cond_ref_of
    then some (1, true)
    else if one_of extended (Op.ext_from_bcd ∷ Op.ext_to_bcd ∷ [])
    then some (1, true)
    else if extended == Op.ext_acquire
    then some (1, false)
    else if extended == Op.ext_wait
    then some (2, false)
    else if extended == Op.ext_load_table
    then some (6, true)
    else if one_of extended (Op.ext_revision ∷ Op.ext_debug ∷ Op.ext_timer ∷ [])
    then some (0, false)
    else none

-- `LOCAL0..=LOCAL7 | ARG0..=ARG6`
abbrev pub is_variable : ℕ → Bool
is_variable opcode =
    (leb Op.local0 opcode && leb opcode Op.local7) || (leb Op.arg0 opcode && leb opcode Op.arg6)

-- The first byte of a name.
abbrev pub starts_name : ℕ → Bool
starts_name opcode =
    (opcode == b'\\')
    || ((opcode == b'^')
        || ((leb b'A' opcode && leb opcode b'Z')
            || ((opcode == b'_') || ((opcode == 0x2E) || (opcode == 0x2F)))))

abbrev pub table_header : ℕ
table_header = 36

abbrev pub is_leaf : NamePath → NameSeg → Bool
is_leaf path wanted = elim (leaf path) [ none ↦ false | some segment ↦ same_bytes segment wanted ]

-- A test of the cursor's position, without which the caller goes on elsewhere.
abbrev pub require : (ℕ → Bool) → Reader (Unit {0})
require test at = if test at then read tt at else failed at

module _ (code : List ℕ) where
  -- The argument count of a method declared at a place, if one with this leaf name is.
  unfoldable pub declared_arity : NameSeg → Reader ℕ
  declared_arity wanted = do
    span ← package_span code
    require λ at. not (ltb (length code) span.end || leb span.end at)
    (path, absolute) ← name code
    flags ← byte code
    require λ at. not (ltb span.end at || not (is_leaf path wanted))
    pure (bit_and flags 0x07)

  -- The scan over the `left` bytes from `at` on; two declarations that disagree end it.
  unfoldable pub scan_arity : ℕ → NameSeg → ℕ → Option ℕ → Option ℕ
  unfolding declared_arity
  scan_arity zero wanted at found = found
  scan_arity (suc left) wanted at found =
      let here : Bool = elim (get_elem? code at) [ none ↦ false | some b ↦ b == Op.method ] in
      let declared : Option ℕ = elim (declared_arity wanted (at + 1)) [
        | read args _ ↦ some args
        | _ ↦ none
      ] in
      let on = scan_arity left wanted (at + 1) in
      if not here then on found else elim declared [
        | none ↦ on found
        | some args ↦ elim found [
          | none ↦ on (some args)
          | some seen ↦ if seen == args then on (some seen) else none
        ]
      ]

  unfoldable pub method_arity : NameSeg → Option ℕ
  unfolding scan_arity
  method_arity wanted = scan_arity (length code - table_header) wanted table_header none

  -- A name and the arguments of the method it calls, if it is one.
  unfoldable pub skip_call : Reader (Unit {0}) → Reader (Unit {0})
  unfolding method_arity
  skip_call skip = do
    (path, absolute) ← name code
    let called : Option ℕ = elim (leaf path) [ none ↦ none | some segment ↦ method_arity segment ]
    times (elim called [ none ↦ 0 | some args ↦ args ]) skip

  unfoldable pub skip_target : Reader (Unit {0}) → Reader (Unit {0})
  skip_target skip = do
    opcode ← peek code
    if opcode == Op.zero then advance 1 else if is_variable opcode then advance 1 else skip

  -- Operands, and a target where the operator has one.
  abbrev pub skip_operands : Reader (Unit {0}) → ℕ → Bool → Reader (Unit {0})
  skip_operands skip args target = do times args skip; if target then skip_target skip else pure tt

  abbrev pub skip_timeout : Reader (Unit {0})
  skip_timeout = do byte code; byte code; pure tt

  -- A two-byte operator; the timeout of an acquire is two raw bytes.
  unfoldable pub skip_extended : Reader (Unit {0}) → Reader (Unit {0})
  unfolding extended_arity skip_target
  skip_extended skip = do
    extended ← λ at. lift (get_elem? code (at + 1)) at
    (args, target) ← lift (extended_arity extended)
    advance 2
    times args skip
    if extended == Op.ext_acquire
        then skip_timeout
        else if target
        then skip_target skip
        else pure tt

  -- The match of `skip_term_arg`.
  unfoldable pub skip_by : Reader (Unit {0}) → Reader (Unit {0}) → ℕ → Reader (Unit {0})
  unfolding arity skip_call skip_extended skip_target
  skip_by skip skip_data opcode =
      if is_variable opcode
      then advance 1
      else if opcode == Op.ext_prefix
      then skip_extended skip
      else elim (arity opcode) [
        | some (args, target) ↦ do advance 1; skip_operands skip args target
        | none ↦ if starts_name opcode then skip_call skip else skip_data
      ]

  abbrev pub skip_data : ℕ → Reader (Unit {0})
  skip_data fuel = do parse_data code fuel; pure tt

  unfoldable pub skip_term_arg : ℕ → Reader (Unit {0})
  unfolding skip_by parse_data
  skip_term_arg zero at = out_of_fuel
  skip_term_arg (suc fuel) at =
      (peek code >>= skip_by (skip_term_arg fuel) (skip_data (suc fuel))) at
