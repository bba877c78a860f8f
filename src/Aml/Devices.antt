-- ===== src/Aml/Devices.antt =====
-- crates/nanochrono-core/src/aml.rs: devices, and the names they are identified by.
pub mod Bounds
use nanochronometer.Common.{
  ℕ, zero, suc, ◌+◌, ◌%◌, ◌^◌, Bool, true, false, ◌&&◌, ◌||◌, not, List, [], ◌∷◌, Option, none,
  some, length, take, ltb, ◌==◌, if◌then◌else◌, get_or,
}
use nanochronometer.Aml.Op
use nanochronometer.Aml.Names.{Span, NamePath, NameSeg, bytes_of, leaf}
use nanochronometer.Aml.Cursor.{
  Read, Reader, read, failed, out_of_fuel, bind, ◌>>=◌, ◌>>◌, pure, fail, lift, move_to, byte, name,
}
use nanochronometer.Aml.Ids.{HardwareId, from_text, from_eisa, matches}
use nanochronometer.Aml.Resources.{le_u32}
use nanochronometer.Aml.Data.{Value, integer_value, text_value, package_value, parse_data}
use nanochronometer.Aml.Skip.{is_leaf, table_header}
use nanochronometer.Aml.Statements.{object_behind, skip_object}

pub record AcpiDevice : Type 0 where
  pub path : NamePath
  pub hid : Option HardwareId
  pub cid : Option HardwareId
  pub body : Span

abbrev is_some_and : Option HardwareId → (HardwareId → Bool) → Bool
is_some_and none test = false
is_some_and (some id) test = test id

-- `AcpiDevice::is`
unfoldable pub is_device : AcpiDevice → List ℕ → Bool
is_device device wanted =
    is_some_and device.hid (λ id. matches id wanted)
    || is_some_and device.cid (λ id. matches id wanted)

-- `Namespace::new`: the part of a table that its own header declares.
unfoldable pub new_namespace : List ℕ → Option (List ℕ)
new_namespace table =
    let declared =
      le_u32 (get_or table 4 0) (get_or table 5 0) (get_or table 6 0) (get_or table 7 0) in
    if ltb (length table) table_header
    then none
    else if ltb declared table_header || ltb (length table) declared
    then none
    else some (take declared table)

-- A read whose failure is an answer.
abbrev pub optional {ℓ} : {A : Type ℓ} → Read A → Read (Option A)
optional (read a at) = read (some a) at
optional (failed at) = read none at
optional out_of_fuel = out_of_fuel

abbrev pub hid_name : NameSeg
hid_name = b'_' ∷ b'H' ∷ b'I' ∷ b'D' ∷ []

abbrev pub cid_name : NameSeg
cid_name = b'_' ∷ b'C' ∷ b'I' ∷ b'D' ∷ []

module _ (code : List ℕ) where
  -- One object of a body: the value of a `Name` with the wanted leaf, or none for another.
  unfoldable pub name_or_object : ℕ → NameSeg → ℕ → Reader (Option Value)
  unfolding object_behind parse_data
  name_or_object fuel want opcode =
      if opcode == Op.name
      then (do
        (path, absolute) ← name code
        value ← parse_data code fuel
        pure (if is_leaf path want then some value else none))
      else (do skip_object code fuel opcode; pure none)

  -- The loop over the objects of a body that ends at `end`; a step that finds nothing goes on.
  unfoldable pub scan {ℓ} : {A : Type ℓ} → (ℕ → ℕ → Reader (Option A)) → ℕ → ℕ → Reader A
  scan step zero end at = out_of_fuel
  scan step (suc fuel) end at =
      let object = (byte code >>= step (suc fuel)) at in
      if not (ltb at end) then failed at else elim object [
        | read found at' ↦ elim found [
          | none ↦ scan step fuel end at'
          | some answer ↦ read answer at'
        ]
        | failed at' ↦ failed at'
        | out_of_fuel ↦ out_of_fuel
      ]

  unfoldable pub name_value : ℕ → ℕ → NameSeg → Reader Value
  unfolding name_or_object scan
  name_value fuel end want = scan (λ fuel'. name_or_object fuel' want) fuel end

  -- What a value says of an identifier that is not a package.
  unfoldable pub plain_identifier : Value → Reader HardwareId
  plain_identifier (integer_value compressed) = pure (from_eisa (compressed % 2 ^ 32))
  plain_identifier (text_value span) = do bytes ← lift (bytes_of code span); pure (from_text bytes)
  plain_identifier _ = fail

  -- A compatible identifier may be a package: its first element is the one that counts.
  unfoldable pub value_identifier : ℕ → Value → Reader HardwareId
  unfolding plain_identifier parse_data
  value_identifier fuel (package_value span) = do
    move_to span.start
    byte code
    first ← parse_data code fuel
    plain_identifier first
  value_identifier fuel value = plain_identifier value

  -- The identifier in a body, found with the fuel that a walk over the bytecode takes.
  unfoldable pub identifier : NameSeg → Span → Read HardwareId
  unfolding name_value value_identifier
  identifier want body =
      let fuel = suc (length code) in
      bind (name_value fuel body.end want body.start) (value_identifier fuel)

  unfoldable pub describe : NamePath → Span → Read AcpiDevice
  unfolding identifier
  describe path body = bind (optional (identifier hid_name body)) λ hid. (λ _.
      bind (optional (identifier cid_name body))
        λ cid. pure (record { path = path; hid = hid; cid = cid; body = body }))
