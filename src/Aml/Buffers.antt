-- ===== src/Aml/Buffers.antt =====
-- crates/nanochrono-core/src/aml.rs: the bus and the interrupt a device declares, in its `_CRS` or
-- in its named buffers.
pub mod Noted
pub mod Agree
pub mod Ends
use nanochronometer.Common.{
  ℕ, zero, suc, ◌+◌, ◌-◌, ◌^◌, Bool, true, false, not, ◌&&◌, ◌||◌, List, [], ◌∷◌, ◌++◌, Option,
  none, some, length, take, ltb, ◌==◌, if◌then◌else◌,
}
use nanochronometer.Aml.Op
use nanochronometer.Aml.Names.{
  Span, NamePath, NameSeg, bytes_of, same_bytes, same_segments, ends_with,
}
use nanochronometer.Aml.Cursor.{
  Read, Reader, read, failed, out_of_fuel, bind, ◌>>=◌, ◌>>◌, pure, byte, name,
}
use nanochronometer.Aml.Ids.{HardwareId}
use nanochronometer.Aml.Data.{
  Value, integer_value, buffer_value, package_value, value_bytes, parse_data,
}
use nanochronometer.Aml.Resources.{
  Resource, i2c, gpio, memory, other, I2cSerialBus, GpioInterrupt, MemoryRegion, resources,
}
use nanochronometer.Aml.Statements.{skip_object, object_behind}
use nanochronometer.Aml.Devices.{AcpiDevice, is_device}
use nanochronometer.Aml.Walk.{Walked, walked, walk_out_of_fuel, walk_all}
use nanochronometer.Aml.Interpreter.{Ran, ran, refused, ran_out}
use nanochronometer.Aml.Methods.{evaluate, present}

pub record DeviceResources : Type 0 where
  pub bus : I2cSerialBus
  pub interrupt : Option GpioInterrupt

pub data Provenance : Type 0 where
  crs declared_buffers : Provenance

-- The value of an evaluation that had one; the fuel is always enough for one.
abbrev pub answer {ℓ} : {A : Type ℓ} → Ran A → Option A
answer (ran a at m) = some a
answer refused = none
answer ran_out = none

-- The descriptors of a template; the fuel is always enough for them.
abbrev pub entries : List ℕ → List Resource
entries template = elim (resources template) [ none ↦ [] | some found ↦ found ]

-- The equality of two paths compares all eight slots, those in use and the others.
abbrev pub same_path : NamePath → NamePath → Bool
same_path a b = same_segments a.slots b.slots && (a.len == b.len)

abbrev pub same_bool : Bool → Bool → Bool
same_bool true b = b
same_bool false b = not b

unfoldable pub same_bus : I2cSerialBus → I2cSerialBus → Bool
same_bus a b =
    (a.slave_address == b.slave_address)
    && ((a.connection_speed == b.connection_speed)
        && (same_bool a.ten_bit b.ten_bit && same_path a.controller b.controller))

-- The first bus and the first interrupt among descriptors.
abbrev pub first_bus : List Resource → Option I2cSerialBus
first_bus [] = none
first_bus (i2c bus ∷ later) = some bus
first_bus (_ ∷ later) = first_bus later

abbrev pub first_interrupt : List Resource → Option GpioInterrupt
first_interrupt [] = none
first_interrupt (gpio found ∷ later) = some found
first_interrupt (_ ∷ later) = first_interrupt later

-- What the declared buffers have said so far.
pub record Seen : Type 0 where
  pub bus : Option I2cSerialBus
  pub interrupt : Option GpioInterrupt
  pub conflicting : Bool

abbrev pub nothing_seen : Seen
nothing_seen = record { bus = none; interrupt = none; conflicting = false }

unfoldable pub note_bus : I2cSerialBus → Seen → Seen
unfolding same_bus
note_bus found seen = elim seen.bus [
  | none ↦ record seen { bus = some found }
  | some bus ↦ if same_bus bus found then seen else record seen { conflicting = true }
]

abbrev pub note_interrupt : GpioInterrupt → Seen → Seen
note_interrupt found seen = elim seen.interrupt [
  | none ↦ record seen { interrupt = some found }
  | some _ ↦ seen
]

unfoldable pub note_all : List Resource → Seen → Seen
unfolding note_bus
note_all [] seen = seen
note_all (i2c found ∷ later) seen = note_all later (note_bus found seen)
note_all (gpio found ∷ later) seen = note_all later (note_interrupt found seen)
note_all (memory region ∷ later) seen = note_all later seen
note_all (other large kind ∷ later) seen = note_all later seen

-- The visitor of `declared_resources`: a conflict ends the visits.
abbrev pub note_buffer : Seen → List ℕ → Seen × Bool
note_buffer seen buffer =
    let noted = note_all (entries buffer) seen in (noted, not noted.conflicting)

-- What was seen stands only without a conflict, and with a bus.
abbrev pub agreed_on : Seen → Option (DeviceResources × Provenance)
agreed_on seen = if seen.conflicting then none else elim seen.bus [
  | none ↦ none
  | some bus ↦ some (record { bus = bus; interrupt = seen.interrupt }, declared_buffers)
]

abbrev pub crs_name : NameSeg
crs_name = b'_' ∷ b'C' ∷ b'R' ∷ b'S' ∷ []

module _ (code : List ℕ) where
  -- One object: a named buffer's bytes, or nothing of interest.
  unfoldable pub buffer_object : ℕ → ℕ → Reader (Option (Option (List ℕ)))
  unfolding object_behind parse_data
  buffer_object fuel opcode =
      if not (opcode == Op.name) then (do skip_object code fuel opcode; pure none) else (do
        name code
        value ← parse_data code fuel
        pure (elim value [ buffer_value span ↦ some (bytes_of code span) | _ ↦ none ]))

  module _ {ℓ} {State : Type ℓ} (visit : State → List ℕ → State × Bool) where
    -- What follows an object; a buffer out of bounds ends the visits.
    abbrev pub visit_next :
        Read (Option (Option (List ℕ))) → State → (ℕ → State → Option State) → Option State
    visit_next (read none at) s on = on at s
    visit_next (read (some none) at) s on = some s
    visit_next (read (some (some bytes)) at) s on =
        let shown = visit s bytes in if not shown.1 then some shown.0 else on at shown.0
    visit_next (failed at) s on = some s
    visit_next out_of_fuel s on = none

    -- The loop over a body's objects; `none` only where the fuel runs out.
    unfoldable pub visit_buffers : ℕ → ℕ → ℕ → State → Option State
    unfolding buffer_object
    visit_buffers zero end at s = none
    visit_buffers (suc fuel) end at s =
        if not (ltb at end)
        then some s
        else visit_next ((byte code >>= buffer_object (suc fuel)) at) s
            λ at' s'. visit_buffers fuel end at' s'

    unfoldable pub for_each_declared_buffer : AcpiDevice → State → Option State
    unfolding visit_buffers
    for_each_declared_buffer device s =
        visit_buffers (suc (length code)) device.body.end device.body.start s

  -- The template a device's `_CRS` evaluates to.
  unfoldable pub template_of : AcpiDevice → Option (List ℕ)
  unfolding evaluate
  template_of device = elim (answer (evaluate code device crs_name [])) [
    | none ↦ none
    | some value ↦ value_bytes code value
  ]

  -- What the buffers of a body add up to.
  unfoldable pub declared : AcpiDevice → Option (DeviceResources × Provenance)
  unfolding for_each_declared_buffer note_all
  declared device = elim (for_each_declared_buffer note_buffer device nothing_seen) [
    | none ↦ none
    | some seen ↦ agreed_on seen
  ]

  abbrev pub of_template : List Resource → Option (DeviceResources × Provenance)
  of_template found = elim (first_bus found) [
    | none ↦ none
    | some bus ↦ some (record { bus = bus; interrupt = first_interrupt found }, crs)
  ]

  unfoldable pub declared_resources : AcpiDevice → Option (DeviceResources × Provenance)
  unfolding template_of declared
  declared_resources device =
      let evaluated : Option (DeviceResources × Provenance) = elim (template_of device) [
        | none ↦ none
        | some template ↦ of_template (entries template)
      ] in
      elim evaluated [ none ↦ declared device | some found ↦ some found ]
