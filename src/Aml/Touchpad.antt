-- ===== src/Aml/Touchpad.antt =====
-- crates/nanochrono-core/src/aml.rs: the windows of a pin controller, and the HID devices on an
-- I2C bus.
use nanochronometer.Common.{
  ℕ, zero, suc, ◌+◌, ◌^◌, Bool, true, false, not, ◌&&◌, ◌||◌, List, [], ◌∷◌, Option, none, some,
  length, take, ltb, ◌==◌, if◌then◌else◌,
}
use nanochronometer.Aml.Names.{NamePath, NameSeg, same_bytes, ends_with}
use nanochronometer.Aml.Ids.{HardwareId}
use nanochronometer.Aml.Data.{Value, integer_value, buffer_value, package_value}
use nanochronometer.Aml.Resources.{Resource, memory, I2cSerialBus, GpioInterrupt, MemoryRegion}
use nanochronometer.Aml.Devices.{AcpiDevice, is_device}
use nanochronometer.Aml.Walk.{Walked, walked, walk_out_of_fuel, walk_all}
use nanochronometer.Aml.Methods.{evaluate, present}
use nanochronometer.Aml.Buffers.{Provenance, answer, entries, template_of, declared_resources}

pub record I2cHidDevice : Type 0 where
  pub path : NamePath
  pub hid : Option HardwareId
  pub bus : I2cSerialBus
  pub descriptor_register : Option ℕ
  pub interrupt : Option GpioInterrupt
  pub provenance : Provenance

abbrev pub dsm_name : NameSeg
dsm_name = b'_' ∷ b'D' ∷ b'S' ∷ b'M' ∷ []

abbrev pub i2c_hid_dsm_uuid : List ℕ
i2c_hid_dsm_uuid =
    0xF7 ∷ 0xF6 ∷ 0xDF ∷ 0x3C ∷ 0x67 ∷ 0x42 ∷ 0x55 ∷ 0x45 ∷ 0xAD ∷ 0x05 ∷ 0xB3 ∷ 0x0A ∷ 0x3D ∷ 0x89
    ∷ 0x38 ∷ 0xDE ∷ []

abbrev pub i2c_hid_cid : List ℕ
i2c_hid_cid = b'P' ∷ b'N' ∷ b'P' ∷ b'0' ∷ b'C' ∷ b'5' ∷ b'0' ∷ []

-- The first place where a window of the haystack is the needle.
abbrev pub window_index : List ℕ → List ℕ → Option ℕ
window_index [] needle = none
window_index (b ∷ later) needle =
    let behind = window_index later needle in
    if same_bytes (take (length needle) (b ∷ later)) needle
    then some 0
    else elim behind [ none ↦ none | some n ↦ some (suc n) ]

unfoldable pub find_bytes : List ℕ → List ℕ → Option ℕ
find_bytes haystack needle =
    if (length needle == 0) || ltb (length haystack) (length needle)
    then none
    else window_index haystack needle

module _ (code : List ℕ) where
  -- The writable windows among descriptors, as many as there is room for.
  abbrev pub writable_windows : ℕ → List Resource → List MemoryRegion
  writable_windows room [] = []
  writable_windows zero (r ∷ later) = []
  writable_windows (suc room) (memory region ∷ later) =
      let more = writable_windows room later in
      let all = writable_windows (suc room) later in if region.writable then region ∷ more else all
  writable_windows (suc room) (_ ∷ later) = writable_windows (suc room) later

  abbrev pub is_present : AcpiDevice → Bool
  is_present device = elim (present code device) [ none ↦ true | some answer ↦ answer ]

  abbrev pub last_state {ℓ} : {State : Type ℓ} → State → Walked State → State
  last_state s (walked go scope s') = s'
  last_state s walk_out_of_fuel = s

  -- The first device whose path ends with the controller's.
  abbrev pub keep_controller : NamePath → Option AcpiDevice → AcpiDevice → Option AcpiDevice × Bool
  keep_controller controller kept device =
      if ends_with device.path controller then (some device, false) else (kept, true)

  unfoldable pub gpio_communities : NamePath → ℕ → List MemoryRegion
  unfolding walk_all ends_with present template_of
  gpio_communities controller room =
      elim (last_state none (walk_all code (keep_controller controller) none)) [
        | none ↦ []
        | some device ↦ if not (is_present device) then [] else elim (template_of code device) [
          | none ↦ []
          | some template ↦ writable_windows room (entries template)
        ]
      ]

  abbrev pub is_i2c_hid : AcpiDevice → Bool
  is_i2c_hid device = is_device device i2c_hid_cid && is_present device

  abbrev pub count_hid : ℕ → AcpiDevice → ℕ × Bool
  count_hid count device = (if is_i2c_hid device then count + 1 else count, true)

  unfoldable pub i2c_hid_count : ℕ
  unfolding walk_all is_device present
  i2c_hid_count = last_state 0 (walk_all code count_hid 0)

  -- How many were seen, and the one of the wanted index.
  abbrev pub choose_hid : ℕ → ℕ × Option AcpiDevice → AcpiDevice → (ℕ × Option AcpiDevice) × Bool
  choose_hid index (seen, chosen) device =
      if not (is_i2c_hid device)
      then ((seen, chosen), true)
      else if seen == index
      then ((seen, some device), false)
      else ((seen + 1, chosen), true)

  -- The answer of a `_DSM`, which is a register only where it is an integer of 16 bits.
  abbrev pub register_of : Option Value → Option ℕ
  register_of (some (integer_value register)) =
      if ltb register (2 ^ 16) then some register else none
  register_of _ = none

  unfoldable pub i2c_hid_descriptor_register : AcpiDevice → Option ℕ
  unfolding find_bytes evaluate
  i2c_hid_descriptor_register device = elim (find_bytes code i2c_hid_dsm_uuid) [
    | none ↦ none
    | some at ↦
        let uuid = buffer_value (record { start = at; end = at + length i2c_hid_dsm_uuid }) in
        register_of (
          answer (
            evaluate code device dsm_name (
              uuid
              ∷ integer_value 1
              ∷ integer_value 1
              ∷ package_value (record { start = 0; end = 0 })
              ∷ [])))
  ]

  unfoldable pub find_i2c_hid_nth : ℕ → Option I2cHidDevice
  unfolding walk_all is_device present declared_resources i2c_hid_descriptor_register
  find_i2c_hid_nth index =
      elim (last_state (0, none) (walk_all code (choose_hid index) (0, none))).1 [
        | none ↦ none
        | some device ↦ elim (declared_resources code device) [
          | none ↦ none
          | some (found, provenance) ↦ some (record {
            path = device.path;
            hid = device.hid;
            bus = found.bus;
            descriptor_register = i2c_hid_descriptor_register device;
            interrupt = found.interrupt;
            provenance = provenance;
          })
        ]
      ]

  unfoldable pub find_i2c_hid : Option I2cHidDevice
  unfolding find_i2c_hid_nth
  find_i2c_hid = find_i2c_hid_nth 0
