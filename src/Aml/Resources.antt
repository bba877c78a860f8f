-- ===== src/Aml/Resources.antt =====
-- crates/nanochrono-core/src/aml.rs: the descriptors of a resource template.
pub mod Framing
pub mod Regions
use nanochronometer.Common.{
  ℕ, zero, suc, ◌+◌, ◌-◌, ◌*◌, ◌/◌, ◌%◌, ◌^◌, Bool, true, false, not, ◌&&◌, ◌||◌, List, [], ◌∷◌,
  Option, none, some, length, get_elem?, get_or, take, drop, ltb, ◌==◌, if◌then◌else◌, bit_and,
}
use nanochronometer.Aml.Names.{NamePath, root, parse_path}
use nanochronometer.Aml.Cursor.{little_endian}

pub record I2cSerialBus : Type 0 where
  pub slave_address : ℕ
  pub connection_speed : ℕ
  pub ten_bit : Bool
  pub controller : NamePath

pub record GpioInterrupt : Type 0 where
  pub pin : ℕ
  pub controller : NamePath

pub record MemoryRegion : Type 0 where
  pub base : ℕ
  pub length : ℕ
  pub writable : Bool

pub data Resource : Type 0 where
  i2c : I2cSerialBus → Resource
  gpio : GpioInterrupt → Resource
  memory : MemoryRegion → Resource
  other : Bool → ℕ → Resource

abbrev pub bind {ℓ κ} : {A : Type ℓ} {B : Type κ} → Option A → (A → Option B) → Option B
bind none f = none
bind (some a) f = f a

module _ {ℓ κ} {A : Type ℓ} {B : Type κ} where
  infixl 1 ◌>>=◌
  abbrev pub ◌>>=◌ : Option A → (A → Option B) → Option B
  m >>= f = bind m f

abbrev pub unwrap_or {ℓ} : {A : Type ℓ} → Option A → A → A
unwrap_or none d = d
unwrap_or (some a) d = a

-- `from_le_bytes`
abbrev pub le_u16 : ℕ → ℕ → ℕ
le_u16 a b = a + b * 2 ^ 8

abbrev pub le_u32 : ℕ → ℕ → ℕ → ℕ → ℕ
le_u32 a b c d = a + b * 2 ^ 8 + c * 2 ^ 16 + d * 2 ^ 24

-- `bytes.get(from..)`
abbrev pub tail_from : List ℕ → ℕ → Option (List ℕ)
tail_from bytes from = if ltb (length bytes) from then none else some (drop from bytes)

-- The path a resource source names; a text that is none stands for the root.
abbrev pub controller_at : List ℕ → ℕ → NamePath
controller_at bytes from = unwrap_or (bind (tail_from bytes from) parse_path) root

abbrev pub i2c_of : List ℕ → Option I2cSerialBus
i2c_of body = do
  flags_low ← get_elem? body 4
  flags_high ← get_elem? body 5
  data_low ← get_elem? body 7
  data_high ← get_elem? body 8
  speed₀ ← get_elem? body 9
  speed₁ ← get_elem? body 10
  speed₂ ← get_elem? body 11
  speed₃ ← get_elem? body 12
  address_low ← get_elem? body 13
  address_high ← get_elem? body 14
  some (record {
    slave_address = le_u16 address_low address_high;
    connection_speed = le_u32 speed₀ speed₁ speed₂ speed₃;
    ten_bit = not (bit_and (le_u16 flags_low flags_high) 0x0001 == 0);
    controller = controller_at body (9 + le_u16 data_low data_high);
  })

unfoldable pub parse_i2c_serial_bus : List ℕ → Option I2cSerialBus
parse_i2c_serial_bus body =
    if ltb (length body) 9
    then none
    else do serial_bus ← get_elem? body 2; if serial_bus == 0x01 then i2c_of body else none

-- Indexing, which the length test has made safe.
abbrev pub byte_at : List ℕ → ℕ → ℕ
byte_at bytes i = get_or bytes i 0

unfoldable pub parse_gpio : List ℕ → Option GpioInterrupt
parse_gpio whole =
    let pin_at = le_u16 (byte_at whole 14) (byte_at whole 15) in
    let source_at = le_u16 (byte_at whole 17) (byte_at whole 18) in
    if ltb (length whole) 19
    then none
    else if not (byte_at whole 4 == 0)
    then none
    else if ltb (length whole) (pin_at + 2)
    then none
    else some (record {
      pin = le_u16 (byte_at whole pin_at) (byte_at whole (pin_at + 1));
      controller = controller_at whole source_at;
    })

unfoldable pub parse_memory32_fixed : List ℕ → Option MemoryRegion
parse_memory32_fixed body =
    let size = le_u32 (byte_at body 5) (byte_at body 6) (byte_at body 7) (byte_at body 8) in
    if ltb (length body) 9
    then none
    else if size == 0
    then none
    else some (record {
      base = le_u32 (byte_at body 1) (byte_at body 2) (byte_at body 3) (byte_at body 4);
      length = size;
      writable = not (bit_and (byte_at body 0) 0x01 == 0);
    })

-- `field(index)` of an address space whose fields are `width` bytes wide.
abbrev pub space_field : List ℕ → ℕ → ℕ → ℕ
space_field body width index = little_endian 0 (take width (drop (3 + index * width) body)) 0

unfoldable pub parse_address_space : List ℕ → ℕ → Option MemoryRegion
parse_address_space body width =
    let size = space_field body width 4 in
    if ltb (length body) (3 + width * 5) || not (byte_at body 0 == 0x00)
    then none
    else if (size == 0) || ltb (2 ^ 32 - 1) size
    then none
    else some (record {
      base = space_field body width 1;
      length = size;
      writable = not (bit_and (byte_at body 2) 0x01 == 0);
    })

abbrev pub as_resource {ℓ} : {A : Type ℓ} → (A → Resource) → ℕ → Option A → Resource
as_resource f kind none = other true kind
as_resource f kind (some a) = f a

-- What a large descriptor says, from its kind, its body and the whole of it.
unfoldable pub decode_large : ℕ → List ℕ → List ℕ → Resource
unfolding parse_i2c_serial_bus parse_gpio parse_memory32_fixed parse_address_space
decode_large kind body whole =
    if kind == 0x0E
    then as_resource i2c kind (parse_i2c_serial_bus body)
    else if kind == 0x0C
    then as_resource gpio kind (parse_gpio whole)
    else if kind == 0x06
    then as_resource memory kind (parse_memory32_fixed body)
    else if kind == 0x0A
    then as_resource memory kind (parse_address_space body 8)
    else if kind == 0x07
    then as_resource memory kind (parse_address_space body 4)
    else other true kind

-- The iterator at a small descriptor's tag: the resource and the position behind it.
unfoldable pub next_small : List ℕ → ℕ → ℕ → Option (Resource × ℕ)
next_small buffer at tag =
    let kind = bit_and (tag / 2 ^ 3) 0x0F in
    let behind = at + (1 + bit_and tag 0x07) in
    if kind == 0x0F
    then none
    else if ltb (length buffer) behind
    then none
    else some (other false kind, behind)

-- A large descriptor that ends at `behind`, where its body fits the template.
abbrev pub large_until : List ℕ → ℕ → ℕ → ℕ → Option (Resource × ℕ)
large_until buffer at tag behind =
    let body = take (behind - (at + 3)) (drop (at + 3) buffer) in
    let whole = take (behind - at) (drop at buffer) in
    if ltb (length buffer) behind
    then none
    else some (decode_large (bit_and tag 0x7F) body whole, behind)

unfoldable pub next_large : List ℕ → ℕ → ℕ → Option (Resource × ℕ)
unfolding decode_large
next_large buffer at tag = do
  low ← get_elem? buffer (at + 1)
  high ← get_elem? buffer (at + 2)
  large_until buffer at tag (at + 3 + le_u16 low high)

-- One call of the iterator.
unfoldable pub next_resource : List ℕ → ℕ → Option (Resource × ℕ)
unfolding next_small next_large
next_resource buffer at = do
  tag ← get_elem? buffer at
  if bit_and tag 0x80 == 0 then next_small buffer at tag else next_large buffer at tag

-- All that the iterator yields from `at` on; `none` only where the fuel runs out.
unfoldable pub collect : ℕ → List ℕ → ℕ → Option (List Resource)
unfolding next_resource
collect zero buffer at = none
collect (suc fuel) buffer at = elim (next_resource buffer at) [
  | none ↦ some []
  | some (resource, behind) ↦ elim (collect fuel buffer behind) [
    | none ↦ none
    | some more ↦ some (resource ∷ more)
  ]
]

-- A descriptor takes at least one byte.
unfoldable pub resources : List ℕ → Option (List Resource)
unfolding collect
resources buffer = collect (suc (length buffer)) buffer 0
