-- ===== src/Aml/Resources/Regions.antt =====
-- Memory windows: what a fixed 32-bit one and an address space say.
use nanochronometer.Common.{
  ℕ, ◌+◌, ◌*◌, ◌/◌, ◌%◌, ◌^◌, ◌≤◌, ◌<◌, ◌≡◌, refl, ap, ◌∙◌, arith, Bool, true, false, not, List, [],
  ◌∷◌, ◌++◌, map, some, length, take, drop, ◌==◌, if◌then◌else◌, bit_and, All,
}
use nanochronometer.Aml.Resources.{
  memory, MemoryRegion, parse_memory32_fixed, parse_address_space, space_field, decode_large,
  resources, le_u32,
}
use nanochronometer.Aml.Resources.Framing.{
  Descriptor, large, encoded_all, Fits, decoded, end_tag, resources-encoded_all,
}
use nanochronometer.Aml.Cursor.Little.{IsByte, value_of, All-take, All-drop, little_endian-value_of}

abbrev pub u32_bytes : ℕ → List ℕ
u32_bytes n = n % 256 ∷ n / 2 ^ 8 % 256 ∷ n / 2 ^ 16 % 256 ∷ n / 2 ^ 24 % 256 ∷ []

abbrev pub flag : Bool → ℕ
flag b = if b then 1 else 0

-- A fixed memory window as a template writes it.
abbrev pub memory32 : MemoryRegion → Descriptor
memory32 region =
    large 0x06 (flag region.writable ∷ u32_bytes region.base ++ u32_bytes region.length)

-- A window that its descriptor can say, and that is not empty.
abbrev pub IsWindow : MemoryRegion → Type 0
IsWindow region = (region.base < 2 ^ 32) × (0 < region.length) × (region.length < 2 ^ 32)

le_u32-u32_bytes :
    (n : ℕ)
    → n < 2 ^ 32
    → le_u32 (n % 256) (n / 2 ^ 8 % 256) (n / 2 ^ 16 % 256) (n / 2 ^ 24 % 256) ≡ n
le_u32-u32_bytes n h = omega arith

flag_lem : (b : Bool) → not (bit_and (flag b) 0x01 == 0) ≡ b
flag_lem true = refl
flag_lem false = refl

decoded-memory32 :
    (region : MemoryRegion) → IsWindow region → decoded (memory32 region) ≡ memory region
unfolding decode_large parse_memory32_fixed
decoded-memory32 region (b, pos, l) =
    let empty : (region.length == 0) ≡ false = ground arith in
    rw
      (
        le_u32-u32_bytes region.base b,
        le_u32-u32_bytes region.length l,
        empty,
        flag_lem region.writable,
      )
      refl

map-decoded :
    (regions : List MemoryRegion)
    → All IsWindow regions
    → map decoded (map memory32 regions) ≡ map memory regions
map-decoded [] a = refl
map-decoded (r ∷ rs) (w, a) = rw (decoded-memory32 r w, map-decoded rs a) refl

memory32-Fits : (regions : List MemoryRegion) → All Fits (map memory32 regions)
memory32-Fits [] = tt
memory32-Fits (r ∷ rs) = ((omega arith, omega arith), memory32-Fits rs)

-- Windows below 4 GiB, none of them empty, that a template writes as fixed memory descriptors are
-- what the iterator yields, in order.
pub resources-memory32 :
    (regions : List MemoryRegion) (rest : List ℕ)
    → All IsWindow regions
    → resources (encoded_all (map memory32 regions) ++ (end_tag ∷ rest)) ≡ some (map memory regions)
resources-memory32 regions rest a =
    resources-encoded_all (map memory32 regions) rest (memory32-Fits regions)
    ∙ ap some (map-decoded regions a)

-- The bytes of one field of an address space.
abbrev pub field_bytes : List ℕ → ℕ → ℕ → List ℕ
field_bytes body width index = take width (drop (3 + index * width) body)

space_field-value_of :
    (body : List ℕ) (width index : ℕ)
    → All IsByte body
    → space_field body width index ≡ value_of (field_bytes body width index)
space_field-value_of body width index a =
    let bytes = field_bytes body width index in
    little_endian-value_of 0 bytes 0
      (All-take width (drop (3 + index * width) body) (All-drop (3 + index * width) body a))
      (omega arith)
    ∙ omega arith

-- An address space that is read as a window holds its five fields, and base and length are the
-- little-endian values of the second and the fifth, a length that is not zero and fits 32 bits.
pub parse_address_space-some :
    (body : List ℕ) (width : ℕ) (region : MemoryRegion)
    → All IsByte body
    → parse_address_space body width ≡ some region
    → (3 + width * 5 ≤ length body)
      × (region.base ≡ value_of (field_bytes body width 1))
      × (region.length ≡ value_of (field_bytes body width 4))
      × (0 < region.length)
      × (region.length < 2 ^ 32)
unfolding parse_address_space
parse_address_space-some body width region a h =
    let base = space_field-value_of body width 1 a in
    let size = space_field-value_of body width 4 a in ground (arith, h)
