-- ===== src/Multiboot.antt =====
-- crates/nanochrono-baremetal/src/multiboot.rs: the information that the loader leaves in memory. A
-- byte of memory is a function of its address. The three readers share their loop over the tags.
pub mod Tags
pub mod Finds
pub mod Tables
pub mod Installed
mod Runs
use nanochronometer.Common.{
  ℕ, zero, suc, ◌+◌, ◌-◌, ◌*◌, ◌/◌, ◌%◌, ◌^◌, Bool, true, false, ◌&&◌, ◌||◌, not, List, [], ◌∷◌,
  map, Option, none, some, ltb, leb, ◌==◌, if◌then◌else◌, as_u8, as_u32, as_u64, saturating_add,
}
use nanochronometer.Framebuffer.{Framebuffer, make, is_usable}

abbrev pub tag_end : ℕ
tag_end = 0

abbrev pub tag_basic_memory : ℕ
tag_basic_memory = 4

abbrev pub tag_memory_map : ℕ
tag_memory_map = 6

abbrev pub tag_framebuffer : ℕ
tag_framebuffer = 8

abbrev pub tag_acpi_old : ℕ
tag_acpi_old = 14

abbrev pub tag_acpi_new : ℕ
tag_acpi_new = 15

abbrev pub framebuffer_type_rgb : ℕ
framebuffer_type_rgb = 1

abbrev pub memory_available : ℕ
memory_available = 1

pub record Memory : Type 0 where
  pub total : ℕ
  pub regions : ℕ

abbrev pub no_memory : Memory
no_memory = record { total = 0; regions = 0 }

abbrev pub is_known : Memory → Bool
is_known m = ltb 0 m.total

pub record Rsdp : Type 0 where
  pub rsdt : ℕ
  pub xsdt : ℕ
  pub revision : ℕ

abbrev pub has_table : Rsdp → Bool
has_table r = not (r.rsdt == 0) || not (r.xsdt == 0)

-- What a tag makes of the loop: it ends there or goes on.
pub data Action (State : Type 0) : Type 0 where
  returned : State → Action State
  go_on : State → Action State

abbrev pub after : {State : Type 0} → Action State → (State → Option State) → Option State
after (returned s) rest = some s
after (go_on s) rest = rest s

-- Tags are padded to eight bytes.
abbrev pub padded : ℕ → ℕ
padded size = (size + 7) / 8 * 8

-- `RSD PTR `
abbrev pub signature : List ℕ
signature = 0x52 ∷ (0x53 ∷ (0x44 ∷ (0x20 ∷ (0x50 ∷ (0x54 ∷ (0x52 ∷ (0x20 ∷ [])))))))

-- The later form replaces what was found, the earlier one only where nothing was.
abbrev pub prefer : ℕ → Option Rsdp → Option Rsdp → Option Rsdp
prefer kind none best = best
prefer kind (some rsdp) none = some rsdp
prefer kind (some rsdp) (some found) = if kind == tag_acpi_new then some rsdp else some found

module _ (bytes : ℕ → ℕ) where
  abbrev pub u8_at : ℕ → ℕ
  u8_at at = bytes (as_u64 at)

  unfoldable pub u32_at : ℕ → ℕ
  u32_at at = u8_at at + u8_at (at + 1) * 2 ^ 8 + u8_at (at + 2) * 2 ^ 16 + u8_at (at + 3) * 2 ^ 24

  unfoldable pub u64_at : ℕ → ℕ
  unfolding u32_at
  u64_at at = u32_at at + u32_at (at + 4) * 2 ^ 32

  -- The loop's end: behind the last tag, or at a tag that ends the list.
  abbrev pub is_over : ℕ → ℕ → ℕ → Bool
  is_over info total offset =
      ltb total (offset + 8)
      || (u32_at (info + offset) == tag_end || ltb (u32_at (info + offset + 4)) 8)

  -- The loop over the tags, each given to `body` by its address, kind and size.
  unfoldable pub walk :
      {State : Type 0} → (ℕ → ℕ → ℕ → State → Action State) → ℕ → ℕ → ℕ → ℕ → State → Option State
  unfolding u32_at
  walk body zero info total offset s = none
  walk body (suc fuel) info total offset s =
      let at = info + offset in
      let size = u32_at (at + 4) in
      if is_over info total offset
      then some s
      else after (body at (u32_at at) size s) (walk body fuel info total (offset + padded size))

  -- What is refused before the loop: no address, a misaligned one, or a total size out of range.
  unfoldable pub is_refused : ℕ → Bool
  unfolding u32_at
  is_refused info =
      (info == 0 || not (info % 8 == 0))
      || not (leb 16 (u32_at info) && ltb (u32_at info) 0x10_0000)

  unfoldable pub over_tags :
      {State : Type 0} → (ℕ → ℕ → ℕ → State → Action State) → State → ℕ → Option State
  unfolding is_refused walk
  over_tags body s info =
      let total = u32_at info in if is_refused info then some s else walk body total info total 8 s

  unfoldable pub framebuffer_at : ℕ → Option Framebuffer
  unfolding u32_at u64_at is_usable
  framebuffer_at tag =
      let address = u64_at (tag + 8) in
      let fb =
        make address (u32_at (tag + 20)) (u32_at (tag + 24)) (u32_at (tag + 16))
          (u8_at (tag + 28)) in
      if not (u8_at (tag + 29) == framebuffer_type_rgb)
      then none
      else if address == 0 || leb (512 * 2 ^ 30) address
      then none
      else if is_usable fb
      then some fb
      else none

  unfoldable pub framebuffer_tag : ℕ → ℕ → ℕ → Option Framebuffer → Action (Option Framebuffer)
  unfolding framebuffer_at
  framebuffer_tag tag kind size s =
      if kind == tag_framebuffer && leb 32 size then returned (framebuffer_at tag) else go_on s

  unfoldable pub framebuffer : ℕ → Option (Option Framebuffer)
  unfolding over_tags framebuffer_tag
  framebuffer info = over_tags framebuffer_tag none info

  -- One entry of the map, and the entries of a tag from `at` on.
  unfoldable pub add_entry : ℕ → Memory → Memory
  unfolding u32_at u64_at
  add_entry at m =
      if u32_at (at + 16) == memory_available
      then record m {
        total = saturating_add m.total (u64_at (at + 8));
        regions = as_u32 (m.regions + 1);
      }
      else m

  unfoldable pub add_entries : ℕ → ℕ → ℕ → ℕ → ℕ → Memory → Memory
  unfolding add_entry
  add_entries zero tag entry_size size at m = m
  add_entries (suc fuel) tag entry_size size at m =
      let rest = add_entries fuel tag entry_size size (at + entry_size) (add_entry (tag + at) m) in
      if leb (at + entry_size) size then rest else m

  unfoldable pub memory_tag : ℕ → ℕ → ℕ → Memory → Action Memory
  unfolding u32_at add_entries
  memory_tag tag kind size m =
      let entry_size = u32_at (tag + 8) in
      if kind == tag_memory_map && leb 16 size
      then go_on (if leb 24 entry_size then add_entries size tag entry_size size 16 m else m)
      else if kind == tag_basic_memory && (leb 16 size && (m.total == 0))
      then go_on (record m { total = (u32_at (tag + 8) + u32_at (tag + 12)) * 1024 })
      else go_on m

  unfoldable pub memory : ℕ → Option Memory
  unfolding over_tags memory_tag
  memory info = over_tags memory_tag no_memory info

  -- The wrapping sum of bytes, and the bytes one by one.
  unfoldable pub sum : ℕ → ℕ → ℕ → ℕ
  sum zero at total = total
  sum (suc count) at total = sum count (at + 1) (as_u8 (total + u8_at at))

  abbrev pub has_bytes : List ℕ → ℕ → Bool
  has_bytes [] at = true
  has_bytes (b ∷ bs) at = (u8_at at == b) && has_bytes bs (at + 1)

  unfoldable pub parse_rsdp : ℕ → ℕ → Option Rsdp
  unfolding u32_at u64_at sum
  parse_rsdp at length =
      let revision = u8_at (at + 15) in
      let extended = leb 2 revision && (leb 36 length && (sum 36 at 0 == 0)) in
      let rsdp : Rsdp = record {
        rsdt = u32_at (at + 16);
        xsdt = if extended then u64_at (at + 24) else 0;
        revision = revision;
      } in
      if ltb length 20 || (not (has_bytes signature at) || not (sum 20 at 0 == 0))
      then none
      else if has_table rsdp
      then some rsdp
      else none

  unfoldable pub rsdp_tag : ℕ → ℕ → ℕ → Option Rsdp → Action (Option Rsdp)
  unfolding parse_rsdp
  rsdp_tag tag kind size best =
      if kind == tag_acpi_old || kind == tag_acpi_new
      then go_on (prefer kind (parse_rsdp (tag + 8) (size - 8)) best)
      else go_on best

  unfoldable pub acpi_rsdp : ℕ → Option (Option Rsdp)
  unfolding over_tags rsdp_tag
  acpi_rsdp info = over_tags rsdp_tag none info
