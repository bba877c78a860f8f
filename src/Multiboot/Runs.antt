-- ===== src/Multiboot/Runs.antt =====
-- The loader's information at a concrete image: tests, and the theorems applied.
use nanochronometer.Common.{
  or_found, All, ◌⊎◌, true, none, ℕ, ◌+◌, ◌-◌, ◌*◌, ◌/◌, ◌%◌, ◌≡◌, refl, false, List, [], ◌∷◌, ◌++◌,
  Option, some, get_or, length,
}
use nanochronometer.Framebuffer.{Framebuffer}
use nanochronometer.Multiboot.{u32_at, is_refused, signature, framebuffer, memory, acpi_rsdp}
use nanochronometer.Multiboot.Tags.{Tags}
use nanochronometer.Multiboot.Finds.{FirstScreen, framebuffer-FirstScreen}
use nanochronometer.Multiboot.Tables.{Reads, copy_at, last_new, first_old, acpi_rsdp-preferred}
use nanochronometer.Multiboot.Installed.{
  counted, over_maps, available, is_counted, memory-over_maps,
}

abbrev le : ℕ → List ℕ
le n = n % 256 ∷ (n / 256 % 256 ∷ (n / 65_536 % 256 ∷ (n / 16_777_216 % 256 ∷ [])))

-- A root table pointer of revision 0.
abbrev rsdp_copy_tag : List ℕ
rsdp_copy_tag =
    le 14
    ++ le 28
    ++ signature
    ++ (209 ∷ [])
    ++ le 0
    ++ (0 ∷ 0 ∷ [])
    ++ (0 ∷ [])
    ++ le 0x1000
    ++ le 0

-- A map with one entry of 16 MiB.
abbrev map_tag : List ℕ
map_tag = le 6 ++ le 40 ++ le 24 ++ le 0 ++ le 0 ++ le 0 ++ le 0x100_0000 ++ le 0 ++ le 1 ++ le 0

abbrev screen_tag : List ℕ
screen_tag =
    le 8 ++ le 32 ++ le 0xFD00_0000 ++ le 0 ++ le 4096 ++ le 1024 ++ le 768 ++ (32 ∷ 1 ∷ 0 ∷ 0 ∷ [])

-- The coarse figures: 640 KiB and 1 MiB.
abbrev coarse_tag : List ℕ
coarse_tag = le 4 ++ le 16 ++ le 640 ++ le 1024

abbrev last_tag : List ℕ
last_tag = le 0 ++ le 8

-- Memory with the information at address 8.
abbrev loaded : List ℕ → ℕ → ℕ
loaded tags at = get_or (le (8 + length tags) ++ le 0 ++ tags) (at - 8) 0

abbrev image : ℕ → ℕ
image = loaded (rsdp_copy_tag ++ map_tag ++ screen_tag ++ last_tag)

framebuffer-FirstScreen_example :
    ((is_refused image 8 ≡ true) × (framebuffer image 8 ≡ some none))
    ⊎ ((ps : List ℕ) × Tags image 8 (u32_at image 8) 8 ps
        × (found : Option Framebuffer) × (framebuffer image 8 ≡ some found)
        × FirstScreen image 8 ps found)
framebuffer-FirstScreen_example = framebuffer-FirstScreen image 8

acpi_rsdp-preferred_example :
    ((is_refused image 8 ≡ true) × (acpi_rsdp image 8 ≡ some none))
    ⊎ ((ps : List ℕ) × Tags image 8 (u32_at image 8) 8 ps
        × (acpi_rsdp image 8 ≡ some (or_found (last_new image 8 ps) (first_old image 8 ps)))
        × All (λ p. Reads image (8 + p + 8) (u32_at image (8 + p + 4) - 8) (copy_at image 8 p)) ps)
acpi_rsdp-preferred_example = acpi_rsdp-preferred image 8

memory-over_maps_example :
    memory image 8
    ≡ some (
        counted
          (over_maps image 8 (available image) (8 ∷ 40 ∷ 80 ∷ []))
          (over_maps image 8 (is_counted image) (8 ∷ 40 ∷ 80 ∷ [])))
unfolding memory
memory-over_maps_example =
    memory-over_maps image 8 (8 ∷ 40 ∷ 80 ∷ []) refl (refl, refl, (refl, refl, (refl, refl, refl)))
      (refl, (refl, (refl, tt)))

memory_found : memory image 8 ≡ some (record { total = 0x100_0000; regions = 1 })
unfolding memory
memory_found = refl

tables_found : acpi_rsdp image 8 ≡ some (some (record { rsdt = 0x1000; xsdt = 0; revision = 0 }))
unfolding acpi_rsdp
tables_found = refl

screen_found :
    framebuffer image 8
    ≡ some (
        some (record {
          base = 0xFD00_0000;
          composited = false;
          width = 1024;
          height = 768;
          pitch = 4096;
          bytes_per_pixel = 4;
        }))
unfolding framebuffer
screen_found = refl

-- The coarse figure is taken where its tag comes before the map, and the map is added to it.
memory_doubled :
    memory (loaded (coarse_tag ++ map_tag ++ last_tag)) 8
    ≡ some (record { total = 0x100_0000 + 1664 * 1024; regions = 1 })
unfolding memory
memory_doubled = refl
