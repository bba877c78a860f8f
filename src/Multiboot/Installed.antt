-- ===== src/Multiboot/Installed.antt =====
-- The memory that the loader's map counts.
use nanochronometer.Common.{
  ℕ, zero, suc, ◌+◌, ◌-◌, ◌*◌, ◌/◌, ◌^◌, ◌≤◌, ◌<◌, ◌≡◌, refl, ap, ◌∙◌, arith, min, Bool, true,
  false, ◌&&◌, List, [], ◌∷◌, All, some, leb, ◌==◌, if◌then◌else◌, as_u32, saturating_add,
}
use native.Mathlib.Nat.{le-div_iff_mul-le, div-lt_iff_lt-mul, div-le_self}
use nanochronometer.Multiboot.{
  Action, go_on, after, Memory, no_memory, memory_available, tag_basic_memory, tag_memory_map,
  u32_at, u64_at, is_refused, add_entry, add_entries, memory_tag, memory,
}
use nanochronometer.Multiboot.Tags.{Tags, visit_all, over_tags-Tags}

-- The counters at these sums.
abbrev pub counted : ℕ → ℕ → Memory
counted installed regions = record { total = min installed (2 ^ 64 - 1); regions = as_u32 regions }

count_if :
    (b : Bool) (length installed regions : ℕ)
    → (if b
        then record {
          total = saturating_add (min installed (2 ^ 64 - 1)) length;
          regions = as_u32 (as_u32 regions + 1);
        }
        else counted installed regions)
      ≡ counted (installed + (if b then length else 0)) (regions + (if b then 1 else 0))
count_if true length installed regions =
    let sums : min (min installed (2 ^ 64 - 1) + length) (2 ^ 64 - 1)
        ≡ min (installed + length) (2 ^ 64 - 1) =
      omega arith in
    let counts : as_u32 (as_u32 regions + 1) ≡ as_u32 (regions + 1) = omega arith in
    ap (λ t. record { total = t; regions = as_u32 (as_u32 regions + 1) }) sums
    ∙ ap (λ r. record { total = min (installed + length) (2 ^ 64 - 1); regions = r }) counts
count_if false length installed regions =
    let sums : installed ≡ installed + 0 = omega arith in
    let counts : regions ≡ regions + 0 = omega arith in
    ap (λ t. counted t regions) sums ∙ ap (counted (installed + 0)) counts

regroup : (a b c : ℕ) → a + b + c ≡ a + (b + c)
regroup a b c = omega arith

module _ (bytes : ℕ → ℕ) where
  -- What an entry adds to the sum, and to the number of regions.
  abbrev pub available : ℕ → ℕ
  available at = if u32_at bytes (at + 16) == memory_available then u64_at bytes (at + 8) else 0

  abbrev pub is_counted : ℕ → ℕ
  is_counted at = if u32_at bytes (at + 16) == memory_available then 1 else 0

  -- The sum over entries of one size.
  unfoldable pub sum_entries : (ℕ → ℕ) → ℕ → ℕ → ℕ → ℕ
  sum_entries f entry_size zero at = 0
  sum_entries f entry_size (suc count) at = f at + sum_entries f entry_size count (at + entry_size)

  add_entries-counted :
      (fuel tag entry_size size at count installed regions : ℕ)
      → count ≤ fuel
      → at + count * entry_size ≤ size
      → size < at + suc count * entry_size
      → add_entries bytes fuel tag entry_size size at (counted installed regions)
        ≡ counted
            (installed + sum_entries available entry_size count (tag + at))
            (regions + sum_entries is_counted entry_size count (tag + at))
  unfolding add_entries add_entry sum_entries
  add_entries-counted zero tag entry_size size at zero installed regions h low high =
      count_if false 0 installed regions
  add_entries-counted zero tag entry_size size at (suc count) installed regions h low high =
      absurd (omega arith)
  add_entries-counted (suc fuel) tag entry_size size at zero installed regions h low high =
      let past : leb (at + entry_size) size ≡ false = ground arith in
      ap
        (λ b.
          if b
          then add_entries bytes fuel tag entry_size size (at + entry_size)
              (add_entry bytes (tag + at) (counted installed regions))
          else counted installed regions)
        past
      ∙ count_if false 0 installed regions
  add_entries-counted (suc fuel) tag entry_size size at (suc count) installed regions h low high =
      let there : leb (at + entry_size) size ≡ true = ground arith in
      let next : tag + (at + entry_size) ≡ tag + at + entry_size = omega arith in
      let more = sum_entries available entry_size count in
      let more_regions = sum_entries is_counted entry_size count in
      let entry = tag + at in
      ap
        (λ b.
          if b
          then add_entries bytes fuel tag entry_size size (at + entry_size)
              (add_entry bytes entry (counted installed regions))
          else counted installed regions)
        there
      ∙ ap (add_entries bytes fuel tag entry_size size (at + entry_size)) (
          count_if (u32_at bytes (entry + 16) == memory_available) (u64_at bytes (entry + 8))
            installed regions)
      ∙ add_entries-counted fuel tag entry_size size (at + entry_size) count
          (installed + available entry) (regions + is_counted entry) (omega arith) (omega arith)
          (omega arith)
      ∙ ap
          (λ a.
            counted (installed + available entry + more a)
              (regions + is_counted entry + more_regions a))
          next
      ∙ ap (λ t. counted t (regions + is_counted entry + more_regions (entry + entry_size)))
          (regroup installed (available entry) (more (entry + entry_size)))
      ∙ ap (counted (installed + (available entry + more (entry + entry_size))))
          (regroup regions (is_counted entry) (more_regions (entry + entry_size)))

  -- The entries of a tag of the map, and the sum over them.
  abbrev pub is_map : ℕ → Bool
  is_map tag =
      u32_at bytes tag == tag_memory_map
      && (leb 16 (u32_at bytes (tag + 4)) && leb 24 (u32_at bytes (tag + 8)))

  abbrev pub in_map : (ℕ → ℕ) → ℕ → ℕ
  in_map f tag =
      if is_map tag
      then sum_entries f (u32_at bytes (tag + 8))
          ((u32_at bytes (tag + 4) - 16) / u32_at bytes (tag + 8)) (tag + 16)
      else 0

  map_entries-counted :
      (tag size entry_size installed regions : ℕ)
      → 16 ≤ size
      → 24 ≤ entry_size
      → add_entries bytes size tag entry_size size 16 (counted installed regions)
        ≡ counted
            (installed + sum_entries available entry_size ((size - 16) / entry_size) (tag + 16))
            (regions + sum_entries is_counted entry_size ((size - 16) / entry_size) (tag + 16))
  map_entries-counted tag size entry_size installed regions long stride =
      let count = (size - 16) / entry_size in
      let fits : count * entry_size ≤ size - 16 =
        (le-div_iff_mul-le {k = entry_size} {x = count} {y = size - 16} (omega arith)).0
          (omega arith) in
      let full : size - 16 < suc count * entry_size =
        (div-lt_iff_lt-mul {k = entry_size} {x = size - 16} {y = suc count} (omega arith)).0
          (omega arith) in
      let few : count ≤ size = omega (arith, div-le_self (size - 16) entry_size) in
      add_entries-counted size tag entry_size size 16 count installed regions few
        (omega (arith, fits)) (omega (arith, full))

  -- A tag of the map counts its entries and another one nothing, where it is not the coarse one.
  memory_tag-counted :
      (tag installed regions : ℕ)
      → (u32_at bytes tag == tag_basic_memory) ≡ false
      → memory_tag bytes tag (u32_at bytes tag) (u32_at bytes (tag + 4)) (counted installed regions)
        ≡ go_on (counted (installed + in_map available tag) (regions + in_map is_counted tag))
  unfolding memory_tag
  memory_tag-counted tag installed regions fine =
      let size = u32_at bytes (tag + 4) in
      let entry_size = u32_at bytes (tag + 8) in
      let m = counted installed regions in
      let coarse = record m { total = (u32_at bytes (tag + 8) + u32_at bytes (tag + 12)) * 1024 } in
      let all = add_entries bytes size tag entry_size size 16 m in
      let choose : Bool → Bool → Bool → Bool → Action Memory = λ here long strided basic.
        if here && long
        then go_on (if strided then all else m)
        else if basic && (long && (m.total == 0))
        then go_on coarse
        else go_on m in
      ap (choose (u32_at bytes tag == tag_memory_map) (leb 16 size) (leb 24 entry_size)) fine
      ∙ chosen (u32_at bytes tag == tag_memory_map) (leb 16 size) (leb 24 entry_size)
          (sum_entries available entry_size ((size - 16) / entry_size) (tag + 16))
          (sum_entries is_counted entry_size ((size - 16) / entry_size) (tag + 16)) all
          (λ long stride.
            map_entries-counted tag size entry_size installed regions (ground (arith, long))
              (ground (arith, stride)))
    where
      chosen :
          (here long strided : Bool) (sums counts : ℕ) (all : Memory)
          → (long ≡ true → strided ≡ true → all ≡ counted (installed + sums) (regions + counts))
          → (if here && long
              then go_on (if strided then all else counted installed regions)
              else go_on (counted installed regions))
            ≡ go_on (
                counted
                  (installed + (if here && (long && strided) then sums else 0))
                  (regions + (if here && (long && strided) then counts else 0)))
      chosen true true true sums counts all same = ap go_on (same refl refl)
      chosen true true false sums counts all same = ap go_on (count_if false 0 installed regions)
      chosen true false strided sums counts all same = ap go_on (count_if false 0 installed regions)
      chosen false long strided sums counts all same = ap go_on (count_if false 0 installed regions)

  module _ (info : ℕ) where
    -- The sum over the tags.
    abbrev pub over_maps : (ℕ → ℕ) → List ℕ → ℕ
    over_maps f [] = 0
    over_maps f (p ∷ ps) = in_map f (info + p) + over_maps f ps

    -- A tag that is not the coarse one.
    abbrev pub IsFine : ℕ → Type 0
    IsFine p = (u32_at bytes (info + p) == tag_basic_memory) ≡ false

    visit_all-counted :
        (ps : List ℕ) (installed regions : ℕ)
        → All IsFine ps
        → visit_all bytes info (u32_at bytes info) (memory_tag bytes) ps (counted installed regions)
          ≡ some (counted (installed + over_maps available ps) (regions + over_maps is_counted ps))
    visit_all-counted [] installed regions fine = ap some (count_if false 0 installed regions)
    visit_all-counted (p ∷ ps) installed regions (fine, all) =
        let tag = info + p in
        ap (λ a. after a (visit_all bytes info (u32_at bytes info) (memory_tag bytes) ps))
          (memory_tag-counted tag installed regions fine)
        ∙ visit_all-counted ps (installed + in_map available tag) (regions + in_map is_counted tag)
            all
        ∙ ap (λ t. some (counted t (regions + in_map is_counted tag + over_maps is_counted ps)))
            (regroup installed (in_map available tag) (over_maps available ps))
        ∙ ap (λ r. some (counted (installed + (in_map available tag + over_maps available ps)) r))
            (regroup regions (in_map is_counted tag) (over_maps is_counted ps))

    -- Where the information is accepted and none of its tags is the coarse memory tag, the memory is
    -- read as the sum of the lengths of all entries of available memory, in all tags of the map, up to
    -- the largest u64, with the number of those entries.
    pub memory-over_maps :
        (ps : List ℕ)
        → is_refused bytes info ≡ false
        → Tags bytes info (u32_at bytes info) 8 ps
        → All IsFine ps
        → memory bytes info ≡ some (counted (over_maps available ps) (over_maps is_counted ps))
    unfolding memory
    memory-over_maps ps accepted tags fine =
        over_tags-Tags bytes info (memory_tag bytes) ps no_memory accepted tags
        ∙ visit_all-counted ps 0 0 fine
        ∙ ap (λ t. some (counted t (0 + over_maps is_counted ps)))
            (from_zero (over_maps available ps))
        ∙ ap (λ r. some (counted (over_maps available ps) r)) (from_zero (over_maps is_counted ps))
      where
        from_zero : (n : ℕ) → 0 + n ≡ n
        from_zero n = omega arith
