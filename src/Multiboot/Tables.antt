-- ===== src/Multiboot/Tables.antt =====
-- What the reader of the root tables gives.
use nanochronometer.Common.{
  ℕ, ◌+◌, ◌-◌, ◌≤◌, ◌<◌, ◌≡◌, ◌≢◌, ◌⊎◌, refl, ap, subst, ◌∙◌, arith, Bool-cases, if-either,
  both_false, of_not, zero_of, or_found, All, List, [], ◌∷◌, Bool, true, false, not, ◌&&◌, ◌||◌,
  Option, none, some, ltb, leb, ◌==◌, if◌then◌else◌, inl, inr,
}
use nanochronometer.Multiboot.{
  go_on, after, is_refused, Rsdp, has_table, signature, has_bytes, tag_acpi_old, tag_acpi_new,
  u8_at, u32_at, u64_at, sum, parse_rsdp, prefer, rsdp_tag, acpi_rsdp,
}
use nanochronometer.Multiboot.Tags.{Tags, visit_all, list_there, over_tags-refused, over_tags-Tags}

bad_sum :
    (short signed : Bool) (total : ℕ)
    → short ≡ false
    → signed ≡ true
    → (short || (not signed || not (total == 0))) ≡ true
    → total ≢ 0
bad_sum true signed total e f h = cc
bad_sum false true total e f h = λ same. ground (arith, h, same)
bad_sum false false total e f h = cc

no_tables : (r : Rsdp) → has_table r ≡ false → (r.rsdt ≡ 0) × (r.xsdt ≡ 0)
no_tables r h =
    let (short, long) = both_false (not (r.rsdt == 0)) (not (r.xsdt == 0)) h in
    (zero_of r.rsdt (of_not (r.rsdt == 0) short), zero_of r.xsdt (of_not (r.xsdt == 0) long))

-- A tag's copy against what was found before it and is found behind it.
after_new :
    (copy best last first : Option Rsdp)
    → or_found last (or_found (prefer tag_acpi_new copy best) first)
      ≡ or_found (or_found last copy) (or_found best first)
after_new none best none first = refl
after_new none best (some l) first = refl
after_new (some r) none none first = refl
after_new (some r) none (some l) first = refl
after_new (some r) (some f) none first = refl
after_new (some r) (some f) (some l) first = refl

after_old :
    (copy best last first : Option Rsdp)
    → or_found last (or_found (prefer tag_acpi_old copy best) first)
      ≡ or_found (or_found last none) (or_found best (or_found copy first))
after_old none none none first = refl
after_old none (some f) none first = refl
after_old none best (some l) first = refl
after_old (some r) none none first = refl
after_old (some r) none (some l) first = refl
after_old (some r) (some f) none first = refl
after_old (some r) (some f) (some l) first = refl

after_other :
    (best last first : Option Rsdp)
    → or_found last (or_found best first) ≡ or_found (or_found last none) (or_found best first)
after_other best none first = refl
after_other best (some l) first = refl

tag_preferred :
    (kind : ℕ) (copy best : Option Rsdp) (next : Option Rsdp → Option (Option Rsdp))
    (last first : Option Rsdp)
    → ((best' : Option Rsdp) → next best' ≡ some (or_found last (or_found best' first)))
    → after
        (if kind == tag_acpi_old || kind == tag_acpi_new
          then go_on (prefer kind copy best)
          else go_on best)
        next
      ≡ some (
          or_found
            (or_found last (if kind == tag_acpi_new then copy else none))
            (or_found best (or_found (if kind == tag_acpi_old then copy else none) first)))
tag_preferred kind copy best next last first later = elim (Bool-cases (kind == tag_acpi_old)) [
  | inl old ↦
      let same : tag_acpi_old ≡ kind = ground (arith, old) in
      subst
        (λ k.
          after
            (if k == tag_acpi_old || k == tag_acpi_new
              then go_on (prefer k copy best)
              else go_on best)
            next
          ≡ some (
              or_found (or_found last (if k == tag_acpi_new then copy else none))
                (or_found best (or_found (if k == tag_acpi_old then copy else none) first))))
        same (later (prefer tag_acpi_old copy best) ∙ ap some (after_old copy best last first))
  | inr not_old ↦ elim (Bool-cases (kind == tag_acpi_new)) [
    | inl new ↦
        let same : tag_acpi_new ≡ kind = ground (arith, new) in
        subst
          (λ k.
            after
              (if k == tag_acpi_old || k == tag_acpi_new
                then go_on (prefer k copy best)
                else go_on best)
              next
            ≡ some (
                or_found (or_found last (if k == tag_acpi_new then copy else none))
                  (or_found best (or_found (if k == tag_acpi_old then copy else none) first))))
          same (later (prefer tag_acpi_new copy best) ∙ ap some (after_new copy best last first))
    | inr not_new ↦ rw (not_old, not_new) (later best ∙ ap some (after_other best last first))
  ]
]

-- What a tag of length `length` says of the root tables, from `at` on.
abbrev pub long_address : (ℕ → ℕ) → ℕ → ℕ → ℕ
long_address bytes at length =
    if leb 2 (u8_at bytes (at + 15)) && (leb 36 length && (sum bytes 36 at 0 == 0))
    then u64_at bytes (at + 24)
    else 0

pub record Genuine (bytes : ℕ → ℕ) (at length : ℕ) (rsdp : Rsdp) : Type 0 where
  sized : 20 ≤ length
  signed : has_bytes bytes signature at ≡ true
  whole : sum bytes 20 at 0 ≡ 0
  revised : rsdp.revision ≡ u8_at bytes (at + 15)
  short : rsdp.rsdt ≡ u32_at bytes (at + 16)
  long : rsdp.xsdt ≡ long_address bytes at length
  usable : has_table rsdp ≡ true

module _ (bytes : ℕ → ℕ) where
  -- What a copy of a root table pointer gives: nothing where it is too short, not signed, damaged or
  -- without any table.
  abbrev pub Reads : ℕ → ℕ → Option Rsdp → Type 0
  Reads at length none =
      (length < 20)
      ⊎ (has_bytes bytes signature at ≡ false)
      ⊎ (sum bytes 20 at 0 ≢ 0)
      ⊎ ((u32_at bytes (at + 16) ≡ 0) × (long_address bytes at length ≡ 0))
  Reads at length (some rsdp) = Genuine bytes at length rsdp

  parse_rsdp-Reads : (at length : ℕ) → Reads at length (parse_rsdp bytes at length)
  unfolding parse_rsdp
  parse_rsdp-Reads at length =
      let signed = has_bytes bytes signature at in
      let total = sum bytes 20 at 0 in
      let rsdp : Rsdp = record {
        rsdt = u32_at bytes (at + 16);
        xsdt = long_address bytes at length;
        revision = u8_at bytes (at + 15);
      } in
      if-either (Reads at length) (ltb length 20 || (not signed || not (total == 0)))
        (λ bad. elim (Bool-cases (ltb length 20)) [
          | inl short ↦ inl (ground (arith, short))
          | inr long ↦ elim (Bool-cases signed) [
            | inr unsigned ↦ inr (inl unsigned)
            | inl marked ↦ inr (inr (inl (bad_sum (ltb length 20) signed total long marked bad)))
          ]
        ])
        (λ good.
          let (long, fine) = both_false (ltb length 20) (not signed || not (total == 0)) good in
          let (marked, sums) = both_false (not signed) (not (total == 0)) fine in
          if-either (Reads at length) (has_table rsdp)
            (λ usable. record {
              sized = ground (arith, long);
              signed = of_not signed marked;
              whole = zero_of total (of_not (total == 0) sums);
              revised = refl;
              short = refl;
              long = refl;
              usable = usable;
            })
            (λ bare. inr (inr (inr (no_tables rsdp bare)))))

  module _ (info : ℕ) where
    abbrev kind_of : ℕ → ℕ
    kind_of p = u32_at bytes (info + p)

    abbrev size_of : ℕ → ℕ
    size_of p = u32_at bytes (info + p + 4)

    -- The copy that a tag holds.
    abbrev pub copy_at : ℕ → Option Rsdp
    copy_at p = parse_rsdp bytes (info + p + 8) (size_of p - 8)

    -- The last genuine copy of the new kind, and the first of the old one.
    abbrev pub last_new : List ℕ → Option Rsdp
    last_new [] = none
    last_new (p ∷ ps) =
        or_found (last_new ps) (if kind_of p == tag_acpi_new then copy_at p else none)

    abbrev pub first_old : List ℕ → Option Rsdp
    first_old [] = none
    first_old (p ∷ ps) =
        or_found (if kind_of p == tag_acpi_old then copy_at p else none) (first_old ps)

    visit_all-preferred :
        (ps : List ℕ) (best : Option Rsdp)
        → visit_all bytes info (u32_at bytes info) (rsdp_tag bytes) ps best
          ≡ some (or_found (last_new ps) (or_found best (first_old ps)))
    unfolding rsdp_tag
    visit_all-preferred [] none = refl
    visit_all-preferred [] (some r) = refl
    visit_all-preferred (p ∷ ps) best =
        let next = visit_all bytes info (u32_at bytes info) (rsdp_tag bytes) ps in
        tag_preferred (kind_of p) (copy_at p) best next (last_new ps) (first_old ps)
          (visit_all-preferred ps)

    copies-Reads : (ps : List ℕ) → All (λ p. Reads (info + p + 8) (size_of p - 8) (copy_at p)) ps
    copies-Reads [] = tt
    copies-Reads (p ∷ ps) = (parse_rsdp-Reads (info + p + 8) (size_of p - 8), copies-Reads ps)

    -- Whatever lies in memory: the information is refused and gives no root tables; or it has a list of
    -- tags and gives the last genuine copy among the new tags, or else the first among the old ones. A
    -- copy is genuine where it has 20 bytes, the signature, a sum of 0 and a table; its address of the
    -- 64-bit table counts from revision 2 on, where it has 36 bytes that sum to 0.
    pub acpi_rsdp-preferred :
        ((is_refused bytes info ≡ true) × (acpi_rsdp bytes info ≡ some none))
        ⊎ ((ps : List ℕ) × Tags bytes info (u32_at bytes info) 8 ps
            × (acpi_rsdp bytes info ≡ some (or_found (last_new ps) (first_old ps)))
            × All (λ p. Reads (info + p + 8) (size_of p - 8) (copy_at p)) ps)
    unfolding acpi_rsdp
    acpi_rsdp-preferred = elim (Bool-cases (is_refused bytes info)) [
      | inl refused ↦ inl (refused, over_tags-refused bytes info (rsdp_tag bytes) none refused)
      | inr accepted ↦
          let (ps, tags) = list_there bytes info accepted in
          inr (
            ps,
            tags,
            over_tags-Tags bytes info (rsdp_tag bytes) ps none accepted tags
                ∙ visit_all-preferred ps none,
            copies-Reads ps,
          )
    ]
