-- ===== src/Multiboot/Finds.antt =====
-- What the reader of the framebuffer gives.
use nanochronometer.Common.{
  ℕ, ◌+◌, ◌*◌, ◌/◌, ◌^◌, ◌≤◌, ◌<◌, ◌≡◌, ◌≢◌, ◌⊎◌, refl, ap, ◌∙◌, arith, Bool-cases, if-either,
  both_false, zero_of, List, [], ◌∷◌, Bool, true, false, not, ◌&&◌, ◌||◌, Option, none, some, ltb,
  leb, ◌==◌, if◌then◌else◌, inl, inr,
}
use nanochronometer.Framebuffer.{Framebuffer, make, is_usable}
use nanochronometer.Multiboot.{
  returned, go_on, after, is_refused, tag_framebuffer, framebuffer_type_rgb, u8_at, u32_at, u64_at,
  framebuffer_at, framebuffer_tag, framebuffer,
}
use nanochronometer.Multiboot.Tags.{Tags, visit_all, list_there, over_tags-refused, over_tags-Tags}

equal_of : (a b : ℕ) → not (a == b) ≡ false → a ≡ b
equal_of a b h = ground (arith, h)

far_of : (a : ℕ) → (a == 0) ≡ false → (a == 0 || leb (512 * 2 ^ 30) a) ≡ true → 512 * 2 ^ 30 ≤ a
far_of a h k = ground (arith, h, k)

-- The fields of a framebuffer tag, for a surface that can be drawn on and whose base address lies
-- above 0 and below 512 GiB.
pub record Described (bytes : ℕ → ℕ) (tag : ℕ) (fb : Framebuffer) : Type 0 where
  rgb : u8_at bytes (tag + 29) ≡ framebuffer_type_rgb
  base : fb.base ≡ u64_at bytes (tag + 8)
  pitch : fb.pitch ≡ u32_at bytes (tag + 16)
  width : fb.width ≡ u32_at bytes (tag + 20)
  height : fb.height ≡ u32_at bytes (tag + 24)
  depth : fb.bytes_per_pixel ≡ (u8_at bytes (tag + 28) + 7) / 8
  direct : fb.composited ≡ false
  placed : 0 < fb.base
  below : fb.base < 512 * 2 ^ 30
  usable : is_usable fb ≡ true

module _ (bytes : ℕ → ℕ) where
  -- Why a tag gives no framebuffer: its type, its address, its size or its depth.
  abbrev pub Unfit : ℕ → Type 0
  Unfit tag =
      (u8_at bytes (tag + 29) ≢ framebuffer_type_rgb)
      ⊎ (u64_at bytes (tag + 8) ≡ 0)
      ⊎ (512 * 2 ^ 30 ≤ u64_at bytes (tag + 8))
      ⊎ (u32_at bytes (tag + 20) ≡ 0)
      ⊎ (u32_at bytes (tag + 24) ≡ 0)
      ⊎ ((u8_at bytes (tag + 28) + 7) / 8 < 2)
      ⊎ (4 < (u8_at bytes (tag + 28) + 7) / 8)

  -- What a framebuffer tag gives.
  abbrev pub Answer : ℕ → Option Framebuffer → Type 0
  Answer tag none = Unfit tag
  Answer tag (some fb) = Described bytes tag fb

  unusable :
      (base width height pitch bits : ℕ)
      → (base == 0) ≡ false
      → is_usable (make base width height pitch bits) ≡ false
      → (width ≡ 0) ⊎ (height ≡ 0) ⊎ ((bits + 7) / 8 < 2) ⊎ (4 < (bits + 7) / 8)
  unfolding is_usable
  unusable base width height pitch bits at h = elim (Bool-cases (width == 0)) [
    | inl flat ↦ inl (ground (arith, flat))
    | inr wide ↦ elim (Bool-cases (height == 0)) [
      | inl flat ↦ inr (inl (ground (arith, flat)))
      | inr high ↦ elim (Bool-cases (ltb ((bits + 7) / 8) 2)) [
        | inl few ↦ inr (inr (inl (ground (arith, few))))
        | inr enough ↦ inr (inr (inr (ground (arith, at, h, wide, high, enough))))
      ]
    ]
  ]

  framebuffer_at-Answer : (tag : ℕ) → Answer tag (framebuffer_at bytes tag)
  unfolding framebuffer_at
  framebuffer_at-Answer tag =
      let address = u64_at bytes (tag + 8) in
      let fb =
        make address (u32_at bytes (tag + 20)) (u32_at bytes (tag + 24)) (u32_at bytes (tag + 16))
          (u8_at bytes (tag + 28)) in
      if-either (Answer tag) (not (u8_at bytes (tag + 29) == framebuffer_type_rgb))
        (λ other. inl (λ same. ground (arith, other, same)))
        (λ rgb.
          if-either (Answer tag) (address == 0 || leb (512 * 2 ^ 30) address)
            (λ far. elim (Bool-cases (address == 0)) [
              | inl zeroed ↦ inr (inl (zero_of address zeroed))
              | inr placed ↦ inr (inr (inl (far_of address placed far)))
            ])
            (λ near.
              let (placed, below) = both_false (address == 0) (leb (512 * 2 ^ 30) address) near in
              if-either (Answer tag) (is_usable fb)
                (λ usable. record {
                  rgb = equal_of (u8_at bytes (tag + 29)) framebuffer_type_rgb rgb;
                  base = refl;
                  pitch = refl;
                  width = refl;
                  height = refl;
                  depth = refl;
                  direct = refl;
                  placed = ground (arith, placed);
                  below = ground (arith, below);
                  usable = usable;
                })
                (λ dull. inr (
                  inr (
                    inr (
                      unusable address (u32_at bytes (tag + 20)) (u32_at bytes (tag + 24))
                        (u32_at bytes (tag + 16)) (u8_at bytes (tag + 28)) placed dull))))))

  module _ (info : ℕ) where
    abbrev kind_of : ℕ → ℕ
    kind_of p = u32_at bytes (info + p)

    abbrev size_of : ℕ → ℕ
    size_of p = u32_at bytes (info + p + 4)

    -- A framebuffer tag of at least 32 bytes.
    abbrev pub is_screen_tag : ℕ → Bool
    is_screen_tag p = kind_of p == tag_framebuffer && leb 32 (size_of p)

    -- What the first framebuffer tag of a list gives; nothing where there is none.
    abbrev pub FirstScreen : List ℕ → Option Framebuffer → Type 0
    FirstScreen [] found = found ≡ none
    FirstScreen (p ∷ ps) found =
        ((is_screen_tag p ≡ true) × Answer (info + p) found)
        ⊎ ((is_screen_tag p ≡ false) × FirstScreen ps found)

    visit_all-FirstScreen :
        (ps : List ℕ)
        → (found : Option Framebuffer) × (visit_all bytes info
              (u32_at bytes info)
              (framebuffer_tag bytes)
              ps
              none
            ≡ some found)
          × FirstScreen ps found
    unfolding framebuffer_tag
    visit_all-FirstScreen [] = (none, refl, refl)
    visit_all-FirstScreen (p ∷ ps) =
        let next = visit_all bytes info (u32_at bytes info) (framebuffer_tag bytes) ps in
        let answer = framebuffer_at bytes (info + p) in
        let choose : Bool → Option (Option Framebuffer) =
          λ b. after (if b then returned answer else go_on none) next in
        elim (Bool-cases (is_screen_tag p)) [
          | inl here ↦ (answer, ap choose here, inl (here, framebuffer_at-Answer (info + p)))
          | inr other ↦
              let (found, ran, first) = visit_all-FirstScreen ps in
              (found, ap choose other ∙ ran, inr (other, first))
        ]

    -- Whatever lies in memory: the information is refused and gives no framebuffer; or it has a list
    -- of tags and gives what the first framebuffer tag of at least 32 bytes says: the surface that its
    -- fields describe, or none where its type is not RGB, its address is 0 or not below 512 GiB, a side
    -- is 0 or a pixel does not have two to four bytes.
    pub framebuffer-FirstScreen :
        ((is_refused bytes info ≡ true) × (framebuffer bytes info ≡ some none))
        ⊎ ((ps : List ℕ) × Tags bytes info (u32_at bytes info) 8 ps
            × (found : Option Framebuffer) × (framebuffer bytes info ≡ some found)
            × FirstScreen ps found)
    unfolding framebuffer
    framebuffer-FirstScreen = elim (Bool-cases (is_refused bytes info)) [
      | inl refused ↦
          inl (refused, over_tags-refused bytes info (framebuffer_tag bytes) none refused)
      | inr accepted ↦
          let (ps, tags) = list_there bytes info accepted in
          let (found, visited, first) = visit_all-FirstScreen ps in
          inr (
            ps,
            tags,
            found,
            over_tags-Tags bytes info (framebuffer_tag bytes) ps none accepted tags ∙ visited,
            first,
          )
    ]
