-- ===== src/Framebuffer/Stored.antt =====
-- Drawing without a back buffer: what the bytes of a pixel read back as, and what a filled rectangle
-- stores.
use nanochronometer.Common.{
  ℕ, zero, suc, ◌+◌, ◌*◌, ◌/◌, ◌%◌, ◌^◌, ◌≤◌, ◌<◌, ◌≡◌, refl, ap, sym, subst, ◌∙◌, arith, bit_and,
  bit_or, ◌==◌, if◌then◌else◌, as_u8, as_u32, Bool-cases, inl, inr,
}
use nanochronometer.Common.Bits.{bit_and_mask, bit_or_fields, bit_or_fields_above}
use nanochronometer.Framebuffer.{
  Framebuffer, pixel_bytes, packed, write_bytes, store, read_pixel, store_row, store_rows,
  present_row, present_rows,
}
use nanochronometer.Framebuffer.Bytes.{IsScreen, place, Shown, offset-place}

-- The colour that a pixel keeps: 32 or 24 bits, or five bits of red, six of green and five of blue.
abbrev pub read_back : ℕ → ℕ → ℕ
read_back bytes_per_pixel colour =
    if bytes_per_pixel == 4
    then colour % 2 ^ 32
    else if bytes_per_pixel == 3
    then colour % 2 ^ 24
    else colour / 2 ^ 19 % 32 * 2 ^ 19
      + (colour / 2 ^ 10 % 64 * 2 ^ 10 + colour / 2 ^ 3 % 32 * 2 ^ 3)

packed-fields :
    (colour : ℕ)
    → packed colour
      ≡ colour / 2 ^ 19 % 32 * 2 ^ 11 + (colour / 2 ^ 10 % 64 * 2 ^ 5 + colour / 2 ^ 3 % 32)
packed-fields colour =
    let red = colour / 2 ^ 19 % 32 in
    let green = colour / 2 ^ 10 % 64 in
    let blue = colour / 2 ^ 3 % 32 in
    let upper : bit_or (red * 2 ^ 11) (green * 2 ^ 5) ≡ red * 2 ^ 11 + green * 2 ^ 5 =
      bit_or_fields_above 11 (green * 2 ^ 5) red (omega arith) in
    let split : red * 2 ^ 11 + green * 2 ^ 5 ≡ (red * 64 + green) * 2 ^ 5 = omega arith in
    let all : bit_or ((red * 64 + green) * 2 ^ 5) blue ≡ (red * 64 + green) * 2 ^ 5 + blue =
      bit_or_fields_above 5 blue (red * 64 + green) (omega arith) in
    rw
      (
        bit_and_mask 5 (colour / 2 ^ 19),
        bit_and_mask 6 (colour / 2 ^ 10),
        bit_and_mask 5 (colour / 2 ^ 3),
        upper,
        split,
        all,
      )
      (omega arith)

-- The three bytes of 24 bits, and the fields of 16, put together.
three_bytes :
    (a b c : ℕ)
    → a < 256
    → b < 256
    → bit_or (bit_or a (b * 2 ^ 8)) (c * 2 ^ 16) ≡ a + b * 2 ^ 8 + c * 2 ^ 16
three_bytes a b c ha hb =
    rw (bit_or_fields 8 a b (omega arith)) (bit_or_fields 16 (a + b * 2 ^ 8) c (omega arith))

three_fields :
    (r g b : ℕ)
    → g < 64
    → b < 32
    → bit_or (bit_or (r * 2 ^ 19) (g * 2 ^ 10)) (b * 2 ^ 3) ≡ r * 2 ^ 19 + (g * 2 ^ 10 + b * 2 ^ 3)
three_fields r g b hg hb =
    let upper : bit_or (r * 2 ^ 19) (g * 2 ^ 10) ≡ r * 2 ^ 19 + g * 2 ^ 10 =
      bit_or_fields_above 19 (g * 2 ^ 10) r (omega arith) in
    let split : r * 2 ^ 19 + g * 2 ^ 10 ≡ (r * 512 + g) * 2 ^ 10 = omega arith in
    rw (upper, split) (bit_or_fields_above 10 (b * 2 ^ 3) (r * 512 + g) (omega arith) ∙ omega arith)

module _ (fb : Framebuffer) (v : IsScreen fb) where
  -- A pixel that shows a colour reads back as what is kept of it.
  pub read_pixel-Shown :
      (memory : ℕ → ℕ) (at colour : ℕ)
      → Shown fb memory at colour
      → read_pixel fb memory at ≡ read_back fb.bytes_per_pixel colour
  unfolding read_pixel pixel_bytes
  read_pixel-Shown memory at colour shown =
      let bytes = pixel_bytes fb.bytes_per_pixel colour in
      elim (Bool-cases (fb.bytes_per_pixel == 4)) [
        | inl four ↦
            let b0 : memory (at + 0) ≡ as_u8 colour = shown 0 (as_u8 colour) (rw four refl) in
            let b1 : memory (at + 1) ≡ as_u8 (colour / 2 ^ 8) = shown 1 _ (rw four refl) in
            let b2 : memory (at + 2) ≡ as_u8 (colour / 2 ^ 16) = shown 2 _ (rw four refl) in
            let b3 : memory (at + 3) ≡ as_u8 (colour / 2 ^ 24) = shown 3 _ (rw four refl) in
            rw (four, first memory at (as_u8 colour) b0, b1, b2, b3) (omega arith)
        | inr not_four ↦ elim (Bool-cases (fb.bytes_per_pixel == 3)) [
          | inl three ↦
              let b0 : memory (at + 0) ≡ as_u8 colour =
                shown 0 (as_u8 colour) (rw (not_four, three) refl) in
              let b1 : memory (at + 1) ≡ as_u8 (colour / 2 ^ 8) =
                shown 1 _ (rw (not_four, three) refl) in
              let b2 : memory (at + 2) ≡ as_u8 (colour / 2 ^ 16) =
                shown 2 _ (rw (not_four, three) refl) in
              rw (not_four, three, first memory at (as_u8 colour) b0, b1, b2)
                (three_bytes (as_u8 colour) (as_u8 (colour / 2 ^ 8)) (as_u8 (colour / 2 ^ 16))
                    (omega arith) (omega arith)
                  ∙ omega arith)
          | inr two ↦
              let b0 : memory (at + 0) ≡ as_u8 (packed colour) =
                shown 0 (as_u8 (packed colour)) (rw (not_four, two) refl) in
              let b1 : memory (at + 1) ≡ as_u8 (packed colour / 2 ^ 8) =
                shown 1 _ (rw (not_four, two) refl) in
              let low : memory at + memory (at + 1) * 2 ^ 8 ≡ packed colour =
                omega
                  (arith, first memory at (as_u8 (packed colour)) b0, b1, packed-fields colour) in
              rw (not_four, two, low) (fields colour)
        ]
      ]
    where
      first : (memory : ℕ → ℕ) (at value : ℕ) → memory (at + 0) ≡ value → memory at ≡ value
      first memory at value h = ap memory (omega arith) ∙ h

      fields :
          (colour : ℕ)
          → bit_or
              (bit_or
                (bit_and (packed colour / 2 ^ 11) 0x1F * 2 ^ 19)
                (bit_and (packed colour / 2 ^ 5) 0x3F * 2 ^ 10))
              (bit_and (packed colour) 0x1F * 2 ^ 3)
            ≡ colour / 2 ^ 19 % 32 * 2 ^ 19
              + (colour / 2 ^ 10 % 64 * 2 ^ 10 + colour / 2 ^ 3 % 32 * 2 ^ 3)
      fields colour =
          let p = packed colour in
          rw (bit_and_mask 5 (p / 2 ^ 11), bit_and_mask 6 (p / 2 ^ 5), bit_and_mask 5 p)
            (three_fields (p / 2 ^ 11 % 32) (p / 2 ^ 5 % 64) (p % 32) (omega arith) (omega arith)
              ∙ omega (arith, packed-fields colour))

  -- A pixel whose bytes are the same reads the same.
  pub read_pixel-same :
      (memory memory' : ℕ → ℕ) (at : ℕ)
      → ((i : ℕ) → i < fb.bytes_per_pixel → memory (at + i) ≡ memory' (at + i))
      → read_pixel fb memory at ≡ read_pixel fb memory' at
  unfolding read_pixel
  read_pixel-same memory memory' at same =
      let zeroth : at + 0 ≡ at = omega arith in
      let b0 : memory at ≡ memory' at =
        subst (λ a. memory a ≡ memory' a) zeroth (same 0 (omega (arith, v.two_le))) in
      let b1 = same 1 (omega (arith, v.two_le)) in
      elim (Bool-cases (fb.bytes_per_pixel == 4)) [
        | inl four ↦
            rw (four, b0, b1, same 2 (ground (arith, four)), same 3 (ground (arith, four))) refl
        | inr not_four ↦ elim (Bool-cases (fb.bytes_per_pixel == 3)) [
          | inl three ↦ rw (not_four, three, b0, b1, same 2 (ground (arith, three))) refl
          | inr two ↦ rw (not_four, two, b0, b1) refl
        ]
      ]

  -- Rows that are stored are rows that are copied out of a buffer of one colour.
  store_row-present_row :
      (n col row at colour : ℕ) (memory : ℕ → ℕ)
      → col + n ≤ fb.width
      → row < fb.height
      → store_row fb n col row colour memory
        ≡ present_row fb n at (place fb col row) (λ k. colour) memory
  unfolding store_row store present_row
  store_row-present_row zero col row at colour memory fits below = refl
  store_row-present_row (suc n) col row at colour memory fits below =
      let bytes = pixel_bytes fb.bytes_per_pixel colour in
      let here = offset-place fb v col row (omega arith) below in
      let next : place fb (col + 1) row ≡ place fb col row + fb.bytes_per_pixel = omega arith in
      ap (λ o. store_row fb n (col + 1) row colour (write_bytes o bytes memory)) here
      ∙ store_row-present_row n (col + 1) row (at + 1) colour
          (write_bytes (place fb col row) bytes memory) (omega arith) below
      ∙ ap
          (λ o.
            present_row fb n (at + 1) o (λ k. colour) (write_bytes (place fb col row) bytes memory))
          next

  pub store_rows-present_rows :
      (n row x count colour : ℕ) (memory : ℕ → ℕ)
      → x < fb.width
      → x + count ≤ fb.width
      → row + n ≤ fb.height
      → store_rows fb n row x count colour memory
        ≡ present_rows fb n row x count (λ k. colour) memory
  unfolding store_rows present_rows
  store_rows-present_rows zero row x count colour memory start fits rows = refl
  store_rows-present_rows (suc n) row x count colour memory start fits rows =
      let at = as_u32 (row * fb.width) + x in
      ap (store_rows fb n (row + 1) x count colour) (
        store_row-present_row count x row at colour memory fits (omega (arith, rows))
        ∙ ap (λ o. present_row fb count at o (λ k. colour) memory)
            (sym (offset-place fb v x row start (omega (arith, rows)))))
      ∙ store_rows-present_rows n (row + 1) x count colour _ start fits (omega (arith, rows))
