-- ===== src/Framebuffer/Bytes.antt =====
-- Where a pixel's bytes stand in video memory, and what a copied row writes.
use nanochronometer.Common.{
  ℕ, zero, suc, ◌+◌, ◌*◌, ◌^◌, ◌≤◌, ◌<◌, ◌≡◌, ◌⊎◌, refl, ap, sym, ◌∙◌, arith, List, [], ◌∷◌, some,
  length, get_elem?, get_elem?-lt, inl, inr,
}
use native.Mathlib.Nat.{mul-le-mul_left, mul-le-mul_right}
use nanochronometer.Framebuffer.Places.{Beside, place_of}
use nanochronometer.Framebuffer.{
  Framebuffer, update, write_bytes, pixel_bytes, offset, index, present_row, u32_max,
}

pub update-other : (at v : ℕ) (f : ℕ → ℕ) (b : ℕ) → (at < b) ⊎ (b < at) → update at v f b ≡ f b
update-other at v f b (inl h) = ground arith
update-other at v f b (inr h) = ground arith

pub write_bytes-Beside :
    (at : ℕ) (bytes : List ℕ) (memory : ℕ → ℕ) (b : ℕ)
    → Beside at (length bytes) b
    → write_bytes at bytes memory b ≡ memory b
unfolding write_bytes
write_bytes-Beside at [] memory b h = refl
write_bytes-Beside at (v ∷ bytes) memory b (inl h) =
    write_bytes-Beside (at + 1) bytes (update at v memory) b (inl (omega arith))
    ∙ update-other at v memory b (inr h)
write_bytes-Beside at (v ∷ bytes) memory b (inr h) =
    write_bytes-Beside (at + 1) bytes (update at v memory) b (inr (omega arith))
    ∙ update-other at v memory b (inl (omega arith))

pub write_bytes-at :
    (at : ℕ) (bytes : List ℕ) (memory : ℕ → ℕ) (i v : ℕ)
    → get_elem? bytes i ≡ some v
    → write_bytes at bytes memory (at + i) ≡ v
unfolding write_bytes
write_bytes-at at [] memory i v h = cc
write_bytes-at at (x ∷ bytes) memory zero v h =
    write_bytes-Beside (at + 1) bytes (update at x memory) (at + 0) (inl (omega arith))
    ∙ ground (arith, h)
write_bytes-at at (x ∷ bytes) memory (suc i) v h =
    let next : at + suc i ≡ (at + 1) + i = omega arith in
    ap (write_bytes (at + 1) bytes (update at x memory)) next
    ∙ write_bytes-at (at + 1) bytes (update at x memory) i v h

-- A framebuffer whose rows lie apart, within 4 GiB, in a format that is supported.
pub record IsScreen (fb : Framebuffer) : Type 0 where
  pub width_le : fb.width ≤ u32_max
  pub height_le : fb.height ≤ u32_max
  pub two_le : 2 ≤ fb.bytes_per_pixel
  pub le_four : fb.bytes_per_pixel ≤ 4
  pub row_fits : fb.width * fb.bytes_per_pixel ≤ fb.pitch
  pub memory_fits : fb.height * fb.pitch < 2 ^ 32

module _ (fb : Framebuffer) where
  abbrev pub bpp : ℕ
  bpp = fb.bytes_per_pixel

  -- Where a pixel's bytes begin.
  abbrev pub place : ℕ → ℕ → ℕ
  place x y = place_of fb.pitch bpp x y

  -- The bytes at `at` are those of the colour.
  abbrev pub Shown : (ℕ → ℕ) → ℕ → ℕ → Type 0
  Shown memory at colour =
      (i b : ℕ) → get_elem? (pixel_bytes bpp colour) i ≡ some b → memory (at + i) ≡ b

module _ (fb : Framebuffer) (v : IsScreen fb) where
  pub length-pixel_bytes :
      (colour : ℕ) → length (pixel_bytes fb.bytes_per_pixel colour) ≡ fb.bytes_per_pixel
  unfolding pixel_bytes
  length-pixel_bytes colour = ground (arith, v.two_le, v.le_four)

  pub place-le : (x y : ℕ) → x ≤ fb.width → y < fb.height → place fb x y ≤ suc y * fb.pitch
  place-le x y hx hy = omega (arith, mul-le-mul_right fb.bytes_per_pixel hx, v.row_fits)

  pub offset-place : (x y : ℕ) → x < fb.width → y < fb.height → offset fb x y ≡ place fb x y
  offset-place x y hx hy =
      let below : suc y * fb.pitch ≤ fb.height * fb.pitch = mul-le-mul_right fb.pitch hy in
      let row : y * fb.pitch + fb.pitch ≡ suc y * fb.pitch = omega arith in
      omega (arith, mul-le-mul_right fb.bytes_per_pixel hx, v.row_fits, below, row, v.memory_fits)

  pub index-plain : (x y : ℕ) → x < fb.width → y < fb.height → index fb x y ≡ y * fb.width + x
  index-plain x y hx hy =
      let within : suc y * fb.width ≤ fb.height * fb.width = mul-le-mul_right fb.width hy in
      let row : suc y * fb.width ≡ y * fb.width + fb.width = omega arith in
      let pixel : fb.width * 1 ≤ fb.width * fb.bytes_per_pixel =
        mul-le-mul_left fb.width (omega (arith, v.two_le)) in
      let all : fb.height * fb.width ≤ fb.height * fb.pitch =
        mul-le-mul_left fb.height (omega (arith, pixel, v.row_fits)) in
      omega (arith, within, row, all, v.memory_fits)

  pub present_row-Beside :
      (n at offset' : ℕ) (back memory : ℕ → ℕ) (b : ℕ)
      → Beside offset' (n * fb.bytes_per_pixel) b
      → present_row fb n at offset' back memory b ≡ memory b
  unfolding present_row
  present_row-Beside zero at offset' back memory b h = refl
  present_row-Beside (suc n) at offset' back memory b h =
      let size = length-pixel_bytes (back at) in
      present_row-Beside n (at + 1) (offset' + fb.bytes_per_pixel) back _ b (later h)
      ∙ write_bytes-Beside offset' (pixel_bytes fb.bytes_per_pixel (back at)) memory b (first h)
    where
      later :
          Beside offset' (suc n * fb.bytes_per_pixel) b
          → Beside (offset' + fb.bytes_per_pixel) (n * fb.bytes_per_pixel) b
      later (inl less) = inl (omega arith)
      later (inr more) = inr (omega arith)

      first :
          Beside offset' (suc n * fb.bytes_per_pixel) b
          → Beside offset' (length (pixel_bytes fb.bytes_per_pixel (back at))) b
      first (inl less) = inl less
      first (inr more) = inr (omega (arith, length-pixel_bytes (back at)))

  pub present_row-Shown :
      (n at offset' : ℕ) (back memory : ℕ → ℕ) (k : ℕ)
      → k < n
      → Shown fb
          (present_row fb n at offset' back memory)
          (offset' + k * fb.bytes_per_pixel)
          (back (at + k))
  unfolding present_row
  present_row-Shown zero at offset' back memory k h = absurd (omega arith)
  present_row-Shown (suc n) at offset' back memory zero h = λ i b there.
      let first = pixel_bytes fb.bytes_per_pixel (back at) in
      let plain : back (at + 0) ≡ back at = ap back (omega arith) in
      let mine : get_elem? first i ≡ some b =
        ap (λ c. get_elem? (pixel_bytes fb.bytes_per_pixel c) i) (sym plain) ∙ there in
      let within = get_elem?-lt first i b mine in
      let spot : offset' + 0 * fb.bytes_per_pixel + i ≡ offset' + i = omega arith in
      let mem' = write_bytes offset' first memory in
      ap (present_row fb n (at + 1) (offset' + fb.bytes_per_pixel) back mem') spot
      ∙ present_row-Beside n (at + 1) (offset' + fb.bytes_per_pixel) back mem' (offset' + i)
          (inl (omega (arith, within, length-pixel_bytes (back at))))
      ∙ write_bytes-at offset' first memory i b mine
  present_row-Shown (suc n) at offset' back memory (suc k) h = λ i b there.
      let mem' = write_bytes offset' (pixel_bytes fb.bytes_per_pixel (back at)) memory in
      let next : back (at + suc k) ≡ back ((at + 1) + k) = ap back (omega arith) in
      let spot : offset' + suc k * fb.bytes_per_pixel + i
          ≡ (offset' + fb.bytes_per_pixel) + k * fb.bytes_per_pixel + i =
        omega arith in
      ap (present_row fb n (at + 1) (offset' + fb.bytes_per_pixel) back mem') spot
      ∙ present_row-Shown n (at + 1) (offset' + fb.bytes_per_pixel) back mem' k (omega arith) i b
          (ap (λ c. get_elem? (pixel_bytes fb.bytes_per_pixel c) i) (sym next) ∙ there)
