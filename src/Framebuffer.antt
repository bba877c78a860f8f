-- ===== src/Framebuffer.antt =====
-- crates/nanochrono-baremetal/src/framebuffer.rs: drawing on the screen, through a back buffer where
-- one is attached, and the rectangle that is to be copied out.
pub mod Places
pub mod Bytes
pub mod Rows
pub mod Painted
pub mod Drawn
pub mod Stored
pub mod Pixels
pub mod Damage
mod Runs
use nanochronometer.Common.{
  ℕ, zero, suc, ◌+◌, ◌-◌, ◌*◌, ◌/◌, ◌%◌, ◌^◌, ◌≤◌, bit_and, bit_or, min, max, Bool, true, false,
  not, ◌&&◌, ◌||◌, List, [], ◌∷◌, length, ltb, leb, ◌==◌, if◌then◌else◌, as_u8, as_u16, as_u32,
}

-- `Framebuffer`: `composited` says whether its pointer to the back buffer is set.
pub record Framebuffer : Type 0 where
  pub base : ℕ
  pub composited : Bool
  pub width : ℕ
  pub height : ℕ
  pub pitch : ℕ
  pub bytes_per_pixel : ℕ

-- What the copies of a framebuffer share: the back buffer, the video memory by its offset from the
-- base, and the corners of what is to be copied.
pub record Surface : Type 0 where
  pub back : ℕ → ℕ
  pub memory : ℕ → ℕ
  pub dirty_x0 : ℕ
  pub dirty_y0 : ℕ
  pub dirty_x1 : ℕ
  pub dirty_y1 : ℕ

abbrev pub shadow_w : ℕ
shadow_w = 1920

abbrev pub shadow_h : ℕ
shadow_h = 1200

abbrev pub u32_max : ℕ
u32_max = 2 ^ 32 - 1

-- `saturating_add` of two u32.
abbrev pub saturating : ℕ → ℕ → ℕ
saturating a b = min (a + b) u32_max

abbrev pub make : ℕ → ℕ → ℕ → ℕ → ℕ → Framebuffer
make base width height pitch bits = record {
  base = base;
  composited = false;
  width = width;
  height = height;
  pitch = pitch;
  bytes_per_pixel = (bits + 7) / 8;
}

abbrev pub attach_back_buffer : Framebuffer → Framebuffer × Bool
attach_back_buffer fb =
    if ltb shadow_w fb.width || ltb shadow_h fb.height
    then (fb, false)
    else (record fb { composited = true }, true)

unfoldable pub is_usable : Framebuffer → Bool
is_usable fb =
    not (fb.base == 0)
    && (ltb 0 fb.width
        && (ltb 0 fb.height && (leb 2 fb.bytes_per_pixel && leb fb.bytes_per_pixel 4)))

-- The rectangle grows by another.
unfoldable pub mark : ℕ → ℕ → ℕ → ℕ → Surface → Surface
mark x y w h s = record s {
  dirty_x0 = min s.dirty_x0 x;
  dirty_y0 = min s.dirty_y0 y;
  dirty_x1 = max s.dirty_x1 (saturating x w);
  dirty_y1 = max s.dirty_y1 (saturating y h);
}

abbrev pub discard_damage : Surface → Surface
discard_damage s = record s { dirty_x0 = u32_max; dirty_y0 = u32_max; dirty_x1 = 0; dirty_y1 = 0 }

-- A write at one place.
abbrev pub update : ℕ → ℕ → (ℕ → ℕ) → ℕ → ℕ
update at v f i = if at == i then v else f i

unfoldable pub write_bytes : ℕ → List ℕ → (ℕ → ℕ) → ℕ → ℕ
write_bytes at [] memory = memory
write_bytes at (b ∷ bytes) memory = write_bytes (at + 1) bytes (update at b memory)

-- A colour of 24 bits in 16: five bits of red, six of green and five of blue.
abbrev pub packed : ℕ → ℕ
packed colour =
    let r = bit_and (colour / 2 ^ 19) 0x1F in
    let g = bit_and (colour / 2 ^ 10) 0x3F in
    let b = bit_and (colour / 2 ^ 3) 0x1F in as_u16 (bit_or (bit_or (r * 2 ^ 11) (g * 2 ^ 5)) b)

-- A pixel's bytes in video memory, the lowest first.
unfoldable pub pixel_bytes : ℕ → ℕ → List ℕ
pixel_bytes bytes_per_pixel colour =
    if bytes_per_pixel == 4
    then as_u8 colour
      ∷ (as_u8 (colour / 2 ^ 8) ∷ (as_u8 (colour / 2 ^ 16) ∷ (as_u8 (colour / 2 ^ 24) ∷ [])))
    else if bytes_per_pixel == 3
    then as_u8 colour ∷ (as_u8 (colour / 2 ^ 8) ∷ (as_u8 (colour / 2 ^ 16) ∷ []))
    else as_u8 (packed colour) ∷ (as_u8 (packed colour / 2 ^ 8) ∷ [])

-- One row of the back buffer.
unfoldable pub paint_row : ℕ → ℕ → ℕ → (ℕ → ℕ) → ℕ → ℕ
paint_row zero at colour back = back
paint_row (suc left) at colour back = paint_row left (at + 1) colour (update at colour back)

module _ (fb : Framebuffer) where
  abbrev pub is_outside : ℕ → ℕ → Bool
  is_outside x y = leb fb.width x || leb fb.height y

  -- A pixel's place in the back buffer, and its offset in video memory.
  abbrev pub index : ℕ → ℕ → ℕ
  index x y = as_u32 (as_u32 (y * fb.width) + x)

  abbrev pub offset : ℕ → ℕ → ℕ
  offset x y = as_u32 (as_u32 (y * fb.pitch) + as_u32 (x * fb.bytes_per_pixel))

  unfoldable pub store : ℕ → ℕ → ℕ → (ℕ → ℕ) → ℕ → ℕ
  unfolding write_bytes pixel_bytes
  store x y colour = write_bytes (offset x y) (pixel_bytes fb.bytes_per_pixel colour)

  unfoldable pub set_pixel : ℕ → ℕ → ℕ → Surface → Surface
  unfolding mark store
  set_pixel x y colour s =
      if is_outside x y
      then s
      else if fb.composited
      then mark x y 1 1 (record s { back = update (index x y) colour s.back })
      else record s { memory = store x y colour s.memory }

  -- The colour that a pixel's bytes stand for.
  unfoldable pub read_pixel : (ℕ → ℕ) → ℕ → ℕ
  read_pixel memory at =
      let low = memory at + memory (at + 1) * 2 ^ 8 in
      let r = bit_and (low / 2 ^ 11) 0x1F in
      let g = bit_and (low / 2 ^ 5) 0x3F in
      let b = bit_and low 0x1F in
      if fb.bytes_per_pixel == 4
      then low + memory (at + 2) * 2 ^ 16 + memory (at + 3) * 2 ^ 24
      else if fb.bytes_per_pixel == 3
      then bit_or (bit_or (memory at) (memory (at + 1) * 2 ^ 8)) (memory (at + 2) * 2 ^ 16)
      else bit_or (bit_or (r * 2 ^ 19) (g * 2 ^ 10)) (b * 2 ^ 3)

  unfoldable pub get : ℕ → ℕ → Surface → ℕ
  unfolding read_pixel
  get x y s =
      if is_outside x y
      then 0
      else if fb.composited
      then s.back (index x y)
      else read_pixel s.memory (offset x y)

  -- Rows of the back buffer, one below the other.
  unfoldable pub paint_rows : ℕ → ℕ → ℕ → ℕ → ℕ → (ℕ → ℕ) → ℕ → ℕ
  unfolding paint_row
  paint_rows zero row x count colour back = back
  paint_rows (suc left) row x count colour back =
      paint_rows left (row + 1) x count colour (paint_row count (index x row) colour back)

  -- The same with no back buffer.
  unfoldable pub store_row : ℕ → ℕ → ℕ → ℕ → (ℕ → ℕ) → ℕ → ℕ
  unfolding store
  store_row zero col row colour memory = memory
  store_row (suc left) col row colour memory =
      store_row left (col + 1) row colour (store col row colour memory)

  unfoldable pub store_rows : ℕ → ℕ → ℕ → ℕ → ℕ → (ℕ → ℕ) → ℕ → ℕ
  unfolding store_row
  store_rows zero row x count colour memory = memory
  store_rows (suc left) row x count colour memory =
      store_rows left (row + 1) x count colour (store_row count x row colour memory)

  unfoldable pub fill : ℕ → ℕ → ℕ → ℕ → ℕ → Surface → Surface
  unfolding mark paint_rows store_rows
  fill x y w h colour s =
      let right = min (saturating x w) fb.width in
      let bottom = min (saturating y h) fb.height in
      if is_outside x y || ((w == 0) || (h == 0))
      then s
      else if fb.composited
      then mark x y (right - x) (bottom - y)
          (record s { back = paint_rows (bottom - y) y x (right - x) colour s.back })
      else record s { memory = store_rows (bottom - y) y x (right - x) colour s.memory }

  unfoldable pub clear_all : ℕ → Surface → Surface
  unfolding fill
  clear_all colour s = fill 0 0 fb.width fb.height colour s

  -- `a + b - 1` of u32.
  abbrev pub last_of : ℕ → ℕ → ℕ
  last_of a b = as_u32 (as_u32 (a + b) + u32_max)

  unfoldable pub outline : ℕ → ℕ → ℕ → ℕ → ℕ → Surface → Surface
  unfolding fill
  outline x y w h colour s =
      let top = fill x y w 1 colour s in
      let bottom = fill x (last_of y h) w 1 colour top in
      let left = fill x y 1 h colour bottom in
      if (w == 0) || (h == 0) then s else fill (last_of x w) y 1 h colour left

  -- One row copied out, from `at` on in the back buffer to `offset'` on in video memory.
  unfoldable pub present_row : ℕ → ℕ → ℕ → (ℕ → ℕ) → (ℕ → ℕ) → ℕ → ℕ
  unfolding write_bytes pixel_bytes
  present_row zero at offset' back memory = memory
  present_row (suc left) at offset' back memory =
      present_row left (at + 1) (offset' + fb.bytes_per_pixel) back
        (write_bytes offset' (pixel_bytes fb.bytes_per_pixel (back at)) memory)

  unfoldable pub present_rows : ℕ → ℕ → ℕ → ℕ → (ℕ → ℕ) → (ℕ → ℕ) → ℕ → ℕ
  unfolding present_row
  present_rows zero row x count back memory = memory
  present_rows (suc left) row x count back memory =
      present_rows left (row + 1) x count back
        (present_row count (as_u32 (row * fb.width) + x) (offset x row) back memory)

  unfoldable pub present : ℕ → ℕ → ℕ → ℕ → Surface → Surface
  unfolding present_rows
  present x y w h s =
      let right = min (saturating x w) fb.width in
      let bottom = min (saturating y h) fb.height in
      if not fb.composited || (((w == 0) || (h == 0)) || is_outside x y)
      then s
      else record s { memory = present_rows (bottom - y) y x (right - x) s.back s.memory }

  unfoldable pub present_damage : Surface → Surface
  unfolding present
  present_damage s =
      let swapped = discard_damage s in
      if leb s.dirty_x1 s.dirty_x0 || leb s.dirty_y1 s.dirty_y0
      then swapped
      else present s.dirty_x0 s.dirty_y0 (s.dirty_x1 - s.dirty_x0) (s.dirty_y1 - s.dirty_y0) swapped
