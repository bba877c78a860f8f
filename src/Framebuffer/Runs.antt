-- ===== src/Framebuffer/Runs.antt =====
-- The framebuffer at concrete inputs: tests, and the theorems applied.
use nanochronometer.Common.{◌≡◌, refl, arith, true, false, if◌then◌else◌, List, [], ◌∷◌, inl}
use nanochronometer.Framebuffer.{
  Framebuffer, Surface, set_pixel, get, fill, outline, present_damage,
}
use nanochronometer.Framebuffer.Bytes.{IsScreen}
use nanochronometer.Framebuffer.Drawn.{
  Draw, set_at, fill_at, outline_at, clear_to, Coherent, draw_all,
}
use nanochronometer.Framebuffer.Pixels.{covers, kept_colour, get-fill}
use nanochronometer.Framebuffer.Damage.{Copied, present_damage-draw_all}

-- A screen of three by two pixels, and one of 24 bits without a back buffer.
abbrev screen : Framebuffer
screen = record {
  base = 0xB8000;
  composited = true;
  width = 3;
  height = 2;
  pitch = 16;
  bytes_per_pixel = 4;
}

abbrev direct : Framebuffer
direct = record screen { composited = false; bytes_per_pixel = 3 }

screen-IsScreen : IsScreen screen
screen-IsScreen = record {
  width_le = omega arith;
  height_le = omega arith;
  two_le = omega arith;
  le_four = omega arith;
  row_fits = omega arith;
  memory_fits = omega arith;
}

-- Nothing is shown yet and everything is to be copied out.
abbrev unshown : Surface
unshown = record {
  back = λ at. 0;
  memory = λ at. 0xFF;
  dirty_x0 = 0;
  dirty_y0 = 0;
  dirty_x1 = 3;
  dirty_y1 = 2;
}

unshown-Coherent : Coherent screen screen-IsScreen unshown
unfolding Coherent
unshown-Coherent = λ px py hx hy. inl (omega arith, hx, omega arith, hy)

abbrev drawing : List Draw
drawing = clear_to 0x10 ∷ (fill_at 1 0 5 1 0xABCDEF ∷ (outline_at 0 0 2 2 7 ∷ (set_at 2 1 9 ∷ [])))

present_damage-draw_all_example :
    Copied screen screen-IsScreen
      (draw_all screen screen-IsScreen drawing unshown)
      (present_damage screen (draw_all screen screen-IsScreen drawing unshown))
present_damage-draw_all_example =
    present_damage-draw_all screen screen-IsScreen drawing unshown refl unshown-Coherent

-- A screen of 16 bits without a back buffer.
abbrev shallow : Framebuffer
shallow = record direct { bytes_per_pixel = 2 }

shallow-IsScreen : IsScreen shallow
shallow-IsScreen = record {
  width_le = omega arith;
  height_le = omega arith;
  two_le = omega arith;
  le_four = omega arith;
  row_fits = omega arith;
  memory_fits = omega arith;
}

get-fill_example : get shallow 2 0 (fill shallow 1 0 5 1 0xABCDEF unshown) ≡ (
    if covers 1 0 5 1 2 0
    then kept_colour shallow shallow-IsScreen 0xABCDEF
    else get shallow 2 0 unshown)
get-fill_example =
    get-fill shallow shallow-IsScreen 1 0 5 1 0xABCDEF 2 0 unshown (omega arith) (omega arith)

-- A colour of 24 bits set without a back buffer reads back.
set_direct : get direct 2 1 (set_pixel direct 2 1 0xABCDEF unshown) ≡ 0xABCDEF
unfolding get set_pixel
set_direct = refl

-- In 16 bits the lowest bits of each colour are lost.
set_packed :
    get
      (record direct { bytes_per_pixel = 2 })
      2
      1
      (set_pixel (record direct { bytes_per_pixel = 2 }) 2 1 0xABCDEF unshown)
    ≡ 0xA8CCE8
unfolding get set_pixel
set_packed = refl

-- The outline of a rectangle, and a pixel within it.
outline_edge : get screen 2 1 (outline screen 0 0 3 2 7 unshown) ≡ 7
unfolding get outline
outline_edge = refl

-- The lowest byte of a pixel that was copied out.
copied_byte : (present_damage screen (fill screen 1 0 5 1 0xABCDEF unshown)).memory 8 ≡ 0xEF
unfolding present_damage fill
copied_byte = refl
