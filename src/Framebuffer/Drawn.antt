-- ===== src/Framebuffer/Drawn.antt =====
-- Drawing through the back buffer: what the screen does not show yet lies in the rectangle that is to
-- be copied out.
use nanochronometer.Common.{
  ℕ, ◌+◌, ◌-◌, ◌≤◌, ◌<◌, ◌≡◌, ◌⊎◌, refl, ap, sym, subst, ◌∙◌, arith, min, Bool, true, false, ◌||◌,
  List, [], ◌∷◌, ◌==◌, ltb, if◌then◌else◌, Bool-cases, inl, inr,
}
use nanochronometer.Framebuffer.{
  Framebuffer, Surface, saturating, mark, store, is_outside, set_pixel, paint_row, paint_rows,
  store_rows, fill, clear_all, outline, last_of,
}
use nanochronometer.Framebuffer.Places.{Beside}
use nanochronometer.Framebuffer.Bytes.{IsScreen, place, Shown}
use nanochronometer.Framebuffer.Painted.{pixel, paint_rows-Beside}

-- A pixel within the rectangle that is to be copied out.
abbrev pub InDirty : Surface → ℕ → ℕ → Type 0
InDirty s px py = (s.dirty_x0 ≤ px) × (px < s.dirty_x1) × (s.dirty_y0 ≤ py) × (py < s.dirty_y1)

-- A pixel within a rectangle, or beside it.
abbrev pub Within : ℕ → ℕ → ℕ → ℕ → ℕ → ℕ → Type 0
Within x y w h px py = (x ≤ px) × (px < x + w) × (y ≤ py) × (py < y + h)

pub locate : (x y w h px py : ℕ) → Within x y w h px py ⊎ (Beside y h py ⊎ Beside x w px)
locate x y w h px py = elim (Bool-cases (ltb px x)) [
  | inl left ↦ inr (inr (inl (ground (arith, left))))
  | inr at_x ↦ elim (Bool-cases (ltb px (x + w))) [
    | inr right ↦ inr (inr (inr (ground (arith, right))))
    | inl in_x ↦ elim (Bool-cases (ltb py y)) [
      | inl above ↦ inr (inl (inl (ground (arith, above))))
      | inr at_y ↦ elim (Bool-cases (ltb py (y + h))) [
        | inr below ↦ inr (inl (inr (ground (arith, below))))
        | inl in_y ↦ inl (ground (arith, at_x, in_x, at_y, in_y))
      ]
    ]
  ]
]

-- The calls that draw.
pub data Draw : Type 0 where
  set_at : ℕ → ℕ → ℕ → Draw
  fill_at : ℕ → ℕ → ℕ → ℕ → ℕ → Draw
  outline_at : ℕ → ℕ → ℕ → ℕ → ℕ → Draw
  clear_to : ℕ → Draw

module _ (fb : Framebuffer) (v : IsScreen fb) where
  -- The pixel's bytes in video memory are those of its colour in the back buffer.
  abbrev pub IsShown : Surface → ℕ → ℕ → Type 0
  IsShown s px py = Shown fb s.memory (place fb px py) (s.back (pixel fb v px py))

  -- Every pixel is shown or waits to be copied out.
  unfoldable pub Coherent : Surface → Type 0
  Coherent s = (px py : ℕ) → px < fb.width → py < fb.height → InDirty s px py ⊎ IsShown s px py

  -- Every pixel is shown.
  unfoldable pub Synced : Surface → Type 0
  Synced s = (px py : ℕ) → px < fb.width → py < fb.height → IsShown s px py

  mark-covers :
      (x y w h px py : ℕ) (s : Surface)
      → x + w ≤ fb.width
      → y + h ≤ fb.height
      → Within x y w h px py
      → InDirty (mark x y w h s) px py
  unfolding mark
  mark-covers x y w h px py s fx fy (a, b, c, d) = omega (arith, v.width_le, v.height_le)

  mark-keeps : (x y w h px py : ℕ) (s : Surface) → InDirty s px py → InDirty (mark x y w h s) px py
  unfolding mark
  mark-keeps x y w h px py s (a, b, c, d) = omega arith

  -- A rectangle that is painted and marked.
  painted-Coherent :
      (x y w h colour : ℕ) (s : Surface)
      → x < fb.width
      → x + w ≤ fb.width
      → y + h ≤ fb.height
      → Coherent s
      → Coherent (mark x y w h (record s { back = paint_rows fb h y x w colour s.back }))
  unfolding Coherent mark
  painted-Coherent x y w h colour s start fx fy coherent = λ px py hx hy.
      elim (locate x y w h px py) [
        | inl within ↦ inl (
            mark-covers x y w h px py (record s { back = paint_rows fb h y x w colour s.back }) fx
              fy within)
        | inr away ↦ elim (coherent px py hx hy) [
          | inl dirty ↦ inl (mark-keeps x y w h px py s dirty)
          | inr shown ↦ inr (
              subst (λ c. Shown fb s.memory (place fb px py) c)
                (sym (paint_rows-Beside fb v h y x w colour s.back px py fx start fy hx away))
                shown)
        ]
      ]

  -- What `fill` paints: nothing, or a rectangle that lies within the screen.
  pub fill-painted :
      (x y w h colour : ℕ) (s : Surface)
      → fb.composited ≡ true
      → ((fill fb x y w h colour s ≡ s)
          × ((px py : ℕ) → px < fb.width → py < fb.height → Within x y w h px py → ⊥))
        ⊎ ((right : ℕ) × (bottom : ℕ) × (right ≡ min (saturating x w) fb.width - x)
            × (bottom ≡ min (saturating y h) fb.height - y)
            × (x < fb.width)
            × (x + right ≤ fb.width)
            × (y + bottom ≤ fb.height)
            × (fill fb x y w h colour s
                ≡ mark x y right bottom
                    (record s { back = paint_rows fb bottom y x right colour s.back })))
  unfolding fill
  fill-painted x y w h colour s composited =
      let right = min (saturating x w) fb.width in
      let bottom = min (saturating y h) fb.height in
      let painted =
        mark x y (right - x) (bottom - y)
          (record s { back = paint_rows fb (bottom - y) y x (right - x) colour s.back }) in
      let stored = record s {
        memory = store_rows fb (bottom - y) y x (right - x) colour s.memory;
      } in
      let choose : Bool → Bool → Surface =
        λ out c. if out then s else if c then painted else stored in
      let out = is_outside fb x y || ((w == 0) || (h == 0)) in
      elim (Bool-cases out) [
        | inl outside ↦ inl (
          ap (λ b. choose b fb.composited) outside,
          λ px py hx hy within. ground (arith, outside, hx, hy, within),
        )
        | inr inside ↦
            let at_x : x < fb.width = ground (arith, inside) in
            let at_y : y < fb.height = ground (arith, inside) in
            inr (
              right - x,
              bottom - y,
              refl,
              refl,
              at_x,
              omega (arith, at_x),
              omega (arith, at_y),
              ap (λ b. choose b fb.composited) inside ∙ ap (choose false) composited,
            )
      ]

  pub fill-Coherent :
      (x y w h colour : ℕ) (s : Surface)
      → fb.composited ≡ true
      → Coherent s
      → Coherent (fill fb x y w h colour s)
  fill-Coherent x y w h colour s composited coherent =
      elim (fill-painted x y w h colour s composited) [
        | inl (same, none_seen) ↦ subst Coherent (sym same) coherent
        | inr (right, bottom, wide, high, start, fx, fy, painted) ↦
            subst Coherent (sym painted)
              (painted-Coherent x y right bottom colour s start fx fy coherent)
      ]

  -- A pixel that is set is a rectangle of one.
  pub set_pixel-fill :
      (x y colour : ℕ) (s : Surface)
      → fb.composited ≡ true
      → set_pixel fb x y colour s ≡ fill fb x y 1 1 colour s
  unfolding set_pixel fill paint_rows paint_row
  set_pixel-fill x y colour s composited =
      let right = min (saturating x 1) fb.width in
      let bottom = min (saturating y 1) fb.height in
      let painted : ℕ → ℕ → Surface =
        λ w h. mark x y w h (record s { back = paint_rows fb h y x w colour s.back }) in
      let stored = record s {
        memory = store_rows fb (bottom - y) y x (right - x) colour s.memory;
      } in
      let one_stored = record s { memory = store fb x y colour s.memory } in
      let set_one : Bool → Bool → Surface =
        λ out c. if out then s else if c then painted 1 1 else one_stored in
      let fill_one : Bool → Bool → Surface = λ out c.
        if out || ((1 == 0) || (1 == 0))
        then s
        else if c
        then painted (right - x) (bottom - y)
        else stored in
      elim (Bool-cases (is_outside fb x y)) [
        | inl outside ↦
            ap (λ b. set_one b fb.composited) outside
            ∙ sym (ap (λ b. fill_one b fb.composited) outside)
        | inr inside ↦
            let at_x : x < fb.width = ground (arith, inside) in
            let at_y : y < fb.height = ground (arith, inside) in
            let one_wide : 1 ≡ right - x = omega (arith, at_x, v.width_le) in
            let one_high : 1 ≡ bottom - y = omega (arith, at_y, v.height_le) in
            ap (λ b. set_one b fb.composited) inside
            ∙ ap (set_one false) composited
            ∙ ap (λ w. painted w 1) one_wide
            ∙ ap (painted (right - x)) one_high
            ∙ sym (ap (λ b. fill_one b fb.composited) inside ∙ ap (fill_one false) composited)
      ]

  -- Drawing, one call after another.
  unfoldable pub draw : Draw → Surface → Surface
  draw (set_at x y colour) s = set_pixel fb x y colour s
  draw (fill_at x y w h colour) s = fill fb x y w h colour s
  draw (outline_at x y w h colour) s = outline fb x y w h colour s
  draw (clear_to colour) s = clear_all fb colour s

  unfoldable pub draw_all : List Draw → Surface → Surface
  draw_all [] s = s
  draw_all (d ∷ ds) s = draw_all ds (draw d s)

  outline-Coherent :
      (x y w h colour : ℕ) (s : Surface)
      → fb.composited ≡ true
      → Coherent s
      → Coherent (outline fb x y w h colour s)
  unfolding outline
  outline-Coherent x y w h colour s c coherent =
      let top = fill fb x y w 1 colour s in
      let bottom = fill fb x (last_of fb y h) w 1 colour top in
      let left = fill fb x y 1 h colour bottom in
      let all = fill-Coherent (last_of fb x w) y 1 h colour left c (
        fill-Coherent x y 1 h colour bottom c (
          fill-Coherent x (last_of fb y h) w 1 colour top c
            (fill-Coherent x y w 1 colour s c coherent))) in
      elim (Bool-cases ((w == 0) || (h == 0))) [
        | inl nothing ↦
            subst Coherent
              (sym (ap (λ b. if b then s else fill fb (last_of fb x w) y 1 h colour left) nothing))
              coherent
        | inr something ↦
            subst Coherent
              (sym
                (ap (λ b. if b then s else fill fb (last_of fb x w) y 1 h colour left) something))
              all
      ]

  draw-Coherent : (d : Draw) (s : Surface) → fb.composited ≡ true → Coherent s → Coherent (draw d s)
  unfolding draw clear_all
  draw-Coherent (set_at x y colour) s c coherent =
      subst Coherent (sym (set_pixel-fill x y colour s c))
        (fill-Coherent x y 1 1 colour s c coherent)
  draw-Coherent (fill_at x y w h colour) s c coherent = fill-Coherent x y w h colour s c coherent
  draw-Coherent (outline_at x y w h colour) s c coherent =
      outline-Coherent x y w h colour s c coherent
  draw-Coherent (clear_to colour) s c coherent =
      fill-Coherent 0 0 fb.width fb.height colour s c coherent

  pub draw_all-Coherent :
      (ds : List Draw) (s : Surface) → fb.composited ≡ true → Coherent s → Coherent (draw_all ds s)
  unfolding draw_all
  draw_all-Coherent [] s c coherent = coherent
  draw_all-Coherent (d ∷ ds) s c coherent =
      draw_all-Coherent ds (draw d s) c (draw-Coherent d s c coherent)
