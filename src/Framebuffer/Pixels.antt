-- ===== src/Framebuffer/Pixels.antt =====
-- What each pixel reads as after a rectangle is filled.
use nanochronometer.Common.{
  ℕ, ◌+◌, ◌-◌, ◌≤◌, ◌<◌, ◌≡◌, ◌⊎◌, refl, ap, sym, ◌∙◌, arith, min, subst, Bool, true, false, ◌&&◌,
  ◌||◌, ◌==◌, ltb, leb, if◌then◌else◌, Bool-cases, inl, inr,
}
use nanochronometer.Framebuffer.{
  Framebuffer, Surface, saturating, is_outside, mark, get, paint_rows, store_rows, present_rows,
  read_pixel, fill,
}
use nanochronometer.Framebuffer.Places.{Beside}
use nanochronometer.Framebuffer.Bytes.{IsScreen, place, Shown, offset-place, index-plain}
use nanochronometer.Framebuffer.Rows.{present_rows-Beside, present_rows-Shown}
use nanochronometer.Framebuffer.Stored.{
  read_back, read_pixel-Shown, read_pixel-same, store_rows-present_rows,
}
use nanochronometer.Framebuffer.Painted.{pixel, paint_rows-Beside, paint_rows-at}
use nanochronometer.Framebuffer.Drawn.{Within, locate, fill-painted}

-- Whether a pixel lies within a rectangle.
abbrev pub covers : ℕ → ℕ → ℕ → ℕ → ℕ → ℕ → Bool
covers x y w h px py = leb x px && (ltb px (x + w) && (leb y py && ltb py (y + h)))

covers-Within : (x y w h px py : ℕ) → covers x y w h px py ≡ true → Within x y w h px py
covers-Within x y w h px py hit = ground (arith, hit)

Within-covers : (x y w h px py : ℕ) → Within x y w h px py → covers x y w h px py ≡ true
Within-covers x y w h px py within = ground (arith, within)

covers-Beside : (x y w h px py : ℕ) → Beside y h py ⊎ Beside x w px → covers x y w h px py ≡ false
covers-Beside x y w h px py (inl (inl e)) = ground (arith, e)
covers-Beside x y w h px py (inl (inr e)) = ground (arith, e)
covers-Beside x y w h px py (inr (inl e)) = ground (arith, e)
covers-Beside x y w h px py (inr (inr e)) = ground (arith, e)

module _ (fb : Framebuffer) (v : IsScreen fb) where
  get-back :
      (px py : ℕ) (s : Surface)
      → fb.composited ≡ true
      → px < fb.width
      → py < fb.height
      → get fb px py s ≡ s.back (pixel fb v px py)
  unfolding get
  get-back px py s composited hx hy =
      ground (arith, composited, hx, hy) ∙ ap s.back (index-plain fb v px py hx hy)

  back-covered :
      (x y w h px py colour : ℕ) (back : ℕ → ℕ)
      → x < fb.width
      → x + w ≤ fb.width
      → y + h ≤ fb.height
      → px < fb.width
      → paint_rows fb h y x w colour back (pixel fb v px py)
        ≡ (if covers x y w h px py then colour else back (pixel fb v px py))
  back-covered x y w h px py colour back start fx fy hx = elim (locate x y w h px py) [
    | inl (a, b, c, d) ↦
        let k : x + (px - x) ≡ px = omega (arith, a) in
        ap (λ at. paint_rows fb h y x w colour back (pixel fb v at py)) (sym k)
        ∙ paint_rows-at fb v h y x w colour back (px - x) py fx fy (omega (arith, a, b)) c d
        ∙ ap (λ t. if t then colour else back (pixel fb v px py))
            (sym (Within-covers x y w h px py (a, b, c, d)))
    | inr away ↦
        paint_rows-Beside fb v h y x w colour back px py fx start fy hx away
        ∙ ap (λ t. if t then colour else back (pixel fb v px py))
            (sym (covers-Beside x y w h px py away))
  ]

  mark-back :
      (x y w h : ℕ) (s : Surface) (px py : ℕ)
      → (mark x y w h s).back (pixel fb v px py) ≡ s.back (pixel fb v px py)
  unfolding mark
  mark-back x y w h s px py = refl

  -- A rectangle that is filled through a back buffer.
  composited-fill :
      (x y w h colour px py : ℕ) (s : Surface)
      → fb.composited ≡ true
      → px < fb.width
      → py < fb.height
      → get fb px py (fill fb x y w h colour s)
        ≡ (if covers x y w h px py then colour else get fb px py s)
  composited-fill x y w h colour px py s composited hx hy =
      elim (fill-painted fb v x y w h colour s composited) [
        | inl (same, none_seen) ↦
            ap (get fb px py) same ∙ elim (Bool-cases (covers x y w h px py)) [
              | inl hit ↦ absurd (none_seen px py hx hy (covers-Within x y w h px py hit))
              | inr miss ↦ sym (ap (λ t. if t then colour else get fb px py s) miss)
            ]
        | inr (right, bottom, wide, high, start, fx, fy, painted) ↦
            let back' = paint_rows fb bottom y x right colour s.back in
            let cut : covers x y right bottom px py ≡ covers x y w h px py =
              ground (arith, wide, high, hx, hy, v.width_le, v.height_le) in
            ap (get fb px py) painted
            ∙ get-back px py (mark x y right bottom (record s { back = back' })) composited hx hy
            ∙ mark-back x y right bottom (record s { back = back' }) px py
            ∙ back-covered x y right bottom px py colour s.back start fx fy hx
            ∙ ap (λ t. if t then colour else s.back (pixel fb v px py)) cut
            ∙ ap (λ c. if covers x y w h px py then colour else c)
                (sym (get-back px py s composited hx hy))
      ]

  -- What `fill` stores without a back buffer: nothing, or a rectangle within the screen.
  fill-stored :
      (x y w h colour : ℕ) (s : Surface)
      → fb.composited ≡ false
      → ((fill fb x y w h colour s ≡ s)
          × ((px py : ℕ) → px < fb.width → py < fb.height → Within x y w h px py → ⊥))
        ⊎ ((right : ℕ) × (bottom : ℕ) × (right ≡ min (saturating x w) fb.width - x)
            × (bottom ≡ min (saturating y h) fb.height - y)
            × (x < fb.width)
            × (x + right ≤ fb.width)
            × (y + bottom ≤ fb.height)
            × (fill fb x y w h colour s
                ≡ record s { memory = store_rows fb bottom y x right colour s.memory }))
  unfolding fill
  fill-stored x y w h colour s direct =
      let right = min (saturating x w) fb.width in
      let bottom = min (saturating y h) fb.height in
      let painted =
        mark x y (right - x) (bottom - y)
          (record s { back = paint_rows fb (bottom - y) y x (right - x) colour s.back }) in
      let stored = record s {
        memory = store_rows fb (bottom - y) y x (right - x) colour s.memory;
      } in
      let choose : Bool → Bool → Surface =
        λ out c. if out then s else if c then painted else stored in
      elim (Bool-cases (is_outside fb x y || ((w == 0) || (h == 0)))) [
        | inl outside ↦ inl (
          ap (λ b. choose b fb.composited) outside,
          λ px py hx hy within. ground (arith, outside, hx, hy, within),
        )
        | inr inside ↦
            let at_x : x < fb.width = ground (arith, inside) in
            let at_y : y < fb.height = ground (arith, inside) in
            inr (
              right - x,
              bottom - y,
              refl,
              refl,
              at_x,
              omega (arith, at_x),
              omega (arith, at_y),
              ap (λ b. choose b fb.composited) inside ∙ ap (choose false) direct,
            )
      ]

  get-memory :
      (px py : ℕ) (s : Surface)
      → fb.composited ≡ false
      → px < fb.width
      → py < fb.height
      → get fb px py s ≡ read_pixel fb s.memory (place fb px py)
  unfolding get
  get-memory px py s direct hx hy =
      ground (arith, direct, hx, hy) ∙ ap (read_pixel fb s.memory) (offset-place fb v px py hx hy)

  memory-covered :
      (x y w h px py colour : ℕ) (memory : ℕ → ℕ)
      → x < fb.width
      → x + w ≤ fb.width
      → y + h ≤ fb.height
      → px < fb.width
      → read_pixel fb (store_rows fb h y x w colour memory) (place fb px py) ≡ (
          if covers x y w h px py
          then read_back fb.bytes_per_pixel colour
          else read_pixel fb memory (place fb px py))
  memory-covered x y w h px py colour memory start fx fy hx =
      let same = store_rows-present_rows fb v h y x w colour memory start fx fy in
      let kept = read_back fb.bytes_per_pixel colour in
      let rows = present_rows fb h y x w (λ k. colour) memory in
      let choose : Bool → ℕ = λ t. if t then kept else read_pixel fb memory (place fb px py) in
      ap (λ m. read_pixel fb m (place fb px py)) same ∙ elim (locate x y w h px py) [
        | inl (a, b, c, d) ↦
            let k : x + (px - x) ≡ px = omega (arith, a) in
            read_pixel-Shown fb v rows (place fb px py) colour (
              subst (λ q. Shown fb rows (place fb q py) colour) k
                (present_rows-Shown fb v h y x w (λ k. colour) memory (px - x) py fx fy
                  (omega (arith, a, b)) c d))
            ∙ ap choose (sym (Within-covers x y w h px py (a, b, c, d)))
        | inr away ↦
            read_pixel-same fb v rows memory (place fb px py) (λ i small.
              present_rows-Beside fb v h y x w (λ k. colour) memory px py i fx start fy hx small
                away)
            ∙ ap choose (sym (covers-Beside x y w h px py away))
      ]

  direct-fill :
      (x y w h colour px py : ℕ) (s : Surface)
      → fb.composited ≡ false
      → px < fb.width
      → py < fb.height
      → get fb px py (fill fb x y w h colour s)
        ≡ (if covers x y w h px py then read_back fb.bytes_per_pixel colour else get fb px py s)
  direct-fill x y w h colour px py s direct hx hy =
      let kept = read_back fb.bytes_per_pixel colour in
      elim (fill-stored x y w h colour s direct) [
        | inl (same, none_seen) ↦
            ap (get fb px py) same ∙ elim (Bool-cases (covers x y w h px py)) [
              | inl hit ↦ absurd (none_seen px py hx hy (covers-Within x y w h px py hit))
              | inr miss ↦ sym (ap (λ t. if t then kept else get fb px py s) miss)
            ]
        | inr (right, bottom, wide, high, start, fx, fy, stored) ↦
            let cut : covers x y right bottom px py ≡ covers x y w h px py =
              ground (arith, wide, high, hx, hy, v.width_le, v.height_le) in
            ap (get fb px py) stored
            ∙ get-memory px py
                (record s { memory = store_rows fb bottom y x right colour s.memory }) direct hx hy
            ∙ memory-covered x y right bottom px py colour s.memory start fx fy hx
            ∙ ap (λ t. if t then kept else read_pixel fb s.memory (place fb px py)) cut
            ∙ ap (λ c. if covers x y w h px py then kept else c)
                (sym (get-memory px py s direct hx hy))
      ]

  -- The colour as the screen keeps it: as it is in a back buffer, else as the device's format has it.
  abbrev pub kept_colour : ℕ → ℕ
  kept_colour colour = if fb.composited then colour else read_back fb.bytes_per_pixel colour

  -- After a rectangle is filled, with a back buffer or without, each pixel of the screen that lies
  -- within it reads as the new colour, and every other one as before: a rectangle that reaches beyond
  -- the screen is cut to it. Without a back buffer the colour is what its format keeps of it: 32 or
  -- 24 bits, or in 16 bits five of red, six of green and five of blue.
  pub get-fill :
      (x y w h colour px py : ℕ) (s : Surface)
      → px < fb.width
      → py < fb.height
      → get fb px py (fill fb x y w h colour s)
        ≡ (if covers x y w h px py then kept_colour colour else get fb px py s)
  get-fill x y w h colour px py s hx hy =
      let choose : Bool → ℕ = λ c.
        if covers x y w h px py
        then if c then colour else read_back fb.bytes_per_pixel colour
        else get fb px py s in
      elim (Bool-cases fb.composited) [
        | inl composited ↦
            composited-fill x y w h colour px py s composited hx hy ∙ ap choose (sym composited)
        | inr direct ↦ direct-fill x y w h colour px py s direct hx hy ∙ ap choose (sym direct)
      ]
