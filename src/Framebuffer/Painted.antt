-- ===== src/Framebuffer/Painted.antt =====
-- What a filled rectangle paints in the back buffer.
use nanochronometer.Common.{
  ℕ, zero, suc, ◌+◌, ◌*◌, ◌≤◌, ◌<◌, ◌≡◌, ◌⊎◌, refl, ap, sym, subst, ◌∙◌, arith, ◌==◌, ==_iff,
  Bool-cases, inl, inr,
}
use nanochronometer.Framebuffer.{Framebuffer, update, index, paint_row, paint_rows}
use nanochronometer.Framebuffer.Places.{Beside, place_of, first_row-Beside, later_rows}
use nanochronometer.Framebuffer.Bytes.{IsScreen, index-plain, update-other}

paint_row-Beside :
    (n at colour : ℕ) (back : ℕ → ℕ) (b : ℕ) → Beside at n b → paint_row n at colour back b ≡ back b
unfolding paint_row
paint_row-Beside zero at colour back b h = refl
paint_row-Beside (suc n) at colour back b (inl h) =
    paint_row-Beside n (at + 1) colour (update at colour back) b (inl (omega arith))
    ∙ update-other at colour back b (inr h)
paint_row-Beside (suc n) at colour back b (inr h) =
    paint_row-Beside n (at + 1) colour (update at colour back) b (inr (omega arith))
    ∙ update-other at colour back b (inl (omega arith))

paint_row-at :
    (n at colour : ℕ) (back : ℕ → ℕ) (k : ℕ) → k < n → paint_row n at colour back (at + k) ≡ colour
unfolding paint_row
paint_row-at zero at colour back k h = absurd (omega arith)
paint_row-at (suc n) at colour back zero h =
    paint_row-Beside n (at + 1) colour (update at colour back) (at + 0) (inl (omega arith))
    ∙ ground arith
paint_row-at (suc n) at colour back (suc k) h =
    let next : at + suc k ≡ (at + 1) + k = omega arith in
    ap (paint_row n (at + 1) colour (update at colour back)) next
    ∙ paint_row-at n (at + 1) colour (update at colour back) k (omega arith)

module _ (fb : Framebuffer) (v : IsScreen fb) where
  -- A pixel of the back buffer.
  abbrev pub pixel : ℕ → ℕ → ℕ
  pixel x y = y * fb.width + x

  in_back :
      (n row x count px py : ℕ)
      → x + count ≤ fb.width
      → px < fb.width
      → Beside row (suc n) py ⊎ Beside x count px
      → Beside (pixel x row) count (pixel px py)
  in_back n row x count px py fits inside away = narrow (
      first_row-Beside fb.width fb.width 1 (omega arith) n row x count px py 0 fits inside
        (omega arith) away)
    where
      narrow :
          Beside (place_of fb.width 1 x row) (count * 1) (place_of fb.width 1 px py + 0)
          → Beside (pixel x row) count (pixel px py)
      narrow (inl less) = inl (omega arith)
      narrow (inr more) = inr (omega arith)

  -- A pixel outside the rectangle keeps its colour.
  pub paint_rows-Beside :
      (n row x count colour : ℕ) (back : ℕ → ℕ) (px py : ℕ)
      → x + count ≤ fb.width
      → x < fb.width
      → row + n ≤ fb.height
      → px < fb.width
      → Beside row n py ⊎ Beside x count px
      → paint_rows fb n row x count colour back (pixel px py) ≡ back (pixel px py)
  unfolding paint_rows
  paint_rows-Beside zero row x count colour back px py fits start rows inside away = refl
  paint_rows-Beside (suc n) row x count colour back px py fits start rows inside away =
      paint_rows-Beside n (row + 1) x count colour (paint_row count (index fb x row) colour back) px
        py fits start (omega (arith, rows)) inside (later_rows n row py x count px away)
      ∙ paint_row-Beside count (index fb x row) colour back (pixel px py) (
          subst (λ a. Beside a count (pixel px py))
            (sym (index-plain fb v x row start (omega (arith, rows))))
            (in_back n row x count px py fits inside away))

  -- One inside has the new one.
  pub paint_rows-at :
      (n row x count colour : ℕ) (back : ℕ → ℕ) (k py : ℕ)
      → x + count ≤ fb.width
      → row + n ≤ fb.height
      → k < count
      → row ≤ py
      → py < row + n
      → paint_rows fb n row x count colour back (pixel (x + k) py) ≡ colour
  unfolding paint_rows
  paint_rows-at zero row x count colour back k py fits rows inside low high = absurd (omega arith)
  paint_rows-at (suc n) row x count colour back k py fits rows inside low high =
      let back' = paint_row count (index fb x row) colour back in
      elim (Bool-cases (row == py)) [
        | inl same ↦
            let eq : row ≡ py = (==_iff row py).0 same in
            let spot : pixel (x + k) py ≡ index fb x row + k =
              ap (pixel (x + k)) (sym eq)
              ∙ omega (arith, index-plain fb v x row (omega arith) (omega (arith, rows))) in
            paint_rows-Beside n (row + 1) x count colour back' (x + k) py fits (omega arith)
              (omega (arith, rows)) (omega arith) (inl (inl (omega (arith, eq))))
            ∙ ap back' spot
            ∙ paint_row-at count (index fb x row) colour back k inside
        | inr other ↦
            paint_rows-at n (row + 1) x count colour back' k py fits (omega (arith, rows)) inside
              (ground (arith, other, low)) (omega (arith, high))
      ]
