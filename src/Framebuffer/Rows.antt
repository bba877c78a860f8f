-- ===== src/Framebuffer/Rows.antt =====
-- What rows that are copied out write.
use nanochronometer.Common.{
  ℕ, zero, suc, ◌+◌, ◌*◌, ◌≤◌, ◌<◌, ◌≡◌, ◌⊎◌, refl, sym, subst, ◌∙◌, arith, get_elem?-lt, ◌==◌,
  ==_iff, Bool-cases, as_u32, inl, inr,
}
use nanochronometer.Framebuffer.{Framebuffer, pixel_bytes, offset, present_row, present_rows}
use nanochronometer.Framebuffer.Places.{Beside, first_row-Beside, later_rows}
use nanochronometer.Framebuffer.Bytes.{
  IsScreen, place, Shown, length-pixel_bytes, offset-place, index-plain, present_row-Beside,
  present_row-Shown,
}

module _ (fb : Framebuffer) (v : IsScreen fb) where
  -- Rows that are copied out leave the other pixels alone.
  pub present_rows-Beside :
      (n row x count : ℕ) (back memory : ℕ → ℕ) (px py i : ℕ)
      → x + count ≤ fb.width
      → x < fb.width
      → row + n ≤ fb.height
      → px < fb.width
      → i < fb.bytes_per_pixel
      → Beside row n py ⊎ Beside x count px
      → present_rows fb n row x count back memory (place fb px py + i) ≡ memory (place fb px py + i)
  unfolding present_rows
  present_rows-Beside zero row x count back memory px py i fits start rows inside small away = refl
  present_rows-Beside (suc n) row x count back memory px py i fits start rows inside small away =
      let at_row = offset-place fb v x row start (omega (arith, rows)) in
      let at = as_u32 (row * fb.width) + x in
      let mem' = present_row fb count at (offset fb x row) back memory in
      present_rows-Beside n (row + 1) x count back mem' px py i fits start (omega (arith, rows))
        inside small (later_rows n row py x count px away)
      ∙ present_row-Beside fb v count at (offset fb x row) back memory (place fb px py + i) (
          subst (λ o. Beside o (count * fb.bytes_per_pixel) (place fb px py + i)) (sym at_row)
            (first_row-Beside fb.width fb.pitch fb.bytes_per_pixel v.row_fits n row x count px py i
              fits inside small away))

  -- A pixel within a row that is copied out, `k` pixels behind its first.
  row-Shown :
      (count row x k : ℕ) (back memory : ℕ → ℕ)
      → x + count ≤ fb.width
      → row < fb.height
      → k < count
      → Shown fb
          (present_row fb count (as_u32 (row * fb.width) + x) (offset fb x row) back memory)
          (place fb (x + k) row)
          (back (row * fb.width + (x + k)))
  row-Shown count row x k back memory fits below inside =
      let at_row = offset-place fb v x row (omega arith) below in
      let rows = index-plain fb v 0 row (omega arith) below in
      let at = as_u32 (row * fb.width) + x in
      let spot : offset fb x row + k * fb.bytes_per_pixel ≡ place fb (x + k) row =
        omega (arith, at_row) in
      let source : at + k ≡ row * fb.width + (x + k) = omega (arith, rows) in
      subst
        (λ o.
          Shown fb (present_row fb count at (offset fb x row) back memory) o
            (back (row * fb.width + (x + k))))
        spot
        (subst
          (λ a.
            Shown fb (present_row fb count at (offset fb x row) back memory)
              (offset fb x row + k * fb.bytes_per_pixel) (back a))
          source (present_row-Shown fb v count at (offset fb x row) back memory k inside))

  -- Rows that are copied out show the back buffer.
  pub present_rows-Shown :
      (n row x count : ℕ) (back memory : ℕ → ℕ) (k py : ℕ)
      → x + count ≤ fb.width
      → row + n ≤ fb.height
      → k < count
      → row ≤ py
      → py < row + n
      → Shown fb
          (present_rows fb n row x count back memory)
          (place fb (x + k) py)
          (back (py * fb.width + (x + k)))
  unfolding present_rows
  present_rows-Shown zero row x count back memory k py fits rows inside low high =
      absurd (omega arith)
  present_rows-Shown (suc n) row x count back memory k py fits rows inside low high =
      let mem' = present_row fb count (as_u32 (row * fb.width) + x) (offset fb x row) back memory in
      elim (Bool-cases (row == py)) [
        | inl same ↦ λ i b there.
            let eq : row ≡ py = (==_iff row py).0 same in
            let small : i < fb.bytes_per_pixel = omega (
              arith,
              get_elem?-lt (pixel_bytes fb.bytes_per_pixel (back (py * fb.width + (x + k)))) i b
                  there,
              length-pixel_bytes fb v (back (py * fb.width + (x + k))),
            ) in
            present_rows-Beside n (row + 1) x count back mem' (x + k) py i fits (omega arith)
              (omega (arith, rows)) (omega arith) small (inl (inl (omega (arith, eq))))
            ∙ subst (λ r. Shown fb mem' (place fb (x + k) r) (back (r * fb.width + (x + k)))) eq
                (row-Shown count row x k back memory fits (omega (arith, rows)) inside) i b there
        | inr other ↦
            present_rows-Shown n (row + 1) x count back mem' k py fits (omega (arith, rows)) inside
              (ground (arith, other, low)) (omega (arith, high))
      ]
