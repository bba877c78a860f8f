-- ===== src/Framebuffer/Places.antt =====
-- Pixels in rows: one lies outside a run of others where its row or its column does.
use nanochronometer.Common.{
  ℕ, suc, ◌+◌, ◌*◌, ◌≤◌, ◌<◌, ◌⊎◌, subst, arith, ◌==◌, ==_iff, ltb, Bool-cases, inl, inr,
}
use native.Mathlib.Nat.{mul-le-mul_right}

-- Somewhere outside the `count` places from `at` on.
abbrev pub Beside : ℕ → ℕ → ℕ → Type 0
Beside at count b = (b < at) ⊎ (at + count ≤ b)

-- A pixel's first byte, for rows `pitch` bytes long and pixels of `bpp` bytes.
abbrev pub place_of : ℕ → ℕ → ℕ → ℕ → ℕ
place_of pitch bpp x y = y * pitch + x * bpp

module _ (width pitch bpp : ℕ) (row_fits : width * bpp ≤ pitch) where
  -- A pixel of another row.
  row-Beside :
      (x count row px py i : ℕ)
      → x + count ≤ width
      → px < width
      → i < bpp
      → (py < row) ⊎ (row < py)
      → Beside (place_of pitch bpp x row) (count * bpp) (place_of pitch bpp px py + i)
  row-Beside x count row px py i fits inside small (inl above) =
      let next : suc py * pitch ≤ row * pitch = mul-le-mul_right pitch above in
      inl (omega (arith, next, mul-le-mul_right bpp inside, row_fits))
  row-Beside x count row px py i fits inside small (inr below) =
      let next : suc row * pitch ≤ py * pitch = mul-le-mul_right pitch below in
      inr (omega (arith, next, mul-le-mul_right bpp fits, row_fits))

  -- A pixel of the same row.
  pixel-Beside :
      (x count row px i : ℕ)
      → i < bpp
      → Beside x count px
      → Beside (place_of pitch bpp x row) (count * bpp) (place_of pitch bpp px row + i)
  pixel-Beside x count row px i small (inl left) = inl (omega (arith, mul-le-mul_right bpp left))
  pixel-Beside x count row px i small (inr right) = inr (omega (arith, mul-le-mul_right bpp right))

  -- A pixel outside the rows or the columns, at the first row.
  pub first_row-Beside :
      (n row x count px py i : ℕ)
      → x + count ≤ width
      → px < width
      → i < bpp
      → Beside row (suc n) py ⊎ Beside x count px
      → Beside (place_of pitch bpp x row) (count * bpp) (place_of pitch bpp px py + i)
  first_row-Beside n row x count px py i fits inside small (inl (inl above)) =
      row-Beside x count row px py i fits inside small (inl above)
  first_row-Beside n row x count px py i fits inside small (inl (inr below)) =
      row-Beside x count row px py i fits inside small (inr (omega arith))
  first_row-Beside n row x count px py i fits inside small (inr away) =
      elim (Bool-cases (ltb py row)) [
        | inl above ↦ row-Beside x count row px py i fits inside small (inl (ground (arith, above)))
        | inr not_above ↦ elim (Bool-cases (py == row)) [
          | inl same ↦
              subst
                (λ r. Beside (place_of pitch bpp x r) (count * bpp) (place_of pitch bpp px py + i))
                ((==_iff py row).0 same) (pixel-Beside x count py px i small away)
          | inr other ↦
              row-Beside x count row px py i fits inside small
                (inr (ground (arith, not_above, other)))
        ]
      ]

pub later_rows :
    (n row py x count px : ℕ)
    → Beside row (suc n) py ⊎ Beside x count px
    → Beside (row + 1) n py ⊎ Beside x count px
later_rows n row py x count px (inl (inl above)) = inl (inl (omega arith))
later_rows n row py x count px (inl (inr below)) = inl (inr (omega arith))
later_rows n row py x count px (inr away) = inr away
