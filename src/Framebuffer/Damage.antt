-- ===== src/Framebuffer/Damage.antt =====
-- Copying out the rectangle puts the screen in step with the back buffer.
use nanochronometer.Common.{
  ℕ, ◌+◌, ◌-◌, ◌≤◌, ◌<◌, ◌≡◌, ◌⊎◌, refl, ap, sym, subst, ◌∙◌, arith, min, Bool, true, false, not,
  ◌||◌, List, ◌==◌, leb, if◌then◌else◌, Bool-cases, get_elem?-lt, inl, inr,
}
use nanochronometer.Framebuffer.{
  Framebuffer, Surface, saturating, discard_damage, pixel_bytes, is_outside, present, present_rows,
  present_damage,
}
use nanochronometer.Framebuffer.Places.{Beside}
use nanochronometer.Framebuffer.Bytes.{IsScreen, place, Shown, length-pixel_bytes}
use nanochronometer.Framebuffer.Rows.{present_rows-Beside, present_rows-Shown}
use nanochronometer.Framebuffer.Painted.{pixel}
use nanochronometer.Framebuffer.Drawn.{
  Draw, InDirty, locate, Coherent, Synced, draw_all, draw_all-Coherent,
}

module _ (fb : Framebuffer) (v : IsScreen fb) where
  -- Copying out the rectangle shows every pixel.
  copied-Synced :
      (s : Surface)
      → Coherent fb v s
      → s.dirty_x0 < fb.width
      → s.dirty_y0 < fb.height
      → Synced fb v (record s {
        memory =
            present_rows fb
              (min s.dirty_y1 fb.height - s.dirty_y0)
              s.dirty_y0
              s.dirty_x0
              (min s.dirty_x1 fb.width - s.dirty_x0)
              s.back
              s.memory;
      })
  unfolding Coherent Synced
  copied-Synced s coherent hx0 hy0 = λ px py hx hy.
      let w = min s.dirty_x1 fb.width - s.dirty_x0 in
      let h = min s.dirty_y1 fb.height - s.dirty_y0 in
      elim (locate s.dirty_x0 s.dirty_y0 w h px py) [
        | inl (a, b, c, d) ↦
            let k : s.dirty_x0 + (px - s.dirty_x0) ≡ px = omega (arith, a) in
            subst
              (λ x.
                Shown fb (present_rows fb h s.dirty_y0 s.dirty_x0 w s.back s.memory) (place fb x py)
                  (s.back (pixel fb v x py)))
              k
              (present_rows-Shown fb v h s.dirty_y0 s.dirty_x0 w s.back s.memory (px - s.dirty_x0)
                py (omega (arith, hx0, b)) (omega (arith, hy0, d)) (omega (arith, a, b)) c d)
        | inr away ↦ elim (coherent px py hx hy) [
          | inl (a, b, c, d) ↦ absurd (outside_of px py hx hy a b c d away)
          | inr shown ↦ λ i b there.
              let small : i < fb.bytes_per_pixel = omega (
                arith,
                get_elem?-lt (pixel_bytes fb.bytes_per_pixel (s.back (pixel fb v px py))) i b there,
                length-pixel_bytes fb v (s.back (pixel fb v px py)),
              ) in
              present_rows-Beside fb v h s.dirty_y0 s.dirty_x0 w s.back s.memory px py i
                (omega (arith, hx0)) hx0 (omega (arith, hy0)) hx small away
              ∙ shown i b there
        ]
      ]
    where
      outside_of :
          (px py : ℕ)
          → px < fb.width
          → py < fb.height
          → s.dirty_x0 ≤ px
          → px < s.dirty_x1
          → s.dirty_y0 ≤ py
          → py < s.dirty_y1
          → Beside s.dirty_y0 (min s.dirty_y1 fb.height - s.dirty_y0) py
            ⊎ Beside s.dirty_x0 (min s.dirty_x1 fb.width - s.dirty_x0) px
          → ⊥
      outside_of px py hx hy a b c d (inl (inl e)) = omega arith
      outside_of px py hx hy a b c d (inl (inr e)) = omega arith
      outside_of px py hx hy a b c d (inr (inl e)) = omega arith
      outside_of px py hx hy a b c d (inr (inr e)) = omega arith

  clean-Synced :
      (s : Surface)
      → Coherent fb v s
      → ((px py : ℕ) → px < fb.width → py < fb.height → InDirty s px py → ⊥)
      → Synced fb v s
  unfolding Coherent Synced
  clean-Synced s coherent clean = λ px py hx hy. elim (coherent px py hx hy) [
    | inl dirty ↦ absurd (clean px py hx hy dirty)
    | inr shown ↦ shown
  ]

  -- What the copying leaves: all shown, nothing more to copy, and the back buffer as it was.
  pub record Copied (before after : Surface) : Type 0 where
    synced : Synced fb v after
    kept : after.back ≡ before.back
    nothing_left : (after.dirty_x1 ≡ 0) × (after.dirty_y1 ≡ 0)

  copied : (s s' : Surface) → s' ≡ discard_damage s → Synced fb v s → Copied s s'
  unfolding Synced
  copied s s' same synced =
      subst (Copied s) (sym same)
        (record { synced = synced; kept = refl; nothing_left = (refl, refl) })

  present_damage-Copied :
      (s : Surface) → fb.composited ≡ true → Coherent fb v s → Copied s (present_damage fb s)
  unfolding present_damage present Synced
  present_damage-Copied s composited coherent =
      let swapped = discard_damage s in
      let w = s.dirty_x1 - s.dirty_x0 in
      let h = s.dirty_y1 - s.dirty_y0 in
      let right = min (saturating s.dirty_x0 w) fb.width in
      let bottom = min (saturating s.dirty_y0 h) fb.height in
      let copy : ℕ → ℕ → Surface = λ r b. record swapped {
        memory =
            present_rows fb (b - s.dirty_y0) s.dirty_y0 s.dirty_x0 (r - s.dirty_x0) s.back s.memory;
      } in
      let empty = leb s.dirty_x1 s.dirty_x0 || leb s.dirty_y1 s.dirty_y0 in
      let skipped : Bool → Bool =
        λ c. not c || (((w == 0) || (h == 0)) || is_outside fb s.dirty_x0 s.dirty_y0) in
      let choose : Bool → Bool → Surface =
        λ e k. if e then swapped else if k then swapped else copy right bottom in
      elim (Bool-cases empty) [
        | inl nothing ↦
            copied s (present_damage fb s) (ap (λ e. choose e (skipped fb.composited)) nothing)
              (clean-Synced s coherent (λ px py hx hy dirty. ground (arith, nothing, dirty)))
        | inr something ↦
            let across : s.dirty_x0 < s.dirty_x1 = ground (arith, something) in
            let down : s.dirty_y0 < s.dirty_y1 = ground (arith, something) in
            let sized : ((w == 0) || (h == 0)) ≡ false = ground (arith, across, down) in
            let out = is_outside fb s.dirty_x0 s.dirty_y0 in
            let to_rows =
              ap (λ e. choose e (skipped fb.composited)) something
              ∙ ap (λ c. choose false (skipped c)) composited
              ∙ ap (λ z. choose false (not true || (z || out))) sized in
            elim (Bool-cases out) [
              | inl outside ↦ copied s (present_damage fb s) (to_rows ∙ ap (choose false) outside) (
                  clean-Synced s coherent
                    (λ px py hx hy dirty. ground (arith, outside, dirty, hx, hy)))
              | inr inside ↦
                  let at_x : s.dirty_x0 < fb.width = ground (arith, inside) in
                  let at_y : s.dirty_y0 < fb.height = ground (arith, inside) in
                  let across_to : right ≡ min s.dirty_x1 fb.width =
                    omega (arith, across, v.width_le) in
                  let down_to : bottom ≡ min s.dirty_y1 fb.height =
                    omega (arith, down, v.height_le) in
                  subst (Copied s)
                    (sym (
                      to_rows
                      ∙ ap (choose false) inside
                      ∙ ap (λ r. copy r bottom) across_to
                      ∙ ap (copy (min s.dirty_x1 fb.width)) down_to))
                    (record {
                      synced = copied-Synced s coherent at_x at_y;
                      kept = refl;
                      nothing_left = (refl, refl);
                    })
            ]
      ]

  -- Whatever is drawn on a screen that is in step with its back buffer: copying out the damage puts
  -- it in step again, changes nothing that was drawn and leaves nothing to copy.
  pub present_damage-draw_all :
      (ds : List Draw) (s : Surface)
      → fb.composited ≡ true
      → Coherent fb v s
      → Copied (draw_all fb v ds s) (present_damage fb (draw_all fb v ds s))
  present_damage-draw_all ds s composited coherent =
      present_damage-Copied (draw_all fb v ds s) composited
        (draw_all-Coherent fb v ds s composited coherent)
