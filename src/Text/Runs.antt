-- ===== src/Text/Runs.antt =====
-- The texts of the display at concrete inputs: tests, and the theorems applied.
use nanochronometer.Common.{◌≡◌, refl, false, [], ◌∷◌, take}
use nanochronometer.Format.{format_elapsed_nano}
use nanochronometer.Text.{
  as_str, bytes, fixed, frequency, duration, pad, str, push, num, scratch, push_reversed, scale,
}
use nanochronometer.Text.Figures.{shown_part, duration-format_elapsed_nano}

duration-format_elapsed_nano_example :
    as_str (duration 18_446_744_073_709_551_615 false)
    ≡ take 24 (shown_part false (format_elapsed_nano 18_446_744_073_709_551_615))
duration-format_elapsed_nano_example = duration-format_elapsed_nano 18_446_744_073_709_551_615 false

-- "2.8 MB"
three_megabytes : as_str (bytes 3_000_000) ≡ b'2' ∷ b'.' ∷ b'8' ∷ b' ' ∷ b'M' ∷ b'B' ∷ []
unfolding bytes fixed pad str push num scratch push_reversed scale
three_megabytes = refl

-- 2097152 TB are written as "419430 TB", since the product of the tenths wraps.
exbibytes :
    as_str (bytes 2_305_843_009_213_693_952)
    ≡ b'4' ∷ b'1' ∷ b'9' ∷ b'4' ∷ b'3' ∷ b'0' ∷ b' ' ∷ b'T' ∷ b'B' ∷ []
unfolding bytes fixed pad str push num scratch push_reversed scale
exbibytes = refl

-- "2.418 GHz"
a_frequency :
    as_str (frequency 2_418_000_123)
    ≡ b'2' ∷ b'.' ∷ b'4' ∷ b'1' ∷ b'8' ∷ b' ' ∷ b'G' ∷ b'H' ∷ b'z' ∷ []
unfolding frequency fixed pad str push num scratch push_reversed
a_frequency = refl
