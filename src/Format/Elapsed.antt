-- ===== src/Format/Elapsed.antt =====
-- crates/nanochrono-core/src/format.rs: the texts of durations read back.
use nanochronometer.Common.{
  ℕ, zero, suc, ◌+◌, ◌*◌, ◌/◌, ◌^◌, ◌<◌, ◌≡◌, false, List, [], ◌∷◌, ◌++◌, arith, refl, ap, sym, ◌∙◌,
}
use nanochronometer.Common.Decimal.{pad, read_number, is_digit, read_number-pad}
use nanochronometer.Format.{format_elapsed_nano, format_elapsed_simple}
use mathlib.Core.List.{append-nil}

abbrev drop_one : List ℕ → List ℕ
drop_one [] = []
drop_one (c ∷ cs) = cs

-- Reads `k` numbers, each ended by one byte that is no digit.
unfoldable pub read_fields : ℕ → List ℕ → List ℕ
read_fields zero text = []
read_fields (suc k) text =
    let field = read_number 0 text in field.0 ∷ read_fields k (drop_one field.1)

unfoldable pub weigh : List ℕ → List ℕ → ℕ
weigh [] fields = 0
weigh (w ∷ ws) [] = 0
weigh (w ∷ ws) (f ∷ fs) = w * f + weigh ws fs

-- The number in front, and what is read behind it.
pub read_fields-pad :
    (k width n c : ℕ) (rest fields : List ℕ)
    → n < 10 ^ 20
    → is_digit c ≡ false
    → read_fields k rest ≡ fields
    → read_fields (suc k) (pad width n ++ (c ∷ rest)) ≡ n ∷ fields
unfolding read_fields
read_fields-pad k width n c rest fields h e more =
    rw (read_number-pad width n (c ∷ rest) h e, more) refl

pub read_fields-end : (text : List ℕ) → read_fields 0 text ≡ []
unfolding read_fields
read_fields-end text = refl

read_fields-last : (width n : ℕ) → n < 10 ^ 20 → read_fields 1 (pad width n) ≡ n ∷ []
unfolding read_fields
read_fields-last width n h =
    ap (read_fields 1) (sym (append-nil (pad width n)))
    ∙ ap (λ r. r.0 ∷ []) (read_number-pad width n [] h tt)

abbrev pub nano_weights : List ℕ
nano_weights = 3_600_000_000_000 ∷ 60_000_000_000 ∷ 1_000_000_000 ∷ 1_000_000 ∷ 1_000 ∷ 1 ∷ []

-- The six fields of `hh:mm:ss:mmm:uuu:nnn`, weighed by their units, are the duration that was
-- printed, for every u64.
pub read_fields-format_elapsed_nano :
    (ns : ℕ) → ns < 2 ^ 64 → weigh nano_weights (read_fields 6 (format_elapsed_nano ns)) ≡ ns
unfolding format_elapsed_nano weigh
read_fields-format_elapsed_nano ns h =
    ap (weigh nano_weights) (
      read_fields-pad _ _ _ _ _ _ (omega arith) refl (
        read_fields-pad _ _ _ _ _ _ (omega arith) refl (
          read_fields-pad _ _ _ _ _ _ (omega arith) refl (
            read_fields-pad _ _ _ _ _ _ (omega arith) refl (
              read_fields-pad _ _ _ _ _ _ (omega arith) refl
                (read_fields-last _ _ (omega arith)))))))
    ∙ omega arith

-- The three fields of `mm:ss.mmm`, weighed by their units, are the duration in whole
-- milliseconds, for every u64.
pub read_fields-format_elapsed_simple :
    (ns : ℕ)
    → ns < 2 ^ 64
    → weigh (60_000 ∷ 1_000 ∷ 1 ∷ []) (read_fields 3 (format_elapsed_simple ns)) ≡ ns / 1_000_000
unfolding format_elapsed_simple weigh
read_fields-format_elapsed_simple ns h =
    ap (weigh (60_000 ∷ 1_000 ∷ 1 ∷ [])) (
      read_fields-pad _ _ _ _ _ _ (omega arith) refl
        (read_fields-pad _ _ _ _ _ _ (omega arith) refl (read_fields-last _ _ (omega arith))))
    ∙ omega arith
