-- ===== src/Text/Figures.antt =====
-- The duration of the bare-metal display against the one of format.rs.
use nanochronometer.Common.{
  ℕ, ◌+◌, ◌*◌, ◌/◌, ◌%◌, ◌^◌, ◌≤◌, ◌<◌, ◌≡◌, arith, refl, ap, ◌∙◌, subst, sym, Bool, true, false,
  take-append, ◌-◌, List, [], ◌∷◌, ◌++◌, length, take, length-append,
}
use mathlib.Core.List.{append_assoc}
use nanochronometer.Common.Decimal
use nanochronometer.Common.Decimal.{length-pad, length-pad_le}
use nanochronometer.Format.{format_elapsed_nano}
use nanochronometer.Format.Elapsed.{
  nano_weights, weigh, read_fields, read_fields-format_elapsed_nano,
}
use nanochronometer.Text.{Text, as_str, push, pad, duration}
use nanochronometer.Text.Written.{Holds, new-Holds, push-Holds, pad-Holds, take-all}

-- A field and the colon behind it.
field-Holds :
    (value width : ℕ) (t : Text) (written : List ℕ)
    → Holds 24 t written
    → Holds 24 (push b':' (pad value width t)) ((written ++ Decimal.pad width value) ++ (b':' ∷ []))
field-Holds value width t written h =
    push-Holds 24 (pad value width t) (written ++ Decimal.pad width value) b':'
      (pad-Holds 24 value width t written h)

-- The fields, as they were written one behind the other.
abbrev fields : List ℕ → List ℕ → List ℕ → List ℕ → List ℕ → List ℕ → List ℕ
fields a b c d e f =
    let colon : List ℕ → List ℕ → List ℕ = λ before field. (before ++ field) ++ (b':' ∷ []) in
    colon (colon (colon (colon (colon [] a) b) c) d) e ++ f

abbrev joined : List ℕ → List ℕ → List ℕ → List ℕ → List ℕ → List ℕ → List ℕ
joined a b c d e f = a ++ (b':' ∷ (b ++ (b':' ∷ (c ++ (b':' ∷ (d ++ (b':' ∷ (e ++ (b':' ∷ f)))))))))

fields-joined : (a b c d e f : List ℕ) → fields a b c d e f ≡ joined a b c d e f
fields-joined a b c d e f = simp append_assoc refl

duration-Holds : (ns : ℕ) → Holds 24 (duration ns true) (format_elapsed_nano ns)
unfolding duration format_elapsed_nano
duration-Holds ns =
    let hours : ns / 1_000_000_000 / 3600 ≡ ns / 3_600_000_000_000 = omega arith in
    let minutes : ns / 1_000_000_000 / 60 % 60 ≡ ns / 60_000_000_000 % 60 = omega arith in
    let milli : ns % 1_000_000_000 / 1_000_000 ≡ ns / 1_000_000 % 1_000 = omega arith in
    let micro : ns % 1_000_000_000 / 1_000 % 1_000 ≡ ns / 1_000 % 1_000 = omega arith in
    let nano : ns % 1_000_000_000 % 1_000 ≡ ns % 1_000 = omega arith in
    let same =
      fields-joined (Decimal.pad 2 (ns / 1_000_000_000 / 3600))
        (Decimal.pad 2 (ns / 1_000_000_000 / 60 % 60)) (Decimal.pad 2 (ns / 1_000_000_000 % 60))
        (Decimal.pad 3 (ns % 1_000_000_000 / 1_000_000))
        (Decimal.pad 3 (ns % 1_000_000_000 / 1_000 % 1_000))
        (Decimal.pad 3 (ns % 1_000_000_000 % 1_000)) in
    let equal : joined (Decimal.pad 2 (ns / 1_000_000_000 / 3600))
          (Decimal.pad 2 (ns / 1_000_000_000 / 60 % 60)) (Decimal.pad 2 (ns / 1_000_000_000 % 60))
          (Decimal.pad 3 (ns % 1_000_000_000 / 1_000_000))
          (Decimal.pad 3 (ns % 1_000_000_000 / 1_000 % 1_000))
          (Decimal.pad 3 (ns % 1_000_000_000 % 1_000))
        ≡ format_elapsed_nano ns =
      rw (hours, minutes, milli, micro, nano) refl in
    subst (Holds 24 (duration ns true)) (same ∙ equal) (
      pad-Holds 24 _ 3 _ _ (
        field-Holds _ 3 _ _ (
          field-Holds _ 3 _ _
            (field-Holds _ 2 _ _ (field-Holds _ 2 _ _ (field-Holds _ 2 _ _ (new-Holds 24)))))))

-- The part of the core's text that is shown: all of it, or without the last eight bytes, which are
-- the microseconds and the nanoseconds.
abbrev pub shown_part : Bool → List ℕ → List ℕ
shown_part true text = text
shown_part false text = take (length text - 8) text

-- The four fields from the hours to the milliseconds, as they are written.
short : List ℕ → List ℕ → List ℕ → List ℕ → List ℕ
short a b c d =
    let colon : List ℕ → List ℕ → List ℕ = λ before field. (before ++ field) ++ (b':' ∷ []) in
    colon (colon (colon [] a) b) c ++ d

short-behind :
    (a b c d e f : List ℕ) → short a b c d ++ (b':' ∷ (e ++ (b':' ∷ f))) ≡ joined a b c d e f
unfolding short
short-behind a b c d e f = simp append_assoc refl

take-front : (front rest : List ℕ) → length rest ≡ 8 → shown_part false (front ++ rest) ≡ front
take-front front rest h =
    let size : length (front ++ rest) - 8 ≡ length front =
      omega (arith, length-append front rest, h) in
    ap (λ n. take n (front ++ rest)) size ∙ take-append front rest

shortened :
    (a b c d e f : List ℕ)
    → length e ≡ 3
    → length f ≡ 3
    → shown_part false (joined a b c d e f) ≡ short a b c d
shortened a b c d e f he hf =
    ap (shown_part false) (sym (short-behind a b c d e f))
    ∙ take-front (short a b c d) (b':' ∷ (e ++ (b':' ∷ f)))
        (omega (arith, length-append e (b':' ∷ f), he, hf))

short-Holds : (ns : ℕ) → Holds 24 (duration ns false) (shown_part false (format_elapsed_nano ns))
unfolding duration format_elapsed_nano short
short-Holds ns =
    let hours : ns / 1_000_000_000 / 3600 ≡ ns / 3_600_000_000_000 = omega arith in
    let minutes : ns / 1_000_000_000 / 60 % 60 ≡ ns / 60_000_000_000 % 60 = omega arith in
    let milli : ns % 1_000_000_000 / 1_000_000 ≡ ns / 1_000_000 % 1_000 = omega arith in
    let a = Decimal.pad 2 (ns / 3_600_000_000_000) in
    let b = Decimal.pad 2 (ns / 60_000_000_000 % 60) in
    let c = Decimal.pad 2 (ns / 1_000_000_000 % 60) in
    let d = Decimal.pad 3 (ns / 1_000_000 % 1_000) in
    let three : (n : ℕ) → n < 1_000 → length (Decimal.pad 3 n) ≡ 3 =
      λ n h. length-pad 3 n (omega arith) (omega arith) h in
    let written : short (Decimal.pad 2 (ns / 1_000_000_000 / 3600))
          (Decimal.pad 2 (ns / 1_000_000_000 / 60 % 60)) (Decimal.pad 2 (ns / 1_000_000_000 % 60))
          (Decimal.pad 3 (ns % 1_000_000_000 / 1_000_000))
        ≡ short a b c d =
      rw (hours, minutes, milli) refl in
    subst (Holds 24 (duration ns false))
      (written
        ∙ sym (
            shortened a b c d (Decimal.pad 3 (ns / 1_000 % 1_000)) (Decimal.pad 3 (ns % 1_000))
              (three _ (omega arith)) (three _ (omega arith))))
      (pad-Holds 24 _ 3 _ _
        (field-Holds _ 2 _ _ (field-Holds _ 2 _ _ (field-Holds _ 2 _ _ (new-Holds 24)))))

-- The duration on the display, with nanoseconds or without, is the first 24 bytes of the one that
-- format.rs prints, which without nanoseconds ends behind the milliseconds.
pub duration-format_elapsed_nano :
    (ns : ℕ) (nanoseconds : Bool)
    → as_str (duration ns nanoseconds) ≡ take 24 (shown_part nanoseconds (format_elapsed_nano ns))
duration-format_elapsed_nano ns true = (duration-Holds ns).same
duration-format_elapsed_nano ns false = (short-Holds ns).same

length-colon :
    (a rest : List ℕ) (n m : ℕ)
    → length a ≤ n
    → length rest ≤ m
    → length (a ++ (b':' ∷ rest)) ≤ n + (m + 1)
length-colon a rest n m p q = omega (arith, length-append a (b':' ∷ rest), p, q)

length-format_elapsed_nano :
    (ns : ℕ) → ns < 3_600_000_000_000 * 10 ^ 6 → length (format_elapsed_nano ns) ≤ 24
unfolding format_elapsed_nano
length-format_elapsed_nano ns h =
    let field : (w n : ℕ) → 0 < w → w ≤ 20 → n < 10 ^ w → length (Decimal.pad w n) ≤ w =
      λ w n p le less. length-pad_le w w n p le (omega arith) less in
    length-colon _ _ 6 17
      (length-pad_le 2 6 (ns / 3_600_000_000_000) (omega arith) (omega arith) (omega arith)
        (omega arith))
      (length-colon _ _ 2 14 (field 2 _ (omega arith) (omega arith) (omega arith)) (
        length-colon _ _ 2 11 (field 2 _ (omega arith) (omega arith) (omega arith)) (
          length-colon _ _ 3 7 (field 3 _ (omega arith) (omega arith) (omega arith)) (
            length-colon _ _ 3 3 (field 3 _ (omega arith) (omega arith) (omega arith))
              (field 3 _ (omega arith) (omega arith) (omega arith))))))

-- Below a million hours the duration on the display reads back to the one that it shows.
pub read_fields-duration :
    (ns : ℕ)
    → ns < 3_600_000_000_000 * 10 ^ 6
    → weigh nano_weights (read_fields 6 (as_str (duration ns true))) ≡ ns
read_fields-duration ns h =
    ap (λ t. weigh nano_weights (read_fields 6 t))
      (duration-format_elapsed_nano ns true
        ∙ take-all 24 (format_elapsed_nano ns) (length-format_elapsed_nano ns h))
    ∙ read_fields-format_elapsed_nano ns (omega arith)
