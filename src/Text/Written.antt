-- ===== src/Text/Written.antt =====
-- A text holds the first bytes of all that was written to it.
use nanochronometer.Common.{
  ℕ, zero, suc, ◌+◌, ◌-◌, ◌/◌, ◌%◌, ◌≤◌, ◌<◌, ◌≡◌, arith, refl, ap, sym, ◌∙◌, subst, true, false,
  List, [], ◌∷◌, ◌++◌, length, take, replicate, length-append, length-set, take-set, ltb, ◌==◌,
  Bool-cases, inl, inr,
}
use mathlib.Core.List.{append-nil, append_assoc}
use nanochronometer.Common.Decimal
use nanochronometer.Common.Decimal.{decimal, max_digits}
use nanochronometer.Text.{Text, new, as_str, push, str, scratch, push_reversed, pad}

-- The text has room for `n` bytes, and holds the first of those that were written.
pub record Holds (n : ℕ) (t : Text) (written : List ℕ) : Type 0 where
  pub room : length t.buf ≡ n
  pub len_le : t.len ≤ n
  pub fits : t.len < n → t.len ≡ length written
  pub short : t.len ≤ length written
  pub same : as_str t ≡ take n written

pub take-all : (n : ℕ) (xs : List ℕ) → length xs ≤ n → take n xs ≡ xs
take-all zero [] h = refl
take-all (suc n) [] h = refl
take-all zero (x ∷ xs) h = absurd (omega arith)
take-all (suc n) (x ∷ xs) h = ap (λ r. x ∷ r) (take-all n xs (omega arith))

take-front : (n : ℕ) (xs ys : List ℕ) → n ≤ length xs → take n (xs ++ ys) ≡ take n xs
take-front zero xs ys h = refl
take-front (suc n) [] ys h = absurd (omega arith)
take-front (suc n) (x ∷ xs) ys h = ap (λ r. x ∷ r) (take-front n xs ys (omega arith))

length-zeros : (n : ℕ) → length {A = ℕ} (replicate n 0) ≡ n
length-zeros zero = refl
length-zeros (suc n) = ap suc (length-zeros n)

take-none : (n : ℕ) → take {A = ℕ} n [] ≡ []
take-none zero = refl
take-none (suc n) = refl

pub new-Holds : (n : ℕ) → Holds n (new n) []
new-Holds n = record {
  room = length-zeros n;
  len_le = omega arith;
  fits = λ _. refl;
  short = omega arith;
  same = sym (take-none n);
}

pub push-Holds :
    (n : ℕ) (t : Text) (written : List ℕ) (b : ℕ)
    → Holds n t written
    → Holds n (push b t) (written ++ (b ∷ []))
unfolding push
push-Holds n t written b h = elim (Bool-cases (ltb t.len (length t.buf))) [
  | inl free ↦
      let below : t.len < n = ground (arith, h.room, free) in
      let all : t.len ≡ length written = h.fits below in
      let longer = length-append written (b ∷ []) in
      rw free (record {
        room = length-set t.buf t.len b ∙ h.room;
        len_le = omega (arith, below);
        fits = λ _. omega (arith, all, longer);
        short = omega (arith, all, longer);
        same =
            take-set t.buf t.len b (omega (arith, below, h.room))
            ∙ ap (λ r. r ++ (b ∷ [])) (h.same ∙ take-all n written (omega (arith, below, all)))
            ∙ sym (take-all n (written ++ (b ∷ [])) (omega (arith, below, all, longer)));
      })
  | inr full ↦
      let there : n ≤ t.len = ground (arith, h.room, full) in
      let longer = length-append written (b ∷ []) in
      rw full (record {
        room = h.room;
        len_le = h.len_le;
        fits = λ below. absurd (omega (arith, below, there));
        short = omega (arith, h.short, longer);
        same = h.same ∙ sym (take-front n written (b ∷ []) (omega (arith, h.short, there)));
      })
]

pub str-Holds :
    (n : ℕ) (s : List ℕ) (t : Text) (written : List ℕ)
    → Holds n t written
    → Holds n (str s t) (written ++ s)
unfolding str
str-Holds n [] t written h = subst (Holds n t) (sym (append-nil written)) h
str-Holds n (b ∷ s) t written h =
    subst (Holds n (str s (push b t))) (append_assoc written (b ∷ []) s)
      (str-Holds n s (push b t) (written ++ (b ∷ [])) (push-Holds n t written b h))

length-scratch : (room value : ℕ) → length (scratch room value) ≡ length (decimal room value)
unfolding scratch decimal
length-scratch zero value = refl
length-scratch (suc room) value = elim (Bool-cases (ltb value 10)) [
  | inl one ↦ let top : (value / 10 == 0) ≡ true = ground (arith, one) in rw (one, top) refl
  | inr more ↦
      let below : (value / 10 == 0) ≡ false = ground (arith, more) in
      let longer = length-append (decimal room (value / 10)) ((b'0' + value % 10) ∷ []) in
      rw (more, below) (omega (arith, longer, length-scratch room (value / 10)))
]

push_reversed-Holds :
    (n room value : ℕ) (t : Text) (written : List ℕ)
    → Holds n t written
    → Holds n (push_reversed (scratch room value) t) (written ++ decimal room value)
unfolding scratch decimal push_reversed
push_reversed-Holds n zero value t written h = subst (Holds n t) (sym (append-nil written)) h
push_reversed-Holds n (suc room) value t written h = elim (Bool-cases (ltb value 10)) [
  | inl one ↦
      let top : (value / 10 == 0) ≡ true = ground (arith, one) in
      let only : value % 10 ≡ value = ground (arith, one) in
      rw (one, top, only) (push-Holds n t written (b'0' + value) h)
  | inr more ↦
      let below : (value / 10 == 0) ≡ false = ground (arith, more) in
      let digit = b'0' + value % 10 in
      let higher = push_reversed (scratch room (value / 10)) t in
      let front = push_reversed-Holds n room (value / 10) t written h in
      rw (more, below)
        (subst (Holds n (push digit higher))
          (append_assoc written (decimal room (value / 10)) (digit ∷ []))
          (push-Holds n higher (written ++ decimal room (value / 10)) digit front))
]

padded-Holds :
    (n room value width : ℕ) (t : Text) (written : List ℕ)
    → Holds n t written
    → Holds n
        (push_reversed
          (scratch room value)
          (str (replicate (width - length (scratch room value)) b'0') t))
        (written ++ (replicate (width - length (decimal room value)) b'0' ++ decimal room value))
padded-Holds n room value width t written h =
    let zeros = replicate (width - length (scratch room value)) b'0' in
    let front = str-Holds n zeros t written h in
    let all = push_reversed-Holds n room value (str zeros t) (written ++ zeros) front in
    let digits = push_reversed (scratch room value) (str zeros t) in
    subst (Holds n digits)
      (append_assoc written zeros (decimal room value)
        ∙ ap (λ k. written ++ (replicate (width - k) b'0' ++ decimal room value))
            (length-scratch room value))
      all

pub pad-Holds :
    (n value width : ℕ) (t : Text) (written : List ℕ)
    → Holds n t written
    → Holds n (pad value width t) (written ++ Decimal.pad width value)
unfolding pad Decimal.pad
pad-Holds n value width t written h = padded-Holds n 20 value width t written h
