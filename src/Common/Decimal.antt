-- ===== src/Common/Decimal.antt =====
-- Decimal text: what `{n}` and `{n:0w}` of Rust's formatting write, and a reader of numbers. A
-- text is the list of its bytes.
use Prim.Native.Nat.{ℕ, zero, suc, ◌+◌, ◌-◌, ◌*◌, ◌/◌, ◌%◌, ◌^◌, ◌≤◌, ◌<◌}
use mathlib.Core.Path.{◌≡◌, refl, ap, ◌∙◌}
use mathlib.Core.Bool.{Bool, false, ◌&&◌}
use mathlib.Core.List.{List, [], ◌∷◌, ◌++◌, append_assoc}
use native.Mathlib.Omega.{arith}
use native.Mathlib.Nat.{pow-suc}
use mathlib.Core.Logic.{inl, inr}
use native.Mathlib.Numerals.{towards_suc}
use nanochronometer.Common.Tests.{Bool-cases, ltb, leb, if◌then◌else◌}
use nanochronometer.Common.Lists.{length, length-append, replicate}

-- The digits of `n`, highest first; a u64 has at most 20.
unfoldable pub decimal : ℕ → ℕ → List ℕ
decimal zero n = []
decimal (suc f) n =
    let rest = decimal f (n / 10) in
    if ltb n 10 then (b'0' + n) ∷ [] else rest ++ ((b'0' + n % 10) ∷ [])

abbrev pub max_digits : ℕ
max_digits = 20

-- `{n:0width}`
unfoldable pub pad : ℕ → ℕ → List ℕ
unfolding decimal
pad width n = let digits = decimal max_digits n in replicate (width - length digits) b'0' ++ digits

abbrev pub is_digit : ℕ → Bool
is_digit c = leb b'0' c && leb c b'9'

-- Reads digits onto `acc` up to the first other byte: the number and what follows it.
unfoldable pub read_number : ℕ → List ℕ → ℕ × List ℕ
read_number acc [] = (acc, [])
read_number acc (c ∷ cs) =
    let more = read_number (acc * 10 + (c - b'0')) cs in if is_digit c then more else (acc, c ∷ cs)

-- The text does not go on with a digit.
abbrev pub Ends : List ℕ → Type 0
Ends [] = Unit
Ends (c ∷ cs) = is_digit c ≡ false

read_number-Ends : (acc : ℕ) (rest : List ℕ) → Ends rest → read_number acc rest ≡ (acc, rest)
unfolding read_number
read_number-Ends acc [] h = refl
read_number-Ends acc (c ∷ cs) h = rw h

read_number-digit :
    (acc d : ℕ) (rest : List ℕ)
    → d < 10
    → read_number acc ((b'0' + d) ∷ rest) ≡ read_number (acc * 10 + d) rest
unfolding read_number
read_number-digit acc d rest h = ground arith

-- Reading the digits of `n` in front of `rest` puts `n` behind `acc`.
read_number-decimal :
    (f n acc : ℕ) (rest : List ℕ)
    → n < 10 ^ f
    → read_number acc (decimal f n ++ rest) ≡ read_number (acc * 10 ^ length (decimal f n) + n) rest
unfolding decimal
read_number-decimal zero n acc rest h = ground arith
read_number-decimal (suc f) n acc rest h = elim (Bool-cases (ltb n 10)) [
  | inl one ↦ rw one (read_number-digit acc n rest (ground arith))
  | inr more ↦
      let q = n / 10 in
      let r = n % 10 in
      let size = length (decimal f q) in
      let longer : 10 ^ length (decimal f q ++ ((b'0' + r) ∷ [])) ≡ 10 ^ size * 10 =
        rw (length-append (decimal f q) ((b'0' + r) ∷ [])) (simp towards_suc (pow-suc 10 size)) in
      let regroup : acc * (10 ^ size * 10) + n ≡ (acc * 10 ^ size + q) * 10 + r = omega arith in
      rw (more, append_assoc (decimal f q), longer, regroup)
        (read_number-decimal f q acc ((b'0' + r) ∷ rest) (omega (arith, pow-suc 10 f))
          ∙ read_number-digit (acc * 10 ^ size + q) r rest (omega arith))
]

read_number-zeros :
    (k : ℕ) (rest : List ℕ) → read_number 0 (replicate k b'0' ++ rest) ≡ read_number 0 rest
read_number-zeros zero rest = refl
read_number-zeros (suc k) rest =
    read_number-digit 0 0 (replicate k b'0' ++ rest) (omega arith) ∙ read_number-zeros k rest

-- A padded number reads back, and the reader stops behind it.
pub read_number-pad :
    (width n : ℕ) (rest : List ℕ)
    → n < 10 ^ 20
    → Ends rest
    → read_number 0 (pad width n ++ rest) ≡ (n, rest)
unfolding pad
read_number-pad width n rest h e =
    let digits = decimal max_digits n in
    let from_zero : 0 * 10 ^ length digits + n ≡ n = omega arith in
    ap (read_number 0) (append_assoc (replicate (width - length digits) b'0') digits rest)
    ∙ read_number-zeros (width - length digits) (digits ++ rest)
    ∙ read_number-decimal max_digits n 0 rest h
    ∙ ap (λ t. read_number t rest) from_zero
    ∙ read_number-Ends n rest e

decimal-length : (f n w : ℕ) → 0 < w → n < 10 ^ w → w ≤ f → length (decimal f n) ≤ w
unfolding decimal
decimal-length zero n w p h le = absurd (omega arith)
decimal-length (suc f) n zero p h le = absurd (omega arith)
decimal-length (suc f) n (suc zero) p h le = ground arith
decimal-length (suc f) n (suc (suc w)) p h le =
    let shorter =
      decimal-length f (n / 10) (suc w) (omega arith) (omega (arith, pow-suc 10 (suc w)))
        (omega arith) in
    elim (Bool-cases (ltb n 10)) [
      | inl one ↦ rw one (omega arith)
      | inr more ↦
          rw (more, length-append (decimal f (n / 10)) ((b'0' + n % 10) ∷ [])) (omega arith)
    ]

length-replicate : (k d : ℕ) → length (replicate k d) ≡ k
length-replicate zero d = refl
length-replicate (suc k) d = ap suc (length-replicate k d)

-- A number that fits the width fills it exactly.
pub length-pad :
    (width n : ℕ) → 0 < width → width ≤ 20 → n < 10 ^ width → length (pad width n) ≡ width
unfolding pad
length-pad width n p le h =
    length-append (replicate (width - length (decimal max_digits n)) b'0') (decimal max_digits n)
    ∙ omega (
      arith,
      length-replicate (width - length (decimal max_digits n)) b'0',
      decimal-length max_digits n width p h le,
    )

-- A number of at most `digits` digits takes no more than those where the width is no more.
pub length-pad_le :
    (width digits n : ℕ)
    → 0 < digits
    → digits ≤ 20
    → width ≤ digits
    → n < 10 ^ digits
    → length (pad width n) ≤ digits
unfolding pad
length-pad_le width digits n p le fits h = omega (
  arith,
  length-append (replicate (width - length (decimal max_digits n)) b'0') (decimal max_digits n),
  length-replicate (width - length (decimal max_digits n)) b'0',
  decimal-length max_digits n digits p h le,
)
