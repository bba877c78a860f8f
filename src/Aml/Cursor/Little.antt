-- ===== src/Aml/Cursor/Little.antt =====
-- The numbers that the cursor reads: little-endian integers and package lengths.
use nanochronometer.Common.{
  ℕ, zero, suc, ◌+◌, ◌*◌, ◌/◌, ◌%◌, ◌^◌, ◌≤◌, ◌<◌, ◌≡◌, refl, ap, ◌∙◌, arith, List, [], ◌∷◌, ◌++◌,
  All, length, take, drop, ltb, ◌==◌, bit_and, length-drop, length-take, drop-head, true, false,
}
use nanochronometer.Common.Bits.{bit_or_fields, bit_and_mask}
use native.Mathlib.Nat.{pow-suc, mul-le-mul_right}
use nanochronometer.Aml.Cursor.{
  read, byte, little_endian, take_bytes, integer, follow_bytes, package_length, package_from,
  package_span,
}

abbrev pub IsByte : ℕ → Type 0
IsByte b = b < 256

-- The number that bytes stand for, lowest first.
abbrev pub value_of : List ℕ → ℕ
value_of [] = 0
value_of (b ∷ bytes) = b + 256 * value_of bytes

two_pow_four : (n : ℕ) → 2 ^ suc (suc (suc (suc n))) ≡ 16 * 2 ^ n
two_pow_four n =
    omega (
      arith,
      pow-suc 2 n,
      pow-suc 2 (suc n),
      pow-suc 2 (suc (suc n)),
      pow-suc 2 (suc (suc (suc n))),
    )

two_pow_eight : (m n : ℕ) → m ≡ n + 8 → 2 ^ m ≡ 256 * 2 ^ n
two_pow_eight m n e =
    let next = suc (suc (suc (suc n))) in
    let apart : m ≡ suc (suc (suc (suc next))) = omega arith in
    ap (λ k. 2 ^ k) apart ∙ omega (arith, two_pow_four n, two_pow_four next)

-- A byte more, above the `w` bits of a value.
or_byte-lt : (value b p : ℕ) → value < p → b < 256 → value + b * p < 256 * p
or_byte-lt value b p h l = omega (arith, mul-le-mul_right {m = b} {n = 255} p (omega arith))

pub little_endian-value_of :
    (i : ℕ) (bytes : List ℕ) (value : ℕ)
    → All IsByte bytes
    → value < 2 ^ (8 * i)
    → little_endian i bytes value ≡ value + value_of bytes * 2 ^ (8 * i)
little_endian-value_of i [] value a h = omega arith
little_endian-value_of i (b ∷ bytes) value (l, a) h =
    let p = 2 ^ (8 * i) in
    let wider = two_pow_eight (8 * (i + 1)) (8 * i) (omega arith) in
    rw (bit_or_fields (8 * i) value b h) (
      little_endian-value_of (i + 1) bytes (value + b * p) a
        (omega (arith, wider, or_byte-lt value b p h l))
      ∙ rw wider (omega arith))

value_of-lt : (bytes : List ℕ) → All IsByte bytes → value_of bytes < 2 ^ (8 * length bytes)
value_of-lt [] a = omega arith
value_of-lt (b ∷ bytes) (l, a) =
    let size = 8 * length bytes in
    omega (arith, two_pow_eight (8 * suc (length bytes)) size (omega arith), value_of-lt bytes a)

pub All-take : (count : ℕ) (bytes : List ℕ) → All IsByte bytes → All IsByte (take count bytes)
All-take zero bytes a = tt
All-take (suc count) [] a = tt
All-take (suc count) (b ∷ bytes) (l, a) = (l, All-take count bytes a)

pub All-drop : (count : ℕ) (bytes : List ℕ) → All IsByte bytes → All IsByte (drop count bytes)
All-drop zero bytes a = a
All-drop (suc count) [] a = tt
All-drop (suc count) (b ∷ bytes) (l, a) = All-drop count bytes a

-- An integer of so many bytes, where they are there, is the little-endian value of those bytes, and
-- the cursor stands behind them.
pub integer-value_of :
    (code : List ℕ) (bytes at : ℕ)
    → All IsByte code
    → at + bytes ≤ length code
    → (integer code bytes at ≡ read (value_of (take bytes (drop at code))) (at + bytes))
      × (value_of (take bytes (drop at code)) < 2 ^ (8 * bytes))
unfolding integer take_bytes
integer-value_of code bytes at a fits =
    let slice = take bytes (drop at code) in
    let all = All-take bytes (drop at code) (All-drop at code a) in
    let inside : ltb (length code) (at + bytes) ≡ false = ground arith in
    let size : length slice ≡ bytes =
      length-take bytes (drop at code) ∙ omega (arith, length-drop at code) in
    (
      rw inside (
          ap (λ v. read v (at + bytes))
            (little_endian-value_of 0 slice 0 all (omega arith) ∙ omega arith)),
      rw size at (value_of-lt slice all),
    )

-- The following bytes of a package length.
abbrev pub length_bytes : ℕ → ℕ → List ℕ
length_bytes zero n = []
length_bytes (suc follow) n = n % 256 ∷ length_bytes follow (n / 256)

-- A package length as a table writes it: in one byte, or its low four bits with the number of
-- following bytes, and the rest in those.
abbrev pub length_encoded : ℕ → ℕ → List ℕ
length_encoded zero n = n ∷ []
length_encoded (suc follow) n = (suc follow * 64 + n % 16) ∷ length_bytes (suc follow) (n / 16)

-- What a package length with so many following bytes can say.
abbrev pub length_limit : ℕ → ℕ
length_limit zero = 64
length_limit (suc follow) = 16 * 256 ^ suc follow

byte-drop :
    (code : List ℕ) (at b : ℕ) (rest : List ℕ)
    → drop at code ≡ b ∷ rest
    → (byte code at ≡ read b (at + 1)) × (drop (at + 1) code ≡ rest)
byte-drop code at b rest h =
    let (there, behind, inside) = drop-head code at b rest h in (rw there refl, behind)

follow_bytes-length_bytes :
    (code : List ℕ) (left i value n at : ℕ) (rest : List ℕ)
    → drop at code ≡ length_bytes left n ++ rest
    → value < 2 ^ (4 + 8 * i)
    → n < 256 ^ left
    → follow_bytes code left i value at ≡ read (value + n * 2 ^ (4 + 8 * i)) (at + left)
unfolding follow_bytes
follow_bytes-length_bytes code zero i value n at rest h v l =
    let none_left : n ≡ 0 = omega arith in rw (none_left) (ground arith)
follow_bytes-length_bytes code (suc left) i value n at rest h v l =
    let p = 2 ^ (4 + 8 * i) in
    let b = n % 256 in
    let wider = two_pow_eight (4 + 8 * (i + 1)) (4 + 8 * i) (omega arith) in
    let (one, behind) = byte-drop code at b (length_bytes left (n / 256) ++ rest) h in
    let split : n * p ≡ (n / 256 * 256 + b) * p = ap (λ t. t * p) (omega arith) in
    let sum : value + b * p + n / 256 * 2 ^ (4 + 8 * (i + 1)) ≡ value + n * p =
      omega (arith, split, ap (λ t. n / 256 * t) wider) in
    let end : at + 1 + left ≡ at + suc left = omega arith in
    rw (one, bit_or_fields (4 + 8 * i) value b v)
      (follow_bytes-length_bytes code left (i + 1) (value + b * p) (n / 256) (at + 1) rest behind
          (omega (arith, wider, or_byte-lt value b p v (omega arith)))
          (omega (arith, pow-suc 256 left))
        ∙ rw (sum, end) refl)

package_from-fits :
    (code : List ℕ) (start total at : ℕ)
    → start + total ≤ length code
    → at ≤ start + total
    → package_from code start total at ≡ read (record { start = at; end = start + total }) at
unfolding package_from
package_from-fits code start total at h k = ground arith

package_length-length_encoded :
    (code : List ℕ) (at follow total lead : ℕ) (rest : List ℕ)
    → lead ≡ suc follow * 64 + total % 16
    → drop at code ≡ length_bytes (suc follow) (total / 16) ++ rest
    → suc follow ≤ 3
    → total < length_limit (suc follow)
    → package_length code lead at ≡ read total (at + suc follow)
unfolding package_length
package_length-length_encoded code at follow total lead rest e h three fits =
    let count : lead / 2 ^ 6 ≡ suc follow = omega arith in
    let low : bit_and lead 0x0F ≡ total % 16 = bit_and_mask 4 lead ∙ omega arith in
    let some_follow : (suc follow == 0) ≡ false = ground arith in
    let whole : total % 16 + total / 16 * 2 ^ (4 + 8 * 0) ≡ total = omega arith in
    rw (count, low, some_follow)
      (follow_bytes-length_bytes code (suc follow) 0 (total % 16) (total / 16) at rest h
          (omega arith) (omega arith)
        ∙ rw whole refl)

-- A package length that a table writes, in one byte or with up to three following ones, reads back:
-- the span begins behind it and ends where the length says.
pub package-length_encoded :
    (code : List ℕ) (at follow total : ℕ) (rest : List ℕ)
    → drop at code ≡ length_encoded follow total ++ rest
    → follow ≤ 3
    → total < length_limit follow
    → follow < total
    → at + total ≤ length code
    → package_span code at
      ≡ read (record { start = at + 1 + follow; end = at + total }) (at + 1 + follow)
unfolding package_span package_length package_from
package-length_encoded code at zero total rest h three fits long inside =
    let (one, behind) = byte-drop code at total rest h in
    let low : bit_and total 0x3F ≡ total = bit_and_mask 6 total ∙ omega arith in
    let alone : (total / 2 ^ 6 == 0) ≡ true = ground arith in
    let none_more : at + 1 + 0 ≡ at + 1 = omega arith in
    rw (one, alone, low, none_more) (package_from-fits code at total (at + 1) inside (omega arith))
package-length_encoded code at (suc follow) total rest h three fits long inside =
    let lead = suc follow * 64 + total % 16 in
    let (one, behind) = byte-drop code at lead (length_bytes (suc follow) (total / 16) ++ rest) h in
    rw
      (
        one,
        package_length-length_encoded code (at + 1) follow total lead rest refl behind three fits,
      )
      (package_from-fits code at total (at + 1 + suc follow) inside (omega arith))
