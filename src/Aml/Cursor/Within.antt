-- ===== src/Aml/Cursor/Within.antt =====
-- Where a read leaves the cursor: at or behind `start` and within the bytecode, whether it succeeds
-- or fails, and it does not run out of fuel. A successful one has the property `P` of its answer
-- and its position.
use nanochronometer.Common.{
  ℕ, zero, suc, ◌+◌, ◌≤◌, ◌<◌, ◌≡◌, ◌≢◌, refl, arith, Bool, true, false, List, [], ◌∷◌, length,
  length-drop, get_elem?, get_elem?-lt, drop, not, ◌&&◌, ◌||◌, ◌/◌, ◌^◌, inl, inr, Option-cases,
  if◌then◌else◌, ltb, ◌==◌,
}
use nanochronometer.Aml.Names.{NamePath, root, push_segment}
use nanochronometer.Aml.Names.Printed.{IsPath, root-IsPath, push_segment-IsPath}
use nanochronometer.Aml.Cursor.{
  Read, Reader, read, failed, out_of_fuel, bind, peek, byte, take_bytes, integer, follow_bytes,
  package_length, package_from, package_span, prefix, segment, segments_of, name_body, name, carets,
}

pub data Within {ℓ κ} {A : Type ℓ} (P : A → ℕ → Type κ) (start high : ℕ)
    : Read A → Type (ℓ ⊔ κ) where
  holds : {a : A} {at : ℕ} → P a at → start ≤ at → at ≤ high → Within P start high (read a at)
  stops : {at : ℕ} → start ≤ at → at ≤ high → Within P start high (failed at)

-- The cursor has come to `least`.
abbrev pub From {ℓ} : {A : Type ℓ} → ℕ → A → ℕ → Type 0
From least a at = least ≤ at

module _ {ℓ κ} {A : Type ℓ} {P : A → ℕ → Type κ} {start high : ℕ} where
  pub Within-ne-out_of_fuel : {r : Read A} → Within P start high r → r ≢ out_of_fuel
  Within-ne-out_of_fuel (holds p l u) = cc
  Within-ne-out_of_fuel (stops l u) = cc

  pub Within-bind {ℓ' κ'} :
      {B : Type ℓ'} {Q : B → ℕ → Type κ'} {r : Read A} {f : A → Reader B}
      → Within P start high r
      → ((a : A) (at : ℕ) → P a at → start ≤ at → at ≤ high → Within Q start high (f a at))
      → Within Q start high (bind r f)
  Within-bind (holds {a} {at} p l u) k = k a at p l u
  Within-bind (stops l u) k = stops l u

  pub Within-if :
      (b : Bool) {x y : Read A}
      → (b ≡ true → Within P start high x)
      → (b ≡ false → Within P start high y)
      → Within P start high (if b then x else y)
  Within-if true hx hy = hx refl
  Within-if false hx hy = hy refl

  -- The same where the branches are readers.
  pub Within-branch :
      (b : Bool) (m n : Reader A) {at : ℕ}
      → (b ≡ true → Within P start high (m at))
      → (b ≡ false → Within P start high (n at))
      → Within P start high ((if b then m else n) at)
  Within-branch true m n hm hn = hm refl
  Within-branch false m n hm hn = hn refl

  pub Within-weaken {κ'} :
      {Q : A → ℕ → Type κ'} {r : Read A} (start' : ℕ)
      → Within P start high r
      → start' ≤ start
      → ((a : A) (at : ℕ) → P a at → start ≤ at → at ≤ high → Q a at)
      → Within Q start' high r
  Within-weaken start' (holds {a} {at} p l u) le f = holds (f a at p l u) (omega arith) u
  Within-weaken start' (stops l u) le f = stops (omega arith) u

length-carets : (text : List ℕ) → carets text ≤ length text
length-carets [] = omega arith
length-carets (byte ∷ later) = ground (arith, length-carets later)

module _ (code : List ℕ) (start : ℕ) where
  -- A byte stands at the cursor, which does not move.
  pub peek-Within :
      (at : ℕ)
      → start ≤ at
      → at ≤ length code
      → Within (λ _ at'. (at' ≡ at) × (at < length code)) start (length code) (peek code at)
  peek-Within at l u = elim (Option-cases (get_elem? code at)) [
    | inl none_there ↦ rw none_there (stops l u)
    | inr (b, there) ↦ rw there (holds (refl, get_elem?-lt code at b there) l u)
  ]

  pub byte-Within :
      (at : ℕ)
      → start ≤ at
      → at ≤ length code
      → Within (From (at + 1)) start (length code) (byte code at)
  byte-Within at l u =
      Within-bind (peek-Within at l u)
        λ b at' (same, low) l' u'. holds (omega arith) (omega arith) (omega arith)

  pub take_bytes-Within :
      (count at : ℕ)
      → start ≤ at
      → at ≤ length code
      → Within (From (at + count)) start (length code) (take_bytes code count at)
  unfolding take_bytes
  take_bytes-Within count at l u =
      Within-if (ltb (length code) (at + count)) (λ short. stops l u)
        λ fits. holds (omega arith) (omega arith) (ground arith)

  pub integer-Within :
      (bytes at : ℕ)
      → start ≤ at
      → at ≤ length code
      → Within (From (at + bytes)) start (length code) (integer code bytes at)
  unfolding integer
  integer-Within bytes at l u =
      Within-bind (take_bytes-Within bytes at l u) λ slice at' p l' u'. holds p l' u'

  follow_bytes-Within :
      (left i value at : ℕ)
      → start ≤ at
      → at ≤ length code
      → Within (From at) start (length code) (follow_bytes code left i value at)
  unfolding follow_bytes
  follow_bytes-Within zero i value at l u = holds (omega arith) l u
  follow_bytes-Within (suc left) i value at l u = Within-bind (byte-Within at l u) λ b at' p l' u'.
      Within-weaken start (follow_bytes-Within left (i + 1) _ at' l' u') (omega arith)
        λ _ at'' q _ _. omega arith

  package_length-Within :
      (lead at : ℕ)
      → start ≤ at
      → at ≤ length code
      → Within (From at) start (length code) (package_length code lead at)
  unfolding package_length
  package_length-Within lead at l u =
      Within-branch (lead / 2 ^ 6 == 0) _ _ (λ _. holds (omega arith) l u)
        λ _. follow_bytes-Within (lead / 2 ^ 6) 0 _ at l u

  -- A package's span begins at the cursor, behind the length, and ends within the bytecode.
  pub package-Within :
      (at : ℕ)
      → start ≤ at
      → at ≤ length code
      → Within
          (λ span at'.
            (at + 1 ≤ at') × (span.start ≡ at') × (at' ≤ span.end) × (span.end ≤ length code))
          start
          (length code)
          (package_span code at)
  unfolding package_span package_from
  package-Within at l u = Within-bind (byte-Within at l u) λ lead at₁ p₁ l₁ u₁.
      Within-bind (package_length-Within lead at₁ l₁ u₁) λ total at₂ p₂ l₂ u₂.
        Within-if (ltb (length code) (at + total) || ltb (at + total) at₂) (λ _. stops l₂ u₂)
          λ fits. holds (omega arith, refl, ground arith, ground arith) l₂ u₂

  prefix-Within :
      (lead at : ℕ)
      → start ≤ at
      → at < length code
      → Within (From at) start (length code) (prefix code lead at)
  unfolding prefix
  prefix-Within lead at l u =
      Within-if (lead == b'\\') (λ _. holds (omega arith) (omega arith) (omega arith))
        λ _.
          Within-if (lead == b'^')
            (λ _.
              holds (omega arith) (omega arith)
                (omega (arith, length-carets (drop at code), length-drop at code)))
            λ _. holds (omega arith) l (omega arith)

  segment-Within :
      (checked : Bool) (path : NamePath) (at : ℕ)
      → IsPath path
      → start ≤ at
      → at ≤ length code
      → Within
          (λ path' at'. IsPath path' × (at + 4 ≤ at'))
          start
          (length code)
          (segment code checked path at)
  unfolding segment
  segment-Within checked path at inv l u =
      Within-bind (take_bytes-Within 4 at l u) λ seg at' p l' u'.
        Within-branch (checked && not (push_segment path seg).1) _ _ (λ _. stops l' u')
          λ _. holds (push_segment-IsPath path seg inv, p) l' u'

  segments_of-Within :
      (checked : Bool) (count : ℕ) (path : NamePath) (at : ℕ)
      → IsPath path
      → start ≤ at
      → at ≤ length code
      → Within
          (λ path' at'. IsPath path' × (at ≤ at'))
          start
          (length code)
          (segments_of code checked count path at)
  unfolding segments_of
  segments_of-Within checked zero path at inv l u = holds (inv, omega arith) l u
  segments_of-Within checked (suc count) path at inv l u =
      Within-bind (segment-Within checked path at inv l u) λ longer at' (inv', p) l' u'.
        Within-weaken start (segments_of-Within checked count longer at' inv' l' u') (omega arith)
          λ _ at'' (i, q) _ _. (i, omega arith)

  name_body-Within :
      (lead at : ℕ)
      → start ≤ at
      → at < length code
      → Within
          (λ path at'. IsPath path × (at + 1 ≤ at'))
          start
          (length code)
          (name_body code lead at)
  unfolding name_body
  name_body-Within lead at l u =
      Within-branch (lead == 0x00) _ _
        (λ _. holds (root-IsPath, omega arith) (omega arith) (omega arith))
        λ _.
          Within-branch (lead == 0x2E) _ _
            (λ _. segments_of-Within false 2 root (at + 1) root-IsPath (omega arith) (omega arith))
            λ _.
              Within-branch (lead == 0x2F) _ _
                (λ _.
                  Within-bind (byte-Within (at + 1) (omega arith) (omega arith))
                    λ count at' p l' u'.
                      Within-weaken start (segments_of-Within true count root at' root-IsPath l' u')
                        (omega arith) λ _ at'' (i, q) _ _. (i, omega arith))
                λ _.
                  Within-weaken start (segment-Within false root at root-IsPath l (omega arith))
                    (omega arith) λ _ at'' (i, q) _ _. (i, omega arith)

  -- A name takes at least its first byte, and its path keeps to the eight segments.
  pub name-Within :
      (at : ℕ)
      → start ≤ at
      → at ≤ length code
      → Within (λ answer at'. IsPath answer.0 × (at + 1 ≤ at')) start (length code) (name code at)
  unfolding name
  name-Within at l u = Within-bind (peek-Within at l u) λ first at₁ (e₁, h₁) l₁ u₁.
      Within-bind (prefix-Within first at₁ l₁ (omega arith)) λ absolute at₂ p₂ l₂ u₂.
        Within-bind (peek-Within at₂ l₂ u₂) λ second at₃ (e₃, h₃) l₃ u₃.
          Within-bind (name_body-Within second at₃ l₃ (omega arith))
            λ path at₄ (i, p) l₄ u₄. holds (i, omega arith) l₄ u₄
