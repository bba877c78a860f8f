-- ===== src/Aml/Devices/Bounds.antt =====
-- Looking for a device's identifiers ends, and a table's code is what its header declares.
use nanochronometer.Common.{
  ℕ, zero, suc, ◌+◌, ◌≤◌, ◌<◌, ◌≡◌, refl, arith, Bool, true, false, List, Option, none, some,
  length, ltb, ◌==◌, if◌then◌else◌, Bool-cases, inl, inr,
}
use nanochronometer.Aml.Op
use nanochronometer.Aml.Names.{Span, NamePath, NameSeg, bytes_of}
use nanochronometer.Aml.Cursor.{Read, Reader, read, failed, out_of_fuel, lift}
use nanochronometer.Aml.Cursor.Within.{
  Within, holds, stops, From, Within-bind, Within-branch, Within-weaken, byte-Within, name-Within,
}
use nanochronometer.Aml.Ids.{HardwareId}
use nanochronometer.Aml.Data.{
  Value, uninitialised, integer_value, buffer_value, text_value, package_value,
}
use nanochronometer.Aml.Data.Bounds.{Inside, parse_data-Within}
use nanochronometer.Aml.Skip.{is_leaf}
use nanochronometer.Aml.Statements.Bounds.{skip_object-Within}
use nanochronometer.Aml.Devices.{
  optional, name_or_object, scan, name_value, plain_identifier, value_identifier, identifier,
  hid_name, cid_name, describe,
}

-- What a step found, if it found anything.
abbrev pub Answers : {A : Type 0} → (A → Type 0) → Option A → Type 0
Answers P none = Unit
Answers P (some answer) = P answer

pub chosen-Answers :
    {A : Type 0} (P : A → Type 0) (b : Bool) (answer : A)
    → P answer
    → Answers P (if b then some answer else none)
chosen-Answers P true answer i = i
chosen-Answers P false answer i = tt

pub optional-Within :
    {A : Type 0} {P : A → Type 0} {start high : ℕ} {r : Read A}
    → Within (λ a _. P a) start high r
    → Within (λ found _. Answers P found) start high (optional r)
optional-Within (holds p l u) = holds p l u
optional-Within (stops l u) = holds tt l u

abbrev Anything : HardwareId → Type 0
Anything id = Unit

lift-Within :
    {A : Type 0} {start high : ℕ} (at : ℕ) (o : Option A)
    → start ≤ at
    → at ≤ high
    → Within (From 0) start high (lift o at)
lift-Within at none l u = stops l u
lift-Within at (some a) l u = holds (omega arith) l u

module _ (code : List ℕ) where
  name_or_object-Within :
      (fuel : ℕ) (want : NameSeg) (opcode at : ℕ)
      → length code < at + fuel
      → at ≤ length code
      → Within
          (λ found at'. Answers (Inside (length code)) found × (at ≤ at'))
          0
          (length code)
          (name_or_object code fuel want opcode at)
  unfolding name_or_object
  name_or_object-Within fuel want opcode at f u =
      Within-branch (opcode == Op.name) _ _
        (λ _.
          Within-bind (name-Within code 0 at (omega arith) u) λ (path, absolute) at₁ (_, p₁) l₁ u₁.
            Within-bind (parse_data-Within code 0 fuel at₁ (omega arith) l₁ u₁)
              λ value at₂ (i, p₂) l₂ u₂.
                holds
                  (chosen-Answers (Inside (length code)) (is_leaf path want) value i, omega arith)
                  l₂ u₂)
        λ _.
          Within-bind (skip_object-Within code 0 fuel at f (omega arith) opcode u)
            λ _ at₁ p₁ l₁ u₁. holds (tt, p₁) l₁ u₁

  module _ {A : Type 0} (P : A → Type 0) (step : ℕ → ℕ → Reader (Option A)) where
    after_object :
        (fuel end at : ℕ) (r : Read (Option A))
        → ((at' : ℕ)
            → at < at'
            → at' ≤ length code
            → Within (λ answer _. P answer) 0 (length code) (scan code step fuel end at'))
        → Within (λ found at'. Answers P found × (at < at')) 0 (length code) r
        → Within
            (λ answer _. P answer)
            0
            (length code)
            (elim r [
              | read found at' ↦ elim found [
                | none ↦ scan code step fuel end at'
                | some answer ↦ read answer at'
              ]
              | failed at' ↦ failed at'
              | out_of_fuel ↦ out_of_fuel
            ])
    after_object fuel end at (read none at') goes (holds (m, p) l u) = goes at' p u
    after_object fuel end at (read (some answer) at') goes (holds (m, p) l u) = holds m l u
    after_object fuel end at (failed at') goes (stops l u) = stops l u
    after_object fuel end at out_of_fuel goes x = elim x [ ]

    -- A scan ends where its steps do not move the cursor back, and answers as they do.
    pub scan-Within :
        (fuel end at : ℕ)
        → ((fuel' opcode at' : ℕ)
            → length code < at' + fuel'
            → at' ≤ length code
            → Within
                (λ found at''. Answers P found × (at' ≤ at''))
                0
                (length code)
                (step fuel' opcode at'))
        → length code < at + fuel
        → at ≤ length code
        → Within (λ answer _. P answer) 0 (length code) (scan code step fuel end at)
    unfolding scan
    scan-Within zero end at steps f u = absurd (omega arith)
    scan-Within (suc fuel) end at steps f u = elim (Bool-cases (ltb at end)) [
      | inr over ↦ rw over (stops (omega arith) u)
      | inl more ↦ rw more (
          after_object fuel end at _ (λ at' q u'. scan-Within fuel end at' steps (omega arith) u')
            (Within-bind (byte-Within code 0 at (omega arith) u) λ opcode at₁ p₁ l₁ u₁.
              Within-weaken 0 (steps (suc fuel) opcode at₁ (omega arith) u₁) (omega arith)
                λ _ at₂ (m, q) _ _. (m, omega arith)))
    ]

  name_value-Within :
      (fuel end : ℕ) (want : NameSeg) (at : ℕ)
      → length code < at + fuel
      → at ≤ length code
      → Within
          (λ value _. Inside (length code) value)
          0
          (length code)
          (name_value code fuel end want at)
  unfolding name_value
  name_value-Within fuel end want at f u =
      scan-Within (Inside (length code)) (λ fuel'. name_or_object code fuel' want) fuel end at
        (λ fuel' opcode at' f' u'. name_or_object-Within fuel' want opcode at' f' u') f u

  plain_identifier-Within :
      (value : Value) (at : ℕ)
      → at ≤ length code
      → Within (From 0) 0 (length code) (plain_identifier code value at)
  unfolding plain_identifier
  plain_identifier-Within uninitialised at u = stops (omega arith) u
  plain_identifier-Within (integer_value n) at u = holds (omega arith) (omega arith) u
  plain_identifier-Within (buffer_value span) at u = stops (omega arith) u
  plain_identifier-Within (text_value span) at u =
      Within-bind (lift-Within at (bytes_of code span) (omega arith) u)
        λ bytes at₁ _ l u₁. holds (omega arith) l u₁
  plain_identifier-Within (package_value span) at u = stops (omega arith) u

  value_identifier-Within :
      (value : Value) (at : ℕ)
      → Inside (length code) value
      → at ≤ length code
      → Within (From 0) 0 (length code) (value_identifier code (suc (length code)) value at)
  unfolding value_identifier
  value_identifier-Within (package_value span) at (s, e) u =
      Within-bind (byte-Within code 0 span.start (omega arith) (omega arith)) λ _ at₁ p₁ l₁ u₁.
        Within-bind (parse_data-Within code 0 (suc (length code)) at₁ (omega arith) l₁ u₁)
          λ first at₂ _ l₂ u₂. plain_identifier-Within first at₂ u₂
  value_identifier-Within uninitialised at i u = plain_identifier-Within uninitialised at u
  value_identifier-Within (integer_value n) at i u = plain_identifier-Within (integer_value n) at u
  value_identifier-Within (buffer_value span) at i u =
      plain_identifier-Within (buffer_value span) at u
  value_identifier-Within (text_value span) at i u = plain_identifier-Within (text_value span) at u

  identifier-Within :
      (want : NameSeg) (body : Span)
      → body.start ≤ length code
      → Within (From 0) 0 (length code) (identifier code want body)
  unfolding identifier
  identifier-Within want body u =
      Within-bind (name_value-Within (suc (length code)) body.end want body.start (omega arith) u)
        λ value at i _ u'. value_identifier-Within value at i u'

  found_any :
      (want : NameSeg) (body : Span)
      → body.start ≤ length code
      → Within (λ id _. Anything id) 0 (length code) (identifier code want body)
  found_any want body u =
      Within-weaken 0 (identifier-Within want body u) (omega arith) λ _ _ _ _ _. tt

  -- Describing a device whose body begins within the bytecode ends, and gives a device of that
  -- path and body.
  pub describe-Within :
      (path : NamePath) (body : Span)
      → body.start ≤ length code
      → Within
          (λ device _. (device.path ≡ path) × (device.body ≡ body))
          0
          (length code)
          (describe code path body)
  unfolding describe
  describe-Within path body u =
      Within-bind (optional-Within {P = Anything} (found_any hid_name body u)) λ hid at₁ _ _ _.
        Within-bind (optional-Within {P = Anything} (found_any cid_name body u))
          λ cid at₂ _ l u'. holds (refl, refl) l u'
