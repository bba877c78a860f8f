-- ===== src/Aml/Data/Bounds.antt =====
-- Reading a data object ends, moves the cursor ahead within the bytecode, and gives spans within it.
use nanochronometer.Common.{
  ℕ, zero, suc, ◌+◌, ◌≤◌, ◌<◌, ◌≡◌, arith, ◌||◌, List, [], ◌∷◌, some, length, length-drop, drop,
  ◌==◌, Option-cases, inl, inr,
}
use nanochronometer.Aml.Op
use nanochronometer.Aml.Cursor.{Reader}
use nanochronometer.Aml.Cursor.Within.{
  Within, holds, stops, Within-bind, Within-branch, Within-weaken, byte-Within, integer-Within,
  package-Within,
}
use nanochronometer.Aml.Data.{
  Value, uninitialised, integer_value, buffer_value, text_value, package_value, zero_index,
  string_data, number, buffer_data, package_data, data_behind, parse_data,
}

-- A value's bytes end within the bytecode.
abbrev pub Inside : ℕ → Value → Type 0
Inside high uninitialised = Unit
Inside high (integer_value n) = Unit
Inside high (buffer_value span) = span.end ≤ high
Inside high (text_value span) = (span.start ≤ span.end) × (span.end ≤ high)
Inside high (package_value span) = (span.start ≤ span.end) × (span.end ≤ high)

abbrev pub Object : ℕ → ℕ → Value → ℕ → Type 0
Object least high value at = Inside high value × (least ≤ at)

zero_index-lt : (text : List ℕ) (n : ℕ) → zero_index text ≡ some n → n < length text
zero_index-lt [] n h = cc
zero_index-lt (c ∷ cs) n h = elim (Option-cases (zero_index cs)) [
  | inl open_end ↦ ground (arith, open_end, h)
  | inr (m, there) ↦ ground (arith, zero_index-lt cs m there, there, h)
]

module _ (code : List ℕ) (start : ℕ) where
  string_data-Within :
      (at : ℕ)
      → start ≤ at
      → at ≤ length code
      → Within (Object at (length code)) start (length code) (string_data code at)
  string_data-Within at l u = elim (Option-cases (zero_index (drop at code))) [
    | inl open_end ↦ rw (string_data, open_end) (stops (omega arith) (omega arith))
    | inr (n, there) ↦
        let low = zero_index-lt (drop at code) n there in
        let size = length-drop at code in
        rw (string_data, there)
          (holds ((omega arith, omega arith), omega arith) (omega arith) (omega arith))
  ]

  number-Within :
      (width at : ℕ)
      → start ≤ at
      → at ≤ length code
      → Within (Object at (length code)) start (length code) (number code width at)
  number-Within width at l u =
      Within-bind (integer-Within code start width at l u)
        λ n at' p l' u'. holds (tt, omega arith) l' u'

  buffer_data-Within :
      (size : Reader Value) (at : ℕ)
      → ((at' : ℕ)
          → at ≤ at'
          → at' ≤ length code
          → Within (Object at' (length code)) start (length code) (size at'))
      → start ≤ at
      → at ≤ length code
      → Within (Object at (length code)) start (length code) (buffer_data code size at)
  buffer_data-Within size at sized l u =
      Within-bind (package-Within code start at l u) λ span at₁ (p₁, _, q₁, r₁) l₁ u₁.
        Within-bind (sized at₁ (omega arith) u₁)
          λ _ at₂ (_, p₂) l₂ u₂. holds (omega arith, omega arith) (omega arith) (omega arith)

  package_data-Within :
      (at : ℕ)
      → start ≤ at
      → at ≤ length code
      → Within (Object at (length code)) start (length code) (package_data code at)
  package_data-Within at l u =
      Within-bind (package-Within code start at l u) λ span at₁ (p₁, s₁, q₁, r₁) l₁ u₁.
        holds ((omega arith, omega arith), omega arith) (omega arith) (omega arith)

  data_behind-Within :
      (size : Reader Value) (opcode at : ℕ)
      → ((at' : ℕ)
          → at ≤ at'
          → at' ≤ length code
          → Within (Object at' (length code)) start (length code) (size at'))
      → start ≤ at
      → at ≤ length code
      → Within (Object at (length code)) start (length code) (data_behind code size opcode at)
  unfolding data_behind
  data_behind-Within size opcode at sized l u =
      Within-branch (opcode == Op.zero) _ _ (λ _. holds (tt, omega arith) l u)
        λ _.
          Within-branch (opcode == Op.one) _ _ (λ _. holds (tt, omega arith) l u)
            λ _.
              Within-branch (opcode == Op.ones) _ _ (λ _. holds (tt, omega arith) l u)
                λ _.
                  Within-branch (opcode == Op.byte_prefix) _ _ (λ _. number-Within 1 at l u)
                    λ _.
                      Within-branch (opcode == Op.word_prefix) _ _ (λ _. number-Within 2 at l u)
                        λ _.
                          Within-branch (opcode == Op.dword_prefix) _ _
                            (λ _. number-Within 4 at l u)
                            λ _.
                              Within-branch (opcode == Op.qword_prefix) _ _
                                (λ _. number-Within 8 at l u)
                                λ _.
                                  Within-branch (opcode == Op.string_prefix) _ _
                                    (λ _. string_data-Within at l u)
                                    λ _.
                                      Within-branch (opcode == Op.buffer) _ _
                                        (λ _. buffer_data-Within size at sized l u)
                                        λ _.
                                          Within-branch
                                            ((opcode == Op.package_op)
                                              || (opcode == Op.var_package))
                                            _ _ (λ _. package_data-Within at l u) λ _. stops l u

  -- With fuel above the number of bytes that are left, reading a data object does not run out of
  -- it. It moves the cursor ahead by at least a byte where it succeeds, and never out of the
  -- bytecode nor behind its start, and the spans of its value end within the bytecode.
  pub parse_data-Within :
      (fuel at : ℕ)
      → length code < at + fuel
      → start ≤ at
      → at ≤ length code
      → Within (Object (at + 1) (length code)) start (length code) (parse_data code fuel at)
  unfolding parse_data
  parse_data-Within zero at f l u = absurd (omega arith)
  parse_data-Within (suc fuel) at f l u =
      Within-bind (byte-Within code start at l u) λ opcode at₁ p₁ l₁ u₁.
        Within-weaken start
          (data_behind-Within (parse_data code fuel) opcode at₁
            (λ at' q u'.
              Within-weaken start (parse_data-Within fuel at' (omega arith) (omega arith) u')
                (omega arith) λ _ at'' (i, m) _ _. (i, omega arith))
            l₁ u₁)
          (omega arith) λ _ at'' (i, m) _ _. (i, omega arith)
