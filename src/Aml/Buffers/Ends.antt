-- ===== src/Aml/Buffers/Ends.antt =====
-- The visits to the declared buffers end.
use nanochronometer.Common.{
  ℕ, zero, suc, ◌+◌, ◌≤◌, ◌<◌, arith, Bool, not, List, Option, none, some, length, ltb, ◌==◌,
  Bool-cases, inl, inr,
}
use nanochronometer.Aml.Op
use nanochronometer.Aml.Cursor.{Read, read, failed, out_of_fuel}
use nanochronometer.Aml.Cursor.Within.{
  Within, holds, From, Within-bind, Within-branch, Within-weaken, byte-Within, name-Within,
}
use nanochronometer.Aml.Data.Bounds.{parse_data-Within}
use nanochronometer.Aml.Statements.Bounds.{skip_object-Within}
use nanochronometer.Aml.Devices.{AcpiDevice}
use nanochronometer.Aml.Buffers.{buffer_object, visit_next, visit_buffers, for_each_declared_buffer}

-- What a visitor keeps, the visits keep, and they have an answer.
abbrev pub Kept {ℓ} : {State : Type ℓ} → (State → Type 0) → Option State → Type 0
Kept Keeps none = ⊥
Kept Keeps (some s) = Keeps s

module _ (code : List ℕ) where
  buffer_object-Within :
      (fuel opcode at : ℕ)
      → length code < at + fuel
      → at ≤ length code
      → Within (From at) 0 (length code) (buffer_object code fuel opcode at)
  unfolding buffer_object
  buffer_object-Within fuel opcode at f u =
      Within-branch (not (opcode == Op.name)) _ _
        (λ _.
          Within-bind (skip_object-Within code 0 fuel at f (omega arith) opcode u)
            λ _ at₁ p₁ l₁ u₁. holds p₁ l₁ u₁)
        λ _.
          Within-bind (name-Within code 0 at (omega arith) u) λ (path, absolute) at₁ (_, p₁) l₁ u₁.
            Within-bind (parse_data-Within code 0 fuel at₁ (omega arith) l₁ u₁)
              λ value at₂ (i, p₂) l₂ u₂. holds (omega arith) l₂ u₂

  module _ {ℓ} {State : Type ℓ} (visit : State → List ℕ → State × Bool) (Keeps : State → Type 0)
      (keeps : (s : State) (bytes : List ℕ) → Keeps s → Keeps (visit s bytes).0) where
    visit_next-Kept :
        (at : ℕ) (r : Read (Option (Option (List ℕ)))) (s : State) (on : ℕ → State → Option State)
        → ((at' : ℕ) (s' : State)
            → at < at'
            → at' ≤ length code
            → Keeps s'
            → Kept Keeps (on at' s'))
        → Keeps s
        → Within (From (at + 1)) 0 (length code) r
        → Kept Keeps (visit_next code visit r s on)
    visit_next-Kept at (read none at') s on goes k (holds p l u) = goes at' s (omega arith) u k
    visit_next-Kept at (read (some none) at') s on goes k (holds p l u) = k
    visit_next-Kept at (read (some (some bytes)) at') s on goes k (holds p l u) =
        let shown = visit s bytes in
        let kept = keeps s bytes k in
        elim (Bool-cases (not shown.1)) [
          | inl stop ↦ rw stop kept
          | inr go ↦ rw go (goes at' shown.0 (omega arith) u kept)
        ]
    visit_next-Kept at (failed at') s on goes k w = k
    visit_next-Kept at out_of_fuel s on goes k w = elim w [ ]

    visit_buffers-Kept :
        (fuel end at : ℕ) (s : State)
        → length code < at + fuel
        → at ≤ length code
        → Keeps s
        → Kept Keeps (visit_buffers code visit fuel end at s)
    unfolding visit_buffers
    visit_buffers-Kept zero end at s f u k = absurd (omega arith)
    visit_buffers-Kept (suc fuel) end at s f u k = elim (Bool-cases (ltb at end)) [
      | inr over ↦ rw over k
      | inl more ↦ rw more (
          visit_next-Kept at _ s _
            (λ at' s' q u' k'. visit_buffers-Kept fuel end at' s' (omega arith) u' k') k
            (Within-bind (byte-Within code 0 at (omega arith) u) λ opcode at₁ p₁ l₁ u₁.
              Within-weaken 0 (buffer_object-Within (suc fuel) opcode at₁ (omega arith) u₁)
                (omega arith) λ _ at₂ p₂ _ _. omega arith))
    ]

    -- The visits to a device's declared buffers end, for a body that begins within the bytecode,
    -- and keep what the visitor keeps at every buffer.
    pub for_each_declared_buffer-Kept :
        (device : AcpiDevice) (s : State)
        → device.body.start ≤ length code
        → Keeps s
        → Kept Keeps (for_each_declared_buffer code visit device s)
    unfolding for_each_declared_buffer
    for_each_declared_buffer-Kept device s u k =
        visit_buffers-Kept (suc (length code)) device.body.end device.body.start s (omega arith) u k
