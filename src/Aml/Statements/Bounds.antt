-- ===== src/Aml/Statements/Bounds.antt =====
-- Stepping over a declaration or a statement ends and does not move the cursor back.
use nanochronometer.Common.{
  ℕ, ◌+◌, ◌≤◌, ◌<◌, arith, Bool, List, Option, none, some, length, if◌then◌else◌,
}
use nanochronometer.Aml.Cursor.{Read, Reader, ◌>>=◌, ◌>>◌, byte}
use nanochronometer.Aml.Cursor.Within.{
  Within, holds, stops, From, Within-bind, Within-branch, Within-weaken, byte-Within, name-Within,
  package-Within,
}
use nanochronometer.Aml.Skip.{arity, skip_operands, skip_term_arg}
use nanochronometer.Aml.Skip.Bounds.{Steps, skip_operands-Within, skip_term_arg-Within}
use nanochronometer.Aml.Statements.{
  skip_name, skip_byte, skip_package, skip_extended_object, object_behind, skip_extended_statement,
  statement_behind, skip_object, skip_statement,
}

module _ (code : List ℕ) (start low : ℕ) where
  -- A reader that from any place behind `low` keeps to the bytecode and does not move back.
  abbrev pub Keeps : Reader (Unit {0}) → Type 0
  Keeps m =
      (at : ℕ)
      → low ≤ at
      → start ≤ at
      → at ≤ length code
      → Within (From at) start (length code) (m at)

  pub Keeps-then : (m n : Reader (Unit {0})) → Keeps m → Keeps n → Keeps (m >> n)
  Keeps-then m n hm hn at h l u = Within-bind (hm at h l u) λ _ at₁ p₁ l₁ u₁.
      Within-weaken start (hn at₁ (omega arith) l₁ u₁) (omega arith) λ _ at₂ q _ _. omega arith

  pub Steps-Keeps : (m : Reader (Unit {0})) → Steps code start low m → Keeps m
  Steps-Keeps m steps at h l u =
      Within-weaken start (steps at h u) (omega arith) λ _ at₁ p _ _. omega arith

  pub skip_name-Keeps : Keeps (skip_name code)
  skip_name-Keeps at h l u =
      Within-bind (name-Within code start at l u) λ _ at₁ (_, p) l₁ u₁. holds (omega arith) l₁ u₁

  pub skip_byte-Keeps : Keeps (skip_byte code)
  skip_byte-Keeps at h l u =
      Within-bind (byte-Within code start at l u) λ _ at₁ p l₁ u₁. holds (omega arith) l₁ u₁

  pub skip_package-Keeps : Keeps (skip_package code)
  skip_package-Keeps at h l u =
      Within-bind (package-Within code start at l u)
        λ span at₁ (p, _, q, r) l₁ u₁. holds (omega arith) (omega arith) (omega arith)

  pub Keeps-branch :
      (b : Bool) (m n : Reader (Unit {0})) → Keeps m → Keeps n → Keeps (if b then m else n)
  Keeps-branch b m n hm hn at h l u = Within-branch b m n (λ _. hm at h l u) λ _. hn at h l u

  pub fail-Keeps : Keeps (λ at. Read.failed at)
  fail-Keeps at h l u = stops l u

  module _ (skip : Reader (Unit {0})) (steps : Steps code start low skip) where
    one : Keeps skip
    one = Steps-Keeps skip steps

    skip_extended_object-Keeps : (extended : ℕ) → Keeps (skip_extended_object code skip extended)
    unfolding skip_extended_object
    skip_extended_object-Keeps extended = Keeps-branch _ _ _ skip_package-Keeps (
        Keeps-branch _ _ _
          (Keeps-then _ _ skip_name-Keeps (Keeps-then _ _ skip_byte-Keeps (Keeps-then _ _ one one)))
          (Keeps-branch _ _ _ (Keeps-then _ _ skip_name-Keeps skip_byte-Keeps) (
            Keeps-branch _ _ _ skip_name-Keeps (
              Keeps-branch _ _ _
                (Keeps-then _ _ one (Keeps-then _ _ one (Keeps-then _ _ one skip_name-Keeps)))
                fail-Keeps))))

    extended_by-Keeps :
        (m : ℕ → Reader (Unit {0}))
        → ((extended : ℕ) → Keeps (m extended))
        → Keeps (byte code >>= m)
    extended_by-Keeps m keeps at h l u =
        Within-bind (byte-Within code start at l u) λ extended at₁ p₁ l₁ u₁.
          Within-weaken start (keeps extended at₁ (omega arith) l₁ u₁) (omega arith)
            λ _ at₂ q _ _. omega arith

    object_behind-Keeps : (opcode : ℕ) → Keeps (object_behind code skip opcode)
    unfolding object_behind
    object_behind-Keeps opcode = Keeps-branch _ _ _ skip_package-Keeps (
        Keeps-branch _ _ _ (Keeps-then _ _ skip_name-Keeps skip_name-Keeps) (
          Keeps-branch _ _ _
            (Keeps-then _ _ skip_name-Keeps (Keeps-then _ _ skip_byte-Keeps skip_byte-Keeps))
            (Keeps-branch _ _ _ (Keeps-then _ _ one (Keeps-then _ _ one skip_name-Keeps)) (
              Keeps-branch _ _ _ (λ at h l u. holds (omega arith) l u)
                (Keeps-branch _ _ _
                  (extended_by-Keeps (skip_extended_object code skip) skip_extended_object-Keeps)
                  fail-Keeps)))))

    skip_extended_statement-Keeps :
        (extended : ℕ) → Keeps (skip_extended_statement code skip extended)
    unfolding skip_extended_statement
    skip_extended_statement-Keeps extended = Keeps-branch _ _ _ one (
        Keeps-branch _ _ _ (Keeps-then _ _ one one) (
          Keeps-branch _ _ _
            (Keeps-then _ _ skip_byte-Keeps (
              Keeps-then _ _
                (Keeps-then _ _ skip_byte-Keeps (
                  Keeps-then _ _ skip_byte-Keeps (
                    Keeps-then _ _ skip_byte-Keeps
                      (Keeps-then _ _ skip_byte-Keeps λ at h l u. holds (omega arith) l u))))
                one))
            fail-Keeps))

    operator-Keeps :
        (o : Option (ℕ × Bool))
        → Keeps (elim o [
          | none ↦ (λ at. Read.failed at)
          | some (args, target) ↦ skip_operands code skip args target
        ])
    operator-Keeps none at h l u = stops l u
    operator-Keeps (some (args, target)) at h l u =
        skip_operands-Within code start skip args target at (λ at' q. steps at' (omega arith)) l u

    pub statement_behind-Keeps : (opcode : ℕ) → Keeps (statement_behind code skip opcode)
    unfolding statement_behind
    statement_behind-Keeps opcode =
        Keeps-branch _ _ _ (λ at h l u. holds (omega arith) l u)
          (Keeps-branch _ _ _ one (
            Keeps-branch _ _ _ (Keeps-then _ _ one one) (
              Keeps-branch _ _ _
                (extended_by-Keeps (skip_extended_statement code skip)
                  skip_extended_statement-Keeps)
                (operator-Keeps (arity opcode)))))

module _ (code : List ℕ) (start fuel low : ℕ) (enough : length code < low + fuel)
    (le : start ≤ low) where
  terms_step : Steps code start low (skip_term_arg code fuel)
  terms_step at h u = skip_term_arg-Within code start fuel at (omega arith) (omega arith) u

  -- With fuel above the number of bytes that are left, stepping over a declaration does not run out
  -- of it, and leaves the cursor at or behind its place, within the bytecode.
  pub skip_object-Within :
      (opcode : ℕ)
      → low ≤ length code
      → Within (From low) start (length code) (skip_object code fuel opcode low)
  skip_object-Within opcode u =
      object_behind-Keeps code start low (skip_term_arg code fuel) terms_step opcode low
        (omega arith) le u

  -- The same of a statement.
  pub skip_statement-Within :
      (opcode : ℕ)
      → low ≤ length code
      → Within (From low) start (length code) (skip_statement code fuel opcode low)
  skip_statement-Within opcode u =
      statement_behind-Keeps code start low (skip_term_arg code fuel) terms_step opcode low
        (omega arith) le u
