-- ===== src/Aml/Walk/Leaves.antt =====
-- The objects that a walk steps over.
use nanochronometer.Common.{ℕ, ◌+◌, ◌≤◌, ◌<◌, arith, Bool, List, length, if◌then◌else◌}
use nanochronometer.Aml.Cursor.{Reader, ◌>>◌}
use nanochronometer.Aml.Cursor.Within.{Within, From, Within-weaken, holds, Within-bind}
use nanochronometer.Aml.Data.Bounds.{parse_data-Within}
use nanochronometer.Aml.Skip.{skip_term_arg, skip_data}
use nanochronometer.Aml.Skip.Bounds.{Steps, skip_term_arg-Within}
use nanochronometer.Aml.Statements.{skip_name, skip_byte, skip_package}
use nanochronometer.Aml.Statements.Bounds.{
  Keeps, Keeps-then, Keeps-branch, Steps-Keeps, skip_name-Keeps, skip_byte-Keeps,
  skip_package-Keeps, fail-Keeps, statement_behind-Keeps,
}
use nanochronometer.Aml.Walk.{leaf_extended, leaf_object}

module _ (code : List ℕ) (fuel low : ℕ) (enough : length code < low + fuel) where
  terms : Steps code 0 low (skip_term_arg code fuel)
  terms at h u = skip_term_arg-Within code 0 fuel at (omega arith) (omega arith) u

  term_keeps : Keeps code 0 low (skip_term_arg code fuel)
  term_keeps = Steps-Keeps code 0 low (skip_term_arg code fuel) terms

  data_keeps : Keeps code 0 low (skip_data code fuel)
  data_keeps at h l u =
      Within-bind (parse_data-Within code 0 fuel at (omega arith) l u)
        λ _ at₁ (_, p) l₁ u₁. holds (omega arith) l₁ u₁

  next :
      (m n : Reader (Unit {0}))
      → Keeps code 0 low m
      → Keeps code 0 low n
      → Keeps code 0 low (m >> n)
  next = Keeps-then code 0 low

  either :
      (b : Bool) (m n : Reader (Unit {0}))
      → Keeps code 0 low m
      → Keeps code 0 low n
      → Keeps code 0 low (if b then m else n)
  either = Keeps-branch code 0 low

  named : Keeps code 0 low (skip_name code)
  named = skip_name-Keeps code 0 low

  one_byte : Keeps code 0 low (skip_byte code)
  one_byte = skip_byte-Keeps code 0 low

  packaged : Keeps code 0 low (skip_package code)
  packaged = skip_package-Keeps code 0 low

  leaf_extended-Keeps : (extended : ℕ) → Keeps code 0 low (leaf_extended code fuel extended)
  unfolding leaf_extended
  leaf_extended-Keeps extended =
      either _ _ _ (next _ _ named (next _ _ one_byte (next _ _ term_keeps term_keeps))) (
        either _ _ _ packaged (
          either _ _ _ (next _ _ named one_byte) (
            either _ _ _ named (
              either _ _ _ (next _ _ term_keeps (next _ _ term_keeps (next _ _ term_keeps named)))
                (fail-Keeps code 0 low)))))

  leaf_object-Keeps : (opcode : ℕ) → Keeps code 0 low (leaf_object code fuel opcode)
  unfolding leaf_object
  leaf_object-Keeps opcode = either _ _ _ packaged (
      either _ _ _ (next _ _ named data_keeps) (
        either _ _ _ (next _ _ named named) (
          either _ _ _ (next _ _ named (next _ _ one_byte one_byte)) (
            either _ _ _ (next _ _ term_keeps (next _ _ term_keeps named)) (
              either _ _ _ (λ at h l u. holds (omega arith) l u)
                (statement_behind-Keeps code 0 low (skip_term_arg code fuel) terms opcode))))))

  pub leaf_extended-Within :
      (extended at : ℕ)
      → low ≤ at
      → at ≤ length code
      → Within (From low) 0 (length code) (leaf_extended code fuel extended at)
  leaf_extended-Within extended at l u =
      Within-weaken 0 (leaf_extended-Keeps extended at l (omega arith) u) (omega arith)
        λ _ at' p _ _. omega arith

  pub leaf_object-Within :
      (opcode at : ℕ)
      → low ≤ at
      → at ≤ length code
      → Within (From low) 0 (length code) (leaf_object code fuel opcode at)
  leaf_object-Within opcode at l u =
      Within-weaken 0 (leaf_object-Keeps opcode at l (omega arith) u) (omega arith)
        λ _ at' p _ _. omega arith
