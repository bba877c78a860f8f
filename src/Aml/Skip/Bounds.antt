-- ===== src/Aml/Skip/Bounds.antt =====
-- Skipping a term ends and moves the cursor ahead within the bytecode.
use nanochronometer.Common.{
  get_elem?-lt, ℕ, zero, suc, ◌+◌, ◌≤◌, ◌<◌, arith, Bool, true, false, List, length, get_elem?,
  ◌==◌, if◌then◌else◌, Option-cases, inl, inr,
}
use nanochronometer.Aml.Op
use nanochronometer.Aml.Cursor.{Read, Reader, times}
use nanochronometer.Aml.Cursor.Within.{
  Within, holds, stops, From, Within-bind, Within-branch, Within-weaken, byte-Within, peek-Within,
  name-Within,
}
use nanochronometer.Aml.Data.Bounds.{parse_data-Within}
use nanochronometer.Aml.Skip.{
  arity, extended_arity, is_variable, starts_name, skip_call, skip_target, skip_operands,
  skip_timeout, skip_extended, skip_by, skip_data, skip_term_arg,
}

module _ (code : List ℕ) (start : ℕ) where
  -- A reader that from any place behind `low` keeps to the bytecode and moves ahead.
  abbrev pub Steps : ℕ → Reader (Unit {0}) → Type 0
  Steps low skip =
      (at : ℕ) → low ≤ at → at ≤ length code → Within (From (at + 1)) start (length code) (skip at)

  pub times-Within :
      (count : ℕ) (skip : Reader (Unit {0})) (at : ℕ)
      → Steps at skip
      → start ≤ at
      → at ≤ length code
      → Within (From at) start (length code) (times count skip at)
  times-Within zero skip at steps l u = holds (omega arith) l u
  times-Within (suc count) skip at steps l u =
      Within-bind (steps at (omega arith) u) λ _ at₁ p₁ l₁ u₁.
        Within-weaken start (times-Within count skip at₁ (λ at' q. steps at' (omega arith)) l₁ u₁)
          (omega arith) λ _ at₂ q _ _. omega arith

  pub skip_target-Within :
      (skip : Reader (Unit {0})) (at : ℕ)
      → Steps at skip
      → start ≤ at
      → at ≤ length code
      → Within (From (at + 1)) start (length code) (skip_target code skip at)
  unfolding skip_target
  skip_target-Within skip at steps l u =
      Within-bind (peek-Within code start at l u) λ opcode at₁ (p₁, h₁) l₁ u₁.
        Within-branch (opcode == Op.zero) _ _ (λ _. holds (omega arith) (omega arith) (omega arith))
          λ _.
            Within-branch (is_variable opcode) _ _
              (λ _. holds (omega arith) (omega arith) (omega arith))
              λ _.
                Within-weaken start (steps at₁ (omega arith) u₁) (omega arith)
                  λ _ at₂ q _ _. omega arith

  target-Within :
      (skip : Reader (Unit {0})) (target : Bool) (at : ℕ)
      → Steps at skip
      → start ≤ at
      → at ≤ length code
      → Within
          (From at)
          start
          (length code)
          ((if target then skip_target code skip else (λ at'. Read.read tt at')) at)
  target-Within skip true at steps l u =
      Within-weaken start (skip_target-Within skip at steps l u) (omega arith)
        λ _ at₁ p _ _. omega arith
  target-Within skip false at steps l u = holds (omega arith) l u

  pub skip_operands-Within :
      (skip : Reader (Unit {0})) (args : ℕ) (target : Bool) (at : ℕ)
      → Steps at skip
      → start ≤ at
      → at ≤ length code
      → Within (From at) start (length code) (skip_operands code skip args target at)
  skip_operands-Within skip args target at steps l u =
      Within-bind (times-Within args skip at steps l u) λ _ at₁ p₁ l₁ u₁.
        Within-weaken start (target-Within skip target at₁ (λ at' q. steps at' (omega arith)) l₁ u₁)
          (omega arith) λ _ at₂ q _ _. omega arith

  skip_call-Within :
      (skip : Reader (Unit {0})) (at : ℕ)
      → Steps (at + 1) skip
      → start ≤ at
      → at ≤ length code
      → Within (From (at + 1)) start (length code) (skip_call code skip at)
  unfolding skip_call
  skip_call-Within skip at steps l u =
      Within-bind (name-Within code start at l u) λ (path, absolute) at₁ (i₁, p₁) l₁ u₁.
        Within-weaken start (times-Within _ skip at₁ (λ at' q. steps at' (omega arith)) l₁ u₁)
          (omega arith) λ _ at₂ q _ _. omega arith

  skip_timeout-Within :
      (at : ℕ)
      → start ≤ at
      → at ≤ length code
      → Within (From at) start (length code) (skip_timeout code at)
  skip_timeout-Within at l u = Within-bind (byte-Within code start at l u) λ _ at₁ p₁ l₁ u₁.
      Within-bind (byte-Within code start at₁ l₁ u₁) λ _ at₂ p₂ l₂ u₂. holds (omega arith) l₂ u₂

  skip_extended-Within :
      (skip : Reader (Unit {0})) (at : ℕ)
      → Steps (at + 1) skip
      → start ≤ at
      → at ≤ length code
      → Within (From (at + 1)) start (length code) (skip_extended code skip at)
  unfolding skip_extended
  skip_extended-Within skip at steps l u = elim (Option-cases (get_elem? code (at + 1))) [
    | inl cut ↦ rw cut (stops l u)
    | inr (extended, there) ↦ elim (Option-cases (extended_arity extended)) [
      | inl unknown ↦ rw (there, unknown) (stops l u)
      | inr ((args, target), known) ↦
          let inside = get_elem?-lt code (at + 1) extended there in
          let at₀ = at + 2 in
          rw (there, known)
            (Within-bind
              (times-Within args skip at₀ (λ at' q. steps at' (omega arith)) (omega arith)
                (omega arith))
              λ _ at₁ p₁ l₁ u₁.
                Within-branch (extended == Op.ext_acquire) _ _
                  (λ _.
                    Within-weaken start (skip_timeout-Within at₁ l₁ u₁) (omega arith)
                      λ _ at₂ q _ _. omega arith)
                  λ _.
                    Within-weaken start
                      (target-Within skip target at₁ (λ at' q. steps at' (omega arith)) l₁ u₁)
                      (omega arith) λ _ at₂ q _ _. omega arith)
    ]
  ]

  pub skip_data-Within :
      (fuel at : ℕ)
      → length code < at + fuel
      → start ≤ at
      → at ≤ length code
      → Within (From (at + 1)) start (length code) (skip_data code fuel at)
  skip_data-Within fuel at f l u =
      Within-bind (parse_data-Within code start fuel at f l u) λ _ at₁ (_, p) l₁ u₁. holds p l₁ u₁

  skip_by-Within :
      (skip skip_datum : Reader (Unit {0})) (opcode at : ℕ)
      → Steps (at + 1) skip
      → Steps at skip_datum
      → start ≤ at
      → at < length code
      → Within (From (at + 1)) start (length code) (skip_by code skip skip_datum opcode at)
  unfolding skip_by
  skip_by-Within skip skip_datum opcode at steps datum l u =
      Within-branch (is_variable opcode) _ _ (λ _. holds (omega arith) (omega arith) (omega arith))
        λ _.
          Within-branch (opcode == Op.ext_prefix) _ _
            (λ _. skip_extended-Within skip at steps l (omega arith))
            λ _. elim (Option-cases (arity opcode)) [
              | inl none_known ↦ rw none_known (
                  Within-branch (starts_name opcode) _ _
                    (λ _. skip_call-Within skip at steps l (omega arith))
                    λ _. datum at (omega arith) (omega arith))
              | inr ((args, target), known) ↦
                  rw known (
                    skip_operands-Within skip args target (at + 1) steps (omega arith)
                      (omega arith))
            ]

  -- With fuel above the number of bytes that are left, skipping a term does not run out of it. It
  -- moves the cursor ahead by at least a byte where it succeeds, and never out of the bytecode nor
  -- behind its start.
  pub skip_term_arg-Within :
      (fuel at : ℕ)
      → length code < at + fuel
      → start ≤ at
      → at ≤ length code
      → Within (From (at + 1)) start (length code) (skip_term_arg code fuel at)
  unfolding skip_term_arg
  skip_term_arg-Within zero at f l u = absurd (omega arith)
  skip_term_arg-Within (suc fuel) at f l u =
      Within-bind (peek-Within code start at l u) λ opcode at₁ (p₁, h₁) l₁ u₁.
        Within-weaken start
          (skip_by-Within (skip_term_arg code fuel) (skip_data code (suc fuel)) opcode at₁
            (λ at' q u'. skip_term_arg-Within fuel at' (omega arith) (omega arith) u')
            (λ at' q u'. skip_data-Within (suc fuel) at' (omega arith) (omega arith) u') l₁
            (omega arith))
          (omega arith) λ _ at₂ q _ _. omega arith
