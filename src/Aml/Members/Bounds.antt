-- ===== src/Aml/Members/Bounds.antt =====
-- Looking for a member ends, and what it finds begins within the bytecode.
use nanochronometer.Common.{
  ℕ, zero, suc, ◌+◌, ◌≤◌, ◌<◌, arith, Bool, false, List, [], ◌∷◌, Option, none, some, length, ◌==◌,
}
use nanochronometer.Aml.Op
use nanochronometer.Aml.Names.{Span, NameSeg}
use nanochronometer.Aml.Cursor.{Read, read, failed, out_of_fuel, bind}
use nanochronometer.Aml.Cursor.Within.{
  Within, holds, stops, From, Within-bind, Within-branch, Within-weaken, byte-Within, name-Within,
  package-Within,
}
use nanochronometer.Aml.Skip.{one_of, is_leaf}
use nanochronometer.Aml.Skip.Bounds.{skip_data-Within}
use nanochronometer.Aml.Statements.{skip_object, skip_statement}
use nanochronometer.Aml.Statements.Bounds.{skip_object-Within, skip_statement-Within}
use nanochronometer.Aml.Devices.Bounds.{Answers, chosen-Answers, optional-Within, scan-Within}
use nanochronometer.Aml.Walk.{conditional_inner}
use nanochronometer.Aml.Walk.Sound.{Begins, conditional_inner-Begins}
use nanochronometer.Aml.Members.{
  Member, name_at, method_of, conditionally, method_head, named_data, level_object, member_at_level,
  object_or_statement, search_from, conditional_member, deep_object, at_level_or, find_member,
  member,
}

-- A member's value or body begins within the bytecode, and a body ends there.
abbrev pub InCode : ℕ → Member → Type 0
InCode high (name_at at) = at ≤ high
InCode high (method_of body args) = (body.start ≤ high) × (body.end ≤ high)

abbrev Found : ℕ → Member × Bool → Type 0
Found high found = InCode high found.0

module _ (code : List ℕ) (want : NameSeg) where
  method_head-Within :
      (at : ℕ)
      → at ≤ length code
      → Within
          (λ found at'. Answers (InCode (length code)) found × (at ≤ at'))
          0
          (length code)
          (method_head code want at)
  method_head-Within at u =
      Within-bind (package-Within code 0 at (omega arith) u) λ span at₁ (p₁, _, q₁, r₁) l₁ u₁.
        Within-bind (name-Within code 0 at₁ l₁ u₁) λ (path, absolute) at₂ (_, p₂) l₂ u₂.
          Within-bind (byte-Within code 0 at₂ l₂ u₂) λ flags at₃ p₃ l₃ u₃.
            Within-branch (is_leaf path want) _ _ (λ _. holds ((u₃, r₁), omega arith) l₃ u₃)
              λ _. holds (tt, omega arith) (omega arith) r₁

  named_data-Within :
      (fuel at : ℕ)
      → length code < at + fuel
      → at ≤ length code
      → Within
          (λ found at'. Answers (InCode (length code)) found × (at ≤ at'))
          0
          (length code)
          (named_data code want fuel at)
  named_data-Within fuel at f u =
      Within-bind (name-Within code 0 at (omega arith) u) λ (path, absolute) at₁ (_, p₁) l₁ u₁.
        Within-bind (skip_data-Within code 0 fuel at₁ (omega arith) l₁ u₁) λ _ at₂ p₂ l₂ u₂.
          holds
            (
              chosen-Answers (InCode (length code)) (is_leaf path want) (name_at at₁) u₁,
              omega arith,
            )
            l₂ u₂

  level_object-Within :
      (fuel opcode at : ℕ)
      → length code < at + fuel
      → at ≤ length code
      → Within
          (λ found at'. Answers (InCode (length code)) found × (at ≤ at'))
          0
          (length code)
          (level_object code want fuel opcode at)
  unfolding level_object
  level_object-Within fuel opcode at f u =
      Within-branch (opcode == Op.name) _ _ (λ _. named_data-Within fuel at f u)
        λ _.
          Within-branch (opcode == Op.method) _ _ (λ _. method_head-Within at u)
            λ _.
              Within-bind (skip_object-Within code 0 fuel at f (omega arith) opcode u)
                λ _ at₁ p l₁ u₁. holds (tt, p) l₁ u₁

  member_at_level-Within :
      (span : Span)
      → span.start ≤ length code
      → Within
          (λ found _. InCode (length code) found)
          0
          (length code)
          (member_at_level code want span)
  unfolding member_at_level
  member_at_level-Within span u =
      scan-Within code (InCode (length code)) (level_object code want) (suc (length code)) span.end
        span.start level_object-Within (omega arith) u

  after_object_try :
      (fuel opcode at : ℕ) (r : Read (Unit {0}))
      → length code < at + fuel
      → Within (From at) at (length code) r
      → Within
          (λ found at'. Answers (Found (length code)) found × (at ≤ at'))
          0
          (length code)
          (elim r [
            | read _ at' ↦ read none at'
            | failed at' ↦ bind (skip_statement code fuel opcode at') λ _ at''. read none at''
            | out_of_fuel ↦ out_of_fuel
          ])
  after_object_try fuel opcode at (read a at') f (holds p l u) = holds (tt, p) (omega arith) u
  after_object_try fuel opcode at (failed at') f (stops l u) =
      Within-bind (skip_statement-Within code 0 fuel at' (omega arith) (omega arith) opcode u)
        λ _ at'' p l' u'. holds (tt, omega arith) l' u'
  after_object_try fuel opcode at out_of_fuel f h = elim h [ ]

  object_or_statement-Within :
      (fuel opcode at : ℕ)
      → length code < at + fuel
      → at ≤ length code
      → Within
          (λ found at'. Answers (Found (length code)) found × (at ≤ at'))
          0
          (length code)
          (object_or_statement code want fuel opcode at)
  object_or_statement-Within fuel opcode at f u =
      after_object_try fuel opcode at (skip_object code fuel opcode at) f
        (skip_object-Within code at fuel at f (omega arith) opcode u)

  conditionally-Answers :
      (found : Option (Member × Bool))
      → Answers (Found (length code)) found
      → Answers (Found (length code)) (conditionally found)
  conditionally-Answers none h = tt
  conditionally-Answers (some (m, b)) h = h

  -- What a search within a conditional is to be.
  abbrev Searches : (Span → Read (Member × Bool)) → Type 0
  Searches inside =
      (span : Span)
      → span.start ≤ length code
      → Within (λ found _. Found (length code) found) 0 (length code) (inside span)

  module _ (inside : Span → Read (Member × Bool)) (searches : Searches inside) where
    found_inside-Within :
        (o : Option ℕ) (at low end : ℕ)
        → Begins low (length code) o
        → at ≤ end
        → end ≤ length code
        → Within
            (λ found at'. Answers (Found (length code)) found × (at ≤ at'))
            0
            (length code)
            (search_from code want inside end o at)
    found_inside-Within none at low end b le e = holds (tt, le) (omega arith) e
    found_inside-Within (some inner) at low end (b₁, b₂) le e =
        Within-bind (optional-Within (searches (record { start = inner; end = end }) b₂))
          λ found at₁ m l₁ u₁. holds (conditionally-Answers found m, le) (omega arith) e

    conditional_member-Within :
        (fuel opcode at : ℕ)
        → length code < at + fuel
        → at ≤ length code
        → Within
            (λ found at'. Answers (Found (length code)) found × (at ≤ at'))
            0
            (length code)
            (conditional_member code want inside fuel opcode at)
    conditional_member-Within fuel opcode at f u =
        Within-bind (package-Within code 0 at (omega arith) u) λ span at₁ (p₁, _, q₁, r₁) l₁ u₁.
          Within-weaken 0
            (found_inside-Within (conditional_inner code fuel opcode span at₁) at₁ 0 span.end
              (conditional_inner-Begins code fuel opcode 0 span at₁ (omega arith) (omega arith) u₁)
              q₁ r₁)
            (omega arith) λ _ at₂ (m, q) _ _. (m, omega arith)

    deep_object-Within :
        (fuel opcode at : ℕ)
        → length code < at + fuel
        → at ≤ length code
        → Within
            (λ found at'. Answers (Found (length code)) found × (at ≤ at'))
            0
            (length code)
            (deep_object code want inside fuel opcode at)
    unfolding deep_object
    deep_object-Within fuel opcode at f u =
        Within-branch (one_of opcode (Op.if_op ∷ Op.else_op ∷ [])) _ _
          (λ _. conditional_member-Within fuel opcode at f u)
          λ _.
            Within-branch (opcode == Op.name) _ _
              (λ _. Within-bind (name-Within code 0 at (omega arith) u) λ _ at₁ (_, p₁) l₁ u₁.
                Within-bind (skip_data-Within code 0 fuel at₁ (omega arith) l₁ u₁)
                  λ _ at₂ p₂ l₂ u₂. holds (tt, omega arith) l₂ u₂)
              λ _. object_or_statement-Within fuel opcode at f u

  at_level_or-Within :
      (span : Span) (deeper : Read (Member × Bool))
      → span.start ≤ length code
      → Within (λ found _. Found (length code) found) 0 (length code) deeper
      → Within
          (λ found _. Found (length code) found)
          0
          (length code)
          (at_level_or code want span deeper)
  at_level_or-Within span deeper u d =
      Within-bind (optional-Within (member_at_level-Within span u))
        λ found at₁ m l₁ u₁. chosen found at₁ m l₁ u₁
    where
      chosen :
          (found : Option Member) (at : ℕ)
          → Answers (InCode (length code)) found
          → 0 ≤ at
          → at ≤ length code
          → Within
              (λ answer _. Found (length code) answer)
              0
              (length code)
              (elim found [ none ↦ deeper | some member ↦ read (member, false) at ])
      chosen none at m l u = d
      chosen (some member) at m l u = holds m l u

  -- Looking for a member, in a body that begins within the bytecode and down to any depth of
  -- conditionals, ends; a member that is found has its value, or the start and the end of its
  -- method's body, within the bytecode.
  pub find_member-Within :
      (depth : ℕ) (span : Span)
      → span.start ≤ length code
      → Within
          (λ found _. InCode (length code) found.0)
          0
          (length code)
          (find_member code want depth span)
  unfolding find_member
  find_member-Within zero span u =
      at_level_or-Within span (failed span.start) u (stops (omega arith) u)
  find_member-Within (suc depth) span u = at_level_or-Within span _ u (
      scan-Within code (Found (length code)) (deep_object code want (find_member code want depth))
        (suc (length code)) span.end span.start
        (deep_object-Within (find_member code want depth) (find_member-Within depth)) (omega arith)
        u)
