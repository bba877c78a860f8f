-- ===== src/Aml/Walk/Sound.antt =====
-- What a walk keeps: the parts of its proof that do not know the blocks.
use nanochronometer.Common.{
  ℕ, ◌+◌, ◌≤◌, ◌<◌, ◌≡◌, refl, arith, Bool, true, false, List, Option, none, some, length, ltb,
  ◌==◌, if◌then◌else◌, Bool-cases, inl, inr,
}
use nanochronometer.Aml.Op
use nanochronometer.Aml.Names.{Span, NamePath, NameSeg, root}
use nanochronometer.Aml.Names.Printed.{IsPath, root-IsPath}
use nanochronometer.Aml.Cursor.{Read, read, failed, out_of_fuel}
use nanochronometer.Aml.Cursor.Within.{Within, holds, stops, From, Within-weaken}
use nanochronometer.Aml.Skip.{skip_term_arg}
use nanochronometer.Aml.Skip.Bounds.{skip_term_arg-Within}
use nanochronometer.Aml.Devices.{AcpiDevice}
use nanochronometer.Aml.Walk.{
  Walked, walked, walk_out_of_fuel, enter, conditional_inner, after_block, after_read,
}
use nanochronometer.Aml.Walk.Scopes.{
  Extends, SameScope, SameScope-refl, SameScope-trans, enter-Extends,
}

-- A device that a walk shows: its path is one, and its body lies within the bytecode.
pub record IsDevice (high : ℕ) (device : AcpiDevice) : Type 0 where
  pub is_path : IsPath device.path
  pub start_le : device.body.start ≤ device.body.end
  pub end_le : device.body.end ≤ high

module _ {State : Type 0} (Q : State → Type 0) where
  -- The walk ended with the property, and where it is to go on, in the same scope.
  abbrev pub Sound : NamePath → Walked State → Type 0
  Sound scope (walked true scope' s) = SameScope scope scope' × Q s
  Sound scope (walked false scope' s) = Q s
  Sound scope walk_out_of_fuel = ⊥

  pub Sound-SameScope :
      (scope scope' : NamePath) (w : Walked State)
      → SameScope scope scope'
      → Sound scope' w
      → Sound scope w
  Sound-SameScope scope scope' (walked true scope'' s) same (h, q) =
      (SameScope-trans scope scope' scope'' same h, q)
  Sound-SameScope scope scope' (walked false scope'' s) same q = q
  Sound-SameScope scope scope' walk_out_of_fuel same h = h

  pub Sound-if :
      (b : Bool) (scope : NamePath) (x y : Walked State)
      → (b ≡ true → Sound scope x)
      → (b ≡ false → Sound scope y)
      → Sound scope (if b then x else y)
  Sound-if true scope x y hx hy = hx refl
  Sound-if false scope x y hx hy = hy refl

  pub after_read-Sound :
      {A : Type 0} {P : A → ℕ → Type 0} {start high : ℕ} {r : Read A} (rest : A → ℕ → Walked State)
      (scope : NamePath) (s : State)
      → IsPath scope
      → Q s
      → Within P start high r
      → ((a : A) (at : ℕ) → P a at → start ≤ at → at ≤ high → Sound scope (rest a at))
      → Sound scope (after_read scope s r rest)
  after_read-Sound rest scope s inv q (holds {a} {at} p l u) k = k a at p l u
  after_read-Sound rest scope s inv q (stops l u) k = (SameScope-refl scope inv, q)

  pub after_block-Sound :
      (rest : NamePath → State → Walked State) (scope entered : NamePath) (w : Walked State)
      → Sound entered w
      → ((scope' : NamePath) (s : State)
          → SameScope entered scope'
          → Q s
          → Sound scope (rest scope' s))
      → Sound scope (after_block w rest)
  after_block-Sound rest scope entered (walked true scope' s) (same, q) k = k scope' s same q
  after_block-Sound rest scope entered (walked false scope' s) q k = q
  after_block-Sound rest scope entered walk_out_of_fuel h k = elim h [ ]

pub chosen-IsPath :
    (absolute : Bool) (scope : NamePath) → IsPath scope → IsPath (if absolute then root else scope)
chosen-IsPath true scope inv = root-IsPath
chosen-IsPath false scope inv = inv

pub entered-Extends :
    (absolute : Bool) (scope : NamePath) (segs : List NameSeg)
    → IsPath scope
    → absolute ≡ false
    → Extends scope (enter (if absolute then root else scope) segs true).0
entered-Extends true scope segs inv e = cc
entered-Extends false scope segs inv e = enter-Extends scope segs true inv

-- The terms of a conditional begin within the bytecode, behind the place.
abbrev pub Begins : ℕ → ℕ → Option ℕ → Type 0
Begins low high none = Unit
Begins low high (some inner) = (low ≤ inner) × (inner ≤ high)

probe-Begins :
    (low high end : ℕ) (r : Read (Unit {0}))
    → Within (From low) 0 high r
    → Begins low high
        (elim r [ read _ probe ↦ if ltb end probe then none else some probe | _ ↦ none ])
probe-Begins low high end (read a probe) (holds p l u) = ground arith
probe-Begins low high end (failed at) h = tt
probe-Begins low high end out_of_fuel h = tt

pub conditional_inner-Begins :
    (code : List ℕ) (fuel opcode low : ℕ) (span : Span) (at : ℕ)
    → length code < at + fuel
    → low ≤ at
    → at ≤ length code
    → Begins low (length code) (conditional_inner code fuel opcode span at)
unfolding conditional_inner
conditional_inner-Begins code fuel opcode low span at f l u =
    elim (Bool-cases (opcode == Op.else_op)) [
      | inl plain ↦ rw plain (l, u)
      | inr tested ↦ rw tested (
          probe-Begins low (length code) span.end (skip_term_arg code fuel at) (
            Within-weaken 0 (skip_term_arg-Within code 0 fuel at f (omega arith) u) (omega arith)
              λ _ at' p _ _. omega arith))
    ]
