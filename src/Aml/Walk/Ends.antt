-- ===== src/Aml/Walk/Ends.antt =====
-- The walk over the namespace ends, keeps what its visitor keeps, and gives the scope back as it
-- was.
use nanochronometer.Common.{
  ℕ, zero, suc, ◌+◌, ◌≤◌, ◌<◌, ◌≡◌, refl, arith, Bool, true, false, not, List, Option, none, some,
  length, ltb, ◌==◌, if◌then◌else◌, Bool-cases, inl, inr,
}
use nanochronometer.Aml.Op
use nanochronometer.Aml.Names.{Span, NamePath, root, segments}
use nanochronometer.Aml.Names.Printed.{IsPath, root-IsPath}
use nanochronometer.Aml.Cursor.{Read}
use nanochronometer.Aml.Cursor.Within.{
  Within, holds, From, Within-bind, byte-Within, name-Within, package-Within,
}
use nanochronometer.Aml.Skip.{table_header}
use nanochronometer.Aml.Walk.Leaves.{leaf_extended-Within, leaf_object-Within}
use nanochronometer.Aml.Devices.{AcpiDevice}
use nanochronometer.Aml.Devices.Bounds.{describe-Within}
use nanochronometer.Aml.Walk.{
  Walked, walked, walk_out_of_fuel, Header, header, enter, leave, conditional_inner, after_block,
  after_read, block, visited, own_bytes, scope_block, named_block, conditional, extended_block,
  round, walk, keep_first, find_device, walk_all,
}
use nanochronometer.Aml.Walk.Scopes.{SameScope-refl, enter-Extends, leave-SameScope}
use nanochronometer.Aml.Walk.Sound.{
  IsDevice, Sound, Sound-SameScope, Sound-if, after_read-Sound, after_block-Sound, Begins,
  conditional_inner-Begins, entered-Extends, chosen-IsPath,
}

module _ {State : Type 0} (Q : State → Type 0) (code : List ℕ)
    (visit : State → AcpiDevice → State × Bool)
    (kept : (s : State) (device : AcpiDevice)
      → Q s
      → IsDevice (length code) device
      → Q (visit s device).0) where
  -- A walk from any place at or behind `low` ends, with the property and the scope kept.
  abbrev Sounds : ℕ → (ℕ → NamePath → State → Walked State) → Type 0
  Sounds low on =
      (at : ℕ) (scope : NamePath) (s : State)
      → low ≤ at
      → at ≤ length code
      → IsPath scope
      → Q s
      → Sound Q scope (on at scope s)

  module _ (fuel low : ℕ) (on : ℕ → NamePath → State → Walked State)
      (inside : ℕ → ℕ → NamePath → State → Walked State) (enough : length code < low + fuel)
      (on_sound : Sounds (low + 1) on)
      (inside_sound : (end : ℕ) → Sounds (low + 1) (inside end)) where
    header-Within :
        (at : ℕ)
        → low + 1 ≤ at
        → at ≤ length code
        → Within
            (λ h at'. (low + 1 ≤ at') × (low + 1 ≤ h.body.end) × (h.body.end ≤ length code))
            0
            (length code)
            (header code at)
    unfolding header
    header-Within at l u =
        Within-bind (package-Within code 0 at (omega arith) u) λ body at₁ (p₁, _, q₁, r₁) l₁ u₁.
          Within-bind (name-Within code 0 at₁ l₁ u₁)
            λ (called, absolute) at₂ (_, p₂) l₂ u₂. holds (omega arith, omega arith, r₁) l₂ u₂

    block-Sound :
        (h : Header) (inner : ℕ) (scope : NamePath) (s : State)
        → low + 1 ≤ inner
        → inner ≤ length code
        → low + 1 ≤ h.body.end
        → h.body.end ≤ length code
        → IsPath scope
        → Q s
        → Sound Q scope (
            block code visit fuel on inside h inner scope
              (enter (if h.absolute then root else scope) (segments h.called) true).0
              s)
    block-Sound h inner scope s i₁ i₂ e₁ e₂ inv q =
        let base = if h.absolute then root else scope in
        let base_path : IsPath base = chosen-IsPath h.absolute scope inv in
        let ext = enter-Extends base (segments h.called) true base_path in
        let inner_scope = (enter base (segments h.called) true).0 in
        after_block-Sound Q _ scope inner_scope (inside h.body.end inner inner_scope s)
          (inside_sound h.body.end inner inner_scope s i₁ i₂ ext.is_path q)
          λ scope' s' same q'.
            let back =
              leave-SameScope h.absolute scope inner_scope scope' inv
                (entered-Extends h.absolute scope (segments h.called) inv) same in
            Sound-SameScope Q scope (leave h.absolute scope scope') _ back
              (on_sound h.body.end _ s' e₁ e₂ back.is_path q')

    scope_block-Sound :
        (scope : NamePath) (s : State) (at : ℕ)
        → low + 1 ≤ at
        → at ≤ length code
        → IsPath scope
        → Q s
        → Sound Q scope (scope_block code visit fuel on inside scope s at)
    unfolding scope_block
    scope_block-Sound scope s at l u inv q =
        after_read-Sound Q _ scope s inv q (header-Within at l u)
          λ h inner (p, e, e') _ u'. block-Sound h inner scope s p u' e e' inv q

    visited-Sound :
        (h : Header) (inner : ℕ) (scope : NamePath) (s : State)
        → low + 1 ≤ inner
        → inner ≤ h.body.end
        → h.body.end ≤ length code
        → IsPath scope
        → Q s
        → Sound Q scope (
            visited code visit fuel on inside h inner scope
              (enter (if h.absolute then root else scope) (segments h.called) true).0
              s)
    visited-Sound h inner scope s i₁ i₂ e₂ inv q =
        let base = if h.absolute then root else scope in
        let inner_scope = (enter base (segments h.called) true).0 in
        let ext =
          enter-Extends base (segments h.called) true (chosen-IsPath h.absolute scope inv) in
        let body : Span = record { start = inner; end = h.body.end } in
        after_read-Sound Q _ scope s inv q (describe-Within code inner_scope body (omega arith))
          λ device _ (at_path, at_body) _ _.
            let sound : IsDevice (length code) device = record {
              is_path = rw at_path ext.is_path;
              start_le = rw at_body i₂;
              end_le = rw at_body e₂;
            } in
            let q' = kept s device q sound in
            Sound-if Q (not (visit s device).1) scope _ _ (λ _. q')
              λ _.
                block-Sound h inner scope (visit s device).0 i₁ (omega arith) (omega arith) e₂ inv
                  q'

    named_block-Sound :
        (extended : ℕ) (scope : NamePath) (s : State) (at : ℕ)
        → low + 1 ≤ at
        → at ≤ length code
        → IsPath scope
        → Q s
        → Sound Q scope (named_block code visit fuel on inside extended scope s at)
    unfolding named_block
    named_block-Sound extended scope s at l u inv q =
        after_read-Sound Q _ scope s inv q (header-Within at l u) λ h behind (p, e, e') _ u'.
          let inner = behind + own_bytes extended in
          Sound-if Q (ltb h.body.end inner) scope _ _ (λ _. (SameScope-refl scope inv, q))
            λ fits.
              let le : inner ≤ h.body.end = ground arith in
              Sound-if Q _ scope _ _ (λ _. visited-Sound h inner scope s (omega arith) le e' inv q)
                λ _. block-Sound h inner scope s (omega arith) (omega arith) e e' inv q

    conditional_from-Sound :
        (o : Option ℕ) (end : ℕ) (scope : NamePath) (s : State)
        → Begins (low + 1) (length code) o
        → low + 1 ≤ end
        → end ≤ length code
        → IsPath scope
        → Q s
        → Sound Q scope (elim o [
          | none ↦ on end scope s
          | some inner ↦ after_block (inside end inner scope s) λ scope' s'. on end scope' s'
        ])
    conditional_from-Sound none end scope s b l u inv q = on_sound end scope s l u inv q
    conditional_from-Sound (some inner) end scope s (b₁, b₂) l u inv q =
        after_block-Sound Q _ scope scope (inside end inner scope s)
          (inside_sound end inner scope s b₁ b₂ inv q)
          λ scope' s' same q'.
            Sound-SameScope Q scope scope' _ same (on_sound end scope' s' l u same.is_path q')

    conditional-Sound :
        (opcode : ℕ) (scope : NamePath) (s : State) (at : ℕ)
        → low + 1 ≤ at
        → at ≤ length code
        → IsPath scope
        → Q s
        → Sound Q scope (conditional code visit fuel on inside opcode scope s at)
    unfolding conditional
    conditional-Sound opcode scope s at l u inv q =
        after_read-Sound Q _ scope s inv q (package-Within code 0 at (omega arith) u)
          λ span behind (p, _, e, e') _ u'.
            conditional_from-Sound (conditional_inner code fuel opcode span behind) span.end scope s
              (conditional_inner-Begins code fuel opcode (low + 1) span behind (omega arith)
                (omega arith) u')
              (omega arith) e' inv q

    leaf-Sound :
        (r : Read (Unit {0})) (scope : NamePath) (s : State)
        → Within (From (low + 1)) 0 (length code) r
        → IsPath scope
        → Q s
        → Sound Q scope (after_read scope s r λ _ at'. on at' scope s)
    leaf-Sound r scope s h inv q =
        after_read-Sound Q _ scope s inv q h λ _ at' p _ u'. on_sound at' scope s p u' inv q

    extended_block-Sound :
        (scope : NamePath) (s : State) (at : ℕ)
        → low + 1 ≤ at
        → at ≤ length code
        → IsPath scope
        → Q s
        → Sound Q scope (extended_block code visit fuel on inside scope s at)
    unfolding extended_block
    extended_block-Sound scope s at l u inv q =
        after_read-Sound Q _ scope s inv q (byte-Within code 0 at (omega arith) u)
          λ extended behind p _ u'.
            Sound-if Q _ scope _ _
              (λ _. named_block-Sound extended scope s behind (omega arith) u' inv q)
              λ _.
                leaf-Sound _ scope s
                  (leaf_extended-Within code fuel (low + 1) (omega arith) extended behind
                    (omega arith) u')
                  inv q

    round-Sound :
        (opcode : ℕ) (scope : NamePath) (s : State) (at : ℕ)
        → low + 1 ≤ at
        → at ≤ length code
        → IsPath scope
        → Q s
        → Sound Q scope (round code visit fuel on inside opcode scope s at)
    unfolding round
    round-Sound opcode scope s at l u inv q =
        Sound-if Q (opcode == Op.scope) scope _ _ (λ _. scope_block-Sound scope s at l u inv q)
          λ _.
            Sound-if Q (opcode == Op.ext_prefix) scope _ _
              (λ _. extended_block-Sound scope s at l u inv q)
              λ _.
                Sound-if Q _ scope _ _ (λ _. conditional-Sound opcode scope s at l u inv q)
                  λ _.
                    leaf-Sound _ scope s
                      (leaf_object-Within code fuel (low + 1) (omega arith) opcode at l u) inv q

  -- With fuel above the number of bytes that are left, a walk does not run out of it. A property
  -- that the visitor keeps at every device it is shown, whose path and body are well formed, holds
  -- of its state behind the walk; and where the walk is to go on, the scope's segments are those
  -- from before.
  pub walk-Sound :
      (fuel end at : ℕ) (scope : NamePath) (s : State)
      → length code < at + fuel
      → at ≤ length code
      → IsPath scope
      → Q s
      → Sound Q scope (walk code visit fuel end at scope s)
  unfolding walk
  walk-Sound zero end at scope s f u inv q = absurd (omega arith)
  walk-Sound (suc fuel) end at scope s f u inv q =
      Sound-if Q (not (ltb at end)) scope _ _ (λ _. (SameScope-refl scope inv, q))
        λ _.
          after_read-Sound Q _ scope s inv q (byte-Within code 0 at (omega arith) u)
            λ opcode behind p _ u'.
              round-Sound (suc fuel) at (λ at'. walk code visit fuel end at')
                (λ end'. walk code visit fuel end') f
                (λ at' scope' s' h v i r. walk-Sound fuel end at' scope' s' (omega arith) v i r)
                (λ end' at' scope' s' h v i r.
                  walk-Sound fuel end' at' scope' s' (omega arith) v i r)
                opcode scope s behind p u' inv q

-- What a search for a device holds: nothing yet, or a device that is wanted.
abbrev pub Wanted : ℕ → (AcpiDevice → Bool) → Option AcpiDevice → Type 0
Wanted high wanted none = Unit
Wanted high wanted (some device) = (wanted device ≡ true) × IsDevice high device

keep_first-Wanted :
    (high : ℕ) (wanted : AcpiDevice → Bool) (o : Option AcpiDevice) (device : AcpiDevice)
    → Wanted high wanted o
    → IsDevice high device
    → Wanted high wanted (keep_first wanted o device).0
keep_first-Wanted high wanted (some found) device w i = w
keep_first-Wanted high wanted none device w i = elim (Bool-cases (wanted device)) [
  | inl chosen ↦ rw chosen (chosen, i)
  | inr other ↦ rw other tt
]

Sound-walked :
    {State : Type 0} (Q : State → Type 0) (scope : NamePath) (w : Walked State)
    → Sound Q scope w
    → (go : Bool) × (scope' : NamePath) × (s : State) × (w ≡ walked go scope' s) × Q s
Sound-walked Q scope (walked true scope' s) (same, q) = (true, scope', s, refl, q)
Sound-walked Q scope (walked false scope' s) q = (false, scope', s, refl, q)
Sound-walked Q scope walk_out_of_fuel h = elim h [ ]

-- In bytecode of at least a header the search for a device comes to an end, and what it found, if
-- anything, is a wanted device with a well-formed path and a body within the bytecode.
pub find_device-Wanted :
    (code : List ℕ) (wanted : AcpiDevice → Bool)
    → table_header ≤ length code
    → (go : Bool) × (scope : NamePath) × (found : Option AcpiDevice) × (find_device code wanted
        ≡ walked go scope found)
      × Wanted (length code) wanted found
unfolding find_device walk_all
find_device-Wanted code wanted long = Sound-walked (Wanted (length code) wanted) root _ (
    walk-Sound (Wanted (length code) wanted) code (keep_first wanted)
      (keep_first-Wanted (length code) wanted) (suc (length code)) (length code) table_header root
      none (omega arith) long root-IsPath tt)
