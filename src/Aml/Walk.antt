-- ===== src/Aml/Walk.antt =====
-- crates/nanochrono-core/src/aml.rs: the walk over the namespace. The scope is passed along, and
-- the visitor is a function on a state of its own that answers whether to go on.
pub mod Ends
pub mod Sound
mod Leaves
pub mod Scopes
use nanochronometer.Common.{
  ℕ, zero, suc, ◌+◌, ◌-◌, Bool, true, false, not, ◌&&◌, ◌||◌, List, [], ◌∷◌, Option, none, some,
  length, ltb, ◌==◌, if◌then◌else◌,
}
use nanochronometer.Aml.Op
use nanochronometer.Aml.Names.{Span, NamePath, NameSeg, root, segments, push_segment, pop_segment}
use nanochronometer.Aml.Cursor.{
  Read, Reader, read, failed, out_of_fuel, bind, ◌>>=◌, ◌>>◌, pure, fail, move_to, byte,
  package_span, name,
}
use nanochronometer.Aml.Skip.{one_of, skip_data, skip_term_arg, table_header}
use nanochronometer.Aml.Statements.{
  create_fields, skip_name, skip_byte, skip_package, skip_region, skip_statement, statement_behind,
}
use nanochronometer.Aml.Devices.{AcpiDevice, describe}

-- What a walk answers, with the scope and the visitor's state behind it.
pub data Walked {ℓ} (State : Type ℓ) : Type ℓ where
  walked : Bool → NamePath → State → Walked State
  walk_out_of_fuel : Walked State

-- Every segment of a name, as far as the path has room, and whether it had.
abbrev pub enter : NamePath → List NameSeg → Bool → NamePath × Bool
enter scope [] nameable = (scope, nameable)
enter scope (seg ∷ segs) nameable =
    let pushed = push_segment scope seg in enter pushed.0 segs (nameable && pushed.1)

-- `while scope.len() > depth { scope.pop() }`
abbrev pub pop_times : ℕ → NamePath → NamePath
pop_times zero scope = scope
pop_times (suc count) scope = pop_times count (pop_segment scope)

-- The scope behind a block: the saved one, or the one before with its own length again.
unfoldable pub leave : Bool → NamePath → NamePath → NamePath
leave absolute saved scope = if absolute then saved else pop_times (scope.len - saved.len) scope

-- How many bytes of its own a block has in front of its list.
abbrev pub own_bytes : ℕ → ℕ
own_bytes extended =
    if extended == Op.ext_power_res then 3 else if extended == Op.ext_processor then 6 else 0

-- The head of a block: where it ends and what it is called.
pub record Header : Type 0 where
  pub body : Span
  pub called : NamePath
  pub absolute : Bool

module _ (code : List ℕ) where
  unfoldable pub header : Reader Header
  header = do
    body ← package_span code
    (called, absolute) ← name code
    pure (record { body = body; called = called; absolute = absolute })

  module _ (fuel : ℕ) where
    abbrev pub term : Reader (Unit {0})
    term = skip_term_arg code fuel

    -- A declaration with a two-byte opcode that holds no other declarations.
    unfoldable pub leaf_extended : ℕ → Reader (Unit {0})
    leaf_extended extended =
        if extended == Op.ext_op_region
        then (do skip_name code; skip_region code term)
        else if one_of extended (Op.ext_field ∷ Op.ext_index_field ∷ Op.ext_bank_field ∷ [])
        then skip_package code
        else if extended == Op.ext_mutex
        then (do skip_name code; skip_byte code)
        else if extended == Op.ext_event
        then skip_name code
        else if extended == Op.ext_create_field
        then (do term; term; term; skip_name code)
        else fail

    -- A declaration or a statement that holds no other declarations.
    unfoldable pub leaf_object : ℕ → Reader (Unit {0})
    unfolding statement_behind
    leaf_object opcode =
        if opcode == Op.method
        then skip_package code
        else if opcode == Op.name
        then (do skip_name code; skip_data code fuel)
        else if opcode == Op.alias
        then (do skip_name code; skip_name code)
        else if opcode == Op.external
        then (do skip_name code; skip_byte code; skip_byte code)
        else if one_of opcode create_fields
        then (do term; term; skip_name code)
        else if opcode == Op.noop
        then pure tt
        else skip_statement code fuel opcode

  -- Where the terms of a conditional begin. A predicate that does not parse gives none.
  unfoldable pub conditional_inner : ℕ → ℕ → Span → ℕ → Option ℕ
  conditional_inner fuel opcode span at =
      if opcode == Op.else_op then some at else elim (skip_term_arg code fuel at) [
        | read _ probe ↦ if ltb span.end probe then none else some probe
        | _ ↦ none
      ]

module _ {ℓ} {State : Type ℓ} where
  -- What follows a nested walk: the end, where the visitor wants no more, or the rest.
  abbrev pub after_block : Walked State → (NamePath → State → Walked State) → Walked State
  after_block (walked false scope s) rest = walked false scope s
  after_block (walked true scope s) rest = rest scope s
  after_block walk_out_of_fuel rest = walk_out_of_fuel

  -- What follows a read: a read that fails ends the list, and the walk goes on around it.
  abbrev pub after_read {κ} :
      {A : Type κ} → NamePath → State → Read A → (A → ℕ → Walked State) → Walked State
  after_read scope s (read a at) rest = rest a at
  after_read scope s (failed at) rest = walked true scope s
  after_read scope s out_of_fuel rest = walk_out_of_fuel

module _ {ℓ} {State : Type ℓ} (code : List ℕ) (visit : State → AcpiDevice → State × Bool) where
  -- `on` walks the rest of the list from a place, `inside` another list up to its own end.
  module _ (fuel : ℕ) (on : ℕ → NamePath → State → Walked State)
      (inside : ℕ → ℕ → NamePath → State → Walked State) where
    -- The block's own list, and then the rest with the scope as it was.
    abbrev pub block : Header → ℕ → NamePath → NamePath → State → Walked State
    block h inner scope entered s =
        after_block (inside h.body.end inner entered s)
          λ scope' s'. on h.body.end (leave h.absolute scope scope') s'

    unfoldable pub scope_block : NamePath → State → ℕ → Walked State
    unfolding header leave
    scope_block scope s at = after_read scope s (header code at) λ h inner.
        let entered = enter (if h.absolute then root else scope) (segments h.called) true in
        block h inner scope entered.0 s

    -- A device is shown to the visitor first.
    abbrev pub visited : Header → ℕ → NamePath → NamePath → State → Walked State
    visited h inner scope entered s =
        after_read scope s (describe code entered (record { start = inner; end = h.body.end }))
          λ device _.
            let shown = visit s device in
            if not shown.1
            then walked false entered shown.0
            else block h inner scope entered shown.0

    unfoldable pub named_block : ℕ → NamePath → State → ℕ → Walked State
    unfolding header leave describe
    named_block extended scope s at = after_read scope s (header code at) λ h behind.
        let inner = behind + own_bytes extended in
        let entered = enter (if h.absolute then root else scope) (segments h.called) true in
        if ltb h.body.end inner
        then walked true scope s
        else if (extended == Op.ext_device) && entered.1
        then visited h inner scope entered.0 s
        else block h inner scope entered.0 s

    unfoldable pub conditional : ℕ → NamePath → State → ℕ → Walked State
    unfolding conditional_inner
    conditional opcode scope s at = after_read scope s (package_span code at) λ span behind.
        elim (conditional_inner code fuel opcode span behind) [
          | none ↦ on span.end scope s
          | some inner ↦
              after_block (inside span.end inner scope s) λ scope' s'. on span.end scope' s'
        ]

    unfoldable pub extended_block : NamePath → State → ℕ → Walked State
    unfolding named_block leaf_extended
    extended_block scope s at = after_read scope s (byte code at) λ extended behind.
        if one_of extended
          (Op.ext_device ∷ Op.ext_power_res ∷ Op.ext_thermal_zone ∷ Op.ext_processor ∷ [])
        then named_block extended scope s behind
        else after_read scope s (leaf_extended code fuel extended behind) λ _ at'. on at' scope s

    -- One round of the loop, behind its opcode.
    unfoldable pub round : ℕ → NamePath → State → ℕ → Walked State
    unfolding scope_block conditional extended_block leaf_object
    round opcode scope s at =
        if opcode == Op.scope
        then scope_block scope s at
        else if opcode == Op.ext_prefix
        then extended_block scope s at
        else if one_of opcode (Op.if_op ∷ Op.else_op ∷ Op.while ∷ [])
        then conditional opcode scope s at
        else after_read scope s (leaf_object code fuel opcode at) λ _ at'. on at' scope s

  unfoldable pub walk : ℕ → ℕ → ℕ → NamePath → State → Walked State
  unfolding round
  walk zero end at scope s = walk_out_of_fuel
  walk (suc fuel) end at scope s =
      if not (ltb at end)
      then walked true scope s
      else after_read scope s (byte code at) λ opcode behind.
        round (suc fuel) (λ at'. walk fuel end at') (walk fuel) opcode scope s behind

  -- The walk over all of a table behind its header.
  unfoldable pub walk_all : State → Walked State
  unfolding walk
  walk_all s = walk (suc (length code)) (length code) table_header root s

-- The first device that is wanted; the visitor asks for no more behind it.
abbrev pub keep_first :
    (AcpiDevice → Bool) → Option AcpiDevice → AcpiDevice → Option AcpiDevice × Bool
keep_first wanted (some found) device = (some found, false)
keep_first wanted none device = if wanted device then (some device, false) else (none, true)

unfoldable pub find_device : List ℕ → (AcpiDevice → Bool) → Walked (Option AcpiDevice)
unfolding walk_all
find_device code wanted = walk_all code (keep_first wanted) none
