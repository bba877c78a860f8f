-- ===== src/Aml/Interpreter.antt =====
-- crates/nanochrono-core/src/aml.rs: the interpreter for device methods. An action works on the
-- cursor's position and the machine, which is the arguments, the locals and the budget; nothing is
-- looked at behind a failure, so that a failure holds neither.
pub mod Ends
use nanochronometer.Common.{
  ℕ, zero, suc, ◌+◌, ◌-◌, ◌*◌, ◌/◌, ◌%◌, ◌^◌, Bool, true, false, not, ◌&&◌, ◌||◌, List, [], ◌∷◌,
  Option, none, some, length, get_elem?, get_or, set, take, drop, replicate, ltb, leb, ◌==◌,
  if◌then◌else◌, bit_and, bit_or, bit_xor, as_u32, wrapping_add, wrapping_sub,
}
use nanochronometer.Aml.Op
use nanochronometer.Aml.Names.{Span, bytes_of, same_bytes, span_len}
use nanochronometer.Aml.Cursor
use nanochronometer.Aml.Cursor.{
  Read, Reader, read, failed, out_of_fuel, little_endian, peek, name, package_span,
}
use nanochronometer.Aml.Data.{
  Value, uninitialised, integer_value, buffer_value, text_value, package_value, integer_of,
  parse_data,
}
use nanochronometer.Aml.Skip.{one_of, starts_name, skip_data}
use nanochronometer.Aml.Members.{Member, name_at, method_of}

pub record Machine : Type 0 where
  pub args : List Value
  pub locals : List Value
  pub budget : ℕ

pub data Ran {ℓ} (A : Type ℓ) : Type ℓ where
  ran : A → ℕ → Machine → Ran A
  refused ran_out : Ran A

abbrev pub Action {ℓ} : Type ℓ → Type ℓ
Action A = ℕ → Machine → Ran A

module _ {ℓ κ} {A : Type ℓ} {B : Type κ} where
  abbrev pub bind : Ran A → (A → Action B) → Ran B
  bind (ran a at m) f = f a at m
  bind refused f = refused
  bind ran_out f = ran_out

  infixl 1 ◌>>=◌ ◌>>◌
  abbrev pub ◌>>=◌ : Action A → (A → Action B) → Action B
  p >>= f = λ at m. bind (p at m) f

  abbrev pub ◌>>◌ : Action A → Action B → Action B
  p >> q = p >>= λ _. q

abbrev pub pure {ℓ} : {A : Type ℓ} → A → Action A
pure a at m = ran a at m

abbrev pub refuse {ℓ} : {A : Type ℓ} → Action A
refuse at m = refused

abbrev pub lift {ℓ} : {A : Type ℓ} → Option A → Action A
lift none at m = refused
lift (some a) at m = ran a at m

abbrev pub reads_as {ℓ} : {A : Type ℓ} → Machine → Read A → Ran A
reads_as m (read a at) = ran a at m
reads_as m (failed at) = refused
reads_as m out_of_fuel = ran_out

-- What the cursor reads; the machine stays as it is.
abbrev pub reading {ℓ} : {A : Type ℓ} → Reader A → Action A
reading reader at m = reads_as m (reader at)

abbrev pub position : Action ℕ
position at m = ran at at m

abbrev pub move_to : ℕ → Action (Unit {0})
move_to there at m = ran tt there m

abbrev pub advance : ℕ → Action (Unit {0})
advance count at m = ran tt (at + count) m

unfoldable pub spend : Action (Unit {0})
spend at m = if m.budget == 0 then refused else ran tt at (record m { budget = m.budget - 1 })

abbrev pub budget : ℕ
budget = 200_000

abbrev pub new_machine : Machine
new_machine = record {
  args = replicate 7 uninitialised;
  locals = replicate 8 uninitialised;
  budget = budget;
}

-- `slots.iter_mut().zip(args)`
abbrev pub fill : List Value → List Value → List Value
fill [] args = []
fill (slot ∷ slots) [] = slot ∷ slots
fill (slot ∷ slots) (value ∷ args) = value ∷ fill slots args

abbrev pub with_args : Machine → List Value → Machine
with_args m args = record m { args = fill m.args args }

abbrev pub truthy : Value → Bool
truthy (integer_value v) = not (v == 0)
truthy uninitialised = false
truthy _ = true

abbrev pub boolean : Bool → Value
boolean value = integer_value (if value then 2 ^ 64 - 1 else 0)

pub data Flow : Type 0 where
  continue break : Flow
  return : Value → Flow

-- `checked_shl` and `checked_shr` with zero for a shift of the whole width.
abbrev pub shift_left : ℕ → ℕ → ℕ
shift_left left right = if ltb (as_u32 right) 64 then left * 2 ^ as_u32 right % 2 ^ 64 else 0

abbrev pub shift_right : ℕ → ℕ → ℕ
shift_right left right = if ltb (as_u32 right) 64 then left / 2 ^ as_u32 right else 0

-- `!word`
abbrev pub complement : ℕ → ℕ
complement word = 2 ^ 64 - 1 - word

unfoldable pub arithmetic : ℕ → ℕ → ℕ → ℕ
arithmetic opcode left right =
    if opcode == Op.add
    then wrapping_add left right
    else if opcode == Op.subtract
    then wrapping_sub left right
    else if opcode == Op.and
    then bit_and left right
    else if opcode == Op.nand
    then complement (bit_and left right)
    else if opcode == Op.or
    then bit_or left right
    else if opcode == Op.nor
    then complement (bit_or left right)
    else if opcode == Op.xor
    then bit_xor left right
    else if opcode == Op.shift_left
    then shift_left left right
    else shift_right left right

abbrev pub is_local : ℕ → Bool
is_local opcode = leb Op.local0 opcode && leb opcode Op.local7

abbrev pub is_arg : ℕ → Bool
is_arg opcode = leb Op.arg0 opcode && leb opcode Op.arg6

abbrev pub is_data : ℕ → Bool
is_data opcode = one_of opcode (
    Op.zero ∷ Op.one ∷ Op.ones ∷ Op.byte_prefix ∷ Op.word_prefix ∷ Op.dword_prefix ∷ Op.qword_prefix
    ∷ Op.string_prefix ∷ Op.buffer ∷ Op.package_op ∷ Op.var_package ∷ [])

abbrev pub is_arithmetic : ℕ → Bool
is_arithmetic opcode = one_of opcode (
    Op.add ∷ Op.subtract ∷ Op.and ∷ Op.or ∷ Op.xor ∷ Op.nand ∷ Op.nor ∷ Op.shift_left
    ∷ Op.shift_right ∷ [])

abbrev pub arg_of : ℕ → Action Value
arg_of opcode at m = ran (get_or m.args (opcode - Op.arg0) uninitialised) at m

abbrev pub local_of : ℕ → Action Value
local_of opcode at m = ran (get_or m.locals (opcode - Op.local0) uninitialised) at m

abbrev pub set_arg : ℕ → Value → Action (Unit {0})
set_arg opcode value at m = ran tt at (record m { args = set m.args (opcode - Op.arg0) value })

abbrev pub set_local : ℕ → Value → Action (Unit {0})
set_local opcode value at m =
    ran tt at (record m { locals = set m.locals (opcode - Op.local0) value })

module _ (code : List ℕ) where
  abbrev pub same_span : Option (List ℕ) → Option (List ℕ) → Bool
  same_span (some a) (some b) = same_bytes a b
  same_span _ _ = false

  unfoldable pub equal : Value → Value → Bool
  unfolding bytes_of
  equal (integer_value a) (integer_value b) = a == b
  equal (buffer_value a) (buffer_value b) = same_span (bytes_of code a) (bytes_of code b)
  equal (text_value a) (text_value b) = same_span (bytes_of code a) (bytes_of code b)
  equal _ _ = false

  -- Writes to a target: a local, an argument, or nowhere.
  unfoldable pub store : Value → Action (Unit {0})
  store value = do
    opcode ← reading (peek code)
    if opcode == Op.zero
        then advance 1
        else if is_local opcode
        then (do advance 1; set_local opcode value)
        else if is_arg opcode
        then (do advance 1; set_arg opcode value)
        else if starts_name opcode
        then (do reading (name code); pure tt)
        else refuse

  -- The integer of `ToInteger`: itself, or the first eight bytes of a buffer.
  unfoldable pub to_integer : Value → Option ℕ
  unfolding bytes_of
  to_integer (integer_value v) = some v
  to_integer (buffer_value span) = elim (bytes_of code span) [
    | none ↦ none
    | some bytes ↦ some (little_endian 0 (take 8 bytes) 0)
  ]
  to_integer _ = none

  abbrev pub size_of : Value → Option ℕ
  size_of (buffer_value span) = some (span_len span)
  size_of (text_value span) = some (span_len span)
  size_of _ = none

  -- A step on the cursor's place alone, whose own movement is forgotten.
  abbrev pub probing {ℓ} : {A : Type ℓ} → Action A → Action A
  probing action = do start ← position; value ← action; move_to start; pure value

  module _ (ev : Action Value) where
    abbrev pub integer_arg : Action ℕ
    integer_arg = do value ← ev; lift (integer_of value)

    -- An operator on two integers, and its target.
    abbrev pub arithmetic_op : ℕ → Action Value
    arithmetic_op opcode = do
      left ← integer_arg
      right ← integer_arg
      store (integer_value (arithmetic opcode left right))
      pure (integer_value (arithmetic opcode left right))

    -- The operand is its own target.
    abbrev pub step_op : ℕ → Action Value
    step_op opcode = do
      current ← probing integer_arg
      let value : Value =
          integer_value
            (if opcode == Op.increment then wrapping_add current 1 else wrapping_sub current 1)
      store value
      pure value

    abbrev pub comparison : ℕ → Action Value
    comparison opcode = do
      left ← integer_arg
      right ← integer_arg
      pure (boolean (if opcode == Op.lgreater then ltb right left else ltb left right))

    abbrev pub logical : ℕ → Action Value
    logical opcode = do
      left ← ev
      right ← ev
      pure (
          boolean (
            if opcode == Op.land
            then truthy left && truthy right
            else if opcode == Op.lor
            then truthy left || truthy right
            else equal left right))

    -- The match of `eval` behind its opcode.
    unfoldable pub eval_behind : ℕ → Action Value
    unfolding store to_integer arithmetic equal
    eval_behind opcode =
        if is_arg opcode
        then arg_of opcode
        else if is_local opcode
        then local_of opcode
        else if opcode == Op.store
        then (do value ← ev; store value; pure value)
        else if opcode == Op.lnot
        then (do value ← ev; pure (boolean (not (truthy value))))
        else if one_of opcode (Op.land ∷ Op.lor ∷ Op.lequal ∷ [])
        then logical opcode
        else if one_of opcode (Op.lgreater ∷ Op.lless ∷ [])
        then comparison opcode
        else if is_arithmetic opcode
        then arithmetic_op opcode
        else if one_of opcode (Op.increment ∷ Op.decrement ∷ [])
        then step_op opcode
        else if opcode == Op.to_integer
        then (do
          value ← ev
          integer ← lift (to_integer value)
          store (integer_value integer)
          pure (integer_value integer))
        else if opcode == Op.to_buffer
        then (do value ← ev; store value; pure value)
        else if opcode == Op.size_of
        then (do value ← ev; size ← lift (size_of value); pure (integer_value size))
        else refuse

  -- Evaluates one term.
  unfoldable pub eval : ℕ → Action Value
  unfolding spend parse_data eval_behind
  eval zero at m = ran_out
  eval (suc fuel) at m =
      (do
        spend
        opcode ← reading (peek code)
        if is_data opcode
            then reading (parse_data code (suc (length code)))
            else (do advance 1; eval_behind (eval fuel) opcode))
        at m
