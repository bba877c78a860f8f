-- ===== src/Aml/Methods.antt =====
-- crates/nanochrono-core/src/aml.rs: the statements of a method, and the evaluation of a device's
-- members. A nested list runs on a cursor of its own.
pub mod Ends
use nanochronometer.Common.{
  ℕ, zero, suc, ◌+◌, ◌*◌, Bool, true, false, not, ◌&&◌, List, [], ◌∷◌, Option, none, some, length,
  get_elem?, ltb, ◌==◌, if◌then◌else◌, bit_and,
}
use nanochronometer.Aml.Op
use nanochronometer.Aml.Names.{Span, NameSeg}
use nanochronometer.Aml.Cursor.{Read, read, failed, out_of_fuel, peek, name, package_span}
use nanochronometer.Aml.Data.{Value, integer_value, parse_data}
use nanochronometer.Aml.Skip.{skip_data}
use nanochronometer.Aml.Devices.{AcpiDevice}
use nanochronometer.Aml.Members.{
  Member, name_at, method_of, member, member_conditional, find_member,
}
use nanochronometer.Aml.Interpreter.{
  Machine, Ran, ran, refused, ran_out, Action, bind, ◌>>=◌, ◌>>◌, pure, refuse, reading, reads_as,
  position, move_to, advance, spend, budget, new_machine, with_args, truthy, Flow, continue, break,
  return, eval, eval_behind,
}

-- Another list, run from its start to its end; the cursor is back where it was behind it.
abbrev pub nested : (ℕ → Action Flow) → Span → Action Flow
nested run span = do
  back ← position
  move_to span.start
  flow ← run span.end
  move_to back
  pure flow

abbrev pub taken_branch : (ℕ → Action Flow) → Bool → Span → Option Span → Action Flow
taken_branch run true body alternative = nested run body
taken_branch run false body none = pure continue
taken_branch run false body (some alternative) = nested run alternative

abbrev pub after_round : Action Flow → Flow → Action Flow
after_round again continue = again
after_round again break = pure continue
after_round again (return value) = pure (return value)

-- Behind a loop the cursor is at its end; a return ends the list at once.
abbrev pub after_loop : ℕ → Flow → Action Flow
after_loop end (return value) = pure (return value)
after_loop end flow = do move_to end; pure continue

abbrev pub go_on : Action Flow → Flow → Action Flow
go_on later continue = later
go_on later flow = pure flow

-- What a method that has run answers.
abbrev pub returned : Flow → Action Value
returned (return value) = pure value
returned _ = refuse

-- Twice the budget and one more round is fuel enough.
abbrev pub enough_fuel : ℕ
enough_fuel = 2 * budget + 1

abbrev pub as_action : Read Member → Action Member
as_action r at m = reads_as m r

abbrev pub sta_name : NameSeg
sta_name = b'_' ∷ b'S' ∷ b'T' ∷ b'A' ∷ []

-- What a status says: present and enabled, unless it says otherwise as an integer.
abbrev pub status_present : Ran Value → Option Bool
status_present (ran (integer_value status) at m) = some (bit_and status 0b11 == 0b11)
status_present (ran _ at m) = some true
status_present refused = some true
status_present ran_out = none

module _ (code : List ℕ) where
  -- An `Else` right behind an `If` within its list.
  abbrev pub else_follows : ℕ → ℕ → Bool
  else_follows end at = ltb at end && (elim (get_elem? code at) as (λ _. Bool) [
    | none ↦ false
    | some opcode ↦ opcode == Op.else_op
  ])

  unfoldable pub otherwise : ℕ → Action (Option Span)
  otherwise end at m =
      (if else_follows end at
          then (do
            advance 1
            alternative ← reading (package_span code)
            start ← position
            move_to alternative.end
            pure (some (record { start = start; end = alternative.end })))
          else pure none)
        at m

  module _ (ev : Action Value) (run : ℕ → Action Flow) where
    unfoldable pub if_statement : ℕ → Action Flow
    unfolding otherwise
    if_statement end = do
      advance 1
      span ← reading (package_span code)
      condition ← ev
      start ← position
      move_to span.end
      alternative ← otherwise end
      taken_branch run (truthy condition) (record { start = start; end = span.end }) alternative

    -- One round of a loop from its test on; `again` runs the later rounds.
    unfoldable pub while_round : Action Flow → ℕ → ℕ → Action Flow
    unfolding spend
    while_round again test end = do
      spend
      move_to test
      condition ← ev
      if truthy condition then (do flow ← run end; after_round again flow) else pure continue

    -- A statement; `loop` runs a loop from its test to its end.
    unfoldable pub statement_of : (ℕ → ℕ → Action Flow) → ℕ → ℕ → Action Flow
    unfolding if_statement
    statement_of loop end opcode =
        if opcode == Op.if_op
        then if_statement end
        else if opcode == Op.else_op
        then refuse
        else if opcode == Op.while
        then (do
          advance 1
          span ← reading (package_span code)
          test ← position
          flow ← loop test span.end
          after_loop span.end flow)
        else if opcode == Op.return
        then (do advance 1; value ← ev; pure (return value))
        else if opcode == Op.break
        then (do advance 1; pure break)
        else if opcode == Op.noop
        then (do advance 1; pure continue)
        else if opcode == Op.name
        then (do
          advance 1
          reading (name code)
          reading (skip_data code (suc (length code)))
          pure continue)
        else (do ev; pure continue)

  unfoldable mutual
    -- Runs the terms up to `end`, from the cursor's place.
    pub run : ℕ → ℕ → Action Flow
    run zero end at m = ran_out
    run (suc fuel) end at m =
        (if not (ltb at end)
            then pure continue
            else (do spend; flow ← statement fuel end; go_on (run fuel end) flow))
          at m

    pub statement : ℕ → ℕ → Action Flow
    statement zero end at m = ran_out
    statement (suc fuel) end at m =
        (do
          opcode ← reading (peek code)
          statement_of (eval code fuel) (run fuel) (loop fuel) end opcode)
          at m

    pub loop : ℕ → ℕ → ℕ → Action Flow
    loop zero test end at m = ran_out
    loop (suc fuel) test end at m =
        while_round (eval code fuel) (run fuel) (loop fuel test end) test end at m

  unfoldable pub evaluate_member_with : Member → List Value → Ran Value
  unfolding run
  evaluate_member_with (name_at at) args =
      reading (parse_data code (suc (length code))) at new_machine
  evaluate_member_with (method_of body arguments) args =
      let m = with_args new_machine args in
      (if not (arguments == length args)
          then refuse
          else (do flow ← run enough_fuel body.end; returned flow))
        body.start m

  -- `Namespace::evaluate`
  unfoldable pub evaluate : AcpiDevice → NameSeg → List Value → Ran Value
  unfolding evaluate_member_with member
  evaluate device want args =
      (do found ← as_action (member code want device); (λ _ _. evaluate_member_with found args)) 0
        new_machine

  -- `Namespace::present`; `none` stands for the end of the fuel.
  unfoldable pub present : AcpiDevice → Option Bool
  unfolding evaluate_member_with member_conditional find_member
  present device = elim (member_conditional code sta_name device) [
    | read (found, conditional) at ↦
        if conditional then some true else status_present (evaluate_member_with found [])
    | failed at ↦ some true
    | out_of_fuel ↦ none
  ]
