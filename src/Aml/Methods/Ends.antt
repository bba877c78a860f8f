-- ===== src/Aml/Methods/Ends.antt =====
-- Running a method ends: each round of a list, of a loop and of an evaluation spends from the
-- budget, and twice the budget and one is fuel enough for all of them together.
use nanochronometer.Common.{
  get_elem?-lt, ℕ, zero, suc, ◌+◌, ◌*◌, ◌≤◌, ◌<◌, ◌≡◌, ◌≢◌, refl, arith, Bool, true, false, not,
  List, [], Option, none, some, length, ltb, ◌==◌, if◌then◌else◌, get_elem?, Option-cases,
  Bool-cases, inl, inr,
}
use nanochronometer.Aml.Op
use nanochronometer.Aml.Names.{Span}
use nanochronometer.Aml.Cursor.{Read, read, failed, out_of_fuel, package_span}
use nanochronometer.Aml.Cursor.Within.{Within, holds, stops, package-Within}
use nanochronometer.Aml.Data.{
  Value, uninitialised, integer_value, buffer_value, text_value, package_value,
}
use nanochronometer.Aml.Devices.{AcpiDevice}
use nanochronometer.Aml.Data.Bounds.{parse_data-Within}
use nanochronometer.Aml.Skip.{skip_data}
use nanochronometer.Aml.Skip.Bounds.{skip_data-Within}
use nanochronometer.Aml.Members.{
  Member, name_at, method_of, conditional_depth, find_member, member_conditional,
}
use nanochronometer.Aml.Members.Bounds.{InCode, find_member-Within}
use nanochronometer.Aml.Interpreter.{
  Machine, Ran, ran, refused, ran_out, Action, ◌>>=◌, ◌>>◌, pure, reading, position, move_to,
  budget, new_machine, with_args, truthy, Flow, continue, break, return, eval,
}
use nanochronometer.Aml.Interpreter.Ends.{
  Fine, goes, refuses, Fines, Any, Fine-ne-ran_out, Fine-bind, Fine-reads_as, pure-Fines, if-Fines,
  if-Fine, then-Fines, spend-Fine, spend_zero-Fine, peek-Fines, advance-Fine, name-Fines,
  eval-Fines,
}
use nanochronometer.Aml.Methods.{
  nested, taken_branch, after_round, after_loop, go_on, else_follows, otherwise, if_statement,
  while_round, statement_of, run, statement, loop, returned, enough_fuel, evaluate_member_with,
  sta_name, status_present, present,
}

-- A list that starts within the bytecode.
abbrev Starts : ℕ → Option Span → Type 0
Starts high none = Unit
Starts high (some span) = span.start ≤ high

module _ (code : List ℕ) (b : ℕ) where
  package-Fines :
      Fines (λ span. span.end ≤ length code) (length code) b (reading (package_span code))
  package-Fines at m u l =
      Fine-reads_as m (package-Within code 0 at (omega arith) u) (λ span at' (_, _, _, e) _. e) l

  move_to-Fines : (there : ℕ) → there ≤ length code → Fines Any (length code) b (move_to there)
  move_to-Fines there h at m u l = goes tt h l

  position-Fines : Fines (λ at. at ≤ length code) (length code) b position
  position-Fines at m u l = goes u u l

  else_follows-lt : (end at : ℕ) → else_follows code end at ≡ true → at < length code
  else_follows-lt end at h = elim (Option-cases (get_elem? code at)) [
    | inl over ↦ ground (arith, over, h)
    | inr (opcode, there) ↦ get_elem?-lt code at opcode there
  ]

  -- A package's own list, from behind its head to its end.
  else_list-Fines : Fines (Starts (length code)) (length code) b (
      reading (package_span code) >>= λ alternative. position >>= λ start.
      move_to alternative.end >> pure (some (record { start = start; end = alternative.end })))
  else_list-Fines = then-Fines package-Fines λ alternative e at m u l. goes u e l

  otherwise-Fines : (end : ℕ) → Fines (Starts (length code)) (length code) b (otherwise code end)
  unfolding otherwise
  otherwise-Fines end at m u l = elim (Bool-cases (else_follows code end at)) [
    | inl follows ↦
        rw follows (advance-Fine code b else_list-Fines (else_follows-lt end at follows) l)
    | inr none_there ↦ rw none_there (goes tt u l)
  ]

  module _ (ev : Action Value) (run : ℕ → Action Flow) (evs : Fines Any (length code) b ev)
      (runs : (end : ℕ) → Fines Any (length code) b (run end)) where
    nested-Fines :
        (span : Span) → span.start ≤ length code → Fines Any (length code) b (nested run span)
    nested-Fines span s = then-Fines position-Fines λ back p.
        then-Fines (move_to-Fines span.start s) λ _ _.
          then-Fines (runs span.end)
            λ flow _. then-Fines (move_to-Fines back p) λ _ _. pure-Fines flow tt

    taken_branch-Fines :
        (taken : Bool) (body : Span) (alternative : Option Span)
        → body.start ≤ length code
        → Starts (length code) alternative
        → Fines Any (length code) b (taken_branch run taken body alternative)
    taken_branch-Fines true body alternative h k = nested-Fines body h
    taken_branch-Fines false body none h k = pure-Fines continue tt
    taken_branch-Fines false body (some alternative) h k = nested-Fines alternative k

    if_list-Fines :
        (end : ℕ)
        → Fines Any (length code) b (
            reading (package_span code) >>= λ span. ev >>= λ condition. position >>= λ start.
            move_to span.end
            >> (otherwise code end >>= λ alternative.
                taken_branch run
                  (truthy condition)
                  (record { start = start; end = span.end })
                  alternative))
    if_list-Fines end = then-Fines package-Fines λ span e. then-Fines evs λ condition _ at m u l.
        then-Fines (otherwise-Fines end)
          (λ alternative k. taken_branch-Fines (truthy condition) _ alternative u k) span.end m e l

    after_loop-Fines :
        (end : ℕ) (flow : Flow)
        → end ≤ length code
        → Fines Any (length code) b (after_loop end flow)
    after_loop-Fines end continue e = then-Fines (move_to-Fines end e) λ _ _. pure-Fines continue tt
    after_loop-Fines end break e = then-Fines (move_to-Fines end e) λ _ _. pure-Fines continue tt
    after_loop-Fines end (return value) e = pure-Fines (return value) tt

    skip_data-Fines : Fines Any (length code) b (reading (skip_data code (suc (length code))))
    skip_data-Fines at m u l =
        Fine-reads_as m
          (skip_data-Within code 0 (suc (length code)) at (omega arith) (omega arith) u)
          (λ _ _ _ _. tt) l

    statement_of-Fine :
        (loops : ℕ → ℕ → Action Flow) (end opcode at : ℕ) (m : Machine)
        → ((test end' : ℕ) → test ≤ length code → Fines Any (length code) b (loops test end'))
        → at < length code
        → m.budget ≤ b
        → Fine Any (length code) b (statement_of code ev run loops end opcode at m)
    unfolding statement_of if_statement
    statement_of-Fine loops end opcode at m ls low l =
        if-Fine (opcode == Op.if_op) _ _ (advance-Fine code b (if_list-Fines end) low l) (
          if-Fine (opcode == Op.else_op) _ _ refuses (
            if-Fine (opcode == Op.while) _ _
              (advance-Fine code b
                (then-Fines package-Fines λ span e at' m' u' l'.
                  then-Fines (ls at' span.end u') (λ flow _. after_loop-Fines span.end flow e) at'
                    m' u' l')
                low l)
              (if-Fine (opcode == Op.return) _ _
                (advance-Fine code b (then-Fines evs λ value _. pure-Fines _ tt) low l)
                (if-Fine (opcode == Op.break) _ _ (advance-Fine code b (pure-Fines break tt) low l)
                  (if-Fine (opcode == Op.noop) _ _
                    (advance-Fine code b (pure-Fines continue tt) low l)
                    (if-Fine (opcode == Op.name) _ _
                      (advance-Fine code b
                        (then-Fines (name-Fines code b)
                          λ _ _. then-Fines skip_data-Fines λ _ _. pure-Fines continue tt)
                        low l)
                      (then-Fines evs (λ _ _. pure-Fines continue tt) at m (omega arith) l)))))))

    after_round-Fines :
        (again : Action Flow) (flow : Flow)
        → Fines Any (length code) b again
        → Fines Any (length code) b (after_round again flow)
    after_round-Fines again continue h = h
    after_round-Fines again break h = pure-Fines continue tt
    after_round-Fines again (return value) h = pure-Fines (return value) tt

    -- A round of a loop behind its spending.
    loop_round-Fines :
        (again : Action Flow) (test end : ℕ)
        → test ≤ length code
        → Fines Any (length code) b again
        → Fines Any (length code) b (
            move_to test
            >> (ev >>= λ condition.
                if truthy condition
                then (run end >>= λ flow. after_round again flow)
                else pure continue))
    loop_round-Fines again test end t h = then-Fines (move_to-Fines test t) λ _ _.
        then-Fines evs λ condition _.
          if-Fines (truthy condition)
            (then-Fines (runs end) λ flow _. after_round-Fines again flow h)
            (pure-Fines continue tt)

  go_on-Fines :
      (later : Action Flow) (flow : Flow)
      → Fines Any (length code) b later
      → Fines Any (length code) b (go_on later flow)
  go_on-Fines later continue h = h
  go_on-Fines later break h = pure-Fines break tt
  go_on-Fines later (return value) h = pure-Fines (return value) tt

mutual
  unfolding run while_round

  run-Fines :
      (code : List ℕ) (fuel b end : ℕ)
      → 2 * b < fuel
      → Fines Any (length code) b (run code fuel end)
  run-Fines code zero b end h at m u l = absurd (omega arith)
  run-Fines code (suc fuel) zero end h at m u l =
      if-Fine (not (ltb at end)) _ _ (goes tt u l) (spend_zero-Fine _ at m l)
  run-Fines code (suc fuel) (suc b) end h at m u l = if-Fine (not (ltb at end)) _ _ (goes tt u l) (
      spend-Fine _ at m u l (
        then-Fines (statement-Fines code fuel b end (omega arith)) λ flow _.
          go_on-Fines code b (run code fuel end) flow (run-Fines code fuel b end (omega arith))))

  statement-Fines :
      (code : List ℕ) (fuel b end : ℕ)
      → 2 * b + 1 < fuel
      → Fines Any (length code) b (statement code fuel end)
  statement-Fines code zero b end h at m u l = absurd (omega arith)
  statement-Fines code (suc fuel) b end h at m u l =
      peek-Fines code b _
        (λ opcode at' m' low l'.
          statement_of-Fine code b (eval code fuel) (run code fuel)
            (eval-Fines code fuel b (omega arith))
            (λ end'. run-Fines code fuel b end' (omega arith)) (loop code fuel) end opcode at' m'
            (λ test end' t. loop-Fines code fuel b test end' (omega arith) t) low l')
        at m u l

  loop-Fines :
      (code : List ℕ) (fuel b test end : ℕ)
      → 2 * b < fuel
      → test ≤ length code
      → Fines Any (length code) b (loop code fuel test end)
  loop-Fines code zero b test end h t at m u l = absurd (omega arith)
  loop-Fines code (suc fuel) zero test end h t at m u l = spend_zero-Fine _ at m l
  loop-Fines code (suc fuel) (suc b) test end h t at m u l = spend-Fine _ at m u l (
      loop_round-Fines code b (eval code fuel) (run code fuel)
        (eval-Fines code fuel b (omega arith)) (λ end'. run-Fines code fuel b end' (omega arith))
        (loop code fuel test end) test end t (loop-Fines code fuel b test end (omega arith) t))

-- With a budget of `b` and fuel of more than twice that, running the terms of a list, from any
-- place within the bytecode and on any machine with at most that budget, does not run out of
-- fuel, whatever loops the bytecode has; the cursor stays within the bytecode and the budget does
-- not grow.
pub run_ends :
    (code : List ℕ) (fuel b end at : ℕ) (m : Machine)
    → 2 * b < fuel
    → at ≤ length code
    → m.budget ≤ b
    → Fine Any (length code) b (run code fuel end at m)
run_ends code fuel b end at m h u l = run-Fines code fuel b end h at m u l

returned-Fines : (high b : ℕ) (flow : Flow) → Fines Any high b (returned flow)
returned-Fines high b continue at m u l = refuses
returned-Fines high b break at m u l = refuses
returned-Fines high b (return value) at m u l = goes tt u l

-- Evaluating a member that begins within the bytecode gives a value or refuses: the budget of
-- 200,000 opcodes ends every loop, and the fuel is enough for it.
pub evaluate_member_with_ends :
    (code : List ℕ) (found : Member) (args : List Value)
    → InCode (length code) found
    → evaluate_member_with code found args ≢ ran_out
unfolding evaluate_member_with
evaluate_member_with_ends code (name_at at) args u =
    Fine-ne-ran_out {P = Any} {high = length code} {b = budget} (
      Fine-reads_as new_machine
        (parse_data-Within code 0 (suc (length code)) at (omega arith) (omega arith) u)
        (λ _ _ _ _. tt) (omega arith))
evaluate_member_with_ends code (method_of body arguments) args (u, e) =
    Fine-ne-ran_out {P = Any} {high = length code} {b = budget} (
      if-Fine (not (arguments == length args)) _ _ refuses (
        Fine-bind
          (run-Fines code enough_fuel budget body.end (omega arith) body.start
            (with_args new_machine args) u (omega arith))
          λ flow _. returned-Fines (length code) budget flow))

-- What a search for a member leaves for the status to say.
found_present :
    (code : List ℕ) (r : Read (Member × Bool))
    → Within (λ found _. InCode (length code) found.0) 0 (length code) r
    → (elim r as (λ _. Option Bool) [
      | read (found, conditional) at ↦
          if conditional then some true else status_present (evaluate_member_with code found [])
      | failed at ↦ some true
      | out_of_fuel ↦ none
    ])
      ≢ none
found_present code (read (found, true) at) (holds p l u) = cc
found_present code (read (found, false) at) (holds p l u) =
    status_known (evaluate_member_with code found []) (evaluate_member_with_ends code found [] p)
  where
    status_known : (r : Ran Value) → r ≢ ran_out → status_present r ≢ none
    status_known (ran (integer_value status) at m) h = cc
    status_known (ran uninitialised at m) h = cc
    status_known (ran (buffer_value span) at m) h = cc
    status_known (ran (text_value span) at m) h = cc
    status_known (ran (package_value span) at m) h = cc
    status_known refused h = cc
    status_known ran_out h = λ _. h refl
found_present code (failed at) (stops l u) = cc
found_present code out_of_fuel x = elim x [ ]

-- Whether a device is present is decided for every device whose body begins within the bytecode,
-- whatever its status method does.
pub present_ends :
    (code : List ℕ) (device : AcpiDevice)
    → device.body.start ≤ length code
    → present code device ≢ none
unfolding present member_conditional
present_ends code device u =
    found_present code (find_member code sta_name conditional_depth device.body)
      (find_member-Within code sta_name conditional_depth device.body u)
