-- ===== src/Aml/Interpreter/Ends.antt =====
-- Evaluating a term ends: every evaluation spends from the budget. `Fine` says of a run that it did
-- not run out of fuel, that what it answers has the property `P`, that its cursor is within the
-- bytecode and that it has at most `b` of the budget left.
use nanochronometer.Common.{
  ℕ, zero, suc, ◌+◌, ◌-◌, ◌*◌, ◌≤◌, ◌<◌, ◌≡◌, ◌≢◌, arith, Bool, true, false, List, [], ◌∷◌, Option,
  none, some, length, ◌==◌, if◌then◌else◌, Bool-cases, inl, inr,
}
use nanochronometer.Aml.Op
use nanochronometer.Aml.Cursor.{Read, peek, name}
use nanochronometer.Aml.Cursor.Within.{Within, holds, stops, peek-Within, name-Within}
use nanochronometer.Aml.Data.{Value, integer_of, parse_data}
use nanochronometer.Aml.Data.Bounds.{parse_data-Within}
use nanochronometer.Aml.Skip.{one_of, starts_name}
use nanochronometer.Aml.Interpreter.{
  Machine, Ran, ran, refused, ran_out, Action, bind, ◌>>=◌, ◌>>◌, pure, refuse, lift, reads_as,
  reading, advance, spend, is_arg, is_local, is_data, is_arithmetic, store, to_integer, size_of,
  probing, integer_arg, arithmetic_op, step_op, comparison, logical, eval_behind, eval,
}

pub data Fine {A : Type 0} (P : A → Type 0) (high b : ℕ) : Ran A → Type 0 where
  goes :
      {a : A} {at : ℕ} {m : Machine} → P a → at ≤ high → m.budget ≤ b → Fine P high b (ran a at m)
  refuses : Fine P high b refused

-- From every place within the bytecode.
abbrev pub Fines : {A : Type 0} → (A → Type 0) → ℕ → ℕ → Action A → Type 0
Fines P high b action =
    (at : ℕ) (m : Machine) → at ≤ high → m.budget ≤ b → Fine P high b (action at m)

-- Nothing is asked of the answer.
abbrev pub Any : {A : Type 0} → A → Type 0
Any a = Unit

module _ {A : Type 0} {P : A → Type 0} {high b : ℕ} where
  pub Fine-ne-ran_out : {r : Ran A} → Fine P high b r → r ≢ ran_out
  Fine-ne-ran_out (goes p u l) = cc
  Fine-ne-ran_out refuses = cc

  pub Fine-weaken : {r : Ran A} (c : ℕ) → b ≤ c → Fine P high b r → Fine P high c r
  Fine-weaken c le (goes p u l) = goes p u (omega arith)
  Fine-weaken c le refuses = refuses

  pub Fine-bind :
      {B : Type 0} {Q : B → Type 0} {r : Ran A} {f : A → Action B}
      → Fine P high b r
      → ((a : A) → P a → Fines Q high b (f a))
      → Fine Q high b (bind r f)
  Fine-bind (goes {a} {at} {m} p u l) k = k a p at m u l
  Fine-bind refuses k = refuses

  pub Fine-reads_as :
      {Q : A → ℕ → Type 0} (m : Machine) {r : Read A}
      → Within Q 0 high r
      → ((a : A) (at : ℕ) → Q a at → at ≤ high → P a)
      → m.budget ≤ b
      → Fine P high b (reads_as m r)
  Fine-reads_as m (holds {a} {at} q l u) f le = goes (f a at q u) u le
  Fine-reads_as m (stops l u) f le = refuses

  pub pure-Fines : (a : A) → P a → Fines P high b (pure a)
  pure-Fines a p at m u l = goes p u l

  pub refuse-Fines : Fines P high b refuse
  refuse-Fines at m u l = refuses

  pub if-Fines :
      (c : Bool) {p q : Action A}
      → Fines P high b p
      → Fines P high b q
      → Fines P high b (if c then p else q)
  if-Fines true hp hq = hp
  if-Fines false hp hq = hq

  pub if-Fine :
      (c : Bool) (p q : Action A) {at : ℕ} {m : Machine}
      → Fine P high b (p at m)
      → Fine P high b (q at m)
      → Fine P high b ((if c then p else q) at m)
  if-Fine true p q hp hq = hp
  if-Fine false p q hp hq = hq

  pub lift-Fines : (o : Option A) → ((a : A) → P a) → Fines P high b (lift o)
  lift-Fines none h at m u l = refuses
  lift-Fines (some a) h at m u l = goes (h a) u l

  pub then-Fines :
      {B : Type 0} {Q : B → Type 0} {p : Action A} {f : A → Action B}
      → Fines P high b p
      → ((a : A) → P a → Fines Q high b (f a))
      → Fines Q high b (p >>= f)
  then-Fines hp hf at m u l = Fine-bind (hp at m u l) hf

  -- A budget that is spent pays for what follows.
  pub spend-Fine :
      (p : Action A) (at : ℕ) (m : Machine)
      → at ≤ high
      → m.budget ≤ suc b
      → Fines P high b p
      → Fine P high (suc b) ((spend >> p) at m)
  unfolding spend
  spend-Fine p at m u l hp = elim (Bool-cases (m.budget == 0)) [
    | inl broke ↦ rw broke refuses
    | inr paid ↦ rw paid (
        Fine-weaken (suc b) (omega arith)
          (hp at (record m { budget = m.budget - 1 }) u (omega arith)))
  ]

pub spend_zero-Fine :
    {A : Type 0} {P : A → Type 0} {high : ℕ} (p : Action A) (at : ℕ) (m : Machine)
    → m.budget ≤ 0
    → Fine P high 0 ((spend >> p) at m)
unfolding spend
spend_zero-Fine p at m l = let broke : (m.budget == 0) ≡ true = ground arith in rw broke refuses

module _ (code : List ℕ) (b : ℕ) where
  module _ {A : Type 0} {Q : A → Type 0} where
    peeked :
        {at : ℕ} (m : Machine) (f : ℕ → Action A) {r : Read ℕ}
        → Within (λ _ at'. (at' ≡ at) × (at < length code)) 0 (length code) r
        → ((opcode at : ℕ) → at < length code → Fine Q (length code) b (f opcode at m))
        → Fine Q (length code) b (bind (reads_as m r) f)
    peeked m f (holds (same, low) l' u') h = h _ _ (omega arith)
    peeked m f (stops l' u') h = refuses

    -- Behind a peek a byte is there to step over.
    pub peek-Fines :
        (f : ℕ → Action A)
        → ((opcode at : ℕ) (m : Machine)
            → at < length code
            → m.budget ≤ b
            → Fine Q (length code) b (f opcode at m))
        → Fines Q (length code) b (reading (peek code) >>= f)
    peek-Fines f h at m u l =
        peeked m f (peek-Within code 0 at (omega arith) u) λ opcode at' low. h opcode at' m low l

    pub advance-Fine :
        {p : Action A} {at : ℕ} {m : Machine}
        → Fines Q (length code) b p
        → at < length code
        → m.budget ≤ b
        → Fine Q (length code) b ((advance 1 >> p) at m)
    advance-Fine {at = at} {m = m} hp low l = hp (at + 1) m (omega arith) l

  pub name-Fines : Fines Any (length code) b (reading (name code))
  name-Fines at m u l = Fine-reads_as m (name-Within code 0 at (omega arith) u) (λ _ _ _ _. tt) l

  pub store-Fines : (value : Value) → Fines Any (length code) b (store code value)
  unfolding store
  store-Fines value = peek-Fines _ λ opcode at m low l.
      if-Fine (opcode == Op.zero) _ _ (goes {at = at + 1} tt (omega arith) l) (
        if-Fine (is_local opcode) _ _ (goes {at = at + 1} tt (omega arith) l) (
          if-Fine (is_arg opcode) _ _ (goes {at = at + 1} tt (omega arith) l) (
            if-Fine (starts_name opcode) _ _
              (then-Fines name-Fines (λ _ _. pure-Fines tt tt) at m (omega arith) l) refuses)))

  -- A probe gives back the place it began at.
  probing-Fines :
      {A : Type 0} {p : Action A}
      → Fines Any (length code) b p
      → Fines Any (length code) b (probing code p)
  probing-Fines hp at m u l = Fine-bind (hp at m u l) λ value _ at' m' _ l'. goes tt u l'

  module _ (ev : Action Value) (evs : Fines Any (length code) b ev) where
    integer_arg-Fines : Fines Any (length code) b (integer_arg code ev)
    integer_arg-Fines = then-Fines evs λ value _. lift-Fines (integer_of value) λ _. tt

    -- A value that is stored and answered.
    stored-Fines : (value : Value) → Fines Any (length code) b (store code value >> pure value)
    stored-Fines value = then-Fines (store-Fines value) λ _ _. pure-Fines value tt

    arithmetic_op-Fines : (opcode : ℕ) → Fines Any (length code) b (arithmetic_op code ev opcode)
    arithmetic_op-Fines opcode =
        then-Fines integer_arg-Fines
          λ left _. then-Fines integer_arg-Fines λ right _. stored-Fines _

    step_op-Fines : (opcode : ℕ) → Fines Any (length code) b (step_op code ev opcode)
    step_op-Fines opcode = then-Fines (probing-Fines integer_arg-Fines) λ current _. stored-Fines _

    comparison-Fines : (opcode : ℕ) → Fines Any (length code) b (comparison code ev opcode)
    comparison-Fines opcode =
        then-Fines integer_arg-Fines
          λ left _. then-Fines integer_arg-Fines λ right _. pure-Fines _ tt

    logical-Fines : (opcode : ℕ) → Fines Any (length code) b (logical code ev opcode)
    logical-Fines opcode = then-Fines evs λ left _. then-Fines evs λ right _. pure-Fines _ tt

    eval_behind-Fines : (opcode : ℕ) → Fines Any (length code) b (eval_behind code ev opcode)
    unfolding eval_behind
    eval_behind-Fines opcode =
        if-Fines (is_arg opcode) (λ at m u l. goes tt u l)
          (if-Fines (is_local opcode) (λ at m u l. goes tt u l)
            (if-Fines (opcode == Op.store) (then-Fines evs λ value _. stored-Fines value) (
              if-Fines (opcode == Op.lnot) (then-Fines evs λ value _. pure-Fines _ tt) (
                if-Fines (one_of opcode (Op.land ∷ Op.lor ∷ Op.lequal ∷ [])) (logical-Fines opcode)
                  (if-Fines (one_of opcode (Op.lgreater ∷ Op.lless ∷ [])) (comparison-Fines opcode)
                    (if-Fines (is_arithmetic opcode) (arithmetic_op-Fines opcode) (
                      if-Fines (one_of opcode (Op.increment ∷ Op.decrement ∷ []))
                        (step_op-Fines opcode)
                        (if-Fines (opcode == Op.to_integer)
                          (then-Fines evs λ value _.
                            then-Fines (lift-Fines (to_integer code value) λ _. tt)
                              λ integer _. stored-Fines _)
                          (if-Fines (opcode == Op.to_buffer)
                            (then-Fines evs λ value _. stored-Fines value)
                            (if-Fines (opcode == Op.size_of)
                              (then-Fines evs λ value _.
                                then-Fines {P = Any} (lift-Fines (size_of code value) λ _. tt)
                                  λ size _. pure-Fines _ tt)
                              refuse-Fines))))))))))

  eval_round-Fines :
      (ev : Action Value)
      → Fines Any (length code) b ev
      → Fines Any (length code) b (
          reading (peek code) >>= λ opcode.
          if is_data opcode
          then reading (parse_data code (suc (length code)))
          else (advance 1 >> eval_behind code ev opcode))
  eval_round-Fines ev evs = peek-Fines _ λ opcode at m low l.
      if-Fine (is_data opcode) _ _
        (Fine-reads_as m
          (parse_data-Within code 0 (suc (length code)) at (omega arith) (omega arith)
            (omega arith))
          (λ _ _ _ _. tt) l)
        (advance-Fine (eval_behind-Fines ev evs opcode) low l)

-- With a budget of `b` and fuel of more than twice that, evaluating a term at a place within the
-- bytecode does not run out of fuel, and leaves the cursor within the bytecode.
pub eval-Fines :
    (code : List ℕ) (fuel b : ℕ) → 2 * b < fuel → Fines Any (length code) b (eval code fuel)
unfolding eval
eval-Fines code zero b h at m u l = absurd (omega arith)
eval-Fines code (suc fuel) zero h at m u l = spend_zero-Fine _ at m l
eval-Fines code (suc fuel) (suc b) h at m u l =
    spend-Fine _ at m u l
      (eval_round-Fines code b (eval code fuel) (eval-Fines code fuel b (omega arith)))
