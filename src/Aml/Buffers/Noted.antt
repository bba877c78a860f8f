-- ===== src/Aml/Buffers/Noted.antt =====
-- What the descriptors of the declared buffers add up to, noted in order.
use nanochronometer.Common.{
  or_found, ℕ, ◌≡◌, ◌≢◌, refl, ap, sym, subst, ◌∙◌, arith, Bool, true, false, List, [], ◌∷◌, ◌++◌,
  none, some, Option, All, Bool-cases, Option-cases, inl, inr,
}
use mathlib.Core.Option.{some-injective}
use nanochronometer.Aml.Names.{NameSeg, same_bytes, same_segments}
use nanochronometer.Aml.Resources.{Resource, i2c, gpio, memory, other, I2cSerialBus, GpioInterrupt}
use nanochronometer.Aml.Buffers.{
  first_bus, first_interrupt, same_bool, same_bus, Seen, note_bus, note_interrupt, note_all,
}

same_bytes_refl : (bytes : List ℕ) → same_bytes bytes bytes ≡ true
same_bytes_refl [] = refl
same_bytes_refl (b ∷ bytes) = ground (arith, same_bytes_refl bytes)

same_segments_refl : (segs : List NameSeg) → same_segments segs segs ≡ true
same_segments_refl [] = refl
same_segments_refl (s ∷ segs) = rw (same_bytes_refl s) (same_segments_refl segs)

same_bool_refl : (b : Bool) → same_bool b b ≡ true
same_bool_refl true = refl
same_bool_refl false = refl

same_bus_refl : (bus : I2cSerialBus) → same_bus bus bus ≡ true
unfolding same_bus
same_bus_refl bus =
    rw (same_bool_refl bus.ten_bit, same_segments_refl bus.controller.slots) (ground arith)

-- A descriptor says the bus, where it says one.
abbrev pub Agrees : I2cSerialBus → Resource → Type 0
Agrees bus (i2c found) = same_bus bus found ≡ true
Agrees bus (gpio found) = Unit
Agrees bus (memory region) = Unit
Agrees bus (other large kind) = Unit

pub note_all-append :
    (xs ys : List Resource) (seen : Seen)
    → note_all (xs ++ ys) seen ≡ note_all ys (note_all xs seen)
unfolding note_all
note_all-append [] ys seen = refl
note_all-append (i2c found ∷ xs) ys seen = note_all-append xs ys (note_bus found seen)
note_all-append (gpio found ∷ xs) ys seen = note_all-append xs ys (note_interrupt found seen)
note_all-append (memory region ∷ xs) ys seen = note_all-append xs ys seen
note_all-append (other large kind ∷ xs) ys seen = note_all-append xs ys seen

note_interrupt-bus :
    (found : GpioInterrupt) (seen : Seen) → (note_interrupt found seen).bus ≡ seen.bus
note_interrupt-bus found seen = elim (Option-cases seen.interrupt) [
  | inl unset ↦ rw unset refl
  | inr (g, there) ↦ rw there refl
]

note_interrupt-conflicting :
    (found : GpioInterrupt) (seen : Seen)
    → (note_interrupt found seen).conflicting ≡ seen.conflicting
note_interrupt-conflicting found seen = elim (Option-cases seen.interrupt) [
  | inl unset ↦ rw unset refl
  | inr (g, there) ↦ rw there refl
]

pub true-ne-false : true ≢ false
true-ne-false = cc

-- Behind a bus that is known, a run without a conflict keeps it, and all descriptors agree.
record Agreed (bus : I2cSerialBus) (found : List Resource) (before after : Seen) : Type 0 where
  kept : after.bus ≡ some bus
  all : All (Agrees bus) found
  calm_before : before.conflicting ≡ false

note_all-Agreed :
    (bus : I2cSerialBus) (found : List Resource) (seen : Seen)
    → seen.bus ≡ some bus
    → (note_all found seen).conflicting ≡ false
    → Agreed bus found seen (note_all found seen)
unfolding note_all note_bus
note_all-Agreed bus [] seen known calm = record { kept = known; all = tt; calm_before = calm }
note_all-Agreed bus (i2c x ∷ found) seen known calm = elim (Bool-cases (same_bus bus x)) [
  | inl same ↦
      let step : note_bus x seen ≡ seen = rw (known, same) refl in
      let later =
        note_all-Agreed bus found seen known
          (ap (λ t. (note_all found t).conflicting) (sym step) ∙ calm) in
      let same_seen : Agreed bus (i2c x ∷ found) seen (note_all found seen) = record {
        kept = later.kept;
        all = (same, later.all);
        calm_before = later.calm_before;
      } in
      subst (λ t. Agreed bus (i2c x ∷ found) seen (note_all found t)) (sym step) same_seen
  | inr differ ↦
      let next : Seen = record seen { conflicting = true } in
      let step : note_bus x seen ≡ next = rw (known, differ) refl in
      let later =
        note_all-Agreed bus found next known
          (ap (λ t. (note_all found t).conflicting) (sym step) ∙ calm) in
      absurd (true-ne-false later.calm_before)
]
note_all-Agreed bus (gpio x ∷ found) seen known calm =
    let later =
      note_all-Agreed bus found (note_interrupt x seen) (note_interrupt-bus x seen ∙ known) calm in
    record {
      kept = later.kept;
      all = (tt, later.all);
      calm_before = sym (note_interrupt-conflicting x seen) ∙ later.calm_before;
    }
note_all-Agreed bus (memory region ∷ found) seen known calm =
    let later = note_all-Agreed bus found seen known calm in
    record { kept = later.kept; all = (tt, later.all); calm_before = later.calm_before }
note_all-Agreed bus (other large kind ∷ found) seen known calm =
    let later = note_all-Agreed bus found seen known calm in
    record { kept = later.kept; all = (tt, later.all); calm_before = later.calm_before }

-- From nothing seen, a run without a conflict that knows a bus in the end has agreed on it.
pub note_all-Agrees :
    (bus : I2cSerialBus) (found : List Resource) (seen : Seen)
    → seen.bus ≡ none
    → (note_all found seen).conflicting ≡ false
    → (note_all found seen).bus ≡ some bus
    → All (Agrees bus) found
unfolding note_all note_bus
note_all-Agrees bus [] seen unknown calm known = tt
note_all-Agrees bus (i2c x ∷ found) seen unknown calm known =
    let next : Seen = record seen { bus = some x } in
    let step : note_bus x seen ≡ next = rw unknown refl in
    let agreed =
      note_all-Agreed x found next refl
        (ap (λ t. (note_all found t).conflicting) (sym step) ∙ calm) in
    let same : some x ≡ some bus =
      sym agreed.kept ∙ ap (λ t. (note_all found t).bus) (sym step) ∙ known in
    subst (λ b. All (Agrees b) (i2c x ∷ found)) (some-injective x bus same)
      (same_bus_refl x, agreed.all)
note_all-Agrees bus (gpio x ∷ found) seen unknown calm known = (
  tt,
  note_all-Agrees bus found (note_interrupt x seen) (note_interrupt-bus x seen ∙ unknown) calm
      known,
)
note_all-Agrees bus (memory region ∷ found) seen unknown calm known =
    (tt, note_all-Agrees bus found seen unknown calm known)
note_all-Agrees bus (other large kind ∷ found) seen unknown calm known =
    (tt, note_all-Agrees bus found seen unknown calm known)

note_bus-or :
    (x : I2cSerialBus) (bus later : Option I2cSerialBus) (g : Option GpioInterrupt)
    (conflicting : Bool)
    → or_found
        (note_bus x (record { bus = bus; interrupt = g; conflicting = conflicting })).bus
        later
      ≡ or_found bus (some x)
unfolding note_bus
note_bus-or x none later g conflicting = refl
note_bus-or x (some bus) later g conflicting = elim (Bool-cases (same_bus bus x)) [
  | inl same ↦ rw same refl
  | inr differ ↦ rw differ refl
]

note_interrupt-or :
    (x : GpioInterrupt) (bus : Option I2cSerialBus) (g later : Option GpioInterrupt)
    (conflicting : Bool)
    → or_found
        (note_interrupt x
          (record { bus = bus; interrupt = g; conflicting = conflicting })).interrupt
        later
      ≡ or_found g (some x)
note_interrupt-or x bus none later conflicting = refl
note_interrupt-or x bus (some g) later conflicting = refl

note_bus-interrupt : (x : I2cSerialBus) (seen : Seen) → (note_bus x seen).interrupt ≡ seen.interrupt
unfolding note_bus
note_bus-interrupt x seen = elim (Option-cases seen.bus) [
  | inl unset ↦ rw unset refl
  | inr (bus, there) ↦ elim (Bool-cases (same_bus bus x)) [
    | inl same ↦ rw (there, same) refl
    | inr differ ↦ rw (there, differ) refl
  ]
]

or_found-none : {A : Type 0} (o : Option A) → o ≡ or_found o none
or_found-none none = refl
or_found-none (some a) = refl

-- The bus that is noted is the first, and so is the interrupt.
pub note_all-first_bus :
    (found : List Resource) (seen : Seen)
    → (note_all found seen).bus ≡ or_found seen.bus (first_bus found)
unfolding note_all
note_all-first_bus [] seen = or_found-none seen.bus
note_all-first_bus (i2c x ∷ found) seen =
    note_all-first_bus found (note_bus x seen)
    ∙ note_bus-or x seen.bus (first_bus found) seen.interrupt seen.conflicting
note_all-first_bus (gpio x ∷ found) seen =
    note_all-first_bus found (note_interrupt x seen)
    ∙ ap (λ b. or_found b (first_bus found)) (note_interrupt-bus x seen)
note_all-first_bus (memory region ∷ found) seen = note_all-first_bus found seen
note_all-first_bus (other large kind ∷ found) seen = note_all-first_bus found seen

pub note_all-first_interrupt :
    (found : List Resource) (seen : Seen)
    → (note_all found seen).interrupt ≡ or_found seen.interrupt (first_interrupt found)
unfolding note_all
note_all-first_interrupt [] seen = or_found-none seen.interrupt
note_all-first_interrupt (i2c x ∷ found) seen =
    note_all-first_interrupt found (note_bus x seen)
    ∙ ap (λ g. or_found g (first_interrupt found)) (note_bus-interrupt x seen)
note_all-first_interrupt (gpio x ∷ found) seen =
    note_all-first_interrupt found (note_interrupt x seen)
    ∙ note_interrupt-or x seen.bus seen.interrupt (first_interrupt found) seen.conflicting
note_all-first_interrupt (memory region ∷ found) seen = note_all-first_interrupt found seen
note_all-first_interrupt (other large kind ∷ found) seen = note_all-first_interrupt found seen
