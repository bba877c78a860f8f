-- ===== src/HidReport/Finds.antt =====
-- The walk over a descriptor ends, within the bounds, and what the finders return.
use nanochronometer.Common.{
  ℕ, zero, suc, ◌+◌, ◌≤◌, ◌≡◌, ◌≢◌, refl, arith, ◌⊎◌, subst, ap, ◌∙◌, Bool, true, false, Bool-cases,
  inl, inr, List, [], ◌∷◌, Option, none, some, length, drop, length-drop, ltb, ◌==◌, Option-cases,
}
use mathlib.Core.Option.{some-injective}
use nanochronometer.HidReport.{Field, PointerLayout}
use nanochronometer.HidReport.State.{Slots, Candidate, complete}
use nanochronometer.HidReport.Descriptor.{
  Walk, Walked, finished, refused, out_of_fuel, walk, step, long_item, size_of, parse, find,
  find_pointer, pointer_from, div_ceil,
}

-- At most `n` bytes are left where a round goes on.
abbrev AtMost : ℕ → Option (Walk × List ℕ) → Type 0
AtMost n none = Unit
AtMost n (some next) = length next.1 ≤ n

-- A round leaves no more bytes than follow its prefix byte.
after_long_item :
    (w : Walk) (rest : List ℕ)
    → AtMost (length rest) (elim (long_item rest) [ none ↦ none | some rest' ↦ some (w, rest') ])
after_long_item w [] = tt
after_long_item w (size ∷ rest) = omega (arith, length-drop (1 + size) rest)

after_item :
    (rest : List ℕ) (size : ℕ) (o : Option Walk)
    → AtMost (length rest) (elim o [ none ↦ none | some w' ↦ some (w', drop size rest) ])
after_item rest size none = tt
after_item rest size (some w') = omega (arith, length-drop size rest)

step-AtMost : (w : Walk) (prefix : ℕ) (rest : List ℕ) → AtMost (length rest) (step w prefix rest)
unfolding step
step-AtMost w prefix rest = elim (Bool-cases (prefix == 0xFE)) [
  | inl long ↦ rw long (after_long_item w rest)
  | inr short ↦ elim (Bool-cases (ltb (length rest) (size_of prefix))) [
    | inl cut ↦ rw (short, cut) tt
    | inr whole ↦ rw (short, whole) (after_item rest (size_of prefix) _)
  ]
]

-- A walk that ended, one way or the other.
abbrev Ended : Walked → Type 0
Ended (finished w) = Unit
Ended refused = Unit
Ended out_of_fuel = ⊥

after_step :
    (fuel n : ℕ) (o : Option (Walk × List ℕ))
    → ((w : Walk) (left : List ℕ) → length left ≤ fuel → Ended (walk fuel w left))
    → AtMost n o
    → n ≤ fuel
    → Ended (elim o [ none ↦ refused | some next ↦ walk fuel next.0 next.1 ])
after_step fuel n none ends h k = tt
after_step fuel n (some next) ends h k = ends next.0 next.1 (omega arith)

walk-Ended :
    (fuel : ℕ) (w : Walk) (descriptor : List ℕ)
    → length descriptor ≤ fuel
    → Ended (walk fuel w descriptor)
unfolding walk
walk-Ended zero w [] h = tt
walk-Ended (suc fuel) w [] h = tt
walk-Ended zero w (prefix ∷ rest) h = absurd (omega arith)
walk-Ended (suc fuel) w (prefix ∷ rest) h =
    after_step fuel (length rest) (step w prefix rest) (walk-Ended fuel) (step-AtMost w prefix rest)
      (omega arith)

-- Where the fuel is at least the length of the descriptor, the walk over it does not run out of
-- fuel.
pub walk_ends :
    (fuel : ℕ) (w : Walk) (descriptor : List ℕ)
    → length descriptor ≤ fuel
    → walk fuel w descriptor ≢ out_of_fuel
walk_ends fuel w descriptor h e = subst Ended e (walk-Ended fuel w descriptor h)

abbrev pub Holds : Candidate → Slots → Type 0
Holds c [] = ⊥
Holds c (d ∷ slots) = (c ≡ d) ⊎ Holds c slots

-- The layout is that of a candidate of the descriptor with both axes, outside every digitizer.
pub data FoundIn (descriptor : List ℕ) (layout : PointerLayout) : Type 0 where
  found :
      (slots : Slots) (c : Candidate)
      → parse descriptor ≡ some slots
      → Holds c slots
      → c.digitizer ≡ false
      → c.report_id ≡ layout.report_id
      → c.x ≡ some layout.x
      → c.y ≡ some layout.y
      → FoundIn descriptor layout

-- What `find` gives is in the list and passes the test.
abbrev FindsIn : (Candidate → Bool) → Slots → Option Candidate → Type 0
FindsIn ok slots none = Unit
FindsIn ok slots (some c) = Holds c slots × (ok c ≡ true)

weaker :
    (ok : Candidate → Bool) (d : Candidate) (slots : Slots) (o : Option Candidate)
    → FindsIn ok slots o
    → FindsIn ok (d ∷ slots) o
weaker ok d slots none h = tt
weaker ok d slots (some c) h = (inr h.0, h.1)

find-FindsIn : (ok : Candidate → Bool) (slots : Slots) → FindsIn ok slots (find ok slots)
unfolding find
find-FindsIn ok [] = tt
find-FindsIn ok (d ∷ slots) = elim (Bool-cases (ok d)) [
  | inl good ↦ rw good (inl refl, good)
  | inr bad ↦ rw bad (weaker ok d slots (find ok slots) (find-FindsIn ok slots))
]

not_digitizer : (c : Candidate) → complete c ≡ true → c.digitizer ≡ false
not_digitizer c h = ground (arith, h)

from_candidate :
    (descriptor : List ℕ) (slots : Slots) (c : Candidate) (x y : Option Field)
    (layout : PointerLayout)
    → parse descriptor ≡ some slots
    → Holds c slots
    → c.digitizer ≡ false
    → c.x ≡ x
    → c.y ≡ y
    → pointer_from c x y ≡ some layout
    → FoundIn descriptor layout
from_candidate descriptor slots c (some x) (some y) layout e m d ex ey h =
    let built : PointerLayout = record {
      report_id = c.report_id;
      body_bytes = div_ceil c.bits;
      x = x;
      y = y;
      buttons = c.buttons;
      wheel = c.wheel;
    } in
    let same : built ≡ layout = some-injective built layout h in
    found slots c e m d (ap (λ l. l.report_id) same) (ex ∙ ap (λ l. some l.x) same)
      (ey ∙ ap (λ l. some l.y) same)
from_candidate descriptor slots c (some x) none layout e m d ex ey h = absurd (cc h)
from_candidate descriptor slots c none y layout e m d ex ey h = absurd (cc h)

from_found :
    (descriptor : List ℕ) (slots : Slots) (o : Option Candidate) (layout : PointerLayout)
    → parse descriptor ≡ some slots
    → FindsIn complete slots o
    → elim o [ none ↦ none | some c ↦ pointer_from c c.x c.y ] ≡ some layout
    → FoundIn descriptor layout
from_found descriptor slots none layout e m h = absurd (cc h)
from_found descriptor slots (some c) layout e m h =
    from_candidate descriptor slots c c.x c.y layout e m.0 (not_digitizer c m.1) refl refl h

-- A pointer layout that is found is that of a report of the descriptor that has both axes and
-- lies outside every digitizer collection.
pub find_pointer-FoundIn :
    (descriptor : List ℕ) (layout : PointerLayout)
    → find_pointer descriptor ≡ some layout
    → FoundIn descriptor layout
unfolding find_pointer
find_pointer-FoundIn descriptor layout h = elim (Option-cases (parse descriptor)) [
  | inl refused_all ↦ absurd (cc (h, refused_all))
  | inr parsed ↦
      from_found descriptor parsed.0 (find complete parsed.0) layout parsed.1
        (find-FindsIn complete parsed.0) (rw (find_pointer, parsed.1) at h)
]
