-- ===== src/Input/Feed.antt =====
-- Bytes given one after another to a step of the driver, with the events that they give.
use nanochronometer.Common.{ℕ, ◌≡◌, ap, List, [], ◌∷◌, Option, none, some}
use nanochronometer.Input.{Event, Ps2}

-- An event, if there is one, before what the rest gives.
abbrev pub before : Option Event → List Event × Ps2 → List Event × Ps2
before none rest = rest
before (some event) (events, s) = (event ∷ events, s)

abbrev pub and_then : Option Event × Ps2 → (Ps2 → List Event × Ps2) → List Event × Ps2
and_then (event, s) rest = before event (rest s)

module _ (step : ℕ → Ps2 → Option Event × Ps2) where
  unfoldable pub fed : List ℕ → Ps2 → List Event × Ps2
  fed [] s = ([], s)
  fed (byte ∷ later) s = and_then (step byte s) (fed later)

  -- A byte that gives an event.
  pub fed-event :
      (byte : ℕ) (later : List ℕ) (s s' : Ps2) (event : Event)
      → step byte s ≡ (some event, s')
      → fed (byte ∷ later) s ≡ before (some event) (fed later s')
  unfolding fed
  fed-event byte later s s' event h = ap (λ r. and_then r (fed later)) h

  -- A byte that gives none.
  pub fed-quiet :
      (byte : ℕ) (later : List ℕ) (s s' : Ps2)
      → step byte s ≡ (none, s')
      → fed (byte ∷ later) s ≡ fed later s'
  unfolding fed
  fed-quiet byte later s s' h = ap (λ r. and_then r (fed later)) h
