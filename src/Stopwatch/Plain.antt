-- ===== src/Stopwatch/Plain.antt =====
-- What a stopwatch promises, over plain numbers: the specification that the protected stopwatch
-- of crates/nanochrono-core/src/stopwatch.rs refines.
use nanochronometer.Common.{
  ℕ, List, [], ◌∷◌, ◌++◌, Option, none, some, if◌then◌else◌, wrapping_sub, saturating_add,
}
use nanochronometer.Stopwatch.{StopwatchState, at_reset, running, paused, stopped, is_running}

pub record Plain : Type 0 where
  pub state : StopwatchState
  pub total : ℕ
  pub start : Option ℕ
  pub laps : List ℕ

abbrev pub fresh : Plain
fresh = record { state = at_reset; total = 0; start = none; laps = [] }

abbrev pub begun : ℕ → Plain
begun now = record { state = running; total = 0; start = some now; laps = [] }

abbrev pub resumed : Plain → ℕ → Plain
resumed p now = if is_running p.state then p else record p { state = running; start = some now }

-- `convert` turns counter units into nanoseconds.
module _ (convert : ℕ → ℕ) where
  abbrev pub reading_from : ℕ → Option ℕ → ℕ → ℕ
  reading_from total none now = total
  reading_from total (some origin) now = saturating_add total (convert (wrapping_sub now origin))

  abbrev pub reading : Plain → ℕ → ℕ
  reading p now = reading_from p.total p.start now

  abbrev pub frozen : Plain → ℕ → StopwatchState → Plain
  frozen p now state = record p { state = state; total = reading p now; start = none }

  abbrev pub paused_at : Plain → ℕ → Plain
  paused_at p now = if is_running p.state then frozen p now paused else p

  abbrev pub stopped_at : Plain → ℕ → Plain
  stopped_at p now =
      if is_running p.state then frozen p now stopped else record p { state = stopped }

  abbrev pub lapped : Plain → ℕ → Plain
  lapped p now = record p { laps = p.laps ++ (reading p now ∷ []) }

  abbrev pub toggled_from : StopwatchState → Plain → ℕ → Plain
  toggled_from at_reset p now = begun now
  toggled_from running p now = paused_at p now
  toggled_from paused p now = resumed p now
  toggled_from stopped p now = resumed p now

  abbrev pub toggled : Plain → ℕ → Plain
  toggled p now = toggled_from p.state p now
