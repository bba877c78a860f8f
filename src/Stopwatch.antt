-- ===== src/Stopwatch.antt =====
-- crates/nanochrono-core/src/stopwatch.rs: the stopwatch over protected words. `now` is the
-- counter reading that an operation takes; every operation that examines a protected word takes
-- and returns the process-wide integrity counters.
pub mod Plain
pub mod Refine
pub mod Operations
pub mod Strikes
pub mod Behaviour
mod Runs
use nanochronometer.Common.{
  ℕ, Bool, true, false, List, [], ◌∷◌, ◌++◌, Option, none, some, if◌then◌else◌, wrapping_sub,
  saturating_add, length,
}
use Prim.Native.String.{String}
use nanochronometer.Redundancy.Integrity.{Integrity, clean, worse, IntegrityStats}
use nanochronometer.Redundancy.Protected
use nanochronometer.Redundancy.Protected.{Protected}
use nanochronometer.Chronometer.{Chronometer, units_to_ns}

pub data StopwatchState : Type 0 where
  at_reset running paused stopped : StopwatchState

abbrev pub state_name : StopwatchState → String
state_name at_reset = "reset"
state_name running = "running"
state_name paused = "paused"
state_name stopped = "stopped"

abbrev pub is_running : StopwatchState → Bool
is_running running = true
is_running at_reset = false
is_running paused = false
is_running stopped = false

pub record Stopwatch : Type 0 where
  pub state : StopwatchState
  pub accumulated_ns : Protected
  pub start_units : Option Protected
  pub laps : List Protected
  pub last_integrity : Integrity

abbrev pub fresh : Stopwatch
fresh = record {
  state = at_reset;
  accumulated_ns = Protected.new 0;
  start_units = none;
  laps = [];
  last_integrity = clean;
}

-- The laps as they are yielded, each verified on the way.
unfoldable pub read_laps : List Protected → IntegrityStats → List ℕ × IntegrityStats
read_laps [] s = ([], s)
read_laps (lap ∷ laps) s =
    let ((value, found), s') = Protected.get_checked lap s in
    let (values, s'') = read_laps laps s' in (value ∷ values, s'')

unfoldable pub last_lap : List Protected → IntegrityStats → Option ℕ × IntegrityStats
last_lap [] s = (none, s)
last_lap (lap ∷ []) s = let ((value, found), s') = Protected.get_checked lap s in (some value, s')
last_lap (lap ∷ next ∷ laps) s = last_lap (next ∷ laps) s

-- The checks of `integrity` and the scrubs of `verify`, over the laps, from the worst so far.
unfoldable pub check_laps : List Protected → Integrity → IntegrityStats → Integrity × IntegrityStats
check_laps [] worst s = (worst, s)
check_laps (lap ∷ laps) worst s =
    let ((value, found), s') = Protected.get_checked lap s in check_laps laps (worse worst found) s'

abbrev pub check_start : Option Protected → Integrity → IntegrityStats → Integrity × IntegrityStats
check_start none worst s = (worst, s)
check_start (some start) worst s =
    let ((value, found), s') = Protected.get_checked start s in (worse worst found, s')

unfoldable pub integrity : Stopwatch → IntegrityStats → Integrity × IntegrityStats
unfolding check_laps
integrity sw s =
    let ((value, found), s1) = Protected.get_checked sw.accumulated_ns s in
    let (worst, s2) = check_start sw.start_units found s1 in check_laps sw.laps worst s2

unfoldable pub verify_laps :
    List Protected → Integrity → IntegrityStats → Integrity × List Protected × IntegrityStats
verify_laps [] worst s = (worst, [], s)
verify_laps (lap ∷ laps) worst s =
    let ((found, lap'), s') = Protected.verify lap s in
    let (worst', laps', s'') = verify_laps laps (worse worst found) s' in
    (worst', lap' ∷ laps', s'')

unfoldable pub verify_start :
    Option Protected → Integrity → IntegrityStats → Integrity × Option Protected × IntegrityStats
verify_start none worst s = (worst, none, s)
verify_start (some start) worst s =
    let ((found, start'), s') = Protected.verify start s in (worse worst found, some start', s')

unfoldable pub verify : Stopwatch → IntegrityStats → Integrity × Stopwatch × IntegrityStats
verify sw s =
    let ((found, total), s1) = Protected.verify sw.accumulated_ns s in
    let (worst, start', s2) = verify_start sw.start_units found s1 in
    let (worst', laps', s3) = verify_laps sw.laps worst s2 in
    (
      worst',
      record sw {
        accumulated_ns = total;
        start_units = start';
        laps = laps';
        last_integrity = worst';
      },
      s3,
    )

-- `start`
unfoldable pub start : Stopwatch → ℕ → Stopwatch
start sw now = record sw {
  accumulated_ns = Protected.new 0;
  laps = [];
  last_integrity = clean;
  start_units = some (Protected.new now);
  state = running;
}

unfoldable pub resume_stopped : Stopwatch → ℕ → IntegrityStats → Stopwatch × IntegrityStats
resume_stopped sw now s =
    let (found, sw', s') = verify sw s in
    (record sw' { start_units = some (Protected.new now); state = running }, s')

unfoldable pub resume : Stopwatch → ℕ → IntegrityStats → Stopwatch × IntegrityStats
unfolding resume_stopped
resume sw now s = if is_running sw.state then (sw, s) else resume_stopped sw now s

unfoldable pub reset : Stopwatch → Stopwatch
reset sw = record sw {
  accumulated_ns = Protected.new 0;
  start_units = none;
  laps = [];
  last_integrity = clean;
  state = at_reset;
}

unfoldable pub inject_total_flip : Stopwatch → ℕ → Stopwatch
inject_total_flip sw bit = record sw {
  accumulated_ns = Protected.inject_flip sw.accumulated_ns bit;
}

module _ {F : Type 0} (chrono : Chronometer F) where
  abbrev live_reading : ℕ → Option Protected → ℕ → IntegrityStats → ℕ × IntegrityStats
  live_reading accumulated none now s = (accumulated, s)
  live_reading accumulated (some start) now s =
      let ((origin, found), s') = Protected.get_checked start s in
      (saturating_add accumulated (units_to_ns chrono (wrapping_sub now origin)), s')

  unfoldable pub elapsed_ns : Stopwatch → ℕ → IntegrityStats → ℕ × IntegrityStats
  elapsed_ns sw now s =
      let ((accumulated, found), s') = Protected.get_checked sw.accumulated_ns s in
      live_reading accumulated sw.start_units now s'

  -- The `if let` of `freeze`, past its scrub; `take` leaves no live segment.
  abbrev fold_segment : Stopwatch → Option Protected → ℕ → Stopwatch
  fold_segment sw none now = sw
  fold_segment sw (some start) now =
      let live = wrapping_sub now (Protected.get start) in
      let total = saturating_add (Protected.get sw.accumulated_ns) (units_to_ns chrono live) in
      record sw { accumulated_ns = Protected.set sw.accumulated_ns total; start_units = none }

  unfoldable pub freeze : Stopwatch → ℕ → IntegrityStats → Stopwatch × IntegrityStats
  freeze sw now s = let (found, sw', s') = verify sw s in (fold_segment sw' sw'.start_units now, s')

  unfoldable pub pause_running : Stopwatch → ℕ → IntegrityStats → Stopwatch × IntegrityStats
  pause_running sw now s = let (sw', s') = freeze sw now s in (record sw' { state = paused }, s')

  unfoldable pub pause : Stopwatch → ℕ → IntegrityStats → Stopwatch × IntegrityStats
  pause sw now s = if is_running sw.state then pause_running sw now s else (sw, s)

  unfoldable pub stop : Stopwatch → ℕ → IntegrityStats → Stopwatch × IntegrityStats
  stop sw now s =
      let (sw', s') = if is_running sw.state then freeze sw now s else (sw, s) in
      (record sw' { state = stopped }, s')

  unfoldable pub lap : Stopwatch → ℕ → IntegrityStats → ℕ × Stopwatch × IntegrityStats
  lap sw now s =
      let (found, sw', s') = verify sw s in
      let (reading, s'') = elapsed_ns sw' now s' in
      (reading, record sw' { laps = sw'.laps ++ (Protected.new reading ∷ []) }, s'')

  abbrev toggle_from : StopwatchState → Stopwatch → ℕ → IntegrityStats → Stopwatch × IntegrityStats
  toggle_from at_reset sw now s = (start sw now, s)
  toggle_from running sw now s = pause sw now s
  toggle_from paused sw now s = resume sw now s
  toggle_from stopped sw now s = resume sw now s

  unfoldable pub toggle : Stopwatch → ℕ → IntegrityStats → Stopwatch × IntegrityStats
  toggle sw now s = toggle_from sw.state sw now s
