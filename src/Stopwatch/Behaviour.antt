-- ===== src/Stopwatch/Behaviour.antt =====
-- Whole runs of the stopwatch: any sequence of operations with damage in between, and the
-- start, pause, resume cycle.
use nanochronometer.Common.{ℕ, List, Option, ◌≡◌, refl, wrapping_sub, saturating_add}
use nanochronometer.Redundancy.Integrity.{IntegrityStats}
use nanochronometer.Redundancy.Protected
use nanochronometer.Redundancy.Protected.{Protected}
use nanochronometer.Chronometer.{Chronometer, units_to_ns}
use nanochronometer.Stopwatch.{
  Stopwatch, start, resume, reset, elapsed_ns, pause, stop, lap, toggle, inject_total_flip, verify,
  read_laps, pause_running, freeze, verify_start,
}
use nanochronometer.Stopwatch
use nanochronometer.Stopwatch.Plain
use nanochronometer.Stopwatch.Plain.{Plain}
use nanochronometer.Stopwatch.Refine.{Refines, verify-Refines, read_laps-AllRecoverable}
use nanochronometer.Stopwatch.Strikes.{
  Struck, StartStruck, AllStruck, Struck-Recoverable, StartStruck-StartRecoverable,
  AllStruck-AllRecoverable, inject_total_flip-Refines,
}
use nanochronometer.Stopwatch.Operations.{
  fresh-Refines, start-Refines, reset-Refines, resume-Refines, elapsed_ns-Refines, pause-Refines,
  stop-Refines, lap-Refines, toggle-Refines,
}

-- An operation with the counter reading that it takes.
pub data Command : Type 0 where
  start_at resume_at pause_at stop_at lap_at toggle_at : ℕ → Command
  clear scrub : Command

module _ {F : Type 0} (chrono : Chronometer F) where
  abbrev pub perform : Command → Stopwatch → IntegrityStats → Stopwatch
  perform (start_at now) sw s = start sw now
  perform (resume_at now) sw s = (resume sw now s).0
  perform (pause_at now) sw s = (pause chrono sw now s).0
  perform (stop_at now) sw s = (stop chrono sw now s).0
  perform (lap_at now) sw s = (lap chrono sw now s).1
  perform (toggle_at now) sw s = (toggle chrono sw now s).0
  perform clear sw s = reset sw
  perform scrub sw s = (verify sw s).1

  abbrev pub performed : Command → Plain → Plain
  performed (start_at now) p = Plain.begun now
  performed (resume_at now) p = Plain.resumed p now
  performed (pause_at now) p = Plain.paused_at (units_to_ns chrono) p now
  performed (stop_at now) p = Plain.stopped_at (units_to_ns chrono) p now
  performed (lap_at now) p = Plain.lapped (units_to_ns chrono) p now
  performed (toggle_at now) p = Plain.toggled (units_to_ns chrono) p now
  performed clear p = Plain.fresh
  performed scrub p = p

  -- The runs of the stopwatch beside the plain one. Between two operations a strike may damage
  -- any number of the stored words.
  pub data Runs : Plain → Stopwatch → Type 0 where
    unused : Runs Plain.fresh Stopwatch.fresh
    operate :
        {p : Plain} {sw : Stopwatch} (command : Command) (s : IntegrityStats)
        → Runs p sw
        → Runs (performed command p) (perform command sw s)
    strike :
        {p : Plain} {sw : Stopwatch} (total' : Protected) (start' : Option Protected)
        (laps' : List Protected)
        → Runs p sw
        → Struck sw.accumulated_ns total'
        → StartStruck sw.start_units start'
        → AllStruck sw.laps laps'
        → Runs p (record sw { accumulated_ns = total'; start_units = start'; laps = laps' })

  -- Each of the eight operations takes a stopwatch that stands for a plain one, damaged but
  -- recoverable words included, to one that stands for the plain one behind the same operation.
  pub perform-Refines :
      {p : Plain} {sw : Stopwatch} (command : Command) (s : IntegrityStats)
      → Refines p sw
      → Refines (performed command p) (perform command sw s)
  perform-Refines {sw = sw} (start_at now) s h = start-Refines sw now
  perform-Refines (resume_at now) s h = resume-Refines h now s
  perform-Refines (pause_at now) s h = pause-Refines chrono h now s
  perform-Refines (stop_at now) s h = stop-Refines chrono h now s
  perform-Refines (lap_at now) s h = (lap-Refines chrono h now s).1
  perform-Refines (toggle_at now) s h = toggle-Refines chrono h now s
  perform-Refines {sw = sw} clear s h = reset-Refines sw
  perform-Refines {p = p} {sw = sw} scrub s h = (verify-Refines p sw s h).0

  pub Runs-Refines : {p : Plain} {sw : Stopwatch} → Runs p sw → Refines p sw
  Runs-Refines unused = fresh-Refines
  Runs-Refines (operate command s r) = perform-Refines command s (Runs-Refines r)
  Runs-Refines (strike {p = p} {sw = sw} total' start' laps' r t st l) =
      let h = Runs-Refines r in
      record {
        same_state = h.same_state;
        total_kept = Struck-Recoverable p.total _ _ t h.total_kept;
        start_kept = StartStruck-StartRecoverable p.start sw.start_units start' st h.start_kept;
        laps_kept = AllStruck-AllRecoverable p.laps sw.laps laps' l h.laps_kept;
      }

  -- After any run of operations, with strikes in between that leave each struck word one
  -- flipped bit, or two in its codeword and one in each replica, the stopwatch reads the
  -- elapsed time and the laps that a stopwatch over undamaged plain numbers would. A strike
  -- hits words that are undamaged when it comes.
  pub elapsed_ns-Runs :
      {p : Plain} {sw : Stopwatch} (now : ℕ) (s : IntegrityStats)
      → Runs p sw
      → ((elapsed_ns chrono sw now s).0 ≡ Plain.reading (units_to_ns chrono) p now)
        × ((read_laps sw.laps s).0 ≡ p.laps)
  elapsed_ns-Runs {p = p} {sw = sw} now s r =
      let h = Runs-Refines r in
      (elapsed_ns-Refines chrono h now s, read_laps-AllRecoverable p.laps sw.laps s h.laps_kept)

module _ {F : Type 0} (chrono : Chronometer F) where
  -- After a pause the total is an undamaged word.
  frozen_total :
      (t0 t1 : ℕ) (sw : Stopwatch) (s : IntegrityStats)
      → (pause chrono (start sw t0) t1 s).0.accumulated_ns
        ≡ Protected.new (pause chrono (start sw t0) t1 s).0.accumulated_ns.value
  unfolding pause pause_running freeze verify verify_start start
  frozen_total t0 t1 sw s = refl

  -- A start, pause, resume, pause cycle reads the saturating sum of its two segments, however
  -- long the pauses, and even where a bit of the stored total flips during the first one.
  pub elapsed_ns-cycle :
      (sw : Stopwatch) (t0 t1 bit t2 t3 now : ℕ) (s1 s2 s3 s4 : IntegrityStats)
      → let first = (pause chrono (start sw t0) t1 s1).0 in
        let second = (resume (inject_total_flip first bit) t2 s2).0 in
        (elapsed_ns chrono (pause chrono second t3 s3).0 now s4).0
        ≡ saturating_add
            (saturating_add 0 (units_to_ns chrono (wrapping_sub t1 t0)))
            (units_to_ns chrono (wrapping_sub t3 t2))
  elapsed_ns-cycle sw t0 t1 bit t2 t3 now s1 s2 s3 s4 =
      let begun = start-Refines sw t0 in
      let first = pause-Refines chrono begun t1 s1 in
      let struck = inject_total_flip-Refines _ _ _ bit first (frozen_total t0 t1 sw s1) in
      let second = resume-Refines struck t2 s2 in
      elapsed_ns-Refines chrono (pause-Refines chrono second t3 s3) now s4
