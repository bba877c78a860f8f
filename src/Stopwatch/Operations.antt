-- ===== src/Stopwatch/Operations.antt =====
-- Each operation of the protected stopwatch against the plain one.
use nanochronometer.Common.{
  ℕ, ◌≡◌, refl, ap, sym, subst, ◌∙◌, true, false, Option, none, some, Bool-cases, inl, inr,
}
use nanochronometer.Redundancy.Integrity.{IntegrityStats}
use nanochronometer.Redundancy.Protected
use nanochronometer.Redundancy.Protected.{Protected}
use nanochronometer.Redundancy.Protected.Repair.{new-Recoverable, get_checked-Recoverable}
use nanochronometer.Chronometer.{Chronometer, units_to_ns}
use nanochronometer.Stopwatch.{
  StopwatchState, at_reset, running, paused, stopped, is_running, Stopwatch, verify, start, resume,
  resume_stopped, reset, elapsed_ns, freeze, pause, pause_running, stop, lap, toggle, fold_segment,
  live_reading, toggle_from,
}
use nanochronometer.Stopwatch
use nanochronometer.Stopwatch.Plain
use nanochronometer.Stopwatch.Plain.{Plain}
use nanochronometer.Stopwatch.Refine.{
  Refines, verify-Refines, StartRecoverable, StartExact, append-AllRecoverable,
}

pub fresh-Refines : Refines Plain.fresh Stopwatch.fresh
fresh-Refines = record {
  same_state = refl;
  total_kept = new-Recoverable 0;
  start_kept = tt;
  laps_kept = tt;
}

pub start-Refines : (sw : Stopwatch) (now : ℕ) → Refines (Plain.begun now) (start sw now)
unfolding start
start-Refines sw now = record {
  same_state = refl;
  total_kept = new-Recoverable 0;
  start_kept = new-Recoverable now;
  laps_kept = tt;
}

pub reset-Refines : (sw : Stopwatch) → Refines Plain.fresh (reset sw)
unfolding reset
reset-Refines sw = record {
  same_state = refl;
  total_kept = new-Recoverable 0;
  start_kept = tt;
  laps_kept = tt;
}

module _ {p : Plain} {sw : Stopwatch} (h : Refines p sw) where
  runs : is_running p.state ≡ true → is_running sw.state ≡ true
  runs live = ap is_running h.same_state ∙ live

  rests : is_running p.state ≡ false → is_running sw.state ≡ false
  rests still = ap is_running h.same_state ∙ still

  -- On a stopwatch that stands for a plain one, `resume` leaves one that stands for the plain
  -- one resumed: continuing from the same total where it did not run, and unchanged where it
  -- did.
  pub resume-Refines :
      (now : ℕ) (s : IntegrityStats) → Refines (Plain.resumed p now) (resume sw now s).0
  unfolding resume
  resume-Refines now s = elim (Bool-cases (is_running p.state)) [
    | inl live ↦ rw (live, runs live) h
    | inr still ↦
        let kept = (verify-Refines p sw s h).0 in
        rw (still, rests still)
          (record {
            same_state = refl;
            total_kept = kept.total_kept;
            start_kept = new-Recoverable now;
            laps_kept = kept.laps_kept;
          })
  ]

module _ {F : Type 0} (chrono : Chronometer F) {p : Plain} {sw : Stopwatch} (h : Refines p sw) where
  abbrev convert : ℕ → ℕ
  convert = units_to_ns chrono

  live_reading_lem :
      (total : ℕ) (o : Option ℕ) (w : Option Protected) (now : ℕ) (s : IntegrityStats)
      → StartRecoverable o w
      → (live_reading chrono total w now s).0 ≡ Plain.reading_from convert total o now
  live_reading_lem total none none now s k = refl
  live_reading_lem total (some v) (some w) now s k = rw (get_checked-Recoverable w v s k).0
  live_reading_lem total none (some w) now s k = elim k [ ]
  live_reading_lem total (some v) none now s k = elim k [ ]

  -- Every reading is the plain reading.
  pub elapsed_ns-Refines :
      (now : ℕ) (s : IntegrityStats) → (elapsed_ns chrono sw now s).0 ≡ Plain.reading convert p now
  unfolding elapsed_ns
  elapsed_ns-Refines now s =
      let total_read = (get_checked-Recoverable sw.accumulated_ns p.total s h.total_kept).0 in
      ap
        (λ t.
          (live_reading chrono t sw.start_units now
            (Protected.get_checked sw.accumulated_ns s).1).0)
        total_read
      ∙ live_reading_lem p.total p.start sw.start_units now _ h.start_kept

module _ {F : Type 0} (chrono : Chronometer F) where
  abbrev to_ns : ℕ → ℕ
  to_ns = units_to_ns chrono

  fold_segment-Refines :
      (p : Plain) (sw : Stopwatch) (o : Option ℕ) (w : Option Protected) (now : ℕ)
      → Refines p sw
      → p.start ≡ o
      → sw.start_units ≡ w
      → sw.accumulated_ns.value ≡ p.total
      → StartExact o w
      → Refines
          (record p { total = Plain.reading_from to_ns p.total o now; start = none })
          (fold_segment chrono sw w now)
  fold_segment-Refines p sw none none now h e f exact k = record {
    same_state = h.same_state;
    total_kept = h.total_kept;
    start_kept = rw f tt;
    laps_kept = h.laps_kept;
  }
  fold_segment-Refines p sw (some v) (some w) now h e f exact k = record {
    same_state = h.same_state;
    total_kept = rw (exact, k) (new-Recoverable _);
    start_kept = tt;
    laps_kept = h.laps_kept;
  }
  fold_segment-Refines p sw none (some w) now h e f exact k = elim k [ ]
  fold_segment-Refines p sw (some v) none now h e f exact k = elim k [ ]

module _ {F : Type 0} (chrono : Chronometer F) {p : Plain} {sw : Stopwatch} (h : Refines p sw) where
  freeze-Refines :
      (now : ℕ) (s : IntegrityStats)
      → Refines
          (record p { total = Plain.reading (units_to_ns chrono) p now; start = none })
          (freeze chrono sw now s).0
  unfolding freeze
  freeze-Refines now s =
      let (kept, exact, start_exact) = verify-Refines p sw s h in
      fold_segment-Refines chrono p (verify sw s).1 p.start (verify sw s).1.start_units now kept
        refl refl exact start_exact

  -- On a stopwatch that stands for a plain one, `pause` leaves one that stands for the plain
  -- one paused: its live segment folded into the total where it ran, and unchanged where it did
  -- not.
  pub pause-Refines :
      (now : ℕ) (s : IntegrityStats)
      → Refines (Plain.paused_at (units_to_ns chrono) p now) (pause chrono sw now s).0
  unfolding pause pause_running
  pause-Refines now s = elim (Bool-cases (is_running p.state)) [
    | inl live ↦
        let kept = freeze-Refines now s in
        rw (live, runs h live)
          (record {
            same_state = refl;
            total_kept = kept.total_kept;
            start_kept = kept.start_kept;
            laps_kept = kept.laps_kept;
          })
    | inr still ↦ rw (still, rests h still) h
  ]

  pub stop-Refines :
      (now : ℕ) (s : IntegrityStats)
      → Refines (Plain.stopped_at (units_to_ns chrono) p now) (stop chrono sw now s).0
  unfolding stop
  stop-Refines now s = elim (Bool-cases (is_running p.state)) [
    | inl live ↦
        let kept = freeze-Refines now s in
        rw (live, runs h live)
          (record {
            same_state = refl;
            total_kept = kept.total_kept;
            start_kept = kept.start_kept;
            laps_kept = kept.laps_kept;
          })
    | inr still ↦
        rw (still, rests h still)
          (record {
            same_state = refl;
            total_kept = h.total_kept;
            start_kept = h.start_kept;
            laps_kept = h.laps_kept;
          })
  ]

  -- On a stopwatch that stands for a plain one, `lap` returns the plain reading, and leaves a
  -- stopwatch that stands for the plain one with that reading recorded.
  pub lap-Refines :
      (now : ℕ) (s : IntegrityStats)
      → ((lap chrono sw now s).0 ≡ Plain.reading (units_to_ns chrono) p now)
        × Refines (Plain.lapped (units_to_ns chrono) p now) (lap chrono sw now s).1
  unfolding lap
  lap-Refines now s =
      let kept = (verify-Refines p sw s h).0 in
      let read = elapsed_ns-Refines chrono kept now (verify sw s).2 in
      (
        read,
        record {
          same_state = kept.same_state;
          total_kept = kept.total_kept;
          start_kept = kept.start_kept;
          laps_kept = rw read (append-AllRecoverable p.laps (verify sw s).1.laps _ kept.laps_kept);
        },
      )

  toggle_from-Refines :
      (state : StopwatchState) (now : ℕ) (s : IntegrityStats)
      → Refines
          (Plain.toggled_from (units_to_ns chrono) state p now)
          (toggle_from chrono state sw now s).0
  toggle_from-Refines at_reset now s = start-Refines sw now
  toggle_from-Refines running now s = pause-Refines now s
  toggle_from-Refines paused now s = resume-Refines h now s
  toggle_from-Refines stopped now s = resume-Refines h now s

  -- On a stopwatch that stands for a plain one, `toggle` starts, pauses or resumes by the
  -- state, and leaves one that stands for the plain one toggled.
  pub toggle-Refines :
      (now : ℕ) (s : IntegrityStats)
      → Refines (Plain.toggled (units_to_ns chrono) p now) (toggle chrono sw now s).0
  unfolding toggle
  toggle-Refines now s =
      subst
        (λ state.
          Refines (Plain.toggled (units_to_ns chrono) p now) (toggle_from chrono state sw now s).0)
        (sym h.same_state) (toggle_from-Refines p.state now s)
