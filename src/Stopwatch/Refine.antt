-- ===== src/Stopwatch/Refine.antt =====
-- The protected stopwatch refines the plain one: each operation takes related states to related
-- states, and every reading is the plain reading, whatever repairable damage the words carry.
use nanochronometer.Common.{ℕ, ◌≡◌, refl, List, [], ◌∷◌, ◌++◌, Option, none, some}
use nanochronometer.Redundancy.Integrity.{Integrity, IntegrityStats}
use nanochronometer.Redundancy.Protected
use nanochronometer.Redundancy.Protected.{Protected}
use nanochronometer.Redundancy.Protected.Repair.{
  Recoverable, new-Recoverable, get_checked-Recoverable, verify-Recoverable,
}
use nanochronometer.Stopwatch.{Stopwatch, verify_start, verify_laps, verify, read_laps}
use nanochronometer.Stopwatch.Plain.{Plain}

abbrev pub StartRecoverable : Option ℕ → Option Protected → Type 0
StartRecoverable none none = Unit
StartRecoverable (some v) (some w) = Recoverable v w
StartRecoverable none (some w) = ⊥
StartRecoverable (some v) none = ⊥

abbrev pub AllRecoverable : List ℕ → List Protected → Type 0
AllRecoverable [] [] = Unit
AllRecoverable (v ∷ vs) (w ∷ ws) = Recoverable v w × AllRecoverable vs ws
AllRecoverable [] (w ∷ ws) = ⊥
AllRecoverable (v ∷ vs) [] = ⊥

-- The stopwatch stands for the plain one: each of its words can be recovered to the plain value.
pub record Refines (p : Plain) (sw : Stopwatch) : Type 0 where
  pub same_state : sw.state ≡ p.state
  pub total_kept : Recoverable p.total sw.accumulated_ns
  pub start_kept : StartRecoverable p.start sw.start_units
  pub laps_kept : AllRecoverable p.laps sw.laps

-- A start word that reads as its value without a check.
abbrev pub StartExact : Option ℕ → Option Protected → Type 0
StartExact none none = Unit
StartExact (some v) (some w) = w.value ≡ v
StartExact none (some w) = ⊥
StartExact (some v) none = ⊥

verify_start-StartRecoverable :
    (o : Option ℕ) (w : Option Protected) (worst : Integrity) (s : IntegrityStats)
    → StartRecoverable o w
    → StartRecoverable o (verify_start w worst s).1 × StartExact o (verify_start w worst s).1
unfolding verify_start
verify_start-StartRecoverable none none worst s h = (tt, tt)
verify_start-StartRecoverable (some v) (some w) worst s h =
    let (kept, exact, usable) = verify-Recoverable w v s h in (kept, exact)
verify_start-StartRecoverable none (some w) worst s h = elim h [ ]
verify_start-StartRecoverable (some v) none worst s h = elim h [ ]

verify_laps-AllRecoverable :
    (vs : List ℕ) (ws : List Protected) (worst : Integrity) (s : IntegrityStats)
    → AllRecoverable vs ws
    → AllRecoverable vs (verify_laps ws worst s).1
unfolding verify_laps
verify_laps-AllRecoverable [] [] worst s h = tt
verify_laps-AllRecoverable (v ∷ vs) (w ∷ ws) worst s h = (
  (verify-Recoverable w v s h.0).0,
  verify_laps-AllRecoverable vs ws _ (Protected.verify w s).1 h.1,
)
verify_laps-AllRecoverable [] (w ∷ ws) worst s h = elim h [ ]
verify_laps-AllRecoverable (v ∷ vs) [] worst s h = elim h [ ]

-- A scrub keeps the relation, and leaves the total and the start exact in the store.
pub verify-Refines :
    (p : Plain) (sw : Stopwatch) (s : IntegrityStats)
    → Refines p sw
    → Refines p (verify sw s).1
      × ((verify sw s).1.accumulated_ns.value ≡ p.total)
      × StartExact p.start (verify sw s).1.start_units
unfolding verify
verify-Refines p sw s h =
    let (found, total) = (Protected.verify sw.accumulated_ns s).0 in
    let s1 = (Protected.verify sw.accumulated_ns s).1 in
    let (total_kept, exact, usable) = verify-Recoverable sw.accumulated_ns p.total s h.total_kept in
    let (start_kept, start_exact) =
      verify_start-StartRecoverable p.start sw.start_units found s1 h.start_kept in
    (
      record {
        same_state = h.same_state;
        total_kept = total_kept;
        start_kept = start_kept;
        laps_kept = verify_laps-AllRecoverable p.laps sw.laps _ _ h.laps_kept;
      },
      exact,
      start_exact,
    )

pub append-AllRecoverable :
    (vs : List ℕ) (ws : List Protected) (v : ℕ)
    → AllRecoverable vs ws
    → AllRecoverable (vs ++ (v ∷ [])) (ws ++ (Protected.new v ∷ []))
append-AllRecoverable [] [] v h = (new-Recoverable v, tt)
append-AllRecoverable (u ∷ vs) (w ∷ ws) v h = (h.0, append-AllRecoverable vs ws v h.1)
append-AllRecoverable [] (w ∷ ws) v h = elim h [ ]
append-AllRecoverable (u ∷ vs) [] v h = elim h [ ]

-- The laps are read back as they were recorded.
pub read_laps-AllRecoverable :
    (vs : List ℕ) (ws : List Protected) (s : IntegrityStats)
    → AllRecoverable vs ws
    → (read_laps ws s).0 ≡ vs
unfolding read_laps
read_laps-AllRecoverable [] [] s h = refl
read_laps-AllRecoverable (v ∷ vs) (w ∷ ws) s h = cc (
  (get_checked-Recoverable w v s h.0).0,
  read_laps-AllRecoverable vs ws (Protected.get_checked w s).1 h.1,
)
read_laps-AllRecoverable [] (w ∷ ws) s h = elim h [ ]
read_laps-AllRecoverable (v ∷ vs) [] s h = elim h [ ]
