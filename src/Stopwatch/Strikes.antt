-- ===== src/Stopwatch/Strikes.antt =====
-- Damage to the words of a stopwatch: what a strike may do to them, and that it leaves them
-- recoverable.
use nanochronometer.Common.{ℕ, ◌<◌, ◌≡◌, ◌≢◌, sym, subst, ◌∙◌, List, [], ◌∷◌, Option, none, some}
use nanochronometer.Redundancy.Integrity.{IntegrityStats}
use nanochronometer.Redundancy.Protected
use nanochronometer.Redundancy.Protected.{Protected, inject_flip}
use nanochronometer.Redundancy.Protected.Flips.{IsFirstReplicaBit, IsSecondReplicaBit}
use nanochronometer.Redundancy.Protected.Repair.{
  Recoverable, get_checked-Recoverable, new-Recoverable,
}
use nanochronometer.Redundancy.Protected.Tolerance.{inject_flip-Recoverable, four_flips-Recoverable}
use nanochronometer.Stopwatch.{Stopwatch, inject_total_flip}
use nanochronometer.Stopwatch.Plain.{Plain}
use nanochronometer.Stopwatch.Refine.{Refines, StartRecoverable, AllRecoverable}

-- What may happen to one word: nothing, or, to an undamaged word, one flipped bit anywhere, or
-- two in the primary codeword and one in each replica.
pub data Struck : Protected → Protected → Type 0 where
  spared : {w : Protected} → Struck w w
  one_flip : (v bit : ℕ) → Struck (Protected.new v) (inject_flip (Protected.new v) bit)
  four_flips :
      (v a b c d : ℕ)
      → a < 72
      → b < 72
      → a ≢ b
      → IsFirstReplicaBit c
      → IsSecondReplicaBit d
      → Struck
          (Protected.new v)
          (inject_flip (inject_flip (inject_flip (inject_flip (Protected.new v) a) b) c) d)

abbrev pub StartStruck : Option Protected → Option Protected → Type 0
StartStruck none none = Unit
StartStruck (some w) (some w') = Struck w w'
StartStruck none (some w') = ⊥
StartStruck (some w) none = ⊥

abbrev pub AllStruck : List Protected → List Protected → Type 0
AllStruck [] [] = Unit
AllStruck (w ∷ ws) (w' ∷ ws') = Struck w w' × AllStruck ws ws'
AllStruck [] (w' ∷ ws') = ⊥
AllStruck (w ∷ ws) [] = ⊥

Recoverable-unique : (v w : ℕ) → Recoverable v (Protected.new w) → v ≡ w
Recoverable-unique v w h =
    let s : IntegrityStats = record {
      checks = 0;
      ecc_corrections = 0;
      tmr_corrections = 0;
      unrecoverable_count = 0;
    } in
    sym (get_checked-Recoverable (Protected.new w) v s h).0
    ∙ (get_checked-Recoverable (Protected.new w) w s (new-Recoverable w)).0

pub Struck-Recoverable :
    (v : ℕ) (w w' : Protected) → Struck w w' → Recoverable v w → Recoverable v w'
Struck-Recoverable v w w' spared h = h
Struck-Recoverable v w w' (one_flip u bit) h =
    rw (Recoverable-unique v u h) (inject_flip-Recoverable u bit)
Struck-Recoverable v w w' (four_flips u a b c d ha hb ne hc hd) h =
    rw (Recoverable-unique v u h) (four_flips-Recoverable u a b c d ha hb ne hc hd)

pub StartStruck-StartRecoverable :
    (o : Option ℕ) (w w' : Option Protected)
    → StartStruck w w'
    → StartRecoverable o w
    → StartRecoverable o w'
StartStruck-StartRecoverable none none none t h = tt
StartStruck-StartRecoverable (some v) (some w) (some w') t h = Struck-Recoverable v w w' t h
StartStruck-StartRecoverable none none (some w') t h = elim t [ ]
StartStruck-StartRecoverable o (some w) none t h = elim t [ ]
StartStruck-StartRecoverable none (some w) (some w') t h = elim h [ ]
StartStruck-StartRecoverable (some v) none w' t h = elim h [ ]

pub AllStruck-AllRecoverable :
    (vs : List ℕ) (ws ws' : List Protected)
    → AllStruck ws ws'
    → AllRecoverable vs ws
    → AllRecoverable vs ws'
AllStruck-AllRecoverable [] [] [] t h = tt
AllStruck-AllRecoverable (v ∷ vs) (w ∷ ws) (w' ∷ ws') t h =
    (Struck-Recoverable v w w' t.0 h.0, AllStruck-AllRecoverable vs ws ws' t.1 h.1)
AllStruck-AllRecoverable [] [] (w' ∷ ws') t h = elim t [ ]
AllStruck-AllRecoverable vs (w ∷ ws) [] t h = elim t [ ]
AllStruck-AllRecoverable [] (w ∷ ws) (w' ∷ ws') t h = elim h [ ]
AllStruck-AllRecoverable (v ∷ vs) [] ws' t h = elim h [ ]

-- A flip of any bit of an undamaged total is a repairable strike.
pub inject_total_flip-Refines :
    (p : Plain) (sw : Stopwatch) (v bit : ℕ)
    → Refines p sw
    → sw.accumulated_ns ≡ Protected.new v
    → Refines p (inject_total_flip sw bit)
unfolding inject_total_flip
inject_total_flip-Refines p sw v bit h e =
    let struck = subst (λ w. Struck w (inject_flip w bit)) (sym e) (one_flip v bit) in
    record {
      same_state = h.same_state;
      total_kept = Struck-Recoverable p.total _ _ struck h.total_kept;
      start_kept = h.start_kept;
      laps_kept = h.laps_kept;
    }
