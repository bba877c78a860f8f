-- ===== src/Redundancy/Protected/Repair.antt =====
-- When a protected word can be recovered, and what reads and scrubs make of such a word.
use nanochronometer.Common.{ℕ, ◌≡◌, refl, arith, true, some}
use nanochronometer.Redundancy.Integrity.{corrected_by_tmr, is_usable, IntegrityStats}
use nanochronometer.Redundancy.Code.{Decoded, decode}
use nanochronometer.Redundancy.Code.Errors.{decode-check_bits}
use nanochronometer.Redundancy.Protected.{
  candidate, Protected, new, vote, get_checked, verify, repair_by_vote,
}

-- The container stands for `v`: its code agrees, or repairs it to `v`, or both replicas say `v`.
pub data Recoverable (v : ℕ) (p : Protected) : Type 0 where
  intact : decode p.value p.check ≡ Decoded.clean → p.value ≡ v → Recoverable v p
  by_code : (bit : ℕ) → decode p.value p.check ≡ Decoded.corrected v bit → Recoverable v p
  by_vote :
      decode p.value p.check ≡ Decoded.double_error
      → candidate p.replicas.0 ≡ some v
      → candidate p.replicas.1 ≡ some v
      → Recoverable v p

pub vote_both :
    (p : Protected) (v : ℕ)
    → candidate p.replicas.0 ≡ some v
    → candidate p.replicas.1 ≡ some v
    → vote p ≡ (v, corrected_by_tmr 1)
unfolding vote
vote_both p v e f = rw (e, f) (ground arith)

-- A read of a word that is recoverable to `v` gives `v`, and calls it usable.
pub get_checked-Recoverable :
    (p : Protected) (v : ℕ) (s : IntegrityStats)
    → Recoverable v p
    → ((get_checked p s).0.0 ≡ v) × (is_usable (get_checked p s).0.1 ≡ true)
unfolding get_checked
get_checked-Recoverable p v s (intact e h) = rw e (h, refl)
get_checked-Recoverable p v s (by_code bit e) = rw e (refl, refl)
get_checked-Recoverable p v s (by_vote e f g) = rw (e, vote_both p v f g) (refl, refl)

pub new-Recoverable : (v : ℕ) → Recoverable v (new v)
new-Recoverable v = intact (decode-check_bits v) refl

-- A scrub of a word that is recoverable to `v` keeps it so, leaves `v` itself in the store, and
-- calls it usable.
pub verify-Recoverable :
    (p : Protected) (v : ℕ) (s : IntegrityStats)
    → Recoverable v p
    → Recoverable v (verify p s).0.1
      × ((verify p s).0.1.value ≡ v)
      × (is_usable (verify p s).0.0 ≡ true)
unfolding verify repair_by_vote
verify-Recoverable p v s (intact e h) = rw e (intact e h, h, refl)
verify-Recoverable p v s (by_code bit e) = rw e (new-Recoverable v, refl, refl)
verify-Recoverable p v s (by_vote e f g) = rw (e, vote_both p v f g) (new-Recoverable v, refl, refl)
