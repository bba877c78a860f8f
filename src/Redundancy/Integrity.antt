-- ===== src/Redundancy/Integrity.antt =====
-- The outcome of an integrity check and the process-wide counters of
-- crates/nanochrono-core/src/redundancy.rs. The four atomics are one record that every operation
-- takes and returns; an update is atomic, so a sequence of updates is all that can be observed.
use nanochronometer.Common.{ℕ, ◌+◌, ◌%◌, ◌^◌, ◌&&◌, Bool, true, false, ltb, ◌==◌, if◌then◌else◌}
use Prim.Native.String.{String}

-- `CorrectedByEcc { bit }` and `CorrectedByTmr { outvoted }` carry a number.
pub data Integrity : Type 0 where
  clean : Integrity
  corrected_by_ecc : ℕ → Integrity
  corrected_by_tmr : ℕ → Integrity
  unrecoverable : Integrity

abbrev pub severity : Integrity → ℕ
severity clean = 0
severity (corrected_by_ecc bit) = 1
severity (corrected_by_tmr outvoted) = 2
severity unrecoverable = 3

-- `Integrity::max`
abbrev pub worse : Integrity → Integrity → Integrity
worse self other = if ltb (severity self) (severity other) then other else self

abbrev pub is_usable : Integrity → Bool
is_usable unrecoverable = false
is_usable clean = true
is_usable (corrected_by_ecc bit) = true
is_usable (corrected_by_tmr outvoted) = true

abbrev pub was_repaired : Integrity → Bool
was_repaired (corrected_by_ecc bit) = true
was_repaired (corrected_by_tmr outvoted) = true
was_repaired clean = false
was_repaired unrecoverable = false

abbrev pub integrity_name : Integrity → String
integrity_name clean = "clean"
integrity_name (corrected_by_ecc bit) = "corrected-by-ecc"
integrity_name (corrected_by_tmr outvoted) = "corrected-by-tmr"
integrity_name unrecoverable = "unrecoverable"

pub record IntegrityStats : Type 0 where
  pub checks : ℕ
  pub ecc_corrections : ℕ
  pub tmr_corrections : ℕ
  pub unrecoverable_count : ℕ

abbrev pub is_clean : IntegrityStats → Bool
is_clean s = s.ecc_corrections == 0 && s.tmr_corrections == 0 && s.unrecoverable_count == 0

-- `AtomicU64::fetch_add(1)` wraps.
abbrev pub fetch_add : ℕ → ℕ
fetch_add n = (n + 1) % 2 ^ 64

abbrev pub record_outcome : Integrity → IntegrityStats → IntegrityStats
record_outcome clean s = record s { checks = fetch_add s.checks }
record_outcome (corrected_by_ecc bit) s = record s {
  checks = fetch_add s.checks;
  ecc_corrections = fetch_add s.ecc_corrections;
}
record_outcome (corrected_by_tmr outvoted) s = record s {
  checks = fetch_add s.checks;
  tmr_corrections = fetch_add s.tmr_corrections;
}
record_outcome unrecoverable s = record s {
  checks = fetch_add s.checks;
  unrecoverable_count = fetch_add s.unrecoverable_count;
}
