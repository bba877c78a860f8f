-- ===== src/Redundancy/Protected.antt =====
-- The protected container of crates/nanochrono-core/src/redundancy.rs. An operation that counts
-- its outcome takes the process-wide counters and returns them last; one that takes `&mut self`
-- returns the new container.
pub mod Repair
pub mod Flips
pub mod Tolerance
use nanochronometer.Common.{
  ℕ, ◌+◌, ◌-◌, ◌%◌, ◌^◌, bit_xor, Bool, true, false, List, [], ◌∷◌, Option, none, some, ltb, leb,
  ◌==◌, if◌then◌else◌,
}
use nanochronometer.Redundancy.Integrity.{
  Integrity, clean, corrected_by_ecc, corrected_by_tmr, unrecoverable, is_usable, IntegrityStats,
  record_outcome,
}
use nanochronometer.Redundancy.Code.{Decoded, check_bits, decode}

pub record Replica : Type 0 where
  pub value : ℕ
  pub check : ℕ

abbrev pub new_replica : ℕ → Replica
new_replica value = record { value = value; check = check_bits value }

abbrev pub candidate_of : ℕ → Decoded → Option ℕ
candidate_of value Decoded.clean = some value
candidate_of value (Decoded.corrected repaired bit) = some repaired
candidate_of value Decoded.double_error = none

abbrev pub candidate : Replica → Option ℕ
candidate r = candidate_of r.value (decode r.value r.check)

pub record Protected : Type 0 where
  pub value : ℕ
  pub check : ℕ
  pub replicas : Replica × Replica

abbrev pub new : ℕ → Protected
new value = record {
  value = value;
  check = check_bits value;
  replicas = (new_replica value, new_replica value);
}

abbrev pub get : Protected → ℕ
get p = p.value

-- `c == Some(candidate)`
abbrev pub votes_for : ℕ → Option ℕ → Bool
votes_for value none = false
votes_for value (some c) = c == value

abbrev pub count_agreeing : ℕ → List (Option ℕ) → ℕ
count_agreeing value [] = 0
count_agreeing value (c ∷ ballots) =
    count_agreeing value ballots + (if votes_for value c then 1 else 0)

-- The loop over the ballots that were cast; `left` is what it has not reached.
abbrev pub elect : ℕ → List (Option ℕ) → List (Option ℕ) → ℕ × Integrity
elect fallback ballots [] = (fallback, unrecoverable)
elect fallback ballots (none ∷ left) = elect fallback ballots left
elect fallback ballots (some value ∷ left) =
    let later = elect fallback ballots left in
    let agreeing = count_agreeing value ballots in
    if ltb agreeing 2 then later else (value, corrected_by_tmr ((3 - agreeing) % 2 ^ 8))

-- The primary has no ballot: the first entry stays empty.
unfoldable pub vote : Protected → ℕ × Integrity
vote p =
    let ballots = none ∷ candidate p.replicas.0 ∷ candidate p.replicas.1 ∷ [] in
    elect p.value ballots ballots

abbrev pub counted : ℕ × Integrity → IntegrityStats → (ℕ × Integrity) × IntegrityStats
counted outcome stats = (outcome, record_outcome outcome.1 stats)

abbrev pub checked_as : Protected → Decoded → IntegrityStats → (ℕ × Integrity) × IntegrityStats
checked_as p Decoded.clean stats = ((p.value, clean), stats)
checked_as p (Decoded.corrected repaired bit) stats = counted (repaired, corrected_by_ecc bit) stats
checked_as p Decoded.double_error stats = counted (vote p) stats

unfoldable pub get_checked : Protected → IntegrityStats → (ℕ × Integrity) × IntegrityStats
get_checked p = checked_as p (decode p.value p.check)

-- `self.value = value; self.check = ...; self.replicas = ...`
abbrev pub set : Protected → ℕ → Protected
set p value = record p {
  value = value;
  check = check_bits value;
  replicas = (new_replica value, new_replica value);
}

unfoldable pub repair_by_vote : Protected → Integrity × Protected
repair_by_vote p =
    let (value, outcome) = vote p in (outcome, if is_usable outcome then set p value else p)

abbrev pub verified_as : Protected → Decoded → Integrity × Protected
verified_as p Decoded.clean = (clean, p)
verified_as p (Decoded.corrected repaired bit) = (corrected_by_ecc bit, set p repaired)
verified_as p Decoded.double_error = repair_by_vote p

unfoldable pub verify : Protected → IntegrityStats → (Integrity × Protected) × IntegrityStats
verify p stats =
    let done = verified_as p (decode p.value p.check) in (done, record_outcome done.0 stats)

unfoldable pub get_verified :
    Protected → IntegrityStats → (ℕ × Integrity) × Protected × IntegrityStats
unfolding verify
get_verified p stats =
    let ((integrity, p'), stats') = verify p stats in ((p'.value, integrity), p', stats')

abbrev pub flip_value : Replica → ℕ → Replica
flip_value r bit = record r { value = bit_xor r.value (2 ^ bit) }

abbrev pub flip_check : Replica → ℕ → Replica
flip_check r bit = record r { check = bit_xor r.check (2 ^ bit) }

-- The ranges 0..=63, 64..=71, 72..=135, 136..=199, 200..=207 and 208..=215, in this order.
unfoldable pub inject_flip : Protected → ℕ → Protected
inject_flip p bit =
    if leb bit 63
    then record p { value = bit_xor p.value (2 ^ bit) }
    else if leb bit 71
    then record p { check = bit_xor p.check (2 ^ (bit - 64)) }
    else if leb bit 135
    then record p { replicas = (flip_value p.replicas.0 (bit - 72), p.replicas.1) }
    else if leb bit 199
    then record p { replicas = (p.replicas.0, flip_value p.replicas.1 (bit - 136)) }
    else if leb bit 207
    then record p { replicas = (flip_check p.replicas.0 (bit - 200), p.replicas.1) }
    else if leb bit 215
    then record p { replicas = (p.replicas.0, flip_check p.replicas.1 (bit - 208)) }
    else p
