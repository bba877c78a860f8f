-- ===== src/Redundancy/Protected/Tolerance.antt =====
-- How many flipped bits a protected word survives, and what the reads and scrubs then report.
use nanochronometer.Common.{
  ℕ, ◌≤◌, ◌<◌, bit_xor, ◌≡◌, ◌≢◌, refl, ap, ◌∙◌, arith, ◌⊎◌, inl, inr, some,
}
use nanochronometer.Common.Bits.{bit_xor_assoc}
use nanochronometer.Redundancy.Integrity.{
  corrected_by_ecc, corrected_by_tmr, IntegrityStats, record_outcome,
}
use nanochronometer.Redundancy.Code.{Decoded, check_bits, decode}
use nanochronometer.Redundancy.Code.Errors.{decode-check_bits}
use nanochronometer.Redundancy.Code.Flips.{
  data_flip, check_flip, reported_bit, decode_flip, decode_two_flips,
}
use nanochronometer.Redundancy.Protected.{
  new_replica, candidate, Protected, new, verify, inject_flip, repair_by_vote, get_checked,
}
use nanochronometer.Redundancy.Protected.Repair.{
  Recoverable, intact, by_code, by_vote, vote_both, new-Recoverable,
}
use nanochronometer.Redundancy.Protected.Flips.{
  primary_flip, first_replica_flip, second_replica_flip, IsFirstReplicaBit, IsSecondReplicaBit,
  out_of_range_flip,
}

-- Every bit is one of the primary, of a replica, or out of range.
bit_ranges :
    (bit : ℕ) → (bit < 72) ⊎ (IsFirstReplicaBit bit ⊎ (IsSecondReplicaBit bit ⊎ (216 ≤ bit)))
bit_ranges bit = grind arith

-- The primary codeword is undamaged.
primary_intact : (p : Protected) (v : ℕ) → p.value ≡ v → p.check ≡ check_bits v → Recoverable v p
primary_intact p v e f = intact (rw (e, f) (decode-check_bits v)) e

-- A new word with one flipped bit anywhere, in the word, its check byte or a replica, is
-- recoverable to its value.
pub inject_flip-Recoverable : (v bit : ℕ) → Recoverable v (inject_flip (new v) bit)
inject_flip-Recoverable v bit = elim (bit_ranges bit) [
  | inl h ↦ rw (primary_flip (new v) bit h) (by_code (reported_bit bit) (decode_flip v bit h))
  | inr (inl h) ↦
      let (c, r, e, f) = first_replica_flip (new v) v bit refl h in primary_intact _ v e f
  | inr (inr (inl h)) ↦
      let (c, r, e, f) = second_replica_flip (new v) v bit refl h in primary_intact _ v e f
  | inr (inr (inr h)) ↦ rw (out_of_range_flip (new v) bit h) (new-Recoverable v)
]

-- One flipped bit of the primary codeword of a new word: a scrub restores the container to the
-- last bit, reports the repaired bit, and counts it.
pub verify-inject_flip :
    (v bit : ℕ) (s : IntegrityStats)
    → bit < 72
    → verify (inject_flip (new v) bit) s ≡ (
      (corrected_by_ecc (reported_bit bit), new v),
      record_outcome (corrected_by_ecc (reported_bit bit)) s,
    )
unfolding verify
verify-inject_flip v bit s h = rw (primary_flip (new v) bit h) (rw (decode_flip v bit h))

two_primary_flips :
    (v a b : ℕ)
    → a < 72
    → b < 72
    → inject_flip (inject_flip (new v) a) b ≡ record {
      value = bit_xor v (bit_xor (data_flip a) (data_flip b));
      check = bit_xor (check_bits v) (bit_xor (check_flip a) (check_flip b));
      replicas = (new_replica v, new_replica v);
    }
two_primary_flips v a b h k =
    ap (λ p. inject_flip p b) (primary_flip (new v) a h)
    ∙ primary_flip _ b k
    ∙ rw (bit_xor_assoc v, bit_xor_assoc (check_bits v))

candidate-new : (v : ℕ) → candidate (new_replica v) ≡ some v
candidate-new v = rw (decode-check_bits v)

-- Both replicas speak for `v`: the vote writes it back.
verify_double_error :
    (p : Protected) (v : ℕ) (s : IntegrityStats)
    → decode p.value p.check ≡ Decoded.double_error
    → candidate p.replicas.0 ≡ some v
    → candidate p.replicas.1 ≡ some v
    → verify p s ≡ ((corrected_by_tmr 1, new v), record_outcome (corrected_by_tmr 1) s)
unfolding verify repair_by_vote
verify_double_error p v s e f g = rw e (rw (vote_both p v f g))

-- Two different flipped bits of the primary codeword of a new word: a scrub restores the
-- container to the last bit by the vote of the replicas, reports one copy outvoted, and counts
-- it.
pub verify_two_flips :
    (v a b : ℕ) (s : IntegrityStats)
    → a < 72
    → b < 72
    → a ≢ b
    → verify (inject_flip (inject_flip (new v) a) b) s
      ≡ ((corrected_by_tmr 1, new v), record_outcome (corrected_by_tmr 1) s)
verify_two_flips v a b s h k ne =
    rw (two_primary_flips v a b h k) (
      verify_double_error _ v s (decode_two_flips v a b h k ne) (candidate-new v) (candidate-new v))

replica_flips-Recoverable :
    (p : Protected) (v c d : ℕ)
    → decode p.value p.check ≡ Decoded.double_error
    → p.replicas.0 ≡ new_replica v
    → p.replicas.1 ≡ new_replica v
    → IsFirstReplicaBit c
    → IsSecondReplicaBit d
    → Recoverable v (inject_flip (inject_flip p c) d)
replica_flips-Recoverable p v c d e r0 r1 hc hd =
    let (first, second_kept, value_kept, check_kept) = first_replica_flip p v c r0 hc in
    let q : Protected = inject_flip p c in
    let (second, first_kept, value_kept', check_kept') =
      second_replica_flip q v d (second_kept ∙ r1) hd in
    by_vote (cc (e, value_kept, check_kept, value_kept', check_kept'))
      (ap candidate first_kept ∙ first) second

-- A new word with four flipped bits, two different ones in the primary codeword and one in each
-- replica, is still recoverable to its value.
pub four_flips-Recoverable :
    (v a b c d : ℕ)
    → a < 72
    → b < 72
    → a ≢ b
    → IsFirstReplicaBit c
    → IsSecondReplicaBit d
    → Recoverable v (inject_flip (inject_flip (inject_flip (inject_flip (new v) a) b) c) d)
four_flips-Recoverable v a b c d h k ne hc hd =
    rw (two_primary_flips v a b h k)
      (replica_flips-Recoverable _ v c d (decode_two_flips v a b h k ne) refl refl hc hd)

get_checked_double_error :
    (p : Protected) (v : ℕ) (s : IntegrityStats)
    → decode p.value p.check ≡ Decoded.double_error
    → candidate p.replicas.0 ≡ some v
    → candidate p.replicas.1 ≡ some v
    → get_checked p s ≡ ((v, corrected_by_tmr 1), record_outcome (corrected_by_tmr 1) s)
unfolding get_checked
get_checked_double_error p v s e f g = rw (e, vote_both p v f g) refl

-- A new word with two different flipped bits in the primary codeword and one in each replica: a
-- checked read gives the value, reports one copy outvoted, and counts it.
pub get_checked-four_flips :
    (v a b c d : ℕ) (s : IntegrityStats)
    → a < 72
    → b < 72
    → a ≢ b
    → IsFirstReplicaBit c
    → IsSecondReplicaBit d
    → get_checked (inject_flip (inject_flip (inject_flip (inject_flip (new v) a) b) c) d) s
      ≡ ((v, corrected_by_tmr 1), record_outcome (corrected_by_tmr 1) s)
get_checked-four_flips v a b c d s h k ne hc hd =
    let p : Protected = inject_flip (inject_flip (new v) a) b in
    let doubled : decode p.value p.check ≡ Decoded.double_error =
      rw (two_primary_flips v a b h k) (decode_two_flips v a b h k ne) in
    let kept : (p.replicas.0 ≡ new_replica v) × (p.replicas.1 ≡ new_replica v) =
      rw (two_primary_flips v a b h k) (refl, refl) in
    let (first, second_kept, value_kept, check_kept) = first_replica_flip p v c kept.0 hc in
    let q : Protected = inject_flip p c in
    let (second, first_kept, value_kept', check_kept') =
      second_replica_flip q v d (second_kept ∙ kept.1) hd in
    get_checked_double_error (inject_flip q d) v s
      (cc (doubled, value_kept, check_kept, value_kept', check_kept'))
      (ap candidate first_kept ∙ first) second
