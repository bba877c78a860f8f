-- ===== src/Redundancy/Runs.antt =====
-- The code and the container at concrete inputs: tests, and the theorems applied.
use nanochronometer.Common.{◌≡◌, refl, arith, bit_xor, true, some, ◌+◌, ◌^◌, inl, inr}
use nanochronometer.Redundancy.Integrity.{
  is_usable, IntegrityStats, corrected_by_tmr, record_outcome,
}
use nanochronometer.Redundancy.Code.{
  Decoded, check_bits, hamming_parities, decode, classify, correct_at, build_parity_masks,
  data_position, position_to_data_index,
}
use nanochronometer.Redundancy.Code.Flips.{
  data_flip, check_flip, reported_bit, decode_flip, decode_two_flips,
}
use nanochronometer.Redundancy.Protected
use nanochronometer.Redundancy.Protected.{get_checked, inject_flip, verify}
use nanochronometer.Redundancy.Protected.Repair.{Recoverable, verify-Recoverable}
use nanochronometer.Redundancy.Protected.Tolerance.{
  inject_flip-Recoverable, four_flips-Recoverable, get_checked-four_flips,
}

abbrev no_counts : IntegrityStats
no_counts = record { checks = 0; ecc_corrections = 0; tmr_corrections = 0; unrecoverable_count = 0 }

decode_flip_example :
    decode (bit_xor 77 (data_flip 40)) (bit_xor (check_bits 77) (check_flip 40))
    ≡ Decoded.corrected 77 (reported_bit 40)
decode_flip_example = decode_flip 77 40 (omega arith)

decode_two_flips_example :
    decode
      (bit_xor 77 (bit_xor (data_flip 3) (data_flip 70)))
      (bit_xor (check_bits 77) (bit_xor (check_flip 3) (check_flip 70)))
    ≡ Decoded.double_error
decode_two_flips_example =
    decode_two_flips 77 3 70 (omega arith) (omega arith) (λ e. absurd (omega arith))

get_checked-four_flips_example :
    get_checked
      (inject_flip (inject_flip (inject_flip (inject_flip (Protected.new 77) 3) 70) 80) 210)
      no_counts
    ≡ ((77, corrected_by_tmr 1), record_outcome (corrected_by_tmr 1) no_counts)
get_checked-four_flips_example =
    get_checked-four_flips 77 3 70 80 210 no_counts (omega arith) (omega arith)
      (λ e. absurd (omega arith)) (inl (omega arith, omega arith)) (inr (omega arith, omega arith))

verify-Recoverable_example :
    Recoverable 77 (verify (inject_flip (Protected.new 77) 9) no_counts).0.1
    × ((verify (inject_flip (Protected.new 77) 9) no_counts).0.1.value ≡ 77)
    × (is_usable (verify (inject_flip (Protected.new 77) 9) no_counts).0.0 ≡ true)
verify-Recoverable_example =
    verify-Recoverable (inject_flip (Protected.new 77) 9) 77 no_counts
      (inject_flip-Recoverable 77 9)

inject_flip-Recoverable_example : Recoverable 77 (inject_flip (Protected.new 77) 140)
inject_flip-Recoverable_example = inject_flip-Recoverable 77 140

four_flips-Recoverable_example :
    Recoverable 77
      (inject_flip (inject_flip (inject_flip (inject_flip (Protected.new 77) 3) 70) 80) 210)
four_flips-Recoverable_example =
    four_flips-Recoverable 77 3 70 80 210 (omega arith) (omega arith) (λ e. absurd (omega arith))
      (inl (omega arith, omega arith)) (inr (omega arith, omega arith))

-- Three flips can give a syndrome that names no bit; the damaged word is then called corrected.
three_flips :
    decode (bit_xor 77 (2 ^ 57 + 2 ^ 5 + 2 ^ 0)) (check_bits 77)
    ≡ Decoded.corrected (bit_xor 77 (2 ^ 57 + 2 ^ 5 + 2 ^ 0)) (64 + 72)
unfolding decode check_bits hamming_parities classify correct_at position_to_data_index
    build_parity_masks
three_flips = refl

layout : (data_position 0 ≡ 3) × (data_position 63 ≡ 71) × (position_to_data_index 71 ≡ some 63)
unfolding data_position position_to_data_index
layout = (refl, refl, refl)
