-- ===== src/Ntp/Runs.antt =====
-- Replies at concrete inputs: tests, and the theorems applied.
use nanochronometer.Common.{ℕ, ◌+◌, ◌≤◌, ◌≡◌, ◌≢◌, ◌↔◌, refl, arith, List, ◌∷◌, ◌++◌, replicate}
use nanochronometer.Common.Int.{pos, ◌+ℤ◌, ◌-ℤ◌, ◌≤ℤ◌}
use nanochronometer.Ntp.{
  NtpSample, done, finish, set_offset, offset_uncertainty_ns, ntp_timestamp_to_unix_ns,
}
use nanochronometer.Ntp.Offset.{
  set_offset_error, ntp_timestamp, ntp_timestamp_to_unix_ns-ntp_timestamp,
}
use nanochronometer.Ntp.Reply.{IsUsable, Kept, finish_accepts}

-- A round trip of 100 microseconds, answered by a clock that is 500 ns ahead.
abbrev sample : NtpSample
sample = record {
  stratum = 2;
  precision_exp = pos 0;
  leap_indicator = 0;
  version = 4;
  mode = 4;
  local_send_unix_ns = 1_000_000_000;
  local_recv_unix_ns = 1_000_100_000;
  ntp_transmit_unix_ns = 1_000_050_500;
  offset_ns = pos 0;
  delay_ns = 0;
}

set_offset_error_example :
    let measured = set_offset sample in
    (pos 500 -ℤ pos (offset_uncertainty_ns measured) ≤ℤ measured.offset_ns)
    × (measured.offset_ns ≤ℤ pos 500 +ℤ pos (offset_uncertainty_ns measured + 1))
unfolding ◌+ℤ◌
set_offset_error_example =
    set_offset_error sample 1_000_050_000 (pos 500) (omega arith) (omega arith) (omega arith)
      (omega arith) refl

ntp_timestamp_to_unix_ns-ntp_timestamp_example :
    let decoded = ntp_timestamp_to_unix_ns (ntp_timestamp 1_500_000_001) in
    (decoded ≤ 1_500_000_001) × (1_500_000_001 ≤ decoded + 1)
ntp_timestamp_to_unix_ns-ntp_timestamp_example =
    ntp_timestamp_to_unix_ns-ntp_timestamp 1_500_000_001 (omega arith)

abbrev reply : List ℕ
reply = 0x24 ∷ 2 ∷ 6 ∷ 0xEC ∷ replicate 36 0 ++ ntp_timestamp 1_000_050_500

finish_accepts_example :
    (((finish sample reply).0 ≡ done) ↔ IsUsable sample reply)
    × ((finish sample reply).0 ≢ done → Kept sample (finish sample reply).1)
finish_accepts_example = finish_accepts sample reply
