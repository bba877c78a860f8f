-- ===== src/Ntp/Offset.antt =====
-- How far the measured offset is from the true one, and what the server's timestamp decodes to.
use nanochronometer.Common.{
  ℕ, ◌+◌, ◌-◌, ◌*◌, ◌/◌, ◌%◌, ◌^◌, ◌≤◌, ◌<◌, ◌≡◌, ap, arith, List, [], ◌∷◌,
}
use nanochronometer.Common.Int.{
  ℤ, pos, negsuc, pos_part, neg_part, ◌+ℤ◌, ◌-ℤ◌, ◌≤ℤ◌, +ℤ_parts, -ℤ_parts,
}
use nanochronometer.Ntp.{
  NtpSample, set_offset, offset_uncertainty_ns, as_i64, ntp_timestamp_to_unix_ns, ntp_unix_delta,
  from_be_bytes,
}

as_i64-parts : (z : ℤ) → pos_part z < 2 ^ 63 → neg_part z < 2 ^ 63 → as_i64 z ≡ z
unfolding as_i64
as_i64-parts (pos n) h k = ground arith
as_i64-parts (negsuc n) h k = ground arith

pos_difference : (a b : ℕ) → a < 2 ^ 63 → b < 2 ^ 63 → pos_part (pos a -ℤ pos b) < 2 ^ 63
unfolding ◌-ℤ◌
pos_difference a b h k = ground arith

neg_difference : (a b : ℕ) → a < 2 ^ 63 → b < 2 ^ 63 → neg_part (pos a -ℤ pos b) < 2 ^ 63
unfolding ◌-ℤ◌
neg_difference a b h k = ground arith

as_i64-difference : (a b : ℕ) → a < 2 ^ 63 → b < 2 ^ 63 → as_i64 (pos a -ℤ pos b) ≡ pos a -ℤ pos b
as_i64-difference a b h k =
    as_i64-parts (pos a -ℤ pos b) (pos_difference a b h k) (neg_difference a b h k)

parts_of : (s t : ℕ) (ahead : ℤ) → pos s ≡ pos t +ℤ ahead → s + neg_part ahead ≡ t + pos_part ahead
parts_of s t ahead e = omega (arith, ap pos_part e, ap neg_part e, +ℤ_parts (pos t) ahead)

-- The server read its clock at the local time `t`, between the send and the receive, and its
-- clock is ahead of the local one by `ahead`. With all times below 2^63 ns the measured offset is
-- then at most the reported uncertainty below the true one, and at most that and one nanosecond
-- above it.
pub set_offset_error :
    (sample : NtpSample) (t : ℕ) (ahead : ℤ)
    → sample.local_send_unix_ns ≤ t
    → t ≤ sample.local_recv_unix_ns
    → sample.local_recv_unix_ns < 2 ^ 63
    → sample.ntp_transmit_unix_ns < 2 ^ 63
    → pos sample.ntp_transmit_unix_ns ≡ pos t +ℤ ahead
    → let measured = set_offset sample in
      (ahead -ℤ pos (offset_uncertainty_ns measured) ≤ℤ measured.offset_ns)
      × (measured.offset_ns ≤ℤ ahead +ℤ pos (offset_uncertainty_ns measured + 1))
unfolding set_offset offset_uncertainty_ns
set_offset_error sample t ahead h k small small' e =
    let delay = sample.local_recv_unix_ns - sample.local_send_unix_ns in
    let midpoint = sample.local_send_unix_ns + delay / 2 in
    let offset = pos sample.ntp_transmit_unix_ns -ℤ pos midpoint in
    let exact = as_i64-difference sample.ntp_transmit_unix_ns midpoint small' (omega arith) in
    let server = parts_of sample.ntp_transmit_unix_ns t ahead e in
    rw exact (
      omega (
        arith,
        -ℤ_parts (pos sample.ntp_transmit_unix_ns) (pos midpoint),
        server,
        -ℤ_parts ahead (pos (delay / 2)),
      ),
      omega (
        arith,
        -ℤ_parts (pos sample.ntp_transmit_unix_ns) (pos midpoint),
        server,
        +ℤ_parts ahead (pos (delay / 2 + 1)),
      ),
    )

-- A timestamp as a server writes it: seconds since 1900 and a fraction of 2^32.
abbrev pub to_be_bytes : ℕ → List ℕ → List ℕ
to_be_bytes n rest = n / 2 ^ 24 % 2 ^ 8 ∷ n / 2 ^ 16 % 2 ^ 8 ∷ n / 2 ^ 8 % 2 ^ 8 ∷ n % 2 ^ 8 ∷ rest

abbrev pub ntp_timestamp : ℕ → List ℕ
ntp_timestamp unix_ns =
    to_be_bytes (unix_ns / 1_000_000_000 + ntp_unix_delta)
      (to_be_bytes (unix_ns % 1_000_000_000 * 2 ^ 32 / 1_000_000_000) [])

from_be_bytes_lem :
    (n : ℕ)
    → n < 2 ^ 32
    → from_be_bytes (n / 2 ^ 24 % 2 ^ 8) (n / 2 ^ 16 % 2 ^ 8) (n / 2 ^ 8 % 2 ^ 8) (n % 2 ^ 8) ≡ n
from_be_bytes_lem n h = omega arith

-- A timestamp decodes to the instant that was written, or to one nanosecond before it, for every
-- instant from 1970 on whose seconds since 1900 fit 32 bits.
pub ntp_timestamp_to_unix_ns-ntp_timestamp :
    (unix_ns : ℕ)
    → unix_ns / 1_000_000_000 + ntp_unix_delta < 2 ^ 32
    → let decoded = ntp_timestamp_to_unix_ns (ntp_timestamp unix_ns) in
      (decoded ≤ unix_ns) × (unix_ns ≤ decoded + 1)
unfolding ntp_timestamp_to_unix_ns
ntp_timestamp_to_unix_ns-ntp_timestamp unix_ns h =
    let seconds = unix_ns / 1_000_000_000 + ntp_unix_delta in
    let fraction = unix_ns % 1_000_000_000 * 2 ^ 32 / 1_000_000_000 in
    rw (from_be_bytes_lem seconds h, from_be_bytes_lem fraction (omega arith)) (ground arith)
