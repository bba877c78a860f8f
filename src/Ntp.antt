-- ===== src/Ntp.antt =====
-- crates/nanochrono-core/src/ntp.rs: the SNTP reply. A packet is the list of its 48 bytes. The
-- exchange itself is socket and clock calls; the sample carries the two local times that it took.
-- Of the sample's fields those that `finish` reads or writes are kept.
pub mod Offset
pub mod Reply
mod Runs
use nanochronometer.Common.{
  ℕ, ◌+◌, ◌-◌, ◌*◌, ◌/◌, ◌%◌, ◌^◌, Bool, true, false, ◌&&◌, not, List, [], ◌∷◌, ltb, ◌==◌,
  if◌then◌else◌, get_or, bit_and, length, drop, take, leb,
}
use nanochronometer.Common.Int.{ℤ, pos, negsuc, ◌-ℤ◌, pos_part, neg_part}
use Prim.Native.String.{String}

abbrev pub ntp_unix_delta : ℕ
ntp_unix_delta = 2_208_988_800

abbrev pub packet_len : ℕ
packet_len = 48

pub record NtpSample : Type 0 where
  pub stratum : ℕ
  pub precision_exp : ℤ
  pub leap_indicator : ℕ
  pub version : ℕ
  pub mode : ℕ
  pub local_send_unix_ns : ℕ
  pub local_recv_unix_ns : ℕ
  pub ntp_transmit_unix_ns : ℕ
  pub offset_ns : ℤ
  pub delay_ns : ℕ

unfoldable pub offset_uncertainty_ns : NtpSample → ℕ
offset_uncertainty_ns sample = sample.delay_ns / 2

-- `BadResponse` with its reason; the other errors come from the sockets.
pub data NtpError : Type 0 where
  bad_response : String → NtpError

pub data Finished : Type 0 where
  done : Finished
  failed : NtpError → Finished

abbrev pub byte : List ℕ → ℕ → ℕ
byte bytes i = get_or bytes i 0

-- `u32::from_be_bytes`
abbrev pub from_be_bytes : ℕ → ℕ → ℕ → ℕ → ℕ
from_be_bytes a b c d = ((a * 256 + b) * 256 + c) * 256 + d

-- `b as i8`
abbrev pub as_i8 : ℕ → ℤ
as_i8 b = if ltb b 128 then pos b else negsuc (255 - b)

-- `z as i64` of an i128
unfoldable pub as_i64 : ℤ → ℤ
as_i64 z =
    let word = (pos_part z + 2 ^ 65 - neg_part z) % 2 ^ 64 in
    if ltb word (2 ^ 63) then pos word else negsuc (2 ^ 64 - 1 - word)

unfoldable pub ntp_timestamp_to_unix_ns : List ℕ → ℕ
ntp_timestamp_to_unix_ns bytes =
    let seconds = from_be_bytes (byte bytes 0) (byte bytes 1) (byte bytes 2) (byte bytes 3) in
    let fraction = from_be_bytes (byte bytes 4) (byte bytes 5) (byte bytes 6) (byte bytes 7) in
    let ns_fraction = fraction * 1_000_000_000 / 2 ^ 32 in
    if ltb (length bytes) 8
    then 0
    else if ltb seconds ntp_unix_delta
    then 0
    else (seconds - ntp_unix_delta) * 1_000_000_000 + ns_fraction

-- The five header fields that `finish` copies before its first check.
unfoldable pub read_header : NtpSample → List ℕ → NtpSample
read_header sample packet = record sample {
  leap_indicator = bit_and (byte packet 0 / 2 ^ 6) 0x3;
  version = bit_and (byte packet 0 / 2 ^ 3) 0x7;
  mode = bit_and (byte packet 0) 0x7;
  stratum = byte packet 1;
  precision_exp = as_i8 (byte packet 3);
}

-- The end of `finish`, past the check that the clock did not step back.
unfoldable pub set_offset : NtpSample → NtpSample
unfolding as_i64
set_offset sample =
    let delay = sample.local_recv_unix_ns - sample.local_send_unix_ns in
    let midpoint = sample.local_send_unix_ns + delay / 2 in
    record sample {
      delay_ns = delay;
      offset_ns = as_i64 (pos sample.ntp_transmit_unix_ns -ℤ pos midpoint);
    }

unfoldable pub check_clock : NtpSample → Finished × NtpSample
unfolding set_offset
check_clock sample =
    if ltb sample.local_recv_unix_ns sample.local_send_unix_ns
    then (failed (bad_response "local clock stepped during the query"), sample)
    else (done, set_offset sample)

unfoldable pub read_transmit : NtpSample → List ℕ → Finished × NtpSample
unfolding check_clock ntp_timestamp_to_unix_ns
read_transmit sample packet =
    let stamped = record sample {
      ntp_transmit_unix_ns = ntp_timestamp_to_unix_ns (take 8 (drop 40 packet));
    } in
    if stamped.ntp_transmit_unix_ns == 0
    then (failed (bad_response "transmit timestamp was zero"), stamped)
    else check_clock stamped

unfoldable pub finish : NtpSample → List ℕ → Finished × NtpSample
unfolding read_header read_transmit
finish sample packet =
    let headed = read_header sample packet in
    if not (headed.mode == 4) && not (headed.mode == 5)
    then (failed (bad_response "reply was not from a server"), headed)
    else if headed.stratum == 0
    then (failed (bad_response "server returned a kiss-of-death"), headed)
    else read_transmit headed packet
