-- ===== src/Ntp/Reply.antt =====
-- Which replies are accepted, and what a refused one leaves alone.
use nanochronometer.Common.{
  ℕ, ◌≤◌, ◌≡◌, ◌≢◌, ◌↔◌, ◌⊎◌, refl, arith, subst, Bool-cases, inl, inr, ltb, ◌==◌, not, ◌&&◌, List,
  take, drop, bit_and,
}
use nanochronometer.Ntp.{
  NtpSample, NtpError, done, failed, finish, read_header, read_transmit, check_clock,
  ntp_timestamp_to_unix_ns, byte,
}

-- Offset and delay of `before` stand in `after` too.
abbrev pub Kept : NtpSample → NtpSample → Type 0
Kept before after = (after.offset_ns ≡ before.offset_ns) × (after.delay_ns ≡ before.delay_ns)

done_or_failed : (e : NtpError) → failed e ≢ done
done_or_failed e h = subst (λ f. elim f [ done ↦ ⊥ | failed x ↦ Unit ]) h tt

check_clock_accepts :
    (sample : NtpSample)
    → (((check_clock sample).0 ≡ done) ↔ (sample.local_send_unix_ns ≤ sample.local_recv_unix_ns))
      × ((check_clock sample).0 ≢ done → Kept sample (check_clock sample).1)
unfolding check_clock
check_clock_accepts sample =
    elim (Bool-cases (ltb sample.local_recv_unix_ns sample.local_send_unix_ns)) [
      | inl back ↦
          rw back
            ((λ h. absurd (done_or_failed _ h), λ h. absurd (ground arith)), λ h. (refl, refl))
      | inr forward ↦ rw forward ((λ h. ground arith, λ h. refl), λ h. absurd (h refl))
    ]

abbrev pub stamp_of : List ℕ → ℕ
stamp_of packet = ntp_timestamp_to_unix_ns (take 8 (drop 40 packet))

read_transmit_accepts :
    (sample : NtpSample) (packet : List ℕ)
    → (((read_transmit sample packet).0 ≡ done)
        ↔ ((stamp_of packet ≢ 0) × (sample.local_send_unix_ns ≤ sample.local_recv_unix_ns)))
      × ((read_transmit sample packet).0 ≢ done → Kept sample (read_transmit sample packet).1)
unfolding read_transmit
read_transmit_accepts sample packet =
    let stamped = record sample { ntp_transmit_unix_ns = stamp_of packet } in
    let ((from, to), kept) = check_clock_accepts stamped in
    elim (Bool-cases (stamp_of packet == 0)) [
      | inl none_sent ↦
          rw none_sent (
            (λ h. absurd (done_or_failed _ h), λ h. absurd (h.0 (ground arith))),
            λ h. (refl, refl),
          )
      | inr sent ↦ rw sent ((λ h. (ground arith, from h), λ h. to h.1), kept)
    ]

-- What a reply must be to be used.
abbrev pub IsUsable : NtpSample → List ℕ → Type 0
IsUsable sample packet =
    ((bit_and (byte packet 0) 0x7 ≡ 4) ⊎ (bit_and (byte packet 0) 0x7 ≡ 5))
    × (byte packet 1 ≢ 0)
    × (stamp_of packet ≢ 0)
    × (sample.local_send_unix_ns ≤ sample.local_recv_unix_ns)

-- A reply is accepted exactly when its mode is 4 or 5, its stratum and its transmit time are not
-- zero, and the local clock did not step back. A refused reply leaves offset and delay as they
-- were.
pub finish_accepts :
    (sample : NtpSample) (packet : List ℕ)
    → (((finish sample packet).0 ≡ done) ↔ IsUsable sample packet)
      × ((finish sample packet).0 ≢ done → Kept sample (finish sample packet).1)
unfolding finish read_header
finish_accepts sample packet =
    let mode = bit_and (byte packet 0) 0x7 in
    let ((from, to), kept) = read_transmit_accepts (read_header sample packet) packet in
    elim (Bool-cases (not (mode == 4) && not (mode == 5))) [
      | inl other ↦ rw other (
        (λ h. absurd (done_or_failed _ h), λ h. absurd (ground (arith, other, h.0))),
        λ h. (refl, refl),
      )
      | inr server ↦ elim (Bool-cases (byte packet 1 == 0)) [
        | inl kiss ↦
            rw (server, kiss)
              (
                (λ h. absurd (done_or_failed _ h), λ h. absurd (h.1 (ground arith))),
                λ h. (refl, refl),
              )
        | inr timed ↦
            rw (server, timed)
              (
                (
                  λ h. (ground (arith, server), ground (arith, timed), (from h).0, (from h).1),
                  λ h. to (h.2, h.3),
                ),
                kept,
              )
      ]
    ]
