-- ===== src/Input/Packets.antt =====
-- The packets of a mouse come back as its movements.
use nanochronometer.Common.{
  ℕ, ◌+◌, ◌≡◌, refl, ap, ◌∙◌, bit_and, true, false, List, [], ◌∷◌, ◌++◌, none, some, map, All, set,
  ◌&&◌, ltb, ◌==◌, if◌then◌else◌,
}
use nanochronometer.Input.{
  Event, PointerKind, standard, wheel, five_button, usb, i2c_hid, no_pointer, Ps2, fresh,
  accumulate, decode_packet, packet_length, collect,
}
use nanochronometer.Input.Feed.{before, fed, fed-event, fed-quiet}
use nanochronometer.Input.Movements.{
  Movement, is_negative, low, flags_of, flags_of-Flags, ready, scrolls, fourth_byte, packet,
  packets, Sendable, shown, Mouse, decoded,
}

-- A byte that belongs to a packet.
accumulate-collect :
    (byte : ℕ) (s : Ps2)
    → (packet_length s.pointer == 0) ≡ false
    → ((s.packet_len == 0) && (bit_and byte 0x08 == 0)) ≡ false
    → accumulate byte s ≡ collect byte s
unfolding accumulate
accumulate-collect byte s known fits = rw (known, fits) refl

module _ (f x y z a b c d : ℕ) (s : Ps2) (later : List ℕ) (valid : bit_and f 0x08 ≡ 8) where
  valid_first : ((◌==◌ 0 0) && (bit_and f 0x08 == 0)) ≡ false
  valid_first = rw valid refl

  -- The place of a byte, in a packet of `kind`.
  abbrev at : PointerKind → ℕ → ℕ → ℕ → ℕ → ℕ → Ps2
  at kind n p q r t = record s { pointer = kind; packet = p ∷ q ∷ r ∷ t ∷ []; packet_len = n }

  three :
      (e : Event)
      → decode_packet standard (f ∷ (x ∷ (y ∷ (d ∷ [])))) ≡ some e
      → fed accumulate (f ∷ (x ∷ (y ∷ later))) (ready standard a b c d s)
        ≡ before (some e) (fed accumulate later (ready standard f x y d s))
  unfolding packet_length
  three e h =
      fed-quiet accumulate f (x ∷ (y ∷ later)) (at standard 0 a b c d) (at standard 1 f b c d)
        (accumulate-collect f (at standard 0 a b c d) refl valid_first)
      ∙ fed-quiet accumulate x (y ∷ later) (at standard 1 f b c d) (at standard 2 f x c d)
          (accumulate-collect x (at standard 1 f b c d) refl refl)
      ∙ fed-event accumulate y later (at standard 2 f x c d) (at standard 0 f x y d) e (
          accumulate-collect y (at standard 2 f x c d) refl refl
          ∙ ap (λ o. (o, at standard 0 f x y d)) h)

  module _ (kind : PointerKind) (four_bytes : packet_length kind ≡ 4) where
    collected :
        (n byte p q r t : ℕ)
        → ltb (n + 1) 4 ≡ true
        → ((n == 0) && (bit_and byte 0x08 == 0)) ≡ false
        → accumulate byte (at kind n p q r t) ≡ (
          none,
          record s { pointer = kind; packet = set (p ∷ q ∷ r ∷ t ∷ []) n byte; packet_len = n + 1 },
        )
    collected n byte p q r t more fits =
        accumulate-collect byte (at kind n p q r t) (rw four_bytes refl) fits
        ∙ rw (four_bytes, more) refl

    four :
        (e : Event)
        → decode_packet kind (f ∷ (x ∷ (y ∷ (z ∷ [])))) ≡ some e
        → fed accumulate (f ∷ (x ∷ (y ∷ (z ∷ later)))) (ready kind a b c d s)
          ≡ before (some e) (fed accumulate later (ready kind f x y z s))
    four e h =
        fed-quiet accumulate f (x ∷ (y ∷ (z ∷ later))) (at kind 0 a b c d) (at kind 1 f b c d)
          (collected 0 f a b c d refl valid_first)
        ∙ fed-quiet accumulate x (y ∷ (z ∷ later)) (at kind 1 f b c d) (at kind 2 f x c d)
            (collected 1 x f b c d refl refl)
        ∙ fed-quiet accumulate y (z ∷ later) (at kind 2 f x c d) (at kind 3 f x y d)
            (collected 2 y f x c d refl refl)
        ∙ fed-event accumulate z later (at kind 3 f x y d) (at kind 0 f x y z) e (
            accumulate-collect z (at kind 3 f x y d) (rw four_bytes refl) refl
            ∙ rw four_bytes (ap (λ o. (o, at kind 0 f x y z)) h))

-- The fourth byte that is stored when a packet is whole.
abbrev fourth : PointerKind → Movement → ℕ → ℕ
fourth kind m d = if scrolls kind then fourth_byte m else d

fed-packet :
    (kind : PointerKind) (m : Movement) (a b c d : ℕ) (s : Ps2) (later : List ℕ)
    → Mouse kind
    → Sendable m
    → fed accumulate (packet kind m ++ later) (ready kind a b c d s)
      ≡ before (some (shown kind m)) (
          fed accumulate later (
            ready kind
              (flags_of m.left m.right m.middle (is_negative m.x) (is_negative m.y))
              (low 8 m.x)
              (low 8 m.y)
              (fourth kind m d)
              s))
unfolding packet_length
fed-packet standard m a b c d s later mouse h =
    let fl = flags_of-Flags m.left m.right m.middle (is_negative m.x) (is_negative m.y) in
    three _ _ _ 0 a b c d s later fl.valid (shown standard m)
      (decoded standard m d mouse h (λ wide. cc))
fed-packet wheel m a b c d s later mouse h =
    let fl = flags_of-Flags m.left m.right m.middle (is_negative m.x) (is_negative m.y) in
    four _ _ _ (fourth_byte m) a b c d s later fl.valid wheel refl (shown wheel m)
      (decoded wheel m (fourth_byte m) mouse h (λ wide. refl))
fed-packet five_button m a b c d s later mouse h =
    let fl = flags_of-Flags m.left m.right m.middle (is_negative m.x) (is_negative m.y) in
    four _ _ _ (fourth_byte m) a b c d s later fl.valid five_button refl (shown five_button m)
      (decoded five_button m (fourth_byte m) mouse h (λ wide. refl))
fed-packet usb m a b c d s later mouse h = elim mouse [ ]
fed-packet i2c_hid m a b c d s later mouse h = elim mouse [ ]
fed-packet no_pointer m a b c d s later mouse h = elim mouse [ ]

fed-packets_from :
    (kind : PointerKind) (ms : List Movement) (a b c d : ℕ) (s : Ps2)
    → Mouse kind
    → All Sendable ms
    → (fed accumulate (packets kind ms) (ready kind a b c d s)).0 ≡ map (shown kind) ms
unfolding fed
fed-packets_from kind [] a b c d s mouse h = refl
fed-packets_from kind (m ∷ ms) a b c d s mouse (h, hs) =
    ap (λ r. r.0) (fed-packet kind m a b c d s (packets kind ms) mouse h)
    ∙ ap (λ r. shown kind m ∷ r) (fed-packets_from kind ms _ _ _ (fourth kind m d) s mouse hs)

-- From a fresh driver that has identified the mouse: the packets of its movements give one motion
-- for each, in order: movements of nine bits, the vertical one turned round, the wheel's four bits
-- where it has one, whatever the high nibble of the fourth byte is, and the buttons.
pub fed-packets :
    (kind : PointerKind) (ms : List Movement)
    → Mouse kind
    → All Sendable ms
    → (fed accumulate (packets kind ms) (fresh kind)).0 ≡ map (shown kind) ms
fed-packets kind ms mouse h = fed-packets_from kind ms 0 0 0 0 (fresh kind) mouse h
