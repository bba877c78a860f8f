-- ===== src/Input/Movements.antt =====
-- The movements of a mouse and the bytes of their packets.
use nanochronometer.Common.{
  ℕ, ◌+◌, ◌-◌, ◌*◌, ◌^◌, ◌<◌, ◌≡◌, refl, ap, ◌∙◌, arith, bit_and, Bool, true, false, List, [], ◌∷◌,
  ◌++◌, some, ltb, leb, if◌then◌else◌, all_below, all_below_sound,
}
use nanochronometer.Common.Bits.{bit_and_mask}
use nanochronometer.Common.Int.{ℤ, pos, negsuc, sub_ℕ, ◌-ℤ◌}
use nanochronometer.Input.{
  Event, motion_event, PointerKind, standard, wheel, five_button, usb, i2c_hid, no_pointer, Ps2,
  has, sign_extend, wheel_delta, decode_packet, scroll_of,
}

-- A movement as the device counts it, up being positive. `above` is the high nibble of the fourth
-- byte: copies of the wheel's sign, or the side buttons.
pub record Movement : Type 0 where
  pub x : ℤ
  pub y : ℤ
  pub turn : ℤ
  pub above : ℕ
  pub left : Bool
  pub right : Bool
  pub middle : Bool

abbrev bit : ℕ → Bool → ℕ
bit v true = v
bit v false = 0

abbrev pub is_negative : ℤ → Bool
is_negative (pos n) = false
is_negative (negsuc n) = true

-- The lowest bits of the two's complement, of which there are `2 ^ w` values.
abbrev pub low : ℕ → ℤ → ℕ
low w (pos n) = n
low w (negsuc n) = 2 ^ w - 1 - n

-- At most `w` bits and a sign.
abbrev Fits : ℕ → ℤ → Type 0
Fits w (pos n) = n < 2 ^ w
Fits w (negsuc n) = n < 2 ^ w

abbrev pub flags_of : Bool → Bool → Bool → Bool → Bool → ℕ
flags_of l r m x y = 8 + bit 1 l + bit 2 r + bit 4 m + bit 16 x + bit 32 y

pub record Flags (f : ℕ) (l r m x y : Bool) : Type 0 where
  pub valid : bit_and f 0x08 ≡ 8
  whole : has f 0xC0 ≡ false
  left : has f 0x01 ≡ l
  right : has f 0x02 ≡ r
  middle : has f 0x04 ≡ m
  left_of : has f 0x10 ≡ x
  below : has f 0x20 ≡ y

pub flags_of-Flags : (l r m x y : Bool) → Flags (flags_of l r m x y) l r m x y
flags_of-Flags l r m x y = ground arith

sign_extend-low : (z : ℤ) → Fits 8 z → sign_extend (low 8 z) (is_negative z) ≡ z
unfolding sign_extend
sign_extend-low (pos n) h = refl
sign_extend-low (negsuc n) h = ground arith

nibbles : all_below 16 (λ z. if has z 0x08 then leb 8 z else ltb z 8) ≡ true
unfolding all_below
nibbles = refl

low_nibble : (z : ℤ) → Fits 3 z → low 4 z < 16
low_nibble (pos n) h = omega arith
low_nibble (negsuc n) h = omega arith

-- The fourth byte: the wheel's four bits under the high nibble.
abbrev pub fourth_byte : Movement → ℕ
fourth_byte m = low 4 m.turn + 16 * m.above

nibble_delta : ℕ → ℤ
nibble_delta z = if ltb z 8 then pos z else sub_ℕ z 16

wheel_delta-nibble : (z above : ℕ) → z < 16 → wheel_delta (z + 16 * above) ≡ nibble_delta z
unfolding wheel_delta nibble_delta
wheel_delta-nibble z above h =
    let masked : bit_and (z + 16 * above) 0x0F ≡ z =
      bit_and_mask 4 (z + 16 * above) ∙ omega arith in
    rw masked (
      ground (arith, all_below_sound 16 (λ c. if has c 0x08 then leb 8 c else ltb c 8) z nibbles h))

nibble_delta-low : (z : ℤ) → Fits 3 z → nibble_delta (low 4 z) ≡ z
unfolding nibble_delta
nibble_delta-low (pos n) h = ground (arith, h)
nibble_delta-low (negsuc n) h = ground (arith, h)

wheel_delta-low : (z : ℤ) (above : ℕ) → Fits 3 z → wheel_delta (low 4 z + 16 * above) ≡ z
wheel_delta-low z above h =
    wheel_delta-nibble (low 4 z) above (low_nibble z h) ∙ nibble_delta-low z h

-- Between two packets, with what is left of the last one.
abbrev pub ready : PointerKind → ℕ → ℕ → ℕ → ℕ → Ps2 → Ps2
ready kind a b c d s = record s { pointer = kind; packet = a ∷ b ∷ c ∷ d ∷ []; packet_len = 0 }

abbrev pub scrolls : PointerKind → Bool
scrolls wheel = true
scrolls five_button = true
scrolls _ = false

-- The bytes of a packet: three, and a fourth where the device has a wheel.
abbrev pub packet : PointerKind → Movement → List ℕ
packet kind m =
    flags_of m.left m.right m.middle (is_negative m.x) (is_negative m.y)
    ∷ (low 8 m.x ∷ (low 8 m.y ∷ (if scrolls kind then fourth_byte m ∷ [] else [])))

abbrev pub packets : PointerKind → List Movement → List ℕ
packets kind [] = []
packets kind (m ∷ ms) = packet kind m ++ packets kind ms

-- Nine bits of movement each way, four of the wheel, and any high nibble.
abbrev pub Sendable : Movement → Type 0
Sendable m = Fits 8 m.x × Fits 8 m.y × Fits 3 m.turn × (m.above < 16)

-- The motion that is to be shown, down being positive.
abbrev pub shown : PointerKind → Movement → Event
shown kind m = motion_event (record {
  dx = m.x;
  dy = pos 0 -ℤ m.y;
  scroll = if scrolls kind then m.turn else pos 0;
  left = m.left;
  right = m.right;
  middle = m.middle;
})

-- What the device is: one whose packets are collected here.
pub data Mouse : PointerKind → Type 0 where
  is_standard : Mouse standard
  is_wheel : Mouse wheel
  is_five_button : Mouse five_button

-- A packet whose flags are known.
decode_packet-Flags :
    (kind : PointerKind) (f dx dy d : ℕ) (l r m x y : Bool)
    → Flags f l r m x y
    → decode_packet kind (f ∷ (dx ∷ (dy ∷ (d ∷ []))))
      ≡ some (
          motion_event (record {
            dx = sign_extend dx x;
            dy = pos 0 -ℤ sign_extend dy y;
            scroll = scroll_of kind d;
            left = l;
            right = r;
            middle = m;
          }))
unfolding decode_packet
decode_packet-Flags kind f dx dy d l r m x y fl =
    rw (fl.whole, fl.left, fl.right, fl.middle, fl.left_of, fl.below) refl

scroll_of-low :
    (kind : PointerKind) (z : ℤ) (above d : ℕ)
    → Mouse kind
    → Fits 3 z
    → (scrolls kind ≡ true → d ≡ low 4 z + 16 * above)
    → scroll_of kind d ≡ (if scrolls kind then z else pos 0)
scroll_of-low standard z above d is_standard fits h = refl
scroll_of-low wheel z above d is_wheel fits h =
    ap wheel_delta (h refl) ∙ wheel_delta-low z above fits
scroll_of-low five_button z above d is_five_button fits h =
    ap wheel_delta (h refl) ∙ wheel_delta-low z above fits
scroll_of-low usb z above d mouse fits h = elim mouse [ ]
scroll_of-low i2c_hid z above d mouse fits h = elim mouse [ ]
scroll_of-low no_pointer z above d mouse fits h = elim mouse [ ]

pub decoded :
    (kind : PointerKind) (m : Movement) (d : ℕ)
    → Mouse kind
    → Sendable m
    → (scrolls kind ≡ true → d ≡ fourth_byte m)
    → decode_packet kind (
        flags_of m.left m.right m.middle (is_negative m.x) (is_negative m.y)
        ∷ (low 8 m.x ∷ (low 8 m.y ∷ (d ∷ []))))
      ≡ some (shown kind m)
decoded kind m d mouse (hx, hy, ht, ha) hd =
    decode_packet-Flags kind _ (low 8 m.x) (low 8 m.y) d m.left m.right m.middle (is_negative m.x)
      (is_negative m.y) (flags_of-Flags m.left m.right m.middle (is_negative m.x) (is_negative m.y))
    ∙ rw
        (
          sign_extend-low m.x hx,
          sign_extend-low m.y hy,
          scroll_of-low kind m.turn m.above d mouse ht hd,
        )
        refl
