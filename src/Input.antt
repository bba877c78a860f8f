-- ===== src/Input.antt =====
-- crates/nanochrono-baremetal/src/input.rs: the bytes of the 8042 and the reports of keyboards, as
-- events.
pub mod Poll
pub mod Feed
pub mod Codes
pub mod Keys
pub mod Movements
pub mod Packets
pub mod Held
pub mod Turns
pub mod Bounds
pub mod Recent
mod Runs
use nanochronometer.Common.{
  ℕ, zero, suc, ◌+◌, ◌-◌, ◌*◌, ◌/◌, ◌%◌, ◌^◌, bit_and, Bool, true, false, not, ◌&&◌, ◌||◌, List, [],
  ◌∷◌, ◌++◌, Option, none, some, length, take, drop, set, get_or, get_elem?, replicate, ltb, leb,
  ◌==◌, if◌then◌else◌, wrapping_sub,
}
use nanochronometer.Common.Int.{ℤ, pos, negsuc, sub_ℕ, ◌-ℤ◌}

-- A key code of set 2, as set 1 has it.
abbrev pub set2_to_set1 : List ℕ
set2_to_set1 =
    0xFF ∷ 0x43 ∷ 0x41 ∷ 0x3F ∷ 0x3D ∷ 0x3B ∷ 0x3C ∷ 0x58 ∷ 0x64 ∷ 0x44 ∷ 0x42 ∷ 0x40 ∷ 0x3E ∷ 0x0F
    ∷ 0x29 ∷ 0x59 ∷ 0x65 ∷ 0x38 ∷ 0x2A ∷ 0x70 ∷ 0x1D ∷ 0x10 ∷ 0x02 ∷ 0x5A ∷ 0x66 ∷ 0x71 ∷ 0x2C
    ∷ 0x1F ∷ 0x1E ∷ 0x11 ∷ 0x03 ∷ 0x5B ∷ 0x67 ∷ 0x2E ∷ 0x2D ∷ 0x20 ∷ 0x12 ∷ 0x05 ∷ 0x04 ∷ 0x5C
    ∷ 0x68 ∷ 0x39 ∷ 0x2F ∷ 0x21 ∷ 0x14 ∷ 0x13 ∷ 0x06 ∷ 0x5D ∷ 0x69 ∷ 0x31 ∷ 0x30 ∷ 0x23 ∷ 0x22
    ∷ 0x15 ∷ 0x07 ∷ 0x5E ∷ 0x6A ∷ 0x72 ∷ 0x32 ∷ 0x24 ∷ 0x16 ∷ 0x08 ∷ 0x09 ∷ 0x5F ∷ 0x6B ∷ 0x33
    ∷ 0x25 ∷ 0x17 ∷ 0x18 ∷ 0x0B ∷ 0x0A ∷ 0x60 ∷ 0x6C ∷ 0x34 ∷ 0x35 ∷ 0x26 ∷ 0x27 ∷ 0x19 ∷ 0x0C
    ∷ 0x61 ∷ 0x6D ∷ 0x73 ∷ 0x28 ∷ 0x74 ∷ 0x1A ∷ 0x0D ∷ 0x62 ∷ 0x6E ∷ 0x3A ∷ 0x36 ∷ 0x1C ∷ 0x1B
    ∷ 0x75 ∷ 0x2B ∷ 0x63 ∷ 0x76 ∷ 0x55 ∷ 0x56 ∷ 0x77 ∷ 0x78 ∷ 0x79 ∷ 0x7A ∷ 0x0E ∷ 0x7B ∷ 0x7C
    ∷ 0x4F ∷ 0x7D ∷ 0x4B ∷ 0x47 ∷ 0x7E ∷ 0x7F ∷ 0x6F ∷ 0x52 ∷ 0x53 ∷ 0x50 ∷ 0x4C ∷ 0x4D ∷ 0x48
    ∷ 0x01 ∷ 0x45 ∷ 0x57 ∷ 0x4E ∷ 0x51 ∷ 0x4A ∷ 0x37 ∷ 0x49 ∷ 0x46 ∷ 0x54 ∷ 0x80 ∷ 0x81 ∷ 0x82
    ∷ 0x41 ∷ []

-- A key of the HID usage tables from 0x04 on, as set 1 has it.
abbrev pub hid_to_set1 : List ℕ
hid_to_set1 =
    0x1E ∷ 0x30 ∷ 0x2E ∷ 0x20 ∷ 0x12 ∷ 0x21 ∷ 0x22 ∷ 0x23 ∷ 0x17 ∷ 0x24 ∷ 0x25 ∷ 0x26 ∷ 0x32 ∷ 0x31
    ∷ 0x18 ∷ 0x19 ∷ 0x10 ∷ 0x13 ∷ 0x1F ∷ 0x14 ∷ 0x16 ∷ 0x2F ∷ 0x11 ∷ 0x2D ∷ 0x15 ∷ 0x2C ∷ 0x02
    ∷ 0x03 ∷ 0x04 ∷ 0x05 ∷ 0x06 ∷ 0x07 ∷ 0x08 ∷ 0x09 ∷ 0x0A ∷ 0x0B ∷ 0x1C ∷ 0x01 ∷ 0x0E ∷ 0x0F
    ∷ 0x39 ∷ 0x0C ∷ 0x0D ∷ 0x1A ∷ 0x1B ∷ 0x2B ∷ 0x2B ∷ 0x27 ∷ 0x28 ∷ 0x29 ∷ 0x33 ∷ 0x34 ∷ 0x35
    ∷ 0x3A ∷ 0x3B ∷ 0x3C ∷ 0x3D ∷ 0x3E ∷ 0x3F ∷ 0x40 ∷ 0x41 ∷ 0x42 ∷ 0x43 ∷ 0x44 ∷ 0x57 ∷ 0x58
    ∷ 0x00 ∷ 0x46 ∷ 0x00 ∷ 0x52 ∷ 0x47 ∷ 0x49 ∷ 0x53 ∷ 0x4F ∷ 0x51 ∷ 0x4D ∷ 0x4B ∷ 0x50 ∷ 0x48
    ∷ 0x45 ∷ []

abbrev pub hid_first_usage : ℕ
hid_first_usage = 0x04

unfoldable pub hid_to_scancode : ℕ → ℕ
hid_to_scancode usage = get_or hid_to_set1 ((usage + 2 ^ 8 - hid_first_usage) % 2 ^ 8) 0

unfoldable pub translate_set2 : ℕ → ℕ
translate_set2 code = get_or set2_to_set1 code code

pub data PointerKind : Type 0 where
  standard wheel five_button usb i2c_hid no_pointer : PointerKind

unfoldable pub packet_length : PointerKind → ℕ
packet_length standard = 3
packet_length wheel = 4
packet_length five_button = 4
packet_length usb = 0
packet_length i2c_hid = 0
packet_length no_pointer = 0

pub record Motion : Type 0 where
  pub dx : ℤ
  pub dy : ℤ
  pub scroll : ℤ
  pub left : Bool
  pub right : Bool
  pub middle : Bool

pub record Key : Type 0 where
  pub scancode : ℕ
  pub pressed : Bool

pub data Event : Type 0 where
  key_event : Key → Event
  motion_event : Motion → Event

-- The part of `Input` that follows the bytes of the 8042.
pub record Ps2 : Type 0 where
  pub pointer : PointerKind
  pub packet : List ℕ
  pub packet_len : ℕ
  pub recent : List ℕ
  pub recent_len : ℕ
  pub set2 : Bool
  pub set2_break : Bool

abbrev pub recent_bytes : ℕ
recent_bytes = 8

abbrev pub set2_prefix : ℕ
set2_prefix = 0xF0

-- As `init` leaves it, for the pointer that was identified.
abbrev pub fresh : PointerKind → Ps2
fresh kind = record {
  pointer = kind;
  packet = replicate 4 0;
  packet_len = 0;
  recent = replicate recent_bytes 0;
  recent_len = 0;
  set2 = false;
  set2_break = false;
}

-- `rotate_left(1)`
abbrev pub rotate_left : List ℕ → List ℕ
rotate_left [] = []
rotate_left (x ∷ xs) = xs ++ (x ∷ [])

unfoldable pub remember : ℕ → Ps2 → Ps2
remember byte s =
    if s.recent_len == recent_bytes
    then record s { recent = set (rotate_left s.recent) (recent_bytes - 1) byte }
    else record s { recent = set s.recent s.recent_len byte; recent_len = s.recent_len + 1 }

-- `recent_bytes()`
abbrev pub recently : Ps2 → List ℕ
recently s = take s.recent_len s.recent

abbrev pub key : ℕ → Bool → Option Event
key scancode pressed = some (key_event (record { scancode = scancode; pressed = pressed }))

unfoldable pub keystroke : ℕ → Ps2 → Option Event × Ps2
unfolding translate_set2
keystroke byte s =
    if s.set2_break
    then (key (translate_set2 byte) false, record s { set2_break = false })
    else if byte == set2_prefix
    then (none, record s { set2 = true; set2_break = true })
    else if s.set2
    then (key (translate_set2 byte) true, s)
    else (key (bit_and byte 0x7F) (bit_and byte 0x80 == 0), s)

abbrev pub scancode_set : Ps2 → ℕ
scancode_set s = if s.set2 then 2 else 1

unfoldable pub sign_extend : ℕ → Bool → ℤ
sign_extend value negative = if negative then sub_ℕ value 256 else pos value

-- A flag of a packet's first byte.
abbrev pub has : ℕ → ℕ → Bool
has flags mask = not (bit_and flags mask == 0)

-- The fourth byte's low nibble.
unfoldable pub wheel_delta : ℕ → ℤ
wheel_delta byte = let z = bit_and byte 0x0F in if has z 0x08 then sub_ℕ z 16 else pos z

abbrev pub scroll_of : PointerKind → ℕ → ℤ
scroll_of wheel byte = wheel_delta byte
scroll_of five_button byte = wheel_delta byte
scroll_of kind byte = pos 0

-- What a whole packet says; one that overflowed says nothing.
unfoldable pub decode_packet : PointerKind → List ℕ → Option Event
unfolding sign_extend wheel_delta
decode_packet kind packet =
    let flags = get_or packet 0 0 in
    if has flags 0xC0
    then none
    else some (
        motion_event (record {
          dx = sign_extend (get_or packet 1 0) (has flags 0x10);
          dy = pos 0 -ℤ sign_extend (get_or packet 2 0) (has flags 0x20);
          scroll = scroll_of kind (get_or packet 3 0);
          left = has flags 0x01;
          right = has flags 0x02;
          middle = has flags 0x04;
        }))

-- The byte stored, and the packet decoded once it is whole.
abbrev pub collect : ℕ → Ps2 → Option Event × Ps2
collect byte s =
    let packet' = set s.packet s.packet_len byte in
    let len' = s.packet_len + 1 in
    if ltb len' (packet_length s.pointer)
    then (none, record s { packet = packet'; packet_len = len' })
    else (decode_packet s.pointer packet', record s { packet = packet'; packet_len = 0 })

unfoldable pub accumulate : ℕ → Ps2 → Option Event × Ps2
unfolding decode_packet packet_length
accumulate byte s =
    if packet_length s.pointer == 0
    then (none, s)
    else if (s.packet_len == 0) && (bit_and byte 0x08 == 0)
    then (none, s)
    else collect byte s

abbrev pub contains : List ℕ → ℕ → Bool
contains [] code = false
contains (x ∷ xs) code = (x == code) || contains xs code

-- The first key that is held in `keys` and not in `others`.
unfoldable pub first_new : List ℕ → List ℕ → Option ℕ
first_new [] others = none
first_new (code ∷ keys) others =
    let later = first_new keys others in
    if (code == 0) || contains others code then later else some code

-- The held keys of a boot protocol report.
abbrev pub held : List ℕ → List ℕ
held report = take 6 (drop 2 report)

-- A press before a release.
abbrev pub change : Option ℕ → Option ℕ → Option Event
change (some code) lifted = key (hid_to_scancode code) true
change none (some code) = key (hid_to_scancode code) false
change none none = none

unfoldable pub keys_changed : List ℕ → List ℕ → Option Event
unfolding first_new hid_to_scancode
keys_changed previous current =
    change (first_new (held current) (held previous)) (first_new (held previous) (held current))
