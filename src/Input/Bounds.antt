-- ===== src/Input/Bounds.antt =====
-- Every byte of the 8042 is stored within the buffers.
use nanochronometer.Common.{
  ℕ, ◌+◌, ◌≤◌, ◌<◌, ◌≡◌, refl, sym, subst, ◌∙◌, arith, bit_and, max, Bool, true, false, ◌&&◌, List,
  [], ◌∷◌, Option, none, some, length, length-append, length-set, not, wrapping_add, ltb, ◌==◌,
  if◌then◌else◌, Bool-cases, inl, inr,
}
use nanochronometer.Input.{
  Event, Ps2, PointerKind, packet_length, rotate_left, remember, keystroke, accumulate, collect,
  fresh,
}
use nanochronometer.Input.Poll.{
  UsbInput, Report, movement, keys, Answers, Input, usb_poll, poll_devices, is_due_later, take_byte,
  poll, poll_usb, poll_i2c, or_touchpad, touchpad_event,
}

pub record InBounds (s : Ps2) : Type 0 where
  pub packet_size : length s.packet ≡ 4
  pub packet_open : s.packet_len < max 1 (packet_length s.pointer)
  pub recent_size : length s.recent ≡ 8
  pub recent_fits : s.recent_len ≤ 8

length-rotate_left : (xs : List ℕ) → length (rotate_left xs) ≡ length xs
length-rotate_left [] = refl
length-rotate_left (x ∷ xs) = omega (arith, length-append xs (x ∷ []))

remember-InBounds : (byte : ℕ) (s : Ps2) → InBounds s → InBounds (remember byte s)
unfolding remember
remember-InBounds byte s v = elim (Bool-cases (s.recent_len == 8)) [
  | inl full ↦ rw full (record {
    packet_size = v.packet_size;
    packet_open = v.packet_open;
    recent_size =
        length-set (rotate_left s.recent) 7 byte ∙ length-rotate_left s.recent ∙ v.recent_size;
    recent_fits = v.recent_fits;
  })
  | inr room ↦ rw room (record {
    packet_size = v.packet_size;
    packet_open = v.packet_open;
    recent_size = length-set s.recent s.recent_len byte ∙ v.recent_size;
    recent_fits = ground (arith, v.recent_fits, room);
  })
]

keystroke-InBounds : (byte : ℕ) (s : Ps2) → InBounds s → InBounds (keystroke byte s).1
unfolding keystroke
keystroke-InBounds byte s v = ground arith

collect-InBounds : (byte : ℕ) (s : Ps2) → InBounds s → InBounds (collect byte s).1
collect-InBounds byte s v = elim (Bool-cases (ltb (s.packet_len + 1) (packet_length s.pointer))) [
  | inl more ↦ rw more (record {
    packet_size = length-set s.packet s.packet_len byte ∙ v.packet_size;
    packet_open = ground (arith, more);
    recent_size = v.recent_size;
    recent_fits = v.recent_fits;
  })
  | inr whole ↦ rw whole (record {
    packet_size = length-set s.packet s.packet_len byte ∙ v.packet_size;
    packet_open = omega arith;
    recent_size = v.recent_size;
    recent_fits = v.recent_fits;
  })
]

module _ {ℓ} {A : Type ℓ} (P : A → Type 0) where
  either : (b : Bool) (p q : A) → P p → P q → P (if b then p else q)
  either true p q hp hq = hp
  either false p q hp hq = hq

abbrev StateInBounds : Option Event × Ps2 → Type 0
StateInBounds r = InBounds r.1

accumulate-InBounds : (byte : ℕ) (s : Ps2) → InBounds s → InBounds (accumulate byte s).1
unfolding accumulate
accumulate-InBounds byte s v = either StateInBounds (packet_length s.pointer == 0) _ _ v (
    either StateInBounds ((s.packet_len == 0) && (bit_and byte 0x08 == 0)) _ _ v
      (collect-InBounds byte s v))

take_byte-InBounds : (status byte : ℕ) (s : Ps2) → InBounds s → InBounds (take_byte status byte s).1
unfolding remember keystroke accumulate
take_byte-InBounds status byte s v =
    let seen = remember-InBounds byte s v in
    either StateInBounds (bit_and status 0x20 == 0) _ _
      (keystroke-InBounds byte (remember byte s) seen)
      (accumulate-InBounds byte (remember byte s) seen)

poll_devices-ps2 :
    (answers : Answers) (input : Input) (devices : Option UsbInput)
    → (poll_devices answers input devices).1.ps2 ≡ input.ps2
unfolding usb_poll
poll_devices-ps2 answers input none = refl
poll_devices-ps2 answers input (some devices) = refl

poll_usb-ps2 : (answers : Answers) (input : Input) → (poll_usb answers input).1.ps2 ≡ input.ps2
unfolding poll_usb
poll_usb-ps2 answers input = poll_devices-ps2 answers input input.usb

touchpad_event-ps2 :
    (report : Option Report) (input : Input) → (touchpad_event report input).1.ps2 ≡ input.ps2
touchpad_event-ps2 none input = refl
touchpad_event-ps2 (some (movement m)) input = refl
touchpad_event-ps2 (some (keys report)) input = refl

poll_i2c-ps2 : (answers : Answers) (input : Input) → (poll_i2c answers input).1.ps2 ≡ input.ps2
unfolding poll_i2c
poll_i2c-ps2 answers input =
    let due = record input { i2c_next = wrapping_add answers.now input.i2c_interval } in
    either (λ (r : Option Event × Input). r.1.ps2 ≡ input.ps2)
      (is_due_later input.i2c_next answers.now) _ _ refl
      (either (λ (r : Option Event × Input). r.1.ps2 ≡ input.ps2) (not input.i2c) _ _ refl
        (touchpad_event-ps2 answers.touchpad due))

or_touchpad-ps2 :
    (answers : Answers) (r : Option Event × Input) → (or_touchpad answers r).1.ps2 ≡ r.1.ps2
unfolding poll_i2c
or_touchpad-ps2 answers (some event, input) = refl
or_touchpad-ps2 answers (none, input) = poll_i2c-ps2 answers input

-- Every poll, whatever it reads, keeps the packet and the readout within their buffers.
pub poll-InBounds :
    (answers : Answers) (input : Input) → InBounds input.ps2 → InBounds (poll answers input).1.ps2
unfolding poll
poll-InBounds answers input v =
    either (λ (r : Option Event × Input). InBounds r.1.ps2) (bit_and answers.status 0x01 == 0) _ _
      (subst InBounds
        (sym (or_touchpad-ps2 answers (poll_usb answers input) ∙ poll_usb-ps2 answers input)) v)
      (take_byte-InBounds answers.status answers.byte input.ps2 v)

pub fresh-InBounds : (kind : PointerKind) → InBounds (fresh kind)
fresh-InBounds kind = record {
  packet_size = refl;
  packet_open = omega arith;
  recent_size = refl;
  recent_fits = omega arith;
}
