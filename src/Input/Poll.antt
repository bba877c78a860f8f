-- ===== src/Input/Poll.antt =====
-- crates/nanochrono-baremetal/src/input.rs: one poll of all input devices. What the ports and the
-- controllers answer is the argument of a poll.
use nanochronometer.Common.{
  ℕ, ◌^◌, bit_and, bit_xor, Bool, false, not, ◌&&◌, List, Option, none, some, get_or, ltb, ◌==◌,
  if◌then◌else◌, wrapping_sub, wrapping_add,
}
use nanochronometer.Common.Int.{ℤ, pos, negsuc, sub_ℕ}
use nanochronometer.Input.{
  Event, motion_event, Motion, Ps2, held, first_new, hid_to_scancode, change, keys_changed, has,
  remember, keystroke, accumulate,
}

-- The HID devices on the xHCI controller: whether there is one of each kind.
pub record UsbInput : Type 0 where
  pub keyboard : Bool
  pub pointer : Bool
  pub previous : List ℕ
  pub next : ℕ

-- What the I2C-HID device reports.
pub data Report : Type 0 where
  movement : Motion → Report
  keys : List ℕ → Report

-- `Input`, whose touchpad's own state is not followed.
pub record Input : Type 0 where
  pub ps2 : Ps2
  pub usb : Option UsbInput
  pub i2c : Bool
  pub i2c_next : ℕ
  pub i2c_interval : ℕ
  pub i2c_previous : List ℕ

-- What one poll may read: the ports, the reports of the USB devices, the counter and the touchpad.
pub record Answers : Type 0 where
  pub status : ℕ
  pub byte : ℕ
  pub keyboard_report : Option (List ℕ)
  pub pointer_report : Option (List ℕ)
  pub now : ℕ
  pub touchpad : Option Report

unfoldable pub poll_keyboard : Option (List ℕ) → UsbInput → Option Event × UsbInput
unfolding first_new hid_to_scancode
poll_keyboard none usb = (none, usb)
poll_keyboard (some report) usb =
    let new = first_new (held report) (held usb.previous) in
    let lifted = first_new (held usb.previous) (held report) in
    if not usb.keyboard then (none, usb) else (change new lifted, record usb { previous = report })

-- `as i8 as i32`
abbrev pub as_i8 : ℕ → ℤ
as_i8 byte = if ltb byte 128 then pos byte else sub_ℕ byte 256

unfoldable pub poll_pointer : Option (List ℕ) → UsbInput → Option Event
poll_pointer none usb = none
poll_pointer (some report) usb =
    let buttons = get_or report 0 0 in
    if not usb.pointer
    then none
    else some (
        motion_event (record {
          dx = as_i8 (get_or report 1 0);
          dy = as_i8 (get_or report 2 0);
          scroll = as_i8 (get_or report 3 0);
          left = has buttons 0x01;
          right = has buttons 0x02;
          middle = has buttons 0x04;
        }))

-- One round of the loop: the device whose turn it is.
unfoldable pub usb_turn : Answers → UsbInput → Option Event × UsbInput
unfolding poll_keyboard poll_pointer
usb_turn answers usb =
    let turned = record usb { next = bit_xor usb.next 1 } in
    if usb.next == 0
    then poll_keyboard answers.keyboard_report turned
    else (poll_pointer answers.pointer_report turned, turned)

-- What the first round found, or the second round.
abbrev pub or_second : Answers → Option Event × UsbInput → Option Event × UsbInput
unfolding usb_turn
or_second answers (some event, usb) = (some event, usb)
or_second answers (none, usb) = usb_turn answers usb

unfoldable pub usb_poll : Answers → UsbInput → Option Event × UsbInput
unfolding usb_turn
usb_poll answers usb = or_second answers (usb_turn answers usb)

abbrev pub poll_devices : Answers → Input → Option UsbInput → Option Event × Input
unfolding usb_poll
poll_devices answers input none = (none, input)
poll_devices answers input (some usb) =
    let (event, usb') = usb_poll answers usb in (event, record input { usb = some usb' })

unfoldable pub poll_usb : Answers → Input → Option Event × Input
unfolding usb_poll
poll_usb answers input = poll_devices answers input input.usb

abbrev pub is_zero : ℤ → Bool
is_zero (pos n) = n == 0
is_zero (negsuc n) = false

-- The movement is the default one.
abbrev pub is_still : Motion → Bool
is_still m =
    is_zero m.dx
    && (is_zero m.dy && (is_zero m.scroll && (not m.left && (not m.right && not m.middle))))

abbrev pub touchpad_event : Option Report → Input → Option Event × Input
touchpad_event none input = (none, input)
touchpad_event (some (movement m)) input =
    (if is_still m then none else some (motion_event m), input)
touchpad_event (some (keys report)) input =
    (keys_changed input.i2c_previous report, record input { i2c_previous = report })

-- `(next.wrapping_sub(now) as i64) > 0`
abbrev pub is_due_later : ℕ → ℕ → Bool
is_due_later next now = let wait = wrapping_sub next now in ltb 0 wait && ltb wait (2 ^ 63)

unfoldable pub poll_i2c : Answers → Input → Option Event × Input
unfolding keys_changed
poll_i2c answers input =
    let due = record input { i2c_next = wrapping_add answers.now input.i2c_interval } in
    if is_due_later input.i2c_next answers.now
    then (none, input)
    else if not input.i2c
    then (none, due)
    else touchpad_event answers.touchpad due

-- A USB event, or what the touchpad has.
abbrev pub or_touchpad : Answers → Option Event × Input → Option Event × Input
unfolding poll_i2c
or_touchpad answers (some event, input) = (some event, input)
or_touchpad answers (none, input) = poll_i2c answers input

-- A byte of the 8042, from the port that its status names.
abbrev pub take_byte : ℕ → ℕ → Ps2 → Option Event × Ps2
unfolding remember keystroke accumulate
take_byte status byte s =
    let seen = remember byte s in
    if bit_and status 0x20 == 0 then keystroke byte seen else accumulate byte seen

abbrev pub poll_ps2 : Answers → Input → Option Event × Input
unfolding remember keystroke accumulate
poll_ps2 answers input =
    let (event, ps2') = take_byte answers.status answers.byte input.ps2 in
    (event, record input { ps2 = ps2' })

unfoldable pub poll : Answers → Input → Option Event × Input
unfolding poll_usb poll_i2c remember keystroke accumulate
poll answers input =
    if bit_and answers.status 0x01 == 0
    then or_touchpad answers (poll_usb answers input)
    else poll_ps2 answers input
