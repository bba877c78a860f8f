-- ===== src/Input/Runs.antt =====
-- The input driver at concrete inputs: tests, and the theorems applied.
use nanochronometer.Common.{
  ℕ, ◌-◌, ◌≡◌, ◌⊎◌, refl, arith, true, false, List, [], ◌∷◌, none, some, map, length, drop,
}
use nanochronometer.Common.Int.{pos, negsuc}
use nanochronometer.Input.{
  key_event, standard, wheel, fresh, keystroke, accumulate, held, recently, translate_set2, key,
  hid_to_scancode, keys_changed, first_new,
}
use nanochronometer.Input.Poll.{UsbInput, Answers, Input, poll_keyboard, usb_poll, poll}
use nanochronometer.Input.Feed.{fed}
use nanochronometer.Input.Codes.{set_one, set_two, settled, sent_all, shown}
use nanochronometer.Input.Keys.{Stroke, coded, fed-sent_all}
use nanochronometer.Input.Movements
use nanochronometer.Input.Movements.{Movement, packets, is_wheel}
use nanochronometer.Input.Packets.{fed-packets}
use nanochronometer.Input.Held.{Explains, poll_keyboard-Explains}
use nanochronometer.Input.Turns.{usb_poll-Waiting}
use nanochronometer.Input.Bounds.{InBounds, poll-InBounds, fresh-InBounds}
use nanochronometer.Input.Recent.{remember_all, recently-remember_all}

-- The A key, pressed and released.
abbrev strokes : List Stroke
strokes =
    record { key = (0x1E, 0x1C); pressed = true }
    ∷ record { key = (0x1E, 0x1C); pressed = false }
    ∷ []

fed-sent_all_example :
    fed keystroke
      (sent_all set_two (map (coded set_two) strokes))
      (settled set_two (fresh standard))
    ≡ (map (λ k. key_event (coded set_one k)) strokes, settled set_two (fresh standard))
fed-sent_all_example = fed-sent_all set_two strokes (fresh standard) (refl, (refl, tt))

-- The code of A in set 1.
set_two_A :
    shown set_two (record { scancode = 0x1C; pressed = true })
    ≡ key_event (record { scancode = 0x1E; pressed = true })
unfolding translate_set2
set_two_A = refl

abbrev movements : List Movement
movements =
    record {
      x = pos 5;
      y = negsuc 199;
      turn = negsuc 0;
      above = 15;
      left = true;
      right = false;
      middle = false;
    }
    ∷ []

fed-packets_example :
    (fed accumulate (packets wheel movements) (fresh wheel)).0
    ≡ map (Movements.shown wheel) movements
fed-packets_example =
    fed-packets wheel movements is_wheel ((omega arith, omega arith, omega arith, omega arith), tt)

abbrev two_keys : List ℕ
two_keys = 0 ∷ 0 ∷ 0x04 ∷ 0x05 ∷ 0 ∷ 0 ∷ 0 ∷ 0 ∷ []

abbrev keyboard_only : UsbInput
keyboard_only = record {
  keyboard = true;
  pointer = false;
  previous = 0 ∷ 0 ∷ 0 ∷ 0 ∷ 0 ∷ 0 ∷ 0 ∷ 0 ∷ [];
  next = 1;
}

-- Two keys pressed at once: the first is an event, and the second is none any more.
poll_keyboard-Explains_example :
    Explains
      (held keyboard_only.previous)
      (held two_keys)
      (poll_keyboard (some two_keys) keyboard_only).0
    × ((poll_keyboard (some two_keys) keyboard_only).1
        ≡ record keyboard_only { previous = two_keys })
    × ((poll_keyboard (some two_keys) (poll_keyboard (some two_keys) keyboard_only).1).0 ≡ none)
poll_keyboard-Explains_example = poll_keyboard-Explains two_keys keyboard_only refl

first_of_two : (poll_keyboard (some two_keys) keyboard_only).0 ≡ key 0x1E true
unfolding poll_keyboard first_new hid_to_scancode
first_of_two = refl

abbrev answers : Answers
answers = record {
  status = 0x21;
  byte = 0x28;
  keyboard_report = some two_keys;
  pointer_report = none;
  now = 0;
  touchpad = none;
}

key_changed :
    keys_changed keyboard_only.previous two_keys
    ≡ some (key_event (record { scancode = 0x1E; pressed = true }))
unfolding keys_changed first_new hid_to_scancode
key_changed = refl

usb_poll-Waiting_example :
    ((usb_poll answers keyboard_only).0
      ≡ some (key_event (record { scancode = 0x1E; pressed = true })))
    ⊎ ((usb_poll answers (usb_poll answers keyboard_only).1).0
        ≡ some (key_event (record { scancode = 0x1E; pressed = true })))
usb_poll-Waiting_example =
    usb_poll-Waiting two_keys (key_event (record { scancode = 0x1E; pressed = true })) keyboard_only
      answers answers (record { present = refl; changed = key_changed; turn = omega arith }) refl
      refl

abbrev a_machine : Input
a_machine = record {
  ps2 = fresh wheel;
  usb = some keyboard_only;
  i2c = false;
  i2c_next = 0;
  i2c_interval = 0;
  i2c_previous = [];
}

poll-InBounds_example : InBounds (poll answers a_machine).1.ps2
poll-InBounds_example = poll-InBounds answers a_machine (fresh-InBounds wheel)

abbrev nine : List ℕ
nine = 1 ∷ 2 ∷ 3 ∷ 4 ∷ 5 ∷ 6 ∷ 7 ∷ 8 ∷ 9 ∷ []

recently-remember_all_example :
    recently (remember_all nine (fresh standard)) ≡ drop (length nine - 8) nine
recently-remember_all_example = recently-remember_all standard nine
