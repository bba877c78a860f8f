-- ===== src/Input/Turns.antt =====
-- The two USB devices take turns.
use nanochronometer.Common.{
  ℕ, ◌<◌, ◌≡◌, ◌⊎◌, refl, ap, sym, subst, ◌∙◌, arith, bit_xor, true, false, List, Option, some,
  ◌==◌, if◌then◌else◌, Bool-cases, Option-cases, inl, inr,
}
use nanochronometer.Input.{Event, keys_changed}
use nanochronometer.Input.Poll.{
  UsbInput, Answers, poll_keyboard, poll_pointer, usb_turn, usb_poll, or_second,
}
use nanochronometer.Input.Held.{poll_keyboard-keys_changed}

-- A key of the USB keyboard has changed to a report that gives the event.
pub record Waiting (report : List ℕ) (event : Event) (device : UsbInput) : Type 0 where
  pub present : device.keyboard ≡ true
  pub changed : keys_changed device.previous report ≡ some event
  pub turn : device.next < 2

-- What one poll makes of a waiting key: its event, or the pointer's, after which the keyboard has
-- the first turn.
Served : List ℕ → Event → Option Event × UsbInput → Type 0
Served report event (found, device) =
    (found ≡ some event) ⊎ (Waiting report event device × (device.next ≡ 0))

abbrev turned : UsbInput → UsbInput
turned device = record device { next = bit_xor device.next 1 }

other_turn : (n : ℕ) → n ≡ 1 → bit_xor n 1 ≡ 0
other_turn n h = ap (λ k. bit_xor k 1) h

module _ (report : List ℕ) (event : Event) (answers : Answers)
    (there : answers.keyboard_report ≡ some report) where
  keyboard_first :
      (device : UsbInput)
      → Waiting report event device
      → device.next ≡ 0
      → usb_turn answers device ≡ (some event, record (turned device) { previous = report })
  unfolding usb_turn
  keyboard_first device w first =
      let its_turn : (device.next == 0) ≡ true = ground (arith, first) in
      ap
        (λ b.
          if b
          then poll_keyboard answers.keyboard_report (turned device)
          else (poll_pointer answers.pointer_report (turned device), turned device))
        its_turn
      ∙ ap (λ r. poll_keyboard r (turned device)) there
      ∙ poll_keyboard-keys_changed report (turned device) w.present
      ∙ ap (λ e. (e, record (turned device) { previous = report })) w.changed

  keyboard_turn :
      (device : UsbInput)
      → Waiting report event device
      → device.next ≡ 0
      → (usb_poll answers device).0 ≡ some event
  unfolding usb_poll
  keyboard_turn device w first = ap (λ r. (or_second answers r).0) (keyboard_first device w first)

  pointer_first :
      (device : UsbInput)
      → device.next ≡ 1
      → usb_turn answers device
        ≡ (poll_pointer answers.pointer_report (turned device), turned device)
  unfolding usb_turn
  pointer_first device second =
      let its_turn : (device.next == 0) ≡ false = ground (arith, second) in
      ap
        (λ b.
          if b
          then poll_keyboard answers.keyboard_report (turned device)
          else (poll_pointer answers.pointer_report (turned device), turned device))
        its_turn

  pointer_turn :
      (device : UsbInput)
      → Waiting report event device
      → device.next ≡ 1
      → Served report event (usb_poll answers device)
  unfolding usb_poll Served
  pointer_turn device w second =
      let its_turn = other_turn device.next second in
      let waits : Waiting report event (turned device) = record {
        present = w.present;
        changed = w.changed;
        turn = omega (arith, its_turn);
      } in
      let found = poll_pointer answers.pointer_report (turned device) in
      let taken = ap (or_second answers) (pointer_first device second) in
      elim (Option-cases found) [
        | inr (e, moved) ↦
            subst (Served report event)
              (sym (taken ∙ ap (λ o. or_second answers (o, turned device)) moved))
              (inr (waits, its_turn))
        | inl still ↦
            subst (Served report event)
              (sym (
                taken
                ∙ ap (λ o. or_second answers (o, turned device)) still
                ∙ keyboard_first (turned device) waits its_turn))
              (inl refl)
      ]

  served :
      (device : UsbInput)
      → Waiting report event device
      → Served report event (usb_poll answers device)
  unfolding Served
  served device w = elim (Bool-cases (device.next == 0)) [
    | inl first ↦ inl (keyboard_turn device w (ground (arith, first)))
    | inr second ↦ pointer_turn device w (ground (arith, second, w.turn))
  ]

-- A changed key of the USB keyboard gives its event in one of two polls, whatever the pointer
-- reports at them.
pub usb_poll-Waiting :
    (report : List ℕ) (event : Event) (device : UsbInput) (first second : Answers)
    → Waiting report event device
    → first.keyboard_report ≡ some report
    → second.keyboard_report ≡ some report
    → ((usb_poll first device).0 ≡ some event)
      ⊎ ((usb_poll second (usb_poll first device).1).0 ≡ some event)
unfolding Served
usb_poll-Waiting report event device first second w p q =
    elim (served report event first p device w) [
      | inl at_once ↦ inl at_once
      | inr (waits, its_turn) ↦
          inr (keyboard_turn report event second q (usb_poll first device).1 waits its_turn)
    ]
