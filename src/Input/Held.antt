-- ===== src/Input/Held.antt =====
-- What a change of a keyboard's report says.
use nanochronometer.Common.{
  ℕ, ◌≡◌, ◌≢◌, refl, ap, sym, subst, ◌∙◌, not, arith, true, false, ◌||◌, List, [], ◌∷◌, Option,
  none, some, ◌==◌, ==_iff, if◌then◌else◌, Bool-cases, Option-cases, inl, inr,
}
use mathlib.Core.Option.{some-injective, some-ne-none}
use nanochronometer.Input.{
  Event, key, change, contains, first_new, held, hid_to_scancode, keys_changed,
}
use nanochronometer.Input.Poll.{UsbInput, poll_keyboard}

abbrev pub IsHeld : List ℕ → ℕ → Type 0
IsHeld keys k = (contains keys k ≡ true) × (k ≢ 0)

-- Every key held in the first is in the second.
abbrev pub Among : List ℕ → List ℕ → Type 0
Among keys others = (k : ℕ) → IsHeld keys k → contains others k ≡ true

-- A press of a key that was not held; where there is none, a release of one that is held no more;
-- and nothing where the same keys are held.
pub data Explains (before after : List ℕ) : Option Event → Type 0 where
  pressed :
      (k : ℕ)
      → IsHeld after k
      → contains before k ≡ false
      → Explains before after (key (hid_to_scancode k) true)
  released :
      (k : ℕ)
      → IsHeld before k
      → contains after k ≡ false
      → Among after before
      → Explains before after (key (hid_to_scancode k) false)
  unchanged : Among after before → Among before after → Explains before after none

first_new-some :
    (keys others : List ℕ) (k : ℕ)
    → first_new keys others ≡ some k
    → IsHeld keys k × (contains others k ≡ false)
unfolding first_new
first_new-some [] others k h = cc
first_new-some (c ∷ keys) others k h = elim (Bool-cases ((c == 0) || contains others c)) [
  | inl old ↦
      let (later, fresh) =
        first_new-some keys others k
          (sym (ap (λ b. if b then first_new keys others else some c) old) ∙ h) in
      ((ground (arith, later.0), later.1), fresh)
  | inr new ↦
      let same : some c ≡ some k =
        sym (ap (λ b. if b then first_new keys others else some c) new) ∙ h in
      let eq : c ≡ k = some-injective c k same in
      subst (λ x. IsHeld (c ∷ keys) x × (contains others x ≡ false)) eq
        ((ground arith, λ (z : c ≡ 0). ground (arith, z, new)), ground (arith, new))
]

first_new-none : (keys others : List ℕ) → first_new keys others ≡ none → Among keys others
unfolding first_new
first_new-none [] others h k there = cc there.0
first_new-none (c ∷ keys) others h k (there, pos) =
    elim (Bool-cases ((c == 0) || contains others c)) [
      | inl old ↦
          let rest =
            first_new-none keys others
              (sym (ap (λ b. if b then first_new keys others else some c) old) ∙ h) k in
          elim (Bool-cases (c == k)) [
            | inl same ↦
                let eq : c ≡ k = (==_iff c k).0 same in
                let held_one : (c == 0) ≡ false = ground (arith, eq, pos) in
                subst (λ x. contains others x ≡ true) eq
                  (sym (ap (λ b. b || contains others c) held_one) ∙ old)
            | inr other ↦ rest (sym (ap (λ b. b || contains keys k) other) ∙ there, pos)
          ]
      | inr new ↦
          absurd
            (some-ne-none c (sym (ap (λ b. if b then first_new keys others else some c) new) ∙ h))
    ]

explained :
    (before after : List ℕ) (new lifted : Option ℕ)
    → first_new after before ≡ new
    → first_new before after ≡ lifted
    → Explains before after (change new lifted)
explained before after (some k) lifted p q =
    let (is_held, was_not) = first_new-some after before k p in pressed k is_held was_not
explained before after none (some k) p q =
    let (was_held, is_not) = first_new-some before after k q in
    released k was_held is_not (first_new-none after before p)
explained before after none none p q =
    unchanged (first_new-none after before p) (first_new-none before after q)

-- The event of a change of reports.
pub keys_changed-Explains :
    (previous current : List ℕ)
    → Explains (held previous) (held current) (keys_changed previous current)
unfolding keys_changed
keys_changed-Explains previous current = explained (held previous) (held current) _ _ refl refl

-- A poll of the keyboard gives the event of the change and keeps the report.
pub poll_keyboard-keys_changed :
    (report : List ℕ) (usb : UsbInput)
    → usb.keyboard ≡ true
    → poll_keyboard (some report) usb
      ≡ (keys_changed usb.previous report, record usb { previous = report })
unfolding poll_keyboard keys_changed
poll_keyboard-keys_changed report usb h =
    ap
      (λ b.
        if not b
        then (none, usb)
        else (keys_changed usb.previous report, record usb { previous = report }))
      h

-- A report that holds nothing new: the same again gives no event, also where it first gave one.
first_new_self : (keys : List ℕ) → first_new keys keys ≡ none
first_new_self keys = elim (Option-cases (first_new keys keys)) [
  | inl quiet ↦ quiet
  | inr (k, there) ↦ let (is_held, was_not) = first_new-some keys keys k there in cc
]

keys_changed-same : (report : List ℕ) → keys_changed report report ≡ none
unfolding keys_changed
keys_changed-same report = rw (first_new_self (held report)) refl

-- A poll of the keyboard explains the change of its report by one event and keeps the report, so
-- that the same report gives no further event.
pub poll_keyboard-Explains :
    (report : List ℕ) (usb : UsbInput)
    → usb.keyboard ≡ true
    → Explains (held usb.previous) (held report) (poll_keyboard (some report) usb).0
      × ((poll_keyboard (some report) usb).1 ≡ record usb { previous = report })
      × ((poll_keyboard (some report) (poll_keyboard (some report) usb).1).0 ≡ none)
poll_keyboard-Explains report usb h =
    let first = poll_keyboard-keys_changed report usb h in
    let kept = ap (λ r. r.1) first in
    (
      subst (Explains (held usb.previous) (held report)) (sym (ap (λ r. r.0) first))
          (keys_changed-Explains usb.previous report),
      kept,
      ap (λ u. (poll_keyboard (some report) u).0) kept
          ∙ ap (λ r. r.0) (poll_keyboard-keys_changed report (record usb { previous = report }) h)
          ∙ keys_changed-same report,
    )
