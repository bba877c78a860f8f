-- ===== src/Input/Codes.antt =====
-- The bytes of a keyboard, in either set, come back as its codes.
use nanochronometer.Common.{
  ℕ, ◌+◌, ◌%◌, ◌<◌, ◌≡◌, ◌≢◌, refl, ap, ◌∙◌, arith, bit_and, Bool, true, false, List, [], ◌∷◌, ◌++◌,
  none, some, map, All, ◌&&◌, ltb, ◌==◌, if◌then◌else◌, all_below, all_below_sound,
}
use nanochronometer.Common.Bits.{bit_and_mask}
use nanochronometer.Input.Feed.{before, fed, fed-event}
use nanochronometer.Input.{Key, Event, key_event, Ps2, keystroke, translate_set2, set2_prefix}

pub data ScanSet : Type 0 where
  set_one set_two : ScanSet

-- What a keyboard sends for a stroke.
abbrev pub sent : ScanSet → Key → List ℕ
sent set_one k = (if k.pressed then k.scancode else k.scancode + 128) ∷ []
sent set_two k = if k.pressed then k.scancode ∷ [] else set2_prefix ∷ (k.scancode ∷ [])

abbrev pub sent_all : ScanSet → List Key → List ℕ
sent_all set [] = []
sent_all set (k ∷ ks) = sent set k ++ sent_all set ks

-- The event that a stroke is to give.
abbrev pub shown : ScanSet → Key → Event
shown set_one k = key_event k
shown set_two k = key_event (record k { scancode = translate_set2 k.scancode })

-- A code of seven bits whose release is not the prefix; and in set 2 a code that is not it.
abbrev pub Sendable : ScanSet → Key → Type 0
Sendable set_one k = (k.scancode < 128) × (k.scancode ≢ 0x70)
Sendable set_two k = k.scancode ≢ set2_prefix

-- The driver has settled on the set, and no release is pending.
abbrev pub settled : ScanSet → Ps2 → Ps2
settled set_one s = record s { set2 = false; set2_break = false }
settled set_two s = record s { set2 = true; set2_break = false }

high_bits : all_below 256 (λ b. if bit_and b 0x80 == 0 then ltb b 128 else ltb 127 b) ≡ true
unfolding all_below
high_bits = refl

high_bit : (b : ℕ) → b < 256 → (bit_and b 0x80 == 0) ≡ ltb b 128
high_bit b h = ground (
  arith,
  all_below_sound 256 (λ c. if bit_and c 0x80 == 0 then ltb c 128 else ltb 127 c) b high_bits h,
)

is_other : (c : ℕ) → c ≢ set2_prefix → (c == set2_prefix) ≡ false
is_other c h = ground (arith, h)

low_bits : (c : ℕ) → bit_and c 0x7F ≡ c % 128
low_bits c = bit_and_mask 7 c

-- A byte of set 1 that is not the prefix.
keystroke-one :
    (byte : ℕ) (s : Ps2)
    → byte < 256
    → byte ≢ set2_prefix
    → keystroke byte (settled set_one s) ≡ (
      some (key_event (record { scancode = byte % 128; pressed = ltb byte 128 })),
      settled set_one s,
    )
unfolding keystroke
keystroke-one byte s h other = rw (is_other byte other, low_bits byte, high_bit byte h) refl

pub both : (a b : Bool) → (a && b) ≡ true → (a ≡ true) × (b ≡ true)
both true b h = (refl, h)
both false b h = cc

-- The first stroke, and what is sent behind it.
fed-stroke :
    (set : ScanSet) (c : ℕ) (pressed : Bool) (s : Ps2) (later : List ℕ)
    → Sendable set (record { scancode = c; pressed = pressed })
    → fed keystroke (sent set (record { scancode = c; pressed = pressed }) ++ later) (settled set s)
      ≡ before
          (some (shown set (record { scancode = c; pressed = pressed })))
          (fed keystroke later (settled set s))
unfolding fed keystroke
fed-stroke set_one c true s later (small, other) =
    let same : c % 128 ≡ c = omega arith in
    let below : ltb c 128 ≡ true = ground arith in
    fed-event keystroke c later (settled set_one s) (settled set_one s) _
      (keystroke-one c s (omega arith) (λ h. omega arith) ∙ rw (same, below) refl)
fed-stroke set_one c false s later (small, other) =
    let same : (c + 128) % 128 ≡ c = omega arith in
    let above : ltb (c + 128) 128 ≡ false = ground arith in
    fed-event keystroke (c + 128) later (settled set_one s) (settled set_one s) _
      (keystroke-one (c + 128) s (omega arith) (λ h. other (omega arith)) ∙ rw (same, above) refl)
fed-stroke set_two c true s later other =
    fed-event keystroke c later (settled set_two s) (settled set_two s) _
      (rw (is_other c other) refl)
fed-stroke set_two c false s later other = refl

-- Codes that are sent one behind the other.
pub fed-codes :
    (set : ScanSet) (ks : List Key) (s : Ps2)
    → All (Sendable set) ks
    → fed keystroke (sent_all set ks) (settled set s) ≡ (map (shown set) ks, settled set s)
unfolding fed
fed-codes set [] s h = refl
fed-codes set (k ∷ ks) s (h, hs) =
    fed-stroke set k.scancode k.pressed s (sent_all set ks) h
    ∙ ap (before (some (shown set k))) (fed-codes set ks s hs)

-- In set 1 the release of 0x70 is taken for the prefix of set 2: it gives no event, and the driver
-- settles on set 2.
pub keystroke-release_70 :
    (s : Ps2)
    → keystroke (0x70 + 128) (settled set_one s)
      ≡ (none, record s { set2 = true; set2_break = true })
unfolding keystroke
keystroke-release_70 s = refl
