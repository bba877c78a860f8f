-- ===== src/Input/Keys.antt =====
-- The strokes of a standard keyboard, in either set, come back as its keys.
use nanochronometer.Common.{
  ℕ, ◌<◌, ◌≡◌, ◌≢◌, refl, ap, ◌∙◌, arith, Bool, true, false, List, [], ◌∷◌, map, All, not, ◌&&◌,
  ◌||◌, subst, Bool-cases, inl, inr, ltb, ◌==◌,
}
use nanochronometer.Input.Feed.{fed}
use nanochronometer.Input.{Key, key_event, Ps2, keystroke, translate_set2, set2_prefix}
use nanochronometer.Input.Codes.{
  ScanSet, sent_all, shown, Sendable, settled, both, fed-codes, set_one, set_two,
}

-- The keys of the standard keyboard that have no prefix byte: the code of each in set 1 and in set 2,
-- from Escape, the digits and the letters to the keypad, F11 and F12.
abbrev pub standard_keys : List (ℕ × ℕ)
standard_keys =
    (0x01, 0x76)
    ∷ (0x02, 0x16)
    ∷ (0x03, 0x1E)
    ∷ (0x04, 0x26)
    ∷ (0x05, 0x25)
    ∷ (0x06, 0x2E)
    ∷ (0x07, 0x36)
    ∷ (0x08, 0x3D)
    ∷ (0x09, 0x3E)
    ∷ (0x0A, 0x46)
    ∷ (0x0B, 0x45)
    ∷ (0x0C, 0x4E)
    ∷ (0x0D, 0x55)
    ∷ (0x0E, 0x66)
    ∷ (0x0F, 0x0D)
    ∷ (0x10, 0x15)
    ∷ (0x11, 0x1D)
    ∷ (0x12, 0x24)
    ∷ (0x13, 0x2D)
    ∷ (0x14, 0x2C)
    ∷ (0x15, 0x35)
    ∷ (0x16, 0x3C)
    ∷ (0x17, 0x43)
    ∷ (0x18, 0x44)
    ∷ (0x19, 0x4D)
    ∷ (0x1A, 0x54)
    ∷ (0x1B, 0x5B)
    ∷ (0x1C, 0x5A)
    ∷ (0x1D, 0x14)
    ∷ (0x1E, 0x1C)
    ∷ (0x1F, 0x1B)
    ∷ (0x20, 0x23)
    ∷ (0x21, 0x2B)
    ∷ (0x22, 0x34)
    ∷ (0x23, 0x33)
    ∷ (0x24, 0x3B)
    ∷ (0x25, 0x42)
    ∷ (0x26, 0x4B)
    ∷ (0x27, 0x4C)
    ∷ (0x28, 0x52)
    ∷ (0x29, 0x0E)
    ∷ (0x2A, 0x12)
    ∷ (0x2B, 0x5D)
    ∷ (0x2C, 0x1A)
    ∷ (0x2D, 0x22)
    ∷ (0x2E, 0x21)
    ∷ (0x2F, 0x2A)
    ∷ (0x30, 0x32)
    ∷ (0x31, 0x31)
    ∷ (0x32, 0x3A)
    ∷ (0x33, 0x41)
    ∷ (0x34, 0x49)
    ∷ (0x35, 0x4A)
    ∷ (0x36, 0x59)
    ∷ (0x37, 0x7C)
    ∷ (0x38, 0x11)
    ∷ (0x39, 0x29)
    ∷ (0x3A, 0x58)
    ∷ (0x3B, 0x05)
    ∷ (0x3C, 0x06)
    ∷ (0x3D, 0x04)
    ∷ (0x3E, 0x0C)
    ∷ (0x3F, 0x03)
    ∷ (0x40, 0x0B)
    ∷ (0x41, 0x83)
    ∷ (0x42, 0x0A)
    ∷ (0x43, 0x01)
    ∷ (0x44, 0x09)
    ∷ (0x45, 0x77)
    ∷ (0x46, 0x7E)
    ∷ (0x47, 0x6C)
    ∷ (0x48, 0x75)
    ∷ (0x49, 0x7D)
    ∷ (0x4A, 0x7B)
    ∷ (0x4B, 0x6B)
    ∷ (0x4C, 0x73)
    ∷ (0x4D, 0x74)
    ∷ (0x4E, 0x79)
    ∷ (0x4F, 0x69)
    ∷ (0x50, 0x72)
    ∷ (0x51, 0x7A)
    ∷ (0x52, 0x70)
    ∷ (0x53, 0x71)
    ∷ (0x56, 0x61)
    ∷ (0x57, 0x78)
    ∷ (0x58, 0x07)
    ∷ []

abbrev pub is_listed : ℕ × ℕ → List (ℕ × ℕ) → Bool
is_listed key [] = false
is_listed key (k ∷ keys) = ((key.0 == k.0) && (key.1 == k.1)) || is_listed key keys

-- A key that is pressed or released.
pub record Stroke : Type 0 where
  pub key : ℕ × ℕ
  pub pressed : Bool

abbrev pub code_in : ScanSet → ℕ × ℕ → ℕ
code_in set_one key = key.0
code_in set_two key = key.1

-- The stroke's code in a set.
abbrev pub coded : ScanSet → Stroke → Key
coded set k = record { scancode = code_in set k.key; pressed = k.pressed }

abbrev pub IsStandard : Stroke → Type 0
IsStandard k = is_listed k.key standard_keys ≡ true

-- What the theorem on codes asks of a listed key, and that it is translated to its code of set 1.
abbrev Fine : ℕ × ℕ → Type 0
Fine key = (key.0 < 128) × (key.0 ≢ 0x70) × (key.1 ≢ set2_prefix) × (translate_set2 key.1 ≡ key.0)

is_fine : ℕ × ℕ → Bool
is_fine key =
    ltb key.0 128
    && (not (key.0 == 0x70) && (not (key.1 == set2_prefix) && (translate_set2 key.1 == key.0)))

all_fine : List (ℕ × ℕ) → Bool
all_fine [] = true
all_fine (k ∷ keys) = is_fine k && all_fine keys

standard_keys_fine : all_fine standard_keys ≡ true
unfolding all_fine is_fine translate_set2
standard_keys_fine = refl

is_fine-Fine : (key : ℕ × ℕ) → is_fine key ≡ true → Fine key
unfolding is_fine
is_fine-Fine (a, b) h = (ground (arith, h), ground (arith, h), ground (arith, h), ground (arith, h))

listed_fine :
    (key : ℕ × ℕ) (keys : List (ℕ × ℕ))
    → all_fine keys ≡ true
    → is_listed key keys ≡ true
    → is_fine key ≡ true
unfolding all_fine
listed_fine key [] fine listed = cc
listed_fine (a, b) ((c, d) ∷ keys) fine listed =
    let (first, rest) = both (is_fine (c, d)) (all_fine keys) fine in
    elim (Bool-cases ((a == c) && (b == d))) [
      | inl same ↦
          let one : c ≡ a = ground (arith, same) in
          let two : d ≡ b = ground (arith, same) in
          subst (λ x. is_fine (x, b) ≡ true) one (subst (λ y. is_fine (c, y) ≡ true) two first)
      | inr other ↦ listed_fine (a, b) keys rest (rw other at listed)
    ]

-- The codes of standard keys can be sent, and each is shown as the key's code of set 1.
coded-Sendable : (set : ScanSet) (k : Stroke) → IsStandard k → Sendable set (coded set k)
coded-Sendable set_one k listed =
    let fine = is_fine-Fine k.key (listed_fine k.key standard_keys standard_keys_fine listed) in
    (fine.0, fine.1)
coded-Sendable set_two k listed =
    (is_fine-Fine k.key (listed_fine k.key standard_keys standard_keys_fine listed)).2

shown-coded :
    (set : ScanSet) (k : Stroke)
    → IsStandard k
    → shown set (coded set k) ≡ key_event (coded set_one k)
shown-coded set_one k listed = refl
shown-coded set_two k listed =
    ap (λ c. key_event (record { scancode = c; pressed = k.pressed }))
      (is_fine-Fine k.key (listed_fine k.key standard_keys standard_keys_fine listed)).3

map-Sendable :
    (set : ScanSet) (ks : List Stroke) → All IsStandard ks → All (Sendable set) (map (coded set) ks)
map-Sendable set [] h = tt
map-Sendable set (k ∷ ks) (h, hs) = (coded-Sendable set k h, map-Sendable set ks hs)

map-shown :
    (set : ScanSet) (ks : List Stroke)
    → All IsStandard ks
    → map (shown set) (map (coded set) ks) ≡ map (λ k. key_event (coded set_one k)) ks
map-shown set [] h = refl
map-shown set (k ∷ ks) (h, hs) = rw (shown-coded set k h, map-shown set ks hs) refl

-- The bytes that a standard keyboard sends, in the set that the driver has settled on, for strokes
-- of its keys that have no prefix byte: the driver gives one event for each stroke, in order, with
-- the key's code of set 1, and stays settled.
pub fed-sent_all :
    (set : ScanSet) (ks : List Stroke) (s : Ps2)
    → All IsStandard ks
    → fed keystroke (sent_all set (map (coded set) ks)) (settled set s)
      ≡ (map (λ k. key_event (coded set_one k)) ks, settled set s)
fed-sent_all set ks s h =
    fed-codes set (map (coded set) ks) s (map-Sendable set ks h)
    ∙ ap (λ events. (events, settled set s)) (map-shown set ks h)
