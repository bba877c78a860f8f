-- ===== src/Aml/Resources/Framing.antt =====
-- The iterator over a resource template: it ends, and it frames the descriptors as they were
-- written.
use nanochronometer.Common.{
  ℕ, zero, suc, ◌+◌, ◌-◌, ◌*◌, ◌/◌, ◌%◌, ◌^◌, ◌≤◌, ◌<◌, ◌≡◌, refl, ap, ◌∙◌, arith, true, false, not,
  List, [], ◌∷◌, ◌++◌, map, Option, none, some, length, length-append, length-drop, drop-head,
  drop-append, take-append, get_elem?, drop, ltb, ◌==◌, bit_and, Bool-cases, Option-cases, inl, inr,
  All, all_below, all_below_sound,
}
use mathlib.Core.List.{append_assoc}
use nanochronometer.Common.Bits.{bit_and_mask}
use nanochronometer.Aml.Resources.{
  Resource, other, le_u16, decode_large, large_until, next_small, next_large, next_resource,
  collect, resources,
}

-- The position behind a resource is ahead, and within the template.
abbrev Ahead : ℕ → ℕ → Option (Resource × ℕ) → Type 0
Ahead at high none = Unit
Ahead at high (some (resource, behind)) = (at < behind) × (behind ≤ high)

next_small-Ahead :
    (buffer : List ℕ) (at tag : ℕ) → Ahead at (length buffer) (next_small buffer at tag)
unfolding next_small
next_small-Ahead buffer at tag = ground arith

large_until-Ahead :
    (buffer : List ℕ) (at tag size : ℕ)
    → Ahead at (length buffer) (large_until buffer at tag (at + 3 + size))
large_until-Ahead buffer at tag size = elim (Bool-cases (ltb (length buffer) (at + 3 + size))) [
  | inl long ↦ rw long tt
  | inr fits ↦ rw fits (omega arith, ground arith)
]

next_large-Ahead :
    (buffer : List ℕ) (at tag : ℕ) → Ahead at (length buffer) (next_large buffer at tag)
unfolding next_large
next_large-Ahead buffer at tag = elim (Option-cases (get_elem? buffer (at + 1))) [
  | inl cut ↦ rw cut tt
  | inr (low, one) ↦ elim (Option-cases (get_elem? buffer (at + 2))) [
    | inl cut ↦ rw (one, cut) tt
    | inr (high, two) ↦ rw (one, two) (large_until-Ahead buffer at tag (le_u16 low high))
  ]
]

next_resource-Ahead :
    (buffer : List ℕ) (at : ℕ) → Ahead at (length buffer) (next_resource buffer at)
unfolding next_resource
next_resource-Ahead buffer at = elim (Option-cases (get_elem? buffer at)) [
  | inl cut ↦ rw cut tt
  | inr (tag, there) ↦ elim (Bool-cases (bit_and tag 0x80 == 0)) [
    | inl small ↦ rw (there, small) (next_small-Ahead buffer at tag)
    | inr large ↦ rw (there, large) (next_large-Ahead buffer at tag)
  ]
]

abbrev Returns {ℓ} : {A : Type ℓ} → Option A → Type 0
Returns none = ⊥
Returns (some a) = Unit

cons-Returns :
    (resource : Resource) (o : Option (List Resource))
    → Returns o
    → Returns (elim o [ none ↦ none | some more ↦ some (resource ∷ more) ])
cons-Returns resource none h = h
cons-Returns resource (some more) h = tt

after_resource :
    (fuel : ℕ) (buffer : List ℕ) (at : ℕ) (o : Option (Resource × ℕ))
    → ((behind : ℕ) → at < behind → behind ≤ length buffer → Returns (collect fuel buffer behind))
    → Ahead at (length buffer) o
    → Returns (elim o [
      | none ↦ some []
      | some (resource, behind) ↦ elim (collect fuel buffer behind) [
        | none ↦ none
        | some more ↦ some (resource ∷ more)
      ]
    ])
after_resource fuel buffer at none returns a = tt
after_resource fuel buffer at (some (resource, behind)) returns (low, high) =
    cons-Returns resource (collect fuel buffer behind) (returns behind low high)

collect-Returns :
    (fuel : ℕ) (buffer : List ℕ) (at : ℕ)
    → at ≤ length buffer
    → length buffer < at + fuel
    → Returns (collect fuel buffer at)
unfolding collect
collect-Returns zero buffer at h k = absurd (omega arith)
collect-Returns (suc fuel) buffer at h k =
    after_resource fuel buffer at (next_resource buffer at)
      (λ behind low high. collect-Returns fuel buffer behind high (omega arith))
      (next_resource-Ahead buffer at)

-- A descriptor as a template writes it.
pub data Descriptor : Type 0 where
  small large : ℕ → List ℕ → Descriptor

abbrev pub encoded : Descriptor → List ℕ
encoded (small kind payload) = (kind * 8 + length payload) ∷ payload
encoded (large kind body) = (0x80 + kind) ∷ (length body % 256) ∷ (length body / 256) ∷ body

abbrev pub encoded_all : List Descriptor → List ℕ
encoded_all [] = []
encoded_all (d ∷ ds) = encoded d ++ encoded_all ds

-- A kind that fits its tag, an end tag's excepted, and a length that fits its field.
abbrev pub Fits : Descriptor → Type 0
Fits (small kind payload) = (kind < 15) × (length payload < 8)
Fits (large kind body) = (kind < 128) × (length body < 2 ^ 16)

-- What the iterator makes of a descriptor.
abbrev pub decoded : Descriptor → Resource
decoded (small kind payload) = other false kind
decoded (large kind body) = decode_large kind body (encoded (large kind body))

small_tag : (tag : ℕ) → tag < 128 → (bit_and tag 0x80 == 0) ≡ true
unfolding all_below
small_tag tag h = all_below_sound 128 (λ t. bit_and t 0x80 == 0) tag refl h

large_tag : (kind : ℕ) → kind < 128 → (bit_and (0x80 + kind) 0x80 == 0) ≡ false
unfolding all_below
large_tag kind h =
    ground (arith, all_below_sound 128 (λ k. not (bit_and (0x80 + k) 0x80 == 0)) kind refl h)

-- What is left from a place on is no longer than the list.
length-front :
    (buffer : List ℕ) (at : ℕ) (front rest : List ℕ)
    → drop at buffer ≡ front ++ rest
    → 0 < length front
    → at + length front ≤ length buffer
length-front buffer at front rest h pos =
    omega (arith, length-drop at buffer, ap length h, length-append front rest)

next_small-encoded :
    (buffer : List ℕ) (at kind : ℕ) (payload rest : List ℕ)
    → kind < 15
    → length payload < 8
    → drop at buffer ≡ encoded (small kind payload) ++ rest
    → next_small buffer at (kind * 8 + length payload)
      ≡ some (other false kind, at + suc (length payload))
unfolding next_small
next_small-encoded buffer at kind payload rest k l h =
    let tag = kind * 8 + length payload in
    let inside = length-front buffer at (tag ∷ payload) rest h (omega arith) in
    let shown : bit_and (tag / 2 ^ 3) 0x0F ≡ kind = bit_and_mask 4 (tag / 2 ^ 3) ∙ omega arith in
    let size : bit_and tag 0x07 ≡ length payload = bit_and_mask 3 tag ∙ omega arith in
    let next : at + (1 + length payload) ≡ at + suc (length payload) = omega arith in
    rw (shown, size, next) (ground arith)

large_until-encoded :
    (buffer : List ℕ) (at kind : ℕ) (body rest : List ℕ)
    → kind < 128
    → drop at buffer ≡ encoded (large kind body) ++ rest
    → drop (at + 3) buffer ≡ body ++ rest
    → large_until buffer at (0x80 + kind) (at + 3 + length body)
      ≡ some (decoded (large kind body), at + length (encoded (large kind body)))
large_until-encoded buffer at kind body rest k h behind =
    let whole = encoded (large kind body) in
    let inside = length-front buffer at whole rest h (omega arith) in
    let fits : ltb (length buffer) (at + 3 + length body) ≡ false = ground arith in
    let shown : bit_and (0x80 + kind) 0x7F ≡ kind = bit_and_mask 7 (0x80 + kind) ∙ omega arith in
    let body_size : at + 3 + length body - (at + 3) ≡ length body = omega arith in
    let whole_size : at + 3 + length body - at ≡ length whole = omega arith in
    let end : at + 3 + length body ≡ at + length whole = omega arith in
    rw (fits, shown, body_size, whole_size, behind, h, take-append body rest)
      (ap (λ e. some (decoded (large kind body), e)) end)

next_large-encoded :
    (buffer : List ℕ) (at kind : ℕ) (body rest : List ℕ)
    → kind < 128
    → length body < 2 ^ 16
    → drop at buffer ≡ encoded (large kind body) ++ rest
    → next_large buffer at (0x80 + kind)
      ≡ some (decoded (large kind body), at + length (encoded (large kind body)))
unfolding next_large
next_large-encoded buffer at kind body rest k l h =
    let low = length body % 256 in
    let high = length body / 256 in
    let (_, first, _) = drop-head buffer at (0x80 + kind) (low ∷ high ∷ body ++ rest) h in
    let (one, second, _) = drop-head buffer (at + 1) low (high ∷ body ++ rest) first in
    let (two, third, _) = drop-head buffer (at + 1 + 1) high (body ++ rest) second in
    let here : at + 1 + 1 ≡ at + 2 = omega arith in
    let there : at + 1 + 1 + 1 ≡ at + 3 = omega arith in
    let size : le_u16 low high ≡ length body = omega arith in
    rw (one, rw here at two, size)
      (large_until-encoded buffer at kind body rest k h (rw there at third))

-- At a descriptor that fits its fields the iterator yields what the descriptor says, and goes on
-- behind it.
pub next_resource-encoded :
    (buffer : List ℕ) (at : ℕ) (d : Descriptor) (rest : List ℕ)
    → Fits d
    → drop at buffer ≡ encoded d ++ rest
    → next_resource buffer at ≡ some (decoded d, at + length (encoded d))
unfolding next_resource
next_resource-encoded buffer at (small kind payload) rest (k, l) h =
    let (there, _, _) = drop-head buffer at (kind * 8 + length payload) (payload ++ rest) h in
    rw (there, small_tag (kind * 8 + length payload) (omega arith))
      (next_small-encoded buffer at kind payload rest k l h)
next_resource-encoded buffer at (large kind body) rest (k, l) h =
    let (there, _, _) =
      drop-head buffer at (0x80 + kind) (length body % 256 ∷ length body / 256 ∷ body ++ rest) h in
    rw (there, large_tag kind k) (next_large-encoded buffer at kind body rest k l h)

abbrev pub end_tag : ℕ
end_tag = 0x79

collect-end_tag :
    (fuel : ℕ) (buffer : List ℕ) (at : ℕ) (rest : List ℕ)
    → drop at buffer ≡ end_tag ∷ rest
    → collect (suc fuel) buffer at ≡ some []
unfolding collect next_resource next_small
collect-end_tag fuel buffer at rest h =
    let (there, _, _) = drop-head buffer at end_tag rest h in rw (collect, there) refl

collect-encoded_all :
    (fuel : ℕ) (buffer : List ℕ) (at : ℕ) (ds : List Descriptor) (rest : List ℕ)
    → All Fits ds
    → drop at buffer ≡ encoded_all ds ++ (end_tag ∷ rest)
    → length ds < fuel
    → collect fuel buffer at ≡ some (map decoded ds)
unfolding collect
collect-encoded_all zero buffer at ds rest a h k = absurd (omega arith)
collect-encoded_all (suc fuel) buffer at [] rest a h k = collect-end_tag fuel buffer at rest h
collect-encoded_all (suc fuel) buffer at (d ∷ ds) rest (l, a) h k =
    let later = encoded_all ds ++ (end_tag ∷ rest) in
    let front = h ∙ append_assoc (encoded d) (encoded_all ds) (end_tag ∷ rest) in
    rw
      (
        collect,
        next_resource-encoded buffer at d later l front,
        collect-encoded_all fuel buffer (at + length (encoded d)) ds rest a
            (drop-append buffer at (encoded d) later front) (omega arith),
      )
      refl

length-encoded_all : (ds : List Descriptor) → length ds ≤ length (encoded_all ds)
length-encoded_all [] = omega arith
length-encoded_all (small kind payload ∷ ds) =
    omega
      (arith, length-append (encoded (small kind payload)) (encoded_all ds), length-encoded_all ds)
length-encoded_all (large kind body ∷ ds) =
    omega (arith, length-append (encoded (large kind body)) (encoded_all ds), length-encoded_all ds)

-- A resource template that writes descriptors that fit their fields, then an end tag, yields one
-- resource for each descriptor, in order, whatever follows the end tag.
pub resources-encoded_all :
    (ds : List Descriptor) (rest : List ℕ)
    → All Fits ds
    → resources (encoded_all ds ++ (end_tag ∷ rest)) ≡ some (map decoded ds)
unfolding resources
resources-encoded_all ds rest a =
    let buffer = encoded_all ds ++ (end_tag ∷ rest) in
    collect-encoded_all (suc (length buffer)) buffer 0 ds rest a refl
      (omega (arith, length-append (encoded_all ds) (end_tag ∷ rest), length-encoded_all ds))

Returns-some : (o : Option (List Resource)) → Returns o → (found : List Resource) × (o ≡ some found)
Returns-some none h = elim h [ ]
Returns-some (some found) h = (found, refl)

-- For every buffer the iterator comes to an end: the fuel, one more than the buffer's length, is
-- enough.
pub resources_ends : (buffer : List ℕ) → (found : List Resource) × (resources buffer ≡ some found)
unfolding resources
resources_ends buffer =
    Returns-some (collect (suc (length buffer)) buffer 0)
      (collect-Returns (suc (length buffer)) buffer 0 (omega arith) (omega arith))
