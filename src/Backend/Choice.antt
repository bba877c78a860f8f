-- ===== src/Backend/Choice.antt =====
-- What the choice of a backend guarantees, and the names read back.
use nanochronometer.Common.{
  ◌≡◌, refl, Bool, true, false, Bool-cases, inl, inr, ◌⊎◌, ap, List, [], ◌∷◌, some,
}
use nanochronometer.Format.{codes}
use nanochronometer.Backend.{
  Backend, Architecture, CpuFeatures, name, parse, is_available_with, first_available, best,
  resolve, order_of, legacy, avx, mmx, sse, sse2, sse3, ssse3, sse41, sse42, f16c, fma, avx2,
  avx_vnni, avx512, avx512_vnni, neon, sve, sve2, sme, x86, x86_64, aarch64,
}

-- The name that a report prints is accepted as the name of the same backend.
pub parse-name : (b : Backend) → parse (codes (name b)) ≡ some b
unfolding parse name
parse-name legacy = refl
parse-name avx = refl
parse-name mmx = refl
parse-name sse = refl
parse-name sse2 = refl
parse-name sse3 = refl
parse-name ssse3 = refl
parse-name sse41 = refl
parse-name sse42 = refl
parse-name f16c = refl
parse-name fma = refl
parse-name avx2 = refl
parse-name avx_vnni = refl
parse-name avx512 = refl
parse-name avx512_vnni = refl
parse-name neon = refl
parse-name sve = refl
parse-name sve2 = refl
parse-name sme = refl

legacy_available : (arch : Architecture) (f : CpuFeatures) → is_available_with arch f legacy ≡ true
unfolding is_available_with
legacy_available x86 f = refl
legacy_available x86_64 f = refl
legacy_available aarch64 f = refl

first_available-ok :
    (ok : Backend → Bool) (order : List Backend)
    → ok legacy ≡ true
    → ok (first_available ok order) ≡ true
unfolding first_available
first_available-ok ok [] h = h
first_available-ok ok (b ∷ order) h = elim (Bool-cases (ok b)) [
  | inl here ↦ rw here here
  | inr not_here ↦ rw not_here (first_available-ok ok order h)
]

-- Whatever backend is asked for, the one that is used is available: it has a kernel in this build
-- and the CPU reports its family. An available request is granted as it is.
pub resolve-is_available :
    (arch : Architecture) (f : CpuFeatures) (b : Backend)
    → (is_available_with arch f (resolve arch f b) ≡ true)
      × (is_available_with arch f b ≡ true → resolve arch f b ≡ b)
unfolding resolve best
resolve-is_available arch f b = elim (Bool-cases (is_available_with arch f b)) [
  | inl granted ↦ (rw granted granted, λ h. rw granted refl)
  | inr refused ↦ (
    rw refused
        (first_available-ok (is_available_with arch f) (order_of arch) (legacy_available arch f)),
    λ h. absurd (cc (h, refused)),
  )
]

-- The backend stands in the order.
abbrev pub Holds : Backend → List Backend → Type 0
Holds b [] = ⊥
Holds b (c ∷ order) = (b ≡ c) ⊎ Holds b order

not_head :
    (ok : Backend → Bool) (c b : Backend) (order : List Backend)
    → Holds b (c ∷ order)
    → ok b ≡ true
    → ok c ≡ false
    → Holds b order
not_head ok c b order (inl e) h misses = absurd (cc (ap ok e, h, misses))
not_head ok c b order (inr m) h misses = m

-- `a` stands in the order no later than `b`.
pub data NoLater (a b : Backend) : List Backend → Type 0 where
  here : {order : List Backend} → Holds b (a ∷ order) → NoLater a b (a ∷ order)
  beyond : {c : Backend} {order : List Backend} → NoLater a b order → NoLater a b (c ∷ order)

first_available-NoLater :
    (ok : Backend → Bool) (order : List Backend) (b : Backend)
    → Holds b order
    → ok b ≡ true
    → NoLater (first_available ok order) b order
unfolding first_available
first_available-NoLater ok [] b m h = elim m [ ]
first_available-NoLater ok (c ∷ order) b m h = elim (Bool-cases (ok c)) [
  | inl fits ↦ rw fits (here m)
  | inr misses ↦
      rw misses (beyond (first_available-NoLater ok order b (not_head ok c b order m h misses) h))
]

-- For an available backend of the architecture's order, the best backend stands in that order no
-- later.
pub best-NoLater :
    (arch : Architecture) (f : CpuFeatures) (b : Backend)
    → Holds b (order_of arch)
    → is_available_with arch f b ≡ true
    → NoLater (best arch f) b (order_of arch)
unfolding best
best-NoLater arch f b m h = first_available-NoLater (is_available_with arch f) (order_of arch) b m h
