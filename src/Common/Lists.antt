-- ===== src/Common/Lists.antt =====
-- Lists measured and indexed by native numbers, under the library's names.
use Prim.Native.Nat.{ℕ, zero, suc, ◌+◌, ◌-◌, ◌≤◌, ◌<◌, min}
use mathlib.Core.Path.{◌≡◌, refl, ap}
use mathlib.Core.List.{List, [], ◌∷◌, ◌++◌}
use mathlib.Core.Option.{Option, none, some}
use native.Mathlib.Omega.{arith}

module _ {ℓ} {A : Type ℓ} where
  abbrev pub length : List A → ℕ
  length [] = 0
  length (x ∷ xs) = suc (length xs)

  abbrev pub get_elem? : List A → ℕ → Option A
  get_elem? [] i = none
  get_elem? (x ∷ xs) zero = some x
  get_elem? (x ∷ xs) (suc i) = get_elem? xs i

  abbrev pub get_or : List A → ℕ → A → A
  get_or [] i d = d
  get_or (x ∷ xs) zero d = x
  get_or (x ∷ xs) (suc i) d = get_or xs i d

  -- A write out of bounds changes nothing.
  abbrev pub set : List A → ℕ → A → List A
  set [] i v = []
  set (x ∷ xs) zero v = v ∷ xs
  set (x ∷ xs) (suc i) v = x ∷ set xs i v

  abbrev pub take : ℕ → List A → List A
  take zero xs = []
  take (suc n) [] = []
  take (suc n) (x ∷ xs) = x ∷ take n xs

  abbrev pub drop : ℕ → List A → List A
  drop zero xs = xs
  drop (suc n) [] = []
  drop (suc n) (x ∷ xs) = drop n xs

  abbrev pub replicate : ℕ → A → List A
  replicate zero a = []
  replicate (suc n) a = a ∷ replicate n a

  pub length-append : (xs ys : List A) → length (xs ++ ys) ≡ length xs + length ys
  length-append [] ys = omega arith
  length-append (x ∷ xs) ys = omega (arith, length-append xs ys)

  pub length-set : (xs : List A) (i : ℕ) (v : A) → length (set xs i v) ≡ length xs
  length-set [] i v = refl
  length-set (x ∷ xs) zero v = refl
  length-set (x ∷ xs) (suc i) v = ap suc (length-set xs i v)

  pub length-take : (n : ℕ) (xs : List A) → length (take n xs) ≡ min n (length xs)
  length-take zero xs = omega arith
  length-take (suc n) [] = omega arith
  length-take (suc n) (x ∷ xs) = omega (arith, length-take n xs)

  pub length-drop : (n : ℕ) (xs : List A) → length (drop n xs) ≡ length xs - n
  length-drop zero xs = omega arith
  length-drop (suc n) [] = omega arith
  length-drop (suc n) (x ∷ xs) = omega (arith, length-drop n xs)

pub take-set :
    {A : Type 0} (xs : List A) (k : ℕ) (v : A)
    → k < length xs
    → take (k + 1) (set xs k v) ≡ take k xs ++ (v ∷ [])
take-set [] k v h = absurd (omega arith)
take-set (x ∷ xs) zero v h = refl
take-set (x ∷ xs) (suc k) v h =
    let next : suc k + 1 ≡ suc (k + 1) = omega arith in
    rw next (ap (λ t. x ∷ t) (take-set xs k v (omega arith)))

add_zero : (k : ℕ) → k + 0 ≡ k
add_zero k = omega arith

pub drop-get_or :
    {A : Type 0} (xs : List A) (k : ℕ) (d : A)
    → k < length xs
    → drop k xs ≡ get_or xs k d ∷ drop (suc k) xs
drop-get_or [] k d h = elim h [ ]
drop-get_or (x ∷ xs) zero d h = refl
drop-get_or (x ∷ xs) (suc k) d h = drop-get_or xs k d (omega arith)

-- What a byte in front of the rest of a list says of the place it stands at.
pub drop-head :
    {A : Type 0} (xs : List A) (k : ℕ) (x : A) (rest : List A)
    → drop k xs ≡ x ∷ rest
    → (get_elem? xs k ≡ some x) × (drop (k + 1) xs ≡ rest) × (k < length xs)
drop-head [] zero x rest h = cc
drop-head [] (suc k) x rest h = cc
drop-head (y ∷ ys) zero x rest h = (cc, cc, omega arith)
drop-head (y ∷ ys) (suc k) x rest h =
    let (there, behind, inside) = drop-head ys k x rest h in
    let next : suc k + 1 ≡ suc (k + 1) = omega arith in (there, rw next behind, omega arith)

pub drop-append :
    {A : Type 0} (xs : List A) (k : ℕ) (front rest : List A)
    → drop k xs ≡ front ++ rest
    → drop (k + length front) xs ≡ rest
drop-append xs k [] rest h = rw (add_zero k) h
drop-append xs k (x ∷ front) rest h =
    let shift : k + suc (length front) ≡ (k + 1) + length front = omega arith in
    rw shift (drop-append xs (k + 1) front rest (drop-head xs k x (front ++ rest) h).1)

pub take-append : {A : Type 0} (front rest : List A) → take (length front) (front ++ rest) ≡ front
take-append [] rest = refl
take-append (x ∷ front) rest = ap (λ t. x ∷ t) (take-append front rest)

pub drop-all : {A : Type 0} (xs : List A) (k : ℕ) → length xs ≤ k → drop k xs ≡ []
drop-all [] zero h = refl
drop-all [] (suc k) h = refl
drop-all (x ∷ xs) zero h = absurd (omega arith)
drop-all (x ∷ xs) (suc k) h = drop-all xs k (omega arith)

abbrev pub All {ℓ κ} : {A : Type ℓ} → (A → Type κ) → List A → Type κ
All P [] = Unit
All P (x ∷ xs) = P x × All P xs

-- An element stands within the list.
pub get_elem?-lt : (xs : List ℕ) (at b : ℕ) → get_elem? xs at ≡ some b → at < length xs
get_elem?-lt [] at b h = cc
get_elem?-lt (x ∷ xs) zero b h = omega arith
get_elem?-lt (x ∷ xs) (suc at) b h = omega (arith, get_elem?-lt xs at b h)

-- The first of two that is there.
abbrev pub or_found {ℓ} : {A : Type ℓ} → Option A → Option A → Option A
or_found none later = later
or_found (some a) later = some a
