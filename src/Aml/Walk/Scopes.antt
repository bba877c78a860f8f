-- ===== src/Aml/Walk/Scopes.antt =====
-- Entering a block and leaving it: the scope is as it was.
use nanochronometer.Common.{
  ℕ, zero, suc, ◌-◌, ◌≤◌, ◌≡◌, refl, ap, sym, ◌∙◌, arith, Bool, true, false, ◌&&◌, List, [], ◌∷◌,
  set, take, length,
}
use nanochronometer.Aml.Names.{NamePath, NameSeg, segments, push_segment, pop_segment}
use nanochronometer.Aml.Names.Printed.{IsPath, push_segment-IsPath}
use nanochronometer.Aml.Walk.{enter, pop_times, leave}

take-take : (k n : ℕ) (xs : List NameSeg) → k ≤ n → take k (take n xs) ≡ take k xs
take-take zero n xs h = refl
take-take (suc k) zero xs h = absurd (omega arith)
take-take (suc k) (suc n) [] h = refl
take-take (suc k) (suc n) (x ∷ xs) h = ap (λ t. x ∷ t) (take-take k n xs (omega arith))

take-set_above :
    (k n : ℕ) (s : NameSeg) (xs : List NameSeg) → k ≤ n → take k (set xs n s) ≡ take k xs
take-set_above zero n s xs h = refl
take-set_above (suc k) n s [] h = refl
take-set_above (suc k) zero s (x ∷ xs) h = absurd (omega arith)
take-set_above (suc k) (suc n) s (x ∷ xs) h =
    ap (λ t. x ∷ t) (take-set_above k n s xs (omega arith))

-- The same segments are in use.
pub record SameScope (scope scope' : NamePath) : Type 0 where
  pub is_path : IsPath scope'
  pub same_len : scope'.len ≡ scope.len
  pub same_segments : segments scope' ≡ segments scope

pub SameScope-refl : (scope : NamePath) → IsPath scope → SameScope scope scope
SameScope-refl scope inv = record { is_path = inv; same_len = refl; same_segments = refl }

pub SameScope-trans : (p q r : NamePath) → SameScope p q → SameScope q r → SameScope p r
SameScope-trans p q r h k = record {
  is_path = k.is_path;
  same_len = k.same_len ∙ h.same_len;
  same_segments = k.same_segments ∙ h.same_segments;
}

-- A path that goes on from another, above its segments.
pub record Extends (scope scope' : NamePath) : Type 0 where
  pub is_path : IsPath scope'
  pub len_le : scope.len ≤ scope'.len
  pub keeps : (k : ℕ) → k ≤ scope.len → take k scope'.slots ≡ take k scope.slots

push_segment-Extends : (p : NamePath) (s : NameSeg) → IsPath p → Extends p (push_segment p s).0
unfolding push_segment
push_segment-Extends p s inv = record {
  is_path = push_segment-IsPath p s inv;
  len_le = ground arith;
  keeps = λ k h. ground (arith, take-set_above k p.len s p.slots h);
}

Extends-trans : (p q r : NamePath) → Extends p q → Extends q r → Extends p r
Extends-trans p q r h i = record {
  is_path = i.is_path;
  len_le = omega (arith, h.len_le, i.len_le);
  keeps = λ k le. i.keeps k (omega (arith, h.len_le)) ∙ h.keeps k le;
}

pub enter-Extends :
    (p : NamePath) (segs : List NameSeg) (b : Bool) → IsPath p → Extends p (enter p segs b).0
enter-Extends p [] b inv = record { is_path = inv; len_le = omega arith; keeps = λ k h. refl }
enter-Extends p (s ∷ segs) b inv =
    let pushed = push_segment p s in
    let one = push_segment-Extends p s inv in
    Extends-trans p pushed.0 (enter pushed.0 segs (b && pushed.1)).0 one
      (enter-Extends pushed.0 segs (b && pushed.1) one.is_path)

-- Popping forgets segments and keeps the slots.
pop_times_lem :
    (count : ℕ) (p : NamePath)
    → (pop_times count p).slots ≡ p.slots × ((pop_times count p).len ≡ p.len - count)
pop_times_lem zero p = (refl, omega arith)
pop_times_lem (suc count) p =
    let (slots, len) = pop_times_lem count (pop_segment p) in (slots, omega arith)

-- Leaving gives back the scope, whatever was entered and left again within the block.
pub leave-SameScope :
    (absolute : Bool) (scope entered scope' : NamePath)
    → IsPath scope
    → (absolute ≡ false → Extends scope entered)
    → SameScope entered scope'
    → SameScope scope (leave absolute scope scope')
unfolding leave
leave-SameScope true scope entered scope' inv ext same = SameScope-refl scope inv
leave-SameScope false scope entered scope' inv ext same =
    let e = ext refl in
    let count = scope'.len - scope.len in
    let (slots, len) = pop_times_lem count scope' in
    let back : (pop_times count scope').len ≡ scope.len =
      len ∙ omega (arith, same.same_len, e.len_le) in
    let k = scope.len in
    record {
      is_path = record {
        slots_length = ap length slots ∙ same.is_path.slots_length;
        len_le = omega (arith, back, inv.len_le);
      };
      same_len = back;
      same_segments =
          rw (back, slots)
            (sym (take-take k scope'.len scope'.slots (omega (arith, same.same_len, e.len_le)))
              ∙ ap (take k) same.same_segments
              ∙ take-take k entered.len entered.slots e.len_le
              ∙ e.keeps k (omega arith));
    }
