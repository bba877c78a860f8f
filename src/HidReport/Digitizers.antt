-- ===== src/HidReport/Digitizers.antt =====
-- Reports of digitizers are told from the others by the collections that their items lie in.
use nanochronometer.Common.{
  ℕ, zero, suc, ◌≡◌, refl, ap, sym, subst, true, false, Bool-cases, inl, inr, List, [], ◌∷◌, ◌++◌,
  Option, none, some, All, if◌then◌else◌, length,
}
use mathlib.Core.Option.{some-injective}
use nanochronometer.HidReport.{PointerLayout}
use nanochronometer.HidReport.State.{Slots, Candidate, same_id}
use nanochronometer.HidReport.Slots.{Marked, Fresh, Unique, same_id_self, swapped}
use nanochronometer.HidReport.Descriptor.{
  Walk, Walked, finished, refused, out_of_fuel, at_start, step, walk, slots_of, parse, find_pointer,
}
use nanochronometer.HidReport.Finds.{FoundIn, found, Holds, find_pointer-FoundIn}
use nanochronometer.HidReport.Items.{
  depth_of, Declared, Left, opened, input_here, inputs_from, inputs, Rounds, step-Kept,
}

-- What a walk that finishes leaves.
record Finished (items : List Declared) (before after : Slots) : Type 0 where
  unique : Unique after
  left : All (Left after) items
  stays : (id : Option ℕ) → Marked id before → Marked id after

joined_items :
    (ds es : List Declared) (slots : Slots)
    → All (Left slots) ds
    → All (Left slots) es
    → All (Left slots) (ds ++ es)
joined_items [] es slots a b = b
joined_items (d ∷ ds) es slots (left, a) b = (left, joined_items ds es slots a b)

kept_items :
    (ds : List Declared) (before after : Slots)
    → ((id : Option ℕ) → Marked id before → Marked id after)
    → All (Left before) ds
    → All (Left after) ds
kept_items [] before after stays a = tt
kept_items (d ∷ ds) before after stays (left, a) =
    ((λ inside. stays d.id (left inside)), kept_items ds before after stays a)

finished-eq : (w w' : Walk) → finished w ≡ finished w' → w ≡ w'
finished-eq w w' h = cc

walk-Finished :
    (fuel : ℕ) (w w' : Walk) (pages bytes : List ℕ)
    → w.digitizer_depth ≡ depth_of pages
    → Unique w.slots
    → walk fuel w bytes ≡ finished w'
    → Finished (inputs_from fuel w pages bytes) w.slots w'.slots
unfolding walk inputs_from Rounds
walk-Finished fuel w w' pages [] deep unique h =
    let same = ap (λ v. v.slots) (finished-eq w w' h) in
    record {
      unique = subst Unique same unique;
      left = tt;
      stays = λ id marked. subst (Marked id) same marked;
    }
walk-Finished zero w w' pages (prefix ∷ rest) deep unique h = cc
walk-Finished (suc fuel) w w' pages (prefix ∷ rest) deep unique h =
    stepped (step w prefix rest) (step-Kept prefix w pages deep unique rest) h
      (λ v left d u e. walk-Finished fuel v w' (opened prefix w pages) left d u e)
  where
    stepped :
        (o : Option (Walk × List ℕ))
        → Rounds prefix w pages deep unique o
        → elim o [ none ↦ refused | some next ↦ walk fuel next.0 next.1 ] ≡ finished w'
        → ((v : Walk) (left : List ℕ)
            → v.digitizer_depth ≡ depth_of (opened prefix w pages)
            → Unique v.slots
            → walk fuel v left ≡ finished w'
            → Finished (inputs_from fuel v (opened prefix w pages) left) v.slots w'.slots)
        → Finished
            (elim o [
              | none ↦ []
              | some next ↦
                  input_here prefix w pages
                  ++ inputs_from fuel next.0 (opened prefix w pages) next.1
            ])
            w.slots
            w'.slots
    stepped none kept e on = cc
    stepped (some next) kept e on =
        let later = on next.0 next.1 kept.deep kept.unique e in
        record {
          unique = later.unique;
          left =
              joined_items (input_here prefix w pages)
                (inputs_from fuel next.0 (opened prefix w pages) next.1) w'.slots
                (kept_items (input_here prefix w pages) next.0.slots w'.slots later.stays kept.left)
                later.left;
          stays = λ id marked. later.stays id (kept.stays id marked);
        }

-- A candidate without a mark belongs to no marked report ID.
unmarked :
    (slots : Slots) (c : Candidate)
    → Unique slots
    → Holds c slots
    → c.digitizer ≡ false
    → Marked c.report_id slots
    → ⊥
unmarked [] c unique there plain marked = there
unmarked (d ∷ slots) c (fresh, unique) (inl same) plain marked =
    let itself : same_id d.report_id c.report_id ≡ true =
      subst (λ e. same_id e.report_id c.report_id ≡ true) same (same_id_self c.report_id) in
    let is_marked : d.digitizer ≡ true =
      subst (λ b. if b then d.digitizer ≡ true else Marked c.report_id slots) itself marked in
    absurd (cc (is_marked, plain, ap (λ e. e.digitizer) same))
unmarked (d ∷ slots) c (fresh, unique) (inr there) plain marked =
    let differ = differs slots there fresh in
    unmarked slots c unique there plain
      (subst (λ b. if b then d.digitizer ≡ true else Marked c.report_id slots) differ marked)
  where
    differs :
        (ds : Slots) → Holds c ds → Fresh d.report_id ds → same_id d.report_id c.report_id ≡ false
    differs [] h f = absurd h
    differs (e ∷ ds) (inl same) (first, f) =
        swapped c.report_id d.report_id
          (subst (λ e. same_id e.report_id d.report_id ≡ false) (sym same) first)
    differs (e ∷ ds) (inr h) (first, f) = differs ds h f

-- A layout is that of a report outside: no Input item of its report ID lies in a digitizer.
abbrev pub Outside : PointerLayout → Declared → Type 0
Outside layout d = d.id ≡ layout.report_id → d.inside ≡ false

clear_items :
    (ds : List Declared) (slots : Slots) (id : Option ℕ)
    → (Marked id slots → ⊥)
    → All (Left slots) ds
    → All (λ d. d.id ≡ id → d.inside ≡ false) ds
clear_items [] slots id clear a = tt
clear_items (d ∷ ds) slots id clear (left, a) = (
  λ same. elim (Bool-cases d.inside) [
    | inr outside ↦ outside
    | inl inside ↦ absurd (clear (subst (λ i. Marked i slots) same (left inside)))
  ],
  clear_items ds slots id clear a,
)

from_walk :
    (o : Walked) (slots : Slots)
    → slots_of o ≡ some slots
    → (w : Walk) × (o ≡ finished w) × (w.slots ≡ slots)
from_walk (finished w) slots h = (w, refl, some-injective w.slots slots h)
from_walk refused slots h = cc
from_walk out_of_fuel slots h = cc

-- A pointer layout that is found is that of a candidate of the descriptor with both axes, and no Input
-- item of its report ID, anywhere in the descriptor, stands within a collection, at any depth, that
-- was opened under the digitizer page.
pub find_pointer-Outside :
    (descriptor : List ℕ) (layout : PointerLayout)
    → find_pointer descriptor ≡ some layout
    → FoundIn descriptor layout × All (Outside layout) (inputs descriptor)
unfolding parse depth_of
find_pointer-Outside descriptor layout h =
    let origin = find_pointer-FoundIn descriptor layout h in (origin, outside origin)
  where
    outside : FoundIn descriptor layout → All (Outside layout) (inputs descriptor)
    outside (found slots c parsed there plain same has_x has_y) =
        let (w, ran, held) =
          from_walk (walk (length descriptor) at_start descriptor) slots parsed in
        let done = walk-Finished (length descriptor) at_start w [] descriptor refl tt ran in
        let clear : Marked layout.report_id w.slots → ⊥ = λ marked.
          unmarked slots c (subst Unique held done.unique) there plain (
            subst (λ i. Marked i slots) (sym same) (subst (Marked layout.report_id) held marked)) in
        clear_items (inputs descriptor) w.slots layout.report_id clear done.left
