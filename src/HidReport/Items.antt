-- ===== src/HidReport/Items.antt =====
-- The collections that are open at each item of a descriptor, and what a round of the walk makes of
-- them: its depth counts those of digitizers, and an Input item within one marks its report.
use nanochronometer.Common.{
  ℕ, zero, suc, ◌+◌, ◌-◌, ◌/◌, ◌^◌, ==_iff, ◌≡◌, ◌≢◌, refl, ap, sym, subst, ◌∙◌, arith, Bool, true,
  false, Bool-cases, inl, inr, not, ◌&&◌, ◌||◌, List, [], ◌∷◌, ◌++◌, Option, none, some, All,
  bit_and, ltb, ◌==◌, if◌then◌else◌, if-either, length, take, drop,
}
use nanochronometer.Common.Int.{ℤ}
use nanochronometer.HidReport.State.{Slots, Candidate, at_slot, max_reports, record_usages}
use nanochronometer.HidReport.Slots.{
  Keeps, kept_self, kept_on, record_usages-Keeps, Marked, Unique, After, at_slot-Unique,
  at_slot-Marked, at_slot-marks,
}
use nanochronometer.HidReport.Descriptor.{
  Walk, at_start, cleared, input_item, main_item, global_item, local_item, unsigned_of, signed_of,
  item, size_of, long_item, step,
}

abbrev pub digitizer_page : ℕ
digitizer_page = 0x0D

-- The usage pages of the collections that are open, the innermost first: whether one is a digitizer's,
-- and how many lie within it, itself included.
abbrev pub is_inside : List ℕ → Bool
is_inside [] = false
is_inside (page ∷ pages) = (page == digitizer_page) || is_inside pages

unfoldable pub depth_of : List ℕ → ℕ
depth_of [] = 0
depth_of (page ∷ pages) =
    if (page == digitizer_page) || ltb 0 (depth_of pages)
    then depth_of pages + 1
    else depth_of pages

depth_of-is_inside : (pages : List ℕ) → ltb 0 (depth_of pages) ≡ is_inside pages
unfolding depth_of
depth_of-is_inside [] = refl
depth_of-is_inside (page ∷ pages) = ground (arith, depth_of-is_inside pages)

-- A main item with a tag.
abbrev pub is_main : ℕ → ℕ → Bool
is_main tag prefix =
    not (prefix == 0xFE) && ((bit_and (prefix / 2 ^ 2) 0x03 == 0) && (prefix / 2 ^ 4 == tag))

abbrev pub close : List ℕ → List ℕ
close [] = []
close (page ∷ pages) = pages

-- The open collections behind an item.
abbrev pub opened : ℕ → Walk → List ℕ → List ℕ
opened prefix w pages =
    if is_main 0xA prefix
    then w.globals.usage_page ∷ pages
    else if is_main 0xC prefix
    then close pages
    else pages

-- An Input item: its report ID, and whether it lies in a digitizer.
pub record Declared : Type 0 where
  pub id : Option ℕ
  pub inside : Bool

abbrev pub input_here : ℕ → Walk → List ℕ → List Declared
input_here prefix w pages =
    if is_main 0x8 prefix
    then record { id = w.globals.report_id; inside = is_inside pages } ∷ []
    else []

-- The Input items of the bytes that are left.
unfoldable pub inputs_from : ℕ → Walk → List ℕ → List ℕ → List Declared
inputs_from fuel w pages [] = []
inputs_from zero w pages (prefix ∷ rest) = []
inputs_from (suc fuel) w pages (prefix ∷ rest) = elim (step w prefix rest) [
  | none ↦ []
  | some next ↦ input_here prefix w pages ++ inputs_from fuel next.0 (opened prefix w pages) next.1
]

abbrev pub inputs : List ℕ → List Declared
inputs descriptor = inputs_from (length descriptor) at_start [] descriptor

-- A declared item of a digitizer has left its mark.
abbrev pub Left : Slots → Declared → Type 0
Left slots d = d.inside ≡ true → Marked d.id slots

-- What a round keeps and leaves.
pub record Kept (prefix : ℕ) (pages : List ℕ) (w w' : Walk) : Type 0 where
  pub deep : w'.digitizer_depth ≡ depth_of (opened prefix w pages)
  pub unique : Unique w'.slots
  pub left : All (Left w'.slots) (input_here prefix w pages)
  pub stays : (id : Option ℕ) → Marked id w.slots → Marked id w'.slots

-- An item that is not a main item, and the long ones, change neither slots nor depth.
record Same (w w' : Walk) : Type 0 where
  depth : w'.digitizer_depth ≡ w.digitizer_depth
  slots : w'.slots ≡ w.slots

abbrev Walks : (Walk → Type 0) → Option Walk → Type 0
Walks P none = Unit
Walks P (some w) = P w

no_change : (w : Walk) → Same w w
no_change w = record { depth = refl; slots = refl }

global_item-Same :
    (w : Walk) (tag unsigned : ℕ) (signed : ℤ) → Walks (Same w) (global_item w tag unsigned signed)
unfolding global_item
global_item-Same w tag unsigned signed =
    let same : (w' : Walk)
        → w'.digitizer_depth ≡ w.digitizer_depth
        → w'.slots ≡ w.slots
        → Same w w' =
      λ w' d s. record { depth = d; slots = s } in
    if-either (Walks (Same w)) (tag == 0x0) (λ h. record { depth = refl; slots = refl })
      (λ h.
        if-either (Walks (Same w)) (tag == 0x1) (λ h. record { depth = refl; slots = refl })
          (λ h.
            if-either (Walks (Same w)) (tag == 0x7) (λ h. record { depth = refl; slots = refl })
              (λ h.
                if-either (Walks (Same w)) (tag == 0x8) (λ h. record { depth = refl; slots = refl })
                  (λ h.
                    if-either (Walks (Same w)) (tag == 0x9)
                      (λ h. record { depth = refl; slots = refl })
                      (λ h.
                        if-either (Walks (Same w)) ((tag == 0xA) || (tag == 0xB)) (λ h. tt)
                          (λ h. no_change w))))))

local_item-Same : (w : Walk) (tag size unsigned : ℕ) → Same w (local_item w tag size unsigned)
unfolding local_item
local_item-Same w tag size unsigned =
    if-either (Same w) (tag == 0x0)
      (λ h.
        if-either (Same w) (size == 4) (λ h. record { depth = refl; slots = refl })
          (λ h. record { depth = refl; slots = refl }))
      (λ h.
        if-either (Same w) (tag == 0x1) (λ h. record { depth = refl; slots = refl })
          (λ h.
            if-either (Same w) (tag == 0x2) (λ h. record { depth = refl; slots = refl })
              (λ h. no_change w)))

-- An Input item keeps what candidates were marked, and marks its own within a digitizer.
input_item-Keeps : (w : Walk) (flags : ℕ) (c : Candidate) → Keeps c (input_item w flags c)
unfolding input_item
input_item-Keeps w flags c =
    let marked = if ltb 0 w.digitizer_depth then record c { digitizer = true } else c in
    let relative = not (bit_and flags 0x04 == 0) in
    let variable = not (bit_and flags 0x02 == 0) in
    let first : Keeps c marked =
      if-either (Keeps c) (ltb 0 w.digitizer_depth)
        (λ h. record { same = refl; marked = λ m. refl }) (λ h. kept_self c) in
    let second : Keeps marked (
        if not (bit_and flags 0x01 == 0)
        then marked
        else record_usages w.globals w.locals relative variable marked) =
      if-either (Keeps marked) (not (bit_and flags 0x01 == 0)) (λ h. kept_self marked)
        (λ h. record_usages-Keeps w.globals w.locals relative variable marked) in
    let both = kept_on first second in record { same = both.same; marked = both.marked }

input_item-marks :
    (w : Walk) (flags : ℕ) (c : Candidate)
    → ltb 0 w.digitizer_depth ≡ true
    → (input_item w flags c).digitizer ≡ true
unfolding input_item
input_item-marks w flags c deep =
    let marked = if ltb 0 w.digitizer_depth then record c { digitizer = true } else c in
    let relative = not (bit_and flags 0x04 == 0) in
    let variable = not (bit_and flags 0x02 == 0) in
    let is_marked : marked.digitizer ≡ true =
      ap (λ b. (if b then record c { digitizer = true } else c).digitizer) deep in
    let second : Keeps marked (
        if not (bit_and flags 0x01 == 0)
        then marked
        else record_usages w.globals w.locals relative variable marked) =
      if-either (Keeps marked) (not (bit_and flags 0x01 == 0)) (λ h. kept_self marked)
        (λ h. record_usages-Keeps w.globals w.locals relative variable marked) in
    second.marked is_marked

-- The tags of an item that is a main one, and of one that is not.
is_main-of :
    (tag prefix : ℕ)
    → (prefix == 0xFE) ≡ false
    → (bit_and (prefix / 2 ^ 2) 0x03 == 0) ≡ true
    → is_main tag prefix ≡ (prefix / 2 ^ 4 == tag)
is_main-of tag prefix short main = rw (short, main) refl

is_main-long : (tag prefix : ℕ) → (prefix == 0xFE) ≡ true → is_main tag prefix ≡ false
is_main-long tag prefix long = rw long refl

is_main-other :
    (tag prefix : ℕ) → (bit_and (prefix / 2 ^ 2) 0x03 == 0) ≡ false → is_main tag prefix ≡ false
is_main-other tag prefix other = elim (Bool-cases (prefix == 0xFE)) [
  | inl long ↦ rw long refl
  | inr short ↦ rw (short, other) refl
]

other_tag : (tag a b : ℕ) → (tag == a) ≡ true → a ≢ b → (tag == b) ≡ false
other_tag tag a b h differ = elim (Bool-cases (tag == b)) [
  | inr no_match ↦ no_match
  | inl match ↦ absurd (differ (sym ((==_iff tag a).0 h) ∙ (==_iff tag b).0 match))
]

module _ (prefix : ℕ) (w : Walk) (pages : List ℕ) (deep : w.digitizer_depth ≡ depth_of pages)
    (unique : Unique w.slots) where
  -- The open collections and the declared items, by what the tag is.
  opened_as : Bool → Bool → List ℕ
  opened_as begins ends =
      if begins then w.globals.usage_page ∷ pages else if ends then close pages else pages

  input_as : Bool → List Declared
  input_as b = if b then record { id = w.globals.report_id; inside = is_inside pages } ∷ [] else []

  -- Nothing changed: no main item that counts here.
  plain :
      (w' : Walk)
      → Same w w'
      → is_main 0x8 prefix ≡ false
      → is_main 0xA prefix ≡ false
      → is_main 0xC prefix ≡ false
      → Kept prefix pages w w'
  unfolding opened_as input_as
  plain w' same no_input no_begin no_end = record {
    deep =
        same.depth
        ∙ deep
        ∙ sym (
            ap (λ b. depth_of (opened_as b (is_main 0xC prefix))) no_begin
            ∙ ap (λ b. depth_of (opened_as false b)) no_end);
    unique = subst Unique (sym same.slots) unique;
    left = subst (All (Left w'.slots)) (sym (ap input_as no_input)) tt;
    stays = λ id marked. subst (Marked id) (sym same.slots) marked;
  }

  -- A collection that begins or ends.
  moved :
      (w' : Walk)
      → w'.slots ≡ w.slots
      → is_main 0x8 prefix ≡ false
      → w'.digitizer_depth ≡ depth_of (opened prefix w pages)
      → Kept prefix pages w w'
  unfolding input_as
  moved w' slots no_input depth = record {
    deep = depth;
    unique = subst Unique (sym slots) unique;
    left = subst (All (Left w'.slots)) (sym (ap input_as no_input)) tt;
    stays = λ id marked. subst (Marked id) (sym slots) marked;
  }

  -- An Input item, by what its slot was made into.
  entered :
      (o : Option Slots)
      → is_main 0x8 prefix ≡ true
      → is_main 0xA prefix ≡ false
      → is_main 0xC prefix ≡ false
      → After Unique o
      → ((id : Option ℕ) → Marked id w.slots → After (Marked id) o)
      → (is_inside pages ≡ true → After (Marked w.globals.report_id) o)
      → Walks
          (Kept prefix pages w)
          (elim o [ none ↦ none | some slots' ↦ some (cleared (record w { slots = slots' })) ])
  unfolding opened_as input_as
  entered none is_input no_begin no_end u stays marks = tt
  entered (some slots') is_input no_begin no_end u stays marks = record {
    deep =
        deep
        ∙ sym (
            ap (λ b. depth_of (opened_as b (is_main 0xC prefix))) no_begin
            ∙ ap (λ b. depth_of (opened_as false b)) no_end);
    unique = u;
    left = subst (All (Left slots')) (sym (ap input_as is_input)) (marks, tt);
    stays = stays;
  }

  depth-close : depth_of pages - 1 ≡ depth_of (close pages)
  unfolding depth_of
  depth-close = closes pages
    where
      closes : (ps : List ℕ) → depth_of ps - 1 ≡ depth_of (close ps)
      closes [] = refl
      closes (page ∷ ps) = ground arith

  main_item-Kept :
      (unsigned : ℕ)
      → (prefix == 0xFE) ≡ false
      → (bit_and (prefix / 2 ^ 2) 0x03 == 0) ≡ true
      → Walks (Kept prefix pages w) (main_item w (prefix / 2 ^ 4) unsigned)
  unfolding main_item opened_as depth_of
  main_item-Kept unsigned short main =
      let tag = prefix / 2 ^ 4 in
      let change = input_item w unsigned in
      let keeps = input_item-Keeps w unsigned in
      let id = w.globals.report_id in
      let by_tag : (t : ℕ) (b : Bool) → (tag == t) ≡ b → is_main t prefix ≡ b =
        λ t b h. is_main-of t prefix short main ∙ h in
      if-either (Walks (Kept prefix pages w)) (tag == 0x8)
        (λ h.
          entered (at_slot max_reports id change w.slots) (by_tag 0x8 true h)
            (by_tag 0xA false (other_tag tag 0x8 0xA h (λ e. omega arith)))
            (by_tag 0xC false (other_tag tag 0x8 0xC h (λ e. omega arith)))
            (at_slot-Unique id change keeps max_reports w.slots unique)
            (λ other marked. at_slot-Marked id change keeps max_reports other w.slots marked)
            (λ within. at_slot-marks id change keeps max_reports w.slots (λ c.
              input_item-marks w unsigned c
                (ap (λ d. ltb 0 d) deep ∙ depth_of-is_inside pages ∙ within))))
        (λ not_input.
          if-either (Walks (Kept prefix pages w)) (tag == 0xA)
            (λ h. moved _ refl (by_tag 0x8 false not_input) (
              ap (λ d. if (w.globals.usage_page == 0x0D) || ltb 0 d then d + 1 else d) deep
              ∙ sym (ap (λ b. depth_of (opened_as b (is_main 0xC prefix))) (by_tag 0xA true h))))
            (λ not_begin.
              if-either (Walks (Kept prefix pages w)) (tag == 0xC)
                (λ h. moved _ refl (by_tag 0x8 false not_input) (
                  ap (λ d. d - 1) deep
                  ∙ depth-close
                  ∙ sym (
                      ap (λ b. depth_of (opened_as b (is_main 0xC prefix)))
                        (by_tag 0xA false not_begin)
                      ∙ ap (λ b. depth_of (opened_as false b)) (by_tag 0xC true h))))
                (λ not_end.
                  plain _ (record { depth = refl; slots = refl }) (by_tag 0x8 false not_input)
                    (by_tag 0xA false not_begin) (by_tag 0xC false not_end))))

  same_plain :
      (o : Option Walk)
      → is_main 0x8 prefix ≡ false
      → is_main 0xA prefix ≡ false
      → is_main 0xC prefix ≡ false
      → Walks (Same w) o
      → Walks (Kept prefix pages w) o
  same_plain none a b c same = tt
  same_plain (some w') a b c same = plain w' same a b c

  item-Kept :
      (payload : List ℕ)
      → (prefix == 0xFE) ≡ false
      → Walks (Kept prefix pages w) (item w prefix payload)
  item-Kept payload short =
      let kind = bit_and (prefix / 2 ^ 2) 0x03 in
      let tag = prefix / 2 ^ 4 in
      let size = size_of prefix in
      let unsigned = unsigned_of 0 payload 0 in
      if-either (Walks (Kept prefix pages w)) (kind == 0)
        (λ main. main_item-Kept unsigned short main)
        (λ other.
          let by : (t : ℕ) → is_main t prefix ≡ false = λ t. is_main-other t prefix other in
          if-either (Walks (Kept prefix pages w)) (kind == 1)
            (λ h.
              same_plain (global_item w tag unsigned (signed_of size unsigned)) (by 0x8) (by 0xA)
                (by 0xC) (global_item-Same w tag unsigned (signed_of size unsigned)))
            (λ h.
              if-either (Walks (Kept prefix pages w)) (kind == 2)
                (λ h.
                  plain (local_item w tag size unsigned) (local_item-Same w tag size unsigned)
                    (by 0x8) (by 0xA) (by 0xC))
                (λ h. plain w (no_change w) (by 0x8) (by 0xA) (by 0xC))))

  -- What a round does, where it goes on.
  unfoldable pub Rounds : Option (Walk × List ℕ) → Type 0
  Rounds none = Unit
  Rounds (some next) = Kept prefix pages w next.0

  pub step-Kept : (rest : List ℕ) → Rounds (step w prefix rest)
  unfolding step Rounds
  step-Kept rest =
      if-either Rounds (prefix == 0xFE) (λ long. stepped (long_item rest) long)
        (λ short.
          if-either Rounds (ltb (length rest) (size_of prefix)) (λ h. tt)
            (λ h.
              itemed (item w prefix (take (size_of prefix) rest))
                (item-Kept (take (size_of prefix) rest) short)))
    where
      stepped :
          (o : Option (List ℕ))
          → (prefix == 0xFE) ≡ true
          → Rounds (elim o [ none ↦ none | some rest' ↦ some (w, rest') ])
      stepped none long = tt
      stepped (some rest') long =
          plain w (no_change w) (is_main-long 0x8 prefix long) (is_main-long 0xA prefix long)
            (is_main-long 0xC prefix long)

      itemed :
          (o : Option Walk)
          → Walks (Kept prefix pages w) o
          → Rounds (elim o [ none ↦ none | some w' ↦ some (w', drop (size_of prefix) rest) ])
      itemed none kept = tt
      itemed (some w') kept = kept
