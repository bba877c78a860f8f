-- ===== src/HidReport/Slots.antt =====
-- The slots of the candidates: one for each report ID, which keeps its mark.
use nanochronometer.Common.{
  ℕ, zero, suc, ◌+◌, ◌-◌, ◌≡◌, refl, ap, sym, subst, ◌∙◌, Bool, true, false, Bool-cases, inl, inr,
  ◌&&◌, [], ◌∷◌, Option, none, some, All, ◌==◌, ==_iff, if◌then◌else◌, if-either, for_range, get_or,
}
use nanochronometer.HidReport.State.{
  Slots, Candidate, Globals, Locals, same_id, at_slot, new_candidate, assign_usage, record_usages,
  is_modifier_range, button_count,
}

same_id-eq : (a b : Option ℕ) → same_id a b ≡ true → a ≡ b
same_id-eq none none h = refl
same_id-eq none (some b) h = cc
same_id-eq (some a) none h = cc
same_id-eq (some a) (some b) h = ap some ((==_iff a b).0 h)

pub same_id_self : (a : Option ℕ) → same_id a a ≡ true
same_id_self none = refl
same_id_self (some a) = (==_iff a a).1 refl

pub swapped : (a b : Option ℕ) → same_id a b ≡ false → same_id b a ≡ false
swapped a b h = elim (Bool-cases (same_id b a)) [
  | inr differ ↦ differ
  | inl same ↦
      subst (λ x. same_id x a ≡ false) (sym (same_id-eq b a same))
        (subst (λ x. same_id a x ≡ false) (same_id-eq b a same) h)
]

-- A change of a candidate that keeps its report ID and its mark.
pub record Keeps (c d : Candidate) : Type 0 where
  pub same : d.report_id ≡ c.report_id
  pub marked : c.digitizer ≡ true → d.digitizer ≡ true

pub kept_self : (c : Candidate) → Keeps c c
kept_self c = record { same = refl; marked = λ h. h }

pub kept_on : {c d e : Candidate} → Keeps c d → Keeps d e → Keeps c e
kept_on k l = record { same = l.same ∙ k.same; marked = λ h. l.marked (k.marked h) }

assign_usage-Keeps :
    (g : Globals) (l : Locals) (relative : Bool) (index : ℕ) (c : Candidate)
    → Keeps c (assign_usage g l relative index c)
assign_usage-Keeps g l relative index c =
    let usage = get_or l.usages index 0 in
    if-either (Keeps c) (usage == 0x30) (λ h. record { same = refl; marked = λ m. m })
      (λ h.
        if-either (Keeps c) (usage == 0x31) (λ h. record { same = refl; marked = λ m. m })
          (λ h.
            if-either (Keeps c) (usage == 0x38) (λ h. record { same = refl; marked = λ m. m })
              (λ h. kept_self c)))

assign_all-Keeps :
    (g : Globals) (l : Locals) (relative : Bool) (left k : ℕ) (c : Candidate)
    → Keeps c (for_range left k (assign_usage g l relative) c)
assign_all-Keeps g l relative zero k c = kept_self c
assign_all-Keeps g l relative (suc left) k c =
    kept_on (assign_usage-Keeps g l relative k c)
      (assign_all-Keeps g l relative left (k + 1) (assign_usage g l relative k c))

pub record_usages-Keeps :
    (g : Globals) (l : Locals) (relative variable : Bool) (c : Candidate)
    → Keeps c (record_usages g l relative variable c)
unfolding record_usages
record_usages-Keeps g l relative variable c =
    if-either (Keeps c) (g.usage_page == 0x07)
      (λ h.
        if-either (Keeps c) variable
          (λ h.
            if-either (Keeps c) (is_modifier_range l.minimum l.maximum)
              (λ h. record { same = refl; marked = λ m. m }) (λ h. kept_self c))
          (λ h. record { same = refl; marked = λ m. m }))
      (λ h.
        if-either (Keeps c) ((g.usage_page == 0x09) && variable)
          (λ h.
            if-either (Keeps c) (button_count l l.minimum l.maximum == 0) (λ h. kept_self c)
              (λ h. record { same = refl; marked = λ m. m }))
          (λ h.
            if-either (Keeps c) ((g.usage_page == 0x01) && variable)
              (λ h. assign_all-Keeps g l relative l.usage_count 0 c) (λ h. kept_self c)))

-- The first slot of the ID is marked.
abbrev pub Marked : Option ℕ → Slots → Type 0
Marked id [] = ⊥
Marked id (c ∷ slots) = if same_id c.report_id id then c.digitizer ≡ true else Marked id slots

-- No slot has the ID; and no two slots have the same.
abbrev pub Fresh : Option ℕ → Slots → Type 0
Fresh id slots = All (λ c. same_id c.report_id id ≡ false) slots

abbrev pub Unique : Slots → Type 0
Unique [] = Unit
Unique (c ∷ slots) = Fresh c.report_id slots × Unique slots

-- What a change of one slot leaves, by what it says of the list that it gives.
abbrev pub After : (Slots → Type 0) → Option Slots → Type 0
After P none = Unit
After P (some slots) = P slots

extend :
    (P Q : Slots → Type 0) (c : Candidate) (o : Option Slots)
    → ((slots : Slots) → P slots → Q (c ∷ slots))
    → After P o
    → After Q (elim o [ none ↦ none | some slots' ↦ some (c ∷ slots') ])
extend P Q c none step h = tt
extend P Q c (some slots) step h = step slots h

behind_front :
    (b : Bool) (P : Type 0) (Q : Slots → Type 0) (slots : Slots) (o : Option Slots)
    → (if b then P else Q slots)
    → (Q slots → After Q o)
    → After (λ t. if b then P else Q t) o
behind_front true P Q slots none p later = tt
behind_front true P Q slots (some t) p later = p
behind_front false P Q slots o q later = later q

module _ (id : Option ℕ) (change : Candidate → Candidate)
    (keeps : (c : Candidate) → Keeps c (change c)) where
  new_id : (change (new_candidate id)).report_id ≡ id
  new_id = (keeps (new_candidate id)).same

  at_slot-Fresh :
      (room : ℕ) (other : Option ℕ) (slots : Slots)
      → same_id id other ≡ false
      → Fresh other slots
      → After (Fresh other) (at_slot room id change slots)
  unfolding at_slot
  at_slot-Fresh room other [] differ fresh =
      if-either (After (Fresh other)) (room == 0) (λ h. tt)
        (λ h. (ap (λ a. same_id a other) new_id ∙ differ, tt))
  at_slot-Fresh room other (c ∷ slots) differ (first, fresh) =
      if-either (After (Fresh other)) (same_id c.report_id id)
        (λ h. (ap (λ a. same_id a other) (keeps c).same ∙ first, fresh))
        (λ h.
          extend (Fresh other) (Fresh other) c (at_slot (room - 1) id change slots)
            (λ slots' rest. (first, rest)) (at_slot-Fresh (room - 1) other slots differ fresh))

  pub at_slot-Unique :
      (room : ℕ) (slots : Slots) → Unique slots → After Unique (at_slot room id change slots)
  unfolding at_slot
  at_slot-Unique room [] unique = if-either (After Unique) (room == 0) (λ h. tt) (λ h. (tt, tt))
  at_slot-Unique room (c ∷ slots) (fresh, unique) =
      if-either (After Unique) (same_id c.report_id id)
        (λ h. (subst (λ a. Fresh a slots) (sym (keeps c).same) fresh, unique))
        (λ h.
          extend (λ t. Fresh c.report_id t × Unique t) Unique c (at_slot (room - 1) id change slots)
            (λ slots' rest. rest)
            (together (at_slot (room - 1) id change slots)
              (at_slot-Fresh (room - 1) c.report_id slots (swapped c.report_id id h) fresh)
              (at_slot-Unique (room - 1) slots unique)))
    where
      together :
          (o : Option Slots)
          → After (Fresh c.report_id) o
          → After Unique o
          → After (λ t. Fresh c.report_id t × Unique t) o
      together none f u = tt
      together (some t) f u = (f, u)

  -- A mark that is there stays.
  pub at_slot-Marked :
      (room : ℕ) (other : Option ℕ) (slots : Slots)
      → Marked other slots
      → After (Marked other) (at_slot room id change slots)
  unfolding at_slot
  at_slot-Marked room other [] marked = absurd marked
  at_slot-Marked room other (c ∷ slots) marked =
      if-either (After (Marked other)) (same_id c.report_id id)
        (λ h.
          subst (λ a. if same_id a other then (change c).digitizer ≡ true else Marked other slots)
            (sym (keeps c).same) (remarked (same_id c.report_id other) marked))
        (λ h.
          extend (λ t. if same_id c.report_id other then c.digitizer ≡ true else Marked other t)
            (Marked other) c (at_slot (room - 1) id change slots) (λ slots' rest. rest)
            (behind_front (same_id c.report_id other) (c.digitizer ≡ true) (Marked other) slots
              (at_slot (room - 1) id change slots) marked (at_slot-Marked (room - 1) other slots)))
    where
      remarked :
          (b : Bool)
          → (if b then c.digitizer ≡ true else Marked other slots)
          → (if b then (change c).digitizer ≡ true else Marked other slots)
      remarked true m = (keeps c).marked m
      remarked false m = m

  -- A change that marks leaves a mark.
  pub at_slot-marks :
      (room : ℕ) (slots : Slots)
      → ((c : Candidate) → (change c).digitizer ≡ true)
      → After (Marked id) (at_slot room id change slots)
  unfolding at_slot
  at_slot-marks room [] marks =
      if-either (After (Marked id)) (room == 0) (λ h. tt)
        (λ h.
          subst (λ b. if b then (change (new_candidate id)).digitizer ≡ true else ⊥)
            (sym (ap (λ a. same_id a id) new_id ∙ same_id_self id)) (marks (new_candidate id)))
  at_slot-marks room (c ∷ slots) marks =
      if-either (After (Marked id)) (same_id c.report_id id)
        (λ h.
          subst (λ b. if b then (change c).digitizer ≡ true else Marked id slots)
            (sym (ap (λ a. same_id a id) (keeps c).same ∙ h)) (marks c))
        (λ h.
          extend (Marked id) (Marked id) c (at_slot (room - 1) id change slots)
            (λ slots' rest.
              subst (λ b. if b then c.digitizer ≡ true else Marked id slots') (sym h) rest)
            (at_slot-marks (room - 1) slots marks))
