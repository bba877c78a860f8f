-- ===== src/Multiboot/Tags.antt =====
-- The loop over the tags ends, and gives each tag of the list to its reader.
use nanochronometer.Common.{
  ℕ, zero, suc, ◌+◌, ◌≤◌, ◌<◌, ◌≡◌, refl, ap, sym, ◌∙◌, arith, true, false, List, [], ◌∷◌, Option,
  some, if◌then◌else◌, Bool-cases, inl, inr,
}
use nanochronometer.Multiboot.{
  Action, returned, go_on, after, padded, u32_at, is_over, walk, is_refused, over_tags,
}

module _ (bytes : ℕ → ℕ) (info total : ℕ) where
  -- The offset of the tag behind another one.
  abbrev pub behind : ℕ → ℕ
  behind offset = offset + padded (u32_at bytes (info + offset + 4))

  -- The tags from an offset on begin at these offsets.
  abbrev pub Tags : ℕ → List ℕ → Type 0
  Tags offset [] = is_over bytes info total offset ≡ true
  Tags offset (p ∷ ps) =
      (p ≡ offset) × (is_over bytes info total offset ≡ false) × Tags (behind offset) ps

  -- Rounds enough for the rest.
  abbrev pub Enough : ℕ → ℕ → Type 0
  Enough fuel offset = (1 ≤ fuel) × (total < offset + fuel)

  pub ahead :
      (fuel offset : ℕ)
      → is_over bytes info total offset ≡ false
      → Enough (suc fuel) offset
      → Enough fuel (behind offset)
  ahead fuel offset going (some_left, far) =
      (ground (arith, going, far), ground (arith, going, far))

  -- There is such a list.
  pub listed_from : (fuel offset : ℕ) → Enough fuel offset → (ps : List ℕ) × Tags offset ps
  listed_from zero offset (some_left, far) = absurd (omega arith)
  listed_from (suc fuel) offset enough = elim (Bool-cases (is_over bytes info total offset)) [
    | inl over ↦ ([], over)
    | inr going ↦
        let (ps, tags) = listed_from fuel (behind offset) (ahead fuel offset going enough) in
        (offset ∷ ps, (refl, going, tags))
  ]

  module _ {State : Type 0} (body : ℕ → ℕ → ℕ → State → Action State) where
    abbrev pub visit : ℕ → State → Action State
    visit p s = body (info + p) (u32_at bytes (info + p)) (u32_at bytes (info + p + 4)) s

    after-cong :
        (f g : State → Option State) (a : Action State)
        → ((s : State) → f s ≡ g s)
        → after a f ≡ after a g
    after-cong f g (returned s) same = refl
    after-cong f g (go_on s) same = same s

    -- The tags of the list, visited in order.
    abbrev pub visit_all : List ℕ → State → Option State
    visit_all [] s = some s
    visit_all (p ∷ ps) s = after (visit p s) (visit_all ps)

    pub walk-Tags :
        (ps : List ℕ) (fuel offset : ℕ) (s : State)
        → Enough fuel offset
        → Tags offset ps
        → walk bytes body fuel info total offset s ≡ visit_all ps s
    unfolding walk
    walk-Tags ps zero offset s (some_left, far) tags = absurd (omega arith)
    walk-Tags [] (suc fuel) offset s enough over =
        ap
          (λ b.
            if b
            then some s
            else after (visit offset s) (walk bytes body fuel info total (behind offset)))
          over
    walk-Tags (p ∷ ps) (suc fuel) offset s enough (same, going, tags) =
        ap
          (λ b.
            if b
            then some s
            else after (visit offset s) (walk bytes body fuel info total (behind offset)))
          going
        ∙ ap (λ o. after (visit o s) (walk bytes body fuel info total (behind offset))) (sym same)
        ∙ after-cong (walk bytes body fuel info total (behind offset)) (visit_all ps) (visit p s)
            (λ s'. walk-Tags ps fuel (behind offset) s' (ahead fuel offset going enough) tags)

module _ (bytes : ℕ → ℕ) (info : ℕ) where
  accepted-Enough :
      is_refused bytes info ≡ false → Enough bytes info (u32_at bytes info) (u32_at bytes info) 8
  unfolding is_refused
  accepted-Enough fine = (ground (arith, fine), omega arith)

  -- The tags of information that is accepted.
  pub list_there :
      is_refused bytes info ≡ false → (ps : List ℕ) × Tags bytes info (u32_at bytes info) 8 ps
  list_there fine =
      listed_from bytes info (u32_at bytes info) (u32_at bytes info) 8 (accepted-Enough fine)

  module _ {State : Type 0} (body : ℕ → ℕ → ℕ → State → Action State) where
    pub over_tags-refused :
        (s : State) → is_refused bytes info ≡ true → over_tags bytes body s info ≡ some s
    unfolding over_tags
    over_tags-refused s refused =
        let total = u32_at bytes info in
        ap (λ b. if b then some s else walk bytes body total info total 8 s) refused

    pub over_tags-Tags :
        (ps : List ℕ) (s : State)
        → is_refused bytes info ≡ false
        → Tags bytes info (u32_at bytes info) 8 ps
        → over_tags bytes body s info ≡ visit_all bytes info (u32_at bytes info) body ps s
    unfolding over_tags
    over_tags-Tags ps s fine tags =
        let total = u32_at bytes info in
        ap (λ refused. if refused then some s else walk bytes body total info total 8 s) fine
        ∙ walk-Tags bytes info total body ps total 8 s (accepted-Enough fine) tags
