-- ===== src/Input/Recent.antt =====
-- The readout shows the last bytes.
use nanochronometer.Common.{
  ℕ, ◌+◌, ◌-◌, ◌≡◌, ◌⊎◌, refl, ap, sym, subst, ◌∙◌, arith, List, [], ◌∷◌, ◌++◌, length,
  length-append, set, take, drop, replicate, take-append, drop-append, ◌==◌, true, false, inl, inr,
}
use mathlib.Core.List.{append_assoc, append-nil}
use nanochronometer.Input.{Ps2, PointerKind, remember, recently, rotate_left, fresh}

set-append :
    (front : List ℕ) (x v : ℕ) (rest : List ℕ)
    → set (front ++ (x ∷ rest)) (length front) v ≡ front ++ (v ∷ rest)
set-append [] x v rest = refl
set-append (y ∷ front) x v rest = ap (λ r. y ∷ r) (set-append front x v rest)

-- The bytes that came in, and what the readout holds of them.
record Shows (came : List ℕ) (s : Ps2) : Type 0 where
  lost : List ℕ
  shown : List ℕ
  unused : List ℕ
  came_in : came ≡ lost ++ shown
  stored : s.recent ≡ shown ++ unused
  counted : s.recent_len ≡ length shown
  size : length shown + length unused ≡ 8
  nothing_wasted : (lost ≡ []) ⊎ (unused ≡ [])

-- Byte after byte.
unfoldable pub remember_all : List ℕ → Ps2 → Ps2
remember_all [] s = s
remember_all (byte ∷ later) s = remember_all later (remember byte s)

module _ (byte : ℕ) (came : List ℕ) (s : Ps2) (w : Shows came s) where
  grow_full :
      (shown : List ℕ)
      → w.shown ≡ shown
      → w.unused ≡ []
      → Shows (came ++ (byte ∷ [])) (remember byte s)
  unfolding remember
  grow_full [] h full = absurd (omega (arith, w.size, ap length h, ap length full))
  grow_full (x ∷ shown) h full =
      let eight : s.recent_len ≡ 8 = omega (arith, w.size, w.counted, ap length full) in
      let at_end : (s.recent_len == 8) ≡ true = ground (arith, eight) in
      let seven : length shown ≡ 7 = omega (arith, w.size, ap length h, ap length full) in
      let stored : s.recent ≡ x ∷ shown =
        w.stored
        ∙ ap (λ r. r ++ w.unused) h
        ∙ ap (λ r. (x ∷ shown) ++ r) full
        ∙ append-nil (x ∷ shown) in
      rw at_end (record {
        lost = w.lost ++ (x ∷ []);
        shown = shown ++ (byte ∷ []);
        unused = [];
        came_in =
            ap (λ r. r ++ (byte ∷ [])) (w.came_in ∙ ap (λ r. w.lost ++ r) h)
            ∙ simp append_assoc refl;
        stored =
            ap (λ r. set (rotate_left r) 7 byte) stored
            ∙ ap (λ n. set (shown ++ (x ∷ [])) n byte) (sym seven)
            ∙ set-append shown x byte []
            ∙ sym (append-nil (shown ++ (byte ∷ [])));
        counted = omega (arith, eight, seven, length-append shown (byte ∷ []));
        size = omega (arith, seven, length-append shown (byte ∷ []));
        nothing_wasted = inr refl;
      })

  grow_room :
      (j : ℕ) (unused : List ℕ)
      → w.unused ≡ j ∷ unused
      → w.lost ≡ []
      → Shows (came ++ (byte ∷ [])) (remember byte s)
  unfolding remember
  grow_room j unused room none_lost =
      let before_end : (s.recent_len == 8) ≡ false =
        ground (arith, w.size, w.counted, ap length room) in
      let longer = length-append w.shown (byte ∷ []) in
      rw before_end (record {
        lost = [];
        shown = w.shown ++ (byte ∷ []);
        unused = unused;
        came_in = ap (λ r. r ++ (byte ∷ [])) (w.came_in ∙ ap (λ r. r ++ w.shown) none_lost);
        stored =
            ap (λ r. set r s.recent_len byte) (w.stored ∙ ap (λ r. w.shown ++ r) room)
            ∙ ap (λ n. set (w.shown ++ (j ∷ unused)) n byte) w.counted
            ∙ set-append w.shown j byte unused
            ∙ sym (append_assoc w.shown (byte ∷ []) unused);
        counted = omega (arith, w.counted, longer);
        size = omega (arith, w.size, longer, ap length room);
        nothing_wasted = inl refl;
      })

  grow : (unused : List ℕ) → w.unused ≡ unused → Shows (came ++ (byte ∷ [])) (remember byte s)
  grow [] full = grow_full w.shown refl full
  grow (j ∷ unused) room = elim w.nothing_wasted [
    | inl none_lost ↦ grow_room j unused room none_lost
    | inr none_unused ↦ absurd (omega (arith, ap length none_unused, ap length room))
  ]

remember_all-Shows :
    (later came : List ℕ) (s : Ps2) → Shows came s → Shows (came ++ later) (remember_all later s)
unfolding remember_all
remember_all-Shows [] came s w = subst (λ r. Shows r s) (sym (append-nil came)) w
remember_all-Shows (byte ∷ later) came s w =
    subst (λ r. Shows r (remember_all later (remember byte s)))
      (append_assoc came (byte ∷ []) later)
      (remember_all-Shows later (came ++ (byte ∷ [])) (remember byte s)
        (grow byte came s w w.unused refl))

last_eight : (came : List ℕ) (s : Ps2) → Shows came s → recently s ≡ drop (length came - 8) came
last_eight came s w =
    let sum = ap length w.came_in ∙ length-append w.lost w.shown in
    let shown : recently s ≡ w.shown =
      ap (λ r. take s.recent_len r) w.stored
      ∙ ap (λ n. take n (w.shown ++ w.unused)) w.counted
      ∙ take-append w.shown w.unused in
    let dropped : length came - 8 ≡ 0 + length w.lost = elim w.nothing_wasted [
      | inl none_lost ↦ omega (arith, sum, w.size, ap length none_lost)
      | inr none_unused ↦ omega (arith, sum, w.size, ap length none_unused)
    ] in
    shown
    ∙ sym (
        ap (λ n. drop n came) dropped
        ∙ ap (λ r. drop (0 + length w.lost) r) w.came_in
        ∙ drop-append (w.lost ++ w.shown) 0 w.lost w.shown refl)

-- The readout is the last eight of all the bytes that came, oldest first.
pub recently-remember_all :
    (kind : PointerKind) (came : List ℕ)
    → recently (remember_all came (fresh kind)) ≡ drop (length came - 8) came
recently-remember_all kind came = last_eight came (remember_all came (fresh kind)) (
    remember_all-Shows came [] (fresh kind) (record {
      lost = [];
      shown = [];
      unused = replicate 8 0;
      came_in = refl;
      stored = refl;
      counted = refl;
      size = refl;
      nothing_wasted = inl refl;
    }))
