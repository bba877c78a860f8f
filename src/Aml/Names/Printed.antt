-- ===== src/Aml/Names/Printed.antt =====
-- A printed path parses to the path: `Path::render` and `parse_path`.
use nanochronometer.Common.{
  ℕ, suc, ◌+◌, ◌*◌, ◌≤◌, ◌<◌, ◌≡◌, refl, ap, sym, ◌∙◌, arith, Bool, true, false, not, ◌||◌, List,
  [], ◌∷◌, ◌++◌, some, length, length-append, length-set, take-set, length-take, All, ◌==◌,
  if◌then◌else◌, max,
}
use mathlib.Core.List.{append_assoc, append-nil}
use nanochronometer.Aml.Names.{
  NameSeg, NamePath, path_start, max_path, blank, root, segments, push_segment, trimmed, shown, put,
  put_all, put_segments, render, path_step, finish_path, parse_from, parse_path,
}

-- A byte that a segment may hold.
abbrev pub is_letter : ℕ → Bool
is_letter byte = not ((byte == b'\\') || ((byte == b'^') || ((byte == b'.') || (byte == 0))))

pub data IsSegment : NameSeg → Type 0 where
  letters :
      (a b c d : ℕ)
      → is_letter a ≡ true
      → is_letter b ≡ true
      → is_letter c ≡ true
      → is_letter d ≡ true
      → IsSegment (a ∷ b ∷ c ∷ d ∷ [])

-- What `render` prints: the segments, separated by dots.
abbrev printed : Bool → List NameSeg → List ℕ
printed first [] = []
printed first (segment ∷ later) =
    let text = shown segment ++ printed false later in if first then text else b'.' ∷ text

put_all_fits :
    (room : ℕ) (out bytes : List ℕ)
    → length out + length bytes ≤ room
    → put_all room out bytes ≡ out ++ bytes
put_all_fits room out [] h = sym (append-nil out)
put_all_fits room out (byte ∷ bytes) h =
    let one : put room out byte ≡ out ++ (byte ∷ []) = ground arith in
    rw one (
      put_all_fits room (out ++ (byte ∷ [])) bytes (omega (arith, length-append out (byte ∷ [])))
      ∙ append_assoc out (byte ∷ []) bytes)

length-shown : (s : NameSeg) → IsSegment s → length (shown s) ≤ 4
length-shown s (letters a b c d _ _ _ _) = omega (arith, length-take (max (trimmed s) 1) s)

put_segments_fits :
    (room : ℕ) (out : List ℕ) (first : Bool) (segs : List NameSeg)
    → All IsSegment segs
    → length out + 5 * length segs ≤ room
    → put_segments room out first segs ≡ out ++ printed first segs
put_segments_fits room out first [] a h = sym (append-nil out)
put_segments_fits room out true (s ∷ segs) (l, a) h =
    let text = shown s in
    let short = length-shown s l in
    rw (put_all_fits room out text (omega arith)) (
      put_segments_fits room (out ++ text) false segs a (omega (arith, length-append out text))
      ∙ append_assoc out text (printed false segs))
put_segments_fits room out false (s ∷ segs) (l, a) h =
    let text = shown s in
    let short = length-shown s l in
    let dotted = out ++ (b'.' ∷ []) in
    let dot : put room out b'.' ≡ dotted = ground arith in
    let longer = length-append out (b'.' ∷ []) in
    rw (dot, put_all_fits room dotted text (omega arith))
      (put_segments_fits room (dotted ++ text) false segs a
          (omega (arith, length-append dotted text))
        ∙ append_assoc dotted text (printed false segs)
        ∙ append_assoc out (b'.' ∷ []) (text ++ printed false segs))

-- Reading the printed letters of a segment into a blank one gives the segment.
parse_from-shown :
    (p : NamePath) (s : NameSeg) (rest : List ℕ)
    → IsSegment s
    → parse_from (record { path = p; segment = blank; filled = 0 }) (shown s ++ rest)
      ≡ parse_from (record { path = p; segment = s; filled = max (trimmed s) 1 }) rest
unfolding parse_from path_step
parse_from-shown p s rest (letters a b c d ha hb hc hd) = ground arith

-- The path behind more segments.
abbrev push_all : NamePath → List NameSeg → NamePath
push_all p [] = p
push_all p (s ∷ segs) = push_all (push_segment p s).0 segs

parse_from-dot :
    (p : NamePath) (s : NameSeg) (k : ℕ) (text : List ℕ)
    → 0 < k
    → p.len < max_path
    → parse_from (record { path = p; segment = s; filled = k }) (b'.' ∷ text)
      ≡ parse_from (record { path = (push_segment p s).0; segment = blank; filled = 0 }) text
unfolding parse_from path_step push_segment
parse_from-dot p s k text pos fits = ground arith

len-push_segment :
    (p : NamePath) (s : NameSeg) → p.len < max_path → (push_segment p s).0.len ≡ suc p.len
unfolding push_segment
len-push_segment p s fits = ground arith

parse_from-printed :
    (p : NamePath) (s : NameSeg) (segs : List NameSeg) (k : ℕ)
    → All IsSegment segs
    → 0 < k
    → p.len + suc (length segs) ≤ max_path
    → parse_from (record { path = p; segment = s; filled = k }) (printed false segs)
      ≡ some (push_all p (s ∷ segs))
unfolding parse_from finish_path push_segment
parse_from-printed p s [] k a pos fits = ground arith
parse_from-printed p s (t ∷ segs) k (l, a) pos fits =
    let q = (push_segment p s).0 in
    parse_from-dot p s k (shown t ++ printed false segs) pos (omega arith)
    ∙ parse_from-shown q t (printed false segs) l
    ∙ parse_from-printed q t segs (max (trimmed t) 1) a (omega arith)
        (omega (arith, len-push_segment p s (omega arith)))

-- A path's array has its eight slots, of which the segments in use are the first.
pub record IsPath (p : NamePath) : Type 0 where
  pub slots_length : length p.slots ≡ max_path
  pub len_le : p.len ≤ max_path

-- A push that fits appends its segment, and one that does not changes nothing.
pub push_segment-segments :
    (p : NamePath) (s : NameSeg)
    → IsPath p
    → p.len < max_path
    → segments (push_segment p s).0 ≡ segments p ++ (s ∷ [])
unfolding push_segment
push_segment-segments p s inv fits =
    let full : (p.len == max_path) ≡ false = ground arith in
    rw full (take-set p.slots p.len s (omega (arith, inv.slots_length)))

pub push_segment-IsPath : (p : NamePath) (s : NameSeg) → IsPath p → IsPath (push_segment p s).0
unfolding push_segment
push_segment-IsPath p s inv =
    ground (arith, length-set p.slots p.len s, inv.slots_length, inv.len_le)

push_all-segments :
    (p : NamePath) (segs : List NameSeg)
    → IsPath p
    → p.len + length segs ≤ max_path
    → segments (push_all p segs) ≡ segments p ++ segs
push_all-segments p [] inv fits = sym (append-nil (segments p))
push_all-segments p (s ∷ segs) inv fits =
    let q = (push_segment p s).0 in
    push_all-segments q segs (push_segment-IsPath p s inv)
      (omega (arith, len-push_segment p s (omega arith)))
    ∙ ap (λ t. t ++ segs) (push_segment-segments p s inv (omega arith))
    ∙ append_assoc (segments p) (s ∷ []) segs

pub root-IsPath : IsPath root
root-IsPath = record { slots_length = refl; len_le = omega arith }

parse_from-path_start :
    (segs : List NameSeg)
    → All IsSegment segs
    → 0 < length segs
    → length segs ≤ max_path
    → (back : NamePath) × (parse_from path_start (printed true segs) ≡ some back)
      × (segments back ≡ segs)
parse_from-path_start [] a pos fits = absurd (omega arith)
parse_from-path_start (s ∷ segs) (l, a) pos fits = (
  push_all root (s ∷ segs),
  parse_from-shown root s (printed false segs) l
      ∙ parse_from-printed root s segs (max (trimmed s) 1) a (omega arith) (omega arith),
  push_all-segments root (s ∷ segs) root-IsPath (omega arith),
)

parse_from-slash :
    (text : List ℕ) → parse_from path_start (b'\\' ∷ text) ≡ parse_from path_start text
unfolding parse_from path_step
parse_from-slash text = refl

-- A path with at least one segment, each of four legal bytes, printed to an output of five bytes
-- for each segment and one more, parses to a path of the same segments.
pub parse_path-render :
    (room : ℕ) (path : NamePath)
    → IsPath path
    → All IsSegment (segments path)
    → 0 < path.len
    → 1 + 5 * path.len ≤ room
    → (back : NamePath) × (parse_path (render room path) ≡ some back)
      × (segments back ≡ segments path)
unfolding parse_path render
parse_path-render room path inv legal pos fits =
    let number : length (segments path) ≡ path.len =
      length-take path.len path.slots ∙ omega (arith, inv.slots_length, inv.len_le) in
    let (back, parsed, same) =
      parse_from-path_start (segments path) legal (omega arith) (omega (arith, inv.len_le)) in
    let slash : put room [] b'\\' ≡ b'\\' ∷ [] = ground arith in
    let text = put_segments_fits room (b'\\' ∷ []) true (segments path) legal (omega arith) in
    (
      back,
      ap parse_path (ap (λ t. put_segments room t true (segments path)) slash ∙ text)
          ∙ parse_from-slash (printed true (segments path))
          ∙ parsed,
      same,
    )
