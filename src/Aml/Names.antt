-- ===== src/Aml/Names.antt =====
-- crates/nanochrono-core/src/aml.rs: spans of the bytecode and namespace paths. A path, the source's
-- `Path`, is an array of eight segments and the number of those in use; a segment is its four bytes.
pub mod Printed
use nanochronometer.Common.{
  ℕ, zero, suc, ◌+◌, ◌-◌, Bool, true, false, not, ◌&&◌, ◌||◌, List, [], ◌∷◌, ◌++◌, Option, none,
  some, length, get_or, set, take, drop, replicate, ltb, leb, ◌==◌, if◌then◌else◌, max,
}

pub record Span : Type 0 where
  pub start : ℕ
  pub end : ℕ

-- `Span::len`
abbrev pub span_len : Span → ℕ
span_len span = span.end - span.start

-- `Span::of`: no bytes at all where the ends are out of order or out of bounds.
unfoldable pub bytes_of : List ℕ → Span → Option (List ℕ)
bytes_of code span =
    if ltb span.end span.start || ltb (length code) span.end
    then none
    else some (take (span.end - span.start) (drop span.start code))

abbrev pub NameSeg : Type 0
NameSeg = List ℕ

abbrev pub max_path : ℕ
max_path = 8

abbrev pub blank : NameSeg
blank = b'_' ∷ b'_' ∷ b'_' ∷ b'_' ∷ []

pub record NamePath : Type 0 where
  pub slots : List NameSeg
  pub len : ℕ

abbrev pub root : NamePath
root = record { slots = replicate max_path blank; len = 0 }

abbrev pub segments : NamePath → List NameSeg
segments path = take path.len path.slots

-- A full path stays as it is, and the answer says so.
unfoldable pub push_segment : NamePath → NameSeg → NamePath × Bool
push_segment path segment =
    if path.len == max_path
    then (path, false)
    else (record { slots = set path.slots path.len segment; len = path.len + 1 }, true)

-- The segment stays in its slot.
abbrev pub pop_segment : NamePath → NamePath
pop_segment path = record path { len = path.len - 1 }

unfoldable pub leaf : NamePath → Option NameSeg
leaf path = if path.len == 0 then none else some (get_or path.slots (path.len - 1) blank)

-- Whether two texts are the same.
abbrev pub same_bytes : List ℕ → List ℕ → Bool
same_bytes [] [] = true
same_bytes [] (y ∷ ys) = false
same_bytes (x ∷ xs) [] = false
same_bytes (x ∷ xs) (y ∷ ys) = (x == y) && same_bytes xs ys

abbrev pub same_segments : List NameSeg → List NameSeg → Bool
same_segments [] [] = true
same_segments [] (y ∷ ys) = false
same_segments (x ∷ xs) [] = false
same_segments (x ∷ xs) (y ∷ ys) = same_bytes x y && same_segments xs ys

unfoldable pub ends_with : NamePath → NamePath → Bool
ends_with path other =
    if ltb path.len other.len
    then false
    else same_segments (take other.len (drop (path.len - other.len) path.slots))
        (take other.len other.slots)

-- How many bytes stand up to the last one that is not the filler `_`.
abbrev pub trimmed : NameSeg → ℕ
trimmed [] = 0
trimmed (byte ∷ later) =
    let behind = trimmed later in if ltb 0 behind then suc behind else if byte == b'_' then 0 else 1

abbrev pub shown : NameSeg → List ℕ
shown segment = take (max (trimmed segment) 1) segment

-- Writing at the end of an output of `room` bytes: what does not fit is left out.
abbrev pub put : ℕ → List ℕ → ℕ → List ℕ
put room out byte = if ltb (length out) room then out ++ (byte ∷ []) else out

abbrev pub put_all : ℕ → List ℕ → List ℕ → List ℕ
put_all room out [] = out
put_all room out (byte ∷ bytes) = put_all room (put room out byte) bytes

abbrev pub put_segments : ℕ → List ℕ → Bool → List NameSeg → List ℕ
put_segments room out first [] = out
put_segments room out first (segment ∷ later) =
    let separated = if first then out else put room out b'.' in
    put_segments room (put_all room separated (shown segment)) false later

-- The bytes that `Path::render` writes to an output of `room` bytes.
unfoldable pub render : ℕ → NamePath → List ℕ
render room path = put_segments room (put room [] b'\\') true (segments path)

-- What `parse_path` holds between two bytes: the path so far and the open segment.
pub record PathState : Type 0 where
  pub path : NamePath
  pub segment : NameSeg
  pub filled : ℕ

pub data PathStep : Type 0 where
  goes_on : PathState → PathStep
  ends refuses : PathStep

abbrev pub path_start : PathState
path_start = record { path = root; segment = blank; filled = 0 }

-- What a dot does: it closes the open segment.
abbrev pub close_segment : PathState → PathStep
close_segment state =
    let pushed = push_segment state.path state.segment in
    if state.filled == 0
    then refuses
    else if pushed.1
    then goes_on (record { path = pushed.0; segment = blank; filled = 0 })
    else refuses

-- One round of the loop over the text.
unfoldable pub path_step : PathState → ℕ → PathStep
unfolding push_segment
path_step state byte =
    if (byte == b'\\') || (byte == b'^')
    then goes_on state
    else if byte == b'.'
    then close_segment state
    else if byte == 0
    then ends
    else if state.filled == 4
    then refuses
    else goes_on
        (record state { segment = set state.segment state.filled byte; filled = state.filled + 1 })

-- What stands behind the loop.
unfoldable pub finish_path : PathState → Option NamePath
unfolding push_segment
finish_path state =
    let pushed = push_segment state.path state.segment in
    let path = if ltb 0 state.filled then pushed.0 else state.path in
    if ltb 0 state.filled && not pushed.1 then none else if path.len == 0 then none else some path

unfoldable pub parse_from : PathState → List ℕ → Option NamePath
unfolding path_step finish_path
parse_from state [] = finish_path state
parse_from state (byte ∷ text) = elim (path_step state byte) [
  | goes_on next ↦ parse_from next text
  | ends ↦ finish_path state
  | refuses ↦ none
]

unfoldable pub parse_path : List ℕ → Option NamePath
parse_path = parse_from path_start
