-- ===== src/Aml/Cursor.antt =====
-- crates/nanochrono-core/src/aml.rs: the cursor over the bytecode. The bytes stay the same, so that
-- a cursor is its position; a read that fails leaves the position where it came to, since callers
-- go on from there.
pub mod Within
pub mod Little
use nanochronometer.Common.{
  ℕ, zero, suc, ◌+◌, ◌-◌, ◌*◌, ◌/◌, ◌%◌, ◌^◌, Bool, true, false, not, ◌&&◌, ◌||◌, List, [], ◌∷◌,
  Option, none, some, length, get_elem?, take, drop, ltb, ◌==◌, if◌then◌else◌, bit_and, bit_or,
}
use nanochronometer.Aml.Names.{Span, NamePath, root, NameSeg, push_segment}

-- A read's answer with the position behind it, its failure with the position it came to, or the
-- end of the model's fuel, which has no counterpart in the program.
pub data Read {ℓ} (A : Type ℓ) : Type ℓ where
  read : A → ℕ → Read A
  failed : ℕ → Read A
  out_of_fuel : Read A

abbrev pub Reader {ℓ} : Type ℓ → Type ℓ
Reader A = ℕ → Read A

module _ {ℓ κ} {A : Type ℓ} {B : Type κ} where
  abbrev pub bind : Read A → (A → Reader B) → Read B
  bind (read a at) f = f a at
  bind (failed at) f = failed at
  bind out_of_fuel f = out_of_fuel

  infixl 1 ◌>>=◌ ◌>>◌
  abbrev pub ◌>>=◌ : Reader A → (A → Reader B) → Reader B
  m >>= f = λ at. bind (m at) f

  abbrev pub ◌>>◌ : Reader A → Reader B → Reader B
  m >> n = m >>= λ _. n

abbrev pub pure {ℓ} : {A : Type ℓ} → A → Reader A
pure a at = read a at

abbrev pub fail {ℓ} : {A : Type ℓ} → Reader A
fail at = failed at

-- `?` on an option that no read made.
abbrev pub lift {ℓ} : {A : Type ℓ} → Option A → Reader A
lift none at = failed at
lift (some a) at = read a at

-- `cursor.at`
abbrev pub position : Reader ℕ
position at = read at at

-- `cursor.at = there`
abbrev pub move_to : ℕ → Reader (Unit {0})
move_to there at = read tt there

-- `cursor.at += count`
abbrev pub advance : ℕ → Reader (Unit {0})
advance count at = read tt (at + count)

-- `for _ in 0..count { reader }`
abbrev pub times : ℕ → Reader (Unit {0}) → Reader (Unit {0})
times zero reader = pure tt
times (suc count) reader = reader >> times count reader

-- `value |= byte << (8 * i)` over the bytes from byte `i` on.
abbrev pub little_endian : ℕ → List ℕ → ℕ → ℕ
little_endian i [] value = value
little_endian i (byte ∷ later) value =
    little_endian (i + 1) later (bit_or value (byte * 2 ^ (8 * i)))

-- `while self.peek() == Some(b'^')`: how many carets stand in front.
abbrev pub carets : List ℕ → ℕ
carets [] = 0
carets (byte ∷ later) = let more = carets later in if byte == b'^' then suc more else 0

module _ (code : List ℕ) where
  abbrev pub peek : Reader ℕ
  peek at = lift (get_elem? code at) at

  abbrev pub byte : Reader ℕ
  byte = do b ← peek; advance 1; pure b

  unfoldable pub take_bytes : ℕ → Reader (List ℕ)
  take_bytes count at =
      if ltb (length code) (at + count)
      then failed at
      else read (take count (drop at code)) (at + count)

  -- Little-endian, as the tables are on every target this runs on.
  unfoldable pub integer : ℕ → Reader ℕ
  unfolding take_bytes
  integer bytes = do slice ← take_bytes bytes; pure (little_endian 0 slice 0)

  -- The following bytes of a package length, each above the bits so far.
  unfoldable pub follow_bytes : ℕ → ℕ → ℕ → Reader ℕ
  follow_bytes zero i value = pure value
  follow_bytes (suc left) i value = do
    b ← byte
    follow_bytes left (i + 1) (bit_or value (b * 2 ^ (4 + 8 * i)))

  unfoldable pub package_length : ℕ → Reader ℕ
  unfolding follow_bytes
  package_length lead =
      let follow = lead / 2 ^ 6 in
      if follow == 0 then pure (bit_and lead 0x3F) else follow_bytes follow 0 (bit_and lead 0x0F)

  -- The span behind a package length, which counts from its own first byte.
  unfoldable pub package_from : ℕ → ℕ → Reader Span
  package_from start total at =
      let end = start + total in
      if ltb (length code) end || ltb end at
      then failed at
      else read (record { start = at; end = end }) at

  unfoldable pub package_span : Reader Span
  unfolding package_length package_from
  package_span = do
    start ← position
    lead ← byte
    total ← package_length lead
    package_from start total

  -- The characters in front of a name; a leading backslash makes it absolute.
  unfoldable pub prefix : ℕ → Reader Bool
  prefix lead at =
      if lead == b'\\'
      then read true (at + 1)
      else if lead == b'^'
      then read false (at + carets (drop at code))
      else read false at

  -- One segment more. Where `checked`, a path that is full ends the read.
  unfoldable pub segment : Bool → NamePath → Reader NamePath
  unfolding take_bytes push_segment
  segment checked path = do
    seg ← take_bytes 4
    let pushed = push_segment path seg
    if checked && not pushed.1 then fail else pure pushed.0

  unfoldable pub segments_of : Bool → ℕ → NamePath → Reader NamePath
  unfolding segment
  segments_of checked zero path = pure path
  segments_of checked (suc count) path = do
    longer ← segment checked path
    segments_of checked count longer

  -- The segments behind the prefix, by the byte they begin with.
  unfoldable pub name_body : ℕ → Reader NamePath
  unfolding segments_of
  name_body lead =
      if lead == 0x00
      then (do advance 1; pure root)
      else if lead == 0x2E
      then (do advance 1; segments_of false 2 root)
      else if lead == 0x2F
      then (do advance 1; count ← byte; segments_of true count root)
      else segment false root

  -- A NameString, and whether it is absolute.
  unfoldable pub name : Reader (NamePath × Bool)
  unfolding prefix name_body
  name = do
    first ← peek
    absolute ← prefix first
    second ← peek
    path ← name_body second
    pure (path, absolute)
