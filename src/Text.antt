-- ===== src/Text.antt =====
-- crates/nanochrono-baremetal/src/text.rs: texts of a fixed size, and the figures written into
-- them. A method returns the new text.
pub mod Written
pub mod Figures
mod Runs
use nanochronometer.Common.{
  ℕ, zero, suc, ◌+◌, ◌-◌, ◌*◌, ◌/◌, ◌%◌, ◌^◌, Bool, List, [], ◌∷◌, length, take, set, replicate,
  ltb, leb, get_or, ◌&&◌, ◌==◌, if◌then◌else◌,
}

-- `Text<N>`, whose buffer has N bytes.
pub record Text : Type 0 where
  pub buf : List ℕ
  pub len : ℕ

abbrev pub new : ℕ → Text
new n = record { buf = replicate n 0; len = 0 }

abbrev pub clear : Text → Text
clear t = record t { len = 0 }

abbrev pub is_empty : Text → Bool
is_empty t = t.len == 0

abbrev pub has_room_for : ℕ → Text → Bool
has_room_for bytes t = leb (t.len + bytes) (length t.buf)

-- `as_str`, whose bytes are ASCII.
abbrev pub as_str : Text → List ℕ
as_str t = take t.len t.buf

unfoldable pub push : ℕ → Text → Text
push byte t =
    if ltb t.len (length t.buf) then record { buf = set t.buf t.len byte; len = t.len + 1 } else t

unfoldable pub str : List ℕ → Text → Text
str [] t = t
str (byte ∷ later) t = str later (push byte t)

-- The scratch digits, the lowest first, of which there is room for `room`.
unfoldable pub scratch : ℕ → ℕ → List ℕ
scratch zero value = []
scratch (suc room) value =
    let higher = scratch room (value / 10) in
    (b'0' + value % 10) ∷ (if value / 10 == 0 then [] else higher)

-- The scratch from its end.
unfoldable pub push_reversed : List ℕ → Text → Text
push_reversed [] t = t
push_reversed (digit ∷ higher) t = push digit (push_reversed higher t)

unfoldable pub pad : ℕ → ℕ → Text → Text
pad value width t =
    let digits = scratch 20 value in
    push_reversed digits (str (replicate (width - length digits) b'0') t)

unfoldable pub num : ℕ → Text → Text
num value t = pad value 1 t

-- `10u64.pow` stays below 2 ^ 64 for the callers' one and three decimals.
unfoldable pub fixed : ℕ → ℕ → Text → Text
fixed scaled decimals t =
    let divisor = 10 ^ decimals in
    let whole = num (scaled / divisor) t in
    if ltb 0 decimals then pad (scaled % divisor) decimals (push b'.' whole) else whole

unfoldable pub duration : ℕ → Bool → Text
duration ns nanoseconds =
    let seconds = ns / 1_000_000_000 in
    let fraction = ns % 1_000_000_000 in
    let hours = push b':' (pad (seconds / 3600) 2 (new 24)) in
    let minutes = push b':' (pad (seconds / 60 % 60) 2 hours) in
    let clock = push b':' (pad (seconds % 60) 2 minutes) in
    let milli = pad (fraction / 1_000_000) 3 clock in
    let micro = push b':' (pad (fraction / 1_000 % 1_000) 3 (push b':' milli)) in
    if nanoseconds then pad (fraction % 1_000) 3 micro else milli

abbrev pub units : List (List ℕ)
units =
    (b'B' ∷ [])
    ∷ (b'K' ∷ b'B' ∷ [])
    ∷ (b'M' ∷ b'B' ∷ [])
    ∷ (b'G' ∷ b'B' ∷ [])
    ∷ (b'T' ∷ b'B' ∷ [])
    ∷ []

-- The loop's unit, which rises at most to the last.
unfoldable pub scale : ℕ → ℕ → ℕ → ℕ
scale zero unit scaled = unit
scale (suc left) unit scaled =
    let higher = scale left (unit + 1) (scaled / 1024) in
    if leb 1024 scaled && ltb (unit + 1) (length units) then higher else unit

-- The product wraps, as in a release build.
unfoldable pub bytes : ℕ → Text
bytes value =
    let unit = scale 5 0 value in
    let tenths = value * 10 % 2 ^ 64 / 1024 ^ unit in
    let figure = if ltb tenths 1000 then fixed tenths 1 (new 16) else num (tenths / 10) (new 16) in
    if unit == 0
    then str (b' ' ∷ b'B' ∷ []) (num value (new 16))
    else str (get_or units unit []) (push b' ' figure)

unfoldable pub frequency : ℕ → Text
frequency hz =
    if leb 1_000_000_000 hz
    then str (b' ' ∷ b'G' ∷ b'H' ∷ b'z' ∷ []) (fixed (hz / 1_000_000) 3 (new 16))
    else if leb 1_000_000 hz
    then str (b' ' ∷ b'M' ∷ b'H' ∷ b'z' ∷ []) (fixed (hz / 1_000) 3 (new 16))
    else str (b' ' ∷ b'H' ∷ b'z' ∷ []) (num hz (new 16))
