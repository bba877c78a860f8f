-- ===== src/Backend.antt =====
-- crates/nanochrono-core/src/backend.rs: the counter backends. The target architecture of the
-- build and the features that the CPU reports (crates/nanochrono-core/src/cpu.rs) are arguments. A
-- name is the list of its bytes, all ASCII, so that trimming takes the ASCII blanks.
pub mod Choice
mod Runs
use nanochronometer.Common.{
  ℕ, ◌+◌, Bool, true, false, ◌&&◌, ◌||◌, List, [], ◌∷◌, ◌++◌, Option, none, some, map, leb, ◌==◌,
  if◌then◌else◌,
}
use nanochronometer.Format.{codes}
use Prim.Native.String.{String}

pub data Backend : Type 0 where
  legacy avx mmx sse sse2 sse3 ssse3 sse41 sse42 f16c fma avx2 avx_vnni avx512 avx512_vnni neon sve
        sve2 sme :
      Backend

pub data Architecture : Type 0 where
  x86 x86_64 aarch64 : Architecture

pub record CpuFeatures : Type 0 where
  pub mmx : Bool
  pub sse : Bool
  pub sse2 : Bool
  pub sse3 : Bool
  pub ssse3 : Bool
  pub sse41 : Bool
  pub sse42 : Bool
  pub aesni : Bool
  pub pclmulqdq : Bool
  pub shani : Bool
  pub avx : Bool
  pub f16c : Bool
  pub fma : Bool
  pub avx2 : Bool
  pub avx_vnni : Bool
  pub vaes : Bool
  pub avx512f : Bool
  pub avx512bw : Bool
  pub avx512vl : Bool
  pub avx512vnni : Bool
  pub neon : Bool
  pub sve : Bool
  pub sve2 : Bool
  pub sme : Bool
  pub arm_aes : Bool
  pub arm_sha2 : Bool
  pub invariant_counter : Bool

unfoldable pub name : Backend → String
name legacy = "legacy-asm"
name mmx = "mmx"
name sse = "sse"
name sse2 = "sse2"
name sse3 = "sse3"
name ssse3 = "ssse3"
name sse41 = "sse4.1"
name sse42 = "sse4.2"
name avx = "avx"
name f16c = "f16c"
name fma = "fma"
name avx2 = "avx2"
name avx_vnni = "avx-vnni"
name avx512 = "avx-512"
name avx512_vnni = "avx-512-vnni"
name neon = "neon"
name sve = "sve"
name sve2 = "sve2"
name sme = "sme"

-- `s.trim().to_ascii_lowercase().replace(['_', ' '], "-")`
abbrev pub is_blank : ℕ → Bool
is_blank c = (leb 9 c && leb c 13) || (c == b' ')

abbrev pub trim_start : List ℕ → List ℕ
trim_start [] = []
trim_start (c ∷ text) = let rest = trim_start text in if is_blank c then rest else c ∷ text

abbrev pub all_blank : List ℕ → Bool
all_blank [] = true
all_blank (c ∷ text) = is_blank c && all_blank text

abbrev pub trim_end : List ℕ → List ℕ
trim_end [] = []
trim_end (c ∷ text) = let rest = trim_end text in if all_blank (c ∷ text) then [] else c ∷ rest

abbrev pub to_ascii_lowercase : ℕ → ℕ
to_ascii_lowercase c = if leb b'A' c && leb c b'Z' then c + 32 else c

abbrev pub dash : ℕ → ℕ
dash c = if (c == b'_') || (c == b' ') then b'-' else c

unfoldable pub normalise : List ℕ → List ℕ
normalise text = map (λ c. dash (to_ascii_lowercase c)) (trim_end (trim_start text))

abbrev pub same_text : List ℕ → List ℕ → Bool
same_text [] [] = true
same_text [] (d ∷ t) = false
same_text (c ∷ s) [] = false
same_text (c ∷ s) (d ∷ t) = (c == d) && same_text s t

-- The arms of the match, in order.
abbrev pub spellings : List (String × Backend)
spellings =
    ("legacy", legacy)
    ∷ ("legacy-asm", legacy)
    ∷ ("scalar", legacy)
    ∷ ("asm-scalar", legacy)
    ∷ ("mmx", mmx)
    ∷ ("sse", sse)
    ∷ ("sse2", sse2)
    ∷ ("sse3", sse3)
    ∷ ("ssse3", ssse3)
    ∷ ("sse41", sse41)
    ∷ ("sse4.1", sse41)
    ∷ ("sse4-1", sse41)
    ∷ ("sse42", sse42)
    ∷ ("sse4.2", sse42)
    ∷ ("sse4-2", sse42)
    ∷ ("avx", avx)
    ∷ ("f16c", f16c)
    ∷ ("fma", fma)
    ∷ ("avx2", avx2)
    ∷ ("avx-vnni", avx_vnni)
    ∷ ("avxvnni", avx_vnni)
    ∷ ("avx512", avx512)
    ∷ ("avx-512", avx512)
    ∷ ("avx512vnni", avx512_vnni)
    ∷ ("avx-512-vnni", avx512_vnni)
    ∷ ("avx512-vnni", avx512_vnni)
    ∷ ("neon", neon)
    ∷ ("sve", sve)
    ∷ ("sve2", sve2)
    ∷ ("sme", sme)
    ∷ []

unfoldable pub look_up : List (String × Backend) → List ℕ → Option Backend
look_up [] text = none
look_up ((spelling, b) ∷ arms) text =
    let later = look_up arms text in if same_text text (codes spelling) then some b else later

unfoldable pub parse : List ℕ → Option Backend
unfolding look_up normalise
parse text = look_up spellings (normalise text)

unfoldable pub reports : CpuFeatures → Backend → Bool
reports f legacy = true
reports f mmx = f.mmx
reports f sse = f.sse
reports f sse2 = f.sse2
reports f sse3 = f.sse3
reports f ssse3 = f.ssse3
reports f sse41 = f.sse41
reports f sse42 = f.sse42
reports f avx = f.avx
reports f f16c = f.f16c
reports f fma = f.fma
reports f avx2 = f.avx2
reports f avx_vnni = f.avx_vnni
reports f avx512 = f.avx512f
reports f avx512_vnni = f.avx512vnni
reports f neon = f.neon
reports f sve = f.sve
reports f sve2 = f.sve2
reports f sme = f.sme

-- `cfg!(target_arch = "x86")`
unfoldable pub has_kernel : Architecture → Backend → Bool
has_kernel x86 legacy = true
has_kernel x86 avx = false
has_kernel x86 mmx = false
has_kernel x86 sse = false
has_kernel x86 sse2 = false
has_kernel x86 sse3 = false
has_kernel x86 ssse3 = false
has_kernel x86 sse41 = false
has_kernel x86 sse42 = false
has_kernel x86 f16c = false
has_kernel x86 fma = false
has_kernel x86 avx2 = false
has_kernel x86 avx_vnni = false
has_kernel x86 avx512 = false
has_kernel x86 avx512_vnni = false
has_kernel x86 neon = false
has_kernel x86 sve = false
has_kernel x86 sve2 = false
has_kernel x86 sme = false
has_kernel x86_64 b = true
has_kernel aarch64 b = true

unfoldable pub is_available_with : Architecture → CpuFeatures → Backend → Bool
unfolding has_kernel reports
is_available_with arch f b = has_kernel arch b && reports f b

abbrev pub x86_order : List Backend
x86_order =
    avx512_vnni ∷ avx512 ∷ avx_vnni ∷ avx2 ∷ fma ∷ f16c ∷ avx ∷ sse42 ∷ sse41 ∷ ssse3 ∷ sse3 ∷ sse2
    ∷ sse ∷ mmx ∷ []

abbrev pub arm_order : List Backend
arm_order = sme ∷ sve2 ∷ sve ∷ neon ∷ []

abbrev pub order_of : Architecture → List Backend
order_of aarch64 = arm_order
order_of x86 = x86_order
order_of x86_64 = x86_order

-- `order.iter().copied().find(...).unwrap_or(Backend::Legacy)`
unfoldable pub first_available : (Backend → Bool) → List Backend → Backend
first_available ok [] = legacy
first_available ok (b ∷ order) = let later = first_available ok order in if ok b then b else later

unfoldable pub best : Architecture → CpuFeatures → Backend
unfolding first_available is_available_with
best arch f = first_available (is_available_with arch f) (order_of arch)

unfoldable pub resolve : Architecture → CpuFeatures → Backend → Backend
unfolding best
resolve arch f b = if is_available_with arch f b then b else best arch f

abbrev pub all_backends : List Backend
all_backends =
    legacy ∷ mmx ∷ sse ∷ sse2 ∷ sse3 ∷ ssse3 ∷ sse41 ∷ sse42 ∷ avx ∷ f16c ∷ fma ∷ avx2 ∷ avx_vnni
    ∷ avx512 ∷ avx512_vnni ∷ neon ∷ sve ∷ sve2 ∷ sme ∷ []
