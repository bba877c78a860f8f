-- ===== src/Backend/Runs.antt =====
-- Backends at concrete inputs: tests, and the theorems applied.
use nanochronometer.Common.{◌≡◌, refl, true, false, some, none}
use nanochronometer.Format.{codes}
use nanochronometer.Backend.{
  CpuFeatures, parse, is_available_with, resolve, best, avx2, avx512, legacy, x86_64, x86,
}
use nanochronometer.Backend.Choice.{resolve-is_available}

-- A CPU with the SSE families and AVX2.
abbrev desktop : CpuFeatures
desktop = record {
  mmx = true;
  sse = true;
  sse2 = true;
  sse3 = true;
  ssse3 = true;
  sse41 = true;
  sse42 = true;
  aesni = true;
  pclmulqdq = true;
  shani = false;
  avx = true;
  f16c = false;
  fma = false;
  avx2 = true;
  avx_vnni = false;
  vaes = false;
  avx512f = false;
  avx512bw = false;
  avx512vl = false;
  avx512vnni = false;
  neon = false;
  sve = false;
  sve2 = false;
  sme = false;
  arm_aes = false;
  arm_sha2 = false;
  invariant_counter = true;
}

resolve-is_available_example :
    (is_available_with x86_64 desktop (resolve x86_64 desktop avx512) ≡ true)
    × (is_available_with x86_64 desktop avx512 ≡ true → resolve x86_64 desktop avx512 ≡ avx512)
resolve-is_available_example = resolve-is_available x86_64 desktop avx512

best_of_desktop : (best x86_64 desktop ≡ avx2) × (best x86 desktop ≡ legacy)
unfolding best
best_of_desktop = (refl, refl)

loose_spelling : (parse (codes "  AVX_512 ") ≡ some avx512) × (parse (codes "avx3") ≡ none)
unfolding parse
loose_spelling = (refl, refl)
