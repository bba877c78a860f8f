-- ===== src/Aml/Buffers/Agree.antt =====
-- The declared buffers name one bus, on which all of them agree.
use nanochronometer.Common.{ℕ, ◌≡◌, Bool, true, false, List, [], ◌∷◌, ◌++◌, Option, none, some}
use nanochronometer.Aml.Resources.{Resource}
use nanochronometer.Aml.Buffers.{DeviceResources, Provenance, entries, Seen, note_all, agreed_on}

-- What was seen has resources: no conflict, their bus and their interrupt.
pub record Standing (seen : Seen) (resources : DeviceResources) : Type 0 where
  calm : seen.conflicting ≡ false
  known : seen.bus ≡ some resources.bus
  first : seen.interrupt ≡ resources.interrupt

abbrev conclude : Option Seen → Option (DeviceResources × Provenance)
conclude none = none
conclude (some seen) = agreed_on seen

-- The visitor that keeps every buffer.
abbrev pub keep_buffer : List (List ℕ) → List ℕ → List (List ℕ) × Bool
keep_buffer kept buffer = (kept ++ (buffer ∷ []), true)

-- The descriptors of several buffers.
abbrev pub entries_of : List (List ℕ) → List Resource
entries_of [] = []
entries_of (buffer ∷ buffers) = entries buffer ++ entries_of buffers

module _ (code : List ℕ) where
  -- A run of the noting visitor against one that keeps the buffers.
  abbrev Kept : Seen → Seen → List (List ℕ) → Option (List (List ℕ)) → Type 0
  Kept s after kept run =
      (buffers : List (List ℕ)) × (run ≡ some (kept ++ buffers))
      × (after ≡ note_all (entries_of buffers) s)
