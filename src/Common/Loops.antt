-- ===== src/Common/Loops.antt =====
-- Counted loops: recursion on the rounds left, with the loop's own counter.
use Prim.Native.Nat.{ℕ, zero, suc, ◌+◌, ◌<◌}
use mathlib.Core.Path.{◌≡◌}
use mathlib.Core.Bool.{Bool, true, ◌&&◌}
use native.Mathlib.Omega.{arith}

-- `for k in k..k + left { state = round(k, state) }`
abbrev pub for_range {ℓ} : {State : Type ℓ} → ℕ → ℕ → (ℕ → State → State) → State → State
for_range zero k round state = state
for_range (suc left) k round state = for_range left (k + 1) round (round k state)

-- A test of every number below a limit, for tables.
unfoldable pub all_below : ℕ → (ℕ → Bool) → Bool
all_below zero test = true
all_below (suc limit) test = test limit && all_below limit test

pub all_below_sound :
    (limit : ℕ) (test : ℕ → Bool) (k : ℕ) → all_below limit test ≡ true → k < limit → test k ≡ true
unfolding all_below
all_below_sound zero test k passed below = absurd (omega arith)
all_below_sound (suc limit) test k passed below = ground (arith, all_below_sound limit test k)
