-- ===== src/Redundancy/Code.antt =====
-- The Hamming(72,64) code of crates/nanochrono-core/src/redundancy.rs. A `u64` is a number below
-- 2^64 and a `u8` one below 2^8; `1 << k` is `2 ^ k`.
pub mod Linear
pub mod Errors
pub mod Flips
use nanochronometer.Common.{
  ℕ, zero, suc, ◌+◌, ◌-◌, ◌*◌, ◌/◌, ◌%◌, ◌^◌, bit_and, bit_or, bit_xor, Bool, ◌||◌, not, List,
  Option, none, some, ltb, leb, ◌==◌, if◌then◌else◌, get_or, set, replicate, for_range,
}
use nanochronometer.Common.Bits.{count_ones}

abbrev pub codeword_len : ℕ
codeword_len = 71

-- `u32::is_power_of_two`: exactly one bit is set.
unfoldable pub is_parity_position : ℕ → Bool
unfolding count_ones
is_parity_position position = count_ones 32 position == 1

-- The loop of `data_position` with the rounds left up to `CODEWORD_LEN`.
unfoldable pub data_position_loop : ℕ → ℕ → ℕ → ℕ → ℕ
data_position_loop zero position seen index = 0
data_position_loop (suc rounds) position seen index =
    let skip = data_position_loop rounds (position + 1) seen index in
    let next = data_position_loop rounds (position + 1) (seen + 1) index in
    if is_parity_position position then skip else if seen == index then position else next

unfoldable pub data_position : ℕ → ℕ
unfolding data_position_loop is_parity_position
data_position index = data_position_loop codeword_len 1 0 index

abbrev pub set_mask_bit : ℕ → ℕ → ℕ → List ℕ → List ℕ
set_mask_bit position index k masks =
    if bit_and position (2 ^ k) == 0
    then masks
    else set masks k (bit_or (get_or masks k 0) (2 ^ index))

unfoldable pub build_parity_masks : List ℕ
unfolding data_position
build_parity_masks =
    for_range 64 0
      (λ index masks.
        let position = data_position index in for_range 7 0 (set_mask_bit position index) masks)
      (replicate 7 0)

-- `for p in 1..position { if !is_parity_position(p) { index += 1 } }`
unfoldable pub data_bits_before : ℕ → ℕ
unfolding is_parity_position
data_bits_before position =
    for_range (position - 1) 1 (λ p index. if is_parity_position p then index else index + 1) 0

unfoldable pub position_to_data_index : ℕ → Option ℕ
unfolding data_bits_before is_parity_position
position_to_data_index position =
    if position == 0 || (ltb codeword_len position || is_parity_position position)
    then none
    else some (data_bits_before position)

abbrev pub hamming_step : List ℕ → ℕ → ℕ → ℕ → ℕ
hamming_step masks word k parity =
    bit_or parity (bit_and (count_ones 64 (bit_and word (get_or masks k 0))) 1 * 2 ^ k)

unfoldable pub hamming_parities : ℕ → ℕ
unfolding build_parity_masks
hamming_parities word = for_range 7 0 (hamming_step build_parity_masks word) 0

unfoldable pub check_bits : ℕ → ℕ
unfolding hamming_parities
check_bits word =
    let parity = hamming_parities word in
    let overall = (count_ones 64 word + count_ones 8 parity) % 2 in bit_or parity (overall * 2 ^ 7)

-- `Corrected { data, bit }`
pub data Decoded : Type 0 where
  clean : Decoded
  corrected : ℕ → ℕ → Decoded
  double_error : Decoded

-- The arm of `decode` for a single flip at the codeword position that the syndrome names.
unfoldable pub correct_at : ℕ → ℕ → Decoded
unfolding position_to_data_index
correct_at word position = elim (position_to_data_index position) [
  | some index ↦ corrected (bit_xor word (2 ^ index)) index
  | none ↦ corrected word (64 + position)
]

-- The match on the syndrome and on whether the overall parity differs.
unfoldable pub classify : ℕ → ℕ → Bool → Decoded
unfolding correct_at
classify word syndrome overall_differs =
    if overall_differs
    then (if syndrome == 0 then corrected word 72 else correct_at word syndrome)
    else if syndrome == 0
    then clean
    else double_error

unfoldable pub decode : ℕ → ℕ → Decoded
unfolding hamming_parities classify
decode word stored =
    let stored_parities = bit_and stored 0x7f in
    let stored_overall = bit_and (stored / 2 ^ 7) 1 in
    let syndrome = bit_xor (hamming_parities word) stored_parities in
    let received_overall = (count_ones 64 word + count_ones 8 stored_parities) % 2 in
    classify word syndrome (not (received_overall == stored_overall))
