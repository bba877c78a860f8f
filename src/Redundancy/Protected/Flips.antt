-- ===== src/Redundancy/Protected/Flips.antt =====
-- What `inject_flip` does to each part of a protected word, in terms of the code.
use nanochronometer.Common.{
  ℕ, ◌+◌, ◌-◌, ◌^◌, ◌≤◌, ◌<◌, bit_xor, ◌≡◌, refl, arith, ◌⊎◌, inl, inr, some,
}
use nanochronometer.Common.Bits.{bit_xor-zero}
use nanochronometer.Redundancy.Code.{Decoded, check_bits, decode}
use nanochronometer.Redundancy.Code.Flips.{data_flip, check_flip, reported_bit, decode_flip}
use nanochronometer.Redundancy.Protected.{
  Replica, new_replica, candidate, Protected, inject_flip, flip_value, flip_check,
}

-- A flip of the primary codeword is an error of the code.
pub primary_flip :
    (p : Protected) (bit : ℕ)
    → bit < 72
    → inject_flip p bit ≡ record p {
      value = bit_xor p.value (data_flip bit);
      check = bit_xor p.check (check_flip bit);
    }
unfolding inject_flip
primary_flip p bit h = ground (arith, bit_xor-zero p.value, bit_xor-zero p.check)

pub out_of_range_flip : (p : Protected) (bit : ℕ) → 216 ≤ bit → inject_flip p bit ≡ p
unfolding inject_flip
out_of_range_flip p bit h = ground arith

data_bit_decoded :
    (v bit : ℕ) → bit < 64 → decode (bit_xor v (2 ^ bit)) (check_bits v) ≡ Decoded.corrected v bit
data_bit_decoded v bit h =
    ground (arith, decode_flip v bit (omega arith), bit_xor-zero (check_bits v))

check_bit_decoded :
    (v bit : ℕ)
    → bit < 8
    → decode v (bit_xor (check_bits v) (2 ^ bit)) ≡ Decoded.corrected v (reported_bit (64 + bit))
check_bit_decoded v bit h = ground (arith, decode_flip v (64 + bit) (omega arith), bit_xor-zero v)

-- The bits of the first replica and of the second, in the numbering of `inject_flip`.
abbrev pub IsFirstReplicaBit : ℕ → Type 0
IsFirstReplicaBit bit = (72 ≤ bit) × (bit ≤ 135) ⊎ (200 ≤ bit) × (bit ≤ 207)

abbrev pub IsSecondReplicaBit : ℕ → Type 0
IsSecondReplicaBit bit = (136 ≤ bit) × (bit ≤ 199) ⊎ (208 ≤ bit) × (bit ≤ 215)

-- A flip of a replica's bit, by the word or check byte that it hits.
first_value_flip :
    (p : Protected) (bit : ℕ)
    → 72 ≤ bit
    → bit ≤ 135
    → inject_flip p bit ≡ record p { replicas = (flip_value p.replicas.0 (bit - 72), p.replicas.1) }
unfolding inject_flip
first_value_flip p bit lo hi = ground arith

first_check_flip :
    (p : Protected) (bit : ℕ)
    → 200 ≤ bit
    → bit ≤ 207
    → inject_flip p bit
      ≡ record p { replicas = (flip_check p.replicas.0 (bit - 200), p.replicas.1) }
unfolding inject_flip
first_check_flip p bit lo hi = ground arith

second_value_flip :
    (p : Protected) (bit : ℕ)
    → 136 ≤ bit
    → bit ≤ 199
    → inject_flip p bit
      ≡ record p { replicas = (p.replicas.0, flip_value p.replicas.1 (bit - 136)) }
unfolding inject_flip
second_value_flip p bit lo hi = ground arith

second_check_flip :
    (p : Protected) (bit : ℕ)
    → 208 ≤ bit
    → bit ≤ 215
    → inject_flip p bit
      ≡ record p { replicas = (p.replicas.0, flip_check p.replicas.1 (bit - 208)) }
unfolding inject_flip
second_check_flip p bit lo hi = ground arith

-- A replica with one flipped bit still speaks for the word.
value_flip_candidate :
    (r : Replica) (v bit : ℕ) → r ≡ new_replica v → bit < 64 → candidate (flip_value r bit) ≡ some v
value_flip_candidate r v bit e h = rw e (rw (data_bit_decoded v bit h))

check_flip_candidate :
    (r : Replica) (v bit : ℕ) → r ≡ new_replica v → bit < 8 → candidate (flip_check r bit) ≡ some v
check_flip_candidate r v bit e h = rw e (rw (check_bit_decoded v bit h))

pub first_replica_flip :
    (p : Protected) (v bit : ℕ)
    → p.replicas.0 ≡ new_replica v
    → IsFirstReplicaBit bit
    → (candidate (inject_flip p bit).replicas.0 ≡ some v)
      × ((inject_flip p bit).replicas.1 ≡ p.replicas.1)
      × ((inject_flip p bit).value ≡ p.value)
      × ((inject_flip p bit).check ≡ p.check)
first_replica_flip p v bit e (inl h) =
    rw (first_value_flip p bit h.0 h.1)
      (value_flip_candidate p.replicas.0 v (bit - 72) e (omega arith), refl, refl, refl)
first_replica_flip p v bit e (inr h) =
    rw (first_check_flip p bit h.0 h.1)
      (check_flip_candidate p.replicas.0 v (bit - 200) e (omega arith), refl, refl, refl)

pub second_replica_flip :
    (p : Protected) (v bit : ℕ)
    → p.replicas.1 ≡ new_replica v
    → IsSecondReplicaBit bit
    → (candidate (inject_flip p bit).replicas.1 ≡ some v)
      × ((inject_flip p bit).replicas.0 ≡ p.replicas.0)
      × ((inject_flip p bit).value ≡ p.value)
      × ((inject_flip p bit).check ≡ p.check)
second_replica_flip p v bit e (inl h) =
    rw (second_value_flip p bit h.0 h.1)
      (value_flip_candidate p.replicas.1 v (bit - 136) e (omega arith), refl, refl, refl)
second_replica_flip p v bit e (inr h) =
    rw (second_check_flip p bit h.0 h.1)
      (check_flip_candidate p.replicas.1 v (bit - 208) e (omega arith), refl, refl, refl)
