-- ===== src/Txroot/Merkle/Carry.antt =====
-- What adding 1 does to the bits of a number: the loop of `merge` walks along the carry.
use native.Mathlib.Decide.{dec_lt, ℕ_discrete}
use mev_boost.Common.{ℕ, zero, suc, ◌+◌, ◌/◌, ◌%◌, ◌^◌, ◌<◌, ◌≡◌, true, false, arith}
use mev_boost.Common.Powers.{div_pow_suc}
use mev_boost.Txroot.Merkle.{bit_clear}

pub bit_clear→even : (i j : ℕ) → bit_clear i j ≡ true → i / 2 ^ j % 2 ≡ 0
bit_clear→even i j h = ground arith

pub bit_clear→odd : (i j : ℕ) → bit_clear i j ≡ false → i / 2 ^ j % 2 ≡ 1
bit_clear→odd i j h = ground arith

pub even→bit_clear : (i j : ℕ) → i / 2 ^ j % 2 ≡ 0 → bit_clear i j ≡ true
even→bit_clear i j h = ground arith

-- The carry of i + 1 has reached the bit j.
pub record Carries (i j : ℕ) : Type 0 where
  pub here : (i + 1) / 2 ^ j ≡ i / 2 ^ j + 1
  pub below : (k : ℕ) → k < j → (i + 1) / 2 ^ k % 2 ≡ 0

pub Carries-zero : (i : ℕ) → Carries i 0
Carries-zero i = record { here = omega arith; below = λ k h. absurd (omega arith) }

-- It goes on through a bit that is set.
pub Carries-suc : (i j : ℕ) → i / 2 ^ j % 2 ≡ 1 → Carries i j → Carries i (suc j)
Carries-suc i j odd c = record {
  here = omega (arith, div_pow_suc i j, div_pow_suc (i + 1) j, c.here);
  below = λ k h. elim (dec_lt k j) [
    | yes p ↦ c.below k p
    | no p ↦ let e : k ≡ j = omega arith in rw e (omega (arith, c.here))
  ];
}

-- It stops at a bit that is clear, and leaves the bits above as they are.
pub Carries-above :
    (i j : ℕ) → i / 2 ^ j % 2 ≡ 0 → Carries i j → (k : ℕ) → j < k → (i + 1) / 2 ^ k ≡ i / 2 ^ k
Carries-above i j even c zero h = absurd (omega arith)
Carries-above i j even c (suc k) h = elim (ℕ_discrete k j) [
  | yes e ↦ rw e (omega (arith, div_pow_suc i j, div_pow_suc (i + 1) j, c.here))
  | no ne ↦
      let ih = Carries-above i j even c k (omega arith) in
      omega (arith, div_pow_suc i k, div_pow_suc (i + 1) k, ih)
]
