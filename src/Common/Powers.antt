-- ===== src/Common/Powers.antt =====
-- Powers of two and the bits of a number.
use native.Mathlib.Nat.{
  add-zero, add-suc, pow-suc, div-eq_of_lt, div-lt_iff_lt-mul, lt-div-mul-add, mul_comm,
  pow-le-pow_right, div-div-eq-div-mul,
}
use Prim.Native.Nat.{ℕ, zero, suc, ◌+◌, ◌*◌, ◌/◌, ◌^◌, ◌≤◌, ◌<◌}
use mathlib.Core.Path.{◌≡◌, sym, ◌∙◌, ap}
use mathlib.Core.Logic.{◌↔◌}
use native.Mathlib.Omega.{arith}
use native.Mathlib.Decide.{dec_lt}

pub pow_add : (a b : ℕ) → 2 ^ (a + b) ≡ 2 ^ a * 2 ^ b
pow_add a zero = rw add-zero (omega arith)
pow_add a (suc b) = simp (add-suc, pow-suc) (omega (arith, pow_add a b))

pub pow_pos : (a : ℕ) → 0 < 2 ^ a
pow_pos zero = omega arith
pow_pos (suc a) = omega (arith, pow_pos a)

pub pow_le : (a b : ℕ) → a ≤ b → 2 ^ a ≤ 2 ^ b
pow_le a b h = pow-le-pow_right (omega arith) h

pub div_pow_suc : (n k : ℕ) → n / 2 ^ suc k ≡ n / 2 ^ k / 2
div_pow_suc n k = ap (λ m. n / m) (omega arith) ∙ sym (div-div-eq-div-mul n (2 ^ k) 2)

pub div_pow_add : (n a b : ℕ) → n / 2 ^ (a + b) ≡ n / 2 ^ a / 2 ^ b
div_pow_add n a b = ap (λ m. n / m) (pow_add a b) ∙ sym (div-div-eq-div-mul n (2 ^ a) (2 ^ b))

pub pow_reflect_lt : (a b : ℕ) → 2 ^ a < 2 ^ b → a < b
pow_reflect_lt a b h = elim (dec_lt a b) [
  | yes p ↦ p
  | no p ↦ absurd (omega (arith, pow_le b a (omega arith)))
]

-- The bits from k on are clear exactly below 2 ^ k.
pub high_bits_iff : (v k : ℕ) → (v / 2 ^ k * 2 ^ k ≡ 0) ↔ (v < 2 ^ k)
high_bits_iff v k =
    (λ h. omega (arith, lt-div-mul-add {a = v} (pow_pos k)), λ h. rw (div-eq_of_lt h) (omega arith))

pub div_pow_lt : (v a b : ℕ) → v < 2 ^ (a + b) → v / 2 ^ a < 2 ^ b
div_pow_lt v a b h =
    (div-lt_iff_lt-mul (pow_pos a)).1 (omega (arith, pow_add a b, mul_comm (2 ^ a) (2 ^ b)))
