-- ===== src/Common/Int.antt =====
-- Go's big.Int, as far as the program compares such numbers.
use Prim.Native.Nat.{ℕ, ◌≤◌}
use mathlib.Core.Path.{◌≡◌, refl}
use mathlib.Core.Bool.{Bool, true, false}
use native.Mathlib.Omega.{arith}
use mev_boost.Common.Tests.{leb}

-- `negsuc n` is -(n + 1).
pub data ℤ : Type 0 where
  pos : ℕ → ℤ
  negsuc : ℕ → ℤ

infix 50 ◌≤ℤ◌
abbrev pub ◌≤ℤ◌ : ℤ → ℤ → Type 0
pos a ≤ℤ pos b = a ≤ b
pos a ≤ℤ negsuc b = ⊥
negsuc a ≤ℤ pos b = Unit
negsuc a ≤ℤ negsuc b = b ≤ a

-- x.Cmp(y) < 1
unfoldable pub lebℤ : ℤ → ℤ → Bool
lebℤ (pos a) (pos b) = leb a b
lebℤ (pos a) (negsuc b) = false
lebℤ (negsuc a) (pos b) = true
lebℤ (negsuc a) (negsuc b) = leb b a

pub lebℤ-sound : (a b : ℤ) → lebℤ a b ≡ true → a ≤ℤ b
unfolding lebℤ
lebℤ-sound (pos a) (pos b) h = ground arith
lebℤ-sound (pos a) (negsuc b) h = cc
lebℤ-sound (negsuc a) (pos b) h = tt
lebℤ-sound (negsuc a) (negsuc b) h = ground arith

pub lebℤ-complete : (a b : ℤ) → a ≤ℤ b → lebℤ a b ≡ true
unfolding lebℤ
lebℤ-complete (pos a) (pos b) h = ground arith
lebℤ-complete (pos a) (negsuc b) h = absurd h
lebℤ-complete (negsuc a) (pos b) h = refl
lebℤ-complete (negsuc a) (negsuc b) h = ground arith

pub lebℤ-total : (a b : ℤ) → lebℤ a b ≡ false → b ≤ℤ a
unfolding lebℤ
lebℤ-total (pos a) (pos b) h = ground arith
lebℤ-total (pos a) (negsuc b) h = tt
lebℤ-total (negsuc a) (pos b) h = cc
lebℤ-total (negsuc a) (negsuc b) h = ground arith

pub ≤ℤ_trans : (a b c : ℤ) → a ≤ℤ b → b ≤ℤ c → a ≤ℤ c
≤ℤ_trans (pos a) (pos b) (pos c) h k = omega arith
≤ℤ_trans (negsuc a) (pos b) (pos c) h k = tt
≤ℤ_trans (negsuc a) (negsuc b) (pos c) h k = tt
≤ℤ_trans (negsuc a) (negsuc b) (negsuc c) h k = omega arith
≤ℤ_trans (pos a) (negsuc b) c h k = absurd h
≤ℤ_trans (pos a) (pos b) (negsuc c) h k = absurd k
≤ℤ_trans (negsuc a) (pos b) (negsuc c) h k = absurd k

pub ≤ℤ_refl : (a : ℤ) → a ≤ℤ a
≤ℤ_refl (pos a) = omega arith
≤ℤ_refl (negsuc a) = omega arith
