-- ===== src/Common/Orders.antt =====
-- Boolean tests over lists, and that the order of a list does not matter to them or to its length.
use mathlib.Core.Path.{◌≡◌, refl, ◌∙◌, ap}
use mathlib.Core.Bool.{Bool, true, false, ◌||◌, Bool-set}
use mathlib.Core.Option.{Option, none, some}
use mathlib.Core.List.{List, [], ◌∷◌, map, Perm, Permᴰ, Mem, Memᴰ}
use mathlib.Core.Logic.{∥∥₁_elim, inl, inr}
use native.Mathlib.Omega.{arith}
use native.Mathlib.Nat.{ℕ_set}
use Prim.Native.Nat.{suc}
use mev_boost.Common.Lists.{length}
use mev_boost.Common.Tests.{Eq, ◌==◌, if◌then◌else◌, Bool-cases, beq_refl}
use mev_boost.Common.Map.{contains}

abbrev pub any {ℓ} : {A : Type ℓ} → (A → Bool) → List A → Bool
any p [] = false
any p (x ∷ xs) = p x || any p xs

module _ {ℓ} {A : Type ℓ} (p : A → Bool) where
  any-permᴰ : {xs ys : List A} → Permᴰ xs ys → any p xs ≡ any p ys
  any-permᴰ Permᴰ.nil = refl
  any-permᴰ (Permᴰ.cons e q) = cc (any-permᴰ q, e)
  any-permᴰ (Permᴰ.swap e f) = ground (arith, ap p e, ap p f)
  any-permᴰ (Permᴰ.trans q r) = any-permᴰ q ∙ any-permᴰ r

  pub any-perm : {xs ys : List A} → Perm xs ys → any p xs ≡ any p ys
  any-perm q = ∥∥₁_elim q (Bool-set _ _) any-permᴰ

pub contains-any {ℓ} :
    {K : Type ℓ} ⦃e : Eq K⦄ (k : K) (ks : List K) → contains k ks ≡ any (λ j. j == k) ks
unfolding contains
contains-any k [] = refl
contains-any k (j ∷ js) = ap (λ b. (j == k) || b) (contains-any k js)

pub contains-perm {ℓ} :
    {K : Type ℓ} ⦃e : Eq K⦄ (k : K) {xs ys : List K} → Perm xs ys → contains k xs ≡ contains k ys
contains-perm k {xs} {ys} q = rw (contains-any k xs, contains-any k ys) (any-perm (λ j. j == k) q)

module _ {ℓ} {A : Type ℓ} (p : A → Bool) where
  any-memᴰ : {x : A} {xs : List A} → any p xs ≡ false → Memᴰ x xs → p x ≡ false
  any-memᴰ h (Memᴰ.head e) = ground (arith, ap p e)
  any-memᴰ h (Memᴰ.tail m) = any-memᴰ (ground arith) m

  pub any-mem : {x : A} {xs : List A} → any p xs ≡ false → Mem x xs → p x ≡ false
  any-mem h m = ∥∥₁_elim m (Bool-set _ _) (any-memᴰ h)

-- The first element that passes the test.
abbrev pub first {ℓ} : {A : Type ℓ} → (A → Bool) → List A → Option A
first p [] = none
first p (x ∷ xs) = if p x then some x else first p xs

module _ {ℓ} {A : Type ℓ} where
  length-permᴰ : {xs ys : List A} → Permᴰ xs ys → length xs ≡ length ys
  length-permᴰ Permᴰ.nil = refl
  length-permᴰ (Permᴰ.cons e q) = omega (arith, length-permᴰ q)
  length-permᴰ (Permᴰ.swap e f) = refl
  length-permᴰ (Permᴰ.trans q r) = length-permᴰ q ∙ length-permᴰ r

  pub length-perm : {xs ys : List A} → Perm xs ys → length xs ≡ length ys
  length-perm q = ∥∥₁_elim q (ℕ_set _ _) length-permᴰ

pub length-map {ℓ κ} :
    {A : Type ℓ} {B : Type κ} (f : A → B) (xs : List A) → length (map f xs) ≡ length xs
length-map f [] = refl
length-map f (x ∷ xs) = ap suc (length-map f xs)

-- A test that an element of the list passes, and one that none of them passes.
module _ {ℓ} {A : Type ℓ} ⦃e : Eq A⦄ (p : A → Bool) where
  pub any-found : (xs : List A) → any p xs ≡ true → (x : A) × (contains x xs ≡ true) × (p x ≡ true)
  unfolding contains
  any-found [] h = absurd (cc h)
  any-found (x ∷ xs) h = elim (Bool-cases (p x)) [
    | inl passes ↦ (x, rw (beq_refl x) refl, passes)
    | inr fails ↦
        let (y, has, passes) = any-found xs (rw fails at h) in (y, ground (arith, has), passes)
  ]

  pub any-here : (xs : List A) (x : A) → contains x xs ≡ true → p x ≡ true → any p xs ≡ true
  unfolding contains
  any-here [] x has passes = cc
  any-here (y ∷ xs) x has passes = elim (Bool-cases (y == x)) [
    | inl same ↦ ground (arith, ap p ((e.beq_iff y x).0 same))
    | inr other ↦ ground (arith, any-here xs x (rw other at has) passes)
  ]
