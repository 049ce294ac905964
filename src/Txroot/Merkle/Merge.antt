-- ===== src/Txroot/Merkle/Merge.antt =====
-- `merge`: after the leaf i, `tmp` holds the roots of the complete subtrees that the bits of i + 1
-- name.
use native.Mathlib.Nat.{div-eq_of_lt}
use native.Mathlib.Decide.{dec_lt, ℕ_discrete}
use mev_boost.Common.{
  ℕ, zero, suc, ◌+◌, ◌-◌, ◌/◌, ◌%◌, ◌^◌, ◌≤◌, ◌<◌, ◌≡◌, ◌≢◌, ap, ◌∙◌, some, List, arith, get_elem?,
  length, set, get_elem?-set_self, get_elem?-set_ne, length-set, Bool-cases, false, inl, inr,
  nat_beq, lt→ltb,
}
use mev_boost.Common.Powers.{div_pow_suc}
use mev_boost.Types.{Bytes, Hash}
use mev_boost.Txroot.Result.{ok}
use mev_boost.Txroot.Merkle.{combi, merge_up, merge, store, bit_clear, merge_fuel}
use mev_boost.Txroot.Merkle.Tree.{subtree}
use mev_boost.Txroot.Merkle.Carry.{
  Carries, Carries-zero, Carries-suc, Carries-above, bit_clear→even, bit_clear→odd,
}

module _ (hash_fn : Bytes → Hash) (chunks : List Bytes) where
  abbrev node : ℕ → ℕ → Hash
  node = subtree hash_fn chunks

  -- Two siblings make their parent: where the place i is in the right one, and in the left one.
  pub parent_odd :
      (i j : ℕ)
      → i / 2 ^ j % 2 ≡ 1
      → combi hash_fn (node j (i / 2 ^ j - 1)) (node j (i / 2 ^ j)) ≡ node (suc j) (i / 2 ^ suc j)
  unfolding subtree
  parent_odd i j odd =
      let q = i / 2 ^ suc j in
      let left : i / 2 ^ j - 1 ≡ q + q = omega (arith, div_pow_suc i j) in
      let right : i / 2 ^ j ≡ q + q + 1 = omega (arith, div_pow_suc i j) in cc (ap (node j) left)

  pub parent_even :
      (i j : ℕ)
      → i / 2 ^ j % 2 ≡ 0
      → combi hash_fn (node j (i / 2 ^ j)) (node j (i / 2 ^ j + 1)) ≡ node (suc j) (i / 2 ^ suc j)
  unfolding subtree
  parent_even i j even =
      let q = i / 2 ^ suc j in
      let left : i / 2 ^ j ≡ q + q = omega (arith, div_pow_suc i j) in
      let right : i / 2 ^ j + 1 ≡ q + q + 1 = omega (arith, div_pow_suc i j) in
      cc (ap (node j) right)

  -- The bits of i that are set have their complete subtrees in `tmp`.
  pub record Filled (i : ℕ) (tmp : List Hash) : Type 0 where
    pub at_bit : (k : ℕ) → i / 2 ^ k % 2 ≡ 1 → get_elem? tmp k ≡ some (node k (i / 2 ^ k - 1))

  -- Where the loop breaks, at a place that is not the last one.
  pub record Merged (d i j : ℕ) (h : Hash) : Type 0 where
    pub at_node : h ≡ node j (i / 2 ^ j)
    pub even : i / 2 ^ j % 2 ≡ 0
    pub carries : Carries i j
    pub within : j ≤ d

  module _ (count d i : ℕ) (tmp : List Hash) (inside : i < 2 ^ d) (filled : Filled i tmp) where
    pub odd-lt : (j : ℕ) → j ≤ d → i / 2 ^ j % 2 ≡ 1 → j < d
    odd-lt j h odd = elim (ℕ_discrete j d) [
      | yes e ↦ absurd (omega (arith, rw (e, div-eq_of_lt inside) at odd))
      | no ne ↦ omega arith
    ]

    pub merge_up-Merged :
        (fuel j : ℕ) (h : Hash)
        → i ≢ count
        → j ≤ d
        → d < j + fuel
        → h ≡ node j (i / 2 ^ j)
        → Carries i j
        → (r : ℕ × Hash) × (merge_up hash_fn count d fuel i tmp j h ≡ ok r) × Merged d i r.0 r.1
    unfolding merge_up
    merge_up-Merged zero j h ne jd fuel at carries = absurd (omega arith)
    merge_up-Merged (suc fuel) j h ne jd enough at carries = elim (Bool-cases (bit_clear i j)) [
      | inl clear ↦
          let other : nat_beq i count ≡ false = ground arith in
          (
            (j, h),
            ground (arith, clear, other),
            record {
              at_node = at;
              even = bit_clear→even i j clear;
              carries = carries;
              within = jd;
            },
          )
      | inr set_bit ↦
          let odd = bit_clear→odd i j set_bit in
          let (r, e, m) =
            merge_up-Merged fuel (suc j) (combi hash_fn (node j (i / 2 ^ j - 1)) h) ne
              (odd-lt j jd odd) (omega arith) (rw at (parent_odd i j odd))
              (Carries-suc i j odd carries) in
          (r, rw (set_bit, merge_up) (rw (filled.at_bit j odd) e), m)
    ]

  store-Filled :
      (d i j : ℕ) (tmp : List Hash) (h : Hash)
      → j < length tmp
      → Filled i tmp
      → Merged d i j h
      → Filled (i + 1) (set tmp j h)
  store-Filled d i j tmp h fits filled m = record {
    at_bit = λ k odd. elim (dec_lt k j) [
      | yes p ↦ absurd (omega (arith, odd, m.carries.below k p))
      | no np ↦ elim (ℕ_discrete j k) [
        | yes e ↦ rw (← e) (
            get_elem?-set_self tmp j h fits
            ∙ ap some (m.at_node ∙ ap (node j) (omega (arith, m.carries.here))))
        | no ne ↦
            let above : (i + 1) / 2 ^ k ≡ i / 2 ^ k =
              Carries-above i j m.even m.carries k (omega arith) in
            get_elem?-set_ne tmp j k h ne ∙ rw above (filled.at_bit k (rw above at odd))
      ]
    ];
  }

  -- `merge` at a place before the count stores the next subtree and returns.
  pub merge-Filled :
      (count d i : ℕ) (tmp : List Hash) (h : Hash)
      → i < 2 ^ d
      → i ≢ count
      → d < merge_fuel
      → d < length tmp
      → Filled i tmp
      → h ≡ node 0 i
      → (r : List Hash × Hash) × (merge hash_fn count d i tmp h ≡ ok r)
        × Filled (i + 1) r.0
        × (length r.0 ≡ length tmp)
        × ((j : ℕ) × (r.1 ≡ node j (i / 2 ^ j)))
  unfolding merge store
  merge-Filled count d i tmp h inside ne enough fits filled at =
      let start : h ≡ node 0 (i / 2 ^ 0) = at ∙ ap (node 0) (omega arith) in
      let (r, e, m) =
        merge_up-Merged count d i tmp inside filled merge_fuel 0 h ne (omega arith) (omega arith)
          start (Carries-zero i) in
      let room : r.0 < length tmp = omega (arith, m.within) in
      (
        (set tmp r.0 r.1, r.1),
        rw e (rw (lt→ltb r.0 (length tmp) room)),
        store-Filled d i r.0 tmp r.1 room filled m,
        length-set tmp r.0 r.1,
        (r.0, m.at_node),
      )
