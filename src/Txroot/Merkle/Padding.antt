-- ===== src/Txroot/Merkle/Padding.antt =====
-- The two statements of `Merkleize` that pad with zero hashes: the one after the leaves, and the
-- loop up to the depth of the limit.
use native.Mathlib.Nat.{div_self}
use native.Mathlib.Decide.{ℕ_discrete}
use mev_boost.Common.{
  ℕ, zero, suc, ◌+◌, ◌-◌, ◌/◌, ◌%◌, ◌^◌, ◌≤◌, ◌<◌, ◌≡◌, ◌≢◌, refl, sym, ap, ◌∙◌, some, List, true,
  false, arith, get_elem?, length, set, get_elem?-set_self, length-set, nat_beq, lt→ltb,
  nat_beq_iff, nat_beq_ne,
}
use mev_boost.Common.Powers.{pow_le, pow_pos}
use mev_boost.Types.{Bytes, Hash, nil_hash}
use mev_boost.Txroot.Result.{ok}
use mev_boost.Txroot.Merkle.{combi, merge, store, merge_fuel, complement, extend}
use mev_boost.Txroot.Merkle.Tree.{
  subtree, zero_node, HashLaws, zero_hashes-zero_node, zero_hashes-head, leaf_behind,
  subtree-suc_left,
}
use mev_boost.Txroot.Merkle.Merge.{Filled}
use mev_boost.Txroot.Merkle.Complement.{merge_up-complement, pow_wraps}

store_fits :
    (tmp : List Hash) (j : ℕ) (h : Hash) → j < length tmp → store tmp j h ≡ ok (set tmp j h)
unfolding store
store_fits tmp j h fits = rw (lt→ltb j (length tmp) fits)

module _ (hash_fn : Bytes → Hash) (has : HashLaws hash_fn) (chunks : List Bytes) where
  abbrev root : ℕ → Hash
  root d = subtree hash_fn chunks d 0

  module _ (count d : ℕ) (tmp : List Hash) (len : length chunks ≡ count) (word : count < 2 ^ 64)
      (at_most : d ≤ 64) (nonzero : d ≢ 0 → 0 < count) (fits : d < length tmp)
      (filled : Filled hash_fn chunks count tmp) where
    merge-complement :
        count < 2 ^ d → merge hash_fn count d count tmp nil_hash ≡ ok (set tmp d (root d), root d)
    unfolding merge store
    merge-complement inside =
        rw
          (merge_up-complement hash_fn has chunks count d tmp len inside (omega arith) filled
            merge_fuel 0 nil_hash (omega arith) (omega arith) start)
          (rw (lt→ltb d (length tmp) fits))
      where
        start : nil_hash ≡ subtree hash_fn chunks 0 (count / 2 ^ 0)
        start = leaf_behind hash_fn chunks (count / 2 ^ 0) (omega (arith, len))

    -- A count that is a power of two needs no padding: its subtree is complete.
    full : 2 ^ d ≡ count → get_elem? tmp d ≡ some (root d)
    full e =
        let one : count / 2 ^ d ≡ 1 = rw e (div_self (omega (arith, e, pow_pos d))) in
        filled.at_bit d (rw one refl) ∙ ap (λ (i : ℕ). some (subtree hash_fn chunks d (i - 1))) one

    power_count : 2 ^ d % 2 ^ 64 ≡ count → 2 ^ d ≡ count
    power_count e = elim (ℕ_discrete d 64) [
      | yes top ↦ absurd (omega (arith, rw top at e, nonzero (omega arith)))
      | no below ↦ sym (pow_wraps d (omega arith)) ∙ e
    ]

    not_power_count : count ≤ 2 ^ d → 2 ^ d % 2 ^ 64 ≢ count → count < 2 ^ d
    not_power_count le ne = elim (ℕ_discrete d 64) [
      | yes top ↦ rw top word
      | no below ↦ omega (arith, pow_wraps d (omega arith))
    ]

    pub complement-root :
        count ≤ 2 ^ d
        → (h : Hash)
        → (r : List Hash) × (complement hash_fn count d (tmp, h) ≡ ok r)
          × (get_elem? r d ≡ some (root d))
          × (length r ≡ length tmp)
    unfolding complement
    complement-root le h = elim (ℕ_discrete (2 ^ d % 2 ^ 64) count) [
      | yes e ↦
          let test : nat_beq (2 ^ d % 2 ^ 64) count ≡ true = (nat_beq_iff _ _).1 e in
          (tmp, rw test, full (power_count e), refl)
      | no ne ↦
          let test : nat_beq (2 ^ d % 2 ^ 64) count ≡ false = nat_beq_ne _ _ ne in
          (
            set tmp d (root d),
            rw test (rw (zero_hashes-head hash_fn) (rw (merge-complement (not_power_count le ne)))),
            get_elem?-set_self tmp d (root d) fits,
            length-set tmp d (root d),
          )
    ]

  -- One more level at a time.
  pub extend-root :
      (rounds j top : ℕ) (tmp : List Hash)
      → j + rounds ≡ top
      → top < length tmp
      → top ≤ 64
      → length chunks ≤ 2 ^ j
      → get_elem? tmp j ≡ some (root j)
      → (r : List Hash) × (extend hash_fn rounds j tmp ≡ ok r) × (get_elem? r top ≡ some (root top))
  unfolding extend
  extend-root zero j top tmp e fits at_most behind at =
      let same : j ≡ top = omega arith in (tmp, refl, rw (← same) at)
  extend-root (suc rounds) j top tmp e fits at_most behind at =
      let z = zero_hashes-zero_node hash_fn has j (omega arith) in
      let up : combi hash_fn (root j) (zero_node hash_fn j) ≡ root (j + 1) =
        subtree-suc_left hash_fn chunks j behind ∙ ap root (omega arith) in
      let next = set tmp (j + 1) (root (j + 1)) in
      let (r, done, at_top) =
        extend-root rounds (j + 1) top next (omega arith)
          (omega (arith, length-set tmp (j + 1) (root (j + 1)))) at_most
          (omega (arith, pow_le j (j + 1) (omega arith)))
          (get_elem?-set_self tmp (j + 1) (root (j + 1)) (omega arith)) in
      (r, rw (at, z, up) (rw (store_fits tmp (j + 1) (root (j + 1)) (omega arith)) done), at_top)
