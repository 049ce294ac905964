-- ===== src/Txroot/Merkle/Complement.antt =====
-- The zero padding of `Merkleize`: up to the next power of two, and up to the limit.
use native.Mathlib.Nat.{div-eq_of_lt, lt-div-mul-add, mod-eq_of_lt}
use native.Mathlib.Decide.{dec_lt}
use mev_boost.Common.{
  ℕ, zero, suc, ◌+◌, ◌/◌, ◌%◌, ◌^◌, ◌≤◌, ◌<◌, ◌≡◌, inl, inr, ap, ◌∙◌, some, List, true, false,
  arith, get_elem?, length, Bool-cases, nat_beq, lt→ltb,
}
use mev_boost.Common.Powers.{pow_le, pow_pos}
use mev_boost.Types.{Bytes, Hash}
use mev_boost.Txroot.Result.{ok}
use mev_boost.Txroot.ZeroHashes.{zero_hashes}
use mev_boost.Txroot.Merkle.{combi, merge_up, bit_clear}
use mev_boost.Txroot.Merkle.Tree.{
  subtree, zero_node, subtree_behind, HashLaws, zero_hashes-zero_node,
}
use mev_boost.Txroot.Merkle.Carry.{bit_clear→even, bit_clear→odd}
use mev_boost.Txroot.Merkle.Merge.{Filled, parent_odd, parent_even, odd-lt}

pub pow_wraps : (d : ℕ) → d < 64 → 2 ^ d % 2 ^ 64 ≡ 2 ^ d
pow_wraps d h = mod-eq_of_lt (omega (arith, pow_le (suc d) 64 h, pow_pos d))

module _ (hash_fn : Bytes → Hash) (has : HashLaws hash_fn) (chunks : List Bytes) where
  module _ (count d : ℕ) (tmp : List Hash) (len : length chunks ≡ count) (inside : count < 2 ^ d)
      (below_table : d < 100) (filled : Filled hash_fn chunks count tmp) where
    -- The right sibling of a place behind the last chunk is a tree over zero chunks.
    right_zero : (j : ℕ) → subtree hash_fn chunks j (count / 2 ^ j + 1) ≡ zero_node hash_fn j
    right_zero j =
        subtree_behind hash_fn chunks j (count / 2 ^ j + 1)
          (omega (arith, len, lt-div-mul-add {a = count} (pow_pos j)))

    merge_up_set :
        (fuel j : ℕ) (t h : Hash)
        → bit_clear count j ≡ false
        → get_elem? tmp j ≡ some t
        → merge_up hash_fn count d (suc fuel) count tmp j h
          ≡ merge_up hash_fn count d fuel count tmp (suc j) (combi hash_fn t h)
    unfolding merge_up
    merge_up_set fuel j t h clear at = rw (clear, merge_up) (rw at)

    merge_up_pad :
        (fuel j : ℕ) (z h : Hash)
        → bit_clear count j ≡ true
        → j < d
        → get_elem? zero_hashes j ≡ some z
        → merge_up hash_fn count d (suc fuel) count tmp j h
          ≡ merge_up hash_fn count d fuel count tmp (suc j) (combi hash_fn h z)
    unfolding merge_up
    merge_up_pad fuel j z h clear lt at =
        let test : nat_beq count count ≡ true = ground arith in
        rw (clear, merge_up) (rw (test, lt→ltb j d lt) (rw at))

    merge_up_break :
        (fuel : ℕ) (h : Hash)
        → bit_clear count d ≡ true
        → merge_up hash_fn count d (suc fuel) count tmp d h ≡ ok (d, h)
    unfolding merge_up
    merge_up_break fuel h clear = ground (arith, clear)

    top_zero : count / 2 ^ d ≡ 0
    top_zero = div-eq_of_lt inside

    pub merge_up-complement :
        (fuel j : ℕ) (h : Hash)
        → j ≤ d
        → d < j + fuel
        → h ≡ subtree hash_fn chunks j (count / 2 ^ j)
        → merge_up hash_fn count d fuel count tmp j h ≡ ok (d, subtree hash_fn chunks d 0)
    merge_up-complement zero j h jd enough at = absurd (omega arith)
    merge_up-complement (suc fuel) j h jd enough at = elim (Bool-cases (bit_clear count j)) [
      | inr set_bit ↦
          let odd = bit_clear→odd count j set_bit in
          merge_up_set fuel j _ h set_bit (filled.at_bit j odd)
          ∙ merge_up-complement fuel (suc j) _
              (odd-lt hash_fn chunks count d count tmp inside filled j jd odd) (omega arith)
              (rw at (parent_odd hash_fn chunks count j odd))
      | inl clear ↦ elim (dec_lt j d) [
        | yes lt ↦
            let even = bit_clear→even count j clear in
            let z = zero_node hash_fn j in
            merge_up_pad fuel j z h clear lt (zero_hashes-zero_node hash_fn has j (omega arith))
            ∙ merge_up-complement fuel (suc j) _ lt (omega arith)
                (rw (at, ← right_zero j) (parent_even hash_fn chunks count j even))
        | no ge ↦
            let e : j ≡ d = omega arith in
            rw e (
              merge_up_break fuel h (rw e at clear)
              ∙ ap (λ (x : Hash). ok (d, x)) (at ∙ rw e (rw top_zero)))
      ]
    ]
