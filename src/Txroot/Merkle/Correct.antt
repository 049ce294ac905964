-- ===== src/Txroot/Merkle/Correct.antt =====
-- `Merkleize` returns the root of the padded tree.
use native.Mathlib.Nat.{zero-div}
use native.Mathlib.Decide.{dec_lt, ℕ_discrete}
use mev_boost.Common.{
  ℕ, zero, suc, ◌+◌, ◌-◌, ◌^◌, ◌≤◌, ◌<◌, ◌≡◌, refl, sym, ap, ◌∙◌, List, [], ◌∷◌, false, arith,
  length, take, drop, replicate, length-replicate, ltb, nat_beq_ne, lt→ltb, if◌then◌else◌,
  append-nil,
}
use mev_boost.Common.Powers.{pow_pos}
use mev_boost.Types.{Bytes, Hash, nil_hash}
use mev_boost.Txroot.Result.{ok, over_limit, index}
use mev_boost.Txroot.Depth.{depth}
use mev_boost.Txroot.Depth.Bounds.{
  depth-le_64, depth_mono, depth_covers, depth_positive, depth_unique,
}
use mev_boost.Txroot.Merkle.{copy, merge_leaves, merkleize, bitwise_merkleize}
use mev_boost.Txroot.Merkle.Tree.{subtree, HashLaws, AreChunks, length-subtree, leaf_node}
use mev_boost.Txroot.Merkle.Merge.{Filled, merge-Filled}
use mev_boost.Txroot.Merkle.Padding.{complement-root, extend-root}

take_all : (src : Bytes) → take (length src) src ≡ src
take_all [] = refl
take_all (x ∷ xs) = ap (λ r. x ∷ r) (take_all xs)

drop_all : (dst : Bytes) → drop (length dst) dst ≡ []
drop_all [] = refl
drop_all (x ∷ xs) = drop_all xs

-- A copy between slices of one length replaces the whole.
pub copy_whole : (dst src : Bytes) → length dst ≡ length src → copy dst src ≡ src
unfolding copy
copy_whole dst src e = rw (e, take_all src) (rw (← e, drop_all dst) (append-nil src))

ltb_of_le : (a b : ℕ) → a ≤ b → ltb b a ≡ false
ltb_of_le a b h = ground arith

height_one : (t : ℕ) → (0 < t → 2 ^ (t - 1) < 1) → t ≡ 0
height_one zero h = refl
height_one (suc t) h = absurd (omega (arith, h (omega arith), pow_pos (suc t - 1)))

module _ (hash_fn : Bytes → Hash) (has : HashLaws hash_fn) (chunks : List Bytes)
    (sized : AreChunks chunks) where
  nothing-Filled : (tmp : List Hash) → Filled hash_fn chunks 0 tmp
  nothing-Filled tmp = record {
    at_bit = λ k odd. absurd (omega (arith, rw (zero-div (2 ^ k)) at odd));
  }

  module _ (count d : ℕ) (len : length chunks ≡ count) (le : count ≤ 2 ^ d) (at_most : d ≤ 64) where
    merge_leaves-Filled :
        (rounds i : ℕ) (tmp : List Hash) (h : Hash)
        → i + rounds ≡ count
        → d < length tmp
        → length h ≡ 32
        → Filled hash_fn chunks i tmp
        → (r : List Hash × Hash) × (merge_leaves hash_fn count d
              (λ i. index chunks i)
              rounds
              i
              tmp
              h
            ≡ ok r)
          × Filled hash_fn chunks count r.0
          × (length r.0 ≡ length tmp)
    unfolding merge_leaves
    merge_leaves-Filled zero i tmp h e fits size filled =
        let same : i ≡ count = omega arith in ((tmp, h), refl, rw (← same) filled, refl)
    merge_leaves-Filled (suc rounds) i tmp h e fits size filled =
        let leaf = subtree hash_fn chunks 0 i in
        let (r, merged, filled', size', (j, at)) =
          merge-Filled hash_fn chunks count d i tmp leaf (omega arith) (omega arith) (omega arith)
            fits filled refl in
        let (s, done, all, same) =
          merge_leaves-Filled rounds (i + 1) r.0 r.1 (omega arith) (omega arith)
            (rw at (length-subtree hash_fn has chunks j _ sized)) filled' in
        (
          s,
          rw
              (
                leaf_node hash_fn chunks i (omega arith),
                copy_whole h leaf (size ∙ sym (length-subtree hash_fn has chunks 0 i sized)),
              )
              (rw merged done),
          all,
          same ∙ size',
        )

  module _ (limit : ℕ) (word : limit < 2 ^ 64) (le : length chunks ≤ limit) where
    merkleize_large :
        2 ≤ limit
        → merkleize hash_fn (length chunks) limit (λ i. index chunks i)
          ≡ ok (subtree hash_fn chunks (depth limit) 0)
    unfolding merkleize
    merkleize_large two =
        let count = length chunks in
        let d = depth count in
        let tmp = replicate (depth limit + 1) nil_hash in
        let size : length tmp ≡ depth limit + 1 = length-replicate (depth limit + 1) nil_hash in
        let below : d ≤ depth limit = depth_mono count limit le word in
        let covers = depth_covers count (omega arith) in
        let top = depth-le_64 limit word in
        let (s, leaves, filled, same) =
          merge_leaves-Filled count d refl covers (omega (arith, top)) count 0 tmp nil_hash
            (omega arith) (omega (arith, size)) refl (nothing-Filled tmp) in
        let (u, completed, at_d, same') =
          complement-root hash_fn has chunks count d s.0 refl (omega arith) (omega (arith, top))
            (depth_positive count) (omega (arith, size, same)) filled covers s.1 in
        let (r, extended, at_top) =
          extend-root hash_fn has chunks (depth limit - d) d (depth limit) u (omega arith)
            (omega (arith, size, same, same')) top covers at_d in
        rw
          (
            ltb_of_le count limit le,
            nat_beq_ne limit 0 (λ e. omega arith),
            nat_beq_ne limit 1 (λ e. omega arith),
          )
          (rw leaves (rw completed (rw extended (rw at_top))))

-- A limit of one chunk: that chunk, or a zero chunk.
merkleize_one :
    (hash_fn : Bytes → Hash) (chunks : List Bytes)
    → AreChunks chunks
    → length chunks ≤ 1
    → merkleize hash_fn (length chunks) 1 (λ i. index chunks i) ≡ ok (subtree hash_fn chunks 0 0)
unfolding merkleize subtree
merkleize_one hash_fn [] sized le = refl
merkleize_one hash_fn (c ∷ []) sized le = ap ok (copy_whole nil_hash c (sym sized.0))
merkleize_one hash_fn (c ∷ c' ∷ cs) sized le = absurd (omega arith)

-- For chunks of 32 bytes and a limit below 2 ^ 64 that is not 0, `BitwiseMerkleize` returns the
-- error if there are more chunks than the limit, and else the root of the complete binary tree
-- with the least height t such that 2 ^ t is at least the limit, whose leaves are the chunks and
-- zero chunks behind them; it does not panic and its loops end. It is assumed of the hash function
-- that it returns 32 bytes and has the values of the table `ZeroHashes`.
pub bitwise_merkleize-subtree :
    (hash_fn : Bytes → Hash) (chunks : List Bytes) (limit t : ℕ)
    → HashLaws hash_fn
    → AreChunks chunks
    → 0 < limit
    → limit < 2 ^ 64
    → limit ≤ 2 ^ t
    → (0 < t → 2 ^ (t - 1) < limit)
    → bitwise_merkleize hash_fn chunks (length chunks) limit
      ≡ (if ltb limit (length chunks) then over_limit else ok (subtree hash_fn chunks t 0))
unfolding bitwise_merkleize
bitwise_merkleize-subtree hash_fn chunks limit t has sized pos word fits tight =
    elim (dec_lt limit (length chunks)) [
      | yes over ↦ rw (lt→ltb limit (length chunks) over)
      | no le ↦ rw (ltb_of_le (length chunks) limit (omega arith)) (elim (ℕ_discrete limit 1) [
        | yes one ↦
            let flat : t ≡ 0 = height_one t (λ p. rw one at (tight p)) in
            rw (one, flat) (merkleize_one hash_fn chunks sized (omega arith))
        | no more ↦
            let e : depth limit ≡ t = depth_unique limit t (omega arith) word fits tight in
            rw (← e)
              (merkleize_large hash_fn has chunks sized limit word (omega arith) (omega arith))
      ])
    ]
