-- ===== src/Txroot/Merkle/Termination.antt =====
-- The loops of `Merkleize` end, whatever the hash function computes: the fuel of the loop of `merge`
-- is enough for every uint64.
use native.Mathlib.Nat.{div-eq_of_lt}
use native.Mathlib.Decide.{dec_lt}
use mev_boost.Common.{
  ℕ, zero, suc, ◌+◌, ◌-◌, ◌%◌, ◌^◌, ◌≤◌, ◌<◌, ◌≡◌, refl, inl, inr, List, Bool, true, false, ◌&&◌,
  not, nat_beq, ltb, get_elem?, arith, Bool-cases, Option-cases, replicate,
}
use mev_boost.Common.Powers.{pow_le}
use mev_boost.Types.{Bytes, Hash, nil_hash}
use mev_boost.Txroot.Result.{Result, ok, over_limit, panic, out_of_fuel, ◌>>=◌, index}
use mev_boost.Txroot.ZeroHashes.{zero_hashes}
use mev_boost.Txroot.Depth.{depth}
use mev_boost.Txroot.Depth.Bounds.{depth-le_64}
use mev_boost.Txroot.Merkle.{
  copy, store, bit_clear, merge_fuel, combi, merge_up, merge, merge_leaves, complement, extend,
  merkleize, bitwise_merkleize,
}

-- Whether the loops have ended: with a value, an error or a panic.
abbrev pub finishes : {A : Type 0} → Result A → Bool
finishes (ok a) = true
finishes over_limit = true
finishes panic = true
finishes out_of_fuel = false

pub bind-finishes :
    {A B : Type 0} (r : Result A) (f : A → Result B)
    → finishes r ≡ true
    → ((a : A) → finishes (f a) ≡ true)
    → finishes (r >>= f) ≡ true
bind-finishes (ok a) f ends rest = rest a
bind-finishes over_limit f ends rest = refl
bind-finishes panic f ends rest = refl
bind-finishes out_of_fuel f ends rest = absurd (cc ends)

index-finishes : {A : Type 0} (xs : List A) (i : ℕ) → finishes (index xs i) ≡ true
index-finishes xs i = elim (Option-cases (get_elem? xs i)) [
  | inl absent ↦ rw absent refl
  | inr (a, found) ↦ rw found refl
]

store-finishes : (tmp : List Hash) (j : ℕ) (h : Hash) → finishes (store tmp j h) ≡ true
unfolding store
store-finishes tmp j h = ground arith

-- A bit of a uint64 behind the last one is clear.
bit_clear_high : (i j : ℕ) → i < 2 ^ 64 → 64 ≤ j → bit_clear i j ≡ true
bit_clear_high i j small high =
    let below : i < 2 ^ j = omega (arith, pow_le 64 j high) in rw (div-eq_of_lt below) refl

module _ (hash_fn : Bytes → Hash) where
  module _ (count tree_depth : ℕ) (shallow : tree_depth ≤ 64) where
    merge_up-finishes :
        (fuel i : ℕ) (tmp : List Hash) (j : ℕ) (h : Hash)
        → i < 2 ^ 64
        → 0 < fuel
        → 65 ≤ fuel + j
        → finishes (merge_up hash_fn count tree_depth fuel i tmp j h) ≡ true
    unfolding merge_up
    merge_up-finishes zero i tmp j h small some_fuel enough = absurd (omega arith)
    merge_up-finishes (suc fuel) i tmp j h small some_fuel enough =
        elim (Bool-cases (bit_clear i j)) [
          | inl clear ↦ elim (Bool-cases (nat_beq i count && ltb j tree_depth)) [
            | inl pads ↦
                let below : j < tree_depth = ground (arith, pads) in
                rw (clear, merge_up)
                  (rw pads (
                    bind-finishes (index zero_hashes j) _ (index-finishes zero_hashes j) (λ z.
                      merge_up-finishes fuel i tmp (suc j) (combi hash_fn h z) small (omega arith)
                        (omega arith))))
            | inr breaks ↦ rw (clear, merge_up) (rw breaks refl)
          ]
          | inr is_set ↦
              let below : j < 64 = elim (dec_lt j 64) [
                | yes lt ↦ lt
                | no ge ↦ absurd (cc (is_set, bit_clear_high i j small (omega arith)))
              ] in
              rw (is_set, merge_up)
                (bind-finishes (index tmp j) _ (index-finishes tmp j) (λ t.
                  merge_up-finishes fuel i tmp (suc j) (combi hash_fn t h) small (omega arith)
                    (omega arith)))
        ]

    merge-finishes :
        (i : ℕ) (tmp : List Hash) (h : Hash)
        → i < 2 ^ 64
        → finishes (merge hash_fn count tree_depth i tmp h) ≡ true
    unfolding merge
    merge-finishes i tmp h small =
        bind-finishes (merge_up hash_fn count tree_depth merge_fuel i tmp 0 h) _
          (merge_up-finishes merge_fuel i tmp 0 h small (omega arith) (omega arith))
          (λ (j, h'). bind-finishes (store tmp j h') _ (store-finishes tmp j h') (λ tmp'. refl))

    merge_leaves-finishes :
        (leaf : ℕ → Result Bytes) (rounds i : ℕ) (tmp : List Hash) (h : Hash)
        → ((k : ℕ) → finishes (leaf k) ≡ true)
        → i + rounds < 2 ^ 64
        → finishes (merge_leaves hash_fn count tree_depth leaf rounds i tmp h) ≡ true
    unfolding merge_leaves
    merge_leaves-finishes leaf zero i tmp h leaves small = refl
    merge_leaves-finishes leaf (suc rounds) i tmp h leaves small =
        bind-finishes (leaf i) _ (leaves i) (λ l.
          bind-finishes (merge hash_fn count tree_depth i tmp (copy h l)) _
            (merge-finishes i tmp (copy h l) (omega arith))
            (λ (tmp', h'). merge_leaves-finishes leaf rounds (i + 1) tmp' h' leaves (omega arith)))

    complement-finishes :
        (s : List Hash × Hash)
        → count < 2 ^ 64
        → finishes (complement hash_fn count tree_depth s) ≡ true
    unfolding complement
    complement-finishes (tmp, h) small =
        elim (Bool-cases (not (nat_beq (2 ^ tree_depth % 2 ^ 64) count))) [
          | inl odd ↦
              rw (odd, complement)
                (bind-finishes (index zero_hashes 0) _ (index-finishes zero_hashes 0) (λ z.
                  bind-finishes (merge hash_fn count tree_depth count tmp z) _
                    (merge-finishes count tmp z small) (λ (tmp', h'). refl)))
          | inr even ↦ rw (even, complement) refl
        ]

  extend-finishes : (rounds j : ℕ) (tmp : List Hash) → finishes (extend hash_fn rounds j tmp) ≡ true
  unfolding extend
  extend-finishes zero j tmp = refl
  extend-finishes (suc rounds) j tmp = bind-finishes (index tmp j) _ (index-finishes tmp j) (λ t.
      bind-finishes (index zero_hashes j) _ (index-finishes zero_hashes j) (λ z.
        bind-finishes (store tmp (j + 1) (combi hash_fn t z)) _
          (store-finishes tmp (j + 1) (combi hash_fn t z))
          (λ tmp'. extend-finishes rounds (j + 1) tmp')))

  trees-finishes :
      (count limit : ℕ) (leaf : ℕ → Result Bytes)
      → ((k : ℕ) → finishes (leaf k) ≡ true)
      → count < 2 ^ 64
      → finishes (
          merge_leaves hash_fn count
            (depth count)
            leaf
            count
            0
            (replicate (depth limit + 1) nil_hash)
            nil_hash
          >>= λ s. complement hash_fn count (depth count) s >>= λ tmp.
              extend hash_fn (depth limit - depth count) (depth count) tmp >>= λ tmp'.
              index tmp' (depth limit))
        ≡ true
  trees-finishes count limit leaf leaves small =
      let shallow = depth-le_64 count small in
      bind-finishes (merge_leaves hash_fn count (depth count) leaf count 0 _ nil_hash) _
        (merge_leaves-finishes count (depth count) shallow leaf count 0 _ nil_hash leaves
          (omega arith))
        (λ s.
          bind-finishes (complement hash_fn count (depth count) s) _
            (complement-finishes count (depth count) shallow s small)
            (λ tmp.
              bind-finishes (extend hash_fn (depth limit - depth count) (depth count) tmp) _
                (extend-finishes (depth limit - depth count) (depth count) tmp)
                (λ tmp'. index-finishes tmp' (depth limit))))

  leaf-finishes :
      (r : Result Bytes) → finishes r ≡ true → finishes (r >>= λ l. ok (copy nil_hash l)) ≡ true
  leaf-finishes r ends = bind-finishes r _ ends (λ l. refl)

-- `BitwiseMerkleize` ends for every hash function, every list of chunks and every count that a
-- uint64 holds: it returns a root or the error for a count over the limit, or it panics. The bound
-- of 65 rounds on the loop of `merge` never cuts it off.
pub bitwise_merkleize-finishes :
    (hash_fn : Bytes → Hash) (chunks : List Bytes) (count limit : ℕ)
    → count < 2 ^ 64
    → finishes (bitwise_merkleize hash_fn chunks count limit) ≡ true
unfolding bitwise_merkleize merkleize
bitwise_merkleize-finishes hash_fn chunks count limit small =
    let tree =
      trees-finishes hash_fn count limit (λ i. index chunks i) (index-finishes chunks) small in
    let leaf = leaf-finishes hash_fn (index chunks 0) (index-finishes chunks 0) in
    ground (arith, tree, leaf)
