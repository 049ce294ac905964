-- ===== src/Txroot/Merkle/Tree.antt =====
-- The specification of `Merkleize`: the complete binary tree over the chunks, padded with zero
-- chunks on the right.
use native.Mathlib.Nat.{pow-suc}
use mev_boost.Common.{
  ℕ, zero, suc, ◌+◌, ◌*◌, ◌^◌, ◌≤◌, ◌<◌, ◌≡◌, refl, sym, some, List, [], ◌∷◌, ◌++◌, arith,
  get_elem?, length, All,
}
use mev_boost.Types.{Bytes, Hash, nil_hash}
use mev_boost.Txroot.ZeroHashes.{zero_hashes}
use mev_boost.Txroot.Merkle.{combi}

-- The chunk at a place, or a zero chunk behind the last one.
abbrev pub padded : List Bytes → ℕ → Hash
padded [] i = nil_hash
padded (c ∷ cs) zero = c
padded (c ∷ cs) (suc i) = padded cs i

padded_behind : (chunks : List Bytes) (i : ℕ) → length chunks ≤ i → padded chunks i ≡ nil_hash
padded_behind [] i h = refl
padded_behind (c ∷ cs) zero h = absurd (omega arith)
padded_behind (c ∷ cs) (suc i) h = padded_behind cs i (omega arith)

padded-get_elem? :
    (chunks : List Bytes) (i : ℕ) → i < length chunks → get_elem? chunks i ≡ some (padded chunks i)
padded-get_elem? [] i h = elim h [ ]
padded-get_elem? (c ∷ cs) zero h = refl
padded-get_elem? (c ∷ cs) (suc i) h = padded-get_elem? cs i (omega arith)

double_index : (i d : ℕ) → i * 2 ^ suc d ≡ (i + i) * 2 ^ d
double_index i d = rw pow-suc (omega arith)

-- Chunks have 32 bytes each.
abbrev pub AreChunks : List Bytes → Type 0
AreChunks = All (λ c. length c ≡ 32)

length-padded : (chunks : List Bytes) (i : ℕ) → AreChunks chunks → length (padded chunks i) ≡ 32
length-padded [] i h = refl
length-padded (c ∷ cs) zero h = h.0
length-padded (c ∷ cs) (suc i) h = length-padded cs i h.1

module _ (hash_fn : Bytes → Hash) where
  -- The root of the tree of depth d over zero chunks.
  unfoldable pub zero_node : ℕ → Hash
  zero_node zero = nil_hash
  zero_node (suc d) = combi hash_fn (zero_node d) (zero_node d)

  -- What the code relies on in SHA-256: it returns 32 bytes, and takes the values that the source
  -- tabulates, each entry of `ZeroHashes` being the hash of the entry before it, twice.
  pub record HashLaws : Type 0 where
    pub size : (bs : Bytes) → length (hash_fn bs) ≡ 32
    pub chain :
        (j : ℕ) (z : Hash)
        → j < 99
        → get_elem? zero_hashes j ≡ some z
        → get_elem? zero_hashes (suc j) ≡ some (hash_fn (z ++ z))

  pub zero_hashes-head : get_elem? zero_hashes 0 ≡ some nil_hash
  unfolding zero_hashes
  zero_hashes-head = refl

  pub zero_hashes-zero_node :
      HashLaws → (j : ℕ) → j < 100 → get_elem? zero_hashes j ≡ some (zero_node j)
  unfolding zero_node combi
  zero_hashes-zero_node has zero h = zero_hashes-head
  zero_hashes-zero_node has (suc j) h =
      has.chain j (zero_node j) (omega arith) (zero_hashes-zero_node has j (omega arith))

  -- The root of the subtree of depth d with the index i among those of its depth.
  unfoldable pub subtree : List Bytes → ℕ → ℕ → Hash
  subtree chunks zero i = padded chunks i
  subtree chunks (suc d) i = combi hash_fn (subtree chunks d (i + i)) (subtree chunks d (i + i + 1))

  -- A subtree behind the last chunk is a tree over zero chunks.
  pub subtree_behind :
      (chunks : List Bytes) (d i : ℕ) → length chunks ≤ i * 2 ^ d → subtree chunks d i ≡ zero_node d
  unfolding subtree zero_node
  subtree_behind chunks zero i h = padded_behind chunks i (omega arith)
  subtree_behind chunks (suc d) i h =
      let e : i * 2 ^ suc d ≡ (i + i) * 2 ^ d = double_index i d in
      cc (
        subtree_behind chunks d (i + i) (omega (arith, e)),
        subtree_behind chunks d (i + i + 1) (omega (arith, e)),
      )

  -- A place behind the last chunk holds a zero chunk.
  pub leaf_behind :
      (chunks : List Bytes) (i : ℕ) → length chunks ≤ i → nil_hash ≡ subtree chunks 0 i
  unfolding subtree
  leaf_behind chunks i h = sym (padded_behind chunks i h)

  -- One more level over chunks that fit into the left half.
  pub subtree-suc_left :
      (chunks : List Bytes) (d : ℕ)
      → length chunks ≤ 2 ^ d
      → combi hash_fn (subtree chunks d 0) (zero_node d) ≡ subtree chunks (suc d) 0
  unfolding subtree
  subtree-suc_left chunks d h = rw (← subtree_behind chunks d 1 (omega arith))

  pub length-subtree :
      HashLaws
      → (chunks : List Bytes) (d i : ℕ) → AreChunks chunks
      → length (subtree chunks d i) ≡ 32
  unfolding subtree combi
  length-subtree has chunks zero i h = length-padded chunks i h
  length-subtree has chunks (suc d) i h = has.size _

  pub leaf_node :
      (chunks : List Bytes) (i : ℕ)
      → i < length chunks
      → get_elem? chunks i ≡ some (subtree chunks 0 i)
  unfolding subtree
  leaf_node = padded-get_elem?
