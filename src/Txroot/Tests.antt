-- ===== src/Txroot/Tests.antt =====
-- Runs of lib/txroot at concrete inputs, with a function in the place of SHA-256 that has the
-- values of the table of zero hashes.
mod Pooled
use mev_boost.Common.{
  ℕ, zero, suc, ◌-◌, ◌*◌, ◌^◌, ◌≤◌, ◌<◌, ◌≡◌, refl, ap, Option, none, some, List, [], ◌∷◌, ◌++◌,
  Bool, true, false, ◌&&◌, ◌==◌, bytes_eq, if◌then◌else◌, length, get_elem?, replicate, concat,
  nat_beq, arith, nat_beq_iff,
}
use native.Mathlib.Decide.{ℕ_discrete}
use mev_boost.Types.{Bytes, Hash}
use mev_boost.Txroot.Result.{ok}
use mev_boost.Txroot.ZeroHashes.{zero_hashes}
use mev_boost.Txroot.Depth.{depth, narrow, last}
use mev_boost.Txroot.Depth.Bounds.{depth_log2}
use mev_boost.Txroot.Merkle.{
  bitwise_merkleize, merkleize, merge_leaves, merge, merge_up, complement, extend, combi, copy,
  store,
}
use mev_boost.Txroot.Merkle.Tree.{HashLaws, AreChunks, subtree}
use mev_boost.Txroot.Merkle.Correct.{bitwise_merkleize-subtree}
use mev_boost.Txroot.Root.{
  transactions_root, pack_chunks, transaction_roots, transaction_root, pack_loop, pad_last,
  pad_loop, mix_in_length, length_bytes, little_endian,
}
use mev_boost.Txroot.Root.Pack.{pack_chunks_lem}
use mev_boost.Txroot.Root.Correct.{ssz_transactions, transactions_root-ssz}

-- The entry behind the one that the bytes are twice.
abbrev follow : List Hash → Bytes → Hash
follow [] bs = replicate 32 171
follow (z ∷ []) bs = replicate 32 171
follow (z ∷ z' ∷ zs) bs = if bs == z ++ z then z' else follow (z' ∷ zs) bs

-- Every other text has the same hash.
unfoldable pub table_hash : Bytes → Hash
table_hash bs = follow zero_hashes bs

-- Whether every entry has 32 bytes.
abbrev sized : List Hash → Bool
sized [] = true
sized (z ∷ zs) = nat_beq (length z) 32 && sized zs

sized-follow : (zs : List Hash) (bs : Bytes) → sized zs ≡ true → length (follow zs bs) ≡ 32
sized-follow [] bs h = refl
sized-follow (z ∷ []) bs h = refl
sized-follow (z ∷ z' ∷ zs) bs h =
    ground (arith, sized-follow (z' ∷ zs) bs, nat_beq_iff (length z') 32)

table-sized : sized zero_hashes ≡ true
unfolding zero_hashes
table-sized = refl

-- Whether the entry at j has the entry behind it as its hash.
abbrev linked : ℕ → Option Hash → Option Hash → Bool
linked j (some z) (some z') = z' == table_hash (z ++ z)
linked j o none = false
linked j none (some z') = true

abbrev linked_below : ℕ → Bool
linked_below zero = true
linked_below (suc n) =
    linked n (get_elem? zero_hashes n) (get_elem? zero_hashes (suc n)) && linked_below n

table-linked : linked_below 99 ≡ true
unfolding zero_hashes table_hash
table-linked = refl

linked_sound :
    (n j : ℕ)
    → linked_below n ≡ true
    → j < n
    → linked j (get_elem? zero_hashes j) (get_elem? zero_hashes (suc j)) ≡ true
linked_sound zero j h lt = absurd (omega arith)
linked_sound (suc n) j h lt = elim (ℕ_discrete j n) [
  | yes here ↦ ground (arith, here)
  | no below ↦ linked_sound n j (ground arith) (omega arith)
]

linked-equation :
    (j : ℕ) (z : Hash) (o : Option Hash)
    → linked j (some z) o ≡ true
    → o ≡ some (table_hash (z ++ z))
linked-equation j z none h = cc
linked-equation j z (some z') h = ap some ((bytes_eq.beq_iff z' (table_hash (z ++ z))).0 h)

-- The function meets what the development assumes of SHA-256.
pub table_hash-HashLaws : HashLaws table_hash
unfolding table_hash
table_hash-HashLaws = record {
  size = λ bs. sized-follow zero_hashes bs table-sized;
  chain = λ j z lt found.
      linked-equation j z (get_elem? zero_hashes (suc j))
        (rw found at (linked_sound 99 j table-linked lt));
}

depth_log2_example :
    (2 ^ (depth 1048577 - 1) < 1048577)
    × (1048577 ≤ 2 ^ depth 1048577)
    × (depth 1048577 ≤ 64)
    × (depth 0 ≡ 0)
    × (depth 1 ≡ 1)
depth_log2_example = depth_log2 1048577 (omega arith) (omega arith)

bitwise_merkleize-subtree_example :
    bitwise_merkleize table_hash (replicate 3 (replicate 32 9)) 3 5
    ≡ ok (subtree table_hash (replicate 3 (replicate 32 9)) 3 0)
bitwise_merkleize-subtree_example =
    bitwise_merkleize-subtree table_hash (replicate 3 (replicate 32 9)) 5 3 table_hash-HashLaws
      (refl, (refl, (refl, tt))) (omega arith) (omega arith) (omega arith) (λ p. omega arith)

transactions_root-ssz_example :
    transactions_root table_hash ((1 ∷ 2 ∷ []) ∷ (3 ∷ []) ∷ [])
    ≡ ok (ssz_transactions table_hash ((1 ∷ 2 ∷ []) ∷ (3 ∷ []) ∷ []))
transactions_root-ssz_example =
    transactions_root-ssz table_hash table_hash-HashLaws ((1 ∷ 2 ∷ []) ∷ (3 ∷ []) ∷ [])

-- The root of the tree for one transaction of one byte.
pub one_transaction_root : transactions_root table_hash ((1 ∷ []) ∷ []) ≡ ok (replicate 32 171)
unfolding transactions_root transaction_roots transaction_root pack_chunks pack_loop pad_last
    pad_loop mix_in_length length_bytes little_endian bitwise_merkleize merkleize merge_leaves merge
    merge_up complement extend combi copy store depth narrow last zero_hashes table_hash
one_transaction_root = refl
