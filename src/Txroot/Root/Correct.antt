-- ===== src/Txroot/Root/Correct.antt =====
-- `TransactionsRoot` computes the hash tree root that the consensus specification (SSZ) gives the
-- transactions field of an execution payload.
use mev_boost.Common.{
  ℕ, suc, ◌^◌, ◌/◌, ◌%◌, replicate, ◌≡◌, refl, sym, ap, ◌∙◌, List, [], ◌∷◌, ◌++◌, map, arith,
  length, Bool, ltb, not, ◌&&◌, Bool-cases, inl, inr, true, false, if◌then◌else◌, append-nil,
  append_assoc,
}
use mev_boost.Types.{Bytes, Hash}
use mev_boost.Txroot.Result.{Result, ok, over_limit, ◌>>=◌}
use mev_boost.Txroot.Merkle.{copy}
use mev_boost.Txroot.Merkle.Tree.{subtree, HashLaws, AreChunks}
use mev_boost.Txroot.Merkle.Correct.{bitwise_merkleize-subtree}
use mev_boost.Txroot.Root.{
  length_bytes, little_endian, mix_in_length, transaction_root, transaction_roots,
  transactions_root,
}
use mev_boost.Txroot.Root.Pack.{
  ssz_chunks, chunk_count, pack_chunks-ssz_chunks, ssz_chunks-AreChunks, length-ssz_chunks,
}

-- A length as a chunk: its 64 bits in little-endian order, and zeros.
unfoldable pub ssz_length : ℕ → Hash
ssz_length n = map (λ i. n / 256 ^ i % 256) (0 ∷ 1 ∷ 2 ∷ 3 ∷ 4 ∷ 5 ∷ 6 ∷ 7 ∷ []) ++ replicate 24 0

length_bytes-ssz_length : (n : ℕ) → length_bytes n ≡ ssz_length n
unfolding length_bytes little_endian copy ssz_length
length_bytes-ssz_length n = ground arith

module _ (sha256 : Bytes → Hash) where
  -- hash_tree_root of a ByteList[2^30]: a tree of height 25 over the chunks, and the length.
  abbrev pub ssz_transaction : Bytes → Hash
  ssz_transaction tx =
      sha256
        (subtree sha256 (ssz_chunks (chunk_count (length tx)) tx) 25 0 ++ ssz_length (length tx))

  -- hash_tree_root of a List[ByteList[2^30], 2^20]: a tree of height 20 over the roots.
  abbrev pub ssz_transactions : List Bytes → Hash
  ssz_transactions txs =
      sha256 (subtree sha256 (map ssz_transaction txs) 20 0 ++ ssz_length (length txs))

  mix_in_length-ssz_length :
      (root : Hash) (n : ℕ)
      → mix_in_length sha256 root (length_bytes n) ≡ sha256 (root ++ ssz_length n)
  unfolding mix_in_length
  mix_in_length-ssz_length root n = ap (λ bs. sha256 (root ++ bs)) (length_bytes-ssz_length n)

-- No transaction has more than 2 ^ 30 bytes.
abbrev pub all_fit : List Bytes → Bool
all_fit [] = true
all_fit (tx ∷ txs) = not (ltb (2 ^ 30) (length tx)) && all_fit txs

chunk_test : (n : ℕ) → ltb 33554432 (chunk_count n) ≡ ltb (2 ^ 30) n
chunk_test n = ground arith

if_bind :
    (b : Bool) (r : Result Hash) (f : Hash → Result Hash)
    → ((if b then over_limit else r) >>= f) ≡ (if b then over_limit else (r >>= f))
if_bind true r f = refl
if_bind false r f = refl

if_not_bind :
    (b : Bool) (r : Result Hash) (f : Hash → Result Hash)
    → ((if b then over_limit else r) >>= f) ≡ (if not b then (r >>= f) else over_limit)
if_not_bind true r f = refl
if_not_bind false r f = refl

module _ (sha256 : Bytes → Hash) (laws : HashLaws sha256) where
  -- The root of one transaction is its SSZ root; a transaction of more than 2 ^ 30 bytes is
  -- refused.
  pub transaction_root-ssz :
      (tx : Bytes)
      → transaction_root sha256 tx
        ≡ (if ltb (2 ^ 30) (length tx) then over_limit else ok (ssz_transaction sha256 tx))
  unfolding transaction_root
  transaction_root-ssz tx =
      let n = chunk_count (length tx) in
      let chunks = ssz_chunks n tx in
      let tree =
        bitwise_merkleize-subtree sha256 chunks 33554432 25 laws (ssz_chunks-AreChunks n tx)
          (omega arith) (omega arith) (omega arith) (λ p. omega arith) in
      rw (pack_chunks-ssz_chunks tx) (
        rw (tree, length-ssz_chunks n tx, chunk_test (length tx))
          (if_bind (ltb (2 ^ 30) (length tx)) (ok (subtree sha256 chunks 25 0))
              (λ root. ok (mix_in_length sha256 root (length_bytes (length tx))))
            ∙ ap (λ h. if ltb (2 ^ 30) (length tx) then over_limit else ok h)
                (mix_in_length-ssz_length sha256 (subtree sha256 chunks 25 0) (length tx))))

  transaction_roots-ssz :
      (txs : List Bytes) (acc : List Hash)
      → transaction_roots sha256 txs acc
        ≡ (if all_fit txs then ok (acc ++ map (ssz_transaction sha256) txs) else over_limit)
  unfolding transaction_roots
  transaction_roots-ssz [] acc = ap ok (sym (append-nil acc))
  transaction_roots-ssz (tx ∷ txs) acc = elim (Bool-cases (ltb (2 ^ 30) (length tx))) [
    | inl large ↦ rw (transaction_root-ssz tx) (rw large)
    | inr fits ↦ rw (transaction_root-ssz tx) (
        rw fits (
          transaction_roots-ssz txs (acc ++ ssz_transaction sha256 tx ∷ [])
          ∙ rw (
              append_assoc acc (ssz_transaction sha256 tx ∷ [])
                (map (ssz_transaction sha256) txs))))
  ]

  map-AreChunks : (txs : List Bytes) → AreChunks (map (ssz_transaction sha256) txs)
  map-AreChunks [] = tt
  map-AreChunks (tx ∷ txs) = (laws.size _, map-AreChunks txs)

  length-roots : (txs : List Bytes) → length (map (ssz_transaction sha256) txs) ≡ length txs
  length-roots [] = refl
  length-roots (tx ∷ txs) = ap suc (length-roots txs)

  -- For every list of transactions `TransactionsRoot` returns the SSZ hash tree root of a
  -- List[ByteList[2^30], 2^20] if there are at most 2 ^ 20 transactions of at most 2 ^ 30 bytes
  -- each, and the error otherwise; it does not panic and its loops end. It is assumed of SHA-256
  -- that it returns 32 bytes and has the values of the table `ZeroHashes`.
  pub transactions_root-ssz :
      (txs : List Bytes)
      → transactions_root sha256 txs ≡ (
          if all_fit txs && not (ltb (2 ^ 20) (length txs))
          then ok (ssz_transactions sha256 txs)
          else over_limit)
  unfolding transactions_root
  transactions_root-ssz txs = elim (Bool-cases (all_fit txs)) [
    | inr large ↦ rw (transaction_roots-ssz txs []) (rw large)
    | inl fits ↦
        let roots = map (ssz_transaction sha256) txs in
        let tree =
          bitwise_merkleize-subtree sha256 roots 1048576 20 laws (map-AreChunks txs) (omega arith)
            (omega arith) (omega arith) (λ p. omega arith) in
        rw (transaction_roots-ssz txs []) (
          rw fits (
            rw tree (
              rw (length-roots txs) (
                if_not_bind (ltb (2 ^ 20) (length txs)) (ok (subtree sha256 roots 20 0))
                  (λ root. ok (mix_in_length sha256 root (length_bytes (length txs))))
                ∙ ap (λ h. if not (ltb (2 ^ 20) (length txs)) then ok h else over_limit)
                    (mix_in_length-ssz_length sha256 (subtree sha256 roots 20 0) (length txs))))))
  ]
