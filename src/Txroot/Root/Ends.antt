-- ===== src/Txroot/Root/Ends.antt =====
-- `TransactionsRoot` ends for every hash function and all transactions: no loop is cut off.
use mev_boost.Common.{
  ℕ, ◌<◌, ◌+◌, ◌/◌, ◌^◌, ◌≡◌, refl, inl, inr, List, [], ◌∷◌, ◌++◌, true, ltb, length, arith,
  Bool-cases,
}
use mev_boost.Types.{Bytes, Hash}
use mev_boost.Txroot.Merkle.{bitwise_merkleize}
use mev_boost.Txroot.Merkle.Termination.{finishes, bind-finishes, bitwise_merkleize-finishes}
use mev_boost.Txroot.Root.{
  pack_chunks, transaction_root, transaction_roots, transactions_root, max_bytes_per_transaction,
  max_transactions_per_payload,
}
use mev_boost.Txroot.Root.Pack.{pack_chunks_lem}

module _ (sha256 : Bytes → Hash) where
  -- A count above the limit is refused, and a limit is a uint64.
  limited-finishes :
      (chunks : List Bytes) (count limit : ℕ)
      → limit < 2 ^ 64
      → finishes (bitwise_merkleize sha256 chunks count limit) ≡ true
  unfolding bitwise_merkleize
  limited-finishes chunks count limit small = elim (Bool-cases (ltb limit count)) [
    | inl over ↦ rw (over, bitwise_merkleize) refl
    | inr within ↦ bitwise_merkleize-finishes sha256 chunks count limit (ground (arith, within))
  ]

  pack_chunks-finishes : (tx : Bytes) → finishes (pack_chunks tx) ≡ true
  pack_chunks-finishes tx =
      let (chunks, packed, sized, count, whole) = pack_chunks_lem tx in rw packed refl

  transaction_root-finishes : (tx : Bytes) → finishes (transaction_root sha256 tx) ≡ true
  unfolding transaction_root
  transaction_root-finishes tx =
      bind-finishes (pack_chunks tx) _ (pack_chunks-finishes tx) (λ chunks.
        bind-finishes
          (bitwise_merkleize sha256 chunks (length chunks) ((max_bytes_per_transaction + 31) / 32))
          _
          (limited-finishes chunks (length chunks) ((max_bytes_per_transaction + 31) / 32)
            (omega arith))
          (λ root. refl))

  transaction_roots-finishes :
      (txs : List Bytes) (acc : List Hash) → finishes (transaction_roots sha256 txs acc) ≡ true
  unfolding transaction_roots
  transaction_roots-finishes [] acc = refl
  transaction_roots-finishes (tx ∷ txs) acc =
      bind-finishes (transaction_root sha256 tx) _ (transaction_root-finishes tx)
        (λ root. transaction_roots-finishes txs (acc ++ root ∷ []))

  pub transactions_root-finishes :
      (txs : List Bytes) → finishes (transactions_root sha256 txs) ≡ true
  unfolding transactions_root
  transactions_root-finishes txs =
      bind-finishes (transaction_roots sha256 txs []) _ (transaction_roots-finishes txs [])
        (λ roots.
          bind-finishes (bitwise_merkleize sha256 roots (length roots) max_transactions_per_payload)
            _ (limited-finishes roots (length roots) max_transactions_per_payload (omega arith))
            (λ root. refl))
