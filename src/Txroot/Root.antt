-- ===== src/Txroot/Root.antt =====
-- `TransactionsRoot` of lib/txroot/txroot.go, with `packChunks`, `transactionRoot` and
-- `MixInLength`. SHA-256 is a parameter. Lengths are below 2 ^ 63, as those of Go's slices are.
pub mod Pack
pub mod Correct
pub mod Ends
use mev_boost.Common.{
  ℕ, zero, suc, ◌+◌, ◌-◌, ◌*◌, ◌/◌, ◌%◌, List, [], ◌∷◌, ◌++◌, ltb, nat_beq, if◌then◌else◌, length,
  set, take, drop, replicate,
}
use mev_boost.Types.{Bytes, Hash}
use mev_boost.Txroot.Result.{Result, ok, out_of_fuel, ◌>>=◌, index}
use mev_boost.Txroot.Merkle.{copy, bitwise_merkleize}

abbrev pub max_transactions_per_payload : ℕ
max_transactions_per_payload = 1048576

abbrev pub max_bytes_per_transaction : ℕ
max_bytes_per_transaction = 1073741824

-- bytes[i:j]
abbrev pub slice : Bytes → ℕ → ℕ → Bytes
slice bytes i j = take (j - i) (drop i bytes)

-- for i := …; i < numItems; i += 32 { … }
unfoldable pub pack_loop : ℕ → ℕ → Bytes → List Bytes → Result (List Bytes)
pack_loop zero i bytes chunks = out_of_fuel
pack_loop (suc fuel) i bytes chunks =
    let num_items = length bytes in
    let j = if ltb num_items (i + 32) then num_items else i + 32 in
    let rest = pack_loop fuel (i + 32) bytes (chunks ++ slice bytes i j ∷ []) in
    if ltb i num_items then rest else ok chunks

-- for len(lastChunk) < 32 { lastChunk = append(lastChunk, 0) }
unfoldable pub pad_loop : ℕ → Bytes → Result Bytes
pad_loop zero last_chunk = out_of_fuel
pad_loop (suc fuel) last_chunk =
    let rest = pad_loop fuel (last_chunk ++ 0 ∷ []) in
    if ltb (length last_chunk) 32 then rest else ok last_chunk

-- The last chunk is padded to 32 bytes, which takes 33 tests at most.
unfoldable pub pad_last : List Bytes → Result (List Bytes)
pad_last chunks =
    let last = length chunks - 1 in
    index chunks last >>= λ c. pad_loop 33 c >>= λ padded. ok (set chunks last padded)

-- The loop makes fewer rounds than there are bytes, and one test more.
unfoldable pub pack_chunks : Bytes → Result (List Bytes)
pack_chunks bytes = pack_loop (length bytes + 1) 0 bytes [] >>= λ chunks.
    if nat_beq (length chunks) 0 then ok chunks else pad_last chunks

-- binary.Write of a uint64 in little-endian order.
unfoldable pub little_endian : ℕ → ℕ → Bytes
little_endian zero n = []
little_endian (suc k) n = n % 256 ∷ little_endian k (n / 256)

-- The 32 bytes that hold a length.
unfoldable pub length_bytes : ℕ → Bytes
length_bytes n = copy (replicate 32 0) (little_endian 8 n)

module _ (sha256 : Bytes → Hash) where
  unfoldable pub mix_in_length : Hash → Bytes → Hash
  mix_in_length root len = sha256 (root ++ len)

  unfoldable pub transaction_root : Bytes → Result Hash
  transaction_root tx = pack_chunks tx >>= λ chunked_roots.
      bitwise_merkleize sha256 chunked_roots (length chunked_roots)
        ((max_bytes_per_transaction + 31) / 32)
      >>= λ bytes_root. ok (mix_in_length bytes_root (length_bytes (length tx)))

  -- The loop of `TransactionsRoot` over the transactions that are left.
  unfoldable pub transaction_roots : List Bytes → List Hash → Result (List Hash)
  transaction_roots [] list_marshaling = ok list_marshaling
  transaction_roots (tx ∷ txs) list_marshaling =
      transaction_root tx >>= λ rt. transaction_roots txs (list_marshaling ++ rt ∷ [])

  unfoldable pub transactions_root : List Bytes → Result Hash
  transactions_root txs = transaction_roots txs [] >>= λ list_marshaling.
      bitwise_merkleize sha256 list_marshaling (length list_marshaling) max_transactions_per_payload
      >>= λ bytes_root. ok (mix_in_length bytes_root (length_bytes (length txs)))
