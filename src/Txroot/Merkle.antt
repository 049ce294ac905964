-- ===== src/Txroot/Merkle.antt =====
-- `Merkleize` and `BitwiseMerkleize` of lib/txroot/txroot.go, over the hash function that the
-- caller hands in (SHA-256), and `Combi` of lib/txroot/hasher.go. A `[32]byte` is a list of 32
-- bytes; an assignment or a copy of one replaces it whole.
pub mod Tree
pub mod Carry
pub mod Merge
pub mod Complement
pub mod Padding
pub mod Correct
pub mod Termination
use mev_boost.Common.{
  ℕ, zero, suc, ◌+◌, ◌-◌, ◌*◌, ◌/◌, ◌%◌, ◌^◌, Option, none, some, List, [], ◌∷◌, ◌++◌, Bool, true,
  false, ◌&&◌, not, nat_beq, ltb, if◌then◌else◌, length, set, take, drop, replicate,
}
use mev_boost.Types.{Bytes, Hash, nil_hash}
use mev_boost.Txroot.Result.{Result, ok, over_limit, panic, out_of_fuel, ◌>>=◌, index}
use mev_boost.Txroot.ZeroHashes.{zero_hashes}
use mev_boost.Txroot.Depth.{depth}

-- copy(dst, src)
unfoldable pub copy : Bytes → Bytes → Bytes
copy dst src = take (length dst) src ++ drop (length src) dst

-- tmp[j] = h
unfoldable pub store : List Hash → ℕ → Hash → Result (List Hash)
store tmp j h = if ltb j (length tmp) then ok (set tmp j h) else panic

-- i&(uint64(1)<<j) == 0
abbrev pub bit_clear : ℕ → ℕ → Bool
bit_clear i j = nat_beq (i / 2 ^ j % 2) 0

-- The rounds of the loop of `merge`: a uint64 has 64 bits, and the loop breaks at the bit 64 at
-- the latest.
abbrev pub merge_fuel : ℕ
merge_fuel = 65

module _ (hash_fn : Bytes → Hash) where
  -- `Combi` fills the buffer of 64 bytes with the two arrays and hashes it.
  unfoldable pub combi : Hash → Hash → Hash
  combi a b = hash_fn (a ++ b)

  module _ (count tree_depth : ℕ) where
    -- The loop of `merge`, until it breaks; it returns j and h.
    unfoldable pub merge_up : ℕ → ℕ → List Hash → ℕ → Hash → Result (ℕ × Hash)
    merge_up zero i tmp j h = out_of_fuel
    merge_up (suc fuel) i tmp j h = elim (bit_clear i j) [
      | true ↦ elim (nat_beq i count && ltb j tree_depth) [
        | true ↦ index zero_hashes j >>= λ z. merge_up fuel i tmp (suc j) (combi h z)
        | false ↦ ok (j, h)
      ]
      | false ↦ index tmp j >>= λ t. merge_up fuel i tmp (suc j) (combi t h)
    ]

    unfoldable pub merge : ℕ → List Hash → Hash → Result (List Hash × Hash)
    merge i tmp h =
        merge_up merge_fuel i tmp 0 h >>= λ (j, h'). store tmp j h' >>= λ tmp'. ok (tmp', h')

    -- for i := …; i < count; i++ { copy(h, leaf(i)); merge(i) }, over the rounds that are left.
    unfoldable pub merge_leaves :
        (ℕ → Result Bytes) → ℕ → ℕ → List Hash → Hash → Result (List Hash × Hash)
    merge_leaves leaf zero i tmp h = ok (tmp, h)
    merge_leaves leaf (suc rounds) i tmp h = leaf i >>= λ l.
        merge i tmp (copy h l) >>= λ (tmp', h'). merge_leaves leaf rounds (i + 1) tmp' h'

    -- if (uint64(1) << depth) != count { copy(h, ZeroHashes[0][:]); merge(count) }
    unfoldable pub complement : List Hash × Hash → Result (List Hash)
    complement (tmp, h) =
        if not (nat_beq (2 ^ tree_depth % 2 ^ 64) count)
        then (index zero_hashes 0 >>= λ z. merge count tmp z >>= λ (tmp', h'). ok tmp')
        else ok tmp

  -- for j := depth; j < limitDepth; j++ { tmp[j+1] = hasher.Combi(tmp[j], ZeroHashes[j]) }
  unfoldable pub extend : ℕ → ℕ → List Hash → Result (List Hash)
  extend zero j tmp = ok tmp
  extend (suc rounds) j tmp = index tmp j >>= λ t. index zero_hashes j >>= λ z.
      store tmp (j + 1) (combi t z) >>= λ tmp'. extend rounds (j + 1) tmp'

  unfoldable pub merkleize : ℕ → ℕ → (ℕ → Result Bytes) → Result Hash
  merkleize count limit leaf =
      if ltb limit count
      then panic
      else if nat_beq limit 0
      then ok nil_hash
      else if nat_beq limit 1
      then (if nat_beq count 1 then (leaf 0 >>= λ l. ok (copy nil_hash l)) else ok nil_hash)
      else merge_leaves count (depth count) leaf count 0 (replicate (depth limit + 1) nil_hash)
          nil_hash
        >>= λ s. complement count (depth count) s >>= λ tmp.
            extend (depth limit - depth count) (depth count) tmp >>= λ tmp'.
            index tmp' (depth limit)

  unfoldable pub bitwise_merkleize : List Bytes → ℕ → ℕ → Result Hash
  bitwise_merkleize chunks count limit =
      if ltb limit count then over_limit else merkleize count limit (λ i. index chunks i)
