-- ===== src/Txroot/Hasher.antt =====
-- lib/txroot/hasher.go: `HasherFunc`, a hash function with a buffer of 64 bytes that its methods
-- write the two halves of their input into. A method returns the hash and the changed buffer.
use mev_boost.Common.{ℕ, ◌++◌, take, drop, replicate}
use mev_boost.Types.{Bytes, Hash}
use mev_boost.Txroot.Merkle.{copy}
use mev_boost.Txroot.Root.{little_endian}
pub mod Laws

pub record HasherFunc : Type 0 where
  pub b : Bytes
  pub hash_func : Bytes → Hash

-- copy(dst[off:], src)
unfoldable pub copy_at : ℕ → Bytes → Bytes → Bytes
copy_at off dst src = take off dst ++ copy (drop off dst) src

unfoldable pub new_hasher_func : (Bytes → Hash) → HasherFunc
new_hasher_func h = record { b = replicate 64 0; hash_func = h }

unfoldable pub hash : Bytes → HasherFunc → Hash
hash a h = h.hash_func a

-- copy(h.b[:32], a[:]) and copy(h.b[32:], b[:])
unfoldable pub combi : Hash → Hash → HasherFunc → Hash × HasherFunc
combi a b h =
    let left = record h { b = copy (take 32 h.b) a ++ drop 32 h.b } in
    let both = record left { b = copy_at 32 left.b b } in (hash both.b both, both)

-- PutUint64 writes the eight bytes of i at the start of h.b[32:].
unfoldable pub mix_in : Hash → ℕ → HasherFunc → Hash × HasherFunc
mix_in a i h =
    let left = record h { b = copy (take 32 h.b) a ++ drop 32 h.b } in
    let zeroed = record left { b = copy_at 32 left.b (replicate 32 0) } in
    let both = record zeroed { b = copy_at 32 zeroed.b (little_endian 8 i) } in
    (hash both.b both, both)
