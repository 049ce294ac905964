-- ===== src/Txroot/Hash.antt =====
-- lib/txroot/hash.go: SHA-256 and Keccak-256 by hashers that are taken from a pool. What a
-- hasher of the crypto libraries does is the parameter `Digest`, over the type H of its states; the
-- two hash functions have one each.
use mev_boost.Common.{
  ℕ, zero, suc, Option, none, some, List, [], ◌∷◌, ◌++◌, if◌then◌else◌, ltb, length, drop,
  replicate,
}
use mev_boost.Types.{Bytes}
pub mod Laws
pub mod Sequences

-- hash.Hash; `sum` is what Sum appends.
pub record Digest (H : Type 0) : Type 0 where
  pub create : H
  pub write : Bytes → H → H
  pub sum : H → Bytes
  pub reset : H → H

-- A sync.Pool. Get takes any item out of it, or none of them and then calls New: `pick` is the
-- item's place, and a place behind the last item stands for New.
pub record Got (H : Type 0) : Type 0 where
  pub item : Option H
  pub pool : List H

abbrev keep : {H : Type 0} → H → Got H → Got H
keep h got = record got { pool = h ∷ got.pool }

module _ {H : Type 0} (digest : Digest H) where
  unfoldable pub get : ℕ → List H → Got H
  get pick [] = record { item = some digest.create; pool = [] }
  get zero (h ∷ pool) = record { item = some h; pool = pool }
  get (suc pick) (h ∷ pool) = keep h (get pick pool)

-- var b [32]byte; h.Sum(b[:0]): append writes into b where its 32 bytes suffice, and elsewhere if
-- they do not.
unfoldable pub sum_into : Bytes → Bytes → Bytes
sum_into b d = if ltb (length b) (length d) then b else d ++ drop (length d) b

abbrev pub zeros : Bytes
zeros = replicate 32 0

module _ {H : Type 0} (digest : Digest H) where
  -- `h, ok := pool.Get().(hash.Hash)` and the test of ok.
  abbrev pub or_create : Option H → H
  or_create none = digest.create
  or_create (some h) = h

  -- What the closure of `CustomSHA256Hasher` holds: the hasher and the array h.
  pub record Custom : Type 0 where
    pub hasher : H
    pub h : Bytes

  -- A hasher that comes from the pool is reset, a new one is not.
  abbrev pub reset_or_create : Option H → H
  reset_or_create none = digest.create
  reset_or_create (some h) = digest.reset h

  unfoldable pub custom_sha256_hasher : ℕ → List H → Custom × List H
  custom_sha256_hasher pick pool =
      let got = get digest pick pool in
      (record { hasher = reset_or_create got.item; h = zeros }, got.pool)

  -- A call of the closure: the array that it returns, and what the closure holds afterwards.
  unfoldable pub call : Bytes → Custom → Bytes × Custom
  call bytes c =
      let written = digest.write bytes c.hasher in
      let h = sum_into c.h (digest.sum written) in
      (h, record { hasher = digest.reset written; h = h })

-- sha256Pool and keccak256Pool.
pub record Pools (H K : Type 0) : Type 0 where
  pub sha256_pool : List H
  pub keccak256_pool : List K

module _ {H K : Type 0} (sha256 : Digest H) (keccak256 : Digest K) where
  -- `Hash`. The result is the array, and the pools after Put.
  unfoldable pub hash : ℕ → Bytes → Pools H K → Bytes × Pools H K
  hash pick bytes pools =
      let got = get sha256 pick pools.sha256_pool in
      let h = sha256.write bytes (sha256.reset (or_create sha256 got.item)) in
      (sum_into zeros (sha256.sum h), record pools { sha256_pool = h ∷ got.pool })

  unfoldable pub hash_keccak256 : ℕ → Bytes → Pools H K → Bytes × Pools H K
  hash_keccak256 pick bytes pools =
      let b = zeros in
      let got = get keccak256 pick pools.keccak256_pool in
      let h = keccak256.write bytes (keccak256.reset (or_create keccak256 got.item)) in
      (sum_into b (keccak256.sum h), record pools { keccak256_pool = h ∷ got.pool })
