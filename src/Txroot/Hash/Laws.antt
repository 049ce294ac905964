-- ===== src/Txroot/Hash/Laws.antt =====
-- What a pooled hasher computes: the hash function, whatever state the pool hands out.
use mev_boost.Common.{drop_beyond, ℕ, ◌≡◌, refl, ap, [], ◌∷◌, length, drop, arith, append-nil}
use mev_boost.Types.{Bytes}
use mev_boost.Txroot.Hash.{Digest, Pools, sum_into, zeros, get, or_create, hash, hash_keccak256}

-- What is relied on in a hasher: a new one and one that was reset have read nothing, so after one
-- Write the sum is the hash of what was written, of 32 bytes.
pub record DigestLaws {H : Type 0} (digest : Digest H) (hash_fn : Bytes → Bytes) : Type 0 where
  pub created : (bs : Bytes) → digest.sum (digest.write bs digest.create) ≡ hash_fn bs
  pub was_reset : (bs : Bytes) (h : H) → digest.sum (digest.write bs (digest.reset h)) ≡ hash_fn bs
  pub size : (bs : Bytes) → length (hash_fn bs) ≡ 32

-- A digest of 32 bytes fills an array of 32 bytes.
pub sum_into_full : (b d : Bytes) → length b ≡ 32 → length d ≡ 32 → sum_into b d ≡ d
unfolding sum_into
sum_into_full b d sized full =
    let rest : drop (length d) b ≡ [] = drop_beyond (length d) b (omega arith) in
    ground (arith, rest, append-nil d)

module _ {H : Type 0} (digest : Digest H) (hash_fn : Bytes → Bytes) where
  -- A hasher from the pool is reset before it reads.
  reset-sum :
      DigestLaws digest hash_fn
      → (bytes : Bytes) (h : H)
      → sum_into zeros (digest.sum (digest.write bytes (digest.reset h))) ≡ hash_fn bytes
  reset-sum laws bytes h =
      rw (laws.was_reset bytes h) (sum_into_full zeros (hash_fn bytes) refl (laws.size bytes))

module _ {H K : Type 0} (sha256 : Digest H) (keccak256 : Digest K) (sha256_fn : Bytes → Bytes)
    (keccak256_fn : Bytes → Bytes) where
  -- `Hash` returns the SHA-256 and `HashKeccak256` the Keccak-256 of its argument, with any hashers
  -- in the two pools, in any states, and whichever of them Get takes, and puts one hasher into the pool
  -- of its kind; the other pool stays. It is assumed of both kinds of hashers that a new one and one
  -- that was reset have read nothing, and that a hash has 32 bytes.
  pub hash_lem :
      DigestLaws sha256 sha256_fn
      → DigestLaws keccak256 keccak256_fn
      → (pick : ℕ) (bytes : Bytes) (pools : Pools H K)
      → ((h : H) × (hash sha256 keccak256 pick bytes pools ≡ (
        sha256_fn bytes,
        record pools { sha256_pool = h ∷ (get sha256 pick pools.sha256_pool).pool },
      )))
        × ((k : K) × (hash_keccak256 sha256 keccak256 pick bytes pools ≡ (
          keccak256_fn bytes,
          record pools { keccak256_pool = k ∷ (get keccak256 pick pools.keccak256_pool).pool },
        )))
  unfolding hash hash_keccak256
  hash_lem sha256_laws keccak256_laws pick bytes pools =
      let got = get sha256 pick pools.sha256_pool in
      let h = sha256.write bytes (sha256.reset (or_create sha256 got.item)) in
      let got' = get keccak256 pick pools.keccak256_pool in
      let k = keccak256.write bytes (keccak256.reset (or_create keccak256 got'.item)) in
      (
        (
          h,
          ap (λ b. (b, record pools { sha256_pool = h ∷ got.pool }))
              (reset-sum sha256 sha256_fn sha256_laws bytes (or_create sha256 got.item)),
        ),
        (
          k,
          ap (λ b. (b, record pools { keccak256_pool = k ∷ got'.pool }))
              (reset-sum keccak256 keccak256_fn keccak256_laws bytes
                (or_create keccak256 got'.item)),
        ),
      )
